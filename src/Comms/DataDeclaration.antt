-- ===== src/Comms/DataDeclaration.antt =====
-- `DataDeclarationBase<>` of include/crisp/comms/DataDeclarationBase.hh and
-- src/comms/DataDeclaration.cc: the declared type of an input or a sensor.
-- The struct is packed: its three header bytes hold the bit-fields, from the lowest bit on, as the
-- compilers that the project targets lay them out. The three arrays `neutral_value`,
-- `minimum_value` and `maximum_value` of 16 bytes stand one behind the other, so they are one block
-- here, and a `width` above 16 runs into the next array as it does there.
pub mod Header
pub mod Codec
pub mod Equality
pub mod Typed
use robocrisp.Base.{
  ℕ, ◌+◌, ◌-◌, ◌*◌, ◌/◌, ◌%◌, Bool, true, false, ◌&&◌, ◌||◌, not, List, [], ◌∷◌, length, get_or,
  replicate, slice, memcpy, sub_size, bytes_eq, ltb, ◌==◌, bool_eq, if◌then◌else◌,
}
use robocrisp.Comms.Buffer.{EncodeBuffer, DecodeBuffer, DecodeResult, write, read}
use robocrisp.Comms.Encoder.{Encoder, ◌>>◌, when}

-- The values of `DataType`. A decoded field may hold any number of six bits.
abbrev pub undefined : ℕ
undefined = 0

abbrev pub boolean : ℕ
boolean = 1

abbrev pub integer : ℕ
integer = 2

abbrev pub float : ℕ
float = 3

abbrev pub string : ℕ
string = 4

pub record DataDeclaration : Type 0 where
  pub type : ℕ
  pub width : ℕ
  pub is_array : Bool
  pub is_signed : Bool
  pub has_neutral_value : Bool
  pub has_minimum_value : Bool
  pub has_maximum_value : Bool
  pub array_size_width : ℕ
  pub values : List ℕ

-- The places of the three arrays in the block.
abbrev pub neutral_value : ℕ
neutral_value = 0

abbrev pub minimum_value : ℕ
minimum_value = 16

abbrev pub maximum_value : ℕ
maximum_value = 32

abbrev pub no_values : List ℕ
no_values = replicate 48 0

-- The default constructor.
abbrev pub blank : DataDeclaration
blank = record {
  type = undefined;
  width = 0;
  is_array = false;
  is_signed = false;
  has_neutral_value = false;
  has_minimum_value = false;
  has_maximum_value = false;
  array_size_width = 0;
  values = no_values;
}

abbrev pub bit : Bool → ℕ
bit true = 1
bit false = 0

-- Bit `k` of a byte, where `p` is 2 ^ k.
abbrev pub test_bit : ℕ → ℕ → Bool
test_bit byte p = (byte / p) % 2 == 1

-- The number of header bytes, `offsetof(DataDeclarationBase<>, neutral_value)`.
abbrev pub header_size : ℕ
header_size = 3

-- The first `header_size` bytes of the struct.
unfoldable pub header : DataDeclaration → List ℕ
header d =
    (d.type + 64 * (d.width % 4))
    ∷ (d.width / 4
        + 8 * bit d.is_array
        + 16 * bit d.is_signed
        + 32 * bit d.has_neutral_value
        + 64 * bit d.has_minimum_value
        + 128 * bit d.has_maximum_value)
    ∷ d.array_size_width
    ∷ []

-- The struct after its first `header_size` bytes were overwritten.
unfoldable pub set_header : DataDeclaration → List ℕ → DataDeclaration
set_header d bytes = record {
  type = b0 % 64;
  width = b0 / 64 + 4 * (b1 % 8);
  is_array = test_bit b1 8;
  is_signed = test_bit b1 16;
  has_neutral_value = test_bit b1 32;
  has_minimum_value = test_bit b1 64;
  has_maximum_value = test_bit b1 128;
  array_size_width = get_or bytes 2 0;
  values = d.values;
}
  where
    b0 : ℕ
    b0 = get_or bytes 0 0

    b1 : ℕ
    b1 = get_or bytes 1 0

unfoldable pub get_tail_size : DataDeclaration → ℕ
get_tail_size d =
    d.width * (bit d.has_neutral_value + bit d.has_minimum_value + bit d.has_maximum_value)

unfoldable pub get_encoded_size : DataDeclaration → ℕ
get_encoded_size d = header_size + get_tail_size d

-- The `width` bytes of a value.
abbrev pub value : DataDeclaration → ℕ → List ℕ
value d at = slice d.values at d.width

-- `encode_tail`: the values that are declared, in order.
unfoldable pub encode_tail : DataDeclaration → Encoder
encode_tail d =
    when d.has_neutral_value (λ b. write b (value d neutral_value))
    >> when d.has_minimum_value (λ b. write b (value d minimum_value))
    >> when d.has_maximum_value (λ b. write b (value d maximum_value))

-- `encode` for generic declarations.
unfoldable pub encode : DataDeclaration → Encoder
encode d = (λ b. write b (header d)) >> encode_tail d

-- One of the reads of `decode_tail`: `dr = buf.read(&obj.value, obj.width)`. The three values are one
-- block of 48 bytes. A width above 16 runs over the end of the value, here and in the source; what the source
-- writes behind the last value, past the struct, is dropped here.
unfoldable pub decode_value :
    Bool → ℕ → DataDeclaration → DecodeBuffer → DecodeResult × DataDeclaration × DecodeBuffer
decode_value false at d b = (DecodeResult.success, d, b)
decode_value true at d b =
    let (dr, bytes, b') = read b d.width (value d at) in
    (dr, record d { values = memcpy d.values at bytes }, b')

-- `dr == DecodeResult::SUCCESS &&` before the next read.
abbrev pub on_success :
    DecodeResult × DataDeclaration × DecodeBuffer
    → (DataDeclaration → DecodeBuffer → DecodeResult × DataDeclaration × DecodeBuffer)
    → DecodeResult × DataDeclaration × DecodeBuffer
on_success (DecodeResult.success, d, b) f = f d b
on_success r f = r

-- `decode_tail`: the tail must be there as a whole; then the declared values are read in order.
unfoldable pub decode_tail :
    DataDeclaration → DecodeBuffer → DecodeResult × DataDeclaration × DecodeBuffer
decode_tail d b =
    if ltb (sub_size (length b.block) b.offset) (get_tail_size d)
    then (DecodeResult.buffer_underflow, d, b)
    else on_success (decode_value d.has_neutral_value neutral_value d b) (λ d b.
      on_success (decode_value d.has_minimum_value minimum_value d b)
        (λ d b. decode_value d.has_maximum_value maximum_value d b))

-- `decode`: the struct is cleared, the header read, and then the tail.
unfoldable pub decode : DecodeBuffer → DecodeResult × DataDeclaration × DecodeBuffer
decode b =
    let (dr, bytes, b') = read b header_size (header blank) in
    on_success (dr, set_header blank bytes, b') decode_tail

-- One of the values in `operator ==`: absent, or the same bytes.
abbrev pub same_value : Bool → ℕ → DataDeclaration → DataDeclaration → Bool
same_value present at d o = not present || bytes_eq (value d at) (slice o.values at d.width)

-- `operator ==`. It compares neither `is_array` nor `array_size_width`.
unfoldable pub equal : DataDeclaration → DataDeclaration → Bool
equal d o =
    d.type == o.type
    && d.width == o.width
    && bool_eq d.is_signed o.is_signed
    && bool_eq d.has_neutral_value o.has_neutral_value
    && same_value d.has_neutral_value neutral_value d o
    && bool_eq d.has_minimum_value o.has_minimum_value
    && same_value d.has_minimum_value minimum_value d o
    && bool_eq d.has_maximum_value o.has_maximum_value
    && same_value d.has_maximum_value maximum_value d o
