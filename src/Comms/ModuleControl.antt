-- ===== src/Comms/ModuleControl.antt =====
-- include/crisp/comms/ModuleControl.hh and src/comms/ModuleControl.cc: values for the inputs of a
-- module. The class is packed, and `module` is `target` here, the module itself; `values` are the
-- elements of the container. Where the code stops at an assertion, reads through a null pointer or
-- past the end of an array of the configuration, or does not return, the result is `none`.
pub mod Codec
pub mod RoundTrip
pub mod Transfer
pub mod Bits
pub mod Lookup
pub mod Update
pub mod Setting
pub mod Errors
pub mod Clearing
pub mod Tests
use robocrisp.Base.{
  ℕ, zero, suc, ◌+◌, ◌*◌, ◌/◌, ◌%◌, Bool, true, false, ◌&&◌, not, List, [], ◌∷◌, ◌++◌, length, take,
  get_or, get_elem?, map, Option, none, some, ltb, leb, ◌==◌, if◌then◌else◌,
}
use robocrisp.Comms.Buffer.{DecodeBuffer, DecodeResult, read, write}
use robocrisp.Comms.Encoder.{Encoder, ◌>>◌, ◌⨾◌, done, when, each}
use robocrisp.Comms.ModuleInput
use robocrisp.Comms.ModuleInput.{ModuleInput}
use robocrisp.Comms.Module.{Module, all_equal, find_input}
use robocrisp.Comms.Configuration.{Configuration}
use robocrisp.Comms.Message.{if_some}
use robocrisp.Comms.DataValue
use robocrisp.Comms.DataValue.{DataValue}

pub record ValuePair : Type 0 where
  pub input : ModuleInput
  pub value : DataValue

pub record ModuleControl : Type 0 where
  pub module_id : ℕ
  pub input_ids : ℕ
  pub target : Option Module
  pub values : List ValuePair

-- `ModuleControl()`.
abbrev pub blank : ModuleControl
blank = record { module_id = 0; input_ids = 0; target = none; values = [] }

-- `ModuleControl(_module, ...)`.
unfoldable pub new : Option Module → ModuleControl
new none = blank
new (some m) = record blank { module_id = m.id; target = some m }

-- `reset`.
unfoldable pub reset : Option Module → ModuleControl
reset target = record blank { target = target }

-- `ids & (1 << i)`.
unfoldable pub has_bit : ℕ → ℕ → Bool
has_bit ids zero = ids % 2 == 1
has_bit ids (suc i) = has_bit (ids / 2) i

-- `ids | (1 << i)`.
unfoldable pub set_bit : ℕ → ℕ → ℕ
set_bit ids zero = 2 * (ids / 2) + 1
set_bit ids (suc i) = 2 * set_bit (ids / 2) i + ids % 2

-- The last bit of `input_ids`.
abbrev pub clear_bit : ℕ
clear_bit = 15

unfoldable pub is_clear : ModuleControl → Bool
is_clear mc = has_bit mc.input_ids clear_bit

-- The loop of `get_num_values` over `n` bits.
unfoldable pub count_bits : ℕ → ℕ → ℕ
count_bits zero ids = 0
count_bits (suc n) ids = ids % 2 + count_bits n (ids / 2)

unfoldable pub get_num_values : ModuleControl → ℕ
get_num_values mc = if is_clear mc then 0 else count_bits 15 mc.input_ids

-- `HeaderSize`, `offsetof(ModuleControl, module)`.
abbrev pub header_size : ℕ
header_size = 3

-- The first `header_size` bytes of the object.
unfoldable pub header : ModuleControl → List ℕ
header mc = mc.module_id ∷ mc.input_ids % 256 ∷ mc.input_ids / 256 ∷ []

unfoldable pub set_header : ModuleControl → List ℕ → ModuleControl
set_header mc bytes = record mc {
  module_id = get_or bytes 0 0;
  input_ids = get_or bytes 1 0 + 256 * get_or bytes 2 0;
}

-- The loop of `get_encoded_size` over the first `n` values that are there.
unfoldable pub size_of_first : ℕ → List ValuePair → ℕ
size_of_first zero ps = 0
size_of_first (suc n) [] = 0
size_of_first (suc n) (p ∷ ps) = DataValue.get_encoded_size p.value + size_of_first n ps

unfoldable pub get_encoded_size : ModuleControl → ℕ
get_encoded_size mc = header_size + size_of_first (get_num_values mc) mc.values

-- `encode`: the result of the first write is not looked at.
unfoldable pub encode : ModuleControl → Encoder
encode mc =
    (λ b. write b (header mc))
    ⨾ when (not (is_clear mc))
        (each (λ p. DataValue.encode p.value) (take (get_num_values mc) mc.values))
    >> done

-- One round of the loop of `decode`: the bit is not set, or the value of input `i` is read.
unfoldable pub decode_input :
    (ℕ → List ℕ)
    → Module
    → Bool
    → ℕ
    → DecodeBuffer
    → (DecodeBuffer → Option (List ValuePair × DecodeBuffer))
    → Option (List ValuePair × DecodeBuffer)
decode_input fresh m false i b rest = rest b
decode_input fresh m true i b rest =
    if ltb i m.num_inputs
    then if_some (get_elem? m.inputs i) (λ input.
      let (v, b₁) = DataValue.decode fresh input.data_type b in
      if_some (rest b₁) (λ r. some (record { input = input; value = v } ∷ r.0, r.1)))
    else none

-- The loop itself: `n` rounds from `i` on, where `ids` is `input_ids` shifted right by `i`.
unfoldable pub decode_values :
    (ℕ → List ℕ) → Module → ℕ → ℕ → ℕ → DecodeBuffer → Option (List ValuePair × DecodeBuffer)
decode_values fresh m zero i ids b = some ([], b)
decode_values fresh m (suc n) i ids b =
    decode_input fresh m (ids % 2 == 1) i b (decode_values fresh m n (suc i) (ids / 2))

-- `decode`, which sets every field, so that the object decoded into does not matter.
unfoldable pub decode :
    (ℕ → List ℕ)
    → Configuration
    → DecodeBuffer
    → Option (DecodeResult × ModuleControl × DecodeBuffer)
decode fresh config b = if_some (get_elem? b.block b.offset) (λ id.
    if_some (get_elem? config.modules id) (λ target.
      let mc = reset (some target) in
      let (_, bytes, b₁) = read b header_size (header mc) in
      let mc' = set_header mc bytes in
      if is_clear mc'
      then some (DecodeResult.success, mc', b₁)
      else if_some (get_elem? config.modules mc'.module_id) (λ m.
        if_some (decode_values fresh m 16 0 mc'.input_ids b₁)
          (λ r. some (DecodeResult.success, record mc' { values = r.0 }, r.1)))))

unfoldable pub pair_equal : ValuePair → ValuePair → Bool
pair_equal p q = ModuleInput.equal p.input q.input && DataValue.equal p.value q.value

-- `operator ==`, with the assertion that this object has its values.
unfoldable pub equal : ModuleControl → ModuleControl → Option Bool
equal mc o =
    if mc.module_id == o.module_id && mc.input_ids == o.input_ids
    then (if get_num_values mc == length mc.values
        then some (all_equal pair_equal (get_num_values mc) mc.values o.values)
        else none)
    else some false

-- `input_ids |= (1 << id)`, in 16 bits.
unfoldable pub mark : ℕ → ModuleControl → ModuleControl
mark id mc = record mc { input_ids = set_bit mc.input_ids id % 65536 }

-- `clear(input)`.
unfoldable pub clear : ModuleInput → ModuleControl → Option ModuleControl
clear input mc = if get_num_values mc == 0 then some (mark input.head (mark clear_bit mc)) else none

-- `clear(name)`.
unfoldable pub clear_named : List ℕ → ModuleControl → Option ModuleControl
clear_named name mc =
    if get_num_values mc == 0
    then if_some mc.target (λ m. some (mark_found (find_input m name) (mark clear_bit mc)))
    else none
  where
    mark_found : Option ModuleInput → ModuleControl → ModuleControl
    mark_found none mc = mc
    mark_found (some input) mc = mark input.head mc

-- The place of the first pair for an input, counted from `at`: what a pointer to its value says.
unfoldable pub find_pair : ℕ → ℕ → List ValuePair → Option ℕ
find_pair id at [] = none
find_pair id at (p ∷ ps) = if p.input.head == id then some at else find_pair id (suc at) ps

-- A new value-pair for an input, and `sort` for `std::sort` by the inputs' numbers.
unfoldable pub add_pair :
    (List ValuePair → List ValuePair) → ModuleInput → ModuleControl → ModuleControl
add_pair sort input mc = record (mark input.head mc) {
  values = sort (mc.values ++ record { input = input; value = DataValue.new input.data_type } ∷ []);
}

-- The body of `value_for(input)`, where `again` is the call at its end.
abbrev pub value_for_round :
    (List ValuePair → List ValuePair)
    → (ModuleControl → Option (Option ℕ × ModuleControl))
    → ModuleInput
    → ModuleControl
    → Option (Option ℕ × ModuleControl)
value_for_round sort again input mc = if_some mc.target (λ m.
    if leb (get_num_values mc) 15 && ltb input.head m.num_inputs
    then (if has_bit mc.input_ids input.head
        then some (find_pair input.head 0 mc.values, mc)
        else again (add_pair sort input mc))
    else none)

-- `value_for(input)`, at most `fuel` calls deep.
unfoldable pub value_for :
    (List ValuePair → List ValuePair)
    → ℕ
    → ModuleInput
    → ModuleControl
    → Option (Option ℕ × ModuleControl)
value_for sort zero input mc = none
value_for sort (suc fuel) input mc = value_for_round sort (value_for sort fuel input) input mc

-- `value_for(name)`.
unfoldable pub value_for_named :
    (List ValuePair → List ValuePair)
    → ℕ
    → List ℕ
    → ModuleControl
    → Option (Option ℕ × ModuleControl)
value_for_named sort fuel name mc = if_some mc.target (λ m. found (find_input m name))
  where
    found : Option ModuleInput → Option (Option ℕ × ModuleControl)
    found none = some (none, mc)
    found (some input) = value_for sort fuel input mc

-- A change of the element at a place.
unfoldable pub update {ℓ} : {A : Type ℓ} → ℕ → (A → A) → List A → List A
update at f [] = []
update zero f (x ∷ xs) = f x ∷ xs
update (suc at) f (x ∷ xs) = x ∷ update at f xs

-- The bytes of a value are written over those of a pair's value.
unfoldable pub write_pair : List ℕ → ValuePair → ValuePair
write_pair bytes p = record p { value = DataValue.set p.value bytes }

-- The value behind the pointer that `value_for` gave, if it gave one.
unfoldable pub store : List ℕ → Option ℕ → ModuleControl → ModuleControl
store bytes none mc = mc
store bytes (some at) mc = record mc { values = update at (write_pair bytes) mc.values }

-- `set(input, value)`, for the bytes of the value.
unfoldable pub set :
    (List ValuePair → List ValuePair)
    → ℕ
    → ModuleInput
    → List ℕ
    → ModuleControl
    → Option ModuleControl
set sort fuel input bytes mc =
    if_some (value_for sort fuel input mc) (λ r. some (store bytes r.0 r.1))
