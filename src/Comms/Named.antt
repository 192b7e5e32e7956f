-- ===== src/Comms/Named.antt =====
-- include/crisp/comms/decl-defn-macros.hh: the encode and decode methods that the macros
-- NAMED_TYPED_COMMON_FUNC_INLINES and NAMED_TYPED_COMMON_FUNC_DEFNS give to `ModuleInput<>` and
-- `Sensor<>`. Both structs are packed and begin with fields of their own, the name's length and the
-- bit-fields of the data type; the own fields are the parameter `H` here, and the way they stand in
-- the struct is the interface `Head`.
pub mod Codec
use robocrisp.Base.{
  ℕ, ◌+◌, ◌≡◌, Bool, true, false, ◌&&◌, ◌||◌, not, List, [], ◌∷◌, ◌++◌, length, take, drop, get_or,
  Option, none, some, sub_size, bytes_eq, ltb, ◌==◌, if◌then◌else◌,
}
use robocrisp.Comms.Buffer.{EncodeBuffer, DecodeBuffer, EncodeResult, DecodeResult, write, read}
use robocrisp.Comms.DataDeclaration.{DataDeclaration}
use robocrisp.Comms.DataDeclaration
use robocrisp.Comms.Encoder.{Encoder, ◌⨾◌, done, when}

-- How the fields before `name_length` stand in the struct.
pub record Head (H : Type 0) : Type 1 where
  pub size : ℕ
  pub blank : H
  pub bytes : H → List ℕ
  pub of_bytes : List ℕ → H
  pub equal : H → H → Bool
  -- The values that the fields can hold.
  pub Fits : H → Type 0
  pub length-bytes : (h : H) → length (bytes h) ≡ size
  pub of_bytes-bytes : (h : H) → Fits h → of_bytes (bytes h) ≡ h
  pub equal_refl : (h : H) → equal h h ≡ true

-- `name` is null or points to the characters; `owns_name` says that the object frees them.
pub record Named (H : Type 0) : Type 0 where
  pub head : H
  pub name_length : ℕ
  pub data_type : DataDeclaration
  pub name : Option (List ℕ)
  pub owns_name : Bool

abbrev pub is_some {ℓ} : {A : Type ℓ} → Option A → Bool
is_some none = false
is_some (some a) = true

-- The first `n` characters of a name.
abbrev pub name_bytes : Option (List ℕ) → ℕ → List ℕ
name_bytes none n = []
name_bytes (some chars) n = take n chars

-- `if ( generic.name_length && generic.name ) buf.write(generic.name, generic.name_length);`
unfoldable pub encode_name : Option (List ℕ) → ℕ → Encoder
encode_name name n = when (not (n == 0) && is_some name) (λ b. write b (name_bytes name n))

-- `if ( buf.length - buf.offset < get_encoded_size() ) return INSUFFICIENT_SPACE;`
unfoldable pub with_room : ℕ → Encoder → Encoder
with_room size e b =
    if ltb (sub_size (length b.block) b.offset) size
    then (EncodeResult.insufficient_space, b)
    else e b

-- The name part of `decode_copy`. `fresh n` is what `new char[n]` holds: where the read fails, the
-- name keeps it.
unfoldable pub decode_name : (ℕ → List ℕ) → ℕ → DecodeBuffer → Option (List ℕ) × Bool × DecodeBuffer
decode_name fresh n b =
    if n == 0
    then (none, false, b)
    else (let (_, chars, b') = read b n (take n (fresh (n + 1))) in
        (some (chars ++ 0 ∷ []), true, b'))

module _ {H : Type 0} (c : Head H) where
  abbrev pub header_size : ℕ
  header_size = c.size + (1 + DataDeclaration.header_size)

  unfoldable pub header : Named H → List ℕ
  header m = c.bytes m.head ++ (m.name_length ∷ DataDeclaration.header m.data_type)

  -- The default constructor.
  abbrev pub blank : Named H
  blank = record {
    head = c.blank;
    name_length = 0;
    data_type = DataDeclaration.blank;
    name = none;
    owns_name = false;
  }

  -- The struct after its header was overwritten.
  unfoldable pub set_header : Named H → List ℕ → Named H
  set_header m bytes = record m {
    head = c.of_bytes (take c.size bytes);
    name_length = get_or bytes c.size 0;
    data_type = DataDeclaration.set_header m.data_type (drop (c.size + 1) bytes);
  }

  -- The length of the name is a parameter: `ModuleInput<>` and `Sensor<>` find it in their own ways.
  unfoldable pub get_tail_size : (Named H → ℕ) → Named H → ℕ
  get_tail_size get_name_length m = get_name_length m + DataDeclaration.get_tail_size m.data_type

  unfoldable pub get_encoded_size : (Named H → ℕ) → Named H → ℕ
  get_encoded_size get_name_length m = header_size + get_tail_size get_name_length m

  unfoldable pub encode : (Named H → ℕ) → Named H → Encoder
  encode get_name_length m = with_room (get_encoded_size get_name_length m) (
      (λ b. write b (header m))
      ⨾ DataDeclaration.encode_tail m.data_type
      ⨾ encode_name m.name m.name_length
      ⨾ done)

  -- `decode_copy`: no result of a read is looked at.
  unfoldable pub decode_copy : (ℕ → List ℕ) → DecodeBuffer → Named H × DecodeBuffer
  decode_copy fresh b =
      let (_, bytes, b₁) = read b header_size (header blank) in
      let out = set_header blank bytes in
      let (_, type, b₂) = DataDeclaration.decode_tail out.data_type b₁ in
      let (name, owns, b₃) = decode_name fresh out.name_length b₂ in
      (record out { data_type = type; name = name; owns_name = owns }, b₃)

  -- `operator ==`.
  unfoldable pub equal : (Named H → ℕ) → Named H → Named H → Bool
  equal get_name_length m o =
      c.equal m.head o.head
      && get_name_length m == get_name_length o
      && DataDeclaration.equal m.data_type o.data_type
      && (get_name_length m == 0
          || bytes_eq (name_bytes m.name (get_name_length m))
              (name_bytes o.name (get_name_length m)))
