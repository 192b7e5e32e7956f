-- ===== src/Comms/DataValue.antt =====
-- include/crisp/comms/DataValue.hh and src/comms/DataValue.cc: a value of a declared type, as its
-- bytes. A value that was moved from, whose pointer is null, is not modelled.
pub mod Codec
use robocrisp.Base.{
  ℕ, zero, suc, ◌+◌, ◌*◌, ◌%◌, Bool, true, ◌&&◌, List, [], ◌∷◌, length, take, replicate, memcpy,
  size_mod, sub_size, bytes_eq, ltb, if◌then◌else◌,
}
use robocrisp.Comms.Buffer.{DecodeBuffer, read, write}
use robocrisp.Comms.Encoder.{Encoder}
use robocrisp.Comms.DataDeclaration.{DataDeclaration}
use robocrisp.Comms.DataDeclaration

pub record DataValue : Type 0 where
  pub data_type : DataDeclaration
  pub value : List ℕ
  pub owns_value : Bool

-- `DataValue(DataDeclaration<>&&)`: zero bytes.
unfoldable pub new : DataDeclaration → DataValue
new type = record { data_type = type; value = replicate type.width 0; owns_value = true }

-- The number that bytes say, the lowest first.
unfoldable pub number : List ℕ → ℕ
number [] = 0
number (x ∷ xs) = x + 256 * number xs

-- `count`, a `size_t` that is 1 unless the type is an array and its bytes are there. As many bytes as
-- a value has are read over it; those behind its eighth are not its own.
unfoldable pub decode_count : DataDeclaration → DecodeBuffer → ℕ × DecodeBuffer
decode_count type b =
    if type.is_array
    then (let (_, bytes, b') = read b type.width [] in
        (number (memcpy (1 ∷ replicate 7 0) 0 bytes), b'))
    else (1, b)

-- The decode constructor, for the bytes that `new uint8_t[n]` gives: they stay where a read fails.
unfoldable pub decode : (ℕ → List ℕ) → DataDeclaration → DecodeBuffer → DataValue × DecodeBuffer
decode fresh type b =
    let (count, b₁) = decode_count type b in
    let size = (count * type.width) % size_mod in
    if ltb (sub_size (length b₁.block) b₁.offset) type.width
    then (record { data_type = type; value = replicate size 0; owns_value = true }, b₁)
    else (let (_, bytes, b₂) = read b₁ size (fresh size) in
        (record { data_type = type; value = bytes; owns_value = true }, b₂))

unfoldable pub encode : DataValue → Encoder
encode v b = write b (take v.data_type.width v.value)

unfoldable pub get_encoded_size : DataValue → ℕ
get_encoded_size v = v.data_type.width

-- `set`, for the bytes of the new value.
unfoldable pub set : DataValue → List ℕ → DataValue
set v bytes = record v { value = memcpy v.value 0 bytes }

-- `operator ==`.
unfoldable pub equal : DataValue → DataValue → Bool
equal v w =
    DataDeclaration.equal v.data_type w.data_type
    && bytes_eq (take v.data_type.width v.value) (take v.data_type.width w.value)
