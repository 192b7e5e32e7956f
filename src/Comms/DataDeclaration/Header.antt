-- ===== src/Comms/DataDeclaration/Header.antt =====
-- The packed header of a declaration loses nothing, and what a declaration is after a round trip.
use robocrisp.Base.{
  ℕ, ◌+◌, ◌*◌, ◌/◌, ◌%◌, ◌≤◌, ◌<◌, ◌≡◌, refl, Bool, List, [], ◌++◌, length, memcpy, Bytes, arith,
  if◌then◌else◌,
}
use robocrisp.Comms.DataDeclaration.{
  DataDeclaration, header, header_size, set_header, bit, test_bit, no_values, value, neutral_value,
  minimum_value, maximum_value,
}

-- The bit-fields hold what they can hold, and a value fits its array.
pub record IsDeclaration (d : DataDeclaration) : Type 0 where
  pub type_fits : d.type < 64
  pub width_fits : d.width ≤ 16
  pub array_size_width_fits : d.array_size_width < 256
  pub block : length d.values ≡ 48

bits : Bool → Bool → Bool → Bool → Bool → ℕ → ℕ
bits a s n l u w = w + 8 * bit a + 16 * bit s + 32 * bit n + 64 * bit l + 128 * bit u

-- Each flag can be read back from the byte that the flags share with the high bits of the width.
bits_lem :
    (a s n l u : Bool) (w : ℕ)
    → w < 8
    → (bits a s n l u w % 8 ≡ w)
      × (test_bit (bits a s n l u w) 8 ≡ a)
      × (test_bit (bits a s n l u w) 16 ≡ s)
      × (test_bit (bits a s n l u w) 32 ≡ n)
      × (test_bit (bits a s n l u w) 64 ≡ l)
      × (test_bit (bits a s n l u w) 128 ≡ u)
unfolding bits
bits_lem a s n l u w h = ground arith

-- Of a declaration whose fields hold what they can hold, with a width of at most 16, the three
-- header bytes carry every field but the values: written over any declaration they give these
-- fields, and the values stay.
pub set_header-header :
    (c d : DataDeclaration)
    → IsDeclaration d
    → set_header c (header d) ≡ record d { values = c.values }
unfolding set_header header bits
set_header-header c d v = λ i. record {
  type = low i;
  width = high i;
  is_array = back.1 i;
  is_signed = back.2 i;
  has_neutral_value = back.3 i;
  has_minimum_value = back.4 i;
  has_maximum_value = back.5 i;
  array_size_width = d.array_size_width;
  values = c.values;
}
  where
    open d use {width, is_array, is_signed, has_neutral_value, has_minimum_value, has_maximum_value}

    flags : ℕ
    flags =
        bits is_array is_signed has_neutral_value has_minimum_value has_maximum_value (width / 4)

    back :
        (flags % 8 ≡ width / 4)
        × (test_bit flags 8 ≡ is_array)
        × (test_bit flags 16 ≡ is_signed)
        × (test_bit flags 32 ≡ has_neutral_value)
        × (test_bit flags 64 ≡ has_minimum_value)
        × (test_bit flags 128 ≡ has_maximum_value)
    back =
        bits_lem is_array is_signed has_neutral_value has_minimum_value has_maximum_value
          (width / 4) (omega arith)

    low : (d.type + 64 * (width % 4)) % 64 ≡ d.type
    low = omega arith

    high : (d.type + 64 * (width % 4)) / 64 + 4 * (flags % 8) ≡ width
    high = omega (arith, back.0)

pub header-Bytes : (d : DataDeclaration) → IsDeclaration d → Bytes (header d)
unfolding header
header-Bytes d v = ground arith

pub length-header : (d : DataDeclaration) → length (header d) ≡ header_size
unfolding header
length-header d = refl

-- The bytes of one declared value, or none.
abbrev pub declared : Bool → DataDeclaration → ℕ → List ℕ
declared present d at = if present then value d at else []

-- The tail: the neutral, the minimum and the maximum value, as far as they are declared.
abbrev pub tail_bytes : DataDeclaration → List ℕ
tail_bytes d =
    declared d.has_neutral_value d neutral_value
    ++ (declared d.has_minimum_value d minimum_value
        ++ declared d.has_maximum_value d maximum_value)

-- The encoded form of a declaration.
abbrev pub bytes : DataDeclaration → List ℕ
bytes d = header d ++ tail_bytes d

abbrev pub fill : Bool → DataDeclaration → ℕ → List ℕ → List ℕ
fill present d at block = if present then memcpy block at (value d at) else block

-- The declaration that a decoder makes of the encoded form: what is not declared is zero.
unfoldable pub restored : DataDeclaration → DataDeclaration
restored d = record d {
  values = fill d.has_maximum_value d maximum_value (
      fill d.has_minimum_value d minimum_value
        (fill d.has_neutral_value d neutral_value no_values));
}
