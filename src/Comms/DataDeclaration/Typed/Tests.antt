-- ===== src/Comms/DataDeclaration/Typed/Tests.antt =====
-- A declaration of floating-point numbers of four bytes: neutral 0, minimum -1, and no maximum.
use robocrisp.Base.{
  ◌+◌, ◌≡◌, refl, ℕ, true, false, List, [], ◌∷◌, length, none, some, Bool, ◌&&◌, ◌%◌, get_or, ltb,
  ◌==◌, arith,
}
use robocrisp.Comms.Buffer.{EncodeBuffer, EncodeResult, DecodeResult, new_encode_buffer}
use robocrisp.Comms.Buffer.Laws.{written, reopen, room-new_encode_buffer, new_encode_buffer-IsValid}
use robocrisp.Comms.DataDeclaration
use robocrisp.Comms.DataDeclaration.{
  DataDeclaration, float, neutral_value, minimum_value, maximum_value,
}
use robocrisp.Comms.DataDeclaration.Typed.{
  ValueType, Arguments, floating_type, declare, encode, equal, get_encoded_size, get_tail_size,
}
use robocrisp.Comms.DataDeclaration.Typed.Laws.{IsType, IsArguments, found, decode-encode_typed}

abbrev not_a_number : List ℕ
not_a_number = 0 ∷ 0 ∷ 192 ∷ 127 ∷ []

-- All bits of the exponent are set, and one of the fraction.
abbrev isnan : List ℕ → Bool
isnan v =
    ((get_or v 3 0 % 128) == 127)
    && ltb 127 (get_or v 2 0)
    && ltb 0 (get_or v 2 0 % 128 + get_or v 1 0 + get_or v 0 0)

abbrev single : ValueType
single = floating_type 4 not_a_number isnan

abbrev nought : List ℕ
nought = 0 ∷ 0 ∷ 0 ∷ 0 ∷ []

abbrev minus_one : List ℕ
minus_one = 0 ∷ 0 ∷ 128 ∷ 191 ∷ []

abbrev from_minus_one : Arguments
from_minus_one = record {
  neutral = some nought;
  minimum = some minus_one;
  maximum = none;
  array = none;
  width = none;
}

single-IsType : IsType single
single-IsType = record { sized = omega arith; absent_is = refl; absent_sized = refl }

from_minus_one-IsArguments : IsArguments single from_minus_one
from_minus_one-IsArguments = record {
  own_width = refl;
  neutral_sized = refl;
  minimum_sized = refl;
  maximum_sized = refl;
}

size-from_minus_one : get_encoded_size (declare single 7 from_minus_one) ≡ 11
unfolding get_encoded_size get_tail_size declare
size-from_minus_one = refl

decode-encode_typed_example :
    let d = declare single 7 from_minus_one in
    let b = new_encode_buffer 11 in
    (b' : EncodeBuffer) × (r : DataDeclaration) × (encode single d b ≡ (EncodeResult.success, b'))
    × (length (written b') ≡ length (written b) + get_encoded_size d)
    × (DataDeclaration.decode (reopen b' b.offset) ≡ (DecodeResult.success, r, reopen b' b'.offset))
    × (equal single d r ≡ true)
    × (r.type ≡ float)
    × (r.width ≡ 4)
    × (r.is_array ≡ false)
    × (r.array_size_width ≡ 0)
    × (found r.has_neutral_value r neutral_value ≡ some nought)
    × (found r.has_maximum_value r maximum_value ≡ none)
    × (found r.has_minimum_value r minimum_value ≡ some nought)
decode-encode_typed_example =
    decode-encode_typed single 7 from_minus_one (new_encode_buffer 11) single-IsType
      from_minus_one-IsArguments (new_encode_buffer-IsValid 11 (omega arith))
      (omega (arith, size-from_minus_one, room-new_encode_buffer 11))
