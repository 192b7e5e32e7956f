-- ===== src/Comms/DataDeclaration/Typed.antt =====
-- The declarations of include/crisp/comms/DataDeclarationBase.hh for a type of integers or of floating-
-- point numbers. A value of the type is the list of its bytes, as `memcpy` finds them. Where floating-
-- point numbers are compared with NaN, `isnan` and `quiet_NaN` are parameters. The constructors set no
-- `array_size_width`, so it is what the memory held.
pub mod Laws
pub mod Tests
use robocrisp.Base.{
  ℕ, ◌+◌, ◌-◌, ◌*◌, ◌%◌, Bool, true, false, ◌&&◌, not, List, [], ◌∷◌, ◌++◌, replicate, take, Option,
  none, some, memcpy, bytes_eq, ◌==◌, bool_eq, if◌then◌else◌,
}
use robocrisp.Comms.Buffer.{EncodeResult, EncodeBuffer}
use robocrisp.Comms.Encoder.{Encoder}
use robocrisp.Comms.DataDeclaration
use robocrisp.Comms.DataDeclaration.{
  DataDeclaration, integer, float, neutral_value, minimum_value, maximum_value, bit, header_size,
  blank,
}

pub data Kind : Type 0 where
  integral floating : Kind

-- What the templates use of a type: `sizeof`, `is_signed`, the value that stands for an absent one, and
-- the test for it.
pub record ValueType : Type 0 where
  pub kind : Kind
  pub size : ℕ
  pub is_signed : Bool
  pub absent : List ℕ
  pub is_absent : List ℕ → Bool

-- The bytes of `numeric_limits::max` of an integer type of `n + 1` bytes.
abbrev pub max_value : ℕ → Bool → List ℕ
max_value n is_signed = replicate n 255 ++ (if is_signed then 127 else 255) ∷ []

abbrev pub integer_type : ℕ → Bool → ValueType
integer_type n is_signed = record {
  kind = integral;
  size = n + 1;
  is_signed = is_signed;
  absent = max_value n is_signed;
  is_absent = λ v. bytes_eq v (max_value n is_signed);
}

abbrev pub floating_type : ℕ → List ℕ → (List ℕ → Bool) → ValueType
floating_type n quiet_NaN isnan = record {
  kind = floating;
  size = n;
  is_signed = true;
  absent = quiet_NaN;
  is_absent = isnan;
}

pub record TypedDeclaration : Type 0 where
  pub width : ℕ
  pub array_size_width : ℕ
  pub is_array : Bool
  pub has_neutral_value : Bool
  pub has_minimum_value : Bool
  pub has_maximum_value : Bool
  pub neutral_value : List ℕ
  pub minimum_value : List ℕ
  pub maximum_value : List ℕ

-- The named arguments of the constructor that are given; `array_size_width` is not looked at.
pub record Arguments : Type 0 where
  pub neutral : Option (List ℕ)
  pub minimum : Option (List ℕ)
  pub maximum : Option (List ℕ)
  pub array : Option Bool
  pub width : Option ℕ

abbrev pub or_default {ℓ} : {A : Type ℓ} → Option A → A → A
or_default none d = d
or_default (some x) d = x

-- The constructor without arguments, where a width for integers is `sizeof` and one for floating-point
-- numbers is 0.
unfoldable pub blank_of : ValueType → ℕ → TypedDeclaration
blank_of t held = record {
  width = width_of t.kind;
  array_size_width = held;
  is_array = false;
  has_neutral_value = false;
  has_minimum_value = false;
  has_maximum_value = false;
  neutral_value = t.absent;
  minimum_value = t.absent;
  maximum_value = t.absent;
}
  where
    width_of : Kind → ℕ
    width_of integral = t.size
    width_of floating = 0

-- The constructor with named arguments. The width has 12 bits.
unfoldable pub declare : ValueType → ℕ → Arguments → TypedDeclaration
declare t held a = record {
  width = or_default a.width t.size % 4096;
  array_size_width = held;
  is_array = or_default a.array false;
  has_neutral_value = not (t.is_absent (or_default a.neutral t.absent));
  has_minimum_value = not (t.is_absent (or_default a.minimum t.absent));
  has_maximum_value = not (t.is_absent (or_default a.maximum t.absent));
  neutral_value = or_default a.neutral t.absent;
  minimum_value = or_default a.minimum t.absent;
  maximum_value = or_default a.maximum t.absent;
}

unfoldable pub set_neutral : List ℕ → TypedDeclaration → TypedDeclaration
set_neutral v d = record d { has_neutral_value = true; neutral_value = v }

unfoldable pub set_minimum : List ℕ → TypedDeclaration → TypedDeclaration
set_minimum v d = record d { has_minimum_value = true; minimum_value = v }

unfoldable pub set_maximum : List ℕ → TypedDeclaration → TypedDeclaration
set_maximum v d = record d { has_maximum_value = true; maximum_value = v }

abbrev pub type_of : Kind → ℕ
type_of integral = integer
type_of floating = float

-- What is copied for the minimum: the conversion of floating-point declarations copies the neutral value.
abbrev pub minimum_source : Kind → TypedDeclaration → List ℕ
minimum_source integral d = d.minimum_value
minimum_source floating d = d.neutral_value

abbrev pub copy_if : Bool → ℕ → List ℕ → List ℕ → List ℕ
copy_if present at v block = if present then memcpy block at v else block

-- `operator DataDeclarationBase<>`. The width has 5 bits there.
unfoldable pub generic : ValueType → TypedDeclaration → DataDeclaration
generic t d = record {
  type = type_of t.kind;
  width = d.width % 32;
  is_array = d.is_array;
  is_signed = t.is_signed;
  has_neutral_value = d.has_neutral_value;
  has_minimum_value = d.has_minimum_value;
  has_maximum_value = d.has_maximum_value;
  array_size_width = blank.array_size_width;
  values = copy_if d.has_maximum_value maximum_value d.maximum_value (
      copy_if d.has_minimum_value minimum_value (minimum_source t.kind d)
        (copy_if d.has_neutral_value neutral_value d.neutral_value blank.values));
}

-- `encode` for non-generic declarations.
unfoldable pub encode : ValueType → TypedDeclaration → Encoder
encode t d = DataDeclaration.encode (generic t d)

unfoldable pub get_tail_size : TypedDeclaration → ℕ
get_tail_size d =
    d.width * (bit d.has_neutral_value + bit d.has_minimum_value + bit d.has_maximum_value)

unfoldable pub get_encoded_size : TypedDeclaration → ℕ
get_encoded_size d = header_size + get_tail_size d

-- `operator ==` with a generic declaration, whose values are compared with themselves.
unfoldable pub equal : ValueType → TypedDeclaration → DataDeclaration → Bool
equal t d o =
    o.type == type_of t.kind
    && o.width == d.width
    && bool_eq o.is_signed t.is_signed
    && bool_eq o.has_neutral_value d.has_neutral_value
    && bool_eq o.has_minimum_value d.has_minimum_value
    && bool_eq o.has_maximum_value d.has_maximum_value
