-- ===== src/Input/Axis.antt =====
-- include/crisp/input/Axis.hh and src/input/Axis.cc: an axis of an input device. Raw values are
-- `int32_t` without an overflow, which the code leaves undefined. `double` is a parameter: a type with
-- the operations that the code uses.
pub mod Laws
pub mod Tests
use robocrisp.Base.{
  ℕ, zero, suc, ◌+◌, Bool, true, false, not, ◌||◌, List, [], ◌∷◌, ◌++◌, length, get_or, replicate,
  Option, none, some, if◌then◌else◌, ◌==◌,
}
use robocrisp.Base.Int.{ℤ, pos, ◌+ℤ◌, ◌-ℤ◌, neg, eq, abs, max_int, min_int}

-- `Value`, a `double`.
pub record Real : Type 1 where
  pub Value : Type 0
  pub of_int : ℤ → Value
  pub add : Value → Value → Value
  pub mul : Value → Value → Value
  pub div : Value → Value → Value
  pub fmax : Value → Value → Value
  pub fabs : Value → Value
  -- `std::pow(x, i)`.
  pub pow : Value → ℕ → Value

pub data AxisType : Type 0 where
  absolute relative : AxisType

abbrev pub same_type : AxisType → AxisType → Bool
same_type absolute absolute = true
same_type absolute relative = false
same_type relative absolute = false
same_type relative relative = true

pub data MapMethod : Type 0 where
  unmapped linear polynomial : MapMethod

pub record RawConfig : Type 0 where
  pub neutral : ℤ
  pub minimum : ℤ
  pub maximum : ℤ
  pub deadzone_lower : ℤ
  pub deadzone_upper : ℤ

module _ (R : Real) where
  open R use {Value}

  pub record Axis : Type 0 where
    pub type : AxisType
    pub mode : AxisType
    pub last_raw_value : ℤ
    pub map_method : MapMethod
    pub raw : RawConfig
    pub coefficients : List Value

  -- What handlers of the signal are called with.
  pub record State : Type 0 where
    pub raw_value : ℤ
    pub value : Value

  abbrev no_config : RawConfig
  no_config = record {
    neutral = pos 0;
    minimum = pos 0;
    maximum = pos 0;
    deadzone_lower = pos 0;
    deadzone_upper = pos 0;
  }

  -- `Axis(type, id)`.
  unfoldable pub new : AxisType → Axis
  new type = record {
    type = type;
    mode = type;
    last_raw_value = pos 0;
    map_method = unmapped;
    raw = no_config;
    coefficients = [];
  }

  -- `Axis(raw, id)`.
  unfoldable pub new_linear : RawConfig → Axis
  new_linear raw = record {
    type = absolute;
    mode = absolute;
    last_raw_value = pos 0;
    map_method = linear;
    raw = raw;
    coefficients = [];
  }

  -- `std::reverse_copy` of all of a list.
  unfoldable pub reversed {ℓ} : {A : Type ℓ} → List A → List A
  reversed [] = []
  reversed (x ∷ xs) = reversed xs ++ x ∷ []

  unfoldable pub set_coefficients : List Value → Axis → Axis
  set_coefficients list a = record a { map_method = polynomial; coefficients = reversed list }

  -- `Axis(raw, id, coefficients)`.
  unfoldable pub new_polynomial : RawConfig → List Value → Axis
  new_polynomial raw list = set_coefficients list (new_linear raw)

  -- The loop of `map(Value)`: `i` counts down to 0.
  unfoldable pub map_polynomial : List Value → Value → ℕ → Value → Value
  map_polynomial coefficients x zero out = out
  map_polynomial coefficients x (suc i) out =
      map_polynomial coefficients x i
        (R.add out (R.mul (get_or coefficients i (R.of_int (pos 0))) (R.pow x i)))

  -- `map(Value)`.
  unfoldable pub map_value : Axis → Value → Value
  map_value a x = by_method a.map_method
    where
      by_method : MapMethod → Value
      by_method unmapped = x
      by_method linear = x
      by_method polynomial =
          map_polynomial a.coefficients x (length a.coefficients) (R.of_int (pos 0))

  -- `map(RawValue)`; `none` is the exception.
  unfoldable pub map_raw : Axis → ℤ → Option Value
  map_raw a raw_value =
      let max = R.of_int (a.raw.maximum -ℤ a.raw.neutral) in
      let min = R.of_int (a.raw.minimum -ℤ a.raw.neutral) in
      let val = R.of_int (raw_value -ℤ a.raw.neutral) in
      if eq a.raw.maximum (neg a.raw.minimum) || eq a.raw.minimum a.raw.neutral
      then some (map_value a (R.div val max))
      else if eq a.raw.maximum a.raw.neutral
      then some (map_value a (R.div val min))
      else if not (abs (a.raw.maximum -ℤ a.raw.neutral) == abs (a.raw.minimum -ℤ a.raw.neutral))
      then some (map_value a (R.div val (R.fmax (R.fabs max) (R.fabs min))))
      else none

  -- The emulation of an axis of another type in `post`: the raw value and `m_last_raw_value`.
  unfoldable pub emulate : Axis → ℤ → ℤ × ℤ
  emulate a raw_value =
      if same_type a.mode a.type then (raw_value, a.last_raw_value) else as_mode a.mode
    where
      as_mode : AxisType → ℤ × ℤ
      as_mode relative = (raw_value -ℤ a.last_raw_value, raw_value)
      as_mode absolute = (raw_value +ℤ a.last_raw_value, raw_value +ℤ a.last_raw_value)

  -- The clipping of `post`.
  unfoldable pub clip : Axis → ℤ → ℤ
  clip a x =
      if same_type a.type absolute || same_type a.mode absolute
      then min_int (max_int x a.raw.minimum) a.raw.maximum
      else x

  -- The value that `post` maps the raw value to; it is 0 where no mapping is done.
  unfoldable pub mapped : Axis → ℤ → Option Value
  mapped a x = by_method a.map_method
    where
      by_method : MapMethod → Option Value
      by_method unmapped = some (R.of_int (pos 0))
      by_method linear = map_raw a x
      by_method polynomial = map_raw a x

  abbrev pub with_value : ℤ → Option Value → Option State
  with_value x none = none
  with_value x (some v) = some (record { raw_value = x; value = v })

  -- `post`: the axis, and the state that is emitted if nothing is thrown.
  unfoldable pub post : Axis → ℤ → Axis × Option State
  post a raw_value =
      let (x, last) = emulate a raw_value in
      (record a { last_raw_value = last }, with_value (clip a x) (mapped a (clip a x)))
