-- ===== src/Input/Axis/Tests.antt =====
-- An axis whose values are whole numbers: runs, and the theorems at it.
use robocrisp.Base.{ℕ, ◌+◌, ◌*◌, ◌/◌, ◌^◌, max, ◌≡◌, refl, true, [], ◌∷◌, some}
use robocrisp.Base.Int.{pos, negsuc, leq, abs}
use robocrisp.Input.Axis.{
  Real, Axis, absolute, relative, unmapped, State, post, emulate, clip, mapped, map_value,
  set_coefficients,
}
use robocrisp.Input.Axis.Laws.{evaluate, post-bounds, map_value-set_coefficients}

-- The operations on whole numbers that are not negative.
abbrev pub whole : Real
whole = record {
  Value = ℕ;
  of_int = abs;
  add = ◌+◌;
  mul = ◌*◌;
  div = ◌/◌;
  fmax = max;
  fabs = λ x. x;
  pow = ◌^◌;
}

abbrev wheel : Axis whole
wheel = record {
  type = relative;
  mode = absolute;
  last_raw_value = pos 3;
  map_method = unmapped;
  raw = record {
    neutral = pos 0;
    minimum = negsuc 9;
    maximum = pos 10;
    deadzone_lower = pos 0;
    deadzone_upper = pos 0;
  };
  coefficients = [];
}

abbrev far : State whole
far = record { raw_value = pos 10; value = 0 }

post-wheel : (post whole wheel (pos 12)).1 ≡ some far
unfolding post emulate clip mapped
post-wheel = refl

post-bounds_example : (leq (negsuc 9) (pos 10) ≡ true) × (leq (pos 10) (pos 10) ≡ true)
post-bounds_example = post-bounds whole wheel (pos 12) far refl refl post-wheel

map_value-set_coefficients_example :
    map_value whole (set_coefficients whole (2 ∷ 5 ∷ 7 ∷ []) wheel) 10
    ≡ evaluate whole 10 0 (2 ∷ 5 ∷ 7 ∷ [])
map_value-set_coefficients_example = map_value-set_coefficients whole (2 ∷ 5 ∷ 7 ∷ []) wheel 10
