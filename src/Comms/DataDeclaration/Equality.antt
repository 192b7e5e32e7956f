-- ===== src/Comms/DataDeclaration/Equality.antt =====
-- A declaration that was encoded and decoded is `==` to the one it was made of.
use robocrisp.Base.{
  ℕ, ◌+◌, ◌≤◌, ◌≡◌, refl, ◌∙◌, Bool, true, false, List, length, memcpy, slice, not, ◌||◌,
  slice-memcpy_self, slice-memcpy_before, length-slice, length-memcpy, subst, bytes_eq,
  bytes_eq_refl, ==_refl, bool_eq_refl, arith,
}
use robocrisp.Comms.DataDeclaration.{
  DataDeclaration, value, neutral_value, minimum_value, maximum_value, equal, no_values,
}
use robocrisp.Comms.DataDeclaration.Header.{IsDeclaration, fill, restored}

module _ (d : DataDeclaration) (v : IsDeclaration d) where
  length-value : (at : ℕ) → at ≤ 32 → length (value d at) ≡ d.width
  length-value at h = length-slice d.values at d.width (omega arith)

  length-filled :
      (present : Bool) (at : ℕ) (block : List ℕ) → length (fill present d at block) ≡ length block
  length-filled true at block = length-memcpy block at (value d at)
  length-filled false at block = refl

  -- A value that is declared stands at its place.
  fill_self :
      (at : ℕ) (block : List ℕ)
      → at ≤ 32
      → length block ≡ 48
      → slice (fill true d at block) at d.width ≡ value d at
  fill_self at block h e =
      subst (λ n. slice (memcpy block at (value d at)) at n ≡ value d at) (length-value at h)
        (slice-memcpy_self block at (value d at) (omega (arith, length-value at h)))

  -- A value that is filled in later leaves the one at `at` alone.
  fill_later :
      (present : Bool) (at from : ℕ) (block : List ℕ)
      → at + d.width ≤ from
      → slice (fill present d from block) at d.width ≡ slice block at d.width
  fill_later true at from block h = slice-memcpy_before block from (value d from) at d.width h
  fill_later false at from block h = refl

  same_of_slice :
      (present : Bool) (at : ℕ) (block : List ℕ)
      → (present ≡ true → slice block at d.width ≡ value d at)
      → (not present || bytes_eq (value d at) (slice block at d.width)) ≡ true
  same_of_slice true at block h = rw (h refl) (bytes_eq_refl (value d at))
  same_of_slice false at block h = refl

  pub filled_neutral :
      d.has_neutral_value ≡ true
      → slice (restored d).values neutral_value d.width ≡ value d neutral_value
  unfolding restored
  filled_neutral h =
      fill_later d.has_maximum_value neutral_value maximum_value _ (omega arith)
      ∙ fill_later d.has_minimum_value neutral_value minimum_value _ (omega arith)
      ∙ rw h (fill_self neutral_value no_values (omega arith) refl)

  pub filled_minimum :
      d.has_minimum_value ≡ true
      → slice (restored d).values minimum_value d.width ≡ value d minimum_value
  unfolding restored
  filled_minimum h =
      fill_later d.has_maximum_value minimum_value maximum_value _ (omega arith)
      ∙ rw h (
          fill_self minimum_value (fill d.has_neutral_value d neutral_value no_values) (omega arith)
            (length-filled d.has_neutral_value neutral_value no_values))

  pub filled_maximum :
      d.has_maximum_value ≡ true
      → slice (restored d).values maximum_value d.width ≡ value d maximum_value
  unfolding restored
  filled_maximum h = rw h (
      fill_self maximum_value
        (fill d.has_minimum_value d minimum_value
          (fill d.has_neutral_value d neutral_value no_values))
        (omega arith)
        (length-filled d.has_minimum_value minimum_value
            (fill d.has_neutral_value d neutral_value no_values)
          ∙ length-filled d.has_neutral_value neutral_value no_values))

  pub equal-restored : equal d (restored d) ≡ true
  unfolding equal restored
  equal-restored = rw (
    ==_refl d.type,
    ==_refl d.width,
    bool_eq_refl d.is_signed,
    bool_eq_refl d.has_neutral_value,
    bool_eq_refl d.has_minimum_value,
    bool_eq_refl d.has_maximum_value,
    same_of_slice d.has_neutral_value neutral_value (restored d).values filled_neutral,
    same_of_slice d.has_minimum_value minimum_value (restored d).values filled_minimum,
    same_of_slice d.has_maximum_value maximum_value (restored d).values filled_maximum,
  )
