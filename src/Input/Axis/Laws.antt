-- ===== src/Input/Axis/Laws.antt =====
-- Clipping, emulation and polynomials of include/crisp/input/Axis.hh.
use robocrisp.Base.{
  ℕ, zero, suc, ◌≤◌, ◌≡◌, inl, inr, refl, sym, ap, ◌∙◌, true, ◌||◌, List, [], ◌∷◌, ◌++◌, length,
  length-append, get_or, get_or-append, get_or-append_before, Option, none, some, some-injective,
  if◌then◌else◌, Bool-cases, arith,
}
use robocrisp.Base.Int.{ℤ, pos, ◌+ℤ◌, leq, leq_refl, max_int, min_int, sub-add}
use robocrisp.Input.Axis.{
  Real, Axis, AxisType, absolute, relative, same_type, State, reversed, set_coefficients,
  map_polynomial, map_value, emulate, clip, with_value, post,
}

clip_bounds :
    (x lo hi : ℤ)
    → leq lo hi ≡ true
    → (leq lo (min_int (max_int x lo) hi) ≡ true) × (leq (min_int (max_int x lo) hi) hi ≡ true)
clip_bounds x lo hi h = elim (Bool-cases (leq lo x)) [
  | inl a ↦ elim (Bool-cases (leq x hi)) [
    | inl b ↦ rw (a, b) (a, b)
    | inr b ↦ rw (a, b) (h, leq_refl hi)
  ]
  | inr a ↦ rw (a, h) (leq_refl lo, h)
]

clip_inside : (x lo hi : ℤ) → leq lo x ≡ true → leq x hi ≡ true → min_int (max_int x lo) hi ≡ x
clip_inside x lo hi a b = rw (a, b) refl

module _ (R : Real) where
  -- An axis that is absolute, in hardware or by emulation.
  abbrev pub IsClipped : Axis R → Type 0
  IsClipped a = (same_type a.type absolute || same_type a.mode absolute) ≡ true

  raw_value-with_value :
      (y : ℤ) (o : Option R.Value) (s : State R) → with_value R y o ≡ some s → s.raw_value ≡ y
  raw_value-with_value y none s h = absurd (ground (arith, h))
  raw_value-with_value y (some v) s h = ap (λ z. z.raw_value) (sym (some-injective _ _ h))

  same_type_refl : (t : AxisType) → same_type t t ≡ true
  same_type_refl absolute = refl
  same_type_refl relative = refl

  not_emulated : (a : Axis R) (x : ℤ) → a.mode ≡ a.type → (emulate R a x).0 ≡ x
  unfolding emulate
  not_emulated a x h = rw (ap (λ t. same_type t a.type) h ∙ same_type_refl a.type) refl

  emitted :
      (a : Axis R) (x : ℤ) (s : State R)
      → IsClipped a
      → (post R a x).1 ≡ some s
      → s.raw_value ≡ min_int (max_int (emulate R a x).0 a.raw.minimum) a.raw.maximum
  unfolding post clip
  emitted a x s c e = raw_value-with_value _ _ s e ∙ clipped (emulate R a x).0
    where
      clipped :
          (y : ℤ)
          → (if same_type a.type absolute || same_type a.mode absolute
              then min_int (max_int y a.raw.minimum) a.raw.maximum
              else y)
            ≡ min_int (max_int y a.raw.minimum) a.raw.maximum
      clipped y = rw c refl

  -- The state that an axis emits that is absolute, in hardware or by emulation, and whose minimum is at
  -- most its maximum, has a raw value between the two, whatever was posted.
  pub post-bounds :
      (a : Axis R) (x : ℤ) (s : State R)
      → IsClipped a
      → leq a.raw.minimum a.raw.maximum ≡ true
      → (post R a x).1 ≡ some s
      → (leq a.raw.minimum s.raw_value ≡ true) × (leq s.raw_value a.raw.maximum ≡ true)
  post-bounds a x s c h e =
      let (l, u) = clip_bounds (emulate R a x).0 a.raw.minimum a.raw.maximum h in
      (
        ap (leq a.raw.minimum) (emitted a x s c e) ∙ l,
        ap (λ z. leq z a.raw.maximum) (emitted a x s c e) ∙ u,
      )

  -- A value between the two is emitted as it was posted where nothing is emulated.
  pub post_inside :
      (a : Axis R) (x : ℤ) (s : State R)
      → IsClipped a
      → a.mode ≡ a.type
      → leq a.raw.minimum x ≡ true
      → leq x a.raw.maximum ≡ true
      → (post R a x).1 ≡ some s
      → s.raw_value ≡ x
  post_inside a x s c same l u e =
      emitted a x s c e
      ∙ ap (λ z. min_int (max_int z a.raw.minimum) a.raw.maximum) (not_emulated a x same)
      ∙ clip_inside x a.raw.minimum a.raw.maximum l u

  -- What is posted to an axis, one after the other.
  unfoldable pub post_all : Axis R → List ℤ → Axis R
  post_all a [] = a
  post_all a (x ∷ xs) = post_all (post R a x).0 xs

  abbrev pub total : ℤ → List ℤ → ℤ
  total t [] = t
  total t (x ∷ xs) = total (x +ℤ t) xs

  -- An axis that emulates an absolute one keeps the sum of all that was posted to it.
  pub emulation_absolute :
      (a : Axis R) (xs : List ℤ)
      → a.type ≡ relative
      → a.mode ≡ absolute
      → (post_all a xs).last_raw_value ≡ total a.last_raw_value xs
  unfolding post_all post emulate
  emulation_absolute a [] t m = refl
  emulation_absolute a (y ∷ xs) t m =
      emulation_absolute (post R a y).0 xs t m ∙ ap (λ l. total l xs) (rw (t, m) refl)

  -- An axis that emulates a relative one gives, before it is clipped, the difference to the value posted
  -- before, and keeps the value posted.
  pub emulation_relative :
      (a : Axis R) (x : ℤ)
      → a.type ≡ absolute
      → a.mode ≡ relative
      → ((emulate R a x).0 +ℤ a.last_raw_value ≡ x) × ((post R a x).0.last_raw_value ≡ x)
  unfolding post emulate
  emulation_relative a x t m = rw (t, m) (sub-add x a.last_raw_value, refl)

  -- The terms of a polynomial, the highest power first.
  unfoldable pub evaluate : R.Value → R.Value → List R.Value → R.Value
  evaluate x out [] = out
  evaluate x out (c ∷ cs) = evaluate x (R.add out (R.mul c (R.pow x (length cs)))) cs

  length-reversed : (cs : List R.Value) → length (reversed R cs) ≡ length cs
  unfolding reversed
  length-reversed [] = refl
  length-reversed (c ∷ cs) =
      omega (arith, length-append (reversed R cs) (c ∷ []), length-reversed cs)

  map_polynomial-append :
      (xs ys : List R.Value) (x : R.Value) (i : ℕ) (out : R.Value)
      → i ≤ length xs
      → map_polynomial R (xs ++ ys) x i out ≡ map_polynomial R xs x i out
  unfolding map_polynomial
  map_polynomial-append xs ys x zero out h = refl
  map_polynomial-append xs ys x (suc i) out h =
      rw (get_or-append_before xs ys i (R.of_int (pos 0)) (omega arith))
        (map_polynomial-append xs ys x i _ (omega arith))

  map_polynomial-reversed :
      (cs : List R.Value) (x out : R.Value)
      → map_polynomial R (reversed R cs) x (length cs) out ≡ evaluate x out cs
  unfolding map_polynomial reversed evaluate
  map_polynomial-reversed [] x out = refl
  map_polynomial-reversed (c ∷ cs) x out =
      ap
        (λ k.
          map_polynomial R (reversed R cs ++ c ∷ []) x (length cs)
            (R.add out (R.mul k (R.pow x (length cs)))))
        last
      ∙ map_polynomial-append (reversed R cs) (c ∷ []) x (length cs) _
          (omega (arith, length-reversed cs))
      ∙ map_polynomial-reversed cs x _
    where
      last : get_or (reversed R cs ++ c ∷ []) (length cs) (R.of_int (pos 0)) ≡ c
      last =
          ap (λ n. get_or (reversed R cs ++ c ∷ []) n (R.of_int (pos 0))) (sym (length-reversed cs))
          ∙ get_or-append (reversed R cs) c [] (R.of_int (pos 0))

  -- After the coefficients of a polynomial were given, the highest power first, a value is mapped to the
  -- sum of the terms, added up in the order in which the coefficients were given, each coefficient with
  -- the power that is the number of those behind it.
  pub map_value-set_coefficients :
      (cs : List R.Value) (a : Axis R) (x : R.Value)
      → map_value R (set_coefficients R cs a) x ≡ evaluate x (R.of_int (pos 0)) cs
  unfolding map_value set_coefficients
  map_value-set_coefficients cs a x =
      ap (λ n. map_polynomial R (reversed R cs) x n (R.of_int (pos 0))) (length-reversed cs)
      ∙ map_polynomial-reversed cs x (R.of_int (pos 0))
