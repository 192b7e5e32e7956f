-- ===== src/Util/SArray/Laws.antt =====
-- The array against the list of its elements.
use robocrisp.Base.{
  ℕ, zero, suc, ◌+◌, ◌-◌, ◌≤◌, ◌<◌, ◌≡◌, refl, ap, ◌∙◌, subst, List, [], ◌∷◌, ◌++◌, length, set,
  take, replicate, length-append, length-replicate, length-set, append_assoc, append-nil, ltb,
  Bool-cases, inl, inr, ltb→lt, arith,
}
use robocrisp.Util.SArray.{
  SArray, new_array, ensure_capacity, enlarged, push, push_all, clear, copy, assign, assign_self,
}

-- The array holds the elements `xs`.
pub record Holds {ℓ} {A : Type ℓ} (s : SArray A) (xs : List A) : Type ℓ where
  pub allocated : length s.cells ≡ s.capacity
  pub sized : s.size ≡ length xs
  pub inside : s.size ≤ s.capacity
  pub holds : take s.size s.cells ≡ xs

take-append_inside {ℓ} :
    {A : Type ℓ} (n : ℕ) (xs ys : List A) → n ≤ length xs → take n (xs ++ ys) ≡ take n xs
take-append_inside zero xs ys h = refl
take-append_inside (suc n) [] ys h = absurd (omega arith)
take-append_inside (suc n) (x ∷ xs) ys h = ap (◌∷◌ x) (take-append_inside n xs ys (omega arith))

take-set_next {ℓ} :
    {A : Type ℓ} (n : ℕ) (xs : List A) (v : A)
    → n < length xs
    → take (n + 1) (set xs n v) ≡ take n xs ++ v ∷ []
take-set_next n [] v h = absurd (omega arith)
take-set_next zero (x ∷ xs) v h = refl
take-set_next (suc n) (x ∷ xs) v h =
    let shift : suc n + 1 ≡ suc (n + 1) = omega arith in
    ap (λ k. take k (x ∷ set xs n v)) shift ∙ ap (◌∷◌ x) (take-set_next n xs v (omega arith))

module _ {ℓ} {A : Type ℓ} (cleared : A) where
  enlarged_enough :
      (capacity n : ℕ)
      → capacity < n
      → (capacity ≤ enlarged cleared capacity n) × (n ≤ enlarged cleared capacity n)
  enlarged_enough capacity n h = ground arith

  ensure_capacity-Holds :
      (n : ℕ) (s : SArray A) (xs : List A)
      → Holds s xs
      → Holds (ensure_capacity cleared n s) xs
        × (n ≤ (ensure_capacity cleared n s).capacity)
        × ((ensure_capacity cleared n s).size ≡ s.size)
  unfolding ensure_capacity
  ensure_capacity-Holds n s xs v = elim (Bool-cases (ltb s.capacity n)) [
    | inl e ↦
        let enough = enlarged_enough s.capacity n (ltb→lt s.capacity n e) in
        rw e (larger enough, enough.1, refl)
    | inr e ↦ rw e (v, ground arith, refl)
  ]
    where
      more : List A
      more = replicate (enlarged cleared s.capacity n - s.capacity) cleared

      larger :
          (s.capacity ≤ enlarged cleared s.capacity n) × (n ≤ enlarged cleared s.capacity n)
          → Holds
              (record s { cells = s.cells ++ more; capacity = enlarged cleared s.capacity n })
              xs
      larger enough = record {
        allocated = omega (
          arith,
          length-append s.cells more,
          length-replicate (enlarged cleared s.capacity n - s.capacity) cleared,
          v.allocated,
          enough.0,
        );
        sized = v.sized;
        inside = omega (arith, v.inside, enough.0);
        holds =
            take-append_inside s.size s.cells more (omega (arith, v.inside, v.allocated)) ∙ v.holds;
      }

  -- Pushing an element appends it to the elements.
  push-Holds :
      (v : A) (s : SArray A) (xs : List A) → Holds s xs → Holds (push cleared v s) (xs ++ v ∷ [])
  unfolding push
  push-Holds v s xs h =
      let (kept, enough, same) = ensure_capacity-Holds (s.size + 1) s xs h in
      record {
        allocated =
            length-set (ensure_capacity cleared (s.size + 1) s).cells
              (ensure_capacity cleared (s.size + 1) s).size v
            ∙ kept.allocated;
        sized = omega (arith, length-append xs (v ∷ []), kept.sized);
        inside = omega (arith, enough, same);
        holds =
            take-set_next (ensure_capacity cleared (s.size + 1) s).size
              (ensure_capacity cleared (s.size + 1) s).cells v
              (omega (arith, enough, same, kept.allocated))
            ∙ ap (λ l. l ++ v ∷ []) kept.holds;
      }

  push_all-Holds :
      (vs : List A) (s : SArray A) (xs : List A)
      → Holds s xs
      → Holds (push_all cleared vs s) (xs ++ vs)
  unfolding push_all
  push_all-Holds [] s xs h = rw (append-nil xs) h
  push_all-Holds (v ∷ vs) s xs h =
      let rest = push_all-Holds vs (push cleared v s) (xs ++ v ∷ []) (push-Holds v s xs h) in
      subst (Holds (push_all cleared vs (push cleared v s))) (append_assoc xs (v ∷ []) vs) rest

  new_array-Holds : (n : ℕ) → Holds (new_array cleared n) []
  unfolding new_array
  new_array-Holds n = record {
    allocated = length-replicate n cleared;
    sized = refl;
    inside = omega arith;
    holds = refl;
  }

  clear-Holds : (s : SArray A) (xs : List A) → Holds s xs → Holds (clear cleared s) []
  unfolding clear
  clear-Holds s xs h = record {
    allocated = h.allocated;
    sized = refl;
    inside = omega arith;
    holds = refl;
  }

  -- An array that holds the elements `xs` goes on doing so when its memory grows: pushing an element
  -- appends it, a copy and an assignment to another array hold the same elements, and clearing leaves none. An
  -- assignment of the array to itself leaves none either.
  pub operations-Hold :
      (s t : SArray A) (xs ys : List A) (v : A) (n : ℕ)
      → Holds s xs
      → Holds t ys
      → Holds (push cleared v s) (xs ++ v ∷ [])
        × Holds (ensure_capacity cleared n s) xs
        × Holds (copy cleared s) xs
        × Holds (assign cleared t s) xs
        × Holds (assign_self cleared s) []
        × Holds (clear cleared s) []
  unfolding copy assign assign_self
  operations-Hold s t xs ys v n h i = (
    push-Holds v s xs h,
    (ensure_capacity-Holds n s xs h).0,
    rw h.holds (push_all-Holds xs (new_array cleared s.size) [] (new_array-Holds s.size)),
    rw h.holds (
        push_all-Holds xs (ensure_capacity cleared s.capacity (clear cleared t)) []
          (ensure_capacity-Holds s.capacity (clear cleared t) [] (clear-Holds t ys i)).0),
    emptied,
    clear-Holds s xs h,
  )
    where
      emptied : Holds (assign_self cleared s) []
      emptied =
          let empty = clear-Holds s xs h in
          rw empty.holds (
            push_all-Holds [] _ []
              (ensure_capacity-Holds (clear cleared s).capacity (clear cleared (clear cleared s)) []
                (clear-Holds (clear cleared s) [] empty)).0)
