-- ===== src/Util/Scheduler/Laws.antt =====
-- The slots of a scheduler have intervals of their own, and every action is in one of them once.
use robocrisp.Base.{
  ℕ, ◌+◌, ◌≤◌, ◌<◌, ◌≡◌, ◌⊎◌, inl, inr, refl, sym, ap, ◌∙◌, subst, true, List, [], ◌∷◌, Option,
  none, some, ltb, ◌==◌, ==_iff, ==_refl, if◌then◌else◌, Bool-cases, arith,
}
use robocrisp.Util.Timer.{Timer, one_if}
use robocrisp.Util.PeriodicScheduleSlot
use robocrisp.Util.PeriodicScheduleSlot.{
  PeriodicScheduleSlot, PeriodicAction, count, without, is_empty, emplace, remove, reset_timer,
}
use robocrisp.Util.PeriodicScheduleSlot.Laws.{count-without}
use robocrisp.Util.Scheduler.{find_slot, emplace_in, remove_from}

-- How many slots have an interval, and how often an action is in them.
unfoldable pub count_slots : {T : Type 0} → ℕ → List (PeriodicScheduleSlot T) → ℕ
count_slots n [] = 0
count_slots n (x ∷ xs) = one_if (x.interval == n) + count_slots n xs

unfoldable pub occurrences : {T : Type 0} → ℕ → List (PeriodicScheduleSlot T) → ℕ
occurrences i [] = 0
occurrences i (x ∷ xs) = count i x.actions + occurrences i xs

module _ {T : Type 0} (timer : Timer T) where
  interval-emplace :
      (i : ℕ) (x : PeriodicScheduleSlot T) → (emplace timer i x).interval ≡ x.interval
  unfolding emplace reset_timer
  interval-emplace i x = ground arith

  actions-emplace :
      (i : ℕ) (x : PeriodicScheduleSlot T)
      → (emplace timer i x).actions ≡ record { id = i; active = true } ∷ x.actions
  unfolding emplace reset_timer
  actions-emplace i x = elim (Bool-cases (is_empty x.actions)) [
    | inl e ↦ rw e refl
    | inr e ↦ rw e refl
  ]

  interval-remove : (i : ℕ) (x : PeriodicScheduleSlot T) → (remove timer i x).interval ≡ x.interval
  unfolding remove
  interval-remove i x = ground arith

  actions-remove :
      (i : ℕ) (x : PeriodicScheduleSlot T) → (remove timer i x).actions ≡ without i x.actions
  unfolding remove
  actions-remove i x = elim (Bool-cases (is_empty (without i x.actions))) [
    | inl e ↦ rw e refl
    | inr e ↦ rw e refl
  ]

  count-emplace :
      (i j : ℕ) (x : PeriodicScheduleSlot T)
      → count j (emplace timer i x).actions ≡ one_if (i == j) + count j x.actions
  unfolding count
  count-emplace i j x = ap (count j) (actions-emplace i x)

  count-remove :
      (i j : ℕ) (x : PeriodicScheduleSlot T)
      → count j (remove timer i x).actions ≤ count j x.actions
  count-remove i j x =
      subst (λ l. count j l ≤ count j x.actions) (sym (actions-remove i x))
        (count-without j i x.actions)

  pub occurrences-emplace_in :
      (n i j : ℕ) (xs : List (PeriodicScheduleSlot T))
      → occurrences j (emplace_in timer n i xs) ≡ one_if (i == j) + occurrences j xs
  unfolding occurrences emplace_in count
  occurrences-emplace_in n i j [] =
      omega (arith, count-emplace i j (PeriodicScheduleSlot.new timer n))
  occurrences-emplace_in n i j (x ∷ xs) = elim (Bool-cases (x.interval == n)) [
    | inl e ↦ rw e (omega (arith, count-emplace i j x))
    | inr e ↦ rw e (omega (arith, occurrences-emplace_in n i j xs))
  ]

  pub occurrences-remove_from :
      (i j : ℕ) (xs : List (PeriodicScheduleSlot T))
      → occurrences j (remove_from timer i xs) ≤ occurrences j xs
  unfolding occurrences remove_from
  occurrences-remove_from i j [] = omega arith
  occurrences-remove_from i j (x ∷ xs) = elim (Bool-cases (ltb 0 (count i x.actions))) [
    | inl e ↦ rw e (omega (arith, count-remove i j x))
    | inr e ↦ rw e (omega (arith, occurrences-remove_from i j xs))
  ]

  -- A slot is added where there is none of the interval.
  pub count_slots-emplace_in :
      (n i m : ℕ) (xs : List (PeriodicScheduleSlot T))
      → (count_slots m (emplace_in timer n i xs) ≡ count_slots m xs)
        ⊎ ((count_slots n xs ≡ 0)
            × (count_slots m (emplace_in timer n i xs) ≡ count_slots m xs + one_if (n == m)))
  unfolding count_slots emplace_in
  count_slots-emplace_in n i m [] = inr (
    refl,
    omega
        (arith, ap (λ k. one_if (k == m)) (interval-emplace i (PeriodicScheduleSlot.new timer n))),
  )
  count_slots-emplace_in n i m (x ∷ xs) = elim (Bool-cases (x.interval == n)) [
    | inl e ↦ rw e (inl (ap (λ k. one_if (k == m) + count_slots m xs) (interval-emplace i x)))
    | inr e ↦ rw e (elim (count_slots-emplace_in n i m xs) [
      | inl same ↦ inl (omega (arith, same))
      | inr (none_there, more) ↦ inr (omega (arith, none_there), omega (arith, more))
    ])
  ]

  pub count_slots-remove_from :
      (i m : ℕ) (xs : List (PeriodicScheduleSlot T))
      → count_slots m (remove_from timer i xs) ≡ count_slots m xs
  unfolding count_slots remove_from
  count_slots-remove_from i m [] = refl
  count_slots-remove_from i m (x ∷ xs) = elim (Bool-cases (ltb 0 (count i x.actions))) [
    | inl e ↦ rw e (ap (λ k. one_if (k == m) + count_slots m xs) (interval-remove i x))
    | inr e ↦ rw e (ap (λ k. one_if (x.interval == m) + k) (count_slots-remove_from i m xs))
  ]

  found_here :
      (n i : ℕ) (x : PeriodicScheduleSlot T) (rest : Option (PeriodicScheduleSlot T))
      → x.interval ≡ n
      → (y : PeriodicScheduleSlot T) × ((if (emplace timer i x).interval == n
            then some (emplace timer i x)
            else rest)
          ≡ some y)
        × (y.interval ≡ n)
        × (0 < count i y.actions)
  found_here n i x rest h = (
    emplace timer i x,
    rw (interval-emplace i x, h, ==_refl n) refl,
    interval-emplace i x ∙ h,
    positive (ap one_if (==_refl i)),
  )
    where
      positive : one_if (i == i) ≡ 1 → 0 < count i (emplace timer i x).actions
      positive e = omega (arith, count-emplace i i x, e)

  -- The action is in the slot that is found under its interval.
  pub find_slot-emplace_in :
      (n i : ℕ) (xs : List (PeriodicScheduleSlot T))
      → (x : PeriodicScheduleSlot T) × (find_slot n (emplace_in timer n i xs) ≡ some x)
        × (x.interval ≡ n)
        × (0 < count i x.actions)
  unfolding find_slot emplace_in
  find_slot-emplace_in n i [] = found_here n i (PeriodicScheduleSlot.new timer n) none refl
  find_slot-emplace_in n i (x ∷ xs) = elim (Bool-cases (x.interval == n)) [
    | inl e ↦ rw e (found_here n i x (find_slot n xs) ((==_iff x.interval n).0 e))
    | inr e ↦ rw (e, e) (find_slot-emplace_in n i xs)
  ]
