-- ===== src/Util/Scheduler/Serving.antt =====
-- What is asked of a scheduler of src/util/Scheduler.cc leaves every action in one slot.
use robocrisp.Base.{
  ℕ, ◌≤◌, ◌<◌, ◌≡◌, inl, inr, refl, ap, subst, List, [], ◌∷◌, some, ltb, ◌==◌, ==_iff, Bool-cases,
  All, arith,
}
use robocrisp.Util.Timer.{Timer, IsTimer, one_if}
use robocrisp.Util.PeriodicScheduleSlot
use robocrisp.Util.PeriodicScheduleSlot.{
  PeriodicScheduleSlot, PeriodicAction, count, without, is_empty, emplace, remove, reset_timer,
}
use robocrisp.Util.PeriodicScheduleSlot.Laws.{
  IsTicking, new-IsTicking, emplace-IsTicking, remove-IsTicking,
}
use robocrisp.Util.Scheduler.Laws.{
  count_slots, occurrences, occurrences-emplace_in, occurrences-remove_from, count_slots-emplace_in,
  count_slots-remove_from, find_slot-emplace_in,
}
use robocrisp.Util.Scheduler.{
  Scheduler, Request, schedules, sets_timer, removes_periodic, removes_scheduled, new, find_slot,
  emplace_in, remove_from, schedule, set_timer, remove_periodic, remove_scheduled, serve, serve_all,
}

module _ {T : Type 0} (timer : Timer T) (law : IsTimer timer) where
  All-emplace_in :
      (n i : ℕ) (xs : List (PeriodicScheduleSlot T))
      → occurrences i xs ≡ 0
      → All (IsTicking timer law) xs
      → All (IsTicking timer law) (emplace_in timer n i xs)
  unfolding emplace_in occurrences count
  All-emplace_in n i [] h v = (
    emplace-IsTicking timer law i (PeriodicScheduleSlot.new timer n) refl
        (new-IsTicking timer law n),
    tt,
  )
  All-emplace_in n i (x ∷ xs) h v = elim (Bool-cases (x.interval == n)) [
    | inl e ↦ rw e (emplace-IsTicking timer law i x (omega (arith, h)) v.0, v.1)
    | inr e ↦ rw e (v.0, All-emplace_in n i xs (omega (arith, h)) v.1)
  ]

  All-remove_from :
      (i : ℕ) (xs : List (PeriodicScheduleSlot T))
      → All (IsTicking timer law) xs
      → All (IsTicking timer law) (remove_from timer i xs)
  unfolding remove_from
  All-remove_from i [] v = tt
  All-remove_from i (x ∷ xs) v = elim (Bool-cases (ltb 0 (count i x.actions))) [
    | inl e ↦ rw e (remove-IsTicking timer law i x v.0, v.1)
    | inr e ↦ rw e (v.0, All-remove_from i xs v.1)
  ]

  pub record IsScheduler (s : Scheduler T) : Type 0 where
    pub separate : (n : ℕ) → count_slots n s.slots ≤ 1
    pub once : (i : ℕ) → occurrences i s.slots ≤ 1
    pub older : (i : ℕ) → s.next_action ≤ i → occurrences i s.slots ≡ 0
    pub slots_tick : All (IsTicking timer law) s.slots

  schedule-IsScheduler :
      (n : ℕ) (s : Scheduler T) → IsScheduler s → IsScheduler (schedule timer n s).1
  unfolding schedule
  schedule-IsScheduler n s v = record {
    separate = λ m. elim (count_slots-emplace_in timer n s.next_action m s.slots) [
      | inl same ↦ omega (arith, same, v.separate m)
      | inr (none_there, more) ↦ elim (Bool-cases (n == m)) [
        | inl e ↦
            let gone : count_slots m s.slots ≡ 0 =
              subst (λ k. count_slots k s.slots ≡ 0) ((==_iff n m).0 e) none_there in
            omega (arith, more, gone, ap one_if e)
        | inr e ↦ omega (arith, more, v.separate m, ap one_if e)
      ]
    ];
    once = λ i. elim (Bool-cases (s.next_action == i)) [
      | inl e ↦ omega (
        arith,
        occurrences-emplace_in timer n s.next_action i s.slots,
        v.older i (omega (arith, (==_iff s.next_action i).0 e)),
        ap one_if e,
      )
      | inr e ↦
          omega
            (arith, occurrences-emplace_in timer n s.next_action i s.slots, v.once i, ap one_if e)
    ];
    older = λ i h. ground (
      arith,
      occurrences-emplace_in timer n s.next_action i s.slots,
      v.older i (omega (arith, h)),
      h,
    );
    slots_tick =
        All-emplace_in n s.next_action s.slots (v.older s.next_action (omega arith)) v.slots_tick;
  }

  serve-IsScheduler :
      (r : Request timer) (s : Scheduler T) → IsScheduler s → IsScheduler (serve timer r s)
  unfolding serve remove_periodic remove_scheduled set_timer
  serve-IsScheduler (schedules n) s v = schedule-IsScheduler n s v
  serve-IsScheduler (sets_timer now d f) s v = record {
    separate = v.separate;
    once = v.once;
    older = λ i h. v.older i (omega (arith, h));
    slots_tick = v.slots_tick;
  }
  serve-IsScheduler (removes_periodic i) s v = record {
    separate = λ n. omega (arith, v.separate n, count_slots-remove_from timer i n s.slots);
    once = λ j. omega (arith, v.once j, occurrences-remove_from timer i j s.slots);
    older = λ j h. omega (arith, v.older j h, occurrences-remove_from timer i j s.slots);
    slots_tick = All-remove_from i s.slots v.slots_tick;
  }
  serve-IsScheduler (removes_scheduled i) s v = record {
    separate = v.separate;
    once = v.once;
    older = v.older;
    slots_tick = v.slots_tick;
  }

  serve_all-IsScheduler :
      (rs : List (Request timer)) (s : Scheduler T)
      → IsScheduler s
      → IsScheduler (serve_all timer rs s)
  unfolding serve_all
  serve_all-IsScheduler [] s v = v
  serve_all-IsScheduler (r ∷ rs) s v =
      serve_all-IsScheduler rs (serve timer r s) (serve-IsScheduler r s v)

  new-IsScheduler : IsScheduler new
  unfolding count_slots occurrences
  new-IsScheduler = record {
    separate = λ n. omega arith;
    once = λ i. omega arith;
    older = λ i h. refl;
    slots_tick = tt;
  }

  -- Whatever is asked of a new scheduler, actions scheduled and removed and timers set and removed in any
  -- order: no two of its slots have the same interval, no action is in two slots or twice in one, and
  -- each slot that has actions has a wait of its own that is pending or due. An action that is then
  -- scheduled has a pointer that no slot had, and is in the slot that is found under its interval.
  pub serve_all-schedule :
      (rs : List (Request timer)) (n : ℕ)
      → let s = serve_all timer rs new in
        let (id, s') = schedule timer n s in
        IsScheduler s
        × IsScheduler s'
        × (occurrences id s.slots ≡ 0)
        × ((x : PeriodicScheduleSlot T) × (find_slot n s'.slots ≡ some x)
            × (x.interval ≡ n)
            × (0 < count id x.actions))
  unfolding schedule
  serve_all-schedule rs n =
      let s = serve_all timer rs new in
      let v : IsScheduler s = serve_all-IsScheduler rs new new-IsScheduler in
      (
        v,
        schedule-IsScheduler n s v,
        v.older s.next_action (omega arith),
        find_slot-emplace_in timer n s.next_action s.slots,
      )
