-- ===== src/Util/PeriodicScheduleSlot/Laws.antt =====
-- A slot with actions does not fall silent, and ticks once in an interval.
use robocrisp.Base.{
  ℕ, ◌+◌, ◌≤◌, ◌<◌, ◌≡◌, ◌⊎◌, inl, inr, refl, sym, ap, ◌∙◌, subst, Bool, true, false, List, [], ◌∷◌,
  ◌++◌, Option, none, some, some-injective, ◌==◌, ==_iff, if◌then◌else◌, Bool-cases, arith,
}
use robocrisp.Util.Timer.{Timer, IsTimer, Waiter, own, of_action, one_if}
use robocrisp.Util.PeriodicScheduleSlot.{
  PeriodicAction, PeriodicScheduleSlot, is_empty, count, find, without, set_active, new, wait_all,
  reset_timer, emplace, remove, slot_expiry_handler, action_expiry_handler, call, Step, emplaces,
  removes, pauses, unpauses, time_reached, ticks, tick_cancelled, calls, call_cancelled, Reach,
  stays, goes,
}

-- How many active actions have a number.
unfoldable pub count_active : ℕ → List PeriodicAction → ℕ
count_active i [] = 0
count_active i (a ∷ more) = (if a.active then one_if (a.id == i) else 0) + count_active i more

count_active-count : (i : ℕ) (xs : List PeriodicAction) → count_active i xs ≤ count i xs
unfolding count_active count
count_active-count i [] = omega arith
count_active-count i (a ∷ more) = ground (arith, count_active-count i more)

pub count-without : (i j : ℕ) (xs : List PeriodicAction) → count i (without j xs) ≤ count i xs
unfolding count without
count-without i j [] = omega arith
count-without i j (a ∷ more) = ground (arith, count-without i j more)

count-set_active :
    (p : Bool) (i j : ℕ) (xs : List PeriodicAction) → count i (set_active p j xs) ≡ count i xs
unfolding count set_active
count-set_active p i j [] = refl
count-set_active p i j (a ∷ more) = elim (Bool-cases (a.id == j)) [
  | inl e ↦ rw e (ap (λ n. one_if (a.id == i) + n) (count-set_active p i j more))
  | inr e ↦ rw e (ap (λ n. one_if (a.id == i) + n) (count-set_active p i j more))
]

is_empty-set_active :
    (p : Bool) (i : ℕ) (xs : List PeriodicAction) → is_empty (set_active p i xs) ≡ is_empty xs
unfolding set_active
is_empty-set_active p i [] = refl
is_empty-set_active p i (a ∷ more) = refl

is_empty-without :
    (i : ℕ) (xs : List PeriodicAction) → is_empty xs ≡ true → is_empty (without i xs) ≡ true
unfolding without
is_empty-without i [] h = refl
is_empty-without i (a ∷ more) h = cc

module _ {T : Type 0} (timer : Timer T) (law : IsTimer timer) where
  due-wait_all :
      (w : Waiter) (xs : List PeriodicAction) (t : T)
      → timer.due w (wait_all timer xs t) ≡ timer.due w t
  unfolding wait_all
  due-wait_all w [] t = refl
  due-wait_all w (a ∷ more) t = elim (Bool-cases a.active) [
    | inl e ↦ rw e (due-wait_all w more _ ∙ law.wait_keeps w (of_action a.id) t)
    | inr e ↦ rw e (due-wait_all w more t)
  ]

  pending-own :
      (xs : List PeriodicAction) (t : T)
      → timer.pending own (wait_all timer xs t) ≡ timer.pending own t
  unfolding wait_all
  pending-own [] t = refl
  pending-own (a ∷ more) t = elim (Bool-cases a.active) [
    | inl e ↦ rw e (
        omega (
          arith,
          pending-own more (timer.async_wait (of_action a.id) t),
          law.waits own (of_action a.id) t,
        ))
    | inr e ↦ rw e (pending-own more t)
  ]

  pending-action :
      (i : ℕ) (xs : List PeriodicAction) (t : T)
      → timer.pending (of_action i) (wait_all timer xs t)
        ≡ timer.pending (of_action i) t + count_active i xs
  unfolding wait_all count_active
  pending-action i [] t = omega arith
  pending-action i (a ∷ more) t = elim (Bool-cases a.active) [
    | inl e ↦ rw e (
        omega (
          arith,
          pending-action i more (timer.async_wait (of_action a.id) t),
          law.waits (of_action i) (of_action a.id) t,
        ))
    | inr e ↦ rw e (omega (arith, pending-action i more t))
  ]

  -- What `reset_timer` leaves.
  record IsReset (s s' : PeriodicScheduleSlot T) : Type 0 where
    same_actions : s'.actions ≡ s.actions
    ticks_once : timer.pending own s'.timer ≡ 1
    calls_active : (i : ℕ) → timer.pending (of_action i) s'.timer ≡ count_active i s.actions
    due_kept : (w : Waiter) → timer.due w s'.timer ≡ timer.due w s.timer

  reset_timer-IsReset : (s : PeriodicScheduleSlot T) → IsReset s (reset_timer timer s)
  unfolding reset_timer
  reset_timer-IsReset s = record {
    same_actions = refl;
    ticks_once = omega (
      arith,
      law.waits own own all,
      pending-own s.actions cleared,
      law.expires_cancels s.interval own s.timer,
    );
    calls_active = λ i. omega (
      arith,
      law.waits (of_action i) own all,
      pending-action i s.actions cleared,
      law.expires_cancels s.interval (of_action i) s.timer,
    );
    due_kept = λ w.
        law.wait_keeps w own all
        ∙ due-wait_all w s.actions cleared
        ∙ law.expires_keeps s.interval w s.timer;
  }
    where
      cleared : T
      cleared = timer.expires_from_now s.interval s.timer

      all : T
      all = wait_all timer s.actions cleared

  -- Every action is in the slot once; if there is any, a wait of the slot is pending or due; and no wait
  -- is pending twice.
  pub record IsTicking (s : PeriodicScheduleSlot T) : Type 0 where
    pub distinct : (i : ℕ) → count i s.actions ≤ 1
    pub ticking :
        (is_empty s.actions ≡ true) ⊎ (0 < timer.pending own s.timer + timer.due own s.timer)
    pub once : timer.pending own s.timer ≤ 1
    pub each_once : (i : ℕ) → timer.pending (of_action i) s.timer ≤ 1

  reset-IsTicking :
      (s s' : PeriodicScheduleSlot T)
      → ((i : ℕ) → count i s.actions ≤ 1)
      → IsReset s s'
      → IsTicking s'
  reset-IsTicking s s' d r = record {
    distinct = λ i. subst (λ l. count i l ≤ 1) (sym r.same_actions) (d i);
    ticking = inr (omega (arith, r.ticks_once));
    once = omega (arith, r.ticks_once);
    each_once = λ i. omega (arith, r.calls_active i, d i, count_active-count i s.actions);
  }

  tick-IsTicking :
      (s : PeriodicScheduleSlot T)
      → ((i : ℕ) → count i s.actions ≤ 1)
      → IsTicking (reset_timer timer s)
  tick-IsTicking s d = reset-IsTicking s (reset_timer timer s) d (reset_timer-IsReset s)

  pub emplace-IsTicking :
      (i : ℕ) (s : PeriodicScheduleSlot T)
      → count i s.actions ≡ 0
      → IsTicking s
      → IsTicking (emplace timer i s)
  unfolding emplace count
  emplace-IsTicking i s n v = elim (Bool-cases (is_empty s.actions)) [
    | inl e ↦ rw e (tick-IsTicking (record s { actions = more }) distinct)
    | inr e ↦ rw e (record {
      distinct = distinct;
      ticking = elim v.ticking [ inl z ↦ cc | inr h ↦ inr h ];
      once = v.once;
      each_once = v.each_once;
    })
  ]
    where
      more : List PeriodicAction
      more = record { id = i; active = true } ∷ s.actions

      same : (j : ℕ) → (i == j) ≡ true → count j s.actions ≡ 0
      same j e = subst (λ k. count k s.actions ≡ 0) ((==_iff i j).0 e) n

      distinct : (j : ℕ) → count j (record { id = i; active = true } ∷ s.actions) ≤ 1
      distinct j = ground (arith, v.distinct j, same j)

  pub remove-IsTicking :
      (i : ℕ) (s : PeriodicScheduleSlot T) → IsTicking s → IsTicking (remove timer i s)
  unfolding remove
  remove-IsTicking i s v = elim (Bool-cases (is_empty (without i s.actions))) [
    | inl e ↦ rw e (record {
      distinct = distinct;
      ticking = inl e;
      once = omega (arith, law.cancels own s.timer);
      each_once = λ j. omega (arith, law.cancels (of_action j) s.timer);
    })
    | inr e ↦ rw e (record {
      distinct = distinct;
      ticking = elim v.ticking [ inl z ↦ inl (is_empty-without i s.actions z) | inr h ↦ inr h ];
      once = v.once;
      each_once = v.each_once;
    })
  ]
    where
      distinct : (j : ℕ) → count j (without i s.actions) ≤ 1
      distinct j = omega (arith, v.distinct j, count-without j i s.actions)

  set_active-IsTicking :
      (p : Bool) (i : ℕ) (s : PeriodicScheduleSlot T)
      → IsTicking s
      → IsTicking (record s { actions = set_active p i s.actions })
  set_active-IsTicking p i s v = record {
    distinct = λ j. omega (arith, v.distinct j, count-set_active p j i s.actions);
    ticking =
        subst (λ b. (b ≡ true) ⊎ (0 < timer.pending own s.timer + timer.due own s.timer))
          (sym (is_empty-set_active p i s.actions)) v.ticking;
    once = v.once;
    each_once = v.each_once;
  }

  reach-IsTicking :
      (s : PeriodicScheduleSlot T)
      → IsTicking s
      → IsTicking (record s { timer = timer.reach s.timer })
  reach-IsTicking s v = record {
    distinct = v.distinct;
    ticking = elim v.ticking [
      | inl z ↦ inl z
      | inr h ↦ inr (omega (arith, h, law.reached own s.timer, law.reached_due own s.timer))
    ];
    once = omega (arith, law.reached own s.timer);
    each_once = λ i. omega (arith, law.reached (of_action i) s.timer);
  }

  -- The handler of an action is called.
  complete-IsTicking :
      (i : ℕ) (s : PeriodicScheduleSlot T)
      → IsTicking s
      → IsTicking (record s { timer = timer.complete (of_action i) s.timer })
  complete-IsTicking i s v = record {
    distinct = v.distinct;
    ticking = elim v.ticking [
      | inl z ↦ inl z
      | inr h ↦ inr (
          omega (
            arith,
            h,
            law.completed own (of_action i) s.timer,
            law.completed_due own (of_action i) s.timer,
          ))
    ];
    once = omega (arith, v.once, law.completed own (of_action i) s.timer);
    each_once =
        λ j. omega (arith, v.each_once j, law.completed (of_action j) (of_action i) s.timer);
  }

  log-IsTicking :
      (s : PeriodicScheduleSlot T) (more : List ℕ)
      → IsTicking s
      → IsTicking (record s { called = more })
  log-IsTicking s more v = record {
    distinct = v.distinct;
    ticking = v.ticking;
    once = v.once;
    each_once = v.each_once;
  }

  call-IsTicking :
      (o : Option PeriodicAction) (s s' : PeriodicScheduleSlot T)
      → call timer o s ≡ some s'
      → IsTicking s
      → IsTicking s'
  call-IsTicking none s s' e v = cc
  call-IsTicking (some a) s s' e v = subst IsTicking (some-injective _ s' e) (kept a.active)
    where
      kept : (p : Bool) → IsTicking (if p then record s { called = s.called ++ a.id ∷ [] } else s)
      kept true = log-IsTicking s (s.called ++ a.id ∷ []) v
      kept false = v

  Step-IsTicking : (s s' : PeriodicScheduleSlot T) → Step timer s s' → IsTicking s → IsTicking s'
  unfolding slot_expiry_handler action_expiry_handler
  Step-IsTicking s s' (emplaces i n) v = emplace-IsTicking i s n v
  Step-IsTicking s s' (removes i) v = remove-IsTicking i s v
  Step-IsTicking s s' (pauses i) v = set_active-IsTicking false i s v
  Step-IsTicking s s' (unpauses i) v = set_active-IsTicking true i s v
  Step-IsTicking s s' time_reached v = reach-IsTicking s v
  Step-IsTicking s s' (ticks h) v =
      tick-IsTicking (record s { timer = timer.complete own s.timer }) v.distinct
  Step-IsTicking s s' tick_cancelled v = v
  Step-IsTicking s s' (calls i h e) v =
      call-IsTicking (find i s.actions) _ s' e (complete-IsTicking i s v)
  Step-IsTicking s s' (call_cancelled i e) v = subst IsTicking (some-injective s s' e) v

  pub new-IsTicking : (n : ℕ) → IsTicking (new timer n)
  unfolding count
  new-IsTicking n = record {
    distinct = λ i. omega arith;
    ticking = inl refl;
    once = omega (arith, law.none_at_first own);
    each_once = λ i. omega (arith, law.none_at_first (of_action i));
  }

  -- A slot is made, and then, in any order, actions are added, removed, paused and resumed, its timer
  -- reaches its time, and handlers are called, with an error or without. As long as it has actions a wait
  -- of the slot is pending or due, so that it goes on; never are two pending, so that it goes on once in
  -- an interval; and no action is in it twice or waits twice. If a wait of it is due, its handler
  -- leaves one wait pending of the slot and of every active action, and none of the others.
  pub Reach-IsTicking :
      (n : ℕ) (s : PeriodicScheduleSlot T)
      → Reach timer (new timer n) s
      → IsTicking s
        × (timer.pending own (slot_expiry_handler timer true s).timer ≡ 1)
        × ((i : ℕ)
            → timer.pending (of_action i) (slot_expiry_handler timer true s).timer
              ≡ count_active i s.actions)
  unfolding slot_expiry_handler
  Reach-IsTicking n s r =
      let reset = reset_timer-IsReset s in (all s r, reset.ticks_once, reset.calls_active)
    where
      all : (s : PeriodicScheduleSlot T) → Reach timer (new timer n) s → IsTicking s
      all s stays = new-IsTicking n
      all s' (goes {s} r step) = Step-IsTicking s s' step (all s r)
