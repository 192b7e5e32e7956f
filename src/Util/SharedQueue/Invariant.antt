-- ===== src/Util/SharedQueue/Invariant.antt =====
-- What holds of a queue of include/crisp/util/SharedQueue.hh whatever the threads have done.
use robocrisp.Base.{
  ℕ, zero, suc, ◌+◌, ◌-◌, ◌≤◌, ◌≡◌, ◌⊎◌, inl, inr, refl, sym, ap, ◌∙◌, Bool, true, false, List, [],
  ◌∷◌, ◌++◌, append_assoc, append-nil, length, set, get_elem?, some, some-injective, arith,
}
use robocrisp.Util.SharedQueue.{
  Thread, idle, entering, blocked, notified, got, interrupted, empty, finish, resume, enter,
}
use robocrisp.Util.SharedQueue.Steps.{System, is_blocked, is_notified, count, place, act}

module _ {ℓ} {A : Type ℓ} where
  -- A thread that is elsewhere is counted elsewhere.
  pub count-set :
      (kind : Thread A → ℕ) (ts : List (Thread A)) (i : ℕ) (t v : Thread A)
      → get_elem? ts i ≡ some t
      → count kind (set ts i v) + kind t ≡ count kind ts + kind v
  count-set kind [] i t v h = absurd (ground (arith, h))
  count-set kind (u ∷ ts) zero t v h = omega (arith, ap kind (some-injective _ _ h))
  count-set kind (u ∷ ts) (suc i) t v h = omega (arith, count-set kind ts i t v h)

  -- What was taken and what is in the queue is what was pushed, in order; the count of waiters says how
  -- many threads are in the loop on the condition variable, more than the number it began with; and
  -- where a thread is blocked, the queue is not aborted and for each item a thread was notified.
  pub record IsSound (w : ℕ) (s : System A) : Type ℓ where
    pub in_order : s.pushed ≡ s.taken ++ s.queue.items
    pub counted : s.queue.waiters ≡ w + (count is_blocked s.threads + count is_notified s.threads)
    pub not_lost :
        (count is_blocked s.threads ≡ 0)
        ⊎ (length s.queue.items ≤ count is_notified s.threads) × (s.queue.aborted ≡ false)

  abbrev pub system : List A → Bool → ℕ → List (Thread A) → List A → List A → System A
  system items aborted waiters threads pushed taken = record {
    queue = record { items = items; aborted = aborted; waiters = waiters };
    threads = threads;
    pushed = pushed;
    taken = taken;
  }

  pub in_order_taken : (taken xs : List A) (x : A) → taken ++ x ∷ xs ≡ (taken ++ x ∷ []) ++ xs
  in_order_taken taken xs x = sym (append_assoc taken (x ∷ []) xs)

  pub in_order_none : (taken xs : List A) → taken ++ xs ≡ (taken ++ []) ++ xs
  in_order_none taken xs = ap (λ l. l ++ xs) (sym (append-nil taken))

  -- A thread that goes from `t` to `u`, where it is not blocked; the queue is aborted, or the thread
  -- makes up for the notification that it uses.
  module _ (w : ℕ) (items : List A) (aborted : Bool) (waiters : ℕ) (ts : List (Thread A))
      (pushed taken : List A) (i : ℕ) (t u : Thread A) (h : get_elem? ts i ≡ some t)
      (v : IsSound w (system items aborted waiters ts pushed taken)) where
    pub moved-IsSound :
        (items' : List A) (waiters' : ℕ) (pushed' taken' : List A)
        → is_blocked u ≡ 0
        → waiters' + (is_blocked t + is_notified t) ≡ waiters + is_notified u
        → (aborted ≡ true) ⊎ (length items' + is_notified t ≤ length items + is_notified u)
        → pushed' ≡ taken' ++ items'
        → IsSound w (system items' aborted waiters' (set ts i u) pushed' taken')
    moved-IsSound items' waiters' pushed' taken' free balance covered order =
        let b = count-set is_blocked ts i t u h in
        let n = count-set is_notified ts i t u h in
        record {
          in_order = order;
          counted = omega (arith, v.counted, b, n, balance, free);
          not_lost = elim v.not_lost [
            | inl z ↦ inl (omega (arith, b, z, free))
            | inr (l, e) ↦ elim covered [
              | inl a ↦ absurd (ground (arith, a, e))
              | inr c ↦ inr (omega (arith, l, c, n), e)
            ]
          ];
        }

    -- A thread that is blocked, at an empty queue that is not aborted.
    blocked-IsSound :
        (waiters' : ℕ)
        → waiters' + (is_blocked t + is_notified t) ≡ waiters + (is_blocked u + is_notified u)
        → items ≡ []
        → aborted ≡ false
        → IsSound w (system items aborted waiters' (set ts i u) pushed (taken ++ []))
    blocked-IsSound waiters' balance none_left running =
        let b = count-set is_blocked ts i t u h in
        let n = count-set is_notified ts i t u h in
        record {
          in_order = v.in_order ∙ in_order_none taken items;
          counted = omega (arith, v.counted, b, n, balance);
          not_lost = inr (omega (arith, ap length none_left), running);
        }

  -- A notified thread is a waiter.
  waiter :
      (w : ℕ) (s : System A) (i : ℕ) (told : Bool)
      → get_elem? s.threads i ≡ some (notified told)
      → IsSound w s
      → 1 ≤ s.queue.waiters
  waiter w s i told h v =
      omega (arith, v.counted, count-set is_notified s.threads i (notified told) idle h)

  module _ (w waiters : ℕ) (ts : List (Thread A)) (pushed taken : List A) (i : ℕ)
      (told : Bool) where
    pub resume-IsSound :
        (items : List A) (aborted : Bool)
        → get_elem? ts i ≡ some (notified told)
        → IsSound w (system items aborted waiters ts pushed taken)
        → let s = system items aborted waiters ts pushed taken in
          IsSound w (act i (resume told s.queue) s)
    unfolding resume finish empty
    resume-IsSound [] false h v =
        blocked-IsSound w [] false waiters ts pushed taken i _ (blocked told) h v waiters refl refl
          refl
    resume-IsSound [] true h v =
        moved-IsSound w [] true waiters ts pushed taken i _ (interrupted told) h v [] (waiters - 1)
          pushed (taken ++ []) refl (omega (arith, waiter w _ i told h v)) (inl refl)
          (v.in_order ∙ in_order_none taken [])
    resume-IsSound (x ∷ xs) true h v =
        moved-IsSound w (x ∷ xs) true waiters ts pushed taken i _ (interrupted told) h v (x ∷ xs)
          (waiters - 1) pushed (taken ++ []) refl (omega (arith, waiter w _ i told h v)) (inl refl)
          (v.in_order ∙ in_order_none taken (x ∷ xs))
    resume-IsSound (x ∷ xs) false h v =
        moved-IsSound w (x ∷ xs) false waiters ts pushed taken i _ (got x) h v xs (waiters - 1)
          pushed (taken ++ x ∷ []) refl (omega (arith, waiter w _ i told h v)) (inr (omega arith))
          (v.in_order ∙ in_order_taken taken xs x)

    pub enter-IsSound :
        (items : List A) (aborted : Bool)
        → get_elem? ts i ≡ some (entering told)
        → IsSound w (system items aborted waiters ts pushed taken)
        → let s = system items aborted waiters ts pushed taken in
          IsSound w (act i (enter told s.queue) s)
    unfolding enter resume finish empty
    enter-IsSound [] false h v =
        blocked-IsSound w [] false waiters ts pushed taken i _ (blocked told) h v (waiters + 1)
          (omega arith) refl refl
    enter-IsSound [] true h v =
        moved-IsSound w [] true waiters ts pushed taken i _ (interrupted told) h v []
          (waiters + 1 - 1) pushed (taken ++ []) refl (omega arith) (inl refl)
          (v.in_order ∙ in_order_none taken [])
    enter-IsSound (x ∷ xs) true h v =
        moved-IsSound w (x ∷ xs) true waiters ts pushed taken i _ (interrupted told) h v (x ∷ xs)
          waiters pushed (taken ++ []) refl refl (inl refl)
          (v.in_order ∙ in_order_none taken (x ∷ xs))
    enter-IsSound (x ∷ xs) false h v =
        moved-IsSound w (x ∷ xs) false waiters ts pushed taken i _ (got x) h v xs waiters pushed
          (taken ++ x ∷ []) refl refl (inr (omega arith)) (v.in_order ∙ in_order_taken taken xs x)

  -- A thread that goes elsewhere while the queue stays as it is.
  pub place-IsSound :
      (w : ℕ) (s : System A) (i : ℕ) (t u : Thread A)
      → get_elem? s.threads i ≡ some t
      → is_blocked u ≡ 0
      → is_blocked t + is_notified t ≡ is_notified u
      → IsSound w s
      → IsSound w (place i u s)
  place-IsSound w s i t u h free balance v =
      moved-IsSound w s.queue.items s.queue.aborted s.queue.waiters s.threads s.pushed s.taken i t u
        h v s.queue.items s.queue.waiters s.pushed s.taken free (omega (arith, balance))
        (inr (omega (arith, balance))) v.in_order
