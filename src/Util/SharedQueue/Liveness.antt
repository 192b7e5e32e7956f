-- ===== src/Util/SharedQueue/Liveness.antt =====
-- Threads at a queue of include/crisp/util/SharedQueue.hh: nothing is lost, and nobody waits for
-- nothing.
use robocrisp.Base.{
  ℕ, zero, suc, ◌+◌, ◌≤◌, ◌≡◌, inl, inr, refl, ap, ◌∙◌, Bool, true, false, List, [], ◌∷◌, ◌++◌,
  append-nil, length, set, get_elem?, some, Bool-cases, arith,
}
use robocrisp.Util.SharedQueue.{
  SharedQueue, Thread, idle, entering, blocked, notified, got, interrupted, new, empty, finish,
  resume, enter,
}
use robocrisp.Util.SharedQueue.Steps.{
  System, Step, Reach, stays, goes, is_blocked, is_notified, count, item_of, act, start, idles,
}
use robocrisp.Util.SharedQueue.Invariant.{IsSound, count-set}
use robocrisp.Util.SharedQueue.Preservation.{Step-IsSound}

idles-count {ℓ} :
    (A : Type ℓ) (n : ℕ)
    → (count is_blocked (idles {A = A} n) ≡ 0) × (count is_notified (idles {A = A} n) ≡ 0)
idles-count A zero = (refl, refl)
idles-count A (suc n) = let (b, c) = idles-count A n in (omega (arith, b), omega (arith, c))

module _ {ℓ} {A : Type ℓ} where
  -- Whatever `n` threads do at a new queue, in any order: the items that were taken, followed by those
  -- in the queue, are those that were pushed, in order; `num_waiters` says how many threads wait, more
  -- than the number that was there before; and if a thread is blocked, then the queue is not aborted,
  -- and at least as many threads are notified as there are items.
  pub Reach-IsSound : (n waiters : ℕ) (s : System A) → Reach (start n waiters) s → IsSound waiters s
  unfolding new
  Reach-IsSound n waiters s stays =
      let (b, c) = idles-count A n in
      record { in_order = refl; counted = omega (arith, b, c); not_lost = inl b }
  Reach-IsSound n waiters s' (goes {s} r step) =
      Step-IsSound waiters s s' step (Reach-IsSound n waiters s r)

  some_notified :
      (ts : List (Thread A))
      → 1 ≤ count is_notified ts
      → (i : ℕ) × (told : Bool) × (get_elem? ts i ≡ some (notified told))
  some_notified [] h = absurd (omega arith)
  some_notified (idle ∷ ts) h =
      let (i, told, e) = some_notified ts (omega (arith, h)) in (suc i, told, e)
  some_notified (entering told ∷ ts) h =
      let (i, told', e) = some_notified ts (omega (arith, h)) in (suc i, told', e)
  some_notified (blocked told ∷ ts) h =
      let (i, told', e) = some_notified ts (omega (arith, h)) in (suc i, told', e)
  some_notified (notified told ∷ ts) h = (0, told, refl)
  some_notified (got x ∷ ts) h =
      let (i, told, e) = some_notified ts (omega (arith, h)) in (suc i, told, e)
  some_notified (interrupted told ∷ ts) h =
      let (i, told', e) = some_notified ts (omega (arith, h)) in (suc i, told', e)

  get_elem?-set :
      (ts : List (Thread A)) (i : ℕ) (t u : Thread A)
      → get_elem? ts i ≡ some t
      → get_elem? (set ts i u) i ≡ some u
  get_elem?-set [] i t u h = absurd (ground (arith, h))
  get_elem?-set (v ∷ ts) zero t u h = refl
  get_elem?-set (v ∷ ts) (suc i) t u h = get_elem?-set ts i t u h

  -- A thread is in `next`.
  pub data InNext : Thread A → Type ℓ where
    at_lock : (told : Bool) → InNext (entering told)
    at_wait : (told : Bool) → InNext (blocked told)
    at_wake : (told : Bool) → InNext (notified told)

  resume_item :
      (told : Bool) (x : A) (xs : List A) (q : SharedQueue A)
      → q.items ≡ x ∷ xs
      → q.aborted ≡ false
      → resume told q ≡ (got x, record q { items = xs; waiters = (resume told q).1.waiters })
  unfolding resume finish empty
  resume_item told x xs q h e = rw (h, e) refl

  enter_item :
      (told : Bool) (x : A) (xs : List A) (q : SharedQueue A)
      → q.items ≡ x ∷ xs
      → q.aborted ≡ false
      → enter told q ≡ (got x, record q { items = xs })
  unfolding enter finish empty
  enter_item told x xs q h e = rw (h, e) refl

  resumed :
      (s : System A) (i : ℕ) (told : Bool) (x : A) (xs : List A)
      → get_elem? s.threads i ≡ some (notified told)
      → s.queue.items ≡ x ∷ xs
      → s.queue.aborted ≡ false
      → (s' : System A) × Step s s' × (s'.queue.items ≡ xs) × (s'.taken ≡ s.taken ++ x ∷ [])
  resumed s i told x xs h e running =
      let r = resume_item told x xs s.queue e running in
      (
        act i (resume told s.queue) s,
        Step.resumes i told h,
        ap (λ p. p.1.items) r,
        ap (λ p. s.taken ++ item_of p.0) r,
      )

  -- Wherever the threads have come to: if there is an item, the queue is not aborted, and some thread is
  -- in `next`, then a thread can take the first item with its next step. So no thread stays blocked
  -- beside an item, whichever thread a push notified.
  pub item_taken :
      (n waiters : ℕ) (s : System A) (i : ℕ) (t : Thread A) (x : A) (xs : List A)
      → Reach (start n waiters) s
      → s.queue.items ≡ x ∷ xs
      → s.queue.aborted ≡ false
      → get_elem? s.threads i ≡ some t
      → InNext t
      → (s' : System A) × Step s s' × (s'.queue.items ≡ xs) × (s'.taken ≡ s.taken ++ x ∷ [])
  item_taken n waiters s i t x xs r e running h (at_lock told) =
      let p = enter_item told x xs s.queue e running in
      (
        act i (enter told s.queue) s,
        Step.enters i told h,
        ap (λ p. p.1.items) p,
        ap (λ p. s.taken ++ item_of p.0) p,
      )
  item_taken n waiters s i t x xs r e running h (at_wake told) = resumed s i told x xs h e running
  item_taken n waiters s i t x xs r e running h (at_wait told) =
      let v = Reach-IsSound n waiters s r in
      let b = count-set is_blocked s.threads i (blocked told) idle h in
      elim v.not_lost [
        | inl z ↦ absurd (omega (arith, b, z))
        | inr (l, _) ↦
            let (j, told', g) = some_notified s.threads (omega (arith, l, ap length e)) in
            resumed s j told' x xs g e running
      ]

  resume_aborted :
      (told : Bool) (q : SharedQueue A) → q.aborted ≡ true → (resume told q).0 ≡ interrupted told
  unfolding resume finish
  resume_aborted told q e = elim (Bool-cases (empty q)) [
    | inl c ↦ rw (c, e) refl
    | inr c ↦ rw (c, e) refl
  ]

  enter_aborted :
      (told : Bool) (q : SharedQueue A) → q.aborted ≡ true → (enter told q).0 ≡ interrupted told
  unfolding enter finish
  enter_aborted told q e = elim (Bool-cases (empty q)) [
    | inl c ↦ rw c (resume_aborted told (record q { waiters = q.waiters + 1 }) e)
    | inr c ↦ rw (c, e) refl
  ]

  -- The flag that a thread gave to `next`.
  abbrev pub flag_of : Thread A → Bool
  flag_of (entering told) = told
  flag_of (blocked told) = told
  flag_of (notified told) = told
  flag_of (interrupted told) = told
  flag_of idle = false
  flag_of (got x) = false

  -- Wherever the threads have come to: once the queue is aborted, each thread that is in `next` comes
  -- out of it with its next step, without an item, and its flag is set if it gave one.
  pub aborted_ends :
      (n waiters : ℕ) (s : System A) (i : ℕ) (t : Thread A)
      → Reach (start n waiters) s
      → s.queue.aborted ≡ true
      → get_elem? s.threads i ≡ some t
      → InNext t
      → (s' : System A) × Step s s'
        × (get_elem? s'.threads i ≡ some (interrupted (flag_of t)))
        × (s'.taken ≡ s.taken)
  aborted_ends n waiters s i t r a h (at_lock told) =
      let p = enter_aborted told s.queue a in
      (
        act i (enter told s.queue) s,
        Step.enters i told h,
        get_elem?-set s.threads i _ _ h ∙ ap some p,
        ap (λ u. s.taken ++ item_of u) p ∙ append-nil s.taken,
      )
  aborted_ends n waiters s i t r a h (at_wake told) =
      let p = resume_aborted told s.queue a in
      (
        act i (resume told s.queue) s,
        Step.resumes i told h,
        get_elem?-set s.threads i _ _ h ∙ ap some p,
        ap (λ u. s.taken ++ item_of u) p ∙ append-nil s.taken,
      )
  aborted_ends n waiters s i t r a h (at_wait told) =
      let v = Reach-IsSound n waiters s r in
      let b = count-set is_blocked s.threads i (blocked told) idle h in
      absurd (elim v.not_lost [ inl z ↦ omega (arith, b, z) | inr (l, e) ↦ ground (arith, a, e) ])
