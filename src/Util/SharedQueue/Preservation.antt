-- ===== src/Util/SharedQueue/Preservation.antt =====
-- Each step of the threads keeps what holds of a queue of include/crisp/util/SharedQueue.hh.
use robocrisp.Base.{
  ℕ, ◌+◌, ◌≡◌, inl, inr, refl, ap, ◌∙◌, Bool, ◌&&◌, List, [], ◌∷◌, ◌++◌, append_assoc, map,
  length-append, Bool-cases, arith,
}
use robocrisp.Util.SharedQueue.{
  SharedQueue, Thread, idle, entering, blocked, notified, got, interrupted, push, pop, abort, wake,
  check,
}
use robocrisp.Util.SharedQueue.Steps.{System, Step, is_blocked, is_notified, count, first}
use robocrisp.Util.SharedQueue.Invariant.{
  IsSound, system, moved-IsSound, place-IsSound, resume-IsSound, enter-IsSound, in_order_none,
  in_order_taken,
}

module _ {ℓ} {A : Type ℓ} where
  check-free :
      (told : Bool) (q : SharedQueue A)
      → (is_blocked (check told q) ≡ 0) × (is_notified (check told q) ≡ 0)
  unfolding check
  check-free told q = elim (Bool-cases (q.aborted && told)) [
    | inl e ↦ rw e (refl, refl)
    | inr e ↦ rw e (refl, refl)
  ]

  woken :
      (ts : List (Thread A))
      → (count is_blocked (map wake ts) ≡ 0)
        × (count is_notified (map wake ts) ≡ count is_blocked ts + count is_notified ts)
  unfolding wake
  woken [] = (refl, omega arith)
  woken (idle ∷ ts) = let (b, n) = woken ts in (omega (arith, b), omega (arith, n))
  woken (entering told ∷ ts) = let (b, n) = woken ts in (omega (arith, b), omega (arith, n))
  woken (blocked told ∷ ts) = let (b, n) = woken ts in (omega (arith, b), omega (arith, n))
  woken (notified told ∷ ts) = let (b, n) = woken ts in (omega (arith, b), omega (arith, n))
  woken (got x ∷ ts) = let (b, n) = woken ts in (omega (arith, b), omega (arith, n))
  woken (interrupted told ∷ ts) = let (b, n) = woken ts in (omega (arith, b), omega (arith, n))

  pushed_in_order :
      (s : System A) (x : A)
      → s.pushed ≡ s.taken ++ s.queue.items
      → s.pushed ++ x ∷ [] ≡ s.taken ++ (s.queue.items ++ x ∷ [])
  pushed_in_order s x h = ap (λ l. l ++ x ∷ []) h ∙ append_assoc s.taken s.queue.items (x ∷ [])

  pop-IsSound :
      (w : ℕ) (items : List A) (aborted : Bool) (waiters : ℕ) (ts : List (Thread A))
      (pushed taken : List A)
      → IsSound w (system items aborted waiters ts pushed taken)
      → let s = system items aborted waiters ts pushed taken in
        IsSound w (record s { queue = pop s.queue; taken = taken ++ first items })
  unfolding pop
  pop-IsSound w [] aborted waiters ts pushed taken v = record {
    in_order = v.in_order ∙ in_order_none taken [];
    counted = v.counted;
    not_lost = v.not_lost;
  }
  pop-IsSound w (x ∷ xs) aborted waiters ts pushed taken v = record {
    in_order = v.in_order ∙ in_order_taken taken xs x;
    counted = v.counted;
    not_lost = elim v.not_lost [ inl z ↦ inl z | inr (l, e) ↦ inr (omega (arith, l), e) ];
  }

  pub Step-IsSound : (w : ℕ) (s s' : System A) → Step s s' → IsSound w s → IsSound w s'
  unfolding push abort
  Step-IsSound w s s' (Step.calls i told h) v =
      let (b, n) = check-free told s.queue in
      place-IsSound w s i idle (check told s.queue) h b (omega (arith, n)) v
  Step-IsSound w s s' (Step.enters i told h) v =
      enter-IsSound w s.queue.waiters s.threads s.pushed s.taken i told s.queue.items
        s.queue.aborted h v
  Step-IsSound w s s' (Step.wakes i told h) v =
      place-IsSound w s i (blocked told) (notified told) h refl refl v
  Step-IsSound w s s' (Step.resumes i told h) v =
      resume-IsSound w s.queue.waiters s.threads s.pushed s.taken i told s.queue.items
        s.queue.aborted h v
  Step-IsSound w s s' (Step.takes i x h) v = place-IsSound w s i (got x) idle h refl refl v
  Step-IsSound w s s' (Step.leaves i told h) v =
      place-IsSound w s i (interrupted told) idle h refl refl v
  Step-IsSound w s s' (Step.pushes x z) v = record {
    in_order = pushed_in_order s x v.in_order;
    counted = v.counted;
    not_lost = inl z;
  }
  Step-IsSound w s s' (Step.pushes_to i told x h) v =
      moved-IsSound w s.queue.items s.queue.aborted s.queue.waiters s.threads s.pushed s.taken i _
        (notified told) h v (s.queue.items ++ x ∷ []) s.queue.waiters (s.pushed ++ x ∷ []) s.taken
        refl refl (inr (omega (arith, length-append s.queue.items (x ∷ []))))
        (pushed_in_order s x v.in_order)
  Step-IsSound w s s' Step.pops v =
      pop-IsSound w s.queue.items s.queue.aborted s.queue.waiters s.threads s.pushed s.taken v
  Step-IsSound w s s' Step.aborts v =
      let (b, n) = woken s.threads in
      record { in_order = v.in_order; counted = omega (arith, v.counted, b, n); not_lost = inl b }
