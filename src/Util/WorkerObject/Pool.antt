-- ===== src/Util/WorkerObject/Pool.antt =====
-- What a pool of src/util/WorkerObject.cc promises whoever launches and halts it.
use robocrisp.Base.{
  ℕ, zero, suc, length, ◌-◌, ◌+◌, ◌≤◌, ◌<◌, ◌≡◌, ◌⊎◌, inl, inr, refl, sym, ap, ◌∙◌, subst, true,
  false, List, [], ◌∷◌, ltb, ltb_le, Bool-cases, ltb→lt, arith,
}
use robocrisp.Util.WorkerObject.{
  WorkerObject, new, launch, launch_workers, num_live_threads, running, halt, can_halt, none_is,
  halt_workers,
}
use robocrisp.Util.WorkerObject.Laws.{
  IsStopped, IsRunning, workers_from, stopped-launch, running-halt, running-refuses,
  length-workers_from, count_live-from, all_live-from, any_live-from,
}

running-live :
    (o : WorkerObject) (n : ℕ)
    → IsRunning n o
    → (num_live_threads o ≡ o.capacity)
      × (running true o ≡ true)
      × (running false o ≡ true)
      × (launch o ≡ (false, o))
unfolding num_live_threads running launch
running-live o n r = rw r.workers_live (
  count_live-from o.capacity false n,
  all_live-from o.capacity false n,
  any_live-from o.capacity false n r.some_workers,
  full,
)
  where
    full :
        launch (record o { workers = workers_from o.capacity false n })
        ≡ (false, record o { workers = workers_from o.capacity false n })
    full =
        rw (length-workers_from o.capacity false n, ltb_le o.capacity o.capacity (omega arith)) refl

stopped-dead :
    (o : WorkerObject) → IsStopped o → (num_live_threads o ≡ 0) × (running false o ≡ false)
unfolding num_live_threads running robocrisp.Util.WorkerObject.count_live
    robocrisp.Util.WorkerObject.any_live
stopped-dead o s = rw s.no_workers (refl, refl)

-- A pool of at least one thread that is not running is launched: all its threads are live, and a second
-- launch does nothing. None of its own threads can halt it. A thread that was there before can: then no
-- thread of the pool is live, and the pool is stopped as it was before the launch.
pub launch-halt :
    (o : WorkerObject) (worker me : ℕ)
    → IsStopped o
    → 0 < o.capacity
    → o.next_thread ≤ worker
    → worker < o.next_thread + o.capacity
    → me < o.next_thread
    → (o' o'' : WorkerObject) × (launch o ≡ (true, o'))
      × (num_live_threads o' ≡ o.capacity)
      × (running true o' ≡ true)
      × (launch o' ≡ (false, o'))
      × (halt worker o' ≡ (false, o'))
      × (halt me o' ≡ (true, o''))
      × (num_live_threads o'' ≡ 0)
      × (running false o'' ≡ false)
      × IsStopped o''
      × (o''.capacity ≡ o.capacity)
launch-halt o worker me s h l u before =
    let (o', started, r, next, same) = stopped-launch o s h in
    let (live, all, any, again) = running-live o' o.next_thread r in
    let (o'', ended, t, kept) = running-halt o' o.next_thread me r (inl before) in
    let (dead, not_running) = stopped-dead o'' t in
    (
      o',
      o'',
      started,
      live ∙ same,
      all,
      again,
      running-refuses o' o.next_thread worker r l (omega (arith, u, same)),
      ended,
      dead,
      not_running,
      t,
      kept ∙ same,
    )

-- What is done to a pool, by threads of any number.
pub data PoolEvent : Type 0 where
  launched : PoolEvent
  halted : (me : ℕ) → PoolEvent

unfoldable pub run : List PoolEvent → WorkerObject → WorkerObject
run [] o = o
run (launched ∷ es) o = run es (launch o).1
run (halted me ∷ es) o = run es (halt me o).1

-- A pool is stopped, or all its threads are live.
abbrev pub IsPool : WorkerObject → Type 0
IsPool o = IsStopped o ⊎ (n : ℕ) × IsRunning n o

launch-IsPool : (o : WorkerObject) → IsPool o → IsPool (launch o).1
unfolding launch
launch-IsPool o (inl s) = elim (Bool-cases (ltb 0 o.capacity)) [
  | inl h ↦
      let (o', started, r, next, same) = stopped-launch o s (ltb→lt 0 o.capacity h) in
      subst IsPool (sym (ap (λ p. p.1) started)) (inr (o.next_thread, r))
  | inr h ↦ subst IsPool (sym (ap (λ p. p.1) (kept h))) (inl s)
]
  where
    kept : ltb 0 o.capacity ≡ false → launch o ≡ (false, o)
    kept h = rw (s.no_workers, h) refl
launch-IsPool o (inr (n, r)) =
    let (live, all, any, again) = running-live o n r in
    subst IsPool (sym (ap (λ p. p.1) again)) (inr (n, r))

halt-IsPool : (me : ℕ) (o : WorkerObject) → IsPool o → IsPool (halt me o).1
unfolding halt can_halt none_is halt_workers
halt-IsPool me o (inl s) =
    rw s.no_workers
      (inl (record { no_workers = refl; no_threads = s.no_threads; no_waiter = refl }))
halt-IsPool me o (inr (n, r)) = elim (Bool-cases (ltb me n)) [
  | inl a ↦ gone (inl (ltb→lt me n a))
  | inr a ↦ elim (Bool-cases (ltb me (n + o.capacity))) [
    | inl b ↦
        subst IsPool
          (sym (
            ap (λ p. p.1) (running-refuses o n me r (ground arith) (ltb→lt me (n + o.capacity) b))))
          (inr (n, r))
    | inr b ↦ gone (inr (ground arith))
  ]
]
  where
    gone : (me < n) ⊎ (n + o.capacity ≤ me) → IsPool (halt me o).1
    gone h =
        let (o', ended, t, kept) = running-halt o n me r h in
        subst IsPool (sym (ap (λ p. p.1) ended)) (inl t)

capacity-launch_workers : (n : ℕ) (o : WorkerObject) → (launch_workers n o).capacity ≡ o.capacity
unfolding launch_workers
capacity-launch_workers zero o = refl
capacity-launch_workers (suc n) o = capacity-launch_workers n _

capacity-launch : (o : WorkerObject) → (launch o).1.capacity ≡ o.capacity
unfolding launch
capacity-launch o = elim (Bool-cases (ltb (length o.workers) o.capacity)) [
  | inl h ↦
      rw h (capacity-launch_workers (o.capacity - length o.workers) (record o { waiter = true }))
  | inr h ↦ rw h refl
]

capacity-halt : (me : ℕ) (o : WorkerObject) → (halt me o).1.capacity ≡ o.capacity
unfolding halt
capacity-halt me o = elim (Bool-cases (can_halt me o)) [ inl h ↦ rw h refl | inr h ↦ rw h refl ]

run_kept :
    (size : ℕ) (es : List PoolEvent) (o : WorkerObject)
    → IsPool o × (o.capacity ≡ size)
    → IsPool (run es o) × ((run es o).capacity ≡ size)
unfolding run
run_kept size [] o h = h
run_kept size (launched ∷ es) o h =
    run_kept size es (launch o).1 (launch-IsPool o h.0, capacity-launch o ∙ h.1)
run_kept size (halted me ∷ es) o h =
    run_kept size es (halt me o).1 (halt-IsPool me o h.0, capacity-halt me o ∙ h.1)

-- Whatever is done to a new pool, launches and halts from any threads in any order: it is stopped,
-- without workers and without running threads, or it has as many workers as it was made for, each with
-- a thread of its own that runs and was not told to halt, and no other thread runs.
pub run-IsPool :
    (size next : ℕ) (es : List PoolEvent)
    → IsPool (run es (new size next)) × ((run es (new size next)).capacity ≡ size)
unfolding new
run-IsPool size next es =
    run_kept size es (new size next)
      (inl (record { no_workers = refl; no_threads = refl; no_waiter = refl }), refl)
