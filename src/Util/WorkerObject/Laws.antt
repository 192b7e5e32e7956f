-- ===== src/Util/WorkerObject/Laws.antt =====
-- A pool of workers that is launched, asked, and halted.
use robocrisp.Base.{
  ℕ, zero, suc, ◌+◌, ◌-◌, ◌≤◌, ◌<◌, ◌≡◌, ◌⊎◌, inl, inr, refl, ap, ◌∙◌, Bool, true, false, List, [],
  ◌∷◌, ◌++◌, append_assoc, append-nil, length, none, some, lt→ltb, ◌==◌, ==_refl, Bool-cases, arith,
}
use robocrisp.Util.WorkerObject.{
  WorkerThread, WorkerObject, launch_worker, join, halt_worker, launch_workers, launch, count_live,
  all_live, any_live, none_is, can_halt, halt_workers, halt,
}

-- Workers whose threads are the `k` from number `n` on.
abbrev pub workers_from : ℕ → Bool → ℕ → List WorkerThread
workers_from zero told n = []
workers_from (suc k) told n =
    record { thread = some n; should_halt = told } ∷ workers_from k told (n + 1)

abbrev numbers : ℕ → ℕ → List ℕ
numbers zero n = []
numbers (suc k) n = n ∷ numbers k (n + 1)

-- No worker, no thread.
pub record IsStopped (o : WorkerObject) : Type 0 where
  pub no_workers : o.workers ≡ []
  pub no_threads : o.alive ≡ []
  pub no_waiter : o.waiter ≡ false

-- As many workers as the pool is to have, with the threads from number `n` on, and no other threads.
pub record IsRunning (n : ℕ) (o : WorkerObject) : Type 0 where
  pub workers_live : o.workers ≡ workers_from o.capacity false n
  pub threads_live : o.alive ≡ numbers o.capacity n
  pub has_waiter : o.waiter ≡ true
  pub numbered : n + o.capacity ≤ o.next_thread
  pub some_workers : 0 < o.capacity

launch_workers-from :
    (k : ℕ) (o : WorkerObject)
    → launch_workers k o ≡ record o {
      workers = o.workers ++ workers_from k false o.next_thread;
      next_thread = o.next_thread + k;
      alive = o.alive ++ numbers k o.next_thread;
    }
unfolding launch_workers launch_worker
launch_workers-from zero o = rw (append-nil o.workers, append-nil o.alive, same) refl
  where
    same : o.next_thread + 0 ≡ o.next_thread
    same = omega arith
launch_workers-from (suc k) o =
    let first : WorkerThread = record { thread = some o.next_thread; should_halt = false } in
    launch_workers-from k (record o {
      workers = o.workers ++ first ∷ [];
      next_thread = o.next_thread + 1;
      alive = o.alive ++ o.next_thread ∷ [];
    })
    ∙ rw
        (
          append_assoc o.workers (first ∷ []) (workers_from k false (o.next_thread + 1)),
          append_assoc o.alive (o.next_thread ∷ []) (numbers k (o.next_thread + 1)),
          counted,
        )
        refl
  where
    counted : o.next_thread + 1 + k ≡ o.next_thread + suc k
    counted = omega arith

pub length-workers_from : (k : ℕ) (told : Bool) (n : ℕ) → length (workers_from k told n) ≡ k
length-workers_from zero told n = refl
length-workers_from (suc k) told n = ap suc (length-workers_from k told (n + 1))

pub count_live-from : (k : ℕ) (told : Bool) (n : ℕ) → count_live (workers_from k told n) ≡ k
unfolding count_live
count_live-from zero told n = refl
count_live-from (suc k) told n = ap suc (count_live-from k told (n + 1))

pub all_live-from : (k : ℕ) (told : Bool) (n : ℕ) → all_live (workers_from k told n) ≡ true
unfolding all_live
all_live-from zero told n = refl
all_live-from (suc k) told n = all_live-from k told (n + 1)

pub any_live-from : (k : ℕ) (told : Bool) (n : ℕ) → 0 < k → any_live (workers_from k told n) ≡ true
unfolding any_live
any_live-from zero told n h = absurd (omega arith)
any_live-from (suc k) told n h = refl

none_is-from :
    (me k : ℕ) (told : Bool) (n : ℕ)
    → (me < n) ⊎ (n + k ≤ me)
    → none_is me (workers_from k told n) ≡ true
unfolding none_is
none_is-from me zero told n h = refl
none_is-from me (suc k) told n h = rw other (none_is-from me k told (n + 1) beyond)
  where
    other : (n == me) ≡ false
    other = ground arith

    beyond : (me < n + 1) ⊎ (n + 1 + k ≤ me)
    beyond = elim h [ inl l ↦ inl (omega arith) | inr l ↦ inr (omega arith) ]

some_is-from :
    (me k : ℕ) (told : Bool) (n : ℕ)
    → n ≤ me
    → me < n + k
    → none_is me (workers_from k told n) ≡ false
unfolding none_is
some_is-from me zero told n h l = absurd (omega arith)
some_is-from me (suc k) told n h l = elim (Bool-cases (n == me)) [
  | inl e ↦ rw e refl
  | inr e ↦ rw e (some_is-from me k told (n + 1) (ground arith) (omega arith))
]

told_workers :
    (me k n : ℕ) (alive : List ℕ)
    → n + k ≤ me
    → halt_workers me false (workers_from k false n) alive ≡ (workers_from k true n, alive)
unfolding halt_workers halt_worker
told_workers me zero n alive h = refl
told_workers me (suc k) n alive h = rw (other, told_workers me k (n + 1) alive (omega arith)) refl
  where
    other : (n == me) ≡ false
    other = ground arith

abbrev ended : ℕ → List WorkerThread
ended zero = []
ended (suc k) = record { thread = none; should_halt = true } ∷ ended k

joined_workers :
    (me k n : ℕ)
    → n + k ≤ me
    → halt_workers me true (workers_from k true n) (numbers k n) ≡ (ended k, [])
unfolding halt_workers halt_worker join
joined_workers me zero n h = refl
joined_workers me (suc k) n h =
    rw (other, ==_refl n, joined_workers me k (n + 1) (omega arith)) refl
  where
    other : (n == me) ≡ false
    other = ground arith

pub stopped-launch :
    (o : WorkerObject)
    → IsStopped o
    → 0 < o.capacity
    → (o' : WorkerObject) × (launch o ≡ (true, o'))
      × IsRunning o.next_thread o'
      × (o'.next_thread ≡ o.next_thread + o.capacity)
      × (o'.capacity ≡ o.capacity)
unfolding launch
stopped-launch o s h = (
  record o {
    workers = workers_from o.capacity false o.next_thread;
    waiter = true;
    next_thread = o.next_thread + o.capacity;
    alive = numbers o.capacity o.next_thread;
  },
  rw (s.no_workers, lt→ltb 0 o.capacity h, all)
      (ap (λ p. (true, p))
        (launch_workers-from o.capacity (record o { workers = []; waiter = true })
          ∙ rw s.no_threads refl)),
  record {
    workers_live = refl;
    threads_live = refl;
    has_waiter = refl;
    numbered = omega arith;
    some_workers = h;
  },
  refl,
  refl,
)
  where
    all : o.capacity - 0 ≡ o.capacity
    all = omega arith

pub running-halt :
    (o : WorkerObject) (n me : ℕ)
    → IsRunning n o
    → (me < n) ⊎ (n + o.capacity ≤ me)
    → (o' : WorkerObject) × (halt me o ≡ (true, o')) × IsStopped o' × (o'.capacity ≡ o.capacity)
unfolding halt can_halt
running-halt o n me r h = (
  record o { workers = []; waiter = false; next_thread = o.next_thread + 2; alive = [] },
  rw
      (
        r.workers_live,
        none_is-from me o.capacity false n h,
        told_workers o.next_thread o.capacity n o.alive r.numbered,
        r.threads_live,
        joined_workers o.next_thread o.capacity n r.numbered,
      )
      refl,
  record { no_workers = refl; no_threads = refl; no_waiter = refl },
  refl,
)

pub running-refuses :
    (o : WorkerObject) (n me : ℕ)
    → IsRunning n o
    → n ≤ me
    → me < n + o.capacity
    → halt me o ≡ (false, o)
unfolding halt can_halt
running-refuses o n me r h l = rw (r.workers_live, some_is-from me o.capacity false n h l) refl
