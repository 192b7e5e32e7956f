-- ===== src/Util/SharedQueue/Steps.antt =====
-- Threads at a queue of include/crisp/util/SharedQueue.hh: what they do, in any order.
use robocrisp.Base.{ℕ, zero, suc, ◌+◌, ◌≡◌, Bool, List, [], ◌∷◌, ◌++◌, map, set, get_elem?, some}
use robocrisp.Util.SharedQueue.{
  SharedQueue, Thread, idle, entering, blocked, notified, got, interrupted, new, push, pop, abort,
  wake, check, resume, enter,
}

-- The queue, the threads, and all items that were pushed and that were taken, in order.
pub record System {ℓ} (A : Type ℓ) : Type ℓ where
  pub queue : SharedQueue A
  pub threads : List (Thread A)
  pub pushed : List A
  pub taken : List A

module _ {ℓ} {A : Type ℓ} where
  abbrev pub is_blocked : Thread A → ℕ
  is_blocked (blocked told) = 1
  is_blocked t = 0

  abbrev pub is_notified : Thread A → ℕ
  is_notified (notified told) = 1
  is_notified t = 0

  -- How many threads are of a kind.
  abbrev pub count : (Thread A → ℕ) → List (Thread A) → ℕ
  count kind [] = 0
  count kind (t ∷ ts) = kind t + count kind ts

  abbrev pub item_of : Thread A → List A
  item_of (got x) = x ∷ []
  item_of t = []

  abbrev pub first : List A → List A
  first [] = []
  first (x ∷ xs) = x ∷ []

  -- A thread is somewhere else.
  abbrev pub place : ℕ → Thread A → System A → System A
  place i t s = record s { threads = set s.threads i t }

  -- A thread has done its part under the lock.
  abbrev pub act : ℕ → Thread A × SharedQueue A → System A → System A
  act i r s = record s {
    queue = r.1;
    threads = set s.threads i r.0;
    taken = s.taken ++ item_of r.0;
  }

  abbrev pub with_item : A → System A → System A
  with_item x s = record s { queue = push x s.queue; pushed = s.pushed ++ x ∷ [] }

  pub data Step : System A → System A → Type ℓ where
    calls :
        {s : System A} (i : ℕ) (told : Bool)
        → get_elem? s.threads i ≡ some idle
        → Step s (place i (check told s.queue) s)
    enters :
        {s : System A} (i : ℕ) (told : Bool)
        → get_elem? s.threads i ≡ some (entering told)
        → Step s (act i (enter told s.queue) s)
    -- A thread may wake without a notification.
    wakes :
        {s : System A} (i : ℕ) (told : Bool)
        → get_elem? s.threads i ≡ some (blocked told)
        → Step s (place i (notified told) s)
    resumes :
        {s : System A} (i : ℕ) (told : Bool)
        → get_elem? s.threads i ≡ some (notified told)
        → Step s (act i (resume told s.queue) s)
    takes :
        {s : System A} (i : ℕ) (x : A)
        → get_elem? s.threads i ≡ some (got x)
        → Step s (place i idle s)
    leaves :
        {s : System A} (i : ℕ) (told : Bool)
        → get_elem? s.threads i ≡ some (interrupted told)
        → Step s (place i idle s)
    -- `push` where no thread is blocked, and where one is notified.
    pushes : {s : System A} (x : A) → count is_blocked s.threads ≡ 0 → Step s (with_item x s)
    pushes_to :
        {s : System A} (i : ℕ) (told : Bool) (x : A)
        → get_elem? s.threads i ≡ some (blocked told)
        → Step s (place i (notified told) (with_item x s))
    pops :
        {s : System A}
        → Step s (record s { queue = pop s.queue; taken = s.taken ++ first s.queue.items })
    aborts :
        {s : System A} → Step s (record s { queue = abort s.queue; threads = map wake s.threads })

  -- What a system of `n` threads at a new queue can come to.
  pub data Reach (start : System A) : System A → Type ℓ where
    stays : Reach start start
    goes : {s s' : System A} → Reach start s → Step s s' → Reach start s'

  abbrev pub idles : ℕ → List (Thread A)
  idles zero = []
  idles (suc n) = idle ∷ idles n

  -- `n` threads at a new queue whose count of waiters happens to be `waiters`.
  abbrev pub start : ℕ → ℕ → System A
  start n waiters = record { queue = new waiters; threads = idles n; pushed = []; taken = [] }
