-- ===== src/Util/WorkerObject.antt =====
-- include/crisp/util/WorkerObject.hh and src/util/WorkerObject.cc: a pool of worker threads. Threads
-- have numbers, given out in order, and `alive` are those that run the loop of a worker; a thread that
-- is joined has ended before, as `should_halt` is set and work is posted until then.
pub mod Laws
pub mod Pool
pub mod Tests
use robocrisp.Base.{
  ℕ, zero, suc, ◌+◌, ◌-◌, Bool, true, false, ◌&&◌, not, List, [], ◌∷◌, ◌++◌, length, Option, none,
  some, ltb, ◌==◌, if◌then◌else◌,
}

-- `thread` is the number of the thread, if it is joinable.
pub record WorkerThread : Type 0 where
  pub thread : Option ℕ
  pub should_halt : Bool

-- `waiter` says that there is an `m_thread_waiter`.
pub record WorkerObject : Type 0 where
  pub workers : List WorkerThread
  pub capacity : ℕ
  pub waiter : Bool
  pub next_thread : ℕ
  pub alive : List ℕ

abbrev pub idle : WorkerThread
idle = record { thread = none; should_halt = false }

abbrev pub joinable : WorkerThread → Bool
joinable w = is_some w.thread
  where
    is_some : Option ℕ → Bool
    is_some none = false
    is_some (some n) = true

-- `thread.get_id() == std::this_thread::get_id()`.
abbrev pub is_thread : ℕ → WorkerThread → Bool
is_thread me w = same w.thread
  where
    same : Option ℕ → Bool
    same none = false
    same (some n) = n == me

-- `WorkerObject(io_service, pool_size)`, where threads below `next_thread` exist.
unfoldable pub new : ℕ → ℕ → WorkerObject
new pool_size next_thread = record {
  workers = [];
  capacity = pool_size;
  waiter = false;
  next_thread = next_thread;
  alive = [];
}

-- `WorkerThread::launch`, with the number that a new thread would have.
unfoldable pub launch_worker : ℕ → WorkerThread → Bool × WorkerThread
launch_worker n w = if joinable w then (false, w) else (true, record w { thread = some n })

-- `std::thread::join` of a thread: it is among the running ones no more.
unfoldable pub join : ℕ → List ℕ → List ℕ
join n [] = []
join n (m ∷ ms) = if m == n then ms else m ∷ join n ms

-- `WorkerThread::halt`, called by the thread `me`.
unfoldable pub halt_worker : ℕ → Bool → WorkerThread → List ℕ → Bool × WorkerThread × List ℕ
halt_worker me wait w alive = if is_thread me w then (false, w, alive) else stop w.thread
  where
    stop : Option ℕ → Bool × WorkerThread × List ℕ
    stop none = (true, w, alive)
    stop (some n) =
        if wait
        then (true, record { thread = none; should_halt = true }, join n alive)
        else (true, record w { should_halt = true }, alive)

-- The loop of `launch`: `n` workers are made and launched.
unfoldable pub launch_workers : ℕ → WorkerObject → WorkerObject
launch_workers zero o = o
launch_workers (suc n) o = launch_workers n (record o {
  workers = o.workers ++ (launch_worker o.next_thread idle).1 ∷ [];
  next_thread = o.next_thread + 1;
  alive = o.alive ++ o.next_thread ∷ [];
})

-- `launch`.
unfoldable pub launch : WorkerObject → Bool × WorkerObject
launch o =
    if ltb (length o.workers) o.capacity
    then (true, launch_workers (o.capacity - length o.workers) (record o { waiter = true }))
    else (false, o)

unfoldable pub count_live : List WorkerThread → ℕ
count_live [] = 0
count_live (w ∷ ws) = if joinable w then suc (count_live ws) else count_live ws

unfoldable pub num_live_threads : WorkerObject → ℕ
num_live_threads o = count_live o.workers

unfoldable pub all_live : List WorkerThread → Bool
all_live [] = true
all_live (w ∷ ws) = if joinable w then all_live ws else false

unfoldable pub any_live : List WorkerThread → Bool
any_live [] = false
any_live (w ∷ ws) = if joinable w then true else any_live ws

-- `running(all)`.
unfoldable pub running : Bool → WorkerObject → Bool
running true o = all_live o.workers
running false o = any_live o.workers

unfoldable pub none_is : ℕ → List WorkerThread → Bool
none_is me [] = true
none_is me (w ∷ ws) = if joinable w && is_thread me w then false else none_is me ws

-- `can_halt`, called by the thread `me`.
unfoldable pub can_halt : ℕ → WorkerObject → Bool
can_halt me o = none_is me o.workers

-- A loop of the thread that halts the workers.
unfoldable pub halt_workers : ℕ → Bool → List WorkerThread → List ℕ → List WorkerThread × List ℕ
halt_workers me wait [] alive = ([], alive)
halt_workers me wait (w ∷ ws) alive =
    let (_, w', alive₁) = halt_worker me wait w alive in
    let (ws', alive₂) = halt_workers me wait ws alive₁ in (w' ∷ ws', alive₂)

-- `halt`, called by the thread `me`: a new thread stops the workers and clears them, and another one
-- makes work for them.
unfoldable pub halt : ℕ → WorkerObject → Bool × WorkerObject
halt me o =
    if can_halt me o
    then (let (ws, alive₁) = halt_workers o.next_thread false o.workers o.alive in
        let (_, alive₂) = halt_workers o.next_thread true ws alive₁ in
        (
          true,
          record o {
            workers = [];
            waiter = false;
            next_thread = o.next_thread + 2;
            alive = alive₂;
          },
        ))
    else (false, o)
