-- ===== src/Util/WorkerObject/Tests.antt =====
-- A pool of two threads: a run, and the theorems at it.
use robocrisp.Base.{◌≡◌, refl, true, false, List, [], ◌∷◌, arith}
use robocrisp.Util.WorkerObject.{WorkerObject, new, launch, halt, num_live_threads, running}
use robocrisp.Util.WorkerObject.Laws.{IsStopped}
use robocrisp.Util.WorkerObject.Pool.{
  PoolEvent, launched, halted, run, IsPool, launch-halt, run-IsPool,
}

abbrev pool : WorkerObject
pool = record { workers = []; capacity = 2; waiter = false; next_thread = 1; alive = [] }

launch-halt_example :
    (o' o'' : WorkerObject) × (launch pool ≡ (true, o'))
    × (num_live_threads o' ≡ 2)
    × (running true o' ≡ true)
    × (launch o' ≡ (false, o'))
    × (halt 2 o' ≡ (false, o'))
    × (halt 0 o' ≡ (true, o''))
    × (num_live_threads o'' ≡ 0)
    × (running false o'' ≡ false)
    × IsStopped o''
    × (o''.capacity ≡ 2)
launch-halt_example =
    launch-halt pool 2 0 (record { no_workers = refl; no_threads = refl; no_waiter = refl })
      (omega arith) (omega arith) (omega arith) (omega arith)

abbrev events : List PoolEvent
events = launched ∷ halted 1 ∷ halted 0 ∷ launched ∷ launched ∷ []

run-IsPool_example : IsPool (run events (new 2 1)) × ((run events (new 2 1)).capacity ≡ 2)
run-IsPool_example = run-IsPool 2 1 events
