-- ===== src/Util/SharedQueue/Tests.antt =====
-- Two threads at a queue: runs, and the theorems at them.
use robocrisp.Base.{ℕ, ◌≡◌, refl, true, false, [], ◌∷◌, ◌++◌, some, get_elem?}
use robocrisp.Util.SharedQueue.{
  blocked, notified, interrupted, new, empty, push, abort, wake, check, resume, enter,
}
use robocrisp.Util.SharedQueue.Steps.{System, Step, Reach, stays, goes, start}
use robocrisp.Util.SharedQueue.Invariant.{IsSound}
use robocrisp.Util.SharedQueue.Liveness.{Reach-IsSound, item_taken, aborted_ends, at_wait, at_wake}

-- Both threads called `next`; one is blocked, the other was notified of an item.
abbrev offered : System ℕ
offered = record {
  queue = record { items = 7 ∷ []; aborted = false; waiters = 2 };
  threads = notified true ∷ blocked false ∷ [];
  pushed = 7 ∷ [];
  taken = [];
}

offered-Reach : Reach (start 2 0) offered
unfolding new check enter resume empty push
offered-Reach =
    goes
      (goes
        (goes (goes (goes stays (Step.calls 0 true refl)) (Step.enters 0 true refl))
          (Step.calls 1 false refl))
        (Step.enters 1 false refl))
      (Step.pushes_to 0 true 7 refl)

Reach-IsSound_example : IsSound 0 offered
Reach-IsSound_example = Reach-IsSound 2 0 offered offered-Reach

item_taken_example :
    (s' : System ℕ) × Step offered s' × (s'.queue.items ≡ []) × (s'.taken ≡ [] ++ 7 ∷ [])
item_taken_example =
    item_taken 2 0 offered 1 (blocked false) 7 [] offered-Reach refl refl refl (at_wait false)

-- The same threads after `wake_all`.
abbrev stopped : System ℕ
stopped = record offered {
  queue = record { items = 7 ∷ []; aborted = true; waiters = 2 };
  threads = notified true ∷ notified false ∷ [];
}

stopped-Reach : Reach (start 2 0) stopped
unfolding abort wake
stopped-Reach = goes offered-Reach Step.aborts

aborted_ends_example :
    (s' : System ℕ) × Step stopped s'
    × (get_elem? s'.threads 1 ≡ some (interrupted false))
    × (s'.taken ≡ [])
aborted_ends_example =
    aborted_ends 2 0 stopped 1 (notified false) stopped-Reach refl refl (at_wake false)
