-- ===== src/Util/Scheduler.antt =====
-- src/util/Scheduler.cc: periodic actions, in a slot for every interval, and actions that are called once.
-- A weak pointer is the number of an action, given out in order; it has expired when the scheduler has
-- the action no more.
pub mod Laws
pub mod Serving
pub mod Tests
use robocrisp.Base.{
  ℕ, ◌+◌, ◌<◌, ◌≡◌, Bool, true, false, List, [], ◌∷◌, ◌++◌, Option, none, some, ltb, ◌==◌,
  if◌then◌else◌,
}
use robocrisp.Util.Timer.{Timer}
use robocrisp.Util.ScheduledAction
use robocrisp.Util.ScheduledAction.{ScheduledAction}
use robocrisp.Util.PeriodicScheduleSlot
use robocrisp.Util.PeriodicScheduleSlot.{PeriodicScheduleSlot, count}

pub record Scheduler (T : Type 0) : Type 0 where
  pub slots : List (PeriodicScheduleSlot T)
  pub actions : List (ℕ × ScheduledAction T)
  pub next_action : ℕ

-- The constructor.
abbrev pub new : {T : Type 0} → Scheduler T
new = record { slots = []; actions = []; next_action = 0 }

-- `m_slots.find`.
unfoldable pub find_slot :
    {T : Type 0} → ℕ → List (PeriodicScheduleSlot T) → Option (PeriodicScheduleSlot T)
find_slot n [] = none
find_slot n (x ∷ xs) = if x.interval == n then some x else find_slot n xs

-- `m_actions.erase`.
unfoldable pub without_timer :
    {T : Type 0} → ℕ → List (ℕ × ScheduledAction T) → List (ℕ × ScheduledAction T)
without_timer i [] = []
without_timer i ((j, a) ∷ more) = if j == i then more else (j, a) ∷ without_timer i more

module _ {T : Type 0} (timer : Timer T) where
  -- The action is added to the slot of its interval, or to a new one.
  unfoldable pub emplace_in :
      (interval id : ℕ) → List (PeriodicScheduleSlot T) → List (PeriodicScheduleSlot T)
  emplace_in n i [] = PeriodicScheduleSlot.emplace timer i (PeriodicScheduleSlot.new timer n) ∷ []
  emplace_in n i (x ∷ xs) =
      if x.interval == n then PeriodicScheduleSlot.emplace timer i x ∷ xs else x ∷ emplace_in n i xs

  -- `action.lock()->slot->remove(action)`, where the action has not expired.
  unfoldable pub remove_from : ℕ → List (PeriodicScheduleSlot T) → List (PeriodicScheduleSlot T)
  remove_from i [] = []
  remove_from i (x ∷ xs) =
      if ltb 0 (count i x.actions)
      then PeriodicScheduleSlot.remove timer i x ∷ xs
      else x ∷ remove_from i xs

  -- `schedule`: the pointer and the scheduler.
  unfoldable pub schedule : (interval : ℕ) → Scheduler T → ℕ × Scheduler T
  schedule interval s = (
    s.next_action,
    record s { slots = emplace_in interval s.next_action s.slots; next_action = s.next_action + 1 },
  )

  -- `set_timer`, at the time `now`.
  unfoldable pub set_timer : (now duration function : ℕ) → Scheduler T → ℕ × Scheduler T
  set_timer now duration function s = (
    s.next_action,
    record s {
      actions =
          (
            s.next_action,
            ScheduledAction.reset timer now duration (ScheduledAction.new timer function),
          )
          ∷ s.actions;
      next_action = s.next_action + 1;
    },
  )

  -- `remove`, of the two kinds of actions.
  unfoldable pub remove_periodic : ℕ → Scheduler T → Scheduler T
  remove_periodic i s = record s { slots = remove_from i s.slots }

  unfoldable pub remove_scheduled : ℕ → Scheduler T → Scheduler T
  remove_scheduled i s = record s { actions = without_timer i s.actions }

  -- What is asked of a scheduler.
  pub data Request : Type 0 where
    schedules : (interval : ℕ) → Request
    sets_timer : (now duration function : ℕ) → Request
    removes_periodic removes_scheduled : (id : ℕ) → Request

  unfoldable pub serve : Request → Scheduler T → Scheduler T
  serve (schedules n) s = (schedule n s).1
  serve (sets_timer now d f) s = (set_timer now d f s).1
  serve (removes_periodic i) s = remove_periodic i s
  serve (removes_scheduled i) s = remove_scheduled i s

  unfoldable pub serve_all : List Request → Scheduler T → Scheduler T
  serve_all [] s = s
  serve_all (r ∷ rs) s = serve_all rs (serve r s)
