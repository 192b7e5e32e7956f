-- ===== src/Util/PeriodicScheduleSlot.antt =====
-- src/util/PeriodicScheduleSlot.cc with include/crisp/util/bits/PeriodicScheduleSlot.tcc, and
-- src/util/PeriodicAction.cc: actions that are called at one interval. An action is a number, and so is
-- its function; its weak pointer has expired when the slot has it no more. The calls of actions are kept
-- in `called`. The timer is a parameter.
pub mod Laws
pub mod Tests
use robocrisp.Base.{
  ℕ, ◌+◌, ◌<◌, ◌≡◌, Bool, true, false, not, ◌&&◌, List, [], ◌∷◌, ◌++◌, map, Option, none, some,
  ◌==◌, if◌then◌else◌,
}
use robocrisp.Util.Timer.{Timer, Waiter, own, of_action, one_if}

pub record PeriodicAction : Type 0 where
  pub id : ℕ
  pub active : Bool

pub record PeriodicScheduleSlot (T : Type 0) : Type 0 where
  pub timer : T
  pub interval : ℕ
  pub actions : List PeriodicAction
  pub called : List ℕ

abbrev pub is_empty {ℓ} : {A : Type ℓ} → List A → Bool
is_empty [] = true
is_empty (x ∷ xs) = false

-- How many actions have a number.
unfoldable pub count : ℕ → List PeriodicAction → ℕ
count i [] = 0
count i (a ∷ more) = one_if (a.id == i) + count i more

unfoldable pub find : ℕ → List PeriodicAction → Option PeriodicAction
find i [] = none
find i (a ∷ more) = if a.id == i then some a else find i more

-- `m_actions.remove`.
unfoldable pub without : ℕ → List PeriodicAction → List PeriodicAction
without i [] = []
without i (a ∷ more) = let rest = without i more in if a.id == i then rest else a ∷ rest

-- `pause` and `unpause`.
unfoldable pub set_active : Bool → ℕ → List PeriodicAction → List PeriodicAction
set_active active i more = map (λ a. if a.id == i then record a { active = active } else a) more

module _ {T : Type 0} (timer : Timer T) where
  -- The constructor.
  abbrev pub new : ℕ → PeriodicScheduleSlot T
  new interval = record { timer = timer.fresh; interval = interval; actions = []; called = [] }

  -- The waits of the active actions.
  unfoldable pub wait_all : List PeriodicAction → T → T
  wait_all [] t = t
  wait_all (a ∷ more) t =
      wait_all more (if a.active then timer.async_wait (of_action a.id) t else t)

  unfoldable pub reset_timer : PeriodicScheduleSlot T → PeriodicScheduleSlot T
  reset_timer s = record s {
    timer = timer.async_wait own (wait_all s.actions (timer.expires_from_now s.interval s.timer));
  }

  -- `emplace`, and `push` likewise.
  unfoldable pub emplace : ℕ → PeriodicScheduleSlot T → PeriodicScheduleSlot T
  emplace i s =
      let s' = record s { actions = record { id = i; active = true } ∷ s.actions } in
      if is_empty s.actions then reset_timer s' else s'

  unfoldable pub remove : ℕ → PeriodicScheduleSlot T → PeriodicScheduleSlot T
  remove i s =
      let s' = record s { actions = without i s.actions } in
      if is_empty s'.actions then record s' { timer = timer.cancel s'.timer } else s'

  -- `PeriodicScheduleSlot::timer_expiry_handler`, without an error or with one.
  unfoldable pub slot_expiry_handler : Bool → PeriodicScheduleSlot T → PeriodicScheduleSlot T
  slot_expiry_handler true s = reset_timer s
  slot_expiry_handler false s = s

  -- The function is called if the action is active.
  abbrev pub call : Option PeriodicAction → PeriodicScheduleSlot T → Option (PeriodicScheduleSlot T)
  call none s = none
  call (some a) s = some (if a.active then record s { called = s.called ++ a.id ∷ [] } else s)

  -- `PeriodicAction::timer_expiry_handler`. The timer has the address of the action, so without an error the
  -- result is `none` where the slot has the action no more.
  unfoldable pub action_expiry_handler :
      Bool → ℕ → PeriodicScheduleSlot T → Option (PeriodicScheduleSlot T)
  action_expiry_handler false i s = some s
  action_expiry_handler true i s = call (find i s.actions) s

  -- What can happen to a slot. What the functions of the actions do to it are steps of their own.
  pub data Step : PeriodicScheduleSlot T → PeriodicScheduleSlot T → Type 0 where
    emplaces : {s : PeriodicScheduleSlot T} (i : ℕ) → count i s.actions ≡ 0 → Step s (emplace i s)
    removes : {s : PeriodicScheduleSlot T} (i : ℕ) → Step s (remove i s)
    pauses :
        {s : PeriodicScheduleSlot T} (i : ℕ)
        → Step s (record s { actions = set_active false i s.actions })
    unpauses :
        {s : PeriodicScheduleSlot T} (i : ℕ)
        → Step s (record s { actions = set_active true i s.actions })
    time_reached : {s : PeriodicScheduleSlot T} → Step s (record s { timer = timer.reach s.timer })
    ticks :
        {s : PeriodicScheduleSlot T}
        → 0 < timer.due own s.timer
        → Step s (slot_expiry_handler true (record s { timer = timer.complete own s.timer }))
    tick_cancelled : {s : PeriodicScheduleSlot T} → Step s (slot_expiry_handler false s)
    calls :
        {s s' : PeriodicScheduleSlot T} (i : ℕ)
        → 0 < timer.due (of_action i) s.timer
        → action_expiry_handler true i (record s { timer = timer.complete (of_action i) s.timer })
          ≡ some s'
        → Step s s'
    call_cancelled :
        {s s' : PeriodicScheduleSlot T} (i : ℕ)
        → action_expiry_handler false i s ≡ some s'
        → Step s s'

  pub data Reach (start : PeriodicScheduleSlot T) : PeriodicScheduleSlot T → Type 0 where
    stays : Reach start start
    goes : {s s' : PeriodicScheduleSlot T} → Reach start s → Step s s' → Reach start s'
