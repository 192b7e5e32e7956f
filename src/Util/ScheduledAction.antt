-- ===== src/Util/ScheduledAction.antt =====
-- src/util/ScheduledAction.cc: a function that is called once, when a timer has come to its time. Times and
-- durations are numbers, the clock is an argument, and the timer is a parameter. Of the functions only a
-- number is kept; what one does to its action is an argument of the handler. `removals` counts the
-- requests to the scheduler to remove the action, and `calls` the calls of the function.
pub mod Laws
pub mod Tests
use robocrisp.Base.{ℕ, ◌+◌, Bool, true, false, ltb, if◌then◌else◌}
use robocrisp.Util.Timer.{Timer, own}

pub record ScheduledAction (T : Type 0) : Type 0 where
  pub timer : T
  pub when_expires : ℕ
  pub function : ℕ
  pub removals : ℕ
  pub calls : ℕ

module _ {T : Type 0} (timer : Timer T) where
  -- The constructor, whose timer has the time 0.
  abbrev pub new : ℕ → ScheduledAction T
  new function = record {
    timer = timer.fresh;
    when_expires = 0;
    function = function;
    removals = 0;
    calls = 0;
  }

  -- `reset` with a duration, at the time `now`, and then with a function too.
  unfoldable pub reset : (now duration : ℕ) → ScheduledAction T → ScheduledAction T
  reset now duration a = record a {
    timer = timer.async_wait own (timer.expires_from_now duration a.timer);
    when_expires = now + duration;
  }

  unfoldable pub reset_to : (now duration function : ℕ) → ScheduledAction T → ScheduledAction T
  reset_to now duration function a = record (reset now duration a) { function = function }

  -- `reset` with a time, and then with a function too.
  unfoldable pub reset_at : (when : ℕ) → ScheduledAction T → ScheduledAction T
  reset_at when a = record a {
    timer = timer.async_wait own (timer.expires_at when a.timer);
    when_expires = when;
  }

  unfoldable pub reset_at_to : (when function : ℕ) → ScheduledAction T → ScheduledAction T
  reset_at_to when function a = record (reset_at when a) { function = function }

  unfoldable pub cancel : ScheduledAction T → ScheduledAction T
  cancel a = record a { timer = timer.cancel a.timer; removals = a.removals + 1 }

  -- `timer_expiry_handler`, without an error or with one, where the function does `effect` and the clock says
  -- `now` behind it.
  unfoldable pub timer_expiry_handler :
      Bool
      → (effect : ScheduledAction T → ScheduledAction T) (now : ℕ) → ScheduledAction T
      → ScheduledAction T
  timer_expiry_handler false effect now a = a
  timer_expiry_handler true effect now a =
      let a' = effect (record a { calls = a.calls + 1 }) in
      if ltb a'.when_expires now then cancel a' else a'
