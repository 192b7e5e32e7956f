-- ===== src/Util/ScheduledAction/Laws.antt =====
-- How the call of an action of src/util/ScheduledAction.cc ends.
use robocrisp.Base.{ℕ, ◌+◌, ◌≤◌, ◌<◌, ◌≡◌, refl, true, false, lt→ltb, ltb_le, arith}
use robocrisp.Util.Timer.{Timer, IsTimer, own}
use robocrisp.Util.ScheduledAction.{
  ScheduledAction, reset, reset_to, reset_at, reset_at_to, cancel, timer_expiry_handler,
}

module _ {T : Type 0} (timer : Timer T) (law : IsTimer timer) where
  pending-reset :
      (now duration : ℕ) (a : ScheduledAction T)
      → timer.pending own (reset timer now duration a).timer ≡ 1
  unfolding reset
  pending-reset now duration a = omega (
    arith,
    law.waits own own (timer.expires_from_now duration a.timer),
    law.expires_cancels duration own a.timer,
  )

  pending-reset_at :
      (when : ℕ) (a : ScheduledAction T) → timer.pending own (reset_at timer when a).timer ≡ 1
  unfolding reset_at
  pending-reset_at when a =
      omega
        (arith, law.waits own own (timer.expires_at when a.timer), law.at_cancels when own a.timer)

  cancelled :
      (effect : ScheduledAction T → ScheduledAction T) (now : ℕ) (a : ScheduledAction T)
      → (effect (record a { calls = a.calls + 1 })).when_expires < now
      → timer_expiry_handler timer true effect now a
        ≡ cancel timer (effect (record a { calls = a.calls + 1 }))
  unfolding timer_expiry_handler
  cancelled effect now a h = rw (lt→ltb _ now h) refl

  goes_on :
      (effect : ScheduledAction T → ScheduledAction T) (now : ℕ) (a : ScheduledAction T)
      → now ≤ (effect (record a { calls = a.calls + 1 })).when_expires
      → timer_expiry_handler timer true effect now a ≡ effect (record a { calls = a.calls + 1 })
  unfolding timer_expiry_handler
  goes_on effect now a h = rw (ltb_le _ now h) refl

  -- The handler of an action is called without an error when the clock is past the action's time. If the
  -- function leaves the action alone, it was called once, no wait is pending, and one request to remove
  -- the action was made. The function reads a clock that says `read`, and what follows it one that says `now`. If
  -- the function sets the action again, to a duration or to a time that is not over then, one wait is pending,
  -- and no request was made. If it sets it to a duration that is over then, the new wait is cancelled, and one
  -- request to remove the action was made. With an error nothing happens.
  pub timer_expiry_handler_lem :
      (a : ScheduledAction T) (read now duration short when function : ℕ)
      → a.when_expires < now
      → now ≤ read + duration
      → read + short < now
      → now ≤ when
      → let left = timer_expiry_handler timer true (λ x. x) now a in
        let later = timer_expiry_handler timer true (reset_to timer read duration function) now a in
        let over = timer_expiry_handler timer true (reset_to timer read short function) now a in
        let at = timer_expiry_handler timer true (reset_at_to timer when function) now a in
        (left.calls ≡ a.calls + 1)
        × (timer.pending own left.timer ≡ 0)
        × (left.removals ≡ a.removals + 1)
        × (later.calls ≡ a.calls + 1)
        × (timer.pending own later.timer ≡ 1)
        × (later.removals ≡ a.removals)
        × (later.when_expires ≡ read + duration)
        × (later.function ≡ function)
        × (over.calls ≡ a.calls + 1)
        × (timer.pending own over.timer ≡ 0)
        × (over.removals ≡ a.removals + 1)
        × (timer.pending own at.timer ≡ 1)
        × (at.removals ≡ a.removals)
        × (at.when_expires ≡ when)
        × (timer_expiry_handler timer false (λ x. x) now a ≡ a)
  unfolding timer_expiry_handler cancel reset_to reset_at_to reset reset_at
  timer_expiry_handler_lem a read now duration short when function h u o k =
      rw
        (
          lt→ltb a.when_expires now h,
          ltb_le (read + duration) now u,
          lt→ltb (read + short) now o,
          ltb_le when now k,
        )
        (
          refl,
          law.cancels own a.timer,
          refl,
          refl,
          pending-reset read duration a,
          refl,
          refl,
          refl,
          refl,
          law.cancels own (reset_to timer read short function a).timer,
          refl,
          pending-reset_at when a,
          refl,
          refl,
          refl,
        )
