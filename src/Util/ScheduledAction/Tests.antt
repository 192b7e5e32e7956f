-- ===== src/Util/ScheduledAction/Tests.antt =====
-- An action that is to be called at the time 5, and is called at 7.
use robocrisp.Base.{◌≡◌, true, false, arith}
use robocrisp.Util.Timer.{own}
use robocrisp.Util.Timer.Counted.{Counts, counted, counted-IsTimer}
use robocrisp.Util.ScheduledAction.{
  ScheduledAction, new, reset_to, reset_at_to, timer_expiry_handler,
}
use robocrisp.Util.ScheduledAction.Laws.{timer_expiry_handler_lem}

abbrev waiting : ScheduledAction Counts
waiting = record (new counted 3) { when_expires = 5 }

timer_expiry_handler_lem_example :
    let left = timer_expiry_handler counted true (λ x. x) 7 waiting in
    let later = timer_expiry_handler counted true (reset_to counted 6 10 4) 7 waiting in
    let over = timer_expiry_handler counted true (reset_to counted 6 0 4) 7 waiting in
    let at = timer_expiry_handler counted true (reset_at_to counted 9 4) 7 waiting in
    (left.calls ≡ 1)
    × (counted.pending own left.timer ≡ 0)
    × (left.removals ≡ 1)
    × (later.calls ≡ 1)
    × (counted.pending own later.timer ≡ 1)
    × (later.removals ≡ 0)
    × (later.when_expires ≡ 16)
    × (later.function ≡ 4)
    × (over.calls ≡ 1)
    × (counted.pending own over.timer ≡ 0)
    × (over.removals ≡ 1)
    × (counted.pending own at.timer ≡ 1)
    × (at.removals ≡ 0)
    × (at.when_expires ≡ 9)
    × (timer_expiry_handler counted false (λ x. x) 7 waiting ≡ waiting)
timer_expiry_handler_lem_example =
    timer_expiry_handler_lem counted counted-IsTimer waiting 6 7 10 0 9 4 (omega arith)
      (omega arith) (omega arith) (omega arith)
