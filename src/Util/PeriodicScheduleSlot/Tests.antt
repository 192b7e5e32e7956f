-- ===== src/Util/PeriodicScheduleSlot/Tests.antt =====
-- A slot with two actions, over a timer that counts.
use robocrisp.Base.{ℕ, ◌<◌, ◌≡◌, refl, true, none, arith}
use robocrisp.Util.Timer.{own, of_action}
use robocrisp.Util.Timer.Counted.{Counts, counted, counted-IsTimer}
use robocrisp.Util.PeriodicScheduleSlot.{
  PeriodicScheduleSlot, new, emplace, remove, reset_timer, wait_all, without, find,
  slot_expiry_handler, action_expiry_handler, emplaces, removes, time_reached, ticks, Reach, stays,
  goes, count,
}
use robocrisp.Util.PeriodicScheduleSlot.Laws.{IsTicking, count_active, Reach-IsTicking}

-- The second action was added while the timer of the first was running, and both wait since the tick.
abbrev ticked : PeriodicScheduleSlot Counts
ticked = slot_expiry_handler counted true (
    let s = emplace counted 1 (emplace counted 0 (new counted 10)) in
    let t = counted.reach s.timer in record s { timer = counted.complete own t })

ticked-Reach : Reach counted (new counted 10) ticked
unfolding emplace reset_timer wait_all slot_expiry_handler count
ticked-Reach =
    goes (goes (goes (goes stays (emplaces 0 refl)) (emplaces 1 refl)) time_reached)
      (ticks (omega arith))

Reach-IsTicking_example :
    IsTicking counted counted-IsTimer ticked
    × (counted.pending own (slot_expiry_handler counted true ticked).timer ≡ 1)
    × ((i : ℕ)
        → counted.pending (of_action i) (slot_expiry_handler counted true ticked).timer
          ≡ count_active i ticked.actions)
Reach-IsTicking_example = Reach-IsTicking counted counted-IsTimer 10 ticked ticked-Reach

-- The timer has come to its time again, and then the second action was removed: its wait is due, but the
-- action is no more.
abbrev removed : PeriodicScheduleSlot Counts
removed = remove counted 1 (record ticked { timer = counted.reach ticked.timer })

removed-Reach : Reach counted (new counted 10) removed
removed-Reach = goes (goes ticked-Reach time_reached) (removes 1)

removed_called :
    (0 < counted.due (of_action 1) removed.timer)
    × (action_expiry_handler counted true 1 removed ≡ none)
unfolding emplace reset_timer wait_all slot_expiry_handler remove without find action_expiry_handler
removed_called = (omega arith, refl)
