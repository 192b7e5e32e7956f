-- ===== src/Util/Scheduler/Tests.antt =====
-- A scheduler with two actions at one interval and one at another, of which one was removed.
use robocrisp.Base.{◌<◌, ◌≡◌, List, [], ◌∷◌, some}
use robocrisp.Util.Timer.Counted.{Counts, counted, counted-IsTimer}
use robocrisp.Util.PeriodicScheduleSlot.{PeriodicScheduleSlot, count}
use robocrisp.Util.Scheduler.{
  Request, schedules, sets_timer, removes_periodic, new, find_slot, schedule, serve_all,
}
use robocrisp.Util.Scheduler.Laws.{occurrences}
use robocrisp.Util.Scheduler.Serving.{IsScheduler, serve_all-schedule}

abbrev requests : List (Request counted)
requests = schedules 10 ∷ schedules 20 ∷ sets_timer 0 5 3 ∷ removes_periodic 0 ∷ schedules 20 ∷ []

serve_all-schedule_example :
    let s = serve_all counted requests new in
    let (id, s') = schedule counted 10 s in
    IsScheduler counted counted-IsTimer s
    × IsScheduler counted counted-IsTimer s'
    × (occurrences id s.slots ≡ 0)
    × ((x : PeriodicScheduleSlot Counts) × (find_slot 10 s'.slots ≡ some x)
        × (x.interval ≡ 10)
        × (0 < count id x.actions))
serve_all-schedule_example = serve_all-schedule counted counted-IsTimer requests 10
