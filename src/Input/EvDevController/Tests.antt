-- ===== src/Input/EvDevController/Tests.antt =====
-- A device with two absolute axes, one of which has an empty range, a relative axis and a button.
use robocrisp.Base.{
  ℕ, ◌≡◌, ◌≢◌, refl, true, List, [], ◌∷◌, get_elem?, none, some, ◌==◌, arith, if◌then◌else◌,
}
use robocrisp.Base.Int.{pos, negsuc}
use robocrisp.Input.Axis
use robocrisp.Input.Axis.{linear}
use robocrisp.Input.Axis.Tests.{whole}
use robocrisp.Input.EvDevController.{
  AbsInfo, Device, Event, posted, new, handle, run, handled, out_of_range,
}
use robocrisp.Input.EvDevController.Routing.{events_arrive}

abbrev stick : AbsInfo
stick = record { value = pos 0; minimum = negsuc 127; maximum = pos 127; flat = pos 15 }

abbrev stuck : AbsInfo
stuck = record { value = pos 0; minimum = pos 0; maximum = pos 0; flat = pos 0 }

abbrev pad : Device
pad = record {
  has_event_type = λ t. true;
  has_event_code = λ t c. c == 8;
  abs_info = λ c. if c == 0 then some stuck else if c == 1 then some stick else none;
  ev_key = 1;
  ev_rel = 2;
  ev_abs = 3;
  abs_count = 4;
  event_count = 9;
  key_count = 10;
}

abbrev moves : List Event
moves =
    record { type = 3; code = 1; value = pos 5 }
    ∷ record { type = 2; code = 8; value = negsuc 0 }
    ∷ record { type = 0; code = 0; value = pos 0 }
    ∷ record { type = 1; code = 8; value = pos 1 }
    ∷ []

events_arrive_example :
    ((k : ℕ) × (a : Axis.Axis whole) × (get_elem? (new whole pad).axes k ≡ some a)
      × (a.map_method ≡ linear)
      × (a.raw.neutral ≡ pos 0)
      × (a.raw.minimum ≡ negsuc 127)
      × (a.raw.maximum ≡ pos 127)
      × (a.raw.deadzone_lower ≡ pos 15)
      × (a.raw.deadzone_upper ≡ pos 15)
      × (handle whole pad (new whole pad) (record { type = 3; code = 1; value = pos 5 })
          ≡ posted whole (new whole pad) k (Axis.post whole a (pos 5))))
    × (handle whole pad (new whole pad) (record { type = 3; code = 2; value = pos 5 })
        ≡ handled (new whole pad) [])
    × (run whole pad (new whole pad) moves ≢ out_of_range)
events_arrive_example =
    events_arrive whole pad 1 2 stick (pos 5) moves (λ e. absurd (omega (arith, e))) refl
      (omega arith) refl refl refl
