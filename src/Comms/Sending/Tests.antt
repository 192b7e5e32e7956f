-- ===== src/Comms/Sending/Tests.antt =====
-- A query and a module-control message, sent and received.
use robocrisp.Base.{◌≡◌, ℕ, Bool, refl, ◌==◌, ◌||◌, List, [], ◌∷◌, ◌++◌, map, some, arith}
use robocrisp.Comms.Message.{Message, error, sensor_data}
use robocrisp.Comms.Message.Tests.{control-IsMessage}
use robocrisp.Comms.Receive.{receive_loop}
use robocrisp.Comms.Receive.Laws.{arrived}
use robocrisp.Comms.Receive.Tests.{packets, query-IsMessage}
use robocrisp.Comms.Sending.{complete, send_loop}
use robocrisp.Comms.Sending.Laws.{queued, summed, receive_loop-send_loop}

-- The types that a dispatcher has no handler for.
abbrev unimplemented : Message → Bool
unimplemented m = m.header.type == error || m.header.type == sensor_data

receive_loop-send_loop_example :
    (bytes : List ℕ) × (send_loop unimplemented
        (complete ∷ complete ∷ [])
        (queued packets (7 ∷ []) [])
      ≡ some (queued [] (7 ∷ bytes) (map summed packets)))
    × (receive_loop unimplemented 2 0 [] (bytes ++ 4 ∷ []) ≡ (map arrived packets, 4 ∷ []))
receive_loop-send_loop_example =
    receive_loop-send_loop unimplemented unimplemented 0 packets [] (7 ∷ []) (4 ∷ []) []
      (query-IsMessage, (control-IsMessage, tt)) (refl, (refl, tt)) (refl, (refl, tt)) (omega arith)
