-- ===== src/Comms/Node/Tests.antt =====
-- Handshakes and nodes at concrete values: a master and a slave.
use robocrisp.Base.{◌≡◌, refl, true, false, not, List, [], ◌∷◌, ◌==◌, arith}
use robocrisp.Comms.Buffer.{EncodeResult, new_encode_buffer}
use robocrisp.Comms.Buffer.Laws.{reopen, new_encode_buffer-IsValid}
use robocrisp.Comms.Configuration
use robocrisp.Comms.Handshake.{
  Handshake, new_handshake, answer, protocol_name, protocol_version, master, slave,
  encode_handshake, decode_handshake, equal_handshake,
}
use robocrisp.Comms.Handshake.Laws.{decode-encode_handshake}
use robocrisp.Comms.Node.{
  Node, Event, launched, ticked, halted, shaken, responded, shake, respond, new_node, run,
}
use robocrisp.Comms.Node.Laws.{
  syncs, shaken_with, IsConsistent, run-IsConsistent, halted_stays, handshake_outcome,
}

abbrev offer : Handshake
offer = record { protocol = protocol_name; version = 0; role = slave }

decode-encode_handshake_example :
    let (r, b') = encode_handshake offer (new_encode_buffer 9) in
    (r ≡ EncodeResult.success)
    × ((decode_handshake (reopen b' 0)).0 ≡ offer)
    × (equal_handshake offer (decode_handshake (reopen b' 0)).0 ≡ true)
unfolding new_encode_buffer
decode-encode_handshake_example =
    decode-encode_handshake offer (new_encode_buffer 9) (omega arith)
      (new_encode_buffer-IsValid 9 (omega arith)) (omega arith)

abbrev day : List Event
day =
    launched ∷ shaken offer ∷ responded true (answer slave offer) ∷ ticked ∷ halted false true ∷ []

run-IsConsistent_example : IsConsistent (run day (new_node master Configuration.blank))
run-IsConsistent_example = run-IsConsistent master Configuration.blank day

abbrev ended : Node
ended = record {
  role = master;
  configuration = Configuration.blank;
  outgoing = [];
  running = false;
  stopped = true;
  halting = true;
  socket_open = false;
  disconnect_emitted = true;
  disconnects = 1;
  sync_action = false;
  halt_action = false;
}

halted_stays_example :
    ((run day ended).stopped ≡ true)
    × ((run day ended).socket_open ≡ false)
    × ((run day ended).disconnects ≡ 1)
halted_stays_example = halted_stays day ended (refl, refl, refl, refl) refl

handshake_outcome_example :
    let a = shaken_with master slave Configuration.blank in
    let b = shaken_with slave master Configuration.blank in
    ((run (ticked ∷ ticked ∷ []) a).outgoing
      ≡ shake (new_handshake protocol_version master)
        ∷ respond (answer master (new_handshake protocol_version slave))
        ∷ syncs (not (master == slave)) 2)
    × ((run (ticked ∷ ticked ∷ []) b).outgoing
        ≡ shake (new_handshake protocol_version slave)
          ∷ respond (answer slave (new_handshake protocol_version master))
          ∷ syncs (not (master == slave)) 2)
    × (a.stopped ≡ (master == slave))
    × (b.stopped ≡ (master == slave))
    × (a.halt_action ≡ false)
    × (b.halt_action ≡ false)
handshake_outcome_example = handshake_outcome master slave 2 Configuration.blank Configuration.blank
