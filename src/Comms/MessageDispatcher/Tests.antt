-- ===== src/Comms/MessageDispatcher/Tests.antt =====
-- A dispatcher with the default handlers and one more, and messages for it.
use robocrisp.Base.{◌≡◌, refl, true, false, inl, [], ◌∷◌, ◌++◌, none, some, arith}
use robocrisp.Comms.Buffer.{EncodeBuffer, EncodeResult, new_encode_buffer}
use robocrisp.Comms.Buffer.Laws.{reopen, room-new_encode_buffer, new_encode_buffer-IsValid}
use robocrisp.Comms.Configuration.Tests.{robot, drive, no_memory}
use robocrisp.Comms.ModuleControl.{get_encoded_size, encode}
use robocrisp.Comms.ModuleControl.Tests.{turn_to_five, turn-IsControl, size-turn}
use robocrisp.Comms.Message
use robocrisp.Comms.Handshake.{HandshakeResponse, ack, slave}
use robocrisp.Comms.Message.{
  Message, FlowDirection, get_type_info, error, of_body, module_control, configuration_query,
}
use robocrisp.Comms.MessageDispatcher.{
  incoming, outgoing, user, throws, new, set_default_callbacks, connect, dispatch,
}
use robocrisp.Comms.MessageDispatcher.Connecting.{calls_of, more, connect-dispatch}
use robocrisp.Comms.MessageDispatcher.Throwing.{message_ends_loops}
use robocrisp.Comms.Receive.{receive_loop}
use robocrisp.Comms.Receive.Laws.{Packet, IsPacket, packet_bytes, arrived}
use robocrisp.Comms.Sending.{Sender, complete, send}
use robocrisp.Comms.Sending.Laws.{summed}
use robocrisp.Comms.MessageDispatcher.Arrival.{with_handler, control_handled}

abbrev query : Message
query = record {
  header = record { length = 0; type = configuration_query };
  body = none;
  checksum = 0;
}

abbrev accepted : HandshakeResponse
accepted = record { acknowledge = ack; role = slave }

connect-dispatch_example :
    calls_of 9 (
      dispatch no_memory accepted robot
        (connect configuration_query incoming (user 9) (new 1))
        incoming
        query)
    ≡ more 1 (calls_of 9 (dispatch no_memory accepted robot (new 1) incoming query))
unfolding new set_default_callbacks connect
connect-dispatch_example =
    connect-dispatch no_memory accepted robot (new 1) 1 configuration_query 9 incoming incoming
      query refl (omega arith)

control_handled_example :
    (m sent arrived : Message) × (b' : EncodeBuffer) × (of_body module_control
        (get_encoded_size turn_to_five)
        (encode turn_to_five)
      ≡ some m)
    × (Message.encode m (new_encode_buffer 16) ≡ some (EncodeResult.success, sent, b'))
    × (Message.decode (reopen b' 0) ≡ some (arrived, reopen b' b'.offset))
    × (dispatch no_memory accepted robot
          (connect module_control incoming (user 9) (new 1))
          incoming
          arrived
        ≡ some (with_handler (user 9) ((new 1).handler_of module_control).received turn_to_five))
unfolding new_encode_buffer new set_default_callbacks connect
control_handled_example =
    control_handled no_memory accepted robot (new 1) 1 (user 9) drive turn_to_five
      (new_encode_buffer 16) refl turn-IsControl (new_encode_buffer-IsValid 16 (omega arith))
      (omega (arith, size-turn)) (omega (arith, size-turn, room-new_encode_buffer 16))

-- A message of the type ERROR.
abbrev failure : Packet
failure = record {
  message = record {
    header = record { length = 5; type = error };
    body = some (9 ∷ []);
    checksum = 0;
  };
  info = record {
    has_body = true;
    has_checksum = true;
    allowed_flow = FlowDirection.any;
    body = none;
  };
  body = 9 ∷ [];
}

failure-IsPacket : IsPacket failure
unfolding get_type_info
failure-IsPacket = record {
  known = refl;
  carried = refl;
  not_common = refl;
  counted = refl;
  without_body = λ e. cc;
  length_fits = omega arith;
}

abbrev sender : Sender
sender = record { queue = query ∷ []; wire = []; sent = []; ended = false }

message_ends_loops_example :
    (send (throws no_memory accepted robot (new 1) outgoing) complete failure.message sender
      ≡ some
          (record sender { wire = packet_bytes failure; sent = summed failure ∷ []; ended = true }))
    × (receive_loop
          (throws no_memory accepted robot (new 1) incoming)
          3
          0
          []
          (packet_bytes failure ++ 4 ∷ [])
        ≡ (arrived failure ∷ [], 4 ∷ []))
message_ends_loops_example =
    message_ends_loops no_memory accepted robot (new 1) 2 0 failure sender [] (4 ∷ [])
      failure-IsPacket (inl refl) (omega arith)
