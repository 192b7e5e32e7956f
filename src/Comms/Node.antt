-- ===== src/Comms/Node.antt =====
-- include/crisp/comms/bits/BasicNode.tcc with the handlers of
-- include/crisp/comms/bits/MessageDispatcher.tcc: a node that is launched, shakes hands and is halted.
-- The threads' part is explicit: each call, message and timer is an event, and `can` says that the
-- thread on which it happens is none of the node's workers (`can_halt`). The weak pointers to actions
-- are flags that say whether the action is still scheduled.
pub mod Laws
pub mod Dispatch
pub mod Tests
use robocrisp.Base.{
  ℕ, ◌+◌, Bool, true, false, ◌&&◌, ◌||◌, not, List, [], ◌∷◌, ◌++◌, Option, none, some, ◌==◌,
  if◌then◌else◌,
}
use robocrisp.Comms.Buffer.{DecodeBuffer}
use robocrisp.Comms.Configuration.{Configuration}
use robocrisp.Comms.Configuration
use robocrisp.Comms.ModuleControl
use robocrisp.Comms.Message.{
  Message, if_some, decode_body, handshake, handshake_response, sync, configuration_query,
  configuration_response, module_control, error, sensor_data,
}
use robocrisp.Comms.Handshake.{
  Handshake, HandshakeResponse, decode_handshake, decode_response, new_handshake, answer, ack,
  protocol_version,
}

-- What is in the queue of messages to send.
pub data Outgoing : Type 0 where
  shake : Handshake → Outgoing
  respond : HandshakeResponse → Outgoing
  synchronise : Outgoing
  configure : Configuration → Outgoing

pub record Node : Type 0 where
  pub role : ℕ
  pub configuration : Configuration
  pub outgoing : List Outgoing
  pub running : Bool
  pub stopped : Bool
  pub halting : Bool
  pub socket_open : Bool
  pub disconnect_emitted : Bool
  -- How often the signal `disconnected` was emitted.
  pub disconnects : ℕ
  pub sync_action : Bool
  pub halt_action : Bool

-- The constructor, over an open socket.
unfoldable pub new_node : ℕ → Configuration → Node
new_node role configuration = record {
  role = role;
  configuration = configuration;
  outgoing = [];
  running = false;
  stopped = false;
  halting = false;
  socket_open = true;
  disconnect_emitted = false;
  disconnects = 0;
  sync_action = false;
  halt_action = false;
}

unfoldable pub send : Outgoing → Node → Node
send m n = record n { outgoing = n.outgoing ++ m ∷ [] }

-- `launch`.
unfoldable pub launch : Node → Bool × Node
launch n = if n.running || n.stopped then (false, n) else (
  true,
  record (send (shake (new_handshake protocol_version n.role)) n) {
    running = true;
    halt_action = true;
  },
)

-- `halt(force_try)`. `WorkerObject::halt` stops the workers only from another thread. Where the node cannot
-- be halted from the thread, `m_stopped` is set for a moment and work is polled; both are left out.
unfoldable pub halt : Bool → Bool → Node → Bool × Node
halt force can n =
    if n.halting
    then (false, n)
    else if not can && not force
    then (false, record n { stopped = false; halting = false })
    else (
      true,
      record n {
        halting = true;
        stopped = true;
        socket_open = false;
        disconnect_emitted = true;
        disconnects = if n.disconnect_emitted then n.disconnects else n.disconnects + 1;
        sync_action = false;
        halt_action = false;
        running = if can then false else n.running;
      },
    )

-- `handshake.received`.
unfoldable pub handshake_received : Handshake → Node → Node
handshake_received h n = send (respond (answer n.role h)) n

-- `handshake_response.received`.
unfoldable pub response_received : Bool → HandshakeResponse → Node → Node
response_received can r n =
    if r.acknowledge == ack
    then record n { halt_action = false; sync_action = true }
    else (halt false can n).1

-- `configuration_query.received`.
unfoldable pub query_received : Node → Node
query_received n = send (configure n.configuration) n

-- The action that the handler of an accepting response schedules each second.
unfoldable pub sync_tick : Node → Node
sync_tick n = if n.sync_action then send synchronise n else n

-- The timer that `launch` sets; it fires once.
unfoldable pub timer_expired : Bool → Node → Node
timer_expired can n =
    if n.halt_action then record (halt false can n).1 { halt_action = false } else n

-- `MessageDispatcher::dispatch` of an incoming message, with the default handlers; `none` where it
-- throws or stops at an assertion. Nothing is done with a type that has no name. The handlers of SYNC and of module-control messages only print, and a
-- configuration response has none.
unfoldable pub dispatch : (ℕ → List ℕ) → HandshakeResponse → Bool → Message → Node → Option Node
dispatch fresh old can m n =
    if m.header.type == handshake
    then if_some (decode_body m decode_handshake) (λ p. some (handshake_received p.0 n))
    else if m.header.type == handshake_response
    then if_some (decode_body m (decode_response old)) (λ p. some (response_received can p.0 n))
    else if m.header.type == sync
    then some n
    else if m.header.type == configuration_query
    then some (query_received n)
    else if m.header.type == configuration_response
    then if_some (decode_body m (Configuration.decode fresh Configuration.blank)) (λ p. some n)
    else if m.header.type == module_control
    then if_some (decode_body m (ModuleControl.decode fresh n.configuration))
        (λ r. if_some r (λ p. some n))
    else if m.header.type == error
    then none
    else if m.header.type == sensor_data
    then none
    else some n

-- What can happen to a node.
pub data Event : Type 0 where
  launched ticked queried : Event
  halted : (force can : Bool) → Event
  shaken : Handshake → Event
  responded : (can : Bool) → HandshakeResponse → Event
  timed_out : (can : Bool) → Event

unfoldable pub step : Event → Node → Node
step launched n = (launch n).1
step ticked n = sync_tick n
step queried n = query_received n
step (halted force can) n = (halt force can n).1
step (shaken h) n = handshake_received h n
step (responded can r) n = response_received can r n
step (timed_out can) n = timer_expired can n

unfoldable pub run : List Event → Node → Node
run [] n = n
run (e ∷ es) n = run es (step e n)
