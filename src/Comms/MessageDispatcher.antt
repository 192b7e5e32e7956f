-- ===== src/Comms/MessageDispatcher.antt =====
-- include/crisp/comms/bits/MessageDispatcher.tcc, include/crisp/comms/MessageHandler.hh and the signals
-- they use: the handlers that are connected for each type of message, and which of them a message
-- calls. The members of a dispatcher and its `switch` are by the type of the messages. Of the node, the
-- dispatcher holds the `io_service`; the configuration that the node has is given with each message.
-- What happens to a signal while it is emitted is in Util/Signal.antt.
pub mod Laws
pub mod Connecting
pub mod Arrival
pub mod Throwing
pub mod Tests
use robocrisp.Base.{
  ℕ, Bool, true, false, List, [], ◌∷◌, map, Option, none, some, ◌==◌, if◌then◌else◌,
}
use robocrisp.Comms.Configuration.{Configuration}
use robocrisp.Comms.Configuration
use robocrisp.Comms.ModuleControl.{ModuleControl}
use robocrisp.Comms.ModuleControl
use robocrisp.Comms.Handshake.{Handshake, HandshakeResponse, decode_handshake, decode_response}
use robocrisp.Comms.Message.{
  Message, if_some, decode_body, handshake, handshake_response, sync, configuration_query,
  configuration_response, module_control, error, sensor_data,
}
use robocrisp.Comms.Node.{Node, handshake_received, response_received, query_received}

-- `MessageDirection`.
pub data MessageDirection : Type 0 where
  incoming outgoing : MessageDirection

-- The default handlers, of which most print only, and those that are connected besides.
pub data Handler : Type 0 where
  reports answers_handshake takes_response answers_query : Handler
  user : ℕ → Handler

-- The argument of a handler besides the node.
pub data Body : Type 0 where
  no_body : Body
  shaken : Handshake → Body
  responded : HandshakeResponse → Body
  configured : Configuration → Body
  controlled : ModuleControl → Body

-- A signal: the functions of its actions, and where they are posted, if they are.
pub record HandlerSignal : Type 0 where
  pub handlers : List Handler
  pub io_service : Option ℕ

pub record MessageHandler : Type 0 where
  pub sent : HandlerSignal
  pub received : HandlerSignal

pub record MessageDispatcher : Type 0 where
  pub target : Option ℕ
  pub handler_of : ℕ → MessageHandler

abbrev pub signal : MessageDirection → MessageHandler → HandlerSignal
signal incoming h = h.received
signal outgoing h = h.sent

-- `connect` of a signal.
abbrev pub add : Handler → HandlerSignal → HandlerSignal
add f s = record s { handlers = f ∷ s.handlers }

abbrev pub add_to : MessageDirection → Handler → MessageHandler → MessageHandler
add_to incoming f h = record h { received = add f h.received }
add_to outgoing f h = record h { sent = add f h.sent }

unfoldable pub connect : ℕ → MessageDirection → Handler → MessageDispatcher → MessageDispatcher
connect type direction f d = record d {
  handler_of = λ t. if t == type then add_to direction f (d.handler_of t) else d.handler_of t;
}

-- `set_default_callbacks`.
unfoldable pub set_default_callbacks : MessageDispatcher → MessageDispatcher
set_default_callbacks d = connect module_control incoming reports (
    connect module_control outgoing reports (
      connect configuration_query incoming answers_query (
        connect handshake_response outgoing reports (
          connect handshake_response incoming takes_response (
            connect handshake incoming answers_handshake (
              connect handshake outgoing reports
                (connect sync incoming reports (connect sync outgoing reports d))))))))

-- `MessageHandler()` and `MessageHandler(service)`.
abbrev pub blank_handler : Option ℕ → MessageHandler
blank_handler service = record {
  sent = record { handlers = []; io_service = service };
  received = record { handlers = []; io_service = service };
}

-- `MessageDispatcher()`.
unfoldable pub without_target : MessageDispatcher
without_target =
    set_default_callbacks (record { target = none; handler_of = λ t. blank_handler none })

-- `MessageDispatcher(node)`.
unfoldable pub new : ℕ → MessageDispatcher
new node =
    set_default_callbacks
      (record { target = some node; handler_of = λ t. blank_handler (some node) })

abbrev pub set_io_service : ℕ → HandlerSignal → HandlerSignal
set_io_service service s = record s { io_service = some service }

-- `set_target`.
unfoldable pub set_target : ℕ → MessageDispatcher → MessageDispatcher
set_target node d = record {
  target = some node;
  handler_of = λ t. record {
    sent = set_io_service node (d.handler_of t).sent;
    received = set_io_service node (d.handler_of t).received;
  };
}

abbrev pub retarget : Option ℕ → MessageDispatcher → MessageDispatcher
retarget none d = d
retarget (some node) d = set_target node d

-- `operator =`.
unfoldable pub assign : MessageDispatcher → MessageDispatcher → MessageDispatcher
assign d other = retarget d.target (record d { handler_of = other.handler_of })

-- A call of a handler, here or from the `io_service` that it is posted to.
pub record Call : Type 0 where
  pub handler : Handler
  pub body : Body
  pub io_service : Option ℕ

-- `emit`.
abbrev pub emit : HandlerSignal → Body → List Call
emit s body = map (λ f. record { handler = f; body = body; io_service = s.io_service }) s.handlers

-- `dispatch`: the calls; `none` where it throws or stops at an assertion.
unfoldable pub dispatch :
    (ℕ → List ℕ)
    → HandshakeResponse
    → Configuration
    → MessageDispatcher
    → MessageDirection
    → Message
    → Option (List Call)
dispatch fresh old config d direction m = if_some d.target (λ node.
    let call_handler =
      λ (body : Body). some (emit (signal direction (d.handler_of m.header.type)) body) in
    if m.header.type == handshake
    then if_some (decode_body m decode_handshake) (λ p. call_handler (shaken p.0))
    else if m.header.type == handshake_response
    then if_some (decode_body m (decode_response old)) (λ p. call_handler (responded p.0))
    else if m.header.type == sync
    then call_handler no_body
    else if m.header.type == error
    then none
    else if m.header.type == configuration_query
    then call_handler no_body
    else if m.header.type == configuration_response
    then if_some (decode_body m (Configuration.decode fresh Configuration.blank))
        (λ p. call_handler (configured p.1))
    else if m.header.type == sensor_data
    then none
    else if m.header.type == module_control
    then if_some (decode_body m (ModuleControl.decode fresh config))
        (λ r. if_some r (λ p. call_handler (controlled p.1)))
    else some [])

-- Whether `dispatch` throws or stops at an assertion.
unfoldable pub throws :
    (ℕ → List ℕ)
    → HandshakeResponse
    → Configuration
    → MessageDispatcher
    → MessageDirection
    → Message
    → Bool
throws fresh old config d direction m = is_none (dispatch fresh old config d direction m)
  where
    is_none : Option (List Call) → Bool
    is_none none = true
    is_none (some calls) = false

-- What the default handlers do to the node; `acts` is what the others do.
unfoldable pub handle : (ℕ → Body → Node → Node) → Bool → Handler → Body → Node → Node
handle acts can reports body n = n
handle acts can answers_handshake (shaken h) n = handshake_received h n
handle acts can answers_handshake no_body n = n
handle acts can answers_handshake (responded r) n = n
handle acts can answers_handshake (configured c) n = n
handle acts can answers_handshake (controlled c) n = n
handle acts can takes_response (responded r) n = response_received can r n
handle acts can takes_response no_body n = n
handle acts can takes_response (shaken h) n = n
handle acts can takes_response (configured c) n = n
handle acts can takes_response (controlled c) n = n
handle acts can answers_query body n = query_received n
handle acts can (user f) body n = acts f body n

-- The calls, one after the other.
unfoldable pub run_calls : (ℕ → Body → Node → Node) → Bool → List Call → Node → Node
run_calls acts can [] n = n
run_calls acts can (c ∷ calls) n = run_calls acts can calls (handle acts can c.handler c.body n)
