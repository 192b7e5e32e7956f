-- ===== src/Comms/MessageDispatcher/Arrival.antt =====
-- A control that is sent, up to the handlers of the dispatcher that it arrives at.
use robocrisp.Base.{ℕ, ◌+◌, ◌<◌, ◌≤◌, ◌≡◌, refl, List, ◌∷◌, some}
use robocrisp.Comms.Buffer.{EncodeBuffer, EncodeResult, DecodeBuffer, DecodeResult}
use robocrisp.Comms.Buffer.Laws.{IsValid, room, reopen}
use robocrisp.Comms.Configuration.{Configuration}
use robocrisp.Comms.Module.{Module}
use robocrisp.Comms.Handshake.{HandshakeResponse}
use robocrisp.Comms.Message.{
  Message, header_size, module_control, encode, decode, decode_body, of_body,
}
use robocrisp.Comms.ModuleControl
use robocrisp.Comms.ModuleControl.{ModuleControl}
use robocrisp.Comms.ModuleControl.Codec.{IsControl}
use robocrisp.Comms.ModuleControl.Transfer.{control_arrives}
use robocrisp.Comms.MessageDispatcher.{
  incoming, controlled, Handler, HandlerSignal, MessageDispatcher, Call, connect, emit, dispatch,
}

-- The calls that a handler `f` makes more where it is connected to a signal that is emitted.
abbrev pub with_handler : Handler → HandlerSignal → ModuleControl → List Call
with_handler f s mc =
    record { handler = f; body = controlled mc; io_service = s.io_service } ∷ emit s (controlled mc)

dispatch_arrived :
    (fresh : ℕ → List ℕ) (old : HandshakeResponse) (config : Configuration) (d : MessageDispatcher)
    (node : ℕ) (f : Handler) (mc : ModuleControl) (m : Message) (rest : DecodeBuffer)
    → d.target ≡ some node
    → m.header.type ≡ module_control
    → decode_body m (ModuleControl.decode fresh config)
      ≡ some (some (DecodeResult.success, mc, rest))
    → dispatch fresh old config (connect module_control incoming f d) incoming m
      ≡ some (with_handler f (d.handler_of module_control).received mc)
unfolding dispatch connect
dispatch_arrived fresh old config d node f mc m rest h typed body = rw (h, typed, body) refl

-- A control for a module of a configuration, of fewer than 65,532 bytes, that is made a message, encoded into a
-- well-formed buffer with room for it and decoded there, is dispatched by a dispatcher that has a target with
-- that configuration: a handler that was connected for received controls last is called with the
-- control that was sent, and so are those that were connected before it.
pub control_handled :
    (fresh : ℕ → List ℕ) (old : HandshakeResponse) (config : Configuration) (d : MessageDispatcher)
    (node : ℕ) (f : Handler) (target : Module) (mc : ModuleControl) (b : EncodeBuffer)
    → d.target ≡ some node
    → IsControl config target mc
    → IsValid b
    → ModuleControl.get_encoded_size mc + 4 < 65536
    → header_size + (ModuleControl.get_encoded_size mc + 4) ≤ room b
    → (m sent arrived : Message) × (b' : EncodeBuffer) × (of_body module_control
          (ModuleControl.get_encoded_size mc)
          (ModuleControl.encode mc)
        ≡ some m)
      × (encode m b ≡ some (EncodeResult.success, sent, b'))
      × (decode (reopen b' b.offset) ≡ some (arrived, reopen b' b'.offset))
      × (dispatch fresh old config (connect module_control incoming f d) incoming arrived
          ≡ some (with_handler f (d.handler_of module_control).received mc))
control_handled fresh old config d node f target mc b t v w small h =
    let (m, sent, arrived, b', rest, made, encoded, decoded, ok, typed, body) =
      control_arrives fresh config target mc b v w small h in
    (
      m,
      sent,
      arrived,
      b',
      made,
      encoded,
      decoded,
      dispatch_arrived fresh old config d node f mc arrived rest t typed body,
    )
