-- ===== src/Comms/Node/Dispatch.antt =====
-- Messages that a node is given: include/crisp/comms/bits/MessageDispatcher.tcc over the decoders.
use robocrisp.Base.{ℕ, ◌+◌, ◌<◌, ◌≤◌, ◌≡◌, refl, List, Bool, some}
use robocrisp.Comms.Buffer.{EncodeBuffer, EncodeResult}
use robocrisp.Comms.Buffer.Laws.{IsValid, room, reopen}
use robocrisp.Comms.Module.{Module}
use robocrisp.Comms.Handshake.{HandshakeResponse}
use robocrisp.Comms.Message.{Message, header_size, module_control, encode, decode, of_body}
use robocrisp.Comms.ModuleControl
use robocrisp.Comms.ModuleControl.{ModuleControl}
use robocrisp.Comms.ModuleControl.Codec.{IsControl}
use robocrisp.Comms.ModuleControl.Transfer.{control_arrives}
use robocrisp.Comms.Node.{Node, dispatch}

-- A control for a module of a node's configuration, of fewer than 65,532 bytes, that is made a message,
-- encoded into a well-formed buffer with room for it and decoded there is accepted by the node's
-- dispatcher, which leaves the node as it was.
pub dispatch_control :
    (fresh : ℕ → List ℕ) (old : HandshakeResponse) (can : Bool) (n : Node) (target : Module)
    (mc : ModuleControl) (b : EncodeBuffer)
    → IsControl n.configuration target mc
    → IsValid b
    → ModuleControl.get_encoded_size mc + 4 < 65536
    → header_size + (ModuleControl.get_encoded_size mc + 4) ≤ room b
    → (m sent arrived : Message) × (b' : EncodeBuffer) × (of_body module_control
          (ModuleControl.get_encoded_size mc)
          (ModuleControl.encode mc)
        ≡ some m)
      × (encode m b ≡ some (EncodeResult.success, sent, b'))
      × (decode (reopen b' b.offset) ≡ some (arrived, reopen b' b'.offset))
      × (dispatch fresh old can arrived n ≡ some n)
unfolding dispatch
dispatch_control fresh old can n target mc b v w small h =
    let (m, sent, arrived, b', rest, made, encoded, decoded, ok, typed, body) =
      control_arrives fresh n.configuration target mc b v w small h in
    (m, sent, arrived, b', made, encoded, decoded, rw (typed, body) refl)
