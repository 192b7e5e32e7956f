-- ===== src/Comms/MessageDispatcher/Laws.antt =====
-- What a dispatcher with the default handlers does to its node.
use robocrisp.Base.{
  ℕ, zero, suc, ◌≤◌, ◌≡◌, refl, Bool, false, List, Option, none, some, ◌==◌, arith,
}
use robocrisp.Comms.Buffer.{DecodeResult, DecodeBuffer}
use robocrisp.Comms.Handshake.{HandshakeResponse, decode_handshake}
use robocrisp.Comms.ModuleControl
use robocrisp.Comms.ModuleControl.{ModuleControl}
use robocrisp.Comms.Message.{Message, if_some, handshake}
use robocrisp.Comms.Node
use robocrisp.Comms.Node.{Node, handshake_received}
use robocrisp.Comms.MessageDispatcher.{
  incoming, Body, Call, connect, set_default_callbacks, new, dispatch, handle, run_calls,
}

-- The calls of a message, made one after the other on its node.
abbrev pub run_dispatch : (ℕ → Body → Node → Node) → Bool → Option (List Call) → Node → Option Node
run_dispatch acts can calls n = if_some calls (λ cs. some (run_calls acts can cs n))

controls_only_reported :
    (acts : ℕ → Body → Node → Node) (can : Bool) (n : Node) (calls : ModuleControl → List Call)
    (o : Option (DecodeResult × ModuleControl × DecodeBuffer))
    → ((c : ModuleControl) → run_calls acts can (calls c) n ≡ n)
    → run_dispatch acts can (if_some o (λ p. some (calls p.1))) n ≡ if_some o (λ p. some n)
controls_only_reported acts can n calls none h = refl
controls_only_reported acts can n calls (some p) h = rw (h p.1) refl

no_name : (t k : ℕ) → k ≤ 7 → (suc (suc (suc (suc (suc (suc (suc (suc t))))))) == k) ≡ false
no_name t k h = ground arith

-- By the type of the message.
dispatch_of_type :
    (fresh : ℕ → List ℕ) (old : HandshakeResponse) (acts : ℕ → Body → Node → Node) (can : Bool)
    (node : ℕ) (n : Node) (length type checksum : ℕ) (body : Option (List ℕ))
    → (let m : Message = record {
      header = record { length = length; type = type };
      body = body;
      checksum = checksum;
    } in
        run_dispatch acts can (dispatch fresh old n.configuration (new node) incoming m) n
        ≡ Node.dispatch fresh old can m n)
unfolding dispatch new set_default_callbacks connect Node.dispatch run_calls handle
dispatch_of_type fresh old acts can node n l zero s none = refl
dispatch_of_type fresh old acts can node n l zero s (some xs) = refl
dispatch_of_type fresh old acts can node n l (suc zero) s none = refl
dispatch_of_type fresh old acts can node n l (suc zero) s (some xs) = refl
dispatch_of_type fresh old acts can node n l (suc (suc zero)) s b = refl
dispatch_of_type fresh old acts can node n l (suc (suc (suc zero))) s b = refl
dispatch_of_type fresh old acts can node n l (suc (suc (suc (suc zero)))) s b = refl
dispatch_of_type fresh old acts can node n l (suc (suc (suc (suc (suc zero))))) s none = refl
dispatch_of_type fresh old acts can node n l (suc (suc (suc (suc (suc zero))))) s (some xs) = refl
dispatch_of_type fresh old acts can node n l (suc (suc (suc (suc (suc (suc zero)))))) s b = refl
dispatch_of_type fresh old acts can node n l (suc (suc (suc (suc (suc (suc (suc zero))))))) s none =
    refl
dispatch_of_type fresh old acts can node n l (suc (suc (suc (suc (suc (suc (suc zero))))))) s
      (some xs) =
    controls_only_reported acts can n _
      (ModuleControl.decode fresh n.configuration (record { block = xs; offset = 0 })) (λ c. refl)
dispatch_of_type fresh old acts can node n l (suc (suc (suc (suc (suc (suc (suc (suc t)))))))) s b =
    rw
      (
        no_name t 0 (omega arith),
        no_name t 1 (omega arith),
        no_name t 2 (omega arith),
        no_name t 3 (omega arith),
        no_name t 4 (omega arith),
        no_name t 5 (omega arith),
        no_name t 6 (omega arith),
        no_name t 7 (omega arith),
      )
      refl

-- A dispatcher that was made for a node and has its default handlers calls for each incoming message what
-- the node's own account of the message says, whatever other handlers would do, and fails where it does.
pub run_dispatch_lem :
    (fresh : ℕ → List ℕ) (old : HandshakeResponse) (acts : ℕ → Body → Node → Node) (can : Bool)
    (node : ℕ) (n : Node) (m : Message)
    → run_dispatch acts can (dispatch fresh old n.configuration (new node) incoming m) n
      ≡ Node.dispatch fresh old can m n
run_dispatch_lem fresh old acts can node n m =
    dispatch_of_type fresh old acts can node n m.header.length m.header.type m.checksum m.body

-- The default handlers, set once more, answer each handshake twice.
defaults_twice :
    (fresh : ℕ → List ℕ) (old : HandshakeResponse) (acts : ℕ → Body → Node → Node) (can : Bool)
    (node : ℕ) (n : Node) (length checksum : ℕ) (body : List ℕ)
    → (let m : Message = record {
      header = record { length = length; type = handshake };
      body = some body;
      checksum = checksum;
    } in
        let h = (decode_handshake (record { block = body; offset = 0 })).0 in
        run_dispatch acts can
          (dispatch fresh old n.configuration (set_default_callbacks (new node)) incoming m)
          n
        ≡ some (handshake_received h (handshake_received h n)))
unfolding dispatch new set_default_callbacks connect run_calls handle
defaults_twice fresh old acts can node n length checksum body = refl
