-- ===== src/Comms/MessageDispatcher/Connecting.antt =====
-- What a handler that is connected to a dispatcher is called for.
use robocrisp.Base.{
  ℕ, zero, suc, ◌+◌, ◌≤◌, ◌≡◌, refl, ap, Bool, true, false, Bool-cases, inl, inr, ◌&&◌, List, [],
  ◌∷◌, Option, none, some, ◌==◌, ==_refl, if◌then◌else◌, arith,
}
use robocrisp.Comms.Buffer.{DecodeResult, DecodeBuffer}
use robocrisp.Comms.Configuration.{Configuration}
use robocrisp.Comms.Handshake.{HandshakeResponse}
use robocrisp.Comms.ModuleControl
use robocrisp.Comms.ModuleControl.{ModuleControl}
use robocrisp.Comms.Message.{Message, if_some}
use robocrisp.Comms.MessageDispatcher.{
  MessageDirection, incoming, outgoing, Body, controlled, Handler, reports, answers_handshake,
  takes_response, answers_query, user, MessageDispatcher, Call, signal, connect, emit, dispatch,
}

abbrev pub is_user : ℕ → Handler → Bool
is_user k (user j) = j == k
is_user k reports = false
is_user k answers_handshake = false
is_user k takes_response = false
is_user k answers_query = false

-- How many of the calls are of the handler.
unfoldable pub times : ℕ → List Call → ℕ
times k [] = 0
times k (c ∷ calls) = if is_user k c.handler then suc (times k calls) else times k calls

abbrev pub calls_of : ℕ → Option (List Call) → Option ℕ
calls_of k o = if_some o (λ calls. some (times k calls))

abbrev pub same : MessageDirection → MessageDirection → Bool
same incoming incoming = true
same incoming outgoing = false
same outgoing incoming = false
same outgoing outgoing = true

abbrev pub added : Bool → ℕ
added b = if b then 1 else 0

abbrev pub more : ℕ → Option ℕ → Option ℕ
more n o = if_some o (λ c. some (c + n))

-- A signal of the dispatcher behind `connect`.
emit-connect :
    (d : MessageDispatcher) (t k : ℕ) (direction way : MessageDirection) (type : ℕ) (body : Body)
    → times k (emit (signal way ((connect t direction (user k) d).handler_of type)) body)
      ≡ times k (emit (signal way (d.handler_of type)) body)
        + added (type == t && same direction way)
unfolding connect times
emit-connect d t k incoming incoming type body = elim (Bool-cases (type == t)) [
  | inl e ↦ rw (e, ==_refl k) (omega arith)
  | inr o ↦ rw o (omega arith)
]
emit-connect d t k incoming outgoing type body = elim (Bool-cases (type == t)) [
  | inl e ↦ rw e (omega arith)
  | inr o ↦ rw o (omega arith)
]
emit-connect d t k outgoing incoming type body = elim (Bool-cases (type == t)) [
  | inl e ↦ rw e (omega arith)
  | inr o ↦ rw o (omega arith)
]
emit-connect d t k outgoing outgoing type body = elim (Bool-cases (type == t)) [
  | inl e ↦ rw (e, ==_refl k) (omega arith)
  | inr o ↦ rw o (omega arith)
]

controls_more :
    (k n : ℕ) (before behind : ModuleControl → List Call)
    (o : Option (DecodeResult × ModuleControl × DecodeBuffer))
    → ((c : ModuleControl) → times k (behind c) ≡ times k (before c) + n)
    → calls_of k (if_some o (λ p. some (behind p.1)))
      ≡ more n (calls_of k (if_some o (λ p. some (before p.1))))
controls_more k n before behind none h = refl
controls_more k n before behind (some p) h = ap some (h p.1)

no_name : (t k : ℕ) → k ≤ 7 → ((suc (suc (suc (suc (suc (suc (suc (suc t)))))))) == k) ≡ false
no_name t k h = ground arith

-- By the type of the message.
connect_of_type :
    (fresh : ℕ → List ℕ) (old : HandshakeResponse) (config : Configuration) (d : MessageDispatcher)
    (node t k : ℕ) (direction way : MessageDirection) (length type checksum : ℕ)
    (body : Option (List ℕ))
    → d.target ≡ some node
    → t ≤ 7
    → (let m : Message = record {
      header = record { length = length; type = type };
      body = body;
      checksum = checksum;
    } in
        calls_of k (dispatch fresh old config (connect t direction (user k) d) way m)
        ≡ more
            (added (type == t && same direction way))
            (calls_of k (dispatch fresh old config d way m)))
unfolding dispatch times connect
connect_of_type fresh old config d node t k direction way l zero s none h v = rw h refl
connect_of_type fresh old config d node t k direction way l zero s (some xs) h v =
    rw h (ap some (emit-connect d t k direction way 0 _))
connect_of_type fresh old config d node t k direction way l (suc zero) s none h v = rw h refl
connect_of_type fresh old config d node t k direction way l (suc zero) s (some xs) h v =
    rw h (ap some (emit-connect d t k direction way 1 _))
connect_of_type fresh old config d node t k direction way l (suc (suc zero)) s b h v =
    rw h (ap some (emit-connect d t k direction way 2 _))
connect_of_type fresh old config d node t k direction way l (suc (suc (suc zero))) s b h v =
    rw h refl
connect_of_type fresh old config d node t k direction way l (suc (suc (suc (suc zero)))) s b h v =
    rw h (ap some (emit-connect d t k direction way 4 _))
connect_of_type fresh old config d node t k direction way l (suc (suc (suc (suc (suc zero))))) s
      none h v =
    rw h refl
connect_of_type fresh old config d node t k direction way l (suc (suc (suc (suc (suc zero))))) s
      (some xs) h v =
    rw h (ap some (emit-connect d t k direction way 5 _))
connect_of_type fresh old config d node t k direction way l (suc (suc (suc (suc (suc (suc zero))))))
      s b h v =
    rw h refl
connect_of_type fresh old config d node t k direction way l
      (suc (suc (suc (suc (suc (suc (suc zero))))))) s none h v =
    rw h refl
connect_of_type fresh old config d node t k direction way l
      (suc (suc (suc (suc (suc (suc (suc zero))))))) s (some xs) h v =
    rw h (
      controls_more k _ _ _ (ModuleControl.decode fresh config (record { block = xs; offset = 0 }))
        (λ c. emit-connect d t k direction way 7 (controlled c)))
connect_of_type fresh old config d node t k direction way l
      (suc (suc (suc (suc (suc (suc (suc (suc u)))))))) s b h v =
    rw
      (
        h,
        no_name u 0 (omega arith),
        no_name u 1 (omega arith),
        no_name u 2 (omega arith),
        no_name u 3 (omega arith),
        no_name u 4 (omega arith),
        no_name u 5 (omega arith),
        no_name u 6 (omega arith),
        no_name u 7 (omega arith),
        no_name u t v,
      )
      refl

-- A handler that is connected for a type and a direction is called once more for each message of that type in
-- that direction, and no more often for any other message; whether the dispatch fails does not change.
pub connect-dispatch :
    (fresh : ℕ → List ℕ) (old : HandshakeResponse) (config : Configuration) (d : MessageDispatcher)
    (node type k : ℕ) (direction way : MessageDirection) (m : Message)
    → d.target ≡ some node
    → type ≤ 7
    → calls_of k (dispatch fresh old config (connect type direction (user k) d) way m)
      ≡ more
          (added (m.header.type == type && same direction way))
          (calls_of k (dispatch fresh old config d way m))
connect-dispatch fresh old config d node type k direction way m =
    connect_of_type fresh old config d node type k direction way m.header.length m.header.type
      m.checksum m.body
