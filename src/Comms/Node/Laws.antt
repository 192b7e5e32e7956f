-- ===== src/Comms/Node/Laws.antt =====
-- What holds of a node whatever happens to it, and what a handshake between two nodes leads to.
use robocrisp.Base.{
  ℕ, zero, suc, ◌≡◌, refl, sym, ap, ◌∙◌, Bool, true, false, not, List, [], ◌∷◌, ◌++◌, append_assoc,
  append-nil, replicate, ◌==◌, ==_iff, ==_refl, if◌then◌else◌, Bool-cases, inl, inr, arith,
}
use robocrisp.Comms.Configuration.{Configuration}
use robocrisp.Comms.Handshake.{new_handshake, answer, protocol_version}
use robocrisp.Comms.Node.{
  Node, Outgoing, shake, respond, synchronise, Event, launched, ticked, queried, halted, shaken,
  responded, timed_out, new_node, send, launch, halt, handshake_received, response_received,
  query_received, sync_tick, timer_expired, step, run,
}

abbrev pub count : Bool → ℕ
count true = 1
count false = 0

-- The signal was emitted once if its flag is set and never before; a node that is being halted has
-- emitted it, is stopped, and has closed its socket.
abbrev pub IsConsistent : Node → Type 0
IsConsistent n =
    (n.disconnects ≡ count n.disconnect_emitted)
    × (n.halting ≡ n.disconnect_emitted)
    × (n.halting ≡ n.stopped)
    × (n.halting ≡ not n.socket_open)

halt-IsConsistent :
    (force can : Bool) (n : Node) → IsConsistent n → IsConsistent (halt force can n).1
unfolding halt
halt-IsConsistent force can n v = ground arith

step-IsConsistent : (e : Event) (n : Node) → IsConsistent n → IsConsistent (step e n)
unfolding step launch send handshake_received response_received query_received sync_tick
    timer_expired
step-IsConsistent launched n v = ground arith
step-IsConsistent ticked n v = ground arith
step-IsConsistent queried n v = v
step-IsConsistent (halted force can) n v = halt-IsConsistent force can n v
step-IsConsistent (shaken h) n v = v
step-IsConsistent (responded can r) n v = let h = halt-IsConsistent false can n v in ground arith
step-IsConsistent (timed_out can) n v = let h = halt-IsConsistent false can n v in ground arith

run_keeps : (es : List Event) (n : Node) → IsConsistent n → IsConsistent (run es n)
unfolding run
run_keeps [] n v = v
run_keeps (e ∷ es) n v = run_keeps es (step e n) (step-IsConsistent e n v)

-- Whatever happens to a new node, in whatever order: the signal `disconnected` is emitted at most once,
-- and it has been emitted exactly if the node is being halted, which is if it is stopped and its socket
-- is closed.
pub run-IsConsistent :
    (role : ℕ) (c : Configuration) (es : List Event) → IsConsistent (run es (new_node role c))
unfolding new_node
run-IsConsistent role c es = run_keeps es (new_node role c) (refl, refl, refl, refl)

step_halted :
    (e : Event) (n : Node)
    → n.halting ≡ true
    → ((step e n).halting ≡ true) × ((step e n).disconnects ≡ n.disconnects)
unfolding step launch send handshake_received response_received query_received sync_tick
    timer_expired halt
step_halted launched n h = ground arith
step_halted ticked n h = ground arith
step_halted queried n h = ground arith
step_halted (halted force can) n h = ground arith
step_halted (shaken e) n h = ground arith
step_halted (responded can r) n h = ground arith
step_halted (timed_out can) n h = ground arith

-- A node that is consistent and is being halted stays stopped whatever happens to it, with its
-- socket closed, and emits no second signal.
pub halted_stays :
    (es : List Event) (n : Node)
    → IsConsistent n
    → n.halting ≡ true
    → ((run es n).stopped ≡ true)
      × ((run es n).socket_open ≡ false)
      × ((run es n).disconnects ≡ n.disconnects)
unfolding run
halted_stays [] n v h = ground arith
halted_stays (e ∷ es) n v h =
    let (still, same) = step_halted e n h in
    let (stopped, closed, emitted) = halted_stays es (step e n) (step-IsConsistent e n v) still in
    (stopped, closed, emitted ∙ same)

-- What the SYNC action sends in `k` seconds.
abbrev pub syncs : Bool → ℕ → List Outgoing
syncs active k = if active then replicate k synchronise else []

outgoing-ticks :
    (k : ℕ) (n : Node) → (run (replicate k ticked) n).outgoing ≡ n.outgoing ++ syncs n.sync_action k
unfolding run step sync_tick send
outgoing-ticks zero n = elim (Bool-cases n.sync_action) [
  | inl e ↦ rw (e, append-nil n.outgoing) refl
  | inr e ↦ rw (e, append-nil n.outgoing) refl
]
outgoing-ticks (suc k) n = elim (Bool-cases n.sync_action) [
  | inl e ↦ rw e (
      outgoing-ticks k (record n { sync_action = true; outgoing = n.outgoing ++ synchronise ∷ [] })
      ∙ append_assoc n.outgoing (synchronise ∷ []) (replicate k synchronise))
  | inr e ↦ rw e (outgoing-ticks k (record n { sync_action = false }))
]

==_sym : (a b : ℕ) → (a == b) ≡ (b == a)
==_sym a b = elim (Bool-cases (a == b)) [
  | inl e ↦ e ∙ sym (rw ((==_iff a b).0 e) (==_refl b))
  | inr e ↦ ground (arith, e)
]

-- A node of role `r` is launched and is given, on a thread that may halt it, the handshake of a node of role
-- `s` and then that node's answer to its own handshake.
abbrev pub shaken_with : ℕ → ℕ → Configuration → Node
shaken_with r s c =
    response_received true (answer s (new_handshake protocol_version r))
      (handshake_received (new_handshake protocol_version s) (launch (new_node r c)).1)

shaken_with_lem :
    (r s k : ℕ) (c : Configuration)
    → ((run (replicate k ticked) (shaken_with r s c)).outgoing
        ≡ shake (new_handshake protocol_version r)
          ∷ respond (answer r (new_handshake protocol_version s))
          ∷ syncs (not (r == s)) k)
      × ((shaken_with r s c).stopped ≡ (r == s))
      × ((shaken_with r s c).halt_action ≡ false)
unfolding launch new_node send handshake_received response_received answer new_handshake halt
shaken_with_lem r s k c = elim (Bool-cases (r == s)) [
  | inl e ↦ (outgoing-ticks k (shaken_with r s c) ∙ rw e refl, rw e refl, rw e refl)
  | inr e ↦ (outgoing-ticks k (shaken_with r s c) ∙ rw e refl, rw e refl, rw e refl)
]

-- Two nodes are launched, with the roles `r` and `s`; each receives the handshake of the other and then the
-- other's answer to its own, on threads that may halt them, and `k` seconds go by. Each has sent its handshake and
-- its answer. If the roles differ, each has sent SYNC `k` times behind these and is not stopped; if they
-- are the same, each has sent nothing more and is stopped. The timer of the handshake runs in neither.
pub handshake_outcome :
    (r s k : ℕ) (c d : Configuration)
    → let a = shaken_with r s c in
      let b = shaken_with s r d in
      ((run (replicate k ticked) a).outgoing
        ≡ shake (new_handshake protocol_version r)
          ∷ respond (answer r (new_handshake protocol_version s))
          ∷ syncs (not (r == s)) k)
      × ((run (replicate k ticked) b).outgoing
          ≡ shake (new_handshake protocol_version s)
            ∷ respond (answer s (new_handshake protocol_version r))
            ∷ syncs (not (r == s)) k)
      × (a.stopped ≡ (r == s))
      × (b.stopped ≡ (r == s))
      × (a.halt_action ≡ false)
      × (b.halt_action ≡ false)
handshake_outcome r s k c d =
    let (sent, stopped, timer) = shaken_with_lem r s k c in
    let (sent', stopped', timer') = shaken_with_lem s r k d in
    (
      sent,
      sent'
          ∙ ap
              (λ e.
                shake (new_handshake protocol_version s)
                ∷ respond (answer s (new_handshake protocol_version r))
                ∷ syncs (not e) k)
              (==_sym s r),
      stopped,
      stopped' ∙ ==_sym s r,
      timer,
      timer',
    )
