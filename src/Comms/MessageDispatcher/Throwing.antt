-- ===== src/Comms/MessageDispatcher/Throwing.antt =====
-- Messages that a dispatcher throws for, in the loops of include/crisp/comms/bits/BasicNode.tcc.
use robocrisp.Base.{
  ℕ, suc, ◌≤◌, ◌≡◌, ◌⊎◌, inl, inr, refl, ◌∙◌, true, List, [], ◌∷◌, ◌++◌, length, some, Option-cases,
}
use robocrisp.Comms.Configuration.{Configuration}
use robocrisp.Comms.Handshake.{HandshakeResponse}
use robocrisp.Comms.Message.{Message, error, sensor_data}
use robocrisp.Comms.MessageDispatcher.{
  MessageDirection, incoming, outgoing, MessageDispatcher, dispatch, throws,
}
use robocrisp.Comms.Receive.{receive_loop}
use robocrisp.Comms.Receive.Laws.{Packet, IsPacket, packet_bytes, arrived, most, receive-message}
use robocrisp.Comms.Sending.{complete, Sender, send}
use robocrisp.Comms.Sending.Laws.{summed, send_complete}

module _ (fresh : ℕ → List ℕ) (old : HandshakeResponse) (config : Configuration)
    (d : MessageDispatcher) where
  throws_lem :
      (way : MessageDirection) (m : Message)
      → (m.header.type ≡ error) ⊎ (m.header.type ≡ sensor_data)
      → throws fresh old config d way m ≡ true
  unfolding throws dispatch
  throws_lem way m (inl e) = elim (Option-cases d.target) [
    | inl h ↦ rw h refl
    | inr (node, h) ↦ rw (h, e) refl
  ]
  throws_lem way m (inr e) = elim (Option-cases d.target) [
    | inl h ↦ rw h refl
    | inr (node, h) ↦ rw (h, e) refl
  ]

  -- A message of the type ERROR or SENSOR_DATA, counted by its header, is sent by a write that is complete, and
  -- received with any read buffer of at most 2^32 bytes. Whatever the dispatchers are, the send loop that sent it has ended
  -- then, and so has the receive loop, however many rounds it has left: what follows on the wire is left there.
  pub message_ends_loops :
      (n filler : ℕ) (p : Packet) (s : Sender) (rdbuf ys : List ℕ)
      → IsPacket p
      → (p.message.header.type ≡ error) ⊎ (p.message.header.type ≡ sensor_data)
      → length rdbuf ≤ most
      → (send (throws fresh old config d outgoing) complete p.message s
          ≡ some (record s {
            wire = s.wire ++ packet_bytes p;
            sent = s.sent ++ summed p ∷ [];
            ended = true;
          }))
        × (receive_loop
              (throws fresh old config d incoming)
              (suc n)
              filler
              rdbuf
              (packet_bytes p ++ ys)
            ≡ (arrived p ∷ [], ys))
  unfolding receive_loop
  message_ends_loops n filler p s rdbuf ys v e h = (
    send_complete p.message p.info p.body v (throws fresh old config d outgoing) s
        ∙ rw (throws_lem outgoing (summed p) e) refl,
    rw
        (
          (receive-message p.message p.info p.body v filler rdbuf ys h).0,
          throws_lem incoming (arrived p) e,
        )
        refl,
  )
