-- ===== src/Comms/Sending/Laws.antt =====
-- What `send_loop` of include/crisp/comms/bits/BasicNode.tcc writes, and what the other node makes of it.
use robocrisp.Base.{
  ℕ, ◌+◌, ◌≤◌, ◌≡◌, refl, ap, ◌∙◌, Bool, true, false, if◌then◌else◌, List, [], ◌∷◌, ◌++◌,
  append_assoc, append-nil, map, length, take, replicate, All, some, arith,
}
use robocrisp.Comms.Buffer.{EncodeBuffer, new_encode_buffer}
use robocrisp.Comms.Buffer.Laws.{
  IsValid, put, room, written, new_encode_buffer-IsValid, room-new_encode_buffer,
  written-new_encode_buffer, written-put,
}
use robocrisp.Comms.Encoder.{concat_map}
use robocrisp.Comms.Message.{Message, MessageTypeInfo, header_size}
use robocrisp.Comms.Message.Form.{IsMessage}
use robocrisp.Comms.Message.Codec.{
  sum_of, message_bytes, length-message_bytes, encode_message-put, get_encoded_size-IsMessage,
}
use robocrisp.Comms.Receive.{receive_loop}
use robocrisp.Comms.Receive.Laws.{
  Packet, IsPacket, packet_bytes, arrived, most, receive_loop-arrived,
}
use robocrisp.Comms.Sending.{complete, again, Sender, write_out, send, send_loop}

-- A message with the checksum that `encode` leaves in it.
abbrev pub summed : Packet → Message
summed p = record p.message { checksum = sum_of p.info p.message p.body }

abbrev pub queued : List Packet → List ℕ → List Message → Sender
queued ps wire sent = record {
  queue = map (λ p. p.message) ps;
  wire = wire;
  sent = sent;
  ended = false;
}

module _ (m : Message) (t : MessageTypeInfo) (xs : List ℕ) (v : IsMessage m t xs) where
  new_buffer : EncodeBuffer
  new_buffer = new_encode_buffer (header_size + m.header.length)

  new_buffer-IsValid : IsValid new_buffer
  unfolding new_buffer
  new_buffer-IsValid =
      new_encode_buffer-IsValid (header_size + m.header.length) (omega (arith, v.length_fits))

  room-new_buffer : room new_buffer ≡ header_size + m.header.length
  unfolding new_buffer
  room-new_buffer = room-new_encode_buffer (header_size + m.header.length)

  written-new_buffer : written (put new_buffer (message_bytes t m xs)) ≡ message_bytes t m xs
  unfolding new_buffer
  written-new_buffer =
      written-put new_buffer (message_bytes t m xs) new_buffer-IsValid
        (omega (arith, room-new_buffer, length-message_bytes m t xs v))
      ∙ ap (λ l. l ++ message_bytes t m xs)
          (written-new_encode_buffer (header_size + m.header.length))

  -- A round whose write is complete.
  pub send_complete :
      (throws : Message → Bool) (s : Sender)
      → send throws complete m s
        ≡ some (record s {
          wire = s.wire ++ message_bytes t m xs;
          sent = s.sent ++ record m { checksum = sum_of t m xs } ∷ [];
          ended = if throws (record m { checksum = sum_of t m xs }) then true else s.ended;
        })
  unfolding send new_buffer write_out
  send_complete throws s =
      rw
        (
          get_encoded_size-IsMessage m t xs v,
          encode_message-put m t xs v new_buffer new_buffer-IsValid
              (omega (arith, room-new_buffer)),
          written-new_buffer,
        )
        refl

send_loop_complete :
    (throws : Message → Bool) (ps : List Packet) (wire : List ℕ) (sent : List Message)
    → All IsPacket ps
    → All (λ p. throws (summed p) ≡ false) ps
    → send_loop throws (replicate (length ps) complete) (queued ps wire sent)
      ≡ some (queued [] (wire ++ concat_map packet_bytes ps) (sent ++ map summed ps))
unfolding send_loop
send_loop_complete throws [] wire sent v q = rw (append-nil wire, append-nil sent) refl
send_loop_complete throws (p ∷ ps) wire sent v q =
    rw
      (
        send_complete p.message p.info p.body v.0 throws (queued ps wire sent),
        q.0,
        send_loop_complete throws ps (wire ++ packet_bytes p) (sent ++ summed p ∷ []) v.1 q.1,
        append_assoc wire (packet_bytes p) (concat_map packet_bytes ps),
        append_assoc sent (summed p ∷ []) (map summed ps),
      )
      refl

-- Messages, each of a type that the table knows, without a common body, and counted by its header, are
-- in the queue of a node whose writes are all complete, and neither the dispatcher of that node nor the
-- dispatcher of another throws for any of them. Then as many rounds of its send loop empty the
-- queue, give the dispatcher the messages in their order, and write some bytes behind those on the wire.
-- The receive loop of the other node, with any read buffer of at most 2^32 bytes, takes as many rounds to
-- give its dispatcher the messages in the same order from these bytes, and leaves the bytes `ys` that
-- follow.
pub receive_loop-send_loop :
    (throws throws' : Message → Bool) (filler : ℕ) (ps : List Packet) (rdbuf wire ys : List ℕ)
    (sent : List Message)
    → All IsPacket ps
    → All (λ p. throws (summed p) ≡ false) ps
    → All (λ p. throws' (arrived p) ≡ false) ps
    → length rdbuf ≤ most
    → (bytes : List ℕ) × (send_loop throws (replicate (length ps) complete) (queued ps wire sent)
        ≡ some (queued [] (wire ++ bytes) (sent ++ map summed ps)))
      × (receive_loop throws' (length ps) filler rdbuf (bytes ++ ys) ≡ (map arrived ps, ys))
receive_loop-send_loop throws throws' filler ps rdbuf wire ys sent v q q' h = (
  concat_map packet_bytes ps,
  send_loop_complete throws ps wire sent v q,
  receive_loop-arrived throws' filler ps rdbuf ys v q' h,
)

-- A round whose write is to be tried again: the message goes behind those that came later, and what was
-- written of it stays on the wire.
send_again :
    (throws : Message → Bool) (k : ℕ) (m : Message) (t : MessageTypeInfo) (xs : List ℕ) (s : Sender)
    → IsMessage m t xs
    → send throws (again k) m s
      ≡ some (record s {
        wire = s.wire ++ take k (message_bytes t m xs);
        queue = s.queue ++ record m { checksum = sum_of t m xs } ∷ [];
      })
unfolding send new_buffer write_out
send_again throws k m t xs s v =
    rw
      (
        get_encoded_size-IsMessage m t xs v,
        encode_message-put m t xs v (new_buffer m t xs v) (new_buffer-IsValid m t xs v)
            (omega (arith, room-new_buffer m t xs v)),
        written-new_buffer m t xs v,
      )
      refl
