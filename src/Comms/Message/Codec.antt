-- ===== src/Comms/Message/Codec.antt =====
-- Encoding a message and decoding it again.
use robocrisp.Base.{
  ℕ, ◌+◌, ◌≤◌, ◌<◌, ◌≡◌, refl, sym, ap, ap₂, ◌∙◌, Bool, true, false, ◌&&◌, List, [], ◌++◌, length,
  Option, none, some, ltb_le, ==_refl, bytes_eq_refl, if◌then◌else◌, length-append, append_assoc,
  Bool-cases, inl, inr, arith,
}
use robocrisp.Comms.Buffer.{EncodeBuffer, DecodeBuffer, EncodeResult}
use robocrisp.Comms.Buffer.Laws.{
  IsValid, IsSmall, room, put, written, ahead, advance, reopen, read-ahead, ahead-put,
  reopen-IsSmall, advance-reopen, ahead-advance, advance-IsSmall, written-put,
}
use robocrisp.Comms.Message.{
  MessageTypeInfo, Message, header_size, header_bytes, checksum_size, compute_checksum, checksum_ok,
  body_to_write, encode, decode, equal, get_encoded_size, blank, same_body,
}
use robocrisp.Util.Checksum.{crc32}
use robocrisp.Util.Checksum.Laws.{word, crc32_is_word}
use robocrisp.Comms.Message.Form.{
  IsMessage, checked_has_body, header_of_bytes-header_bytes, tail, bytes, writes-Emits,
  length-header_bytes, length-tail, reads-tail,
}

-- The checksum that `encode` leaves in a message.
abbrev pub sum_of : MessageTypeInfo → Message → List ℕ → ℕ
sum_of t m xs = if t.has_checksum then crc32 (header_bytes m.header ++ xs) else m.checksum

-- What arrives of a message.
abbrev pub received : MessageTypeInfo → Message → List ℕ → Message
received t m xs = record m { checksum = if t.has_checksum then sum_of t m xs else 0 }

-- The bytes of a message on the wire.
abbrev pub message_bytes : MessageTypeInfo → Message → List ℕ → List ℕ
message_bytes t m xs = bytes t m.header xs (sum_of t m xs)

&&_false : (q : Bool) → (q && false) ≡ false
&&_false true = refl
&&_false false = refl

module _ (m : Message) (t : MessageTypeInfo) (xs : List ℕ) (v : IsMessage m t xs) where
  pub unchecked : t.has_body ≡ false → t.has_checksum ≡ false
  unchecked e = elim (Bool-cases t.has_checksum) [
    | inl f ↦ absurd (cc (checked_has_body m.header.type t v.known f))
    | inr f ↦ f
  ]

  checked_sum :
      t.has_checksum ≡ true → compute_checksum m ≡ some (crc32 (header_bytes m.header ++ xs))
  unfolding compute_checksum
  checked_sum e = rw (v.known, e, v.carried, checked_has_body m.header.type t v.known e) refl

  -- The checksum that is written.
  written_sum :
      (if t.has_checksum then compute_checksum m else some m.checksum) ≡ some (sum_of t m xs)
  written_sum = elim (Bool-cases t.has_checksum) [
    | inl e ↦ rw e (checked_sum e)
    | inr e ↦ rw e refl
  ]

  -- The body that is written.
  written_body : (if t.has_body then body_to_write t m.body else some []) ≡ some xs
  written_body = elim (Bool-cases t.has_body) [
    | inl e ↦ rw (e, v.carried, e, v.not_common) refl
    | inr e ↦ rw (e, v.without_body e) refl
  ]

  pub get_encoded_size-IsMessage : get_encoded_size m ≡ some (header_size + m.header.length)
  unfolding get_encoded_size
  get_encoded_size-IsMessage = rw v.known (elim (Bool-cases t.has_body) [
    | inl e ↦
        rw (e, &&_false t.has_checksum, v.carried, e, v.not_common)
          (ap some (omega (arith, v.counted)))
    | inr e ↦ rw (e, unchecked e, v.carried, e, v.not_common) refl
  ])

  pub length-message_bytes : length (message_bytes t m xs) ≡ header_size + m.header.length
  length-message_bytes = omega (
    arith,
    v.counted,
    length-append (header_bytes m.header) (tail t.has_body t.has_checksum xs (sum_of t m xs)),
    length-header_bytes m.header,
    length-tail t.has_body t.has_checksum xs (sum_of t m xs) v.without_body,
  )

  pub encode_message-put :
      (b : EncodeBuffer)
      → IsValid b
      → header_size + m.header.length ≤ room b
      → encode m b
        ≡ some (
          EncodeResult.success,
          record m { checksum = sum_of t m xs },
          put b (message_bytes t m xs),
        )
  unfolding encode
  encode_message-put b w h =
      rw
        (
          v.known,
          written_body,
          written_sum,
          writes-Emits t m.header xs (sum_of t m xs) b w (omega (arith, length-message_bytes)),
        )
        refl

  sum_is_word : t.has_checksum ≡ true → sum_of t m xs < word
  sum_is_word e = rw e (crc32_is_word (header_bytes m.header ++ xs))

  pub decode_message-received :
      (b : DecodeBuffer) (ys : List ℕ)
      → IsSmall b
      → ahead b ≡ message_bytes t m xs ++ ys
      → decode b ≡ some (received t m xs, advance b (length (message_bytes t m xs)))
  unfolding decode
  decode_message-received b ys s a =
      rw
        (
          read-ahead b header_size (header_bytes m.header) (rest ++ ys) (header_bytes blank.header)
              (length-header_bytes m.header) s a',
          header_of_bytes-header_bytes m.header v.length_fits,
          v.known,
          ltb_le m.header.length (checksum_size t) (omega (arith, v.counted)),
          reads-tail t.has_body t.has_checksum t.allowed_flow t.body m.header xs (sum_of t m xs)
              (advance b (length (header_bytes m.header))) ys v.counted sum_is_word
              (advance-IsSmall b (header_bytes m.header) (rest ++ ys) s a')
              (ahead-advance b (header_bytes m.header) (rest ++ ys) a'),
        )
        (ap₂ (λ o k. some (record (received t m xs) { body = o }, record b { offset = k }))
          (sym v.carried) (omega (arith, length-append (header_bytes m.header) rest)))
    where
      rest : List ℕ
      rest = tail t.has_body t.has_checksum xs (sum_of t m xs)

      a' : ahead b ≡ header_bytes m.header ++ (rest ++ ys)
      a' = a ∙ append_assoc (header_bytes m.header) rest ys

  -- The stored checksum does not go into the checksum.
  compute_checksum-received : compute_checksum (received t m xs) ≡ compute_checksum m
  unfolding compute_checksum
  compute_checksum-received = refl

  pub total_sum :
      compute_checksum m ≡ some (if t.has_checksum then crc32 (header_bytes m.header ++ xs) else 0)
  unfolding compute_checksum
  total_sum = elim (Bool-cases t.has_checksum) [
    | inl e ↦ rw e (checked_sum e)
    | inr e ↦ rw (v.known, e) refl
  ]

  pub received-checksum_ok : checksum_ok (received t m xs) ≡ some true
  unfolding checksum_ok
  received-checksum_ok =
      rw (v.known, compute_checksum-received)
        (elim (Bool-cases t.has_checksum) [
          | inl e ↦ rw (e, checked_sum e) (ap some (==_refl (crc32 (header_bytes m.header ++ xs))))
          | inr e ↦ rw e refl
        ])

  same_body_refl : (o : Option (List ℕ)) → same_body o o ≡ true
  same_body_refl none = refl
  same_body_refl (some ys) = rw (==_refl (length ys), bytes_eq_refl ys)

  equal-received : equal m (received t m xs) ≡ some true
  unfolding equal
  equal-received =
      rw
        (
          ==_refl m.header.length,
          ==_refl m.header.type,
          same_body_refl m.body,
          compute_checksum-received,
          total_sum,
        )
        (ap some (==_refl (if t.has_checksum then crc32 (header_bytes m.header ++ xs) else 0)))

-- A message of a type that the table knows, without a common body, whose header counts the bytes
-- behind it, is encoded with SUCCESS into a well-formed buffer with room for `get_encoded_size`
-- bytes, which are its header's size and the length in its header. Decoding from where it began
-- gives a message with the same header and body and stops where the encoder stopped; the checksum
-- of what arrives is right, and it is `==` to the message sent.
pub decode-encode_message :
    (m : Message) (t : MessageTypeInfo) (xs : List ℕ) (b : EncodeBuffer)
    → IsMessage m t xs
    → IsValid b
    → header_size + m.header.length ≤ room b
    → (sent : Message) × (b' : EncodeBuffer) × (encode m b ≡ some (EncodeResult.success, sent, b'))
      × (get_encoded_size m ≡ some (length (message_bytes t m xs)))
      × (written b' ≡ written b ++ message_bytes t m xs)
      × (decode (reopen b' b.offset) ≡ some (received t m xs, reopen b' b'.offset))
      × (checksum_ok (received t m xs) ≡ some true)
      × (equal m (received t m xs) ≡ some true)
decode-encode_message m t xs b v w h = (
  record m { checksum = sum_of t m xs },
  put b (message_bytes t m xs),
  encode_message-put m t xs v b w h,
  get_encoded_size-IsMessage m t xs v ∙ ap some (sym (length-message_bytes m t xs v)),
  written-put b (message_bytes t m xs) w fits,
  decode_message-received m t xs v (reopen (put b (message_bytes t m xs)) b.offset) _
        (reopen-IsSmall b (message_bytes t m xs) w fits) (ahead-put b (message_bytes t m xs) w fits)
      ∙ ap (λ d. some (received t m xs, d)) (advance-reopen b (message_bytes t m xs) w fits),
  received-checksum_ok m t xs v,
  equal-received m t xs v,
)
  where
    fits : length (message_bytes t m xs) ≤ room b
    fits = omega (arith, length-message_bytes m t xs v)
