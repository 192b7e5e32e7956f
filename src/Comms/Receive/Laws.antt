-- ===== src/Comms/Receive/Laws.antt =====
-- Messages that follow each other on the wire are received one after the other.
use robocrisp.Base.{
  ℕ, ◌+◌, ◌-◌, ◌≤◌, ◌≡◌, refl, sym, ap, ap₂, ◌∙◌, Bool, true, false, not, List, [], ◌∷◌, ◌++◌,
  length, take, drop, replicate, memcpy, length-memcpy, memcpy-memcpy, drop-memcpy,
  length-replicate, length-append, take-append_of, drop-append_of, append_assoc, append-nil, some,
  ltb, ltb_le, map, if◌then◌else◌, Bool-cases, inl, inr, All, arith,
}
use robocrisp.Comms.Message.{
  Header, Message, MessageTypeInfo, blank, header_size, header_bytes, header_of_bytes,
  get_type_info, get_encoded_size,
}
use robocrisp.Comms.Message.Form.{
  IsMessage, tail, checked_has_body, header_of_bytes-header_bytes, length-header_bytes, length-tail,
}
use robocrisp.Comms.Message.Codec.{
  received, message_bytes, sum_of, unchecked, decode_message-received, received-checksum_ok,
}
use robocrisp.Comms.Encoder.{concat_map}
use robocrisp.Comms.Receive.{Received, dispatched, closed, grown, decoded, receive, receive_loop}

-- A message with its type's information and its body.
pub record Packet : Type 0 where
  pub message : Message
  pub info : MessageTypeInfo
  pub body : List ℕ

abbrev pub IsPacket : Packet → Type 0
IsPacket p = IsMessage p.message p.info p.body

abbrev pub packet_bytes : Packet → List ℕ
packet_bytes p = message_bytes p.info p.message p.body

abbrev pub arrived : Packet → Message
arrived p = received p.info p.message p.body

-- The longest buffer that is considered.
abbrev pub most : ℕ
most = 0x100000000

grown_lem :
    (filler : ℕ) (rdbuf : List ℕ) (n : ℕ)
    → length rdbuf ≤ most
    → n ≤ most
    → (n ≤ length (grown filler rdbuf n)) × (length (grown filler rdbuf n) ≤ most)
unfolding grown
grown_lem filler rdbuf n h i =
    let added = length-replicate {A = ℕ} (n - length rdbuf) filler in
    let all = length-append rdbuf (replicate (n - length rdbuf) filler) in ground arith

take_else : (p : Bool) (x y : Received) → p ≡ true → (if not p then x else y) ≡ y
take_else true x y e = refl
take_else false x y e = cc

take_then : (p : Bool) (x y : Received) → p ≡ false → (if not p then x else y) ≡ x
take_then true x y e = cc
take_then false x y e = refl

-- A round on a header and what follows it.
receive_header :
    (filler : ℕ) (rdbuf hdr rest : List ℕ) (h : Header) (t : MessageTypeInfo) (n : ℕ)
    → length hdr ≡ header_size
    → header_of_bytes hdr ≡ h
    → get_encoded_size (record blank { header = h }) ≡ some n
    → get_type_info h.type ≡ some t
    → receive filler rdbuf (hdr ++ rest) ≡ (
        if not t.has_body
        then decoded t (memcpy (grown filler rdbuf n) 0 hdr) rest
        else if ltb (length rest) h.length
        then closed
        else decoded t
            (memcpy (memcpy (grown filler rdbuf n) 0 hdr) header_size (take h.length rest))
            (drop h.length rest))
unfolding receive
receive_header filler rdbuf hdr rest h t n l e g i =
    rw
      (
        ltb_le (length (hdr ++ rest)) header_size (omega (arith, length-append hdr rest)),
        take-append_of header_size hdr rest l,
        drop-append_of header_size hdr rest l,
        e,
        g,
        i,
      )
      refl

module _ (m : Message) (t : MessageTypeInfo) (xs : List ℕ) (v : IsMessage m t xs) where
  -- The size that the loop takes from the header alone.
  size_of_header :
      get_encoded_size (record blank { header = m.header }) ≡ some (header_size + m.header.length)
  unfolding get_encoded_size
  size_of_header = rw v.known (elim (Bool-cases t.has_checksum) [
    | inl e ↦ rw (e, checked_has_body m.header.type t v.known e, v.not_common) refl
    | inr e ↦ rw (e, v.not_common) refl
  ])

  rest_of : List ℕ
  rest_of = tail t.has_body t.has_checksum xs (sum_of t m xs)

  bytes_split : message_bytes t m xs ≡ header_bytes m.header ++ rest_of
  unfolding rest_of
  bytes_split = refl

  length-rest_of : length rest_of ≡ m.header.length
  unfolding rest_of
  length-rest_of =
      omega
        (arith, length-tail t.has_body t.has_checksum xs (sum_of t m xs) v.without_body, v.counted)

  rest_of_nothing : t.has_body ≡ false → rest_of ≡ []
  unfolding rest_of
  rest_of_nothing e = rw (e, unchecked m t xs v e) refl

  decoded-message :
      (rdbuf rest ys : List ℕ)
      → length rdbuf ≤ most
      → rdbuf ≡ message_bytes t m xs ++ ys
      → decoded t rdbuf rest ≡ dispatched (received t m xs) rest rdbuf
  unfolding decoded
  decoded-message rdbuf rest ys small e =
      rw
        (
          decode_message-received m t xs v (record { block = rdbuf; offset = 0 }) ys
              (omega (arith, small)) e,
          received-checksum_ok m t xs v,
        )
        (elim (Bool-cases t.has_checksum) [ inl f ↦ rw f refl | inr f ↦ rw f refl ])

  -- Where there is no body, the header is all.
  only : t.has_body ≡ false → header_bytes m.header ≡ message_bytes t m xs
  only e = sym (
      bytes_split
      ∙ ap (λ l. header_bytes m.header ++ l) (rest_of_nothing e)
      ∙ append-nil (header_bytes m.header))

  pub buffer : ℕ → List ℕ → List ℕ
  buffer filler rdbuf = grown filler rdbuf (header_size + m.header.length)

  copied :
      (g : List ℕ)
      → memcpy (memcpy g 0 (header_bytes m.header)) header_size rest_of
        ≡ memcpy g 0 (message_bytes t m xs)
  copied g =
      ap (λ k. memcpy (memcpy g 0 (header_bytes m.header)) k rest_of)
        (omega (arith, length-header_bytes m.header))
      ∙ memcpy-memcpy g 0 (header_bytes m.header) rest_of
      ∙ ap (memcpy g 0) (sym bytes_split)

  fits :
      (filler : ℕ) (rdbuf : List ℕ)
      → length rdbuf ≤ most
      → 0 + length (message_bytes t m xs) ≤ length (buffer filler rdbuf)
  unfolding buffer
  fits filler rdbuf h = omega (
    arith,
    (grown_lem filler rdbuf (header_size + m.header.length) h (omega (arith, v.length_fits))).0,
    ap length bytes_split,
    length-append (header_bytes m.header) rest_of,
    length-header_bytes m.header,
    length-rest_of,
  )

  pub receive-message :
      (filler : ℕ) (rdbuf ys : List ℕ)
      → length rdbuf ≤ most
      → (receive filler rdbuf (message_bytes t m xs ++ ys)
          ≡ dispatched (received t m xs) ys (memcpy (buffer filler rdbuf) 0 (message_bytes t m xs)))
        × (length (memcpy (buffer filler rdbuf) 0 (message_bytes t m xs)) ≤ most)
  unfolding buffer
  receive-message filler rdbuf ys small = (
    ap (receive filler rdbuf) split
        ∙ receive_header filler rdbuf (header_bytes m.header) (rest_of ++ ys) m.header t
            (header_size + m.header.length) (length-header_bytes m.header)
            (header_of_bytes-header_bytes m.header v.length_fits) size_of_header v.known
        ∙ branches,
    bounded,
  )
    where
      g : List ℕ
      g = grown filler rdbuf (header_size + m.header.length)

      split : message_bytes t m xs ++ ys ≡ header_bytes m.header ++ (rest_of ++ ys)
      split = ap (λ l. l ++ ys) bytes_split ∙ append_assoc (header_bytes m.header) rest_of ys

      bounded : length (memcpy g 0 (message_bytes t m xs)) ≤ most
      bounded = omega (
        arith,
        length-memcpy g 0 (message_bytes t m xs),
        (grown_lem filler rdbuf (header_size + m.header.length) small
            (omega (arith, v.length_fits))).1,
      )

      whole :
          decoded t (memcpy g 0 (message_bytes t m xs)) ys
          ≡ dispatched (received t m xs) ys (memcpy g 0 (message_bytes t m xs))
      whole =
          decoded-message (memcpy g 0 (message_bytes t m xs)) ys
            (drop (0 + length (message_bytes t m xs)) g) bounded
            (drop-memcpy g 0 (message_bytes t m xs) (fits filler rdbuf small))

      branches :
          (if not t.has_body
            then decoded t (memcpy g 0 (header_bytes m.header)) (rest_of ++ ys)
            else if ltb (length (rest_of ++ ys)) m.header.length
            then closed
            else decoded t
                (memcpy
                  (memcpy g 0 (header_bytes m.header))
                  header_size
                  (take m.header.length (rest_of ++ ys)))
                (drop m.header.length (rest_of ++ ys)))
          ≡ dispatched (received t m xs) ys (memcpy g 0 (message_bytes t m xs))
      branches = elim (Bool-cases t.has_body) [
        | inl e ↦
            take_else t.has_body _ _ e
            ∙ ap
                (λ c.
                  if c
                  then closed
                  else decoded t
                      (memcpy (memcpy g 0 (header_bytes m.header)) header_size
                        (take m.header.length (rest_of ++ ys)))
                      (drop m.header.length (rest_of ++ ys)))
                (ltb_le (length (rest_of ++ ys)) m.header.length
                  (omega (arith, length-append rest_of ys, length-rest_of)))
            ∙ ap₂
                (λ body left.
                  decoded t (memcpy (memcpy g 0 (header_bytes m.header)) header_size body) left)
                (take-append_of m.header.length rest_of ys length-rest_of)
                (drop-append_of m.header.length rest_of ys length-rest_of)
            ∙ ap (λ b. decoded t b ys) (copied g)
            ∙ whole
        | inr e ↦
            take_then t.has_body _ _ e
            ∙ ap (λ r. decoded t (memcpy g 0 (header_bytes m.header)) (r ++ ys)) (rest_of_nothing e)
            ∙ ap (λ l. decoded t (memcpy g 0 l) ys) (only e)
            ∙ whole
      ]

-- The messages `ps`, each of a type that the table knows, without a common body, and counted by
-- its header, follow each other on the wire, before the bytes `ys`. Then as many rounds of the
-- loop give the dispatcher these messages, in this order, with the checksums they arrive with, and
-- leave `ys`, whatever is in the read buffer, if it has at most 2^32 bytes, and the dispatch of none of
-- them throws.
pub receive_loop-arrived :
    (throws : Message → Bool) (filler : ℕ) (ps : List Packet) (rdbuf ys : List ℕ)
    → All IsPacket ps
    → All (λ p. throws (arrived p) ≡ false) ps
    → length rdbuf ≤ most
    → receive_loop throws (length ps) filler rdbuf (concat_map packet_bytes ps ++ ys)
      ≡ (map arrived ps, ys)
unfolding receive_loop
receive_loop-arrived throws filler [] rdbuf ys v q h = refl
receive_loop-arrived throws filler (p ∷ ps) rdbuf ys v q h =
    rw
      (
        append_assoc (packet_bytes p) (concat_map packet_bytes ps) ys,
        first.0,
        receive_loop-arrived throws filler ps _ ys v.1 q.1 first.1,
        q.0,
      )
      refl
  where
    first :
        (receive filler rdbuf (packet_bytes p ++ (concat_map packet_bytes ps ++ ys))
          ≡ dispatched
              (arrived p)
              (concat_map packet_bytes ps ++ ys)
              (memcpy (buffer p.message p.info p.body v.0 filler rdbuf) 0 (packet_bytes p)))
        × (length (memcpy (buffer p.message p.info p.body v.0 filler rdbuf) 0 (packet_bytes p))
            ≤ most)
    first =
        receive-message p.message p.info p.body v.0 filler rdbuf (concat_map packet_bytes ps ++ ys)
          h
