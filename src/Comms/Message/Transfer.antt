-- ===== src/Comms/Message/Transfer.antt =====
-- A configuration that one node sends in a message and another receives.
use robocrisp.Base.{
  ℕ, ◌+◌, ◌%◌, ◌≤◌, ◌<◌, ◌≡◌, refl, sym, ap, ◌∙◌, true, List, [], ◌++◌, length, take, take-length,
  none, some, if◌then◌else◌, append-nil, size_mod, arith,
}
use robocrisp.Comms.Buffer.{
  EncodeBuffer, DecodeBuffer, EncodeResult, DecodeResult, new_encode_buffer,
}
use robocrisp.Comms.Buffer.Laws.{
  IsValid, put, written, advance, reopen, room, written-put, new_encode_buffer-IsValid,
  room-new_encode_buffer, written-new_encode_buffer, room-put, put-IsValid,
}
use robocrisp.Comms.Encoder.{Encoder, Emits}
use robocrisp.Comms.Message.{
  MessageTypeInfo, FlowDirection, Message, header_size, header_bytes, get_type_info, checksum_size,
  checksum_ok, encode, decode, of_body, decode_body, configuration_response,
}
use robocrisp.Comms.Message.Form.{IsMessage}
use robocrisp.Comms.Message.Codec.{received, total_sum, decode-encode_message}
use robocrisp.Util.Checksum.{crc32}
use robocrisp.Comms.Configuration
use robocrisp.Comms.Configuration.{Configuration}
use robocrisp.Comms.Configuration.Codec
use robocrisp.Comms.Configuration.Codec.{
  IsConfiguration, restored_configuration, encode_configuration-Emits,
  get_encoded_size-length_configuration, decode_configuration-restored,
  equal-restored_configuration,
}

-- What an encode method that fills a new buffer leaves there.
block-Emits :
    (e : Encoder) (xs : List ℕ)
    → length xs < size_mod
    → Emits e xs
    → (e (new_encode_buffer (length xs))).1.block ≡ xs
block-Emits e xs small emits =
    rw (emits b valid fits)
      (sym (take-length (put b xs).block) ∙ ap (λ n. take n (put b xs).block) full ∙ all)
  where
    b : EncodeBuffer
    b = new_encode_buffer (length xs)

    valid : IsValid b
    valid = new_encode_buffer-IsValid (length xs) small

    fits : length xs ≤ room b
    fits = omega (arith, room-new_encode_buffer (length xs))

    all : written (put b xs) ≡ xs
    all = written-put b xs valid fits ∙ ap (λ ys. ys ++ xs) (written-new_encode_buffer (length xs))

    full : length (put b xs).block ≡ (put b xs).offset
    full =
        let nothing_left = room-put b xs in
        let inside = (put-IsValid b xs valid fits).inside in
        omega (arith, nothing_left, inside, room-new_encode_buffer (length xs))

-- The message made for a body of a type that has one.
pub of_body-IsMessage :
    (type size : ℕ) (t : MessageTypeInfo) (e : Encoder) (xs : List ℕ)
    → get_type_info type ≡ some t
    → t.has_body ≡ true
    → t.body ≡ none
    → size ≡ length xs
    → size + checksum_size t < 65536
    → Emits e xs
    → (m : Message) × (of_body type size e ≡ some m)
      × (m.body ≡ some xs)
      × (m.header.length ≡ size + checksum_size t)
      × (m.header.type ≡ type)
      × IsMessage m t xs
unfolding of_body
of_body-IsMessage type size t e xs known has_body not_common counted fits emits =
    (with_sum sum, made, refl, refl, refl, valid sum)
  where
    with_sum : ℕ → Message
    with_sum n = record {
      header = record { length = size + checksum_size t; type = type };
      body = some xs;
      checksum = n;
    }

    sum : ℕ
    sum = if t.has_checksum then crc32 (header_bytes (with_sum 0).header ++ xs) else 0

    valid : (n : ℕ) → IsMessage (with_sum n) t xs
    valid n = record {
      known = known;
      carried = rw has_body refl;
      not_common = not_common;
      counted = omega (arith, counted);
      without_body = λ h. absurd (cc (has_body, h));
      length_fits = fits;
    }

    filled : (e (new_encode_buffer size)).1.block ≡ xs
    filled =
        ap (λ n. (e (new_encode_buffer n)).1.block) counted ∙ block-Emits e xs (omega arith) emits

    no_wrap : (size + checksum_size t) % 65536 ≡ size + checksum_size t
    no_wrap = omega arith

    made : of_body type size e ≡ some (with_sum sum)
    made = rw (known, filled, no_wrap, total_sum (with_sum 0) t xs (valid 0)) refl

-- What the table says of a configuration response.
abbrev pub response_info : MessageTypeInfo
response_info = record {
  has_body = true;
  has_checksum = true;
  allowed_flow = FlowDirection.to_master;
  body = none;
}

-- A node makes a message of its configuration, whose counters count and whose fields hold what
-- they can hold, encodes it into a well-formed buffer with room for it, and another node decodes
-- the message there. If the configuration takes fewer than 65,532 bytes, all this succeeds, the
-- checksum of what arrives is right, and decoding the body gives a configuration with SUCCESS that
-- is `==` to the one sent.
pub configuration_arrives :
    (fresh : ℕ → List ℕ) (c old : Configuration) (b : EncodeBuffer)
    → IsConfiguration c
    → IsValid b
    → Configuration.get_encoded_size c + 4 < 65536
    → header_size + (Configuration.get_encoded_size c + 4) ≤ room b
    → (m sent arrived : Message) × (b' : EncodeBuffer) × (rest : DecodeBuffer) × (of_body
          configuration_response
          (Configuration.get_encoded_size c)
          (Configuration.encode c)
        ≡ some m)
      × (encode m b ≡ some (EncodeResult.success, sent, b'))
      × (decode (reopen b' b.offset) ≡ some (arrived, reopen b' b'.offset))
      × (checksum_ok arrived ≡ some true)
      × (decode_body arrived (Configuration.decode fresh old)
          ≡ some (DecodeResult.success, restored_configuration c, rest))
      × (Configuration.equal c (restored_configuration c) ≡ true)
unfolding get_type_info
configuration_arrives fresh c old b v w small h =
    let (m, made, carried, counted, typed, valid) =
      of_body-IsMessage configuration_response (Configuration.get_encoded_size c) response_info
        (Configuration.encode c) (Codec.bytes c) refl refl refl size small
        (encode_configuration-Emits c v) in
    let (sent, b', encoded, sized, written, decoded, ok, same) =
      decode-encode_message m response_info (Codec.bytes c) b valid w (omega (arith, counted)) in
    (
      m,
      sent,
      received response_info m (Codec.bytes c),
      b',
      advance (record { block = Codec.bytes c; offset = 0 }) (length (Codec.bytes c)),
      made,
      encoded,
      decoded,
      ok,
      rw carried (
          ap some (
            decode_configuration-restored fresh old c (record { block = Codec.bytes c; offset = 0 })
              [] v (omega (arith, size)) (sym (append-nil (Codec.bytes c))))),
      equal-restored_configuration c v,
    )
  where
    size : Configuration.get_encoded_size c ≡ length (Codec.bytes c)
    size = get_encoded_size-length_configuration c v
