-- ===== src/Comms/Handshake/Laws.antt =====
-- The codec of the handshake messages, and when a handshake is accepted.
use robocrisp.Base.{
  ℕ, ◌+◌, ◌≤◌, ◌<◌, ◌≡◌, ◌≢◌, ◌↔◌, refl, ap₂, Bool, true, false, not, length, replicate, ◌==◌,
  ==_refl, ==_iff, if◌then◌else◌, Bool-cases, inl, inr, arith,
}
use robocrisp.Comms.Buffer.{EncodeBuffer, EncodeResult}
use robocrisp.Comms.Buffer.Laws.{
  IsValid, room, put, reopen, read-ahead, ahead-put, reopen-IsSmall, write-put,
}
use robocrisp.Comms.Message.{word_bytes, word_of_bytes}
use robocrisp.Comms.Handshake.{
  Handshake, handshake_bytes, handshake_of_bytes, encode_handshake, decode_handshake,
  equal_handshake, answer, protocol_name, protocol_version, ack,
}
use robocrisp.Util.Checksum.Laws.{word}

-- The fields hold what they can hold.
pub record IsHandshake (h : Handshake) : Type 0 where
  pub protocol_fits : h.protocol < word
  pub version_fits : h.version < word

handshake_of_bytes-handshake_bytes :
    (h : Handshake) → IsHandshake h → handshake_of_bytes (handshake_bytes h) ≡ h
unfolding handshake_of_bytes handshake_bytes word_bytes word_of_bytes
handshake_of_bytes-handshake_bytes h v =
    ap₂ (λ p n. record h { protocol = p; version = n }) (omega (arith, v.protocol_fits))
      (omega (arith, v.version_fits))

length-handshake_bytes : (h : Handshake) → length (handshake_bytes h) ≡ 9
unfolding handshake_bytes word_bytes
length-handshake_bytes h = refl

-- A handshake with numbers of 32 bits that is encoded into a well-formed buffer with room for its
-- nine bytes is written with SUCCESS, and decoding from where it began gives it back, `==` to
-- itself.
pub decode-encode_handshake :
    (h : Handshake) (b : EncodeBuffer)
    → IsHandshake h
    → IsValid b
    → 9 ≤ room b
    → let (r, b') = encode_handshake h b in
      (r ≡ EncodeResult.success)
      × ((decode_handshake (reopen b' b.offset)).0 ≡ h)
      × (equal_handshake h (decode_handshake (reopen b' b.offset)).0 ≡ true)
unfolding encode_handshake decode_handshake equal_handshake
decode-encode_handshake h b v w fits =
    rw
      (
        write-put b (handshake_bytes h) w room_for,
        read-ahead (reopen (put b (handshake_bytes h)) b.offset) 9 (handshake_bytes h) _
            (replicate 9 0) (length-handshake_bytes h)
            (reopen-IsSmall b (handshake_bytes h) w room_for)
            (ahead-put b (handshake_bytes h) w room_for),
        handshake_of_bytes-handshake_bytes h v,
        ==_refl h.protocol,
        ==_refl h.version,
        ==_refl h.role,
      )
      (refl, refl, refl)
  where
    room_for : length (handshake_bytes h) ≤ room b
    room_for = omega (arith, length-handshake_bytes h)

==_differs : (m n : ℕ) → m ≢ n → (m == n) ≡ false
==_differs m n h = elim (Bool-cases (m == n)) [ inl e ↦ absurd (h ((==_iff m n).0 e)) | inr e ↦ e ]

accepts_iff :
    (named same agreed : Bool)
    → ((if not named then 1 else if same then 2 else if not agreed then 3 else 0) ≡ ack)
      ↔ ((named ≡ true) × (same ≡ false) × (agreed ≡ true))
accepts_iff false same agreed = (λ e. absurd (omega arith), λ t. cc (t.0))
accepts_iff true true agreed = (λ e. absurd (omega arith), λ t. cc (t.1))
accepts_iff true false false = (λ e. absurd (omega arith), λ t. cc (t.2))
accepts_iff true false true = (λ e. (refl, refl, refl), λ t. refl)

-- A node accepts a handshake exactly if it names the protocol, asks for another role than the node's
-- and has the node's version; and to a handshake for one of the two roles it answers with the other.
pub answer_lem :
    (role : ℕ) (h : Handshake)
    → h.role < 2
    → (((answer role h).acknowledge ≡ ack)
        ↔ ((h.protocol ≡ protocol_name) × (h.role ≢ role) × (h.version ≡ protocol_version)))
      × ((answer role h).role + h.role ≡ 1)
unfolding answer
answer_lem role h v = ((accepted, accepts), ground arith)
  where
    tests :
        ((if not (h.protocol == protocol_name)
            then 1
            else if h.role == role
            then 2
            else if not (h.version == protocol_version)
            then 3
            else 0)
          ≡ ack)
        ↔ (((h.protocol == protocol_name) ≡ true)
            × ((h.role == role) ≡ false)
            × ((h.version == protocol_version) ≡ true))
    tests =
        accepts_iff (h.protocol == protocol_name) (h.role == role) (h.version == protocol_version)

    accepted :
        (answer role h).acknowledge ≡ ack
        → (h.protocol ≡ protocol_name) × (h.role ≢ role) × (h.version ≡ protocol_version)
    accepted e =
        let (named, other, agreed) = tests.0 e in
        (
          (==_iff h.protocol protocol_name).0 named,
          λ same. cc ((==_iff h.role role).1 same, other),
          (==_iff h.version protocol_version).0 agreed,
        )

    accepts :
        (h.protocol ≡ protocol_name) × (h.role ≢ role) × (h.version ≡ protocol_version)
        → (answer role h).acknowledge ≡ ack
    accepts (named, other, agreed) = tests.1 (
      (==_iff h.protocol protocol_name).1 named,
      ==_differs h.role role other,
      (==_iff h.version protocol_version).1 agreed,
    )
