-- ===== src/Comms/Handshake.antt =====
-- include/crisp/comms/Handshake.hh and src/comms/Handshake.cc, and the answer that the handlers of
-- include/crisp/comms/bits/MessageDispatcher.tcc give to a handshake. The structs are packed; a
-- decoded role or acknowledgement may be any byte.
pub mod Laws
use robocrisp.Base.{
  ℕ, ◌+◌, Bool, ◌&&◌, not, List, [], ◌∷◌, ◌++◌, get_or, drop, replicate, ◌==◌, if◌then◌else◌,
}
use robocrisp.Comms.Buffer.{DecodeBuffer, write, read}
use robocrisp.Comms.Encoder.{Encoder}
use robocrisp.Comms.Message.{word_bytes, word_of_bytes}

-- `NodeRole`.
abbrev pub master : ℕ
master = 0

abbrev pub slave : ℕ
slave = 1

-- `PROTOCOL_NAME` and `PROTOCOL_VERSION` of include/crisp/comms/config.h.
abbrev pub protocol_name : ℕ
protocol_name = 0x55575254

abbrev pub protocol_version : ℕ
protocol_version = 0

pub record Handshake : Type 0 where
  pub protocol : ℕ
  pub version : ℕ
  pub role : ℕ

-- `Handshake(version, role)`.
unfoldable pub new_handshake : ℕ → ℕ → Handshake
new_handshake version role = record { protocol = protocol_name; version = version; role = role }

-- `sizeof(Handshake)`.
abbrev pub handshake_size : ℕ
handshake_size = 9

unfoldable pub handshake_bytes : Handshake → List ℕ
handshake_bytes h = word_bytes h.protocol ++ (word_bytes h.version ++ h.role ∷ [])

unfoldable pub handshake_of_bytes : List ℕ → Handshake
handshake_of_bytes bytes = record {
  protocol = word_of_bytes bytes;
  version = word_of_bytes (drop 4 bytes);
  role = get_or bytes 8 0;
}

unfoldable pub encode_handshake : Handshake → Encoder
encode_handshake h b = write b (handshake_bytes h)

-- `Handshake::decode_copy`; the constructor clears the struct, and the result of the read is dropped.
unfoldable pub decode_handshake : DecodeBuffer → Handshake × DecodeBuffer
decode_handshake b =
    let (_, bytes, b') = read b handshake_size (replicate 9 0) in (handshake_of_bytes bytes, b')

unfoldable pub equal_handshake : Handshake → Handshake → Bool
equal_handshake h o = h.protocol == o.protocol && h.version == o.version && h.role == o.role

-- `HandshakeAcknowledge`.
abbrev pub ack : ℕ
ack = 0

abbrev pub nack_unknown_protocol : ℕ
nack_unknown_protocol = 1

abbrev pub nack_role_conflict : ℕ
nack_role_conflict = 2

abbrev pub nack_version_conflict : ℕ
nack_version_conflict = 3

pub record HandshakeResponse : Type 0 where
  pub acknowledge : ℕ
  pub role : ℕ

unfoldable pub encode_response : HandshakeResponse → Encoder
encode_response r b = write b (r.acknowledge ∷ r.role ∷ [])

-- `HandshakeResponse::decode_copy`, over a struct that nothing has filled, `old`.
unfoldable pub decode_response : HandshakeResponse → DecodeBuffer → HandshakeResponse × DecodeBuffer
decode_response old b =
    let (_, bytes, b') = read b 2 (old.acknowledge ∷ old.role ∷ []) in
    (record { acknowledge = get_or bytes 0 0; role = get_or bytes 1 0 }, b')

unfoldable pub equal_response : HandshakeResponse → HandshakeResponse → Bool
equal_response r o = r.acknowledge == o.acknowledge && r.role == o.role

-- The handler `handshake.received`: what a node of the role `role` answers.
unfoldable pub answer : ℕ → Handshake → HandshakeResponse
answer role h = record {
  acknowledge =
      if not (h.protocol == protocol_name)
      then nack_unknown_protocol
      else if h.role == role
      then nack_role_conflict
      else if not (h.version == protocol_version)
      then nack_version_conflict
      else ack;
  role = if h.role == master then slave else master;
}
