-- ===== src/Comms/Message.antt =====
-- include/crisp/comms/Message.hh and src/comms/Message.cc: what goes over the wire. The header is
-- packed and little-endian; MESSAGE_USE_SEQUENCE_ID is not defined (include/crisp/comms/config.h).
-- Where the code stops at an assertion or reads through a null pointer, the result is `none`.
pub mod Form
pub mod Codec
pub mod Checks
pub mod Transfer
pub mod Tests
use robocrisp.Base.{
  ℕ, ◌+◌, ◌-◌, ◌*◌, ◌/◌, ◌%◌, Bool, true, false, ◌&&◌, not, List, [], ◌∷◌, ◌++◌, length, get_elem?,
  get_or, replicate, Option, none, some, bytes_eq, ltb, ◌==◌, if◌then◌else◌,
}
use robocrisp.Comms.Buffer.{
  EncodeBuffer, DecodeBuffer, EncodeResult, DecodeResult, new_encode_buffer, write, read,
}
use robocrisp.Comms.Encoder.{Encoder, ◌⨾◌, done, when}
use robocrisp.Util.Checksum.{crc32}

-- The values of `MessageType`. A decoded header may hold any byte.
abbrev pub handshake : ℕ
handshake = 0

abbrev pub handshake_response : ℕ
handshake_response = 1

abbrev pub sync : ℕ
sync = 2

abbrev pub error : ℕ
error = 3

abbrev pub configuration_query : ℕ
configuration_query = 4

abbrev pub configuration_response : ℕ
configuration_response = 5

abbrev pub sensor_data : ℕ
sensor_data = 6

abbrev pub module_control : ℕ
module_control = 7

pub data FlowDirection : Type 0 where
  to_master to_slave any : FlowDirection

-- `body` is the body that all messages of the type have, if the type says so.
pub record MessageTypeInfo : Type 0 where
  pub has_body : Bool
  pub has_checksum : Bool
  pub allowed_flow : FlowDirection
  pub body : Option (List ℕ)

abbrev info : Bool → Bool → FlowDirection → Option (List ℕ) → MessageTypeInfo
info has_body has_checksum flow body = record {
  has_body = has_body;
  has_checksum = has_checksum;
  allowed_flow = flow;
  body = body;
}

-- In the order of `MessageType`; the body of SYNC is its four letters.
abbrev pub message_type_info : List MessageTypeInfo
message_type_info =
    info true false FlowDirection.any none
    ∷ info true false FlowDirection.any none
    ∷ info true false FlowDirection.any (some (83 ∷ 89 ∷ 78 ∷ 67 ∷ []))
    ∷ info true true FlowDirection.any none
    ∷ info false false FlowDirection.to_slave none
    ∷ info true true FlowDirection.to_master none
    ∷ info true true FlowDirection.to_master none
    ∷ info true true FlowDirection.to_slave none
    ∷ []

unfoldable pub get_type_info : ℕ → Option MessageTypeInfo
get_type_info type = get_elem? message_type_info type

-- `Message::Header`.
pub record Header : Type 0 where
  pub length : ℕ
  pub type : ℕ

pub record Message : Type 0 where
  pub header : Header
  pub body : Option (List ℕ)
  pub checksum : ℕ

-- `Message()`.
abbrev pub blank : Message
blank = record { header = record { length = 0; type = handshake }; body = none; checksum = 0 }

-- `sizeof(Header)`.
abbrev pub header_size : ℕ
header_size = 3

unfoldable pub header_bytes : Header → List ℕ
header_bytes h = (h.length % 256) ∷ (h.length / 256) ∷ h.type ∷ []

unfoldable pub header_of_bytes : List ℕ → Header
header_of_bytes bytes = record {
  length = get_or bytes 0 0 + 256 * get_or bytes 1 0;
  type = get_or bytes 2 0;
}

-- The four bytes of a `uint32_t`.
unfoldable pub word_bytes : ℕ → List ℕ
word_bytes n = (n % 256) ∷ (n / 256 % 256) ∷ (n / 65536 % 256) ∷ (n / 16777216) ∷ []

unfoldable pub word_of_bytes : List ℕ → ℕ
word_of_bytes bytes =
    get_or bytes 0 0
    + 256 * get_or bytes 1 0
    + 65536 * get_or bytes 2 0
    + 16777216 * get_or bytes 3 0

-- What follows if there is a value.
abbrev pub if_some {ℓ κ} : {A : Type ℓ} {B : Type κ} → Option A → (A → Option B) → Option B
if_some none f = none
if_some (some a) f = f a

-- `MESSAGE_CHECKSUM_SIZE`, where the type has a checksum.
abbrev pub checksum_size : MessageTypeInfo → ℕ
checksum_size t = if t.has_checksum then 4 else 0

-- The size of the body, `body ? body->length : strlen(info.body)`.
abbrev pub body_size : MessageTypeInfo → Message → Option ℕ
body_size t m = if_some (if_none m.body t.body) (λ xs. some (length xs))
  where
    if_none : Option (List ℕ) → Option (List ℕ) → Option (List ℕ)
    if_none none o = o
    if_none (some xs) o = some xs

abbrev is_some {ℓ} : {A : Type ℓ} → Option A → Bool
is_some none = false
is_some (some a) = true

-- `get_encoded_size`.
unfoldable pub get_encoded_size : Message → Option ℕ
get_encoded_size m = if_some (get_type_info m.header.type) (λ t.
    if t.has_checksum && not t.has_body
    then none
    else if not (is_some t.body) && not (is_some m.body)
    then some (header_size + m.header.length)
    else if t.has_body
    then if_some (body_size t m) (λ n. some (header_size + n + checksum_size t))
    else some (header_size + checksum_size t))

-- `compute_checksum`. No type has both a checksum and a body of its own.
unfoldable pub compute_checksum : Message → Option ℕ
compute_checksum m = if_some (get_type_info m.header.type) (λ t.
    if t.has_checksum
    then if_some m.body (λ xs. some (crc32 (header_bytes m.header ++ xs)))
    else some 0)

unfoldable pub checksum_ok : Message → Option Bool
checksum_ok m = if_some (get_type_info m.header.type) (λ t.
    if t.has_checksum
    then if_some (compute_checksum m) (λ n. some (m.checksum == n))
    else some true)

-- The body that `encode` writes, with the assertions that the message has one or the type has.
abbrev pub body_to_write : MessageTypeInfo → Option (List ℕ) → Option (List ℕ)
body_to_write t (some xs) = if is_some t.body then none else some xs
body_to_write t none = t.body

-- The writes of `encode`; no result is looked at.
abbrev pub writes : MessageTypeInfo → Header → List ℕ → ℕ → Encoder
writes t h xs sum =
    (λ b. write b (header_bytes h))
    ⨾ when t.has_body (λ b. write b xs)
    ⨾ when t.has_checksum (λ b. write b (word_bytes sum))
    ⨾ done

-- `encode` into a memory buffer, which sets the checksum of the message.
unfoldable pub encode : Message → EncodeBuffer → Option (EncodeResult × Message × EncodeBuffer)
encode m b = if_some (get_type_info m.header.type) (λ t.
    if_some (if t.has_body then body_to_write t m.body else some []) (λ xs.
      if_some (if t.has_checksum then compute_checksum m else some m.checksum) (λ sum.
        let (r, b') = writes t m.header xs sum b in some (r, record m { checksum = sum }, b'))))

-- `encode(buf, type)`, for the types whose messages all have the same body or none.
unfoldable pub encode_type : ℕ → EncodeBuffer → Option (EncodeResult × EncodeBuffer)
encode_type type b = if_some (get_type_info type) (λ t.
    if t.has_checksum
    then none
    else if_some (if t.has_body then t.body else some [])
        (λ xs. some (writes t (record { length = length xs; type = type }) xs 0 b)))

-- `Message(type)`.
unfoldable pub of_type : ℕ → Option Message
of_type type =
    let m = record blank { header = record { length = 0; type = type } } in
    if_some (get_encoded_size m)
      (λ n. some (record m { header = record { length = (n - header_size) % 65536; type = type } }))

-- `Message(body)`, for the message type of the body, its size and its `encode`.
unfoldable pub of_body : ℕ → ℕ → Encoder → Option Message
of_body type size encode_body = if_some (get_type_info type) (λ t.
    let m : Message = record {
      header = record { length = (size + checksum_size t) % 65536; type = type };
      body = some (encode_body (new_encode_buffer size)).1.block;
      checksum = 0;
    } in
    if_some (compute_checksum m) (λ sum. some (record m { checksum = sum })))

-- `as`, for the `decode_copy` of the type; where there is no body it throws.
abbrev pub decode_body {ℓ} : {A : Type ℓ} → Message → (DecodeBuffer → A) → Option A
decode_body m decode_copy =
    if_some m.body (λ xs. some (decode_copy (record { block = xs; offset = 0 })))

-- The reads of `decode` behind the header; no result is looked at. The body is a new `Buffer`, whose
-- bytes are zero.
abbrev pub reads : MessageTypeInfo → Header → DecodeBuffer → Message × DecodeBuffer
reads t h b =
    let n = h.length - checksum_size t in
    let (body, b') : Option (List ℕ) × DecodeBuffer =
      if t.has_body
      then (let (_, xs, b') = read b n (replicate n 0) in (some xs, b'))
      else (none, b) in
    let (sum, b'') : ℕ × DecodeBuffer =
      if t.has_checksum
      then (let (_, xs, b'') = read b' 4 (word_bytes 0) in (word_of_bytes xs, b''))
      else (0, b') in
    (record { header = h; body = body; checksum = sum }, b'')

-- `decode`. A length that is less than the size of the checksum asks `malloc` for nearly 2^64 bytes,
-- and the assertion behind it fails.
unfoldable pub decode : DecodeBuffer → Option (Message × DecodeBuffer)
decode b =
    let (_, bytes, b') = read b header_size (header_bytes blank.header) in
    let h = header_of_bytes bytes in
    if_some (get_type_info h.type)
      (λ t. if ltb h.length (checksum_size t) then none else some (reads t h b'))

-- The same bytes, or no body in either.
abbrev pub same_body : Option (List ℕ) → Option (List ℕ) → Bool
same_body none none = true
same_body (some xs) (some ys) = length xs == length ys && bytes_eq xs ys
same_body o p = false

-- `operator ==`.
unfoldable pub equal : Message → Message → Option Bool
equal m o =
    if m.header.length == o.header.length
      && m.header.type == o.header.type
      && same_body m.body o.body
    then if_some (compute_checksum m) (λ s. if_some (compute_checksum o) (λ t. some (s == t)))
    else some false
