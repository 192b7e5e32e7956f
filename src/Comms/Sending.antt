-- ===== src/Comms/Sending.antt =====
-- `send_loop` of include/crisp/comms/bits/BasicNode.tcc over the messages that the outgoing queue gives.
-- What a write to the socket reports is an outcome of each round; a write that fails may have written
-- some of the bytes.
pub mod Laws
pub mod Tests
use robocrisp.Base.{
  ℕ, Bool, true, false, List, [], ◌∷◌, ◌++◌, take, Option, none, some, if◌then◌else◌,
}
use robocrisp.Comms.Buffer.{EncodeBuffer, EncodeResult, new_encode_buffer}
use robocrisp.Comms.Message.{Message, if_some, get_encoded_size, encode}

-- No error, `try_again`, and any other error.
pub data Outcome : Type 0 where
  complete : Outcome
  again failed : (bytes : ℕ) → Outcome

-- `wire` are all bytes that were written, and `sent` the messages that the dispatcher was given behind
-- the write. In the functions below `throws` says for which messages `dispatcher.dispatch` throws, which
-- leaves the loop.
pub record Sender : Type 0 where
  pub queue : List Message
  pub wire : List ℕ
  pub sent : List Message
  pub ended : Bool

-- The write of an encoded message, and what follows it.
unfoldable pub write_out : (Message → Bool) → Outcome → Message → List ℕ → Sender → Sender
write_out throws complete m bytes s = record s {
  wire = s.wire ++ bytes;
  sent = s.sent ++ m ∷ [];
  ended = if throws m then true else s.ended;
}
write_out throws (again k) m bytes s = record s {
  wire = s.wire ++ take k bytes;
  queue = s.queue ++ m ∷ [];
}
write_out throws (failed k) m bytes s = record s { wire = s.wire ++ take k bytes; ended = true }

-- A message that could not be encoded is dropped.
abbrev pub encoded :
    (Message → Bool) → Outcome → EncodeResult × Message × EncodeBuffer → Sender → Sender
encoded throws o (EncodeResult.success, m, b) s = write_out throws o m (take b.offset b.block) s
encoded throws o r s = s

-- A round of the loop with a message of the queue; `none` where an assertion of `encode` fails.
unfoldable pub send : (Message → Bool) → Outcome → Message → Sender → Option Sender
send throws o m s =
    if_some (get_encoded_size m)
      (λ n. if_some (encode m (new_encode_buffer n)) (λ r. some (encoded throws o r s)))

abbrev pub round :
    (Message → Bool)
    → Outcome
    → Sender
    → List Message
    → Bool
    → (Sender → Option Sender)
    → Option Sender
round throws o s [] ended loop = some s
round throws o s (m ∷ ms) true loop = some s
round throws o s (m ∷ ms) false loop = if_some (send throws o m (record s { queue = ms })) loop

-- The loop, for the outcomes of its rounds; where the queue is empty it waits. If the node is stopped or
-- the queue is aborted, there are no more rounds.
unfoldable pub send_loop : (Message → Bool) → List Outcome → Sender → Option Sender
send_loop throws [] s = some s
send_loop throws (o ∷ os) s = round throws o s s.queue s.ended (send_loop throws os)
