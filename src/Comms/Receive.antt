-- ===== src/Comms/Receive.antt =====
-- `receive_loop` of include/crisp/comms/bits/BasicNode.tcc over the bytes that the socket will give;
-- where they end, the read fails. The loop reads into one buffer that it keeps and enlarges.
pub mod Laws
pub mod Tests
use robocrisp.Base.{
  ℕ, zero, suc, ◌+◌, ◌-◌, Bool, true, false, not, List, [], ◌∷◌, ◌++◌, length, take, drop,
  replicate, memcpy, Option, none, some, ltb, if◌then◌else◌,
}
use robocrisp.Comms.Buffer.{DecodeBuffer}
use robocrisp.Comms.Message.{
  Header, Message, MessageTypeInfo, blank, header_size, header_of_bytes, get_type_info,
  get_encoded_size, checksum_ok, decode,
}

-- How a round of the loop ends: with the bytes at their end, at an assertion, behind a message whose
-- checksum is wrong, where `resync` follows, or with a message for the dispatcher, the bytes that are
-- left and the buffer.
pub data Received : Type 0 where
  closed stopped : Received
  unsynchronised : (rest rdbuf : List ℕ) → Received
  dispatched : Message → (rest rdbuf : List ℕ) → Received

abbrev pub or_stop {ℓ} : {A : Type ℓ} → Option A → (A → Received) → Received
or_stop none f = stopped
or_stop (some a) f = f a

-- `rdbuf.resize` where the buffer is too short; `filler` is what `realloc` leaves in the new bytes.
unfoldable pub grown : ℕ → List ℕ → ℕ → List ℕ
grown filler rdbuf n =
    if ltb (length rdbuf) n then rdbuf ++ replicate (n - length rdbuf) filler else rdbuf

-- The message is in the buffer.
unfoldable pub decoded : MessageTypeInfo → List ℕ → List ℕ → Received
decoded t rdbuf rest = or_stop (decode (record { block = rdbuf; offset = 0 })) (λ p.
    if t.has_checksum
    then or_stop (checksum_ok p.0)
        (λ ok. if ok then dispatched p.0 rest rdbuf else unsynchronised rest rdbuf)
    else dispatched p.0 rest rdbuf)

-- A round of the loop.
unfoldable pub receive : ℕ → List ℕ → List ℕ → Received
receive filler rdbuf stream =
    if ltb (length stream) header_size
    then closed
    else (let header = take header_size stream in
        let rest = drop header_size stream in
        let h = header_of_bytes header in
        or_stop (get_encoded_size (record blank { header = h })) (λ n.
          or_stop (get_type_info h.type) (λ t.
            let buf = memcpy (grown filler rdbuf n) 0 header in
            if not t.has_body
            then decoded t buf rest
            else if ltb (length rest) h.length
            then closed
            else decoded t (memcpy buf header_size (take h.length rest)) (drop h.length rest))))

-- What a message adds to the messages before the next rounds, `loop`, and whether its dispatch threw, which
-- leaves the loop.
abbrev pub then_loop :
    (Message → Bool)
    → Received
    → List ℕ
    → (List ℕ → List ℕ → List Message × List ℕ)
    → List Message × List ℕ
then_loop throws (dispatched m rest rdbuf) stream loop =
    let (ms, left) = loop rdbuf rest in if throws m then (m ∷ [], rest) else (m ∷ ms, left)
then_loop throws r stream loop = ([], stream)

-- The messages that at most `n` rounds give to the dispatcher, and the bytes that are left; `throws` says for
-- which messages `dispatcher.dispatch` throws.
unfoldable pub receive_loop : (Message → Bool) → ℕ → ℕ → List ℕ → List ℕ → List Message × List ℕ
receive_loop throws zero filler rdbuf stream = ([], stream)
receive_loop throws (suc n) filler rdbuf stream =
    then_loop throws (receive filler rdbuf stream) stream (receive_loop throws n filler)
