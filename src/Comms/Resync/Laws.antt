-- ===== src/Comms/Resync/Laws.antt =====
-- Where `resync` leaves the stream.
use robocrisp.Base.{
  ℕ, Bool, ◌≡◌, refl, false, List, [], ◌∷◌, ◌++◌, length, All, some, ◌==◌, ltb_le, arith,
}
use robocrisp.Comms.Message.{Message, get_encoded_size, get_type_info, header_of_bytes, header_size}
use robocrisp.Comms.Receive.{unsynchronised, stopped, receive}
use robocrisp.Comms.Resync.{delimiter, read_until, resync, assertion, synchronised_loop}

-- The bytes of a SYNC message.
abbrev pub sync_bytes : List ℕ
sync_bytes = 0x04 ∷ 0x00 ∷ 0x02 ∷ 0x53 ∷ 0x59 ∷ 0x4e ∷ 0x43 ∷ []

read_until-append :
    (junk ys : List ℕ)
    → All (λ x. (x == delimiter) ≡ false) junk
    → read_until (junk ++ delimiter ∷ ys) ≡ some ys
unfolding read_until
read_until-append [] ys v = refl
read_until-append (x ∷ junk) ys v = rw v.0 (read_until-append junk ys v.1)

-- What is behind the first byte of a SYNC message has no type that the table knows.
receive_behind :
    (filler : ℕ) (rdbuf ys : List ℕ) → receive filler rdbuf (0x00 ∷ 0x02 ∷ 0x53 ∷ ys) ≡ stopped
unfolding receive get_encoded_size header_of_bytes get_type_info
receive_behind filler rdbuf ys =
    rw (ltb_le (length (0x00 ∷ 0x02 ∷ 0x53 ∷ ys)) header_size (omega arith)) refl

-- The checksum of a message is wrong, and behind it come bytes without 0x04 and then a SYNC message. Where
-- `resync` has read no more than the first byte of it, the loop gives nothing to the dispatcher and ends
-- at an assertion in its next round; where it has read the six bytes behind it too, and no more, the loop goes
-- on with what follows the SYNC message.
pub resync_outcome :
    (throws : Message → Bool) (filler lost : ℕ) (rounds rdbuf buf stream junk ys : List ℕ)
    → receive filler rdbuf stream ≡ unsynchronised (junk ++ (sync_bytes ++ ys)) buf
    → All (λ x. (x == delimiter) ≡ false) junk
    → (synchronised_loop throws (0 ∷ lost ∷ rounds) filler rdbuf stream ≡ ([], assertion))
      × (synchronised_loop throws (6 ∷ rounds) filler rdbuf stream
          ≡ synchronised_loop throws rounds filler buf ys)
unfolding synchronised_loop resync
resync_outcome throws filler lost rounds rdbuf buf stream junk ys h v = (
  rw (h, read_until-append junk _ v, receive_behind filler buf (0x59 ∷ 0x4e ∷ 0x43 ∷ ys)) refl,
  rw (h, read_until-append junk _ v) refl,
)
