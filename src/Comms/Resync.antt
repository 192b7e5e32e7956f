-- ===== src/Comms/Resync.antt =====
-- `receive_loop` of include/crisp/comms/bits/BasicNode.tcc with `resync`, which follows a message whose
-- checksum is wrong. The delimiter that `async_read_until` is given ends at its second byte, which is NUL;
-- how many bytes behind the delimiter it has read too, which are lost with its buffer, is an input.
pub mod Laws
pub mod Tests
use robocrisp.Base.{
  ℕ, Bool, zero, suc, List, [], ◌∷◌, drop, Option, none, some, ◌==◌, if◌then◌else◌,
}
use robocrisp.Comms.Message.{Message}
use robocrisp.Comms.Receive.{Received, closed, stopped, unsynchronised, dispatched, receive}

-- `sync_string` in `resync`, up to its NUL.
abbrev pub delimiter : ℕ
delimiter = 4

-- The bytes behind the delimiter; `none` where the stream ends before it.
unfoldable pub read_until : List ℕ → Option (List ℕ)
read_until [] = none
read_until (x ∷ xs) = let rest = read_until xs in if x == delimiter then some xs else rest

abbrev pub drop_from : ℕ → Option (List ℕ) → Option (List ℕ)
drop_from lost none = none
drop_from lost (some xs) = some (drop lost xs)

unfoldable pub resync : (lost : ℕ) → List ℕ → Option (List ℕ)
resync lost stream = drop_from lost (read_until stream)

-- How the loop ends: with the bytes at their end, at an assertion, by an exception of the dispatcher, or
-- with rounds to come.
pub data Ending : Type 0 where
  at_end assertion thrown : Ending
  more : (rest : List ℕ) → Ending

abbrev pub after : Message → List Message × Ending → List Message × Ending
after m (ms, e) = (m ∷ ms, e)

abbrev pub on_synchronised :
    Option (List ℕ) → (List ℕ → List Message × Ending) → List Message × Ending
on_synchronised none loop = ([], at_end)
on_synchronised (some rest) loop = loop rest

-- What follows a round, where `loop` is the rounds to come, and `throws` says for which messages
-- `dispatcher.dispatch` throws.
abbrev pub go_on :
    (Message → Bool)
    → Received
    → ℕ
    → (List ℕ → List ℕ → List Message × Ending)
    → List Message × Ending
go_on throws closed lost loop = ([], at_end)
go_on throws stopped lost loop = ([], assertion)
go_on throws (unsynchronised rest rdbuf) lost loop = on_synchronised (resync lost rest) (loop rdbuf)
go_on throws (dispatched m rest rdbuf) lost loop =
    after m (let next = loop rdbuf rest in if throws m then ([], thrown) else next)

-- The loop, for the bytes that are lost in each round if it synchronises.
unfoldable pub synchronised_loop :
    (Message → Bool) → List ℕ → ℕ → List ℕ → List ℕ → List Message × Ending
synchronised_loop throws [] filler rdbuf stream = ([], more stream)
synchronised_loop throws (lost ∷ rounds) filler rdbuf stream =
    go_on throws (receive filler rdbuf stream) lost (synchronised_loop throws rounds filler)
