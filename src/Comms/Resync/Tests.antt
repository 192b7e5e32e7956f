-- ===== src/Comms/Resync/Tests.antt =====
-- A module-control message with a wrong checksum, then a byte, and a SYNC message behind it.
use robocrisp.Base.{ℕ, ◌≡◌, refl, false, List, [], ◌∷◌, ◌++◌, memcpy}
use robocrisp.Util.Checksum.{crc32}
use robocrisp.Comms.Buffer.{read}
use robocrisp.Comms.Message.{
  get_encoded_size, get_type_info, header_bytes, header_of_bytes, word_of_bytes, compute_checksum,
  checksum_ok, decode,
}
use robocrisp.Comms.Receive.{unsynchronised, receive, grown, decoded}
use robocrisp.Comms.Resync.{assertion, synchronised_loop}
use robocrisp.Comms.Resync.Laws.{sync_bytes, resync_outcome}

abbrev damaged : List ℕ
damaged = 7 ∷ 0 ∷ 7 ∷ 1 ∷ 2 ∷ 3 ∷ 0 ∷ 0 ∷ 0 ∷ 0 ∷ []

receive-damaged :
    receive 0 [] (damaged ++ (9 ∷ [] ++ (sync_bytes ++ [])))
    ≡ unsynchronised (9 ∷ [] ++ (sync_bytes ++ [])) damaged
unfolding receive get_encoded_size get_type_info header_of_bytes header_bytes word_of_bytes
    compute_checksum checksum_ok decode grown decoded memcpy read crc32
receive-damaged = refl

resync_outcome_example :
    (synchronised_loop (λ m. false) (0 ∷ 0 ∷ []) 0 [] (damaged ++ (9 ∷ [] ++ (sync_bytes ++ [])))
      ≡ ([], assertion))
    × (synchronised_loop (λ m. false) (6 ∷ []) 0 [] (damaged ++ (9 ∷ [] ++ (sync_bytes ++ [])))
        ≡ synchronised_loop (λ m. false) [] 0 damaged [])
resync_outcome_example =
    resync_outcome (λ m. false) 0 0 [] [] damaged (damaged ++ (9 ∷ [] ++ (sync_bytes ++ [])))
      (9 ∷ []) [] receive-damaged (refl, tt)
