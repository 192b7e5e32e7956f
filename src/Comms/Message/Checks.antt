-- ===== src/Comms/Message/Checks.antt =====
-- What the checksum detects, which bytes `decode` does not take, and messages that carry a
-- configuration.
use robocrisp.Base.{
  ℕ, ◌≡◌, ◌≢◌, refl, sym, ap, ◌∙◌, true, false, List, ◌∷◌, ◌++◌, some, ◌==◌, ==_iff, IsByte,
  Bool-cases, inl, inr, append_assoc,
}
use mathlib.Core.Option.{some-injective}
use robocrisp.Comms.Message.{
  MessageTypeInfo, Message, header_bytes, get_type_info, compute_checksum, checksum_ok,
}
use robocrisp.Util.Checksum.{crc32}
use robocrisp.Util.Checksum.Laws.{crc32_detects_one_byte}

==_differs : (m n : ℕ) → m ≢ n → (m == n) ≡ false
==_differs m n h = elim (Bool-cases (m == n)) [ inl e ↦ absurd (h ((==_iff m n).0 e)) | inr e ↦ e ]

-- A message of a type with a checksum, whose stored checksum is right, fails `checksum_ok` when
-- one byte of its body, at any place, is replaced by another byte.
pub checksum_ok_detects :
    (m : Message) (t : MessageTypeInfo) (xs ys : List ℕ) (x x' : ℕ)
    → get_type_info m.header.type ≡ some t
    → t.has_checksum ≡ true
    → m.body ≡ some (xs ++ x ∷ ys)
    → IsByte x
    → IsByte x'
    → x ≢ x'
    → checksum_ok m ≡ some true
    → checksum_ok (record m { body = some (xs ++ x' ∷ ys) }) ≡ some false
unfolding checksum_ok compute_checksum
checksum_ok_detects m t xs ys x x' known checked carried b b' differs ok =
    rw (known, checked) (ap some (==_differs m.checksum (sum x') wrong))
  where
    sum : ℕ → ℕ
    sum y = crc32 (header_bytes m.header ++ (xs ++ y ∷ ys))

    computed : checksum_ok m ≡ some (m.checksum == sum x)
    computed = rw (known, checked, carried) refl

    right : m.checksum ≡ sum x
    right =
        (==_iff m.checksum (sum x)).0
          (some-injective (m.checksum == sum x) true (sym computed ∙ ok))

    regroup : (y : ℕ) → sum y ≡ crc32 ((header_bytes m.header ++ xs) ++ y ∷ ys)
    regroup y = ap crc32 (sym (append_assoc (header_bytes m.header) xs (y ∷ ys)))

    wrong : m.checksum ≢ sum x'
    wrong e =
        (crc32_detects_one_byte (header_bytes m.header ++ xs) ys x x' b b' differs).1
          (sym (regroup x) ∙ sym right ∙ e ∙ regroup x')
