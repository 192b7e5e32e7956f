-- ===== src/Util/Checksum/Laws.antt =====
-- What the table of src/util/checksum.cc holds, and what a round of the loop keeps apart.
use robocrisp.Base.{
  ℕ, suc, ◌/◌, ◌%◌, ◌<◌, ◌≡◌, ◌≢◌, refl, sym, ap, ◌∙◌, Bool, List, [], ◌∷◌, ◌++◌, get_or, ◌==◌,
  ==_iff, ltb, ltb→lt, all_below, below-all_below, bit_xor, IsByte, arith, true, if◌then◌else◌,
}
use robocrisp.Base.Xor.{
  bit_xor_right, bit_xor_left, bit_xor_word, bit_xor-zero, bit_and-byte, mod256, div16777216,
}
use robocrisp.Util.Checksum.{crc32, crc32_step, crc32_table, update_crc32}

abbrev pub word : ℕ
word = 0x100000000

abbrev pub entry : ℕ → ℕ
entry n = get_or crc32_table n 0

-- The place of the first entry with the given highest byte.
place : List ℕ → ℕ → ℕ
place [] high = 0
place (e ∷ es) high = if e / 0x1000000 == high then 0 else suc (place es high)

abbrev is_word : ℕ → Bool
is_word n = ltb (entry n) word

abbrev is_placed : ℕ → Bool
is_placed n = place crc32_table (entry n / 0x1000000) == n

entries_are_words : all_below 256 is_word ≡ true
unfolding crc32_table
entries_are_words = refl

high_bytes_differ : all_below 256 is_placed ≡ true
unfolding crc32_table place
high_bytes_differ = refl

entry_is_word : (n : ℕ) → n < 256 → entry n < word
entry_is_word n h = ltb→lt _ _ (below-all_below 256 is_word entries_are_words n h)

-- An entry is known by its highest byte.
pub entry_injective :
    (m n : ℕ) → m < 256 → n < 256 → entry m / 0x1000000 ≡ entry n / 0x1000000 → m ≡ n
entry_injective m n h i e =
    sym ((==_iff _ m).0 (below-all_below 256 is_placed high_bytes_differ m h))
    ∙ ap (place crc32_table) e
    ∙ (==_iff _ n).0 (below-all_below 256 is_placed high_bytes_differ n i)

pub crc32_step_lem :
    (crc byte : ℕ) → crc32_step crc byte ≡ bit_xor (entry (bit_xor crc byte % 256)) (crc / 256)
unfolding crc32_step
crc32_step_lem crc byte = rw (bit_and-byte (bit_xor crc byte)) refl

pub crc32_step_is_word : (crc byte : ℕ) → crc < word → crc32_step crc byte < word
crc32_step_is_word crc byte h = rw (crc32_step_lem crc byte) (
    bit_xor_word (entry (bit_xor crc byte % 256)) (crc / 256) (entry_is_word _ (omega arith))
      (omega arith))

-- The highest byte of the register after a round is that of the entry.
step_high :
    (crc byte : ℕ)
    → crc < word
    → crc32_step crc byte / 0x1000000 ≡ entry (bit_xor crc byte % 256) / 0x1000000
step_high crc byte h =
    let gone : crc / 256 / 0x1000000 ≡ 0 = omega arith in
    ap (λ x. x / 0x1000000) (crc32_step_lem crc byte)
    ∙ div16777216 (entry (bit_xor crc byte % 256)) (crc / 256)
    ∙ ap (bit_xor (entry (bit_xor crc byte % 256) / 0x1000000)) gone
    ∙ bit_xor-zero _

-- A round gives the same register only from the same index into the table and the same rest.
step_index :
    (c c' x x' : ℕ)
    → c < word
    → c' < word
    → crc32_step c x ≡ crc32_step c' x'
    → (bit_xor c x % 256 ≡ bit_xor c' x' % 256) × (c / 256 ≡ c' / 256)
step_index c c' x x' h h' e = (index, bit_xor_left _ _ (entry (bit_xor c' x' % 256)) rest)
  where
    index : bit_xor c x % 256 ≡ bit_xor c' x' % 256
    index =
        entry_injective _ _ (omega arith) (omega arith)
          (sym (step_high c x h) ∙ ap (λ r. r / 0x1000000) e ∙ step_high c' x' h')

    rest :
        bit_xor (entry (bit_xor c' x' % 256)) (c / 256)
        ≡ bit_xor (entry (bit_xor c' x' % 256)) (c' / 256)
    rest =
        ap (λ n. bit_xor (entry n) (c / 256)) (sym index)
        ∙ sym (crc32_step_lem c x)
        ∙ e
        ∙ crc32_step_lem c' x'

pub step_register : (c c' x : ℕ) → c < word → c' < word → crc32_step c x ≡ crc32_step c' x → c ≡ c'
step_register c c' x h h' e = omega (arith, same.1, low)
  where
    same : (bit_xor c x % 256 ≡ bit_xor c' x % 256) × (c / 256 ≡ c' / 256)
    same = step_index c c' x x h h' e

    low : c % 256 ≡ c' % 256
    low = bit_xor_right _ _ (x % 256) (sym (mod256 c x) ∙ same.0 ∙ mod256 c' x)

pub step_byte :
    (c x x' : ℕ) → c < word → x < 256 → x' < 256 → crc32_step c x ≡ crc32_step c x' → x ≡ x'
step_byte c x x' h b b' e = omega (arith, low)
  where
    same : (bit_xor c x % 256 ≡ bit_xor c x' % 256) × (c / 256 ≡ c / 256)
    same = step_index c c x x' h h e

    low : x % 256 ≡ x' % 256
    low = bit_xor_left _ _ (c % 256) (sym (mod256 c x) ∙ same.0 ∙ mod256 c x')

pub update_is_word : (crc : ℕ) (xs : List ℕ) → crc < word → update_crc32 crc xs < word
unfolding update_crc32
update_is_word crc [] h = h
update_is_word crc (x ∷ xs) h = update_is_word (crc32_step crc x) xs (crc32_step_is_word crc x h)

pub crc32_is_word : (xs : List ℕ) → crc32 xs < word
unfolding crc32
crc32_is_word xs = bit_xor_word _ _ (update_is_word 0xffffffff xs (omega arith)) (omega arith)

update_injective :
    (c c' : ℕ) (xs : List ℕ)
    → c < word
    → c' < word
    → update_crc32 c xs ≡ update_crc32 c' xs
    → c ≡ c'
unfolding update_crc32
update_injective c c' [] h h' e = e
update_injective c c' (x ∷ xs) h h' e = step_register c c' x h h' (
    update_injective (crc32_step c x) (crc32_step c' x) xs (crc32_step_is_word c x h)
      (crc32_step_is_word c' x h') e)

update-append :
    (c : ℕ) (xs ys : List ℕ) → update_crc32 c (xs ++ ys) ≡ update_crc32 (update_crc32 c xs) ys
unfolding update_crc32
update-append c [] ys = refl
update-append c (x ∷ xs) ys = update-append (crc32_step c x) xs ys

-- The checksum is a word of 32 bits, and it detects every change of a single byte: of two blocks that
-- differ in one byte the checksums differ, wherever the byte stands.
pub crc32_detects_one_byte :
    (xs ys : List ℕ) (x x' : ℕ)
    → IsByte x
    → IsByte x'
    → x ≢ x'
    → (crc32 (xs ++ x ∷ ys) < word) × (crc32 (xs ++ x ∷ ys) ≢ crc32 (xs ++ x' ∷ ys))
unfolding crc32
crc32_detects_one_byte xs ys x x' b b' differs = (
  crc32_is_word (xs ++ x ∷ ys),
  λ e. differs (step_byte before x x' before_is_word b b' (after (bit_xor_right _ _ 0xffffffff e))),
)
  where
    before : ℕ
    before = update_crc32 0xffffffff xs

    before_is_word : before < word
    before_is_word = update_is_word 0xffffffff xs (omega arith)

    after :
        update_crc32 0xffffffff (xs ++ x ∷ ys) ≡ update_crc32 0xffffffff (xs ++ x' ∷ ys)
        → crc32_step before x ≡ crc32_step before x'
    after e =
        update_injective (crc32_step before x) (crc32_step before x') ys
          (crc32_step_is_word before x before_is_word) (crc32_step_is_word before x' before_is_word)
          (sym (update-append 0xffffffff xs (x ∷ ys)) ∙ e ∙ update-append 0xffffffff xs (x' ∷ ys))
