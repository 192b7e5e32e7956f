-- ===== src/Util/Checksum/Bitwise.antt =====
-- The CRC-32 as it is defined, a bit at a time, and the table of src/util/checksum.cc beside it.
use robocrisp.Base.{
  ℕ, zero, suc, ◌*◌, ◌/◌, ◌%◌, ◌<◌, ◌≡◌, refl, sym, ap, ap₂, ◌∙◌, Bool, true, List, [], ◌∷◌, ◌==◌,
  ==_iff, all_below, below-all_below, bit_xor, Bytes, arith,
}
use robocrisp.Base.Xor.{
  zero-bit_xor, bit_xor-zero, bit_xor_interchange, bit_xor-half, bit_xor_odd, div256, joins256,
}
use Prim.Native.Nat.{differ}
use robocrisp.Util.Checksum.{crc32, crc32_step, crc32_table, update_crc32}
use robocrisp.Util.Checksum.Laws.{entry, crc32_step_lem}

-- The polynomial, with its bits reversed, if the bit that leaves the register is set.
abbrev pub polynomial : ℕ → ℕ
polynomial zero = 0
polynomial (suc n) = 0xedb88320

-- A bit leaves the register.
abbrev pub shift : ℕ → ℕ
shift register = bit_xor (register / 2) (polynomial (register % 2))

abbrev pub shift_times : ℕ → ℕ → ℕ
shift_times zero register = register
shift_times (suc n) register = shift_times n (shift register)

-- The bytes go through the register one after the other.
abbrev pub bitwise : ℕ → List ℕ → ℕ
bitwise register [] = register
bitwise register (x ∷ xs) = bitwise (shift_times 8 (bit_xor register x)) xs

abbrev is_shifted : ℕ → Bool
is_shifted n = entry n == shift_times 8 n

table_is_shifted : all_below 256 is_shifted ≡ true
unfolding crc32_table
table_is_shifted = refl

shift-bit_xor : (a b : ℕ) → shift (bit_xor a b) ≡ bit_xor (shift a) (shift b)
shift-bit_xor a b =
    ap₂ bit_xor (bit_xor-half a b) (
      ap polynomial (bit_xor_odd a b)
      ∙ polynomial-differ (a % 2) (b % 2) (omega arith) (omega arith))
    ∙ bit_xor_interchange (a / 2) (b / 2) (polynomial (a % 2)) (polynomial (b % 2))
  where
    polynomial-differ :
        (p q : ℕ) → p < 2 → q < 2 → polynomial (differ p q) ≡ bit_xor (polynomial p) (polynomial q)
    polynomial-differ zero q h i = sym (zero-bit_xor (polynomial q))
    polynomial-differ (suc zero) zero h i = refl
    polynomial-differ (suc zero) (suc zero) h i = refl
    polynomial-differ (suc zero) (suc (suc q)) h i = absurd (omega arith)
    polynomial-differ (suc (suc p)) q h i = absurd (omega arith)

shift_times-bit_xor :
    (n a b : ℕ) → shift_times n (bit_xor a b) ≡ bit_xor (shift_times n a) (shift_times n b)
shift_times-bit_xor zero a b = refl
shift_times-bit_xor (suc n) a b =
    ap (shift_times n) (shift-bit_xor a b) ∙ shift_times-bit_xor n (shift a) (shift b)

-- Where the lowest bit is 0, a shift only halves.
shift_even : (a : ℕ) → shift (a * 2) ≡ a
shift_even a =
    let half : a * 2 / 2 ≡ a = omega arith in
    let even : a * 2 % 2 ≡ 0 = omega arith in
    ap₂ (λ h l. bit_xor h (polynomial l)) half even ∙ bit_xor-zero a

shift_times_high : (a : ℕ) → shift_times 8 (a * 256) ≡ a
shift_times_high a =
    ap (shift_times 7) (even 128)
    ∙ ap (shift_times 6) (even 64)
    ∙ ap (shift_times 5) (even 32)
    ∙ ap (shift_times 4) (even 16)
    ∙ ap (shift_times 3) (even 8)
    ∙ ap (shift_times 2) (even 4)
    ∙ ap (shift_times 1) (even 2)
    ∙ even 1
    ∙ omega arith
  where
    even : (k : ℕ) → shift (a * (k * 2)) ≡ a * k
    even k =
        let regroup : a * (k * 2) ≡ a * k * 2 = omega arith in ap shift regroup ∙ shift_even (a * k)

-- One round with the table is eight shifts.
step-shift_times :
    (crc byte : ℕ) → byte < 256 → crc32_step crc byte ≡ shift_times 8 (bit_xor crc byte)
step-shift_times crc byte h =
    crc32_step_lem crc byte
    ∙ ap₂ bit_xor low
        (sym (shift_times_high (crc / 256)) ∙ ap (λ r. shift_times 8 (r * 256)) (sym high))
    ∙ sym (shift_times-bit_xor 8 (x % 256) (x / 256 * 256))
    ∙ ap (shift_times 8) (joins256 x)
  where
    x : ℕ
    x = bit_xor crc byte

    low : entry (x % 256) ≡ shift_times 8 (x % 256)
    low = (==_iff _ _).0 (below-all_below 256 is_shifted table_is_shifted (x % 256) (omega arith))

    high : x / 256 ≡ crc / 256
    high =
        let none : byte / 256 ≡ 0 = omega arith in
        div256 crc byte ∙ ap (bit_xor (crc / 256)) none ∙ bit_xor-zero (crc / 256)

update-bitwise : (crc : ℕ) (xs : List ℕ) → Bytes xs → update_crc32 crc xs ≡ bitwise crc xs
unfolding update_crc32
update-bitwise crc [] h = refl
update-bitwise crc (x ∷ xs) h =
    ap (λ r. update_crc32 r xs) (step-shift_times crc x h.0)
    ∙ update-bitwise (shift_times 8 (bit_xor crc x)) xs h.1

-- The checksum of a block of bytes is the CRC-32 of the definition: the register begins with all ones,
-- takes each byte by eight shifts with the reversed polynomial 0xEDB88320, and is inverted at the end.
pub crc32-bitwise : (xs : List ℕ) → Bytes xs → crc32 xs ≡ bit_xor (bitwise 0xffffffff xs) 0xffffffff
unfolding crc32
crc32-bitwise xs h = ap (λ r. bit_xor r 0xffffffff) (update-bitwise 0xffffffff xs h)
