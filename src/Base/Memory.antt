-- ===== src/Base/Memory.antt =====
-- Blocks of memory as lists of bytes, and `size_t`.
use Prim.Native.Nat.{ℕ, zero, suc, ◌+◌, ◌-◌, ◌%◌, ◌^◌, ◌≤◌, ◌<◌}
use mathlib.Core.Path.{◌≡◌, refl, sym, ap, ◌∙◌}
use mathlib.Core.List.{List, [], ◌∷◌, ◌++◌, append-nil, append_assoc}
use native.Mathlib.Omega.{arith}
use mathlib.Core.Bool.{Bool, true, false, ◌&&◌}
use robocrisp.Base.Tests.{◌==◌, ==_refl}
use robocrisp.Base.Lists.{
  length, set, take, drop, All, length-set, length-take, length-drop, take-append, take-nil,
  take-length,
}

-- A byte is a number below 256.
abbrev pub IsByte : ℕ → Type 0
IsByte b = b < 256

abbrev pub Bytes : List ℕ → Type 0
Bytes = All IsByte

abbrev pub size_mod : ℕ
size_mod = 2 ^ 64

-- `size_t` subtraction wraps.
abbrev pub sub_size : ℕ → ℕ → ℕ
sub_size a b = (a + size_mod - b) % size_mod

-- `memcpy(block + at, source, length source)`; a byte outside of the block is not written.
unfoldable pub memcpy : List ℕ → ℕ → List ℕ → List ℕ
memcpy block at [] = block
memcpy block at (s ∷ source) = memcpy (set block at s) (suc at) source

pub memcpy-nil : (block : List ℕ) (at : ℕ) → memcpy block at [] ≡ block
unfolding memcpy
memcpy-nil block at = refl

pub length-memcpy :
    (block : List ℕ) (at : ℕ) (source : List ℕ) → length (memcpy block at source) ≡ length block
unfolding memcpy
length-memcpy block at [] = refl
length-memcpy block at (s ∷ source) =
    length-memcpy (set block at s) (suc at) source ∙ length-set block at s

-- Two copies, one behind the other, are one copy.
pub memcpy-memcpy :
    (block : List ℕ) (at : ℕ) (xs ys : List ℕ)
    → memcpy (memcpy block at xs) (at + length xs) ys ≡ memcpy block at (xs ++ ys)
unfolding memcpy
memcpy-memcpy block at [] ys = ap (λ k. memcpy block k ys) (omega arith)
memcpy-memcpy block at (x ∷ xs) ys =
    ap (λ k. memcpy (memcpy (set block at x) (suc at) xs) k ys) shift
    ∙ memcpy-memcpy (set block at x) (suc at) xs ys
  where
    shift : at + suc (length xs) ≡ suc at + length xs
    shift = omega arith

take-set :
    (block : List ℕ) (at v : ℕ)
    → at < length block
    → take (suc at) (set block at v) ≡ take at block ++ v ∷ []
take-set [] at v h = absurd (omega arith)
take-set (x ∷ xs) zero v h = refl
take-set (x ∷ xs) (suc at) v h = ap (◌∷◌ x) (take-set xs at v (omega arith))

-- What stands in the block up to the end of a copy that fits.
pub take-memcpy :
    (block : List ℕ) (at : ℕ) (source : List ℕ)
    → at + length source ≤ length block
    → take (at + length source) (memcpy block at source) ≡ take at block ++ source
unfolding memcpy
take-memcpy block at [] h = ap (λ k. take k block) (omega arith) ∙ plain
  where
    plain : take at block ≡ take at block ++ []
    plain = rw append-nil
take-memcpy block at (s ∷ source) h =
    ap (λ k. take k (memcpy (set block at s) (suc at) source)) shift
    ∙ take-memcpy (set block at s) (suc at) source (omega (arith, length-set block at s))
    ∙ ap (λ l. l ++ source) (take-set block at s (omega arith))
    ∙ append_assoc (take at block) (s ∷ []) source
  where
    shift : at + suc (length source) ≡ suc at + length source
    shift = omega arith

-- A copy of as many bytes as the block has is all that is in it.
pub memcpy_whole :
    (block source : List ℕ) → length source ≡ length block → memcpy block 0 source ≡ source
memcpy_whole block source h =
    sym (take-length (memcpy block 0 source))
    ∙ ap (λ n. take n (memcpy block 0 source)) sized
    ∙ take-memcpy block 0 source (omega (arith, h))
  where
    sized : length (memcpy block 0 source) ≡ 0 + length source
    sized = omega (arith, length-memcpy block 0 source, h)

memcpy-cons :
    (x : ℕ) (block : List ℕ) (at : ℕ) (source : List ℕ)
    → memcpy (x ∷ block) (suc at) source ≡ x ∷ memcpy block at source
unfolding memcpy
memcpy-cons x block at [] = refl
memcpy-cons x block at (s ∷ source) = memcpy-cons x (set block at s) (suc at) source

-- From the place of a copy that fits stand the bytes copied, and then what stood there before.
pub drop-memcpy :
    (block : List ℕ) (at : ℕ) (source : List ℕ)
    → at + length source ≤ length block
    → drop at (memcpy block at source) ≡ source ++ drop (at + length source) block
unfolding memcpy
drop-memcpy block at [] h = ap (λ k. drop k block) (omega arith)
drop-memcpy [] at (s ∷ source) h = absurd (omega arith)
drop-memcpy (x ∷ block) zero (s ∷ source) h =
    memcpy-cons s block zero source
    ∙ ap (◌∷◌ s) (drop-memcpy block zero source (omega arith))
    ∙ ap (λ k. s ∷ source ++ drop k (x ∷ block)) shift
  where
    shift : suc (zero + length source) ≡ zero + suc (length source)
    shift = omega arith
drop-memcpy (x ∷ block) (suc at) (s ∷ source) h =
    ap (drop (suc at)) (memcpy-cons x block at (s ∷ source))
    ∙ drop-memcpy block at (s ∷ source) (omega arith)
    ∙ ap (λ k. (s ∷ source) ++ drop k (x ∷ block)) shift
  where
    shift : suc (at + suc (length source)) ≡ suc at + suc (length source)
    shift = omega arith

-- What lies before a copy stays, and so does what lies behind it.
pub take-memcpy_before :
    (block : List ℕ) (at : ℕ) (source : List ℕ) (n : ℕ)
    → n ≤ at
    → take n (memcpy block at source) ≡ take n block
unfolding memcpy
take-memcpy_before block at [] n h = refl
take-memcpy_before [] at (s ∷ source) n h = take-memcpy_before [] (suc at) source n (omega arith)
take-memcpy_before (x ∷ block) at (s ∷ source) zero h = refl
take-memcpy_before (x ∷ block) zero (s ∷ source) (suc n) h = absurd (omega arith)
take-memcpy_before (x ∷ block) (suc at) (s ∷ source) (suc n) h =
    ap (take (suc n)) (memcpy-cons x block at (s ∷ source))
    ∙ ap (◌∷◌ x) (take-memcpy_before block at (s ∷ source) n (omega arith))

drop-set : (block : List ℕ) (at v n : ℕ) → at < n → drop n (set block at v) ≡ drop n block
drop-set [] at v n h = refl
drop-set (x ∷ block) at v zero h = absurd (omega arith)
drop-set (x ∷ block) zero v (suc n) h = refl
drop-set (x ∷ block) (suc at) v (suc n) h = drop-set block at v n (omega arith)

pub drop-memcpy_after :
    (block : List ℕ) (at : ℕ) (source : List ℕ) (n : ℕ)
    → at + length source ≤ n
    → drop n (memcpy block at source) ≡ drop n block
unfolding memcpy
drop-memcpy_after block at [] n h = refl
drop-memcpy_after block at (s ∷ source) n h =
    drop-memcpy_after (set block at s) (suc at) source n (omega arith)
    ∙ drop-set block at s n (omega arith)

-- `n` bytes of a block from an offset on.
abbrev pub slice : List ℕ → ℕ → ℕ → List ℕ
slice block at n = take n (drop at block)

pub length-slice :
    (block : List ℕ) (at n : ℕ) → at + n ≤ length block → length (slice block at n) ≡ n
length-slice block at n h = omega (arith, length-take n (drop at block), length-drop at block)

pub slice-memcpy_self :
    (block : List ℕ) (at : ℕ) (source : List ℕ)
    → at + length source ≤ length block
    → slice (memcpy block at source) at (length source) ≡ source
slice-memcpy_self block at source h =
    ap (take (length source)) (drop-memcpy block at source h)
    ∙ take-append source (drop (at + length source) block)

pub slice-memcpy_after :
    (block : List ℕ) (at : ℕ) (source : List ℕ) (from n : ℕ)
    → at + length source ≤ from
    → slice (memcpy block at source) from n ≡ slice block from n
slice-memcpy_after block at source from n h = ap (take n) (drop-memcpy_after block at source from h)

take-drop :
    (block : List ℕ) (from n : ℕ) → take n (drop from block) ≡ drop from (take (from + n) block)
take-drop block zero n = ap (λ k. take k block) (omega arith)
take-drop [] (suc from) zero = sym (ap (drop (suc from)) (take-nil (suc from + 0)))
take-drop [] (suc from) (suc n) = sym (ap (drop (suc from)) (take-nil (suc from + suc n)))
take-drop (x ∷ block) (suc from) n =
    take-drop block from n ∙ ap (λ k. drop (suc from) (take k (x ∷ block))) shift
  where
    shift : suc (from + n) ≡ suc from + n
    shift = omega arith

pub slice-memcpy_before :
    (block : List ℕ) (at : ℕ) (source : List ℕ) (from n : ℕ)
    → from + n ≤ at
    → slice (memcpy block at source) from n ≡ slice block from n
slice-memcpy_before block at source from n h =
    take-drop (memcpy block at source) from n
    ∙ ap (drop from) (take-memcpy_before block at source (from + n) h)
    ∙ sym (take-drop block from n)

-- `! memcmp`: the blocks hold the same bytes.
unfoldable pub bytes_eq : List ℕ → List ℕ → Bool
bytes_eq [] [] = true
bytes_eq [] (y ∷ ys) = false
bytes_eq (x ∷ xs) [] = false
bytes_eq (x ∷ xs) (y ∷ ys) = x == y && bytes_eq xs ys

pub bytes_eq_refl : (xs : List ℕ) → bytes_eq xs xs ≡ true
unfolding bytes_eq
bytes_eq_refl [] = refl
bytes_eq_refl (x ∷ xs) = rw (==_refl x, bytes_eq_refl xs)
