-- ===== src/Base/Xor.antt =====
-- Exclusive or on numbers: the law of the lowest digit, and what follows from it by halving.
use robocrisp.Base.{
  ℕ, zero, suc, ◌+◌, ◌*◌, ◌/◌, ◌%◌, ◌≤◌, ◌<◌, ◌≡◌, ◌⊎◌, inl, inr, refl, sym, ap, ap₂, ◌∙◌, bit_and,
  bit_xor, min, arith,
}
use Prim.Native.Nat.{digits, differ, bit_xor-bitwise, bit_and-bitwise}

-- A count of digits that is large enough may be any.
digits_enough :
    (z : ℕ → ℕ) (f : ℕ → ℕ → ℕ) (k l a b : ℕ) → a ≤ k → a ≤ l → digits z f k a b ≡ digits z f l a b
digits_enough z f zero zero zero b h i = refl
digits_enough z f zero zero (suc a) b h i = absurd (omega arith)
digits_enough z f zero (suc l) zero b h i = refl
digits_enough z f zero (suc l) (suc a) b h i = absurd (omega arith)
digits_enough z f (suc k) zero zero b h i = refl
digits_enough z f (suc k) zero (suc a) b h i = absurd (omega arith)
digits_enough z f (suc k) (suc l) zero b h i = refl
digits_enough z f (suc k) (suc l) (suc a) b h i =
    let rest = digits_enough z f k l (suc a / 2) (b / 2) (omega arith) (omega arith) in
    omega (arith, rest)

pub zero-bit_xor : (b : ℕ) → bit_xor 0 b ≡ b
zero-bit_xor b = bit_xor-bitwise 0 b

differ_zero : (p : ℕ) → differ p 0 ≡ p
differ_zero zero = refl
differ_zero (suc p) = refl

-- The lowest digit and the others.
pub bit_xor-digit : (a b : ℕ) → bit_xor a b ≡ bit_xor (a / 2) (b / 2) * 2 + differ (a % 2) (b % 2)
bit_xor-digit zero b = omega (arith, zero-bit_xor b, zero-bit_xor (b / 2))
bit_xor-digit (suc a) b =
    let shorter =
      digits_enough (λ d. d) differ a (suc a / 2) (suc a / 2) (b / 2) (omega arith) (omega arith) in
    omega (arith, shorter, bit_xor-bitwise (suc a / 2) (b / 2), bit_xor-bitwise (suc a) b)

differ_lem :
    (p q : ℕ)
    → p < 2
    → q < 2
    → (differ p q < 2) × (differ p q ≡ differ q p) × (differ (differ p q) q ≡ p)
differ_lem zero zero h i = (omega arith, refl, refl)
differ_lem zero (suc zero) h i = (omega arith, refl, refl)
differ_lem zero (suc (suc q)) h i = absurd (omega arith)
differ_lem (suc zero) zero h i = (omega arith, refl, refl)
differ_lem (suc zero) (suc zero) h i = (omega arith, refl, refl)
differ_lem (suc zero) (suc (suc q)) h i = absurd (omega arith)
differ_lem (suc (suc p)) q h i = absurd (omega arith)

pub bit_xor-half : (a b : ℕ) → bit_xor a b / 2 ≡ bit_xor (a / 2) (b / 2)
bit_xor-half a b =
    omega (arith, bit_xor-digit a b, (differ_lem (a % 2) (b % 2) (omega arith) (omega arith)).0)

pub bit_xor_odd : (a b : ℕ) → bit_xor a b % 2 ≡ differ (a % 2) (b % 2)
bit_xor_odd a b =
    omega (arith, bit_xor-digit a b, (differ_lem (a % 2) (b % 2) (omega arith) (omega arith)).0)

-- Numbers with the same half and the same lowest digit are the same.
by_half : (a b : ℕ) → a / 2 ≡ b / 2 → a % 2 ≡ b % 2 → a ≡ b
by_half a b h i = omega arith

xor_comm_below : (k a b : ℕ) → a + b ≤ k → bit_xor a b ≡ bit_xor b a
xor_comm_below zero zero zero h = refl
xor_comm_below zero zero (suc b) h = absurd (omega arith)
xor_comm_below zero (suc a) b h = absurd (omega arith)
xor_comm_below (suc k) zero zero h = refl
xor_comm_below (suc k) zero (suc b) h =
    let rest = xor_comm_below k 0 (suc b / 2) (omega arith) in
    let flip = (differ_lem 0 (suc b % 2) (omega arith) (omega arith)).1 in
    omega (arith, bit_xor-digit 0 (suc b), bit_xor-digit (suc b) 0, rest, flip)
xor_comm_below (suc k) (suc a) b h =
    let rest = xor_comm_below k (suc a / 2) (b / 2) (omega arith) in
    let flip = (differ_lem (suc a % 2) (b % 2) (omega arith) (omega arith)).1 in
    omega (arith, bit_xor-digit (suc a) b, bit_xor-digit b (suc a), rest, flip)

pub bit_xor_comm : (a b : ℕ) → bit_xor a b ≡ bit_xor b a
bit_xor_comm a b = xor_comm_below (a + b) a b (omega arith)

xor_cancel_below : (k a b : ℕ) → a + b ≤ k → bit_xor (bit_xor a b) b ≡ a
xor_cancel_below zero zero zero h = refl
xor_cancel_below zero zero (suc b) h = absurd (omega arith)
xor_cancel_below zero (suc a) b h = absurd (omega arith)
xor_cancel_below (suc k) a b h =
    by_half _ a
      (elim halves [
        | inl e ↦ let za : a ≡ 0 = omega arith in let zb : b ≡ 0 = omega arith in rw (za, zb) refl
        | inr l ↦
            bit_xor-half (bit_xor a b) b
            ∙ ap (λ x. bit_xor x (b / 2)) (bit_xor-half a b)
            ∙ xor_cancel_below k (a / 2) (b / 2) l
      ])
      low
  where
    halves : (a + b ≡ 0) ⊎ (a / 2 + b / 2 ≤ k)
    halves = ground arith

    low : bit_xor (bit_xor a b) b % 2 ≡ a % 2
    low =
        bit_xor_odd (bit_xor a b) b
        ∙ ap (λ x. differ x (b % 2)) (bit_xor_odd a b)
        ∙ (differ_lem (a % 2) (b % 2) (omega arith) (omega arith)).2

-- Exclusive or with the same number twice changes nothing.
pub bit_xor_cancel : (a b : ℕ) → bit_xor (bit_xor a b) b ≡ a
bit_xor_cancel a b = xor_cancel_below (a + b) a b (omega arith)

pub bit_xor_right : (a b c : ℕ) → bit_xor a c ≡ bit_xor b c → a ≡ b
bit_xor_right a b c h = sym (bit_xor_cancel a c) ∙ ap (λ x. bit_xor x c) h ∙ bit_xor_cancel b c

pub bit_xor_left : (a b c : ℕ) → bit_xor c a ≡ bit_xor c b → a ≡ b
bit_xor_left a b c h = bit_xor_right a b c (bit_xor_comm a c ∙ h ∙ bit_xor_comm c b)

-- Dividing by a power of two goes under the exclusive or.
abbrev pub Divides : ℕ → Type 0
Divides d = (a b : ℕ) → bit_xor a b / d ≡ bit_xor (a / d) (b / d)

Divides-product : (d e f : ℕ) → ((x : ℕ) → x / f ≡ x / d / e) → Divides d → Divides e → Divides f
Divides-product d e f h i j a b =
    h (bit_xor a b)
    ∙ ap (λ x. x / e) (i a b)
    ∙ j (a / d) (b / d)
    ∙ ap₂ bit_xor (sym (h a)) (sym (h b))

div16 : Divides 16
div16 = Divides-product 4 4 16 (λ x. omega arith) div4 div4
  where
    div4 : Divides 4
    div4 = Divides-product 2 2 4 (λ x. omega arith) bit_xor-half bit_xor-half

pub div256 : Divides 256
div256 = Divides-product 16 16 256 (λ x. omega arith) div16 div16

div65536 : Divides 0x10000
div65536 = Divides-product 256 256 0x10000 (λ x. omega arith) div256 div256

pub div16777216 : Divides 0x1000000
div16777216 = Divides-product 256 0x10000 0x1000000 (λ x. omega arith) div256 div65536

pub div4294967296 : Divides 0x100000000
div4294967296 = Divides-product 0x10000 0x10000 0x100000000 (λ x. omega arith) div65536 div65536

-- So does the remainder.
abbrev pub Remains : ℕ → Type 0
Remains d = (a b : ℕ) → bit_xor a b % d ≡ bit_xor (a % d) (b % d)

Remains-twice : (d e : ℕ) → ((x : ℕ) → x % e ≡ x / 2 % d * 2 + x % 2) → Remains d → Remains e
Remains-twice d e h i a b = by_half _ _ high low
  where
    lowest : (x : ℕ) → x % e % 2 ≡ x % 2
    lowest x = omega (arith, h x)

    others : (x : ℕ) → x % e / 2 ≡ x / 2 % d
    others x = omega (arith, h x)

    high : bit_xor a b % e / 2 ≡ bit_xor (a % e) (b % e) / 2
    high =
        others (bit_xor a b)
        ∙ ap (λ x. x % d) (bit_xor-half a b)
        ∙ i (a / 2) (b / 2)
        ∙ ap₂ bit_xor (sym (others a)) (sym (others b))
        ∙ sym (bit_xor-half (a % e) (b % e))

    low : bit_xor a b % e % 2 ≡ bit_xor (a % e) (b % e) % 2
    low =
        lowest (bit_xor a b)
        ∙ bit_xor_odd a b
        ∙ ap₂ differ (sym (lowest a)) (sym (lowest b))
        ∙ sym (bit_xor_odd (a % e) (b % e))

pub mod256 : Remains 256
mod256 = Remains-twice 128 256 (λ x. omega arith) mod128
  where
    one : Remains 1
    one a b =
        let left : a % 1 ≡ 0 = omega arith in
        let right : b % 1 ≡ 0 = omega arith in rw (left, right) (omega arith)

    mod4 : Remains 4
    mod4 = Remains-twice 2 4 (λ x. omega arith) (Remains-twice 1 2 (λ x. omega arith) one)

    mod16 : Remains 16
    mod16 = Remains-twice 8 16 (λ x. omega arith) (Remains-twice 4 8 (λ x. omega arith) mod4)

    mod128 : Remains 128
    mod128 =
        Remains-twice 64 128 (λ x. omega arith)
          (Remains-twice 32 64 (λ x. omega arith) (Remains-twice 16 32 (λ x. omega arith) mod16))

-- The mask of eight ones.
bit_and-digit : (a b : ℕ) → bit_and a b ≡ bit_and (a / 2) (b / 2) * 2 + min (a % 2) (b % 2)
bit_and-digit zero b = omega (arith, bit_and-bitwise 0 b, bit_and-bitwise 0 (b / 2))
bit_and-digit (suc a) b =
    let shorter =
      digits_enough (λ d. zero) min a (suc a / 2) (suc a / 2) (b / 2) (omega arith) (omega arith) in
    omega (arith, shorter, bit_and-bitwise (suc a / 2) (b / 2), bit_and-bitwise (suc a) b)

and_nothing : (k a : ℕ) → a ≤ k → bit_and a 0 ≡ 0
and_nothing k zero h = refl
and_nothing zero (suc a) h = absurd (omega arith)
and_nothing (suc k) (suc a) h =
    let rest = and_nothing k (suc a / 2) (omega arith) in
    omega (arith, rest, bit_and-digit (suc a) 0)

-- A mask of ones takes the remainder, and one more digit makes it a longer one.
abbrev Masks : ℕ → ℕ → Type 0
Masks m d = (x : ℕ) → bit_and x m ≡ x % d

Masks-twice :
    (m d m' d' : ℕ)
    → m' / 2 ≡ m
    → m' % 2 ≡ 1
    → ((x : ℕ) → x % d' ≡ x / 2 % d * 2 + x % 2)
    → Masks m d
    → Masks m' d'
Masks-twice m d m' d' h o j i x =
    omega (arith, bit_and-digit x m', ap (bit_and (x / 2)) h, o, i (x / 2), j x)

pub bit_and-byte : (x : ℕ) → bit_and x 0xff ≡ x % 256
bit_and-byte = Masks-twice 127 128 255 256 refl refl (λ x. omega arith) seven
  where
    none : Masks 0 1
    none x = omega (arith, and_nothing x x (omega arith))

    two : Masks 3 4
    two =
        Masks-twice 1 2 3 4 refl refl (λ x. omega arith)
          (Masks-twice 0 1 1 2 refl refl (λ x. omega arith) none)

    four : Masks 15 16
    four =
        Masks-twice 7 8 15 16 refl refl (λ x. omega arith)
          (Masks-twice 3 4 7 8 refl refl (λ x. omega arith) two)

    seven : Masks 127 128
    seven =
        Masks-twice 63 64 127 128 refl refl (λ x. omega arith)
          (Masks-twice 31 32 63 64 refl refl (λ x. omega arith)
            (Masks-twice 15 16 31 32 refl refl (λ x. omega arith) four))

-- Of words of 32 bits it is one.
pub bit_xor_word : (a b : ℕ) → a < 0x100000000 → b < 0x100000000 → bit_xor a b < 0x100000000
bit_xor_word a b h i =
    let left : a / 0x100000000 ≡ 0 = omega arith in
    let right : b / 0x100000000 ≡ 0 = omega arith in
    omega (arith, div4294967296 a b, ap₂ bit_xor left right)

differ_assoc : (p q r : ℕ) → p < 2 → q < 2 → r < 2 → differ (differ p q) r ≡ differ p (differ q r)
differ_assoc zero q r h i j = refl
differ_assoc (suc zero) zero r h i j = refl
differ_assoc (suc zero) (suc zero) zero h i j = refl
differ_assoc (suc zero) (suc zero) (suc zero) h i j = refl
differ_assoc (suc zero) (suc zero) (suc (suc r)) h i j = absurd (omega arith)
differ_assoc (suc zero) (suc (suc q)) r h i j = absurd (omega arith)
differ_assoc (suc (suc p)) q r h i j = absurd (omega arith)

xor_assoc_below : (k a b c : ℕ) → a + b + c ≤ k → bit_xor (bit_xor a b) c ≡ bit_xor a (bit_xor b c)
xor_assoc_below zero zero zero zero h = refl
xor_assoc_below zero zero zero (suc c) h = absurd (omega arith)
xor_assoc_below zero zero (suc b) c h = absurd (omega arith)
xor_assoc_below zero (suc a) b c h = absurd (omega arith)
xor_assoc_below (suc k) a b c h =
    by_half _ _
      (elim halves [
        | inl e ↦
            let za : a ≡ 0 = omega arith in
            let zb : b ≡ 0 = omega arith in let zc : c ≡ 0 = omega arith in rw (za, zb, zc) refl
        | inr l ↦
            bit_xor-half (bit_xor a b) c
            ∙ ap (λ x. bit_xor x (c / 2)) (bit_xor-half a b)
            ∙ xor_assoc_below k (a / 2) (b / 2) (c / 2) l
            ∙ ap (bit_xor (a / 2)) (sym (bit_xor-half b c))
            ∙ sym (bit_xor-half a (bit_xor b c))
      ])
      low
  where
    halves : (a + b + c ≡ 0) ⊎ (a / 2 + b / 2 + c / 2 ≤ k)
    halves = ground arith

    low : bit_xor (bit_xor a b) c % 2 ≡ bit_xor a (bit_xor b c) % 2
    low =
        bit_xor_odd (bit_xor a b) c
        ∙ ap (λ x. differ x (c % 2)) (bit_xor_odd a b)
        ∙ differ_assoc (a % 2) (b % 2) (c % 2) (omega arith) (omega arith) (omega arith)
        ∙ ap (differ (a % 2)) (sym (bit_xor_odd b c))
        ∙ sym (bit_xor_odd a (bit_xor b c))

pub bit_xor_assoc : (a b c : ℕ) → bit_xor (bit_xor a b) c ≡ bit_xor a (bit_xor b c)
bit_xor_assoc a b c = xor_assoc_below (a + b + c) a b c (omega arith)

pub bit_xor-zero : (a : ℕ) → bit_xor a 0 ≡ a
bit_xor-zero a = bit_xor_comm a 0 ∙ zero-bit_xor a

pub bit_xor_interchange :
    (a b c d : ℕ) → bit_xor (bit_xor a b) (bit_xor c d) ≡ bit_xor (bit_xor a c) (bit_xor b d)
bit_xor_interchange a b c d =
    bit_xor_assoc a b (bit_xor c d)
    ∙ ap (bit_xor a)
        (sym (bit_xor_assoc b c d) ∙ ap (λ x. bit_xor x d) (bit_xor_comm b c) ∙ bit_xor_assoc c b d)
    ∙ sym (bit_xor_assoc a c (bit_xor b d))

-- A number is its last digits and the others, put together.
abbrev Joins : ℕ → Type 0
Joins d = (x : ℕ) → bit_xor (x % d) (x / d * d) ≡ x

Joins-twice :
    (d e : ℕ)
    → ((x : ℕ) → x % e / 2 ≡ x / 2 % d)
    → ((x : ℕ) → x / e * e / 2 ≡ x / 2 / d * d)
    → ((x : ℕ) → x % e % 2 ≡ x % 2)
    → ((x : ℕ) → x / e * e % 2 ≡ 0)
    → Joins d
    → Joins e
Joins-twice d e h i j k l x =
    by_half _ x (bit_xor-half (x % e) (x / e * e) ∙ ap₂ bit_xor (h x) (i x) ∙ l (x / 2))
      (bit_xor_odd (x % e) (x / e * e) ∙ ap₂ differ (j x) (k x) ∙ differ_zero (x % 2))

pub joins256 : Joins 256
joins256 =
    Joins-twice 128 256 (λ x. omega arith) (λ x. omega arith) (λ x. omega arith) (λ x. omega arith)
      joins128
  where
    one : Joins 1
    one x =
        let none : x % 1 ≡ 0 = omega arith in
        let all : x / 1 * 1 ≡ x = omega arith in rw (none, all) (zero-bit_xor x)

    joins2 : Joins 2
    joins2 =
        Joins-twice 1 2 (λ x. omega arith) (λ x. omega arith) (λ x. omega arith) (λ x. omega arith)
          one

    joins4 : Joins 4
    joins4 =
        Joins-twice 2 4 (λ x. omega arith) (λ x. omega arith) (λ x. omega arith) (λ x. omega arith)
          joins2

    joins8 : Joins 8
    joins8 =
        Joins-twice 4 8 (λ x. omega arith) (λ x. omega arith) (λ x. omega arith) (λ x. omega arith)
          joins4

    joins16 : Joins 16
    joins16 =
        Joins-twice 8 16 (λ x. omega arith) (λ x. omega arith) (λ x. omega arith) (λ x. omega arith)
          joins8

    joins32 : Joins 32
    joins32 =
        Joins-twice 16 32 (λ x. omega arith) (λ x. omega arith) (λ x. omega arith)
          (λ x. omega arith) joins16

    joins64 : Joins 64
    joins64 =
        Joins-twice 32 64 (λ x. omega arith) (λ x. omega arith) (λ x. omega arith)
          (λ x. omega arith) joins32

    joins128 : Joins 128
    joins128 =
        Joins-twice 64 128 (λ x. omega arith) (λ x. omega arith) (λ x. omega arith)
          (λ x. omega arith) joins64
