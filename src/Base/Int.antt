-- ===== src/Base/Int.antt =====
-- Integers over the native numbers, with the library's names.
use Prim.Native.Nat.{ℕ, zero, suc, ◌+◌, ◌-◌}
use mathlib.Core.Path.{◌≡◌, refl, ap}
use mathlib.Core.Bool.{Bool, true, false}
use native.Mathlib.Omega.{arith}
use robocrisp.Base.Tests.{ltb, leb, ◌==◌, if◌then◌else◌}

pub data ℤ : Type 0 where
  pos negsuc : ℕ → ℤ

abbrev pub sub_nat : ℕ → ℕ → ℤ
sub_nat m n = if ltb m n then negsuc (n - m - 1) else pos (m - n)

infixl 60 ◌+ℤ◌ ◌-ℤ◌
abbrev pub ◌+ℤ◌ : ℤ → ℤ → ℤ
pos m +ℤ pos n = pos (m + n)
pos m +ℤ negsuc n = sub_nat m (n + 1)
negsuc m +ℤ pos n = sub_nat n (m + 1)
negsuc m +ℤ negsuc n = negsuc (m + n + 1)

abbrev pub neg : ℤ → ℤ
neg (pos zero) = pos zero
neg (pos (suc n)) = negsuc n
neg (negsuc n) = pos (n + 1)

abbrev pub ◌-ℤ◌ : ℤ → ℤ → ℤ
pos m -ℤ pos n = sub_nat m n
pos m -ℤ negsuc n = pos (m + n + 1)
negsuc m -ℤ pos n = negsuc (m + n)
negsuc m -ℤ negsuc n = sub_nat n m

abbrev pub leq : ℤ → ℤ → Bool
leq (pos m) (pos n) = leb m n
leq (pos m) (negsuc n) = false
leq (negsuc m) (pos n) = true
leq (negsuc m) (negsuc n) = leb n m

abbrev pub eq : ℤ → ℤ → Bool
eq (pos m) (pos n) = m == n
eq (pos m) (negsuc n) = false
eq (negsuc m) (pos n) = false
eq (negsuc m) (negsuc n) = m == n

abbrev pub abs : ℤ → ℕ
abs (pos n) = n
abs (negsuc n) = n + 1

-- `std::max` and `std::min`.
abbrev pub max_int : ℤ → ℤ → ℤ
max_int x y = if leq y x then x else y

abbrev pub min_int : ℤ → ℤ → ℤ
min_int x y = if leq x y then x else y

pub leq_refl : (x : ℤ) → leq x x ≡ true
leq_refl (pos n) = ground arith
leq_refl (negsuc n) = ground arith

pub leq_total : (x y : ℤ) → leq x y ≡ false → leq y x ≡ true
leq_total (pos m) (pos n) h = ground arith
leq_total (pos m) (negsuc n) h = refl
leq_total (negsuc m) (pos n) h = absurd (ground arith)
leq_total (negsuc m) (negsuc n) h = ground arith

-- What is taken off a difference gives back what it was taken of.
pub sub-add : (x y : ℤ) → (x -ℤ y) +ℤ y ≡ x
sub-add (pos m) (pos n) = ground arith
sub-add (pos m) (negsuc n) = ground arith
sub-add (negsuc m) (pos n) = ground arith
sub-add (negsuc m) (negsuc n) = ground arith

pub add_comm : (x y : ℤ) → x +ℤ y ≡ y +ℤ x
add_comm (pos m) (pos n) = ap pos (omega arith)
add_comm (pos m) (negsuc n) = refl
add_comm (negsuc m) (pos n) = refl
add_comm (negsuc m) (negsuc n) = ap negsuc (omega arith)

pub add-sub : (x y : ℤ) → (x +ℤ y) -ℤ x ≡ y
add-sub (pos m) (pos n) = ground arith
add-sub (pos m) (negsuc n) = ground arith
add-sub (negsuc m) (pos n) = ground arith
add-sub (negsuc m) (negsuc n) = ground arith
