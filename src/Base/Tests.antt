-- ===== src/Base/Tests.antt =====
-- Boolean tests on numbers, the conditional, and splits that keep their equation.
use Prim.Native.Nat.{ℕ, zero, suc, ◌≤◌, ◌<◌, compare, Ordering}
use mathlib.Core.Path.{◌≡◌, refl, ap, ◌∙◌}
use mathlib.Core.Logic.{◌↔◌, ◌⊎◌, inl, inr}
use mathlib.Core.Bool.{Bool, true, false, ◌&&◌}
use mathlib.Core.Option.{Option, none, some}
use native.Mathlib.Omega.{arith}

abbrev pub ltb : ℕ → ℕ → Bool
ltb a b = elim (compare a b) [ Ordering.lt ↦ true | _ ↦ false ]

abbrev pub leb : ℕ → ℕ → Bool
leb a b = elim (compare a b) [ Ordering.gt ↦ false | _ ↦ true ]

infix 50 ◌==◌
abbrev pub ◌==◌ : ℕ → ℕ → Bool
a == b = elim (compare a b) [ Ordering.eq ↦ true | _ ↦ false ]

infix 1 if◌then◌else◌
abbrev pub if◌then◌else◌ {ℓ} : {A : Type ℓ} → Bool → A → A → A
if true then x else y = x
if false then x else y = y

pub ltb→lt : (a b : ℕ) → ltb a b ≡ true → a < b
ltb→lt a b h = ground arith

pub lt→ltb : (a b : ℕ) → a < b → ltb a b ≡ true
lt→ltb a b h = ground arith

pub ltb_le : (a b : ℕ) → b ≤ a → ltb a b ≡ false
ltb_le a b h = ground arith

pub ==_iff : (a b : ℕ) → ((a == b) ≡ true) ↔ (a ≡ b)
==_iff a b = ground arith

pub ==_refl : (a : ℕ) → (a == a) ≡ true
==_refl a = ground arith

pub &&_split : (a b : Bool) → (a && b) ≡ true → (a ≡ true) × (b ≡ true)
&&_split a b h = ground arith

-- To split on a computed value and keep the equation.
pub Bool-cases : (b : Bool) → (b ≡ true) ⊎ (b ≡ false)
Bool-cases true = inl refl
Bool-cases false = inr refl

pub Option-cases {ℓ} : {A : Type ℓ} (o : Option A) → (o ≡ none) ⊎ ((a : A) × (o ≡ some a))
Option-cases none = inl refl
Option-cases (some a) = inr (a, refl)

-- Equality of Booleans.
abbrev pub bool_eq : Bool → Bool → Bool
bool_eq true b = b
bool_eq false true = false
bool_eq false false = true

pub bool_eq_refl : (b : Bool) → bool_eq b b ≡ true
bool_eq_refl true = refl
bool_eq_refl false = refl

-- A test of all numbers below `n`.
abbrev pub all_below : ℕ → (ℕ → Bool) → Bool
all_below zero test = true
all_below (suc n) test = test n && all_below n test

pub below-all_below :
    (n : ℕ) (test : ℕ → Bool) → all_below n test ≡ true → (x : ℕ) → x < n → test x ≡ true
below-all_below zero test h x i = absurd (omega arith)
below-all_below (suc n) test h x i =
    let both = &&_split (test n) (all_below n test) h in
    elim (Bool-cases (x == n)) [
      | inl e ↦ ap test ((==_iff x n).0 e) ∙ both.0
      | inr e ↦ below-all_below n test both.1 x (ground arith)
    ]
