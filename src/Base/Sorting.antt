-- ===== src/Base/Sorting.antt =====
-- Lists in the order of a key: what a sort does, and insertion into such a list.
use Prim.Native.Nat.{ℕ, ◌≤◌, ◌<◌}
use mathlib.Core.Path.{◌≡◌, sym, ap, subst}
use mathlib.Core.Logic.{◌≢◌, inl, inr}
use mathlib.Core.Logic.Or
use mathlib.Core.HLevel.{¬_prop}
use mathlib.Core.List.{
  List, [], ◌∷◌, ◌++◌, perm_append_singleton, mem-cons_self, eq-or-mem_of_mem-cons, not-mem-nil,
  Perm, Pairwise,
}
use mathlib.Core.List.Perm
use native.Mathlib.Bridge.{le_prop}
use native.Mathlib.Omega.{arith}
use robocrisp.Base.Tests.{ltb, if◌then◌else◌, Bool-cases, ltb→lt}

module _ {ℓ} {A : Type ℓ} (key : A → ℕ) where
  abbrev pub Ascending : List A → Type ℓ
  Ascending = Pairwise (λ p q. key p ≤ key q)

  abbrev pub Increasing : List A → Type ℓ
  Increasing = Pairwise (λ p q. key p < key q)

  abbrev pub Distinct : List A → Type ℓ
  Distinct = Pairwise (λ p q. key p ≢ key q)

  -- What a sort promises: the same elements, in ascending order.
  abbrev pub Sorts : (List A → List A) → Type ℓ
  Sorts sort = (xs : List A) → Perm xs (sort xs) × Ascending (sort xs)

  -- The place of an element is in front of the first whose key is greater.
  unfoldable pub insert : A → List A → List A
  insert x [] = x ∷ []
  insert x (y ∷ ys) = if ltb (key x) (key y) then x ∷ y ∷ ys else y ∷ insert x ys

  pub insert-Perm : (x : A) (ys : List A) → Perm (x ∷ ys) (insert x ys)
  unfolding insert
  insert-Perm x [] = Perm.refl (x ∷ [])
  insert-Perm x (y ∷ ys) = elim (Bool-cases (ltb (key x) (key y))) [
    | inl h ↦ rw h (Perm.refl (x ∷ y ∷ ys))
    | inr h ↦ rw h (Perm.trans (Perm.swap y x ys) (Perm.cons y (insert-Perm x ys)))
  ]

  Ascending-Increasing : (xs : List A) → Ascending xs → Distinct xs → Increasing xs
  Ascending-Increasing [] Pairwise.nil Pairwise.nil = Pairwise.nil
  Ascending-Increasing (x ∷ xs) (Pairwise.cons h a) (Pairwise.cons d b) =
      Pairwise.cons (λ y m. omega (arith, h y m, d y m)) (Ascending-Increasing xs a b)

  Increasing-Distinct : (xs : List A) → Increasing xs → Distinct xs
  Increasing-Distinct [] Pairwise.nil = Pairwise.nil
  Increasing-Distinct (x ∷ xs) (Pairwise.cons h a) =
      Pairwise.cons (λ y m e. absurd (omega (arith, h y m, e))) (Increasing-Distinct xs a)

  Distinct-Perm : (xs ys : List A) → Perm xs ys → Distinct xs → Distinct ys
  Distinct-Perm xs ys p d = (Perm.Pairwise-iff (λ a b. ¬_prop) (λ a b n e. n (sym e)) p).0 d

  -- A list in strictly ascending order is determined by its elements.
  Increasing-unique :
      IsSet A → (xs ys : List A) → Increasing xs → Increasing ys → Perm xs ys → xs ≡ ys
  Increasing-unique set [] ys a b s = Perm.nil-eq s
  Increasing-unique set (x ∷ xs) [] a b s = sym (Perm.nil-eq (Perm.symm s))
  Increasing-unique set (x ∷ xs) (y ∷ ys) (Pairwise.cons hx a) (Pairwise.cons hy b) s =
      rw heads (ap (◌∷◌ y) (Increasing-unique set xs ys a b tails))
    where
      heads : x ≡ y
      heads =
          Or.elim (set x y) (eq-or-mem_of_mem-cons ((Perm.mem_iff s).0 mem-cons_self)) (λ e. e)
            (λ m.
              Or.elim (set x y) (eq-or-mem_of_mem-cons ((Perm.mem_iff s).1 mem-cons_self))
                (λ e. sym e) (λ n. absurd (omega (arith, hy x m, hx y n))))

      tails : Perm xs ys
      tails = Perm.cons_inv (subst (λ z. Perm (z ∷ xs) (y ∷ ys)) heads s)

  -- A sort puts a new element at the end of a list in order into its place.
  pub sort-insert :
      IsSet A
      → (sort : List A → List A) (x : A) (xs : List A) → Sorts sort
      → Increasing (insert x xs)
      → sort (xs ++ x ∷ []) ≡ insert x xs
  sort-insert set sort x xs sorts b =
      Increasing-unique set (sort (xs ++ x ∷ [])) (insert x xs)
        (Ascending-Increasing _ (sorts (xs ++ x ∷ [])).1
          (Distinct-Perm _ _ (Perm.symm same) (Increasing-Distinct _ b)))
        b same
    where
      same : Perm (sort (xs ++ x ∷ [])) (insert x xs)
      same =
          Perm.trans (Perm.symm (sorts (xs ++ x ∷ [])).0)
            (Perm.trans (perm_append_singleton x xs) (insert-Perm x xs))

  -- Insertion sort keeps what a sort promises.
  unfoldable pub insertion_sort : List A → List A
  insertion_sort [] = []
  insertion_sort (x ∷ xs) = insert x (insertion_sort xs)

  insert-Ascending : (x : A) (ys : List A) → Ascending ys → Ascending (insert x ys)
  unfolding insert
  insert-Ascending x [] a = Pairwise.cons (λ y m. absurd (not-mem-nil m)) Pairwise.nil
  insert-Ascending x (y ∷ ys) (Pairwise.cons h a) = elim (Bool-cases (ltb (key x) (key y))) [
    | inl l ↦ rw l (
        Pairwise.cons
          (λ z m.
            Or.elim le_prop (eq-or-mem_of_mem-cons m)
              (λ e. omega (arith, ap key e, ltb→lt (key x) (key y) l))
              (λ n. omega (arith, h z n, ltb→lt (key x) (key y) l)))
          (Pairwise.cons h a))
    | inr l ↦ rw l (
        Pairwise.cons
          (λ z m.
            Or.elim le_prop (eq-or-mem_of_mem-cons ((Perm.mem_iff (insert-Perm x ys)).1 m))
              (λ e. ground (arith, ap key e, l)) (λ n. h z n))
          (insert-Ascending x ys a))
  ]

  pub insertion_sort-Sorts : Sorts insertion_sort
  unfolding insertion_sort
  insertion_sort-Sorts [] = (Perm.nil, Pairwise.nil)
  insertion_sort-Sorts (x ∷ xs) =
      let (p, a) = insertion_sort-Sorts xs in
      (
        Perm.trans (Perm.cons x p) (insert-Perm x (insertion_sort xs)),
        insert-Ascending x (insertion_sort xs) a,
      )
