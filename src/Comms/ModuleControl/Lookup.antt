-- ===== src/Comms/ModuleControl/Lookup.antt =====
-- `value_for` and `set` of include/crisp/comms/ModuleControl.hh: the pairs stay those of the inputs
-- whose bits are set, in order.
use robocrisp.Base.{
  ℕ, zero, suc, ◌+◌, ◌*◌, ◌/◌, ◌%◌, ◌≤◌, ◌<◌, ◌≡◌, refl, sym, ap, ◌∙◌, subst, true, false, List, [],
  ◌∷◌, get_elem?, some, some-injective, lt→ltb, ltb_le, ◌==◌, ==_iff, arith,
}
use mathlib.Core.List.{Mem, Pairwise, mem-cons_self, not-mem-nil, eq-or-mem_of_mem-cons}
use mathlib.Core.Logic.Or
use native.Mathlib.Bridge.{le_prop}
use robocrisp.Base.Sorting.{Increasing, insert}
use robocrisp.Comms.ModuleInput.{ModuleInput}
use robocrisp.Comms.Module.{Module}
use robocrisp.Comms.Module.Building.{IsBuilt, Numbered, input_id}
use robocrisp.Comms.ModuleControl.{ValuePair, has_bit, set_bit, find_pair}
use robocrisp.Comms.ModuleControl.Codec.{Selected, stop, skip, pick, IsPair}

pub ValuePair-IsSet : IsSet ValuePair
ValuePair-IsSet = hlevel

abbrev pub key : ValuePair → ℕ
key p = p.input.head

-- The inputs of a module are numbered by their places.
abbrev pub IsNumbered : Module → Type 0
IsNumbered m = (i : ℕ) (input : ModuleInput) → get_elem? m.inputs i ≡ some input → input.head ≡ i

module _ (m : Module) (numbered : IsNumbered m) where
  Selected-after :
      (n i ids : ℕ) (ps : List ValuePair)
      → Selected m n i ids ps
      → (q : ValuePair) → Mem q ps
      → i ≤ key q
  Selected-after n i ids ps stop q h = absurd (not-mem-nil h)
  Selected-after (suc n) i ids ps (skip e s) q h =
      omega (arith, Selected-after n (suc i) (ids / 2) ps s q h)
  Selected-after (suc n) i ids (p ∷ ps) (pick e l g t s) q h =
      Or.elim le_prop (eq-or-mem_of_mem-cons h) (λ c. omega (arith, ap key c, numbered i p.input g))
        (λ k. omega (arith, Selected-after n (suc i) (ids / 2) ps s q k))

  pub Selected-Increasing :
      (n i ids : ℕ) (ps : List ValuePair) → Selected m n i ids ps → Increasing key ps
  Selected-Increasing n i ids ps stop = Pairwise.nil
  Selected-Increasing (suc n) i ids ps (skip e s) = Selected-Increasing n (suc i) (ids / 2) ps s
  Selected-Increasing (suc n) i ids (p ∷ ps) (pick e l g t s) =
      Pairwise.cons
        (λ q h. omega (arith, Selected-after n (suc i) (ids / 2) ps s q h, numbered i p.input g))
        (Selected-Increasing n (suc i) (ids / 2) ps s)

  insert-front :
      (p : ValuePair) (ps : List ValuePair)
      → ((q : ValuePair) → Mem q ps → key p < key q)
      → insert key p ps ≡ p ∷ ps
  unfolding insert
  insert-front p [] h = refl
  insert-front p (q ∷ ps) h = rw (lt→ltb (key p) (key q) (h q mem-cons_self)) refl

  insert-later :
      (p q : ValuePair) (ps : List ValuePair)
      → key q ≤ key p
      → insert key p (q ∷ ps) ≡ q ∷ insert key p ps
  unfolding insert
  insert-later p q ps h = rw (ltb_le (key p) (key q) h) refl

  -- The pair of an input whose bit is set, put into its place.
  pub insert-Selected :
      (p : ValuePair) (n i j ids : ℕ) (ps : List ValuePair)
      → j < n
      → has_bit ids j ≡ false
      → i + j < m.num_inputs
      → get_elem? m.inputs (i + j) ≡ some p.input
      → IsPair p
      → Selected m n i ids ps
      → Selected m n i (set_bit ids j) (insert key p ps)
  unfolding has_bit set_bit insert
  insert-Selected p zero i j ids ps l b f g t s = absurd (omega arith)
  insert-Selected p (suc n) i zero ids ps l b f g t (skip e s) =
      subst (Selected m (suc n) i (set_bit ids 0))
        (sym (
          insert-front p ps (λ q h.
            omega
              (arith, Selected-after n (suc i) (ids / 2) ps s q h, numbered (i + 0) p.input g))))
        (pick (omega arith) (omega arith) (subst (λ k. get_elem? m.inputs k ≡ some p.input) here g)
          t (subst (λ k. Selected m n (suc i) k ps) halved s))
    where
      here : i + 0 ≡ i
      here = omega arith

      halved : ids / 2 ≡ (2 * (ids / 2) + 1) / 2
      halved = omega arith
  insert-Selected p (suc n) i (suc j) ids ps l b f g t (skip e s) = skip (omega (arith, e)) (
      subst (λ k. Selected m n (suc i) k (insert key p ps)) halved
        (insert-Selected p n (suc i) j (ids / 2) ps (omega arith) b (omega arith)
          (subst (λ k. get_elem? m.inputs k ≡ some p.input) there g) t s))
    where
      there : i + suc j ≡ suc i + j
      there = omega arith

      halved : set_bit (ids / 2) j ≡ (2 * set_bit (ids / 2) j + ids % 2) / 2
      halved = omega arith
  insert-Selected p (suc n) i zero ids (q ∷ ps) l b f g t (pick e l' g' t' s) =
      absurd (ground (arith, e, b))
  insert-Selected p (suc n) i (suc j) ids (q ∷ ps) l b f g t (pick e l' g' t' s) =
      subst (Selected m (suc n) i (set_bit ids (suc j)))
        (sym (
          insert-later p q ps
            (omega (arith, numbered i q.input g', numbered (i + suc j) p.input g))))
        (pick (omega (arith, e)) l' g' t' (
          subst (λ k. Selected m n (suc i) k (insert key p ps)) halved
            (insert-Selected p n (suc i) j (ids / 2) ps (omega arith) b (omega arith)
              (subst (λ k. get_elem? m.inputs k ≡ some p.input) there g) t s)))
    where
      there : i + suc j ≡ suc i + j
      there = omega arith

      halved : set_bit (ids / 2) j ≡ (2 * set_bit (ids / 2) j + ids % 2) / 2
      halved = omega arith

  -- The pair of an input whose bit is set is found.
  pub find_pair-Selected :
      (n i j ids at : ℕ) (ps : List ValuePair)
      → j < n
      → has_bit ids j ≡ true
      → Selected m n i ids ps
      → (k : ℕ) × (q : ValuePair) × (find_pair (i + j) at ps ≡ some (at + k))
        × (get_elem? ps k ≡ some q)
        × (get_elem? m.inputs (i + j) ≡ some q.input)
  unfolding has_bit find_pair
  find_pair-Selected zero i j ids at ps l b s = absurd (omega arith)
  find_pair-Selected (suc n) i zero ids at ps l b (skip e s) = absurd (ground (arith, e, b))
  find_pair-Selected (suc n) i (suc j) ids at ps l b (skip e s) =
      subst
        (λ id.
          (k : ℕ) × (q : ValuePair) × (find_pair id at ps ≡ some (at + k))
          × (get_elem? ps k ≡ some q)
          × (get_elem? m.inputs id ≡ some q.input))
        there (find_pair-Selected n (suc i) j (ids / 2) at ps (omega arith) b s)
    where
      there : suc i + j ≡ i + suc j
      there = omega arith
  find_pair-Selected (suc n) i zero ids at (p ∷ ps) l b (pick e l' g t s) =
      (0, p, rw same (ap some (omega arith)), refl, ap (get_elem? m.inputs) (omega arith) ∙ g)
    where
      same : (p.input.head == i + 0) ≡ true
      same = (==_iff p.input.head (i + 0)).1 (omega (arith, numbered i p.input g))
  find_pair-Selected (suc n) i (suc j) ids at (p ∷ ps) l b (pick e l' g t s) =
      let (k, q, found, at_k, input) =
        find_pair-Selected n (suc i) j (ids / 2) (suc at) ps (omega arith) b s in
      (
        suc k,
        q,
        rw other (ap (λ id. find_pair id (suc at) ps) there ∙ found ∙ ap some (omega arith)),
        at_k,
        ap (get_elem? m.inputs) there ∙ input,
      )
    where
      there : i + suc j ≡ suc i + j
      there = omega arith

      other : (p.input.head == i + suc j) ≡ false
      other = ground (arith, numbered i p.input g)

-- A module that was built by its methods has its inputs numbered by their places.
pub built-IsNumbered : (m : Module) → IsBuilt m → IsNumbered m
built-IsNumbered m b i input h = omega (arith, placed 0 m.inputs i b.inputs_numbered h)
  where
    placed :
        (n : ℕ) (inputs : List ModuleInput) (i : ℕ)
        → Numbered input_id n inputs
        → get_elem? inputs i ≡ some input
        → input.head ≡ n + i
    placed n [] i w e = absurd (ground (arith, e))
    placed n (x ∷ inputs) zero w e = omega (arith, w.0, ap (λ y. y.head) (some-injective _ _ e))
    placed n (x ∷ inputs) (suc i) w e = omega (arith, placed (suc n) inputs i w.1 e)
