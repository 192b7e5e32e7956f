-- ===== src/Comms/Module/Lookup.antt =====
-- `Module::find_input`.
use robocrisp.Base.{
  ℕ, zero, suc, ◌<◌, ◌≡◌, refl, sym, ap, ap₂, ◌∙◌, Bool, true, ◌&&◌, List, [], ◌∷◌, All, length,
  get_elem?, take, Option, some, none, ◌==◌, ==_iff, ==_refl, Bool-cases, inl, inr, &&_split, arith,
}
use robocrisp.Comms.Named.{name_bytes}
use robocrisp.Comms.Named.Codec.{HasName}
use robocrisp.Comms.ModuleInput.{ModuleInput}
use robocrisp.Comms.Module.{Module, strlen, strncmp_eq, find_among, find_input}

-- The input bears the name `name`: as many characters, and the same ones.
abbrev pub IsCalled : ModuleInput → List ℕ → Type 0
IsCalled input name =
    (input.name_length ≡ strlen name)
    × (name_bytes input.name input.name_length ≡ take (strlen name) name)

-- Up to its first NUL a string agrees with another in `strncmp` if it has the same characters.
strncmp_eq_lem :
    (s t : List ℕ)
    → length t ≡ strlen s
    → (strncmp_eq s t (strlen s) ≡ true → t ≡ take (strlen s) s)
      × (t ≡ take (strlen s) s → strncmp_eq s t (strlen s) ≡ true)
unfolding strncmp_eq strlen
strncmp_eq_lem [] [] h = (λ e. refl, λ e. refl)
strncmp_eq_lem [] (d ∷ t) h = absurd (omega arith)
strncmp_eq_lem (c ∷ s) [] h = elim (Bool-cases (c == 0)) [
  | inl e ↦ rw e (λ q. refl, λ q. refl)
  | inr e ↦ absurd (ground arith)
]
strncmp_eq_lem (c ∷ s) (d ∷ t) h = elim (Bool-cases (c == 0)) [
  | inl e ↦ absurd (ground arith)
  | inr e ↦ let ih = strncmp_eq_lem s t (ground arith) in rw (e, e) (forward ih.0, backward ih.1)
]
  where
    forward :
        (strncmp_eq s t (strlen s) ≡ true → t ≡ take (strlen s) s)
        → (c == d && strncmp_eq s t (strlen s)) ≡ true
        → d ∷ t ≡ c ∷ take (strlen s) s
    forward ih q =
        let both = &&_split (c == d) (strncmp_eq s t (strlen s)) q in
        ap₂ ◌∷◌ (sym ((==_iff c d).0 both.0)) (ih both.1)

    backward :
        (t ≡ take (strlen s) s → strncmp_eq s t (strlen s) ≡ true)
        → d ∷ t ≡ c ∷ take (strlen s) s
        → (c == d && strncmp_eq s t (strlen s)) ≡ true
    backward ih q =
        let heads : d ≡ c = cc in
        let tails : t ≡ take (strlen s) s = cc in rw (heads, ==_refl c, ih tails)

-- The test of the loop.
abbrev called : List ℕ → ModuleInput → Bool
called name input =
    input.name_length == strlen name
    && strncmp_eq name (name_bytes input.name input.name_length) input.name_length

-- The test decides whether the input bears the name, if the input's name is there.
called_lem :
    (name : List ℕ) (input : ModuleInput)
    → HasName input.name input.name_length
    → (called name input ≡ true → IsCalled input name)
      × (IsCalled input name → called name input ≡ true)
called_lem name input v = (sound, complete)
  where
    n : ℕ
    n = input.name_length

    chars : List ℕ
    chars = name_bytes input.name n

    same : n ≡ strlen name → strncmp_eq name chars n ≡ strncmp_eq name chars (strlen name)
    same e = ap (strncmp_eq name chars) e

    sound : called name input ≡ true → IsCalled input name
    sound q =
        let both = &&_split (n == strlen name) (strncmp_eq name chars n) q in
        let e = (==_iff n (strlen name)).0 both.0 in
        (e, (strncmp_eq_lem name chars (v ∙ e)).0 (sym (same e) ∙ both.1))

    complete : IsCalled input name → called name input ≡ true
    complete q =
        let e : (n == strlen name) ≡ true = (==_iff n (strlen name)).1 q.0 in
        let f : strncmp_eq name chars n ≡ true =
          same q.0 ∙ (strncmp_eq_lem name chars (v ∙ q.0)).1 q.1 in
        rw (e, f)

-- `find_input` over the first `n` inputs: it finds the first one of the name, or none bears it.
abbrev pub Finds : List ℕ → ℕ → List ModuleInput → Option ModuleInput → Type 0
Finds name n inputs none = All (λ (x : ModuleInput). ¬ IsCalled x name) (take n inputs)
Finds name n inputs (some found) =
    (i : ℕ) × (i < n)
    × (get_elem? inputs i ≡ some found)
    × IsCalled found name
    × All (λ (x : ModuleInput). ¬ IsCalled x name) (take i inputs)

Finds-cons :
    (name : List ℕ) (n : ℕ) (x : ModuleInput) (xs : List ModuleInput) (o : Option ModuleInput)
    → ¬ IsCalled x name
    → Finds name n xs o
    → Finds name (suc n) (x ∷ xs) o
Finds-cons name n x xs none no_match f = (no_match, f)
Finds-cons name n x xs (some found) no_match f =
    (suc f.0, omega (arith, f.1), f.2, f.3, (no_match, f.4))

find_among-Finds :
    (name : List ℕ) (n : ℕ) (inputs : List ModuleInput)
    → All (λ (x : ModuleInput). HasName x.name x.name_length) inputs
    → Finds name n inputs (find_among name n inputs)
unfolding find_among
find_among-Finds name zero inputs v = tt
find_among-Finds name (suc n) [] v = tt
find_among-Finds name (suc n) (x ∷ xs) v = elim (Bool-cases (called name x)) [
  | inl e ↦ rw e (0, omega arith, refl, (called_lem name x v.0).0 e, tt)
  | inr e ↦ rw e (
      Finds-cons name n x xs (find_among name n xs) (λ q. cc ((called_lem name x v.0).1 q))
        (find_among-Finds name n xs v.1))
]

-- `find_input` gives the first of the module's inputs that bears the name, where the characters are
-- the same up to the NUL that ends `name`; it gives null if none of them bears it. The names of the
-- inputs are taken to be there.
pub find_input-Finds :
    (m : Module) (name : List ℕ)
    → All (λ (x : ModuleInput). HasName x.name x.name_length) m.inputs
    → Finds name m.num_inputs m.inputs (find_input m name)
unfolding find_input
find_input-Finds m name v = find_among-Finds name m.num_inputs m.inputs v
