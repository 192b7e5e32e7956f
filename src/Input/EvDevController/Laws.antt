-- ===== src/Input/EvDevController/Laws.antt =====
-- Events reach the axes that the device has.
use robocrisp.Base.{
  ℕ, zero, suc, ◌+◌, ◌<◌, ◌≤◌, ◌≡◌, ◌⊎◌, inl, inr, refl, sym, ap, ◌∙◌, subst, Bool, true, false,
  not, ◌&&◌, List, [], ◌∷◌, ◌++◌, map, get_elem?, Option, none, some, some-injective, ◌==◌, ==_iff,
  ==_refl, if◌then◌else◌, Bool-cases, All, All-append, &&_split, arith,
}
use robocrisp.Base.Int.{eq}
use robocrisp.Input.EvDevController.{
  AbsInfo, is_axis, Device, Entry, collect, with_found, places, find_axis, abs_entry, rel_entry,
  entries,
}

pub if_true {ℓ} : {A : Type ℓ} (b : Bool) (x y : A) → b ≡ true → (if b then x else y) ≡ x
if_true true x y h = refl
if_true false x y h = cc

pub if_false {ℓ} : {A : Type ℓ} (b : Bool) (x y : A) → b ≡ false → (if b then x else y) ≡ y
if_false true x y h = cc
if_false false x y h = refl

-- An axis that is found by its numbers is at its place.
pub find_axis-places :
    (t c k : ℕ) (es : List Entry) (n : ℕ)
    → find_axis t c (map (λ p. ((p.0.type, p.0.code), p.1)) (places n es)) ≡ some k
    → (e : Entry) × (j : ℕ) × (k ≡ n + j) × (get_elem? es j ≡ some e) × (e.type ≡ t) × (e.code ≡ c)
unfolding find_axis places
find_axis-places t c k [] n h = cc
find_axis-places t c k (e ∷ es) n h = elim (Bool-cases ((e.type == t) && (e.code == c))) [
  | inl s ↦
      let same = &&_split (e.type == t) (e.code == c) s in
      let at : n ≡ k = some-injective n k (sym (if_true _ _ _ s) ∙ h) in
      (e, 0, omega (arith, at), refl, (==_iff e.type t).0 same.0, (==_iff e.code c).0 same.1)
  | inr s ↦
      let (found, j, at, there, type, code) =
        find_axis-places t c k es (suc n) (sym (if_false _ _ _ s) ∙ h) in
      (found, suc j, omega (arith, at), there, type, code)
]

-- An axis that is there is found by its numbers.
pub places-find_axis :
    (t c : ℕ) (es : List Entry) (n j : ℕ) (e : Entry)
    → get_elem? es j ≡ some e
    → e.type ≡ t
    → e.code ≡ c
    → (k : ℕ) × (find_axis t c (map (λ p. ((p.0.type, p.0.code), p.1)) (places n es)) ≡ some k)
unfolding find_axis places
places-find_axis t c [] n j e h s u = cc
places-find_axis t c (x ∷ es) n zero e h s u = (n, if_true _ _ _ test)
  where
    test : ((x.type == t) && (x.code == c)) ≡ true
    test =
        subst (λ y. ((y.type == t) && (y.code == c)) ≡ true) (sym (some-injective x e h))
          (rw (s, u, ==_refl t, ==_refl c) refl)
places-find_axis t c (x ∷ es) n (suc j) e h s u =
    elim (Bool-cases ((x.type == t) && (x.code == c))) [
      | inl f ↦ (n, if_true _ _ _ f)
      | inr f ↦
          let (k, found) = places-find_axis t c es (suc n) j e h s u in
          (k, if_false _ _ _ f ∙ found)
    ]

module _ {ℓ} {A : Type ℓ} where
  pub collect_there :
      (f : ℕ → Option A) (x : A) (i m n : ℕ)
      → f i ≡ some x
      → m ≤ i
      → i < m + n
      → (j : ℕ) × (get_elem? (collect f m n) j ≡ some x)
  unfolding collect
  collect_there f x i m zero h l u = absurd (omega (arith, l, u))
  collect_there f x i m (suc n) h l u = elim (Bool-cases (m == i)) [
    | inl e ↦
        let at : f m ≡ some x = ap f ((==_iff m i).0 e) ∙ h in
        (0, ap (λ o. get_elem? (with_found o (collect f (suc m) n)) 0) at)
    | inr e ↦
        behind (f m) (collect_there f x i (suc m) n h (ground (arith, e, l)) (omega (arith, u)))
  ]
    where
      behind :
          (o : Option A)
          → (j : ℕ) × (get_elem? (collect f (suc m) n) j ≡ some x)
          → (j : ℕ) × (get_elem? (with_found o (collect f (suc m) n)) j ≡ some x)
      behind none r = r
      behind (some y) (j, r) = (suc j, r)

  collect-All :
      (P : A → Type 0) (f : ℕ → Option A)
      → ((i : ℕ) (x : A) → f i ≡ some x → P x)
      → (m n : ℕ) → All P (collect f m n)
  unfolding collect
  collect-All P f h m zero = tt
  collect-All P f h m (suc n) = add (f m) refl (collect-All P f h (suc m) n)
    where
      add :
          (o : Option A)
          → f m ≡ o
          → All P (collect f (suc m) n)
          → All P (with_found o (collect f (suc m) n))
      add none e v = v
      add (some x) e v = (h m x e, v)

  pub get_elem?-append :
      (xs ys : List A) (j : ℕ) (x : A) → get_elem? xs j ≡ some x → get_elem? (xs ++ ys) j ≡ some x
  get_elem?-append [] ys j x h = cc
  get_elem?-append (y ∷ xs) ys zero x h = h
  get_elem?-append (y ∷ xs) ys (suc j) x h = get_elem?-append xs ys j x h

-- What is true of an element of `_axes`.
abbrev pub IsEntry : Device → Entry → Type 0
IsEntry d e =
    ((e.type ≡ d.ev_rel) × (e.absinfo ≡ none))
    ⊎ ((e.type ≡ d.ev_abs)
        × (info : AbsInfo) × (d.abs_info e.code ≡ some info)
        × (e.absinfo ≡ some info))

module _ (d : Device) where
  abs_entry-there :
      (i : ℕ) (info : AbsInfo)
      → d.abs_info i ≡ some info
      → eq info.minimum info.maximum ≡ false
      → abs_entry d i ≡ some (record { type = d.ev_abs; code = i; absinfo = some info })
  unfolding abs_entry
  abs_entry-there i info h e = rw (h, e) refl

  abs_entry-IsEntry : (i : ℕ) (e : Entry) → abs_entry d i ≡ some e → IsEntry d e
  unfolding abs_entry
  abs_entry-IsEntry i e h = by_info (d.abs_info i) refl h
    where
      by_info : (o : Option AbsInfo) → d.abs_info i ≡ o → is_axis d o i ≡ some e → IsEntry d e
      by_info none g h = cc
      by_info (some info) g h = elim (Bool-cases (eq info.minimum info.maximum)) [
        | inl n ↦
            let contradiction : none ≡ some e =
              sym (if_false (not (eq info.minimum info.maximum)) _ _ (ap not n)) ∙ h in
            cc
        | inr n ↦
            let same =
              some-injective _ e
                (sym (if_true (not (eq info.minimum info.maximum)) _ _ (ap not n)) ∙ h) in
            subst (IsEntry d) same (inr (refl, info, g, refl))
      ]

  rel_entry-IsEntry : (i : ℕ) (e : Entry) → rel_entry d i ≡ some e → IsEntry d e
  unfolding rel_entry
  rel_entry-IsEntry i e h = elim (Bool-cases (d.has_event_code d.ev_rel i)) [
    | inl n ↦
        let same = some-injective _ e (sym (if_true (d.has_event_code d.ev_rel i) _ _ n) ∙ h) in
        subst (IsEntry d) same (inl (refl, refl))
    | inr n ↦
        let contradiction : none ≡ some e =
          sym (if_false (d.has_event_code d.ev_rel i) _ _ n) ∙ h in
        cc
  ]

  pub entries-IsEntry : All (IsEntry d) (entries d)
  unfolding entries
  entries-IsEntry =
      All-append (IsEntry d) _ _
        (only (d.has_event_type d.ev_abs) (abs_entry d) d.abs_count abs_entry-IsEntry)
        (only (d.has_event_type d.ev_rel) (rel_entry d) d.event_count rel_entry-IsEntry)
    where
      only :
          (p : Bool) (f : ℕ → Option Entry) (n : ℕ)
          → ((i : ℕ) (e : Entry) → f i ≡ some e → IsEntry d e)
          → All (IsEntry d) (if p then collect f 0 n else [])
      only true f n h = collect-All (IsEntry d) f h 0 n
      only false f n h = tt

  -- An absolute axis that the device has is one of the entries.
  pub entries-there :
      (i : ℕ) (info : AbsInfo)
      → d.has_event_type d.ev_abs ≡ true
      → i < d.abs_count
      → d.abs_info i ≡ some info
      → eq info.minimum info.maximum ≡ false
      → (j : ℕ) × (get_elem? (entries d) j
          ≡ some (record { type = d.ev_abs; code = i; absinfo = some info }))
  unfolding entries
  entries-there i info t l h r =
      let (j, found) =
        collect_there (abs_entry d) _ i 0 d.abs_count (abs_entry-there i info h r) (omega arith)
          (omega (arith, l)) in
      (
        j,
        get_elem?-append _ _ j _
            (ap (λ xs. get_elem? xs j) (if_true (d.has_event_type d.ev_abs) _ _ t) ∙ found),
      )
