-- ===== src/Comms/DataDeclaration/Typed/Laws.antt =====
-- What arrives of a typed declaration.
use robocrisp.Base.{
  ℕ, ◌+◌, ◌*◌, ◌%◌, ◌≤◌, ◌<◌, ◌≡◌, refl, sym, ap, ◌∙◌, subst, Bool, true, false, not, List, length,
  Option, none, some, memcpy, slice, length-append, length-memcpy, ◌==◌, slice-memcpy_self,
  slice-memcpy_before, ==_refl, bool_eq_refl, if◌then◌else◌, Bool-cases, inl, inr, arith,
}
use robocrisp.Comms.Buffer.{EncodeBuffer, EncodeResult, DecodeResult}
use robocrisp.Comms.Buffer.Laws.{
  IsValid, room, put, written, reopen, reopen-IsSmall, ahead-put, advance-reopen, written-put,
}
use robocrisp.Comms.DataDeclaration
use robocrisp.Comms.DataDeclaration.{
  DataDeclaration, value, neutral_value, minimum_value, maximum_value, header_size, no_values,
  blank,
}
use robocrisp.Comms.DataDeclaration.Header.{IsDeclaration, bytes, restored}
use robocrisp.Comms.DataDeclaration.Codec.{encode-Emits, decode-restored, get_encoded_size-length}
use robocrisp.Comms.DataDeclaration.Equality.{filled_neutral, filled_minimum, filled_maximum}
use robocrisp.Comms.DataDeclaration.Typed.{
  Kind, integral, floating, ValueType, TypedDeclaration, Arguments, or_default, declare, type_of,
  copy_if, minimum_source, generic, encode, get_tail_size, get_encoded_size, equal,
}

-- A type of at most 16 bytes whose absent value is one.
pub record IsType (t : ValueType) : Type 0 where
  pub sized : t.size ≤ 16
  pub absent_is : t.is_absent t.absent ≡ true
  pub absent_sized : length t.absent ≡ t.size

-- Arguments whose values are of the type, with its own width.
pub record IsArguments (t : ValueType) (a : Arguments) : Type 0 where
  pub own_width : a.width ≡ none
  pub neutral_sized : length (or_default a.neutral t.absent) ≡ t.size
  pub minimum_sized : length (or_default a.minimum t.absent) ≡ t.size
  pub maximum_sized : length (or_default a.maximum t.absent) ≡ t.size

-- What an argument says: the absent value says nothing.
abbrev pub stated : ValueType → Option (List ℕ) → Option (List ℕ)
stated t none = none
stated t (some v) = if t.is_absent v then none else some v

-- The value that a declaration has at a place.
abbrev pub found : Bool → DataDeclaration → ℕ → Option (List ℕ)
found present d at = if present then some (value d at) else none

-- The minimum that arrives where `x` is stated.
abbrev pub arriving_value : Kind → List ℕ → List ℕ → List ℕ
arriving_value integral neutral x = x
arriving_value floating neutral x = neutral

abbrev pub arriving : ValueType → Arguments → Option (List ℕ) → Option (List ℕ)
arriving t a none = none
arriving t a (some x) = some (arriving_value t.kind (or_default a.neutral t.absent) x)

length-copy_if :
    (present : Bool) (at : ℕ) (v block : List ℕ)
    → length (copy_if present at v block) ≡ length block
length-copy_if true at v block = length-memcpy block at v
length-copy_if false at v block = refl

copy_if_before :
    (present : Bool) (at : ℕ) (v block : List ℕ) (from n : ℕ)
    → from + n ≤ at
    → slice (copy_if present at v block) from n ≡ slice block from n
copy_if_before true at v block from n h = slice-memcpy_before block at v from n h
copy_if_before false at v block from n h = refl

copy_self :
    (at n : ℕ) (v block : List ℕ)
    → length v ≡ n
    → at + n ≤ length block
    → slice (memcpy block at v) at n ≡ v
copy_self at n v block e h =
    subst (λ n. slice (memcpy block at v) at n ≡ v) e
      (slice-memcpy_self block at v (omega (arith, e)))

-- The three values, one behind the other, as far as they are there.
abbrev copied : Bool → Bool → Bool → List ℕ → List ℕ → List ℕ → List ℕ
copied n l u x y z =
    copy_if u maximum_value z (copy_if l minimum_value y (copy_if n neutral_value x no_values))

length-copied : (n l u : Bool) (x y z : List ℕ) → length (copied n l u x y z) ≡ 48
length-copied n l u x y z =
    length-copy_if u maximum_value z
      (copy_if l minimum_value y (copy_if n neutral_value x no_values))
    ∙ length-copy_if l minimum_value y (copy_if n neutral_value x no_values)
    ∙ length-copy_if n neutral_value x no_values

module _ (k : ℕ) (x y z : List ℕ) (small : k ≤ 16) where
  copied_neutral :
      (n l u : Bool) → n ≡ true → length x ≡ k → slice (copied n l u x y z) neutral_value k ≡ x
  copied_neutral n l u h e =
      copy_if_before u maximum_value z _ neutral_value k (omega (arith, small))
      ∙ copy_if_before l minimum_value y _ neutral_value k (omega (arith, small))
      ∙ rw h (copy_self neutral_value k x no_values e (omega (arith, small)))

  copied_minimum :
      (n l u : Bool) → l ≡ true → length y ≡ k → slice (copied n l u x y z) minimum_value k ≡ y
  copied_minimum n l u h e =
      copy_if_before u maximum_value z _ minimum_value k (omega (arith, small))
      ∙ rw h (
          copy_self minimum_value k y (copy_if n neutral_value x no_values) e
            (omega (arith, small, length-copy_if n neutral_value x no_values)))

  copied_maximum :
      (n l u : Bool) → u ≡ true → length z ≡ k → slice (copied n l u x y z) maximum_value k ≡ z
  copied_maximum n l u h e = rw h (
      copy_self maximum_value k z (copy_if l minimum_value y (copy_if n neutral_value x no_values))
        e
        (omega (
          arith,
          small,
          length-copy_if l minimum_value y (copy_if n neutral_value x no_values),
          length-copy_if n neutral_value x no_values,
        )))

found_lem :
    (p : Bool) (r : DataDeclaration) (at : ℕ) (x : List ℕ)
    → (p ≡ true → value r at ≡ x)
    → found p r at ≡ (if p then some x else none)
found_lem true r at x h = ap some (h refl)
found_lem false r at x h = refl

stated_lem :
    (t : ValueType) (o : Option (List ℕ))
    → IsType t
    → (if not (t.is_absent (or_default o t.absent)) then some (or_default o t.absent) else none)
      ≡ stated t o
stated_lem t none v = rw v.absent_is refl
stated_lem t (some x) v = elim (Bool-cases (t.is_absent x)) [
  | inl e ↦ rw e refl
  | inr e ↦ rw e refl
]

module _ (t : ValueType) (held : ℕ) (a : Arguments) (v : IsType t) (w : IsArguments t a) where
  d : TypedDeclaration
  d = declare t held a

  g : DataDeclaration
  g = generic t d

  width_lem : g.width ≡ t.size
  unfolding g d generic declare
  width_lem = rw w.own_width (omega (arith, v.sized))

  generic-IsDeclaration : IsDeclaration g
  unfolding g generic
  generic-IsDeclaration = record {
    type_fits = small t.kind;
    width_fits = omega (arith, width_lem, v.sized);
    array_size_width_fits = omega arith;
    block =
        length-copied d.has_neutral_value d.has_minimum_value d.has_maximum_value d.neutral_value
          (minimum_source t.kind d) d.maximum_value;
  }
    where
      small : (k : Kind) → type_of k < 64
      small integral = omega arith
      small floating = omega arith

  source_sized : (k : Kind) → length (minimum_source k d) ≡ t.size
  unfolding d declare
  source_sized integral = w.minimum_sized
  source_sized floating = w.neutral_sized

  found_neutral :
      found (restored g).has_neutral_value (restored g) neutral_value ≡ stated t a.neutral
  unfolding restored g d generic declare
  found_neutral =
      found_lem g.has_neutral_value (restored g) neutral_value d.neutral_value (λ h.
        filled_neutral g generic-IsDeclaration h
        ∙ ap (λ k. slice g.values 0 k) width_lem
        ∙ copied_neutral t.size d.neutral_value (minimum_source t.kind d) d.maximum_value v.sized
            d.has_neutral_value d.has_minimum_value d.has_maximum_value h w.neutral_sized)
      ∙ stated_lem t a.neutral v

  found_maximum :
      found (restored g).has_maximum_value (restored g) maximum_value ≡ stated t a.maximum
  unfolding restored g d generic declare
  found_maximum =
      found_lem g.has_maximum_value (restored g) maximum_value d.maximum_value (λ h.
        filled_maximum g generic-IsDeclaration h
        ∙ ap (λ k. slice g.values 32 k) width_lem
        ∙ copied_maximum t.size d.neutral_value (minimum_source t.kind d) d.maximum_value v.sized
            d.has_neutral_value d.has_minimum_value d.has_maximum_value h w.maximum_sized)
      ∙ stated_lem t a.maximum v

  source_lem :
      (k : Kind)
      → minimum_source k d
        ≡ arriving_value k (or_default a.neutral t.absent) (or_default a.minimum t.absent)
  unfolding d declare
  source_lem integral = refl
  source_lem floating = refl

  arriving_lem :
      (o : Option (List ℕ))
      → (if not (t.is_absent (or_default o t.absent))
          then some (arriving_value t.kind (or_default a.neutral t.absent) (or_default o t.absent))
          else none)
        ≡ arriving t a (stated t o)
  arriving_lem none = rw v.absent_is refl
  arriving_lem (some x) = elim (Bool-cases (t.is_absent x)) [
    | inl e ↦ rw e refl
    | inr e ↦ rw e refl
  ]

  found_minimum :
      found (restored g).has_minimum_value (restored g) minimum_value
      ≡ arriving t a (stated t a.minimum)
  unfolding restored g d generic declare
  found_minimum =
      found_lem g.has_minimum_value (restored g) minimum_value (minimum_source t.kind d) (λ h.
        filled_minimum g generic-IsDeclaration h
        ∙ ap (λ k. slice g.values 16 k) width_lem
        ∙ copied_minimum t.size d.neutral_value (minimum_source t.kind d) d.maximum_value v.sized
            d.has_neutral_value d.has_minimum_value d.has_maximum_value h (source_sized t.kind))
      ∙ ap (λ x. if g.has_minimum_value then some x else none) (source_lem t.kind)
      ∙ arriving_lem a.minimum

  declared_width : d.width ≡ t.size
  unfolding d declare
  declared_width = rw w.own_width (omega (arith, v.sized))

  announced : get_encoded_size d ≡ length (bytes g)
  unfolding get_encoded_size get_tail_size DataDeclaration.get_encoded_size
      DataDeclaration.get_tail_size g generic
  announced =
      ap
        (λ n.
          header_size
          + n
            * (DataDeclaration.bit d.has_neutral_value
                + DataDeclaration.bit d.has_minimum_value
                + DataDeclaration.bit d.has_maximum_value))
        (declared_width ∙ sym width_lem)
      ∙ get_encoded_size-length g generic-IsDeclaration

  same_width : ((d.width % 32) == d.width) ≡ true
  same_width = ap (λ n. (n % 32) == n) declared_width ∙ kept t.size (omega (arith, v.sized))
    where
      kept : (n : ℕ) → n < 32 → ((n % 32) == n) ≡ true
      kept n h = ground arith

  equal-restored : equal t d (restored g) ≡ true
  unfolding equal restored g generic
  equal-restored = rw (
    ==_refl (type_of t.kind),
    same_width,
    bool_eq_refl t.is_signed,
    bool_eq_refl d.has_neutral_value,
    bool_eq_refl d.has_minimum_value,
    bool_eq_refl d.has_maximum_value,
  )

-- A typed declaration is made of arguments, of a type of at most 16 bytes and with its width. Encoded into
-- a well-formed buffer with room for `get_encoded_size` bytes, it succeeds and appends as many, and from
-- where it began a generic declaration is decoded, which ends where the encoder did, is equal to the typed
-- one and has its type, its width, and whether it is of an array; its size of the array's length is 0. Its
-- neutral and maximum values are the arguments, where these are given and are not the absent value;
-- for integers so is the minimum value; for floating-point numbers the minimum, where one is
-- stated, is the neutral value.
pub decode-encode_typed :
    (t : ValueType) (held : ℕ) (a : Arguments) (b : EncodeBuffer)
    → IsType t
    → IsArguments t a
    → IsValid b
    → get_encoded_size (declare t held a) ≤ room b
    → (b' : EncodeBuffer) × (r : DataDeclaration) × (encode t (declare t held a) b
        ≡ (EncodeResult.success, b'))
      × (length (written b') ≡ length (written b) + get_encoded_size (declare t held a))
      × (DataDeclaration.decode (reopen b' b.offset)
          ≡ (DecodeResult.success, r, reopen b' b'.offset))
      × (equal t (declare t held a) r ≡ true)
      × (r.type ≡ type_of t.kind)
      × (r.width ≡ t.size)
      × (r.is_array ≡ or_default a.array false)
      × (r.array_size_width ≡ 0)
      × (found r.has_neutral_value r neutral_value ≡ stated t a.neutral)
      × (found r.has_maximum_value r maximum_value ≡ stated t a.maximum)
      × (found r.has_minimum_value r minimum_value ≡ arriving t a (stated t a.minimum))
unfolding encode g d restored generic declare
decode-encode_typed t held a b v w i h =
    let e = g t held a v w in
    let k = generic-IsDeclaration t held a v w in
    let fits : length (bytes e) ≤ room b = omega (arith, announced t held a v w, h) in
    (
      put b (bytes e),
      restored e,
      encode-Emits e b i fits,
      ap length (written-put b (bytes e) i fits)
          ∙ length-append (written b) (bytes e)
          ∙ ap (λ n. length (written b) + n) (sym (announced t held a v w)),
      decode-restored e (reopen (put b (bytes e)) b.offset) _ k (reopen-IsSmall b (bytes e) i fits)
            (ahead-put b (bytes e) i fits)
          ∙ ap (λ c. (DecodeResult.success, restored e, c)) (advance-reopen b (bytes e) i fits),
      equal-restored t held a v w,
      refl,
      width_lem t held a v w,
      refl,
      refl,
      found_neutral t held a v w,
      found_maximum t held a v w,
      found_minimum t held a v w,
    )
