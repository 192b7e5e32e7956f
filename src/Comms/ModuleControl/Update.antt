-- ===== src/Comms/ModuleControl/Update.antt =====
-- A value that is set in place, through a pointer into the container of a control.
use robocrisp.Base.{
  ℕ, zero, suc, ◌/◌, ◌≡◌, refl, ap, ◌∙◌, List, [], ◌∷◌, length, length-memcpy, memcpy_whole,
  get_elem?, some, ◌==◌, if◌then◌else◌, arith,
}
use mathlib.Core.Option
use robocrisp.Comms.DataValue
use robocrisp.Comms.DataValue.{DataValue}
use robocrisp.Comms.DataValue.Codec.{IsSingle}
use robocrisp.Comms.Module.{Module}
use robocrisp.Comms.ModuleControl.{ValuePair, find_pair, update, write_pair}
use robocrisp.Comms.ModuleControl.Codec.{Selected, stop, skip, pick, IsPair}

pub get_elem?-update {ℓ} :
    {A : Type ℓ} (at : ℕ) (f : A → A) (xs : List A) (x : A)
    → get_elem? xs at ≡ some x
    → get_elem? (update at f xs) at ≡ some (f x)
unfolding update
get_elem?-update at f [] x h = absurd (ground (arith, h))
get_elem?-update zero f (y ∷ xs) x h = ap (Option.map f) h
get_elem?-update (suc at) f (y ∷ xs) x h = get_elem?-update at f xs x h

write_pair-IsPair : (bytes : List ℕ) (p : ValuePair) → IsPair p → IsPair (write_pair bytes p)
unfolding write_pair DataValue.set
write_pair-IsPair bytes p h = record {
  single = record {
    single = h.single.single;
    sized = length-memcpy p.value.value 0 bytes ∙ h.single.sized;
    narrow = h.single.narrow;
    owned = h.single.owned;
  };
  typed = h.typed;
}

pub update-Selected :
    (m : Module) (bytes : List ℕ) (n i ids at : ℕ) (ps : List ValuePair)
    → Selected m n i ids ps
    → Selected m n i ids (update at (write_pair bytes) ps)
unfolding update write_pair
update-Selected m bytes zero i ids at [] stop = stop
update-Selected m bytes zero i ids at (p ∷ ps) s = elim s [ ]
update-Selected m bytes (suc n) i ids at ps (skip e s) =
    skip e (update-Selected m bytes n (suc i) (ids / 2) at ps s)
update-Selected m bytes (suc n) i ids zero (p ∷ ps) (pick e l g h s) =
    pick e l g (write_pair-IsPair bytes p h) s
update-Selected m bytes (suc n) i ids (suc at) (p ∷ ps) (pick e l g h s) =
    pick e l g h (update-Selected m bytes n (suc i) (ids / 2) at ps s)

pub find_pair-update :
    (bytes : List ℕ) (id from at : ℕ) (ps : List ValuePair)
    → find_pair id from (update at (write_pair bytes) ps) ≡ find_pair id from ps
unfolding update write_pair find_pair
find_pair-update bytes id from at [] = refl
find_pair-update bytes id from zero (p ∷ ps) = refl
find_pair-update bytes id from (suc at) (p ∷ ps) =
    ap (λ r. if p.input.head == id then some from else r)
      (find_pair-update bytes id (suc from) at ps)

-- All bytes of a value are written over.
pub set-value :
    (v : DataValue) (bytes : List ℕ)
    → IsSingle v
    → length bytes ≡ v.data_type.width
    → (DataValue.set v bytes).value ≡ bytes
unfolding DataValue.set
set-value v bytes s h = memcpy_whole v.value bytes (omega (arith, h, s.sized))
