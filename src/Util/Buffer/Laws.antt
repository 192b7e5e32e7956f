-- ===== src/Util/Buffer/Laws.antt =====
-- Copies, resizing and the owners of blocks of src/util/Buffer.cc.
use robocrisp.Base.{
  ℕ, zero, suc, ◌<◌, ◌≡◌, ◌≢◌, refl, sym, ap, ◌∙◌, true, List, [], ◌∷◌, ◌++◌, length, take,
  take-length, set, memcpy, memcpy_whole, Option, none, some, arith,
}
use robocrisp.Util.Buffer.{Memory, Buffer, block, malloc, free, readable, contents, copy, destroy}

pub block-append_end : (m : Memory) (o : Option (List ℕ)) → block (m ++ o ∷ []) (length m) ≡ o
unfolding block
block-append_end [] o = refl
block-append_end (x ∷ m) o = block-append_end m o

pub block-append_before :
    (m n : Memory) (a : ℕ) (bytes : List ℕ) → block m a ≡ some bytes → block (m ++ n) a ≡ some bytes
unfolding block
block-append_before [] n a bytes h = absurd (ground (arith, h))
block-append_before (x ∷ m) n zero bytes h = h
block-append_before (x ∷ m) n (suc a) bytes h = block-append_before m n a bytes h

block-set_other :
    (m : Memory) (a c : ℕ) (o : Option (List ℕ)) → c ≢ a → block (set m a o) c ≡ block m c
unfolding block
block-set_other [] a c o h = refl
block-set_other (x ∷ m) zero zero o h = absurd (h refl)
block-set_other (x ∷ m) zero (suc c) o h = refl
block-set_other (x ∷ m) (suc a) zero o h = refl
block-set_other (x ∷ m) (suc a) (suc c) o h = block-set_other m a c o (λ e. h (ap suc e))

pub block-set_self :
    (m : Memory) (a : ℕ) (bytes : List ℕ) → block m a ≡ some bytes → block (set m a none) a ≡ none
unfolding block
block-set_self [] a bytes h = refl
block-set_self (x ∷ m) zero bytes h = refl
block-set_self (x ∷ m) (suc a) bytes h = block-set_self m a bytes h

-- A block that is allocated lies in front of the next new one.
block-inside : (m : Memory) (a : ℕ) (bytes : List ℕ) → block m a ≡ some bytes → a < length m
unfolding block
block-inside [] a bytes h = absurd (ground (arith, h))
block-inside (x ∷ m) zero bytes h = omega arith
block-inside (x ∷ m) (suc a) bytes h = omega (arith, block-inside m a bytes h)

-- A buffer over the block `bytes` at `a`, all of it.
pub record IsOver (m : Memory) (b : Buffer) (a : ℕ) (bytes : List ℕ) : Type 0 where
  pub points : b.pointer ≡ some a
  pub there : block m a ≡ some bytes
  pub sized : length bytes ≡ b.length

-- A buffer that owns its block, and a function to free it.
pub record IsOwner (b : Buffer) : Type 0 where
  pub owns : b.owns_data ≡ true
  pub frees : b.free_function ≡ true

pub contents-IsOver :
    (m : Memory) (b : Buffer) (a : ℕ) (bytes : List ℕ)
    → IsOver m b a bytes
    → contents m b ≡ some bytes
unfolding contents readable
contents-IsOver m b a bytes v =
    rw (v.points, v.there)
      (ap (λ n. some (take n bytes)) (sym v.sized) ∙ ap some (take-length bytes))

pub destroy-IsOwner :
    (m : Memory) (b : Buffer) (a : ℕ) (bytes : List ℕ)
    → IsOver m b a bytes
    → IsOwner b
    → destroy b m ≡ some (set m a none)
unfolding destroy free
destroy-IsOwner m b a bytes v o = rw (v.points, o.owns, o.frees, v.there) refl

pub IsOver-set :
    (m : Memory) (b : Buffer) (a c : ℕ) (bytes : List ℕ)
    → a ≢ c
    → IsOver m b a bytes
    → IsOver (set m c none) b a bytes
IsOver-set m b a c bytes n v = record {
  points = v.points;
  there = block-set_other m c a none n ∙ v.there;
  sized = v.sized;
}

IsOver-append :
    (m n : Memory) (b : Buffer) (a : ℕ) (bytes : List ℕ)
    → IsOver m b a bytes
    → IsOver (m ++ n) b a bytes
IsOver-append m n b a bytes v = record {
  points = v.points;
  there = block-append_before m n a bytes v.there;
  sized = v.sized;
}

-- What memory `malloc` gives has the size that was asked for.
abbrev pub Gives : (ℕ → List ℕ) → Type 0
Gives fresh = (n : ℕ) → length (fresh n) ≡ n

-- A copy of a buffer that owns its block has its bytes, in a block of its own: when the copy is
-- destroyed the buffer keeps its bytes, and when the buffer is destroyed the copy keeps them.
pub copy-IsOver :
    (fresh : ℕ → List ℕ) (m : Memory) (b : Buffer) (a : ℕ) (bytes : List ℕ)
    → Gives fresh
    → IsOver m b a bytes
    → IsOwner b
    → (c : Buffer) × (m' : Memory) × (copy fresh b m ≡ some (c, m'))
      × (contents m' c ≡ some bytes)
      × (contents m' b ≡ some bytes)
      × ((n : Memory) × (destroy c m' ≡ some n) × (contents n b ≡ some bytes))
      × ((n : Memory) × (destroy b m' ≡ some n) × (contents n c ≡ some bytes))
unfolding copy malloc
copy-IsOver fresh m b a bytes g v o = (
  c,
  m',
  rw (contents-IsOver m b a bytes v, whole) refl,
  contents-IsOver m' c (length m) bytes over,
  contents-IsOver m' b a bytes kept,
  (
    set m' (length m) none,
    destroy-IsOwner m' c (length m) bytes over owner,
    contents-IsOver (set m' (length m) none) b a bytes
        (IsOver-set m' b a (length m) bytes apart kept),
  ),
  (
    set m' a none,
    destroy-IsOwner m' b a bytes kept o,
    contents-IsOver (set m' a none) c (length m) bytes
        (IsOver-set m' c (length m) a bytes (λ e. apart (sym e)) over),
  ),
)
  where
    c : Buffer
    c = record {
      pointer = some (length m);
      length = b.length;
      owns_data = true;
      free_function = true;
    }

    m' : Memory
    m' = m ++ some bytes ∷ []

    whole : memcpy (fresh b.length) 0 bytes ≡ bytes
    whole = memcpy_whole (fresh b.length) bytes (omega (arith, v.sized, g b.length))

    over : IsOver m' c (length m) bytes
    over = record { points = refl; there = block-append_end m (some bytes); sized = v.sized }

    kept : IsOver m' b a bytes
    kept = IsOver-append m (some bytes ∷ []) b a bytes v

    owner : IsOwner c
    owner = record { owns = refl; frees = refl }

    apart : a ≢ length m
    apart e = absurd (omega (arith, e, block-inside m a bytes v.there))
