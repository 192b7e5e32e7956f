-- ===== src/Util/Buffer/Owning.antt =====
-- Resizing, moving and resetting the buffers of src/util/Buffer.cc.
use robocrisp.Base.{
  ℕ, zero, suc, ◌-◌, ◌≡◌, ◌≢◌, ◌⊎◌, inl, inr, min, refl, sym, ap, ◌∙◌, true, false, List, [], ◌∷◌,
  ◌++◌, length, length-append, length-take, length-replicate, take, take-nil, take-append_of,
  replicate, set, memcpy, memcpy_whole, length-memcpy, take-memcpy, none, some, Bool-cases, arith,
}
use robocrisp.Util.Buffer.{
  Memory, Buffer, block, malloc, free, from_pointer, move, readable, contents, destroy, resize,
  resize_borrowed, resize_owned, reset,
}
use robocrisp.Util.Buffer.Laws.{
  IsOver, IsOwner, Gives, contents-IsOver, destroy-IsOwner, IsOver-set, block-append_end,
  block-append_before, block-set_self,
}

take-min : (n : ℕ) (xs : List ℕ) → take (min (length xs) n) xs ≡ take n xs
take-min zero [] = refl
take-min (suc n) [] = take-nil (min 0 (suc n)) ∙ sym (take-nil (suc n))
take-min zero (x ∷ xs) = ap (λ k. take k (x ∷ xs)) none_left
  where
    none_left : min (suc (length xs)) 0 ≡ 0
    none_left = omega arith
take-min (suc n) (x ∷ xs) = ap (λ k. take k (x ∷ xs)) shift ∙ ap (◌∷◌ x) (take-min n xs)
  where
    shift : min (suc (length xs)) (suc n) ≡ suc (min (length xs) n)
    shift = omega arith

module _ (fresh : ℕ → List ℕ) (g : Gives fresh) (capacity : ℕ) (m : Memory) (b : Buffer) (a : ℕ)
    (bytes : List ℕ) (v : IsOver m b a bytes) where
  -- The bytes that the buffer keeps.
  abbrev pub kept : List ℕ
  kept = take (min b.length capacity) bytes

  length-kept : length kept ≡ min b.length capacity
  length-kept = omega (arith, length-take (min b.length capacity) bytes, v.sized)

  -- What a resized buffer is: its bytes are `ys`.
  abbrev pub Resized : Type 0
  Resized =
      (b' : Buffer) × (m' : Memory) × (ys : List ℕ) × (resize fresh capacity b m ≡ some (b', m'))
      × (b'.length ≡ capacity)
      × (b'.owns_data ≡ true)
      × (b'.free_function ≡ b.free_function)
      × (contents m' b' ≡ some ys)
      × (take (min b.length capacity) ys ≡ kept)
      × ((b.owns_data ≡ true)
          ⊎ (ys ≡ kept ++ replicate (capacity - b.length) 0) × (block m' a ≡ some bytes))

  resized_borrowed : b.owns_data ≡ false → Resized
  unfolding resize resize_borrowed readable malloc
  resized_borrowed e =
      let ys = kept ++ replicate (capacity - b.length) 0 in
      (
        record b { pointer = some (length m); length = capacity; owns_data = true },
        m ++ some ys ∷ [],
        ys,
        rw (e, v.points, v.there, whole) refl,
        refl,
        refl,
        refl,
        contents-IsOver (m ++ some ys ∷ []) _ (length m) ys
            (record { points = refl; there = block-append_end m (some ys); sized = filled }),
        take-append_of (min b.length capacity) kept _ length-kept,
        inr (refl, block-append_before m (some ys ∷ []) a bytes v.there),
      )
    where
      filled : length (kept ++ replicate (capacity - b.length) 0) ≡ capacity
      filled = omega (
        arith,
        length-append kept (replicate (capacity - b.length) 0),
        length-kept,
        length-replicate {A = ℕ} (capacity - b.length) 0,
      )

      whole :
          memcpy (fresh capacity) 0 (kept ++ replicate (capacity - b.length) 0)
          ≡ kept ++ replicate (capacity - b.length) 0
      whole = memcpy_whole (fresh capacity) _ (omega (arith, filled, g capacity))

  resized_owned : b.owns_data ≡ true → Resized
  unfolding resize resize_owned malloc
  resized_owned e =
      let ys = memcpy (fresh capacity) 0 (take capacity bytes) in
      let m₁ = set m a none in
      (
        record b { pointer = some (length m₁); length = capacity },
        m₁ ++ some ys ∷ [],
        ys,
        rw (e, v.points, v.there) refl,
        refl,
        e,
        refl,
        contents-IsOver (m₁ ++ some ys ∷ []) _ (length m₁) ys (record {
          points = refl;
          there = block-append_end m₁ (some ys);
          sized = omega (arith, length-memcpy (fresh capacity) 0 (take capacity bytes), g capacity);
        }),
        start,
        inl e,
      )
    where
      same : kept ≡ take capacity bytes
      same = ap (λ n. take (min n capacity) bytes) (sym v.sized) ∙ take-min capacity bytes

      start : take (min b.length capacity) (memcpy (fresh capacity) 0 (take capacity bytes)) ≡ kept
      start =
          ap (λ n. take n (memcpy (fresh capacity) 0 (take capacity bytes)))
            (omega (arith, ap length same, length-kept))
          ∙ take-memcpy (fresh capacity) 0 (take capacity bytes)
              (omega (arith, length-take capacity bytes, g capacity))
          ∙ sym same

-- A buffer over a block is resized to any capacity: it has that length then and owns its block, and
-- the bytes that fit are those it had. If it did not own the block before, they are followed by zeros,
-- and the block it was over is as it was.
pub resize-contents :
    (fresh : ℕ → List ℕ) (capacity : ℕ) (m : Memory) (b : Buffer) (a : ℕ) (bytes : List ℕ)
    (g : Gives fresh) (v : IsOver m b a bytes)
    → Resized fresh g capacity m b a bytes v
resize-contents fresh capacity m b a bytes g v = elim (Bool-cases b.owns_data) [
  | inl e ↦ resized_owned fresh g capacity m b a bytes v e
  | inr e ↦ resized_borrowed fresh g capacity m b a bytes v e
]

-- A buffer that does not own its block and is resized cannot be destroyed: it owns a block then, and
-- has no function to free it.
pub destroy-resize :
    (fresh : ℕ → List ℕ) (capacity a : ℕ) (m : Memory) (bytes : List ℕ)
    → Gives fresh
    → block m a ≡ some bytes
    → (b' : Buffer) × (m' : Memory) × (resize fresh capacity (from_pointer a (length bytes)) m
        ≡ some (b', m'))
      × (destroy b' m' ≡ none)
unfolding from_pointer resize resize_borrowed readable malloc destroy
destroy-resize fresh capacity a m bytes g h = (
  record { pointer = some (length m); length = capacity; owns_data = true; free_function = false },
  m
      ++ some (
          memcpy (fresh capacity) 0
            (take (min (length bytes) capacity) bytes ++ replicate (capacity - length bytes) 0))
        ∷ [],
  rw h refl,
  refl,
)

-- A buffer that owns its block and is moved: the new one is over the same bytes, and both are destroyed
-- in either order, which frees the block once.
pub destroy-move :
    (m : Memory) (b : Buffer) (a : ℕ) (bytes : List ℕ)
    → IsOver m b a bytes
    → IsOwner b
    → let (c, b') = move b in
      (contents m c ≡ some bytes)
      × (destroy b' m ≡ some m)
      × (destroy c m ≡ some (set m a none))
      × (destroy b' (set m a none) ≡ some (set m a none))
      × (block (set m a none) a ≡ none)
unfolding move destroy
destroy-move m b a bytes v o = (
  contents-IsOver m b a bytes v,
  borrowed m,
  destroy-IsOwner m b a bytes v o,
  borrowed (set m a none),
  block-set_self m a bytes v.there,
)
  where
    borrowed : (n : Memory) → destroy (record b { owns_data = false }) n ≡ some n
    borrowed n = rw v.points refl

-- A buffer is reset to another, where each owns a block of its own: it has the bytes of the other, its
-- old block is freed, and both are destroyed then, which frees the other's block once.
pub destroy-reset :
    (m : Memory) (b from : Buffer) (a c : ℕ) (bytes other : List ℕ)
    → IsOver m b a bytes
    → IsOver m from c other
    → IsOwner b
    → IsOwner from
    → c ≢ a
    → (b' from' : Buffer) × (m' : Memory) × (reset b from m ≡ some (b', from', m'))
      × (contents m' b' ≡ some other)
      × (block m' a ≡ none)
      × (destroy from' m' ≡ some m')
      × (destroy b' m' ≡ some (set m' c none))
unfolding reset free destroy
destroy-reset m b from a c bytes other v w o p n =
    let over = IsOver-set m from c a other n w in
    (
      from,
      record from { pointer = none; owns_data = false; free_function = false },
      set m a none,
      rw (v.points, o.owns, o.frees, v.there) refl,
      contents-IsOver (set m a none) from c other over,
      block-set_self m a bytes v.there,
      refl,
      destroy-IsOwner (set m a none) from c other over p,
    )
