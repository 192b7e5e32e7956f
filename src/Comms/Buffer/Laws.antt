-- ===== src/Comms/Buffer/Laws.antt =====
-- What the encoders and decoders may rely on: writes that fit add up, and reads take the next bytes.
use robocrisp.Base.{
  ℕ, ◌+◌, ◌-◌, ◌≤◌, ◌<◌, ◌≡◌, refl, sym, ap, ap₂, ◌∙◌, subst, List, [], ◌++◌, length, take, drop,
  memcpy, size_mod, length-append, length-drop, length-memcpy, memcpy-memcpy, memcpy-nil,
  take-memcpy, drop-memcpy, take-append, drop-append, drop-drop, length-replicate, sub_size, ltb_le,
  arith,
}
use robocrisp.Comms.Buffer.{
  EncodeBuffer, DecodeBuffer, EncodeResult, DecodeResult, new_encode_buffer, write, read,
}

-- The offset stands inside the block, and the block is no longer than `size_t` can say.
pub record IsValid (b : EncodeBuffer) : Type 0 where
  pub inside : b.offset ≤ length b.block
  pub small : length b.block < size_mod

-- What is left of the block.
abbrev pub room : EncodeBuffer → ℕ
room b = length b.block - b.offset

-- What has been written.
abbrev pub written : EncodeBuffer → List ℕ
written b = take b.offset b.block

-- The buffer after the bytes `xs`.
pub put : EncodeBuffer → List ℕ → EncodeBuffer
put b xs = record b { block = memcpy b.block b.offset xs; offset = b.offset + length xs }

pub new_encode_buffer-IsValid : (size : ℕ) → size < size_mod → IsValid (new_encode_buffer size)
unfolding new_encode_buffer
new_encode_buffer-IsValid size h = omega (arith, length-replicate {A = ℕ} size 0)

pub room-new_encode_buffer : (size : ℕ) → room (new_encode_buffer size) ≡ size
unfolding new_encode_buffer
room-new_encode_buffer size = omega (arith, length-replicate {A = ℕ} size 0)

pub written-new_encode_buffer : (size : ℕ) → written (new_encode_buffer size) ≡ []
unfolding new_encode_buffer
written-new_encode_buffer size = refl

pub put-nil : (b : EncodeBuffer) → put b [] ≡ b
unfolding put
put-nil b =
    ap₂ (λ l k. record b { block = l; offset = k }) (memcpy-nil b.block b.offset) (omega arith)

pub put-put : (b : EncodeBuffer) (xs ys : List ℕ) → put (put b xs) ys ≡ put b (xs ++ ys)
unfolding put
put-put b xs ys =
    ap (λ l. record b { block = l; offset = b.offset + length xs + length ys })
      (memcpy-memcpy b.block b.offset xs ys)
    ∙ ap (λ k. record b { block = memcpy b.block b.offset (xs ++ ys); offset = k })
        (omega (arith, length-append xs ys))

pub put-IsValid :
    (b : EncodeBuffer) (xs : List ℕ) → IsValid b → length xs ≤ room b → IsValid (put b xs)
unfolding put
put-IsValid b xs v h = omega (arith, length-memcpy b.block b.offset xs)

pub room-put : (b : EncodeBuffer) (xs : List ℕ) → room (put b xs) ≡ room b - length xs
unfolding put
room-put b xs = omega (arith, length-memcpy b.block b.offset xs)

pub offset-put : (b : EncodeBuffer) (xs : List ℕ) → (put b xs).offset ≡ b.offset + length xs
unfolding put
offset-put b xs = refl

pub length-block-put : (b : EncodeBuffer) (xs : List ℕ) → length (put b xs).block ≡ length b.block
unfolding put
length-block-put b xs = length-memcpy b.block b.offset xs

pub written-put :
    (b : EncodeBuffer) (xs : List ℕ)
    → IsValid b
    → length xs ≤ room b
    → written (put b xs) ≡ written b ++ xs
unfolding put
written-put b xs v h = take-memcpy b.block b.offset xs (omega arith)

-- A write that fits succeeds and puts the bytes.
pub write-put :
    (b : EncodeBuffer) (xs : List ℕ)
    → IsValid b
    → length xs ≤ room b
    → write b xs ≡ (EncodeResult.success, put b xs)
unfolding write put
write-put b xs v h = rw (ltb_le (sub_size (length b.block) b.offset) (length xs) (omega arith))

-- A write that does not fit changes nothing.
pub write_full :
    (b : EncodeBuffer) (xs : List ℕ)
    → IsValid b
    → room b < length xs
    → write b xs ≡ (EncodeResult.insufficient_space, b)
unfolding write
write_full b xs v h = ground arith

-- Whatever is written, the buffer stays well formed and its block keeps its size.
pub write-IsValid :
    (b : EncodeBuffer) (xs : List ℕ)
    → IsValid b
    → IsValid (write b xs).1 × (length (write b xs).1.block ≡ length b.block)
unfolding write
write-IsValid b xs v = ground (arith, length-memcpy b.block b.offset xs)

-- The bytes that a decoder has before it.
abbrev pub ahead : DecodeBuffer → List ℕ
ahead b = drop b.offset b.block

-- The buffer after `n` bytes.
abbrev pub advance : DecodeBuffer → ℕ → DecodeBuffer
advance b n = record b { offset = b.offset + n }

-- The block is no longer than `size_t` can say.
abbrev pub IsSmall : DecodeBuffer → Type 0
IsSmall b = (b.offset ≤ length b.block) × (length b.block < size_mod)

pub advance-advance : (b : DecodeBuffer) (m n : ℕ) → advance (advance b m) n ≡ advance b (m + n)
advance-advance b m n = ap (λ k. record b { offset = k }) (omega arith)

pub ahead-advance :
    (b : DecodeBuffer) (xs ys : List ℕ) → ahead b ≡ xs ++ ys → ahead (advance b (length xs)) ≡ ys
ahead-advance b xs ys h =
    sym (drop-drop b.offset (length xs) b.block) ∙ ap (drop (length xs)) h ∙ drop-append xs ys

pub length-ahead : (b : DecodeBuffer) → length (ahead b) ≡ length b.block - b.offset
length-ahead b = length-drop b.offset b.block

pub advance-IsSmall :
    (b : DecodeBuffer) (xs ys : List ℕ)
    → IsSmall b
    → ahead b ≡ xs ++ ys
    → IsSmall (advance b (length xs))
advance-IsSmall b xs ys s h = omega (arith, length-ahead b, ap length h, length-append xs ys)

-- A read of the bytes that are next succeeds, gives them and goes past them.
pub read-advance :
    (b : DecodeBuffer) (xs ys dest : List ℕ)
    → IsSmall b
    → ahead b ≡ xs ++ ys
    → read b (length xs) dest ≡ (DecodeResult.success, xs, advance b (length xs))
unfolding read
read-advance b xs ys dest s h =
    rw (ltb_le (sub_size (length b.block) b.offset) (length xs) fits, h, take-append xs ys)
  where
    fits : length xs ≤ sub_size (length b.block) b.offset
    fits = omega (arith, length-ahead b, ap length h, length-append xs ys)

pub read-ahead :
    (b : DecodeBuffer) (size : ℕ) (xs ys dest : List ℕ)
    → length xs ≡ size
    → IsSmall b
    → ahead b ≡ xs ++ ys
    → read b size dest ≡ (DecodeResult.success, xs, advance b (length xs))
read-ahead b size xs ys dest e s h =
    subst (λ n. read b n dest ≡ (DecodeResult.success, xs, advance b (length xs))) e
      (read-advance b xs ys dest s h)

pub advance-zero : (b : DecodeBuffer) → advance b 0 ≡ b
advance-zero b = ap (λ k. record b { offset = k }) (omega arith)

-- A read of more bytes than are left fails, and changes neither destination nor buffer.
pub read_short :
    (b : DecodeBuffer) (size : ℕ) (dest : List ℕ)
    → IsSmall b
    → length (ahead b) < size
    → read b size dest ≡ (DecodeResult.buffer_underflow, dest, b)
unfolding read
read_short b size dest s h = ground (arith, length-ahead b)

-- A decoder over the block of an encoder, from an offset on.
abbrev pub reopen : EncodeBuffer → ℕ → DecodeBuffer
reopen b from = record { block = b.block; offset = from }

-- Over a block into which `xs` was put, a decoder has `xs` before it.
module _ (b : EncodeBuffer) (xs : List ℕ) (v : IsValid b) (h : length xs ≤ room b) where
  pub ahead-put : ahead (reopen (put b xs) b.offset) ≡ xs ++ drop (b.offset + length xs) b.block
  unfolding put
  ahead-put = drop-memcpy b.block b.offset xs (omega arith)

  pub reopen-IsSmall : IsSmall (reopen (put b xs) b.offset)
  unfolding put
  reopen-IsSmall = omega (arith, length-memcpy b.block b.offset xs)

  pub advance-reopen :
      advance (reopen (put b xs) b.offset) (length xs) ≡ reopen (put b xs) (put b xs).offset
  unfolding put
  advance-reopen = refl

-- Bytes that fit into a buffer are written with SUCCESS, and reading as many from where they begin
-- gives the same bytes with SUCCESS and ends where the writing ended, whatever stood before and after.
pub read-write :
    (b : EncodeBuffer) (xs dest : List ℕ)
    → IsValid b
    → length xs ≤ room b
    → let (r, b') = write b xs in
      (r ≡ EncodeResult.success)
      × (read (reopen b' b.offset) (length xs) dest
          ≡ (DecodeResult.success, xs, reopen b' b'.offset))
read-write b xs dest v h = rw (write-put b xs v h) (
  refl,
  read-advance (reopen (put b xs) b.offset) xs (drop (b.offset + length xs) b.block) dest
        (reopen-IsSmall b xs v h) (ahead-put b xs v h)
      ∙ ap (λ c. (DecodeResult.success, xs, c)) (advance-reopen b xs v h),
)
