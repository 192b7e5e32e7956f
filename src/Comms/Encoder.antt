-- ===== src/Comms/Encoder.antt =====
-- How the encode methods of src/comms are put together: a method takes a `MemoryEncodeBuffer` and
-- returns a result and the buffer. `e >> f` is `if ( (r = e) != SUCCESS ) return r;` before `f`;
-- `e ⨾ f` is a statement whose result is dropped. `Emits` says that a method appends given bytes.
use robocrisp.Base.{
  ℕ, ◌≤◌, ◌≡◌, refl, ap, ◌∙◌, Bool, true, false, List, [], ◌∷◌, ◌++◌, length, All, arith,
  length-append, if◌then◌else◌,
}
use robocrisp.Comms.Buffer.{EncodeBuffer, EncodeResult, write}
use robocrisp.Comms.Buffer.Laws.{
  IsValid, room, put, put-nil, put-put, put-IsValid, room-put, write-put,
}

abbrev pub Encoder : Type 0
Encoder = EncodeBuffer → EncodeResult × EncodeBuffer

abbrev and_then : EncodeResult → EncodeBuffer → Encoder → EncodeResult × EncodeBuffer
and_then EncodeResult.success b f = f b
and_then r b f = (r, b)

infixr 5 ◌>>◌ ◌⨾◌
unfoldable pub ◌>>◌ : Encoder → Encoder → Encoder
◌>>◌ e f b = let (r, b') = e b in and_then r b' f

unfoldable pub ◌⨾◌ : Encoder → Encoder → Encoder
◌⨾◌ e f b = f (e b).1

-- `return EncodeResult::SUCCESS`.
unfoldable pub done : Encoder
done b = (EncodeResult.success, b)

-- A statement under an `if` with no `else`.
unfoldable pub when : Bool → Encoder → Encoder
unfolding done
when true e = e
when false e = done

-- A loop over a container that returns the first failure.
unfoldable pub each {ℓ} : {A : Type ℓ} → (A → Encoder) → List A → Encoder
unfolding ◌>>◌ done
each e [] = done
each e (x ∷ xs) = e x >> each e xs

-- The method succeeds wherever `xs` fits, and what it does is to append `xs`.
abbrev pub Emits : Encoder → List ℕ → Type 0
Emits e xs =
    (b : EncodeBuffer) → IsValid b → length xs ≤ room b → e b ≡ (EncodeResult.success, put b xs)

pub write-Emits : (xs : List ℕ) → Emits (λ b. write b xs) xs
write-Emits xs b v h = write-put b xs v h

pub done-Emits : Emits done []
unfolding done
done-Emits b v h = rw (put-nil b)

pub >>-Emits :
    (e f : Encoder) (xs ys : List ℕ) → Emits e xs → Emits f ys → Emits (e >> f) (xs ++ ys)
unfolding ◌>>◌
>>-Emits e f xs ys he hf b v h = rw (he b v (omega (arith, length-append xs ys))) (
    hf (put b xs) (put-IsValid b xs v (omega (arith, length-append xs ys)))
      (omega (arith, room-put b xs, length-append xs ys))
    ∙ ap (λ c. (EncodeResult.success, c)) (put-put b xs ys))

pub ⨾-Emits : (e f : Encoder) (xs ys : List ℕ) → Emits e xs → Emits f ys → Emits (e ⨾ f) (xs ++ ys)
unfolding ◌⨾◌
⨾-Emits e f xs ys he hf b v h = rw (he b v (omega (arith, length-append xs ys))) (
    hf (put b xs) (put-IsValid b xs v (omega (arith, length-append xs ys)))
      (omega (arith, room-put b xs, length-append xs ys))
    ∙ ap (λ c. (EncodeResult.success, c)) (put-put b xs ys))

pub when-Emits :
    (t : Bool) (e : Encoder) (xs : List ℕ)
    → (t ≡ true → Emits e xs)
    → Emits (when t e) (if t then xs else [])
unfolding when
when-Emits true e xs h = h refl
when-Emits false e xs h = done-Emits

-- The same, where nothing is to be appended if the test fails.
pub when-Emits_all :
    (t : Bool) (e : Encoder) (xs : List ℕ)
    → (t ≡ false → xs ≡ [])
    → (t ≡ true → Emits e xs)
    → Emits (when t e) xs
unfolding when
when-Emits_all true e xs no_bytes h = h refl
when-Emits_all false e xs no_bytes h = rw (no_bytes refl) done-Emits

-- The bytes of a list of values, one after the other.
abbrev pub concat_map {ℓ} : {A : Type ℓ} → (A → List ℕ) → List A → List ℕ
concat_map f [] = []
concat_map f (x ∷ xs) = f x ++ concat_map f xs

pub each-Emits {ℓ κ} :
    {A : Type ℓ} (P : A → Type κ) (e : A → Encoder) (f : A → List ℕ)
    → ((x : A) → P x → Emits (e x) (f x))
    → (xs : List A) → All P xs
    → Emits (each e xs) (concat_map f xs)
unfolding each
each-Emits P e f step [] h = done-Emits
each-Emits P e f step (x ∷ xs) h =
    >>-Emits (e x) (each e xs) (f x) (concat_map f xs) (step x h.0) (each-Emits P e f step xs h.1)
