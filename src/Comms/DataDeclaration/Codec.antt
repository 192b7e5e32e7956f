-- ===== src/Comms/DataDeclaration/Codec.antt =====
-- Encoding a declaration and decoding it again.
use robocrisp.Base.{
  ℕ, ◌+◌, ◌*◌, ◌≤◌, ◌≡◌, refl, sym, ap, ◌∙◌, Bool, true, false, List, ◌++◌, length, memcpy, slice,
  sub_size, ltb_le, length-slice, length-memcpy, length-append, append_assoc, arith,
}
use robocrisp.Comms.Buffer.{DecodeBuffer, DecodeResult}
use robocrisp.Comms.Buffer.Laws.{
  ahead, advance, IsSmall, ahead-advance, advance-IsSmall, length-ahead, read-ahead, advance-zero,
}
use robocrisp.Comms.Encoder.{Emits, write-Emits, >>-Emits, when-Emits}
use robocrisp.Comms.DataDeclaration.{
  DataDeclaration, header, header_size, bit, blank, no_values, value, neutral_value, minimum_value,
  maximum_value, get_tail_size, get_encoded_size, encode_tail, encode, decode_value, decode_tail,
  decode,
}
use robocrisp.Comms.DataDeclaration.Header.{
  IsDeclaration, set_header-header, length-header, declared, tail_bytes, bytes, fill, restored,
}

length-declared :
    (d : DataDeclaration)
    → IsDeclaration d
    → (present : Bool) (at : ℕ) → at ≤ 32
    → length (declared present d at) ≡ d.width * bit present
length-declared d v true at h = omega (arith, length-slice d.values at d.width (omega arith))
length-declared d v false at h = omega arith

-- The size that is announced is the size of the encoded form.
pub get_tail_size-length :
    (d : DataDeclaration) → IsDeclaration d → get_tail_size d ≡ length (tail_bytes d)
unfolding get_tail_size
get_tail_size-length d v = omega (
  arith,
  length-append neutral (minimum ++ maximum),
  length-append minimum maximum,
  length-declared d v d.has_neutral_value neutral_value (omega arith),
  length-declared d v d.has_minimum_value minimum_value (omega arith),
  length-declared d v d.has_maximum_value maximum_value (omega arith),
)
  where
    neutral : List ℕ
    neutral = declared d.has_neutral_value d neutral_value

    minimum : List ℕ
    minimum = declared d.has_minimum_value d minimum_value

    maximum : List ℕ
    maximum = declared d.has_maximum_value d maximum_value

pub encode_tail-Emits : (d : DataDeclaration) → Emits (encode_tail d) (tail_bytes d)
unfolding encode_tail
encode_tail-Emits d =
    >>-Emits _ _ _ _ (when-Emits d.has_neutral_value _ _ (λ _. write-Emits (value d neutral_value)))
      (>>-Emits _ _ _ _
        (when-Emits d.has_minimum_value _ _ (λ _. write-Emits (value d minimum_value)))
        (when-Emits d.has_maximum_value _ _ (λ _. write-Emits (value d maximum_value))))

-- `encode` appends the encoded form wherever there is room for it.
pub encode-Emits : (d : DataDeclaration) → Emits (encode d) (bytes d)
unfolding encode
encode-Emits d = >>-Emits _ _ _ _ (write-Emits (header d)) (encode_tail-Emits d)

decode_value-advance :
    (d : DataDeclaration)
    → IsDeclaration d
    → (present : Bool) (at : ℕ) (block : List ℕ) (b : DecodeBuffer) (ys : List ℕ) → at ≤ 32
    → length block ≡ 48
    → IsSmall b
    → ahead b ≡ declared present d at ++ ys
    → decode_value present at (record d { values = block }) b ≡ (
      DecodeResult.success,
      record d { values = fill present d at block },
      advance b (length (declared present d at)),
    )
unfolding decode_value
decode_value-advance d v false at block b ys h e s a =
    ap (λ c. (DecodeResult.success, record d { values = block }, c)) (sym (advance-zero b))
decode_value-advance d v true at block b ys h e s a =
    ap
      (λ (r : DecodeResult × List ℕ × DecodeBuffer).
        (r.0, record d { values = memcpy block at r.1 }, r.2))
      (read-ahead b d.width (value d at) ys (slice block at d.width)
        (length-slice d.values at d.width (omega arith)) s a)

length-fill :
    (d : DataDeclaration) (present : Bool) (at : ℕ) (block : List ℕ)
    → length (fill present d at block) ≡ length block
length-fill d true at block = length-memcpy block at (value d at)
length-fill d false at block = refl

-- Reading the tail of `d` into a declaration with the header of `d`.
pub decode_tail-restored :
    (d : DataDeclaration) (b : DecodeBuffer) (ys : List ℕ)
    → IsDeclaration d
    → IsSmall b
    → ahead b ≡ tail_bytes d ++ ys
    → decode_tail (record d { values = no_values }) b
      ≡ (DecodeResult.success, restored d, advance b (length (tail_bytes d)))
unfolding decode_tail restored get_tail_size
decode_tail-restored d b ys v s a =
    rw
      (
        ltb_le (sub_size (length b.block) b.offset) (get_tail_size d) fits,
        decode_value-advance d v d.has_neutral_value neutral_value no_values b _ (omega arith) refl
            s a₁,
        decode_value-advance d v d.has_minimum_value minimum_value block₁ b₁ _ (omega arith) l₁ s₁
            a₂,
        decode_value-advance d v d.has_maximum_value maximum_value block₂ b₂ ys (omega arith) l₂ s₂
            a₃,
      )
      (ap (λ k. (DecodeResult.success, restored d, record b { offset = k })) (omega (arith, ends)))
  where
    n : List ℕ
    n = declared d.has_neutral_value d neutral_value

    l : List ℕ
    l = declared d.has_minimum_value d minimum_value

    u : List ℕ
    u = declared d.has_maximum_value d maximum_value

    fits : get_tail_size d ≤ sub_size (length b.block) b.offset
    fits = omega (
      arith,
      get_tail_size-length d v,
      ap length a,
      length-ahead b,
      length-append (tail_bytes d) ys,
    )

    a₁ : ahead b ≡ n ++ ((l ++ u) ++ ys)
    a₁ = a ∙ append_assoc n (l ++ u) ys

    b₁ : DecodeBuffer
    b₁ = advance b (length n)

    a₂ : ahead b₁ ≡ l ++ (u ++ ys)
    a₂ = ahead-advance b n ((l ++ u) ++ ys) a₁ ∙ append_assoc l u ys

    s₁ : IsSmall b₁
    s₁ = advance-IsSmall b n ((l ++ u) ++ ys) s a₁

    b₂ : DecodeBuffer
    b₂ = advance b₁ (length l)

    a₃ : ahead b₂ ≡ u ++ ys
    a₃ = ahead-advance b₁ l (u ++ ys) a₂

    s₂ : IsSmall b₂
    s₂ = advance-IsSmall b₁ l (u ++ ys) s₁ a₂

    block₁ : List ℕ
    block₁ = fill d.has_neutral_value d neutral_value no_values

    l₁ : length block₁ ≡ 48
    l₁ = length-fill d d.has_neutral_value neutral_value no_values

    block₂ : List ℕ
    block₂ = fill d.has_minimum_value d minimum_value block₁

    l₂ : length block₂ ≡ 48
    l₂ = length-fill d d.has_minimum_value minimum_value block₁ ∙ l₁

    ends : length n + length l + length u ≡ length (tail_bytes d)
    ends = omega (arith, length-append n (l ++ u), length-append l u)

-- Where the encoded form of `d` lies ahead, `decode` succeeds, goes past it and gives `restored d`.
pub decode-restored :
    (d : DataDeclaration) (b : DecodeBuffer) (ys : List ℕ)
    → IsDeclaration d
    → IsSmall b
    → ahead b ≡ bytes d ++ ys
    → decode b ≡ (DecodeResult.success, restored d, advance b (length (bytes d)))
unfolding decode
decode-restored d b ys v s a =
    rw
      (
        read-ahead b header_size (header d) (tail_bytes d ++ ys) (header blank) (length-header d) s
            a',
        set_header-header blank d v,
        decode_tail-restored d (advance b (length (header d))) ys v
            (advance-IsSmall b (header d) (tail_bytes d ++ ys) s a')
            (ahead-advance b (header d) (tail_bytes d ++ ys) a'),
      )
      (ap (λ k. (DecodeResult.success, restored d, record b { offset = k }))
        (omega (arith, length-append (header d) (tail_bytes d))))
  where
    a' : ahead b ≡ header d ++ (tail_bytes d ++ ys)
    a' = a ∙ append_assoc (header d) (tail_bytes d) ys

pub get_encoded_size-length :
    (d : DataDeclaration) → IsDeclaration d → get_encoded_size d ≡ length (bytes d)
unfolding get_encoded_size
get_encoded_size-length d v =
    omega
      (arith, get_tail_size-length d v, length-header d, length-append (header d) (tail_bytes d))
