-- ===== src/Comms/Named/Codec.antt =====
-- Encoding an input or a sensor and decoding it again.
use robocrisp.Base.{
  ℕ, ◌+◌, ◌≤◌, ◌<◌, ◌≡◌, refl, sym, ap, ◌∙◌, true, false, ◌||◌, not, List, [], ◌∷◌, ◌++◌, length,
  take, drop, get_or, Option, none, some, subst, inl, inr, sub_size, bytes_eq, bytes_eq_refl,
  ==_refl, ltb_le, ◌==◌, ==_iff, Bool-cases, if◌then◌else◌, length-append, append_assoc, append-nil,
  take-append_of, drop-append_of, get_or-append, drop-drop, arith,
}
use robocrisp.Comms.Buffer.{DecodeBuffer}
use robocrisp.Comms.Buffer.Laws.{
  ahead, advance, IsSmall, read-ahead, ahead-advance, advance-IsSmall,
}
use robocrisp.Comms.DataDeclaration
use robocrisp.Comms.DataDeclaration.Header.{
  IsDeclaration, set_header-header, length-header, tail_bytes, restored,
}
use robocrisp.Comms.DataDeclaration.Codec.{
  get_tail_size-length, encode_tail-Emits, decode_tail-restored,
}
use robocrisp.Comms.DataDeclaration.Equality.{equal-restored}
use robocrisp.Comms.Encoder.{Encoder, Emits, write-Emits, when-Emits_all, ⨾-Emits, done-Emits}
use robocrisp.Comms.Named.{
  Head, Named, name_bytes, encode_name, with_room, decode_name, header_size, header, blank,
  set_header, get_tail_size, get_encoded_size, encode, decode_copy, equal,
}

-- The name has the characters that its length announces.
abbrev pub HasName : Option (List ℕ) → ℕ → Type 0
HasName name n = length (name_bytes name n) ≡ n

-- The name that `decode_copy` makes of `n` characters.
abbrev pub restored_name : Option (List ℕ) → ℕ → Option (List ℕ)
restored_name name n = if n == 0 then none else some (name_bytes name n ++ 0 ∷ [])

pub encode_name-Emits :
    (name : Option (List ℕ)) (n : ℕ) → Emits (encode_name name n) (name_bytes name n)
unfolding encode_name
encode_name-Emits none n = when-Emits_all _ _ [] (λ h. refl) (λ h. absurd (ground arith))
encode_name-Emits (some chars) n =
    when-Emits_all _ _ (take n chars)
      (λ h. let e : n ≡ 0 = ground arith in ap (λ k. take k chars) e)
      (λ h. write-Emits (take n chars))

with_room-Emits :
    (size : ℕ) (e : Encoder) (xs : List ℕ)
    → size ≤ length xs
    → Emits e xs
    → Emits (with_room size e) xs
unfolding with_room
with_room-Emits size e xs h he b v r =
    rw (ltb_le (sub_size (length b.block) b.offset) size (omega arith)) (he b v r)

pub decode_name-advance :
    (fresh : ℕ → List ℕ) (name : Option (List ℕ)) (n : ℕ) (b : DecodeBuffer) (ys : List ℕ)
    → HasName name n
    → IsSmall b
    → ahead b ≡ name_bytes name n ++ ys
    → decode_name fresh n b ≡ (restored_name name n, not (n == 0), advance b n)
unfolding decode_name
decode_name-advance fresh name n b ys h s a = elim (Bool-cases (n == 0)) [
  | inl e ↦ rw e (ap (λ c. (none, false, c)) (unmoved ((==_iff n 0).0 e)))
  | inr e ↦
      rw (e, read-ahead b n (name_bytes name n) ys (take n (fresh (n + 1))) h s a)
        (ap (λ k. (some (name_bytes name n ++ 0 ∷ []), true, advance b k)) h)
]
  where
    unmoved : n ≡ 0 → b ≡ advance b n
    unmoved e = ap (λ k. record b { offset = k }) (omega arith)

-- The restored name has the characters of the name.
pub same_name :
    (name : Option (List ℕ)) (n : ℕ)
    → HasName name n
    → (n == 0 || bytes_eq (name_bytes name n) (name_bytes (restored_name name n) n)) ≡ true
same_name name n h = elim (Bool-cases (n == 0)) [
  | inl e ↦ rw e
  | inr e ↦
      rw (e, take-append_of n (name_bytes name n) (0 ∷ []) h) (bytes_eq_refl (name_bytes name n))
]

module _ {H : Type 0} (c : Head H) where
  -- The fields hold what they can hold, and the name is there.
  pub record IsNamed (m : Named H) : Type 0 where
    pub head_fits : c.Fits m.head
    pub length_fits : m.name_length < 256
    pub declared : IsDeclaration m.data_type
    pub named : HasName m.name m.name_length

  -- The encoded form.
  abbrev pub bytes : Named H → List ℕ
  bytes m = header c m ++ (tail_bytes m.data_type ++ name_bytes m.name m.name_length)

  -- What `decode_copy` makes of the encoded form.
  unfoldable pub restored_named : Named H → Named H
  restored_named m = record m {
    data_type = restored m.data_type;
    name = restored_name m.name m.name_length;
    owns_name = not (m.name_length == 0);
  }

  length-header_named : (m : Named H) → length (header c m) ≡ header_size c
  unfolding header
  length-header_named m = omega (
    arith,
    length-append (c.bytes m.head) (m.name_length ∷ DataDeclaration.header m.data_type),
    c.length-bytes m.head,
    length-header m.data_type,
  )

  pub length-bytes_named :
      (m : Named H)
      → IsNamed m
      → length (bytes m)
        ≡ header_size c + (m.name_length + DataDeclaration.get_tail_size m.data_type)
  length-bytes_named m v = omega (
    arith,
    length-append (header c m) (tail_bytes m.data_type ++ name_bytes m.name m.name_length),
    length-append (tail_bytes m.data_type) (name_bytes m.name m.name_length),
    length-header_named m,
    get_tail_size-length m.data_type v.declared,
    v.named,
  )

  set_header-header_named :
      (m : Named H)
      → IsNamed m
      → set_header c (blank c) (header c m) ≡ record (blank c) {
        head = m.head;
        name_length = m.name_length;
        data_type = record m.data_type { values = DataDeclaration.no_values };
      }
  unfolding set_header header
  set_header-header_named m v = λ i. record {
    head = head i;
    name_length = name_length i;
    data_type = data_type i;
    name = none;
    owns_name = false;
  }
    where
      xs : List ℕ
      xs = c.bytes m.head

      ys : List ℕ
      ys = DataDeclaration.header m.data_type

      head : c.of_bytes (take c.size (xs ++ m.name_length ∷ ys)) ≡ m.head
      head =
          ap c.of_bytes (take-append_of c.size xs (m.name_length ∷ ys) (c.length-bytes m.head))
          ∙ c.of_bytes-bytes m.head v.head_fits

      name_length : get_or (xs ++ m.name_length ∷ ys) c.size 0 ≡ m.name_length
      name_length =
          ap (λ k. get_or (xs ++ m.name_length ∷ ys) k 0) (sym (c.length-bytes m.head))
          ∙ get_or-append xs m.name_length ys 0

      rest : drop (c.size + 1) (xs ++ m.name_length ∷ ys) ≡ ys
      rest =
          sym (drop-drop c.size 1 (xs ++ m.name_length ∷ ys))
          ∙ ap (drop 1) (drop-append_of c.size xs (m.name_length ∷ ys) (c.length-bytes m.head))

      data_type :
          DataDeclaration.set_header DataDeclaration.blank
            (drop (c.size + 1) (xs ++ m.name_length ∷ ys))
          ≡ record m.data_type { values = DataDeclaration.no_values }
      data_type =
          ap (DataDeclaration.set_header DataDeclaration.blank) rest
          ∙ set_header-header DataDeclaration.blank m.data_type v.declared

  module _ (get_name_length : Named H → ℕ) where
    pub encode-Emits_named :
        (m : Named H)
        → IsNamed m
        → get_name_length m ≡ m.name_length
        → Emits (encode c get_name_length m) (bytes m)
    unfolding encode get_encoded_size get_tail_size
    encode-Emits_named m v e =
        with_room-Emits _ _ (bytes m) (omega (arith, length-bytes_named m v)) (
          ⨾-Emits _ _ _ _ (write-Emits (header c m)) (
            ⨾-Emits _ _ _ _ (encode_tail-Emits m.data_type) (
              subst (Emits _) (append-nil (name_bytes m.name m.name_length))
                (⨾-Emits _ _ _ _ (encode_name-Emits m.name m.name_length) done-Emits))))

    pub get_encoded_size-length_named :
        (m : Named H)
        → IsNamed m
        → get_name_length m ≡ m.name_length
        → get_encoded_size c get_name_length m ≡ length (bytes m)
    unfolding get_encoded_size get_tail_size
    get_encoded_size-length_named m v e = omega (arith, length-bytes_named m v)

    pub equal-restored_named :
        (m : Named H)
        → IsNamed m
        → get_name_length m ≡ m.name_length
        → get_name_length (restored_named m) ≡ m.name_length
        → equal c get_name_length m (restored_named m) ≡ true
    unfolding equal restored_named
    equal-restored_named m v e e' = rw (
      c.equal_refl m.head,
      e,
      e',
      ==_refl m.name_length,
      equal-restored m.data_type v.declared,
      same_name m.name m.name_length v.named,
    )

  pub decode_copy-restored_named :
      (fresh : ℕ → List ℕ) (m : Named H) (b : DecodeBuffer) (ys : List ℕ)
      → IsNamed m
      → IsSmall b
      → ahead b ≡ bytes m ++ ys
      → decode_copy c fresh b ≡ (restored_named m, advance b (length (bytes m)))
  unfolding decode_copy restored_named
  decode_copy-restored_named fresh m b ys v s a =
      rw
        (
          read-ahead b (header_size c) (header c m) (t ++ (n ++ ys)) (header c (blank c))
              (length-header_named m) s a₁,
          set_header-header_named m v,
          decode_tail-restored m.data_type b₁ (n ++ ys) v.declared s₁ a₂,
          decode_name-advance fresh m.name m.name_length b₂ ys v.named s₂ a₃,
        )
        (ap (λ k. (restored_named m, record b { offset = k })) ends)
    where
      t : List ℕ
      t = tail_bytes m.data_type

      n : List ℕ
      n = name_bytes m.name m.name_length

      a₁ : ahead b ≡ header c m ++ (t ++ (n ++ ys))
      a₁ = a ∙ append_assoc (header c m) (t ++ n) ys ∙ ap (◌++◌ (header c m)) (append_assoc t n ys)

      b₁ : DecodeBuffer
      b₁ = advance b (length (header c m))

      a₂ : ahead b₁ ≡ t ++ (n ++ ys)
      a₂ = ahead-advance b (header c m) (t ++ (n ++ ys)) a₁

      s₁ : IsSmall b₁
      s₁ = advance-IsSmall b (header c m) (t ++ (n ++ ys)) s a₁

      b₂ : DecodeBuffer
      b₂ = advance b₁ (length t)

      a₃ : ahead b₂ ≡ n ++ ys
      a₃ = ahead-advance b₁ t (n ++ ys) a₂

      s₂ : IsSmall b₂
      s₂ = advance-IsSmall b₁ t (n ++ ys) s₁ a₂

      ends : b.offset + length (header c m) + length t + m.name_length ≡ b.offset + length (bytes m)
      ends = omega (arith, length-append (header c m) (t ++ n), length-append t n, v.named)
