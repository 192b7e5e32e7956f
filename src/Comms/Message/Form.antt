-- ===== src/Comms/Message/Form.antt =====
-- The encoded form of a message, the messages that have one, and reading it.
use robocrisp.Base.{
  ℕ, zero, suc, ◌+◌, ◌-◌, ◌<◌, ◌≡◌, refl, sym, ap, ◌∙◌, subst, Bool, true, false, List, [], ◌++◌,
  length, replicate, Option, none, some, if◌then◌else◌, length-append, append_assoc, append-nil,
  arith,
}
use mathlib.Core.Option.{some-injective}
use robocrisp.Comms.Buffer.{DecodeBuffer}
use robocrisp.Comms.Buffer.Laws.{
  IsSmall, ahead, advance, read-ahead, advance-zero, ahead-advance, advance-IsSmall,
}
use robocrisp.Comms.Encoder.{Emits, write-Emits, when-Emits, ⨾-Emits, done-Emits}
use robocrisp.Comms.Message.{
  FlowDirection, MessageTypeInfo, Header, Message, header_bytes, header_of_bytes, word_bytes,
  word_of_bytes, get_type_info, checksum_size, writes, reads,
}
use robocrisp.Util.Checksum.Laws.{word}

-- The message has a type that the table knows, `t`, and the body `xs` if the type has one; the type's
-- messages have no common body, and the header counts the bytes behind it.
pub record IsMessage (m : Message) (t : MessageTypeInfo) (xs : List ℕ) : Type 0 where
  pub known : get_type_info m.header.type ≡ some t
  pub carried : m.body ≡ (if t.has_body then some xs else none)
  pub not_common : t.body ≡ none
  pub counted : m.header.length ≡ length xs + checksum_size t
  pub without_body : t.has_body ≡ false → xs ≡ []
  pub length_fits : m.header.length < 65536

-- A type with a checksum has a body.
pub checked_has_body :
    (type : ℕ) (t : MessageTypeInfo)
    → get_type_info type ≡ some t
    → t.has_checksum ≡ true
    → t.has_body ≡ true
unfolding get_type_info
checked_has_body zero t e c = sym (ap (λ r. r.has_body) (some-injective _ t e))
checked_has_body (suc zero) t e c = sym (ap (λ r. r.has_body) (some-injective _ t e))
checked_has_body (suc (suc zero)) t e c = sym (ap (λ r. r.has_body) (some-injective _ t e))
checked_has_body (suc (suc (suc zero))) t e c = sym (ap (λ r. r.has_body) (some-injective _ t e))
checked_has_body (suc (suc (suc (suc zero)))) t e c =
    let unchecked : false ≡ t.has_checksum = ap (λ r. r.has_checksum) (some-injective _ t e) in cc
checked_has_body (suc (suc (suc (suc (suc zero))))) t e c =
    sym (ap (λ r. r.has_body) (some-injective _ t e))
checked_has_body (suc (suc (suc (suc (suc (suc zero)))))) t e c =
    sym (ap (λ r. r.has_body) (some-injective _ t e))
checked_has_body (suc (suc (suc (suc (suc (suc (suc zero))))))) t e c =
    sym (ap (λ r. r.has_body) (some-injective _ t e))
checked_has_body (suc (suc (suc (suc (suc (suc (suc (suc n)))))))) t e c = cc

pub header_of_bytes-header_bytes :
    (h : Header) → h.length < 65536 → header_of_bytes (header_bytes h) ≡ h
unfolding header_of_bytes header_bytes
header_of_bytes-header_bytes h fits = ap (λ n. record h { length = n }) (omega arith)

pub word_of_bytes-word_bytes : (n : ℕ) → n < word → word_of_bytes (word_bytes n) ≡ n
unfolding word_of_bytes word_bytes
word_of_bytes-word_bytes n h = omega arith

-- What follows the header.
abbrev pub tail : Bool → Bool → List ℕ → ℕ → List ℕ
tail has_body has_checksum xs sum =
    (if has_body then xs else []) ++ (if has_checksum then word_bytes sum else [])

abbrev pub bytes : MessageTypeInfo → Header → List ℕ → ℕ → List ℕ
bytes t h xs sum = header_bytes h ++ tail t.has_body t.has_checksum xs sum

pub writes-Emits :
    (t : MessageTypeInfo) (h : Header) (xs : List ℕ) (sum : ℕ)
    → Emits (writes t h xs sum) (bytes t h xs sum)
writes-Emits t h xs sum = ⨾-Emits _ _ _ _ (write-Emits (header_bytes h)) (
    ⨾-Emits _ _ _ _ (when-Emits t.has_body _ xs (λ _. write-Emits xs)) (
      subst (Emits _) (append-nil (if t.has_checksum then word_bytes sum else [])) (
        ⨾-Emits _ _ _ _
          (when-Emits t.has_checksum _ (word_bytes sum) (λ _. write-Emits (word_bytes sum)))
          done-Emits)))

pub length-word_bytes : (n : ℕ) → length (word_bytes n) ≡ 4
unfolding word_bytes
length-word_bytes n = refl

pub length-header_bytes : (h : Header) → length (header_bytes h) ≡ 3
unfolding header_bytes
length-header_bytes h = refl

pub length-tail :
    (p q : Bool) (xs : List ℕ) (sum : ℕ)
    → (p ≡ false → xs ≡ [])
    → length (tail p q xs sum) ≡ length xs + (if q then 4 else 0)
length-tail true true xs sum h =
    omega (arith, length-append xs (word_bytes sum), length-word_bytes sum)
length-tail true false xs sum h = omega (arith, length-append xs [])
length-tail false true xs sum h = omega (arith, ap length (h refl), length-word_bytes sum)
length-tail false false xs sum h = omega (arith, ap length (h refl))

-- Behind the header, `decode` reads what `encode` wrote there.
pub reads-tail :
    (p q : Bool) (flow : FlowDirection) (o : Option (List ℕ)) (h : Header) (xs : List ℕ) (sum : ℕ)
    (b : DecodeBuffer) (ys : List ℕ)
    → h.length ≡ length xs + (if q then 4 else 0)
    → (q ≡ true → sum < word)
    → IsSmall b
    → ahead b ≡ tail p q xs sum ++ ys
    → reads (record { has_body = p; has_checksum = q; allowed_flow = flow; body = o }) h b ≡ (
      record { header = h; body = if p then some xs else none; checksum = if q then sum else 0 },
      advance b (length (tail p q xs sum)),
    )
reads-tail true true flow o h xs sum b ys l f s a =
    rw
      (
        read-ahead b (h.length - 4) xs (word_bytes sum ++ ys) (replicate (h.length - 4) 0)
            (omega (arith, l)) s a',
        read-ahead (advance b (length xs)) 4 (word_bytes sum) ys (word_bytes 0)
            (length-word_bytes sum) (advance-IsSmall b xs (word_bytes sum ++ ys) s a')
            (ahead-advance b xs (word_bytes sum ++ ys) a'),
        word_of_bytes-word_bytes sum (f refl),
      )
      (ap (λ k. (record { header = h; body = some xs; checksum = sum }, record b { offset = k }))
        (omega (arith, length-append xs (word_bytes sum))))
  where
    a' : ahead b ≡ xs ++ (word_bytes sum ++ ys)
    a' = a ∙ append_assoc xs (word_bytes sum) ys
reads-tail true false flow o h xs sum b ys l f s a =
    rw
      (read-ahead b (h.length - 0) xs ys (replicate (h.length - 0) 0) (omega (arith, l)) s
        (a ∙ ap (λ zs. zs ++ ys) (append-nil xs)))
      (ap (λ k. (record { header = h; body = some xs; checksum = 0 }, record b { offset = k }))
        (omega (arith, length-append xs [])))
reads-tail false true flow o h xs sum b ys l f s a =
    rw
      (
        read-ahead b 4 (word_bytes sum) ys (word_bytes 0) (length-word_bytes sum) s a,
        word_of_bytes-word_bytes sum (f refl),
      )
      refl
reads-tail false false flow o h xs sum b ys l f s a =
    ap (λ c. (record { header = h; body = none; checksum = 0 }, c)) (sym (advance-zero b))
