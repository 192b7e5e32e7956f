-- ===== src/Comms/ModuleControl/RoundTrip.antt =====
-- A control over the wire: `encode`, `get_encoded_size` and `decode` of
-- include/crisp/comms/ModuleControl.hh together.
use robocrisp.Base.{
  ℕ, zero, suc, ◌+◌, ◌*◌, ◌/◌, ◌%◌, ◌≤◌, ◌≡◌, inl, inr, refl, sym, ap, ◌∙◌, subst, false, not, List,
  [], ◌∷◌, ◌++◌, length, All, get_elem?, take, drop, take-length, length-append, append-nil,
  append_assoc, if◌then◌else◌, some, Option, arith,
}
use robocrisp.Comms.Buffer.{EncodeBuffer, DecodeBuffer, EncodeResult, DecodeResult}
use robocrisp.Comms.Buffer.Laws.{
  IsValid, room, put, ahead, advance, IsSmall, advance-advance, ahead-advance, advance-IsSmall,
  read-ahead, reopen, ahead-put, reopen-IsSmall, advance-reopen, advance-zero, written, written-put,
  offset-put,
}
use robocrisp.Comms.Encoder.{
  Emits, done, each, >>-Emits, ⨾-Emits, when-Emits_all, each-Emits, write-Emits, done-Emits,
  concat_map,
}
use robocrisp.Comms.Module.{Module}
use robocrisp.Comms.Configuration.{Configuration}
use robocrisp.Comms.Buffer.{read}
use robocrisp.Comms.Message.{if_some}
use robocrisp.Comms.DataValue
use robocrisp.Comms.DataValue.Codec.{encode-Emits, get_encoded_size-length}
use robocrisp.Comms.ModuleControl.{
  ValuePair, ModuleControl, is_clear, get_num_values, header, set_header, size_of_first,
  get_encoded_size, encode, decode, decode_values, reset,
}
use robocrisp.Comms.ModuleControl.Codec.{
  IsControl, IsPair, pair_bytes, bytes, get_num_values-length, values-IsPair,
  decode_values-Selected,
}

size_of_first-length :
    (ps : List ValuePair)
    → All IsPair ps
    → size_of_first (length ps) ps ≡ length (concat_map pair_bytes ps)
unfolding size_of_first
size_of_first-length [] h = refl
size_of_first-length (p ∷ ps) h = omega (
  arith,
  get_encoded_size-length p.value h.0.single,
  size_of_first-length ps h.1,
  length-append (pair_bytes p) (concat_map pair_bytes ps),
)

get_elem?-drop :
    (block : List ℕ) (at x : ℕ) (xs : List ℕ) → drop at block ≡ x ∷ xs → get_elem? block at ≡ some x
get_elem?-drop [] zero x xs h = absurd (omega (arith, ap length h))
get_elem?-drop [] (suc at) x xs h = absurd (omega (arith, ap length h))
get_elem?-drop (y ∷ block) zero x xs h = ap (λ l. get_elem? l 0) h
get_elem?-drop (y ∷ block) (suc at) x xs h = get_elem?-drop block at x xs h

module _ (config : Configuration) (m : Module) (mc : ModuleControl)
    (v : IsControl config m mc) where
  pub get_encoded_size-length_control : get_encoded_size mc ≡ length (bytes mc)
  unfolding get_encoded_size header
  get_encoded_size-length_control = omega (
    arith,
    ap (λ n. size_of_first n mc.values) (get_num_values-length config m mc v),
    size_of_first-length mc.values (values-IsPair config m mc v),
    length-append (header mc) (concat_map pair_bytes mc.values),
  )

  no_values : not (is_clear mc) ≡ false → concat_map pair_bytes mc.values ≡ []
  no_values h = elim v.chosen [
    | inl c ↦ ap (concat_map pair_bytes) c.1
    | inr s ↦ absurd (ground (arith, h, s.0))
  ]

  pub encode-Emits_control : Emits (encode mc) (bytes mc)
  unfolding encode
  encode-Emits_control =
      ⨾-Emits _ _ (header mc) (concat_map pair_bytes mc.values) (write-Emits (header mc)) (
        subst (Emits _) (append-nil (concat_map pair_bytes mc.values)) (
          >>-Emits _ done (concat_map pair_bytes mc.values) []
            (when-Emits_all (not (is_clear mc)) _ (concat_map pair_bytes mc.values) no_values
              (λ _. all_values))
            done-Emits))
    where
      whole : take (get_num_values mc) mc.values ≡ mc.values
      whole =
          ap (λ n. take n mc.values) (get_num_values-length config m mc v) ∙ take-length mc.values

      all_values :
          Emits
            (each (λ p. DataValue.encode p.value) (take (get_num_values mc) mc.values))
            (concat_map pair_bytes mc.values)
      all_values =
          subst
            (λ ps.
              Emits (each (λ p. DataValue.encode p.value) ps) (concat_map pair_bytes mc.values))
            (sym whole)
            (each-Emits IsPair _ pair_bytes (λ p h. encode-Emits p.value h.single) mc.values
              (values-IsPair config m mc v))

  header-set_header : set_header (reset (some m)) (header mc) ≡ record mc { values = [] }
  unfolding set_header header reset
  header-set_header = rw (v.aimed, numbers) refl
    where
      numbers : mc.input_ids % 256 + 256 * (mc.input_ids / 256) ≡ mc.input_ids
      numbers = omega arith

  -- What `decode` does behind the header.
  decode_tail :
      (fresh : ℕ → List ℕ) (b : DecodeBuffer) (rest : List ℕ)
      → IsSmall b
      → ahead b ≡ concat_map pair_bytes mc.values ++ rest
      → if◌then◌else◌ {A = Option (DecodeResult × ModuleControl × DecodeBuffer)}
          (is_clear mc)
          (some (DecodeResult.success, record mc { values = [] }, b))
          (if_some (get_elem? config.modules mc.module_id) (λ m.
            if_some
              (decode_values fresh m 16 0 mc.input_ids b)
              (λ r. some (DecodeResult.success, record mc { values = r.0 }, r.1))))
        ≡ some (DecodeResult.success, mc, advance b (length (concat_map pair_bytes mc.values)))
  decode_tail fresh b rest small h = elim v.chosen [
    | inl c ↦
        rw (c.0, c.1)
          (ap (λ k. some (DecodeResult.success, record mc { values = [] }, k))
            (sym (advance-zero b)))
    | inr s ↦
        rw
          (
            s.0,
            v.listed,
            decode_values-Selected fresh m 16 0 mc.input_ids mc.values b rest s.1 small h,
          )
          refl
  ]

  pub decode-bytes :
      (fresh : ℕ → List ℕ) (b : DecodeBuffer) (rest : List ℕ)
      → IsSmall b
      → ahead b ≡ header mc ++ (concat_map pair_bytes mc.values ++ rest)
      → decode fresh config b ≡ some (DecodeResult.success, mc, advance b (length (bytes mc)))
  unfolding decode header is_clear
  decode-bytes fresh b rest small h =
      rw (first, v.listed, whole, header-set_header)
        (decode_tail fresh (advance b 3) rest (advance-IsSmall b (header mc) _ small h)
            (ahead-advance b (header mc) _ h)
          ∙ ap (λ k. some (DecodeResult.success, mc, k)) joined)
    where
      first : get_elem? b.block b.offset ≡ some mc.module_id
      first = get_elem?-drop b.block b.offset mc.module_id _ h

      whole : read b 3 (header (reset (some m))) ≡ (DecodeResult.success, header mc, advance b 3)
      whole = read-ahead b 3 (header mc) _ (header (reset (some m))) refl small h

      joined :
          advance (advance b 3) (length (concat_map pair_bytes mc.values))
          ≡ advance b (length (bytes mc))
      joined =
          advance-advance b 3 (length (concat_map pair_bytes mc.values))
          ∙ ap (advance b) (omega arith)

-- A control for a module of the configuration is encoded with SUCCESS into a well-formed buffer with
-- room for `get_encoded_size` bytes, which are appended to what was written; `decode` from where they
-- begin gives SUCCESS and the same control, values included, and stops where the encoder stopped.
pub decode-encode_control :
    (fresh : ℕ → List ℕ) (config : Configuration) (m : Module) (mc : ModuleControl)
    (b : EncodeBuffer)
    → IsControl config m mc
    → IsValid b
    → get_encoded_size mc ≤ room b
    → let (r, b') = encode mc b in
      (r ≡ EncodeResult.success)
      × (written b' ≡ written b ++ bytes mc)
      × (b'.offset ≡ b.offset + get_encoded_size mc)
      × (decode fresh config (reopen b' b.offset)
          ≡ some (DecodeResult.success, mc, reopen b' b'.offset))
decode-encode_control fresh config m mc b v w h = rw (encode-Emits_control config m mc v b w fits) (
  refl,
  written-put b (bytes mc) w fits,
  size,
  decode-bytes config m mc v fresh (reopen (put b (bytes mc)) b.offset) _
        (reopen-IsSmall b (bytes mc) w fits)
        (ahead-put b (bytes mc) w fits
          ∙ append_assoc (header mc) (concat_map pair_bytes mc.values) _)
      ∙ ap (λ d. some (DecodeResult.success, mc, d)) (advance-reopen b (bytes mc) w fits),
)
  where
    fits : length (bytes mc) ≤ room b
    fits = omega (arith, get_encoded_size-length_control config m mc v)

    size : (put b (bytes mc)).offset ≡ b.offset + get_encoded_size mc
    size = omega (arith, offset-put b (bytes mc), get_encoded_size-length_control config m mc v)
