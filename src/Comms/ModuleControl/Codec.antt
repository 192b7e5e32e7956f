-- ===== src/Comms/ModuleControl/Codec.antt =====
-- Encoding and decoding of include/crisp/comms/ModuleControl.hh.
use robocrisp.Base.{
  ℕ, zero, suc, ◌+◌, ◌/◌, ◌%◌, ◌<◌, ◌≡◌, ◌⊎◌, inl, inr, refl, sym, ap, ◌∙◌, subst, false, true,
  List, [], ◌∷◌, ◌++◌, length, All, get_elem?, length-append, append_assoc, Option, some, lt→ltb,
  arith,
}
use robocrisp.Comms.Buffer.{EncodeBuffer, DecodeBuffer, EncodeResult, DecodeResult, write, read}
use robocrisp.Comms.Buffer.Laws.{
  IsValid, room, put, ahead, advance, IsSmall, advance-advance, ahead-advance, advance-IsSmall,
  read-ahead, reopen, ahead-put, reopen-IsSmall, advance-reopen, written, written-put,
}
use robocrisp.Comms.Encoder.{concat_map}
use robocrisp.Comms.Module.{Module}
use robocrisp.Comms.Configuration.{Configuration}
use robocrisp.Comms.DataValue
use robocrisp.Comms.DataValue.{DataValue}
use robocrisp.Comms.DataValue.Codec.{IsSingle, decode-value}
use robocrisp.Comms.ModuleControl.{
  ValuePair, ModuleControl, has_bit, is_clear, count_bits, get_num_values, header, decode_input,
  decode_values,
}

-- The value of a pair is of the type that its input declares.
pub record IsPair (p : ValuePair) : Type 0 where
  pub single : IsSingle p.value
  pub typed : p.value.data_type ≡ p.input.data_type

-- The pairs are those of the inputs from number `i` on whose bits are set among the `n` lowest of
-- `ids`, in order.
pub data Selected (m : Module) : ℕ → ℕ → ℕ → List ValuePair → Type 0 where
  stop : {i ids : ℕ} → Selected m zero i ids []
  skip :
      {n i ids : ℕ} {ps : List ValuePair}
      → ids % 2 ≡ 0
      → Selected m n (suc i) (ids / 2) ps
      → Selected m (suc n) i ids ps
  pick :
      {n i ids : ℕ} {p : ValuePair} {ps : List ValuePair}
      → ids % 2 ≡ 1
      → i < m.num_inputs
      → get_elem? m.inputs i ≡ some p.input
      → IsPair p
      → Selected m n (suc i) (ids / 2) ps
      → Selected m (suc n) i ids (p ∷ ps)

abbrev pub pair_bytes : ValuePair → List ℕ
pair_bytes p = p.value.value

pub Selected-IsPair :
    (m : Module) (n i ids : ℕ) (ps : List ValuePair) → Selected m n i ids ps → All IsPair ps
Selected-IsPair m zero i ids ps stop = tt
Selected-IsPair m (suc n) i ids ps (skip e s) = Selected-IsPair m n (suc i) (ids / 2) ps s
Selected-IsPair m (suc n) i ids (p ∷ ps) (pick e l g h s) =
    (h, Selected-IsPair m n (suc i) (ids / 2) ps s)

pub count_bits-length :
    (m : Module) (n i ids : ℕ) (ps : List ValuePair)
    → Selected m n i ids ps
    → count_bits n ids ≡ length ps
unfolding count_bits
count_bits-length m zero i ids ps stop = refl
count_bits-length m (suc n) i ids ps (skip e s) =
    omega (arith, e, count_bits-length m n (suc i) (ids / 2) ps s)
count_bits-length m (suc n) i ids (p ∷ ps) (pick e l g h s) =
    omega (arith, e, count_bits-length m n (suc i) (ids / 2) ps s)

-- A bit that is not set is not counted.
count_bits-suc : (n ids : ℕ) → has_bit ids n ≡ false → count_bits (suc n) ids ≡ count_bits n ids
unfolding count_bits has_bit
count_bits-suc zero ids h = ground arith
count_bits-suc (suc n) ids h = ap (λ k. ids % 2 + k) (count_bits-suc n (ids / 2) h)

-- A round whose bit is set reads a pair, where the rounds behind it read `ps`.
decode_input-pair :
    (fresh : ℕ → List ℕ) (m : Module) (i : ℕ) (p : ValuePair) (ps : List ValuePair)
    (b : DecodeBuffer) (xs rest : List ℕ)
    (others : DecodeBuffer → Option (List ValuePair × DecodeBuffer))
    → i < m.num_inputs
    → get_elem? m.inputs i ≡ some p.input
    → IsPair p
    → IsSmall b
    → ahead b ≡ pair_bytes p ++ (xs ++ rest)
    → others (advance b (length (pair_bytes p)))
      ≡ some (ps, advance (advance b (length (pair_bytes p))) (length xs))
    → decode_input fresh m true i b others ≡ some (p ∷ ps, advance b (length (pair_bytes p ++ xs)))
unfolding decode_input
decode_input-pair fresh m i p ps b xs rest others l g t small h later =
    rw (lt→ltb i m.num_inputs l, g, value, later) (ap (λ k. some (p ∷ ps, k)) joined)
  where
    value :
        DataValue.decode fresh p.input.data_type b ≡ (p.value, advance b (length (pair_bytes p)))
    value =
        subst (λ d. DataValue.decode fresh d b ≡ (p.value, advance b (length (pair_bytes p))))
          t.typed (decode-value fresh p.value b (xs ++ rest) t.single small h)

    joined :
        advance (advance b (length (pair_bytes p))) (length xs)
        ≡ advance b (length (pair_bytes p ++ xs))
    joined =
        advance-advance b (length (pair_bytes p)) (length xs)
        ∙ ap (advance b) (sym (length-append (pair_bytes p) xs))

pub decode_values-Selected :
    (fresh : ℕ → List ℕ) (m : Module) (n i ids : ℕ) (ps : List ValuePair) (b : DecodeBuffer)
    (rest : List ℕ)
    → Selected m n i ids ps
    → IsSmall b
    → ahead b ≡ concat_map pair_bytes ps ++ rest
    → decode_values fresh m n i ids b ≡ some (ps, advance b (length (concat_map pair_bytes ps)))
unfolding decode_values decode_input
decode_values-Selected fresh m zero i ids ps b rest stop small h =
    ap (λ c. some ([], c)) (sym (robocrisp.Comms.Buffer.Laws.advance-zero b))
decode_values-Selected fresh m (suc n) i ids ps b rest (skip e s) small h =
    rw e (decode_values-Selected fresh m n (suc i) (ids / 2) ps b rest s small h)
decode_values-Selected fresh m (suc n) i ids (p ∷ ps) b rest (pick e l g t s) small h =
    let next = append_assoc (pair_bytes p) (concat_map pair_bytes ps) rest in
    rw
      (
        e,
        decode_input-pair fresh m i p ps b (concat_map pair_bytes ps) rest
            (decode_values fresh m n (suc i) (ids / 2)) l g t small (h ∙ next)
            (decode_values-Selected fresh m n (suc i) (ids / 2) ps _ rest s
              (advance-IsSmall b (pair_bytes p) _ small (h ∙ next))
              (ahead-advance b (pair_bytes p) _ (h ∙ next))),
      )
      refl

-- A control for a module of a configuration: a request to clear inputs, or values for those whose
-- bits are set.
pub record IsControl (config : Configuration) (m : Module) (mc : ModuleControl) : Type 0 where
  pub aimed : mc.target ≡ some m
  pub listed : get_elem? config.modules mc.module_id ≡ some m
  pub ids_fit : mc.input_ids < 65536
  pub chosen :
      (is_clear mc ≡ true) × (mc.values ≡ [])
      ⊎ (is_clear mc ≡ false) × Selected m 16 0 mc.input_ids mc.values

abbrev pub bytes : ModuleControl → List ℕ
bytes mc = header mc ++ concat_map pair_bytes mc.values

get_num_values-clear : (mc : ModuleControl) → is_clear mc ≡ true → get_num_values mc ≡ 0
unfolding get_num_values
get_num_values-clear mc h = rw h refl

pub get_num_values-Selected :
    (m : Module) (mc : ModuleControl)
    → is_clear mc ≡ false
    → Selected m 16 0 mc.input_ids mc.values
    → get_num_values mc ≡ length mc.values
unfolding get_num_values is_clear
get_num_values-Selected m mc h s =
    rw h
      (sym (count_bits-suc 15 mc.input_ids h) ∙ count_bits-length m 16 0 mc.input_ids mc.values s)

-- A control has as many values as it says.
pub get_num_values-length :
    (config : Configuration) (m : Module) (mc : ModuleControl)
    → IsControl config m mc
    → get_num_values mc ≡ length mc.values
get_num_values-length config m mc v = elim v.chosen [
  | inl c ↦ get_num_values-clear mc c.0 ∙ sym (ap length c.1)
  | inr s ↦ get_num_values-Selected m mc s.0 s.1
]

pub values-IsPair :
    (config : Configuration) (m : Module) (mc : ModuleControl)
    → IsControl config m mc
    → All IsPair mc.values
values-IsPair config m mc v = elim v.chosen [
  | inl c ↦ subst (All IsPair) (sym c.1) tt
  | inr s ↦ Selected-IsPair m 16 0 mc.input_ids mc.values s.1
]
