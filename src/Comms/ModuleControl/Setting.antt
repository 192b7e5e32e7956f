-- ===== src/Comms/ModuleControl/Setting.antt =====
-- `value_for` and `set` of include/crisp/comms/ModuleControl.hh on a control that holds values.
use robocrisp.Base.{
  ℕ, suc, ◌%◌, ◌≤◌, ◌<◌, ◌≡◌, inl, inr, refl, sym, ap, ◌∙◌, true, false, List, [], ◌∷◌, ◌++◌,
  length, get_elem?, All-get_elem?, some, some-injective, leb, lt→ltb, Bool-cases, arith,
}
use robocrisp.Base.Sorting.{Sorts, insert, sort-insert}
use robocrisp.Comms.DataValue
use robocrisp.Comms.DataValue.{DataValue}
use robocrisp.Comms.DataValue.Codec.{new-IsSingle}
use robocrisp.Comms.ModuleInput.{ModuleInput}
use robocrisp.Comms.Module.{Module}
use robocrisp.Comms.Configuration.{Configuration}
use robocrisp.Comms.ModuleControl.{
  ValuePair, ModuleControl, has_bit, set_bit, find_pair, store, write_pair, mark, add_pair,
  value_for, set, is_clear, get_num_values,
}
use robocrisp.Comms.ModuleControl.Codec.{Selected, Selected-IsPair, IsPair, IsControl}
use robocrisp.Comms.ModuleControl.Bits.{
  has_bit-set_bit, has_bit-set_bit_other, set_bit-bound, bound, count_bits-bound,
}
use robocrisp.Comms.ModuleControl.Update.{
  get_elem?-update, update-Selected, find_pair-update, set-value,
}
use robocrisp.Comms.ModuleControl.Lookup.{
  key, IsNumbered, ValuePair-IsSet, insert-Selected, Selected-Increasing, find_pair-Selected,
}

-- An input of a module, of a type whose values are single.
pub record IsInputOf (m : Module) (input : ModuleInput) : Type 0 where
  pub known : get_elem? m.inputs input.head ≡ some input
  pub counted : input.head < m.num_inputs
  pub single : input.data_type.is_array ≡ false
  pub narrow : input.data_type.width < 32

-- A control that holds values for a module, whose inputs are at most `Module::MAX_INPUTS`, each
-- numbered by its place.
pub record IsOpen (config : Configuration) (m : Module) (mc : ModuleControl) : Type 0 where
  pub aimed : mc.target ≡ some m
  pub listed : get_elem? config.modules mc.module_id ≡ some m
  pub few : m.num_inputs ≤ 15
  pub numbered : IsNumbered m
  pub ids_fit : mc.input_ids < 65536
  pub not_clear : has_bit mc.input_ids 15 ≡ false
  pub selected : Selected m 16 0 mc.input_ids mc.values

pub IsOpen-IsControl :
    (config : Configuration) (m : Module) (mc : ModuleControl)
    → IsOpen config m mc
    → IsControl config m mc
unfolding is_clear
IsOpen-IsControl config m mc v = record {
  aimed = v.aimed;
  listed = v.listed;
  ids_fit = v.ids_fit;
  chosen = inr (v.not_clear, v.selected);
}

module _ (config : Configuration) (m : Module) (sort : List ValuePair → List ValuePair)
    (sorts : Sorts key sort) (input : ModuleInput) (u : IsInputOf m input) where
  new_pair : ValuePair
  new_pair = record { input = input; value = DataValue.new input.data_type }

  -- The new pair comes to its place, and the control still holds the values that it says.
  add_pair-IsOpen :
      (mc : ModuleControl)
      → IsOpen config m mc
      → has_bit mc.input_ids input.head ≡ false
      → IsOpen config m (add_pair sort input mc)
        × (has_bit (add_pair sort input mc).input_ids input.head ≡ true)
  unfolding add_pair mark new_pair bound DataValue.new
  add_pair-IsOpen mc v b = (
    record {
      aimed = v.aimed;
      listed = v.listed;
      few = v.few;
      numbered = v.numbered;
      ids_fit = rw no_wrap small;
      not_clear = rw no_wrap (
          has_bit-set_bit_other mc.input_ids input.head 15
            (λ e. absurd (omega (arith, e, v.few, u.counted)))
          ∙ v.not_clear);
      selected = rw (no_wrap, placed) inserted;
    },
    rw no_wrap (has_bit-set_bit mc.input_ids input.head),
  )
    where
      small : set_bit mc.input_ids input.head < 65536
      small = set_bit-bound 16 mc.input_ids input.head (omega (arith, v.few, u.counted)) v.ids_fit

      no_wrap : set_bit mc.input_ids input.head % 65536 ≡ set_bit mc.input_ids input.head
      no_wrap = omega (arith, small)

      inserted : Selected m 16 0 (set_bit mc.input_ids input.head) (insert key new_pair mc.values)
      inserted =
          insert-Selected m v.numbered new_pair 16 0 input.head mc.input_ids mc.values
            (omega (arith, v.few, u.counted)) b (omega (arith, u.counted))
            (ap (get_elem? m.inputs) (omega arith) ∙ u.known)
            (record { single = new-IsSingle input.data_type u.single u.narrow; typed = refl })
            v.selected

      placed : sort (mc.values ++ new_pair ∷ []) ≡ insert key new_pair mc.values
      placed =
          sort-insert key ValuePair-IsSet sort new_pair mc.values sorts
            (Selected-Increasing m v.numbered 16 0 _ _ inserted)

  -- What a call of `value_for` that ends gives: a pointer to the pair of the input.
  abbrev pub Points : ModuleControl → ℕ → Type 0
  Points mc at =
      (p : ValuePair) × (get_elem? mc.values at ≡ some p)
      × (p.input ≡ input)
      × (find_pair input.head 0 mc.values ≡ some at)

  points :
      (mc : ModuleControl)
      → IsOpen config m mc
      → has_bit mc.input_ids input.head ≡ true
      → (at : ℕ) × Points mc at
  points mc v b =
      let (at, p, found, there, same) =
        find_pair-Selected m v.numbered 16 0 input.head mc.input_ids 0 mc.values
          (omega (arith, v.few, u.counted)) b v.selected in
      (
        at,
        (
          p,
          there,
          some-injective _ _ (sym same ∙ ap (get_elem? m.inputs) (omega arith) ∙ u.known),
          ap (λ id. find_pair id 0 mc.values) (omega arith) ∙ found ∙ ap some (omega arith),
        ),
      )

  asserted : (mc : ModuleControl) → leb (get_num_values mc) 15 ≡ true
  unfolding get_num_values
  asserted mc = elim (Bool-cases (is_clear mc)) [
    | inl c ↦ rw c refl
    | inr c ↦ rw c (ground (arith, count_bits-bound 15 mc.input_ids))
  ]

  value_for-present :
      (fuel : ℕ) (mc : ModuleControl) (at : ℕ)
      → IsOpen config m mc
      → has_bit mc.input_ids input.head ≡ true
      → Points mc at
      → value_for sort (suc fuel) input mc ≡ some (some at, mc)
  unfolding value_for
  value_for-present fuel mc at v b p =
      rw (asserted mc, v.aimed, lt→ltb input.head m.num_inputs u.counted, b, p.3) refl

  value_for-absent :
      (fuel : ℕ) (mc : ModuleControl)
      → IsOpen config m mc
      → has_bit mc.input_ids input.head ≡ false
      → value_for sort (suc fuel) input mc ≡ value_for sort fuel input (add_pair sort input mc)
  unfolding value_for
  value_for-absent fuel mc v b =
      rw (asserted mc, v.aimed, lt→ltb input.head m.num_inputs u.counted, b) refl

  -- `value_for` of an input of the module ends after at most two calls.
  value_for-Points :
      (fuel : ℕ) (mc : ModuleControl)
      → IsOpen config m mc
      → (at : ℕ) × (mc' : ModuleControl) × (value_for sort (suc (suc fuel)) input mc
          ≡ some (some at, mc'))
        × IsOpen config m mc'
        × (has_bit mc'.input_ids input.head ≡ true)
        × Points mc' at
  value_for-Points fuel mc v = elim (Bool-cases (has_bit mc.input_ids input.head)) [
    | inl b ↦
        let (at, p) = points mc v b in (at, mc, value_for-present (suc fuel) mc at v b p, v, b, p)
    | inr b ↦
        let (w, c) = add_pair-IsOpen mc v b in
        let (at, p) = points (add_pair sort input mc) w c in
        (
          at,
          add_pair sort input mc,
          value_for-absent (suc fuel) mc v b
              ∙ value_for-present fuel (add_pair sort input mc) at w c p,
          w,
          c,
          p,
        )
  ]

  -- The control after the value at a place was written.
  store-IsOpen :
      (bytes : List ℕ) (mc : ModuleControl) (at : ℕ)
      → IsOpen config m mc
      → IsOpen config m (store bytes (some at) mc)
  unfolding store
  store-IsOpen bytes mc at v = record {
    aimed = v.aimed;
    listed = v.listed;
    few = v.few;
    numbered = v.numbered;
    ids_fit = v.ids_fit;
    not_clear = v.not_clear;
    selected = update-Selected m bytes 16 0 mc.input_ids at mc.values v.selected;
  }

  written_value :
      (bytes : List ℕ) (mc : ModuleControl) (at : ℕ) (p : ValuePair)
      → IsOpen config m mc
      → get_elem? mc.values at ≡ some p
      → p.input ≡ input
      → length bytes ≡ input.data_type.width
      → (write_pair bytes p).value.value ≡ bytes
  unfolding write_pair
  written_value bytes mc at p v there same h =
      let pair =
        All-get_elem? IsPair mc.values at p
          (Selected-IsPair m 16 0 mc.input_ids mc.values v.selected) there in
      set-value p.value bytes pair.single
        (h ∙ ap (λ i. i.data_type.width) (sym same) ∙ ap (λ d. d.width) (sym pair.typed))

-- `set` of an input of the module to as many bytes as its type has ends after at most two calls of
-- `value_for`, whatever the sort does with equal keys. The control that it leaves still holds the
-- values of the inputs whose bits are set, in order, and `value_for` then points, at once and without a
-- change, to the pair of the input, whose value is those bytes.
pub set-value_for :
    (config : Configuration) (m : Module) (sort : List ValuePair → List ValuePair)
    (input : ModuleInput) (bytes : List ℕ) (fuel : ℕ) (mc : ModuleControl)
    → Sorts key sort
    → IsInputOf m input
    → length bytes ≡ input.data_type.width
    → IsOpen config m mc
    → (mc' : ModuleControl) × (at : ℕ) × (p : ValuePair) × (set sort (suc (suc fuel)) input bytes mc
        ≡ some mc')
      × IsOpen config m mc'
      × (value_for sort (suc fuel) input mc' ≡ some (some at, mc'))
      × (get_elem? mc'.values at ≡ some p)
      × (p.input ≡ input)
      × (p.value.value ≡ bytes)
unfolding set store write_pair
set-value_for config m sort input bytes fuel mc sorts u h v =
    let (at, mc₁, ended, w, b, (p, there, same, found)) =
      value_for-Points config m sort sorts input u fuel mc v in
    let mc₂ = store bytes (some at) mc₁ in
    let w₂ = store-IsOpen config m sort sorts input u bytes mc₁ at w in
    let there₂ = get_elem?-update at (write_pair bytes) mc₁.values p there in
    (
      mc₂,
      at,
      write_pair bytes p,
      rw ended refl,
      w₂,
      value_for-present config m sort sorts input u fuel mc₂ at w₂ b (
        write_pair bytes p,
        there₂,
        same,
        find_pair-update bytes input.head 0 at mc₁.values ∙ found,
      ),
      there₂,
      same,
      written_value config m sort sorts input u bytes mc₁ at p w there same h,
    )
