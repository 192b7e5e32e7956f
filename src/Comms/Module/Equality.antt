-- ===== src/Comms/Module/Equality.antt =====
-- A module that was encoded and decoded is `==` to the one it was made of, and its announced size is
-- the size of its encoded form.
use robocrisp.Base.{
  ℕ, zero, suc, ◌≡◌, refl, Bool, true, ◌&&◌, ◌||◌, List, [], ◌∷◌, ◌++◌, map, All, length, Option,
  none, some, bytes_eq, bytes_eq_refl, ◌==◌, Bool-cases, inl, inr, length-append, take-append_of,
  arith,
}
use robocrisp.Comms.Encoder.{concat_map}
use robocrisp.Comms.Named.{is_some, name_bytes}
use robocrisp.Comms.Named.Codec.{
  HasName, restored_name, restored_named, get_encoded_size-length_named, equal-restored_named,
}
use robocrisp.Comms.ModuleInput
use robocrisp.Comms.ModuleInput.{ModuleInput, input_head}
use robocrisp.Comms.Sensor
use robocrisp.Comms.Sensor.{Sensor, SensorHead, sensor_head, get_name_length}
use robocrisp.Comms.Module.{Module, header, sum_map, get_encoded_size, all_equal, equal}
use robocrisp.Comms.Module.Form.{
  IsInput, IsSensor, input_bytes, sensor_bytes, IsModule, bytes, restored_module,
}
use robocrisp.Comms.Module.Encoding.{sensor_name_length}

pub all_equal-map {ℓ κ} :
    {A : Type ℓ} (P : A → Type κ) (eq : A → A → Bool) (g : A → A)
    → ((x : A) → P x → eq x (g x) ≡ true)
    → (n : ℕ) (xs : List A) → n ≡ length xs
    → All P xs
    → all_equal eq n xs (map g xs) ≡ true
unfolding all_equal
all_equal-map P eq g same zero xs h all = refl
all_equal-map P eq g same (suc n) [] h all = absurd (omega arith)
all_equal-map P eq g same (suc n) (x ∷ xs) h all =
    rw (same x all.0) (all_equal-map P eq g same n xs (omega arith) all.1)

equal-restored_input :
    (m : ModuleInput) → IsInput m → ModuleInput.equal m (restored_named input_head m) ≡ true
unfolding ModuleInput.equal restored_named
equal-restored_input m v = equal-restored_named input_head (λ i. i.name_length) m v refl refl

equal-restored_sensor :
    (s : Sensor) → IsSensor s → Sensor.equal s (restored_named sensor_head s) ≡ true
unfolding Sensor.equal restored_named
equal-restored_sensor s v = equal-restored_named sensor_head (λ i. i.name_length) s v refl refl

-- The name part of `operator ==`.
same_module_name :
    (name : Option (List ℕ)) (n : ℕ)
    → HasName name n
    → (n == 0
        || is_some name
          && is_some (restored_name name n)
          && bytes_eq (name_bytes name n) (name_bytes (restored_name name n) n))
      ≡ true
same_module_name none n h = ground arith
same_module_name (some chars) n h = elim (Bool-cases (n == 0)) [
  | inl e ↦ rw e
  | inr e ↦
      rw (e, take-append_of n (name_bytes (some chars) n) (0 ∷ []) h)
        (bytes_eq_refl (name_bytes (some chars) n))
]

pub equal-restored_module : (m : Module) → IsModule m → equal m (restored_module m) ≡ true
unfolding equal restored_module header
equal-restored_module m v = rw (
  bytes_eq_refl (header m),
  same_module_name m.name m.name_length v.named,
  all_equal-map IsSensor Sensor.equal (restored_named sensor_head) equal-restored_sensor
      m.num_sensors m.sensors v.sensors_counted v.sensors_fit,
  all_equal-map IsInput ModuleInput.equal (restored_named input_head) equal-restored_input
      m.num_inputs m.inputs v.inputs_counted v.inputs_fit,
)

pub length-concat_map {ℓ κ} :
    {A : Type ℓ} (P : A → Type κ) (size : A → ℕ) (f : A → List ℕ)
    → ((x : A) → P x → size x ≡ length (f x))
    → (xs : List A) → All P xs
    → sum_map size xs ≡ length (concat_map f xs)
length-concat_map P size f same [] all = omega arith
length-concat_map P size f same (x ∷ xs) all = omega (
  arith,
  same x all.0,
  length-concat_map P size f same xs all.1,
  length-append (f x) (concat_map f xs),
)

input_size : (m : ModuleInput) → IsInput m → ModuleInput.get_encoded_size m ≡ length (input_bytes m)
unfolding ModuleInput.get_encoded_size
input_size m v = get_encoded_size-length_named input_head (λ i. i.name_length) m v refl

sensor_size : (s : Sensor) → IsSensor s → Sensor.get_encoded_size s ≡ length (sensor_bytes s)
unfolding Sensor.get_encoded_size
sensor_size s v =
    get_encoded_size-length_named sensor_head get_name_length s v (sensor_name_length s v)

pub get_encoded_size-length_module :
    (m : Module) → IsModule m → get_encoded_size m ≡ length (bytes m)
unfolding get_encoded_size header
get_encoded_size-length_module m v = omega (
  arith,
  length-append (header m) (
      name_bytes m.name m.name_length
      ++ (concat_map input_bytes m.inputs ++ concat_map sensor_bytes m.sensors)),
  length-append (name_bytes m.name m.name_length)
      (concat_map input_bytes m.inputs ++ concat_map sensor_bytes m.sensors),
  length-append (concat_map input_bytes m.inputs) (concat_map sensor_bytes m.sensors),
  v.named,
  length-concat_map IsInput ModuleInput.get_encoded_size input_bytes input_size m.inputs
      v.inputs_fit,
  length-concat_map IsSensor Sensor.get_encoded_size sensor_bytes sensor_size m.sensors
      v.sensors_fit,
)
