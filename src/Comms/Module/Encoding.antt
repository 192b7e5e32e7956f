-- ===== src/Comms/Module/Encoding.antt =====
-- `Module::encode` produces the encoded form.
use robocrisp.Base.{
  ℕ, ◌≡◌, refl, List, [], ◌∷◌, All, length, Option, none, some, subst, ltb, if◌then◌else◌,
  append-nil, arith,
}
use robocrisp.Comms.Encoder.{
  Encoder, when, each, concat_map, Emits, write-Emits, when-Emits_all, >>-Emits, ⨾-Emits,
  done-Emits, each-Emits,
}
use robocrisp.Comms.Named.{is_some}
use robocrisp.Comms.Named.Codec.{HasName, encode_name-Emits, encode-Emits_named}
use robocrisp.Comms.ModuleInput
use robocrisp.Comms.ModuleInput.{ModuleInput, input_head}
use robocrisp.Comms.Sensor
use robocrisp.Comms.Sensor.{Sensor, SensorHead, sensor_head, get_name_length}
use robocrisp.Comms.Module.{Module, header, encode}
use robocrisp.Comms.Module.Form.{IsInput, IsSensor, input_bytes, sensor_bytes, IsModule, bytes}

pub sensor_name_length : (s : Sensor) → IsSensor s → get_name_length s ≡ s.name_length
sensor_name_length s v = named_length s.name s.name_length v.named
  where
    named_length :
        (name : Option (List ℕ)) (n : ℕ) → HasName name n → (if is_some name then n else 0) ≡ n
    named_length none n h = h
    named_length (some chars) n h = refl

input-Emits : (m : ModuleInput) → IsInput m → Emits (ModuleInput.encode m) (input_bytes m)
unfolding ModuleInput.encode
input-Emits m v = encode-Emits_named input_head (λ i. i.name_length) m v refl

sensor-Emits : (s : Sensor) → IsSensor s → Emits (Sensor.encode s) (sensor_bytes s)
unfolding Sensor.encode
sensor-Emits s v = encode-Emits_named sensor_head get_name_length s v (sensor_name_length s v)

each_counted-Emits {ℓ κ} :
    {A : Type ℓ} (P : A → Type κ) (e : A → Encoder) (f : A → List ℕ)
    → ((x : A) → P x → Emits (e x) (f x))
    → (n : ℕ) (xs : List A) → n ≡ length xs
    → All P xs
    → Emits (when (ltb 0 n) (each e xs)) (concat_map f xs)
each_counted-Emits P e f step n [] h all =
    when-Emits_all _ _ [] (λ t. refl) (λ t. absurd (ground arith))
each_counted-Emits P e f step n (x ∷ xs) h all =
    when-Emits_all _ _ _ (λ t. absurd (ground arith)) (λ t. each-Emits P e f step (x ∷ xs) all)

-- `encode` appends the encoded form wherever there is room for it.
pub encode_module-Emits : (m : Module) → IsModule m → Emits (encode m) (bytes m)
unfolding encode
encode_module-Emits m v = ⨾-Emits _ _ _ _ (write-Emits (header m)) (
    ⨾-Emits _ _ _ _ (encode_name-Emits m.name m.name_length) (
      >>-Emits _ _ _ _
        (each_counted-Emits IsInput ModuleInput.encode input_bytes input-Emits m.num_inputs m.inputs
          v.inputs_counted v.inputs_fit)
        (subst (Emits _) (append-nil (concat_map sensor_bytes m.sensors)) (
          >>-Emits _ _ _ _
            (each_counted-Emits IsSensor Sensor.encode sensor_bytes sensor-Emits m.num_sensors
              m.sensors v.sensors_counted v.sensors_fit)
            done-Emits))))
