-- ===== src/Comms/Module/Form.antt =====
-- The encoded form of a module, the modules that have one, and what decoding makes of it.
use robocrisp.Base.{ℕ, ◌≡◌, not, List, ◌++◌, map, All, length, ◌==◌}
use robocrisp.Comms.Encoder.{concat_map}
use robocrisp.Comms.Named.{name_bytes}
use robocrisp.Comms.Named.Codec
use robocrisp.Comms.Named.Codec.{
  HasName, restored_name, restored_named, encode_name-Emits, decode_name-advance, same_name,
  encode-Emits_named, decode_copy-restored_named, get_encoded_size-length_named,
  equal-restored_named,
}
use robocrisp.Comms.ModuleInput.{ModuleInput, input_head}
use robocrisp.Comms.Sensor.{Sensor, sensor_head}
use robocrisp.Comms.Module.{Module, header, next_id}

abbrev pub IsInput : ModuleInput → Type 0
IsInput = Codec.IsNamed input_head

abbrev pub IsSensor : Sensor → Type 0
IsSensor = Codec.IsNamed sensor_head

abbrev pub input_bytes : ModuleInput → List ℕ
input_bytes = Codec.bytes input_head

abbrev pub sensor_bytes : Sensor → List ℕ
sensor_bytes = Codec.bytes sensor_head

-- The counters count, the fields hold what they can hold, and the names are there.
pub record IsModule (m : Module) : Type 0 where
  pub inputs_counted : m.num_inputs ≡ length m.inputs
  pub sensors_counted : m.num_sensors ≡ length m.sensors
  pub named : HasName m.name m.name_length
  pub inputs_fit : All IsInput m.inputs
  pub sensors_fit : All IsSensor m.sensors

-- The encoded form.
abbrev pub bytes : Module → List ℕ
bytes m =
    header m
    ++ (name_bytes m.name m.name_length
        ++ (concat_map input_bytes m.inputs ++ concat_map sensor_bytes m.sensors))

-- What `decode` makes of the encoded form.
unfoldable pub restored_module : Module → Module
restored_module m = record m {
  name = restored_name m.name m.name_length;
  owns_name = not (m.name_length == 0);
  inputs = map (restored_named input_head) m.inputs;
  sensors = map (restored_named sensor_head) m.sensors;
  next_input_id = next_id (λ i. i.head) m.inputs;
  next_sensor_id = next_id (λ s. s.head.id) m.sensors;
}
