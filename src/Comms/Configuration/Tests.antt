-- ===== src/Comms/Configuration/Tests.antt =====
-- A configuration of one module with two inputs and a sensor: runs, and the theorems at it.
use robocrisp.Base.{
  ℕ, ◌<◌, ◌≡◌, ◌⊎◌, refl, true, false, List, [], ◌∷◌, ◌++◌, replicate, length, some, arith,
}
use robocrisp.Comms.Buffer.{
  EncodeBuffer, DecodeBuffer, EncodeResult, DecodeResult, new_encode_buffer,
}
use robocrisp.Comms.Buffer.Laws.{ahead, reopen, written, new_encode_buffer-IsValid}
use robocrisp.Comms.DataDeclaration.{DataDeclaration, integer, no_values}
use robocrisp.Comms.DataDeclaration.Header.{IsDeclaration}
use robocrisp.Comms.DataDeclaration.{set_header, header}
use robocrisp.Comms.Named.{Named}
use robocrisp.Comms.ModuleInput.{ModuleInput, input_head}
use robocrisp.Comms.ModuleInput
use robocrisp.Comms.Sensor
use robocrisp.Comms.Sensor.{Sensor, sensor_head}
use robocrisp.Comms.Module.{Module, add_input, add_sensor, with_id, new, find_input, encode}
use robocrisp.Comms.Module
use robocrisp.Comms.Module.Form.{IsModule, IsInput, IsSensor}
use robocrisp.Comms.Named.Codec.{HasName}
use robocrisp.Comms.Module.Building.{IsBuilt, new-IsBuilt, add-IsBuilt}
use robocrisp.Comms.Module.Restoring.{decode-IsBuilt}
use robocrisp.Comms.Module.Lookup.{Finds, find_input-Finds}
use robocrisp.Comms.Configuration.{
  Configuration, blank, add_module, get_encoded_size, decode, equal,
}
use robocrisp.Comms.Configuration
use robocrisp.Comms.Configuration.Codec.{
  IsConfiguration, bytes, restored_configuration, decode-encode_configuration,
}
use robocrisp.Comms.Configuration.Errors.{decode_cut}

-- A signed byte with a neutral, a least and a greatest value.
abbrev pub speed_type : DataDeclaration
speed_type = record {
  type = integer;
  width = 1;
  is_array = false;
  is_signed = true;
  has_neutral_value = true;
  has_minimum_value = true;
  has_maximum_value = true;
  array_size_width = 0;
  values = (3 ∷ replicate 15 0) ++ ((129 ∷ replicate 15 0) ++ (127 ∷ replicate 15 0));
}

abbrev pub speed : ModuleInput
speed = record {
  head = 0;
  name_length = 5;
  data_type = speed_type;
  name = some (115 ∷ 112 ∷ 101 ∷ 101 ∷ 100 ∷ 0 ∷ []);
  owns_name = false;
}

abbrev pub turn : ModuleInput
turn = record {
  head = 1;
  name_length = 4;
  data_type = speed_type;
  name = some (116 ∷ 117 ∷ 114 ∷ 110 ∷ 0 ∷ []);
  owns_name = false;
}

abbrev proximity_type : DataDeclaration
proximity_type = record speed_type {
  width = 2;
  is_signed = false;
  has_neutral_value = false;
  values = replicate 16 0 ++ ((50 ∷ 0 ∷ replicate 14 0) ++ (244 ∷ 1 ∷ replicate 14 0));
}

abbrev proximity : Sensor
proximity = record {
  head = record { id = 0; type = 2; reporting_mode = 1 };
  name_length = 5;
  data_type = proximity_type;
  name = some (102 ∷ 114 ∷ 111 ∷ 110 ∷ 116 ∷ 0 ∷ []);
  owns_name = false;
}

abbrev pub drive : Module
drive = record {
  id = 0;
  num_inputs = 2;
  num_sensors = 1;
  name_length = 5;
  name = some (100 ∷ 114 ∷ 105 ∷ 118 ∷ 101 ∷ 0 ∷ []);
  inputs = speed ∷ turn ∷ [];
  sensors = proximity ∷ [];
  next_input_id = 2;
  next_sensor_id = 1;
  owns_name = false;
}

abbrev pub robot : Configuration
robot = record { num_modules = 1; modules = drive ∷ []; next_module_id = 1 }

abbrev pub no_memory : ℕ → List ℕ
no_memory n = []

pub speed_type-IsDeclaration : IsDeclaration speed_type
speed_type-IsDeclaration = omega arith

proximity_type-IsDeclaration : IsDeclaration proximity_type
proximity_type-IsDeclaration = omega arith

drive-IsModule : IsModule drive
unfolding input_head sensor_head
drive-IsModule = record {
  inputs_counted = refl;
  sensors_counted = refl;
  named = refl;
  inputs_fit = (
    input_fits speed (omega arith) (omega arith) speed_type-IsDeclaration refl,
    (input_fits turn (omega arith) (omega arith) speed_type-IsDeclaration refl, tt),
  );
  sensors_fit = (sensor_fits, tt);
}
  where
    input_fits :
        (i : ModuleInput)
        → i.head < 256
        → i.name_length < 256
        → IsDeclaration i.data_type
        → HasName i.name i.name_length
        → IsInput i
    input_fits i f l d h = record { head_fits = f; length_fits = l; declared = d; named = h }

    sensor_fits : IsSensor proximity
    sensor_fits = record {
      head_fits = omega arith;
      length_fits = omega arith;
      declared = proximity_type-IsDeclaration;
      named = refl;
    }

pub robot-IsConfiguration : IsConfiguration robot
robot-IsConfiguration = record { modules_counted = refl; modules_fit = (drive-IsModule, tt) }

pub size-robot : get_encoded_size robot ≡ 50
unfolding get_encoded_size Module.get_encoded_size ModuleInput.get_encoded_size
    Sensor.get_encoded_size Configuration.size_of_first robocrisp.Comms.Named.get_encoded_size
    input_head robocrisp.Comms.Named.get_tail_size robocrisp.Comms.DataDeclaration.get_tail_size
    sensor_head
size-robot = refl

decode-encode_configuration_example :
    let (r, b') = Configuration.encode robot (new_encode_buffer 64) in
    (r ≡ EncodeResult.success)
    × (written b' ≡ bytes robot)
    × (decode no_memory blank (reopen b' 0)
        ≡ (DecodeResult.success, restored_configuration robot, reopen b' b'.offset))
    × (equal robot (restored_configuration robot) ≡ true)
unfolding new_encode_buffer
decode-encode_configuration_example =
    decode-encode_configuration no_memory robot blank (new_encode_buffer 64) robot-IsConfiguration
      (new_encode_buffer-IsValid 64 (omega arith)) (omega (arith, size-robot))

find_input-Finds_example :
    Finds
      (116 ∷ 117 ∷ 114 ∷ 110 ∷ 0 ∷ [])
      2
      (speed ∷ turn ∷ [])
      (find_input drive (116 ∷ 117 ∷ 114 ∷ 110 ∷ 0 ∷ []))
find_input-Finds_example =
    find_input-Finds drive (116 ∷ 117 ∷ 114 ∷ 110 ∷ 0 ∷ []) (refl, (refl, tt))

abbrev fresh_drive : Module
fresh_drive = new (100 ∷ 114 ∷ 105 ∷ 118 ∷ 101 ∷ 0 ∷ [])

add-IsBuilt_example :
    IsBuilt (add_input fresh_drive turn)
    × IsBuilt (add_sensor fresh_drive proximity)
    × IsBuilt (add_sensor (add_input fresh_drive turn) proximity)
    × ((add_input fresh_drive turn).inputs ≡ record turn { head = 0 } ∷ [])
    × ((add_sensor fresh_drive proximity).sensors ≡ with_id proximity 0 ∷ [])
    × (add_sensor (add_input fresh_drive turn) proximity
        ≡ add_input (add_sensor fresh_drive proximity) turn)
unfolding new
add-IsBuilt_example =
    add-IsBuilt fresh_drive turn proximity (new-IsBuilt (100 ∷ 114 ∷ 105 ∷ 118 ∷ 101 ∷ 0 ∷ []))
      (omega arith) (omega arith)

drive-IsBuilt : IsBuilt drive
drive-IsBuilt = record {
  inputs_counted = refl;
  sensors_counted = refl;
  next_input = refl;
  next_sensor = refl;
  inputs_numbered = (refl, (refl, tt));
  sensors_numbered = (refl, tt);
  inputs_bounded = omega arith;
  sensors_bounded = omega arith;
}

decode-IsBuilt_example :
    (b' : EncodeBuffer) × (m' : Module) × (encode drive (new_encode_buffer 400)
      ≡ (EncodeResult.success, b'))
    × (Module.decode no_memory fresh_drive (reopen b' 0)
        ≡ (DecodeResult.success, m', reopen b' b'.offset))
    × (length m'.inputs ≡ 2)
    × (length m'.sensors ≡ 1)
    × IsBuilt m'
unfolding new_encode_buffer Module.get_encoded_size ModuleInput.get_encoded_size
    Sensor.get_encoded_size robocrisp.Comms.Named.get_encoded_size
    robocrisp.Comms.Named.get_tail_size robocrisp.Comms.DataDeclaration.get_tail_size input_head
    sensor_head
decode-IsBuilt_example =
    decode-IsBuilt no_memory fresh_drive drive (new_encode_buffer 400) drive-IsModule drive-IsBuilt
      (new_encode_buffer-IsValid 400 (omega arith)) (omega arith)

abbrev full : EncodeBuffer
full = record { block = 1 ∷ 2 ∷ []; offset = 2 }

abbrev cut_short : DecodeBuffer
cut_short = record { block = 9 ∷ 2 ∷ []; offset = 1 }

decode_cut_example :
    let (r, c, b') = decode no_memory robot cut_short in
    ((ahead cut_short ≡ [])
      × (decode no_memory robot cut_short ≡ (DecodeResult.buffer_underflow, blank, cut_short)))
    ⊎ ((n : ℕ) × (ahead cut_short ≡ n ∷ [])
        × (r ≡ DecodeResult.success)
        × (c.num_modules ≡ n)
        × (length c.modules ≡ n)
        × (c.next_module_id ≡ 0))
decode_cut_example = decode_cut no_memory robot cut_short (omega arith) (omega arith)
