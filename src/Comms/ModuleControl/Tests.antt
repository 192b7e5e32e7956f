-- ===== src/Comms/ModuleControl/Tests.antt =====
-- A control for the module of the test configuration: runs, and the theorems at it.
use robocrisp.Base.{ℕ, ◌+◌, ◌≡◌, refl, true, [], ◌∷◌, some, get_elem?, arith}
use robocrisp.Base.Sorting.{insertion_sort, insertion_sort-Sorts}
use robocrisp.Comms.Buffer.{EncodeResult, DecodeResult, new_encode_buffer}
use robocrisp.Comms.Buffer.Laws.{reopen, written, new_encode_buffer-IsValid}
use robocrisp.Comms.ModuleInput.{ModuleInput}
use robocrisp.Comms.Module.Building.{IsBuilt}
use robocrisp.Comms.Module.{Module}
use robocrisp.Comms.Configuration.Tests.{robot, drive, speed, turn, speed_type, no_memory}
use robocrisp.Comms.DataValue.{DataValue}
use robocrisp.Comms.ModuleControl.{
  ModuleControl, ValuePair, has_bit, is_clear, count_bits, get_num_values, size_of_first,
  get_encoded_size, encode, decode, set, value_for,
}
use robocrisp.Comms.ModuleControl.Codec.{Selected, stop, skip, pick, IsPair, IsControl, bytes}
use robocrisp.Comms.ModuleControl.RoundTrip.{decode-encode_control}
use robocrisp.Comms.ModuleControl.Lookup.{key, built-IsNumbered}
use robocrisp.Comms.ModuleControl.Setting.{IsInputOf, IsOpen, IsOpen-IsControl, set-value_for}

abbrev turn_pair : ValuePair
turn_pair = record {
  input = turn;
  value = record { data_type = speed_type; value = 5 ∷ []; owns_value = true };
}

-- The input `turn` is to be 5.
abbrev pub turn_to_five : ModuleControl
turn_to_five = record { module_id = 0; input_ids = 2; target = some drive; values = turn_pair ∷ [] }

turn-IsPair : IsPair turn_pair
turn-IsPair = record {
  single = record { single = refl; sized = refl; narrow = omega arith; owned = refl };
  typed = refl;
}

drive-IsBuilt : IsBuilt drive
drive-IsBuilt = record {
  inputs_counted = refl;
  sensors_counted = refl;
  next_input = refl;
  next_sensor = refl;
  inputs_numbered = (refl, (refl, tt));
  sensors_numbered = (refl, tt);
  inputs_bounded = omega arith;
  sensors_bounded = omega arith;
}

turn-Selected : Selected drive 16 0 2 (turn_pair ∷ [])
turn-Selected = skip refl (
    pick refl (omega arith) refl turn-IsPair (
      skip refl (
        skip refl (
          skip refl (
            skip refl (
              skip refl (
                skip refl (
                  skip refl (
                    skip refl (
                      skip refl
                        (skip refl (skip refl (skip refl (skip refl (skip refl stop)))))))))))))))

turn-IsOpen : IsOpen robot drive turn_to_five
unfolding has_bit
turn-IsOpen = record {
  aimed = refl;
  listed = refl;
  few = omega arith;
  numbered = built-IsNumbered drive drive-IsBuilt;
  ids_fit = omega arith;
  not_clear = refl;
  selected = turn-Selected;
}

pub turn-IsControl : IsControl robot drive turn_to_five
turn-IsControl = IsOpen-IsControl robot drive turn_to_five turn-IsOpen

speed-IsInputOf : IsInputOf drive speed
speed-IsInputOf = record {
  known = refl;
  counted = omega arith;
  single = refl;
  narrow = omega arith;
}

pub size-turn : get_encoded_size turn_to_five ≡ 4
unfolding get_encoded_size get_num_values is_clear has_bit count_bits size_of_first
    robocrisp.Comms.DataValue.get_encoded_size
size-turn = refl

decode-encode_control_example :
    let (r, b') = encode turn_to_five (new_encode_buffer 8) in
    (r ≡ EncodeResult.success)
    × (written b' ≡ bytes turn_to_five)
    × (b'.offset ≡ 0 + get_encoded_size turn_to_five)
    × (decode no_memory robot (reopen b' 0)
        ≡ some (DecodeResult.success, turn_to_five, reopen b' b'.offset))
unfolding new_encode_buffer
decode-encode_control_example =
    decode-encode_control no_memory robot drive turn_to_five (new_encode_buffer 8) turn-IsControl
      (new_encode_buffer-IsValid 8 (omega arith)) (omega (arith, size-turn))

set-value_for_example :
    (mc' : ModuleControl) × (at : ℕ) × (p : ValuePair) × (set
        (insertion_sort key)
        2
        speed
        (9 ∷ [])
        turn_to_five
      ≡ some mc')
    × IsOpen robot drive mc'
    × (value_for (insertion_sort key) 1 speed mc' ≡ some (some at, mc'))
    × (get_elem? mc'.values at ≡ some p)
    × (p.input ≡ speed)
    × (p.value.value ≡ 9 ∷ [])
set-value_for_example =
    set-value_for robot drive (insertion_sort key) speed (9 ∷ []) 0 turn_to_five
      (insertion_sort-Sorts key) speed-IsInputOf refl turn-IsOpen

-- A control that holds no values.
abbrev nothing : ModuleControl
nothing = record turn_to_five { input_ids = 0; values = [] }

-- An input that a module of more than sixteen inputs may have.
abbrev far : ModuleInput
far = record turn { head = 16 }

-- A module with seventeen inputs, of which the last is named.
abbrev wide : Module
wide = record drive { num_inputs = 17 }

abbrev to_wide : ModuleControl
to_wide = record { module_id = 0; input_ids = 2; target = some wide; values = turn_pair ∷ [] }
