-- ===== src/Comms/Module.antt =====
-- include/crisp/comms/Module.hh and src/comms/Module.cc: a group of inputs and sensors.
-- The `SArray` members are the lists of their elements (Util/SArray.antt has the array itself).
pub mod Form
pub mod Encoding
pub mod Decoding
pub mod Equality
pub mod Building
pub mod Restoring
pub mod Lookup
pub mod Errors
use robocrisp.Base.{
  ℕ, zero, suc, ◌+◌, ◌%◌, Bool, true, false, ◌&&◌, ◌||◌, not, List, [], ◌∷◌, ◌++◌, length, get_or,
  set, Option, none, some, sub_size, bytes_eq, ltb, ◌==◌, if◌then◌else◌,
}
use robocrisp.Comms.Buffer.{DecodeBuffer, DecodeResult, write, read}
use robocrisp.Comms.Encoder.{Encoder, ◌>>◌, ◌⨾◌, done, when, each}
use robocrisp.Comms.Named.{is_some, name_bytes, encode_name, decode_name}
use robocrisp.Comms.ModuleInput
use robocrisp.Comms.ModuleInput.{ModuleInput}
use robocrisp.Comms.Sensor
use robocrisp.Comms.Sensor.{Sensor}

pub record Module : Type 0 where
  pub id : ℕ
  pub num_inputs : ℕ
  pub num_sensors : ℕ
  pub name_length : ℕ
  pub name : Option (List ℕ)
  pub inputs : List ModuleInput
  pub sensors : List Sensor
  pub next_input_id : ℕ
  pub next_sensor_id : ℕ
  pub owns_name : Bool

-- `offsetof(Module, name)`.
abbrev pub header_size : ℕ
header_size = 4

-- `Module()`.
abbrev pub blank : Module
blank = record {
  id = 0;
  num_inputs = 0;
  num_sensors = 0;
  name_length = 0;
  name = none;
  inputs = [];
  sensors = [];
  next_input_id = 0;
  next_sensor_id = 0;
  owns_name = false;
}

-- `strlen`: the characters before the first NUL.
unfoldable pub strlen : List ℕ → ℕ
strlen [] = 0
strlen (c ∷ cs) = if c == 0 then 0 else suc (strlen cs)

-- `! strncmp(s, t, n)`.
unfoldable pub strncmp_eq : List ℕ → List ℕ → ℕ → Bool
strncmp_eq s t zero = true
strncmp_eq [] t (suc n) = false
strncmp_eq (c ∷ s) [] (suc n) = false
strncmp_eq (c ∷ s) (d ∷ t) (suc n) = c == d && (c == 0 || strncmp_eq s t n)

-- `Module(const char* _name, ...)`: the characters stay the caller's.
unfoldable pub new : List ℕ → Module
new name = record blank { name_length = strlen name % 256; name = some name }

-- `reset`: a name that is not owned stays.
unfoldable pub reset : Module → Module
reset m = record m {
  name = if m.owns_name && is_some m.name then none else m.name;
  name_length = if m.owns_name && is_some m.name then 0 else m.name_length;
  num_inputs = 0;
  num_sensors = 0;
  inputs = [];
  sensors = [];
  next_input_id = 0;
  next_sensor_id = 0;
  owns_name = false;
}

-- `add_input`: the counters are `uint8_t`.
unfoldable pub add_input : Module → ModuleInput → Module
add_input m input = record m {
  num_inputs = (m.num_inputs + 1) % 256;
  inputs = m.inputs ++ record input { head = m.next_input_id } ∷ [];
  next_input_id = (m.next_input_id + 1) % 256;
}

unfoldable pub with_id : Sensor → ℕ → Sensor
with_id sensor n = record sensor { head = record head { id = n } }
  where
    open sensor use {head}

-- `add_sensor`: the new sensor is found by the counter.
unfoldable pub add_sensor : Module → Sensor → Module
add_sensor m sensor =
    let num_sensors : ℕ = (m.num_sensors + 1) % 256 in
    let sensors = m.sensors ++ sensor ∷ [] in
    let at = sub_size num_sensors 1 in
    record m {
      num_sensors = num_sensors;
      sensors = set sensors at (with_id (get_or sensors at sensor) m.next_sensor_id);
      next_sensor_id = (m.next_sensor_id + 1) % 256;
    }

-- The loop of `find_input` over the first `n` inputs.
unfoldable pub find_among : List ℕ → ℕ → List ModuleInput → Option ModuleInput
find_among name zero inputs = none
find_among name (suc n) [] = none
find_among name (suc n) (input ∷ inputs) =
    if input.name_length == strlen name
      && strncmp_eq name (name_bytes input.name input.name_length) input.name_length
    then some input
    else find_among name n inputs

unfoldable pub find_input : Module → List ℕ → Option ModuleInput
find_input m name = find_among name m.num_inputs m.inputs

-- The first `header_size` bytes of the struct.
unfoldable pub header : Module → List ℕ
header m = m.id ∷ m.num_inputs ∷ m.num_sensors ∷ m.name_length ∷ []

unfoldable pub set_header : Module → List ℕ → Module
set_header m bytes = record m {
  id = get_or bytes 0 0;
  num_inputs = get_or bytes 1 0;
  num_sensors = get_or bytes 2 0;
  name_length = get_or bytes 3 0;
}

-- A sum over a container.
abbrev pub sum_map {ℓ} : {A : Type ℓ} → (A → ℕ) → List A → ℕ
sum_map f [] = 0
sum_map f (x ∷ xs) = f x + sum_map f xs

unfoldable pub get_encoded_size : Module → ℕ
get_encoded_size m =
    header_size
    + m.name_length
    + sum_map ModuleInput.get_encoded_size m.inputs
    + sum_map Sensor.get_encoded_size m.sensors

-- The assertions after each element say that it moved the offset by its `get_encoded_size`.
unfoldable pub encode : Module → Encoder
encode m =
    (λ b. write b (header m))
    ⨾ encode_name m.name m.name_length
    ⨾ when (ltb 0 m.num_inputs) (each ModuleInput.encode m.inputs)
    >> when (ltb 0 m.num_sensors) (each Sensor.encode m.sensors)
    >> done

-- A loop that decodes `n` elements.
unfoldable pub decode_each {ℓ} :
    {A : Type ℓ} → (DecodeBuffer → A × DecodeBuffer) → ℕ → DecodeBuffer → List A × DecodeBuffer
decode_each decode_one zero b = ([], b)
decode_each decode_one (suc n) b =
    let (x, b') = decode_one b in let (xs, b'') = decode_each decode_one n b' in (x ∷ xs, b'')

-- `back()` of a container, or a given value if it is empty.
abbrev pub back_or {ℓ} : {A : Type ℓ} → List A → A → A
back_or [] d = d
back_or (x ∷ xs) d = back_or xs x

-- `back().input_id + 1` and `back().id + 1`, as `uint8_t`, if there is an element.
abbrev pub next_id {ℓ} : {A : Type ℓ} → (A → ℕ) → List A → ℕ
next_id id [] = 0
next_id id (x ∷ xs) = (id (back_or xs x) + 1) % 256

-- `decode`: no result of a read is looked at, and the result is SUCCESS.
unfoldable pub decode : (ℕ → List ℕ) → Module → DecodeBuffer → DecodeResult × Module × DecodeBuffer
decode fresh old b =
    let m = reset old in
    let (_, bytes, b₁) = read b header_size (header m) in
    let m' = set_header m bytes in
    let (name, owns, b₂) = decode_name fresh m'.name_length b₁ in
    let (inputs, b₃) = decode_each (ModuleInput.decode_copy fresh) m'.num_inputs b₂ in
    let (sensors, b₄) = decode_each (Sensor.decode_copy fresh) m'.num_sensors b₃ in
    (
      DecodeResult.success,
      record m' {
        name = name;
        owns_name = owns;
        inputs = inputs;
        sensors = sensors;
        next_input_id = next_id (λ i. i.head) inputs;
        next_sensor_id = next_id (λ s. s.head.id) sensors;
      },
      b₄,
    )

-- The loops of `operator ==` over the first `n` elements.
unfoldable pub all_equal {ℓ} : {A : Type ℓ} → (A → A → Bool) → ℕ → List A → List A → Bool
all_equal eq zero xs ys = true
all_equal eq (suc n) [] ys = false
all_equal eq (suc n) (x ∷ xs) [] = false
all_equal eq (suc n) (x ∷ xs) (y ∷ ys) = eq x y && all_equal eq n xs ys

-- `operator ==`.
unfoldable pub equal : Module → Module → Bool
equal m o =
    bytes_eq (header m) (header o)
    && (m.name_length == 0
        || is_some m.name
          && is_some o.name
          && bytes_eq (name_bytes m.name m.name_length) (name_bytes o.name m.name_length))
    && all_equal Sensor.equal m.num_sensors m.sensors o.sensors
    && all_equal ModuleInput.equal m.num_inputs m.inputs o.inputs
