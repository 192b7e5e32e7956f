-- ===== src/Comms/Sensor.antt =====
-- include/crisp/comms/Sensor.hh and src/comms/Sensor.cc: the generic `Sensor<>`.
use robocrisp.Base.{
  ℕ, ◌+◌, ◌*◌, ◌/◌, ◌%◌, ◌<◌, ◌≡◌, refl, Bool, true, ◌&&◌, List, [], ◌∷◌, get_or, length,
  if◌then◌else◌, ◌==◌, ==_refl, arith,
}
use robocrisp.Comms.Buffer.{DecodeBuffer}
use robocrisp.Comms.Encoder.{Encoder}
use robocrisp.Comms.Named
use robocrisp.Comms.Named.{Head, Named, is_some}

-- The three bit-fields before `name_length`, of 10 bits, 5 bits and 1 bit.
pub record SensorHead : Type 0 where
  pub id : ℕ
  pub type : ℕ
  pub reporting_mode : ℕ

pub record SensorFits (h : SensorHead) : Type 0 where
  pub id_fits : h.id < 1024
  pub type_fits : h.type < 32
  pub reporting_mode_fits : h.reporting_mode < 2

unfoldable pub head_bytes : SensorHead → List ℕ
head_bytes h = (h.id % 256) ∷ (h.id / 256 + 4 * h.type + 128 * h.reporting_mode) ∷ []

unfoldable pub head_of_bytes : List ℕ → SensorHead
head_of_bytes bytes = record {
  id = get_or bytes 0 0 + 256 * (get_or bytes 1 0 % 4);
  type = (get_or bytes 1 0 / 4) % 32;
  reporting_mode = get_or bytes 1 0 / 128;
}

unfoldable pub head_equal : SensorHead → SensorHead → Bool
head_equal a b = a.id == b.id && a.type == b.type && a.reporting_mode == b.reporting_mode

pub head_of_bytes-head_bytes : (h : SensorHead) → SensorFits h → head_of_bytes (head_bytes h) ≡ h
unfolding head_of_bytes head_bytes
head_of_bytes-head_bytes h v = ground arith

pub length-head_bytes : (h : SensorHead) → length (head_bytes h) ≡ 2
unfolding head_bytes
length-head_bytes h = refl

unfoldable pub head_equal_refl : (h : SensorHead) → head_equal h h ≡ true
unfolding head_equal
head_equal_refl h = rw (==_refl h.id, ==_refl h.type, ==_refl h.reporting_mode)

unfoldable pub sensor_head : Head SensorHead
unfolding head_bytes head_of_bytes head_equal
sensor_head = record {
  size = 2;
  blank = record { id = 0; type = 0; reporting_mode = 0 };
  bytes = head_bytes;
  of_bytes = head_of_bytes;
  equal = head_equal;
  Fits = SensorFits;
  length-bytes = length-head_bytes;
  of_bytes-bytes = head_of_bytes-head_bytes;
  equal_refl = head_equal_refl;
}

abbrev pub Sensor : Type 0
Sensor = Named SensorHead

abbrev pub get_name_length : Sensor → ℕ
get_name_length s = if is_some s.name then s.name_length else 0

unfoldable pub get_encoded_size : Sensor → ℕ
get_encoded_size = Named.get_encoded_size sensor_head get_name_length

unfoldable pub encode : Sensor → Encoder
encode = Named.encode sensor_head get_name_length

unfoldable pub decode_copy : (ℕ → List ℕ) → DecodeBuffer → Sensor × DecodeBuffer
decode_copy = Named.decode_copy sensor_head

-- `operator ==` compares the lengths as they are stored.
unfoldable pub equal : Sensor → Sensor → Bool
equal = Named.equal sensor_head (λ s. s.name_length)
