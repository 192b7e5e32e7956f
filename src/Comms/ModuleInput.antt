-- ===== src/Comms/ModuleInput.antt =====
-- include/crisp/comms/ModuleInput.hh and src/comms/ModuleInput.cc: the generic `ModuleInput<>`.
use robocrisp.Base.{ℕ, ◌<◌, refl, Bool, List, [], ◌∷◌, get_or, ◌==◌, ==_refl}
use robocrisp.Comms.Buffer.{DecodeBuffer}
use robocrisp.Comms.Encoder.{Encoder}
use robocrisp.Comms.Named
use robocrisp.Comms.Named.{Head, Named}

-- The one field before `name_length`.
unfoldable pub input_head : Head ℕ
input_head = record {
  size = 1;
  blank = 0;
  bytes = λ id. id ∷ [];
  of_bytes = λ bytes. get_or bytes 0 0;
  equal = ◌==◌;
  Fits = λ id. id < 256;
  length-bytes = λ id. refl;
  of_bytes-bytes = λ id h. refl;
  equal_refl = ==_refl;
}

-- `head` is `input_id`.
abbrev pub ModuleInput : Type 0
ModuleInput = Named ℕ

abbrev pub get_name_length : ModuleInput → ℕ
get_name_length m = m.name_length

unfoldable pub get_encoded_size : ModuleInput → ℕ
get_encoded_size = Named.get_encoded_size input_head get_name_length

unfoldable pub encode : ModuleInput → Encoder
encode = Named.encode input_head get_name_length

unfoldable pub decode_copy : (ℕ → List ℕ) → DecodeBuffer → ModuleInput × DecodeBuffer
decode_copy = Named.decode_copy input_head

unfoldable pub equal : ModuleInput → ModuleInput → Bool
equal = Named.equal input_head get_name_length
