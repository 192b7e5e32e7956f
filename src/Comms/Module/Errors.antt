-- ===== src/Comms/Module/Errors.antt =====
-- What `Module::encode` and `Module::decode` report where space or bytes run out.
use robocrisp.Base.{ℕ, ◌≡◌, refl, Bool, true, false, List, [], ◌∷◌, Option, ltb, arith}
use robocrisp.Comms.Buffer.{EncodeBuffer, EncodeResult, write}
use robocrisp.Comms.Buffer.Laws.{IsValid, room, put-nil, write-put, write_full}
use robocrisp.Comms.Encoder.{Encoder, ◌>>◌, ◌⨾◌, done, when}
use robocrisp.Comms.Named.{encode_name, name_bytes}
use robocrisp.Comms.Module.{Module, encode, header}

-- A write into a buffer that is full leaves it as it is.
write_unmoved : (b : EncodeBuffer) (xs : List ℕ) → IsValid b → room b ≡ 0 → (write b xs).1 ≡ b
write_unmoved b [] v full = rw (write-put b [] v (omega arith)) (put-nil b)
write_unmoved b (x ∷ xs) v full = rw (write_full b (x ∷ xs) v (omega arith))

when_unmoved : (t : Bool) (e : Encoder) (b : EncodeBuffer) → (e b).1 ≡ b → (when t e b).1 ≡ b
unfolding when done
when_unmoved true e b h = h
when_unmoved false e b h = refl

encode_name_unmoved :
    (name : Option (List ℕ)) (n : ℕ) (b : EncodeBuffer)
    → IsValid b
    → room b ≡ 0
    → (encode_name name n b).1 ≡ b
unfolding encode_name
encode_name_unmoved name n b v full =
    when_unmoved _ (λ c. write c (name_bytes name n)) b (write_unmoved b (name_bytes name n) v full)

-- A module with neither inputs nor sensors is encoded with SUCCESS also into a well-formed buffer
-- that has no room at all, and then nothing is written.
pub encode_without_elements :
    (m : Module) (b : EncodeBuffer)
    → IsValid b
    → room b ≡ 0
    → m.num_inputs ≡ 0
    → m.num_sensors ≡ 0
    → encode m b ≡ (EncodeResult.success, b)
unfolding encode ◌>>◌ ◌⨾◌ when done
encode_without_elements m b v full i s = rw (
  write_unmoved b (header m) v full,
  encode_name_unmoved m.name m.name_length b v full,
  no_inputs,
  no_sensors,
)
  where
    no_inputs : ltb 0 m.num_inputs ≡ false
    no_inputs = ground arith

    no_sensors : ltb 0 m.num_sensors ≡ false
    no_sensors = ground arith
