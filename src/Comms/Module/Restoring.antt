-- ===== src/Comms/Module/Restoring.antt =====
-- A module of src/comms/Module.cc that was built by its methods, on the other side.
use robocrisp.Base.{ℕ, ◌≤◌, ◌≡◌, ap, ◌∙◌, List, length, arith}
use robocrisp.Comms.Buffer.{EncodeBuffer, EncodeResult, DecodeResult}
use robocrisp.Comms.Buffer.Laws.{
  IsValid, room, put, reopen, reopen-IsSmall, ahead-put, advance-reopen,
}
use robocrisp.Comms.Module.{Module, encode, decode, get_encoded_size}
use robocrisp.Comms.Module.Form.{IsModule, bytes, restored_module}
use robocrisp.Comms.Module.Encoding.{encode_module-Emits}
use robocrisp.Comms.Module.Decoding.{decode_module-restored}
use robocrisp.Comms.Module.Equality.{get_encoded_size-length_module}
use robocrisp.Comms.Module.Building.{IsBuilt, length-map, restored_module-IsBuilt}

-- A module built by its methods, whose fields hold what they can hold, is encoded with SUCCESS into a well-formed
-- buffer with room for it, and decoded there, into any module, with SUCCESS. What is decoded has as
-- many inputs and sensors, and it is as if it was built by the methods: its counters and identifiers
-- agree, so that its next inputs and sensors get identifiers that are not yet taken.
pub decode-IsBuilt :
    (fresh : ℕ → List ℕ) (old m : Module) (b : EncodeBuffer)
    → IsModule m
    → IsBuilt m
    → IsValid b
    → get_encoded_size m ≤ room b
    → (b' : EncodeBuffer) × (m' : Module) × (encode m b ≡ (EncodeResult.success, b'))
      × (decode fresh old (reopen b' b.offset) ≡ (DecodeResult.success, m', reopen b' b'.offset))
      × (length m'.inputs ≡ length m.inputs)
      × (length m'.sensors ≡ length m.sensors)
      × IsBuilt m'
unfolding restored_module
decode-IsBuilt fresh old m b v u w h = (
  put b (bytes m),
  restored_module m,
  encode_module-Emits m v b w fits,
  decode_module-restored fresh old m (reopen (put b (bytes m)) b.offset) _ v
        (reopen-IsSmall b (bytes m) w fits) (ahead-put b (bytes m) w fits)
      ∙ ap (λ d. (DecodeResult.success, restored_module m, d)) (advance-reopen b (bytes m) w fits),
  length-map _ m.inputs,
  length-map _ m.sensors,
  restored_module-IsBuilt m u,
)
  where
    fits : length (bytes m) ≤ room b
    fits = omega (arith, h, get_encoded_size-length_module m v)
