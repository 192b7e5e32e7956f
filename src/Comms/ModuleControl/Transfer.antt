-- ===== src/Comms/ModuleControl/Transfer.antt =====
-- A control as the body of a message.
use robocrisp.Base.{
  ℕ, ◌+◌, ◌<◌, ◌≤◌, ◌≡◌, refl, sym, ap, ◌++◌, [], List, length, true, none, some, append-nil, arith,
}
use robocrisp.Comms.Buffer.{EncodeBuffer, DecodeBuffer, EncodeResult, DecodeResult}
use robocrisp.Comms.Buffer.Laws.{IsValid, room, advance, reopen}
use robocrisp.Comms.Module.{Module}
use robocrisp.Comms.Configuration.{Configuration}
use robocrisp.Comms.Message.{
  Message, MessageTypeInfo, FlowDirection, header_size, module_control, get_type_info, encode,
  decode, checksum_ok, decode_body, of_body,
}
use robocrisp.Comms.Message.Codec.{received}
use robocrisp.Comms.Message.Transfer.{of_body-IsMessage}
use robocrisp.Comms.Message.Codec.{decode-encode_message}
use robocrisp.Comms.ModuleControl
use robocrisp.Comms.ModuleControl.{ModuleControl, header}
use robocrisp.Comms.ModuleControl.Codec.{IsControl, pair_bytes, bytes}
use robocrisp.Comms.ModuleControl.RoundTrip.{
  encode-Emits_control, get_encoded_size-length_control, decode-bytes,
}
use robocrisp.Comms.Encoder.{concat_map}

-- What the table says of a module-control message.
abbrev control_info : MessageTypeInfo
control_info = record {
  has_body = true;
  has_checksum = true;
  allowed_flow = FlowDirection.to_slave;
  body = none;
}

-- A control for a module of the receiver's configuration, of fewer than 65,532 bytes, is made a
-- message, encoded into a well-formed buffer with room for it, and decoded there. All this succeeds,
-- the checksum of what arrives is right, it is a module-control message, and decoding its body with that configuration gives SUCCESS
-- and the same control.
pub control_arrives :
    (fresh : ℕ → List ℕ) (config : Configuration) (target : Module) (mc : ModuleControl)
    (b : EncodeBuffer)
    → IsControl config target mc
    → IsValid b
    → ModuleControl.get_encoded_size mc + 4 < 65536
    → header_size + (ModuleControl.get_encoded_size mc + 4) ≤ room b
    → (m sent arrived : Message) × (b' : EncodeBuffer) × (rest : DecodeBuffer) × (of_body
          module_control
          (ModuleControl.get_encoded_size mc)
          (ModuleControl.encode mc)
        ≡ some m)
      × (encode m b ≡ some (EncodeResult.success, sent, b'))
      × (decode (reopen b' b.offset) ≡ some (arrived, reopen b' b'.offset))
      × (checksum_ok arrived ≡ some true)
      × (arrived.header.type ≡ module_control)
      × (decode_body arrived (ModuleControl.decode fresh config)
          ≡ some (some (DecodeResult.success, mc, rest)))
unfolding get_type_info
control_arrives fresh config target mc b v w small h =
    let (m, made, carried, counted, typed, valid) =
      of_body-IsMessage module_control (ModuleControl.get_encoded_size mc) control_info
        (ModuleControl.encode mc) (bytes mc) refl refl refl size small
        (encode-Emits_control config target mc v) in
    let (sent, b', encoded, sized, written, decoded, ok, same) =
      decode-encode_message m control_info (bytes mc) b valid w (omega (arith, counted)) in
    (
      m,
      sent,
      received control_info m (bytes mc),
      b',
      advance (record { block = bytes mc; offset = 0 }) (length (bytes mc)),
      made,
      encoded,
      decoded,
      ok,
      typed,
      rw carried (
          ap some (
            decode-bytes config target mc v fresh (record { block = bytes mc; offset = 0 }) []
              (omega (arith, size)) body)),
    )
  where
    size : ModuleControl.get_encoded_size mc ≡ length (bytes mc)
    size = get_encoded_size-length_control config target mc v

    body : bytes mc ≡ header mc ++ (concat_map pair_bytes mc.values ++ [])
    body = ap (λ l. header mc ++ l) (sym (append-nil (concat_map pair_bytes mc.values)))
