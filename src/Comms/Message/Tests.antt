-- ===== src/Comms/Message/Tests.antt =====
-- Messages at concrete bytes: a module-control message with a body of three bytes.
use robocrisp.Base.{◌≡◌, refl, true, false, [], ◌∷◌, length, some, none, arith}
use robocrisp.Comms.Buffer.{
  EncodeBuffer, EncodeResult, DecodeBuffer, DecodeResult, new_encode_buffer,
}
use robocrisp.Comms.Buffer.Laws.{reopen, written, new_encode_buffer-IsValid}
use robocrisp.Comms.Message.{
  Message, MessageTypeInfo, FlowDirection, module_control, get_type_info, header_bytes,
  compute_checksum, checksum_ok, encode, decode, equal, get_encoded_size, of_body, decode_body,
  configuration_response,
}
use robocrisp.Comms.Message.Form.{IsMessage}
use robocrisp.Comms.Message.Codec.{received, message_bytes, decode-encode_message}
use robocrisp.Comms.Message.Checks.{checksum_ok_detects}
use robocrisp.Comms.Message.Transfer.{configuration_arrives}
use robocrisp.Comms.Configuration
use robocrisp.Comms.Configuration.{Configuration}
use robocrisp.Comms.Configuration.Tests.{robot, no_memory, robot-IsConfiguration, size-robot}
use robocrisp.Comms.Configuration.Codec.{restored_configuration}
use robocrisp.Util.Checksum.{crc32}

abbrev pub control_info : MessageTypeInfo
control_info = record {
  has_body = true;
  has_checksum = true;
  allowed_flow = FlowDirection.to_slave;
  body = none;
}

abbrev pub control : Message
control = record {
  header = record { length = 7; type = module_control };
  body = some (1 ∷ 2 ∷ 3 ∷ []);
  checksum = 0;
}

pub control-IsMessage : IsMessage control control_info (1 ∷ 2 ∷ 3 ∷ [])
unfolding get_type_info
control-IsMessage = record {
  known = refl;
  carried = refl;
  not_common = refl;
  counted = refl;
  without_body = λ e. cc;
  length_fits = omega arith;
}

decode-encode_message_example :
    (sent : Message) × (b' : EncodeBuffer) × (encode control (new_encode_buffer 10)
      ≡ some (EncodeResult.success, sent, b'))
    × (get_encoded_size control
        ≡ some (length (message_bytes control_info control (1 ∷ 2 ∷ 3 ∷ []))))
    × (written b' ≡ message_bytes control_info control (1 ∷ 2 ∷ 3 ∷ []))
    × (decode (reopen b' 0)
        ≡ some (received control_info control (1 ∷ 2 ∷ 3 ∷ []), reopen b' b'.offset))
    × (checksum_ok (received control_info control (1 ∷ 2 ∷ 3 ∷ [])) ≡ some true)
    × (equal control (received control_info control (1 ∷ 2 ∷ 3 ∷ [])) ≡ some true)
unfolding new_encode_buffer
decode-encode_message_example =
    decode-encode_message control control_info (1 ∷ 2 ∷ 3 ∷ []) (new_encode_buffer 10)
      control-IsMessage (new_encode_buffer-IsValid 10 (omega arith)) (omega arith)

abbrev summed : Message
summed = record control { checksum = crc32 (7 ∷ 0 ∷ 7 ∷ 1 ∷ 2 ∷ 3 ∷ []) }

summed_ok : checksum_ok summed ≡ some true
unfolding checksum_ok compute_checksum get_type_info header_bytes crc32
summed_ok = refl

checksum_ok_detects_example :
    checksum_ok (record summed { body = some (1 ∷ 9 ∷ 3 ∷ []) }) ≡ some false
unfolding get_type_info
checksum_ok_detects_example =
    checksum_ok_detects summed control_info (1 ∷ []) (3 ∷ []) 2 9 refl refl refl (omega arith)
      (omega arith) (λ e. absurd (omega arith)) summed_ok

configuration_arrives_example :
    (m sent arrived : Message) × (b' : EncodeBuffer) × (rest : DecodeBuffer) × (of_body
        configuration_response
        (Configuration.get_encoded_size robot)
        (Configuration.encode robot)
      ≡ some m)
    × (encode m (new_encode_buffer 64) ≡ some (EncodeResult.success, sent, b'))
    × (decode (reopen b' 0) ≡ some (arrived, reopen b' b'.offset))
    × (checksum_ok arrived ≡ some true)
    × (decode_body arrived (Configuration.decode no_memory robot)
        ≡ some (DecodeResult.success, restored_configuration robot, rest))
    × (Configuration.equal robot (restored_configuration robot) ≡ true)
unfolding new_encode_buffer
configuration_arrives_example =
    configuration_arrives no_memory robot robot (new_encode_buffer 64) robot-IsConfiguration
      (new_encode_buffer-IsValid 64 (omega arith)) (omega (arith, size-robot))
      (omega (arith, size-robot))
