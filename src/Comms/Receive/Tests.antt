-- ===== src/Comms/Receive/Tests.antt =====
-- A query, a module-control message and half a header on the wire.
use robocrisp.Base.{refl, List, [], ◌∷◌, none, false, arith}
use robocrisp.Comms.Message.{
  Message, MessageTypeInfo, FlowDirection, get_type_info, configuration_query,
}
use robocrisp.Comms.Message.Form.{IsMessage}
use robocrisp.Comms.Message.Tests.{control, control_info}
use robocrisp.Comms.Receive.Laws.{Packet}

abbrev query : Message
query = record {
  header = record { length = 0; type = configuration_query };
  body = none;
  checksum = 0;
}

abbrev query_info : MessageTypeInfo
query_info = record {
  has_body = false;
  has_checksum = false;
  allowed_flow = FlowDirection.to_slave;
  body = none;
}

pub query-IsMessage : IsMessage query query_info []
unfolding get_type_info
query-IsMessage = record {
  known = refl;
  carried = refl;
  not_common = refl;
  counted = refl;
  without_body = λ e. refl;
  length_fits = omega arith;
}

abbrev pub packets : List Packet
packets =
    record { message = query; info = query_info; body = [] }
    ∷ record { message = control; info = control_info; body = 1 ∷ 2 ∷ 3 ∷ [] }
    ∷ []
