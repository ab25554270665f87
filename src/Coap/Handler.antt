-- ===== src/Coap/Handler.antt =====
-- `mg_coap_send_message`, `mg_coap_send_ack`, `coap_handler` and `mg_set_protocol_coap` of
-- src/mongoose.c.
use evmongoose.Common.{ℕ, ◌+◌, ◌||◌, Bool, true, false, Option, none, some, [], if◌then◌else◌}
use evmongoose.Net.{Conn, Event, recv, mg_send}
use evmongoose.Coap.{CoapMessage, blank}
use evmongoose.Coap.Parse.{coap_parse, format_error}
use evmongoose.Coap.Compose.{Verdict, fine, coap_compose}

-- `mg_coap_send_message`: its result and the connection.
unfoldable pub send_message : ℕ → CoapMessage → Conn → Verdict × Conn
send_message now cm nc =
    let r = coap_compose cm [] in
    elim r.0 [ fine ↦ (fine, mg_send now r.1 nc) | refused ↦ (refused, nc) ]

unfoldable pub send_ack : ℕ → ℕ → Conn → Verdict × Conn
send_ack now msg_id nc = send_message now (record blank { msg_type = 2; msg_id = msg_id }) nc

-- What the handler of the connection is called with: an event of the net core, or
-- `MG_COAP_EVENT_BASE` and the type of a message, with the message.
pub data CoapEvent : Type 0 where
  core : Event → CoapEvent
  message : ℕ → CoapMessage → CoapEvent

-- The message that is handed on: `MG_COAP_NOT_ENOUGH_DATA` shares its bit `error` with every error.
unfoldable pub mark_short : CoapMessage → CoapMessage
mark_short cm = if cm.flags.error || cm.flags.not_enough_data then format_error cm else cm

-- The MG_EV_RECV case; `(parse_res & MG_COAP_IGNORE) == 0` asks for the bit `error` as well.
unfoldable pub coap_received : (CoapEvent → Conn → Conn) → CoapMessage → Conn → Conn
coap_received tell cm nc =
    let told =
      if cm.flags.error || cm.flags.ignore
      then nc
      else tell (message (300 + cm.msg_type) (mark_short cm)) nc in
    record told { recv_mbuf = [] }

-- `coap_handler`; no result if the parser has none.
unfoldable pub coap_handler : (CoapEvent → Conn → Conn) → Event → Conn → Option Conn
coap_handler tell (recv n) nc =
    let after = tell (core (recv n)) nc in
    elim (coap_parse after.recv_mbuf) [ none ↦ none | some cm ↦ some (coap_received tell cm after) ]
coap_handler tell ev nc = some (tell (core ev) nc)

-- `mg_set_protocol_coap`: 0 (`true`) or -1, and the connection.
unfoldable pub set_protocol_coap : Conn → Bool × Conn
set_protocol_coap nc =
    if nc.flags.udp then (true, record nc { has_proto_handler = true }) else (false, nc)
