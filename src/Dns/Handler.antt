-- ===== src/Dns/Handler.antt =====
-- `dns_handler` and `mg_set_protocol_dns` of src/mongoose.c.
use evmongoose.Common.{ℕ, true, Option, none, some, [], if◌then◌else◌, length}
use evmongoose.Net.{Conn, Event, recv, mg_send, remove_front}
use evmongoose.Mqtt.{be16}
use evmongoose.Dns.{DnsMessage, blank_message}
use evmongoose.Dns.Message.{parsed, malformed, misread, parse_dns}
use evmongoose.Dns.Query.{insert_header, insert_at}

-- What the user's handler is called with: an event of the net core, or MG_DNS_MESSAGE.
pub data DnsEvent : Type 0 where
  core : Event → DnsEvent
  dns_message : DnsMessage → DnsEvent

-- The reply to what is no message: a header with a format error before what has been received.
unfoldable pub reply_error : ℕ → Conn → Conn
reply_error now nc =
    let io = insert_header 0 (record blank_message { flags = 32897 }) nc.recv_mbuf in
    let framed = if nc.flags.udp then io else insert_at 0 (be16 (length io)) io in
    mg_send now framed (record nc { recv_mbuf = framed })

-- The lines from `mg_parse_dns` on; no result for a read outside of what has been received.
unfoldable pub dns_parsed : (DnsEvent → Conn → Conn) → ℕ → Conn → Option Conn
unfolding reply_error
dns_parsed tell now nc = elim (parse_dns nc.recv_mbuf) [
  | misread ↦ none
  | malformed ↦ some (record (reply_error now nc) { recv_mbuf = [] })
  | parsed msg ↦ some (record (tell (dns_message msg) nc) { recv_mbuf = [] })
]

-- The length in front of a message on TCP is dropped.
unfoldable pub drop_prefix : Conn → Conn
drop_prefix nc = if nc.flags.udp then nc else record nc { recv_mbuf = remove_front 2 nc.recv_mbuf }

unfoldable pub dns_handler : (DnsEvent → Conn → Conn) → ℕ → Event → Conn → Option Conn
unfolding dns_parsed drop_prefix
dns_handler tell now (recv n) nc = dns_parsed tell now (drop_prefix (tell (core (recv n)) nc))
dns_handler tell now ev nc = some (tell (core ev) nc)

unfoldable pub set_protocol_dns : Conn → Conn
set_protocol_dns nc = record nc { has_proto_handler = true }
