-- ===== src/Dns.antt =====
-- DNS messages of src/mongoose.c (mongoose/src/dns.c).
--
-- A pointer into a packet is its distance from the start of the packet, since names point to others by
-- that. Everything else is as for MQTT: a C string is the list of its characters, and a buffer the list
-- of the bytes that it holds.
use evmongoose.Common.{ℕ, List, []}
pub mod Name
pub mod Message
pub mod Query
pub mod Handler
pub mod Bounds
pub mod Writes
pub mod Labels
pub mod ReadName
pub mod Asked
pub mod Answer
pub mod Server
pub mod Replied
mod Tests

-- A `struct mg_str` in a packet.
pub record Place : Type 0 where
  pub off : ℕ
  pub len : ℕ

-- `enum mg_dns_resource_record_kind`
pub data RecordKind : Type 0 where
  invalid_record question answer : RecordKind

-- `struct mg_dns_resource_record`; `ttl` is the 32 bits of an `int`.
pub record DnsRecord : Type 0 where
  pub name : Place
  pub rtype : ℕ
  pub rclass : ℕ
  pub ttl : ℕ
  pub kind : RecordKind
  pub rdata : Place

-- `struct mg_dns_message`, with as much of the two arrays as has been filled.
pub record DnsMessage : Type 0 where
  pub pkt : List ℕ
  pub flags : ℕ
  pub transaction_id : ℕ
  pub num_questions : ℕ
  pub num_answers : ℕ
  pub questions : List DnsRecord
  pub answers : List DnsRecord

abbrev pub blank_record : DnsRecord
blank_record = record {
  name = record { off = 0; len = 0 };
  rtype = 0;
  rclass = 0;
  ttl = 0;
  kind = invalid_record;
  rdata = record { off = 0; len = 0 };
}

abbrev pub blank_message : DnsMessage
blank_message = record {
  pkt = [];
  flags = 0;
  transaction_id = 0;
  num_questions = 0;
  num_answers = 0;
  questions = [];
  answers = [];
}
