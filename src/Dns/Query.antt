-- ===== src/Dns/Query.antt =====
-- `mg_dns_insert_header`, `mg_dns_copy_questions`, `mg_dns_encode_record` and `mg_send_dns_query` of
-- src/mongoose.c.
use evmongoose.Common.{
  ℕ, zero, suc, ◌+◌, ◌-◌, ◌/◌, ◌%◌, ◌^◌, Option, none, some, List, [], ◌∷◌, ◌++◌, ltb, ◌==◌,
  if◌then◌else◌, length, take, drop,
}
use evmongoose.Net.{Conn, mg_send}
use evmongoose.Mqtt.{be16}
use evmongoose.Dns.{
  invalid_record, question, answer, DnsRecord, DnsMessage, blank_record, blank_message,
}
use evmongoose.Dns.Name.{Encoded, encoded, refused, outside, unfinished, encode_name}

-- `struct mg_dns_header` as `mg_dns_insert_header` fills it.
unfoldable pub header_bytes : DnsMessage → List ℕ
header_bytes msg =
    msg.transaction_id % 256
    ∷ msg.transaction_id % 2 ^ 16 / 256
    ∷ (be16 msg.flags ++ (be16 msg.num_questions ++ (be16 msg.num_answers ++ (0 ∷ 0 ∷ 0 ∷ 0 ∷ []))))

-- `mbuf_insert`, at a place that the buffer has.
unfoldable pub insert_at : ℕ → List ℕ → List ℕ → List ℕ
insert_at pos buf io = take pos io ++ (buf ++ drop pos io)

unfoldable pub insert_header : ℕ → DnsMessage → List ℕ → List ℕ
unfolding header_bytes insert_at
insert_header pos msg io = insert_at pos (header_bytes msg) io

-- `mg_dns_copy_questions`, which appends what stands between the header and the end of the last
-- question; no result if that is not in the packet.
unfoldable pub copy_questions : DnsMessage → List ℕ → Option (List ℕ)
copy_questions msg io = elim msg.num_questions [
  | zero ↦ some io
  | suc n ↦ elim (drop n msg.questions) [
    | [] ↦ none
    | last_q ∷ _ ↦
        let end = last_q.name.off + last_q.name.len + 4 in
        if ltb end 12
        then none
        else if ltb (length msg.pkt) end
        then none
        else some (io ++ take (end - 12) (drop 12 msg.pkt))
  ]
]

-- The lines for the data of an answer that is no CNAME.
unfoldable pub append_data : List ℕ → List ℕ → ℕ → Encoded
append_data io rdata rlen =
    if ltb (length rdata) rlen then outside else encoded (io ++ (be16 rlen ++ take rlen rdata))

-- The lines for the data of a CNAME, whose size is filled in afterwards.
unfoldable pub append_cname : List ℕ → ℕ → List ℕ → ℕ → Encoded
append_cname io rclass rdata rlen =
    let off = length io in
    elim (encode_name (io ++ be16 rclass) rdata rlen) [
      | outside ↦ outside
      | unfinished ↦ unfinished
      | refused named ↦ refused named
      | encoded named ↦
          let clen = length named - (off + 2) in
          encoded (take off named ++ (be16 clen ++ drop (off + 2) named))
    ]

-- The lines behind the name of a record.
unfoldable pub append_fields : List ℕ → DnsRecord → List ℕ → ℕ → Encoded
unfolding append_data append_cname
append_fields io rr rdata rlen =
    let typed = io ++ (be16 rr.rtype ++ be16 rr.rclass) in
    elim rr.kind [
      | invalid_record ↦ encoded typed
      | question ↦ encoded typed
      | answer ↦
          let timed = typed ++ (be16 (rr.ttl / 2 ^ 16) ++ be16 rr.ttl) in
          if rr.rtype == 5
          then append_cname timed rr.rclass rdata rlen
          else append_data timed rdata rlen
    ]

unfoldable pub named_record : List ℕ → DnsRecord → List ℕ → ℕ → List ℕ → ℕ → Encoded
unfolding append_fields
named_record io rr name nlen rdata rlen = elim (encode_name io name nlen) [
  | outside ↦ outside
  | unfinished ↦ unfinished
  | refused named ↦ refused named
  | encoded named ↦ append_fields named rr rdata rlen
]

-- `mg_dns_encode_record`
unfoldable pub encode_record : List ℕ → DnsRecord → List ℕ → ℕ → List ℕ → ℕ → Encoded
unfolding named_record
encode_record io rr name nlen rdata rlen = elim rr.kind [
  | invalid_record ↦ refused io
  | question ↦ named_record io rr name nlen rdata rlen
  | answer ↦ named_record io rr name nlen rdata rlen
]

-- The message of `mg_send_dns_query`, for the value of `mg_dns_tid` that it has counted up.
unfoldable pub query_message : ℕ → DnsMessage
query_message tid = record blank_message {
  transaction_id = tid % 2 ^ 16;
  flags = 256;
  num_questions = 1;
}

unfoldable pub query_record : ℕ → DnsRecord
query_record query_type = record blank_record { rtype = query_type; rclass = 1; kind = question }

-- `mg_send_dns_query`: `mg_dns_tid` and the connection.
unfoldable pub send_dns_query : ℕ → ℕ → List ℕ → ℕ → Conn → Option (ℕ × Conn)
unfolding query_message query_record
send_dns_query now tid name query_type nc =
    let pkt = insert_header 0 (query_message (suc tid)) [] in
    elim (encode_record pkt (query_record query_type) name (length name) [] 0) [
      | outside ↦ none
      | unfinished ↦ none
      | refused _ ↦ some (suc tid, nc)
      | encoded full ↦
          let framed = if nc.flags.udp then full else insert_at 0 (be16 (length full)) full in
          some (suc tid, mg_send now framed nc)
    ]
