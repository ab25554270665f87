-- ===== src/Dns/Replied.antt =====
-- A reply with one address is understood by the one who asked.
use evmongoose.Common.{
  arith, ℕ, ◌+◌, ◌-◌, ◌^◌, ◌≤◌, ◌<◌, ◌≡◌, refl, sym, ap, ◌∙◌, true, false, some, List, [], ◌∷◌,
  ◌++◌, ◌==◌, append_assoc, append-nil, length, take, drop, length-append, take_all,
  drop-append_exact, drop-drop, All,
}
use evmongoose.Common.{Bool}
use evmongoose.Net.{Conn, mg_send}
use evmongoose.Mqtt.{be16}
use evmongoose.Dns.{answer, DnsRecord, DnsMessage, blank_record}
use evmongoose.Dns.Message.{parsed, parse_records, parse_counts, parse_dns}
use evmongoose.Dns.Query.{
  header_bytes, insert_at, insert_header, copy_questions, query_message, query_record,
}
use evmongoose.Dns.Server.{
  DnsReply, create_reply, add_answer, reply_record, finish_reply, send_reply,
}
use evmongoose.Dns.Labels.{IsLabel, dotted, wire}
use evmongoose.Dns.Asked.{asking, heard, parse_record-asking}
use evmongoose.Dns.Answer.{fields, read_back, encode_record-fields, parse_record-fields}

-- The message that a reply is about, and the question in it.
abbrev replying : ℕ → List ℕ → List (List ℕ) → ℕ → DnsMessage
replying tid l ms query_type = record (heard tid l ms query_type) { flags = 33152 }

abbrev pub asked_record : List ℕ → List (List ℕ) → ℕ → DnsRecord
asked_record l ms query_type = record (query_record query_type) {
  name = record { off = 12; len = length (wire l ms) };
}

abbrev begun : ℕ → List ℕ → List (List ℕ) → ℕ → DnsReply
begun tid l ms query_type = record {
  msg = replying tid l ms query_type;
  io = asking l ms query_type;
  start = 0;
}

copy_questions-asking :
    (tid : ℕ) (l : List ℕ) (ms : List (List ℕ)) (query_type : ℕ)
    → copy_questions (replying tid l ms query_type) [] ≡ some (asking l ms query_type)
unfolding copy_questions header_bytes query_message
copy_questions-asking tid l ms query_type =
    let e = length-append (wire l ms) (be16 query_type ++ be16 1) in
    let cut : take (12 + length (wire l ms) + 4 - 12) (asking l ms query_type)
        ≡ asking l ms query_type =
      take_all (12 + length (wire l ms) + 4 - 12) (asking l ms query_type) (omega (arith, e)) in
    ground (arith, e, cut)

create_reply-begun :
    (tid : ℕ) (l : List ℕ) (ms : List (List ℕ)) (query_type : ℕ)
    → create_reply [] (heard tid l ms query_type) ≡ some (begun tid l ms query_type)
unfolding create_reply query_message
create_reply-begun tid l ms query_type =
    rw (copy_questions-asking tid l ms query_type, create_reply) refl

-- The record of an address in the reply, and the reply with it.
abbrev pub answer_record : ℕ → ℕ → DnsRecord
answer_record rtype ttl = record blank_record { rtype = rtype; rclass = 1; ttl = ttl }

abbrev reply_body : List ℕ → List (List ℕ) → ℕ → ℕ → ℕ → List ℕ → List ℕ
reply_body l ms query_type rtype ttl rdata =
    asking l ms query_type ++ (wire l ms ++ fields (answer_record rtype ttl) rdata)

abbrev finished : ℕ → List ℕ → List (List ℕ) → ℕ → ℕ → ℕ → List ℕ → DnsReply
finished tid l ms query_type rtype ttl rdata = record {
  msg = record (replying tid l ms query_type) {
    num_answers = 1;
    answers =
        record (asked_record l ms query_type) { kind = answer; rtype = rtype; ttl = ttl } ∷ [];
  };
  io = reply_body l ms query_type rtype ttl rdata;
  start = 0;
}

reply_record-finished :
    (rounds tid : ℕ) (l : List ℕ) (ms : List (List ℕ)) (query_type rtype ttl : ℕ) (rdata : List ℕ)
    → All IsLabel (l ∷ ms)
    → length (dotted l ms) < 2 ^ 64
    → (rtype == 5) ≡ false
    → reply_record rounds
        (record (begun tid l ms query_type) {
          msg = record (replying tid l ms query_type) { num_answers = 0 };
        })
        (asked_record l ms query_type)
        (some (dotted l ms))
        rtype
        ttl
        rdata
        (length rdata)
      ≡ some (true, finished tid l ms query_type rtype ttl rdata)
unfolding reply_record add_answer query_record query_message
reply_record-finished rounds tid l ms query_type rtype ttl rdata h b t =
    rw
      (
        encode_record-fields (asking l ms query_type) l ms
            (record (asked_record l ms query_type) { rtype = rtype; ttl = ttl }) rdata h b t,
        add_answer,
        reply_record,
      )
      refl

-- What the one who asked makes of it.
abbrev pub understood : ℕ → List ℕ → List (List ℕ) → ℕ → ℕ → ℕ → List ℕ → DnsMessage
understood tid l ms query_type rtype ttl rdata = record (replying tid l ms query_type) {
  pkt =
      header_bytes (finished tid l ms query_type rtype ttl rdata).msg
      ++ reply_body l ms query_type rtype ttl rdata;
  num_answers = 1;
  answers =
      read_back (12 + length (wire l ms) + 4) (length (wire l ms)) (answer_record rtype ttl)
        (length rdata)
      ∷ [];
}

-- Where the answer stands in the packet, and its data.
answer_place :
    (tid : ℕ) (l : List ℕ) (ms : List (List ℕ)) (query_type rtype ttl : ℕ) (rdata : List ℕ)
    → drop (12 + length (wire l ms) + 4) (understood tid l ms query_type rtype ttl rdata).pkt
      ≡ wire l ms ++ fields (answer_record rtype ttl) rdata
unfolding header_bytes query_message
answer_place tid l ms query_type rtype ttl rdata =
    let w = wire l ms in
    let typed = be16 query_type ++ be16 1 in
    let added = w ++ fields (answer_record rtype ttl) rdata in
    let pkt = (understood tid l ms query_type rtype ttl rdata).pkt in
    sym (drop-drop 4 (12 + length w) pkt)
    ∙ ap (drop 4) (
        sym (drop-drop (length w) 12 pkt)
        ∙ ap (drop (length w)) (append_assoc w typed added)
        ∙ drop-append_exact (length w) w (typed ++ added) refl)

data_found :
    (tid : ℕ) (l : List ℕ) (ms : List (List ℕ)) (query_type rtype ttl : ℕ) (rdata : List ℕ)
    → take (length rdata) (
        drop
          (12 + length (wire l ms) + 4 + length (wire l ms) + 10)
          (understood tid l ms query_type rtype ttl rdata).pkt)
      ≡ rdata
data_found tid l ms query_type rtype ttl rdata =
    let w = wire l ms in
    let at = 12 + length w + 4 in
    let pkt = (understood tid l ms query_type rtype ttl rdata).pkt in
    let tail = fields (answer_record rtype ttl) rdata in
    ap (take (length rdata)) (
      sym (drop-drop 10 (at + length w) pkt)
      ∙ ap (drop 10) (
          sym (drop-drop (length w) at pkt)
          ∙ ap (drop (length w)) (answer_place tid l ms query_type rtype ttl rdata)
          ∙ drop-append_exact (length w) w tail refl))
    ∙ take_all (length rdata) rdata (omega arith)

parse_dns-finished :
    (tid : ℕ) (l : List ℕ) (ms : List (List ℕ)) (query_type rtype ttl : ℕ) (rdata : List ℕ)
    → All IsLabel (l ∷ ms)
    → query_type < 2 ^ 16
    → rtype < 2 ^ 16
    → ttl < 2 ^ 32
    → 1 ≤ length rdata
    → length rdata < 2 ^ 16
    → parse_dns (finish_reply true (finished tid l ms query_type rtype ttl rdata))
      ≡ parsed (understood tid l ms query_type rtype ttl rdata)
unfolding parse_dns parse_counts parse_records header_bytes query_message finish_reply insert_header
    insert_at
parse_dns-finished tid l ms query_type rtype ttl rdata h q t u p s =
    let w = wire l ms in
    let rr = answer_record rtype ttl in
    let typed = be16 query_type ++ be16 1 in
    let added = w ++ fields rr rdata in
    let pkt = finish_reply true (finished tid l ms query_type rtype ttl rdata) in
    let first : drop 12 pkt ≡ w ++ (typed ++ added) = append_assoc w typed added in
    let second : drop (12 + length w + 4) pkt ≡ w ++ (fields rr rdata ++ []) =
      answer_place tid l ms query_type rtype ttl rdata
      ∙ ap (λ f. w ++ f) (sym (append-nil (fields rr rdata))) in
    rw
      (
        parse_record-asking pkt 12 l ms query_type added h q first,
        parse_records,
        parse_counts,
        parse_dns,
      )
      (rw
        (
          parse_record-fields pkt (12 + length w + 4) l ms rr rdata [] h t (omega arith) u s p
              second,
          parse_records,
        )
        (ground arith))

-- A DNS server that replies on UDP to a query of one question, as mg_send_dns_query writes it, by
-- mg_dns_create_reply, mg_dns_reply_record with the name of the question, a type that is not CNAME and
-- one byte of data or more, and mg_dns_send_reply, hands mg_send a packet that mg_parse_dns takes for a
-- reply to this query: with its identifier, its question and this one answer, whose data stand where the
-- record says.
pub parse_dns-send_reply :
    (now rounds tid : ℕ) (l : List ℕ) (ms : List (List ℕ)) (query_type rtype ttl : ℕ)
    (rdata : List ℕ) (nc : Conn)
    → nc.flags.udp ≡ true
    → All IsLabel (l ∷ ms)
    → length (dotted l ms) < 2 ^ 64
    → (rtype == 5) ≡ false
    → query_type < 2 ^ 16
    → rtype < 2 ^ 16
    → ttl < 2 ^ 32
    → 1 ≤ length rdata
    → length rdata < 2 ^ 16
    → (created replied : DnsReply) × (create_reply [] (heard tid l ms query_type) ≡ some created)
      × (reply_record rounds created
            (asked_record l ms query_type)
            (some (dotted l ms))
            rtype
            ttl
            rdata
            (length rdata)
          ≡ some (true, replied))
      × ((send_reply now nc replied).0
          ≡ mg_send now (understood tid l ms query_type rtype ttl rdata).pkt nc)
      × (parse_dns (understood tid l ms query_type rtype ttl rdata).pkt
          ≡ parsed (understood tid l ms query_type rtype ttl rdata))
      × (take (length rdata) (
            drop
              (12 + length (wire l ms) + 4 + length (wire l ms) + 10)
              (understood tid l ms query_type rtype ttl rdata).pkt)
          ≡ rdata)
unfolding send_reply finish_reply insert_header insert_at query_message header_bytes
parse_dns-send_reply now rounds tid l ms query_type rtype ttl rdata nc u h b n q t v p s = (
  begun tid l ms query_type,
  finished tid l ms query_type rtype ttl rdata,
  create_reply-begun tid l ms query_type,
  reply_record-finished rounds tid l ms query_type rtype ttl rdata h b n,
  ap
      (λ (udp : Bool).
        mg_send now (finish_reply udp (finished tid l ms query_type rtype ttl rdata)) nc)
      u,
  parse_dns-finished tid l ms query_type rtype ttl rdata h q t v p s,
  data_found tid l ms query_type rtype ttl rdata,
)
