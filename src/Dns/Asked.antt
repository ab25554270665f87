-- ===== src/Dns/Asked.antt =====
-- A query for a name is understood as it was sent.
use evmongoose.Common.{
  arith, ℕ, suc, ◌+◌, ◌-◌, ◌^◌, ◌<◌, ◌≡◌, refl, sym, ap, ◌∙◌, Bool, true, false, some, List, [],
  ◌∷◌, ◌++◌, if◌then◌else◌, append_assoc, length, drop, length-append, length-drop,
  drop-append_exact, drop-drop, All,
}
use evmongoose.Net.{Conn, recv, mg_send, remove_front}
use evmongoose.Mqtt.{be16}
use evmongoose.Dns.{DnsMessage, blank_record}
use evmongoose.Dns.Name.{encoded, uncompressed, uncompress_name}
use evmongoose.Dns.Message.{
  skip_labels, parsed, parse_fields, parse_record, parse_records, parse_counts, parse_dns,
}
use evmongoose.Dns.Query.{
  header_bytes, insert_at, insert_header, append_fields, named_record, encode_record, query_message,
  query_record, send_dns_query,
}
use evmongoose.Dns.Handler.{DnsEvent, core, dns_message, drop_prefix, dns_parsed, dns_handler}
use evmongoose.Dns.Labels.{IsLabel, dotted, wire, encode_name-wire}
use evmongoose.Dns.ReadName.{skip_labels-wire, uncompress_name-wire}

-- The question of a query, and the whole of it.
abbrev pub asking : List ℕ → List (List ℕ) → ℕ → List ℕ
asking l ms query_type = wire l ms ++ (be16 query_type ++ be16 1)

abbrev pub query_packet : ℕ → List ℕ → List (List ℕ) → ℕ → List ℕ
query_packet tid l ms query_type = header_bytes (query_message (suc tid)) ++ asking l ms query_type

-- What goes out on a connection.
abbrev pub framed : List ℕ → Conn → List ℕ
framed packet nc = if nc.flags.udp then packet else be16 (length packet) ++ packet

encode_record-asking :
    (io l : List ℕ) (ms : List (List ℕ)) (query_type : ℕ)
    → All IsLabel (l ∷ ms)
    → length (dotted l ms) < 2 ^ 64
    → encode_record io (query_record query_type) (dotted l ms) (length (dotted l ms)) [] 0
      ≡ encoded (io ++ asking l ms query_type)
unfolding encode_record named_record append_fields query_record
encode_record-asking io l ms query_type h b =
    rw (encode_name-wire io l ms h b, named_record, encode_record)
      (ap encoded (append_assoc io (wire l ms) (be16 query_type ++ be16 1)))

send_dns_query-query_packet :
    (now tid : ℕ) (l : List ℕ) (ms : List (List ℕ)) (query_type : ℕ) (nc : Conn)
    → All IsLabel (l ∷ ms)
    → length (dotted l ms) < 2 ^ 64
    → send_dns_query now tid (dotted l ms) query_type nc
      ≡ some (suc tid, mg_send now (framed (query_packet tid l ms query_type) nc) nc)
unfolding send_dns_query insert_header insert_at header_bytes
send_dns_query-query_packet now tid l ms query_type nc h b =
    let head = header_bytes (query_message (suc tid)) in
    rw (encode_record-asking head l ms query_type h b, send_dns_query) refl

-- A question somewhere in a packet.
pub parse_record-asking :
    (pkt : List ℕ) (at : ℕ) (l : List ℕ) (ms : List (List ℕ)) (query_type : ℕ) (back : List ℕ)
    → All IsLabel (l ∷ ms)
    → query_type < 2 ^ 16
    → drop at pkt ≡ wire l ms ++ ((be16 query_type ++ be16 1) ++ back)
    → parse_record pkt at false blank_record
      ≡ parsed (
        record (query_record query_type) { name = record { off = at; len = length (wire l ms) } },
        at + length (wire l ms) + 4,
      )
unfolding parse_record parse_fields query_record
parse_record-asking pkt at l ms query_type back h t d =
    let tail = (be16 query_type ++ be16 1) ++ back in
    let k : suc (skip_labels 0 (drop at pkt)) ≡ length (wire l ms) =
      ap (λ s. suc (skip_labels 0 s)) d ∙ skip_labels-wire l ms tail h in
    let sizes : length pkt - at ≡ length (wire l ms) + (4 + length back) =
      sym (length-drop at pkt)
      ∙ ap length d
      ∙ length-append (wire l ms) tail
      ∙ ap (λ n. length (wire l ms) + n) (omega arith) in
    let behind : drop (at + length (wire l ms)) pkt ≡ tail =
      sym (drop-drop (length (wire l ms)) at pkt)
      ∙ ap (drop (length (wire l ms))) d
      ∙ drop-append_exact (length (wire l ms)) (wire l ms) tail refl in
    let k0 = skip_labels 0 (drop at pkt) in
    let there : drop (at + k0 + 1) pkt ≡ tail =
      ap (λ i. drop i pkt) {x = at + k0 + 1} (omega arith) ∙ behind in
    rw (there, parse_record) (ground (arith, k, sizes))

-- The message that the receiver makes of the query.
abbrev pub heard : ℕ → List ℕ → List (List ℕ) → ℕ → DnsMessage
heard tid l ms query_type = record (query_message (suc tid)) {
  pkt = query_packet tid l ms query_type;
  questions =
      record (query_record query_type) { name = record { off = 12; len = length (wire l ms) } }
      ∷ [];
}

parse_dns-query_packet :
    (tid : ℕ) (l : List ℕ) (ms : List (List ℕ)) (query_type : ℕ)
    → All IsLabel (l ∷ ms)
    → query_type < 2 ^ 16
    → parse_dns (query_packet tid l ms query_type) ≡ parsed (heard tid l ms query_type)
unfolding parse_dns parse_counts parse_records header_bytes query_message
parse_dns-query_packet tid l ms query_type h t =
    let pkt = query_packet tid l ms query_type in
    rw
      (
        parse_record-asking pkt 12 l ms query_type [] h t refl,
        parse_records,
        parse_counts,
        parse_dns,
      )
      (ground arith)

drop_prefix-framed :
    (nc : Conn) (packet : List ℕ)
    → nc.recv_mbuf ≡ framed packet nc
    → drop_prefix nc ≡ record nc { recv_mbuf = packet }
unfolding drop_prefix remove_front
drop_prefix-framed nc packet = by_udp nc.flags.udp
  where
    by_udp :
        (b : Bool)
        → nc.recv_mbuf ≡ (if b then packet else be16 (length packet) ++ packet)
        → (if b then nc else record nc { recv_mbuf = remove_front 2 nc.recv_mbuf })
          ≡ record nc { recv_mbuf = packet }
    by_udp true e = ap (λ p. record nc { recv_mbuf = p }) e
    by_udp false e =
        let r : remove_front 2 (be16 (length packet) ++ packet) ≡ packet = ground arith in
        ap (λ p. record nc { recv_mbuf = remove_front 2 p }) e
        ∙ ap (λ p. record nc { recv_mbuf = p }) r

-- What becomes of a connection that has received the query, once the handler has been told.
abbrev pub told_of : (DnsEvent → Conn → Conn) → List ℕ → DnsMessage → Conn → Conn
told_of tell packet msg nc = record (tell (dns_message msg) (record nc { recv_mbuf = packet })) {
  recv_mbuf = [];
}

dns_handler-heard :
    (tell : DnsEvent → Conn → Conn) (now tid : ℕ) (l : List ℕ) (ms : List (List ℕ))
    (query_type n : ℕ) (nc : Conn)
    → All IsLabel (l ∷ ms)
    → query_type < 2 ^ 16
    → (tell (core (recv n)) nc).recv_mbuf
      ≡ framed (query_packet tid l ms query_type) (tell (core (recv n)) nc)
    → dns_handler tell now (recv n) nc
      ≡ some (
          told_of tell
            (query_packet tid l ms query_type)
            (heard tid l ms query_type)
            (tell (core (recv n)) nc))
unfolding dns_handler dns_parsed
dns_handler-heard tell now tid l ms query_type n nc h t e =
    let there = tell (core (recv n)) nc in
    ap (dns_parsed tell now) (drop_prefix-framed there (query_packet tid l ms query_type) e)
    ∙ rw (parse_dns-query_packet tid l ms query_type h t, dns_parsed) refl

-- A query that mg_send_dns_query makes for a name of labels of 1 to 63 bytes is handed to mg_send in full,
-- and where its bytes arrive, on TCP or UDP at both ends, dns_handler tells the user's handler of a message with
-- this one question, whose name mg_dns_uncompress_name gives back, if there is room for it and its NUL.
pub dns_handler-send_dns_query :
    (tell : DnsEvent → Conn → Conn) (now tid : ℕ) (l : List ℕ) (ms : List (List ℕ))
    (query_type n dst_len : ℕ) (sender receiver : Conn)
    → All IsLabel (l ∷ ms)
    → query_type < 2 ^ 16
    → length (dotted l ms) < 2 ^ 64
    → length (dotted l ms) < dst_len
    → sender.flags.udp ≡ (tell (core (recv n)) receiver).flags.udp
    → (tell (core (recv n)) receiver).recv_mbuf ≡ framed (query_packet tid l ms query_type) sender
    → (send_dns_query now tid (dotted l ms) query_type sender
        ≡ some (suc tid, mg_send now (framed (query_packet tid l ms query_type) sender) sender))
      × (dns_handler tell now (recv n) receiver
          ≡ some (
              told_of tell
                (query_packet tid l ms query_type)
                (heard tid l ms query_type)
                (tell (core (recv n)) receiver)))
      × (uncompress_name (length ms + 2) (query_packet tid l ms query_type) 12 dst_len
          ≡ uncompressed (length (dotted l ms)) (dotted l ms ++ (0 ∷ [])))
unfolding header_bytes
dns_handler-send_dns_query tell now tid l ms query_type n dst_len sender receiver h t b k u e =
    let pkt = query_packet tid l ms query_type in
    let same : framed pkt sender ≡ framed pkt (tell (core (recv n)) receiver) =
      ap (λ (udp : Bool). if udp then pkt else be16 (length pkt) ++ pkt) u in
    (
      send_dns_query-query_packet now tid l ms query_type sender h b,
      dns_handler-heard tell now tid l ms query_type n receiver h t (e ∙ same),
      uncompress_name-wire pkt dst_len 12 l ms (be16 query_type ++ be16 1) h refl k,
    )
