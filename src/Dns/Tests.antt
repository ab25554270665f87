-- ===== src/Dns/Tests.antt =====
-- Runs of the DNS functions on concrete inputs.
use evmongoose.Common.{arith, ℕ, ◌<◌, ◌≡◌, refl, some, List, [], ◌∷◌, ◌++◌, length, All}
use evmongoose.Net.{Conn, recv, mg_send}
use evmongoose.Net.Samples.{fresh}
use evmongoose.Dns.Name.{
  find_dot, encoded, encode_label, encode_name, uncompressed, endless, uncompress_step,
  uncompress_name,
}
use evmongoose.Dns.Message.{parse_dns}
use evmongoose.Dns.Query.{send_dns_query}
use evmongoose.Dns.Handler.{DnsEvent, dns_handler}
use evmongoose.Dns.Bounds.{parse_dns-IsParsedWithin, IsParsedWithin}
use evmongoose.Dns.Writes.{FitsIn, uncompress_name-FitsIn}
use evmongoose.Dns.{answer, DnsRecord, blank_record}
use evmongoose.Common.{◌+◌, true, take, drop}
use evmongoose.Dns.Message.{parsed, parse_record}
use evmongoose.Dns.Query.{encode_record}
use evmongoose.Net.Samples.{no_flags}
use evmongoose.Dns.{DnsMessage}
use evmongoose.Dns.Server.{DnsReply, create_reply, reply_record, send_reply}
use evmongoose.Dns.Replied.{asked_record, understood, parse_dns-send_reply}
use evmongoose.Dns.Answer.{read_back, parse_record-encode_record}
use evmongoose.Dns.Labels.{wire, IsLabel, dotted}
use evmongoose.Dns.Asked.{query_packet, framed, heard, told_of, dns_handler-send_dns_query}

-- "ab.c"
abbrev labels_ab : List ℕ
labels_ab = 97 ∷ 98 ∷ []

abbrev labels_c : List ℕ
labels_c = 99 ∷ []

encodes_name : encode_name [] (97 ∷ 98 ∷ 46 ∷ 99 ∷ []) 4 ≡ encoded (2 ∷ 97 ∷ 98 ∷ 1 ∷ 99 ∷ 0 ∷ [])
unfolding encode_name encode_label
encodes_name = refl

-- A name that points back to "ab".
abbrev pointing : List ℕ
pointing = 2 ∷ 97 ∷ 98 ∷ 0 ∷ 1 ∷ 99 ∷ 192 ∷ 0 ∷ []

follows_pointer : uncompress_name 9 pointing 4 32 ≡ uncompressed 4 (99 ∷ 46 ∷ 97 ∷ 98 ∷ 0 ∷ [])
unfolding uncompress_name uncompress_step
follows_pointer = refl

-- A name that points to itself.
never_ends : uncompress_name 200 (192 ∷ 0 ∷ []) 0 32 ≡ endless
unfolding uncompress_name uncompress_step
never_ends = refl

is_cut : uncompress_name 9 pointing 4 3 ≡ uncompressed 3 (99 ∷ 46 ∷ 97 ∷ [])
unfolding uncompress_name uncompress_step
is_cut = refl

-- An answer whose data are said to be longer than the packet.
abbrev answered : List ℕ
answered =
    0 ∷ 161 ∷ 129 ∷ 128 ∷ 0 ∷ 0 ∷ 0 ∷ 1 ∷ 0 ∷ 0 ∷ 0 ∷ 0 ∷ 1 ∷ 99 ∷ 0 ∷ 0 ∷ 1 ∷ 0 ∷ 1 ∷ 0 ∷ 0 ∷ 0
    ∷ 60 ∷ 0 ∷ 4 ∷ 8 ∷ 8 ∷ []

parse_dns-IsParsedWithin_example : IsParsedWithin answered (parse_dns answered)
parse_dns-IsParsedWithin_example = parse_dns-IsParsedWithin answered

uncompress_name-FitsIn_example : FitsIn 3 (uncompress_name 9 pointing 4 3)
uncompress_name-FitsIn_example = uncompress_name-FitsIn 9 pointing 4 3

-- A handler that only listens, and what it makes of a query for "ab.c" on TCP.
abbrev deaf : DnsEvent → Conn → Conn
deaf ev nc = nc

abbrev asked : List ℕ
asked = query_packet 160 labels_ab (labels_c ∷ []) 1

abbrev arrived : Conn
arrived = record fresh { recv_mbuf = framed asked fresh }

labels-IsLabel : All IsLabel (labels_ab ∷ (labels_c ∷ []))
unfolding find_dot
labels-IsLabel = ((omega arith, omega arith, refl), ((omega arith, omega arith, refl), tt))

short_name : length (dotted labels_ab (labels_c ∷ [])) < 32
unfolding dotted
short_name = omega arith

dns_handler-send_dns_query_example :
    (send_dns_query 5 160 (dotted labels_ab (labels_c ∷ [])) 1 fresh
      ≡ some (161, mg_send 5 (framed asked fresh) fresh))
    × (dns_handler deaf 5 (recv 24) arrived
        ≡ some (told_of deaf asked (heard 160 labels_ab (labels_c ∷ []) 1) arrived))
    × (uncompress_name 3 asked 12 32
        ≡ uncompressed
            (length (dotted labels_ab (labels_c ∷ [])))
            (dotted labels_ab (labels_c ∷ []) ++ (0 ∷ [])))
dns_handler-send_dns_query_example =
    dns_handler-send_dns_query deaf 5 160 labels_ab (labels_c ∷ []) 1 24 32 fresh arrived
      labels-IsLabel (omega arith) (omega (arith, short_name)) short_name refl refl

-- An address record for "ab.c", behind three bytes and before two.
abbrev address : DnsRecord
address = record blank_record { rtype = 1; rclass = 1; ttl = 60 }

abbrev address_data : List ℕ
address_data = 10 ∷ 0 ∷ 0 ∷ 1 ∷ []

parse_record-encode_record_example :
    (made : List ℕ) × (encode_record
        (7 ∷ 7 ∷ 7 ∷ [])
        (record address { kind = answer })
        (dotted labels_ab (labels_c ∷ []))
        (length (dotted labels_ab (labels_c ∷ [])))
        address_data
        4
      ≡ encoded (7 ∷ 7 ∷ 7 ∷ made))
    × (parse_record (7 ∷ 7 ∷ 7 ∷ (made ++ (9 ∷ 9 ∷ []))) 3 true blank_record
        ≡ parsed (read_back 3 (length (wire labels_ab (labels_c ∷ []))) address 4, 3 + length made))
    × (take 4 (
          drop
            (3 + length (wire labels_ab (labels_c ∷ [])) + 10)
            (7 ∷ 7 ∷ 7 ∷ (made ++ (9 ∷ 9 ∷ []))))
        ≡ address_data)
parse_record-encode_record_example =
    parse_record-encode_record (7 ∷ 7 ∷ 7 ∷ []) labels_ab (labels_c ∷ []) address address_data
      (9 ∷ 9 ∷ []) labels-IsLabel (omega (arith, short_name)) refl (omega arith) (omega arith)
      (omega arith) (omega arith) (omega arith)

abbrev server : Conn
server = record fresh { flags = record no_flags { udp = true } }

abbrev reply : DnsMessage
reply = understood 160 labels_ab (labels_c ∷ []) 1 1 60 address_data

parse_dns-send_reply_example :
    (created replied : DnsReply) × (create_reply [] (heard 160 labels_ab (labels_c ∷ []) 1)
      ≡ some created)
    × (reply_record 9 created
          (asked_record labels_ab (labels_c ∷ []) 1)
          (some (dotted labels_ab (labels_c ∷ [])))
          1
          60
          address_data
          4
        ≡ some (true, replied))
    × ((send_reply 5 server replied).0 ≡ mg_send 5 reply.pkt server)
    × (parse_dns reply.pkt ≡ parsed reply)
    × (take 4 (
          drop
            (12
              + length (wire labels_ab (labels_c ∷ []))
              + 4
              + length (wire labels_ab (labels_c ∷ []))
              + 10)
            reply.pkt)
        ≡ address_data)
parse_dns-send_reply_example =
    parse_dns-send_reply 5 9 160 labels_ab (labels_c ∷ []) 1 1 60 address_data server refl
      labels-IsLabel (omega (arith, short_name)) refl (omega arith) (omega arith) (omega arith)
      (omega arith) (omega arith)
