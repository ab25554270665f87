-- ===== src/Dns/Server.antt =====
-- `mg_dns_create_reply`, `mg_dns_send_reply` and `mg_dns_reply_record` of src/mongoose.c
-- (mongoose/src/dns_server.c).
use evmongoose.Common.{
  ℕ, suc, ◌-◌, Bool, true, false, Option, none, some, List, [], ◌∷◌, ◌++◌, bit_or, leb, ◌==◌,
  if◌then◌else◌, length, take, drop,
}
use evmongoose.Net.{Conn, mg_send}
use evmongoose.Mqtt.{be16}
use evmongoose.Mqtt.Broker.{c_string}
use evmongoose.Dns.{answer, DnsRecord, DnsMessage}
use evmongoose.Dns.Name.{
  encoded, refused, outside, unfinished, Uncompressed, uncompressed, out_of_packet, endless,
  uncompress_name,
}
use evmongoose.Dns.Query.{insert_at, insert_header, copy_questions, encode_record}

-- `struct mg_dns_reply`
pub record DnsReply : Type 0 where
  pub msg : DnsMessage
  pub io : List ℕ
  pub start : ℕ

-- `mg_dns_create_reply`; no result where `mg_dns_copy_questions` has none.
unfoldable pub create_reply : List ℕ → DnsMessage → Option DnsReply
create_reply io msg =
    let answering = record msg { flags = bit_or msg.flags 32896 } in
    elim (copy_questions answering io) [
      | none ↦ none
      | some copied ↦
          some
            (record { msg = record answering { num_answers = 0 }; io = copied; start = length io })
    ]

-- `rname` behind the call of `mg_dns_uncompress_name`: a C string that ends at the last byte of the
-- array at the latest; no result if what stands there has not been written.
unfoldable pub rname_of : Uncompressed → Option (List ℕ)
unfolding c_string
rname_of (uncompressed n dst) =
    if length dst == 511 then c_string (dst ++ (0 ∷ [])) else c_string dst
rname_of out_of_packet = none
rname_of endless = none

-- The lines behind the name: 0 (`true`) or -1, and the reply.
unfoldable pub add_answer : DnsReply → DnsRecord → List ℕ → List ℕ → ℕ → Option (Bool × DnsReply)
add_answer reply ans name rdata rdata_len =
    let listed = record reply.msg {
      answers = take reply.msg.num_answers reply.msg.answers ++ (ans ∷ []);
    } in
    elim (encode_record reply.io ans name (length name) rdata rdata_len) [
      | outside ↦ none
      | unfinished ↦ none
      | refused io ↦ some (false, record reply { msg = listed; io = io })
      | encoded io ↦ some (
        true,
        record reply { msg = record listed { num_answers = suc listed.num_answers }; io = io },
      )
    ]

-- `mg_dns_reply_record`; so many rounds for a name that is taken from the question.
unfoldable pub reply_record :
    ℕ → DnsReply → DnsRecord → Option (List ℕ) → ℕ → ℕ → List ℕ → ℕ → Option (Bool × DnsReply)
unfolding rname_of add_answer
reply_record rounds reply question name rtype ttl rdata rdata_len =
    let ans = record question { kind = answer; rtype = rtype; ttl = ttl } in
    let asked : Option (List ℕ) = elim name [
      | some given ↦ some given
      | none ↦ rname_of (uncompress_name rounds reply.msg.pkt question.name.off 511)
    ] in
    if leb 32 reply.msg.num_answers
    then some (false, reply)
    else elim asked [ none ↦ none | some known ↦ add_answer reply ans known rdata rdata_len ]

-- The buffer of a reply that is sent: the header goes before it, and on TCP a length before that.
unfoldable pub finish_reply : Bool → DnsReply → List ℕ
finish_reply udp r =
    let sent = length r.io - r.start in
    let io = insert_header r.start r.msg r.io in
    if udp then io else insert_at r.start (be16 sent) io

-- `mg_dns_send_reply` for a buffer of its own: the connection and the reply.
unfoldable pub send_reply : ℕ → Conn → DnsReply → Conn × DnsReply
unfolding finish_reply
send_reply now nc r =
    let io = finish_reply nc.flags.udp r in
    (mg_send now (drop r.start io) nc, record r { io = take r.start io })

-- `mg_dns_send_reply` where the buffer is the output of the connection.
unfoldable pub send_own_reply : Conn → DnsReply → Conn × DnsReply
unfolding finish_reply
send_own_reply nc r =
    let io = finish_reply nc.flags.udp r in (record nc { send_mbuf = io }, record r { io = io })
