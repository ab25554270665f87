-- ===== src/Dns/Message.antt =====
-- `mg_parse_dns` with `mg_parse_dns_resource_record`, `mg_dns_next_record` and
-- `mg_dns_parse_record_data` of src/mongoose.c. The machine is little-endian: the identifier of a
-- transaction is read as it stands in memory. IPv6 is off.
use evmongoose.Common.{
  ℕ, zero, suc, ◌+◌, ◌*◌, ◌^◌, Bool, true, false, not, Option, none, some, List, [], ◌∷◌, min, ltb,
  leb, ◌==◌, if◌then◌else◌, length, take, drop,
}
use evmongoose.Dns.{question, answer, DnsRecord, DnsMessage, blank_record, blank_message}
use evmongoose.Dns.Name.{Uncompressed, uncompressed, uncompress_name}

-- How far the loop over the labels moves `data`, on the bytes from there to the end of the packet;
-- so many bytes of a label are still to be passed, which may be more than there are.
unfoldable pub skip_labels : ℕ → List ℕ → ℕ
skip_labels k [] = k
skip_labels (suc k) (c ∷ s) = suc (skip_labels k s)
skip_labels zero (c ∷ s) =
    let further = skip_labels c s in if c == 0 then 0 else if leb 64 c then 1 else suc further

-- What a parser comes to: its result; NULL or -1; or a read outside of the packet.
pub data Parsed {ℓ} (A : Type ℓ) : Type ℓ where
  parsed : A → Parsed A
  malformed misread : Parsed A

-- The lines for an answer, from its `ttl` on, which is at `at`: the record and where it ends.
unfoldable pub parse_answer : List ℕ → ℕ → DnsRecord → Parsed (DnsRecord × ℕ)
parse_answer (a ∷ b ∷ c ∷ d ∷ e ∷ f ∷ s) at rr =
    let data_len = e * 256 + f in
    parsed (
      record rr {
        ttl = a * 2 ^ 24 + b * 2 ^ 16 + c * 256 + d;
        rdata = record { off = at + 6; len = data_len };
      },
      at + 6 + data_len,
    )
parse_answer _ at rr = misread

-- The lines from the type on, which is at `at` in a packet that ends at `end`.
unfoldable pub parse_fields : List ℕ → ℕ → ℕ → Bool → DnsRecord → Parsed (DnsRecord × ℕ)
unfolding parse_answer
parse_fields (a ∷ b ∷ c ∷ d ∷ s) at end reply rr =
    let typed = record rr {
      rtype = a * 256 + b;
      rclass = c * 256 + d;
      kind = if reply then answer else question;
    } in
    if not reply
    then parsed (typed, at + 4)
    else if leb end (at + 4 + 6)
    then malformed
    else parse_answer s (at + 4) typed
parse_fields _ at end reply rr = misread

-- `mg_parse_dns_resource_record`, for a record at `at`.
unfoldable pub parse_record : List ℕ → ℕ → Bool → DnsRecord → Parsed (DnsRecord × ℕ)
unfolding skip_labels parse_fields
parse_record pkt at reply rr =
    let k = skip_labels 0 (drop at pkt) in
    if ltb (length pkt) (at + k + 5)
    then malformed
    else parse_fields (drop (at + k + 1) pkt) (at + k + 1) (length pkt) reply
        (record rr { name = record { off = at; len = k + 1 } })

-- The loops of `mg_parse_dns`: so many records, and where they end.
unfoldable pub parse_records : List ℕ → ℕ → Bool → ℕ → Parsed (List DnsRecord × ℕ)
unfolding parse_record
parse_records pkt zero reply at = parsed ([], at)
parse_records pkt (suc n) reply at = elim (parse_record pkt at reply blank_record) [
  | malformed ↦ malformed
  | misread ↦ misread
  | parsed r ↦ elim (parse_records pkt n reply r.1) [
    | malformed ↦ malformed
    | misread ↦ misread
    | parsed rest ↦ parsed (r.0 ∷ rest.0, rest.1)
  ]
]

-- The fields of the header, and the records behind it.
unfoldable pub parse_counts : List ℕ → DnsMessage → Parsed DnsMessage
unfolding parse_records
parse_counts pkt msg = elim (parse_records pkt msg.num_questions false 12) [
  | malformed ↦ malformed
  | misread ↦ misread
  | parsed q ↦ elim (parse_records pkt msg.num_answers true q.1) [
    | malformed ↦ malformed
    | misread ↦ misread
    | parsed a ↦ parsed (record msg { questions = q.0; answers = a.0 })
  ]
]

-- `mg_parse_dns`; the last four bytes of the header are not looked at.
unfoldable pub parse_dns : List ℕ → Parsed DnsMessage
unfolding parse_counts
parse_dns (i0 ∷ i1 ∷ f0 ∷ f1 ∷ q0 ∷ q1 ∷ a0 ∷ a1 ∷ n0 ∷ n1 ∷ o0 ∷ o1 ∷ s) =
    let pkt = i0 ∷ i1 ∷ f0 ∷ f1 ∷ q0 ∷ q1 ∷ a0 ∷ a1 ∷ n0 ∷ n1 ∷ o0 ∷ o1 ∷ s in
    parse_counts pkt (record blank_message {
      pkt = pkt;
      transaction_id = i0 + i1 * 256;
      flags = f0 * 256 + f1;
      num_questions = min (q0 * 256 + q1) 32;
      num_answers = min (a0 * 256 + a1) 32;
    })
parse_dns short = malformed

-- The loop of `mg_dns_next_record`, on the answers from number `i` on.
unfoldable pub find_record : ℕ → ℕ → List DnsRecord → Option ℕ
find_record query i [] = none
find_record query i (rr ∷ answers) =
    let later = find_record query (suc i) answers in if rr.rtype == query then some i else later

-- `mg_dns_next_record`: the number of an answer behind that of number `prev`, or from the first on.
unfoldable pub next_record : DnsMessage → ℕ → Option ℕ → Option ℕ
unfolding find_record
next_record msg query prev =
    let start : ℕ = elim prev [ none ↦ 0 | some i ↦ suc i ] in
    find_record query start (drop start (take msg.num_answers msg.answers))

-- `mg_dns_parse_record_data`: what it writes to `data`, or -1.
unfoldable pub parse_record_data : ℕ → DnsMessage → DnsRecord → ℕ → Option Uncompressed
parse_record_data rounds msg rr data_len =
    if rr.rtype == 1
    then if ltb data_len 4
      then none
      else if ltb (length msg.pkt) (rr.rdata.off + data_len)
      then none
      else some (uncompressed 0 (take data_len (drop rr.rdata.off msg.pkt)))
    else if rr.rtype == 5
    then some (uncompress_name rounds msg.pkt rr.rdata.off data_len)
    else none
