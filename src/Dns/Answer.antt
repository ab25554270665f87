-- ===== src/Dns/Answer.antt =====
-- An answer is parsed as it was encoded.
use evmongoose.Common.{
  arith, ℕ, suc, ◌+◌, ◌-◌, ◌/◌, ◌^◌, ◌≤◌, ◌<◌, ◌≡◌, refl, sym, ap, ◌∙◌, true, false, List, ◌∷◌,
  ◌++◌, ltb, ◌==◌, append_assoc, length, take, drop, length-append, length-drop, take_all,
  take-append_exact, drop-append_exact, drop-drop, All,
}
use evmongoose.Mqtt.{be16}
use evmongoose.Dns.{answer, DnsRecord, blank_record}
use evmongoose.Dns.Name.{encoded}
use evmongoose.Dns.Message.{skip_labels, parsed, parse_answer, parse_fields, parse_record}
use evmongoose.Dns.Query.{append_data, append_fields, named_record, encode_record}
use evmongoose.Dns.Labels.{IsLabel, dotted, wire, encode_name-wire}
use evmongoose.Dns.ReadName.{skip_labels-wire}

-- An answer behind its name.
abbrev pub fields : DnsRecord → List ℕ → List ℕ
fields rr rdata =
    (be16 rr.rtype ++ be16 rr.rclass)
    ++ ((be16 (rr.ttl / 2 ^ 16) ++ be16 rr.ttl) ++ (be16 (length rdata) ++ rdata))

append_fields-fields :
    (io : List ℕ) (rr : DnsRecord) (rdata : List ℕ)
    → (rr.rtype == 5) ≡ false
    → append_fields io (record rr { kind = answer }) rdata (length rdata)
      ≡ encoded (io ++ fields rr rdata)
unfolding append_fields append_data
append_fields-fields io rr rdata t =
    let typed = be16 rr.rtype ++ be16 rr.rclass in
    let timed = be16 (rr.ttl / 2 ^ 16) ++ be16 rr.ttl in
    let sized = be16 (length rdata) ++ rdata in
    let fits : ltb (length rdata) (length rdata) ≡ false = ground arith in
    rw t (
      rw (take_all (length rdata) rdata (omega arith)) (
        rw fits (
          ap encoded
            (append_assoc (io ++ typed) timed sized ∙ append_assoc io typed (timed ++ sized)))))

-- A record that has been parsed, with its name at `at` and its data behind.
abbrev pub read_back : ℕ → ℕ → DnsRecord → ℕ → DnsRecord
read_back at name_len rr data_len = record rr {
  name = record { off = at; len = name_len };
  kind = answer;
  rdata = record { off = at + name_len + 10; len = data_len };
}

pub parse_record-fields :
    (pkt : List ℕ) (at : ℕ) (l : List ℕ) (ms : List (List ℕ)) (rr : DnsRecord) (rdata back : List ℕ)
    → All IsLabel (l ∷ ms)
    → rr.rtype < 2 ^ 16
    → rr.rclass < 2 ^ 16
    → rr.ttl < 2 ^ 32
    → length rdata < 2 ^ 16
    → 1 ≤ length rdata
    → drop at pkt ≡ wire l ms ++ (fields rr rdata ++ back)
    → parse_record pkt at true blank_record
      ≡ parsed (
        read_back at (length (wire l ms)) rr (length rdata),
        at + length (wire l ms) + 10 + length rdata,
      )
unfolding parse_record parse_fields parse_answer
parse_record-fields pkt at l ms rr rdata back h t c u b p d =
    let tail = fields rr rdata ++ back in
    let k : suc (skip_labels 0 (drop at pkt)) ≡ length (wire l ms) =
      ap (λ s. suc (skip_labels 0 s)) d ∙ skip_labels-wire l ms tail h in
    let sizes : length pkt - at ≡ length (wire l ms) + (10 + (length rdata + length back)) =
      sym (length-drop at pkt)
      ∙ ap length d
      ∙ length-append (wire l ms) tail
      ∙ ap (λ n. length (wire l ms) + n) (omega (arith, length-append rdata back)) in
    let behind : drop (at + length (wire l ms)) pkt ≡ tail =
      sym (drop-drop (length (wire l ms)) at pkt)
      ∙ ap (drop (length (wire l ms))) d
      ∙ drop-append_exact (length (wire l ms)) (wire l ms) tail refl in
    let k0 = skip_labels 0 (drop at pkt) in
    let there : drop (at + k0 + 1) pkt ≡ tail =
      ap (λ i. drop i pkt) {x = at + k0 + 1} (omega arith) ∙ behind in
    rw (there, parse_record) (ground (arith, k, sizes))

pub encode_record-fields :
    (io l : List ℕ) (ms : List (List ℕ)) (rr : DnsRecord) (rdata : List ℕ)
    → All IsLabel (l ∷ ms)
    → length (dotted l ms) < 2 ^ 64
    → (rr.rtype == 5) ≡ false
    → encode_record io
        (record rr { kind = answer })
        (dotted l ms)
        (length (dotted l ms))
        rdata
        (length rdata)
      ≡ encoded (io ++ (wire l ms ++ fields rr rdata))
unfolding encode_record named_record
encode_record-fields io l ms rr rdata h b t =
    rw (encode_name-wire io l ms h b, named_record, encode_record)
      (append_fields-fields (io ++ wire l ms) rr rdata t
        ∙ ap encoded (append_assoc io (wire l ms) (fields rr rdata)))

drop-fields :
    (io l : List ℕ) (ms : List (List ℕ)) (rr : DnsRecord) (rdata back : List ℕ)
    → drop (length io + length (wire l ms) + 10) (io ++ (wire l ms ++ (fields rr rdata ++ back)))
      ≡ rdata ++ back
drop-fields io l ms rr rdata back =
    let w = wire l ms in
    let tail = fields rr rdata ++ back in
    sym (drop-drop 10 (length io + length w) (io ++ (w ++ tail)))
    ∙ ap (drop 10) (
        sym (drop-drop (length w) (length io) (io ++ (w ++ tail)))
        ∙ ap (drop (length w)) (drop-append_exact (length io) io (w ++ tail) refl)
        ∙ drop-append_exact (length w) w tail refl)

-- An answer that is no CNAME, with one byte of data or more, that mg_dns_encode_record appends to a
-- packet for a name of labels of 1 to 63 bytes is parsed there to the same type, class and time to
-- live, and its data are found where the record says, whatever follows in the packet.
pub parse_record-encode_record :
    (io l : List ℕ) (ms : List (List ℕ)) (rr : DnsRecord) (rdata back : List ℕ)
    → All IsLabel (l ∷ ms)
    → length (dotted l ms) < 2 ^ 64
    → (rr.rtype == 5) ≡ false
    → rr.rtype < 2 ^ 16
    → rr.rclass < 2 ^ 16
    → rr.ttl < 2 ^ 32
    → 1 ≤ length rdata
    → length rdata < 2 ^ 16
    → (made : List ℕ) × (encode_record io
          (record rr { kind = answer })
          (dotted l ms)
          (length (dotted l ms))
          rdata
          (length rdata)
        ≡ encoded (io ++ made))
      × (parse_record (io ++ (made ++ back)) (length io) true blank_record
          ≡ parsed (
            read_back (length io) (length (wire l ms)) rr (length rdata),
            length io + length made,
          ))
      × (take (length rdata) (drop (length io + length (wire l ms) + 10) (io ++ (made ++ back)))
          ≡ rdata)
parse_record-encode_record io l ms rr rdata back h b t q c u p s =
    let w = wire l ms in
    let made = w ++ fields rr rdata in
    let pkt = io ++ (made ++ back) in
    let shape : pkt ≡ io ++ (w ++ (fields rr rdata ++ back)) =
      ap (λ m. io ++ m) (append_assoc w (fields rr rdata) back) in
    let there : drop (length io) pkt ≡ w ++ (fields rr rdata ++ back) =
      ap (drop (length io)) shape
      ∙ drop-append_exact (length io) io (w ++ (fields rr rdata ++ back)) refl in
    let whole : length io + length w + 10 + length rdata ≡ length io + length made =
      omega (arith, length-append w (fields rr rdata)) in
    (
      made,
      encode_record-fields io l ms rr rdata h b t,
      parse_record-fields pkt (length io) l ms rr rdata back h q c u s p there
          ∙ ap (λ n. parsed (read_back (length io) (length w) rr (length rdata), n)) whole,
      ap (λ m. take (length rdata) (drop (length io + length w + 10) m)) shape
          ∙ ap (take (length rdata)) (drop-fields io l ms rr rdata back)
          ∙ take-append_exact (length rdata) rdata back refl,
    )
