-- ===== src/Dns/Bounds.antt =====
-- What `mg_parse_dns` does with any bytes.
use evmongoose.Common.{
  arith, ℕ, zero, suc, ◌+◌, ◌-◌, ◌*◌, ◌≤◌, ◌≡◌, refl, ap, min, Bool, true, false, List, [], ◌∷◌,
  ltb, leb, if_split, length, drop, length-drop, All,
}
use evmongoose.Dns.{answer, DnsRecord, DnsMessage, blank_record, blank_message}
use evmongoose.Dns.Message.{
  skip_labels, Parsed, parsed, malformed, misread, parse_answer, parse_fields, parse_record,
  parse_records, parse_counts, parse_dns,
}

-- The result is no read outside, and what is parsed is so.
abbrev Sound {ℓ} : {A : Type ℓ} → (A → Type 0) → Parsed A → Type 0
Sound P (parsed a) = P a
Sound P malformed = Unit
Sound P misread = ⊥

abbrev IsNamedIn : List ℕ → DnsRecord → Type 0
IsNamedIn pkt rr = rr.name.off + rr.name.len ≤ length pkt

parse_answer-Sound :
    (pkt s : List ℕ) (at : ℕ) (rr : DnsRecord)
    → 6 ≤ length s
    → IsNamedIn pkt rr
    → Sound (λ (r : DnsRecord × ℕ). IsNamedIn pkt r.0) (parse_answer s at rr)
unfolding parse_answer
parse_answer-Sound pkt (a ∷ b ∷ c ∷ d ∷ e ∷ f ∷ s) at rr h n = n
parse_answer-Sound pkt (a ∷ b ∷ c ∷ d ∷ e ∷ []) at rr h n = absurd (omega arith)
parse_answer-Sound pkt (a ∷ b ∷ c ∷ d ∷ []) at rr h n = absurd (omega arith)
parse_answer-Sound pkt (a ∷ b ∷ c ∷ []) at rr h n = absurd (omega arith)
parse_answer-Sound pkt (a ∷ b ∷ []) at rr h n = absurd (omega arith)
parse_answer-Sound pkt (a ∷ []) at rr h n = absurd (omega arith)
parse_answer-Sound pkt [] at rr h n = absurd (omega arith)

-- An answer has ten bytes behind its type, a question four.
parse_fields-Sound :
    (pkt s : List ℕ) (at end : ℕ) (reply : Bool) (rr : DnsRecord)
    → 4 ≤ length s
    → length s ≡ end - at
    → IsNamedIn pkt rr
    → Sound (λ (r : DnsRecord × ℕ). IsNamedIn pkt r.0) (parse_fields s at end reply rr)
unfolding parse_fields
parse_fields-Sound pkt (a ∷ b ∷ c ∷ d ∷ s) at end false rr h e n = n
parse_fields-Sound pkt (a ∷ b ∷ c ∷ d ∷ s) at end true rr h e n =
    if_split (Sound (λ (r : DnsRecord × ℕ). IsNamedIn pkt r.0)) (leb end (at + 4 + 6)) (λ _. tt)
      (λ room.
        parse_answer-Sound pkt s (at + 4)
          (record rr { rtype = a * 256 + b; rclass = c * 256 + d; kind = answer }) (ground arith) n)
parse_fields-Sound pkt (a ∷ b ∷ c ∷ []) at end reply rr h e n = absurd (omega arith)
parse_fields-Sound pkt (a ∷ b ∷ []) at end reply rr h e n = absurd (omega arith)
parse_fields-Sound pkt (a ∷ []) at end reply rr h e n = absurd (omega arith)
parse_fields-Sound pkt [] at end reply rr h e n = absurd (omega arith)

parse_record-Sound :
    (pkt : List ℕ) (at : ℕ) (reply : Bool) (rr : DnsRecord)
    → Sound (λ (r : DnsRecord × ℕ). IsNamedIn pkt r.0) (parse_record pkt at reply rr)
unfolding parse_record
parse_record-Sound pkt at reply rr =
    let k = skip_labels 0 (drop at pkt) in
    if_split (Sound (λ (r : DnsRecord × ℕ). IsNamedIn pkt r.0)) (ltb (length pkt) (at + k + 5))
      (λ _. tt)
      (λ room.
        let fits : at + k + 5 ≤ length pkt = ground arith in
        parse_fields-Sound pkt (drop (at + k + 1) pkt) (at + k + 1) (length pkt) reply
          (record rr { name = record { off = at; len = k + 1 } })
          (omega (arith, length-drop (at + k + 1) pkt)) (length-drop (at + k + 1) pkt)
          (omega arith))

-- As many records as were asked for, with their names in the packet.
abbrev AreRecords : List ℕ → ℕ → List DnsRecord → Type 0
AreRecords pkt n records = (length records ≡ n) × All (IsNamedIn pkt) records

parse_records-Sound :
    (pkt : List ℕ) (n : ℕ) (reply : Bool) (at : ℕ)
    → Sound (λ (r : List DnsRecord × ℕ). AreRecords pkt n r.0) (parse_records pkt n reply at)
unfolding parse_records
parse_records-Sound pkt zero reply at = (refl, tt)
parse_records-Sound pkt (suc n) reply at =
    head_case (parse_record pkt at reply blank_record)
      (parse_record-Sound pkt at reply blank_record) (parse_records-Sound pkt n reply)
  where
    tail_case :
        (rr : DnsRecord) (r : Parsed (List DnsRecord × ℕ))
        → IsNamedIn pkt rr
        → Sound (λ (r : List DnsRecord × ℕ). AreRecords pkt n r.0) r
        → Sound
            (λ (r : List DnsRecord × ℕ). AreRecords pkt (suc n) r.0)
            (elim r [
              | malformed ↦ malformed
              | misread ↦ misread
              | parsed rest ↦ parsed (rr ∷ rest.0, rest.1)
            ])
    tail_case rr malformed named h = tt
    tail_case rr misread named h = absurd h
    tail_case rr (parsed rest) named h = (ap suc h.0, (named, h.1))

    head_case :
        (r : Parsed (DnsRecord × ℕ))
        → Sound (λ (r : DnsRecord × ℕ). IsNamedIn pkt r.0) r
        → ((next : ℕ)
            → Sound
                (λ (r : List DnsRecord × ℕ). AreRecords pkt n r.0)
                (parse_records pkt n reply next))
        → Sound
            (λ (r : List DnsRecord × ℕ). AreRecords pkt (suc n) r.0)
            (elim r [
              | malformed ↦ malformed
              | misread ↦ misread
              | parsed r ↦ elim (parse_records pkt n reply r.1) [
                | malformed ↦ malformed
                | misread ↦ misread
                | parsed rest ↦ parsed (r.0 ∷ rest.0, rest.1)
              ]
            ])
    head_case malformed h rest = tt
    head_case misread h rest = absurd h
    head_case (parsed r) h rest = tail_case r.0 (parse_records pkt n reply r.1) h (rest r.1)

-- A message holds as many records of each kind as it says, 32 at most, with their names in the packet.
abbrev pub IsContained : List ℕ → DnsMessage → Type 0
IsContained pkt msg =
    (msg.pkt ≡ pkt)
    × (msg.num_questions ≤ 32)
    × (msg.num_answers ≤ 32)
    × AreRecords pkt msg.num_questions msg.questions
    × AreRecords pkt msg.num_answers msg.answers

abbrev pub IsParsedWithin : List ℕ → Parsed DnsMessage → Type 0
IsParsedWithin pkt = Sound (IsContained pkt)

parse_counts-Sound :
    (pkt : List ℕ) (msg : DnsMessage)
    → msg.pkt ≡ pkt
    → msg.num_questions ≤ 32
    → msg.num_answers ≤ 32
    → IsParsedWithin pkt (parse_counts pkt msg)
unfolding parse_counts
parse_counts-Sound pkt msg e h k =
    questions_case (parse_records pkt msg.num_questions false 12)
      (parse_records-Sound pkt msg.num_questions false 12)
  where
    answers_case :
        (q : List DnsRecord) (r : Parsed (List DnsRecord × ℕ))
        → AreRecords pkt msg.num_questions q
        → Sound (λ (r : List DnsRecord × ℕ). AreRecords pkt msg.num_answers r.0) r
        → IsParsedWithin pkt (elim r [
          | malformed ↦ malformed
          | misread ↦ misread
          | parsed a ↦ parsed (record msg { questions = q; answers = a.0 })
        ])
    answers_case q malformed hq ha = tt
    answers_case q misread hq ha = absurd ha
    answers_case q (parsed a) hq ha = (e, h, k, hq, ha)

    questions_case :
        (r : Parsed (List DnsRecord × ℕ))
        → Sound (λ (r : List DnsRecord × ℕ). AreRecords pkt msg.num_questions r.0) r
        → IsParsedWithin pkt (elim r [
          | malformed ↦ malformed
          | misread ↦ misread
          | parsed q ↦ elim (parse_records pkt msg.num_answers true q.1) [
            | malformed ↦ malformed
            | misread ↦ misread
            | parsed a ↦ parsed (record msg { questions = q.0; answers = a.0 })
          ]
        ])
    questions_case malformed hq = tt
    questions_case misread hq = absurd hq
    questions_case (parsed q) hq =
        answers_case q.0 (parse_records pkt msg.num_answers true q.1) hq
          (parse_records-Sound pkt msg.num_answers true q.1)

-- Whatever has been received, mg_parse_dns reads nothing outside of it, and a message that it accepts
-- holds as many questions and answers as it counts, 32 of each at most, with their names inside of
-- what has been received.
pub parse_dns-IsParsedWithin : (buf : List ℕ) → IsParsedWithin buf (parse_dns buf)
unfolding parse_dns
parse_dns-IsParsedWithin (i0 ∷ i1 ∷ f0 ∷ f1 ∷ q0 ∷ q1 ∷ a0 ∷ a1 ∷ n0 ∷ n1 ∷ o0 ∷ o1 ∷ s) =
    parse_counts-Sound (i0 ∷ i1 ∷ f0 ∷ f1 ∷ q0 ∷ q1 ∷ a0 ∷ a1 ∷ n0 ∷ n1 ∷ o0 ∷ o1 ∷ s)
      (record blank_message {
        pkt = i0 ∷ i1 ∷ f0 ∷ f1 ∷ q0 ∷ q1 ∷ a0 ∷ a1 ∷ n0 ∷ n1 ∷ o0 ∷ o1 ∷ s;
        transaction_id = i0 + i1 * 256;
        flags = f0 * 256 + f1;
        num_questions = min (q0 * 256 + q1) 32;
        num_answers = min (a0 * 256 + a1) 32;
      })
      refl (omega arith) (omega arith)
parse_dns-IsParsedWithin (i0 ∷ i1 ∷ f0 ∷ f1 ∷ q0 ∷ q1 ∷ a0 ∷ a1 ∷ n0 ∷ n1 ∷ o0 ∷ []) = tt
parse_dns-IsParsedWithin (i0 ∷ i1 ∷ f0 ∷ f1 ∷ q0 ∷ q1 ∷ a0 ∷ a1 ∷ n0 ∷ n1 ∷ []) = tt
parse_dns-IsParsedWithin (i0 ∷ i1 ∷ f0 ∷ f1 ∷ q0 ∷ q1 ∷ a0 ∷ a1 ∷ n0 ∷ []) = tt
parse_dns-IsParsedWithin (i0 ∷ i1 ∷ f0 ∷ f1 ∷ q0 ∷ q1 ∷ a0 ∷ a1 ∷ []) = tt
parse_dns-IsParsedWithin (i0 ∷ i1 ∷ f0 ∷ f1 ∷ q0 ∷ q1 ∷ a0 ∷ []) = tt
parse_dns-IsParsedWithin (i0 ∷ i1 ∷ f0 ∷ f1 ∷ q0 ∷ q1 ∷ []) = tt
parse_dns-IsParsedWithin (i0 ∷ i1 ∷ f0 ∷ f1 ∷ q0 ∷ []) = tt
parse_dns-IsParsedWithin (i0 ∷ i1 ∷ f0 ∷ f1 ∷ []) = tt
parse_dns-IsParsedWithin (i0 ∷ i1 ∷ f0 ∷ []) = tt
parse_dns-IsParsedWithin (i0 ∷ i1 ∷ []) = tt
parse_dns-IsParsedWithin (i0 ∷ []) = tt
parse_dns-IsParsedWithin [] = tt
