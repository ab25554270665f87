-- ===== src/Mqtt/Broker/Match.antt =====
-- What `mg_mqtt_match_topic_expression` matches.
use evmongoose.Common.{
  arith, ℕ, zero, suc, ◌+◌, ◌-◌, ◌^◌, ◌%◌, ◌<◌, ◌≤◌, ◌≡◌, refl, sym, ◌∙◌, true, false, some, List,
  [], ◌∷◌, ◌++◌, ◌==◌, ==_iff, length, take, take_all, take-append_le, Bool-cases, inl, inr,
  length-append, ◌↔◌, min,
}
use evmongoose.Mqtt.{MgStr}
use evmongoose.Mqtt.Broker.{starts_with, has_hash, match_len, match_topic_expression}

starts_with_iff :
    (n : ℕ) (p exp : List ℕ)
    → n ≤ length p
    → n ≤ length exp
    → (starts_with n p exp ≡ some true) ↔ (take n p ≡ take n exp)
unfolding starts_with
starts_with_iff zero p exp h k = (λ _. refl, λ _. refl)
starts_with_iff (suc n) [] exp h k = absurd (omega arith)
starts_with_iff (suc n) (c ∷ p) [] h k = absurd (omega arith)
starts_with_iff (suc n) (c ∷ p) (e ∷ exp) h k = elim (Bool-cases (c == e)) [
  | inl x ↦
      let is : c ≡ e = (==_iff c e).0 x in
      let rest = starts_with_iff n p exp (omega arith) (omega arith) in
      rw x (λ m. ground (arith, is, rest, m), λ m. ground (arith, is, rest, m))
  | inr x ↦ rw x (λ m. absurd (cc m), λ m. absurd (ground (arith, x, m)))
]

match_len-plain : (exp : List ℕ) (n : ℕ) → has_hash exp ≡ false → match_len exp n ≡ length exp
unfolding match_len
match_len-plain exp n h = rw h refl

has_hash-append : (pre : List ℕ) → has_hash (pre ++ (b'/' ∷ b'#' ∷ [])) ≡ true
unfolding has_hash
has_hash-append [] = refl
has_hash-append (c ∷ pre) = ground (arith, has_hash-append pre)

match_len-wild :
    (pre : List ℕ) (n : ℕ)
    → length pre < 2 ^ 62
    → match_len (pre ++ (b'/' ∷ b'#' ∷ [])) n ≡ min (length pre) n
unfolding match_len
match_len-wild pre n h =
    let long : (length (pre ++ (b'/' ∷ b'#' ∷ [])) + 2 ^ 64 - 2) % 2 ^ 64 ≡ length pre =
      omega (arith, length-append pre (b'/' ∷ b'#' ∷ [])) in
    rw (has_hash-append pre) (rw long (ground arith))

-- An expression with no `#` matches where the bytes from the topic on begin with it: so does a longer
-- topic, and one that does so with what follows it in the packet. These bytes are enough to compare.
pub match_topic_expression-prefix :
    (exp : List ℕ) (topic : MgStr)
    → has_hash exp ≡ false
    → length exp ≤ length topic.p
    → (match_topic_expression exp topic ≡ some true) ↔ (take (length exp) topic.p ≡ exp)
unfolding match_topic_expression
match_topic_expression-prefix exp topic plain long =
    let test = starts_with_iff (length exp) topic.p exp long (omega arith) in
    let whole : take (length exp) exp ≡ exp = take_all (length exp) exp (omega arith) in
    rw (match_len-plain exp topic.len plain) (λ m. test.0 m ∙ whole, λ e. test.1 (e ∙ sym whole))

-- An expression that ends in "/#" matches where one of the topic and what stands before the "/#" begins
-- with the other: also a topic that is shorter.
pub match_topic_expression-wild :
    (pre : List ℕ) (topic : MgStr)
    → length pre < 2 ^ 62
    → topic.len ≤ length topic.p
    → let n = min (length pre) topic.len in
      (match_topic_expression (pre ++ (b'/' ∷ b'#' ∷ [])) topic ≡ some true)
      ↔ (take n topic.p ≡ take n pre)
unfolding match_topic_expression
match_topic_expression-wild pre topic short inside =
    let exp = pre ++ (b'/' ∷ b'#' ∷ []) in
    let n = min (length pre) topic.len in
    let test =
      starts_with_iff n topic.p exp (ground arith)
        (ground (arith, length-append pre (b'/' ∷ b'#' ∷ []))) in
    let front : take n exp ≡ take n pre = take-append_le n pre (b'/' ∷ b'#' ∷ []) (ground arith) in
    rw (match_len-wild pre topic.len short) (λ m. test.0 m ∙ front, λ e. test.1 (e ∙ sym front))
