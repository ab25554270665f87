-- ===== src/Mqtt/Queue.antt =====
-- What the packet functions of MQTT queue: a fixed header, the length of the body, and the body,
-- behind what was queued before.
use evmongoose.Common.{
  arith, ℕ, ◌^◌, ◌<◌, All, ◌-◌, ◌*◌, ◌%◌, ◌≡◌, sym, ap, ◌∙◌, inl, inr, List, [], ◌∷◌, ◌++◌, ltb,
  if◌then◌else◌, length, length-append, true, false, Bool, bit_or, append_assoc, append-nil, take,
  drop, take-append_exact, drop-append_exact, Option-cases,
}
use evmongoose.Net.Queue.{mg_send-append, mg_send_behind}
use evmongoose.Net.{Conn, mg_send}
use evmongoose.Mqtt.{be16, get_qos}
use evmongoose.Mqtt.Send.{
  encode_len, prepend_header, publish, TopicExpression, send_topics, subscribe,
}

-- A packet on the wire.
abbrev pub packet : ℕ → ℕ → List ℕ → List ℕ
packet cmd flags body =
    bit_or (cmd * 16) (flags % 256) % 256 ∷ (encode_len 10 (length body) ++ body)

abbrev pub publish_body : List ℕ → ℕ → ℕ → List ℕ → List ℕ
publish_body topic message_id flags body =
    be16 (length topic)
    ++ (topic ++ ((if ltb 0 (get_qos flags) then be16 message_id else []) ++ body))

abbrev pub topics_body : List TopicExpression → List ℕ
topics_body [] = []
topics_body (t ∷ topics) =
    be16 (length t.topic) ++ (t.topic ++ ((t.qos ∷ []) ++ topics_body topics))

prepend_header_mid :
    (now cmd flags len : ℕ) (nc : Conn)
    → (prepend_header now cmd flags len nc).send_mbuf
      ≡ take (length nc.send_mbuf - len) nc.send_mbuf
        ++ ((bit_or (cmd * 16) (flags % 256) % 256 ∷ encode_len 10 len)
            ++ drop (length nc.send_mbuf - len) nc.send_mbuf)
unfolding prepend_header
prepend_header_mid now cmd flags len nc = elim (Option-cases nc.sock) [
  | inl e ↦ ground arith
  | inr (s, e) ↦ ground arith
]

-- The header goes between what was queued before and the body.
prepend_header-packet :
    (now cmd flags : ℕ) (nc : Conn) (front body : List ℕ)
    → nc.send_mbuf ≡ front ++ body
    → (prepend_header now cmd flags (length nc.send_mbuf - length front) nc).send_mbuf
      ≡ front ++ packet cmd flags body
prepend_header-packet now cmd flags nc front body e =
    prepend_header_mid now cmd flags len nc
    ∙ ap (λ t. t ++ ((header ∷ encode_len 10 len) ++ drop off nc.send_mbuf)) before
    ∙ ap (λ t. front ++ ((header ∷ encode_len 10 len) ++ t)) behind
    ∙ ap (λ n. front ++ (header ∷ (encode_len 10 n ++ body))) long
  where
    len : ℕ
    len = length nc.send_mbuf - length front

    off : ℕ
    off = length nc.send_mbuf - len

    header : ℕ
    header = bit_or (cmd * 16) (flags % 256) % 256

    long : len ≡ length body
    long = omega (arith, ap length e, length-append front body)

    at : off ≡ length front
    at = omega (arith, ap length e, length-append front body)

    before : take off nc.send_mbuf ≡ front
    before = ap (take off) e ∙ take-append_exact off front body at

    behind : drop off nc.send_mbuf ≡ body
    behind = ap (drop off) e ∙ drop-append_exact off front body at

-- Publishing queues one PUBLISH packet behind what was queued before.
pub publish-send_mbuf :
    (now : ℕ) (topic : List ℕ) (message_id flags : ℕ) (body : List ℕ) (nc : Conn)
    → length topic < 2 ^ 31
    → length body < 2 ^ 31
    → (publish now topic message_id flags body nc).send_mbuf
      ≡ nc.send_mbuf ++ packet 3 flags (publish_body topic message_id flags body)
unfolding publish
publish-send_mbuf now topic message_id flags body nc t l =
    prepend_header-packet now 3 flags _ nc.send_mbuf (publish_body topic message_id flags body) (
      mg_send_behind now body numbered nc.send_mbuf _ l middle
      ∙ ap (λ t. nc.send_mbuf ++ t) (regroup id_bytes))
  where
    named : Conn
    named = mg_send now topic (mg_send now (be16 (length topic)) nc)

    numbered : Conn
    numbered = if ltb 0 (get_qos flags) then mg_send now (be16 message_id) named else named

    id_bytes : List ℕ
    id_bytes = if ltb 0 (get_qos flags) then be16 message_id else []

    named_queue : named.send_mbuf ≡ nc.send_mbuf ++ (be16 (length topic) ++ topic)
    named_queue =
        mg_send_behind now topic _ nc.send_mbuf (be16 (length topic)) t
          (mg_send-append now (be16 (length topic)) nc (omega arith))

    middle_if :
        (b : Bool)
        → (if b then mg_send now (be16 message_id) named else named).send_mbuf
          ≡ nc.send_mbuf ++ ((be16 (length topic) ++ topic) ++ (if b then be16 message_id else []))
    middle_if true =
        mg_send_behind now (be16 message_id) named nc.send_mbuf (be16 (length topic) ++ topic)
          (omega arith) named_queue
    middle_if false =
        named_queue ∙ ap (λ t. nc.send_mbuf ++ t) (sym (append-nil (be16 (length topic) ++ topic)))

    middle : numbered.send_mbuf ≡ nc.send_mbuf ++ ((be16 (length topic) ++ topic) ++ id_bytes)
    middle = middle_if (ltb 0 (get_qos flags))

    regroup :
        (ids : List ℕ)
        → ((be16 (length topic) ++ topic) ++ ids) ++ body
          ≡ be16 (length topic) ++ (topic ++ (ids ++ body))
    regroup ids = ap (λ t. be16 (length topic) ++ t) (append_assoc topic ids body)

send_topics_behind :
    (now : ℕ) (topics : List TopicExpression) (nc : Conn) (front body : List ℕ)
    → All (λ t. length t.topic < 2 ^ 31) topics
    → nc.send_mbuf ≡ front ++ body
    → (send_topics now topics nc).send_mbuf ≡ front ++ (body ++ topics_body topics)
unfolding send_topics
send_topics_behind now [] nc front body short e = e ∙ ap (λ t. front ++ t) (sym (append-nil body))
send_topics_behind now (t ∷ topics) nc front body (h, short) e =
    send_topics_behind now topics _ front
      (((body ++ be16 (length t.topic)) ++ t.topic) ++ (t.qos ∷ [])) short
      (mg_send_behind now (t.qos ∷ []) _ front _ (omega arith) (
        mg_send_behind now t.topic _ front _ h
          (mg_send_behind now (be16 (length t.topic)) nc front body (omega arith) e)))
    ∙ ap (λ x. front ++ x) regrouped
  where
    rest : List ℕ
    rest = topics_body topics

    regrouped :
        (((body ++ be16 (length t.topic)) ++ t.topic) ++ (t.qos ∷ [])) ++ rest
        ≡ body ++ (be16 (length t.topic) ++ (t.topic ++ ((t.qos ∷ []) ++ rest)))
    regrouped =
        append_assoc ((body ++ be16 (length t.topic)) ++ t.topic) (t.qos ∷ []) rest
        ∙ append_assoc (body ++ be16 (length t.topic)) t.topic ((t.qos ∷ []) ++ rest)
        ∙ append_assoc body (be16 (length t.topic)) (t.topic ++ ((t.qos ∷ []) ++ rest))

-- Subscribing queues one SUBSCRIBE packet with the id and all the topics behind what was queued
-- before.
pub subscribe-send_mbuf :
    (now : ℕ) (topics : List TopicExpression) (message_id : ℕ) (nc : Conn)
    → All (λ t. length t.topic < 2 ^ 31) topics
    → (subscribe now topics message_id nc).send_mbuf
      ≡ nc.send_mbuf ++ packet 8 2 (be16 message_id ++ topics_body topics)
unfolding subscribe
subscribe-send_mbuf now topics message_id nc short =
    prepend_header-packet now 8 2 _ nc.send_mbuf (be16 message_id ++ topics_body topics) (
      send_topics_behind now topics _ nc.send_mbuf (be16 message_id) short
        (mg_send-append now (be16 message_id) nc (omega arith)))
