-- ===== src/Mqtt/Topics.antt =====
-- The topics of a SUBSCRIBE packet are read back as they were written.
use mathlib.Core.Option
use evmongoose.Common.{
  arith, ℕ, zero, suc, ◌+◌, ◌^◌, ◌≤◌, ◌<◌, ◌≡◌, refl, sym, ap, ◌∙◌, some, none, List, [], ◌∷◌, ◌++◌,
  leb, length, length-append, false, append_assoc, take-append_exact, drop-append_exact, All,
}
use mathlib.Core.List.{map}
use evmongoose.Mqtt.{MgStr, text, be16}
use evmongoose.Mqtt.Send.{TopicExpression}
use evmongoose.Mqtt.Parse.{skip, next_subscribe_topic, collect_topics}
use evmongoose.Mqtt.Queue.{topics_body}
use evmongoose.Mqtt.Packets.{scanto-be16}

next_subscribe_topic_lem :
    (t : TopicExpression) (front more : List ℕ) (n : ℕ)
    → length t.topic < 2 ^ 16
    → length front < n
    → next_subscribe_topic
        (record { p = front ++ (be16 (length t.topic) ++ (t.topic ++ (t.qos ∷ more))); len = n })
        (length front)
      ≡ some (
          some (
            record { p = t.topic ++ (t.qos ∷ more); len = length t.topic },
            t.qos,
            length front + 2 + length t.topic + 1,
          ))
unfolding next_subscribe_topic
next_subscribe_topic_lem t front more n h l =
    let short : leb n (length front) ≡ false = ground (arith, l) in
    rw short (rw found (rw (scanto-be16 t.topic (t.qos ∷ more) h) refl))
  where
    whole : List ℕ
    whole = front ++ (be16 (length t.topic) ++ (t.topic ++ (t.qos ∷ more)))

    found : skip (length front) whole ≡ some (be16 (length t.topic) ++ (t.topic ++ (t.qos ∷ more)))
    found = ground (
      arith,
      length-append front (be16 (length t.topic) ++ (t.topic ++ (t.qos ∷ more))),
      drop-append_exact (length front) front (be16 (length t.topic) ++ (t.topic ++ (t.qos ∷ more)))
          refl,
    )

next_subscribe_topic_end :
    (p : List ℕ) (n pos : ℕ)
    → n ≤ pos
    → next_subscribe_topic (record { p = p; len = n }) pos ≡ some none
unfolding next_subscribe_topic
next_subscribe_topic_end p n pos h = ground (arith, h)

abbrev pub found_topic : MgStr × ℕ → TopicExpression
found_topic f = record { topic = text f.0; qos = f.1 }

-- The walk over the topics, whatever stands before and behind them.
pub collect_topics-topics_body :
    (topics : List TopicExpression) (rounds : ℕ) (front rest : List ℕ)
    → length topics < rounds
    → All (λ t. length t.topic < 2 ^ 16) topics
    → (found : List (MgStr × ℕ)) × (collect_topics rounds
          (record {
            p = front ++ (topics_body topics ++ rest);
            len = length front + length (topics_body topics);
          })
          (length front)
        ≡ some found)
      × (map found_topic found ≡ topics)
unfolding collect_topics
collect_topics-topics_body topics zero front rest h a = absurd (omega arith)
collect_topics-topics_body [] (suc rounds) front rest h a = (
  [],
  rw (next_subscribe_topic_end (front ++ rest) (length front + 0) (length front) (omega arith))
      refl,
  refl,
)
collect_topics-topics_body (t ∷ topics) (suc rounds) front rest h (short, a) =
    let (found, walks, same) =
      collect_topics-topics_body topics rounds front' rest (omega arith) a in
    (
      (record { p = t.topic ++ (t.qos ∷ more); len = length t.topic }, t.qos) ∷ found,
      ap (λ p. collect_topics (suc rounds) (record { p = p; len = n }) (length front)) laid_out
          ∙ rw (next_subscribe_topic_lem t front more n short (omega (arith, grown))) (
              ap
                (Option.map (λ ts.
                  (record { p = t.topic ++ (t.qos ∷ more); len = length t.topic }, t.qos) ∷ ts))
                (moved ∙ walks)),
      ap (λ x. record { topic = x; qos = t.qos } ∷ map found_topic found)
            (take-append_exact (length t.topic) t.topic (t.qos ∷ more) refl)
          ∙ ap (◌∷◌ t) same,
    )
  where
    more : List ℕ
    more = topics_body topics ++ rest

    n : ℕ
    n = length front + length (topics_body (t ∷ topics))

    one : List ℕ
    one = be16 (length t.topic) ++ (t.topic ++ (t.qos ∷ []))

    front' : List ℕ
    front' = front ++ one

    laid_out :
        front ++ (topics_body (t ∷ topics) ++ rest)
        ≡ front ++ (be16 (length t.topic) ++ (t.topic ++ (t.qos ∷ more)))
    laid_out =
        ap (λ x. front ++ (be16 (length t.topic) ++ x))
          (append_assoc t.topic (t.qos ∷ topics_body topics) rest)

    grown : n ≡ length front' + length (topics_body topics)
    grown = omega (
      arith,
      length-append front one,
      length-append t.topic (t.qos ∷ []),
      length-append t.topic (t.qos ∷ topics_body topics),
    )

    behind : length front + 2 + length t.topic + 1 ≡ length front'
    behind = omega (arith, length-append front one, length-append t.topic (t.qos ∷ []))

    apart :
        front ++ (be16 (length t.topic) ++ (t.topic ++ (t.qos ∷ more)))
        ≡ front' ++ (topics_body topics ++ rest)
    apart = sym (
        append_assoc front one more
        ∙ ap (λ x. front ++ (be16 (length t.topic) ++ x)) (append_assoc t.topic (t.qos ∷ []) more))

    moved :
        collect_topics rounds
          (record { p = front ++ (be16 (length t.topic) ++ (t.topic ++ (t.qos ∷ more))); len = n })
          (length front + 2 + length t.topic + 1)
        ≡ collect_topics rounds
            (record {
              p = front' ++ (topics_body topics ++ rest);
              len = length front' + length (topics_body topics);
            })
            (length front')
    moved =
        ap
          (λ p.
            collect_topics rounds (record { p = p; len = n })
              (length front + 2 + length t.topic + 1))
          apart
        ∙ ap
            (λ l.
              collect_topics rounds (record { p = front' ++ more; len = l })
                (length front + 2 + length t.topic + 1))
            grown
        ∙ ap
            (collect_topics rounds
              (record { p = front' ++ more; len = length front' + length (topics_body topics) }))
            behind
