-- ===== src/Mqtt/Subscribe.antt =====
-- A SUBSCRIBE packet is read back as it was written, with its topics.
use evmongoose.Common.{
  arith, ℕ, ◌+◌, ◌*◌, ◌/◌, ◌%◌, ◌^◌, ◌<◌, ◌≡◌, refl, sym, ap, ◌∙◌, some, List, [], ◌∷◌, ◌++◌,
  length, append_assoc, All,
}
use mathlib.Core.List.{map}
use evmongoose.Net.{Conn}
use evmongoose.Mqtt.{MgStr, be16, Message, get_qos}
use evmongoose.Mqtt.Send.{TopicExpression, subscribe}
use evmongoose.Mqtt.Parse.{collect_topics, getu16, parse_body, parse_subscribe, parse_mqtt, message}
use evmongoose.Mqtt.Queue.{packet, topics_body, subscribe-send_mbuf}
use evmongoose.Mqtt.Packets.{span_lem, parse_packet}
use evmongoose.Mqtt.Topics.{found_topic, collect_topics-topics_body}

-- The message of a SUBSCRIBE packet.
abbrev subscription : Message → ℕ → List ℕ → List ℕ → Message
subscription mm message_id body rest = record mm {
  cmd = 8;
  qos = get_qos 2;
  message_id = message_id;
  payload = record { p = body ++ rest; len = length body };
}

parse_body_subscribe :
    (now message_id : ℕ) (body rest : List ℕ) (mm : Message) (nc : Conn)
    → message_id < 2 ^ 16
    → length body < 2 ^ 64
    → parse_body now
        (length rest)
        (be16 message_id ++ (body ++ rest))
        (record mm { cmd = 8; qos = get_qos 2 })
        nc
      ≡ some (nc, subscription mm message_id body rest)
unfolding parse_body parse_subscribe getu16
parse_body_subscribe now message_id body rest mm nc h l =
    let e : message_id % 2 ^ 16 / 256 * 256 + message_id % 256 ≡ message_id = omega arith in
    rw e (rw (span_lem body rest l) refl)

all_short :
    (topics : List TopicExpression)
    → All (λ t. length t.topic < 2 ^ 16) topics
    → All (λ t. length t.topic < 2 ^ 31) topics
all_short [] h = tt
all_short (t ∷ topics) (short, h) = (omega arith, all_short topics h)

-- A SUBSCRIBE packet that mg_mqtt_subscribe queues on an empty connection and that arrives, whatever
-- follows it, is taken whole by parse_mqtt with its id, and the walk over its payload, in any number of
-- rounds above the number of topics, gives the topics that were sent, in order and with their qualities
-- of service. The topics are shorter than 2 ^ 16, the id is below 2 ^ 16 and the body below 2 ^ 31.
pub parse_mqtt-subscribe :
    (now sent_at message_id rounds : ℕ) (topics : List TopicExpression) (rest : List ℕ)
    (sender receiver : Conn) (mm : Message)
    → length topics < rounds
    → All (λ t. length t.topic < 2 ^ 16) topics
    → message_id < 2 ^ 16
    → length (be16 message_id ++ topics_body topics) < 2 ^ 31
    → sender.send_mbuf ≡ []
    → receiver.recv_mbuf ≡ (subscribe sent_at topics message_id sender).send_mbuf ++ rest
    → (m : Message) × (found : List (MgStr × ℕ)) × (parse_mqtt now receiver mm
        ≡ some (message receiver m (length (subscribe sent_at topics message_id sender).send_mbuf)))
      × (m.message_id ≡ message_id)
      × (collect_topics rounds m.payload 0 ≡ some found)
      × (map found_topic found ≡ topics)
parse_mqtt-subscribe now sent_at message_id rounds topics rest sender receiver mm h short id l empty
      got =
    let (found, walks, same) = collect_topics-topics_body topics rounds [] rest h short in
    (
      m,
      found,
      (parse_packet now mm receiver 8 2 packed rest (omega arith) (omega arith) l
            (got ∙ ap (λ t. t ++ rest) sent_eq) receiver m
            (ap
                (λ p.
                  parse_body now (length rest) p (record mm { cmd = 8; qos = get_qos 2 }) receiver)
                (append_assoc (be16 message_id) (topics_body topics) rest)
              ∙ parse_body_subscribe now message_id (topics_body topics) rest mm receiver id
                  (omega (arith, l)))
          ∙ ap (λ n. some (message receiver m n)) (sym (ap length sent_eq))),
      refl,
      ap (λ n. collect_topics rounds (record { p = topics_body topics ++ rest; len = n }) 0)
            zero_plus
          ∙ walks,
      same,
    )
  where
    packed : List ℕ
    packed = be16 message_id ++ topics_body topics

    zero_plus : length (topics_body topics) ≡ 0 + length (topics_body topics)
    zero_plus = omega arith

    m : Message
    m = subscription mm message_id (topics_body topics) rest

    sent_eq : (subscribe sent_at topics message_id sender).send_mbuf ≡ packet 8 2 packed
    sent_eq =
        subscribe-send_mbuf sent_at topics message_id sender (all_short topics short)
        ∙ ap (λ t. t ++ packet 8 2 packed) empty
