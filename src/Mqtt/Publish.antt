-- ===== src/Mqtt/Publish.antt =====
-- A PUBLISH packet is read back as it was written.
use evmongoose.Common.{
  ◌≤◌, arith, ℕ, ◌^◌, ◌<◌, ◌≡◌, refl, sym, ap, ◌∙◌, some, List, [], ◌++◌, length, length-append,
  append_assoc, take-append_exact,
}
use evmongoose.Net.{Conn}
use evmongoose.Mqtt.{text, Message, be16, get_qos}
use evmongoose.Mqtt.Send.{publish}
use evmongoose.Mqtt.Parse.{acknowledge, parse_publish, message, parse_mqtt}
use evmongoose.Mqtt.Queue.{packet, publish_body, publish-send_mbuf}
use evmongoose.Mqtt.Packets.{ids_of, seen, parse_publish-seen, parse_packet, parse_body_publish}

-- A string behind its length is read back, whatever follows.
-- A PUBLISH packet that a peer has queued on an empty connection and that arrives, whatever
-- follows it, is taken whole: the topic, the payload, the quality of service and, where there is
-- one, the message id are those that were published. The flags are below 16, the topic and the id
-- below 2 ^ 16 and the body below 2 ^ 31.
pub parse_mqtt-publish :
    (now sent_at : ℕ) (topic : List ℕ) (message_id flags : ℕ) (body rest : List ℕ)
    (sender receiver : Conn) (mm : Message)
    → flags < 16
    → length topic < 2 ^ 16
    → message_id < 2 ^ 16
    → length (publish_body topic message_id flags body) < 2 ^ 31
    → sender.send_mbuf ≡ []
    → receiver.recv_mbuf ≡ (publish sent_at topic message_id flags body sender).send_mbuf ++ rest
    → (m : Message) × (parse_mqtt now receiver mm
        ≡ some (
            message
              (acknowledge now m receiver)
              m
              (length (publish sent_at topic message_id flags body sender).send_mbuf)))
      × (text m.topic ≡ topic)
      × (text m.payload ≡ body)
      × (m.qos ≡ get_qos flags)
      × (0 < get_qos flags → m.message_id ≡ message_id)
parse_mqtt-publish now sent_at topic message_id flags body rest sender receiver mm f t i l empty
      got =
    (
      m,
      (parse_packet now mm receiver 3 flags packed rest (omega arith) f l
            (got ∙ ap (λ t. t ++ rest) sent_eq) (acknowledge now m receiver) m
            (parse_body_publish now (length rest) (get_qos flags) (packed ++ rest) mm receiver
              ∙ reads)
          ∙ ap (λ n. some (message (acknowledge now m receiver) m n)) (sym (ap length sent_eq))),
      take-append_exact (length topic) topic (ids ++ (body ++ rest)) refl,
      take-append_exact (length body) body rest refl,
      refl,
      λ some_qos. ground (arith, some_qos),
    )
  where
    packed : List ℕ
    packed = publish_body topic message_id flags body

    ids : List ℕ
    ids = ids_of message_id (get_qos flags)

    m : Message
    m = seen (record mm { cmd = 3; qos = get_qos flags }) topic message_id body rest

    room : length body ≤ length packed
    room = omega (arith, length-append topic (ids ++ body), length-append ids body)

    sent_eq : (publish sent_at topic message_id flags body sender).send_mbuf ≡ packet 3 flags packed
    sent_eq =
        publish-send_mbuf sent_at topic message_id flags body sender (omega arith)
          (omega (arith, room))
        ∙ ap (λ t. t ++ packet 3 flags packed) empty

    regrouped : packed ++ rest ≡ be16 (length topic) ++ (topic ++ (ids ++ (body ++ rest)))
    regrouped =
        ap (λ t. be16 (length topic) ++ t)
          (append_assoc topic (ids ++ body) rest
            ∙ ap (λ t. topic ++ t) (append_assoc ids body rest))

    short : length body < 2 ^ 64
    short = omega (arith, l, length-append topic (ids ++ body), length-append ids body)

    reads :
        parse_publish now
          (length rest)
          (packed ++ rest)
          (record mm { cmd = 3; qos = get_qos flags })
          receiver
        ≡ some (acknowledge now m receiver, m)
    reads =
        ap
          (λ p.
            parse_publish now (length rest) p (record mm { cmd = 3; qos = get_qos flags }) receiver)
          regrouped
        ∙ parse_publish-seen now (record mm { cmd = 3; qos = get_qos flags }) topic message_id body
            rest receiver t i short
