-- ===== src/Mqtt/Tests.antt =====
-- Runs of the MQTT packets on concrete inputs.
use evmongoose.Common.{arith, ℕ, ◌≡◌, ◌<◌, refl, sym, ap, some, List, [], ◌∷◌, ◌++◌, length}
use evmongoose.Net.{Conn, mg_send, passed}
use evmongoose.Net.{recv}
use evmongoose.Common.{none}
use evmongoose.Mqtt.Connect.{HandshakeOpts, handshake_len, send_handshake_opt}
use evmongoose.Mqtt.Handshake.{IsHandshake}
use evmongoose.Mqtt.Connected.{ReadAs, queued_by, parse_mqtt-send_handshake_opt}
use evmongoose.Mqtt.Handler.{MqttEvent, mqtt_handler}
use evmongoose.Mqtt.Loop.{HasEnded, mqtt_handler-HasEnded}
use evmongoose.Net.Samples.{fresh}
use evmongoose.Mqtt.{MgStr, text, Message, zeroed}
use evmongoose.Mqtt.Send.{
  encode_len, prepend_header, publish, TopicExpression, send_topics, subscribe,
}
use evmongoose.Mqtt.Parse.{acknowledge, message, parse_mqtt, collect_topics}
use mathlib.Core.List.{map}
use evmongoose.Mqtt.Publish.{parse_mqtt-publish}
use evmongoose.Mqtt.Topics.{found_topic}
use evmongoose.Mqtt.Subscribe.{parse_mqtt-subscribe}

-- "a/b", with the payload "hi", the id 7 and the quality of service 1.
abbrev wire : List ℕ
wire = 50 ∷ 9 ∷ 0 ∷ 3 ∷ 97 ∷ 47 ∷ 98 ∷ 0 ∷ 7 ∷ 104 ∷ 105 ∷ []

published : (publish 1 (97 ∷ 47 ∷ 98 ∷ []) 7 2 (104 ∷ 105 ∷ []) fresh).send_mbuf ≡ wire
unfolding publish prepend_header encode_len mg_send passed
published = refl

abbrev arrived : Conn
arrived = record fresh { recv_mbuf = wire ++ (192 ∷ []) }

parse_mqtt-publish_example :
    (m : Message) × (parse_mqtt 9 arrived zeroed
      ≡ some (
          message
            (acknowledge 9 m arrived)
            m
            (length (publish 1 (97 ∷ 47 ∷ 98 ∷ []) 7 2 (104 ∷ 105 ∷ []) fresh).send_mbuf)))
    × (text m.topic ≡ 97 ∷ 47 ∷ 98 ∷ [])
    × (text m.payload ≡ 104 ∷ 105 ∷ [])
    × (m.qos ≡ 1)
    × (0 < 1 → m.message_id ≡ 7)
parse_mqtt-publish_example =
    parse_mqtt-publish 9 1 (97 ∷ 47 ∷ 98 ∷ []) 7 2 (104 ∷ 105 ∷ []) (192 ∷ []) fresh arrived zeroed
      (omega arith) (omega arith) (omega arith) (omega arith) refl
      (ap (λ t. t ++ (192 ∷ [])) (sym published))

abbrev two_topics : List TopicExpression
two_topics =
    record { topic = 97 ∷ []; qos = 1 } ∷ record { topic = 98 ∷ 47 ∷ 35 ∷ []; qos = 0 } ∷ []

-- The packet of these topics, with the id 7, and a byte behind it.
abbrev subscribing : Conn
subscribing = record fresh {
  recv_mbuf = 130 ∷ 12 ∷ 0 ∷ 7 ∷ 0 ∷ 1 ∷ 97 ∷ 1 ∷ 0 ∷ 3 ∷ 98 ∷ 47 ∷ 35 ∷ 0 ∷ 9 ∷ [];
}

subscribing_sent : (subscribe 1 two_topics 7 fresh).send_mbuf ++ (9 ∷ []) ≡ subscribing.recv_mbuf
unfolding subscribe send_topics prepend_header encode_len mg_send passed
subscribing_sent = refl

parse_mqtt-subscribe_example :
    (m : Message) × (found : List (MgStr × ℕ)) × (parse_mqtt 9 subscribing zeroed
      ≡ some (message subscribing m (length (subscribe 1 two_topics 7 fresh).send_mbuf)))
    × (m.message_id ≡ 7)
    × (collect_topics 3 m.payload 0 ≡ some found)
    × (map found_topic found ≡ two_topics)
parse_mqtt-subscribe_example =
    parse_mqtt-subscribe 9 1 7 3 two_topics (9 ∷ []) fresh subscribing zeroed (omega arith)
      (omega arith, (omega arith, tt)) (omega arith) (omega arith) refl (sym subscribing_sent)

-- A client "c" of the user "u" with a will.
abbrev opts : HandshakeOpts
opts = record {
  flags = 2;
  keep_alive = 0;
  will_topic = some (b'w' ∷ []);
  will_message = some (b'm' ∷ []);
  user_name = some (b'u' ∷ []);
  password = none;
}

opts-IsHandshake : IsHandshake (b'c' ∷ []) opts
unfolding handshake_len
opts-IsHandshake = record {
  no_user = refl;
  no_password = refl;
  no_will = refl;
  in_one_byte = omega arith;
  keep_alive_word = omega arith;
}

abbrev asked : Conn
asked = record fresh { recv_mbuf = queued_by (send_handshake_opt 1 (b'c' ∷ []) opts fresh) ++ [] }

parse_mqtt-send_handshake_opt_example :
    (after : Conn) × (send_handshake_opt 1 (b'c' ∷ []) opts fresh ≡ some (after, 60))
    × (m : Message) × (parse_mqtt 2 asked zeroed ≡ some (message asked m (length after.send_mbuf)))
    × ReadAs (b'c' ∷ []) opts m
parse_mqtt-send_handshake_opt_example =
    parse_mqtt-send_handshake_opt 2 1 (b'c' ∷ []) opts [] fresh asked opts-IsHandshake refl refl

-- A user's handler that does nothing.
abbrev deaf : MqttEvent → Conn → Conn
deaf ev nc = nc

mqtt_handler-HasEnded_example : HasEnded 3 (mqtt_handler deaf 3 (recv 12) arrived)
mqtt_handler-HasEnded_example = mqtt_handler-HasEnded deaf 3 12 arrived (λ ev nc. refl)
