-- ===== src/Mqtt/Send.antt =====
-- The packets of src/mongoose.c (mongoose/src/mqtt.c) that the program queues on a connection.
use evmongoose.Common.{
  ℕ, zero, suc, ◌+◌, ◌-◌, ◌*◌, ◌/◌, ◌%◌, none, some, List, [], ◌∷◌, ◌++◌, bit_or, ltb,
  if◌then◌else◌, length, take, drop,
}
use evmongoose.Net.{Conn, ev_start, mg_send}
use evmongoose.Mqtt.{be16, get_qos}

-- The loop of the variable length encoding, which ten rounds end for any `size_t`.
unfoldable pub encode_len : ℕ → ℕ → List ℕ
encode_len zero len = []
encode_len (suc rounds) len =
    let rest = encode_len rounds (len / 128) in
    if ltb 0 (len / 128) then (len % 128 + 128) ∷ rest else len % 128 ∷ []

-- `mg_mqtt_prepend_header`; every caller has queued `len` bytes.
unfoldable pub prepend_header : ℕ → ℕ → ℕ → ℕ → Conn → Conn
unfolding encode_len
prepend_header now cmd flags len nc =
    let off = length nc.send_mbuf - len in
    let header = bit_or (cmd * 16) (flags % 256) % 256 in
    let queued = record nc {
      send_mbuf = take off nc.send_mbuf ++ ((header ∷ encode_len 10 len) ++ drop off nc.send_mbuf);
      last_io_time = now;
    } in
    elim nc.sock [ none ↦ queued | some s ↦ record queued { watcher_w = ev_start } ]

unfoldable pub publish : ℕ → List ℕ → ℕ → ℕ → List ℕ → Conn → Conn
publish now topic message_id flags body nc =
    let named = mg_send now topic (mg_send now (be16 (length topic)) nc) in
    let numbered = if ltb 0 (get_qos flags) then mg_send now (be16 message_id) named else named in
    let sent = mg_send now body numbered in
    prepend_header now 3 flags (length sent.send_mbuf - length nc.send_mbuf) sent

-- `struct mg_mqtt_topic_expression`
pub record TopicExpression : Type 0 where
  pub topic : List ℕ
  pub qos : ℕ

unfoldable pub send_topics : ℕ → List TopicExpression → Conn → Conn
send_topics now [] nc = nc
send_topics now (t ∷ topics) nc =
    send_topics now topics
      (mg_send now (t.qos ∷ []) (mg_send now t.topic (mg_send now (be16 (length t.topic)) nc)))

unfoldable pub subscribe : ℕ → List TopicExpression → ℕ → Conn → Conn
subscribe now topics message_id nc =
    let sent = send_topics now topics (mg_send now (be16 message_id) nc) in
    prepend_header now 8 2 (length sent.send_mbuf - length nc.send_mbuf) sent

unfoldable pub send_names : ℕ → List (List ℕ) → Conn → Conn
send_names now [] nc = nc
send_names now (t ∷ topics) nc =
    send_names now topics (mg_send now t (mg_send now (be16 (length t)) nc))

unfoldable pub unsubscribe : ℕ → List (List ℕ) → ℕ → Conn → Conn
unsubscribe now topics message_id nc =
    let sent = send_names now topics (mg_send now (be16 message_id) nc) in
    prepend_header now 10 2 (length sent.send_mbuf - length nc.send_mbuf) sent

unfoldable pub connack : ℕ → ℕ → Conn → Conn
connack now return_code nc =
    prepend_header now 2 0 2 (mg_send now (return_code ∷ []) (mg_send now (0 ∷ []) nc))

unfoldable pub short_command : ℕ → ℕ → ℕ → Conn → Conn
short_command now cmd message_id nc = prepend_header now cmd 2 2 (mg_send now (be16 message_id) nc)

unfoldable pub puback : ℕ → ℕ → Conn → Conn
puback now message_id nc = short_command now 4 message_id nc

unfoldable pub pubrec : ℕ → ℕ → Conn → Conn
pubrec now message_id nc = short_command now 5 message_id nc

unfoldable pub pubrel : ℕ → ℕ → Conn → Conn
pubrel now message_id nc = short_command now 6 message_id nc

unfoldable pub pubcomp : ℕ → ℕ → Conn → Conn
pubcomp now message_id nc = short_command now 7 message_id nc

unfoldable pub suback : ℕ → List ℕ → ℕ → Conn → Conn
suback now qoss message_id nc =
    prepend_header now 9 2 (2 + length qoss) (send_each qoss (mg_send now (be16 message_id) nc))
  where
    send_each : List ℕ → Conn → Conn
    send_each [] c = c
    send_each (q ∷ qs) c = send_each qs (mg_send now (q ∷ []) c)

unfoldable pub unsuback : ℕ → ℕ → Conn → Conn
unsuback now message_id nc = short_command now 11 message_id nc

unfoldable pub ping : ℕ → Conn → Conn
ping now nc = prepend_header now 12 0 0 nc

unfoldable pub pong : ℕ → Conn → Conn
pong now nc = prepend_header now 13 0 0 nc

unfoldable pub disconnect : ℕ → Conn → Conn
disconnect now nc = prepend_header now 14 0 0 nc
