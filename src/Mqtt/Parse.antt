-- ===== src/Mqtt/Parse.antt =====
-- `parse_mqtt` of src/mongoose.c (mongoose/src/mqtt.c) and the walk over the topics of SUBSCRIBE.
use mathlib.Core.Option
use evmongoose.Common.{
  ◌>>=◌, ℕ, zero, suc, ◌+◌, ◌-◌, ◌*◌, ◌/◌, ◌%◌, ◌^◌, Bool, true, false, ◌&&◌, ◌||◌, Option, none,
  some, List, [], ◌∷◌, ltb, leb, ◌==◌, if◌then◌else◌, length, drop,
}
use evmongoose.Net.{Conn}
use evmongoose.Mqtt.{MgStr, Message, get_qos}
use evmongoose.Mqtt.Send.{puback, pubrec}

unfoldable pub getu16 : List ℕ → Option ℕ
getu16 (a ∷ b ∷ p) = some (a * 256 + b)
getu16 _ = none

-- The string, and the pointer behind it.
unfoldable pub scanto : List ℕ → Option (MgStr × List ℕ)
scanto (a ∷ b ∷ p) =
    let n = a * 256 + b in
    if leb n (length p) then some (record { p = p; len = n }, drop n p) else none
scanto _ = none

abbrev pub skip : ℕ → List ℕ → Option (List ℕ)
skip n p = if leb n (length p) then some (drop n p) else none

-- The loop of the variable length decoding, from the byte at `1 + i` of `size` bytes on: the
-- length, and the pointer behind it.
unfoldable pub decode_len : ℕ → ℕ → List ℕ → Option (ℕ × List ℕ)
decode_len size i [] = none
decode_len size i (b ∷ p) =
    let digit = b % 128 * 2 ^ (7 * i) in
    let rest = decode_len size (suc i) p in
    if ltb (7 * i) 32 && ltb digit (2 ^ 31)
    then (if leb 128 b && leb (i + 2) size
        then Option.map (λ r. (digit + r.0, r.1)) rest
        else some (digit, p))
    else none

abbrev pub take_byte : List ℕ → Option (ℕ × List ℕ)
take_byte [] = none
take_byte (b ∷ p) = some (b, p)

-- `if (p < end && wanted) p = scanto(p, &field);` with `left` bytes from `end` on.
abbrev pub scan_if : Bool → ℕ → MgStr → List ℕ → Option (MgStr × List ℕ)
scan_if wanted left field p = if ltb left (length p) && wanted then scanto p else some (field, p)

abbrev pub has_bit : ℕ → ℕ → Bool
has_bit bit flags = flags / bit % 2 == 1

unfoldable pub parse_connect : ℕ → List ℕ → Message → Option Message
parse_connect left p mm = do
  (protocol_name, p) ← scanto p
  (version, p) ← take_byte p
  (flags, p) ← take_byte p
  keep_alive ← getu16 p
  (client_id, p) ← scan_if true left mm.client_id (drop 2 p)
  (will_topic, p) ← scan_if (has_bit 4 flags) left mm.will_topic p
  (will_message, p) ← scan_if (has_bit 4 flags) left mm.will_message p
  (user_name, p) ← scan_if (has_bit 128 flags) left mm.user_name p
  (password, p) ← scan_if (has_bit 64 flags) left mm.password p
  some (record mm {
    protocol_name = protocol_name;
    protocol_version = version;
    connect_flags = flags;
    keep_alive_timer = keep_alive;
    client_id = client_id;
    will_topic = will_topic;
    will_message = will_message;
    user_name = user_name;
    password = password;
  })

-- `end - p`, as a `size_t`.
abbrev pub span : ℕ → List ℕ → ℕ
span left p = (2 ^ 64 + length p - left) % 2 ^ 64

unfoldable pub publish_id : List ℕ → Message → Option (Message × List ℕ)
unfolding getu16
publish_id p mm =
    if ltb 0 mm.qos
    then Option.map (λ n. (record mm { message_id = n }, drop 2 p)) (getu16 p)
    else some (mm, p)

unfoldable pub acknowledge : ℕ → Message → Conn → Conn
acknowledge now mm nc =
    if mm.qos == 1
    then puback now mm.message_id nc
    else if mm.qos == 2
    then pubrec now mm.message_id nc
    else nc

unfoldable pub parse_publish : ℕ → ℕ → List ℕ → Message → Conn → Option (Conn × Message)
parse_publish now left p mm nc = do
  (topic, p) ← scanto p
  (numbered, p) ← publish_id p (record mm { topic = topic })
  let done = record numbered { payload = record { p = p; len = span left p } }
  some (acknowledge now done nc, done)

unfoldable pub parse_subscribe : ℕ → List ℕ → Message → Option Message
unfolding getu16
parse_subscribe left p mm = do
  message_id ← getu16 p
  let rest = drop 2 p
  some (record mm { message_id = message_id; payload = record { p = rest; len = span left rest } })

-- The `switch` of `parse_mqtt`.
unfoldable pub parse_body : ℕ → ℕ → List ℕ → Message → Conn → Option (Conn × Message)
parse_body now left p mm nc =
    if mm.cmd == 1
    then Option.map (λ m. (nc, m)) (parse_connect left p mm)
    else if mm.cmd == 2
    then connack_code p
    else if mm.cmd == 4 || mm.cmd == 5 || mm.cmd == 6 || mm.cmd == 7 || mm.cmd == 9
    then Option.map (λ n. (nc, record mm { message_id = n })) (getu16 p)
    else if mm.cmd == 3
    then parse_publish now left p mm nc
    else if mm.cmd == 8
    then Option.map (λ m. (nc, m)) (parse_subscribe left p mm)
    else some (nc, mm)
  where
    connack_code : List ℕ → Option (Conn × Message)
    connack_code (a ∷ b ∷ q) = some (nc, record mm { connack_ret_code = b })
    connack_code _ = none

-- The packet is not complete, or the message with the number of bytes that it took.
pub data Parsed : Type 0 where
  incomplete : Parsed
  message : Conn → Message → ℕ → Parsed

-- `parse_mqtt`, what it queues on the connection included.
unfoldable pub parse_mqtt : ℕ → Conn → Message → Option Parsed
parse_mqtt now nc mm = parse nc.recv_mbuf
  where
    dispatch : Bool → ℕ → List ℕ → Message → Option Parsed
    dispatch true left body m = some incomplete
    dispatch false left body m = do
      (after, done) ← parse_body now left body m nc
      some (message after done (length nc.recv_mbuf - left))

    parse : List ℕ → Option Parsed
    parse (header ∷ b ∷ p) = do
      (len, body) ← decode_len (length nc.recv_mbuf) 0 (b ∷ p)
      let left = length body - len
      dispatch (ltb (length body) len) left body
          (record mm { cmd = header / 16; qos = get_qos header })
    parse _ = some incomplete

-- `mg_mqtt_next_subscribe_topic` on the payload: `some none` is -1.
unfoldable pub next_subscribe_topic : MgStr → ℕ → Option (Option (MgStr × ℕ × ℕ))
next_subscribe_topic payload pos = if leb payload.len pos then some none else do
  at ← skip pos payload.p
  (topic, rest) ← scanto at
  (qos, after) ← take_byte rest
  some (some (topic, qos, pos + 2 + topic.len + 1))

-- The rest of a round, given the later rounds by their position.
abbrev pub with_topic :
    (ℕ → Option (List (MgStr × ℕ))) → Option (MgStr × ℕ × ℕ) → Option (List (MgStr × ℕ))
with_topic later none = some []
with_topic later (some (topic, qos, after)) = Option.map (λ ts. (topic, qos) ∷ ts) (later after)

-- The loop over the topics of a SUBSCRIBE packet, as `mg_mqtt_broker_handle_subscribe` runs it: the
-- topics and their qualities of service, or `none` once the rounds are used up.
unfoldable pub collect_topics : ℕ → MgStr → ℕ → Option (List (MgStr × ℕ))
collect_topics zero payload pos = none
collect_topics (suc rounds) payload pos =
    next_subscribe_topic payload pos >>= with_topic (collect_topics rounds payload)
