-- ===== src/Mqtt/Broker.antt =====
-- The broker of src/mongoose.c (mongoose/src/mqtt_server.c).
--
-- Connections and sessions are known by numbers, which stand for their addresses. What the allocator
-- answers is an argument. A C string in a block of memory is what stands before its NUL, and `none` if
-- the block has none.
pub mod Sessions
pub mod Live
pub mod Kept
pub mod World
pub mod Deliver
pub mod Match
mod Tests
use mathlib.Core.List.{map}
use evmongoose.Common.{
  ℕ, zero, suc, ◌+◌, ◌-◌, ◌^◌, ◌%◌, Bool, true, false, ◌&&◌, ◌||◌, Option, none, some, List, [],
  ◌∷◌, ◌++◌, ltb, ◌==◌, if◌then◌else◌, length, take,
}
use evmongoose.Net.{Conn, Event, accept, close}
use evmongoose.Mqtt.{MgStr, text, Message}
use evmongoose.Mqtt.Send.{connack, suback, publish}
use evmongoose.Mqtt.Parse.{collect_topics}
use evmongoose.Mqtt.Handler.{MqttEvent, core, packet, set_protocol_mqtt}

-- `struct mg_mqtt_topic_expression`, with its topic as the C string in its block.
pub record Subscription : Type 0 where
  pub topic : Option (List ℕ)
  pub qos : ℕ

-- `struct mg_mqtt_session` at an address.
pub record Session : Type 0 where
  pub id : ℕ
  pub nc : ℕ
  pub user_data : Option ℕ
  pub subscriptions : List Subscription

-- The broker's sessions, and of each connection the record, whether a listener made it, and
-- `user_data`, which is a session or NULL.
pub record Broker : Type 0 where
  pub sessions : List Session
  pub conns : ℕ → Conn
  pub has_listener : ℕ → Bool
  pub user_data : ℕ → Option ℕ

abbrev pub update {ℓ} : {A : Type ℓ} → (ℕ → A) → ℕ → A → ℕ → A
update f k v n = if n == k then v else f n

abbrev pub set_conn : ℕ → Conn → Broker → Broker
set_conn c nc b = record b { conns = update b.conns c nc }

-- `mg_mqtt_session_init`, after `calloc`, and the line behind it.
abbrev pub session_init : ℕ → ℕ → Option ℕ → Session
session_init id nc user_data = record {
  id = id;
  nc = nc;
  user_data = user_data;
  subscriptions = [];
}

-- `mg_mqtt_broker_handle_connect`, with what `calloc` gives.
unfoldable pub handle_connect : ℕ → Option ℕ → ℕ → Broker → Broker
handle_connect now none c b = set_conn c (connack now 3 (b.conns c)) b
handle_connect now (some s) c b = set_conn c (connack now 0 (b.conns c)) (record b {
  sessions = session_init s c (b.user_data c) ∷ b.sessions;
  user_data = update b.user_data c (some s);
})

-- The C string at the front of a block.
unfoldable pub c_string : List ℕ → Option (List ℕ)
c_string [] = none
c_string (x ∷ s) =
    let more = c_string s in
    if x == 0 then some [] else elim more [ none ↦ none | some t ↦ some (x ∷ t) ]

-- `strncpy(te->topic, topic.p, topic.len + 1)` into a block of as many bytes.
abbrev pub stored : MgStr × ℕ → Subscription
stored t = record { topic = c_string (take (t.0.len + 1) t.0.p); qos = t.1 }

-- A session found by its address, and put back.
unfoldable pub find_session : ℕ → List Session → Option Session
find_session s [] = none
find_session s (x ∷ sessions) = if x.id == s then some x else find_session s sessions

unfoldable pub put_session : Session → List Session → List Session
put_session s [] = []
put_session s (x ∷ sessions) = if x.id == s.id then s ∷ sessions else x ∷ put_session s sessions

-- `mg_mqtt_broker_handle_subscribe`, while there is memory; `none` where it reads or writes outside of
-- what it has (with no session, or more than 512 topics), and where the session has topics of an
-- earlier packet, for which `realloc` leaves no room.
unfoldable pub handle_subscribe : ℕ → ℕ → Message → Broker → Option Broker
unfolding find_session
handle_subscribe now c msg b = elim (b.user_data c) [
  | none ↦ none
  | some s ↦ elim (find_session s b.sessions) [
    | none ↦ none
    | some ss ↦ elim (collect_topics (suc msg.payload.len) msg.payload 0) [
      | none ↦ none
      | some topics ↦
          let grown = record ss { subscriptions = ss.subscriptions ++ map stored topics } in
          let answered =
            suback now (map (λ (t : MgStr × ℕ). t.1) topics) msg.message_id (b.conns c) in
          if ltb 512 (length topics) || ltb 0 (length ss.subscriptions)
          then none
          else some (set_conn c answered (record b { sessions = put_session grown b.sessions }))
    ]
  ]
]

-- `strncmp(p, exp, n) == 0`, for the bytes from `p` on; `none` where these end first.
unfoldable pub starts_with : ℕ → List ℕ → List ℕ → Option Bool
starts_with zero p exp = some true
starts_with (suc n) [] exp = none
starts_with (suc n) (c ∷ p) [] = some (c == 0)
starts_with (suc n) (c ∷ p) (e ∷ exp) =
    let later = starts_with n p exp in if c == e then later else some false

unfoldable pub has_hash : List ℕ → Bool
has_hash [] = false
has_hash (e ∷ exp) = e == b'#' || has_hash exp

-- `len` of `mg_mqtt_match_topic_expression`.
unfoldable pub match_len : List ℕ → ℕ → ℕ
match_len exp topic_len =
    let len = (length exp + 2 ^ 64 - 2) % 2 ^ 64 in
    if has_hash exp then (if ltb topic_len len then topic_len else len) else length exp

unfoldable pub match_topic_expression : List ℕ → MgStr → Option Bool
match_topic_expression exp topic = starts_with (match_len exp topic.len) topic.p exp

-- The loop over the subscriptions of a session: whether one matches; `none` where one has no NUL or the
-- comparison leaves the topic's memory.
unfoldable pub any_match : List Subscription → MgStr → Option Bool
any_match [] topic = some false
any_match (s ∷ subscriptions) topic =
    let later = any_match subscriptions topic in
    elim s.topic [
      | none ↦ none
      | some exp ↦ elim (match_topic_expression exp topic) [
        | none ↦ none
        | some true ↦ some true
        | some false ↦ later
      ]
    ]

-- What "%.*s" prints of a string.
unfoldable pub printed : List ℕ → List ℕ
printed [] = []
printed (x ∷ s) = let more = printed s in if x == 0 then [] else x ∷ more

-- `mg_mqtt_broker_handle_publish` on these sessions, while there is memory.
unfoldable pub publish_to : ℕ → Message → List Session → Broker → Option Broker
publish_to now msg [] b = some b
publish_to now msg (s ∷ sessions) b =
    let sent = publish now (printed (text msg.topic)) 0 0 (text msg.payload) (b.conns s.nc) in
    elim (any_match s.subscriptions msg.topic) [
      | none ↦ none
      | some matches ↦ publish_to now msg sessions (if matches then set_conn s.nc sent b else b)
    ]

unfoldable pub handle_publish : ℕ → Message → Broker → Option Broker
unfolding publish_to
handle_publish now msg b = publish_to now msg b.sessions b

-- `mg_mqtt_close_session`
unfoldable pub close_session : ℕ → List Session → List Session
close_session s [] = []
close_session s (x ∷ sessions) = if x.id == s then sessions else x ∷ close_session s sessions

abbrev pub close_own : Option ℕ → Broker → Broker
close_own none b = b
close_own (some s) b = record b { sessions = close_session s b.sessions }

-- `mg_mqtt_broker` on an event of the connection `c`, with what `calloc` would give; the number of a
-- message's event is `MG_MQTT_EVENT_BASE` and its command.
unfoldable pub mqtt_broker : ℕ → Option ℕ → ℕ → MqttEvent → Broker → Option Broker
unfolding handle_connect handle_subscribe handle_publish close_session
mqtt_broker now memory c (core accept) b = some (
    set_conn c (set_protocol_mqtt (b.conns c)) (record b { user_data = update b.user_data c none }))
mqtt_broker now memory c (core close) b =
    some (if b.has_listener c then close_own (b.user_data c) b else b)
mqtt_broker now memory c (core ev) b = some b
mqtt_broker now memory c (packet n msg) b =
    if n == 201
    then some (handle_connect now memory c b)
    else if n == 208
    then handle_subscribe now c msg b
    else if n == 203
    then handle_publish now msg b
    else some b

-- `mg_mqtt_broker_init`
abbrev pub broker_init : Broker → Broker
broker_init b = record b { sessions = [] }
