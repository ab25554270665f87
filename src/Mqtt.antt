-- ===== src/Mqtt.antt =====
-- MQTT packets of src/mongoose.c (mongoose/src/mqtt.c): the packets that the client functions queue
-- on a connection, and `parse_mqtt` on what a connection has received.
--
-- A pointer into received bytes is the list of the bytes from there to the end of what has been
-- received. The result `none` of a parser is a pointer that leaves these bytes, or a shift that
-- `int` has no result for. A `uint8_t` is a number below 256, a C string the list of its
-- characters.
pub mod Send
pub mod Parse
pub mod Length
pub mod Queue
pub mod Publish
pub mod Packets
pub mod Topics
pub mod Subscribe
pub mod Connect
pub mod Handshake
pub mod Connected
pub mod Handler
pub mod Loop
pub mod Taken
pub mod Broker
mod Tests
use evmongoose.Common.{ℕ, zero, suc, ◌+◌, ◌-◌, ◌*◌, ◌/◌, ◌%◌, ◌^◌, List, [], ◌∷◌, ◌++◌, take}

-- `struct mg_str`
pub record MgStr : Type 0 where
  pub p : List ℕ
  pub len : ℕ

abbrev pub text : MgStr → List ℕ
text s = take s.len s.p

-- `struct mg_mqtt_message`
pub record Message : Type 0 where
  pub cmd : ℕ
  pub qos : ℕ
  pub topic : MgStr
  pub payload : MgStr
  pub connack_ret_code : ℕ
  pub message_id : ℕ
  pub protocol_version : ℕ
  pub connect_flags : ℕ
  pub keep_alive_timer : ℕ
  pub protocol_name : MgStr
  pub client_id : MgStr
  pub will_topic : MgStr
  pub will_message : MgStr
  pub user_name : MgStr
  pub password : MgStr

abbrev pub empty_str : MgStr
empty_str = record { p = []; len = 0 }

-- A message after `memset(&mm, 0, sizeof(mm))`.
abbrev pub zeroed : Message
zeroed = record {
  cmd = 0;
  qos = 0;
  topic = empty_str;
  payload = empty_str;
  connack_ret_code = 0;
  message_id = 0;
  protocol_version = 0;
  connect_flags = 0;
  keep_alive_timer = 0;
  protocol_name = empty_str;
  client_id = empty_str;
  will_topic = empty_str;
  will_message = empty_str;
  user_name = empty_str;
  password = empty_str;
}

-- `MG_MQTT_GET_QOS`
abbrev pub get_qos : ℕ → ℕ
get_qos flags = flags / 2 % 4

-- `htons` and the two bytes of the result in memory.
abbrev pub be16 : ℕ → List ℕ
be16 n = n % 2 ^ 16 / 256 ∷ n % 256 ∷ []
