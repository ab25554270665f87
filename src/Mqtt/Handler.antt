-- ===== src/Mqtt/Handler.antt =====
-- `mqtt_handler` and `mg_set_protocol_mqtt` of src/mongoose.c.
use evmongoose.Common.{ℕ, zero, suc, ◌+◌, true, none, some, ltb, leb, if◌then◌else◌, length}
use evmongoose.Net.{Conn, Event, recv, poll, remove_front}
use evmongoose.Mqtt.{Message, zeroed}
use evmongoose.Mqtt.Send.{ping}
use evmongoose.Mqtt.Parse.{incomplete, message, parse_mqtt}

-- What the user's handler is called with: an event of the net core, or `MG_MQTT_EVENT_BASE` and the
-- command of a message, with the message.
pub data MqttEvent : Type 0 where
  core : Event → MqttEvent
  packet : ℕ → Message → MqttEvent

-- What the handler comes to: the connection, a read outside of the input, or no more rounds.
pub data Handled : Type 0 where
  handled : Conn → Handled
  outside unfinished : Handled

-- The lines for a message, which has been parsed from so many bytes.
unfoldable pub deliver : (MqttEvent → Conn → Conn) → Message → ℕ → Conn → Conn
deliver tell mm len nc =
    let told = tell (packet (200 + mm.cmd) mm) nc in
    record told { recv_mbuf = remove_front len told.recv_mbuf }

-- The case MG_EV_RECV, whose rounds begin at `TRY`, in so many rounds at most.
unfoldable pub recv_loop : (MqttEvent → Conn → Conn) → ℕ → ℕ → ℕ → Conn → Handled
unfolding deliver
recv_loop tell now zero n nc = unfinished
recv_loop tell now (suc rounds) n nc =
    let told = tell (core (recv n)) nc in
    elim (parse_mqtt now told zeroed) [
      | none ↦ outside
      | some incomplete ↦ handled told
      | some (message after mm len) ↦
          let left = deliver tell mm len after in
          let later = recv_loop tell now rounds n left in
          if leb 2 (length left.recv_mbuf) then later else handled left
    ]

-- The case MG_EV_POLL, behind the call of the user's handler.
unfoldable pub keep_alive_ping : ℕ → Conn → Conn
keep_alive_ping now nc =
    if ltb (nc.last_ping_time + 5) now then ping now (record nc { last_ping_time = now }) else nc

unfoldable pub mqtt_handler : (MqttEvent → Conn → Conn) → ℕ → Event → Conn → Handled
unfolding recv_loop keep_alive_ping
mqtt_handler tell now (recv n) nc = recv_loop tell now (suc (length nc.recv_mbuf)) n nc
mqtt_handler tell now (poll t) nc = handled (keep_alive_ping now (tell (core (poll t)) nc))
mqtt_handler tell now ev nc = handled (tell (core ev) nc)

unfoldable pub set_protocol_mqtt : Conn → Conn
set_protocol_mqtt nc = record nc { has_proto_handler = true }
