-- ===== src/Mqtt/Broker/World.antt =====
-- The broker among its clients: the steps that they can make.
use evmongoose.Common.{ℕ, ◌≡◌, ◌≢◌, Bool, true, false, Option, none, some, All}
use evmongoose.Net.{accept, close}
use evmongoose.Mqtt.{Message}
use evmongoose.Mqtt.Handler.{core, packet}
use evmongoose.Mqtt.Broker.{Session, Broker, update, mqtt_broker}
use evmongoose.Mqtt.Broker.Sessions.{IsNew, Distinct}

-- The broker with the connections that are open.
pub record System : Type 0 where
  pub broker : Broker
  pub is_open : ℕ → Bool

-- A session belongs to an open connection of the listener, which has it as its `user_data`.
abbrev pub IsOwned : System → Session → Type 0
IsOwned w s =
    (w.is_open s.nc ≡ true)
    × (w.broker.has_listener s.nc ≡ true)
    × (w.broker.user_data s.nc ≡ some s.id)

pub record IsSound (w : System) : Type 0 where
  pub owned : All (IsOwned w) w.broker.sessions
  pub distinct : Distinct w.broker.sessions

-- An event of a client's connection. One that is accepted is not among the open ones; `calloc` gives a
-- new session, and a client sends CONNECT while it has none. The broker handles the event without
-- leaving its memory: a SUBSCRIBE that has no session, has more than 512 topics or comes to a session
-- with topics is no step.
pub data Step : System → System → Type 0 where
  accepts :
      (w : System) (now c : ℕ) (memory : Option ℕ) (b : Broker)
      → w.is_open c ≡ false
      → w.broker.has_listener c ≡ true
      → mqtt_broker now memory c (core accept) w.broker ≡ some b
      → Step w (record { broker = b; is_open = update w.is_open c true })
  connects :
      (w : System) (now c s : ℕ) (msg : Message) (b : Broker)
      → w.is_open c ≡ true
      → w.broker.has_listener c ≡ true
      → w.broker.user_data c ≡ none
      → IsNew s w.broker.sessions
      → mqtt_broker now (some s) c (packet 201 msg) w.broker ≡ some b
      → Step w (record w { broker = b })
  connects_without_memory :
      (w : System) (now c : ℕ) (msg : Message) (b : Broker)
      → mqtt_broker now none c (packet 201 msg) w.broker ≡ some b
      → Step w (record w { broker = b })
  sends :
      (w : System) (now c n : ℕ) (memory : Option ℕ) (msg : Message) (b : Broker)
      → n ≢ 201
      → mqtt_broker now memory c (packet n msg) w.broker ≡ some b
      → Step w (record w { broker = b })
  closes :
      (w : System) (now c : ℕ) (memory : Option ℕ) (b : Broker)
      → w.broker.has_listener c ≡ true
      → mqtt_broker now memory c (core close) w.broker ≡ some b
      → Step w (record { broker = b; is_open = update w.is_open c false })

pub data Reach (start : System) : System → Type 0 where
  here : Reach start start
  next : {v w : System} → Reach start v → Step v w → Reach start w
