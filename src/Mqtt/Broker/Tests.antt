-- ===== src/Mqtt/Broker/Tests.antt =====
-- Runs of the broker.
use evmongoose.Common.{ℕ, arith, ◌≡◌, refl, true, false, none, some, List, [], ◌∷◌, ◌++◌}
use evmongoose.Net.Samples.{fresh}
use evmongoose.Mqtt.{MgStr, Message, zeroed}
use evmongoose.Mqtt.Handler.{set_protocol_mqtt}
use evmongoose.Mqtt.Broker.{
  Session, Broker, set_conn, update, starts_with, match_len, has_hash, match_topic_expression,
  printed, handle_connect, handle_publish, close_own, close_session, mqtt_broker,
}
use evmongoose.Mqtt.Broker.Live.{Reach-IsSound}
use evmongoose.Mqtt.Broker.World.{System, IsSound, Step, accepts, connects, here, next}
use evmongoose.Mqtt.Broker.Deliver.{Sends, AreComparable, handle_publish-Sends}

-- "a/b", with the payload "hi" behind it.
abbrev topic : MgStr
topic = record { p = b'a' ∷ b'/' ∷ b'b' ∷ b'h' ∷ b'i' ∷ []; len = 3 }

abbrev a_wild : List ℕ
a_wild = (b'a' ∷ []) ++ (b'/' ∷ b'#' ∷ [])

wild_run : match_topic_expression a_wild topic ≡ some true
unfolding match_topic_expression match_len has_hash starts_with
wild_run = refl

-- "#" alone matches no topic but the empty one and those that begin with it.
hash_run : match_topic_expression (b'#' ∷ []) topic ≡ some false
unfolding match_topic_expression match_len has_hash starts_with
hash_run = refl

-- "a/bhi" is compared with the payload too.
beyond_run : match_topic_expression (b'a' ∷ b'/' ∷ b'b' ∷ b'h' ∷ []) topic ≡ some true
unfolding match_topic_expression match_len has_hash starts_with
beyond_run = refl

-- A subscriber on connection 5, and one on connection 6 that wants something else.
abbrev wants_a : Session
wants_a = record {
  id = 1;
  nc = 5;
  user_data = none;
  subscriptions = record { topic = some a_wild; qos = 0 } ∷ [];
}

abbrev wants_x : Session
wants_x = record {
  id = 2;
  nc = 6;
  user_data = none;
  subscriptions = record { topic = some (b'x' ∷ []); qos = 0 } ∷ [];
}

abbrev serving : Broker
serving = record {
  sessions = wants_a ∷ wants_x ∷ [];
  conns = λ c. fresh;
  has_listener = λ c. true;
  user_data = λ c. none;
}

abbrev published : Message
published = record zeroed {
  cmd = 3;
  topic = topic;
  payload = record { p = b'h' ∷ b'i' ∷ []; len = 2 };
}

first_reads : AreComparable published wants_a
unfolding match_topic_expression match_len has_hash starts_with
first_reads = ((true, (a_wild, refl, refl)), tt)

second_reads : AreComparable published wants_x
unfolding match_topic_expression match_len has_hash starts_with
second_reads = ((false, (b'x' ∷ [], refl, refl)), tt)

handle_publish-Sends_example :
    (b' : Broker) × (handle_publish 9 published serving ≡ some b')
    × ((c : ℕ)
        → (out : List ℕ) × Sends published c (wants_a ∷ wants_x ∷ []) out
          × ((b'.conns c).send_mbuf ≡ (serving.conns c).send_mbuf ++ out))
handle_publish-Sends_example =
    handle_publish-Sends 9 published serving (unfold printed in (omega arith, omega arith))
      (first_reads, (second_reads, tt))

-- Nobody is connected.
abbrev idle : System
idle = record { broker = record serving { sessions = [] }; is_open = λ c. false }

abbrev accepted : System
accepted = record {
  broker =
      set_conn 5 (set_protocol_mqtt fresh)
        (record idle.broker { user_data = update idle.broker.user_data 5 none });
  is_open = update idle.is_open 5 true;
}

abbrev connected : System
connected = record accepted { broker = handle_connect 9 (some 1) 5 accepted.broker }

accepting : Step idle accepted
unfolding mqtt_broker
accepting = accepts idle 9 5 none accepted.broker refl refl refl

connecting : Step accepted connected
unfolding mqtt_broker
connecting = connects accepted 9 5 1 zeroed connected.broker refl refl refl tt refl

idle-IsSound : IsSound idle
idle-IsSound = record { owned = tt; distinct = tt }

Reach-IsSound_example : IsSound connected
Reach-IsSound_example = Reach-IsSound idle-IsSound (next (next here accepting) connecting)

-- A client that sends CONNECT twice leaves a session behind when its connection closes.
session_stays :
    let once = handle_connect 9 (some 1) 5 accepted.broker in
    let twice = handle_connect 9 (some 2) 5 once in
    (close_own (twice.user_data 5) twice).sessions
    ≡ record { id = 1; nc = 5; user_data = none; subscriptions = [] } ∷ []
unfolding handle_connect close_session
session_stays = refl
