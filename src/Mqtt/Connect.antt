-- ===== src/Mqtt/Connect.antt =====
-- `mg_send_mqtt_handshake_opt` and `mg_send_mqtt_handshake` of src/mongoose.c.
use evmongoose.Common.{
  ℕ, ◌+◌, ◌%◌, ◌==◌, Bool, true, false, ◌&&◌, Option, none, some, List, [], ◌∷◌, if◌then◌else◌,
  length,
}
use evmongoose.Net.{Conn, mg_send}
use evmongoose.Mqtt.{be16}
use evmongoose.Common.{◌>>=◌}
use evmongoose.Mqtt.Parse.{has_bit}

-- `struct mg_send_mqtt_handshake_opts`; `none` is NULL.
pub record HandshakeOpts : Type 0 where
  pub flags : ℕ
  pub keep_alive : ℕ
  pub will_topic : Option (List ℕ)
  pub will_message : Option (List ℕ)
  pub user_name : Option (List ℕ)
  pub password : Option (List ℕ)

-- `flags |= bit`
abbrev pub set_bit : ℕ → ℕ → ℕ
set_bit bit flags = if has_bit bit flags then flags else flags + bit

abbrev pub is_some : Option (List ℕ) → Bool
is_some none = false
is_some (some s) = true

-- What an option adds to the length: the two bytes before it are counted too.
abbrev pub room : Option (List ℕ) → ℕ
room none = 0
room (some s) = length s + 2

abbrev pub has_will : HandshakeOpts → Bool
has_will opts = is_some opts.will_topic && is_some opts.will_message

-- `opts.flags`, and the number of bytes that `rem_len` counts in a `uint8_t`.
unfoldable pub handshake_flags : HandshakeOpts → ℕ
handshake_flags opts =
    let named = if is_some opts.user_name then set_bit 128 opts.flags else opts.flags in
    let secured = if is_some opts.password then set_bit 64 named else named in
    if has_will opts then set_bit 4 secured else secured

unfoldable pub handshake_len : List ℕ → HandshakeOpts → ℕ
handshake_len client_id opts =
    14
    + length client_id
    + room opts.user_name
    + room opts.password
    + (if has_will opts then room opts.will_topic + room opts.will_message else 0)

abbrev pub send_str : ℕ → List ℕ → Conn → Conn
send_str now s nc = mg_send now s (mg_send now (be16 (length s)) nc)

-- A string that is sent if its flag is set; `none` if that is NULL then.
abbrev pub send_if : ℕ → Bool → Option (List ℕ) → Conn → Option Conn
send_if now false s nc = some nc
send_if now true none nc = none
send_if now true (some s) nc = some (send_str now s nc)

-- "\00\06MQIsdp\03"
abbrev pub version_header : List ℕ
version_header = 0 ∷ 6 ∷ 77 ∷ 81 ∷ 73 ∷ 115 ∷ 100 ∷ 112 ∷ 3 ∷ []

-- The connection, and what `pd->keep_alive` becomes.
unfoldable pub send_handshake_opt : ℕ → List ℕ → HandshakeOpts → Conn → Option (Conn × ℕ)
send_handshake_opt now client_id opts nc = do
  let flags = handshake_flags opts
  let rem_len = handshake_len client_id opts % 256
  let keep_alive = if opts.keep_alive == 0 then 60 else opts.keep_alive
  let opened = mg_send now version_header (mg_send now (rem_len ∷ []) (mg_send now (16 ∷ []) nc))
  let timed = mg_send now (be16 keep_alive) (mg_send now (flags ∷ []) opened)
  let named = send_str now client_id timed
  topic_sent ← send_if now (has_bit 4 flags) opts.will_topic named
  will_sent ← send_if now (has_bit 4 flags) opts.will_message topic_sent
  user_sent ← send_if now (has_bit 128 flags) opts.user_name will_sent
  all_sent ← send_if now (has_bit 64 flags) opts.password user_sent
  some (all_sent, keep_alive)

-- `static struct mg_send_mqtt_handshake_opts opts;`
abbrev pub no_opts : HandshakeOpts
no_opts = record {
  flags = 0;
  keep_alive = 0;
  will_topic = none;
  will_message = none;
  user_name = none;
  password = none;
}

unfoldable pub send_handshake : ℕ → List ℕ → Conn → Option (Conn × ℕ)
unfolding send_handshake_opt
send_handshake now client_id nc = send_handshake_opt now client_id no_opts nc
