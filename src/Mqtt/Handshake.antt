-- ===== src/Mqtt/Handshake.antt =====
-- What the handshake of MQTT queues on a connection.
use evmongoose.Common.{
  arith, ℕ, ◌+◌, ◌%◌, ◌^◌, ◌<◌, ◌≡◌, refl, sym, ap, ◌∙◌, Bool, true, false, ◌&&◌, Option, none,
  some, List, [], ◌∷◌, ◌++◌, ◌==◌, if◌then◌else◌, length, length-append, append_assoc, append-nil,
}
use evmongoose.Net.{Conn, mg_send}
use evmongoose.Net.Queue.{mg_send-append, mg_send_behind}
use evmongoose.Mqtt.{be16}
use evmongoose.Mqtt.Parse.{has_bit}
use evmongoose.Mqtt.Connect.{
  HandshakeOpts, set_bit, is_some, room, has_will, handshake_flags, handshake_len, send_str,
  send_if, version_header, send_handshake_opt,
}

-- A string behind its length, as a packet has it.
abbrev pub str_bytes : List ℕ → List ℕ
str_bytes s = be16 (length s) ++ s

abbrev pub or_nothing : Option (List ℕ) → List ℕ
or_nothing none = []
or_nothing (some s) = s

abbrev pub opt_bytes : Option (List ℕ) → List ℕ
opt_bytes none = []
opt_bytes (some s) = str_bytes s

-- Both strings of a will, or neither.
abbrev pub with_will : Bool → Option (List ℕ) → Option (List ℕ)
with_will true o = o
with_will false o = none

abbrev pub IsShort : Option (List ℕ) → Type 0
IsShort o = room o < 2 ^ 16

pub send_str-append :
    (now : ℕ) (s : List ℕ) (nc : Conn) (front body : List ℕ)
    → length s < 2 ^ 31
    → nc.send_mbuf ≡ front ++ body
    → (send_str now s nc).send_mbuf ≡ front ++ (body ++ str_bytes s)
send_str-append now s nc front body h e =
    mg_send_behind now s (mg_send now (be16 (length s)) nc) front (body ++ be16 (length s)) h
      (mg_send_behind now (be16 (length s)) nc front body (omega arith) e)
    ∙ ap (λ t. front ++ t) (append_assoc body (be16 (length s)) s)

-- A string that its flag says is there.
pub send_if-append :
    (now : ℕ) (o : Option (List ℕ)) (nc : Conn) (front body : List ℕ)
    → room o < 2 ^ 31
    → nc.send_mbuf ≡ front ++ body
    → (after : Conn) × (send_if now (is_some o) o nc ≡ some after)
      × (after.send_mbuf ≡ front ++ (body ++ opt_bytes o))
send_if-append now none nc front body h e =
    (nc, refl, e ∙ ap (λ t. front ++ t) (sym (append-nil body)))
send_if-append now (some s) nc front body h e =
    (send_str now s nc, refl, send_str-append now s nc front body (omega (arith, h)) e)

pub flag_bits :
    (user password will : Bool) (f : ℕ)
    → has_bit 128 f ≡ false
    → has_bit 64 f ≡ false
    → has_bit 4 f ≡ false
    → let named = if user then set_bit 128 f else f in
      let secured = if password then set_bit 64 named else named in
      let all = if will then set_bit 4 secured else secured in
      (has_bit 128 all ≡ user) × (has_bit 64 all ≡ password) × (has_bit 4 all ≡ will)
flag_bits true true true f a b c = ground arith
flag_bits true true false f a b c = ground arith
flag_bits true false true f a b c = ground arith
flag_bits true false false f a b c = ground arith
flag_bits false true true f a b c = ground arith
flag_bits false true false f a b c = ground arith
flag_bits false false true f a b c = ground arith
flag_bits false false false f a b c = ground arith

-- The options of a handshake that come through: the flags of the strings are not set before, and the
-- whole is short enough for one byte of length.
pub record IsHandshake (client_id : List ℕ) (opts : HandshakeOpts) : Type 0 where
  pub no_user : has_bit 128 opts.flags ≡ false
  pub no_password : has_bit 64 opts.flags ≡ false
  pub no_will : has_bit 4 opts.flags ≡ false
  pub in_one_byte : handshake_len client_id opts < 128
  pub keep_alive_word : opts.keep_alive < 2 ^ 16

abbrev pub will_part : HandshakeOpts → Option (List ℕ) → Option (List ℕ)
will_part opts o = with_will (has_will opts) o

abbrev pub keep_alive_of : HandshakeOpts → ℕ
keep_alive_of opts = if opts.keep_alive == 0 then 60 else opts.keep_alive

abbrev pub strings : List ℕ → HandshakeOpts → List ℕ
strings client_id opts =
    str_bytes client_id
    ++ (opt_bytes (will_part opts opts.will_topic)
        ++ (opt_bytes (will_part opts opts.will_message)
            ++ (opt_bytes opts.user_name ++ opt_bytes opts.password)))

abbrev pub connect_body : List ℕ → HandshakeOpts → List ℕ
connect_body client_id opts =
    version_header ++ (handshake_flags opts ∷ (be16 (keep_alive_of opts) ++ strings client_id opts))

pub send_if_will :
    (now : ℕ) (t m : Option (List ℕ)) (nc : Conn)
    → (send_if now (is_some t && is_some m) t nc
        ≡ send_if now
            (is_some (with_will (is_some t && is_some m) t))
            (with_will (is_some t && is_some m) t)
            nc)
      × (send_if now (is_some t && is_some m) m nc
          ≡ send_if now
              (is_some (with_will (is_some t && is_some m) m))
              (with_will (is_some t && is_some m) m)
              nc)
send_if_will now none m nc = (refl, refl)
send_if_will now (some t) none nc = (refl, refl)
send_if_will now (some t) (some m) nc = (refl, refl)

pub bits :
    (client_id : List ℕ) (opts : HandshakeOpts)
    → IsHandshake client_id opts
    → (has_bit 128 (handshake_flags opts) ≡ is_some opts.user_name)
      × (has_bit 64 (handshake_flags opts) ≡ is_some opts.password)
      × (has_bit 4 (handshake_flags opts) ≡ has_will opts)
unfolding handshake_flags
bits client_id opts ok =
    flag_bits (is_some opts.user_name) (is_some opts.password) (has_will opts) opts.flags ok.no_user
      ok.no_password ok.no_will

pub length-opt_bytes : (o : Option (List ℕ)) → length (opt_bytes o) ≡ room o
length-opt_bytes none = refl
length-opt_bytes (some s) = omega arith

pub will_rooms :
    (t m : Option (List ℕ))
    → let w = is_some t && is_some m in
      room (with_will w t) + room (with_will w m) ≡ (if w then room t + room m else 0)
will_rooms none m = refl
will_rooms (some t) none = refl
will_rooms (some t) (some m) = refl

pub length-connect_body :
    (client_id : List ℕ) (opts : HandshakeOpts)
    → length (connect_body client_id opts) ≡ handshake_len client_id opts
unfolding handshake_len
length-connect_body client_id opts =
    let a = opt_bytes (will_part opts opts.will_topic) in
    let b = opt_bytes (will_part opts opts.will_message) in
    let c = opt_bytes opts.user_name in
    let d = opt_bytes opts.password in
    omega (
      arith,
      length-append client_id (a ++ (b ++ (c ++ d))),
      length-append a (b ++ (c ++ d)),
      length-append b (c ++ d),
      length-append c d,
      length-opt_bytes (will_part opts opts.will_topic),
      length-opt_bytes (will_part opts opts.will_message),
      length-opt_bytes opts.user_name,
      length-opt_bytes opts.password,
      will_rooms opts.will_topic opts.will_message,
    )

-- None of the strings is longer than the whole.
rooms_short :
    (client_id : List ℕ) (opts : HandshakeOpts)
    → IsHandshake client_id opts
    → (length client_id < 2 ^ 31)
      × (room (will_part opts opts.will_topic) < 2 ^ 31)
      × (room (will_part opts opts.will_message) < 2 ^ 31)
      × (room opts.user_name < 2 ^ 31)
      × (room opts.password < 2 ^ 31)
unfolding handshake_len
rooms_short client_id opts ok =
    let w = will_rooms opts.will_topic opts.will_message in
    let l = ok.in_one_byte in
    (
      omega (arith, w, l),
      omega (arith, w, l),
      omega (arith, w, l),
      omega (arith, w, l),
      omega (arith, w, l),
    )

-- What the handshake queues behind what was queued before.
pub send_handshake_opt-bytes :
    (now : ℕ) (client_id : List ℕ) (opts : HandshakeOpts) (nc : Conn)
    → IsHandshake client_id opts
    → (after : Conn) × (send_handshake_opt now client_id opts nc ≡ some (after, keep_alive_of opts))
      × (after.send_mbuf
          ≡ nc.send_mbuf ++ (16 ∷ handshake_len client_id opts % 256 ∷ connect_body client_id opts))
unfolding send_handshake_opt
send_handshake_opt-bytes now client_id opts nc ok =
    let flags = handshake_flags opts in
    let rem = handshake_len client_id opts % 256 in
    let (user_bit, password_bit, will_bit) = bits client_id opts ok in
    let front = nc.send_mbuf in
    let one = mg_send now (16 ∷ []) nc in
    let two = mg_send now (rem ∷ []) one in
    let opened = mg_send now version_header two in
    let flagged = mg_send now (flags ∷ []) opened in
    let timed = mg_send now (be16 (keep_alive_of opts)) flagged in
    let named = send_str now client_id timed in
    let header = 16 ∷ rem ∷ (version_header ++ (flags ∷ be16 (keep_alive_of opts))) in
    let timed_queue : timed.send_mbuf ≡ front ++ header =
      mg_send_behind now (be16 (keep_alive_of opts)) flagged front _ (omega arith) (
        mg_send_behind now (flags ∷ []) opened front _ (omega arith) (
          mg_send_behind now version_header two front _ (omega arith) (
            mg_send_behind now (rem ∷ []) one front (16 ∷ []) (omega arith)
              (mg_send-append now (16 ∷ []) nc (omega arith))))) in
    let a = will_part opts opts.will_topic in
    let b = will_part opts opts.will_message in
    let (k, ka, kb, kc, kd) = rooms_short client_id opts ok in
    let named_queue = send_str-append now client_id timed front header k timed_queue in
    let (c, c_sent, c_queue) =
      send_if-append now a named front (header ++ str_bytes client_id) ka named_queue in
    let (d, d_sent, d_queue) = send_if-append now b c front _ kb c_queue in
    let (e, e_sent, e_queue) = send_if-append now opts.user_name d front _ kc d_queue in
    let (f, f_sent, f_queue) = send_if-append now opts.password e front _ kd e_queue in
    let c_is : send_if now (has_bit 4 flags) opts.will_topic named ≡ some c =
      rw will_bit ((send_if_will now opts.will_topic opts.will_message named).0 ∙ c_sent) in
    let d_is : send_if now (has_bit 4 flags) opts.will_message c ≡ some d =
      rw will_bit ((send_if_will now opts.will_topic opts.will_message c).1 ∙ d_sent) in
    let e_is : send_if now (has_bit 128 flags) opts.user_name d ≡ some e = rw user_bit e_sent in
    let f_is : send_if now (has_bit 64 flags) opts.password e ≡ some f = rw password_bit f_sent in
    (
      f,
      rw c_is (rw d_is (rw e_is (rw f_is refl))),
      f_queue
          ∙ ap (λ t. front ++ t)
              (regroup (str_bytes client_id) header (opt_bytes a) (opt_bytes b)
                (opt_bytes opts.user_name) (opt_bytes opts.password)),
    )
  where
    regroup :
        (s h a b c d : List ℕ)
        → ((((h ++ s) ++ a) ++ b) ++ c) ++ d ≡ h ++ (s ++ (a ++ (b ++ (c ++ d))))
    regroup s h a b c d = simp append_assoc
