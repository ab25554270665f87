-- ===== src/Mqtt/Connected.antt =====
-- A CONNECT packet is read back as it was written.
use evmongoose.Common.{
  arith, ℕ, ◌-◌, ◌%◌, ◌^◌, ◌<◌, ◌≡◌, refl, sym, ap, ◌∙◌, Bool, true, false, ◌&&◌, Option, none,
  some, List, [], ◌∷◌, ◌++◌, ltb, length, length-append, append_assoc, append-nil,
  take-append_exact,
}
use evmongoose.Net.{Conn}
use evmongoose.Mqtt.{MgStr, text, Message, empty_str, zeroed, be16}
use evmongoose.Mqtt.Parse.{
  getu16, scanto, scan_if, has_bit, decode_len, parse_connect, parse_body, message, parse_mqtt,
}
use evmongoose.Mqtt.Length.{decode_last}
use evmongoose.Mqtt.Packets.{scanto-be16, getu16-be16, parse_mqtt_of}
use evmongoose.Mqtt.Connect.{
  HandshakeOpts, is_some, room, handshake_flags, handshake_len, send_handshake_opt,
}
use evmongoose.Mqtt.Handshake.{
  str_bytes, or_nothing, opt_bytes, with_will, IsShort, IsHandshake, will_part, keep_alive_of,
  strings, connect_body, bits, length-opt_bytes, length-connect_body, send_handshake_opt-bytes,
}

no_scan_if : (left : ℕ) (p : List ℕ) → scan_if false left empty_str p ≡ some (empty_str, p)
no_scan_if left p = ground arith

-- The string is read back where it was sent, and is left alone where not.
scan_if-opt_bytes :
    (o : Option (List ℕ)) (more rest : List ℕ)
    → IsShort o
    → (f : MgStr) × (scan_if (is_some o) (length rest) empty_str (opt_bytes o ++ (more ++ rest))
        ≡ some (f, more ++ rest))
      × (text f ≡ or_nothing o)
scan_if-opt_bytes none more rest h = (empty_str, no_scan_if (length rest) (more ++ rest), refl)
scan_if-opt_bytes (some s) more rest h =
    let long : ltb (length rest) (length (str_bytes s ++ (more ++ rest))) ≡ true =
      ground (arith, length-append s (more ++ rest), length-append more rest) in
    (
      record { p = s ++ (more ++ rest); len = length s },
      rw long (scanto-be16 s (more ++ rest) (omega arith)),
      take-append_exact (length s) s (more ++ rest) refl,
    )

-- The same, in front of the strings that follow.
scan_if_behind :
    (wanted : Bool) (o : Option (List ℕ)) (more rest : List ℕ)
    → wanted ≡ is_some o
    → IsShort o
    → (f : MgStr) × (scan_if wanted (length rest) empty_str ((opt_bytes o ++ more) ++ rest)
        ≡ some (f, more ++ rest))
      × (text f ≡ or_nothing o)
scan_if_behind wanted o more rest e h =
    let (f, scanned, same) = scan_if-opt_bytes o more rest h in
    (
      f,
      ap (λ w. scan_if w (length rest) empty_str ((opt_bytes o ++ more) ++ rest)) e
          ∙ ap (scan_if (is_some o) (length rest) empty_str) (append_assoc (opt_bytes o) more rest)
          ∙ scanned,
      same,
    )

is_some-with_will :
    (t m : Option (List ℕ))
    → let w = is_some t && is_some m in
      (w ≡ is_some (with_will w t)) × (w ≡ is_some (with_will w m))
is_some-with_will none m = (refl, refl)
is_some-with_will (some t) none = (refl, refl)
is_some-with_will (some t) (some m) = (refl, refl)

-- What a message has of a handshake.
pub record ReadAs (client_id : List ℕ) (opts : HandshakeOpts) (m : Message) : Type 0 where
  pub cmd : m.cmd ≡ 1
  pub protocol_name : text m.protocol_name ≡ 77 ∷ 81 ∷ 73 ∷ 115 ∷ 100 ∷ 112 ∷ []
  pub protocol_version : m.protocol_version ≡ 3
  pub connect_flags : m.connect_flags ≡ handshake_flags opts
  pub keep_alive : m.keep_alive_timer ≡ keep_alive_of opts
  pub client : text m.client_id ≡ client_id
  pub will_topic : text m.will_topic ≡ or_nothing (will_part opts opts.will_topic)
  pub will_message : text m.will_message ≡ or_nothing (will_part opts opts.will_message)
  pub user_name : text m.user_name ≡ or_nothing opts.user_name
  pub password : text m.password ≡ or_nothing opts.password

abbrev connect_message : Message
connect_message = record zeroed { cmd = 1; qos = 0 }

abbrev protocol : List ℕ
protocol = 77 ∷ 81 ∷ 73 ∷ 115 ∷ 100 ∷ 112 ∷ []

parse_connect-connect_body :
    (client_id : List ℕ) (opts : HandshakeOpts) (rest : List ℕ)
    → IsHandshake client_id opts
    → (m : Message) × (parse_connect
          (length rest)
          (connect_body client_id opts ++ rest)
          connect_message
        ≡ some m)
      × ReadAs client_id opts m
unfolding parse_connect
parse_connect-connect_body client_id opts rest ok =
    let flags = handshake_flags opts in
    let (user_bit, password_bit, will_bit) = bits client_id opts ok in
    let (topic_part, message_part) = is_some-with_will opts.will_topic opts.will_message in
    let a = will_part opts opts.will_topic in
    let b = will_part opts opts.will_message in
    let c = opts.user_name in
    let d = opts.password in
    let total = length-connect_body client_id opts in
    let after_c = opt_bytes d in
    let after_b = opt_bytes c ++ after_c in
    let after_a = opt_bytes b ++ after_b in
    let after_id = opt_bytes a ++ after_a in
    let behind = flags ∷ (be16 (keep_alive_of opts) ++ strings client_id opts) in
    let short : (room (some client_id) < 2 ^ 16)
        × (room a < 2 ^ 16)
        × (room b < 2 ^ 16)
        × (room c < 2 ^ 16)
        × (room d < 2 ^ 16) =
      omega (
        arith,
        total,
        ok.in_one_byte,
        length-append client_id after_id,
        length-append (opt_bytes a) after_a,
        length-append (opt_bytes b) after_b,
        length-append (opt_bytes c) after_c,
        length-opt_bytes a,
        length-opt_bytes b,
        length-opt_bytes c,
        length-opt_bytes d,
      ) in
    let (id, id_read, id_text) = scan_if_behind true (some client_id) after_id rest refl short.0 in
    let (topic, topic_read, topic_text) =
      scan_if_behind (has_bit 4 flags) a after_a rest (will_bit ∙ topic_part) short.1 in
    let (msg, msg_read, msg_text) =
      scan_if_behind (has_bit 4 flags) b after_b rest (will_bit ∙ message_part) short.2 in
    let (user, user_read, user_text) =
      scan_if_behind (has_bit 128 flags) c after_c rest user_bit short.3 in
    let (pass, pass_read, pass_text) =
      scan_if_behind (has_bit 64 flags) d [] rest password_bit short.4 in
    let pass_end : scan_if (has_bit 64 flags) (length rest) empty_str (after_c ++ rest)
        ≡ some (pass, rest) =
      ap (λ t. scan_if (has_bit 64 flags) (length rest) empty_str (t ++ rest))
        (sym (append-nil after_c))
      ∙ pass_read in
    let name_read : scanto (connect_body client_id opts ++ rest)
        ≡ some (record { p = protocol ++ (3 ∷ (behind ++ rest)); len = 6 }, 3 ∷ (behind ++ rest)) =
      scanto-be16 protocol (3 ∷ (behind ++ rest)) (omega arith) in
    let timer_read : getu16 (be16 (keep_alive_of opts) ++ (strings client_id opts ++ rest))
        ≡ some (keep_alive_of opts) =
      getu16-be16 (keep_alive_of opts) (strings client_id opts ++ rest)
        (ground (arith, ok.keep_alive_word)) in
    (
      record connect_message {
        protocol_name = record { p = protocol ++ (3 ∷ (behind ++ rest)); len = 6 };
        protocol_version = 3;
        connect_flags = flags;
        keep_alive_timer = keep_alive_of opts;
        client_id = id;
        will_topic = topic;
        will_message = msg;
        user_name = user;
        password = pass;
      },
      rw name_read (
          rw timer_read
            (rw id_read (rw topic_read (rw msg_read (rw user_read (rw pass_end refl)))))),
      record {
        cmd = refl;
        protocol_name = refl;
        protocol_version = refl;
        connect_flags = refl;
        keep_alive = refl;
        client = id_text;
        will_topic = topic_text;
        will_message = msg_text;
        user_name = user_text;
        password = pass_text;
      },
    )

decode_short : (size b : ℕ) (p : List ℕ) → b < 128 → decode_len size 0 (b ∷ p) ≡ some (b, p)
decode_short size b p h =
    decode_last size 0 b p h (omega arith) (omega (arith, h)) ∙ ap (λ n. some (n, p)) (omega arith)

parse_body_connect :
    (now left : ℕ) (p : List ℕ) (nc : Conn) (m : Message)
    → parse_connect left p connect_message ≡ some m
    → parse_body now left p connect_message nc ≡ some (nc, m)
unfolding parse_body
parse_body_connect now left p nc m e = rw e refl

-- What a handshake has queued.
abbrev pub queued_by : Option (Conn × ℕ) → List ℕ
queued_by none = []
queued_by (some (nc, keep_alive)) = nc.send_mbuf

-- A CONNECT packet that a client queues on an empty connection and that arrives, whatever follows it,
-- is read whole: the protocol, the flags, the keep alive time, the client's id, and the will, the
-- user's name and the password, where the options have them. The flags of these are not set before, and
-- the packet's length, without its first two bytes, is below 128; the keep alive time is below 2 ^ 16.
pub parse_mqtt-send_handshake_opt :
    (now sent_at : ℕ) (client_id : List ℕ) (opts : HandshakeOpts) (rest : List ℕ)
    (sender receiver : Conn)
    → IsHandshake client_id opts
    → sender.send_mbuf ≡ []
    → receiver.recv_mbuf ≡ queued_by (send_handshake_opt sent_at client_id opts sender) ++ rest
    → (after : Conn) × (send_handshake_opt sent_at client_id opts sender
        ≡ some (after, keep_alive_of opts))
      × (m : Message) × (parse_mqtt now receiver zeroed
          ≡ some (message receiver m (length after.send_mbuf)))
      × ReadAs client_id opts m
parse_mqtt-send_handshake_opt now sent_at client_id opts rest sender receiver ok empty got =
    let (after, sent, queue) = send_handshake_opt-bytes sent_at client_id opts sender ok in
    let (m, connected, read) = parse_connect-connect_body client_id opts rest ok in
    let body = connect_body client_id opts in
    let rem = handshake_len client_id opts % 256 in
    let whole : after.send_mbuf ≡ 16 ∷ rem ∷ body =
      queue ∙ ap (λ t. t ++ (16 ∷ rem ∷ body)) empty in
    let arrived : receiver.recv_mbuf ≡ 16 ∷ rem ∷ (body ++ rest) =
      got ∙ ap (λ o. queued_by o ++ rest) sent ∙ ap (λ t. t ++ rest) whole in
    let counted : rem ≡ length body =
      omega (arith, ok.in_one_byte, length-connect_body client_id opts) in
    let left : length (body ++ rest) - rem ≡ length rest =
      omega (arith, counted, length-append body rest) in
    let decoded : decode_len (length receiver.recv_mbuf) 0 (rem ∷ (body ++ rest))
        ≡ some (rem, body ++ rest) =
      decode_short (length receiver.recv_mbuf) rem (body ++ rest) (omega (arith, ok.in_one_byte)) in
    let dispatched : parse_body now (length (body ++ rest) - rem) (body ++ rest) connect_message
          receiver
        ≡ some (receiver, m) =
      ap (λ n. parse_body now n (body ++ rest) connect_message receiver) left
      ∙ parse_body_connect now (length rest) (body ++ rest) receiver m connected in
    let taken : length receiver.recv_mbuf - (length (body ++ rest) - rem) ≡ length after.send_mbuf =
      omega (arith, left, ap length arrived, ap length whole, length-append body rest) in
    (
      after,
      sent,
      m,
      parse_mqtt_of now receiver receiver zeroed m 16 rem (body ++ rest) rem (body ++ rest) arrived
            decoded (omega (arith, counted, length-append body rest)) dispatched
          ∙ ap (λ n. some (message receiver m n)) taken,
      read,
    )
