-- ===== src/Mqtt/Packets.antt =====
-- The fields and the length of a packet, on the way out and back.
use mathlib.Core.Option
use evmongoose.Common.{
  arith, ℕ, suc, ◌+◌, ◌-◌, ◌*◌, ◌/◌, ◌%◌, ◌^◌, ◌≤◌, ◌<◌, ◌≡◌, refl, ap, ◌∙◌, some, List, [], ◌∷◌,
  ◌++◌, ltb, if◌then◌else◌, length, length-append, true, false, Bool, bit_or, drop,
  drop-append_exact, append_assoc, sym,
}
use evmongoose.Common.Bits.{bit_or_nibbles}
use evmongoose.Net.{Conn}
use evmongoose.Mqtt.{Message, be16, get_qos}
use evmongoose.Mqtt.Send.{encode_len}
use evmongoose.Mqtt.Queue.{packet}
use evmongoose.Mqtt.Length.{decode_len-encode_len}
use evmongoose.Mqtt.Parse.{
  getu16, scanto, span, publish_id, acknowledge, parse_publish, parse_body, decode_len, message,
  parse_mqtt,
}

pub scanto-be16 :
    (s rest : List ℕ)
    → length s < 2 ^ 16
    → scanto (be16 (length s) ++ (s ++ rest))
      ≡ some (record { p = s ++ rest; len = length s }, rest)
unfolding scanto
scanto-be16 s rest h =
    let e : length s % 2 ^ 16 / 256 * 256 + length s % 256 ≡ length s = omega arith in
    ground (arith, e, length-append s rest, drop-append_exact (length s) s rest)

pub getu16-be16 : (n : ℕ) (rest : List ℕ) → n < 2 ^ 16 → getu16 (be16 n ++ rest) ≡ some n
unfolding getu16
getu16-be16 n rest h = let e : n % 2 ^ 16 / 256 * 256 + n % 256 ≡ n = omega arith in ap some e

abbrev pub ids_of : ℕ → ℕ → List ℕ
ids_of message_id qos = if ltb 0 qos then be16 message_id else []

-- What the receiver makes of the packet.
abbrev pub seen : Message → List ℕ → ℕ → List ℕ → List ℕ → Message
seen mm topic message_id body rest = record mm {
  topic = record { p = topic ++ (ids_of message_id mm.qos ++ (body ++ rest)); len = length topic };
  message_id = if ltb 0 mm.qos then message_id else mm.message_id;
  payload = record { p = body ++ rest; len = length body };
}

publish_id_lem :
    (mm : Message) (message_id : ℕ) (s : List ℕ)
    → message_id < 2 ^ 16
    → publish_id (ids_of message_id mm.qos ++ s) mm
      ≡ some (record mm { message_id = if ltb 0 mm.qos then message_id else mm.message_id }, s)
unfolding publish_id
publish_id_lem mm message_id s h = by_test (ltb 0 mm.qos)
  where
    by_test :
        (b : Bool)
        → (if b
            then Option.map {B = Message × List ℕ}
                (λ n.
                  (record mm { message_id = n }, drop 2 ((if b then be16 message_id else []) ++ s)))
                (getu16 ((if b then be16 message_id else []) ++ s))
            else some (mm, (if b then be16 message_id else []) ++ s))
          ≡ some (record mm { message_id = if b then message_id else mm.message_id }, s)
    by_test true =
        ap (Option.map {B = Message × List ℕ} (λ n. (record mm { message_id = n }, s)))
          (getu16-be16 message_id s h)
    by_test false = refl

pub span_lem :
    (body rest : List ℕ) → length body < 2 ^ 64 → span (length rest) (body ++ rest) ≡ length body
span_lem body rest h = omega (arith, length-append body rest)

pub parse_publish-seen :
    (now : ℕ) (mm : Message) (topic : List ℕ) (message_id : ℕ) (body rest : List ℕ) (nc : Conn)
    → length topic < 2 ^ 16
    → message_id < 2 ^ 16
    → length body < 2 ^ 64
    → parse_publish now
        (length rest)
        (be16 (length topic) ++ (topic ++ (ids_of message_id mm.qos ++ (body ++ rest))))
        mm
        nc
      ≡ some (
        acknowledge now (seen mm topic message_id body rest) nc,
        seen mm topic message_id body rest,
      )
unfolding parse_publish
parse_publish-seen now mm topic message_id body rest nc h k l =
    rw (scanto-be16 topic (ids_of message_id mm.qos ++ (body ++ rest)) h) (
      rw
        (publish_id_lem
          (record mm {
            topic = record {
              p = topic ++ (ids_of message_id mm.qos ++ (body ++ rest));
              len = length topic;
            };
          })
          message_id (body ++ rest) k)
        (rw (span_lem body rest l) refl))

pub parse_mqtt_of :
    (now : ℕ) (nc after : Conn) (mm m : Message) (header b : ℕ) (p : List ℕ) (len : ℕ)
    (body : List ℕ)
    → nc.recv_mbuf ≡ header ∷ b ∷ p
    → decode_len (length nc.recv_mbuf) 0 (b ∷ p) ≡ some (len, body)
    → len ≤ length body
    → parse_body now
        (length body - len)
        body
        (record mm { cmd = header / 16; qos = get_qos header })
        nc
      ≡ some (after, m)
    → parse_mqtt now nc mm ≡ some (message after m (length nc.recv_mbuf - (length body - len)))
unfolding parse_mqtt
parse_mqtt_of now nc after mm m header b p len body e d h r = ground (arith, e, d, r)

header_cmd : (cmd f : ℕ) → cmd < 16 → f < 16 → bit_or (cmd * 16) (f % 256) % 256 ≡ cmd * 16 + f
header_cmd cmd f k h =
    let e : f % 256 ≡ f = omega arith in
    ap (λ x. bit_or (cmd * 16) x % 256) e ∙ omega (arith, bit_or_nibbles cmd f k h)

-- Some byte is the first of a length.
pub encode_len_cons : (rounds n : ℕ) → (b : ℕ) × (p : List ℕ) × (encode_len (suc rounds) n ≡ b ∷ p)
unfolding encode_len
encode_len_cons rounds n = by_test (ltb 0 (n / 128))
  where
    by_test :
        (t : Bool)
        → (b : ℕ) × (p : List ℕ) × ((if t
              then (n % 128 + 128) ∷ encode_len rounds (n / 128)
              else n % 128 ∷ [])
            ≡ b ∷ p)
    by_test true = (_, _, refl)
    by_test false = (_, _, refl)

pub parse_body_publish :
    (now left q : ℕ) (p : List ℕ) (mm : Message) (nc : Conn)
    → parse_body now left p (record mm { cmd = 3; qos = q }) nc
      ≡ parse_publish now left p (record mm { cmd = 3; qos = q }) nc
unfolding parse_body
parse_body_publish now left q p mm nc = refl

module _ (now : ℕ) (mm : Message) (nc : Conn) (cmd flags : ℕ) (body rest : List ℕ) (kind : cmd < 16)
    (small : flags < 16) (fits : length body < 2 ^ 31)
    (got : nc.recv_mbuf ≡ packet cmd flags body ++ rest) where
  -- `parse_mqtt` reaches the body of a packet.
  pub parse_packet :
      (after : Conn) (m : Message)
      → parse_body now
          (length rest)
          (body ++ rest)
          (record mm { cmd = cmd; qos = get_qos flags })
          nc
        ≡ some (after, m)
      → parse_mqtt now nc mm ≡ some (message after m (length (packet cmd flags body)))
  parse_packet after m e =
      let (b, p, c) = encode_len_cons 9 len in
      let as_read : nc.recv_mbuf ≡ header ∷ b ∷ (p ++ (body ++ rest)) =
        laid_out ∙ ap (λ t. header ∷ (t ++ (body ++ rest))) c in
      let decodes : decode_len size 0 (b ∷ (p ++ (body ++ rest))) ≡ some (len, body ++ rest) =
        ap (λ t. decode_len size 0 (t ++ (body ++ rest))) (sym c) ∙ decoded in
      parse_mqtt_of now nc after mm m header b (p ++ (body ++ rest)) len (body ++ rest) as_read
        decodes (omega (arith, length-append body rest)) dispatched
      ∙ ap (λ n. some (message after m n)) taken
    where
      len : ℕ
      len = length body

      size : ℕ
      size = length nc.recv_mbuf

      header : ℕ
      header = bit_or (cmd * 16) (flags % 256) % 256

      laid_out : nc.recv_mbuf ≡ header ∷ (encode_len 10 len ++ (body ++ rest))
      laid_out = got ∙ ap (λ t. header ∷ t) (append_assoc (encode_len 10 len) body rest)

      decoded : decode_len size 0 (encode_len 10 len ++ (body ++ rest)) ≡ some (len, body ++ rest)
      decoded =
          decode_len-encode_len 10 0 len size (body ++ rest) (omega arith) (omega arith)
            (omega (arith, fits)) (omega (arith, ap length laid_out))
          ∙ ap (λ n. some (n, body ++ rest)) (omega arith)

      behind : length (body ++ rest) - len ≡ length rest
      behind = omega (arith, length-append body rest)

      header_eq : header ≡ cmd * 16 + flags
      header_eq = header_cmd cmd flags kind small

      cmd_eq : header / 16 ≡ cmd
      cmd_eq = omega (arith, header_eq, small)

      qos_eq : get_qos header ≡ get_qos flags
      qos_eq = omega (arith, header_eq, small)

      dispatched :
          parse_body now
            (length (body ++ rest) - len)
            (body ++ rest)
            (record mm { cmd = header / 16; qos = get_qos header })
            nc
          ≡ some (after, m)
      dispatched = rw behind (rw cmd_eq (rw qos_eq e))

      taken : size - (length (body ++ rest) - len) ≡ length (packet cmd flags body)
      taken = omega (arith, behind, ap length got, length-append (packet cmd flags body) rest)
