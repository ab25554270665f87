-- ===== src/Mqtt/Taken.antt =====
-- What parse_mqtt leaves of the input.
use evmongoose.Common.{
  arith, ℕ, suc, ◌-◌, ◌/◌, ◌≤◌, ◌<◌, ◌≡◌, refl, ap, ◌∙◌, none, some, List, [], ◌∷◌, ◌==◌, length,
  Bool-cases, Option-cases, inl, inr, ◌≢◌,
}
use evmongoose.Net.{Conn, mg_send}
use evmongoose.Mqtt.{Message, get_qos, be16}
use evmongoose.Mqtt.Send.{prepend_header, short_command, puback, pubrec}
use evmongoose.Mqtt.Parse.{
  decode_len, acknowledge, parse_publish, scanto, publish_id, span, parse_body, message, parse_mqtt,
}

mg_send-recv_mbuf :
    (now : ℕ) (buf : List ℕ) (nc : Conn) → (mg_send now buf nc).recv_mbuf ≡ nc.recv_mbuf
unfolding mg_send
mg_send-recv_mbuf now buf nc = elim (Option-cases nc.sock) [
  | inl e ↦ ground arith
  | inr (s, e) ↦ ground arith
]

prepend_header-recv_mbuf :
    (now cmd flags len : ℕ) (nc : Conn)
    → (prepend_header now cmd flags len nc).recv_mbuf ≡ nc.recv_mbuf
unfolding prepend_header
prepend_header-recv_mbuf now cmd flags len nc = elim (Option-cases nc.sock) [
  | inl e ↦ ground arith
  | inr (s, e) ↦ ground arith
]

short_command-recv_mbuf :
    (now cmd message_id : ℕ) (nc : Conn)
    → (short_command now cmd message_id nc).recv_mbuf ≡ nc.recv_mbuf
unfolding short_command
short_command-recv_mbuf now cmd message_id nc =
    prepend_header-recv_mbuf now cmd 2 2 (mg_send now (be16 message_id) nc)
    ∙ mg_send-recv_mbuf now (be16 message_id) nc

acknowledge-recv_mbuf :
    (now : ℕ) (mm : Message) (nc : Conn) → (acknowledge now mm nc).recv_mbuf ≡ nc.recv_mbuf
unfolding acknowledge puback pubrec
acknowledge-recv_mbuf now mm nc = elim (Bool-cases (mm.qos == 1)) [
  | inl x ↦ rw x (short_command-recv_mbuf now 4 mm.message_id nc)
  | inr x ↦ rw x (elim (Bool-cases (mm.qos == 2)) [
    | inl y ↦ rw y (short_command-recv_mbuf now 5 mm.message_id nc)
    | inr y ↦ rw y refl
  ])
]

parse_publish-recv_mbuf :
    (now left : ℕ) (p : List ℕ) (mm : Message) (nc after : Conn) (m : Message)
    → parse_publish now left p mm nc ≡ some (after, m)
    → after.recv_mbuf ≡ nc.recv_mbuf
unfolding parse_publish
parse_publish-recv_mbuf now left p mm nc after m e = elim (Option-cases (scanto p)) [
  | inl x ↦ absurd (cc (rw x at e))
  | inr ((topic, q), x) ↦ elim (Option-cases (publish_id q (record mm { topic = topic }))) [
    | inl y ↦ absurd (cc (rw y at (rw x at e)))
    | inr ((numbered, r), y) ↦
        let done = record numbered { payload = record { p = r; len = span left r } } in
        let acked : some (acknowledge now done nc, done) ≡ some (after, m) = rw y at (rw x at e) in
        let same : after ≡ acknowledge now done nc = cc acked in
        ap (λ c. c.recv_mbuf) same ∙ acknowledge-recv_mbuf now done nc
  ]
]

-- Reading a packet leaves the input as it is.
parse_body-recv_mbuf :
    (now left : ℕ) (p : List ℕ) (mm : Message) (nc after : Conn) (m : Message)
    → parse_body now left p mm nc ≡ some (after, m)
    → after.recv_mbuf ≡ nc.recv_mbuf
unfolding parse_body
parse_body-recv_mbuf now left [] mm nc after m e =
    ground (arith, e, parse_publish-recv_mbuf now left [] mm nc after m)
parse_body-recv_mbuf now left (a ∷ []) mm nc after m e =
    ground (arith, e, parse_publish-recv_mbuf now left (a ∷ []) mm nc after m)
parse_body-recv_mbuf now left (a ∷ b ∷ p) mm nc after m e =
    ground (arith, e, parse_publish-recv_mbuf now left (a ∷ b ∷ p) mm nc after m)

decode_len_shorter :
    (size i : ℕ) (p : List ℕ) (n : ℕ) (q : List ℕ)
    → decode_len size i p ≡ some (n, q)
    → length q < length p
unfolding decode_len
decode_len_shorter size i [] n q e = absurd (cc e)
decode_len_shorter size i (b ∷ p) n q e = elim (Option-cases (decode_len size (suc i) p)) [
  | inl x ↦ ground (arith, e, x)
  | inr ((k, r), x) ↦ ground (arith, e, x, decode_len_shorter size (suc i) p k r)
]

no_message :
    (now : ℕ) (nc after : Conn) (mm m : Message) (len h : ℕ)
    → parse_mqtt now nc mm ≡ some (message after m len)
    → (nc.recv_mbuf ≢ []) × (nc.recv_mbuf ≢ h ∷ [])
unfolding parse_mqtt
no_message now nc after mm m len h e =
    (λ got. ground (arith, got, e), λ got. ground (arith, got, e))

-- A message comes of a length that was decoded and a body that was read.
module _ (now : ℕ) (nc after : Conn) (mm m : Message) (len h b : ℕ) (p : List ℕ)
    (got : nc.recv_mbuf ≡ h ∷ b ∷ p) (e : parse_mqtt now nc mm ≡ some (message after m len)) where
  read_inverse :
      (n : ℕ) (body : List ℕ)
      → decode_len (length nc.recv_mbuf) 0 (b ∷ p) ≡ some (n, body)
      → (parse_body now (length body - n) body (record mm { cmd = h / 16; qos = get_qos h }) nc
          ≡ some (after, m))
        × (len ≡ length nc.recv_mbuf - (length body - n))
  unfolding parse_mqtt
  read_inverse n body x =
      let mm' = record mm { cmd = h / 16; qos = get_qos h } in
      elim (Option-cases (parse_body now (length body - n) body mm' nc)) [
        | inl z ↦ absurd (ground (arith, got, e, x, z))
        | inr ((after', m'), z) ↦ (ground (arith, got, e, x, z), ground (arith, got, e, x, z))
      ]

  some_length : decode_len (length nc.recv_mbuf) 0 (b ∷ p) ≢ none
  unfolding parse_mqtt
  some_length x = ground (arith, got, e, x)

  two_bytes : (after.recv_mbuf ≡ nc.recv_mbuf) × (2 ≤ len) × (len ≤ length nc.recv_mbuf)
  two_bytes = elim (Option-cases (decode_len (length nc.recv_mbuf) 0 (b ∷ p))) [
    | inl x ↦ absurd (some_length x)
    | inr ((n, body), x) ↦
        let (read, taken) = read_inverse n body x in
        let shorter = decode_len_shorter (length nc.recv_mbuf) 0 (b ∷ p) n body x in
        let size : length nc.recv_mbuf ≡ suc (suc (length p)) = ap length got in
        (
          parse_body-recv_mbuf now (length body - n) body
              (record mm { cmd = h / 16; qos = get_qos h }) nc after m read,
          omega (arith, taken, shorter, size),
          omega (arith, taken),
        )
  ]

-- A message takes at least two bytes of the input, and no more than there are.
pub parse_mqtt-takes :
    (now : ℕ) (nc after : Conn) (mm m : Message) (len : ℕ)
    → parse_mqtt now nc mm ≡ some (message after m len)
    → (after.recv_mbuf ≡ nc.recv_mbuf) × (2 ≤ len) × (len ≤ length nc.recv_mbuf)
parse_mqtt-takes now nc after mm m len e = by_input nc.recv_mbuf refl
  where
    by_input :
        (s : List ℕ)
        → nc.recv_mbuf ≡ s
        → (after.recv_mbuf ≡ nc.recv_mbuf) × (2 ≤ len) × (len ≤ length nc.recv_mbuf)
    by_input [] got = absurd ((no_message now nc after mm m len 0 e).0 got)
    by_input (h ∷ []) got = absurd ((no_message now nc after mm m len h e).1 got)
    by_input (h ∷ b ∷ p) got = two_bytes now nc after mm m len h b p got e
