-- ===== src/Mqtt/Loop.antt =====
-- The loop of `mqtt_handler` over what has been received.
use evmongoose.Common.{
  arith, ℕ, zero, suc, ◌+◌, ◌≤◌, ◌<◌, ◌≡◌, refl, ap, ◌∙◌, Option, none, some, leb, if◌then◌else◌,
  length, length-drop, Bool-cases, inl, inr, ◌⊎◌,
}
use evmongoose.Net.{Conn, recv, remove_front}
use evmongoose.Mqtt.{Message, zeroed}
use evmongoose.Mqtt.Parse.{Parsed, incomplete, message, parse_mqtt}
use evmongoose.Mqtt.Handler.{
  MqttEvent, core, packet, Handled, handled, outside, unfinished, deliver, recv_loop, mqtt_handler,
}
use evmongoose.Mqtt.Taken.{parse_mqtt-takes}

-- The user's handler leaves the input as it is.
abbrev pub LeavesInput : (MqttEvent → Conn → Conn) → Type 0
LeavesInput tell = (ev : MqttEvent) (nc : Conn) → (tell ev nc).recv_mbuf ≡ nc.recv_mbuf

-- The loop has come to its end: at a read outside of the input, or with fewer than two bytes or a
-- packet that is not complete left.
abbrev pub HasEnded : ℕ → Handled → Type 0
HasEnded now (handled nc) = (length nc.recv_mbuf < 2) ⊎ (parse_mqtt now nc zeroed ≡ some incomplete)
HasEnded now outside = Unit
HasEnded now unfinished = ⊥

deliver-length :
    (tell : MqttEvent → Conn → Conn) (m : Message) (len : ℕ) (nc : Conn)
    → LeavesInput tell
    → 2 ≤ len
    → len ≤ length nc.recv_mbuf
    → length (deliver tell m len nc).recv_mbuf + 2 ≤ length nc.recv_mbuf
unfolding deliver remove_front
deliver-length tell m len nc keeps h k =
    let told = tell (packet (200 + m.cmd) m) nc in
    let same : told.recv_mbuf ≡ nc.recv_mbuf = keeps (packet (200 + m.cmd) m) nc in
    let fewer = length-drop len nc.recv_mbuf in rw same (ground (arith, fewer))

module _ (tell : MqttEvent → Conn → Conn) (now rounds n : ℕ) (nc : Conn) where
  abbrev pub told_first : Conn
  told_first = tell (core (recv n)) nc

  ends_outside :
      parse_mqtt now told_first zeroed ≡ none → recv_loop tell now (suc rounds) n nc ≡ outside
  unfolding recv_loop
  ends_outside e = rw (e, recv_loop) refl

  ends_incomplete :
      parse_mqtt now told_first zeroed ≡ some incomplete
      → recv_loop tell now (suc rounds) n nc ≡ handled told_first
  unfolding recv_loop
  ends_incomplete e = rw (e, recv_loop) refl

  pub one_round :
      (after : Conn) (m : Message) (len : ℕ)
      → parse_mqtt now told_first zeroed ≡ some (message after m len)
      → let left = deliver tell m len after in
        recv_loop tell now (suc rounds) n nc
        ≡ (if leb 2 (length left.recv_mbuf) then recv_loop tell now rounds n left else handled left)
  unfolding recv_loop
  one_round after m len e = rw (e, recv_loop) refl

recv_loop-HasEnded :
    (tell : MqttEvent → Conn → Conn) (now rounds n : ℕ) (nc : Conn)
    → LeavesInput tell
    → length nc.recv_mbuf < rounds
    → HasEnded now (recv_loop tell now rounds n nc)
recv_loop-HasEnded tell now zero n nc keeps h = absurd (omega arith)
recv_loop-HasEnded tell now (suc rounds) n nc keeps h =
    by_parse (λ left l. recv_loop-HasEnded tell now rounds n left keeps l)
      (parse_mqtt now told zeroed) refl
  where
    told : Conn
    told = told_first tell now rounds n nc

    same : told.recv_mbuf ≡ nc.recv_mbuf
    same = keeps (core (recv n)) nc

    round :
        ((left : Conn)
          → length left.recv_mbuf < rounds
          → HasEnded now (recv_loop tell now rounds n left))
        → (after : Conn) (m : Message) (len : ℕ)
        → parse_mqtt now told zeroed ≡ some (message after m len)
        → let left = deliver tell m len after in
          HasEnded now (
            if leb 2 (length left.recv_mbuf)
            then recv_loop tell now rounds n left
            else handled left)
    round later after m len e =
        let left = deliver tell m len after in
        let (kept, two, all) = parse_mqtt-takes now told after zeroed m len e in
        let size : length after.recv_mbuf ≡ length nc.recv_mbuf = ap length kept ∙ ap length same in
        let fewer =
          deliver-length tell m len after keeps two (omega (arith, all, ap length kept)) in
        elim (Bool-cases (leb 2 (length left.recv_mbuf))) [
          | inl x ↦ rw x (later left (omega (arith, fewer, size)))
          | inr x ↦ rw x (inl (ground (arith, x)))
        ]

    by_parse :
        ((left : Conn)
          → length left.recv_mbuf < rounds
          → HasEnded now (recv_loop tell now rounds n left))
        → (o : Option Parsed) → parse_mqtt now told zeroed ≡ o
        → HasEnded now (recv_loop tell now (suc rounds) n nc)
    by_parse later none e = rw (ends_outside tell now rounds n nc e) tt
    by_parse later (some incomplete) e = rw (ends_incomplete tell now rounds n nc e) (inr e)
    by_parse later (some (message after m len)) e =
        rw (one_round tell now rounds n nc after m len e) (round later after m len e)

-- mqtt_handler comes to an end whatever has been received, if the user's handler leaves the input as it
-- is: at a read outside of the input, or with fewer than two bytes or a packet that is not complete
-- left.
pub mqtt_handler-HasEnded :
    (tell : MqttEvent → Conn → Conn) (now n : ℕ) (nc : Conn)
    → LeavesInput tell
    → HasEnded now (mqtt_handler tell now (recv n) nc)
unfolding mqtt_handler
mqtt_handler-HasEnded tell now n nc keeps =
    recv_loop-HasEnded tell now (suc (length nc.recv_mbuf)) n nc keeps (omega arith)
