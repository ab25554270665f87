-- ===== src/Coap/Delivery.antt =====
-- What `coap_handler` makes of a packet.
use evmongoose.Common.{
  arith, ℕ, ◌+◌, ◌^◌, ◌<◌, ◌≡◌, refl, sym, ap, ◌∙◌, some, List, [], ◌++◌, length, All,
}
use evmongoose.Net.{Conn, recv, mg_send}
use evmongoose.Net.Queue.{mg_send-append}
use evmongoose.Coap.{CoapMessage}
use evmongoose.Coap.Parse.{coap_parse}
use evmongoose.Coap.Compose.{Verdict, fine, coap_compose}
use evmongoose.Coap.Handler.{
  CoapEvent, core, message, send_message, mark_short, coap_received, coap_handler,
}
use evmongoose.Coap.RoundTrip.{Fits}
use evmongoose.Coap.Reading.{as_received, coap_parse-compose}

handled :
    (tell : CoapEvent → Conn → Conn) (n : ℕ) (nc : Conn) (cm : CoapMessage)
    → coap_parse (tell (core (recv n)) nc).recv_mbuf ≡ some cm
    → coap_handler tell (recv n) nc ≡ some (coap_received tell cm (tell (core (recv n)) nc))
unfolding coap_handler
handled tell n nc cm e = rw (e, coap_handler) refl

received_fine :
    (tell : CoapEvent → Conn → Conn) (cm : CoapMessage) (nc : Conn)
    → coap_received tell (as_received cm) nc
      ≡ record (tell (message (300 + cm.msg_type) (as_received cm)) nc) { recv_mbuf = [] }
unfolding coap_received mark_short
received_fine tell cm nc = refl

sent_packet :
    (now : ℕ) (cm : CoapMessage) (sender sent : Conn)
    → send_message now cm sender ≡ (fine, sent)
    → (coap_compose cm [] ≡ (fine, (coap_compose cm []).1))
      × (sent ≡ mg_send now (coap_compose cm []).1 sender)
unfolding send_message
sent_packet now cm sender sent e = by_verdict (coap_compose cm []) e
  where
    by_verdict :
        (r : Verdict × List ℕ)
        → (let s : Verdict × Conn = elim r.0 [
          | fine ↦ (fine, mg_send now r.1 sender)
          | refused ↦ (refused, sender)
        ] in
            s)
          ≡ (fine, sent)
        → (r ≡ (fine, r.1)) × (sent ≡ mg_send now r.1 sender)
    by_verdict (fine, packet) e = (refl, sym (ap (λ s. s.1) e))
    by_verdict (v, packet) e = absurd (ground (arith, e))

-- A message that a peer could send from an empty output reaches the user's handler of the receiver as
-- it was, with the flags of its parts and under the event of its type, and the input is empty then. The
-- receiver's input is the packet once the user's handler has been told of the bytes; the token has the
-- length that the message states; its id, and the numbers and lengths of its options, are below 2 ^ 16; the
-- packet is shorter than 2 ^ 31.
pub coap_handler-send :
    (tell : CoapEvent → Conn → Conn) (now n : ℕ) (cm : CoapMessage) (sender sent receiver : Conn)
    → send_message now cm sender ≡ (fine, sent)
    → sender.send_mbuf ≡ []
    → (tell (core (recv n)) receiver).recv_mbuf ≡ sent.send_mbuf
    → length cm.token ≡ cm.token_len
    → cm.msg_id < 2 ^ 16
    → All Fits cm.options
    → length (coap_compose cm []).1 < 2 ^ 31
    → coap_handler tell (recv n) receiver
      ≡ some
          (record (tell
            (message (300 + cm.msg_type) (as_received cm))
            (tell (core (recv n)) receiver)) { recv_mbuf = [] })
coap_handler-send tell now n cm sender sent receiver e empty got t id fits small =
    let (composed, went) = sent_packet now cm sender sent e in
    let packet : (tell (core (recv n)) receiver).recv_mbuf ≡ (coap_compose cm []).1 =
      got
      ∙ ap (λ c. c.send_mbuf) went
      ∙ mg_send-append now (coap_compose cm []).1 sender small
      ∙ ap (λ s. s ++ (coap_compose cm []).1) empty in
    handled tell n receiver (as_received cm)
      (ap coap_parse packet ∙ coap_parse-compose cm (coap_compose cm []).1 composed t id fits)
    ∙ ap some (received_fine tell cm (tell (core (recv n)) receiver))
