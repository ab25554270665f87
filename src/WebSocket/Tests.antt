-- ===== src/WebSocket/Tests.antt =====
-- Runs of the WebSocket sender and receiver.
use evmongoose.Common.{arith, ℕ, ◌+◌, ◌≡◌, refl, true, List, [], ◌∷◌}
use evmongoose.Net.{Conn, mg_send, passed}
use evmongoose.Net.Samples.{fresh}
use evmongoose.WebSocket.{xor_mask}
use evmongoose.WebSocket.Send.{
  ws_header, send_ws_header, ws_mask_frame, finish_frame, send_websocket_frame,
}
use evmongoose.WebSocket.Deliver.{Host, deliver_all}
use evmongoose.WebSocket.RoundTrip.{Delivers, deliver-send}
use evmongoose.WebSocket.Loop.{Ended, deliver_all-ends}

abbrev deaf : Host
deaf = record { frame = λ b m nc. nc; resize_stays = λ nc. true }

abbrev key : List ℕ
key = 1 ∷ 2 ∷ 3 ∷ 4 ∷ []

-- "Hi" under a mask, and a byte behind it.
abbrev got_hi : Conn
got_hi = record fresh { recv_mbuf = 129 ∷ 130 ∷ 1 ∷ 2 ∷ 3 ∷ 4 ∷ b'I' ∷ b'k' ∷ 7 ∷ [] }

hi_sent :
    (send_websocket_frame 9 key 1 (b'H' ∷ b'i' ∷ []) fresh).send_mbuf
    ≡ 129 ∷ 130 ∷ 1 ∷ 2 ∷ 3 ∷ 4 ∷ b'I' ∷ b'k' ∷ []
unfolding send_websocket_frame send_ws_header ws_header mg_send passed finish_frame ws_mask_frame
    xor_mask
hi_sent = refl

deliver-send_example : Delivers deaf got_hi (128 + 1) (b'H' ∷ b'i' ∷ []) (7 ∷ [])
deliver-send_example =
    deliver-send deaf 9 key 1 (b'H' ∷ b'i' ∷ []) (7 ∷ []) fresh got_hi (λ b m nc. refl) refl
      (omega arith) (omega arith) (omega arith) refl
      (unfold send_websocket_frame send_ws_header ws_header mg_send passed finish_frame
          ws_mask_frame xor_mask in
        refl)

deliver_all-ends_example : Ended deaf (deliver_all deaf 10 got_hi)
deliver_all-ends_example =
    deliver_all-ends deaf 10 got_hi (λ b m nc. refl) (omega arith) (omega arith)
