-- ===== src/WebSocket/Send.antt =====
-- `mg_send_websocket_frame` and `mg_send_websocket_framev` of src/mongoose.c. The random mask of a
-- client is an argument: its four bytes in memory.
use evmongoose.Common.{
  ℕ, ◌+◌, ◌/◌, ◌%◌, ◌^◌, true, none, some, List, [], ◌∷◌, ◌++◌, ltb, ◌==◌, if◌then◌else◌, length,
  take, drop,
}
use evmongoose.Net.{Conn, mg_send, set_flags}
use evmongoose.WebSocket.{op_close, xor_mask, be32}

-- The first two bytes of a header and the length behind them; `bit` is the mask bit.
unfoldable pub ws_header : ℕ → ℕ → ℕ → List ℕ
ws_header op len bit =
    let first = (if op / 256 % 2 == 1 then 0 else 128) + op % 16 in
    if ltb len 126
    then first ∷ (len + bit) ∷ []
    else if ltb len 65535
    then first ∷ (126 + bit) ∷ len / 256 ∷ len % 256 ∷ []
    else first ∷ (127 + bit) ∷ (be32 (len / 2 ^ 32) ++ be32 (len % 2 ^ 32))

-- `mg_send_ws_header`, with `ctx->pos`.
unfoldable pub send_ws_header : ℕ → List ℕ → ℕ → ℕ → Conn → Conn × ℕ
send_ws_header now mask op len nc = elim nc.listener [
  | none ↦
      let sent = mg_send now mask (mg_send now (ws_header op len 128) nc) in
      (sent, length sent.send_mbuf)
  | some l ↦ (mg_send now (ws_header op len 0) nc, 0)
]

-- `mg_ws_mask_frame`
unfoldable pub ws_mask_frame : List ℕ → ℕ → List ℕ → List ℕ
ws_mask_frame mask pos mbuf =
    if pos == 0 then mbuf else take pos mbuf ++ xor_mask mask 0 (drop pos mbuf)

-- What both senders do once the payload is queued.
unfoldable pub finish_frame : List ℕ → ℕ → ℕ → Conn → Conn
finish_frame mask op pos nc =
    let masked = record nc { send_mbuf = ws_mask_frame mask pos nc.send_mbuf } in
    if op == op_close
    then set_flags masked (record masked.flags { send_and_close = true })
    else masked

unfoldable pub send_websocket_frame : ℕ → List ℕ → ℕ → List ℕ → Conn → Conn
send_websocket_frame now mask op body nc =
    let (headed, pos) = send_ws_header now mask op (length body) nc in
    finish_frame mask op pos (mg_send now body headed)

unfoldable pub send_pieces : ℕ → List (List ℕ) → Conn → Conn
send_pieces now [] nc = nc
send_pieces now (s ∷ strv) nc = send_pieces now strv (mg_send now s nc)

-- The sum of the lengths, an `int`.
unfoldable pub pieces_len : List (List ℕ) → ℕ
pieces_len [] = 0
pieces_len (s ∷ strv) = length s + pieces_len strv

unfoldable pub send_websocket_framev : ℕ → List ℕ → ℕ → List (List ℕ) → Conn → Conn
send_websocket_framev now mask op strv nc =
    let (headed, pos) = send_ws_header now mask op (pieces_len strv) nc in
    finish_frame mask op pos (send_pieces now strv headed)
