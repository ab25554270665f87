-- ===== src/WebSocket/Header.antt =====
-- The header of a WebSocket frame is read back as it was written, and where the payload stands.
use evmongoose.Common.{
  arith, ℕ, ◌+◌, ◌*◌, ◌/◌, ◌%◌, ◌^◌, ◌≤◌, ◌<◌, ◌≡◌, ◌⊎◌, refl, ap, ◌∙◌, Option, none, some, List,
  [], ◌∷◌, ◌++◌, length, length-append, take-append_exact, drop-append_exact, append_assoc,
}
use native.Mathlib.Decide.{dec_lt}
use evmongoose.Net.{Conn, mg_send}
use evmongoose.Net.Queue.{mg_send-append, mg_send_behind}
use evmongoose.WebSocket.{xor_mask, be32}
use evmongoose.WebSocket.Send.{
  ws_header, send_ws_header, ws_mask_frame, finish_frame, send_websocket_frame,
}
use evmongoose.WebSocket.Deliver.{frame_lengths}

-- The mask bit of a header and the length of the mask belong together.
abbrev pub MaskBit : ℕ → ℕ → Type 0
MaskBit bit mask_len = ((bit ≡ 0) × (mask_len ≡ 0)) ⊎ ((bit ≡ 128) × (mask_len ≡ 4))

be32_value :
    (n : ℕ)
    → n < 2 ^ 32
    → n / 2 ^ 24 % 256 * 2 ^ 24 + n / 2 ^ 16 % 256 * 2 ^ 16 + n / 2 ^ 8 % 256 * 2 ^ 8 + n % 256 ≡ n
be32_value n h = omega arith

module _ (op len bit mask_len : ℕ) (more : List ℕ) (m : MaskBit bit mask_len)
    (room : mask_len ≤ length more) where
  short_header :
      len < 126
      → frame_lengths (ws_header op len bit ++ more) ≡ record {
        mask_len = mask_len;
        header_len = length (ws_header op len bit) + mask_len;
        data_len = len;
      }
  unfolding frame_lengths ws_header
  short_header h = ground arith

  middle_header :
      126 ≤ len
      → len < 65535
      → frame_lengths (ws_header op len bit ++ more) ≡ record {
        mask_len = mask_len;
        header_len = length (ws_header op len bit) + mask_len;
        data_len = len;
      }
  unfolding frame_lengths ws_header
  middle_header h k = let e : len / 256 * 256 + len % 256 ≡ len = omega arith in ground (arith, e)

  long_header :
      65535 ≤ len
      → len < 2 ^ 63
      → frame_lengths (ws_header op len bit ++ more) ≡ record {
        mask_len = mask_len;
        header_len = length (ws_header op len bit) + mask_len;
        data_len = len;
      }
  unfolding frame_lengths ws_header
  long_header h k =
      let e1 = be32_value (len / 2 ^ 32) (omega arith) in
      let e2 = be32_value (len % 2 ^ 32) (omega arith) in
      let e : len / 2 ^ 32 * 2 ^ 32 + len % 2 ^ 32 ≡ len = omega arith in ground (arith, e1, e2, e)

  -- Whatever the length, below 2 ^ 63.
  pub frame_lengths-ws_header :
      len < 2 ^ 63
      → frame_lengths (ws_header op len bit ++ more) ≡ record {
        mask_len = mask_len;
        header_len = length (ws_header op len bit) + mask_len;
        data_len = len;
      }
  frame_lengths-ws_header k = elim (dec_lt len 126) [
    | yes h ↦ short_header h
    | no h ↦ elim (dec_lt len 65535) [
      | yes h' ↦ middle_header (omega arith) h'
      | no h' ↦ long_header (omega arith) k
    ]
  ]

-- A header begins with the flags and has ten bytes at most.
pub ws_header_shape :
    (op len bit : ℕ)
    → op < 256
    → (rest : List ℕ) × (ws_header op len bit ≡ (128 + op % 16) ∷ rest) × (length rest ≤ 9)
unfolding ws_header
ws_header_shape op len bit h = elim (dec_lt len 126) [
  | yes k ↦ ((len + bit) ∷ [], ground arith, omega arith)
  | no k ↦ elim (dec_lt len 65535) [
    | yes k' ↦ ((126 + bit) ∷ len / 256 ∷ len % 256 ∷ [], ground arith, omega arith)
    | no k' ↦
        ((127 + bit) ∷ (be32 (len / 2 ^ 32) ++ be32 (len % 2 ^ 32)), ground arith, omega arith)
  ]
]

ws_mask_frame-append :
    (mask front body : List ℕ)
    → 0 < length front
    → ws_mask_frame mask (length front) (front ++ body) ≡ front ++ xor_mask mask 0 body
unfolding ws_mask_frame
ws_mask_frame-append mask front body h = ground (
  arith,
  take-append_exact (length front) front body refl,
  drop-append_exact (length front) front body refl,
)

-- A frame on the wire, of a client (with a mask) or of a server.
abbrev pub wire : Option ℕ → List ℕ → ℕ → List ℕ → List ℕ
wire none mask op body = ws_header op (length body) 128 ++ (mask ++ xor_mask mask 0 body)
wire (some l) mask op body = ws_header op (length body) 0 ++ body

finish_frame_queue :
    (mask : List ℕ) (op pos : ℕ) (nc : Conn)
    → (finish_frame mask op pos nc).send_mbuf ≡ ws_mask_frame mask pos nc.send_mbuf
unfolding finish_frame
finish_frame_queue mask op pos nc = ground arith

unmasked_zero : (mask s : List ℕ) → ws_mask_frame mask 0 s ≡ s
unfolding ws_mask_frame
unmasked_zero mask s = refl

-- A client's header and mask, and the payload, which is masked in place.
client_frame :
    (now : ℕ) (mask : List ℕ) (op : ℕ) (header body : List ℕ) (nc : Conn)
    → 0 < length header
    → length header < 2 ^ 31
    → length mask < 2 ^ 31
    → length body < 2 ^ 31
    → let sent = mg_send now mask (mg_send now header nc) in
      (finish_frame mask op (length sent.send_mbuf) (mg_send now body sent)).send_mbuf
      ≡ nc.send_mbuf ++ (header ++ (mask ++ xor_mask mask 0 body))
client_frame now mask op header body nc h short four small =
    finish_frame_queue mask op (length sent.send_mbuf) (mg_send now body sent)
    ∙ ap (ws_mask_frame mask (length sent.send_mbuf)) (mg_send-append now body sent small)
    ∙ ws_mask_frame-append mask sent.send_mbuf body (
        omega (
          arith,
          ap length queued,
          length-append nc.send_mbuf (header ++ mask),
          length-append header mask,
        ))
    ∙ ap (λ t. t ++ xor_mask mask 0 body) queued
    ∙ append_assoc nc.send_mbuf (header ++ mask) (xor_mask mask 0 body)
    ∙ ap (λ t. nc.send_mbuf ++ t) (append_assoc header mask (xor_mask mask 0 body))
  where
    sent : Conn
    sent = mg_send now mask (mg_send now header nc)

    queued : sent.send_mbuf ≡ nc.send_mbuf ++ (header ++ mask)
    queued = mg_send_behind now mask _ nc.send_mbuf header four (mg_send-append now header nc short)

-- A server's header and the payload.
server_frame :
    (now : ℕ) (mask : List ℕ) (op : ℕ) (header body : List ℕ) (nc : Conn)
    → length header < 2 ^ 31
    → length body < 2 ^ 31
    → (finish_frame mask op 0 (mg_send now body (mg_send now header nc))).send_mbuf
      ≡ nc.send_mbuf ++ (header ++ body)
server_frame now mask op header body nc short small =
    finish_frame_queue mask op 0 (mg_send now body (mg_send now header nc))
    ∙ unmasked_zero mask _
    ∙ mg_send_behind now body _ nc.send_mbuf header small (mg_send-append now header nc short)

header_pos :
    (op len bit : ℕ)
    → op < 256
    → (0 < length (ws_header op len bit)) × (length (ws_header op len bit) < 2 ^ 31)
header_pos op len bit h =
    let (rest, e, k) = ws_header_shape op len bit h in
    (omega (arith, ap length e), omega (arith, ap length e, k))

-- A frame is queued behind what was queued before.
pub send_websocket_frame-wire :
    (now : ℕ) (mask : List ℕ) (op : ℕ) (body : List ℕ) (nc : Conn)
    → op < 256
    → length mask < 2 ^ 31
    → length body < 2 ^ 31
    → (send_websocket_frame now mask op body nc).send_mbuf
      ≡ nc.send_mbuf ++ wire nc.listener mask op body
unfolding send_websocket_frame send_ws_header
send_websocket_frame-wire now mask op body nc h four small = by_side nc.listener
  where
    sent : Conn
    sent = mg_send now mask (mg_send now (ws_header op (length body) 128) nc)

    by_side :
        (l : Option ℕ)
        → let (headed, pos) =
            let r : Conn × ℕ = elim l [
              | none ↦ (sent, length sent.send_mbuf)
              | some k ↦ (mg_send now (ws_header op (length body) 0) nc, 0)
            ] in
            r in
          (finish_frame mask op pos (mg_send now body headed)).send_mbuf
          ≡ nc.send_mbuf ++ wire l mask op body
    by_side none =
        let (pos, short) = header_pos op (length body) 128 h in
        client_frame now mask op (ws_header op (length body) 128) body nc pos short four small
    by_side (some k) =
        server_frame now mask op (ws_header op (length body) 0) body nc
          (header_pos op (length body) 0 h).1 small
