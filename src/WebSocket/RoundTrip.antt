-- ===== src/WebSocket/RoundTrip.antt =====
-- A WebSocket frame that is sent arrives as it was sent.
use evmongoose.Common.{
  arith, ℕ, ◌+◌, ◌^◌, ◌≤◌, ◌<◌, ◌≡◌, inl, inr, refl, sym, ap, ◌∙◌, true, false, Option, none, some,
  List, [], ◌++◌, length, length-append, get_or, append_assoc, append-nil,
}
use evmongoose.Net.{Conn}
use evmongoose.WebSocket.{xor_mask, is_ws_fragment}
use evmongoose.WebSocket.Send.{ws_header, send_websocket_frame}
use evmongoose.WebSocket.Deliver.{
  Host, Lengths, frame_lengths, at, unmask, incoming_frame, close_if, reassembles, whole_frame,
  deliver_websocket_data,
}
use evmongoose.WebSocket.Masks.{length-xor_mask}
use evmongoose.WebSocket.Header.{
  frame_lengths-ws_header, ws_header_shape, wire, send_websocket_frame-wire,
}
use evmongoose.WebSocket.Whole.{
  LeavesInput, deliver_plain, whole_frame_of, unmask-wire, unmask_none,
}

whole-not-reassembles :
    (nc : Conn) (op : ℕ) → at nc.recv_mbuf 0 ≡ 128 + op → 1 ≤ op → op < 16 → reassembles nc ≡ false
unfolding reassembles is_ws_fragment
whole-not-reassembles nc op e h k = ground (arith, e)

-- The user's handler has got `body` under `flags`, and `rest` is left.
abbrev pub Delivers : Host → Conn → ℕ → List ℕ → List ℕ → Type 0
Delivers tell nc flags body rest =
    (mem : List ℕ) × (deliver_websocket_data tell nc
      ≡ some (
        true,
        close_if (get_or rest 0 flags)
            (record (incoming_frame tell (record { payload = body; flags = flags })
              (record nc { recv_mbuf = mem })) { recv_mbuf = rest }),
      ))

module _ (tell : Host) (keeps : LeavesInput tell) (mask : List ℕ) (four : length mask ≡ 4) (op : ℕ)
    (low : 1 ≤ op) (high : op < 16) (body : List ℕ) (small : length body < 2 ^ 62) where
  -- The frame stands behind `front`, with its payload unmasked.
  Delivers-of :
      (nc : Conn) (rest front tail : List ℕ) (f : Lengths)
      → nc.recv_mbuf ≡ front ++ (tail ++ rest)
      → at front 0 ≡ 128 + op
      → at nc.recv_mbuf 0 ≡ 128 + op
      → frame_lengths nc.recv_mbuf ≡ f
      → length front ≡ f.header_len
      → 0 < f.header_len
      → f.header_len < 20
      → length body ≡ f.data_len
      → length tail ≡ f.data_len
      → unmask f (front ++ (tail ++ rest)) ≡ front ++ (body ++ rest)
      → Delivers tell nc (128 + op) body rest
  Delivers-of nc rest front tail f got first first' e hf pos ten hb ht u = (
    front ++ (body ++ rest),
    deliver_plain tell nc f (whole-not-reassembles nc op first' low high) e (omega arith)
          (omega
            (arith, ap length got, length-append front (tail ++ rest), length-append tail rest))
          (omega arith)
        ∙ ap (λ mem. some (true, whole_frame tell f (f.header_len + f.data_len) mem nc))
            (ap (unmask f) got ∙ u)
        ∙ ap (λ c. some (true, c))
            (whole_frame_of tell f nc front body rest (128 + op) keeps hf hb pos first),
  )

  header_at : (len bit : ℕ) (more : List ℕ) → at (ws_header op len bit ++ more) 0 ≡ 128 + op
  header_at len bit more =
      let (rest, e, _) = ws_header_shape op len bit (omega arith) in
      ap (λ h. at (h ++ more) 0) e ∙ omega arith

  header_short : (len bit : ℕ) → length (ws_header op len bit) ≤ 10
  header_short len bit =
      let (rest, e, short) = ws_header_shape op len bit (omega arith) in
      omega (arith, ap length e, short)

  header_long : (len bit : ℕ) → 1 ≤ length (ws_header op len bit)
  header_long len bit =
      let (rest, e, _) = ws_header_shape op len bit (omega arith) in omega (arith, ap length e)

  Delivers-wire :
      (l : Option ℕ) (nc : Conn) (rest : List ℕ)
      → nc.recv_mbuf ≡ wire l mask op body ++ rest
      → Delivers tell nc (128 + op) body rest
  Delivers-wire none nc rest got =
      Delivers-of nc rest (header ++ mask) hidden
        (record { mask_len = 4; header_len = length header + 4; data_len = length body })
        (laid_out ∙ sym (append_assoc header mask (hidden ++ rest)))
        (header_at (length body) 128 mask)
        (ap (λ t. at t 0) laid_out ∙ header_at (length body) 128 (mask ++ (hidden ++ rest)))
        (ap frame_lengths laid_out
          ∙ frame_lengths-ws_header op (length body) 128 4 (mask ++ (hidden ++ rest))
              (inr (refl, refl)) (omega (arith, length-append mask (hidden ++ rest))) (omega arith))
        (omega (arith, length-append header mask)) (omega arith)
        (omega (arith, header_short (length body) 128)) refl (length-xor_mask mask 0 body)
        (unmask-wire _ header mask body rest refl four refl refl)
    where
      header : List ℕ
      header = ws_header op (length body) 128

      hidden : List ℕ
      hidden = xor_mask mask 0 body

      laid_out : nc.recv_mbuf ≡ header ++ (mask ++ (hidden ++ rest))
      laid_out =
          got
          ∙ append_assoc header (mask ++ hidden) rest
          ∙ ap (λ t. header ++ t) (append_assoc mask hidden rest)
  Delivers-wire (some l) nc rest got =
      Delivers-of nc rest header body
        (record { mask_len = 0; header_len = length header + 0; data_len = length body }) laid_out
        (ap (λ t. at t 0) (sym (append-nil header)) ∙ header_at (length body) 0 [])
        (ap (λ t. at t 0) laid_out ∙ header_at (length body) 0 (body ++ rest))
        (ap frame_lengths laid_out
          ∙ frame_lengths-ws_header op (length body) 0 0 (body ++ rest) (inl (refl, refl))
              (omega arith) (omega arith))
        (omega arith) (omega (arith, header_long (length body) 0))
        (omega (arith, header_short (length body) 0)) refl refl
        (unmask_none _ (header ++ (body ++ rest)) refl)
    where
      header : List ℕ
      header = ws_header op (length body) 0

      laid_out : nc.recv_mbuf ≡ header ++ (body ++ rest)
      laid_out = got ∙ append_assoc header body rest

-- A frame that is sent, whole and with an opcode, by a client under any mask or by a server, from an
-- empty output, is delivered when it arrives, whatever follows it: the user's handler gets the payload
-- and the flags, and exactly the frame leaves the buffer. The payload is shorter than 2 ^ 31, and the
-- handler leaves the input alone.
pub deliver-send :
    (tell : Host) (now : ℕ) (mask : List ℕ) (op : ℕ) (body rest : List ℕ) (sender receiver : Conn)
    → LeavesInput tell
    → length mask ≡ 4
    → 1 ≤ op
    → op < 16
    → length body < 2 ^ 31
    → sender.send_mbuf ≡ []
    → receiver.recv_mbuf ≡ (send_websocket_frame now mask op body sender).send_mbuf ++ rest
    → Delivers tell receiver (128 + op) body rest
deliver-send tell now mask op body rest sender receiver keeps four low high small empty got =
    Delivers-wire tell keeps mask four op low high body (omega arith) sender.listener receiver rest
      (got
        ∙ ap (λ t. t ++ rest)
            (send_websocket_frame-wire now mask op body sender (omega arith) (omega arith) small
              ∙ ap (λ t. t ++ wire sender.listener mask op body) empty))
