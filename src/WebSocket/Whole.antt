-- ===== src/WebSocket/Whole.antt =====
-- `mg_deliver_websocket_data` on a frame that is no fragment.
use evmongoose.Common.{
  arith, ℕ, ◌+◌, ◌-◌, ◌/◌, ◌%◌, ◌^◌, ◌≤◌, ◌<◌, ◌≡◌, refl, sym, ap, ◌∙◌, Bool, true, false, some,
  List, [], ◌∷◌, ◌++◌, ◌==◌, length, length-append, take, drop, take-append_exact,
  drop-append_exact, get_or, append_assoc,
}
use evmongoose.Net.{remove_front, Conn}
use evmongoose.WebSocket.{WsMessage, xor_mask}
use evmongoose.WebSocket.Deliver.{
  Host, Lengths, frame_lengths, at, unmask, incoming_frame, close_if, reassembles, frame_offset,
  deliver_frame, whole_frame, deliver_websocket_data,
}
use evmongoose.WebSocket.Masks.{xor_mask_twice, length-xor_mask}

-- The user's handler leaves the bytes received alone.
abbrev pub LeavesInput : Host → Type 0
LeavesInput tell =
    (b : Bool) (m : WsMessage) (nc : Conn) → (tell.frame b m nc).recv_mbuf ≡ nc.recv_mbuf

pub offset_plain : (nc : Conn) → reassembles nc ≡ false → frame_offset nc ≡ 0
unfolding frame_offset
offset_plain nc r = rw r

deliver_frame_plain :
    (tell : Host) (f : Lengths) (n : ℕ) (nc : Conn)
    → reassembles nc ≡ false
    → deliver_frame tell 0 f n nc ≡ some (whole_frame tell f n (unmask f nc.recv_mbuf) nc)
unfolding deliver_frame
deliver_frame_plain tell f n nc r = rw r

-- A frame that is no fragment and that has arrived whole.
pub deliver_plain :
    (tell : Host) (nc : Conn) (f : Lengths)
    → reassembles nc ≡ false
    → frame_lengths nc.recv_mbuf ≡ f
    → 0 < f.header_len + f.data_len
    → f.header_len + f.data_len ≤ length nc.recv_mbuf
    → f.header_len + f.data_len < 2 ^ 64
    → deliver_websocket_data tell nc
      ≡ some (true, whole_frame tell f (f.header_len + f.data_len) (unmask f nc.recv_mbuf) nc)
unfolding deliver_websocket_data
deliver_plain tell nc f r e pos fits small =
    let m : (f.header_len + f.data_len) % 2 ^ 64 ≡ f.header_len + f.data_len = omega arith in
    rw (offset_plain nc r)
      (rw e (rw m (ground (arith, deliver_frame_plain tell f (f.header_len + f.data_len) nc r))))

pub incoming_keeps :
    (tell : Host) (m : WsMessage) (nc : Conn)
    → LeavesInput tell
    → (incoming_frame tell m nc).recv_mbuf ≡ nc.recv_mbuf
unfolding incoming_frame
incoming_keeps tell m nc keeps = keeps (m.flags / 8 % 2 == 1) m nc

remove_exact :
    (front rest : List ℕ) (n : ℕ) → n ≡ length front → 0 < n → remove_front n (front ++ rest) ≡ rest
unfolding remove_front
remove_exact front rest n e pos =
    ground (arith, e, length-append front rest, drop-append_exact n front rest e)

pub whole_frame_of :
    (tell : Host) (f : Lengths) (nc : Conn) (front body rest : List ℕ) (flags : ℕ)
    → LeavesInput tell
    → length front ≡ f.header_len
    → length body ≡ f.data_len
    → 0 < f.header_len
    → at front 0 ≡ flags
    → let mem = front ++ (body ++ rest) in
      whole_frame tell f (f.header_len + f.data_len) mem nc
      ≡ close_if
          (get_or rest 0 flags)
          (record (incoming_frame tell
            (record { payload = body; flags = flags })
            (record nc { recv_mbuf = mem })) { recv_mbuf = rest })
unfolding whole_frame
whole_frame_of tell f nc front body rest flags keeps hf hb pos fl =
    rw payload (rw first (rw (incoming_keeps tell _ _ keeps) (rw left refl)))
  where
    mem : List ℕ
    mem = front ++ (body ++ rest)

    payload : take f.data_len (drop f.header_len mem) ≡ body
    payload =
        ap (take f.data_len) (drop-append_exact f.header_len front (body ++ rest) (sym hf))
        ∙ take-append_exact f.data_len body rest (sym hb)

    first : at mem 0 ≡ flags
    first = at_front front (omega (arith, hf)) ∙ fl
      where
        at_front : (xs : List ℕ) → 0 < length xs → at (xs ++ (body ++ rest)) 0 ≡ at xs 0
        at_front [] h = absurd (omega arith)
        at_front (x ∷ xs) h = refl

    left : remove_front (f.header_len + f.data_len) mem ≡ rest
    left =
        ap (remove_front (f.header_len + f.data_len)) (sym (append_assoc front body rest))
        ∙ remove_exact (front ++ body) rest (f.header_len + f.data_len)
            (omega (arith, length-append front body)) (omega arith)

pub unmask-wire :
    (f : Lengths) (header mask body rest : List ℕ)
    → f.mask_len ≡ 4
    → length mask ≡ 4
    → f.header_len ≡ length header + 4
    → f.data_len ≡ length body
    → unmask f ((header ++ mask) ++ (xor_mask mask 0 body ++ rest))
      ≡ (header ++ mask) ++ (body ++ rest)
unfolding unmask
unmask-wire f header mask body rest m four h d = rw m (rw (start, masked, key, end) middle)
  where
    front : List ℕ
    front = header ++ mask

    hidden : List ℕ
    hidden = xor_mask mask 0 body

    whole : List ℕ
    whole = front ++ (hidden ++ rest)

    long : f.header_len ≡ length front
    long = omega (arith, length-append header mask)

    start : take f.header_len whole ≡ front
    start = take-append_exact f.header_len front (hidden ++ rest) long

    masked : take f.data_len (drop f.header_len whole) ≡ hidden
    masked =
        ap (take f.data_len) (drop-append_exact f.header_len front (hidden ++ rest) long)
        ∙ take-append_exact f.data_len hidden rest (omega (arith, length-xor_mask mask 0 body))

    key : drop (f.header_len - 4) front ≡ mask
    key = drop-append_exact (f.header_len - 4) header mask (omega arith)

    end : drop (f.header_len + f.data_len) whole ≡ rest
    end =
        ap (drop (f.header_len + f.data_len)) (sym (append_assoc front hidden rest))
        ∙ drop-append_exact (f.header_len + f.data_len) (front ++ hidden) rest
            (omega (arith, long, length-append front hidden, length-xor_mask mask 0 body))

    middle : front ++ (xor_mask mask 0 hidden ++ rest) ≡ front ++ (body ++ rest)
    middle = ap (λ t. front ++ (t ++ rest)) (xor_mask_twice mask 0 body)

pub unmask_none : (f : Lengths) (buf : List ℕ) → f.mask_len ≡ 0 → unmask f buf ≡ buf
unfolding unmask
unmask_none f buf e = rw e refl
