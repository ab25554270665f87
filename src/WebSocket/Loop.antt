-- ===== src/WebSocket/Loop.antt =====
-- The loop that delivers the frames of a connection comes to an end.
use evmongoose.Common.{
  arith, ℕ, zero, suc, ◌+◌, ◌*◌, ◌%◌, ◌^◌, ◌≤◌, ◌<◌, ◌≡◌, ◌⊎◌, inl, inr, refl, ap, ◌∙◌, Bool, true,
  false, Option, none, some, length, length-drop, drop,
}
use evmongoose.Net.{Conn}
use evmongoose.WebSocket.Deliver.{
  Host, Lengths, frame_lengths, frame_offset, deliver_websocket_data, Drained, deliver_all, drained,
  outside,
}
use evmongoose.WebSocket.Whole.{LeavesInput}
use evmongoose.WebSocket.Pending.{pending, header_two, deliver_true, offset-le, pending-le}
use evmongoose.WebSocket.Ends.{frame_shrinks}
use evmongoose.WebSocket.Grown.{frame_length}

-- A first fragment makes the buffer longer by three bytes at most.
-- A round that delivers a frame leaves less that is no part of a message, and adds three bytes at most.
round_shrinks :
    (tell : Host) (nc after : Conn)
    → LeavesInput tell
    → length nc.recv_mbuf < 2 ^ 32
    → deliver_websocket_data tell nc ≡ some (true, after)
    → (pending after < pending nc) × (length after.recv_mbuf ≤ length nc.recv_mbuf + 3)
round_shrinks tell nc after keeps small e =
    let (some_bytes, fits, delivered) = deliver_true tell nc after e in
    let two = two_bytes some_bytes in
    let inside = room fits in
    let exact = no_wrap fits in
    (
      below (
          frame_shrinks tell off f ((f.header_len + f.data_len) % 2 ^ 64) nc after delivered keeps
            refl (omega (arith, two)) exact inside small),
      frame_length tell off f ((f.header_len + f.data_len) % 2 ^ 64) nc after delivered keeps two
          inside,
    )
  where
    off : ℕ
    off = frame_offset nc

    f : Lengths
    f = frame_lengths (drop off nc.recv_mbuf)

    two_bytes : 0 < f.header_len + f.data_len → 2 ≤ f.header_len
    two_bytes h = elim (header_two (drop off nc.recv_mbuf)) [
      | inl z ↦ absurd (omega (arith, z))
      | inr (two, _) ↦ two
    ]

    room :
        f.header_len + f.data_len ≤ length (drop off nc.recv_mbuf)
        → off + (f.header_len + f.data_len) ≤ length nc.recv_mbuf
    room h = omega (arith, length-drop off nc.recv_mbuf, offset-le nc)

    no_wrap :
        f.header_len + f.data_len ≤ length (drop off nc.recv_mbuf)
        → (f.header_len + f.data_len) % 2 ^ 64 ≡ f.header_len + f.data_len
    no_wrap h = omega (arith, length-drop off nc.recv_mbuf)

    below : pending after + off < length nc.recv_mbuf → pending after < pending nc
    below h = unfold pending in omega arith

-- The loop has come to its end: by a read outside the buffer, or with no whole frame left.
abbrev pub Ended : Host → Drained → Type 0
Ended tell r =
    (r ≡ outside)
    ⊎ ((c : Conn) × (r ≡ drained c) × (deliver_websocket_data tell c ≡ some (false, c)))

deliver_false :
    (tell : Host) (nc after : Conn)
    → deliver_websocket_data tell nc ≡ some (false, after)
    → after ≡ nc
unfolding deliver_websocket_data
deliver_false tell nc after e = ground arith

loop_ends :
    (tell : Host) (rounds : ℕ) (nc : Conn)
    → LeavesInput tell
    → pending nc < rounds
    → length nc.recv_mbuf + 3 * pending nc < 2 ^ 32
    → Ended tell (deliver_all tell rounds nc)
unfolding deliver_all
loop_ends tell zero nc keeps h small = absurd (omega arith)
loop_ends tell (suc rounds) nc keeps h small =
    by_result (λ after. loop_ends tell rounds after keeps) (deliver_websocket_data tell nc) refl
  where
    by_result :
        ((after : Conn)
          → pending after < rounds
          → length after.recv_mbuf + 3 * pending after < 2 ^ 32
          → Ended tell (deliver_all tell rounds after))
        → (r : Option (Bool × Conn)) → deliver_websocket_data tell nc ≡ r
        → Ended tell (elim r [
          | none ↦ outside
          | some (again, after) ↦ elim again [
            | true ↦ deliver_all tell rounds after
            | false ↦ drained after
          ]
        ])
    by_result later none e = inl refl
    by_result later (some (false, after)) e =
        let same = deliver_false tell nc after e in
        inr (after, refl, ap (deliver_websocket_data tell) same ∙ e)
    by_result later (some (true, after)) e =
        let (less, short) = round_shrinks tell nc after keeps (omega arith) e in
        later after (omega (arith, less)) (omega (arith, less, short))

-- The loop that delivers the frames received comes to an end: whatever bytes a peer sent, fewer than
-- 2 ^ 30 of them, with more rounds than there are bytes it stops at an access outside of the input, which
-- `realloc` may have moved, or leaves a buffer with no whole frame. The user's handler leaves the input alone.
pub deliver_all-ends :
    (tell : Host) (rounds : ℕ) (nc : Conn)
    → LeavesInput tell
    → length nc.recv_mbuf < rounds
    → length nc.recv_mbuf < 2 ^ 30
    → Ended tell (deliver_all tell rounds nc)
deliver_all-ends tell rounds nc keeps h small =
    loop_ends tell rounds nc keeps (omega (arith, pending-le nc)) (omega (arith, pending-le nc))
