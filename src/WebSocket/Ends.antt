-- ===== src/WebSocket/Ends.antt =====
-- Every frame that is delivered leaves less that is no part of the message so far.
use evmongoose.Common.{
  arith, ℕ, ◌+◌, ◌-◌, ◌%◌, ◌^◌, ◌≤◌, ◌<◌, ◌≡◌, ◌⊎◌, inl, inr, sym, ap, ◌∙◌, true, false, some, List,
  ◌++◌, ltb, length, length-append, length-take, length-drop, take, drop, get_or, Bool-cases,
}
use evmongoose.Net.{remove_front, Conn}
use evmongoose.WebSocket.{WsMessage, is_ws_fragment, is_ws_first_fragment}
use evmongoose.WebSocket.Deliver.{
  Host, Lengths, at, unmask, incoming_frame, close_if, reassembles, frame_offset, deliver_frame,
  whole_frame, read_size, le32, continue_message, finish_message,
}
use evmongoose.WebSocket.Whole.{LeavesInput, incoming_keeps, offset_plain}
use evmongoose.WebSocket.Pending.{first_fragment-some, pending, length-unmask}
use evmongoose.WebSocket.Joined.{
  start_shrinks, at_kept, pending_close_le, removed_length, join_shrinks, joined_shrinks,
}

continue_shrinks :
    (tell : Host) (off : ℕ) (f : Lengths) (mem : List ℕ) (nc after : Conn)
    → continue_message tell off f mem nc ≡ some after
    → LeavesInput tell
    → nc.flags.websocket_no_defrag ≡ false
    → (off ≡ 0) ⊎ ((5 + read_size mem ≡ off) × (at mem 0 % 16 ≡ 0))
    → 0 < f.header_len
    → off + (f.header_len + f.data_len) ≤ length mem
    → length mem < 2 ^ 32
    → pending after + off < length mem
unfolding continue_message
continue_shrinks tell off f mem nc after e keeps defrag at_end pos fits small =
    elim (Bool-cases (ltb (length joined) 5)) [
      | inl short ↦ absurd (ground (arith, e, short))
      | inr long ↦
          let (ended, more) = shrunk (ground (arith, long)) in
          let lj = length-joined in ground (arith, e, long, ended, more, lj)
    ]
  where
    flags : ℕ
    flags = at mem off

    moved : List ℕ
    moved = drop (off + f.header_len) mem

    joined : List ℕ
    joined = take off mem ++ moved

    n : ℕ
    n = (read_size joined + f.data_len) % 2 ^ 32

    held : Conn
    held = record nc { recv_mbuf = take 1 joined ++ (le32 n ++ drop 5 joined) }

    length-joined : length joined ≡ length mem - f.header_len
    length-joined = omega (
      arith,
      length-append (take off mem) moved,
      length-take off mem,
      length-drop (off + f.header_len) mem,
    )

    left : ℕ
    left = length mem - off - 1

    room :
        (off ≡ 0)
          ⊎ ((read_size joined + f.data_len + 5 ≡ off + f.data_len) × (at joined 0 % 16 ≡ 0))
        → (length joined ≤ left)
          ⊎ ((length joined ≤ left + (5 + n))
              × (5 + n ≤ length joined)
              × (n < 2 ^ 32)
              × (at joined 0 % 16 ≡ 0))
    room (inl z) = inl (omega (arith, length-joined))
    room (inr (size, fr)) =
        inr (omega (arith, length-joined), omega (arith, length-joined), omega arith, fr)

    shrunk :
        5 ≤ length joined
        → (pending (finish_message tell off flags (get_or moved 0 flags) held) ≤ left)
          × (pending (close_if (get_or moved 0 flags) held) ≤ left)
    shrunk five =
        joined_shrinks tell off flags (get_or moved 0 flags) left n joined nc keeps defrag five
          (room (join_shrinks off f.header_len f.data_len mem at_end pos fits small))

whole_shrinks :
    (tell : Host) (f : Lengths) (n : ℕ) (mem : List ℕ) (nc : Conn)
    → LeavesInput tell
    → 0 < n
    → n ≤ length mem
    → pending (whole_frame tell f n mem nc) < length mem
unfolding whole_frame
whole_shrinks tell f n mem nc keeps pos fits = omega (
  arith,
  pending_close_le _ (record after { recv_mbuf = remove_front n after.recv_mbuf }),
  ap (λ t. length (remove_front n t)) (incoming_keeps tell wsm held keeps),
  removed_length n mem pos fits,
)
  where
    wsm : WsMessage
    wsm = record { payload = take f.data_len (drop f.header_len mem); flags = at mem 0 }

    held : Conn
    held = record nc { recv_mbuf = mem }

    after : Conn
    after = incoming_frame tell wsm held

-- Where the next frame stands: at the front, or behind the message so far.
next_frame :
    (nc : Conn)
    → (frame_offset nc ≡ 0)
      ⊎ ((reassembles nc ≡ true)
          × (5 + read_size nc.recv_mbuf ≡ frame_offset nc)
          × (at nc.recv_mbuf 0 % 16 ≡ 0))
unfolding frame_offset reassembles is_ws_fragment is_ws_first_fragment
next_frame nc = ground arith

pub length-mem :
    (off : ℕ) (f : Lengths) (nc : Conn)
    → off + (f.header_len + f.data_len) ≤ length nc.recv_mbuf
    → length (take off nc.recv_mbuf ++ unmask f (drop off nc.recv_mbuf)) ≡ length nc.recv_mbuf
length-mem off f nc fits = omega (
  arith,
  length-append (take off nc.recv_mbuf) (unmask f (drop off nc.recv_mbuf)),
  length-take off nc.recv_mbuf,
  length-drop off nc.recv_mbuf,
  length-unmask f (drop off nc.recv_mbuf) (omega (arith, length-drop off nc.recv_mbuf)),
)

pub frame_shrinks :
    (tell : Host) (off : ℕ) (f : Lengths) (n : ℕ) (nc after : Conn)
    → deliver_frame tell off f n nc ≡ some after
    → LeavesInput tell
    → frame_offset nc ≡ off
    → 0 < f.header_len
    → n ≡ f.header_len + f.data_len
    → off + (f.header_len + f.data_len) ≤ length nc.recv_mbuf
    → length nc.recv_mbuf < 2 ^ 32
    → pending after + off < length nc.recv_mbuf
unfolding deliver_frame
frame_shrinks tell off f n nc after e keeps o pos en fits small =
    elim (Bool-cases (reassembles nc)) [
      | inl r ↦ elim (Bool-cases (is_ws_first_fragment (at mem off))) [
        | inl first ↦ omega (
          arith,
          same,
          start_shrinks off f mem nc after
              (first_fragment-some tell off f mem nc after (rw first at (rw r at e))) (defrag r)
              (omega (arith, same)) (omega (arith, same)),
        )
        | inr later ↦ omega (
          arith,
          same,
          continue_shrinks tell off f mem nc after (rw later at (rw r at e)) keeps (defrag r) at_end
              pos (omega (arith, same)) (omega (arith, same)),
        )
      ]
      | inr r ↦
          let w : some (whole_frame tell f n mem nc) ≡ some after = rw r at e in
          let p = whole_shrinks tell f n mem nc keeps (omega arith) (omega (arith, same)) in
          ground (arith, w, p, same, plain_offset r)
    ]
  where
    mem : List ℕ
    mem = take off nc.recv_mbuf ++ unmask f (drop off nc.recv_mbuf)

    same : length mem ≡ length nc.recv_mbuf
    same = length-mem off f nc fits

    defrag : reassembles nc ≡ true → nc.flags.websocket_no_defrag ≡ false
    defrag r = unfold reassembles in ground arith

    plain_offset : reassembles nc ≡ false → off ≡ 0
    plain_offset r = sym o ∙ offset_plain nc r

    at_end : (off ≡ 0) ⊎ ((5 + read_size mem ≡ off) × (at mem 0 % 16 ≡ 0))
    at_end = elim (next_frame nc) [
      | inl z ↦ inl (sym o ∙ z)
      | inr (r, five, fragment) ↦ inr (
        ap (λ k. 5 + k) (size (omega (arith, five))) ∙ five ∙ o,
        ap (λ b. b % 16) (kept 0 (omega (arith, five))) ∙ fragment,
      )
    ]
      where
        kept : (i : ℕ) → i < off → at mem i ≡ at nc.recv_mbuf i
        kept i h = at_kept off i nc.recv_mbuf (unmask f (drop off nc.recv_mbuf)) h (omega arith)

        size : 5 ≤ off → read_size mem ≡ read_size nc.recv_mbuf
        size h =
            unfold read_size in
            omega (
              arith,
              kept 1 (omega arith),
              kept 2 (omega arith),
              kept 3 (omega arith),
              kept 4 (omega arith),
            )
