-- ===== src/WebSocket/Grown.antt =====
-- How much a frame that is delivered can add to the input.
use evmongoose.Common.{
  arith, ℕ, ◌+◌, ◌-◌, ◌*◌, ◌/◌, ◌%◌, ◌^◌, ◌≤◌, ◌≡◌, inl, inr, ap, some, List, ◌∷◌, ◌++◌, length,
  length-append, length-take, length-drop, take, drop, get_or, Bool-cases,
}
use evmongoose.Net.{remove_front, Conn}
use evmongoose.WebSocket.{WsMessage, is_ws_first_fragment}
use evmongoose.WebSocket.Deliver.{
  Host, Lengths, at, unmask, reassembles, incoming_frame, deliver_frame, whole_frame, le32,
  start_message, continue_message, finish_message, read_size,
}
use evmongoose.WebSocket.Whole.{LeavesInput, incoming_keeps}
use evmongoose.WebSocket.Pending.{
  first_fragment-some, length-close_if, length-remove_front, map_result,
}
use evmongoose.WebSocket.Ends.{length-mem}

start_length :
    (off : ℕ) (f : Lengths) (mem : List ℕ) (nc after : Conn)
    → start_message off f mem nc ≡ some after
    → 2 ≤ f.header_len
    → off + f.header_len ≤ length mem
    → length after.recv_mbuf ≤ length mem + 3
unfolding start_message
start_length off f mem nc after e two fits =
    let (byte, got) = map_result _ _ after e in
    let kept = ap length (
      length-close_if byte
        (record nc { recv_mbuf = flags ∷ (le32 (f.data_len % 2 ^ 32) ++ moved) })) in
    omega (
      arith,
      ap (λ c. length c.recv_mbuf) got,
      kept,
      length-take (length mem - from) (drop from (flags ∷ 0 ∷ 0 ∷ 0 ∷ 0 ∷ drop 5 mem)),
    )
  where
    flags : ℕ
    flags = at mem 0 / 16 * 16

    from : ℕ
    from = off + f.header_len

    moved : List ℕ
    moved = take (length mem - from) (drop from (flags ∷ 0 ∷ 0 ∷ 0 ∷ 0 ∷ drop 5 mem))

finished_length :
    (tell : Host) (off flags byte : ℕ) (nc : Conn)
    → LeavesInput tell
    → length (finish_message tell off flags byte nc).recv_mbuf ≤ length nc.recv_mbuf
unfolding finish_message
finished_length tell off flags byte nc keeps = omega (
  arith,
  ap length (length-close_if (get_or left off byte) (record after { recv_mbuf = left })),
  length-remove_front (5 + read_size after.recv_mbuf) after.recv_mbuf,
  ap length (incoming_keeps tell wsm nc keeps),
)
  where
    wsm : WsMessage
    wsm = record { payload = take (read_size nc.recv_mbuf) (drop 5 nc.recv_mbuf); flags = flags }

    after : Conn
    after = incoming_frame tell wsm nc

    left : List ℕ
    left = remove_front (5 + read_size after.recv_mbuf) after.recv_mbuf

continue_length :
    (tell : Host) (off : ℕ) (f : Lengths) (mem : List ℕ) (nc after : Conn)
    → continue_message tell off f mem nc ≡ some after
    → LeavesInput tell
    → off + f.header_len ≤ length mem
    → length after.recv_mbuf ≤ length mem
unfolding continue_message
continue_length tell off f mem nc after e keeps fits =
    let done = finished_length tell off flags (get_or moved 0 flags) held keeps in
    let more = ap length (length-close_if (get_or moved 0 flags) held) in
    let l = length-held in ground (arith, e, done, more, l)
  where
    flags : ℕ
    flags = at mem off

    moved : List ℕ
    moved = drop (off + f.header_len) mem

    joined : List ℕ
    joined = take off mem ++ moved

    n : ℕ
    n = (read_size joined + f.data_len) % 2 ^ 32

    held : Conn
    held = record nc { recv_mbuf = take 1 joined ++ (le32 n ++ drop 5 joined) }

    length-held : 5 ≤ length joined → length held.recv_mbuf ≤ length mem
    length-held five = omega (
      arith,
      length-append (take 1 joined) (le32 n ++ drop 5 joined),
      length-take 1 joined,
      length-drop 5 joined,
      length-append (take off mem) moved,
      length-take off mem,
      length-drop (off + f.header_len) mem,
    )

whole_length :
    (tell : Host) (f : Lengths) (n : ℕ) (mem : List ℕ) (nc : Conn)
    → LeavesInput tell
    → length (whole_frame tell f n mem nc).recv_mbuf ≤ length mem
unfolding whole_frame
whole_length tell f n mem nc keeps = omega (
  arith,
  ap length (length-close_if (get_or left 0 (at mem 0)) (record after { recv_mbuf = left })),
  length-remove_front n after.recv_mbuf,
  ap length (incoming_keeps tell wsm (record nc { recv_mbuf = mem }) keeps),
)
  where
    wsm : WsMessage
    wsm = record { payload = take f.data_len (drop f.header_len mem); flags = at mem 0 }

    after : Conn
    after = incoming_frame tell wsm (record nc { recv_mbuf = mem })

    left : List ℕ
    left = remove_front n after.recv_mbuf

pub frame_length :
    (tell : Host) (off : ℕ) (f : Lengths) (n : ℕ) (nc after : Conn)
    → deliver_frame tell off f n nc ≡ some after
    → LeavesInput tell
    → 2 ≤ f.header_len
    → off + (f.header_len + f.data_len) ≤ length nc.recv_mbuf
    → length after.recv_mbuf ≤ length nc.recv_mbuf + 3
unfolding deliver_frame
frame_length tell off f n nc after e keeps two fits = elim (Bool-cases (reassembles nc)) [
  | inl r ↦ elim (Bool-cases (is_ws_first_fragment (at mem off))) [
    | inl first ↦ omega (
      arith,
      same,
      start_length off f mem nc after
          (first_fragment-some tell off f mem nc after (rw first at (rw r at e))) two
          (omega (arith, same)),
    )
    | inr later ↦ omega (
      arith,
      same,
      continue_length tell off f mem nc after (rw later at (rw r at e)) keeps (omega (arith, same)),
    )
  ]
  | inr r ↦
      let w : some (whole_frame tell f n mem nc) ≡ some after = rw r at e in
      ground (arith, w, whole_length tell f n mem nc keeps, same)
]
  where
    mem : List ℕ
    mem = take off nc.recv_mbuf ++ unmask f (drop off nc.recv_mbuf)

    same : length mem ≡ length nc.recv_mbuf
    same = length-mem off f nc fits
