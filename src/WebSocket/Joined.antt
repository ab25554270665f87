-- ===== src/WebSocket/Joined.antt =====
-- A fragment that is joined to the message before it: what is left of the input.
use evmongoose.Common.{
  arith, ℕ, zero, suc, ◌+◌, ◌-◌, ◌*◌, ◌/◌, ◌%◌, ◌^◌, ◌≤◌, ◌<◌, ◌≡◌, ◌⊎◌, inl, inr, refl, sym, ap,
  ◌∙◌, false, some, List, [], ◌∷◌, ◌++◌, length, length-take, length-drop, take, drop, get_or,
}
use evmongoose.Net.{remove_front, Conn}
use evmongoose.WebSocket.{WsMessage}
use evmongoose.WebSocket.Deliver.{
  Host, Lengths, at, incoming_frame, close_if, read_size, le32, start_message, finish_message,
}
use evmongoose.WebSocket.Whole.{LeavesInput, incoming_keeps}
use evmongoose.WebSocket.Pending.{
  pending, length-remove_front, read_size-le32, pending-close_if, pending-le, map_result,
  pending_held,
}

pub start_shrinks :
    (off : ℕ) (f : Lengths) (mem : List ℕ) (nc after : Conn)
    → start_message off f mem nc ≡ some after
    → nc.flags.websocket_no_defrag ≡ false
    → off + (f.header_len + f.data_len) ≤ length mem
    → length mem < 2 ^ 32
    → pending after + (off + (f.header_len + f.data_len)) ≡ length mem
unfolding start_message
start_shrinks off f mem nc after e defrag fits small =
    let (byte, got) = map_result _ _ after e in
    let d : f.data_len % 2 ^ 32 ≡ f.data_len = omega arith in
    let l : length moved ≡ length mem - from = ground (
      arith,
      length-take (length mem - from) (drop from stomped),
      length-drop from stomped,
      length-drop 5 mem,
    ) in
    ap (λ c. pending c + (off + (f.header_len + f.data_len))) (sym got)
    ∙ omega (
      arith,
      l,
      d,
      pending_held nc byte flags (f.data_len % 2 ^ 32) moved (omega arith) (omega arith)
          (omega arith) defrag,
    )
  where
    flags : ℕ
    flags = at mem 0 / 16 * 16

    from : ℕ
    from = off + f.header_len

    stomped : List ℕ
    stomped = flags ∷ 0 ∷ 0 ∷ 0 ∷ 0 ∷ drop 5 mem

    moved : List ℕ
    moved = take (length mem - from) (drop from stomped)

pub at_kept :
    (n i : ℕ) (mem rest : List ℕ)
    → i < n
    → n ≤ length mem
    → get_or (take n mem ++ rest) i 0 ≡ get_or mem i 0
at_kept zero i mem rest h k = absurd (omega arith)
at_kept (suc n) i [] rest h k = absurd (omega arith)
at_kept (suc n) zero (x ∷ mem) rest h k = refl
at_kept (suc n) (suc i) (x ∷ mem) rest h k = at_kept n i mem rest (omega arith) (omega arith)

pub pending_close_le : (b : ℕ) (nc : Conn) → pending (close_if b nc) ≤ length nc.recv_mbuf
pending_close_le b nc = omega (arith, pending-close_if b nc, pending-le nc)

finish_length :
    (tell : Host) (off flags byte : ℕ) (nc : Conn)
    → LeavesInput tell
    → pending (finish_message tell off flags byte nc)
      ≤ length (remove_front (5 + read_size nc.recv_mbuf) nc.recv_mbuf)
unfolding finish_message
finish_length tell off flags byte nc keeps = omega (
  arith,
  pending_close_le _ (record after { recv_mbuf = left }),
  ap (λ mem. length (remove_front (5 + read_size mem) mem)) (incoming_keeps tell wsm nc keeps),
)
  where
    wsm : WsMessage
    wsm = record { payload = take (read_size nc.recv_mbuf) (drop 5 nc.recv_mbuf); flags = flags }

    after : Conn
    after = incoming_frame tell wsm nc

    left : List ℕ
    left = remove_front (5 + read_size after.recv_mbuf) after.recv_mbuf

pub removed_length :
    (n : ℕ) (mem : List ℕ) → 0 < n → n ≤ length mem → length (remove_front n mem) ≡ length mem - n
unfolding remove_front
removed_length n mem pos fits = ground (arith, length-drop n mem)

take_one : (mem : List ℕ) → 0 < length mem → take 1 mem ≡ at mem 0 ∷ []
take_one [] h = absurd (omega arith)
take_one (x ∷ mem) h = refl

pub join_shrinks :
    (off h d : ℕ) (mem : List ℕ)
    → (off ≡ 0) ⊎ ((5 + read_size mem ≡ off) × (at mem 0 % 16 ≡ 0))
    → 0 < h
    → off + (h + d) ≤ length mem
    → length mem < 2 ^ 32
    → let joined = take off mem ++ drop (off + h) mem in
      (off ≡ 0) ⊎ ((read_size joined + d + 5 ≡ off + d) × (at joined 0 % 16 ≡ 0))
unfolding read_size
join_shrinks off h d mem (inl z) pos fits small = inl z
join_shrinks off h d mem (inr (e, b)) pos fits small = inr (
  omega (
    arith,
    at_kept off 1 mem (drop (off + h) mem),
    at_kept off 2 mem (drop (off + h) mem),
    at_kept off 3 mem (drop (off + h) mem),
    at_kept off 4 mem (drop (off + h) mem),
  ),
  rw (at_kept off 0 mem (drop (off + h) mem) (omega arith) (omega arith)) b,
)

-- What is left when the fragment has been joined to a message that has `n` bytes then, or to none.
pub joined_shrinks :
    (tell : Host) (off flags byte left n : ℕ) (joined : List ℕ) (nc : Conn)
    → LeavesInput tell
    → nc.flags.websocket_no_defrag ≡ false
    → 5 ≤ length joined
    → (length joined ≤ left)
      ⊎ ((length joined ≤ left + (5 + n))
          × (5 + n ≤ length joined)
          × (n < 2 ^ 32)
          × (at joined 0 % 16 ≡ 0))
    → let held = record nc { recv_mbuf = take 1 joined ++ (le32 n ++ drop 5 joined) } in
      (pending (finish_message tell off flags byte held) ≤ left)
      × (pending (close_if byte held) ≤ left)
joined_shrinks tell off flags byte left n joined nc keeps defrag five (inl short) =
    let held = record nc { recv_mbuf = take 1 joined ++ (le32 n ++ drop 5 joined) } in
    let l : length held.recv_mbuf ≡ length joined =
      ap (λ t. length (t ++ (le32 n ++ drop 5 joined))) (take_one joined (omega arith))
      ∙ omega (arith, length-drop 5 joined) in
    (
      omega (
        arith,
        finish_length tell off flags byte held keeps,
        length-remove_front (5 + read_size held.recv_mbuf) held.recv_mbuf,
      ),
      omega (arith, pending_close_le byte held),
    )
joined_shrinks tell off flags byte left n joined nc keeps defrag five
      (inr (long, fits, small, fr)) =
    rw (take_one joined (omega arith)) (
      omega (
        arith,
        finish_length tell off flags byte held keeps,
        read_size-le32 (at joined 0) n (drop 5 joined) small,
        gone,
        length-drop 5 joined,
      ),
      omega (
        arith,
        pending_held nc byte (at joined 0) n (drop 5 joined) fr small
            (omega (arith, length-drop 5 joined)) defrag,
        length-drop 5 joined,
      ),
    )
  where
    held : Conn
    held = record nc { recv_mbuf = at joined 0 ∷ (le32 n ++ drop 5 joined) }

    gone :
        length (remove_front (5 + read_size held.recv_mbuf) held.recv_mbuf)
        ≡ length joined - (5 + n)
    gone =
        ap (λ k. length (remove_front (5 + k) held.recv_mbuf))
          (read_size-le32 (at joined 0) n (drop 5 joined) small)
        ∙ removed_length (5 + n) held.recv_mbuf (omega arith) (omega (arith, length-drop 5 joined))
        ∙ omega (arith, length-drop 5 joined)
