-- ===== src/WebSocket/Pending.antt =====
-- How much of the bytes received is no part of the message that is put together, and lengths.
use mathlib.Core.Option
use evmongoose.Common.{
  arith, ℕ, ◌+◌, ◌-◌, ◌%◌, ◌^◌, ◌≤◌, ◌<◌, ◌≡◌, ◌⊎◌, inl, inr, refl, ap, ◌∙◌, true, false, Option,
  none, some, List, ◌∷◌, ◌++◌, ltb, ◌==◌, length, length-append, length-take, length-drop, take,
  drop, Bool-cases,
}
use evmongoose.Net.{remove_front, Conn}
use evmongoose.WebSocket.{xor_mask, is_ws_fragment, is_ws_first_fragment}
use evmongoose.WebSocket.Deliver.{
  start_message, first_fragment, Host, Lengths, frame_lengths, unmask, close_if, reassembles,
  frame_offset, deliver_frame, deliver_websocket_data, read_size, le32,
}
use evmongoose.WebSocket.Masks.{length-xor_mask}

-- The bytes that are no part of the message so far.
unfoldable pub pending : Conn → ℕ
pending nc = length nc.recv_mbuf - frame_offset nc

pub header_two :
    (buf : List ℕ)
    → ((frame_lengths buf).header_len + (frame_lengths buf).data_len ≡ 0)
      ⊎ ((2 ≤ (frame_lengths buf).header_len)
          × ((frame_lengths buf).mask_len ≤ (frame_lengths buf).header_len))
unfolding frame_lengths
header_two buf = ground arith

pub length-unmask :
    (f : Lengths) (buf : List ℕ)
    → f.header_len + f.data_len ≤ length buf
    → length (unmask f buf) ≡ length buf
unfolding unmask
length-unmask f buf h = elim (Bool-cases (ltb 0 f.mask_len)) [
  | inl e ↦ rw e (lengths (drop (f.header_len - f.mask_len) (take f.header_len buf)))
  | inr e ↦ rw e refl
]
  where
    lengths :
        (key : List ℕ)
        → length (
            take f.header_len buf
            ++ (xor_mask key 0 (take f.data_len (drop f.header_len buf))
                ++ drop (f.header_len + f.data_len) buf))
          ≡ length buf
    lengths key = omega (
      arith,
      length-append (take f.header_len buf) (
          xor_mask key 0 (take f.data_len (drop f.header_len buf))
          ++ drop (f.header_len + f.data_len) buf),
      length-append (xor_mask key 0 (take f.data_len (drop f.header_len buf)))
          (drop (f.header_len + f.data_len) buf),
      length-xor_mask key 0 (take f.data_len (drop f.header_len buf)),
      length-take f.header_len buf,
      length-take f.data_len (drop f.header_len buf),
      length-drop f.header_len buf,
      length-drop (f.header_len + f.data_len) buf,
    )

pub deliver_true :
    (tell : Host) (nc after : Conn)
    → deliver_websocket_data tell nc ≡ some (true, after)
    → let off = frame_offset nc in
      let f = frame_lengths (drop off nc.recv_mbuf) in
      (0 < f.header_len + f.data_len)
      × (f.header_len + f.data_len ≤ length (drop off nc.recv_mbuf))
      × (deliver_frame tell off f ((f.header_len + f.data_len) % 2 ^ 64) nc ≡ some after)
unfolding deliver_websocket_data
deliver_true tell nc after e = ground arith

pub offset-le : (nc : Conn) → frame_offset nc ≤ length nc.recv_mbuf
unfolding frame_offset
offset-le nc = ground arith

pub length-close_if : (b : ℕ) (nc : Conn) → (close_if b nc).recv_mbuf ≡ nc.recv_mbuf
unfolding close_if
length-close_if b nc = ground arith

pub length-remove_front : (n : ℕ) (mem : List ℕ) → length (remove_front n mem) ≤ length mem
unfolding remove_front
length-remove_front n mem = ground (arith, length-drop n mem)

pub read_size-le32 : (b n : ℕ) (rest : List ℕ) → n < 2 ^ 32 → read_size (b ∷ (le32 n ++ rest)) ≡ n
unfolding read_size
read_size-le32 b n rest h = omega arith

-- The message so far, with `n` bytes of it behind the size.
pub pending_message :
    (nc : Conn) (b n : ℕ) (rest : List ℕ)
    → nc.recv_mbuf ≡ b ∷ (le32 n ++ rest)
    → b % 16 ≡ 0
    → n < 2 ^ 32
    → n ≤ length rest
    → nc.flags.websocket_no_defrag ≡ false
    → frame_offset nc ≡ 5 + n
unfolding frame_offset reassembles is_ws_fragment is_ws_first_fragment
pending_message nc b n rest e fr small fits defrag =
    let size = read_size-le32 b n rest small in ground (arith, e, size, ap read_size e)

pub pending-close_if : (b : ℕ) (nc : Conn) → pending (close_if b nc) ≡ pending nc
unfolding pending close_if frame_offset reassembles
pending-close_if b nc = elim (Bool-cases (b % 16 == 8)) [ inl e ↦ rw e refl | inr e ↦ rw e refl ]

pub pending-le : (nc : Conn) → pending nc ≤ length nc.recv_mbuf
unfolding pending
pending-le nc = omega arith

pub map_result :
    {A B : Type 0} (g : A → B) (o : Option A) (y : B)
    → Option.map g o ≡ some y
    → (x : A) × (g x ≡ y)
map_result g none y e = absurd (cc e)
map_result g (some x) y e = (x, cc e)

-- A buffer that holds the message so far, with `n` bytes of it behind the size.
pub pending_held :
    (nc : Conn) (byte b n : ℕ) (rest : List ℕ)
    → b % 16 ≡ 0
    → n < 2 ^ 32
    → n ≤ length rest
    → nc.flags.websocket_no_defrag ≡ false
    → pending (close_if byte (record nc { recv_mbuf = b ∷ (le32 n ++ rest) })) + n ≡ length rest
pending_held nc byte b n rest fr small fits defrag =
    let held = record nc { recv_mbuf = b ∷ (le32 n ++ rest) } in
    ap (λ k. k + n) (pending-close_if byte held)
    ∙ left held refl (pending_message held b n rest refl fr small fits defrag)
  where
    left :
        (held : Conn)
        → held.recv_mbuf ≡ b ∷ (le32 n ++ rest)
        → frame_offset held ≡ 5 + n
        → pending held + n ≡ length rest
    left held got at_end = unfold pending in omega (arith, ap length got, at_end)

-- A first fragment is delivered where the block has stayed.
pub first_fragment-some :
    (tell : Host) (off : ℕ) (f : Lengths) (mem : List ℕ) (nc after : Conn)
    → first_fragment tell off f mem nc ≡ some after
    → start_message off f mem nc ≡ some after
unfolding first_fragment
first_fragment-some tell off f mem nc after e = ground (arith, e)
