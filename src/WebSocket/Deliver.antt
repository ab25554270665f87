-- ===== src/WebSocket/Deliver.antt =====
-- `mg_deliver_websocket_data` of src/mongoose.c, and the loop of `mg_ws_handler` around it.
use mathlib.Core.Option
use evmongoose.Common.{
  ℕ, zero, suc, ◌+◌, ◌-◌, ◌*◌, ◌/◌, ◌%◌, ◌^◌, Bool, true, false, not, ◌&&◌, ◌||◌, Option, none,
  some, List, [], ◌∷◌, ◌++◌, ltb, leb, ◌==◌, if◌then◌else◌, length, take, drop, get_or, get_elem?,
}
use evmongoose.Net.{remove_front, Conn, keep_system_flags, set_flags}
use evmongoose.WebSocket.{
  op_close, op_ping, WsMessage, is_ws_fragment, is_ws_first_fragment, xor_mask,
}
use evmongoose.WebSocket.Send.{send_websocket_frame}

-- `*(unsigned *) &p[1]` on a little-endian machine.
unfoldable pub read_size : List ℕ → ℕ
read_size p = get_or p 1 0 + 256 * get_or p 2 0 + 2 ^ 16 * get_or p 3 0 + 2 ^ 24 * get_or p 4 0

abbrev pub le32 : ℕ → List ℕ
le32 n = n % 256 ∷ n / 2 ^ 8 % 256 ∷ n / 2 ^ 16 % 256 ∷ n / 2 ^ 24 % 256 ∷ []

-- The lengths of a frame's header, with the mask, and of its payload.
pub record Lengths : Type 0 where
  pub mask_len : ℕ
  pub header_len : ℕ
  pub data_len : ℕ

abbrev pub at : List ℕ → ℕ → ℕ
at buf i = get_or buf i 0

abbrev pub read_be32 : List ℕ → ℕ → ℕ
read_be32 buf i =
    at buf i * 2 ^ 24 + at buf (i + 1) * 2 ^ 16 + at buf (i + 2) * 2 ^ 8 + at buf (i + 3)

-- All three are 0 as long as the header has not arrived whole.
unfoldable pub frame_lengths : List ℕ → Lengths
frame_lengths buf =
    let len = at buf 1 % 128 in
    let mask = if leb 128 (at buf 1) then 4 else 0 in
    if not (leb 2 (length buf))
    then record { mask_len = 0; header_len = 0; data_len = 0 }
    else if ltb len 126 && leb mask (length buf)
    then record { mask_len = mask; header_len = 2 + mask; data_len = len }
    else if len == 126 && leb (4 + mask) (length buf)
    then record { mask_len = mask; header_len = 4 + mask; data_len = at buf 2 * 256 + at buf 3 }
    else if leb (10 + mask) (length buf)
    then record {
      mask_len = mask;
      header_len = 10 + mask;
      data_len = read_be32 buf 2 * 2 ^ 32 + read_be32 buf 6;
    }
    else record { mask_len = mask; header_len = 0; data_len = 0 }

-- The payload unmasked in place.
unfoldable pub unmask : Lengths → List ℕ → List ℕ
unmask f buf =
    if ltb 0 f.mask_len
    then take f.header_len buf
      ++ (xor_mask (drop (f.header_len - f.mask_len) (take f.header_len buf)) 0
            (take f.data_len (drop f.header_len buf))
          ++ drop (f.header_len + f.data_len) buf)
    else buf

-- What the code around a connection does: the user's handler, and whether `realloc`, when the input
-- grows by the place of a size, leaves the block where it is (as it does when it fails).
pub record Host : Type 0 where
  pub frame : Bool → WsMessage → Conn → Conn
  pub resize_stays : Conn → Bool

-- `mg_handle_incoming_websocket_frame`: the user's handler gets a control frame (`true`) or another
-- one, and may not touch the flags of the library.
unfoldable pub incoming_frame : Host → WsMessage → Conn → Conn
incoming_frame tell wsm nc =
    let after = tell.frame (wsm.flags / 8 % 2 == 1) wsm nc in
    record after { flags = keep_system_flags nc.flags after.flags }

-- `if ((buf[0] & 0x0f) == WEBSOCKET_OP_CLOSE)`, for the byte that stands at `buf` in the end.
unfoldable pub close_if : ℕ → Conn → Conn
close_if byte nc =
    if byte % 16 == op_close then set_flags nc (record nc.flags { send_and_close = true }) else nc

-- `reass`
unfoldable pub reassembles : Conn → Bool
reassembles nc =
    ltb 0 (length nc.recv_mbuf)
    && is_ws_fragment (at nc.recv_mbuf 0)
    && not nc.flags.websocket_no_defrag

-- `buf - p`: a continuation frame stands behind the message so far.
unfoldable pub frame_offset : Conn → ℕ
frame_offset nc =
    let mem = nc.recv_mbuf in
    if reassembles nc
      && not (is_ws_first_fragment (at mem 0))
      && leb 5 (length mem)
      && leb (5 + read_size mem) (length mem)
    then 5 + read_size mem
    else 0

-- The first fragment, in a block that has stayed where it was: its header makes place for the flags
-- and the size.
unfoldable pub start_message : ℕ → Lengths → List ℕ → Conn → Option Conn
start_message off f mem nc =
    let flags = at mem 0 / 16 * 16 in
    let stomped = flags ∷ 0 ∷ 0 ∷ 0 ∷ 0 ∷ drop 5 mem in
    let from = off + f.header_len in
    let moved = take (length mem - from) (drop from stomped) in
    let held = record nc { recv_mbuf = flags ∷ (le32 (f.data_len % 2 ^ 32) ++ moved) } in
    Option.map (λ b. close_if b held) (get_elem? (moved ++ drop (5 + length moved) stomped) 0)

-- The first fragment. If the block has moved, `p`, `buf`, `e` and `sizep` still point into the old one,
-- which the next lines write to.
unfoldable pub first_fragment : Host → ℕ → Lengths → List ℕ → Conn → Option Conn
first_fragment tell off f mem nc = if tell.resize_stays nc then start_message off f mem nc else none

-- The end of a fragmented message, which lies within the input: the user's handler gets it, and it leaves the buffer.
unfoldable pub finish_message : Host → ℕ → ℕ → ℕ → Conn → Conn
finish_message tell off flags byte nc =
    let size = read_size nc.recv_mbuf in
    let wsm : WsMessage = record { payload = take size (drop 5 nc.recv_mbuf); flags = flags } in
    let after = incoming_frame tell wsm nc in
    let left = remove_front (5 + read_size after.recv_mbuf) after.recv_mbuf in
    close_if (get_or left off byte) (record after { recv_mbuf = left })

-- A further fragment: its payload goes behind the message so far, and the size grows. The user's
-- handler may read a whole message; one that is longer than the input is read outside of it.
unfoldable pub continue_message : Host → ℕ → Lengths → List ℕ → Conn → Option Conn
continue_message tell off f mem nc =
    let flags = at mem off in
    let moved = drop (off + f.header_len) mem in
    let joined = take off mem ++ moved in
    let size = (read_size joined + f.data_len) % 2 ^ 32 in
    let held = record nc { recv_mbuf = take 1 joined ++ (le32 size ++ drop 5 joined) } in
    if ltb (length joined) 5 || (leb 128 flags && ltb (length joined) (5 + size))
    then none
    else some (
        if leb 128 flags
        then finish_message tell off flags (get_or moved 0 flags) held
        else close_if (get_or moved 0 flags) held)

-- A frame that is no fragment: the user's handler gets it, and it leaves the buffer.
unfoldable pub whole_frame : Host → Lengths → ℕ → List ℕ → Conn → Conn
whole_frame tell f frame_len mem nc =
    let wsm : WsMessage = record {
      payload = take f.data_len (drop f.header_len mem);
      flags = at mem 0;
    } in
    let after = incoming_frame tell wsm (record nc { recv_mbuf = mem }) in
    let left = remove_front frame_len after.recv_mbuf in
    close_if (get_or left 0 (at mem 0)) (record after { recv_mbuf = left })

-- What is done with a frame that has arrived whole.
unfoldable pub deliver_frame : Host → ℕ → Lengths → ℕ → Conn → Option Conn
deliver_frame tell off f frame_len nc =
    let mem = take off nc.recv_mbuf ++ unmask f (drop off nc.recv_mbuf) in
    if reassembles nc
    then (if is_ws_first_fragment (at mem off)
        then first_fragment tell off f mem nc
        else continue_message tell off f mem nc)
    else some (whole_frame tell f frame_len mem nc)

-- `mg_deliver_websocket_data`: its result and the connection. A sum of the two lengths that wraps
-- around may be accepted though the payload has not arrived.
unfoldable pub deliver_websocket_data : Host → Conn → Option (Bool × Conn)
deliver_websocket_data tell nc =
    let off = frame_offset nc in
    let buf = drop off nc.recv_mbuf in
    let f = frame_lengths buf in
    let frame_len = (f.header_len + f.data_len) % 2 ^ 64 in
    if ltb 0 frame_len && leb frame_len (length buf)
    then (if leb (f.header_len + f.data_len) (length buf)
        then Option.map (λ after. (true, after)) (deliver_frame tell off f frame_len nc)
        else none)
    else some (false, nc)

-- What the loop of `mg_ws_handler` comes to: its end, a read or a write outside the buffer, or the
-- rounds used up.
pub data Drained : Type 0 where
  drained : Conn → Drained
  outside unfinished : Drained

-- `do {} while (mg_deliver_websocket_data(nc));`
unfoldable pub deliver_all : Host → ℕ → Conn → Drained
deliver_all tell zero nc = unfinished
deliver_all tell (suc rounds) nc = elim (deliver_websocket_data tell nc) [
  | none ↦ outside
  | some (again, after) ↦ elim again [
    | true ↦ deliver_all tell rounds after
    | false ↦ drained after
  ]
]

-- The MG_EV_POLL case of `mg_ws_handler`.
unfoldable pub ping_idle : ℕ → List ℕ → Conn → Conn
ping_idle now mask nc =
    if nc.flags.is_websocket && ltb (nc.last_ping_time + 5) now
    then send_websocket_frame now mask op_ping [] (record nc { last_ping_time = now })
    else nc
