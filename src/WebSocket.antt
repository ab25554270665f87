-- ===== src/WebSocket.antt =====
-- WebSocket frames of src/mongoose.c (mongoose/src/http_websocket.c).
--
-- The receive buffer of a connection is the list of its bytes, as in Net. While a fragmented message
-- is put together it holds a byte of flags, the size so far as a 32-bit little-endian number, the
-- payload so far, and what has arrived behind it. The result `none` of the receiver is a read or a
-- write outside the bytes received.
pub mod Send
pub mod Deliver
pub mod Masks
pub mod Header
pub mod Whole
pub mod RoundTrip
pub mod Pending
pub mod Ends
pub mod Joined
pub mod Loop
pub mod Grown
mod Tests
use evmongoose.Common.{
  ℕ, suc, ◌+◌, ◌/◌, ◌%◌, ◌^◌, Bool, not, ◌&&◌, ◌||◌, List, [], ◌∷◌, bit_xor, leb, ◌==◌, get_or,
}

abbrev pub op_continue : ℕ
op_continue = 0

abbrev pub op_close : ℕ
op_close = 8

abbrev pub op_ping : ℕ
op_ping = 9

-- `struct websocket_message`: the `size` bytes at `data`, and the flags.
pub record WsMessage : Type 0 where
  pub payload : List ℕ
  pub flags : ℕ

unfoldable pub is_ws_fragment : ℕ → Bool
is_ws_fragment flags = not (leb 128 flags) || flags % 16 == 0

unfoldable pub is_ws_first_fragment : ℕ → Bool
is_ws_first_fragment flags = not (leb 128 flags) && not (flags % 16 == 0)

-- The bytes from the `i`-th of a payload on, under the four bytes of a mask.
unfoldable pub xor_mask : List ℕ → ℕ → List ℕ → List ℕ
xor_mask mask i [] = []
xor_mask mask i (b ∷ bs) = bit_xor b (get_or mask (i % 4) 0) ∷ xor_mask mask (suc i) bs

-- `htonl`, in memory.
abbrev pub be32 : ℕ → List ℕ
be32 n = n / 2 ^ 24 % 256 ∷ n / 2 ^ 16 % 256 ∷ n / 2 ^ 8 % 256 ∷ n % 256 ∷ []
