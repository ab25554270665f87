-- ===== src/Net.antt =====
-- The event-driven connections of src/mongoose.c (mongoose/src/net.c and net_if_socket.c), as
-- evmongoose drives them by libev.
--
-- A connection is a record of the fields of `struct mg_connection` that this code reads or writes.
-- The two buffers are the bytes that they hold, which the module Mbuf proves of `struct mbuf` while
-- there is memory. Of a libev watcher the record keeps the last call that the code made on it, and
-- nothing of what libev does. Time, sockets, TLS and the event handlers are arguments.
pub mod Step
pub mod Handler
pub mod Queue
pub mod Keeps
pub mod Flush
pub mod Closing
pub mod Limit
pub mod Links
pub mod Samples
mod Tests
use evmongoose.Common.{
  ℕ, ◌+◌, ◌-◌, ◌≤◌, ◌≡◌, Bool, true, false, not, ◌&&◌, ◌||◌, Option, none, some, List, [], ◌++◌,
  ◌%◌, ◌^◌, take, ltb, leb, ◌==◌, if◌then◌else◌, length, drop,
}
use evmongoose.Common.Int.{ℤ, pos, negsuc, is_zero}

-- The bits `MG_F_...` of `nc->flags`.
pub record Flags : Type 0 where
  pub listening : Bool
  pub udp : Bool
  pub resolving : Bool
  pub connecting : Bool
  pub ssl : Bool
  pub ssl_handshake_done : Bool
  pub want_read : Bool
  pub want_write : Bool
  pub is_websocket : Bool
  pub send_and_close : Bool
  pub close_immediately : Bool
  pub websocket_no_defrag : Bool
  pub delete_chunk : Bool
  pub enable_broadcast : Bool
  pub tun_do_not_reconnect : Bool
  pub user : List Bool

-- The last libev call that the code made on a watcher.
pub data EvCall : Type 0 where
  untouched ev_init ev_start ev_stop : EvCall

pub record Conn : Type 0 where
  pub listener : Option ℕ
  pub watcher_r : EvCall
  pub watcher_w : EvCall
  pub timer : EvCall
  pub sock : Option ℕ
  pub err : ℕ
  pub sa : ℕ
  pub recv_mbuf_limit : ℕ
  pub recv_mbuf : List ℕ
  pub send_mbuf : List ℕ
  pub last_io_time : ℕ
  pub last_ping_time : ℕ
  pub ev_timer_time : ℕ
  pub has_proto_handler : Bool
  pub has_handler : Bool
  pub flags : Flags

-- `MG_EV_...` with the value behind `ev_data`.
pub data Event : Type 0 where
  poll : ℕ → Event
  accept : Event
  connect : ℤ → Event
  recv : ℕ → Event
  send : ℤ → Event
  close : Event
  timer : ℕ → Event

-- What `nc->handler` and `nc->proto_handler` make of the connection.
pub record Handlers : Type 0 where
  pub user : Event → Conn → Conn
  pub proto : Event → Conn → Conn

-- `(flags_before & ~MASK) | (nc->flags & MASK)` for `_MG_CALLBACK_MODIFIABLE_FLAGS_MASK`.
unfoldable pub keep_system_flags : Flags → Flags → Flags
keep_system_flags before after = record before {
  user = after.user;
  websocket_no_defrag = after.websocket_no_defrag;
  send_and_close = after.send_and_close;
  close_immediately = after.close_immediately;
  is_websocket = after.is_websocket;
  delete_chunk = after.delete_chunk;
}

abbrev pub set_flags : Conn → Flags → Conn
set_flags nc f = record nc { flags = f }

-- What of `buf` is queued, when its length is handed over as the `int len`: the length is taken modulo
-- 2 ^ 32, and a negative one is more than `mbuf_append` finds room for.
unfoldable pub passed : List ℕ → List ℕ
passed buf = let len = length buf % 2 ^ 32 in if ltb len (2 ^ 31) then take len buf else []

-- `mg_socket_if_tcp_send` and `mg_socket_if_udp_send`, and the write watcher that evmongoose starts.
unfoldable pub mg_send : ℕ → List ℕ → Conn → Conn
mg_send now buf nc =
    let queued = record nc { last_io_time = now; send_mbuf = nc.send_mbuf ++ passed buf } in
    elim nc.sock [ none ↦ queued | some s ↦ record queued { watcher_w = ev_start } ]

-- `mbuf_remove`, on the bytes held.
unfoldable pub remove_front : ℕ → List ℕ → List ℕ
remove_front n mem = if ltb 0 n && leb n (length mem) then drop n mem else mem

module _ (h : Handlers) where
  -- The call of `nc->handler`, which it does not replace meanwhile.
  unfoldable pub call_user : Event → Conn → Conn
  call_user ev nc =
      let after = h.user ev nc in record after { flags = keep_system_flags nc.flags after.flags }

  -- `mg_call(nc, NULL, ev, ev_data)`: the protocol handler if there is one, else the user's. The
  -- socket interface ignores `recved`.
  unfoldable pub call : Event → Conn → Conn
  call ev nc =
      if nc.has_proto_handler then h.proto ev nc else if nc.has_handler then call_user ev nc else nc

  unfoldable pub if_timer : ℕ → Conn → Conn
  if_timer now c =
      let after = call (timer now) c in
      if ltb 0 c.ev_timer_time && leb c.ev_timer_time now
      then (if after.ev_timer_time == c.ev_timer_time
          then record after { ev_timer_time = 0 }
          else after)
      else c

  unfoldable pub if_poll : ℕ → Conn → Conn
  if_poll now nc =
      if not nc.flags.ssl || nc.flags.ssl_handshake_done then call (poll now) nc else nc

  unfoldable pub if_connect_cb : ℤ → Conn → Conn
  if_connect_cb err nc =
      let f = record nc.flags { connecting = false } in
      call (connect err)
        (set_flags nc (if is_zero err then f else record f { close_immediately = true }))

  unfoldable pub if_accept_tcp_cb : ℕ → Conn → Conn
  if_accept_tcp_cb sa nc = call accept (record nc { sa = sa })

  unfoldable pub if_sent_cb : ℤ → Conn → Conn
  if_sent_cb (pos n) nc = call (send (pos n)) nc
  if_sent_cb (negsuc n) nc =
      call (send (negsuc n)) (set_flags nc (record nc.flags { close_immediately = true }))

  -- `mg_recv_common`, also as `mg_if_recv_tcp_cb`; both ways of taking `buf` add its bytes.
  unfoldable pub recv_common : ℕ → List ℕ → Conn → Conn
  recv_common now buf nc =
      if nc.flags.close_immediately
      then nc
      else call (recv (length buf))
          (record nc { last_io_time = now; recv_mbuf = nc.recv_mbuf ++ buf })
