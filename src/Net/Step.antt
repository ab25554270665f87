-- ===== src/Net/Step.antt =====
-- One wake-up of a connection by libev: the socket reads and writes of
-- src/mongoose.c (mongoose/src/net_if_socket.c) and the callbacks that evmongoose adds to it.
use evmongoose.Common.{
  ℕ, ◌-◌, Bool, true, false, not, ◌&&◌, ◌||◌, Option, none, some, List, [], ◌∷◌, ltb, ◌==◌,
  if◌then◌else◌, length, drop,
}
use evmongoose.Common.Int.{ℤ, pos, negsuc, is_zero}
use evmongoose.Net.{
  Conn, ev_init, ev_start, ev_stop, Handlers, close, set_flags, call, if_poll, if_connect_cb,
  if_accept_tcp_cb, if_sent_cb, recv_common,
}

-- `enum mg_ssl_if_result`, the results of `mg_ssl_if_handshake`.
pub data SslResult : Type 0 where
  ssl_ok ssl_want_read ssl_want_write ssl_error : SslResult

-- The read that ends the TLS loop: 0 (or no memory for another read), `MG_SSL_WANT_READ`, or
-- another negative result.
pub data SslLast : Type 0 where
  nothing_read wants_read read_failed : SslLast

-- What `send` and `sendto` return: a count, or -1 with `mg_is_error` false or true.
pub data Sent : Type 0 where
  sent : ℕ → Sent
  send_blocked send_broken : Sent

-- What `mg_ssl_if_write` returns: a count, one of the two waits, or another negative result.
pub data SslSent : Type 0 where
  ssl_sent : ℕ → SslSent
  ssl_wait ssl_unsent : SslSent

-- What `recv` returns: bytes, at least one, or 0, or -1 with `mg_is_error` false or true.
pub data Received : Type 0 where
  received : List ℕ → Received
  shut_down recv_blocked recv_broken : Received

-- The outside world during one wake-up.
pub record World : Type 0 where
  pub now : ℕ
  -- `getsockopt(SO_ERROR)`: the error, or none if the call fails.
  pub so_error : Option ℕ
  pub is_again : ℕ → Bool
  pub peer : ℕ
  pub handshake : SslResult
  -- `recv` by the number of bytes asked for.
  pub recv_plain : ℕ → Received
  -- The reads of the TLS loop that return bytes, and the result of the last one.
  pub ssl_chunks : List (List ℕ)
  pub ssl_last : SslLast
  pub send_plain : Sent
  pub send_ssl : SslSent
  -- Whether the receive buffer can be allocated.
  pub has_memory : Bool

abbrev pub tcp_recv_buffer_size : ℕ
tcp_recv_buffer_size = 1024

abbrev mark_broken : Conn → Conn
mark_broken nc = set_flags nc (record nc.flags { close_immediately = true })

-- `min` of the room in `recv_mbuf` and `max`.
unfoldable pub recv_avail_size : Conn → ℕ → ℕ
recv_avail_size conn max =
    if ltb conn.recv_mbuf_limit (length conn.recv_mbuf)
    then 0
    else let avail = conn.recv_mbuf_limit - length conn.recv_mbuf in
      if ltb max avail then max else avail

-- What follows the TLS loop, for the result of its last read.
unfoldable pub ssl_read_end : SslLast → Conn → Conn
ssl_read_end nothing_read conn = conn
ssl_read_end wants_read conn = conn
ssl_read_end read_failed conn = mark_broken conn

-- The error of a connect that libev reports as finished.
unfoldable pub connect_error : World → Conn → ℤ
connect_error w nc =
    if nc.flags.udp
    then pos 0
    else elim w.so_error [ none ↦ pos 1 | some e ↦ if w.is_again e then pos 0 else pos e ]

-- `mg_socket_if_destroy_conn`; `closesocket` is left out.
unfoldable pub destroy_sock : Conn → Conn
destroy_sock nc = elim nc.sock [
  | none ↦ nc
  | some s ↦ record nc { sock = none; watcher_r = ev_stop; watcher_w = ev_stop }
]

-- The connection lives on, or it was closed and released.
pub data Outcome : Type 0 where
  alive : Conn → Outcome
  closed : Conn → Outcome

-- The test that every callback of evmongoose makes.
abbrev pub must_close : Conn → Bool
must_close nc = nc.flags.close_immediately || (length nc.send_mbuf == 0 && nc.flags.send_and_close)

abbrev pub etimedout : ℤ
etimedout = pos 110

-- `mg_socket_if_add_conn`
unfoldable pub socket_add_conn : Conn → Conn
socket_add_conn nc = record nc { watcher_r = ev_start; watcher_w = ev_start }

-- `mg_add_conn`, but for the list of connections (see Links).
unfoldable pub add_conn : Conn → Conn
add_conn c =
    let watched : Conn = elim c.sock [ none ↦ c | some s ↦ socket_add_conn c ] in
    if c.flags.listening then watched else record watched { timer = ev_start }

module _ (h : Handlers) where
  -- `mg_ssl_begin`; the connection is on the server's side if it has a listener.
  unfoldable pub ssl_begin : World → Conn → Conn
  ssl_begin w nc = elim w.handshake [
    | ssl_ok ↦
        let done =
          set_flags nc (record nc.flags {
            ssl_handshake_done = true;
            want_read = false;
            want_write = false;
          }) in
        elim nc.listener [
          | none ↦ if_connect_cb h (pos 0) done
          | some lc ↦ if_accept_tcp_cb h w.peer done
        ]
    | ssl_want_read ↦ nc
    | ssl_want_write ↦ nc
    | ssl_error ↦
        mark_broken (elim nc.listener [ none ↦ if_connect_cb h (negsuc 2) nc | some lc ↦ nc ])
  ]

  -- The end of `mg_write_to_socket`: `n` bytes have gone out.
  unfoldable pub written : ℕ → Conn → Conn
  written n nc =
      if ltb 0 n then if_sent_cb h (pos n) (record nc { send_mbuf = drop n nc.send_mbuf }) else nc

  unfoldable pub write_plain : Sent → Conn → Conn
  write_plain (sent n) nc = written n nc
  write_plain send_blocked nc = nc
  write_plain send_broken nc = mark_broken nc

  -- `sendto` on a UDP socket; an error is ignored.
  unfoldable pub write_udp : Sent → Conn → Conn
  write_udp (sent n) nc = written n nc
  write_udp send_blocked nc = nc
  write_udp send_broken nc = nc

  unfoldable pub write_ssl : SslSent → Conn → Conn
  write_ssl (ssl_sent n) nc =
      written n (set_flags nc (record nc.flags { want_read = false; want_write = false }))
  write_ssl ssl_wait nc = nc
  write_ssl ssl_unsent nc = mark_broken nc

  unfoldable pub write_to_socket : World → Conn → Conn
  write_to_socket w nc =
      if nc.flags.udp
      then write_udp w.send_plain nc
      else if nc.flags.ssl
      then (if nc.flags.ssl_handshake_done then write_ssl w.send_ssl nc else ssl_begin w nc)
      else write_plain w.send_plain nc

  -- The loop of `mg_handle_tcp_read` over TLS reads, left after a chunk that closes the connection.
  unfoldable pub ssl_read : ℕ → List (List ℕ) → SslLast → Conn → Conn
  ssl_read now [] last conn = ssl_read_end last conn
  ssl_read now (chunk ∷ chunks) last conn =
      let after = recv_common h now chunk conn in
      let rest = ssl_read now chunks last after in
      if after.flags.close_immediately then after else rest

  unfoldable pub read_plain : ℕ → Received → Conn → Conn
  read_plain now (received buf) conn = recv_common h now buf conn
  read_plain now shut_down conn = set_flags conn (record conn.flags { send_and_close = true })
  read_plain now recv_blocked conn = conn
  read_plain now recv_broken conn = mark_broken conn

  unfoldable pub handle_tcp_read : World → Conn → Conn
  handle_tcp_read w conn =
      if not w.has_memory
      then conn
      else if conn.flags.ssl
      then (if conn.flags.ssl_handshake_done
          then ssl_read w.now w.ssl_chunks w.ssl_last conn
          else ssl_begin w conn)
      else read_plain w.now (w.recv_plain (recv_avail_size conn tcp_recv_buffer_size)) conn

  unfoldable pub finish_connect : World → Conn → Conn
  finish_connect w nc =
      if nc.flags.ssl && is_zero (connect_error w nc)
      then ssl_begin w nc
      else if_connect_cb h (connect_error w nc) nc

  -- The parts of `mg_mgr_handle_conn` for a descriptor that can be read or written. What a UDP
  -- socket or a listening one does to other connections is the argument `others`.
  unfoldable pub handle_read : (Conn → Conn) → World → Conn → Conn
  handle_read others w nc =
      if nc.flags.udp || nc.flags.listening then others nc else handle_tcp_read w nc

  unfoldable pub connect_first : World → Conn → Conn
  connect_first w nc = if nc.flags.connecting then finish_connect w nc else nc

  -- `mg_mgr_handle_conn(nc, _MG_F_FD_CAN_READ, now)`
  unfoldable pub handle_conn_read : (Conn → Conn) → World → Conn → Conn
  handle_conn_read others w nc = handle_read others w (connect_first w nc)

  -- `mg_mgr_handle_conn(nc, _MG_F_FD_CAN_WRITE, now)`
  unfoldable pub handle_conn_write : World → Conn → Conn
  handle_conn_write w nc =
      let ready = connect_first w nc in
      if not ready.flags.close_immediately && ltb 0 (length ready.send_mbuf)
      then write_to_socket w ready
      else ready

  -- `mg_close_conn`, up to the release of the memory.
  unfoldable pub close_conn : Conn → Conn
  close_conn nc =
      let told = call h close (destroy_sock nc) in
      if told.flags.listening then told else record told { timer = ev_stop }

  unfoldable pub ev_write_cb : World → Conn → Outcome
  ev_write_cb w nc =
      let after = handle_conn_write w nc in
      if must_close after
      then closed (close_conn after)
      else if length after.send_mbuf == 0
      then alive (record after { watcher_w = ev_stop })
      else alive after

  unfoldable pub ev_read_cb : (Conn → Conn) → World → Conn → Outcome
  ev_read_cb others w nc =
      let after = handle_conn_read others w nc in
      if must_close after then closed (close_conn after) else alive after

  unfoldable pub connection_timer_cb : ℕ → Conn → Outcome
  connection_timer_cb now nc =
      let polled = if_poll h now nc in
      let after =
        if polled.flags.connecting && ltb 5 (now - polled.last_io_time)
        then if_connect_cb h etimedout polled
        else polled in
      if must_close after then closed (close_conn after) else alive after

  -- `mg_accept_conn` without TLS: `nc` comes from `mg_if_accept_new_conn`, which added it with no
  -- socket.
  unfoldable pub accepted : ℕ → ℕ → Conn → Conn
  accepted sock sa nc = record (if_accept_tcp_cb h sa (record nc { sock = some sock })) {
    watcher_r = ev_start;
    watcher_w = ev_init;
  }
