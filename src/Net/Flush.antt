-- ===== src/Net/Flush.antt =====
-- Queued output is never forgotten: while a connection has bytes to send, its write watcher runs.
use evmongoose.Common.{
  arith, ℕ, ◌-◌, ◌≡◌, ◌≢◌, ◌⊎◌, inl, inr, Bool, false, some, List, [], ◌∷◌, Option-cases, length,
  ltb, if_split, if◌then◌else◌, ◌||◌, ◌&&◌, ◌==◌,
}
use mathlib.Core.Path.{subst}
use evmongoose.Net.{
  Conn, ev_start, ev_stop, Handlers, mg_send, if_poll, if_connect_cb, accept, call,
  if_accept_tcp_cb,
}
use evmongoose.Net.Handler.{Behaves, mg_send-Acts, call-Acts}
use evmongoose.Net.Keeps.{
  Flushing, idle, unconnected, watched, Keeps, Keeps-trans, Acts-Keeps, if_connect_cb-Keeps,
  if_poll-Keeps, handle_tcp_read-Keeps, connect_first-Keeps, handle_conn_write-Keeps,
}
use evmongoose.Net.Step.{
  World, connect_first, handle_read, handle_conn_read, handle_conn_write, alive, closed,
  ev_write_cb, ev_read_cb, connection_timer_cb, must_close, close_conn, add_conn, socket_add_conn,
  accepted, etimedout,
}

-- What `ev_write_cb` leaves of a living connection.
abbrev pub WriterRight : Conn → Type 0
WriterRight nc =
    ((nc.send_mbuf ≡ []) × (nc.watcher_w ≡ ev_stop))
    ⊎ ((nc.send_mbuf ≢ []) × (nc.watcher_w ≡ ev_start))

module _ (h : Handlers) (b : Behaves h) where
  -- After a wake-up for writing, which comes while the write watcher runs, a connection that lives
  -- on has the watcher running if bytes are left to send, and stopped if none are, with handlers
  -- that behave.
  pub ev_write_cb-WriterRight :
      (w : World) (nc nc' : Conn)
      → nc.watcher_w ≡ ev_start
      → ev_write_cb h w nc ≡ alive nc'
      → WriterRight nc'
  unfolding ev_write_cb
  ev_write_cb-WriterRight w nc nc' running e =
      let k = handle_conn_write-Keeps h b w nc in
      ground (arith, k.writer, nonempty (handle_conn_write h w nc).send_mbuf)
    where
      nonempty : (xs : List ℕ) → (length xs == 0) ≡ false → xs ≢ []
      nonempty [] f = cc
      nonempty (x ∷ xs) f = λ p. cc

  connection_timer_cb-Keeps :
      (now : ℕ) (nc nc' : Conn) → connection_timer_cb h now nc ≡ alive nc' → Keeps nc nc'
  unfolding connection_timer_cb
  connection_timer_cb-Keeps now nc nc' e = subst (Keeps nc) (alive_after e) both
    where
      polled : Conn
      polled = if_poll h now nc

      late : Bool
      late = polled.flags.connecting && ltb 5 (now - polled.last_io_time)

      after : Conn
      after = if late then if_connect_cb h etimedout polled else polled

      both : Keeps nc after
      both =
          if_split (Keeps nc) late
            (λ _. Keeps-trans (if_poll-Keeps h b now nc) (if_connect_cb-Keeps h b etimedout polled))
            (λ _. if_poll-Keeps h b now nc)

      alive_after :
          (if must_close after then closed (close_conn h after) else alive after) ≡ alive nc'
          → after ≡ nc'
      alive_after p = ground arith

  module _ (others : Conn → Conn) (others_keep : (c : Conn) → Keeps c (others c)) where
    ev_read_cb-Keeps :
        (w : World) (nc nc' : Conn) → ev_read_cb h others w nc ≡ alive nc' → Keeps nc nc'
    unfolding ev_read_cb handle_conn_read handle_read
    ev_read_cb-Keeps w nc nc' e = subst (Keeps nc) (alive_after e) both
      where
        ready : Conn
        ready = connect_first h w nc

        after : Conn
        after = handle_conn_read h others w nc

        both : Keeps nc after
        both = Keeps-trans (connect_first-Keeps h b w nc) (
            if_split (Keeps ready) (ready.flags.udp || ready.flags.listening)
              (λ _. others_keep ready) (λ _. handle_tcp_read-Keeps h b w ready))

        alive_after :
            (if must_close after then closed (close_conn h after) else alive after) ≡ alive nc'
            → after ≡ nc'
        alive_after p = ground arith

    -- One event in the life of a connection: a wake-up for reading, for writing (while the write
    -- watcher runs) or by the timer that it survives, or a call of `mg_send` from outside.
    pub data Wakes : Conn → Conn → Type 0 where
      by_read : {nc nc' : Conn} (w : World) → ev_read_cb h others w nc ≡ alive nc' → Wakes nc nc'
      by_write :
          {nc nc' : Conn} (w : World)
          → nc.watcher_w ≡ ev_start
          → ev_write_cb h w nc ≡ alive nc'
          → Wakes nc nc'
      by_timer : {nc nc' : Conn} (now : ℕ) → connection_timer_cb h now nc ≡ alive nc' → Wakes nc nc'
      by_send : {nc nc' : Conn} (now : ℕ) (buf : List ℕ) → mg_send now buf nc ≡ nc' → Wakes nc nc'

    pub data Lives (first : Conn) : Conn → Type 0 where
      born : {nc : Conn} → add_conn first ≡ nc → Lives first nc
      wakes : {nc nc' : Conn} → Lives first nc → Wakes nc nc' → Lives first nc'

    add_conn-Flushing : (c : Conn) → Flushing (add_conn c)
    unfolding add_conn socket_add_conn
    add_conn-Flushing c = elim (Option-cases c.sock) [
      | inl e ↦ unconnected (ground arith)
      | inr (s, e) ↦ watched (ground arith)
    ]

    Wakes-Flushing : {nc nc' : Conn} → Wakes nc nc' → Flushing nc → Flushing nc'
    Wakes-Flushing {nc} {nc'} (by_read w e) f = (ev_read_cb-Keeps w nc nc' e).flushing f
    Wakes-Flushing {nc} {nc'} (by_write w r e) f = elim (ev_write_cb-WriterRight w nc nc' r e) [
      | inl (none_left, _) ↦ idle none_left
      | inr (_, running) ↦ watched running
    ]
    Wakes-Flushing {nc} {nc'} (by_timer now e) f =
        (connection_timer_cb-Keeps now nc nc' e).flushing f
    Wakes-Flushing {nc} {nc'} (by_send now buf e) f =
        subst Flushing e ((Acts-Keeps nc _ (mg_send-Acts now buf nc)).flushing f)

    -- From the moment that `mg_add_conn` takes a connection, with the socket that it has then, and
    -- through any wake-ups and timer ticks that it survives and any calls of `mg_send`, queued bytes
    -- never stand on a socket whose write watcher is not running. The handlers behave, and what a UDP
    -- or listening socket does for others keeps this of its own connection. No step sets a socket, and
    -- none is `mg_accept_conn`, which does not keep this.
    pub Lives-Flushing : {first nc : Conn} → Lives first nc → Flushing nc
    Lives-Flushing {first} (born e) = subst Flushing e (add_conn-Flushing first)
    Lives-Flushing (wakes l s) = Wakes-Flushing s (Lives-Flushing l)

  -- A connection that `mg_accept_conn` has just set up waits with its output: what the handler of
  -- MG_EV_ACCEPT queued, if it queued something, stands on a live socket with the write watcher not
  -- started. The handlers behave.
  pub accepted-not-Flushing :
      (sock sa : ℕ) (nc : Conn)
      → (call h accept (record nc { sock = some sock; sa = sa })).send_mbuf ≢ []
      → ¬ Flushing (accepted h sock sa nc)
  unfolding accepted if_accept_tcp_cb
  accepted-not-Flushing sock sa nc queued (idle e) = queued e
  accepted-not-Flushing sock sa nc queued (unconnected e) =
      let r = call-Acts h b accept (record nc { sock = some sock; sa = sa }) in cc (r.sock)
  accepted-not-Flushing sock sa nc queued (watched e) = cc
