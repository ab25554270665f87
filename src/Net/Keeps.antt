-- ===== src/Net/Keeps.antt =====
-- What each step of a wake-up keeps of the socket, the write watcher and the queued output.
use evmongoose.Common.{
  arith, ℕ, ◌≡◌, refl, ◌∙◌, ap, ◌⊎◌, inl, inr, none, List, [], ◌∷◌, length, drop, drop-nil, ltb,
  if_split, option_split, not, ◌||◌, ◌&&◌,
}
use evmongoose.Common.Int.{ℤ, pos, negsuc, is_zero}
use evmongoose.Net.{
  Conn, ev_start, Event, Handlers, call, if_poll, if_connect_cb, if_accept_tcp_cb, if_sent_cb,
  recv_common, accept, connect, recv, send, poll,
}
use evmongoose.Net.Handler.{Acts, Behaves, call-Acts}
use evmongoose.Net.Step.{
  World, SslResult, ssl_ok, ssl_want_read, ssl_want_write, ssl_error, SslLast, nothing_read,
  wants_read, read_failed, Sent, sent, send_blocked, send_broken, SslSent, ssl_sent, ssl_wait,
  ssl_unsent, Received, received, shut_down, recv_blocked, recv_broken, ssl_begin, written,
  write_plain, write_udp, write_ssl, write_to_socket, ssl_read_end, ssl_read, read_plain,
  handle_tcp_read, finish_connect, connect_first, handle_conn_write, recv_avail_size,
  tcp_recv_buffer_size, connect_error,
}

-- Nothing to send, or no socket to send it on, or a running write watcher.
pub data Flushing (nc : Conn) : Type 0 where
  idle : nc.send_mbuf ≡ [] → Flushing nc
  unconnected : nc.sock ≡ none → Flushing nc
  watched : nc.watcher_w ≡ ev_start → Flushing nc

-- What every step of a wake-up keeps.
pub record Keeps (a b : Conn) : Type 0 where
  pub sock : b.sock ≡ a.sock
  pub writer : (b.watcher_w ≡ a.watcher_w) ⊎ (b.watcher_w ≡ ev_start)
  pub flushing : Flushing a → Flushing b

pub Keeps-refl : (a : Conn) → Keeps a a
Keeps-refl a = record { sock = refl; writer = inl refl; flushing = λ f. f }

pub Keeps-trans : {a b c : Conn} → Keeps a b → Keeps b c → Keeps a c
Keeps-trans p q = record {
  sock = q.sock ∙ p.sock;
  writer = ground (arith, p.writer, q.writer);
  flushing = λ f. q.flushing (p.flushing f);
}

-- A change of the flags, of the input or of the times.
pub Keeps-same :
    (a b : Conn)
    → b.sock ≡ a.sock
    → b.watcher_w ≡ a.watcher_w
    → b.send_mbuf ≡ a.send_mbuf
    → Keeps a b
Keeps-same a b s w m = record { sock = s; writer = inl w; flushing = kept }
  where
    kept : Flushing a → Flushing b
    kept (idle e) = idle (m ∙ e)
    kept (unconnected e) = unconnected (s ∙ e)
    kept (watched e) = watched (w ∙ e)

pub Acts-Keeps : (a b : Conn) → Acts a b → Keeps a b
Acts-Keeps a b r = record { sock = r.sock; writer = ground (arith, r.writer); flushing = kept }
  where
    kept : Flushing a → Flushing b
    kept (idle e) = elim r.woken [
      | inl none_added ↦ idle (ground (arith, r.queue))
      | inr (inl no_sock) ↦ unconnected (r.sock ∙ no_sock)
      | inr (inr woken) ↦ watched woken
    ]
    kept (unconnected e) = unconnected (r.sock ∙ e)
    kept (watched e) = watched (ground (arith, r.writer))

drop-Keeps : (n : ℕ) (nc : Conn) → Keeps nc (record nc { send_mbuf = drop n nc.send_mbuf })
drop-Keeps n nc = record { sock = refl; writer = inl refl; flushing = kept }
  where
    kept : Flushing nc → Flushing (record nc { send_mbuf = drop n nc.send_mbuf })
    kept (idle e) = idle (ap (drop n) e ∙ drop-nil n)
    kept (unconnected e) = unconnected e
    kept (watched e) = watched e

module _ (h : Handlers) (b : Behaves h) where
  call-Keeps : (ev : Event) (nc : Conn) → Keeps nc (call h ev nc)
  call-Keeps ev nc = Acts-Keeps nc (call h ev nc) (call-Acts h b ev nc)

  -- A call on a connection whose flags, input or times were set before.
  after_call :
      (ev : Event) (nc m : Conn)
      → m.sock ≡ nc.sock
      → m.watcher_w ≡ nc.watcher_w
      → m.send_mbuf ≡ nc.send_mbuf
      → Keeps nc (call h ev m)
  after_call ev nc m s w q = Keeps-trans (Keeps-same nc m s w q) (call-Keeps ev m)

  pub if_connect_cb-Keeps : (err : ℤ) (nc : Conn) → Keeps nc (if_connect_cb h err nc)
  unfolding if_connect_cb
  if_connect_cb-Keeps err nc = after_call (connect err) nc _ refl refl refl

  if_accept_tcp_cb-Keeps : (sa : ℕ) (nc : Conn) → Keeps nc (if_accept_tcp_cb h sa nc)
  unfolding if_accept_tcp_cb
  if_accept_tcp_cb-Keeps sa nc = after_call accept nc _ refl refl refl

  recv_common-Keeps : (now : ℕ) (buf : List ℕ) (nc : Conn) → Keeps nc (recv_common h now buf nc)
  unfolding recv_common
  recv_common-Keeps now buf nc =
      if_split (Keeps nc) nc.flags.close_immediately (λ _. Keeps-refl nc)
        (λ _. after_call (recv (length buf)) nc _ refl refl refl)

  pub if_poll-Keeps : (now : ℕ) (nc : Conn) → Keeps nc (if_poll h now nc)
  unfolding if_poll
  if_poll-Keeps now nc =
      if_split (Keeps nc) (not nc.flags.ssl || nc.flags.ssl_handshake_done)
        (λ _. call-Keeps (poll now) nc) (λ _. Keeps-refl nc)

  written-Keeps : (n : ℕ) (nc : Conn) → Keeps nc (written h n nc)
  unfolding written if_sent_cb
  written-Keeps n nc =
      if_split (Keeps nc) (ltb 0 n)
        (λ _. Keeps-trans (drop-Keeps n nc) (call-Keeps (send (pos n)) _)) (λ _. Keeps-refl nc)

  same :
      (nc m : Conn)
      → m.sock ≡ nc.sock
      → m.watcher_w ≡ nc.watcher_w
      → m.send_mbuf ≡ nc.send_mbuf
      → Keeps nc m
  same = Keeps-same

  ssl_begin-Keeps : (w : World) (nc : Conn) → Keeps nc (ssl_begin h w nc)
  unfolding ssl_begin
  ssl_begin-Keeps w nc = ssl_step w.handshake
    where
      ssl_step : (r : SslResult) → Keeps nc (ssl_begin h (record w { handshake = r }) nc)
      ssl_step ssl_ok =
          option_split (Keeps nc) nc.listener
            (λ _. Keeps-trans (Keeps-same nc _ refl refl refl) (if_connect_cb-Keeps (pos 0) _))
            (λ lc _. Keeps-trans (Keeps-same nc _ refl refl refl) (if_accept_tcp_cb-Keeps w.peer _))
      ssl_step ssl_want_read = Keeps-refl nc
      ssl_step ssl_want_write = Keeps-refl nc
      ssl_step ssl_error =
          Keeps-trans
            (option_split (Keeps nc) nc.listener (λ _. if_connect_cb-Keeps (negsuc 2) nc)
              (λ lc _. Keeps-refl nc))
            (Keeps-same _ _ refl refl refl)

  write_plain-Keeps : (s : Sent) (nc : Conn) → Keeps nc (write_plain h s nc)
  unfolding write_plain
  write_plain-Keeps (sent n) nc = written-Keeps n nc
  write_plain-Keeps send_blocked nc = Keeps-refl nc
  write_plain-Keeps send_broken nc = same nc _ refl refl refl

  write_udp-Keeps : (s : Sent) (nc : Conn) → Keeps nc (write_udp h s nc)
  unfolding write_udp
  write_udp-Keeps (sent n) nc = written-Keeps n nc
  write_udp-Keeps send_blocked nc = Keeps-refl nc
  write_udp-Keeps send_broken nc = Keeps-refl nc

  write_ssl-Keeps : (s : SslSent) (nc : Conn) → Keeps nc (write_ssl h s nc)
  unfolding write_ssl
  write_ssl-Keeps (ssl_sent n) nc = Keeps-trans (same nc _ refl refl refl) (written-Keeps n _)
  write_ssl-Keeps ssl_wait nc = Keeps-refl nc
  write_ssl-Keeps ssl_unsent nc = same nc _ refl refl refl

  write_to_socket-Keeps : (w : World) (nc : Conn) → Keeps nc (write_to_socket h w nc)
  unfolding write_to_socket
  write_to_socket-Keeps w nc =
      if_split (Keeps nc) nc.flags.udp (λ _. write_udp-Keeps w.send_plain nc)
        (λ _.
          if_split (Keeps nc) nc.flags.ssl
            (λ _.
              if_split (Keeps nc) nc.flags.ssl_handshake_done (λ _. write_ssl-Keeps w.send_ssl nc)
                (λ _. ssl_begin-Keeps w nc))
            (λ _. write_plain-Keeps w.send_plain nc))

  ssl_read-Keeps :
      (now : ℕ) (chunks : List (List ℕ)) (last : SslLast) (nc : Conn)
      → Keeps nc (ssl_read h now chunks last nc)
  unfolding ssl_read ssl_read_end
  ssl_read-Keeps now [] nothing_read nc = Keeps-refl nc
  ssl_read-Keeps now [] wants_read nc = Keeps-refl nc
  ssl_read-Keeps now [] read_failed nc = same nc _ refl refl refl
  ssl_read-Keeps now (chunk ∷ chunks) last nc =
      let after = recv_common h now chunk nc in
      let first = recv_common-Keeps now chunk nc in
      if_split (Keeps nc) after.flags.close_immediately (λ _. first)
        (λ _. Keeps-trans first (ssl_read-Keeps now chunks last after))

  read_plain-Keeps : (now : ℕ) (r : Received) (nc : Conn) → Keeps nc (read_plain h now r nc)
  unfolding read_plain
  read_plain-Keeps now (received buf) nc = recv_common-Keeps now buf nc
  read_plain-Keeps now shut_down nc = same nc _ refl refl refl
  read_plain-Keeps now recv_blocked nc = Keeps-refl nc
  read_plain-Keeps now recv_broken nc = same nc _ refl refl refl

  pub handle_tcp_read-Keeps : (w : World) (nc : Conn) → Keeps nc (handle_tcp_read h w nc)
  unfolding handle_tcp_read
  handle_tcp_read-Keeps w nc =
      if_split (Keeps nc) (not w.has_memory) (λ _. Keeps-refl nc)
        (λ _.
          if_split (Keeps nc) nc.flags.ssl
            (λ _.
              if_split (Keeps nc) nc.flags.ssl_handshake_done
                (λ _. ssl_read-Keeps w.now w.ssl_chunks w.ssl_last nc) (λ _. ssl_begin-Keeps w nc))
            (λ _.
              read_plain-Keeps w.now (w.recv_plain (recv_avail_size nc tcp_recv_buffer_size)) nc))

  pub connect_first-Keeps : (w : World) (nc : Conn) → Keeps nc (connect_first h w nc)
  unfolding connect_first finish_connect
  connect_first-Keeps w nc =
      if_split (Keeps nc) nc.flags.connecting
        (λ _.
          if_split (Keeps nc) (nc.flags.ssl && is_zero (connect_error w nc))
            (λ _. ssl_begin-Keeps w nc) (λ _. if_connect_cb-Keeps (connect_error w nc) nc))
        (λ _. Keeps-refl nc)

  pub handle_conn_write-Keeps : (w : World) (nc : Conn) → Keeps nc (handle_conn_write h w nc)
  unfolding handle_conn_write
  handle_conn_write-Keeps w nc =
      let ready = connect_first h w nc in
      let first = connect_first-Keeps w nc in
      if_split (Keeps nc) (not ready.flags.close_immediately && ltb 0 (length ready.send_mbuf))
        (λ _. Keeps-trans first (write_to_socket-Keeps w ready)) (λ _. first)
