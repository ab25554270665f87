-- ===== src/Net/Closing.antt =====
-- When a wake-up closes the connection, and what is left of it then.
use evmongoose.Common.{arith, ◌≡◌, ◌≢◌, true, false, none}
use evmongoose.Net.{Conn, ev_stop, Event, Handlers, close, call}
use evmongoose.Net.Handler.{Acts, Behaves, call-Acts}
use evmongoose.Net.Step.{destroy_sock, close_conn}

module _ (h : Handlers) where
  -- A closed connection has no socket; its watchers, if it had one, and its timer, unless it was a
  -- listening one, have been stopped, and its handler, which behaves, has not started them again.
  pub close_conn_released :
      (nc : Conn)
      → Behaves h
      → ((close_conn h nc).sock ≡ none)
        × (nc.sock ≢ none
            → ((close_conn h nc).watcher_r ≡ ev_stop) × ((close_conn h nc).watcher_w ≡ ev_stop))
        × ((close_conn h nc).flags.listening ≡ false → (close_conn h nc).timer ≡ ev_stop)
  unfolding close_conn
  close_conn_released nc b = (ground (arith, a.sock, gone), watchers, λ e. ground arith)
    where
      a : Acts (destroy_sock nc) (call h close (destroy_sock nc))
      a = call-Acts h b close (destroy_sock nc)

      gone : (destroy_sock nc).sock ≡ none
      gone = unfold destroy_sock in ground arith

      stopped :
          nc.sock ≢ none
          → ((destroy_sock nc).watcher_r ≡ ev_stop) × ((destroy_sock nc).watcher_w ≡ ev_stop)
      stopped s = unfold destroy_sock in ground arith

      watchers :
          nc.sock ≢ none
          → ((close_conn h nc).watcher_r ≡ ev_stop) × ((close_conn h nc).watcher_w ≡ ev_stop)
      watchers s = ground (arith, stopped s, a.reader, a.writer, gone)

  -- Neither handler takes back the request to close.
  pub record Resigned : Type 0 where
    pub user :
        (ev : Event) (c : Conn)
        → c.flags.close_immediately ≡ true
        → (h.user ev c).flags.close_immediately ≡ true
    pub proto :
        (ev : Event) (c : Conn)
        → c.flags.close_immediately ≡ true
        → (h.proto ev c).flags.close_immediately ≡ true
