-- ===== src/Net/Tests.antt =====
-- Runs of the connections on concrete inputs.
use evmongoose.Common.{
  arith, ℕ, zero, suc, ◌≡◌, ◌≢◌, ◌≤◌, refl, true, false, none, some, List, [], ◌∷◌, length,
}
use evmongoose.Net.{
  Conn, ev_start, ev_stop, Event, accept, recv, Handlers, mg_send, passed, call_user, call,
  keep_system_flags, if_sent_cb,
}
use evmongoose.Net.Samples.{no_flags, fresh}
use evmongoose.Net.Handler.{Behaves, Acts, Acts_refl, mg_send-Acts}
use evmongoose.Net.Keeps.{Flushing, Keeps-refl}
use evmongoose.Net.Step.{
  World, ssl_ok, nothing_read, sent, ssl_wait, received, shut_down, Received, alive, add_conn,
  socket_add_conn, handle_conn_write, connect_first, write_to_socket, write_plain, written,
  ev_write_cb, close_conn, handle_tcp_read, recv_avail_size, tcp_recv_buffer_size,
}
use evmongoose.Net.Flush.{
  WriterRight, ev_write_cb-WriterRight, Lives-Flushing, born, wakes, by_send, by_write,
}
use evmongoose.Net.Closing.{close_conn_released}
use evmongoose.Net.Limit.{IsPlain, read_within_limit}
use evmongoose.Net.Links.{Links, link, unlink, Holds, link-Holds}
use evmongoose.Net.Links.Unlink.{unlink-Holds}

-- A handler that greets a new peer.
abbrev greet : Event → Conn → Conn
greet accept nc = mg_send 7 (72 ∷ 105 ∷ []) nc
greet ev nc = nc

abbrev greeter : Handlers
greeter = record { user = greet; proto = λ ev nc. nc }

greeter-Behaves : Behaves greeter
greeter-Behaves = record { user = user; proto = λ ev nc. Acts_refl nc }
  where
    user : (ev : Event) (nc : Conn) → Acts nc (greet ev nc)
    user accept nc = mg_send-Acts 7 (72 ∷ 105 ∷ []) nc
    user ev nc = Acts_refl nc

-- A socket that takes one byte at a time and brings two.
abbrev slow_recv : ℕ → Received
slow_recv zero = shut_down
slow_recv (suc zero) = received (8 ∷ [])
slow_recv (suc (suc n)) = received (8 ∷ 9 ∷ [])

abbrev slow : World
slow = record {
  now = 20;
  so_error = some 0;
  is_again = λ e. false;
  peer = 1;
  handshake = ssl_ok;
  recv_plain = slow_recv;
  ssl_chunks = [];
  ssl_last = nothing_read;
  send_plain = sent 1;
  send_ssl = ssl_wait;
  has_memory = true;
}

abbrev waiting : Conn
waiting = record fresh { send_mbuf = 1 ∷ 2 ∷ []; watcher_r = ev_start; watcher_w = ev_start }

abbrev partly_sent : Conn
partly_sent = record waiting { send_mbuf = 2 ∷ [] }

writes_one : ev_write_cb greeter slow waiting ≡ alive partly_sent
unfolding ev_write_cb handle_conn_write connect_first write_to_socket write_plain written if_sent_cb
    call call_user keep_system_flags
writes_one = refl

ev_write_cb-WriterRight_example : WriterRight partly_sent
ev_write_cb-WriterRight_example =
    ev_write_cb-WriterRight greeter greeter-Behaves slow waiting partly_sent refl writes_one

abbrev started : Conn
started = record fresh { watcher_r = ev_start; watcher_w = ev_start; timer = ev_start }

begins : add_conn fresh ≡ started
unfolding add_conn socket_add_conn
begins = refl

abbrev queued : Conn
queued = record started { send_mbuf = 1 ∷ 2 ∷ []; last_io_time = 5 }

queues : mg_send 5 (1 ∷ 2 ∷ []) started ≡ queued
unfolding mg_send passed
queues = refl

abbrev flushed_one : Conn
flushed_one = record queued { send_mbuf = 2 ∷ [] }

flushes_one : ev_write_cb greeter slow queued ≡ alive flushed_one
unfolding ev_write_cb handle_conn_write connect_first write_to_socket write_plain written if_sent_cb
    call call_user keep_system_flags
flushes_one = refl

Lives-Flushing_example : Flushing flushed_one
Lives-Flushing_example =
    Lives-Flushing greeter greeter-Behaves (λ c. c) Keeps-refl {first = fresh} {nc = flushed_one}
      (wakes {nc = queued} (wakes {nc = started} (born begins) (by_send 5 (1 ∷ 2 ∷ []) queues))
        (by_write slow refl flushes_one))

greets : (call greeter accept (record fresh { sock = some 4; sa = 1 })).send_mbuf ≡ 72 ∷ 105 ∷ []
unfolding call call_user keep_system_flags mg_send passed
greets = refl

close_conn_released_example :
    ((close_conn greeter waiting).sock ≡ none)
    × (waiting.sock ≢ none
        → ((close_conn greeter waiting).watcher_r ≡ ev_stop)
          × ((close_conn greeter waiting).watcher_w ≡ ev_stop))
    × ((close_conn greeter waiting).flags.listening ≡ false
        → (close_conn greeter waiting).timer ≡ ev_stop)
close_conn_released_example = close_conn_released greeter waiting greeter-Behaves

abbrev stuck : Conn
stuck = record started { flags = record no_flags { connecting = true } }

fresh-IsPlain : IsPlain fresh
fresh-IsPlain = record { tcp = refl; connection = refl; connected = refl; unencrypted = refl }

reads_two : slow.recv_plain (recv_avail_size fresh tcp_recv_buffer_size) ≡ received (8 ∷ 9 ∷ [])
unfolding recv_avail_size
reads_two = refl

never_more : (n : ℕ) (bs : List ℕ) → slow_recv n ≡ received bs → length bs ≤ n
never_more zero bs e = absurd (cc)
never_more (suc zero) bs e = ground arith
never_more (suc (suc n)) bs e = ground arith

read_within_limit_example :
    (handle_tcp_read greeter slow fresh
      ≡ call greeter (recv 2) (record fresh { last_io_time = 20; recv_mbuf = 8 ∷ 9 ∷ [] }))
    × (2 ≤ 4)
read_within_limit_example =
    read_within_limit greeter slow fresh refl fresh-IsPlain (8 ∷ 9 ∷ []) (omega arith) refl
      never_more reads_two

abbrev full : Conn
full = record fresh { recv_mbuf = 5 ∷ 6 ∷ 7 ∷ 8 ∷ [] }

full-IsPlain : IsPlain full
full-IsPlain = record { tcp = refl; connection = refl; connected = refl; unencrypted = refl }

abbrev no_links : Links
no_links = record { active_connections = none; next = λ k. none; prev = λ k. none }

no_links-Holds : Holds no_links []
no_links-Holds = record { segment = refl; distinct = tt }

one_link-Holds : Holds (link 4 no_links) (4 ∷ [])
one_link-Holds = link-Holds 4 no_links [] tt no_links-Holds

two_links-Holds : Holds (link 6 (link 4 no_links)) (6 ∷ 4 ∷ [])
two_links-Holds = link-Holds 6 (link 4 no_links) (4 ∷ []) (λ e. omega arith, tt) one_link-Holds

unlink-Holds_example : Holds (unlink 4 (link 6 (link 4 no_links))) (6 ∷ [])
unlink-Holds_example = unlink-Holds 4 (link 6 (link 4 no_links)) (6 ∷ []) [] two_links-Holds
