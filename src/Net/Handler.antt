-- ===== src/Net/Handler.antt =====
-- What the code relies on of an event handler, and what `mg_call` guarantees whatever it does.
use evmongoose.Common.{
  arith, ℕ, ◌≡◌, ◌≢◌, refl, ◌⊎◌, inl, inr, none, List, [], ◌++◌, Option-cases, append-nil, sym,
  if_split,
}
use evmongoose.Net.{
  Flags, Conn, ev_start, Event, Handlers, keep_system_flags, call_user, call, mg_send, passed,
}

-- The flags that belong to the library.
pub record SameSystem (f g : Flags) : Type 0 where
  pub listening : f.listening ≡ g.listening
  pub udp : f.udp ≡ g.udp
  pub resolving : f.resolving ≡ g.resolving
  pub connecting : f.connecting ≡ g.connecting
  pub ssl : f.ssl ≡ g.ssl
  pub ssl_handshake_done : f.ssl_handshake_done ≡ g.ssl_handshake_done
  pub want_read : f.want_read ≡ g.want_read
  pub want_write : f.want_write ≡ g.want_write
  pub enable_broadcast : f.enable_broadcast ≡ g.enable_broadcast
  pub tun_do_not_reconnect : f.tun_do_not_reconnect ≡ g.tun_do_not_reconnect

-- Whatever a user's handler writes into the flags, the library's own are back after the call, and
-- the others are as the handler left them.
pub call_user-SameSystem :
    (h : Handlers) (ev : Event) (nc : Conn)
    → SameSystem (call_user h ev nc).flags nc.flags
      × ((call_user h ev nc).flags.send_and_close ≡ (h.user ev nc).flags.send_and_close)
      × ((call_user h ev nc).flags.close_immediately ≡ (h.user ev nc).flags.close_immediately)
      × ((call_user h ev nc).flags.is_websocket ≡ (h.user ev nc).flags.is_websocket)
      × ((call_user h ev nc).flags.user ≡ (h.user ev nc).flags.user)
unfolding call_user keep_system_flags
call_user-SameSystem h ev nc = (ground arith, refl, refl, refl, refl)

-- What a handler may do to the connection besides its flags, its timer value and its input: queue
-- bytes by `mg_send`, which starts the write watcher of a connection that has a socket.
pub record Acts (a b : Conn) : Type 0 where
  pub sock : b.sock ≡ a.sock
  pub reader : b.watcher_r ≡ a.watcher_r
  pub timer : b.timer ≡ a.timer
  pub added : List ℕ
  pub queue : b.send_mbuf ≡ a.send_mbuf ++ added
  pub woken : (added ≡ []) ⊎ (a.sock ≡ none) ⊎ (b.watcher_w ≡ ev_start)
  pub writer : (b.watcher_w ≡ a.watcher_w) ⊎ ((b.watcher_w ≡ ev_start) × (a.sock ≢ none))

pub record Behaves (h : Handlers) : Type 0 where
  pub user : (ev : Event) (nc : Conn) → Acts nc (h.user ev nc)
  pub proto : (ev : Event) (nc : Conn) → Acts nc (h.proto ev nc)

-- `mg_send` is such an act.
pub mg_send-Acts : (now : ℕ) (buf : List ℕ) (nc : Conn) → Acts nc (mg_send now buf nc)
unfolding mg_send
mg_send-Acts now buf nc = elim (Option-cases nc.sock) [
  | inl e ↦ record {
    sock = ground arith;
    reader = ground arith;
    timer = ground arith;
    added = passed buf;
    queue = ground arith;
    woken = inr (inl e);
    writer = inl (ground arith);
  }
  | inr (s, e) ↦ record {
    sock = ground arith;
    reader = ground arith;
    timer = ground arith;
    added = passed buf;
    queue = ground arith;
    woken = inr (inr (ground arith));
    writer = inr (ground arith, λ f. ground arith);
  }
]

pub Acts_refl : (nc : Conn) → Acts nc nc
Acts_refl nc = record {
  sock = refl;
  reader = refl;
  timer = refl;
  added = [];
  queue = sym (append-nil nc.send_mbuf);
  woken = inl refl;
  writer = inl refl;
}

-- A call of either handler is an act.
pub call-Acts : (h : Handlers) → Behaves h → (ev : Event) (nc : Conn) → Acts nc (call h ev nc)
unfolding call call_user
call-Acts h b ev nc =
    if_split (Acts nc) nc.has_proto_handler (λ _. b.proto ev nc)
      (λ _. if_split (Acts nc) nc.has_handler (λ _. user_act (b.user ev nc)) (λ _. Acts_refl nc))
  where
    user_act : Acts nc (h.user ev nc) → Acts nc (call_user h ev nc)
    user_act a = record {
      sock = a.sock;
      reader = a.reader;
      timer = a.timer;
      added = a.added;
      queue = a.queue;
      woken = a.woken;
      writer = a.writer;
    }
