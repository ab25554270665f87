-- ===== src/Net/Samples.antt =====
-- A connection to try the operations on.
use evmongoose.Common.{false, true, none, some, []}
use evmongoose.Net.{Flags, Conn, untouched}

abbrev pub no_flags : Flags
no_flags = record {
  listening = false;
  udp = false;
  resolving = false;
  connecting = false;
  ssl = false;
  ssl_handshake_done = false;
  want_read = false;
  want_write = false;
  is_websocket = false;
  send_and_close = false;
  close_immediately = false;
  websocket_no_defrag = false;
  delete_chunk = false;
  enable_broadcast = false;
  tun_do_not_reconnect = false;
  user = [];
}

abbrev pub fresh : Conn
fresh = record {
  listener = none;
  watcher_r = untouched;
  watcher_w = untouched;
  timer = untouched;
  sock = some 3;
  err = 0;
  sa = 0;
  recv_mbuf_limit = 4;
  recv_mbuf = [];
  send_mbuf = [];
  last_io_time = 0;
  last_ping_time = 0;
  ev_timer_time = 0;
  has_proto_handler = false;
  has_handler = true;
  flags = no_flags;
}
