-- ===== src/Net/Limit.antt =====
-- `recv_mbuf_limit`: what a plain TCP connection reads, and what happens when its buffer is full.
use evmongoose.Common.{
  arith, ℕ, ◌+◌, ◌≤◌, ◌≡◌, refl, ◌∙◌, ap, true, false, List, [], ◌++◌, length, length-append,
}
use evmongoose.Net.{Conn, Handlers, recv, call, recv_common}
use evmongoose.Net.Step.{
  World, received, shut_down, closed, recv_avail_size, tcp_recv_buffer_size, read_plain,
  handle_tcp_read, handle_read, handle_conn_read, connect_first, close_conn, ev_read_cb,
}

-- A plain TCP connection whose handshake with the peer is over.
pub record IsPlain (nc : Conn) : Type 0 where
  pub tcp : nc.flags.udp ≡ false
  pub connection : nc.flags.listening ≡ false
  pub connected : nc.flags.connecting ≡ false
  pub unencrypted : nc.flags.ssl ≡ false

-- The socket is asked for no more than the buffer may still take, nor than one read buffer.
recv_avail_size_bounds :
    (nc : Conn) (max : ℕ)
    → length nc.recv_mbuf ≤ nc.recv_mbuf_limit
    → (recv_avail_size nc max ≤ max)
      × (length nc.recv_mbuf + recv_avail_size nc max ≤ nc.recv_mbuf_limit)
unfolding recv_avail_size
recv_avail_size_bounds nc max h = ground arith

full_avail :
    (nc : Conn) (max : ℕ) → nc.recv_mbuf_limit ≤ length nc.recv_mbuf → recv_avail_size nc max ≡ 0
unfolding recv_avail_size
full_avail nc max h = ground arith

module _ (h : Handlers) (w : World) (nc : Conn) (memory : w.has_memory ≡ true)
    (plain : IsPlain nc) where
  reads_plain :
      handle_tcp_read h w nc
      ≡ read_plain h w.now (w.recv_plain (recv_avail_size nc tcp_recv_buffer_size)) nc
  unfolding handle_tcp_read
  reads_plain = ground (arith, plain.unencrypted)

  -- Bytes that arrive reach the handler in a buffer that keeps within its limit, behind the bytes
  -- that were there. The connection is a plain TCP one, not about to be closed and within its limit
  -- before, there is memory, and `recv` returns no more than it was asked for.
  pub read_within_limit :
      (buf : List ℕ)
      → length nc.recv_mbuf ≤ nc.recv_mbuf_limit
      → nc.flags.close_immediately ≡ false
      → ((n : ℕ) (bs : List ℕ) → w.recv_plain n ≡ received bs → length bs ≤ n)
      → w.recv_plain (recv_avail_size nc tcp_recv_buffer_size) ≡ received buf
      → (handle_tcp_read h w nc
          ≡ call h
              (recv (length buf))
              (record nc { last_io_time = w.now; recv_mbuf = nc.recv_mbuf ++ buf }))
        × (length (nc.recv_mbuf ++ buf) ≤ nc.recv_mbuf_limit)
  unfolding read_plain recv_common
  read_within_limit buf fits live answers e = (
    reads_plain ∙ ap (λ r. read_plain h w.now r nc) e ∙ ground arith,
    omega (
      arith,
      length-append nc.recv_mbuf buf,
      answers (recv_avail_size nc tcp_recv_buffer_size) buf e,
      recv_avail_size_bounds nc tcp_recv_buffer_size fits,
    ),
  )

  -- A full receive buffer ends the connection: the socket is asked for 0 bytes, its answer 0 is
  -- taken for the end of the stream, and with no output left the connection is closed, with the
  -- received bytes as they were. The connection is a plain TCP one, and there is memory to read.
  pub full_buffer_closes :
      (others : Conn → Conn)
      → nc.recv_mbuf_limit ≤ length nc.recv_mbuf
      → nc.send_mbuf ≡ []
      → w.recv_plain 0 ≡ shut_down
      → (c : Conn) × (ev_read_cb h others w nc ≡ closed (close_conn h c))
        × (c.recv_mbuf ≡ nc.recv_mbuf)
  unfolding ev_read_cb handle_conn_read handle_read connect_first read_plain
  full_buffer_closes others full empty answer = (
    record nc { flags = record nc.flags { send_and_close = true } },
    ground (
      arith,
      plain.tcp,
      plain.connection,
      plain.connected,
      reads_plain,
      full_avail nc tcp_recv_buffer_size full,
    ),
    refl,
  )
