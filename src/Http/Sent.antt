-- ===== src/Http/Sent.antt =====
-- Chunks that `mg_send_http_chunk` sends, and a length that `mg_handle_chunked` does not stand.
use evmongoose.Common.{
  arith, ℕ, suc, ◌+◌, ◌-◌, ◌^◌, ◌<◌, ◌≡◌, refl, sym, ap, ◌∙◌, List, [], ◌∷◌, ◌++◌, length,
  append_assoc, All, if◌then◌else◌, true, false, drop, drop-append_exact, ◌||◌, ltb,
}
use evmongoose.Net.{Conn}
use evmongoose.Net.Queue.{mg_send-append, mg_send_behind}
use evmongoose.Http.Chunk.{
  chunk, parse_chunk, chunk_data, scan_len, line_end, outside, chunk_loop, Body, handled,
  outside_body, tell_chunk, handle_chunked,
}
use evmongoose.Http.Send.{chunk_size, send_http_chunk}
use evmongoose.Http.Digits.{chunk_bytes, length-chunk_size, length-print_hex}
use evmongoose.Http.Collapse.{concat, wire, IsPiece}
use evmongoose.Http.Body.{LeavesInput, told_of, whole_body, handle_chunked-wire}

send_http_chunk-bytes :
    (now : ℕ) (buf : List ℕ) (nc : Conn)
    → length buf < 2 ^ 31
    → (send_http_chunk now buf nc).send_mbuf ≡ nc.send_mbuf ++ chunk_bytes buf
unfolding send_http_chunk
send_http_chunk-bytes now buf nc h =
    mg_send_behind now (13 ∷ 10 ∷ []) _ nc.send_mbuf (chunk_size (length buf) ++ buf) (omega arith)
      (mg_send_behind now buf _ nc.send_mbuf (chunk_size (length buf)) h (
        mg_send-append now (chunk_size (length buf)) nc
          (omega (arith, length-chunk_size (length buf), length-print_hex 15 (length buf)))))
    ∙ ap (λ t. nc.send_mbuf ++ t) (append_assoc (chunk_size (length buf)) buf (13 ∷ 10 ∷ []))

-- A body sent piece by piece, and its end.
abbrev pub send_body : ℕ → List (List ℕ) → Conn → Conn
send_body now [] nc = send_http_chunk now [] nc
send_body now (c ∷ cs) nc = send_body now cs (send_http_chunk now c nc)

send_body-wire :
    (now : ℕ) (cs : List (List ℕ)) (nc : Conn)
    → All IsPiece cs
    → (send_body now cs nc).send_mbuf ≡ nc.send_mbuf ++ (wire cs ++ chunk_bytes [])
send_body-wire now [] nc pieces = send_http_chunk-bytes now [] nc (omega arith)
send_body-wire now (c ∷ cs) nc (piece, pieces) =
    send_body-wire now cs (send_http_chunk now c nc) pieces
    ∙ ap (λ t. t ++ (wire cs ++ chunk_bytes [])) (send_http_chunk-bytes now c nc piece.1)
    ∙ append_assoc nc.send_mbuf (chunk_bytes c) (wire cs ++ chunk_bytes [])
    ∙ ap (λ t. nc.send_mbuf ++ t) (sym (append_assoc (chunk_bytes c) (wire cs) (chunk_bytes [])))

-- A body that a peer sends in pieces by mg_send_http_chunk, from an empty output, with the empty chunk
-- at its end, is put together by mg_handle_chunked behind the `front` of it that was put together
-- before: the user's handler is told once, of the whole body, with the header, the body and what
-- follows it in the input; if it asks for that, the body leaves the input. The length of the message
-- comes out with what follows it. The pieces are not empty, and shorter than 2 ^ 31; the handler leaves
-- the input alone.
pub handle_chunked-send :
    (tell : Body → Conn → Conn) (now : ℕ) (headers front : List ℕ) (cs : List (List ℕ))
    (rest : List ℕ) (x y : ℕ) (sender nc : Conn)
    → LeavesInput tell
    → All IsPiece cs
    → sender.send_mbuf ≡ []
    → nc.recv_mbuf ≡ headers ++ (front ++ ((send_body now cs sender).send_mbuf ++ rest))
    → let body = front ++ concat cs in
      let n = length body in
      let after =
        tell_chunk tell (told_of n y) (record nc { recv_mbuf = headers ++ (body ++ rest) }) in
      handle_chunked tell
        (length headers)
        (record { chunk_body_len = length front; hm_body_len = x; hm_message_len = y })
        nc
      ≡ handled n
          (whole_body after.flags.delete_chunk n (length rest + length headers))
          (if after.flags.delete_chunk then record after { recv_mbuf = headers ++ rest } else after)
handle_chunked-send tell now headers front cs rest x y sender nc keeps pieces empty got =
    handle_chunked-wire tell headers front cs rest x y nc keeps pieces (
      got
      ∙ ap (λ t. headers ++ (front ++ (t ++ rest)))
          (send_body-wire now cs sender pieces ∙ ap (λ t. t ++ (wire cs ++ chunk_bytes [])) empty)
      ∙ ap (λ t. headers ++ (front ++ t)) (append_assoc (wire cs) (chunk_bytes []) rest))

-- "FFFFFFFFFFFFFFFE" and a new line.
abbrev pub wrapping_size : List ℕ
wrapping_size =
    70 ∷ 70 ∷ 70 ∷ 70 ∷ 70 ∷ 70 ∷ 70 ∷ 70 ∷ 70 ∷ 70 ∷ 70 ∷ 70 ∷ 70 ∷ 70 ∷ 70 ∷ 69 ∷ 13 ∷ 10 ∷ []

parse_chunk_wraps :
    (rest : List ℕ)
    → length rest < 2 ^ 62
    → parse_chunk (wrapping_size ++ rest) ≡ chunk 18 18 (2 ^ 64 - 2)
unfolding parse_chunk chunk_data scan_len line_end
parse_chunk_wraps rest h =
    let inside : ltb (length (wrapping_size ++ rest)) 18 ≡ false = ground arith in
    rw (inside, parse_chunk) (rw (inside, chunk_data) refl)

loop_wraps :
    (rounds : ℕ) (rest : List ℕ)
    → length rest < 2 ^ 62
    → chunk_loop
        (suc rounds)
        (record { buf = wrapping_size ++ rest; i = 0; body_len = 0; zero_chunk_received = false })
      ≡ outside
unfolding chunk_loop
loop_wraps rounds rest h =
    let long : (ltb (length (wrapping_size ++ rest)) (2 ^ 64 + 16)
          || ltb (length (wrapping_size ++ rest)) (2 ^ 64 - 2))
        ≡ true =
      ground arith in
    rw (parse_chunk_wraps rest h, chunk_loop) (rw long refl)

-- A body that begins with the chunk length FFFFFFFFFFFFFFFE makes mg_handle_chunked move bytes outside
-- of the buffer, whatever stands behind that line, fewer than 2 ^ 62 bytes, and whatever the header.
pub handle_chunked-wrapping_size :
    (tell : Body → Conn → Conn) (headers rest : List ℕ) (x y : ℕ) (nc : Conn)
    → nc.recv_mbuf ≡ headers ++ (wrapping_size ++ rest)
    → length rest < 2 ^ 62
    → handle_chunked tell
        (length headers)
        (record { chunk_body_len = 0; hm_body_len = x; hm_message_len = y })
        nc
      ≡ outside_body
unfolding handle_chunked
handle_chunked-wrapping_size tell headers rest x y nc got h =
    let same : drop (length headers) nc.recv_mbuf ≡ wrapping_size ++ rest =
      ap (drop (length headers)) got
      ∙ drop-append_exact (length headers) headers (wrapping_size ++ rest) refl in
    let started : chunk_loop (suc (length (drop (length headers) nc.recv_mbuf))) (record {
      buf = drop (length headers) nc.recv_mbuf;
      i = 0;
      body_len = 0;
      zero_chunk_received = false;
    })
        ≡ outside =
      ap
        (λ b.
          chunk_loop (suc (length b))
            (record { buf = b; i = 0; body_len = 0; zero_chunk_received = false }))
        same
      ∙ loop_wraps (length (wrapping_size ++ rest)) rest h in
    rw (started, handle_chunked) refl
