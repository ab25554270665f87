-- ===== src/Http/Body.antt =====
-- What `mg_handle_chunked` makes of the chunks of a body.
use mathlib.Core.Path.{ap₂}
use evmongoose.Common.{
  arith, ℕ, suc, ◌+◌, ◌-◌, ◌≤◌, ◌<◌, ◌≡◌, refl, ap, ◌∙◌, true, false, List, [], ◌∷◌, ◌++◌, ltb,
  if◌then◌else◌, length, length-append, Bool-cases, inl, inr, take, drop, take-append_exact,
  drop-append_exact, All, Bool,
}
use evmongoose.Net.{Conn, set_flags}
use evmongoose.Http.Chunk.{
  passed, chunk_loop, Body, handled, tell_chunk, settle_chunks, finish_chunks, handle_chunked,
}
use evmongoose.Http.Digits.{chunk_bytes}
use evmongoose.Http.Collapse.{
  concat, wire, IsPiece, length-chunk_bytes, at_pass, drop-at_pass, loop_pieces,
}

-- The user's handler leaves the bytes received alone.
abbrev pub LeavesInput : (Body → Conn → Conn) → Type 0
LeavesInput tell = (b : Body) (nc : Conn) → (tell b nc).recv_mbuf ≡ nc.recv_mbuf

-- What the user's handler is told of a whole body, and what is left of it behind that call.
abbrev pub told_of : ℕ → ℕ → Body
told_of n message_len = record { chunk_body_len = n; hm_body_len = n; hm_message_len = message_len }

abbrev pub whole_body : Bool → ℕ → ℕ → Body
whole_body deletes n around =
    if deletes
    then record { chunk_body_len = 0; hm_body_len = 0; hm_message_len = 0 + around }
    else record { chunk_body_len = n; hm_body_len = n; hm_message_len = n + around }

length-wire : (cs : List (List ℕ)) → length cs ≤ length (wire cs)
length-wire [] = omega arith
length-wire (c ∷ cs) =
    omega (arith, length-wire cs, length-append (chunk_bytes c) (wire cs), length-chunk_bytes c)

tell_keeps :
    (tell : Body → Conn → Conn) (b : Body) (nc : Conn)
    → LeavesInput tell
    → (tell_chunk tell b nc).recv_mbuf ≡ nc.recv_mbuf
unfolding tell_chunk
tell_keeps tell b nc keeps = keeps b (set_flags nc (record nc.flags { delete_chunk = false }))

settle_whole :
    (headers body gap rest : List ℕ) (y : ℕ) (after : Conn)
    → after.recv_mbuf ≡ headers ++ (body ++ rest)
    → settle_chunks (length headers) (at_pass body gap rest true) (told_of (length body) y) after
      ≡ handled
          (length body)
          (whole_body after.flags.delete_chunk (length body) (length rest + length headers))
          (if after.flags.delete_chunk then record after { recv_mbuf = headers ++ rest } else after)
unfolding settle_chunks
settle_whole headers body gap rest y after got = elim (Bool-cases after.flags.delete_chunk) [
  | inl e ↦ rw e (rw (left, emptied) refl)
  | inr e ↦ rw e (rw left refl)
]
  where
    left : length (body ++ (gap ++ rest)) - (length body + length gap) ≡ length rest
    left = omega (arith, length-append body (gap ++ rest), length-append gap rest)

    emptied :
        take (length headers) after.recv_mbuf ++ drop (length headers + length body) after.recv_mbuf
        ≡ headers ++ rest
    emptied =
        ap (λ t. take (length headers) t ++ drop (length headers + length body) t) got
        ∙ ap₂ (λ a b. a ++ b) (take-append_exact (length headers) headers (body ++ rest) refl)
            (drop-at_pass headers body rest)

-- The end of the function, once the loop has put the whole body together.
finish_whole :
    (tell : Body → Conn → Conn) (headers body gap rest : List ℕ) (before x y : ℕ) (nc : Conn)
    → take (length headers) nc.recv_mbuf ≡ headers
    → 0 < length gap
    → before ≤ length body
    → finish_chunks tell
        (length headers)
        (at_pass body gap rest true)
        (record { chunk_body_len = before; hm_body_len = x; hm_message_len = y })
        nc
      ≡ settle_chunks (length headers) (at_pass body gap rest true) (told_of (length body) y) (
          tell_chunk tell
            (told_of (length body) y)
            (record nc { recv_mbuf = headers ++ (body ++ rest) }))
unfolding finish_chunks
finish_whole tell headers body gap rest before x y nc head pos le =
    let test : ltb (length body) (length body + length gap) ≡ true = ground arith in
    let test' : ltb before (length body + length gap) ≡ true = ground arith in
    rw
      (
        test,
        test',
        head,
        take-append_exact (length body) body (gap ++ rest) refl,
        drop-at_pass body gap rest,
      )
      refl

-- Chunks that were sent behind a header and behind the `front` of a body that has been put together
-- before, up to the empty chunk: the user's handler is told once, of the whole body, with the header,
-- the body and what follows it in the input; if it asks for that, the body leaves the input. The length
-- of the message comes out with what follows in it. The pieces are not empty, and shorter than 2 ^ 31;
-- the handler leaves the input alone.
pub handle_chunked-wire :
    (tell : Body → Conn → Conn) (headers front : List ℕ) (cs : List (List ℕ)) (rest : List ℕ)
    (x y : ℕ) (nc : Conn)
    → LeavesInput tell
    → All IsPiece cs
    → nc.recv_mbuf ≡ headers ++ (front ++ (wire cs ++ (chunk_bytes [] ++ rest)))
    → let body = front ++ concat cs in
      let n = length body in
      let after =
        tell_chunk tell (told_of n y) (record nc { recv_mbuf = headers ++ (body ++ rest) }) in
      handle_chunked tell
        (length headers)
        (record { chunk_body_len = length front; hm_body_len = x; hm_message_len = y })
        nc
      ≡ handled n
          (whole_body after.flags.delete_chunk n (length rest + length headers))
          (if after.flags.delete_chunk then record after { recv_mbuf = headers ++ rest } else after)
unfolding handle_chunked
handle_chunked-wire tell headers front cs rest x y nc keeps pieces got =
    let (gap, pos, e) =
      loop_pieces (suc (length buf)) front [] cs rest false pieces (omega (arith, rounds)) in
    let started : chunk_loop (suc (length (drop (length headers) nc.recv_mbuf))) (record {
      buf = drop (length headers) nc.recv_mbuf;
      i = length front;
      body_len = length front;
      zero_chunk_received = false;
    })
        ≡ passed (at_pass body gap rest true) =
      ap₂
        (λ b k.
          chunk_loop (suc (length b))
            (record { buf = b; i = k; body_len = length front; zero_chunk_received = false }))
        same (omega arith)
      ∙ e in
    rw (started, handle_chunked)
      (finish_whole tell headers body gap rest (length front) x y nc head pos
          (omega (arith, length-append front (concat cs)))
        ∙ settle_whole headers body gap rest y
            (tell_chunk tell (told_of (length body) y)
              (record nc { recv_mbuf = headers ++ (body ++ rest) }))
            (tell_keeps tell (told_of (length body) y) _ keeps))
  where
    body : List ℕ
    body = front ++ concat cs

    buf : List ℕ
    buf = front ++ (wire cs ++ (chunk_bytes [] ++ rest))

    same : drop (length headers) nc.recv_mbuf ≡ buf
    same = ap (drop (length headers)) got ∙ drop-append_exact (length headers) headers buf refl

    head : take (length headers) nc.recv_mbuf ≡ headers
    head = ap (take (length headers)) got ∙ take-append_exact (length headers) headers buf refl

    rounds : length cs ≤ length buf
    rounds = omega (
      arith,
      length-wire cs,
      length-append front (wire cs ++ (chunk_bytes [] ++ rest)),
      length-append (wire cs) (chunk_bytes [] ++ rest),
    )
