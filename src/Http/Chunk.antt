-- ===== src/Http/Chunk.antt =====
-- `mg_http_parse_chunk` and `mg_handle_chunked` of src/mongoose.c.
use evmongoose.Common.{
  ℕ, zero, suc, ◌+◌, ◌-◌, ◌*◌, ◌%◌, ◌^◌, Bool, false, ◌&&◌, ◌||◌, none, some, List, [], ◌∷◌, ◌++◌,
  ltb, ◌==◌, if◌then◌else◌, length, take, drop, get_elem?,
}
use evmongoose.Net.{Conn, keep_system_flags, set_flags}
use evmongoose.Http.{isxdigit, hex_value}

-- The hexadecimal number at the front, with what was scanned before, and how many digits it has.
unfoldable pub scan_len : ℕ → List ℕ → ℕ × ℕ
unfolding hex_value
scan_len n [] = (n, 0)
scan_len n (c ∷ s) =
    let more = scan_len ((n * 16 + hex_value c) % 2 ^ 64) s in
    if isxdigit c then (more.0, suc more.1) else (n, 0)

-- Whether a new line stands at an index.
pub data LineEnd : Type 0 where
  is_line_end no_line_end outside_of : LineEnd

-- `i == 0 || i + 2 > len || s[i] != '\r' || s[i + 1] != '\n'`, with `size_t` indices.
unfoldable pub line_end : List ℕ → ℕ → LineEnd
line_end s i =
    if i == 0 || ltb (length s) ((i + 2) % 2 ^ 64) then no_line_end else elim (get_elem? s i) [
      | none ↦ outside_of
      | some c ↦ elim (get_elem? s (i + 1)) [
        | none ↦ if c == 13 then outside_of else no_line_end
        | some d ↦ if c == 13 && d == 10 then is_line_end else no_line_end
      ]
    ]

-- What `mg_http_parse_chunk` comes to: 0, or the length of the chunk with where its data stands and
-- how many bytes that has.
pub data Chunk : Type 0 where
  incomplete outside_chunk : Chunk
  chunk : ℕ → ℕ → ℕ → Chunk

-- The part behind the length, once that has been scanned: `n`, and `i` behind its new line.
unfoldable pub chunk_data : List ℕ → ℕ → ℕ → Chunk
chunk_data s n i =
    let end = (i + n) % 2 ^ 64 in
    elim (line_end s end) [
      | is_line_end ↦ chunk ((end + 2) % 2 ^ 64) i n
      | no_line_end ↦ incomplete
      | outside_of ↦ outside_chunk
    ]

unfoldable pub parse_chunk : List ℕ → Chunk
parse_chunk s =
    let scanned = scan_len 0 s in
    elim (line_end s scanned.1) [
      | is_line_end ↦ chunk_data s scanned.0 (scanned.1 + 2)
      | no_line_end ↦ incomplete
      | outside_of ↦ outside_chunk
    ]

-- The variables of the loop of `mg_handle_chunked`.
pub record Pass : Type 0 where
  pub buf : List ℕ
  pub i : ℕ
  pub body_len : ℕ
  pub zero_chunk_received : Bool

pub data Passed : Type 0 where
  passed : Pass → Passed
  outside unfinished : Passed

-- `memmove(buf + body_len, data, data_len)` and the lines behind it, for data at `from`.
unfoldable pub collapse : Pass → ℕ → ℕ → ℕ → Pass
collapse p n from data_len = record p {
  buf =
      take p.body_len p.buf
      ++ (take data_len (drop from p.buf) ++ drop (p.body_len + data_len) p.buf);
  i = p.i + n;
  body_len = p.body_len + data_len;
  zero_chunk_received = data_len == 0;
}

-- The loop, in so many rounds at most.
unfoldable pub chunk_loop : ℕ → Pass → Passed
chunk_loop zero p = unfinished
chunk_loop (suc rounds) p = elim (parse_chunk (drop p.i p.buf)) [
  | incomplete ↦ passed p
  | outside_chunk ↦ outside
  | chunk n start data_len ↦
      let from = p.i + start in
      let next = chunk_loop rounds (collapse p n from data_len) in
      if n == 0
      then passed p
      else if ltb (length p.buf) (from + data_len) || ltb (length p.buf) (p.body_len + data_len)
      then outside
      else if data_len == 0
      then passed (collapse p n from data_len)
      else next
]

-- What `mg_handle_chunked` keeps: `pd->chunk.body_len`, `hm->body.len` and `hm->message.len`.
pub record Body : Type 0 where
  pub chunk_body_len : ℕ
  pub hm_body_len : ℕ
  pub hm_message_len : ℕ

-- What it comes to: the return value, the lengths and the connection.
pub data Handled : Type 0 where
  handled : ℕ → Body → Conn → Handled
  outside_body unfinished_body : Handled

-- The user's handler is told of the chunk, and may set MG_F_DELETE_CHUNK.
unfoldable pub tell_chunk : (Body → Conn → Conn) → Body → Conn → Conn
tell_chunk tell b nc =
    let asked = set_flags nc (record nc.flags { delete_chunk = false }) in
    let after = tell b asked in record after { flags = keep_system_flags asked.flags after.flags }

-- What stands behind the call of the user's handler; `head` bytes stand before `buf`.
unfoldable pub settle_chunks : ℕ → Pass → Body → Conn → Handled
settle_chunks head p told after =
    let around = (length p.buf - p.i) + head in
    let deletes = after.flags.delete_chunk in
    let kept = if deletes then record told { chunk_body_len = 0; hm_body_len = 0 } else told in
    let whole =
      if p.zero_chunk_received
      then record kept { hm_message_len = kept.chunk_body_len + around }
      else kept in
    let emptied =
      if deletes
      then record after {
        recv_mbuf = take head after.recv_mbuf ++ drop (head + p.body_len) after.recv_mbuf;
      }
      else after in
    handled p.body_len whole emptied

-- The end of `mg_handle_chunked`, behind the loop, which has set `hm->body.len` in each round.
unfoldable pub finish_chunks : (Body → Conn → Conn) → ℕ → Pass → Body → Conn → Handled
finish_chunks tell head p b nc =
    let found = record b {
      hm_body_len = if ltb b.chunk_body_len p.i then p.body_len else b.hm_body_len;
    } in
    let told = record found { chunk_body_len = p.body_len } in
    let shifted = record nc {
      recv_mbuf = take head nc.recv_mbuf ++ (take p.body_len p.buf ++ drop p.i p.buf);
    } in
    if ltb p.body_len p.i
    then settle_chunks head p told (tell_chunk tell told shifted)
    else handled p.body_len found (record nc { recv_mbuf = take head nc.recv_mbuf ++ p.buf })

-- `mg_handle_chunked`, on the bytes behind the first `head`; `assert(blen >= body_len)` is its
-- condition. The user's handler leaves the input as it was.
unfoldable pub handle_chunked : (Body → Conn → Conn) → ℕ → Body → Conn → Handled
handle_chunked tell head b nc =
    let buf = drop head nc.recv_mbuf in
    elim (chunk_loop (suc (length buf)) (record {
      buf = buf;
      i = b.chunk_body_len;
      body_len = b.chunk_body_len;
      zero_chunk_received = false;
    })) [
      | passed p ↦ finish_chunks tell head p b nc
      | outside ↦ outside_body
      | unfinished ↦ unfinished_body
    ]
