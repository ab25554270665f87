-- ===== src/Base64.antt =====
-- Base64 of src/mongoose.c (common/base64.c): the streaming encoder, the one-shot encoder, and the
-- decoder.
pub mod Digits
pub mod Stream
pub mod RoundTrip
mod Tests
use evmongoose.Common.{
  ℕ, zero, suc, ◌+◌, ◌-◌, ◌*◌, ◌/◌, ◌%◌, ◌≡◌, Bool, true, false, not, ◌&&◌, ◌||◌, List, [], ◌∷◌,
  ◌++◌, ltb, leb, ◌==◌, if◌then◌else◌, length, get_or,
}

abbrev pub num_uppercases : ℕ
num_uppercases = 26

abbrev pub num_letters : ℕ
num_letters = 52

abbrev pub num_digits : ℕ
num_digits = 10

-- `cs_base64_emit_code`: the character that `b64_putc` gets.
unfoldable pub emit_code : ℕ → ℕ
emit_code v =
    if ltb v num_uppercases
    then v + b'A'
    else if ltb v num_letters
    then v - num_uppercases + b'a'
    else if ltb v (num_letters + num_digits)
    then v - num_letters + b'0'
    else if v - num_letters - num_digits == 0
    then b'+'
    else b'/'

-- `struct cs_base64_ctx`: the bytes of the chunk that `chunk_size` counts, and what `b64_putc` has
-- been given.
pub record Ctx : Type 0 where
  pub chunk : List ℕ
  pub out : List ℕ

-- `cs_base64_emit_chunk` on the bytes of the chunk, of which `size` are set.
unfoldable pub emit_chunk : ℕ → ℕ → ℕ → ℕ → List ℕ
unfolding emit_code
emit_chunk size a b c =
    emit_code (a / 4)
    ∷ emit_code (a % 4 * 16 + b / 16)
    ∷ ((if ltb 1 size then emit_code (b % 16 * 4 + c / 64) ∷ [] else [])
        ++ (if ltb 2 size then emit_code (c % 64) ∷ [] else []))

abbrev pub init : Ctx
init = record { chunk = []; out = [] }

abbrev chunk_at : Ctx → ℕ → ℕ
chunk_at ctx i = get_or ctx.chunk i 0

-- One round of the loop of `cs_base64_update`.
unfoldable pub update_byte : Ctx → ℕ → Ctx
unfolding emit_chunk
update_byte ctx b =
    let chunk = ctx.chunk ++ (b ∷ []) in
    if length chunk == 3
    then record {
      chunk = [];
      out = ctx.out ++ emit_chunk 3 (get_or chunk 0 0) (get_or chunk 1 0) (get_or chunk 2 0);
    }
    else record ctx { chunk = chunk }

unfoldable pub update : Ctx → List ℕ → Ctx
unfolding update_byte
update ctx [] = ctx
update ctx (b ∷ str) = update (update_byte ctx b) str

abbrev equals : ℕ → List ℕ
equals zero = []
equals (suc n) = b'=' ∷ equals n

-- The unset bytes of the chunk are cleared by `memset`: `chunk_at` reads them as 0.
unfoldable pub finish : Ctx → Ctx
unfolding emit_chunk
finish ctx =
    let size = length ctx.chunk in
    if ltb 0 size
    then record ctx {
      out =
          ctx.out
          ++ (emit_chunk size (chunk_at ctx 0) (chunk_at ctx 1) (chunk_at ctx 2)
              ++ equals (3 - size));
    }
    else ctx

-- `b64[i]`, of the alphabet's string.
unfoldable pub b64 : ℕ → ℕ
b64 i =
    if ltb i 26
    then b'A' + i
    else if ltb i 52
    then b'a' + (i - 26)
    else if ltb i 62
    then b'0' + (i - 52)
    else if i == 62
    then b'+'
    else b'/'

-- The loop of `cs_base64_encode` over groups of three bytes; past the end `b` and `c` are 0.
unfoldable pub encode_groups : List ℕ → List ℕ
unfolding b64
encode_groups [] = []
encode_groups (a ∷ []) = b64 (a / 4) ∷ b64 (a % 4 * 16 + 0 / 16) ∷ []
encode_groups (a ∷ b ∷ []) =
    b64 (a / 4) ∷ b64 (a % 4 * 16 + b / 16) ∷ b64 (b % 16 * 4 + 0 / 64) ∷ []
encode_groups (a ∷ b ∷ c ∷ src) =
    b64 (a / 4)
    ∷ b64 (a % 4 * 16 + b / 16)
    ∷ b64 (b % 16 * 4 + c / 64)
    ∷ b64 (c % 64)
    ∷ encode_groups src

-- `while (j % 4 != 0) BASE64_OUT('=')`, which three rounds end.
unfoldable pub pad : ℕ → ℕ → List ℕ
pad zero j = []
pad (suc rounds) j = let rest = pad rounds (j + 1) in if j % 4 == 0 then [] else b'=' ∷ rest

-- `cs_base64_encode`: the characters written at `dst`, and the NUL behind them.
unfoldable pub encode_text : List ℕ → List ℕ
unfolding encode_groups pad
encode_text src = encode_groups src ++ pad 3 (length (encode_groups src))

unfoldable pub encode : List ℕ → List ℕ
unfolding encode_text
encode src = encode_text src ++ (0 ∷ [])

-- `from_b64`: the inverse table; 255 is no digit, 200 is '='. The index is `ch & 127`.
unfoldable pub from_b64 : ℕ → ℕ
from_b64 ch =
    let c = ch % 128 in
    if c == b'+'
    then 62
    else if c == b'/'
    then 63
    else if leb b'0' c && leb c b'9'
    then c - b'0' + 52
    else if c == b'='
    then 200
    else if leb b'A' c && leb c b'Z'
    then c - b'A'
    else if leb b'a' c && leb c b'z'
    then c - b'a' + 26
    else 255

-- What one round of the loop of `cs_base64_decode` writes, and whether it breaks.
unfoldable pub decode_group : ℕ → ℕ → ℕ → ℕ → List ℕ × Bool
decode_group a b c d =
    if a == 200 || b == 200
    then ([], true)
    else let x = (a * 4 + b / 16) % 256 in
      if c == 200
      then (x ∷ [], true)
      else let y = (b * 16 + c / 4) % 256 in
        if d == 200 then (x ∷ y ∷ [], true) else (x ∷ y ∷ ((c * 64 + d) % 256) ∷ [], false)

abbrev is_digit : ℕ → Bool
is_digit v = not (v == 255)

-- `cs_base64_decode`: the bytes written at `dst` (the NUL behind them left out), and the number of
-- characters taken.
unfoldable pub decode : List ℕ → List ℕ × ℕ
decode (s0 ∷ s1 ∷ s2 ∷ s3 ∷ s) =
    let a = from_b64 s0 in
    let b = from_b64 s1 in
    let c = from_b64 s2 in
    let d = from_b64 s3 in
    let rest = decode s in
    let group = decode_group a b c d in
    if is_digit a && is_digit b && is_digit c && is_digit d
    then (if group.1 then (group.0, 4) else (group.0 ++ rest.0, 4 + rest.1))
    else ([], 0)
decode _ = ([], 0)
