-- ===== src/Http/Request.antt =====
-- `mg_http_get_request_len` and `mg_url_decode` of src/mongoose.c.
use evmongoose.Common.{
  ℕ, zero, suc, ◌+◌, ◌-◌, ◌*◌, Bool, true, false, not, ◌&&◌, Option, none, some, List, [], ◌∷◌, ltb,
  leb, ◌==◌, if◌then◌else◌, length,
}
use evmongoose.Common.Int.{ℤ, pos, negsuc}
use evmongoose.Http.{isxdigit, hex_value}

-- `isprint` of the C locale.
abbrev pub isprint : ℕ → Bool
isprint c = leb 32 c && leb c 126

-- A byte that no header may have.
abbrev pub is_bad : ℕ → Bool
is_bad c = not (isprint c) && not (c == 13) && not (c == 10) && ltb c 128

-- How many bytes from a new line on make an empty line.
unfoldable pub line_ends : ℕ → List ℕ → Option ℕ
line_ends c [] = none
line_ends c (d ∷ []) = if c == 10 && d == 10 then some 2 else none
line_ends c (d ∷ e ∷ s) =
    if c == 10 && d == 10 then some 2 else if c == 10 && d == 13 && e == 10 then some 3 else none

-- The loop of `mg_http_get_request_len` from position `i` on.
unfoldable pub request_len_from : ℕ → List ℕ → ℤ
unfolding line_ends
request_len_from i [] = pos 0
request_len_from i (c ∷ s) =
    let later = request_len_from (i + 1) s in
    if is_bad c then negsuc 0 else elim (line_ends c s) [ none ↦ later | some n ↦ pos (i + n) ]

unfoldable pub get_request_len : List ℕ → ℤ
get_request_len buf = request_len_from 0 buf

-- The loop of `mg_url_decode`, with room for so many bytes: what is written to `dst`, and whether all
-- of `src` was read (`none` for the early -1).
unfoldable pub decode_from : ℕ → Bool → List ℕ → Option (List ℕ × Bool)
unfolding hex_value
decode_from zero form [] = some ([], true)
decode_from zero form (c ∷ src) = some ([], false)
decode_from (suc room) form [] = some ([], true)
decode_from (suc room) form (c ∷ []) =
    if c == b'%' then none else some ((if form && c == b'+' then b' ' else c) ∷ [], true)
decode_from (suc room) form (c ∷ a ∷ []) =
    let later = decode_from room form (a ∷ []) in
    if c == b'%' then none else elim later [
      | none ↦ none
      | some (out, all) ↦ some ((if form && c == b'+' then b' ' else c) ∷ out, all)
    ]
decode_from (suc room) form (c ∷ a ∷ b ∷ src) =
    let escaped = decode_from room form src in
    let plain = decode_from room form (a ∷ b ∷ src) in
    if c == b'%'
    then (if isxdigit a && isxdigit b
        then elim escaped [
          | none ↦ none
          | some (out, all) ↦ some ((hex_value a * 16 + hex_value b) ∷ out, all)
        ]
        else none)
    else elim plain [
      | none ↦ none
      | some (out, all) ↦ some ((if form && c == b'+' then b' ' else c) ∷ out, all)
    ]

-- `mg_url_decode` for a `dst_len` above 0: the result, and the bytes before the NUL at `dst` where the
-- function gets to write one.
unfoldable pub url_decode : List ℕ → ℕ → Bool → ℤ × Option (List ℕ)
url_decode src dst_len form = elim (decode_from (dst_len - 1) form src) [
  | none ↦ (negsuc 0, none)
  | some (out, all) ↦ (if all then pos (length out) else negsuc 0, some out)
]
