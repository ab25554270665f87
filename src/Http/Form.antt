-- ===== src/Http/Form.antt =====
-- `mg_get_http_var` of src/mongoose.c.
use evmongoose.Common.{
  ℕ, zero, suc, ◌+◌, Bool, true, ◌&&◌, Option, none, some, List, [], ◌∷◌, leb, ◌==◌, if◌then◌else◌,
  length, drop, get_or,
}
use evmongoose.Common.Int.{ℤ, pos, negsuc, is_zero}
use evmongoose.Str.{ncasecmp}
use evmongoose.Http.Request.{url_decode}

-- The bytes before the first `&`.
unfoldable pub until_amp : List ℕ → List ℕ
until_amp [] = []
until_amp (c ∷ s) = let more = until_amp s in if c == b'&' then [] else c ∷ more

-- `p[name_len] == '=' && !mg_ncasecmp(name, p, name_len)`.
unfoldable pub is_var : List ℕ → List ℕ → Bool
unfolding ncasecmp
is_var name p = get_or p (length name) 0 == b'=' && is_zero (ncasecmp name p (length name))

-- A result of `mg_url_decode` as one of `mg_get_http_var`.
abbrev pub or_bad : ℤ × Option (List ℕ) → ℤ × Option (List ℕ)
or_bad (pos n, out) = (pos n, out)
or_bad (negsuc zero, out) = (negsuc 1, out)
or_bad (negsuc (suc n), out) = (negsuc (suc n), out)

-- The loop; the Boolean is `p == buf->p || p[-1] == '&'`.
unfoldable pub find_var : Bool → List ℕ → ℕ → List ℕ → ℤ × Option (List ℕ)
unfolding is_var until_amp
find_var starts name dst_len [] = (negsuc 0, some [])
find_var starts name dst_len (c ∷ p) =
    let later = find_var (c == b'&') name dst_len p in
    let value = until_amp (drop (length name + 1) (c ∷ p)) in
    if leb (length (c ∷ p)) (length name)
    then (negsuc 0, some [])
    else if starts && is_var name (c ∷ p)
    then or_bad (url_decode value dst_len true)
    else later

-- `mg_get_http_var`: the result, and the bytes before the NUL at `dst` where there is one. A `dst` that
-- is NULL is one of length 0; `none` is a `buf->p` or a `name` that is NULL.
unfoldable pub get_http_var : Option (List ℕ) → Option (List ℕ) → ℕ → ℤ × Option (List ℕ)
get_http_var buf name dst_len = if dst_len == 0 then (negsuc 1, none) else elim buf [
  | none ↦ (negsuc 0, some [])
  | some s ↦ elim name [
    | none ↦ (negsuc 0, some [])
    | some n ↦ if length s == 0 then (negsuc 0, some []) else find_var true n dst_len s
  ]
]
