-- ===== src/Http/Vars.antt =====
-- The variables of a form: `mg_get_http_var` is a search by name.
use evmongoose.Common.{ℕ, ◌≡◌, true, false, Option, none, some, List, [], ◌∷◌, ◌++◌, ◌==◌, All}
use evmongoose.Common.Int.{ℤ, negsuc}
use evmongoose.Http.Request.{url_decode}
use evmongoose.Http.Form.{or_bad}

-- Bytes without a given one.
abbrev pub Without : ℕ → List ℕ → Type 0
Without d = All (λ c. (c == d) ≡ false)

-- Names with values, as `name=value` with `&` between them; `more` has one before each.
abbrev more : List (List ℕ × List ℕ) → List ℕ
more [] = []
more ((k, v) ∷ ps) = b'&' ∷ (k ++ (b'=' ∷ (v ++ more ps)))

abbrev pub form : List (List ℕ × List ℕ) → List ℕ
form [] = []
form ((k, v) ∷ ps) = k ++ (b'=' ∷ (v ++ more ps))

-- Names that have no `&` or `=`, with values that have no `&`.
abbrev pub IsVar : List ℕ × List ℕ → Type 0
IsVar (k, v) = Without b'&' k × Without b'=' k × Without b'&' v

-- What the search answers for a value, or for none.
abbrev pub answer : ℕ → Option (List ℕ) → ℤ × Option (List ℕ)
answer dst_len none = (negsuc 0, some [])
answer dst_len (some v) = or_bad (url_decode v dst_len true)
