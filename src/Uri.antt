-- ===== src/Uri.antt =====
-- URIs of src/mongoose.c (mongoose/src/uri.c): `mg_normalize_uri_path`, and `mg_parse_uri` in Parse.
--
-- `mg_normalize_uri_path` may write its output over its input; it then writes no further than it has read.
pub mod Normal
pub mod Parse
pub mod Ends
pub mod Found
mod Tests
use evmongoose.Common.{
  ℕ, zero, suc, Bool, true, false, Option, none, some, List, [], ◌∷◌, ◌++◌, ltb, ◌==◌, ◌&&◌,
  if◌then◌else◌, length,
}
use evmongoose.Common.Int.{is_zero}
use evmongoose.Str.{vcmp}

-- What one call of `parse_uri_component` finds.
pub record Component : Type 0 where
  -- `res`
  pub text : List ℕ
  -- From the start to the new `*p`, which is `text` and the separator if there is one.
  pub chunk : List ℕ
  -- What stands at the new `*p`.
  pub rest : List ℕ

unfoldable pub parse_uri_component : ℕ → List ℕ → Component
parse_uri_component sep [] = record { text = []; chunk = []; rest = [] }
parse_uri_component sep (c ∷ p) =
    let later = parse_uri_component sep p in
    if c == sep
    then record { text = []; chunk = c ∷ []; rest = p }
    else record { text = c ∷ later.text; chunk = c ∷ later.chunk; rest = later.rest }

-- `if (d > cp + 1 && *(d - 1) == '/') d--;` on the bytes from `cp` to `d`.
unfoldable pub chop : List ℕ → List ℕ
chop [] = []
chop (c ∷ []) = c ∷ []
chop (c ∷ b ∷ []) = if b == b'/' then c ∷ [] else c ∷ b ∷ []
chop (c ∷ b ∷ a ∷ out) = c ∷ chop (b ∷ a ∷ out)

-- `while (d > cp && *(d - 1) != '/') d--;`
unfoldable pub strip : List ℕ → List ℕ
strip [] = []
strip (c ∷ out) = keep (strip out)
  where
    keep : List ℕ → List ℕ
    keep [] = if c == b'/' then c ∷ [] else []
    keep (b ∷ kept) = c ∷ b ∷ kept

-- One round: the bytes from `cp` to `d` for a component.
unfoldable pub add_component : Component → List ℕ → List ℕ
add_component c out =
    if is_zero (vcmp c.text (b'.' ∷ []))
    then out
    else if is_zero (vcmp c.text (b'.' ∷ b'.' ∷ []))
    then strip (chop out)
    else out ++ c.chunk

-- The loop, in so many rounds at most.
unfoldable pub normalize_loop : ℕ → List ℕ → List ℕ → Option (List ℕ)
normalize_loop rounds [] out = some out
normalize_loop zero (c ∷ s) out = none
normalize_loop (suc rounds) (c ∷ s) out =
    let next = parse_uri_component b'/' (c ∷ s) in
    normalize_loop rounds next.rest (add_component next out)

abbrev pub or_slash : List ℕ → List ℕ
or_slash [] = b'/' ∷ []
or_slash (c ∷ out) = c ∷ out

-- The result and `out`; `none` once the rounds are used up, which are as many as the bytes.
unfoldable pub normalize_uri_path : List ℕ → Option (Bool × List ℕ)
normalize_uri_path [] = some (false, [])
normalize_uri_path (c ∷ s) =
    if c == b'/'
    then elim (normalize_loop (length (c ∷ s)) (c ∷ s) []) [
      | none ↦ none
      | some out ↦ some (true, or_slash out)
    ]
    else some (false, [])
