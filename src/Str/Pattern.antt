-- ===== src/Str/Pattern.antt =====
-- `mg_match_prefix` of src/mongoose.c with `mg_match_prefix_n`, for a pattern and a string that are C
-- strings: what stands behind either is a NUL (or the bar behind an alternative), which matches nothing.
-- A match is the number of characters that it takes, and `none` is -1.
use mathlib.Core.Option
use evmongoose.Common.{
  ℕ, zero, suc, ◌+◌, ◌^◌, leb, Option, none, some, List, [], ◌∷◌, ◌==◌, if◌then◌else◌, length, drop,
}
use evmongoose.Str.{tolower}

-- How far the loop of a single star counts.
unfoldable pub segment_len : List ℕ → ℕ
segment_len [] = 0
segment_len (c ∷ s) = let more = segment_len s in if c == b'/' then 0 else suc more

-- The do-while loop, from `len` down.
unfoldable pub try_lens : (List ℕ → Option ℕ) → List ℕ → ℕ → Option ℕ
try_lens next s zero = next s
try_lens next s (suc len) = elim (next (drop (suc len) s)) [
  | some res ↦ some (suc len + res)
  | none ↦ try_lens next s len
]

-- The lines behind the count, for what follows the stars in the pattern.
unfoldable pub behind_star : List ℕ → (List ℕ → Option ℕ) → List ℕ → ℕ → Option ℕ
unfolding try_lens
behind_star [] next s len = some len
behind_star (c ∷ p) next s len = try_lens next s len

-- A round of the loop, where `next` matches the rest of the pattern and `starred` is the result of the
-- branch of a star.
unfoldable pub match_head : ℕ → (List ℕ → Option ℕ) → Option ℕ → List ℕ → Option ℕ
match_head c next starred [] = if c == b'$' then some 0 else if c == b'*' then starred else none
match_head c next starred (d ∷ s) =
    if c == b'?'
    then Option.map suc (next s)
    else if c == b'$'
    then none
    else if c == b'*'
    then starred
    else if tolower c == tolower d
    then Option.map suc (next s)
    else none

-- `mg_match_prefix_n` for a pattern without a bar, and a string whose places an `int` holds.
unfoldable pub match_one : List ℕ → List ℕ → Option ℕ
unfolding match_head behind_star segment_len
match_one [] s = some 0
match_one (c ∷ []) s = match_head c (match_one []) (some (segment_len s)) s
match_one (c ∷ d ∷ p) s =
    match_head c (match_one (d ∷ p))
      (if d == b'*'
        then behind_star p (match_one p) s (length s)
        else behind_star (d ∷ p) (match_one (d ∷ p)) s (segment_len s))
      s

-- The pattern before the first bar, and those behind each bar.
unfoldable pub split_bars : List ℕ → List ℕ × List (List ℕ)
split_bars [] = ([], [])
split_bars (c ∷ p) =
    let rest = split_bars p in if c == b'|' then ([], rest.0 ∷ rest.1) else (c ∷ rest.0, rest.1)

-- A match of no characters is taken as none where another alternative follows.
unfoldable pub match_alternatives : List ℕ → List (List ℕ) → List ℕ → Option ℕ
unfolding match_one
match_alternatives p [] s = match_one p s
match_alternatives p (q ∷ ps) s = elim (match_one p s) [
  | some (suc n) ↦ some (suc n)
  | some zero ↦ match_alternatives q ps s
  | none ↦ match_alternatives q ps s
]

-- `mg_match_prefix`. The places in a string of 2 ^ 31 characters or more do not fit in an `int`; what the
-- code makes of the sums that wrap then is not modelled, and there is no result.
unfoldable pub match_prefix : List ℕ → List ℕ → Option (Option ℕ)
unfolding split_bars match_alternatives
match_prefix pattern s =
    if leb (2 ^ 31) (length s)
    then none
    else some (match_alternatives (split_bars pattern).0 (split_bars pattern).1 s)
