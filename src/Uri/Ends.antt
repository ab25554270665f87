-- ===== src/Uri/Ends.antt =====
-- `mg_parse_uri` ends.
use evmongoose.Common.{
  arith, ℕ, zero, suc, ◌+◌, ◌≤◌, ◌<◌, ◌≡◌, refl, some, List, [], ◌∷◌, ◌==◌, length, drop,
  Bool-cases, inl, inr,
}
use evmongoose.Str.{starts}
use evmongoose.Uri.{parse_uri_component}
use evmongoose.Uri.Parse.{
  UriState, p_start, p_scheme_or_port, p_user_info, p_host, p_port, p_rest, UriParts, from,
  at_separator, skip_at, at_sign, round, parse_uri_loop, no_parts, parse_uri,
}

length-from : (a b : ℕ) (s : List ℕ) → length (from a b s) ≤ length s
unfolding from
length-from a b [] = omega arith
length-from a b (c ∷ s) = ground (arith, length-from a b s)

length-rest : (sep : ℕ) (p : List ℕ) → length ((parse_uri_component sep p).rest) ≤ length p
unfolding parse_uri_component
length-rest sep [] = omega arith
length-rest sep (c ∷ p) = ground (arith, length-rest sep p)

length-rest_cons :
    (sep c : ℕ) (p : List ℕ) → length ((parse_uri_component sep (c ∷ p)).rest) ≤ length p
unfolding parse_uri_component
length-rest_cons sep c p = ground (arith, length-rest sep p)

-- How many rounds are left before `p_rest`.
abbrev rank : UriState → ℕ
rank p_start = 5
rank p_scheme_or_port = 4
rank p_user_info = 3
rank p_host = 2
rank p_port = 1
rank p_rest = 0

separator-less :
    (here at_colon : UriState) (n : ℕ) (stop : List ℕ)
    → rank at_colon < rank here
    → length stop ≤ suc n
    → rank (at_separator here at_colon stop) + length stop < rank here + suc n
separator-less here at_colon n [] h k = omega arith
separator-less here at_colon n (c ∷ stop) h k = elim (Bool-cases (c == b':')) [
  | inl x ↦ rw x (omega (arith, h, k))
  | inr x ↦ rw x (omega (arith, h, k))
]

length-drop_one : (c : ℕ) (p : List ℕ) → length (drop 2 (c ∷ p)) ≤ length p
length-drop_one c [] = omega arith
length-drop_one c (d ∷ p) = omega arith

length-skip_at : (p : List ℕ) → length (skip_at p) ≤ length p
length-skip_at [] = omega arith
length-skip_at (c ∷ p) = ground arith

round-less :
    (uri : List ℕ) (state : UriState) (c : ℕ) (p : List ℕ) (parts : UriParts)
    → let next = round uri state (c ∷ p) parts in
      rank next.state + length next.p < rank state + length (c ∷ p)
unfolding round
round-less uri p_start c p parts =
    separator-less p_start p_scheme_or_port (length p) (from b':' b'/' (c ∷ p)) (omega arith)
      (length-from b':' b'/' (c ∷ p))
round-less uri p_scheme_or_port c p parts =
    elim (Bool-cases (starts (c ∷ p) (b':' ∷ b'/' ∷ b'/' ∷ []))) [
      | inl x ↦ rw (x, round) (omega (arith, length-drop_one c p))
      | inr x ↦ rw (x, round) (omega arith)
    ]
round-less uri p_user_info c p parts = elim (Bool-cases (at_sign (from b'@' b'/' p))) [
  | inl x ↦ rw x (omega (arith, length-from b'@' b'/' p))
  | inr x ↦ rw x (omega arith)
]
round-less uri p_host c p parts =
    let host = skip_at (c ∷ p) in
    separator-less p_host p_port (length p) (from b':' b'/' host) (omega arith)
      (omega (arith, length-from b':' b'/' host, length-skip_at (c ∷ p)))
round-less uri p_port c p parts = behind (from b'/' b'/' p) (length-from b'/' b'/' p)
  where
    behind :
        (stop : List ℕ)
        → length stop ≤ length p
        → rank (at_separator p_port p_port stop) + length stop < 1 + suc (length p)
    behind [] h = omega arith
    behind (d ∷ stop) h = elim (Bool-cases (d == b':')) [
      | inl x ↦ rw x (omega (arith, h))
      | inr x ↦ rw x (omega (arith, h))
    ]
round-less uri p_rest c p parts =
    let path = parse_uri_component b'?' (c ∷ p) in
    let query = parse_uri_component b'#' path.rest in
    omega (arith, length-rest_cons b'?' c p, length-rest b'#' path.rest, length-rest 0 query.rest)

parse_uri_loop-ends :
    (rounds : ℕ) (uri : List ℕ) (state : UriState) (p : List ℕ) (parts : UriParts)
    → rank state + length p ≤ rounds
    → (r : UriParts) × (parse_uri_loop rounds uri state p parts ≡ some r)
unfolding parse_uri_loop
parse_uri_loop-ends rounds uri state [] parts h = (parts, refl)
parse_uri_loop-ends zero uri state (c ∷ p) parts h = absurd (omega arith)
parse_uri_loop-ends (suc rounds) uri state (c ∷ p) parts h =
    let next = round uri state (c ∷ p) parts in
    parse_uri_loop-ends rounds uri next.state next.p next.parts
      (omega (arith, round-less uri state c p parts))

-- A URI of any bytes is parsed: the loop of mg_parse_uri ends.
pub parse_uri-ends : (uri : List ℕ) → (r : UriParts) × (parse_uri uri ≡ some r)
unfolding parse_uri
parse_uri-ends uri = parse_uri_loop-ends (6 + length uri) uri p_start uri no_parts (omega arith)
