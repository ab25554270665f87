-- ===== src/Uri/Found.antt =====
-- `mg_parse_uri` finds the parts of a URI.
use evmongoose.Common.{
  arith, ℕ, suc, ◌+◌, ◌-◌, ◌*◌, ◌%◌, ◌^◌, leb, ◌≤◌, ◌<◌, ◌≡◌, refl, ap, ◌∙◌, true, false, ◌||◌,
  some, List, [], ◌∷◌, ◌++◌, ◌==◌, length, take, All, length-append, take-append_exact,
}
use evmongoose.Str.{starts}
use evmongoose.Uri.{parse_uri_component}
use evmongoose.Uri.Parse.{
  UriState, p_start, p_user_info, p_host, p_port, p_rest, UriParts, before, from, next_port,
  port_of, round, parse_uri_loop, no_parts, parse_uri,
}

-- Bytes that are neither of two separators.
abbrev pub Free : ℕ → ℕ → List ℕ → Type 0
Free a b = All (λ c. (c == a || c == b) ≡ false)

before-append :
    (a b : ℕ) (s : List ℕ) (d : ℕ) (t : List ℕ)
    → Free a b s
    → (d == a || d == b) ≡ true
    → before a b (s ++ (d ∷ t)) ≡ s
unfolding before
before-append a b [] d t h e = rw e refl
before-append a b (c ∷ s) d t (n, h) e = rw n (ap (◌∷◌ c) (before-append a b s d t h e))

from-append :
    (a b : ℕ) (s : List ℕ) (d : ℕ) (t : List ℕ)
    → Free a b s
    → (d == a || d == b) ≡ true
    → from a b (s ++ (d ∷ t)) ≡ d ∷ t
unfolding from
from-append a b [] d t h e = rw e refl
from-append a b (c ∷ s) d t (n, h) e = rw n (from-append a b s d t h e)

abbrev pub Without : ℕ → List ℕ → Type 0
Without d = All (λ c. (c == d) ≡ false)

component-text :
    (sep : ℕ) (s t : List ℕ)
    → (sep == sep) ≡ true
    → Without sep s
    → ((parse_uri_component sep (s ++ (sep ∷ t))).text ≡ s)
      × ((parse_uri_component sep (s ++ (sep ∷ t))).rest ≡ t)
unfolding parse_uri_component
component-text sep [] t e h = rw e (refl, refl)
component-text sep (c ∷ s) t e (n, h) =
    let (text, rest) = component-text sep s t e h in rw n (ap (◌∷◌ c) text, rest)

component-end :
    (sep : ℕ) (s : List ℕ)
    → Without sep s
    → ((parse_uri_component sep s).text ≡ s) × ((parse_uri_component sep s).rest ≡ [])
unfolding parse_uri_component
component-end sep [] h = (refl, refl)
component-end sep (c ∷ s) (n, h) =
    let (text, rest) = component-end sep s h in rw n (ap (◌∷◌ c) text, rest)

one_round :
    (rounds : ℕ) (uri : List ℕ) (state : UriState) (p : List ℕ) (parts : UriParts)
    → 0 < length p
    → let next = round uri state p parts in
      parse_uri_loop (suc rounds) uri state p parts
      ≡ parse_uri_loop rounds uri next.state next.p next.parts
unfolding parse_uri_loop
one_round rounds uri state [] parts h = absurd (omega arith)
one_round rounds uri state (c ∷ p) parts h = refl

-- The rounds up to the path, on "scheme://user@host:port/".
scheme_round :
    (rounds : ℕ) (s t : List ℕ) (parts : UriParts)
    → Free b':' b'/' s
    → let uri = s ++ (b':' ∷ b'/' ∷ b'/' ∷ t) in
      parse_uri_loop (suc (suc rounds)) uri p_start uri parts
      ≡ parse_uri_loop rounds uri p_user_info (b'/' ∷ t) (record parts { scheme = s })
unfolding parse_uri_loop round before from starts
scheme_round rounds s t parts h =
    let p = b':' ∷ b'/' ∷ b'/' ∷ t in
    let found = from-append b':' b'/' s b':' (b'/' ∷ b'/' ∷ t) h refl in
    let front : take (length (s ++ p) - length p) (s ++ p) ≡ s =
      take-append_exact (length (s ++ p) - length p) s p (omega (arith, length-append s p)) in
    one_round (suc rounds) (s ++ p) p_start (s ++ p) parts (omega (arith, length-append s p))
    ∙ rw (found, round) (rw front refl)

user_round :
    (rounds : ℕ) (uri u t : List ℕ) (parts : UriParts)
    → Free b'@' b'/' u
    → parse_uri_loop (suc rounds) uri p_user_info (b'/' ∷ (u ++ (b'@' ∷ t))) parts
      ≡ parse_uri_loop rounds uri p_host (b'@' ∷ t) (record parts { user_info = u })
unfolding round
user_round rounds uri u t parts h =
    one_round rounds uri p_user_info (b'/' ∷ (u ++ (b'@' ∷ t))) parts (omega arith)
    ∙ rw (from-append b'@' b'/' u b'@' t h refl) (rw (before-append b'@' b'/' u b'@' t h refl) refl)

host_round :
    (rounds : ℕ) (uri h t : List ℕ) (parts : UriParts)
    → Free b':' b'/' h
    → parse_uri_loop (suc rounds) uri p_host (b'@' ∷ (h ++ (b':' ∷ t))) parts
      ≡ parse_uri_loop rounds uri p_port (b':' ∷ t) (record parts { host = h })
unfolding round
host_round rounds uri h t parts free =
    one_round rounds uri p_host (b'@' ∷ (h ++ (b':' ∷ t))) parts (omega arith)
    ∙ rw (from-append b':' b'/' h b':' t free refl)
        (rw (before-append b':' b'/' h b':' t free refl) refl)

port_round :
    (rounds : ℕ) (uri d t : List ℕ) (parts : UriParts)
    → Free b'/' b'/' d
    → parse_uri_loop (suc rounds) uri p_port (b':' ∷ (d ++ (b'/' ∷ t))) parts
      ≡ parse_uri_loop rounds uri p_rest (b'/' ∷ t) (record parts { port = port_of parts.port d })
unfolding round
port_round rounds uri d t parts free =
    one_round rounds uri p_port (b':' ∷ (d ++ (b'/' ∷ t))) parts (omega arith)
    ∙ rw (from-append b'/' b'/' d b'/' t free refl)
        (rw (before-append b'/' b'/' d b'/' t free refl) refl)

rest_round :
    (rounds : ℕ) (uri path query fragment : List ℕ) (parts : UriParts)
    → Without b'?' path
    → Without b'#' query
    → Without 0 fragment
    → parse_uri_loop
        (suc rounds)
        uri
        p_rest
        ((b'/' ∷ path) ++ (b'?' ∷ (query ++ (b'#' ∷ fragment))))
        parts
      ≡ some (record parts { path = b'/' ∷ path; query = query; fragment = fragment })
unfolding parse_uri_loop round parse_uri_component
rest_round rounds uri path query fragment parts a b c =
    let (text, rest) =
      component-text b'?' (b'/' ∷ path) (query ++ (b'#' ∷ fragment)) refl (refl, a) in
    let (text', rest') = component-text b'#' query fragment refl b in
    let (text'', rest'') = component-end 0 fragment c in
    rw text (rw rest (rw text' (rw rest' (rw text'' (rw rest'' refl)))))

abbrev pub IsDigit : ℕ → Type 0
IsDigit c = (b'0' ≤ c) × (c ≤ b'9')

-- The number that decimal digits stand for, behind others that come to `n`.
abbrev pub decimal : ℕ → List ℕ → ℕ
decimal n [] = n
decimal n (c ∷ s) = decimal (10 * n + (c - b'0')) s

next_port-digit :
    (n c : ℕ) → b'0' ≤ c → c ≤ b'9' → next_port (n % 2 ^ 32) c ≡ (10 * n + (c - b'0')) % 2 ^ 32
next_port-digit n c low high =
    let small : leb 128 c ≡ false = ground (arith, high) in rw small (omega (arith, low))

port_of-decimal :
    (n : ℕ) (s : List ℕ) → All IsDigit s → port_of (n % 2 ^ 32) s ≡ decimal n s % 2 ^ 32
unfolding port_of
port_of-decimal n [] h = refl
port_of-decimal n (c ∷ s) ((low, high), h) =
    ap (λ m. port_of m s) (next_port-digit n c low high) ∙ port_of-decimal (10 * n + (c - b'0')) s h

digits-Free : (p : List ℕ) → All IsDigit p → Free b'/' b'/' p
digits-Free [] h = h
digits-Free (c ∷ p) ((low, high), h) = (ground (arith, low), digits-Free p h)

-- A URI with all its parts.
abbrev pub whole_uri : List ℕ → List ℕ → List ℕ → List ℕ → List ℕ → List ℕ → List ℕ → List ℕ
whole_uri scheme user_info host port path query fragment =
    scheme
    ++ (b':'
        ∷ b'/'
        ∷ b'/'
        ∷ (user_info
            ++ (b'@'
                ∷ (host
                    ++ (b':'
                        ∷ (port ++ ((b'/' ∷ path) ++ (b'?' ∷ (query ++ (b'#' ∷ fragment))))))))))

-- mg_parse_uri finds the parts of a URI with a scheme, a user, a host, a port, a path, a query and a
-- fragment: each is what stands between its separators, the path with its slash, and the port is the
-- number that its decimal digits stand for, modulo 2 ^ 32. No part has a separator in it that ends it.
pub parse_uri-whole_uri :
    (scheme user_info host port path query fragment : List ℕ)
    → Free b':' b'/' scheme
    → Free b'@' b'/' user_info
    → Free b':' b'/' host
    → All IsDigit port
    → Without b'?' path
    → Without b'#' query
    → Without 0 fragment
    → parse_uri (whole_uri scheme user_info host port path query fragment)
      ≡ some (record {
        scheme = scheme;
        user_info = user_info;
        host = host;
        port = decimal 0 port % 2 ^ 32;
        path = b'/' ∷ path;
        query = query;
        fragment = fragment;
      })
unfolding parse_uri
parse_uri-whole_uri scheme user host port path query fragment s u h d a b c =
    let uri = whole_uri scheme user host port path query fragment in
    let at_path = path ++ (b'?' ∷ (query ++ (b'#' ∷ fragment))) in
    let at_port = port ++ (b'/' ∷ at_path) in
    let at_host = host ++ (b':' ∷ at_port) in
    let enough : 6 + length uri ≡ suc (suc (suc (suc (suc (suc (length uri)))))) = omega arith in
    ap (λ n. parse_uri_loop n uri p_start uri no_parts) enough
    ∙ scheme_round (suc (suc (suc (suc (length uri))))) scheme (user ++ (b'@' ∷ at_host)) no_parts s
    ∙ user_round (suc (suc (suc (length uri)))) uri user at_host
        (record no_parts { scheme = scheme }) u
    ∙ host_round (suc (suc (length uri))) uri host at_port
        (record no_parts { scheme = scheme; user_info = user }) h
    ∙ port_round (suc (length uri)) uri port at_path
        (record no_parts { scheme = scheme; user_info = user; host = host }) (digits-Free port d)
    ∙ rest_round (length uri) uri path query fragment
        (record no_parts { scheme = scheme; user_info = user; host = host; port = port_of 0 port })
        a b c
    ∙ ap
        (λ n. some (record {
          scheme = scheme;
          user_info = user;
          host = host;
          port = n;
          path = b'/' ∷ path;
          query = query;
          fragment = fragment;
        }))
        (port_of-decimal 0 port d)
