-- ===== src/Http/Headers.antt =====
-- The headers of HTTP, from their text.
use evmongoose.Common.{
  arith, ℕ, zero, suc, ◌+◌, ◌-◌, ◌<◌, ◌≡◌, ◌≢◌, refl, sym, ap, ◌∙◌, Bool, true, false, ◌||◌, some,
  List, [], ◌∷◌, ◌++◌, leb, ◌==◌, length, get_or, All, Bool-cases, inl, inr, append_assoc,
  append-nil, length-append,
}
use evmongoose.Http.Message.{
  is_delim, token, behind_token, behind_delims, skip, trim_spaces, Headers, add_header,
  parse_headers, max_http_headers,
}

-- Bytes that are none of `delims`.
abbrev pub Plain : List ℕ → List ℕ → Type 0
Plain delims = All (λ c. is_delim delims c ≡ false)

pub token-append :
    (delims s : List ℕ) (d : ℕ) (t : List ℕ)
    → Plain delims s
    → is_delim delims d ≡ true
    → token delims (s ++ (d ∷ t)) ≡ s
unfolding token
token-append delims [] d t h e = rw e refl
token-append delims (c ∷ s) d t (hc, h) e = rw hc (ap (◌∷◌ c) (token-append delims s d t h e))

pub behind_token-append :
    (delims s : List ℕ) (d : ℕ) (t : List ℕ)
    → Plain delims s
    → is_delim delims d ≡ true
    → behind_token delims (s ++ (d ∷ t)) ≡ d ∷ t
unfolding behind_token
behind_token-append delims [] d t h e = rw e refl
behind_token-append delims (c ∷ s) d t (hc, h) e = rw hc (behind_token-append delims s d t h e)

pub behind_delims_plain :
    (delims : List ℕ) (c : ℕ) (s : List ℕ)
    → is_delim delims c ≡ false
    → behind_delims delims (c ∷ s) ≡ c ∷ s
unfolding behind_delims
behind_delims_plain delims c s h = rw h refl

pub behind_delims_delim :
    (delims : List ℕ) (c : ℕ) (s : List ℕ)
    → is_delim delims c ≡ true
    → behind_delims delims (c ∷ s) ≡ behind_delims delims s
unfolding behind_delims
behind_delims_delim delims c s h = rw h refl

-- `mg_skip` on a token, a delimiter and what follows.
pub skip-append :
    (delims s : List ℕ) (d : ℕ) (t : List ℕ)
    → Plain delims s
    → is_delim delims d ≡ true
    → skip delims (s ++ (d ∷ t)) ≡ (s, behind_delims delims t)
skip-append delims s d t h e =
    rw (token-append delims s d t h e)
      (rw (behind_token-append delims s d t h e) (rw (behind_delims_delim delims d t e) refl))

abbrev last_or : ℕ → List ℕ → ℕ
last_or c [] = c
last_or c (b ∷ s) = last_or b s

trim_none : (c : ℕ) (v : List ℕ) → (last_or c v == 32) ≡ false → trim_spaces (c ∷ v) ≡ c ∷ v
unfolding trim_spaces
trim_none c [] h = rw h refl
trim_none c (b ∷ v) h = rw (trim_none b v h) refl

abbrev pub colon : List ℕ
colon = b':' ∷ b' ' ∷ []

abbrev pub crlf : List ℕ
crlf = 13 ∷ 10 ∷ []

-- A name and a value that come through: the name has no colon and no space and begins with no new
-- line, and neither is empty; the value is one line and begins and ends with no space (and begins with
-- no colon).
pub record IsHeader (h : List ℕ × List ℕ) : Type 0 where
  pub named : Plain colon h.0
  pub starts : is_delim crlf (get_or h.0 0 0) ≡ false
  pub one_line : Plain crlf h.1
  pub begins : is_delim colon (get_or h.1 0 0) ≡ false
  pub ends : (last_or 0 h.1 == 32) ≡ false

-- "name: value" on a line each, and an empty line.
abbrev pub lines : List (List ℕ × List ℕ) → List ℕ
lines [] = crlf
lines ((k, v) ∷ hs) = k ++ (b':' ∷ b' ' ∷ (v ++ (13 ∷ 10 ∷ lines hs)))

value_follows :
    (v t : List ℕ)
    → is_delim colon (get_or v 0 0) ≡ false
    → behind_delims colon (b' ' ∷ (v ++ t)) ≡ v ++ t
unfolding is_delim
value_follows [] t h = absurd (cc h)
value_follows (c ∷ v) t h =
    behind_delims_delim colon b' ' ((c ∷ v) ++ t) refl ∙ behind_delims_plain colon c (v ++ t) h

trim-value : (v : List ℕ) → (last_or 0 v == 32) ≡ false → trim_spaces v ≡ v
unfolding trim_spaces
trim-value [] h = refl
trim-value (c ∷ v) h = trim_none c v h

neither : (x y : Bool) → (x || y) ≡ false → y ≡ false
neither x y e = ground arith

nul_is_delim : (delims : List ℕ) → is_delim delims 0 ≢ false
unfolding is_delim
nul_is_delim [] e = cc e
nul_is_delim (d ∷ delims) e = nul_is_delim delims (neither (0 == d) (is_delim delims 0) e)

pub not_empty :
    (delims v : List ℕ) → is_delim delims (get_or v 0 0) ≡ false → (length v == 0) ≡ false
not_empty delims [] h = absurd (nul_is_delim delims h)
not_empty delims (c ∷ v) h = ground arith

line_feed : is_delim crlf 13 ≡ true
unfolding is_delim
line_feed = refl

colon_delim : is_delim colon b':' ≡ true
unfolding is_delim
colon_delim = refl

feeds_skipped : (t : List ℕ) → behind_delims crlf (10 ∷ t) ≡ behind_delims crlf t
unfolding is_delim
feeds_skipped t = behind_delims_delim crlf 10 t refl

-- One round of the loop, on the text of one header.
parse_header :
    (rounds len : ℕ) (k v t : List ℕ) (h : Headers)
    → IsHeader (k, v)
    → length h.headers < max_http_headers - 1
    → parse_headers (suc rounds) len (k ++ (b':' ∷ b' ' ∷ (v ++ (13 ∷ 10 ∷ t)))) h
      ≡ parse_headers rounds len
          (behind_delims crlf t)
          (add_header len (k ++ (b':' ∷ b' ' ∷ (v ++ (13 ∷ 10 ∷ t)))) (v ++ (13 ∷ 10 ∷ t)) k v h)
unfolding parse_headers
parse_header rounds len k v t h ok room =
    let name : skip colon (k ++ (b':' ∷ b' ' ∷ (v ++ (13 ∷ 10 ∷ t)))) ≡ (k, v ++ (13 ∷ 10 ∷ t)) =
      skip-append colon k b':' (b' ' ∷ (v ++ (13 ∷ 10 ∷ t))) ok.named colon_delim
      ∙ ap (λ s. (k, s)) (value_follows v (13 ∷ 10 ∷ t) ok.begins) in
    let value : skip crlf (v ++ (13 ∷ 10 ∷ t)) ≡ (v, behind_delims crlf t) =
      skip-append crlf v 13 (10 ∷ t) ok.one_line line_feed ∙ ap (λ s. (v, s)) (feeds_skipped t) in
    let has_room : leb (max_http_headers - 1) (length h.headers) ≡ false = ground arith in
    rw (ap (λ p. p.0) name) (
      rw (ap (λ p. p.1) name) (
        rw (ap (λ p. p.0) value) (
          rw (ap (λ p. p.1) value) (
            rw (trim-value v ok.ends) (
              rw has_room
                (rw (not_empty crlf k ok.starts) (rw (not_empty colon v ok.begins) refl)))))))

pub lines_begin : (k v t : List ℕ) → IsHeader (k, v) → behind_delims crlf (k ++ t) ≡ k ++ t
unfolding is_delim
lines_begin [] v t ok = absurd (cc ok.starts)
lines_begin (c ∷ k) v t ok = behind_delims_plain crlf c (k ++ t) ok.starts

nothing_left :
    (rounds len : ℕ) (h : Headers)
    → parse_headers (suc rounds) len (behind_delims crlf crlf) h ≡ some h
unfolding parse_headers token behind_token behind_delims is_delim
nothing_left rounds len h = elim (Bool-cases (leb (max_http_headers - 1) (length h.headers))) [
  | inl full ↦ rw full refl
  | inr room ↦ rw room refl
]

-- The loop, on the text of all headers.
pub parse_headers-lines :
    (rounds len : ℕ) (hs : List (List ℕ × List ℕ)) (h : Headers)
    → All IsHeader hs
    → length hs < rounds
    → length h.headers + length hs < max_http_headers
    → (r : Headers) × (parse_headers rounds len (behind_delims crlf (lines hs)) h ≡ some r)
      × (r.headers ≡ h.headers ++ hs)
unfolding add_header
parse_headers-lines zero len hs h ok enough room = absurd (omega arith)
parse_headers-lines (suc rounds) len [] h ok enough room =
    (h, nothing_left rounds len h, sym (append-nil h.headers))
parse_headers-lines (suc rounds) len ((k, v) ∷ hs) h (first, ok) enough room =
    let text = lines ((k, v) ∷ hs) in
    let added = add_header len text (v ++ (13 ∷ 10 ∷ lines hs)) k v h in
    let one_more : length added.headers ≡ length h.headers + 1 =
      length-append h.headers ((k, v) ∷ []) in
    let (r, got, all) =
      parse_headers-lines rounds len hs added ok (omega arith) (omega (arith, one_more)) in
    (
      r,
      ap (λ s. parse_headers (suc rounds) len s h)
            (lines_begin k v (b':' ∷ b' ' ∷ (v ++ (13 ∷ 10 ∷ lines hs))) first)
          ∙ parse_header rounds len k v (lines hs) h first (omega arith)
          ∙ got,
      all ∙ append_assoc h.headers ((k, v) ∷ []) hs,
    )
