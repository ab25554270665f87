-- ===== src/Http/Reading.antt =====
-- `mg_parse_http` on the text of a request.
use evmongoose.Common.{
  arith, ℕ, ◌<◌, ◌≡◌, refl, ap, ◌∙◌, false, Option, none, some, List, [], ◌∷◌, ◌++◌, leb, ◌==◌,
  length, get_or, All, length-append,
}
use evmongoose.Common.Int.{pos}
use evmongoose.Http.Message.{
  is_delim, behind_delims, skip, max_http_headers, split_query, without_length, parse_fields,
  parse_request,
}
use evmongoose.Http.Headers.{Plain, skip-append, behind_delims_plain, crlf, IsHeader, lines}
use evmongoose.Http.Rows.{IsText}

abbrev pub space : List ℕ
space = b' ' ∷ []

-- A path and the query string behind its `?`.
abbrev pub target : List ℕ → Option (List ℕ) → List ℕ
target path none = path
target path (some query) = path ++ (b'?' ∷ query)

abbrev pub request : List ℕ → List ℕ → List ℕ → List (List ℕ × List ℕ) → List ℕ
request method uri proto hs = method ++ (b' ' ∷ (uri ++ (b' ' ∷ (proto ++ (13 ∷ 10 ∷ lines hs)))))

-- The parts of a request that come through: a method and a target without spaces, a protocol that
-- begins with none, headers, and no byte but those of lines of text.
pub record IsRequest (method uri proto : List ℕ) (hs : List (List ℕ × List ℕ)) : Type 0 where
  pub method_text : All IsText method
  pub method_word : Plain space method
  pub method_begins : is_delim space (get_or method 0 0) ≡ false
  pub uri_text : All IsText uri
  pub uri_word : Plain space uri
  pub uri_begins : is_delim space (get_or uri 0 0) ≡ false
  pub proto_text : All IsText proto
  pub proto_begins : is_delim space (get_or proto 0 0) ≡ false
  pub headers : All IsHeader hs
  pub names_text : All (λ h. All IsText h.0) hs
  pub values_text : All (λ h. All IsText h.1) hs
  pub few : length hs < max_http_headers

split_query-target :
    (path : List ℕ) (query : Option (List ℕ))
    → All (λ c. (c == b'?') ≡ false) path
    → split_query (target path query) ≡ (path, query)
unfolding split_query
split_query-target [] none h = refl
split_query-target [] (some query) h = refl
split_query-target (c ∷ path) none (n, h) =
    rw n (ap (λ r. (c ∷ r.0, r.1)) (split_query-target path none h))
split_query-target (c ∷ path) (some query) (n, h) =
    rw n (ap (λ r. (c ∷ r.0, r.1)) (split_query-target path (some query) h))

text_line : (s : List ℕ) → All IsText s → Plain crlf s
unfolding is_delim
text_line [] h = h
text_line (c ∷ s) ((good, cr, lf), h) = (ground arith, text_line s h)

-- A word and one space, before something that begins with none.
skip_word :
    (w t rest : List ℕ)
    → Plain space w
    → is_delim space (get_or t 0 0) ≡ false
    → skip space (w ++ (b' ' ∷ (t ++ rest))) ≡ (w, t ++ rest)
unfolding is_delim
skip_word w [] rest h k = absurd (cc k)
skip_word w (c ∷ t) rest h k =
    skip-append space w b' ' ((c ∷ t) ++ rest) h refl
    ∙ ap (λ s. (w, s)) (behind_delims_plain space c (t ++ rest) k)

skip_line :
    (p t : List ℕ) → All IsText p → skip crlf (p ++ (13 ∷ 10 ∷ t)) ≡ (p, behind_delims crlf t)
unfolding is_delim behind_delims
skip_line p t h = skip-append crlf p 13 (10 ∷ t) (text_line p h) refl

moves_on : (w t : List ℕ) → leb (length (w ++ (b' ' ∷ t))) (length t) ≡ false
moves_on w t = ground (arith, length-append w (b' ' ∷ t))

-- The first line.
pub parse_request-line :
    (len : ℕ) (method path : List ℕ) (query : Option (List ℕ)) (proto : List ℕ)
    (hs : List (List ℕ × List ℕ))
    → IsRequest method (target path query) proto hs
    → All (λ c. (c == b'?') ≡ false) path
    → parse_request len (request method (target path query) proto hs)
      ≡ parse_fields len (behind_delims crlf (lines hs)) (λ h. record {
        method = method;
        uri = path;
        proto = proto;
        resp_code = pos 0;
        resp_status_msg = [];
        query_string = query;
        fields = without_length len method h;
      })
unfolding parse_request
parse_request-line len method path query proto hs ok plain =
    let uri = target path query in
    let at_proto = proto ++ (13 ∷ 10 ∷ lines hs) in
    let at_uri = uri ++ (b' ' ∷ at_proto) in
    let first = skip_word method uri (b' ' ∷ at_proto) ok.method_word ok.uri_begins in
    let second = skip_word uri proto (13 ∷ 10 ∷ lines hs) ok.uri_word ok.proto_begins in
    let third = skip_line proto (lines hs) ok.proto_text in
    rw (ap (λ p. p.0) first) (
      rw (ap (λ p. p.1) first) (
        rw (ap (λ p. p.0) second) (
          rw (ap (λ p. p.1) second) (
            rw (ap (λ p. p.0) third) (
              rw (ap (λ p. p.1) third) (
                rw (split_query-target path query plain)
                  (rw (moves_on method at_uri) (rw (moves_on uri at_proto) refl))))))))
