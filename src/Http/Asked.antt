-- ===== src/Http/Asked.antt =====
-- From the text of a request to its parts and its headers.
use mathlib.Core.List.{map}
use evmongoose.Common.{
  arith, ℕ, suc, ◌+◌, ◌≤◌, ◌<◌, ◌≡◌, refl, sym, ap, ◌∙◌, true, false, Option, List, [], ◌∷◌, ◌++◌,
  ◌==◌, length, get_or, All, append_assoc, length-append, take-append_exact, All-append,
}
use evmongoose.Common.Int.{pos}
use evmongoose.Str.Case.{NoNul}
use evmongoose.Http.Request.{get_request_len}
use evmongoose.Http.Message.{
  is_delim, behind_delims, isspace, skip_spaces, Headers, no_headers, get_http_header, HttpMessage,
  parsed, without_length, parse_fields, parse_request, parse_http,
}
use evmongoose.Http.Headers.{crlf, IsHeader, lines, parse_headers-lines, lines_begin}
use evmongoose.Http.Named.{FirstNamed, get_http_header-FirstNamed}
use evmongoose.Http.Rows.{IsText, IsRow, rows, row, request_len_from-rows, lines-rows}
use evmongoose.Http.Reading.{space, target, request, IsRequest, parse_request-line}

rows_of_headers :
    (hs : List (List ℕ × List ℕ))
    → All (λ h. All IsText h.0) hs
    → All (λ h. All IsText h.1) hs
    → All IsRow (map row hs)
rows_of_headers [] names values = names
rows_of_headers ((k, v) ∷ hs) (name, names) (value, values) = (
  (
    (All-append IsText k (b':' ∷ b' ' ∷ v)).1
        (name, ((refl, refl, refl), ((refl, refl, refl), value))),
    omega (arith, length-append k (b':' ∷ b' ' ∷ v)),
  ),
  rows_of_headers hs names values,
)

abbrev first_line : List ℕ → List ℕ → List ℕ → List ℕ
first_line method uri proto = method ++ (b' ' ∷ (uri ++ (b' ' ∷ proto)))

first_line-IsText :
    (method uri proto : List ℕ)
    → All IsText method
    → All IsText uri
    → All IsText proto
    → All IsText (first_line method uri proto)
first_line-IsText method uri proto m u p =
    (All-append IsText method (b' ' ∷ (uri ++ (b' ' ∷ proto)))).1 (
      m,
      ((refl, refl, refl), (All-append IsText uri (b' ' ∷ proto)).1 (u, ((refl, refl, refl), p))),
    )

request-rows :
    (method uri proto : List ℕ) (hs : List (List ℕ × List ℕ))
    → request method uri proto hs ≡ rows (first_line method uri proto ∷ map row hs)
request-rows method uri proto hs =
    let end = 13 ∷ 10 ∷ rows (map row hs) in
    ap (λ t. method ++ (b' ' ∷ (uri ++ (b' ' ∷ (proto ++ (13 ∷ 10 ∷ t)))))) (lines-rows hs)
    ∙ ap (λ t. method ++ (b' ' ∷ t)) (sym (append_assoc uri (b' ' ∷ proto) end))
    ∙ sym (append_assoc method (b' ' ∷ (uri ++ (b' ' ∷ proto))) end)

zero_add : (n : ℕ) → 0 + n ≡ n
zero_add n = omega arith

request_len :
    (method uri proto body : List ℕ) (hs : List (List ℕ × List ℕ))
    → IsRequest method uri proto hs
    → get_request_len (request method uri proto hs ++ body)
      ≡ pos (length (request method uri proto hs))
unfolding get_request_len
request_len method uri proto body hs ok =
    let text = rows (first_line method uri proto ∷ map row hs) in
    rw (request-rows method uri proto hs) (
      request_len_from-rows 0 (first_line method uri proto) (map row hs) body
        (first_line-IsText method uri proto ok.method_text ok.uri_text ok.proto_text)
        (rows_of_headers hs ok.names_text ok.values_text)
      ∙ ap pos (zero_add (length text)))

-- A text begins with no white space if its first word is none.
no_spaces :
    (w t : List ℕ)
    → All IsText w
    → is_delim space (get_or w 0 0) ≡ false
    → skip_spaces (w ++ t) ≡ w ++ t
unfolding is_delim skip_spaces
no_spaces [] t h k = absurd (cc k)
no_spaces (c ∷ w) t ((good, cr, lf), h) k = let n : isspace c ≡ false = ground arith in rw n refl

-- `mg_parse_http` on a header of so many bytes, with others behind it.
parse_http_of_request_len :
    (text body : List ℕ)
    → 0 < length text
    → get_request_len (text ++ body) ≡ pos (length text)
    → skip_spaces text ≡ text
    → parse_http (text ++ body) true ≡ parse_request (length text) text
unfolding parse_http
parse_http_of_request_len [] body some_text found starts = absurd (omega arith)
parse_http_of_request_len (c ∷ text) body some_text found starts =
    rw (found, parse_http)
      (rw (take-append_exact (suc (length text)) (c ∷ text) body refl) (rw starts refl))

length-lines : (hs : List (List ℕ × List ℕ)) → length hs ≤ length (lines hs)
length-lines [] = omega arith
length-lines ((k, v) ∷ hs) = omega (
  arith,
  length-lines hs,
  length-append k (b':' ∷ b' ' ∷ (v ++ (13 ∷ 10 ∷ lines hs))),
  length-append v (13 ∷ 10 ∷ lines hs),
)

enough_rounds :
    (hs : List (List ℕ × List ℕ))
    → All IsHeader hs
    → length hs < suc (length (behind_delims crlf (lines hs)))
enough_rounds [] ok = omega arith
enough_rounds ((k, v) ∷ hs) (first, ok) =
    let starts = lines_begin k v (b':' ∷ b' ' ∷ (v ++ (13 ∷ 10 ∷ lines hs))) first in
    let long : length (behind_delims crlf (lines ((k, v) ∷ hs))) ≡ length (lines ((k, v) ∷ hs)) =
      ap length starts in
    omega (arith, length-lines ((k, v) ∷ hs), long)

parse_fields-lines :
    (len : ℕ) (hs : List (List ℕ × List ℕ)) (fill : Headers → HttpMessage)
    → All IsHeader hs
    → length hs < 40
    → (r : Headers) × (parse_fields len (behind_delims crlf (lines hs)) fill ≡ parsed len (fill r))
      × (r.headers ≡ hs)
unfolding parse_fields
parse_fields-lines len hs fill ok few =
    let text = behind_delims crlf (lines hs) in
    let (r, got, all) =
      parse_headers-lines (suc (length text)) len hs no_headers ok (enough_rounds hs ok)
        (omega arith) in
    (r, rw (got, parse_fields) refl, all)

without_length-headers :
    (len : ℕ) (method : List ℕ) (h : Headers) → (without_length len method h).headers ≡ h.headers
unfolding without_length
without_length-headers len method h = ground arith

-- The text of a request, with anything behind it, is parsed to its parts: the method, the path, the
-- query string, the protocol and the headers, 39 at most, in their order; and the search for a header
-- then gives the value of the first of that name up to the case of letters, or nothing if there is
-- none.
pub parse_http-request :
    (method path : List ℕ) (query : Option (List ℕ)) (proto body name : List ℕ)
    (hs : List (List ℕ × List ℕ))
    → IsRequest method (target path query) proto hs
    → All (λ c. (c == b'?') ≡ false) path
    → NoNul name
    → let text = request method (target path query) proto hs in
      (msg : HttpMessage) × (parse_http (text ++ body) true ≡ parsed (length text) msg)
      × (msg.method ≡ method)
      × (msg.uri ≡ path)
      × (msg.query_string ≡ query)
      × (msg.proto ≡ proto)
      × (msg.fields.headers ≡ hs)
      × FirstNamed name hs (get_http_header msg.fields.headers name)
parse_http-request method path query proto body name hs ok plain whole =
    let text = request method (target path query) proto hs in
    let rest = b' ' ∷ (target path query ++ (b' ' ∷ (proto ++ (13 ∷ 10 ∷ lines hs)))) in
    let len = length text in
    let fill : Headers → HttpMessage = λ h. record {
      method = method;
      uri = path;
      proto = proto;
      resp_code = pos 0;
      resp_status_msg = [];
      query_string = query;
      fields = without_length len method h;
    } in
    let (r, got, all) = parse_fields-lines len hs fill ok.headers ok.few in
    let same : (fill r).fields.headers ≡ hs = without_length-headers len method r ∙ all in
    (
      fill r,
      parse_http_of_request_len text body (omega (arith, length-append method rest))
            (request_len method (target path query) proto body hs ok)
            (no_spaces method rest ok.method_text ok.method_begins)
          ∙ parse_request-line len method path query proto hs ok plain
          ∙ got,
      refl,
      refl,
      refl,
      refl,
      same,
      rw same (get_http_header-FirstNamed hs name ok.headers whole),
    )
