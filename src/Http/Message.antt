-- ===== src/Http/Message.antt =====
-- `mg_skip`, `mg_http_parse_headers`, `mg_parse_http` and `mg_get_http_header` of src/mongoose.c.
--
-- The bytes between a pointer and `end` are a list; `strtoll` and `atoi` are those of glibc in the C
-- locale.
use evmongoose.Common.{
  ℕ, zero, suc, ◌+◌, ◌-◌, ◌*◌, ◌%◌, ◌^◌, Bool, true, not, ◌&&◌, ◌||◌, Option, none, some, List, [],
  ◌∷◌, ◌++◌, ltb, leb, ◌==◌, if◌then◌else◌, length, take, drop, get_or, min,
}
use evmongoose.Common.Int.{ℤ, pos, negsuc, is_zero, neg}
use evmongoose.Str.{ncasecmp, vcasecmp}
use evmongoose.Http.{isdigit}
use evmongoose.Http.Request.{get_request_len}

-- `strchr(delims, c) != NULL`, which also finds the NUL at the end of `delims`.
unfoldable pub is_delim : List ℕ → ℕ → Bool
is_delim [] c = c == 0
is_delim (d ∷ delims) c = c == d || is_delim delims c

unfoldable pub token : List ℕ → List ℕ → List ℕ
token delims [] = []
token delims (c ∷ s) = let more = token delims s in if is_delim delims c then [] else c ∷ more

unfoldable pub behind_token : List ℕ → List ℕ → List ℕ
behind_token delims [] = []
behind_token delims (c ∷ s) =
    let later = behind_token delims s in if is_delim delims c then c ∷ s else later

unfoldable pub behind_delims : List ℕ → List ℕ → List ℕ
behind_delims delims [] = []
behind_delims delims (c ∷ s) =
    let later = behind_delims delims s in if is_delim delims c then later else c ∷ s

-- `mg_skip`: `v` and the pointer returned.
abbrev pub skip : List ℕ → List ℕ → List ℕ × List ℕ
skip delims s = (token delims s, behind_delims delims (behind_token delims s))

abbrev pub isspace : ℕ → Bool
isspace c = c == 32 || leb 9 c && leb c 13

unfoldable pub skip_spaces : List ℕ → List ℕ
skip_spaces [] = []
skip_spaces (c ∷ s) = let later = skip_spaces s in if isspace c then later else c ∷ s

unfoldable pub digits_value : ℕ → List ℕ → ℕ
digits_value n [] = n
digits_value n (c ∷ s) =
    let later = digits_value (n * 10 + (c - b'0')) s in if isdigit c then later else n

unfoldable pub strtoll : List ℕ → ℤ
unfolding skip_spaces digits_value
strtoll s =
    let t = skip_spaces s in
    if get_or t 0 0 == b'-'
    then neg (pos (min (digits_value 0 (drop 1 t)) (2 ^ 63)))
    else if get_or t 0 0 == b'+'
    then pos (min (digits_value 0 (drop 1 t)) (2 ^ 63 - 1))
    else pos (min (digits_value 0 t) (2 ^ 63 - 1))

-- A `long long` as `size_t`.
abbrev pub to_size : ℤ → ℕ
to_size (pos n) = n
to_size (negsuc n) = 2 ^ 64 - (n + 1)

-- A `long` as `int`.
abbrev pub to_int : ℤ → ℤ
to_int a = let w = to_size a % 2 ^ 32 in if ltb w (2 ^ 31) then pos w else negsuc (2 ^ 32 - w - 1)

-- The loop that trims the spaces at the end of a header's value.
unfoldable pub trim_spaces : List ℕ → List ℕ
trim_spaces [] = []
trim_spaces (c ∷ v) = in_front c (trim_spaces v)
  where
    in_front : ℕ → List ℕ → List ℕ
    in_front c [] = if c == 32 then [] else c ∷ []
    in_front c (b ∷ kept) = c ∷ b ∷ kept

-- What the loop over the headers fills: names with values, `req->body.len` and `req->message.len`.
pub record Headers : Type 0 where
  pub headers : List (List ℕ × List ℕ)
  pub body_len : ℕ
  pub message_len : ℕ

-- MG_MAX_HTTP_HEADERS.
abbrev pub max_http_headers : ℕ
max_http_headers = 40

-- "Content-Length".
abbrev pub content_length : List ℕ
content_length = 67 ∷ 111 ∷ 110 ∷ 116 ∷ 101 ∷ 110 ∷ 116 ∷ 45 ∷ 76 ∷ 101 ∷ 110 ∷ 103 ∷ 116 ∷ 104 ∷ []

-- A header `k` with value `v`, which stand at `s` and `at_value`.
unfoldable pub add_header : ℕ → List ℕ → List ℕ → List ℕ → List ℕ → Headers → Headers
unfolding ncasecmp strtoll
add_header len s at_value k v h =
    let declared = to_size (strtoll at_value) in
    let given = is_zero (ncasecmp s content_length 14) in
    record {
      headers = h.headers ++ ((k, v) ∷ []);
      body_len = if given then declared else h.body_len;
      message_len = if given then (len + declared) % 2 ^ 64 else h.message_len;
    }

-- The loop of `mg_http_parse_headers`; `none` once the rounds are used up.
unfoldable pub parse_headers : ℕ → ℕ → List ℕ → Headers → Option Headers
unfolding token behind_token behind_delims trim_spaces
parse_headers zero len s h = none
parse_headers (suc rounds) len s h =
    let (k, at_value) = skip (b':' ∷ b' ' ∷ []) s in
    let (value, next) = skip (13 ∷ 10 ∷ []) at_value in
    let v = trim_spaces value in
    let added = if length v == 0 then h else add_header len s at_value k v h in
    let later = parse_headers rounds len next added in
    if leb (max_http_headers - 1) (length h.headers)
    then some h
    else if not (length k == 0) && length v == 0
    then later
    else if length k == 0 || length v == 0
    then some h
    else later

-- `mg_get_http_header`, on the names before the first empty one.
unfoldable pub get_http_header : List (List ℕ × List ℕ) → List ℕ → Option (List ℕ)
unfolding ncasecmp
get_http_header [] name = none
get_http_header ((h, v) ∷ hs) name =
    let later = get_http_header hs name in
    if length h == 0
    then none
    else if length h == length name && is_zero (ncasecmp h name (length name))
    then some v
    else later

-- `struct http_message`, without `message.p` and `body.p`, which are the start of the text and the
-- end of its header.
pub record HttpMessage : Type 0 where
  pub method : List ℕ
  pub uri : List ℕ
  pub proto : List ℕ
  pub resp_code : ℤ
  pub resp_status_msg : List ℕ
  pub query_string : Option (List ℕ)
  pub fields : Headers

-- What `mg_parse_http` comes to: its return value, and the message where that is above 0.
pub data Parsed : Type 0 where
  refused : ℤ → Parsed
  parsed : ℕ → HttpMessage → Parsed
  unfinished_headers : Parsed

-- `uri` without the query string, and that, behind its `?`.
unfoldable pub split_query : List ℕ → List ℕ × Option (List ℕ)
split_query [] = ([], none)
split_query (c ∷ uri) =
    let (path, query) = split_query uri in if c == b'?' then ([], some uri) else (c ∷ path, query)

-- `body.len` of a request with no Content-Length, by its method: "PUT" and "POST" have a body.
unfoldable pub without_length : ℕ → List ℕ → Headers → Headers
unfolding vcasecmp
without_length len method h =
    if h.body_len == 2 ^ 64 - 1
      && not (is_zero (vcasecmp method (80 ∷ 85 ∷ 84 ∷ [])))
      && not (is_zero (vcasecmp method (80 ∷ 79 ∷ 83 ∷ 84 ∷ [])))
    then record h { body_len = 0; message_len = len }
    else h

abbrev pub no_headers : Headers
no_headers = record { headers = []; body_len = 2 ^ 64 - 1; message_len = 2 ^ 64 - 1 }

-- The headers behind the first line, which has filled the message but for its `fields`.
unfoldable pub parse_fields : ℕ → List ℕ → (Headers → HttpMessage) → Parsed
parse_fields len s fill = elim (parse_headers (suc (length s)) len s no_headers) [
  | none ↦ unfinished_headers
  | some h ↦ parsed len (fill h)
]

unfoldable pub parse_request : ℕ → List ℕ → Parsed
unfolding token behind_token behind_delims split_query
parse_request len s =
    let (method, at_uri) = skip (b' ' ∷ []) s in
    let (uri, at_proto) = skip (b' ' ∷ []) at_uri in
    let (proto, behind) = skip (13 ∷ 10 ∷ []) at_proto in
    let (path, query) = split_query uri in
    if leb (length s) (length at_uri) || leb (length at_uri) (length at_proto)
    then refused (negsuc 0)
    else parse_fields len behind (λ h. record {
      method = method;
      uri = path;
      proto = proto;
      resp_code = pos 0;
      resp_status_msg = [];
      query_string = query;
      fields = without_length len method h;
    })

-- `resp_code < 100 || resp_code >= 600`
abbrev pub is_no_code : ℤ → Bool
is_no_code (pos n) = ltb n 100 || leb 600 n
is_no_code (negsuc n) = true

unfoldable pub parse_response : ℕ → List ℕ → Parsed
unfolding token behind_token behind_delims strtoll
parse_response len s =
    let (proto, at_code) = skip (b' ' ∷ []) s in
    let code = to_int (strtoll at_code) in
    let (msg, behind) = skip (13 ∷ 10 ∷ []) (drop 4 at_code) in
    if ltb (length at_code) 4 || not (get_or at_code 3 0 == b' ')
    then refused (negsuc 0)
    else if is_no_code code
    then refused (negsuc 0)
    else parse_fields len behind (λ h. record {
      method = [];
      uri = [];
      proto = proto;
      resp_code = code;
      resp_status_msg = msg;
      query_string = none;
      fields = h;
    })

unfoldable pub parse_http : List ℕ → Bool → Parsed
parse_http s is_req = elim (get_request_len s) [
  | negsuc n ↦ refused (negsuc n)
  | pos zero ↦ refused (pos 0)
  | pos (suc n) ↦
      let text = skip_spaces (take (suc n) s) in
      if is_req then parse_request (suc n) text else parse_response (suc n) text
]
