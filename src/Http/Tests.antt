-- ===== src/Http/Tests.antt =====
-- Runs of the functions for HTTP.
use evmongoose.Common.{
  arith, ℕ, ◌+◌, ◌≡◌, ◌<◌, ◌↔◌, refl, true, false, some, List, [], ◌∷◌, ◌++◌, if◌then◌else◌,
}
use evmongoose.Common.Int.{pos}
use evmongoose.Net.{Conn, mg_send, passed}
use evmongoose.Net.Samples.{fresh}
use evmongoose.Http.{hex_value}
use evmongoose.Http.Chunk.{Body, handled, outside_body, tell_chunk, handle_chunked}
use evmongoose.Http.Send.{send_http_chunk, chunk_size, print_hex}
use evmongoose.Http.Body.{told_of, whole_body}
use evmongoose.Http.Sent.{
  send_body, wrapping_size, handle_chunked-send, handle_chunked-wrapping_size,
}
use evmongoose.Http.Request.{get_request_len, request_len_from, url_decode, decode_from}
use evmongoose.Http.Prefix.{get_request_len-append}
use evmongoose.Common.{length}
use evmongoose.Str.{ncasecmp}
use evmongoose.Http.Message.{
  add_header, content_length, is_delim, parse_headers, no_headers, HttpMessage, parse_http, parsed,
  get_http_header,
}
use evmongoose.Http.Headers.{lines}
use evmongoose.Http.Named.{FirstNamed}
use evmongoose.Http.Reading.{request, target, IsRequest}
use evmongoose.Http.Asked.{parse_http-request}
use evmongoose.Http.Form.{get_http_var, find_var}
use evmongoose.Http.Vars.{form}
use evmongoose.Http.Decode.{Encoded, url_decode-Encoded}

abbrev deaf : Body → Conn → Conn
deaf b nc = nc

abbrev pieces : List (List ℕ)
pieces = (b'a' ∷ b'b' ∷ []) ∷ (b'c' ∷ []) ∷ []

abbrev headers : List ℕ
headers = b'G' ∷ 10 ∷ 10 ∷ []

-- "ab" and "c" in chunks behind a header, and a byte behind them.
abbrev input : List ℕ
input = headers ++ ([] ++ ((send_body 3 pieces fresh).send_mbuf ++ (b'X' ∷ [])))

abbrev received : Conn
received = record fresh { recv_mbuf = input }

chunks :
    (send_body 3 pieces fresh).send_mbuf
    ≡ b'2' ∷ 13 ∷ 10 ∷ b'a' ∷ b'b' ∷ 13 ∷ 10 ∷ b'1' ∷ 13 ∷ 10 ∷ b'c' ∷ 13 ∷ 10 ∷ b'0' ∷ 13 ∷ 10 ∷ 13
      ∷ 10 ∷ []
unfolding send_http_chunk chunk_size print_hex mg_send passed
chunks = refl

handle_chunked-send_example :
    let after =
      tell_chunk deaf
        (told_of 3 0)
        (record received { recv_mbuf = headers ++ (b'a' ∷ b'b' ∷ b'c' ∷ b'X' ∷ []) }) in
    handle_chunked deaf 3
      (record { chunk_body_len = 0; hm_body_len = 0; hm_message_len = 0 })
      received
    ≡ handled 3 (whole_body after.flags.delete_chunk 3 (1 + 3)) (
        if after.flags.delete_chunk
        then record after { recv_mbuf = headers ++ (b'X' ∷ []) }
        else after)
handle_chunked-send_example =
    handle_chunked-send deaf 3 headers [] pieces (b'X' ∷ []) 0 0 fresh received (λ b nc. refl)
      (omega arith) refl refl

handle_chunked-wrapping_size_example :
    handle_chunked deaf 3
      (record { chunk_body_len = 0; hm_body_len = 0; hm_message_len = 0 })
      (record fresh { recv_mbuf = headers ++ (wrapping_size ++ []) })
    ≡ outside_body
handle_chunked-wrapping_size_example =
    handle_chunked-wrapping_size deaf headers [] 0 0
      (record fresh { recv_mbuf = headers ++ (wrapping_size ++ []) }) refl (omega arith)

get_request_len-append_example : get_request_len (headers ++ (b'X' ∷ [])) ≡ get_request_len headers
get_request_len-append_example =
    get_request_len-append headers (b'X' ∷ [])
      (unfold get_request_len request_len_from in (λ e. ground (arith, e)))

-- "a%20+" in a form is "a" and two spaces.
decoded :
    url_decode (b'a' ∷ b'%' ∷ b'2' ∷ b'0' ∷ b'+' ∷ []) 9 true ≡ (pos 3, some (b'a' ∷ 32 ∷ 32 ∷ []))
unfolding url_decode decode_from hex_value
decoded = refl

url_decode-Encoded_example :
    (url_decode (b'%' ∷ b'4' ∷ b'a' ∷ []) 2 false ≡ (pos 1, some (b'J' ∷ [])))
    ↔ (Encoded false (b'%' ∷ b'4' ∷ b'a' ∷ []) (b'J' ∷ []) × (1 < 2))
url_decode-Encoded_example =
    url_decode-Encoded false (b'%' ∷ b'4' ∷ b'a' ∷ []) (b'J' ∷ []) 2 (omega arith)

-- A header "Content-Length-H: 9" counts as a Content-Length.
abbrev hint : List (List ℕ × List ℕ)
hint = (content_length ++ (b'-' ∷ b'H' ∷ []), b'9' ∷ []) ∷ []

hint_counts :
    parse_headers 9 0 (lines hint) no_headers
    ≡ some (record { headers = hint; body_len = 9; message_len = 9 })
unfolding parse_headers is_delim ncasecmp add_header
hint_counts = refl

-- "G /?b H" with the header "A: 9".
abbrev a_header : List (List ℕ × List ℕ)
a_header = (b'A' ∷ [], b'9' ∷ []) ∷ []

abbrev asks : List ℕ
asks = request (b'G' ∷ []) (target (b'/' ∷ []) (some (b'b' ∷ []))) (b'H' ∷ []) a_header

asks-IsRequest : IsRequest (b'G' ∷ []) (target (b'/' ∷ []) (some (b'b' ∷ []))) (b'H' ∷ []) a_header
unfolding is_delim
asks-IsRequest = record {
  method_text = ((refl, refl, refl), tt);
  method_word = (refl, tt);
  method_begins = refl;
  uri_text = ((refl, refl, refl), ((refl, refl, refl), ((refl, refl, refl), tt)));
  uri_word = (refl, (refl, (refl, tt)));
  uri_begins = refl;
  proto_text = ((refl, refl, refl), tt);
  proto_begins = refl;
  headers = (
    record { named = (refl, tt); starts = refl; one_line = (refl, tt); begins = refl; ends = refl },
    tt,
  );
  names_text = (((refl, refl, refl), tt), tt);
  values_text = (((refl, refl, refl), tt), tt);
  few = omega arith;
}

parse_http-request_example :
    (msg : HttpMessage) × (parse_http (asks ++ (b'X' ∷ [])) true ≡ parsed (length asks) msg)
    × (msg.method ≡ b'G' ∷ [])
    × (msg.uri ≡ b'/' ∷ [])
    × (msg.query_string ≡ some (b'b' ∷ []))
    × (msg.proto ≡ b'H' ∷ [])
    × (msg.fields.headers ≡ a_header)
    × FirstNamed (b'a' ∷ []) a_header (get_http_header msg.fields.headers (b'a' ∷ []))
parse_http-request_example =
    parse_http-request (b'G' ∷ []) (b'/' ∷ []) (some (b'b' ∷ [])) (b'H' ∷ []) (b'X' ∷ [])
      (b'a' ∷ []) a_header asks-IsRequest (refl, tt) (omega arith, tt)

-- "a=1&B=%41" has "A" for "b".
abbrev fields : List (List ℕ × List ℕ)
fields = (b'a' ∷ [], b'1' ∷ []) ∷ (b'B' ∷ [], b'%' ∷ b'4' ∷ b'1' ∷ []) ∷ []

var_found : get_http_var (some (form fields)) (some (b'b' ∷ [])) 9 ≡ (pos 1, some (b'A' ∷ []))
unfolding get_http_var find_var url_decode decode_from hex_value
var_found = refl
