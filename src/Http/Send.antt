-- ===== src/Http/Send.antt =====
-- `mg_send_http_chunk` of src/mongoose.c.
use evmongoose.Common.{
  ℕ, zero, suc, ◌+◌, ◌-◌, ◌/◌, ◌%◌, List, [], ◌∷◌, ◌++◌, ltb, if◌then◌else◌, length,
}
use evmongoose.Net.{Conn, mg_send}

abbrev pub hex_digit : ℕ → ℕ
hex_digit d = if ltb d 10 then b'0' + d else b'A' + (d - 10)

-- `%lX`, for a number of so many digits and one at most.
unfoldable pub print_hex : ℕ → ℕ → List ℕ
print_hex zero n = hex_digit (n % 16) ∷ []
print_hex (suc digits) n =
    let front = print_hex digits (n / 16) in
    if ltb n 16 then hex_digit n ∷ [] else front ++ (hex_digit (n % 16) ∷ [])

-- An `unsigned long` has sixteen digits at most.
unfoldable pub chunk_size : ℕ → List ℕ
unfolding print_hex
chunk_size len = print_hex 15 len ++ (13 ∷ 10 ∷ [])

unfoldable pub send_http_chunk : ℕ → List ℕ → Conn → Conn
send_http_chunk now buf nc =
    mg_send now (13 ∷ 10 ∷ []) (mg_send now buf (mg_send now (chunk_size (length buf)) nc))
