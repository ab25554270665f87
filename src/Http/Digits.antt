-- ===== src/Http/Digits.antt =====
-- The length of a chunk is read back as it was printed.
use mathlib.Core.Path.{ap₂}
use evmongoose.Common.{
  arith, ℕ, zero, suc, ◌+◌, ◌*◌, ◌/◌, ◌%◌, ◌^◌, ◌≤◌, ◌<◌, ◌≡◌, refl, sym, ap, ◌∙◌, true, false,
  List, [], ◌∷◌, ◌++◌, ltb, ◌==◌, length, length-append, append_assoc, get_elem?, get_elem?-append,
  Bool-cases, inl, inr, ◌||◌,
}
use evmongoose.Http.{isxdigit, hex_value}
use evmongoose.Http.Chunk.{scan_len, is_line_end, line_end, chunk, chunk_data, parse_chunk}
use evmongoose.Http.Send.{hex_digit, print_hex, chunk_size}

digit_back : (d : ℕ) → d < 16 → (isxdigit (hex_digit d) ≡ true) × (hex_value (hex_digit d) ≡ d)
unfolding hex_value
digit_back d h = ground arith

scan_digit :
    (m d : ℕ) (s : List ℕ)
    → d < 16
    → m * 16 + d < 2 ^ 64
    → scan_len m (hex_digit d ∷ s) ≡ ((scan_len (m * 16 + d) s).0, suc (scan_len (m * 16 + d) s).1)
unfolding scan_len
scan_digit m d s h k =
    let (x, v) = digit_back d h in
    let e : (m * 16 + hex_value (hex_digit d)) % 2 ^ 64 ≡ m * 16 + d = omega (arith, v) in
    rw (x, e) refl

-- What fits in so many digits and one.
abbrev pub room : ℕ → ℕ
room zero = 16
room (suc digits) = room digits * 16

one_digit :
    (n : ℕ) (s : List ℕ)
    → n < 16
    → scan_len 0 (hex_digit n ∷ s) ≡ ((scan_len n s).0, suc (scan_len n s).1)
one_digit n s h =
    scan_digit 0 n s h (omega arith)
    ∙ ap (λ m. ((scan_len m s).0, suc (scan_len m s).1)) (omega arith)

scan_print :
    (digits n : ℕ) (s : List ℕ)
    → n < room digits
    → n < 2 ^ 64
    → scan_len 0 (print_hex digits n ++ s)
      ≡ ((scan_len n s).0, length (print_hex digits n) + (scan_len n s).1)
unfolding print_hex
scan_print zero n s h k =
    ap (λ m. scan_len 0 (hex_digit m ∷ s)) (omega arith)
    ∙ one_digit n s h
    ∙ ap (λ m. ((scan_len n s).0, m)) (omega arith)
scan_print (suc digits) n s h k = elim (Bool-cases (ltb n 16)) [
  | inl e ↦ rw e (one_digit n s (ground arith) ∙ ap (λ m. ((scan_len n s).0, m)) (omega arith))
  | inr e ↦ rw e (
      ap (scan_len 0) (append_assoc front (hex_digit (n % 16) ∷ []) s)
      ∙ scan_print digits (n / 16) (hex_digit (n % 16) ∷ s) (omega arith) (omega arith)
      ∙ ap (λ r. (r.0, length front + r.1)) (last_digit (ground arith))
      ∙ ap (λ m. ((scan_len n s).0, m))
          (omega (arith, length-append front (hex_digit (n % 16) ∷ []))))
]
  where
    front : List ℕ
    front = print_hex digits (n / 16)

    last_digit :
        16 ≤ n
        → scan_len (n / 16) (hex_digit (n % 16) ∷ s) ≡ ((scan_len n s).0, suc (scan_len n s).1)
    last_digit h =
        scan_digit (n / 16) (n % 16) s (omega arith) (omega arith)
        ∙ ap (λ m. ((scan_len m s).0, suc (scan_len m s).1)) (omega arith)

pub print_hex_pos : (digits n : ℕ) → 0 < length (print_hex digits n)
unfolding print_hex
print_hex_pos zero n = omega arith
print_hex_pos (suc digits) n =
    ground (arith, length-append (print_hex digits (n / 16)) (hex_digit (n % 16) ∷ []))

line_end_at :
    (front rest : List ℕ) (i : ℕ)
    → i ≡ length front
    → 0 < i
    → i + 2 < 2 ^ 64
    → line_end (front ++ (13 ∷ 10 ∷ rest)) i ≡ is_line_end
unfolding line_end
line_end_at front rest i e pos small =
    rw (inside, at 0 i (omega (arith, e)), at 1 (i + 1) (omega (arith, e))) refl
  where
    all : List ℕ
    all = front ++ (13 ∷ 10 ∷ rest)

    at : (k j : ℕ) → length front + k ≡ j → get_elem? all j ≡ get_elem? (13 ∷ 10 ∷ rest) k
    at k j h = ap (get_elem? all) (sym h) ∙ get_elem?-append front (13 ∷ 10 ∷ rest) k

    inside : (i == 0 || ltb (length all) ((i + 2) % 2 ^ 64)) ≡ false
    inside = ground (arith, length-append front (13 ∷ 10 ∷ rest), e)

-- A chunk as `mg_send_http_chunk` sends it.
abbrev pub chunk_bytes : List ℕ → List ℕ
chunk_bytes body = chunk_size (length body) ++ (body ++ (13 ∷ 10 ∷ []))

pub length-print_hex : (digits n : ℕ) → length (print_hex digits n) ≤ digits + 1
unfolding print_hex
length-print_hex zero n = omega arith
length-print_hex (suc digits) n = ground (
  arith,
  length-append (print_hex digits (n / 16)) (hex_digit (n % 16) ∷ []),
  length-print_hex digits (n / 16),
)

scan_stop : (n : ℕ) (s : List ℕ) → scan_len n (13 ∷ s) ≡ (n, 0)
unfolding scan_len
scan_stop n s = refl

scan_size :
    (n : ℕ) (rest : List ℕ)
    → n < 2 ^ 64
    → scan_len 0 (chunk_size n ++ rest) ≡ (n, length (print_hex 15 n))
unfolding chunk_size
scan_size n rest h =
    ap (scan_len 0) (append_assoc (print_hex 15 n) (13 ∷ 10 ∷ []) rest)
    ∙ scan_print 15 n (13 ∷ 10 ∷ rest) (omega arith) h
    ∙ ap (λ r. (r.0, length (print_hex 15 n) + r.1)) (scan_stop n (10 ∷ rest))
    ∙ ap (λ b. (n, b)) (omega arith)

pub length-chunk_size : (n : ℕ) → length (chunk_size n) ≡ length (print_hex 15 n) + 2
unfolding chunk_size
length-chunk_size n = length-append (print_hex 15 n) (13 ∷ 10 ∷ [])

parse_chunk_of :
    (s : List ℕ) (n i : ℕ)
    → scan_len 0 s ≡ (n, i)
    → line_end s i ≡ is_line_end
    → line_end s ((i + 2 + n) % 2 ^ 64) ≡ is_line_end
    → parse_chunk s ≡ chunk (((i + 2 + n) % 2 ^ 64 + 2) % 2 ^ 64) (i + 2) n
unfolding parse_chunk chunk_data
parse_chunk_of s n i e first second =
    rw (e, parse_chunk) (rw (first, parse_chunk) (rw e (rw (second, chunk_data) refl)))

chunk_size-append : (n : ℕ) (s : List ℕ) → chunk_size n ++ s ≡ print_hex 15 n ++ (13 ∷ 10 ∷ s)
unfolding chunk_size
chunk_size-append n s = append_assoc (print_hex 15 n) (13 ∷ 10 ∷ []) s

-- A chunk that was sent is parsed whole, whatever follows it.
pub parse_chunk-bytes :
    (body rest : List ℕ)
    → length body < 2 ^ 62
    → parse_chunk (chunk_bytes body ++ rest)
      ≡ chunk (length (chunk_bytes body)) (length (chunk_size (length body))) (length body)
parse_chunk-bytes body rest h =
    parse_chunk_of buf n (length digits) scanned first second
    ∙ ap₂ (λ a b. chunk a b n) (omega (arith, total, small)) (sym size)
  where
    n : ℕ
    n = length body

    digits : List ℕ
    digits = print_hex 15 n

    buf : List ℕ
    buf = chunk_bytes body ++ rest

    small : length digits ≤ 16
    small = length-print_hex 15 n

    size : length (chunk_size n) ≡ length digits + 2
    size = length-chunk_size n

    total : length (chunk_bytes body) ≡ length digits + 2 + n + 2
    total = omega (
      arith,
      size,
      length-append (chunk_size n) (body ++ (13 ∷ 10 ∷ [])),
      length-append body (13 ∷ 10 ∷ []),
    )

    scanned : scan_len 0 buf ≡ (n, length digits)
    scanned =
        ap (scan_len 0) (append_assoc (chunk_size n) (body ++ (13 ∷ 10 ∷ [])) rest)
        ∙ scan_size n ((body ++ (13 ∷ 10 ∷ [])) ++ rest) (omega arith)

    first : line_end buf (length digits) ≡ is_line_end
    first =
        ap (λ t. line_end t (length digits))
          (append_assoc (chunk_size n) (body ++ (13 ∷ 10 ∷ [])) rest
            ∙ chunk_size-append n ((body ++ (13 ∷ 10 ∷ [])) ++ rest))
        ∙ line_end_at digits ((body ++ (13 ∷ 10 ∷ [])) ++ rest) (length digits) refl
            (print_hex_pos 15 n) (omega (arith, small))

    second : line_end buf ((length digits + 2 + n) % 2 ^ 64) ≡ is_line_end
    second =
        ap₂ line_end
          (append_assoc (chunk_size n) (body ++ (13 ∷ 10 ∷ [])) rest
            ∙ ap (λ t. chunk_size n ++ t) (append_assoc body (13 ∷ 10 ∷ []) rest)
            ∙ sym (append_assoc (chunk_size n) body (13 ∷ 10 ∷ rest)))
          (omega (arith, small))
        ∙ line_end_at (chunk_size n ++ body) rest (length digits + 2 + n)
            (omega (arith, size, length-append (chunk_size n) body)) (omega arith)
            (omega (arith, small))
