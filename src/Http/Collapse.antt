-- ===== src/Http/Collapse.antt =====
-- The chunks of a body are put together to the body.
use mathlib.Core.Path.{ap₂}
use evmongoose.Common.{
  arith, ℕ, zero, suc, ◌+◌, ◌-◌, ◌^◌, ◌≤◌, ◌<◌, ◌≡◌, refl, sym, ap, ◌∙◌, true, false, List, [], ◌∷◌,
  ◌++◌, ltb, ◌==◌, if◌then◌else◌, length, length-append, length-drop, append_assoc, ◌||◌, take,
  drop, take-append_exact, drop-append_exact, All, drop-drop, drop-append_le, Bool,
}
use evmongoose.Http.Chunk.{chunk, parse_chunk, Pass, passed, collapse, chunk_loop}
use evmongoose.Http.Send.{chunk_size}
use evmongoose.Http.Digits.{chunk_bytes, parse_chunk-bytes}

-- The body that chunks carry, and their bytes on the wire.
abbrev pub concat : List (List ℕ) → List ℕ
concat [] = []
concat (c ∷ cs) = c ++ concat cs

abbrev pub wire : List (List ℕ) → List ℕ
wire [] = []
wire (c ∷ cs) = chunk_bytes c ++ wire cs

-- A chunk that is no end of the body.
abbrev pub IsPiece : List ℕ → Type 0
IsPiece c = (0 < length c) × (length c < 2 ^ 31)

-- One round, where a chunk stands behind the body so far and what that has left behind.
collapse_chunk :
    (front gap body rest : List ℕ) (zero_chunk : Bool)
    → length body < 2 ^ 62
    → (gap' : List ℕ) × (length gap' ≡ length gap + (length (chunk_bytes body) - length body))
      × (collapse
            (record {
              buf = front ++ (gap ++ (chunk_bytes body ++ rest));
              i = length front + length gap;
              body_len = length front;
              zero_chunk_received = zero_chunk;
            })
            (length (chunk_bytes body))
            (length front + length gap + length (chunk_size (length body)))
            (length body)
          ≡ record {
            buf = (front ++ body) ++ (gap' ++ rest);
            i = length (front ++ body) + length gap';
            body_len = length (front ++ body);
            zero_chunk_received = length body == 0;
          })
unfolding collapse
collapse_chunk front gap body rest zero_chunk small = (
  gap',
  omega (arith, long, length-drop n (gap ++ chunk_bytes body), both),
  (let b = laid_out in
      let at_i : length front + length gap + length (chunk_bytes body)
          ≡ length (front ++ body) + length gap' =
        omega
          (arith, long, both, length-drop n (gap ++ chunk_bytes body), length-append front body) in
      let at_len : length front + n ≡ length (front ++ body) =
        omega (arith, length-append front body) in
      ground (arith, b, at_i, at_len)),
)
  where
    n : ℕ
    n = length body

    size : List ℕ
    size = chunk_size n

    end : List ℕ
    end = 13 ∷ 10 ∷ []

    tail : List ℕ
    tail = gap ++ (chunk_bytes body ++ rest)

    gap' : List ℕ
    gap' = drop n (gap ++ chunk_bytes body)

    both : length (gap ++ chunk_bytes body) ≡ length gap + length (chunk_bytes body)
    both = length-append gap (chunk_bytes body)

    long : length (chunk_bytes body) ≡ length size + n + 2
    long = omega (arith, length-append size (body ++ end), length-append body end)

    there : drop (length front + length gap + length size) (front ++ tail) ≡ body ++ (end ++ rest)
    there =
        ap (drop (length front + length gap + length size)) (
          ap (λ t. front ++ (gap ++ t))
            (append_assoc size (body ++ end) rest
              ∙ ap (λ t. size ++ t) (append_assoc body end rest))
          ∙ ap (λ t. front ++ t) (sym (append_assoc gap size (body ++ (end ++ rest))))
          ∙ sym (append_assoc front (gap ++ size) (body ++ (end ++ rest))))
        ∙ drop-append_exact (length front + length gap + length size) (front ++ (gap ++ size))
            (body ++ (end ++ rest))
            (omega (arith, length-append front (gap ++ size), length-append gap size))

    behind : drop (length front + n) (front ++ tail) ≡ gap' ++ rest
    behind =
        sym (drop-drop n (length front) (front ++ tail))
        ∙ ap (drop n) (drop-append_exact (length front) front tail refl)
        ∙ ap (drop n) (sym (append_assoc gap (chunk_bytes body) rest))
        ∙ drop-append_le n (gap ++ chunk_bytes body) rest (omega (arith, both, long))

    laid_out :
        take (length front) (front ++ tail)
          ++ (take n (drop (length front + length gap + length size) (front ++ tail))
              ++ drop (length front + n) (front ++ tail))
        ≡ (front ++ body) ++ (gap' ++ rest)
    laid_out =
        ap₂ (λ a b. a ++ (b ++ drop (length front + n) (front ++ tail)))
          (take-append_exact (length front) front tail refl)
          (ap (take n) there ∙ take-append_exact n body (end ++ rest) refl)
        ∙ ap (λ t. front ++ (body ++ t)) behind
        ∙ sym (append_assoc front body (gap' ++ rest))

-- The state of the loop: the body so far, what it has left behind, and the bytes to come.
abbrev pub at_pass : List ℕ → List ℕ → List ℕ → Bool → Pass
at_pass front gap rest z = record {
  buf = front ++ (gap ++ rest);
  i = length front + length gap;
  body_len = length front;
  zero_chunk_received = z;
}

pub drop-at_pass :
    (front gap rest : List ℕ) → drop (length front + length gap) (front ++ (gap ++ rest)) ≡ rest
drop-at_pass front gap rest =
    ap (drop (length front + length gap)) (sym (append_assoc front gap rest))
    ∙ drop-append_exact (length front + length gap) (front ++ gap) rest
        (omega (arith, length-append front gap))

-- The tests of a round, for a chunk that is all there.
loop_step :
    (rounds : ℕ) (p : Pass) (n start data_len : ℕ)
    → parse_chunk (drop p.i p.buf) ≡ chunk n start data_len
    → 0 < n
    → p.i + start + data_len ≤ length p.buf
    → p.body_len + data_len ≤ length p.buf
    → chunk_loop (suc rounds) p ≡ (
        if data_len == 0
        then passed (collapse p n (p.i + start) data_len)
        else chunk_loop rounds (collapse p n (p.i + start) data_len))
unfolding chunk_loop
loop_step rounds p n start data_len e pos inside room =
    let some_bytes : (n == 0) ≡ false = ground arith in
    let fits : (ltb (length p.buf) (p.i + start + data_len)
          || ltb (length p.buf) (p.body_len + data_len))
        ≡ false =
      ground arith in
    rw (e, chunk_loop) (rw some_bytes (rw fits refl))

pub length-chunk_bytes :
    (body : List ℕ)
    → length (chunk_bytes body) ≡ length (chunk_size (length body)) + length body + 2
length-chunk_bytes body = omega (
  arith,
  length-append (chunk_size (length body)) (body ++ (13 ∷ 10 ∷ [])),
  length-append body (13 ∷ 10 ∷ []),
)

-- A round over a chunk that was sent.
loop_chunk :
    (rounds : ℕ) (front gap body rest : List ℕ) (z : Bool)
    → length body < 2 ^ 62
    → (gap' : List ℕ) × (0 < length gap')
      × (chunk_loop (suc rounds) (at_pass front gap (chunk_bytes body ++ rest) z) ≡ (
          if length body == 0
          then passed (at_pass (front ++ body) gap' rest (length body == 0))
          else chunk_loop rounds (at_pass (front ++ body) gap' rest (length body == 0))))
loop_chunk rounds front gap body rest z small =
    let (gap', l, e) = collapse_chunk front gap body rest z small in
    (
      gap',
      omega (arith, l, long),
      loop_step rounds (at_pass front gap (chunk_bytes body ++ rest) z) (length (chunk_bytes body))
            (length (chunk_size (length body))) (length body)
            (ap parse_chunk (drop-at_pass front gap (chunk_bytes body ++ rest))
              ∙ parse_chunk-bytes body rest small)
            (omega (arith, long)) (omega (arith, long, total)) (omega (arith, long, total))
          ∙ ap (λ p. if length body == 0 then passed p else chunk_loop rounds p) e,
    )
  where
    long : length (chunk_bytes body) ≡ length (chunk_size (length body)) + length body + 2
    long = length-chunk_bytes body

    total :
        length (front ++ (gap ++ (chunk_bytes body ++ rest)))
        ≡ length front + (length gap + (length (chunk_bytes body) + length rest))
    total = omega (
      arith,
      length-append front (gap ++ (chunk_bytes body ++ rest)),
      length-append gap (chunk_bytes body ++ rest),
      length-append (chunk_bytes body) rest,
    )

-- The loop over pieces and the end of the body.
pub loop_pieces :
    (rounds : ℕ) (front gap : List ℕ) (cs : List (List ℕ)) (rest : List ℕ) (z : Bool)
    → All IsPiece cs
    → length cs < rounds
    → (gap' : List ℕ) × (0 < length gap')
      × (chunk_loop rounds (at_pass front gap (wire cs ++ (chunk_bytes [] ++ rest)) z)
          ≡ passed (at_pass (front ++ concat cs) gap' rest true))
loop_pieces zero front gap cs rest z pieces h = absurd (omega arith)
loop_pieces (suc rounds) front gap [] rest z pieces h =
    loop_chunk rounds front gap [] rest z (omega arith)
loop_pieces (suc rounds) front gap (c ∷ cs) rest z (piece, pieces) h =
    let (gap1, _, e) =
      loop_chunk rounds front gap c (wire cs ++ (chunk_bytes [] ++ rest)) z
        (omega (arith, piece.1)) in
    let (gap2, pos, e') =
      loop_pieces rounds (front ++ c) gap1 cs rest (length c == 0) pieces (omega arith) in
    let more : (length c == 0) ≡ false = ground (arith, piece.0) in
    (
      gap2,
      pos,
      ap (λ t. chunk_loop (suc rounds) (at_pass front gap t z))
            (append_assoc (chunk_bytes c) (wire cs) (chunk_bytes [] ++ rest))
          ∙ e
          ∙ ap
              (λ b.
                if b
                then passed (
                    at_pass (front ++ c) gap1 (wire cs ++ (chunk_bytes [] ++ rest)) (length c == 0))
                else chunk_loop rounds (
                    at_pass (front ++ c) gap1 (wire cs ++ (chunk_bytes [] ++ rest))
                      (length c == 0)))
              more
          ∙ e'
          ∙ ap (λ t. passed (at_pass t gap2 rest true)) (append_assoc front c (concat cs)),
    )
