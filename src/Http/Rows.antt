-- ===== src/Http/Rows.antt =====
-- Where the header of an HTTP message ends, and its parts.
use mathlib.Core.List.{map}
use evmongoose.Common.{
  arith, ℕ, ◌+◌, ◌<◌, ◌≡◌, refl, sym, ap, ◌∙◌, false, none, some, List, [], ◌∷◌, ◌++◌, ◌==◌, length,
  All, append_assoc, length-append,
}
use evmongoose.Common.Int.{pos}
use evmongoose.Http.Request.{is_bad, line_ends, request_len_from}
use evmongoose.Http.Headers.{lines, crlf}

-- A byte of a line in a header.
abbrev pub IsText : ℕ → Type 0
IsText c = (is_bad c ≡ false) × ((c == 13) ≡ false) × ((c == 10) ≡ false)

abbrev pub IsRow : List ℕ → Type 0
IsRow l = All IsText l × (0 < length l)

-- Lines and an empty one.
abbrev pub rows : List (List ℕ) → List ℕ
rows [] = crlf
rows (l ∷ ls) = l ++ (13 ∷ 10 ∷ rows ls)

abbrev pub row : List ℕ × List ℕ → List ℕ
row (k, v) = k ++ (b':' ∷ b' ' ∷ v)

no_line_ends : (c : ℕ) (s : List ℕ) → (c == 10) ≡ false → line_ends c s ≡ none
unfolding line_ends
no_line_ends c [] h = refl
no_line_ends c (d ∷ []) h = rw h refl
no_line_ends c (d ∷ e ∷ s) h = rw h refl

no_empty_line :
    (c : ℕ) (s : List ℕ) → (c == 13) ≡ false → (c == 10) ≡ false → line_ends 10 (c ∷ s) ≡ none
unfolding line_ends
no_empty_line c [] h k = rw k refl
no_empty_line c (e ∷ s) h k = rw k (rw h refl)

len_row :
    (i : ℕ) (l t : List ℕ)
    → All IsText l
    → request_len_from i (l ++ (13 ∷ t)) ≡ request_len_from (i + length l) (13 ∷ t)
unfolding request_len_from
len_row i [] t h = ap (λ n. request_len_from n (13 ∷ t)) (omega arith)
len_row i (c ∷ l) t ((good, _, n), h) = rw good (
    rw (no_line_ends c (l ++ (13 ∷ t)) n)
      (len_row (i + 1) l t h ∙ ap (λ n. request_len_from n (13 ∷ t)) (omega arith)))

len_feed :
    (i : ℕ) (t : List ℕ)
    → request_len_from i (13 ∷ 10 ∷ t)
      ≡ elim (line_ends 10 t) [ none ↦ request_len_from (i + 1 + 1) t | some n ↦ pos (i + 1 + n) ]
unfolding request_len_from
len_feed i t = rw (no_line_ends 13 (10 ∷ t) refl) refl

len_line :
    (i : ℕ) (l t body : List ℕ)
    → All IsText l
    → request_len_from i ((l ++ (13 ∷ 10 ∷ t)) ++ body) ≡ elim (line_ends 10 (t ++ body)) [
      | none ↦ request_len_from (i + length l + 1 + 1) (t ++ body)
      | some n ↦ pos (i + length l + 1 + n)
    ]
len_line i l t body text =
    ap (request_len_from i) (append_assoc l (13 ∷ 10 ∷ t) body)
    ∙ len_row i l (10 ∷ (t ++ body)) text
    ∙ len_feed (i + length l) (t ++ body)

empty_line_ends : (body : List ℕ) → line_ends 10 (13 ∷ 10 ∷ body) ≡ some 3
unfolding line_ends
empty_line_ends body = refl

-- The answer for a header of lines, from position `i` on.
pub request_len_from-rows :
    (i : ℕ) (l : List ℕ) (ls : List (List ℕ)) (body : List ℕ)
    → All IsText l
    → All IsRow ls
    → request_len_from i (rows (l ∷ ls) ++ body) ≡ pos (i + length (rows (l ∷ ls)))
request_len_from-rows i l [] body text more =
    len_line i l crlf body text
    ∙ rw (empty_line_ends body) (ap pos (omega (arith, length-append l (13 ∷ 10 ∷ 13 ∷ 10 ∷ []))))
request_len_from-rows i l ([] ∷ ls) body text ((_, some_text), more) = absurd (omega arith)
request_len_from-rows i l ((c ∷ k) ∷ ls) body text ((((good, cr, lf), rest), _), more) =
    len_line i l (rows ((c ∷ k) ∷ ls)) body text
    ∙ rw (no_empty_line c ((k ++ (13 ∷ 10 ∷ rows ls)) ++ body) cr lf) (
        request_len_from-rows (i + length l + 1 + 1) (c ∷ k) ls body ((good, cr, lf), rest) more
        ∙ ap pos (omega (arith, length-append l (13 ∷ 10 ∷ rows ((c ∷ k) ∷ ls)))))

pub lines-rows : (hs : List (List ℕ × List ℕ)) → lines hs ≡ rows (map row hs)
lines-rows [] = refl
lines-rows ((k, v) ∷ hs) =
    ap (λ t. k ++ (b':' ∷ b' ' ∷ (v ++ (13 ∷ 10 ∷ t)))) (lines-rows hs)
    ∙ sym (append_assoc k (b':' ∷ b' ' ∷ v) (13 ∷ 10 ∷ rows (map row hs)))
