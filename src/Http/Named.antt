-- ===== src/Http/Named.antt =====
-- `mg_get_http_header`: the search for a header by its name.
use mathlib.Core.List.{map}
use evmongoose.Common.{
  arith, ℕ, ◌≡◌, refl, ap, true, false, ◌&&◌, Option, none, some, List, [], ◌∷◌, ◌==◌, length, take,
  All, Bool-cases, inl, inr, ◌↔◌, take_all,
}
use evmongoose.Common.Int.{is_zero}
use evmongoose.Str.{ncasecmp, tolower}
use evmongoose.Str.Case.{NoNul, ncasecmp-zero, length-map}
use evmongoose.Http.Message.{get_http_header}
use evmongoose.Http.Headers.{crlf, IsHeader, not_empty}

-- Two names that are the same but for the case of letters.
abbrev pub SameName : List ℕ → List ℕ → Type 0
SameName k name = map tolower k ≡ map tolower name

-- The value of the first header of a name.
pub data FirstNamed (name : List ℕ) : List (List ℕ × List ℕ) → Option (List ℕ) → Type 0 where
  nowhere : FirstNamed name [] none
  here :
      (k v : List ℕ) (hs : List (List ℕ × List ℕ))
      → SameName k name
      → FirstNamed name ((k, v) ∷ hs) (some v)
  later :
      (k v : List ℕ) (hs : List (List ℕ × List ℕ)) {o : Option (List ℕ)}
      → ¬ SameName k name
      → FirstNamed name hs o
      → FirstNamed name ((k, v) ∷ hs) o

SameName-test :
    (k name : List ℕ)
    → NoNul name
    → ((length k == length name && is_zero (ncasecmp k name (length name))) ≡ true)
      ↔ SameName k name
SameName-test k name whole =
    let n = length name in
    let all : (b : List ℕ) → length b ≡ n → take n b ≡ b = λ b e. take_all n b (omega (arith, e)) in
    (
      λ e. ground (arith, e, ncasecmp-zero n k name whole, all k, all name refl),
      λ e. ground (
        arith,
        e,
        ap length e,
        length-map tolower k,
        length-map tolower name,
        ncasecmp-zero n k name whole,
        all k,
        all name refl,
      ),
    )

pub get_http_header-FirstNamed :
    (hs : List (List ℕ × List ℕ)) (name : List ℕ)
    → All IsHeader hs
    → NoNul name
    → FirstNamed name hs (get_http_header hs name)
unfolding get_http_header
get_http_header-FirstNamed [] name ok whole = nowhere
get_http_header-FirstNamed ((k, v) ∷ hs) name (first, ok) whole =
    let named : (length k == 0) ≡ false = not_empty crlf k first.starts in
    elim (Bool-cases (length k == length name && is_zero (ncasecmp k name (length name)))) [
      | inl same ↦ rw named (rw same (here k v hs ((SameName-test k name whole).0 same)))
      | inr other ↦ rw named (
          rw other (
            later k v hs (λ s. cc ((SameName-test k name whole).1 s, other))
              (get_http_header-FirstNamed hs name ok whole)))
    ]
