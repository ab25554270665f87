-- ===== src/Str/Case.antt =====
-- `mg_ncasecmp` and `mg_vcasecmp`: equality up to the case of ASCII letters.
use mathlib.Core.List.{map}
use evmongoose.Common.{
  arith, ℕ, zero, suc, ◌^◌, ◌≤◌, ◌<◌, ◌≡◌, refl, ap, ◌↔◌, List, [], ◌∷◌, length, take, ltb,
  if◌then◌else◌, take_all, All,
}
use evmongoose.Common.Int.{is_zero, pos, sub_ℕ}
use evmongoose.Str.{tolower, ncasecmp, vcasecmp, length_diff}
use evmongoose.Str.Order.{length_diff-zero}

-- A C string holds no NUL.
abbrev pub NoNul : List ℕ → Type 0
NoNul = All (λ c. 0 < c)

pub sub_ℕ-zero : (a b : ℕ) → (sub_ℕ a b ≡ pos 0) ↔ (a ≡ b)
sub_ℕ-zero a b = ground arith

pub ncasecmp-zero :
    (n : ℕ) (a z : List ℕ)
    → NoNul z
    → n ≤ length a
    → n ≤ length z
    → (ncasecmp a z n ≡ pos 0) ↔ (map tolower (take n a) ≡ map tolower (take n z))
unfolding ncasecmp
ncasecmp-zero zero a z c h k = (λ _. refl, λ _. refl)
ncasecmp-zero (suc n) [] z c h k = absurd (omega arith)
ncasecmp-zero (suc n) (x ∷ a) [] c h k = absurd (omega arith)
ncasecmp-zero (suc n) (x ∷ a) (y ∷ z) (cy, cz) h k =
    ground (arith, sub_ℕ-zero (tolower x) (tolower y), ncasecmp-zero n a z cz)

-- `mg_vcasecmp`, given the length that both strings reach.
vcasecmp_of_ncasecmp :
    (a z : List ℕ) (n : ℕ)
    → n ≡ (if ltb (length a) (length z) then length a else length z)
    → vcasecmp a z
      ≡ (if is_zero (ncasecmp a z n) then length_diff (length a) (length z) else ncasecmp a z n)
unfolding vcasecmp
vcasecmp_of_ncasecmp a z n h = rw h

pub length-map : (f : ℕ → ℕ) (xs : List ℕ) → length (map f xs) ≡ length xs
length-map f [] = refl
length-map f (x ∷ xs) = ap suc (length-map f xs)

-- `mg_vcasecmp` answers 0 for a string and a C string that differ in the case of letters at most,
-- and for no others, while the lengths are below 2 ^ 32.
pub vcasecmp-zero :
    (a z : List ℕ)
    → NoNul z
    → length a < 2 ^ 32
    → length z < 2 ^ 32
    → (vcasecmp a z ≡ pos 0) ↔ (map tolower a ≡ map tolower z)
vcasecmp-zero a z c h k =
    let n : ℕ = if ltb (length a) (length z) then length a else length z in
    (
      λ e. ground (
        arith,
        e,
        vcasecmp_of_ncasecmp a z n refl,
        length_diff-zero (length a) (length z),
        ncasecmp-zero n a z c,
        take_all n a,
        take_all n z,
      ),
      λ e. ground (
        arith,
        e,
        ap length e,
        length-map tolower a,
        length-map tolower z,
        vcasecmp_of_ncasecmp a z n refl,
        ncasecmp-zero n a z c,
        take_all n a,
        take_all n z,
      ),
    )
