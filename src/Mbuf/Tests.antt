-- ===== src/Mbuf/Tests.antt =====
-- An allocator that meets the laws, runs of the buffer on it, and the theorems at such runs.
use evmongoose.Common.{
  arith, ℕ, zero, suc, ◌+◌, ◌^◌, ◌≤◌, ◌<◌, ◌≡◌, ◌≢◌, refl, ap, inl, inr, Option, none, some, List,
  [], ◌∷◌, ltb, if◌then◌else◌, length, take,
}
use evmongoose.Mbuf.{Block, null, Allocator, Mbuf, bytes, init, free, insert, place}
use evmongoose.Mbuf.Contents.{IsValid, contents}
use evmongoose.Mbuf.Insert.{Affords, insert-contents}
use evmongoose.Mbuf.Resize.{init_empty, free_empty}

-- The bytes `xs` in a block of `n` bytes.
fit : ℕ → List ℕ → List ℕ
fit zero xs = []
fit (suc n) [] = 0 ∷ fit n []
fit (suc n) (x ∷ xs) = x ∷ fit n xs

length-fit : (n : ℕ) (xs : List ℕ) → length (fit n xs) ≡ n
unfolding fit
length-fit zero xs = refl
length-fit (suc n) [] = ap suc (length-fit n [])
length-fit (suc n) (x ∷ xs) = ap suc (length-fit n xs)

take-fit : (n k : ℕ) (xs : List ℕ) → k ≤ n → k ≤ length xs → take k (fit n xs) ≡ take k xs
unfolding fit
take-fit n zero xs h l = refl
take-fit zero (suc k) xs h l = absurd (omega arith)
take-fit (suc n) (suc k) [] h l = absurd (omega arith)
take-fit (suc n) (suc k) (x ∷ xs) h l = ap (◌∷◌ x) (take-fit n k xs (omega arith) (omega arith))

-- Every block of less than 100 bytes, at one address; no larger one.
small_realloc : Block → ℕ → Option Block
small_realloc b n = if ltb n 100 then some (record { addr = 4096; bytes = fit n b.bytes }) else none

sized : (b : Block) (n : ℕ) (c : Block) → small_realloc b n ≡ some c → length c.bytes ≡ n
unfolding small_realloc
sized b n c h = ground (arith, length-fit n b.bytes)

kept :
    (b : Block) (n : ℕ) (c : Block) (k : ℕ)
    → small_realloc b n ≡ some c
    → k ≤ n
    → k ≤ length b.bytes
    → take k c.bytes ≡ take k b.bytes
unfolding small_realloc
kept b n c k h p q = ground (arith, take-fit n k b.bytes p q)

in_space : (b : Block) (n : ℕ) (c : Block) → small_realloc b n ≡ some c → c.addr + n < 2 ^ 64
unfolding small_realloc
in_space b n c h = ground arith

abbrev heap : Allocator
heap = record { realloc = small_realloc; sized = sized; kept = kept; in_space = in_space }

abbrev xyz : Mbuf
xyz = record { buf = record { addr = 4096; bytes = 120 ∷ 121 ∷ 122 ∷ 7 ∷ [] }; len = 3; size = 4 }

xyz-IsValid : IsValid xyz
xyz-IsValid = omega arith

abbrev ab : List ℕ
ab = 97 ∷ 98 ∷ []

insert_run :
    insert heap xyz 1 (bytes ab)
    ≡ some (
      record {
        buf = record { addr = 4096; bytes = 120 ∷ 97 ∷ 98 ∷ 121 ∷ 122 ∷ 0 ∷ 0 ∷ [] };
        len = 5;
        size = 7;
      },
      2,
    )
unfolding insert small_realloc fit place
insert_run = refl

has_memory : small_realloc xyz.buf 7 ≢ none
unfolding small_realloc
has_memory e = cc

insert-contents_example :
    (m' : Mbuf) × (insert heap xyz 1 (bytes ab) ≡ some (m', 2))
    × IsValid m'
    × (contents m' ≡ 120 ∷ 97 ∷ 98 ∷ 121 ∷ 122 ∷ [])
insert-contents_example =
    insert-contents heap xyz 1 ab xyz-IsValid (omega arith) (omega arith) (omega arith)
      (inr has_memory)

-- A full buffer whose growth the allocator refuses.
abbrev full : Mbuf
full = record { buf = record { addr = 4096; bytes = fit 99 [] }; len = 99; size = 99 }

full-IsValid : IsValid full
full-IsValid = record { len_fits = omega arith; backed = length-fit 99 []; in_space = omega arith }

refused : ¬ Affords heap full 2
unfolding small_realloc
refused h = elim h [ inl r ↦ omega arith | inr a ↦ a refl ]

init_empty_example :
    IsValid (init heap 8)
    × (contents (init heap 8) ≡ [])
    × (small_realloc null 8 ≢ none → (init heap 8).size ≡ 8)
init_empty_example = init_empty heap 8

free_empty_example : IsValid (free heap xyz) × (contents (free heap xyz) ≡ [])
free_empty_example = free_empty heap xyz (omega arith)
