-- ===== src/Common/Bits.antt =====
-- Bits of bytes, checked on all values.
use Prim.Native.Nat.{ℕ, zero, suc, ◌+◌, ◌*◌, ◌/◌, ◌%◌, ◌<◌, ◌≤◌, bit_or}
use native.Mathlib.Decide.{dec_lt}
use mathlib.Core.Path.{◌≡◌, refl}
use mathlib.Core.Logic.{inl, inr}
use mathlib.Core.Bool.{Bool, true, false}
use native.Mathlib.Omega.{arith}
use evmongoose.Common.Tests.{◌==◌, ==_iff, Bool-cases}

-- Whether a test passes at a number and at all the smaller ones.
unfoldable pub passes : (ℕ → Bool) → ℕ → Bool
passes test zero = test 0
passes test (suc n) = elim (test (suc n)) [ false ↦ false | true ↦ passes test n ]

pub passes_at : (test : ℕ → Bool) (n : ℕ) → passes test n ≡ true → (k : ℕ) → k ≤ n → test k ≡ true
unfolding passes
passes_at test zero all k le = let first : k ≡ 0 = omega arith in rw first all
passes_at test (suc n) all k le = elim (Bool-cases (test (suc n))) [
  | inr fails ↦ absurd (ground (arith, all, fails))
  | inl top ↦ elim (dec_lt n k) [
    | yes above ↦ let last : k ≡ suc n = omega arith in rw last top
    | no below ↦ passes_at test n (ground (arith, all, top)) k (omega arith)
  ]
]

-- Whether the high part of a byte and the low part, below `base`, are put together by `|`.
abbrev joins : ℕ → ℕ → Bool
joins base k = bit_or (k / base * base) (k % base) == k

joins_nibbles : passes (joins 16) 255 ≡ true
unfolding passes
joins_nibbles = refl

joins_class : passes (joins 32) 255 ≡ true
unfolding passes
joins_class = refl

-- Four bits above four bits.
pub bit_or_nibbles : (x y : ℕ) → x < 16 → y < 16 → bit_or (x * 16) y ≡ x * 16 + y
bit_or_nibbles x y h k =
    let byte : (x * 16 + y) / 16 ≡ x = omega arith in
    let low : (x * 16 + y) % 16 ≡ y = omega arith in
    let e = passes_at (joins 16) 255 joins_nibbles (x * 16 + y) (omega arith) in
    rw (low, byte) at ((==_iff _ _).0 e)

-- Three bits above five bits.
pub bit_or_class : (x y : ℕ) → x < 8 → y < 32 → bit_or (x * 32) y ≡ x * 32 + y
bit_or_class x y h k =
    let byte : (x * 32 + y) / 32 ≡ x = omega arith in
    let low : (x * 32 + y) % 32 ≡ y = omega arith in
    let e = passes_at (joins 32) 255 joins_class (x * 32 + y) (omega arith) in
    rw (low, byte) at ((==_iff _ _).0 e)
