-- ===== src/WebSocket/Masks.antt =====
-- Masking twice by the same mask gives the bytes back.
use Prim.Native.Nat.{digits, differ, bit_xor-bitwise}
use evmongoose.Common.{
  arith, ℕ, zero, suc, ◌+◌, ◌*◌, ◌/◌, ◌%◌, ◌≤◌, ◌<◌, ◌≡◌, refl, List, [], ◌∷◌, length, bit_xor,
  get_or, ap,
}
use evmongoose.WebSocket.{xor_mask}

abbrev xor_digits : ℕ → ℕ → ℕ → ℕ
xor_digits n a b = digits (λ b. b) differ n a b

xor_digits-zero : (n b : ℕ) → xor_digits n 0 b ≡ b
xor_digits-zero zero b = refl
xor_digits-zero (suc n) b = refl

-- More rounds than there are digits change nothing.
xor_digits_fuel : (n m a b : ℕ) → a ≤ n → a ≤ m → xor_digits n a b ≡ xor_digits m a b
xor_digits_fuel n m zero b p q = cc (xor_digits-zero n b, xor_digits-zero m b)
xor_digits_fuel zero m (suc a) b p q = absurd (omega arith)
xor_digits_fuel (suc n) zero (suc a) b p q = absurd (omega arith)
xor_digits_fuel (suc n) (suc m) (suc a) b p q =
    omega (arith, xor_digits_fuel n m (suc a / 2) (b / 2) (omega arith) (omega arith))

zero-bit_xor : (b : ℕ) → bit_xor 0 b ≡ b
zero-bit_xor b = bit_xor-bitwise 0 b

differ_digits : (x y : ℕ) → x < 2 → y < 2 → differ x y ≡ (x + y) % 2
differ_digits zero y p q = omega arith
differ_digits (suc zero) zero p q = omega arith
differ_digits (suc zero) (suc zero) p q = omega arith
differ_digits (suc zero) (suc (suc y)) p q = absurd (omega arith)
differ_digits (suc (suc x)) y p q = absurd (omega arith)

bit_xor_step : (a b : ℕ) → bit_xor a b ≡ bit_xor (a / 2) (b / 2) * 2 + (a + b) % 2
bit_xor_step zero b = omega (arith, zero-bit_xor b, zero-bit_xor (b / 2))
bit_xor_step (suc a) b = omega (
  arith,
  bit_xor-bitwise (suc a) b,
  bit_xor-bitwise (suc a / 2) (b / 2),
  differ_digits (suc a % 2) (b % 2) (omega arith) (omega arith),
  xor_digits_fuel a (suc a / 2) (suc a / 2) (b / 2) (omega arith) (omega arith),
)

-- Up to any bound on the two.
bit_xor_twice_below : (n a b : ℕ) → a ≤ n → b ≤ n → bit_xor (bit_xor a b) b ≡ a
bit_xor_twice_below zero a b p q =
    let ea : a ≡ 0 = omega arith in let eb : b ≡ 0 = omega arith in rw (ea, eb)
bit_xor_twice_below (suc n) a b p q =
    let half : bit_xor a b / 2 ≡ bit_xor (a / 2) (b / 2) = omega (arith, bit_xor_step a b) in
    omega (
      arith,
      bit_xor_step a b,
      bit_xor_step (bit_xor a b) b,
      ap (λ x. bit_xor x (b / 2)) half,
      bit_xor_twice_below n (a / 2) (b / 2) (omega arith) (omega arith),
    )

pub bit_xor_twice : (a b : ℕ) → bit_xor (bit_xor a b) b ≡ a
bit_xor_twice a b = bit_xor_twice_below (a + b) a b (omega arith) (omega arith)

pub xor_mask_twice :
    (mask : List ℕ) (i : ℕ) (bs : List ℕ) → xor_mask mask i (xor_mask mask i bs) ≡ bs
unfolding xor_mask
xor_mask_twice mask i [] = refl
xor_mask_twice mask i (b ∷ bs) =
    cc (bit_xor_twice b (get_or mask (i % 4) 0), xor_mask_twice mask (suc i) bs)

pub length-xor_mask :
    (mask : List ℕ) (i : ℕ) (bs : List ℕ) → length (xor_mask mask i bs) ≡ length bs
unfolding xor_mask
length-xor_mask mask i [] = refl
length-xor_mask mask i (b ∷ bs) = ap suc (length-xor_mask mask (suc i) bs)
