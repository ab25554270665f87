-- ===== src/Acl/Network.antt =====
-- What a rule of an access list says: the first bits of an address, with zeros behind them.
use Prim.Native.Nat.{digits, bit_and-bitwise}
use evmongoose.Common.{
  arith, ℕ, zero, suc, ◌+◌, ◌-◌, ◌*◌, ◌/◌, ◌%◌, ◌^◌, ◌≤◌, ◌<◌, ◌≡◌, refl, ◌∙◌, ap, bit_and, min,
  true, ◌==◌, ==_iff, if◌then◌else◌,
}
use evmongoose.Common.Bits.{passes, passes_at}

and_fuel :
    (n m a b : ℕ) → a ≤ n → a ≤ m → digits (λ b. zero) min n a b ≡ digits (λ b. zero) min m a b
and_fuel zero zero zero b h k = refl
and_fuel (suc n) zero zero b h k = refl
and_fuel zero zero (suc a) b h k = absurd (omega arith)
and_fuel (suc n) zero (suc a) b h k = absurd (omega arith)
and_fuel zero (suc m) zero b h k = refl
and_fuel (suc n) (suc m) zero b h k = refl
and_fuel zero (suc m) (suc a) b h k = absurd (omega arith)
and_fuel (suc n) (suc m) (suc a) b h k =
    let rest = and_fuel n m (suc a / 2) (b / 2) (omega arith) (omega arith) in omega (arith, rest)

-- The lowest digit apart from the others.
bit_and_halves : (a b : ℕ) → bit_and a b ≡ bit_and (a / 2) (b / 2) * 2 + min (a % 2) (b % 2)
bit_and_halves zero b =
    let e = bit_and-bitwise 0 b in let f = bit_and-bitwise 0 (b / 2) in omega (arith, e, f)
bit_and_halves (suc a) b =
    let e = bit_and-bitwise (suc a) b in
    let f = bit_and-bitwise (suc a / 2) (b / 2) in
    let g = and_fuel a (suc a / 2) (suc a / 2) (b / 2) (omega arith) (omega arith) in
    omega (arith, e, f, g)

-- So many ones; a number moved up by so many digits, and down.
abbrev ones : ℕ → ℕ
ones zero = 0
ones (suc j) = 2 * ones j + 1

abbrev pub raised : ℕ → ℕ → ℕ
raised zero a = a
raised (suc k) a = 2 * raised k a

abbrev pub lowered : ℕ → ℕ → ℕ
lowered zero a = a
lowered (suc k) a = lowered k (a / 2)

lowered-lowered : (k j a : ℕ) → lowered j (lowered k a) ≡ lowered (k + j) a
lowered-lowered zero j a = let e : j ≡ 0 + j = omega arith in ap (λ n. lowered n a) e
lowered-lowered (suc k) j a =
    let e : suc (k + j) ≡ suc k + j = omega arith in
    lowered-lowered k j (a / 2) ∙ ap (λ n. lowered n a) e

lowered_out : (n a : ℕ) → a < raised n 1 → lowered n a ≡ 0
lowered_out zero a h = omega arith
lowered_out (suc n) a h = lowered_out n (a / 2) (omega arith)

bit_and-ones : (j a : ℕ) → lowered j a ≡ 0 → bit_and a (ones j) ≡ a
bit_and-ones zero a h = rw h (bit_and-bitwise 0 0)
bit_and-ones (suc j) a h = omega (
  arith,
  bit_and_halves a (2 * ones j + 1),
  ap (bit_and (a / 2)) (half (ones j)),
  bit_and-ones j (a / 2) h,
)
  where
    half : (n : ℕ) → (2 * n + 1) / 2 ≡ n
    half n = omega arith

bit_and-raised :
    (k j a : ℕ)
    → lowered j (lowered k a) ≡ 0
    → bit_and a (raised k (ones j)) ≡ raised k (lowered k a)
bit_and-raised zero j a h = bit_and-ones j a h
bit_and-raised (suc k) j a h = omega (
  arith,
  bit_and_halves a (2 * raised k (ones j)),
  ap (bit_and (a / 2)) (half (raised k (ones j))),
  bit_and-raised k j (a / 2) h,
)
  where
    half : (n : ℕ) → 2 * n / 2 ≡ n
    half n = omega arith

-- The mask of a width.
abbrev pub mask : ℕ → ℕ
mask w = if w == 0 then 0 else (2 ^ 32 - 1) * 2 ^ (32 - w) % 2 ^ 32

masks : passes (λ w. mask w == raised (32 - w) (ones w)) 32 ≡ true
unfolding passes
masks = refl

-- The first bits of an address, with zeros behind them, are what the mask leaves of it.
pub bit_and-mask :
    (ip w : ℕ) → ip < 2 ^ 32 → w ≤ 32 → bit_and ip (mask w) ≡ raised (32 - w) (lowered (32 - w) ip)
bit_and-mask ip w h k =
    let e : 32 - w + w ≡ 32 = omega arith in
    ap (bit_and ip)
      ((==_iff _ _).0 (passes_at (λ w. mask w == raised (32 - w) (ones w)) 32 masks w k))
    ∙ bit_and-raised (32 - w) w ip
        (lowered-lowered (32 - w) w ip ∙ ap (λ n. lowered n ip) e ∙ lowered_out 32 ip (omega arith))

-- An address is in a network of a width if its first bits are those of the network, which has zeros
-- behind them.
abbrev pub Covers : ℕ → ℕ → ℕ → Type 0
Covers ip net w = net ≡ raised (32 - w) (lowered (32 - w) ip)
