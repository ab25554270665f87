-- ===== src/Str/Hex.antt =====
-- `cs_from_hex` reads back what `cs_to_hex` wrote.
use evmongoose.Common.{
  arith, ℕ, ◌+◌, ◌*◌, ◌/◌, ◌%◌, ◌<◌, ◌≡◌, refl, ap, ◌∙◌, List, [], ◌∷◌, ◌++◌, length,
}
use evmongoose.Common.Bytes.{AllBytes}
use evmongoose.Str.{hex, to_hex, fourbit, from_hex_rounds, from_hex}

fourbit-hex : (d : ℕ) → d < 16 → fourbit (hex d) ≡ d
unfolding fourbit
fourbit-hex d h = ground arith

from_hex_rounds-to_hex :
    (bs : List ℕ) → AllBytes bs → from_hex_rounds (length bs) (to_hex bs) ≡ bs ++ (0 ∷ [])
unfolding from_hex_rounds to_hex
from_hex_rounds-to_hex [] h = refl
from_hex_rounds-to_hex (b ∷ bs) (hb, h) =
    ground (arith, fourbit-hex (b / 16), fourbit-hex (b % 16), from_hex_rounds-to_hex bs h)

-- Two digits for each byte, and the NUL.
pub length-to_hex : (bs : List ℕ) → length (to_hex bs) ≡ 2 * length bs + 1
unfolding to_hex
length-to_hex [] = refl
length-to_hex (b ∷ bs) = omega (arith, length-to_hex bs)

-- The bytes, and the NUL that `cs_from_hex` puts behind them.
pub from_hex-to_hex :
    (bs : List ℕ) → AllBytes bs → from_hex (to_hex bs) (2 * length bs) ≡ bs ++ (0 ∷ [])
unfolding from_hex
from_hex-to_hex bs h =
    let e : (2 * length bs + 1) / 2 ≡ length bs = omega arith in
    ap (λ k. from_hex_rounds k (to_hex bs)) e ∙ from_hex_rounds-to_hex bs h
