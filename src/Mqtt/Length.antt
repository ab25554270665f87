-- ===== src/Mqtt/Length.antt =====
-- The variable length of an MQTT packet, encoded and decoded.
use native.Mathlib.Nat.{two-pow-succ}
use native.Mathlib.Decide.{dec_lt}
use evmongoose.Common.{
  arith, ℕ, zero, suc, ◌+◌, ◌*◌, ◌/◌, ◌%◌, ◌^◌, ◌≤◌, ◌<◌, ◌≡◌, ap, ◌∙◌, some, List, [], ◌∷◌, ◌++◌,
  length,
}
use evmongoose.Mqtt.Send.{encode_len}
use evmongoose.Mqtt.Parse.{decode_len}

doubled : (a b : ℕ) → b ≡ suc a → 2 ^ b ≡ 2 ^ a + 2 ^ a
doubled a b e = ap (λ x. 2 ^ x) e ∙ two-pow-succ a

pow_seven : (x : ℕ) → 2 ^ (7 + x) ≡ 2 ^ x * 128
pow_seven x = omega (
  arith,
  doubled x (1 + x) (omega arith),
  doubled (1 + x) (2 + x) (omega arith),
  doubled (2 + x) (3 + x) (omega arith),
  doubled (3 + x) (4 + x) (omega arith),
  doubled (4 + x) (5 + x) (omega arith),
  doubled (5 + x) (6 + x) (omega arith),
  doubled (6 + x) (7 + x) (omega arith),
)

shift_seven : (i : ℕ) → 2 ^ (7 * suc i) ≡ 2 ^ (7 * i) * 128
shift_seven i = let e : 7 * suc i ≡ 7 + 7 * i = omega arith in ap (λ x. 2 ^ x) e ∙ pow_seven (7 * i)

-- The fifth byte is the last that a length below 2 ^ 31 needs.
four_more : (i n : ℕ) → i ≤ 4 → 128 ≤ n → n * 2 ^ (7 * i) < 2 ^ 31 → i ≤ 3
four_more zero n h k l = omega arith
four_more (suc zero) n h k l = omega arith
four_more (suc (suc zero)) n h k l = omega arith
four_more (suc (suc (suc zero))) n h k l = omega arith
four_more (suc (suc (suc (suc zero)))) n h k l = absurd (omega arith)
four_more (suc (suc (suc (suc (suc i))))) n h k l = absurd (omega arith)

module _ (size i b : ℕ) (p : List ℕ) (small : b < 128) (fifth : i ≤ 4)
    (fits : b * 2 ^ (7 * i) < 2 ^ 31) where
  pub decode_last : decode_len size i (b ∷ p) ≡ some (b * 2 ^ (7 * i), p)
  unfolding decode_len
  decode_last =
      let e : b % 128 ≡ b = omega arith in
      let d : b % 128 * 2 ^ (7 * i) ≡ b * 2 ^ (7 * i) = ap (λ x. x * 2 ^ (7 * i)) e in
      ground (arith, d)

  decode_more :
      (n : ℕ) (q : List ℕ)
      → i + 2 ≤ size
      → decode_len size (suc i) p ≡ some (n, q)
      → decode_len size i ((b + 128) ∷ p) ≡ some (b * 2 ^ (7 * i) + n, q)
  unfolding decode_len
  decode_more n q room rest =
      let e : (b + 128) % 128 ≡ b = omega arith in
      let d : (b + 128) % 128 * 2 ^ (7 * i) ≡ b * 2 ^ (7 * i) = ap (λ x. x * 2 ^ (7 * i)) e in
      ground (arith, d, rest)

encode_len_small : (rounds n : ℕ) → n < 128 → encode_len (suc rounds) n ≡ n ∷ []
unfolding encode_len
encode_len_small rounds n h =
    let e : n % 128 ≡ n = omega arith in let z : n / 128 ≡ 0 = omega arith in ground (arith, e, z)

encode_len_big :
    (rounds n : ℕ)
    → 128 ≤ n
    → encode_len (suc rounds) n ≡ (n % 128 + 128) ∷ encode_len rounds (n / 128)
unfolding encode_len
encode_len_big rounds n h = let z : 1 ≤ n / 128 = omega arith in ground (arith, z)

digits : (i n : ℕ) → n % 128 * 2 ^ (7 * i) + n / 128 * 2 ^ (7 * suc i) ≡ n * 2 ^ (7 * i)
digits i n =
    ap (λ w. n % 128 * 2 ^ (7 * i) + n / 128 * w) (shift_seven i)
    ∙ omega (arith, whole (2 ^ (7 * i)))
  where
    whole : (w : ℕ) → n * w ≡ (n / 128 * 128 + n % 128) * w
    whole w = let e : n ≡ n / 128 * 128 + n % 128 = omega arith in ap (λ x. x * w) e

-- What stands behind the length follows, whatever it is.
pub decode_len-encode_len :
    (rounds i n size : ℕ) (rest : List ℕ)
    → i ≤ 4
    → 5 ≤ rounds + i
    → n * 2 ^ (7 * i) < 2 ^ 31
    → i + 1 + length (encode_len rounds n ++ rest) ≤ size
    → decode_len size i (encode_len rounds n ++ rest) ≡ some (n * 2 ^ (7 * i), rest)
decode_len-encode_len zero i n size rest h k l s = absurd (omega arith)
decode_len-encode_len (suc rounds) i n size rest h k l s = elim (dec_lt n 128) [
  | yes small ↦
      ap (λ xs. decode_len size i (xs ++ rest)) (encode_len_small rounds n small)
      ∙ decode_last size i n rest small h l
  | no big ↦
      let e = encode_len_big rounds n (omega arith) in
      let room : i + 1 + length ((n % 128 + 128) ∷ (encode_len rounds (n / 128) ++ rest)) ≤ size =
        omega (arith, s, ap (λ xs. length (xs ++ rest)) e) in
      ap (λ xs. decode_len size i (xs ++ rest)) e
      ∙ decode_more size i (n % 128) (encode_len rounds (n / 128) ++ rest) (omega arith) h
          (omega (arith, digits i n)) (n / 128 * 2 ^ (7 * suc i)) rest (omega (arith, room))
          (decode_len-encode_len rounds (suc i) (n / 128) size rest
            (let j = four_more i n h (omega arith) l in omega arith) (omega arith)
            (omega (arith, digits i n)) (omega (arith, room)))
      ∙ ap (λ x. some (x, rest)) (digits i n)
]
