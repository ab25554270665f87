-- ===== src/Base64/RoundTrip.antt =====
-- The decoder reads back what the encoder wrote.
use evmongoose.Common.{
  arith, ℕ, suc, ◌+◌, ◌*◌, ◌/◌, ◌%◌, ◌<◌, ◌≡◌, refl, ap, ◌∙◌, List, [], ◌∷◌, ◌++◌, length, true,
  false,
}
use evmongoose.Common.Bytes.{IsByte, AllBytes}
use evmongoose.Base64.{b64, decode_group, decode, encode_text, encode_groups, pad}
use evmongoose.Base64.Digits.{from_b64-b64, from_b64_equals}
use evmongoose.Base64.Stream.{pad_period}

group_full :
    (x y z w : ℕ)
    → x < 64
    → y < 64
    → z < 64
    → w < 64
    → decode_group x y z w
      ≡ (((x * 4 + y / 16) % 256) ∷ ((y * 16 + z / 4) % 256) ∷ ((z * 64 + w) % 256) ∷ [], false)
unfolding decode_group
group_full x y z w hx hy hz hw = ground arith

group_two :
    (x y z : ℕ)
    → x < 64
    → y < 64
    → z < 64
    → decode_group x y z 200 ≡ (((x * 4 + y / 16) % 256) ∷ ((y * 16 + z / 4) % 256) ∷ [], true)
unfolding decode_group
group_two x y z hx hy hz = ground arith

group_one :
    (x y : ℕ) → x < 64 → y < 64 → decode_group x y 200 200 ≡ (((x * 4 + y / 16) % 256) ∷ [], true)
unfolding decode_group
group_one x y hx hy = ground arith

-- The bytes that the digits of three, two or one bytes stand for.
three_bytes :
    (a b c : ℕ)
    → IsByte a
    → IsByte b
    → IsByte c
    → ((a / 4 * 4 + (a % 4 * 16 + b / 16) / 16) % 256 ≡ a)
      × (((a % 4 * 16 + b / 16) * 16 + (b % 16 * 4 + c / 64) / 4) % 256 ≡ b)
      × (((b % 16 * 4 + c / 64) * 64 + c % 64) % 256 ≡ c)
three_bytes a b c ha hb hc = omega arith

decode_three :
    (a b c : ℕ) (s : List ℕ)
    → IsByte a
    → IsByte b
    → IsByte c
    → decode
        (b64 (a / 4) ∷ b64 (a % 4 * 16 + b / 16) ∷ b64 (b % 16 * 4 + c / 64) ∷ b64 (c % 64) ∷ s)
      ≡ (a ∷ b ∷ c ∷ (decode s).0, 4 + (decode s).1)
unfolding decode
decode_three a b c s ha hb hc = ground (
  arith,
  from_b64-b64 (a / 4),
  from_b64-b64 (a % 4 * 16 + b / 16),
  from_b64-b64 (b % 16 * 4 + c / 64),
  from_b64-b64 (c % 64),
  group_full (a / 4) (a % 4 * 16 + b / 16) (b % 16 * 4 + c / 64) (c % 64),
  three_bytes a b c ha hb hc,
)

decode_two :
    (a b : ℕ)
    → IsByte a
    → IsByte b
    → decode (b64 (a / 4) ∷ b64 (a % 4 * 16 + b / 16) ∷ b64 (b % 16 * 4 + 0 / 64) ∷ b'=' ∷ [])
      ≡ (a ∷ b ∷ [], 4)
unfolding decode
decode_two a b ha hb = ground (
  arith,
  from_b64-b64 (a / 4),
  from_b64-b64 (a % 4 * 16 + b / 16),
  from_b64-b64 (b % 16 * 4 + 0 / 64),
  from_b64_equals,
  group_two (a / 4) (a % 4 * 16 + b / 16) (b % 16 * 4 + 0 / 64),
  three_bytes a b 0 ha hb,
)

decode_one :
    (a : ℕ)
    → IsByte a
    → decode (b64 (a / 4) ∷ b64 (a % 4 * 16 + 0 / 16) ∷ b'=' ∷ b'=' ∷ []) ≡ (a ∷ [], 4)
unfolding decode
decode_one a ha = ground (
  arith,
  from_b64-b64 (a / 4),
  from_b64-b64 (a % 4 * 16 + 0 / 16),
  from_b64_equals,
  group_one (a / 4) (a % 4 * 16 + 0 / 16),
  three_bytes a 0 0 ha,
)

text_three :
    (a b c : ℕ) (src : List ℕ)
    → encode_text (a ∷ b ∷ c ∷ src)
      ≡ b64 (a / 4)
        ∷ b64 (a % 4 * 16 + b / 16)
        ∷ b64 (b % 16 * 4 + c / 64)
        ∷ b64 (c % 64)
        ∷ encode_text src
unfolding encode_text encode_groups
text_three a b c src =
    let n : ℕ = length (encode_groups src) in
    let e : suc (suc (suc (suc n))) ≡ 4 + n = omega arith in
    ap
      (λ t.
        b64 (a / 4)
        ∷ b64 (a % 4 * 16 + b / 16)
        ∷ b64 (b % 16 * 4 + c / 64)
        ∷ b64 (c % 64)
        ∷ (encode_groups src ++ t))
      (ap (pad 3) e ∙ pad_period 3 n)

-- Decoding the text of `src` gives `src` back and takes every character.
pub decode-encode_text :
    (src : List ℕ) → AllBytes src → decode (encode_text src) ≡ (src, length (encode_text src))
decode-encode_text [] h = unfold encode_text decode in refl
decode-encode_text (a ∷ []) (ha, _) = unfold encode_text in decode_one a ha
decode-encode_text (a ∷ b ∷ []) (ha, (hb, _)) = unfold encode_text in decode_two a b ha hb
decode-encode_text (a ∷ b ∷ c ∷ src) (ha, (hb, (hc, h))) = ground (
  arith,
  text_three a b c src,
  decode_three a b c (encode_text src) ha hb hc,
  decode-encode_text src h,
)
