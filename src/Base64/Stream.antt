-- ===== src/Base64/Stream.antt =====
-- The streaming encoder, fed in any pieces, writes what the one-shot encoder writes.
use evmongoose.Common.{
  arith, ℕ, zero, suc, ◌+◌, ◌*◌, ◌/◌, ◌%◌, ◌≡◌, refl, sym, ap, ◌∙◌, List, [], ◌∷◌, ◌++◌,
  append_assoc, append-nil, length, length-append,
}
use evmongoose.Common.Bytes.{IsByte, AllBytes}
use evmongoose.Base64.{
  Ctx, init, emit_chunk, update_byte, update, finish, encode_groups, pad, encode_text,
}
use evmongoose.Base64.Digits.{emit_code-b64}

-- Feeding two pieces is feeding their concatenation.
pub update-append : (ctx : Ctx) (xs ys : List ℕ) → update ctx (xs ++ ys) ≡ update (update ctx xs) ys
unfolding update
update-append ctx [] ys = refl
update-append ctx (x ∷ xs) ys = update-append (update_byte ctx x) xs ys

abbrev started : List ℕ → Ctx
started out = record { chunk = []; out = out }

update_group :
    (out : List ℕ) (a b c : ℕ) (src : List ℕ)
    → update (started out) (a ∷ b ∷ c ∷ src) ≡ update (started (out ++ emit_chunk 3 a b c)) src
unfolding update
update_group out a b c src = refl

-- The groups of the one-shot encoder, by the codes of the streaming one.
emit_one : (a : ℕ) → IsByte a → emit_chunk 1 a 0 0 ≡ encode_groups (a ∷ [])
unfolding emit_chunk encode_groups
emit_one a h =
    simp (emit_code-b64 (a / 4) (omega arith), emit_code-b64 (a % 4 * 16 + 0 / 16) (omega arith))

emit_two : (a b : ℕ) → IsByte a → IsByte b → emit_chunk 2 a b 0 ≡ encode_groups (a ∷ b ∷ [])
unfolding emit_chunk encode_groups
emit_two a b h k = simp (
  emit_code-b64 (a / 4) (omega arith),
  emit_code-b64 (a % 4 * 16 + b / 16) (omega arith),
  emit_code-b64 (b % 16 * 4 + 0 / 64) (omega arith),
)

emit_three :
    (a b c : ℕ) (src : List ℕ)
    → IsByte a
    → IsByte b
    → IsByte c
    → encode_groups (a ∷ b ∷ c ∷ src) ≡ emit_chunk 3 a b c ++ encode_groups src
unfolding emit_chunk encode_groups
emit_three a b c src h k l = simp (
  emit_code-b64 (a / 4) (omega arith),
  emit_code-b64 (a % 4 * 16 + b / 16) (omega arith),
  emit_code-b64 (b % 16 * 4 + c / 64) (omega arith),
  emit_code-b64 (c % 64) (omega arith),
)

length-emit_three : (a b c : ℕ) → length (emit_chunk 3 a b c) ≡ 4
unfolding emit_chunk
length-emit_three a b c = refl

pub pad_period : (k n : ℕ) → pad k (4 + n) ≡ pad k n
unfolding pad
pad_period zero n = refl
pad_period (suc k) n =
    let e : 4 + n + 1 ≡ 4 + (n + 1) = omega arith in
    ground (arith, pad_period k (n + 1), ap (pad k) e)

encode_text_three :
    (a b c : ℕ) (src : List ℕ)
    → IsByte a
    → IsByte b
    → IsByte c
    → encode_text (a ∷ b ∷ c ∷ src) ≡ emit_chunk 3 a b c ++ encode_text src
unfolding encode_text
encode_text_three a b c src h k l =
    ap (λ t. t ++ pad 3 (length t)) (emit_three a b c src h k l)
    ∙ ap (λ n. (emit_chunk 3 a b c ++ encode_groups src) ++ pad 3 n) counted
    ∙ ap (◌++◌ (emit_chunk 3 a b c ++ encode_groups src))
        (pad_period 3 (length (encode_groups src)))
    ∙ append_assoc (emit_chunk 3 a b c) (encode_groups src) (pad 3 (length (encode_groups src)))
  where
    counted : length (emit_chunk 3 a b c ++ encode_groups src) ≡ 4 + length (encode_groups src)
    counted =
        omega
          (arith, length-append (emit_chunk 3 a b c) (encode_groups src), length-emit_three a b c)

finish-update :
    (src out : List ℕ)
    → AllBytes src
    → (finish (update (started out) src)).out ≡ out ++ encode_text src
unfolding finish update
finish-update [] out h = unfold encode_text in sym (append-nil out)
finish-update (a ∷ []) out (ha, _) =
    ap (λ t. out ++ (t ++ (b'=' ∷ b'=' ∷ []))) (emit_one a ha) ∙ unfold encode_text in refl
finish-update (a ∷ b ∷ []) out (ha, (hb, _)) =
    ap (λ t. out ++ (t ++ (b'=' ∷ []))) (emit_two a b ha hb) ∙ unfold encode_text in refl
finish-update (a ∷ b ∷ c ∷ src) out (ha, (hb, (hc, h))) =
    finish-update src (out ++ emit_chunk 3 a b c) h
    ∙ append_assoc out (emit_chunk 3 a b c) (encode_text src)
    ∙ ap (◌++◌ out) (sym (encode_text_three a b c src ha hb hc))

-- Fed the bytes `xs` and then `ys`, the streaming encoder has written the text that the one-shot
-- encoder writes for both together.
pub stream-encode_text :
    (xs ys : List ℕ)
    → AllBytes (xs ++ ys)
    → (finish (update (update init xs) ys)).out ≡ encode_text (xs ++ ys)
stream-encode_text xs ys h =
    ap (λ c. (finish c).out) (sym (update-append init xs ys)) ∙ finish-update (xs ++ ys) [] h
