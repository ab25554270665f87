-- ===== src/Coap/Reading.antt =====
-- A packet that was composed is parsed to the message that it was composed from.
use mathlib.Core.Path.{subst, ap₂}
use evmongoose.Common.{
  arith, ℕ, zero, suc, ◌+◌, ◌*◌, ◌/◌, ◌%◌, ◌^◌, ◌≤◌, ◌<◌, ◌≡◌, inl, inr, refl, sym, ap, ◌∙◌, Bool,
  true, false, not, some, List, [], ◌∷◌, ◌++◌, ◌==◌, length, take, bit_or, length-append,
  take-append_exact, drop-append_exact, take_all, All, Bool-cases,
}
use evmongoose.Common.Bits.{bit_or_nibbles, bit_or_class}
use evmongoose.Coap.{CoapFlags, no_coap_flags, blank, CoapMessage, CoapOption, tail_le}
use evmongoose.Coap.Options.{Ascending}
use evmongoose.Coap.Parse.{
  header_fields, parse_header, get_token, option_loop, end_options, get_options, set_payload,
  parse_options, parse_token, coap_parse,
}
use evmongoose.Coap.Compose.{
  fine, add_uint16, disordered, options_size, write_option, write_options, write_payload,
  packet_bytes, coap_compose,
}
use evmongoose.Coap.Size.{option_bounds, options_accepted, Accepted, fine-Accepted, compose-fine}
use evmongoose.Coap.RoundTrip.{Fits, Stops, loop_back, write_option_pos}

-- Something behind the token.
abbrev pub any_left : List CoapOption → List ℕ → Bool
any_left [] [] = false
any_left [] (b ∷ body) = true
any_left (o ∷ os) body = true

abbrev pub is_filled : List ℕ → Bool
is_filled [] = false
is_filled (b ∷ body) = true

abbrev head_number : ℕ → List CoapOption → ℕ
head_number n [] = n
head_number n (o ∷ os) = o.number

abbrev header_flags : CoapFlags
header_flags = record no_coap_flags {
  msg_type_field = true;
  code_class_field = true;
  code_detail_field = true;
  msg_id_field = true;
}

-- The message as the receiver has it: the same, with a flag for each part that is there.
abbrev pub as_received : CoapMessage → CoapMessage
as_received cm = record cm {
  flags = record header_flags {
    token_field = not (cm.token_len == 0);
    options_field = any_left cm.options cm.payload;
    payload_field = is_filled cm.payload;
  };
}

-- After the header, and after the token.
abbrev headed : CoapMessage → CoapMessage
headed cm = record cm { flags = header_flags; token = []; options = []; payload = [] }

abbrev tokened : CoapMessage → CoapMessage
tokened cm = record cm {
  flags = record header_flags { token_field = not (cm.token_len == 0) };
  options = [];
  payload = [];
}

version_bits : (t : ℕ) → t ≤ 3 → bit_or 64 (t * 16) ≡ (4 + t) * 16
version_bits zero h = refl
version_bits (suc zero) h = refl
version_bits (suc (suc zero)) h = refl
version_bits (suc (suc (suc zero))) h = refl
version_bits (suc (suc (suc (suc t)))) h = absurd (omega arith)

header_back :
    (cm : CoapMessage) (rest : List ℕ)
    → Accepted cm
    → cm.msg_id < 2 ^ 16
    → header_fields
        ((4 + cm.msg_type) * 16 + cm.token_len)
        (cm.code_class * 32 + cm.code_detail)
        (cm.msg_id / 256)
        (cm.msg_id % 256)
        rest
        blank
      ≡ (some rest, headed cm)
unfolding header_fields
header_back cm rest a id = ground arith

nil_of_length : (xs : List ℕ) → length xs ≡ 0 → xs ≡ []
nil_of_length [] h = refl
nil_of_length (x ∷ xs) h = absurd (omega arith)

token_back :
    (cm : CoapMessage) (rest : List ℕ)
    → length cm.token ≡ cm.token_len
    → get_token (take cm.token_len cm.token ++ rest) (headed cm) ≡ (some rest, tokened cm)
unfolding get_token
token_back cm rest t =
    let all = take_all cm.token_len cm.token (omega (arith, t)) in
    rw all (elim (Bool-cases (cm.token_len == 0)) [
      | inl e ↦
          let nothing = nil_of_length cm.token (ground arith) in
          ground (arith, e, nothing, ap (λ s. s ++ rest) nothing)
      | inr e ↦
          let l = length-append cm.token rest in
          let d = drop-append_exact cm.token_len cm.token rest (sym t) in
          let k = take-append_exact cm.token_len cm.token rest (sym t) in ground (arith, e, l, d, k)
    ])

get_options_of :
    (b : ℕ) (p q : List ℕ) (cm after : CoapMessage)
    → option_loop (suc (length (b ∷ p))) 0 (b ∷ p) cm ≡ some (q, after)
    → get_options (b ∷ p) cm ≡ some (end_options q after)
unfolding get_options
get_options_of b p q cm after e = rw (e, get_options) refl

-- Options and payload, where there is something.
options_back :
    (cm : CoapMessage) (os : List CoapOption) (tail : List ℕ)
    → Ascending 0 os
    → All Fits os
    → Stops tail
    → cm.options ≡ []
    → 0 < length (write_options 0 os ++ tail)
    → get_options (write_options 0 os ++ tail) cm
      ≡ some (end_options tail (record cm { options = os }))
options_back cm os tail asc fits s empty pos = by_shape (write_options 0 os ++ tail) refl pos
  where
    by_shape :
        (p : List ℕ)
        → write_options 0 os ++ tail ≡ p
        → 0 < length p
        → get_options p cm ≡ some (end_options tail (record cm { options = os }))
    by_shape [] e h = absurd (omega arith)
    by_shape (b ∷ p) e h =
        get_options_of b p tail cm (record cm { options = os })
          (ap (option_loop (suc (length (b ∷ p))) 0 (b ∷ p)) refl
            ∙ ap (λ t. option_loop (suc (length (b ∷ p))) 0 t cm) (sym e)
            ∙ loop_back (suc (length (b ∷ p))) 0 os tail cm (omega (arith, ap length e)) asc fits
                (subst (λ l. tail_le l 0 ≡ true) (sym empty) (unfold tail_le in refl)) s
            ∙ ap (λ t. some (tail, record cm { options = t ++ os })) empty)

-- Options and payload are read back, whichever of them there are.
body_back :
    (c : CoapMessage) (os : List CoapOption) (body : List ℕ)
    → Ascending 0 os
    → All Fits os
    → parse_options (some (write_options 0 os ++ write_payload body), tokened c)
      ≡ some (record (tokened c) {
        options = os;
        payload = body;
        flags = record (tokened c).flags {
          options_field = any_left os body;
          payload_field = is_filled body;
        };
      })
unfolding parse_options get_options write_options write_payload end_options set_payload
body_back c [] [] asc fits = refl
body_back c (o ∷ os) [] asc fits =
    rw
      (
        options_back (tokened c) (o ∷ os) [] asc fits tt refl (
            omega (
              arith,
              length-append (write_options 0 (o ∷ os)) [],
              length-append (write_option 0 o) (write_options o.number os),
              write_option_pos 0 o,
            )),
        parse_options,
      )
      refl
body_back c [] (b ∷ body) asc fits =
    rw
      (options_back (tokened c) [] (255 ∷ b ∷ body) asc fits refl refl (omega arith), parse_options)
      refl
body_back c (o ∷ os) (b ∷ body) asc fits =
    rw
      (
        options_back (tokened c) (o ∷ os) (255 ∷ b ∷ body) asc fits refl refl
            (omega (arith, length-append (write_options 0 (o ∷ os)) (255 ∷ b ∷ body))),
        parse_options,
      )
      refl

-- The order that `mg_coap_compose` has checked.
accepted-Ascending :
    (n prev : ℕ) (os : List CoapOption)
    → (options_size prev os).0 ≡ false
    → n ≤ head_number n os
    → Ascending n os
unfolding disordered
accepted-Ascending n prev [] h le = tt
accepted-Ascending n prev (o ∷ []) h le = (le, tt)
accepted-Ascending n prev (o ∷ p ∷ os) h le =
    let (first, later) = options_accepted prev o (p ∷ os) h in
    let (order, _, _) = option_bounds prev o (p ∷ os) first in
    (le, accepted-Ascending o.number o.number (p ∷ os) later (ground arith))

packet_back :
    (cm : CoapMessage)
    → Accepted cm
    → length cm.token ≡ cm.token_len
    → cm.msg_id < 2 ^ 16
    → All Fits cm.options
    → coap_parse (packet_bytes cm) ≡ some (as_received cm)
unfolding coap_parse packet_bytes add_uint16 parse_header
packet_back cm a t id fits =
    ap₂ (λ x y. parse_token (header_fields x y (cm.msg_id / 256) (cm.msg_id % 256) behind blank))
      (ap (λ v. bit_or v cm.token_len) (version_bits cm.msg_type a.type_fits)
        ∙ bit_or_nibbles (4 + cm.msg_type) cm.token_len (omega (arith, a.type_fits))
            (omega (arith, a.token_fits)))
      (bit_or_class cm.code_class cm.code_detail (omega (arith, a.class_fits))
        (omega (arith, a.detail_fits)))
    ∙ ap parse_token (header_back cm behind a id)
    ∙ token_step behind (headed cm)
    ∙ ap parse_options (token_back cm (write_options 0 cm.options ++ write_payload cm.payload) t)
    ∙ body_back cm cm.options cm.payload
        (accepted-Ascending 0 0 cm.options a.options_fit (omega arith)) fits
  where
    behind : List ℕ
    behind = take cm.token_len cm.token ++ (write_options 0 cm.options ++ write_payload cm.payload)

    token_step :
        (p : List ℕ) (c : CoapMessage) → parse_token (some p, c) ≡ parse_options (get_token p c)
    token_step p c = unfold parse_token in refl

-- A message that `mg_coap_compose` accepts is parsed from the bytes that it wrote as it was, with the
-- flags of the parts that it has. The token has the length that the message states, the message id is
-- below 2 ^ 16, and so are the numbers and lengths of the options.
pub coap_parse-compose :
    (cm : CoapMessage) (packet : List ℕ)
    → coap_compose cm [] ≡ (fine, packet)
    → length cm.token ≡ cm.token_len
    → cm.msg_id < 2 ^ 16
    → All Fits cm.options
    → coap_parse packet ≡ some (as_received cm)
coap_parse-compose cm packet e t id fits =
    let (ok, p) = compose-fine cm [] packet e in
    ap coap_parse p ∙ packet_back cm (fine-Accepted cm ok) t id fits
