-- ===== src/Coap/Ends.antt =====
-- The CoAP parser comes to an end on every packet; its options ascend, and an error leaves none.
use mathlib.Core.Path.{subst}
use evmongoose.Common.{
  arith, ℕ, zero, suc, ◌+◌, ◌/◌, ◌%◌, ◌^◌, ◌≤◌, ◌<◌, ◌≡◌, inl, inr, refl, sym, ◌∙◌, true, ◌||◌,
  Option, none, some, List, [], ◌∷◌, ltb, ◌==◌, length, length-drop, Bool-cases,
}
use evmongoose.Coap.{CoapMessage, blank, free_options}
use evmongoose.Coap.Options.{Ascending, add_option-Ascending}
use evmongoose.Coap.Parse.{
  Parsed, Round, broken, onward, header_fields, parse_header, get_token, get_ext_opt, take_option,
  next_option, option_loop, end_options, get_options, set_payload, parse_options, parse_token,
  coap_parse, not_enough,
}

-- What holds of the messages that the parser leaves.
abbrev pub InOrder : CoapMessage → Type 0
InOrder cm = Ascending 0 cm.options × (cm.flags.error ≡ true → cm.options ≡ [])

length-get_ext_opt :
    (p : List ℕ) (opt_info : ℕ) (q : List ℕ) (v : ℕ)
    → get_ext_opt p opt_info ≡ some (q, v)
    → length q ≤ length p
unfolding get_ext_opt
length-get_ext_opt [] opt_info q v e = ground arith
length-get_ext_opt (a ∷ []) opt_info q v e = ground arith
length-get_ext_opt (a ∷ b ∷ p) opt_info q v e = ground arith

-- A round keeps the options in order; one that goes on has read a byte at least and no error, and one
-- that breaks has an error.
abbrev RoundRight : List ℕ → CoapMessage → Round → Type 0
RoundRight p cm (broken after) = (after.flags.error ≡ true) × Ascending 0 after.options
RoundRight p cm (onward n q after) =
    (length q ≤ length p) × (after.flags ≡ cm.flags) × Ascending 0 after.options

take_option-Right :
    (number len : ℕ) (p r : List ℕ) (cm : CoapMessage)
    → length r ≤ length p
    → Ascending 0 cm.options
    → RoundRight p cm (take_option number len r cm)
unfolding take_option
take_option-Right number len p r cm le h = elim (Bool-cases (ltb (length r) len)) [
  | inl e ↦ rw e (refl, (add_option-Ascending _ cm.options h).1)
  | inr e ↦ rw e (omega (arith, length-drop len r), refl, (add_option-Ascending _ cm.options h).1)
]

next_option-Right :
    (prev b : ℕ) (p : List ℕ) (cm : CoapMessage)
    → Ascending 0 cm.options
    → RoundRight p cm (next_option prev b p cm)
unfolding next_option
next_option-Right prev b p cm h = elim (Bool-cases (b / 16 % 16 == 15 || b % 16 == 15)) [
  | inl e ↦ rw e (refl, h)
  | inr e ↦ rw e (by_delta (get_ext_opt p (b / 16 % 16)) refl)
]
  where
    by_len :
        (delta : ℕ) (q : List ℕ)
        → length q ≤ length p
        → (r : Option (List ℕ × ℕ)) → get_ext_opt q (b % 16) ≡ r
        → RoundRight p cm (elim r [
          | none ↦ broken (not_enough cm)
          | some (r, len) ↦ take_option ((delta + prev) % 2 ^ 16) len r cm
        ])
    by_len delta q le none e = (refl, h)
    by_len delta q le (some (r, len)) e =
        take_option-Right ((delta + prev) % 2 ^ 16) len p r cm
          (omega (arith, length-get_ext_opt q (b % 16) r len e)) h

    by_delta :
        (r : Option (List ℕ × ℕ))
        → get_ext_opt p (b / 16 % 16) ≡ r
        → RoundRight p cm (elim r [
          | none ↦ broken (not_enough cm)
          | some (q, delta) ↦ elim (get_ext_opt q (b % 16)) [
            | none ↦ broken (not_enough cm)
            | some (r, len) ↦ take_option ((delta + prev) % 2 ^ 16) len r cm
          ]
        ])
    by_delta none e = (refl, h)
    by_delta (some (q, delta)) e =
        by_len delta q (length-get_ext_opt p (b / 16 % 16) q delta e) (get_ext_opt q (b % 16)) refl

abbrev after_round : ℕ → ℕ → List ℕ → Round → Option (List ℕ × CoapMessage)
after_round rounds b p r = elim r [
  | broken failed ↦ some (b ∷ p, failed)
  | onward number q more ↦ option_loop rounds number q more
]

-- With a round for each byte and one more the loop ends.
option_loop-ends :
    (rounds prev : ℕ) (p : List ℕ) (cm : CoapMessage)
    → length p < rounds
    → Ascending 0 cm.options
    → (q : List ℕ) × (after : CoapMessage) × (option_loop rounds prev p cm ≡ some (q, after))
      × Ascending 0 after.options
unfolding option_loop
option_loop-ends zero prev p cm h order = absurd (omega arith)
option_loop-ends (suc rounds) prev [] cm h order = ([], cm, refl, order)
option_loop-ends (suc rounds) prev (b ∷ p) cm h order = elim (Bool-cases (b == 255)) [
  | inl e ↦ (b ∷ p, cm, rw e refl, order)
  | inr e ↦ rw e (
      by_round (λ number q. option_loop-ends rounds number q) (next_option prev b p cm)
        (next_option-Right prev b p cm order))
]
  where
    by_round :
        ((number : ℕ) (q : List ℕ) (more : CoapMessage)
          → length q < rounds
          → Ascending 0 more.options
          → (q' : List ℕ) × (after : CoapMessage) × (option_loop rounds number q more
              ≡ some (q', after))
            × Ascending 0 after.options)
        → (r : Round) → RoundRight p cm r
        → (q' : List ℕ) × (after : CoapMessage) × (after_round rounds b p r ≡ some (q', after))
          × Ascending 0 after.options
    by_round later (broken failed) right = (b ∷ p, failed, refl, right.1)
    by_round later (onward number q more) right =
        later number q more (omega (arith, right.0)) right.2

end_options-InOrder :
    (p : List ℕ) (cm : CoapMessage) → Ascending 0 cm.options → InOrder (end_options p cm).1
unfolding end_options free_options
end_options-InOrder [] cm h = elim (Bool-cases cm.flags.error) [
  | inl e ↦ rw e (tt, λ _. refl)
  | inr e ↦ rw e (h, λ bad. absurd (ground (arith, e, bad)))
]
end_options-InOrder (b ∷ p) cm h = elim (Bool-cases cm.flags.error) [
  | inl e ↦ rw e (tt, λ _. refl)
  | inr e ↦ rw e (h, λ bad. absurd (ground (arith, e, bad)))
]

header-empty : (io : List ℕ) → (parse_header io blank).1.options ≡ []
unfolding parse_header header_fields
header-empty [] = refl
header-empty (a ∷ []) = refl
header-empty (a ∷ b ∷ []) = refl
header-empty (a ∷ b ∷ c ∷ []) = refl
header-empty (a ∷ b ∷ c ∷ d ∷ rest) = ground arith

token-options : (p : List ℕ) (cm : CoapMessage) → (get_token p cm).1.options ≡ cm.options
unfolding get_token
token-options p cm = ground arith

set_payload-InOrder : (p : List ℕ) (cm : CoapMessage) → InOrder cm → InOrder (set_payload p cm)
unfolding set_payload
set_payload-InOrder [] cm h = h
set_payload-InOrder (b ∷ p) cm h = h

empty-InOrder : (cm : CoapMessage) → cm.options ≡ [] → InOrder cm
empty-InOrder cm e = (subst (Ascending 0) (sym e) tt, λ _. e)

-- Some message comes out, and it is in order.
abbrev pub Finishes : Option CoapMessage → Type 0
Finishes r = (cm : CoapMessage) × (r ≡ some cm) × InOrder cm

get_options-ends :
    (p : List ℕ) (cm : CoapMessage)
    → cm.options ≡ []
    → (r : Parsed) × (get_options p cm ≡ some r) × InOrder r.1
unfolding get_options
get_options-ends [] cm e = ((none, cm), refl, empty-InOrder cm e)
get_options-ends (b ∷ p) cm e =
    let (q, after, looped, order) =
      option_loop-ends (suc (length (b ∷ p))) 0 (b ∷ p) cm (omega arith) (empty-InOrder cm e).0 in
    (end_options q after, rw (looped, get_options) refl, end_options-InOrder q after order)

parse_options-ends : (r : Parsed) → r.1.options ≡ [] → Finishes (parse_options r)
unfolding parse_options
parse_options-ends (none, cm) e = (cm, refl, empty-InOrder cm e)
parse_options-ends (some p, cm) e = by_rest (get_options-ends p cm e)
  where
    by_rest :
        (r : Parsed) × (get_options p cm ≡ some r) × InOrder r.1
        → Finishes (parse_options (some p, cm))
    by_rest ((none, after), got, order) = (after, rw (got, parse_options) refl, order)
    by_rest ((some q, after), got, order) =
        (set_payload q after, rw (got, parse_options) refl, set_payload-InOrder q after order)

parse_token-ends : (r : Parsed) → r.1.options ≡ [] → Finishes (parse_token r)
unfolding parse_token
parse_token-ends (none, cm) e = (cm, refl, empty-InOrder cm e)
parse_token-ends (some p, cm) e = parse_options-ends (get_token p cm) (token-options p cm ∙ e)

-- The parser gives a message for any packet; its options ascend, and if it has an error it has no
-- options.
pub coap_parse-ends : (io : List ℕ) → Finishes (coap_parse io)
unfolding coap_parse
coap_parse-ends io = parse_token-ends (parse_header io blank) (header-empty io)
