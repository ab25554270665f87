-- ===== src/Coap/Parse.antt =====
-- `mg_coap_parse` of src/mongoose.c and its helpers, on the bytes of a packet.
--
-- A helper that returns NULL has `none` for the bytes that follow.
use evmongoose.Common.{
  ℕ, zero, suc, ◌+◌, ◌*◌, ◌/◌, ◌%◌, ◌^◌, true, not, ◌||◌, Option, none, some, List, [], ◌∷◌, ltb,
  ◌==◌, if◌then◌else◌, length, take, drop,
}
use evmongoose.Coap.{CoapMessage, blank, add_option, free_options}

-- `cm->flags |= ...` with one of the errors.
abbrev pub not_enough : CoapMessage → CoapMessage
not_enough cm = record cm { flags = record cm.flags { error = true; not_enough_data = true } }

abbrev pub format_error : CoapMessage → CoapMessage
format_error cm = record cm { flags = record cm.flags { error = true; format = true } }

abbrev pub ignored : CoapMessage → CoapMessage
ignored cm = record cm { flags = record cm.flags { error = true; ignore = true } }

-- What follows, and the message so far.
abbrev pub Parsed : Type 0
Parsed = Option (List ℕ) × CoapMessage

-- The header, once there are four bytes.
unfoldable pub header_fields : ℕ → ℕ → ℕ → ℕ → List ℕ → CoapMessage → Parsed
header_fields a b c d rest cm =
    let typed = record cm {
      msg_type = a / 16 % 4;
      token_len = a % 16;
      flags = record cm.flags { msg_type_field = true };
    } in
    let coded = record typed {
      code_class = b / 32;
      code_detail = b % 32;
      msg_id = c * 256 + d;
      flags = record typed.flags {
        code_class_field = true;
        code_detail_field = true;
        msg_id_field = true;
      };
    } in
    if not (a / 64 == 1)
    then (none, ignored cm)
    else if ltb 8 (a % 16)
    then (none, format_error typed)
    else (some rest, coded)

-- `coap_parse_header`
unfoldable pub parse_header : List ℕ → CoapMessage → Parsed
unfolding header_fields
parse_header (a ∷ b ∷ c ∷ d ∷ rest) cm = header_fields a b c d rest cm
parse_header short cm = (none, not_enough cm)

-- `coap_get_token`
unfoldable pub get_token : List ℕ → CoapMessage → Parsed
get_token p cm =
    if cm.token_len == 0
    then (some p, cm)
    else if ltb (length p) cm.token_len
    then (none, not_enough cm)
    else (
      some (drop cm.token_len p),
      record cm { token = take cm.token_len p; flags = record cm.flags { token_field = true } },
    )

-- `coap_get_ext_opt`: what follows and `*opt_info`; `none` for -1.
unfoldable pub get_ext_opt : List ℕ → ℕ → Option (List ℕ × ℕ)
get_ext_opt [] opt_info = if opt_info == 13 || opt_info == 14 then none else some ([], opt_info)
get_ext_opt (a ∷ []) opt_info =
    if opt_info == 13
    then some ([], a + 13)
    else if opt_info == 14
    then none
    else some (a ∷ [], opt_info)
get_ext_opt (a ∷ b ∷ p) opt_info =
    if opt_info == 13
    then some (b ∷ p, a + 13)
    else if opt_info == 14
    then some (p, (a * 256 + b + 269) % 2 ^ 16)
    else some (a ∷ b ∷ p, opt_info)

-- A round of the loop of `coap_get_options` that breaks, or goes on with `prev_opt` and `ptr`.
pub data Round : Type 0 where
  broken : CoapMessage → Round
  onward : ℕ → List ℕ → CoapMessage → Round

-- An option, once its number and its length are known.
unfoldable pub take_option : ℕ → ℕ → List ℕ → CoapMessage → Round
take_option number len p cm =
    let added = record cm {
      options = add_option (record { number = number; value = take len p }) cm.options;
    } in
    if ltb (length p) len then broken (not_enough added) else onward number (drop len p) added

-- A round, for the byte at `ptr` and those behind it.
unfoldable pub next_option : ℕ → ℕ → List ℕ → CoapMessage → Round
next_option prev b p cm =
    if b / 16 % 16 == 15 || b % 16 == 15
    then broken (format_error cm)
    else elim (get_ext_opt p (b / 16 % 16)) [
      | none ↦ broken (not_enough cm)
      | some (q, delta) ↦ elim (get_ext_opt q (b % 16)) [
        | none ↦ broken (not_enough cm)
        | some (r, len) ↦ take_option ((delta + prev) % 2 ^ 16) len r cm
      ]
    ]

-- The loop, in so many rounds at most: where it stops and the message. After a break the message has
-- an error and nothing is read at `ptr`.
unfoldable pub option_loop : ℕ → ℕ → List ℕ → CoapMessage → Option (List ℕ × CoapMessage)
option_loop zero prev p cm = none
option_loop (suc rounds) prev [] cm = some ([], cm)
option_loop (suc rounds) prev (b ∷ p) cm =
    if b == 255 then some (b ∷ p, cm) else elim (next_option prev b p cm) [
      | broken failed ↦ some (b ∷ p, failed)
      | onward number q more ↦ option_loop rounds number q more
    ]

-- What `coap_get_options` does behind its loop.
unfoldable pub end_options : List ℕ → CoapMessage → Parsed
end_options p cm =
    let found = record cm { flags = record cm.flags { options_field = true } } in
    if cm.flags.error
    then (none, free_options cm)
    else elim p [ [] ↦ (none, found) | b ∷ q ↦ (some q, found) ]

-- `coap_get_options`; no result once the rounds are used up.
unfoldable pub get_options : List ℕ → CoapMessage → Option Parsed
get_options [] cm = some (none, cm)
get_options (b ∷ p) cm = elim (option_loop (suc (length (b ∷ p))) 0 (b ∷ p) cm) [
  | none ↦ none
  | some (q, after) ↦ some (end_options q after)
]

-- The rest of the packet is the payload.
unfoldable pub set_payload : List ℕ → CoapMessage → CoapMessage
set_payload [] cm = cm
set_payload (b ∷ p) cm = record cm {
  payload = b ∷ p;
  flags = record cm.flags { payload_field = true };
}

unfoldable pub parse_options : Parsed → Option CoapMessage
parse_options (none, cm) = some cm
parse_options (some p, cm) = elim (get_options p cm) [
  | none ↦ none
  | some (none, after) ↦ some after
  | some (some q, after) ↦ some (set_payload q after)
]

unfoldable pub parse_token : Parsed → Option CoapMessage
parse_token (none, cm) = some cm
parse_token (some p, cm) = parse_options (get_token p cm)

-- `mg_coap_parse`, which returns the flags of the message.
unfoldable pub coap_parse : List ℕ → Option CoapMessage
coap_parse io = parse_token (parse_header io blank)
