-- ===== src/Coap/Compose.antt =====
-- `mg_coap_compose` of src/mongoose.c and its helpers. The result of the walk over a message is the
-- list of the bytes written from `ptr` on; `none` for a message that is refused, which writes nothing.
use evmongoose.Common.{
  ℕ, ◌+◌, ◌-◌, ◌*◌, ◌/◌, ◌%◌, ◌^◌, Bool, true, false, ◌&&◌, ◌||◌, List, [], ◌∷◌, ◌++◌, ltb, leb,
  ◌==◌, if◌then◌else◌, length, take, bit_or,
}
use evmongoose.Coap.{CoapMessage, CoapOption}

-- What is wrong with a message: `MG_COAP_ERROR` with one of the bits of the fields.
pub data Verdict : Type 0 where
  fine bad_type bad_token bad_class bad_detail bad_options : Verdict

-- `coap_get_ext_opt_size`
unfoldable pub get_ext_opt_size : ℕ → ℕ
get_ext_opt_size value =
    if leb 13 value && leb value (255 + 13)
    then 1
    else if ltb (255 + 13) value && leb value (65535 + 269)
    then 2
    else 0

-- `*base`, `*ext` and the result of `coap_split_opt`, from zeros.
pub record Split : Type 0 where
  pub base : ℕ
  pub ext : ℕ
  pub size : ℕ

unfoldable pub split_opt : ℕ → Split
split_opt value =
    if ltb value 13
    then record { base = value; ext = 0; size = 0 }
    else if leb 13 value && leb value (255 + 13)
    then record { base = 13; ext = value - 13; size = 1 }
    else if ltb (255 + 13) value && leb value (65535 + 269)
    then record { base = 14; ext = value - 269; size = 2 }
    else record { base = 0; ext = 0; size = 0 }

-- `coap_add_uint16`
unfoldable pub add_uint16 : ℕ → List ℕ
add_uint16 val = val / 256 ∷ val % 256 ∷ []

-- `coap_add_opt_info`
unfoldable pub add_opt_info : ℕ → ℕ → List ℕ
unfolding add_uint16
add_opt_info val len = if len == 1 then val % 256 ∷ [] else if len == 2 then add_uint16 val else []

-- `opt->number - prev_opt_number`, a `uint32_t`.
abbrev pub delta_of : ℕ → ℕ → ℕ
delta_of number prev = (number + 2 ^ 32 - prev) % 2 ^ 32

-- `opt->next != NULL && opt->number > opt->next->number`
unfoldable pub disordered : CoapOption → List CoapOption → Bool
disordered o [] = false
disordered o (next ∷ os) = ltb next.number o.number

-- The test of an option in `coap_calculate_packet_size`.
unfoldable pub bad_option : ℕ → CoapOption → List CoapOption → Bool
bad_option prev o os =
    disordered o os
    || ltb (65535 + 269) (length o.value)
    || ltb (65535 + 269) (delta_of o.number prev)

-- The loop of `coap_calculate_packet_size`: whether an option is bad, and `*len`.
unfoldable pub options_size : ℕ → List CoapOption → Bool × ℕ
options_size prev [] = (false, 0)
options_size prev (o ∷ os) =
    let later = options_size o.number os in
    let head =
      1 + get_ext_opt_size (delta_of o.number prev) + get_ext_opt_size (length o.value % 2 ^ 32) in
    if bad_option prev o os then (true, head) else (later.0, head + length o.value + later.1)

-- `coap_calculate_packet_size`
unfoldable pub calculate_packet_size : CoapMessage → Verdict × ℕ
calculate_packet_size cm =
    let opts = options_size 0 cm.options in
    let body = if length cm.payload == 0 then 0 else length cm.payload + 1 in
    if ltb 3 cm.msg_type
    then (bad_type, 4)
    else if ltb 8 cm.token_len
    then (bad_token, 4)
    else if ltb 7 cm.code_class
    then (bad_class, 4)
    else if ltb 31 cm.code_detail
    then (bad_detail, 4)
    else (if opts.0 then bad_options else fine, 4 + cm.token_len + body + opts.1)

-- An option on the wire.
unfoldable pub write_option : ℕ → CoapOption → List ℕ
write_option prev o =
    let delta = split_opt (delta_of o.number prev) in
    let len = split_opt (length o.value % 2 ^ 32) in
    bit_or (delta.base * 16) len.base
    ∷ (add_opt_info delta.ext delta.size ++ (add_opt_info len.ext len.size ++ o.value))

unfoldable pub write_options : ℕ → List CoapOption → List ℕ
write_options prev [] = []
write_options prev (o ∷ os) = write_option prev o ++ write_options o.number os

-- `(char) -1` and the payload, if there is one.
unfoldable pub write_payload : List ℕ → List ℕ
write_payload [] = []
write_payload (b ∷ p) = 255 ∷ b ∷ p

-- The bytes that `mg_coap_compose` writes from `ptr` on.
unfoldable pub packet_bytes : CoapMessage → List ℕ
packet_bytes cm =
    bit_or (bit_or 64 (cm.msg_type * 16)) cm.token_len
    ∷ bit_or (cm.code_class * 32) cm.code_detail
    ∷ (add_uint16 cm.msg_id
        ++ (take cm.token_len cm.token ++ (write_options 0 cm.options ++ write_payload cm.payload)))

-- `mg_coap_compose`: its result and the bytes of `io`. The new room in `io` is filled from its
-- start on.
unfoldable pub coap_compose : CoapMessage → List ℕ → Verdict × List ℕ
coap_compose cm io = elim (calculate_packet_size cm).0 [
  | fine ↦ (fine, io ++ packet_bytes cm)
  | refused ↦ (refused, io)
]
