-- ===== src/Coap/Size.antt =====
-- `mg_coap_compose` fills exactly the room that it has asked for.
use evmongoose.Common.{
  arith, ℕ, ◌+◌, ◌%◌, ◌^◌, ◌≤◌, ◌≡◌, refl, sym, ap, false, List, [], ◌∷◌, ◌++◌, ◌==◌, if◌then◌else◌,
  length, take, length-append, length-take,
}
use evmongoose.Coap.{CoapMessage, CoapOption}
use evmongoose.Coap.Compose.{
  Verdict, fine, Split, get_ext_opt_size, split_opt, add_uint16, add_opt_info, delta_of, disordered,
  bad_option, options_size, calculate_packet_size, write_option, write_options, write_payload,
  packet_bytes, coap_compose,
}

length-add_opt_info :
    (v : ℕ)
    → v ≤ 65804
    → length (add_opt_info (split_opt v).ext (split_opt v).size) ≡ get_ext_opt_size v
unfolding add_opt_info split_opt get_ext_opt_size
length-add_opt_info v h = ground arith

-- What an option that is not refused has.
pub option_bounds :
    (prev : ℕ) (o : CoapOption) (os : List CoapOption)
    → bad_option prev o os ≡ false
    → (disordered o os ≡ false) × (length o.value ≤ 65804) × (delta_of o.number prev ≤ 65804)
unfolding bad_option
option_bounds prev o os h = ground arith

length-write_option :
    (prev : ℕ) (o : CoapOption)
    → length o.value ≤ 65804
    → delta_of o.number prev ≤ 65804
    → length (write_option prev o)
      ≡ 1
        + get_ext_opt_size (delta_of o.number prev)
        + get_ext_opt_size (length o.value % 2 ^ 32)
        + length o.value
unfolding write_option
length-write_option prev o h k = omega (
  arith,
  length-add_opt_info (delta_of o.number prev) k,
  length-add_opt_info (length o.value % 2 ^ 32) (omega arith),
  length-append (add_opt_info delta.ext delta.size) (add_opt_info len.ext len.size ++ o.value),
  length-append (add_opt_info len.ext len.size) o.value,
)
  where
    delta : Split
    delta = split_opt (delta_of o.number prev)

    len : Split
    len = split_opt (length o.value % 2 ^ 32)

-- An accepted list of options: its first is accepted, and so are those behind it.
pub options_accepted :
    (prev : ℕ) (o : CoapOption) (os : List CoapOption)
    → (options_size prev (o ∷ os)).0 ≡ false
    → (bad_option prev o os ≡ false) × ((options_size o.number os).0 ≡ false)
unfolding options_size
options_accepted prev o os h = ground arith

length-write_options :
    (prev : ℕ) (os : List CoapOption)
    → (options_size prev os).0 ≡ false
    → length (write_options prev os) ≡ (options_size prev os).1
unfolding write_options options_size
length-write_options prev [] h = refl
length-write_options prev (o ∷ os) h =
    let (first, later) = options_accepted prev o os h in
    let (_, v, d) = option_bounds prev o os first in
    rw first (
      omega (
        arith,
        length-append (write_option prev o) (write_options o.number os),
        length-write_option prev o v d,
        length-write_options o.number os later,
      ))

length-write_payload :
    (p : List ℕ) → length (write_payload p) ≡ (if length p == 0 then 0 else length p + 1)
unfolding write_payload
length-write_payload [] = refl
length-write_payload (b ∷ p) = ground arith

length-packet_bytes :
    (cm : CoapMessage)
    → length cm.token ≡ cm.token_len
    → (options_size 0 cm.options).0 ≡ false
    → length (packet_bytes cm)
      ≡ 4
        + cm.token_len
        + (if length cm.payload == 0 then 0 else length cm.payload + 1)
        + (options_size 0 cm.options).1
unfolding packet_bytes add_uint16
length-packet_bytes cm t h = omega (
  arith,
  length-append (take cm.token_len cm.token) (opts ++ write_payload cm.payload),
  length-append opts (write_payload cm.payload),
  length-take cm.token_len cm.token,
  length-write_options 0 cm.options h,
  length-write_payload cm.payload,
)
  where
    opts : List ℕ
    opts = write_options 0 cm.options

-- What `mg_coap_compose` has checked of a message that it accepts.
pub record Accepted (cm : CoapMessage) : Type 0 where
  pub type_fits : cm.msg_type ≤ 3
  pub token_fits : cm.token_len ≤ 8
  pub class_fits : cm.code_class ≤ 7
  pub detail_fits : cm.code_detail ≤ 31
  pub options_fit : (options_size 0 cm.options).0 ≡ false

pub fine-Accepted : (cm : CoapMessage) → (calculate_packet_size cm).0 ≡ fine → Accepted cm
unfolding calculate_packet_size
fine-Accepted cm h = ground arith

packet_size :
    (cm : CoapMessage)
    → Accepted cm
    → (calculate_packet_size cm).1
      ≡ 4
        + cm.token_len
        + (if length cm.payload == 0 then 0 else length cm.payload + 1)
        + (options_size 0 cm.options).1
unfolding calculate_packet_size
packet_size cm a = ground arith

pub compose-fine :
    (cm : CoapMessage) (io out : List ℕ)
    → coap_compose cm io ≡ (fine, out)
    → ((calculate_packet_size cm).0 ≡ fine) × (out ≡ io ++ packet_bytes cm)
unfolding coap_compose
compose-fine cm io out e = by_verdict (calculate_packet_size cm).0 e
  where
    by_verdict :
        (v : Verdict)
        → (let r : Verdict × List ℕ = elim v [
          | fine ↦ (fine, io ++ packet_bytes cm)
          | refused ↦ (refused, io)
        ] in
            r)
          ≡ (fine, out)
        → (v ≡ fine) × (out ≡ io ++ packet_bytes cm)
    by_verdict fine e = (refl, sym (ap (λ r. r.1) e))
    by_verdict v e = absurd (ground (arith, e))

-- A message that is composed takes exactly the room that `coap_calculate_packet_size` has found, so
-- that what is written stays in it. The token has the length that the message states.
pub coap_compose-size :
    (cm : CoapMessage) (io out : List ℕ)
    → length cm.token ≡ cm.token_len
    → coap_compose cm io ≡ (fine, out)
    → length out ≡ length io + (calculate_packet_size cm).1
coap_compose-size cm io out t e =
    let (ok, o) = compose-fine cm io out e in
    let a = fine-Accepted cm ok in
    omega (
      arith,
      ap length o,
      length-append io (packet_bytes cm),
      length-packet_bytes cm t a.options_fit,
      packet_size cm a,
    )
