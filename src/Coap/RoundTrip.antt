-- ===== src/Coap/RoundTrip.antt =====
-- A CoAP message is read back as it was composed.
use mathlib.Core.Path.{ap₂}
use evmongoose.Common.{
  arith, ℕ, zero, suc, ◌+◌, ◌-◌, ◌*◌, ◌/◌, ◌%◌, ◌^◌, ◌≤◌, ◌<◌, ◌≡◌, refl, sym, ap, ◌∙◌, true, false,
  ◌||◌, some, List, [], ◌∷◌, ◌++◌, ltb, ◌==◌, length, length-append, append_assoc, append-nil,
  take-append_exact, drop-append_exact, All,
}
use native.Mathlib.Decide.{dec_lt}
use evmongoose.Common.Bits.{bit_or_nibbles}
use evmongoose.Coap.{CoapMessage, CoapOption, tail_le}
use evmongoose.Coap.Options.{Ascending, add_option-end}
use evmongoose.Coap.Parse.{onward, get_ext_opt, take_option, next_option, option_loop}
use evmongoose.Coap.Compose.{Split, split_opt, add_opt_info, delta_of, write_option, write_options}

-- Numbers and lengths that the parser's `uint16_t` holds.
abbrev pub Fits : CoapOption → Type 0
Fits o = (o.number < 2 ^ 16) × (length o.value < 2 ^ 16)

get_ext_opt_plain : (v : ℕ) (rest : List ℕ) → v < 13 → get_ext_opt rest v ≡ some (rest, v)
unfolding get_ext_opt
get_ext_opt_plain v [] h = ground arith
get_ext_opt_plain v (a ∷ []) h = ground arith
get_ext_opt_plain v (a ∷ b ∷ rest) h = ground arith

get_ext_opt_byte :
    (v : ℕ) (rest : List ℕ)
    → 13 ≤ v
    → v ≤ 268
    → get_ext_opt ((v - 13) % 256 ∷ rest) 13 ≡ some (rest, v)
unfolding get_ext_opt
get_ext_opt_byte v [] h k = ground arith
get_ext_opt_byte v (b ∷ rest) h k = ground arith

get_ext_opt_word :
    (v : ℕ) (rest : List ℕ)
    → 268 < v
    → v < 2 ^ 16
    → get_ext_opt ((v - 269) / 256 ∷ (v - 269) % 256 ∷ rest) 14 ≡ some (rest, v)
unfolding get_ext_opt
get_ext_opt_word v rest h k = ap (λ n. some (rest, n)) (omega arith)

split_byte : (v : ℕ) → 13 ≤ v → v ≤ 268 → split_opt v ≡ record { base = 13; ext = v - 13; size = 1 }
unfolding split_opt
split_byte v h k = ground arith

split_word :
    (v : ℕ) → 268 < v → v < 2 ^ 16 → split_opt v ≡ record { base = 14; ext = v - 269; size = 2 }
unfolding split_opt
split_word v h k = ground arith

split_plain : (v : ℕ) → v < 13 → split_opt v ≡ record { base = v; ext = 0; size = 0 }
unfolding split_opt
split_plain v h = ground arith

-- A number that is split is put together again.
ext_opt_back :
    (v : ℕ) (rest : List ℕ)
    → v < 2 ^ 16
    → get_ext_opt (add_opt_info (split_opt v).ext (split_opt v).size ++ rest) (split_opt v).base
      ≡ some (rest, v)
unfolding add_opt_info
ext_opt_back v rest h = elim (dec_lt v 13) [
  | yes k ↦ rw (split_plain v k) (get_ext_opt_plain v rest k)
  | no k ↦ elim (dec_lt v 269) [
    | yes k' ↦
        rw (split_byte v (omega arith) (omega arith))
          (get_ext_opt_byte v rest (omega arith) (omega arith))
    | no k' ↦ rw (split_word v (omega arith) h) (get_ext_opt_word v rest (omega arith) h)
  ]
]

split_base : (v : ℕ) → (split_opt v).base < 15
unfolding split_opt
split_base v = ground arith

take_option_back :
    (number : ℕ) (value rest : List ℕ) (cm : CoapMessage)
    → tail_le cm.options number ≡ true
    → take_option number (length value) (value ++ rest) cm
      ≡ onward number rest
          (record cm { options = cm.options ++ (record { number = number; value = value } ∷ []) })
unfolding take_option
take_option_back number value rest cm h =
    let long : ltb (length (value ++ rest)) (length value) ≡ false =
      ground (arith, length-append value rest) in
    rw
      (
        long,
        take-append_exact (length value) value rest refl,
        drop-append_exact (length value) value rest refl,
        add_option-end 0 (record { number = number; value = value }) cm.options h,
      )
      refl

-- A round, once the two numbers of an option are read.
next_option_lem :
    (prev b : ℕ) (p q r : List ℕ) (delta len : ℕ) (cm : CoapMessage)
    → b / 16 % 16 < 15
    → b % 16 < 15
    → get_ext_opt p (b / 16 % 16) ≡ some (q, delta)
    → get_ext_opt q (b % 16) ≡ some (r, len)
    → next_option prev b p cm ≡ take_option ((delta + prev) % 2 ^ 16) len r cm
unfolding next_option
next_option_lem prev b p q r delta len cm h k e e' =
    let t : (b / 16 % 16 == 15 || b % 16 == 15) ≡ false = ground arith in rw t (rw e (rw e' refl))

-- The option that `write_option` wrote is taken back.
next_option_back :
    (prev : ℕ) (o : CoapOption) (rest : List ℕ) (cm : CoapMessage)
    → prev ≤ o.number
    → Fits o
    → tail_le cm.options o.number ≡ true
    → (b : ℕ) × (p : List ℕ) × (write_option prev o ++ rest ≡ b ∷ p)
      × (b < 255)
      × (next_option prev b p cm
          ≡ onward o.number rest (record cm { options = cm.options ++ (o ∷ []) }))
unfolding write_option
next_option_back prev o rest cm le fits last = (
  db * 16 + lb,
  first ++ (second ++ (o.value ++ rest)),
  ap₂ (◌∷◌) (bit_or_nibbles db lb (omega (arith, small_d)) (omega (arith, small_l))) (
      append_assoc first (second ++ o.value) rest
      ∙ ap (λ t. first ++ t) (append_assoc second o.value rest)),
  omega (arith, small_d, small_l),
  next_option_lem prev (db * 16 + lb) (first ++ (second ++ (o.value ++ rest)))
        (second ++ (o.value ++ rest)) (o.value ++ rest) (delta_of o.number prev)
        (length o.value % 2 ^ 32) cm (omega (arith, small_d, small_l))
        (omega (arith, small_d, small_l))
        (ap (get_ext_opt (first ++ (second ++ (o.value ++ rest)))) (omega (arith, small_d, small_l))
          ∙ ext_opt_back (delta_of o.number prev) (second ++ (o.value ++ rest)) (omega arith))
        (ap (get_ext_opt (second ++ (o.value ++ rest))) (omega (arith, small_l))
          ∙ ext_opt_back (length o.value % 2 ^ 32) (o.value ++ rest) (omega arith))
      ∙ ap₂ (λ n l. take_option n l (o.value ++ rest) cm) (omega arith) (omega arith)
      ∙ take_option_back o.number o.value rest cm last,
)
  where
    delta : Split
    delta = split_opt (delta_of o.number prev)

    len : Split
    len = split_opt (length o.value % 2 ^ 32)

    db : ℕ
    db = delta.base

    lb : ℕ
    lb = len.base

    small_d : db < 15
    small_d = split_base (delta_of o.number prev)

    small_l : lb < 15
    small_l = split_base (length o.value % 2 ^ 32)

    first : List ℕ
    first = add_opt_info delta.ext delta.size

    second : List ℕ
    second = add_opt_info len.ext len.size

-- The end of the packet, or the marker of the payload.
abbrev pub Stops : List ℕ → Type 0
Stops [] = Unit {0}
Stops (b ∷ p) = b ≡ 255

loop-Stops :
    (rounds prev : ℕ) (tail : List ℕ) (cm : CoapMessage)
    → Stops tail
    → option_loop (suc rounds) prev tail cm ≡ some (tail, cm)
unfolding option_loop
loop-Stops rounds prev [] cm s = refl
loop-Stops rounds prev (b ∷ tail) cm s = let e : (b == 255) ≡ true = ground arith in rw e refl

tail_le_lower : (os : List CoapOption) (m n : ℕ) → m ≤ n → tail_le os m ≡ true → tail_le os n ≡ true
unfolding tail_le
tail_le_lower [] m n h e = refl
tail_le_lower (o ∷ []) m n h e = ground arith
tail_le_lower (o ∷ p ∷ os) m n h e = tail_le_lower (p ∷ os) m n h e

tail_le-append : (os : List CoapOption) (o : CoapOption) → tail_le (os ++ (o ∷ [])) o.number ≡ true
unfolding tail_le
tail_le-append [] o = ground arith
tail_le-append (p ∷ []) o = ground arith
tail_le-append (p ∷ q ∷ os) o = tail_le-append (q ∷ os) o

loop_round :
    (rounds prev b number : ℕ) (p q : List ℕ) (cm more : CoapMessage)
    → b < 255
    → next_option prev b p cm ≡ onward number q more
    → option_loop (suc rounds) prev (b ∷ p) cm ≡ option_loop rounds number q more
unfolding option_loop
loop_round rounds prev b number p q cm more h e =
    let t : (b == 255) ≡ false = ground arith in rw t (rw e refl)

pub write_option_pos : (prev : ℕ) (o : CoapOption) → 0 < length (write_option prev o)
unfolding write_option
write_option_pos prev o = omega arith

shorter :
    (o : CoapOption) (os : List CoapOption) (tail : List ℕ) (prev rounds : ℕ)
    → length ((write_option prev o ++ write_options o.number os) ++ tail) < suc rounds
    → length (write_options o.number os ++ tail) < rounds
shorter o os tail prev rounds h = omega (
  arith,
  length-append (write_option prev o ++ write_options o.number os) tail,
  length-append (write_option prev o) (write_options o.number os),
  length-append (write_options o.number os) tail,
  write_option_pos prev o,
)

-- All the options that were written are taken back, in order.
pub loop_back :
    (rounds prev : ℕ) (os : List CoapOption) (tail : List ℕ) (cm : CoapMessage)
    → length (write_options prev os ++ tail) < rounds
    → Ascending prev os
    → All Fits os
    → tail_le cm.options prev ≡ true
    → Stops tail
    → option_loop rounds prev (write_options prev os ++ tail) cm
      ≡ some (tail, record cm { options = cm.options ++ os })
unfolding write_options
loop_back zero prev os tail cm h asc fits last s = absurd (omega arith)
loop_back (suc rounds) prev [] tail cm h asc fits last s =
    loop-Stops rounds prev tail cm s
    ∙ ap (λ t. some (tail, record cm { options = t })) (sym (append-nil cm.options))
loop_back (suc rounds) prev (o ∷ os) tail cm h asc fits last s =
    let (b, p, laid, small, took) =
      next_option_back prev o (write_options o.number os ++ tail) cm asc.0 fits.0
        (tail_le_lower cm.options prev o.number asc.0 last) in
    let laid' = append_assoc (write_option prev o) (write_options o.number os) tail ∙ laid in
    ap (λ t. option_loop (suc rounds) prev t cm) laid'
    ∙ loop_round rounds prev b o.number p (write_options o.number os ++ tail) cm _ small took
    ∙ loop_back rounds o.number os tail (record cm { options = cm.options ++ (o ∷ []) })
        (shorter o os tail prev rounds h) asc.1 fits.1 (tail_le-append cm.options o) s
    ∙ ap (λ t. some (tail, record cm { options = t })) (append_assoc cm.options (o ∷ []) os)
