-- ===== src/Http/Decode.antt =====
-- `mg_url_decode` is the inverse of every percent-encoding, and stays in its buffer.
use mathlib.Core.Path.{subst, subst₂}
use evmongoose.Common.{
  arith, ℕ, zero, suc, ◌+◌, ◌-◌, ◌*◌, ◌≤◌, ◌<◌, ◌≡◌, refl, sym, ap, ◌∙◌, Bool, true, false, ◌&&◌,
  Option, none, some, List, [], ◌∷◌, ◌==◌, if◌then◌else◌, length, Bool-cases, ==_iff, inl, inr, ◌↔◌,
}
use evmongoose.Common.Int.{ℤ, pos, negsuc}
use evmongoose.Http.{isxdigit, hex_value}
use evmongoose.Http.Request.{decode_from, url_decode}

-- A byte that stands for itself, or a `+` for a space in a form.
abbrev plain_byte : Bool → ℕ → ℕ
plain_byte form c = if form && c == b'+' then b' ' else c

-- The texts that stand for given bytes: any byte but `%` for itself (but a `+` for a space in a form),
-- and `%` with two hexadecimal digits for the byte of that number.
pub data Encoded (form : Bool) : List ℕ → List ℕ → Type 0 where
  end : Encoded form [] []
  escape :
      {src out : List ℕ} (a b : ℕ)
      → isxdigit a ≡ true
      → isxdigit b ≡ true
      → Encoded form src out
      → Encoded form (b'%' ∷ a ∷ b ∷ src) ((hex_value a * 16 + hex_value b) ∷ out)
  plain :
      {src out : List ℕ} (c : ℕ)
      → (c == b'%') ≡ false
      → Encoded form src out
      → Encoded form (c ∷ src) (plain_byte form c ∷ out)

decode_nothing : (room : ℕ) (form : Bool) → decode_from room form [] ≡ some ([], true)
unfolding decode_from
decode_nothing zero form = refl
decode_nothing (suc room) form = refl

-- Any encoding is decoded, where there is room.
decode_complete :
    (room : ℕ) (form : Bool) {src out : List ℕ}
    → Encoded form src out
    → length out ≤ room
    → decode_from room form src ≡ some (out, true)
unfolding decode_from
decode_complete zero form end h = refl
decode_complete (suc room) form end h = refl
decode_complete zero form (escape a b x y e) h = absurd (omega arith)
decode_complete zero form (plain c n e) h = absurd (omega arith)
decode_complete (suc room) form (escape a b x y e) h =
    rw (x, y) (rw (decode_complete room form e (omega arith)) refl)
decode_complete (suc room) form (plain {src = src} {out = out} c n e) h =
    by_rest src (decode_complete room form e (omega arith))
  where
    by_rest :
        (src : List ℕ)
        → decode_from room form src ≡ some (out, true)
        → decode_from (suc room) form (c ∷ src) ≡ some (plain_byte form c ∷ out, true)
    by_rest [] d =
        let last : some (out, true) ≡ some ([], true) = sym d ∙ decode_nothing room form in
        let nothing : out ≡ [] = cc last in
        rw n (ap (λ o. some (plain_byte form c ∷ o, true)) (sym nothing))
    by_rest (a ∷ []) d = rw n (rw d refl)
    by_rest (a ∷ b ∷ src) d = rw n (rw d refl)

-- A byte in front of what is decoded later.
abbrev in_front : ℕ → Option (List ℕ × Bool) → Option (List ℕ × Bool)
in_front v o = elim o [ none ↦ none | some (out, all) ↦ some (v ∷ out, all) ]

in_front_inverse :
    (v : ℕ) (o : Option (List ℕ × Bool)) (out : List ℕ) (all : Bool)
    → in_front v o ≡ some (out, all)
    → (rest : List ℕ) × (o ≡ some (rest, all)) × (out ≡ v ∷ rest)
in_front_inverse v none out all e = absurd (cc e)
in_front_inverse v (some (rest, b)) out all e = (rest, cc e, cc e)

later_decodes :
    (room : ℕ) (form : Bool) (c : ℕ) (src out : List ℕ)
    → (c == b'%') ≡ false
    → (o : Option (List ℕ × Bool))
    → ((rest : List ℕ) → o ≡ some (rest, true) → Encoded form src rest × (length rest ≤ room))
    → in_front (plain_byte form c) o ≡ some (out, true)
    → Encoded form (c ∷ src) out × (length out ≤ suc room)
later_decodes room form c src out n o later e =
    let (rest, got, laid) = in_front_inverse (plain_byte form c) o out true e in
    let (enc, small) = later rest got in
    (
      subst (Encoded form (c ∷ src)) (sym laid) (plain c n enc),
      omega (arith, ap length laid, small),
    )

-- Whatever is decoded to the end of the source is an encoding of the result.
decode_sound :
    (room : ℕ) (form : Bool) (src out : List ℕ)
    → decode_from room form src ≡ some (out, true)
    → Encoded form src out × (length out ≤ room)
unfolding decode_from
decode_sound zero form [] out e =
    let nothing : out ≡ [] = cc e in
    (subst (Encoded form []) (sym nothing) end, omega (arith, ap length nothing))
decode_sound zero form (c ∷ src) out e = absurd (cc e)
decode_sound (suc room) form [] out e =
    let nothing : out ≡ [] = cc e in
    (subst (Encoded form []) (sym nothing) end, omega (arith, ap length nothing))
decode_sound (suc room) form (c ∷ []) out e = elim (Bool-cases (c == b'%')) [
  | inl x ↦ absurd (cc (rw x at e))
  | inr x ↦
      let one : some (plain_byte form c ∷ [], true) ≡ some (out, true) = rw x at e in
      let laid : out ≡ plain_byte form c ∷ [] = cc one in
      (subst (Encoded form (c ∷ [])) (sym laid) (plain c x end), ground (arith, ap length laid))
]
decode_sound (suc room) form (c ∷ a ∷ []) out e = elim (Bool-cases (c == b'%')) [
  | inl x ↦ absurd (cc (rw x at e))
  | inr x ↦
      later_decodes room form c (a ∷ []) out x (decode_from room form (a ∷ []))
        (λ rest got. decode_sound room form (a ∷ []) rest got) (rw x at e)
]
decode_sound (suc room) form (c ∷ a ∷ b ∷ src) out e = elim (Bool-cases (c == b'%')) [
  | inr x ↦
      later_decodes room form c (a ∷ b ∷ src) out x (decode_from room form (a ∷ b ∷ src))
        (λ rest got. decode_sound room form (a ∷ b ∷ src) rest got) (rw x at e)
  | inl x ↦ elim (Bool-cases (isxdigit a && isxdigit b)) [
    | inr y ↦ absurd (cc (rw y at (rw x at e)))
    | inl y ↦
        let escaped = hex_value a * 16 + hex_value b in
        let (rest, got, laid) =
          in_front_inverse escaped (decode_from room form src) out true (rw y at (rw x at e)) in
        let (enc, small) = decode_sound room form src rest got in
        let (dx, dy) = both_digits (isxdigit a) (isxdigit b) y in
        let percent : c ≡ b'%' = (==_iff c b'%').0 x in
        (
          subst₂ (λ c' o. Encoded form (c' ∷ a ∷ b ∷ src) o) (sym percent) (sym laid)
              (escape a b dx dy enc),
          omega (arith, ap length laid, small),
        )
  ]
]
  where
    both_digits : (x y : Bool) → (x && y) ≡ true → (x ≡ true) × (y ≡ true)
    both_digits x y h = ground arith

to_the_end :
    (o : Option (List ℕ × Bool)) (out : List ℕ)
    → (let r : ℤ × Option (List ℕ) = elim o [
      | none ↦ (negsuc 0, none)
      | some (out, all) ↦ (if all then pos (length out) else negsuc 0, some out)
    ] in
        r)
      ≡ (pos (length out), some out)
    → o ≡ some (out, true)
to_the_end none out e = absurd (ground (arith, e))
to_the_end (some (got, true)) out e = ground (arith, e)
to_the_end (some (got, false)) out e = absurd (ground (arith, e))

-- mg_url_decode answers the length of a text, and leaves that text before the NUL in a buffer of a
-- size above 0, exactly where the source is an encoding of the text that is shorter than the buffer.
pub url_decode-Encoded :
    (form : Bool) (src out : List ℕ) (dst_len : ℕ)
    → 0 < dst_len
    → (url_decode src dst_len form ≡ (pos (length out), some out))
      ↔ (Encoded form src out × (length out < dst_len))
unfolding url_decode
url_decode-Encoded form src out dst_len room = (
  λ e.
      (let (enc, small) =
          decode_sound (dst_len - 1) form src out
            (to_the_end (decode_from (dst_len - 1) form src) out e) in
        (enc, omega (arith, small))),
  λ (e : Encoded form src out × (length out < dst_len)).
      rw (decode_complete (dst_len - 1) form e.0 (omega arith), url_decode) refl,
)
