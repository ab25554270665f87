-- ===== src/Coap/Options.antt =====
-- The options of a CoAP message are kept in ascending order.
use mathlib.Core.List.{Perm}
use mathlib.Core.List.Perm
use evmongoose.Common.{
  arith, ℕ, ◌≤◌, ◌≡◌, refl, sym, true, List, [], ◌∷◌, ◌++◌, ltb, Bool-cases, inl, inr,
}
use mathlib.Core.Path.{subst}
use evmongoose.Coap.{CoapOption, tail_le, put_option, add_option}

-- Ascending, from a number on.
abbrev pub Ascending : ℕ → List CoapOption → Type 0
Ascending n [] = Unit {0}
Ascending n (o ∷ os) = (n ≤ o.number) × Ascending o.number os

pub Ascending-lower : (m n : ℕ) (os : List CoapOption) → m ≤ n → Ascending n os → Ascending m os
Ascending-lower m n [] le h = tt
Ascending-lower m n (o ∷ os) le h = (omega (arith, h.0), h.1)

put_option-Ascending :
    (n : ℕ) (new : CoapOption) (os : List CoapOption)
    → n ≤ new.number
    → Ascending n os
    → Ascending n (put_option new os)
unfolding put_option
put_option-Ascending n new [] le h = (le, tt)
put_option-Ascending n new (o ∷ os) le h = elim (Bool-cases (ltb new.number o.number)) [
  | inl e ↦ rw e (le, (ground arith, h.1))
  | inr e ↦ rw e (h.0, put_option-Ascending o.number new os (ground arith) h.1)
]

tail_above :
    (n : ℕ) (p : CoapOption) (os : List CoapOption)
    → Ascending p.number os
    → tail_le (p ∷ os) n ≡ true
    → p.number ≤ n
unfolding tail_le
tail_above n p [] h e = ground arith
tail_above n p (q ∷ os) h e = omega (arith, tail_above n q os h.1 e, h.0)

-- The short way, behind the tail, is where the search ends.
put_option-last :
    (n : ℕ) (new : CoapOption) (os : List CoapOption)
    → Ascending n os
    → tail_le os new.number ≡ true
    → put_option new os ≡ os ++ (new ∷ [])
unfolding put_option tail_le
put_option-last n new [] h e = refl
put_option-last n new (o ∷ []) h e = ground arith
put_option-last n new (o ∷ p ∷ os) h e =
    let first = tail_above new.number p os h.1.1 e in
    let later = put_option-last o.number new (p ∷ os) h.1 e in ground (arith, later, first, h.1.0)

put_option-Perm : (new : CoapOption) (os : List CoapOption) → Perm (put_option new os) (new ∷ os)
unfolding put_option
put_option-Perm new [] = Perm.refl (new ∷ [])
put_option-Perm new (o ∷ os) = elim (Bool-cases (ltb new.number o.number)) [
  | inl e ↦ rw e (Perm.refl (new ∷ o ∷ os))
  | inr e ↦ rw e (Perm.trans (Perm.cons o (put_option-Perm new os)) (Perm.swap new o os))
]

add_option-put_option :
    (new : CoapOption) (os : List CoapOption)
    → Ascending 0 os
    → add_option new os ≡ put_option new os
unfolding add_option
add_option-put_option new os h = elim (Bool-cases (tail_le os new.number)) [
  | inl e ↦ rw e (sym (put_option-last 0 new os h e))
  | inr e ↦ rw e refl
]

-- An option added to ascending ones is put before the first with a larger number, whichever way the
-- source takes; the options stay ascending, and they are those there were and the new one.
pub add_option-Ascending :
    (new : CoapOption) (os : List CoapOption)
    → Ascending 0 os
    → (add_option new os ≡ put_option new os)
      × Ascending 0 (add_option new os)
      × Perm (add_option new os) (new ∷ os)
add_option-Ascending new os h =
    let e = add_option-put_option new os h in
    (
      e,
      subst (Ascending 0) (sym e) (put_option-Ascending 0 new os (omega arith) h),
      subst (λ t. Perm t (new ∷ os)) (sym e) (put_option-Perm new os),
    )

-- An option with a number as large as any goes to the end.
pub add_option-end :
    (n : ℕ) (new : CoapOption) (os : List CoapOption)
    → tail_le os new.number ≡ true
    → add_option new os ≡ os ++ (new ∷ [])
unfolding add_option
add_option-end n new os e = rw e refl
