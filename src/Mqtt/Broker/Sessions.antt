-- ===== src/Mqtt/Broker/Sessions.antt =====
-- The sessions of the broker and the connections that are alive.
use mathlib.Core.Path.{subst}
use evmongoose.Common.{
  arith, ℕ, ◌≡◌, ◌≢◌, some, List, [], ◌∷◌, ◌==◌, ==_iff, All, Bool-cases, inl, inr,
}
use evmongoose.Mqtt.Broker.{Session, find_session, put_session, close_session}

-- A number that none of these sessions has.
abbrev pub IsNew : ℕ → List Session → Type 0
IsNew id = All (λ s. s.id ≢ id)

abbrev pub Distinct : List Session → Type 0
Distinct [] = Unit
Distinct (s ∷ sessions) = IsNew s.id sessions × Distinct sessions

pub find_session-All :
    (P : Session → Type 0) (s : ℕ) (sessions : List Session) (x : Session)
    → find_session s sessions ≡ some x
    → All P sessions
    → P x
unfolding find_session
find_session-All P s [] x e h = absurd (cc e)
find_session-All P s (y ∷ sessions) x e (hy, h) = elim (Bool-cases (y.id == s)) [
  | inl same ↦
      let found : some y ≡ some x = rw same at e in let is : y ≡ x = cc found in subst P is hy
  | inr other ↦ find_session-All P s sessions x (rw other at e) h
]

pub put_session-All :
    (P : Session → Type 0) (x : Session) (sessions : List Session)
    → P x
    → All P sessions
    → All P (put_session x sessions)
unfolding put_session
put_session-All P x [] hx h = h
put_session-All P x (y ∷ sessions) hx (hy, h) = elim (Bool-cases (y.id == x.id)) [
  | inl same ↦ rw same (hx, h)
  | inr other ↦ rw other (hy, put_session-All P x sessions hx h)
]

pub put_session-Distinct :
    (x : Session) (sessions : List Session) → Distinct sessions → Distinct (put_session x sessions)
unfolding put_session
put_session-Distinct x [] h = h
put_session-Distinct x (y ∷ sessions) (n, h) = elim (Bool-cases (y.id == x.id)) [
  | inl same ↦
      let is : y.id ≡ x.id = (==_iff y.id x.id).0 same in
      rw same (subst (λ i. IsNew i sessions) is n, h)
  | inr other ↦
      let apart : x.id ≢ y.id = λ e. ground (arith, e, other) in
      rw other
        (put_session-All (λ t. t.id ≢ y.id) x sessions apart n, put_session-Distinct x sessions h)
]

-- Closing a session takes out all of its number.
pub close_session-All :
    (P : Session → Type 0) (s : ℕ) (sessions : List Session)
    → Distinct sessions
    → All P sessions
    → All (λ t. P t × (t.id ≢ s)) (close_session s sessions)
unfolding close_session
close_session-All P s [] d h = h
close_session-All P s (y ∷ sessions) (n, d) (hy, h) = elim (Bool-cases (y.id == s)) [
  | inl same ↦
      let is : y.id ≡ s = (==_iff y.id s).0 same in
      rw same (both sessions (subst (λ i. IsNew i sessions) is n) h)
  | inr other ↦
      let apart : y.id ≢ s = λ e. ground (arith, e, other) in
      rw other ((hy, apart), close_session-All P s sessions d h)
]
  where
    both : (ts : List Session) → IsNew s ts → All P ts → All (λ t. P t × (t.id ≢ s)) ts
    both [] a b = b
    both (t ∷ ts) (a, as') (b, bs) = ((b, a), both ts as' bs)

close_session-IsNew :
    (i s : ℕ) (sessions : List Session) → IsNew i sessions → IsNew i (close_session s sessions)
unfolding close_session
close_session-IsNew i s [] h = h
close_session-IsNew i s (y ∷ sessions) (a, h) = elim (Bool-cases (y.id == s)) [
  | inl same ↦ rw same h
  | inr other ↦ rw other (a, close_session-IsNew i s sessions h)
]

pub close_session-Distinct :
    (s : ℕ) (sessions : List Session) → Distinct sessions → Distinct (close_session s sessions)
unfolding close_session
close_session-Distinct s [] d = d
close_session-Distinct s (y ∷ sessions) (n, d) = elim (Bool-cases (y.id == s)) [
  | inl same ↦ rw same d
  | inr other ↦
      rw other (close_session-IsNew y.id s sessions n, close_session-Distinct s sessions d)
]
