-- ===== src/Str/Prefix.antt =====
-- `mg_match_prefix` and what its pattern matches.
use evmongoose.Common.{
  ℕ, zero, suc, ◌≡◌, ◌≢◌, ◌<◌, ◌^◌, ◌++◌, ◌∙◌, ap, leb, false, refl, ◌⊎◌, inl, inr, Option, none,
  some, List, [], ◌∷◌, ◌==◌, ==_iff, if◌then◌else◌, if_split, length, All, arith,
}
use evmongoose.Str.Pattern.{
  segment_len, behind_star, match_one, split_bars, match_alternatives, match_prefix,
}
use evmongoose.Str.Matching.{
  Matches, done, segment, any_many, NotStar, segment_len-fits, Decides, Decides-change, Behind,
  behind_star-Decides,
}
use evmongoose.Str.Heads.{star_begins, stars_begin, match_head-Decides}

segment-Decides :
    (c : ℕ) (p s : List ℕ) (next : List ℕ → Option ℕ)
    → ((t : List ℕ) → Decides (Matches p t) (next t))
    → NotStar p
    → c ≡ b'*'
    → Decides (Matches (c ∷ p) s) (behind_star p next s (segment_len s))
segment-Decides c p s next rest ns e =
    Decides-change (Behind (Matches p) s (segment_len s)) (Matches (c ∷ p) s)
      (behind_star p next s (segment_len s))
      (λ m (k, n, le, r, f).
        let (fits, free) = segment_len-fits k s le in segment k n e ns fits free r f)
      (λ m. star_begins c p s m e ns) (behind_star-Decides p next s (segment_len s) rest)

many-Decides :
    (c d : ℕ) (p s : List ℕ) (next : List ℕ → Option ℕ)
    → ((t : List ℕ) → Decides (Matches p t) (next t))
    → d ≡ b'*'
    → c ≡ b'*'
    → Decides (Matches (c ∷ d ∷ p) s) (behind_star p next s (length s))
many-Decides c d p s next rest g e =
    Decides-change (Behind (Matches p) s (length s)) (Matches (c ∷ d ∷ p) s)
      (behind_star p next s (length s)) (λ m (k, n, le, r, f). any_many k n e g le r f)
      (λ m. stars_begin c d p s m e g) (behind_star-Decides p next s (length s) rest)

match_one-Decides : (p s : List ℕ) → Decides (Matches p s) (match_one p s)
unfolding match_one
match_one-Decides [] s = (done refl, λ e m r. empty m r)
  where
    empty : (m : ℕ) → Matches [] s m → m ≡ 0
    empty m (done f) = f
match_one-Decides (c ∷ []) s =
    match_head-Decides c [] (match_one []) (some (segment_len s)) (match_one-Decides []) s
      (segment-Decides c [] s (match_one []) (match_one-Decides []) tt)
match_one-Decides (c ∷ d ∷ p) s =
    match_head-Decides c (d ∷ p) (match_one (d ∷ p))
      (if d == b'*'
        then behind_star p (match_one p) s (length s)
        else behind_star (d ∷ p) (match_one (d ∷ p)) s (segment_len s))
      (match_one-Decides (d ∷ p)) s
      (λ e.
        if_split (Decides (Matches (c ∷ d ∷ p) s)) (d == b'*')
          (λ g. many-Decides c d p s (match_one p) (match_one-Decides p) ((==_iff d b'*').0 g) e)
          (λ g.
            segment-Decides c (d ∷ p) s (match_one (d ∷ p)) (match_one-Decides (d ∷ p))
              (ground arith) e))

-- Some pattern of a list matches so many characters.
abbrev pub SomeMatches : List (List ℕ) → List ℕ → ℕ → Type 0
SomeMatches [] s n = ⊥
SomeMatches (p ∷ ps) s n = Matches p s n ⊎ SomeMatches ps s n

-- A pattern matches no characters, or none.
abbrev pub MatchesEmpty : List ℕ → List ℕ → Type 0
MatchesEmpty s p = (m : ℕ) → Matches p s m → m ≡ 0

abbrev pub IsAnswer : List (List ℕ) → List ℕ → Option ℕ → Type 0
IsAnswer ps s (some n) = SomeMatches ps s n
IsAnswer ps s none = All (MatchesEmpty s) ps

match_alternatives-IsAnswer :
    (p : List ℕ) (ps : List (List ℕ)) (s : List ℕ) → IsAnswer (p ∷ ps) s (match_alternatives p ps s)
unfolding match_alternatives
match_alternatives-IsAnswer p [] s = last (match_one p s) (match_one-Decides p s)
  where
    last : (o : Option ℕ) → Decides (Matches p s) o → IsAnswer (p ∷ []) s o
    last none h = (λ m r. absurd (h m r), tt)
    last (some n) h = inl h.0
match_alternatives-IsAnswer p (q ∷ ps) s =
    by_result (match_one p s) (match_alternatives q ps s) (match_one-Decides p s)
      (match_alternatives-IsAnswer q ps s)
  where
    add : (o : Option ℕ) → MatchesEmpty s p → IsAnswer (q ∷ ps) s o → IsAnswer (p ∷ q ∷ ps) s o
    add none h later = (h, later)
    add (some n) h later = inr later

    by_result :
        (o later : Option ℕ)
        → Decides (Matches p s) o
        → IsAnswer (q ∷ ps) s later
        → IsAnswer
            (p ∷ q ∷ ps)
            s
            (elim o [ some (suc n) ↦ some (suc n) | some zero ↦ later | none ↦ later ])
    by_result none later h l = add later (λ m r. absurd (h m r)) l
    by_result (some zero) later h l = add later (h.1 refl) l
    by_result (some (suc n)) later h l = inl h.0

abbrev pub NoBar : ℕ → Type 0
NoBar c = c ≢ b'|'

-- Patterns with bars between them.
abbrev pub with_bars : List ℕ → List (List ℕ) → List ℕ
with_bars p [] = p
with_bars p (q ∷ ps) = p ++ (b'|' ∷ with_bars q ps)

split_bars-front :
    (p t : List ℕ)
    → All NoBar p
    → split_bars (p ++ (b'|' ∷ t)) ≡ (p, (split_bars t).0 ∷ (split_bars t).1)
unfolding split_bars
split_bars-front [] t h = refl
split_bars-front (c ∷ p) t (n, h) =
    let x : (c == b'|') ≡ false = ground (arith, n) in rw x (rw (split_bars-front p t h) refl)

split_bars-alone : (p : List ℕ) → All NoBar p → split_bars p ≡ (p, [])
unfolding split_bars
split_bars-alone [] h = refl
split_bars-alone (c ∷ p) (n, h) =
    let x : (c == b'|') ≡ false = ground (arith, n) in rw x (rw (split_bars-alone p h) refl)

split_bars-with_bars :
    (p : List ℕ) (ps : List (List ℕ))
    → All NoBar p
    → All (All NoBar) ps
    → split_bars (with_bars p ps) ≡ (p, ps)
split_bars-with_bars p [] h hs = split_bars-alone p h
split_bars-with_bars p (q ∷ ps) h (hq, hs) =
    split_bars-front p (with_bars q ps) h
    ∙ ap (λ r. (p, r.0 ∷ r.1)) (split_bars-with_bars q ps hq hs)

-- mg_match_prefix on patterns with bars between them, and on a string shorter than 2 ^ 31: where it
-- answers a number, one of the patterns matches so many first characters of the string; where it
-- answers -1, none of them matches any but an empty beginning.
pub match_prefix-IsAnswer :
    (p : List ℕ) (ps : List (List ℕ)) (s : List ℕ)
    → All NoBar p
    → All (All NoBar) ps
    → length s < 2 ^ 31
    → (o : Option ℕ) × (match_prefix (with_bars p ps) s ≡ some o) × IsAnswer (p ∷ ps) s o
unfolding match_prefix
match_prefix-IsAnswer p ps s h hs short =
    let inside : leb (2 ^ 31) (length s) ≡ false = ground (arith, short) in
    (
      match_alternatives p ps s,
      rw inside (ap (λ r. some (match_alternatives r.0 r.1 s)) (split_bars-with_bars p ps h hs)),
      match_alternatives-IsAnswer p ps s,
    )
