-- ===== src/Str/Heads.antt =====
-- How a match begins, and what a round of `mg_match_prefix_n` decides.
use mathlib.Core.Option
use evmongoose.Common.{
  arith, ℕ, suc, ◌≡◌, ◌≢◌, refl, ◌⊎◌, inl, inr, false, Option, List, [], ◌∷◌, ◌==◌, ==_iff,
  if_split, length,
}
use evmongoose.Str.{tolower}
use evmongoose.Str.Pattern.{segment_len, match_head}
use evmongoose.Str.Matching.{
  IsPlain, NotStar, Matches, any_one, at_end, segment, any_many, plain, Decides, Decides-change,
  OneMore, Decides-suc, Behind, segment_len-most,
}

-- How a match begins, by the first character of the pattern.
pub star_begins :
    (c : ℕ) (p s : List ℕ) (m : ℕ)
    → c ≡ b'*'
    → NotStar p
    → Matches (c ∷ p) s m
    → Behind (Matches p) s (segment_len s) m
star_begins c p s m e ns (segment k n _ _ le free r f) = (k, n, segment_len-most k s le free, r, f)
star_begins c p s m e ns (any_many k n _ d le r f) = absurd (ns d)
star_begins c p s m e ns (any_one n q r f) = absurd (omega arith)
star_begins c p s m e ns (at_end q f) = absurd (omega arith)
star_begins c p s m e ns (plain n q t r f) = absurd (q.2 e)

pub stars_begin :
    (c d : ℕ) (p s : List ℕ) (m : ℕ)
    → c ≡ b'*'
    → d ≡ b'*'
    → Matches (c ∷ d ∷ p) s m
    → Behind (Matches p) s (length s) m
stars_begin c d p s m e g (segment k n _ ns le _ r f) = absurd (ns g)
stars_begin c d p s m e g (any_many k n _ _ le r f) = (k, n, le, r, f)
stars_begin c d p s m e g (any_one n q r f) = absurd (omega arith)
stars_begin c d p s m e g (at_end q f) = absurd (omega arith)
stars_begin c d p s m e g (plain n q t r f) = absurd (q.2 e)

nothing_left : (c : ℕ) (p : List ℕ) (m : ℕ) → c ≢ b'*' → Matches (c ∷ p) [] m → (c ≡ b'$') × (m ≡ 0)
nothing_left c p m ns (at_end q f) = (q, f)
nothing_left c p m ns (segment k n e _ le _ r f) = absurd (ns e)
nothing_left c p m ns (any_many k n e _ le r f) = absurd (ns e)

one_taken :
    (c d : ℕ) (p s : List ℕ) (m : ℕ)
    → c ≢ b'*'
    → Matches (c ∷ p) (d ∷ s) m
    → ((c ≡ b'?') ⊎ (IsPlain c × (tolower c ≡ tolower d))) × OneMore (Matches p s) m
one_taken c d p s m ns (any_one n e r f) = (inl e, (n, r, f))
one_taken c d p s m ns (plain n q t r f) = (inr (q, t), (n, r, f))
one_taken c d p s m ns (segment k n e _ le _ r f) = absurd (ns e)
one_taken c d p s m ns (any_many k n e _ le r f) = absurd (ns e)

-- A round decides, if what follows and the branch of a star do.
module _ (c : ℕ) (p : List ℕ) (next : List ℕ → Option ℕ) (starred : Option ℕ)
    (rest : (t : List ℕ) → Decides (Matches p t) (next t)) where
  match_head_nil :
      (c ≡ b'*' → Decides (Matches (c ∷ p) []) starred)
      → Decides (Matches (c ∷ p) []) (match_head c next starred [])
  unfolding match_head
  match_head_nil star =
      if_split (Decides (Matches (c ∷ p) [])) (c == b'$')
        (λ e.
          let q : c ≡ b'$' = ground arith in
          let ns : c ≢ b'*' = ground arith in (at_end q refl, λ _ m r. (nothing_left c p m ns r).1))
        (λ e.
          if_split (Decides (Matches (c ∷ p) [])) (c == b'*') (λ f. star (ground arith))
            (λ f.
              let ns : c ≢ b'*' = ground arith in
              let nd : c ≢ b'$' = ground arith in λ m r. nd (nothing_left c p m ns r).0))

  match_head_cons :
      (d : ℕ) (s : List ℕ)
      → (c ≡ b'*' → Decides (Matches (c ∷ p) (d ∷ s)) starred)
      → Decides (Matches (c ∷ p) (d ∷ s)) (match_head c next starred (d ∷ s))
  unfolding match_head
  match_head_cons d s star =
      let Matched : ℕ → Type 0 = Matches (c ∷ p) (d ∷ s) in
      if_split (Decides Matched) (c == b'?')
        (λ e.
          let q : c ≡ b'?' = ground arith in
          let ns : c ≢ b'*' = ground arith in
          Decides-change (OneMore (Matches p s)) Matched (Option.map suc (next s))
            (λ m (n, r, f). any_one n q r f) (λ m r. (one_taken c d p s m ns r).1)
            (Decides-suc (Matches p s) (next s) (rest s)))
        (λ e.
          if_split (Decides Matched) (c == b'$')
            (λ f.
              let ns : c ≢ b'*' = ground arith in
              let q : c ≡ b'$' = ground arith in λ m r. by_kind q (one_taken c d p s m ns r).0)
            (λ f.
              if_split (Decides Matched) (c == b'*') (λ g. star (ground arith))
                (λ g.
                  let ns : c ≢ b'*' = ground arith in
                  let is_plain : IsPlain c = (ground arith, ground arith, ns) in
                  if_split (Decides Matched) (tolower c == tolower d)
                    (λ t.
                      Decides-change (OneMore (Matches p s)) Matched (Option.map suc (next s))
                        (λ m (n, r, f). plain n is_plain ((==_iff (tolower c) (tolower d)).0 t) r f)
                        (λ m r. (one_taken c d p s m ns r).1)
                        (Decides-suc (Matches p s) (next s) (rest s)))
                    (λ t. λ m r. by_letter is_plain t (one_taken c d p s m ns r).0))))
    where
      by_kind : c ≡ b'$' → ((c ≡ b'?') ⊎ (IsPlain c × (tolower c ≡ tolower d))) → ⊥
      by_kind q (inl e) = omega arith
      by_kind q (inr (e, t)) = e.1 q

      by_letter :
          IsPlain c
          → (tolower c == tolower d) ≡ false
          → ((c ≡ b'?') ⊎ (IsPlain c × (tolower c ≡ tolower d)))
          → ⊥
      by_letter q t (inl e) = q.0 e
      by_letter q t (inr (e, f)) = cc (t, (==_iff (tolower c) (tolower d)).1 f)

  pub match_head-Decides :
      (s : List ℕ)
      → (c ≡ b'*' → Decides (Matches (c ∷ p) s) starred)
      → Decides (Matches (c ∷ p) s) (match_head c next starred s)
  match_head-Decides [] star = match_head_nil star
  match_head-Decides (d ∷ s) star = match_head_cons d s star
