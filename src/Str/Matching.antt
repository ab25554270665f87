-- ===== src/Str/Matching.antt =====
-- What a pattern of `mg_match_prefix` matches.
use mathlib.Core.Option
use mathlib.Core.Path.{subst}
use evmongoose.Common.{
  arith, ℕ, zero, suc, ◌+◌, ◌≤◌, ◌≡◌, ◌≢◌, refl, inl, inr, false, Option, none, some, List, [], ◌∷◌,
  ◌==◌, ==_iff, Bool-cases, length, take, drop, All,
}
use evmongoose.Str.{tolower}
use evmongoose.Str.Pattern.{segment_len, try_lens, behind_star}

-- A character that stands for itself.
abbrev pub IsPlain : ℕ → Type 0
IsPlain c = (c ≢ b'?') × (c ≢ b'$') × (c ≢ b'*')

abbrev pub NotStar : List ℕ → Type 0
NotStar [] = Unit
NotStar (d ∷ p) = d ≢ b'*'

abbrev pub NoSlash : ℕ → Type 0
NoSlash c = c ≢ b'/'

-- A pattern without a bar matches the first so many characters of a string.
pub data Matches : List ℕ → List ℕ → ℕ → Type 0 where
  done : {s : List ℕ} {m : ℕ} → m ≡ 0 → Matches [] s m
  any_one :
      {c d : ℕ} {p s : List ℕ} {m : ℕ} (n : ℕ)
      → c ≡ b'?'
      → Matches p s n
      → m ≡ suc n
      → Matches (c ∷ p) (d ∷ s) m
  at_end : {c : ℕ} {p : List ℕ} {m : ℕ} → c ≡ b'$' → m ≡ 0 → Matches (c ∷ p) [] m
  segment :
      {c : ℕ} {p s : List ℕ} {m : ℕ} (k n : ℕ)
      → c ≡ b'*'
      → NotStar p
      → k ≤ length s
      → All NoSlash (take k s)
      → Matches p (drop k s) n
      → m ≡ k + n
      → Matches (c ∷ p) s m
  any_many :
      {c d : ℕ} {p s : List ℕ} {m : ℕ} (k n : ℕ)
      → c ≡ b'*'
      → d ≡ b'*'
      → k ≤ length s
      → Matches p (drop k s) n
      → m ≡ k + n
      → Matches (c ∷ d ∷ p) s m
  plain :
      {c d : ℕ} {p s : List ℕ} {m : ℕ} (n : ℕ)
      → IsPlain c
      → tolower c ≡ tolower d
      → Matches p s n
      → m ≡ suc n
      → Matches (c ∷ p) (d ∷ s) m

-- The loop of a single star counts to the next slash, or to the end.
pub segment_len-fits :
    (k : ℕ) (s : List ℕ) → k ≤ segment_len s → (k ≤ length s) × All NoSlash (take k s)
unfolding segment_len
segment_len-fits zero s h = (omega arith, tt)
segment_len-fits (suc k) [] h = absurd (omega arith)
segment_len-fits (suc k) (c ∷ s) h = elim (Bool-cases (c == b'/')) [
  | inl x ↦ absurd (ground (arith, x))
  | inr x ↦
      let (le, free) = segment_len-fits k s (ground (arith, x)) in
      (omega (arith, le), (ground (arith, x), free))
]

pub segment_len-most :
    (k : ℕ) (s : List ℕ) → k ≤ length s → All NoSlash (take k s) → k ≤ segment_len s
unfolding segment_len
segment_len-most zero s h free = omega arith
segment_len-most (suc k) [] h free = absurd (omega arith)
segment_len-most (suc k) (c ∷ s) h (f, free) =
    let le = segment_len-most k s (omega arith) free in
    let x : (c == b'/') ≡ false = ground (arith, f) in ground (arith, x, le)

-- A result is a match, of no characters only if there is no other, or there is no match.
abbrev pub Decides : (ℕ → Type 0) → Option ℕ → Type 0
Decides R (some n) = R n × (n ≡ 0 → (m : ℕ) → R m → m ≡ 0)
Decides R none = (m : ℕ) → R m → ⊥

pub Decides-change :
    (R S : ℕ → Type 0) (o : Option ℕ)
    → ((m : ℕ) → R m → S m)
    → ((m : ℕ) → S m → R m)
    → Decides R o
    → Decides S o
Decides-change R S none f g h = λ m s. h m (g m s)
Decides-change R S (some n) f g h = (f n h.0, λ e m s. h.1 e m (g m s))

abbrev pub OneMore : (ℕ → Type 0) → ℕ → Type 0
OneMore R m = (n : ℕ) × R n × (m ≡ suc n)

pub Decides-suc :
    (R : ℕ → Type 0) (o : Option ℕ) → Decides R o → Decides (OneMore R) (Option.map suc o)
Decides-suc R none h = λ m (n, r, e). h n r
Decides-suc R (some n) h = ((n, h.0, refl), λ e. absurd (omega arith))

-- Some number up to `len` of characters, and a match of the rest behind them.
abbrev pub Behind : (List ℕ → ℕ → Type 0) → List ℕ → ℕ → ℕ → Type 0
Behind R s len m = (k : ℕ) × (n : ℕ) × (k ≤ len) × R (drop k s) n × (m ≡ k + n)

move_to :
    (R : List ℕ → ℕ → Type 0) (s : List ℕ) (j k m n : ℕ)
    → j ≡ k
    → m ≡ n
    → R (drop j s) m
    → R (drop k s) n
move_to R s j k m n e f r = subst (R (drop k s)) f (subst (λ i. R (drop i s) m) e r)

try_next-Decides :
    (R : List ℕ → ℕ → Type 0) (s : List ℕ) (len : ℕ) (o rest : Option ℕ)
    → Decides (R (drop (suc len) s)) o
    → Decides (Behind R s len) rest
    → Decides (Behind R s (suc len)) (elim o [ some res ↦ some (suc len + res) | none ↦ rest ])
try_next-Decides R s len (some res) rest h later =
    ((suc len, res, omega arith, h.0, refl), λ e. absurd (omega arith))
try_next-Decides R s len none rest h later =
    Decides-change (Behind R s len) (Behind R s (suc len)) rest
      (λ m (k, n, le, r, e). (k, n, omega arith, r, e))
      (λ m (k, n, le, r, e). elim (Bool-cases (k == suc len)) [
        | inl q ↦ absurd (h n (move_to R s k (suc len) n n ((==_iff k (suc len)).0 q) refl r))
        | inr q ↦ (k, n, ground arith, r, e)
      ])
      later

try_lens-Decides :
    (R : List ℕ → ℕ → Type 0) (next : List ℕ → Option ℕ) (s : List ℕ) (len : ℕ)
    → ((t : List ℕ) → Decides (R t) (next t))
    → Decides (Behind R s len) (try_lens next s len)
unfolding try_lens
try_lens-Decides R next s zero h =
    Decides-change (R s) (Behind R s 0) (next s) (λ m r. (0, m, omega arith, r, omega arith))
      (λ m (k, n, le, r, e). move_to R s k 0 n m (omega arith) (omega arith) r) (h s)
try_lens-Decides R next s (suc len) h =
    try_next-Decides R s len (next (drop (suc len) s)) (try_lens next s len) (h (drop (suc len) s))
      (try_lens-Decides R next s len h)

-- Nothing follows the stars, or something does.
pub behind_star-Decides :
    (p : List ℕ) (next : List ℕ → Option ℕ) (s : List ℕ) (len : ℕ)
    → ((t : List ℕ) → Decides (Matches p t) (next t))
    → Decides (Behind (Matches p) s len) (behind_star p next s len)
unfolding behind_star
behind_star-Decides [] next s len h = (
  (len, 0, omega arith, done refl, omega arith),
  λ e m (k, n, le, r, f). empty k n m len r e le f,
)
  where
    empty : (k n m len : ℕ) → Matches [] (drop k s) n → len ≡ 0 → k ≤ len → m ≡ k + n → m ≡ 0
    empty k n m len (done z) e le f = omega arith
behind_star-Decides (c ∷ p) next s len h = try_lens-Decides (Matches (c ∷ p)) next s len h
