-- ===== src/Str/Find.antt =====
-- `c_strnlen` and `c_strnstr` against what they look for.
use evmongoose.Common.{
  arith, ℕ, zero, suc, ◌+◌, ◌-◌, ◌≤◌, ◌<◌, ◌≡◌, refl, true, false, ◌↔◌, Option, none, some, List,
  [], ◌∷◌, ◌++◌, length, take, drop, ltb, Bool-cases, inl, inr, length-drop, min, All,
}
use evmongoose.Str.{starts, strnstr_from, strnstr, strnlen}

-- `find` stands at the front of `s`.
pub starts_iff : (s find : List ℕ) → (starts s find ≡ true) ↔ (take (length find) s ≡ find)
unfolding starts
starts_iff s [] = (λ _. refl, λ _. refl)
starts_iff [] (f ∷ find) = ground arith
starts_iff (c ∷ s) (f ∷ find) = ground (arith, starts_iff s find)

-- The answer of a search that began at offset `i` in the string `s` that stands there: an
-- occurrence of `find` with none before it, or no occurrence.
abbrev pub FirstFrom : ℕ → List ℕ → List ℕ → Option ℕ → Type 0
FirstFrom i s find none = (j : ℕ) → j < length s → starts (drop j s) find ≡ false
FirstFrom i s find (some k) =
    (i ≤ k)
    × (k - i < length s)
    × (starts (drop (k - i) s) find ≡ true)
    × ((j : ℕ) → j < k - i → starts (drop j s) find ≡ false)

starts_short : (s find : List ℕ) → length s < length find → starts s find ≡ false
unfolding starts
starts_short s [] h = absurd (omega arith)
starts_short [] (f ∷ find) h = refl
starts_short (c ∷ s) (f ∷ find) h = ground (arith, starts_short s find)

-- A fact about the front and about each place behind it.
every_place :
    (c : ℕ) (s find : List ℕ) (n : ℕ)
    → starts (c ∷ s) find ≡ false
    → ((j : ℕ) → j < n → starts (drop j s) find ≡ false)
    → (j : ℕ) → j < suc n
    → starts (drop j (c ∷ s)) find ≡ false
every_place c s find n h k zero l = h
every_place c s find n h k (suc j) l = k j (omega arith)

FirstFrom-cons :
    (i c : ℕ) (s find : List ℕ) (r : Option ℕ)
    → starts (c ∷ s) find ≡ false
    → FirstFrom (i + 1) s find r
    → FirstFrom i (c ∷ s) find r
FirstFrom-cons i c s find none h f = every_place c s find (length s) h f
FirstFrom-cons i c s find (some k) h (le, lt, at, before) =
    let e : k - i ≡ suc (k - (i + 1)) = omega arith in
    (omega arith, omega arith, rw e at, rw e (every_place c s find (k - (i + 1)) h before))

strnstr_from-FirstFrom : (i : ℕ) (s find : List ℕ) → FirstFrom i s find (strnstr_from i s find)
unfolding strnstr_from
strnstr_from-FirstFrom i [] find = λ j h. absurd (omega arith)
strnstr_from-FirstFrom i (c ∷ s) find = elim (Bool-cases (ltb (suc (length s)) (length find))) [
  | inl short ↦ rw short (nowhere (c ∷ s) find (ground arith))
  | inr long ↦ elim (Bool-cases (starts (c ∷ s) find)) [
    | inl here ↦
        let e : i - i ≡ 0 = omega arith in
        rw (long, here) (omega arith, omega arith, rw e here, λ j h. absurd (omega arith))
    | inr later ↦
        rw (long, later)
          (FirstFrom-cons i c s find (strnstr_from (i + 1) s find) later
            (strnstr_from-FirstFrom (i + 1) s find))
  ]
]
  where
    nowhere :
        (t find : List ℕ)
        → length t < length find
        → (j : ℕ) → j < length t
        → starts (drop j t) find ≡ false
    nowhere t find h j l = starts_short (drop j t) find (omega (arith, length-drop j t))

-- `c_strnstr` finds the first occurrence of `find`, and answers NULL only where there is none.
pub strnstr_first : (s find : List ℕ) → FirstFrom 0 s find (strnstr s find)
unfolding strnstr
strnstr_first s find = strnstr_from-FirstFrom 0 s find

-- `c_strnlen` counts the characters before the first NUL, and `maxlen` of them at most.
pub strnlen_before :
    (cs rest : List ℕ) (maxlen : ℕ)
    → All (λ c. 0 < c) cs
    → strnlen (cs ++ (0 ∷ rest)) maxlen ≡ min (length cs) maxlen
unfolding strnlen
strnlen_before cs rest zero h = omega arith
strnlen_before [] rest (suc n) h = omega arith
strnlen_before (c ∷ cs) rest (suc n) (hc, h) = ground (arith, strnlen_before cs rest n h)
