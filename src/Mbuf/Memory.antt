-- ===== src/Mbuf/Memory.antt =====
-- The C library's `memcpy` and `memmove` on the bytes of one block, and what a shift of a tail
-- followed by a write into the gap makes of them.
use evmongoose.Common.{
  ℕ, ◌+◌, ◌≤◌, ◌≡◌, refl, sym, ap, ◌∙◌, List, ◌++◌, append_assoc, arith, length, take, drop,
  length-append, length-take, length-drop, take-append-drop, take-append_exact, drop-append_exact,
}

-- `bs` written over `mem` from `off` on.
unfoldable pub overwrite : List ℕ → ℕ → List ℕ → List ℕ
overwrite mem off bs = take off mem ++ (bs ++ drop (off + length bs) mem)

-- `n` bytes moved from `src` to `dst`.
unfoldable pub memmove : List ℕ → ℕ → ℕ → ℕ → List ℕ
unfolding overwrite
memmove mem dst src n = overwrite mem dst (take n (drop src mem))

pub length-overwrite :
    (mem : List ℕ) (off : ℕ) (bs : List ℕ)
    → off + length bs ≤ length mem
    → length (overwrite mem off bs) ≡ length mem
unfolding overwrite
length-overwrite mem off bs h = omega (
  arith,
  length-append (take off mem) (bs ++ drop (off + length bs) mem),
  length-append bs (drop (off + length bs) mem),
  length-take off mem,
  length-drop (off + length bs) mem,
)

pub length-memmove :
    (mem : List ℕ) (dst src n : ℕ)
    → dst + n ≤ length mem
    → src + n ≤ length mem
    → length (memmove mem dst src n) ≡ length mem
unfolding memmove
length-memmove mem dst src n h k =
    length-overwrite mem dst (take n (drop src mem))
      (omega (arith, length-take n (drop src mem), length-drop src mem))

-- Only the middle part changes.
pub overwrite_middle :
    (p x s bs : List ℕ) (off : ℕ)
    → off ≡ length p
    → length x ≡ length bs
    → overwrite (p ++ (x ++ s)) off bs ≡ p ++ (bs ++ s)
unfolding overwrite
overwrite_middle p x s bs off h k =
    ap (λ t. t ++ (bs ++ drop (off + length bs) (p ++ (x ++ s))))
      (take-append_exact off p (x ++ s) h)
    ∙ ap (λ t. p ++ (bs ++ t))
        (ap (drop (off + length bs)) (sym (append_assoc p x s))
          ∙ drop-append_exact (off + length bs) (p ++ x) s (omega (arith, length-append p x)))

module _ (p q r : List ℕ) (off n : ℕ) (at : off ≡ length p) (room : n ≤ length r) where
  -- What stands where `q` has to go, and behind it.
  abbrev behind : List ℕ
  behind = drop n (q ++ r)

  length-behind : length q ≤ length behind
  length-behind = omega (arith, length-drop n (q ++ r), length-append q r)

  -- The tail `q` moved up by `n`.
  pub memmove_up :
      memmove (p ++ (q ++ r)) (off + n) off (length q)
      ≡ p ++ (take n (q ++ r) ++ (q ++ drop (length q) behind))
  unfolding memmove
  memmove_up =
      ap (λ t. overwrite (p ++ (q ++ r)) (off + n) (take (length q) t))
        (drop-append_exact off p (q ++ r) at)
      ∙ ap (overwrite (p ++ (q ++ r)) (off + n)) (take-append_exact (length q) q r refl)
      ∙ ap (λ t. overwrite t (off + n) q) split
      ∙ overwrite_middle (p ++ take n (q ++ r)) (take (length q) behind) (drop (length q) behind) q
          (off + n)
          (omega
            (arith, length-append p (take n (q ++ r)), length-take n (q ++ r), length-append q r))
          (omega (arith, length-take (length q) behind, length-behind))
      ∙ append_assoc p (take n (q ++ r)) (q ++ drop (length q) behind)
    where
      split :
          p ++ (q ++ r)
          ≡ (p ++ take n (q ++ r)) ++ (take (length q) behind ++ drop (length q) behind)
      split =
          ap (◌++◌ p) (sym (take-append-drop n (q ++ r)))
          ∙ sym (append_assoc p (take n (q ++ r)) behind)
          ∙ ap (◌++◌ (p ++ take n (q ++ r))) (sym (take-append-drop (length q) behind))
