-- ===== src/Mbuf/Remove.antt =====
-- `mbuf_remove`, and the buffer as a queue of bytes.
use evmongoose.Common.{
  arith, ℕ, ◌-◌, ◌≤◌, ◌<◌, ◌≡◌, sym, ◌∙◌, ◌⊎◌, inl, inr, List, leb, if◌then◌else◌, length, take,
  drop, length-take, length-drop, take-append_exact, drop-take,
}
use native.Mathlib.Decide.{dec_le, dec_lt}
use evmongoose.Mbuf.{Mbuf, remove}
use evmongoose.Mbuf.Memory.{overwrite, memmove, length-memmove}
use evmongoose.Mbuf.Contents.{IsValid, contents}

-- Moving the bytes behind the first `n` to the front.
memmove_down :
    (mem : List ℕ) (n len : ℕ)
    → n ≤ len
    → len ≤ length mem
    → take (len - n) (memmove mem 0 n (len - n)) ≡ drop n (take len mem)
unfolding memmove overwrite
memmove_down mem n len h k =
    take-append_exact (len - n) (take (len - n) (drop n mem)) _
      (omega (arith, length-take (len - n) (drop n mem), length-drop n mem))
    ∙ sym (drop-take n len mem)

remove_some :
    (m : Mbuf) (n : ℕ)
    → IsValid m
    → 0 < n
    → n ≤ m.len
    → IsValid (remove m n) × (contents (remove m n) ≡ drop n (contents m))
unfolding remove
remove_some m n v pos h = (
  ground (arith, v.len_fits, v.backed, v.in_space, length-memmove m.buf.bytes 0 n (m.len - n)),
  ground (arith, memmove_down m.buf.bytes n m.len h, v.len_fits, v.backed),
)

remove_none : (m : Mbuf) (n : ℕ) → (n ≡ 0) ⊎ (m.len < n) → remove m n ≡ m
unfolding remove
remove_none m n h = ground arith

-- Up to `len` bytes leave at the front, and the buffer stays valid; a request for more changes
-- nothing.
pub remove-contents :
    (m : Mbuf) (n : ℕ)
    → IsValid m
    → IsValid (remove m n)
      × (contents (remove m n) ≡ (if leb n m.len then drop n (contents m) else contents m))
remove-contents m n v = elim (dec_lt 0 n) [
  | yes pos ↦ elim (dec_le n m.len) [
    | yes h ↦ ground (arith, remove_some m n v)
    | no more ↦ ground (arith, remove_none m n (inr (omega arith)))
  ]
  | no none_asked ↦ ground (arith, remove_none m n (inl (omega arith)))
]
