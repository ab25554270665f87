-- ===== src/Mbuf/Contents.antt =====
-- The buffer as the list of bytes that it holds: validity, and what each operation does to the list.
use mathlib.Core.Path.{subst}
use evmongoose.Common.{
  arith, ℕ, ◌+◌, ◌-◌, ◌^◌, ◌≤◌, ◌<◌, ◌≡◌, sym, ap, ◌∙◌, List, ◌++◌, append_assoc, length, take,
  drop, length-append, length-take, length-drop, take-append-drop, take-append_exact,
  drop-append_exact,
}
use evmongoose.Mbuf.Memory.{
  overwrite, memmove, overwrite_middle, memmove_up, length-overwrite, length-memmove,
}
use evmongoose.Mbuf.{Mbuf, bytes, place}

-- "Must be >= len" of the struct, the block that the size speaks of, and the end of that block.
pub record IsValid (m : Mbuf) : Type 0 where
  pub len_fits : m.len ≤ m.size
  pub backed : length m.buf.bytes ≡ m.size
  pub in_space : m.buf.addr + m.size < 2 ^ 64

abbrev pub contents : Mbuf → List ℕ
contents m = take m.len m.buf.bytes

pub length-contents : (m : Mbuf) → IsValid m → length (contents m) ≡ m.len
length-contents m v = omega (arith, length-take m.len m.buf.bytes, v.len_fits, v.backed)

-- `place` on a block in three parts: the contents before and behind `off`, and the spare room.
place_parts :
    (p q r bs : List ℕ) (len off : ℕ)
    → off ≡ length p
    → len ≡ length p + length q
    → length bs ≤ length r
    → take (len + length bs) (place (p ++ (q ++ r)) len off (bytes bs)) ≡ p ++ (bs ++ q)
unfolding place
place_parts p q r bs len off at total room =
    ap
      (λ k.
        take (len + length bs) (overwrite (memmove (p ++ (q ++ r)) (off + length bs) off k) off bs))
      back
    ∙ ap (λ t. take (len + length bs) (overwrite t off bs))
        (memmove_up p q r off (length bs) at room)
    ∙ ap (take (len + length bs))
        (overwrite_middle p (take (length bs) (q ++ r)) (q ++ rest) bs off at gap_length)
    ∙ ap (take (len + length bs)) regroup
    ∙ take-append_exact (len + length bs) (p ++ (bs ++ q)) rest front
  where
    rest : List ℕ
    rest = drop (length q) (drop (length bs) (q ++ r))

    back : len - off ≡ length q
    back = omega arith

    gap_length : length (take (length bs) (q ++ r)) ≡ length bs
    gap_length = omega (arith, length-take (length bs) (q ++ r), length-append q r)

    front : len + length bs ≡ length (p ++ (bs ++ q))
    front = omega (arith, length-append p (bs ++ q), length-append bs q)

    regroup : p ++ (bs ++ (q ++ rest)) ≡ (p ++ (bs ++ q)) ++ rest
    regroup = simp append_assoc

contents_parts :
    (p q r bs : List ℕ) (len off : ℕ)
    → off ≡ length p
    → len ≡ length p + length q
    → take off (take len (p ++ (q ++ r))) ++ (bs ++ drop off (take len (p ++ (q ++ r))))
      ≡ p ++ (bs ++ q)
contents_parts p q r bs len off at total =
    ap (λ t. take off t ++ (bs ++ drop off t)) held
    ∙ ap (λ t. t ++ (bs ++ drop off (p ++ q))) (take-append_exact off p q at)
    ∙ ap (λ t. p ++ (bs ++ t)) (drop-append_exact off p q at)
  where
    held : take len (p ++ (q ++ r)) ≡ p ++ q
    held =
        ap (take len) (sym (append_assoc p q r))
        ∙ take-append_exact len (p ++ q) r (omega (arith, length-append p q))

-- `place` on a block whose first `len` bytes are the contents.
module _ (mem bs : List ℕ) (len off : ℕ) (off_le : off ≤ len)
    (room : len + length bs ≤ length mem) where
  pub place_bytes :
      take (len + length bs) (place mem len off (bytes bs))
      ≡ take off (take len mem) ++ (bs ++ drop off (take len mem))
  place_bytes =
      subst
        (λ m.
          take (len + length bs) (place m len off (bytes bs))
          ≡ take off (take len m) ++ (bs ++ drop off (take len m)))
        parts
        (place_parts p q r bs len off at total spare
          ∙ sym (contents_parts p q r bs len off at total))
    where
      p : List ℕ
      p = take off mem

      q : List ℕ
      q = take (len - off) (drop off mem)

      r : List ℕ
      r = drop (len - off) (drop off mem)

      parts : p ++ (q ++ r) ≡ mem
      parts = ap (◌++◌ p) (take-append-drop (len - off) (drop off mem)) ∙ take-append-drop off mem

      at : off ≡ length p
      at = omega (arith, length-take off mem)

      total : len ≡ length p + length q
      total =
          omega (
            arith,
            length-take off mem,
            length-take (len - off) (drop off mem),
            length-drop off mem,
          )

      spare : length bs ≤ length r
      spare = omega (arith, length-drop (len - off) (drop off mem), length-drop off mem)

  pub length-place : length (place mem len off (bytes bs)) ≡ length mem
  unfolding place
  length-place =
      length-overwrite (memmove mem (off + length bs) off (len - off)) off bs (omega (arith, moved))
      ∙ moved
    where
      moved : length (memmove mem (off + length bs) off (len - off)) ≡ length mem
      moved = length-memmove mem (off + length bs) off (len - off) (omega arith) (omega arith)
