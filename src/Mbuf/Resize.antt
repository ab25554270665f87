-- ===== src/Mbuf/Resize.antt =====
-- `mbuf_resize`, `mbuf_trim`, `mbuf_init` and `mbuf_free`.
use evmongoose.Common.{
  arith, ℕ, ◌≤◌, ◌<◌, ◌≡◌, ◌≢◌, refl, ◌⊎◌, inl, inr, none, some, [], Option-cases,
}
use native.Mathlib.Decide.{ℕ_discrete, dec_lt}
use evmongoose.Mbuf.{Block, null, Allocator, Mbuf, resize, init, free, trim}
use evmongoose.Mbuf.Contents.{IsValid, contents}

module _ (heap : Allocator) where
  -- What `mbuf_resize` may change: a resize keeps the bytes held, and never cuts them off.
  abbrev Kept : Mbuf → Mbuf → Type 0
  Kept m m' = IsValid m' × (contents m' ≡ contents m) × (m'.len ≡ m.len)

  resize_skip :
      (m : Mbuf) (n : ℕ) → (n ≡ m.size) ⊎ ((n < m.size) × (n < m.len)) → resize heap m n ≡ m
  unfolding resize
  resize_skip m n h = ground arith

  resize_null :
      (m : Mbuf) (n : ℕ)
      → IsValid m
      → n ≢ m.size
      → m.len ≤ n
      → heap.realloc m.buf n ≡ none
      → Kept m (resize heap m n) × ((n ≢ 0) → resize heap m n ≡ m)
  unfolding resize
  resize_null m n v ne h e = ground (arith, v.len_fits, v.backed, v.in_space)

  resize_moved :
      (m : Mbuf) (n : ℕ) (b : Block)
      → IsValid m
      → n ≢ m.size
      → m.len ≤ n
      → heap.realloc m.buf n ≡ some b
      → Kept m (resize heap m n) × ((resize heap m n).size ≡ n)
  unfolding resize
  resize_moved m n b v ne h e = ground (
    arith,
    v.len_fits,
    v.backed,
    heap.sized m.buf n b e,
    heap.in_space m.buf n b e,
    heap.kept m.buf n b m.len e,
  )

  -- With memory or without, the bytes held and their number stay as they were and the buffer
  -- stays valid; with memory, a size that is large enough for the bytes is taken.
  pub resize-contents :
      (m : Mbuf) (n : ℕ)
      → IsValid m
      → IsValid (resize heap m n)
        × (contents (resize heap m n) ≡ contents m)
        × ((resize heap m n).len ≡ m.len)
        × (m.len ≤ n → heap.realloc m.buf n ≢ none → (resize heap m n).size ≡ n)
  resize-contents m n v = elim (ℕ_discrete n m.size) [
    | yes same ↦ ground (arith, resize_skip m n (inl same), v.len_fits, v.backed, v.in_space)
    | no other ↦ elim (dec_lt n m.len) [
      | yes below ↦
          rw (resize_skip m n (inr (omega (arith, v.len_fits))))
            (v, refl, refl, λ h _. absurd (omega arith))
      | no fits ↦ elim (Option-cases (heap.realloc m.buf n)) [
        | inl e ↦
            let (k, _) = resize_null m n v other (omega arith) e in
            (k.0, k.1, k.2, λ _ a. absurd (a e))
        | inr (b, e) ↦
            let (k, sized) = resize_moved m n b v other (omega arith) e in
            (k.0, k.1, k.2, λ _ _. sized)
      ]
    ]
  ]

  -- After a trim that gets its memory there is no spare room.
  pub trim_exact :
      (m : Mbuf)
      → IsValid m
      → heap.realloc m.buf m.len ≢ none
      → IsValid (trim heap m) × (contents (trim heap m) ≡ contents m) × ((trim heap m).size ≡ m.len)
  unfolding trim
  trim_exact m v a = let (k, c, _, s) = resize-contents m m.len v in (k, c, s (omega arith) a)

  -- A new buffer is valid and empty, and so is a freed one; a new one has the size asked for if
  -- there is memory.
  pub init_empty :
      (n : ℕ)
      → IsValid (init heap n)
        × (contents (init heap n) ≡ [])
        × (heap.realloc null n ≢ none → (init heap n).size ≡ n)
  unfolding init
  init_empty n =
      let (k, c, _, s) = resize-contents (record { buf = null; len = 0; size = 0 }) n fresh in
      (k, c, s (omega arith))
    where
      fresh : IsValid (record { buf = null; len = 0; size = 0 })
      fresh = omega arith

  pub free_empty :
      (m : Mbuf) → m.buf.addr ≢ 0 → IsValid (free heap m) × (contents (free heap m) ≡ [])
  unfolding free
  free_empty m h = ground (arith, init_empty 0)
