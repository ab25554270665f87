-- ===== src/Mbuf/Insert.antt =====
-- `mbuf_insert` and `mbuf_append`: every outcome, and what they do to the bytes held.
use evmongoose.Common.{
  arith, ℕ, ◌+◌, ◌^◌, ◌≤◌, ◌<◌, ◌≡◌, ◌≢◌, ap, ◌∙◌, ◌⊎◌, inl, inr, none, some, List, ◌++◌,
  append-nil, Option-cases, length, take, drop, take_all, drop_all,
}
use native.Mathlib.Decide.{dec_le}
use evmongoose.Mbuf.{Block, Allocator, Mbuf, bytes, grown, place, insert, append}
use evmongoose.Mbuf.Contents.{IsValid, contents, length-contents, place_bytes, length-place}

-- The bytes `bs` put into `c` at `off`.
abbrev pub spliced : List ℕ → ℕ → List ℕ → List ℕ
spliced c off bs = take off c ++ (bs ++ drop off c)

-- Room for `n` more bytes, or an allocator that finds it.
abbrev pub Affords : Allocator → Mbuf → ℕ → Type 0
Affords heap m n = (m.len + n ≤ m.size) ⊎ (heap.realloc m.buf (grown (m.len + n)) ≢ none)

module _ (heap : Allocator) (m : Mbuf) (off : ℕ) (bs : List ℕ) where
  -- What `mbuf_insert` leaves in the struct when it has room for the new bytes.
  abbrev in_place : Mbuf
  in_place = record m {
    buf = record { addr = m.buf.addr; bytes = place m.buf.bytes m.len off (bytes bs) };
    len = m.len + length bs;
  }

  -- What it leaves there after `realloc` returned `b`.
  abbrev moved_to : Block → Mbuf
  moved_to b = record {
    buf = record { addr = b.addr; bytes = place b.bytes m.len off (bytes bs) };
    len = m.len + length bs;
    size = grown (m.len + length bs);
  }

  module _ (v : IsValid m) (off_le : off ≤ m.len) (small : m.len + length bs < 2 ^ 52)
      (addressable : m.buf.addr + length bs < 2 ^ 64) where
    insert_room :
        m.len + length bs ≤ m.size → insert heap m off (bytes bs) ≡ some (in_place, length bs)
    unfolding insert
    insert_room h = ground (arith, v.len_fits)

    insert_oom :
        m.size < m.len + length bs
        → heap.realloc m.buf (grown (m.len + length bs)) ≡ none
        → insert heap m off (bytes bs) ≡ some (m, 0)
    unfolding insert
    insert_oom h e = ground (arith, v.len_fits)

    insert-grown :
        (b : Block)
        → m.size < m.len + length bs
        → heap.realloc m.buf (grown (m.len + length bs)) ≡ some b
        → insert heap m off (bytes bs) ≡ some (moved_to b, length bs)
    unfolding insert
    insert-grown b h e = ground (arith, v.len_fits)

    in_place-IsValid : m.len + length bs ≤ m.size → IsValid in_place
    in_place-IsValid h = record {
      len_fits = h;
      backed = length-place m.buf.bytes bs m.len off off_le (omega (arith, v.backed)) ∙ v.backed;
      in_space = v.in_space;
    }

    in_place-contents : m.len + length bs ≤ m.size → contents in_place ≡ spliced (contents m) off bs
    in_place-contents h = place_bytes m.buf.bytes bs m.len off off_le (omega (arith, v.backed))

    module _ (b : Block) (e : heap.realloc m.buf (grown (m.len + length bs)) ≡ some b) where
      room_in : m.len + length bs ≤ length b.bytes
      room_in = omega (arith, heap.sized m.buf (grown (m.len + length bs)) b e)

      moved_to-IsValid : IsValid (moved_to b)
      moved_to-IsValid = record {
        len_fits = omega arith;
        backed =
            length-place b.bytes bs m.len off off_le room_in
            ∙ heap.sized m.buf (grown (m.len + length bs)) b e;
        in_space = heap.in_space m.buf (grown (m.len + length bs)) b e;
      }

      moved_to-contents : contents (moved_to b) ≡ spliced (contents m) off bs
      moved_to-contents =
          place_bytes b.bytes bs m.len off off_le room_in
          ∙ ap (λ c. spliced c off bs)
              (heap.kept m.buf (grown (m.len + length bs)) b m.len e (omega arith)
                (omega (arith, v.len_fits, v.backed)))

    -- A valid buffer that can be grown takes all the bytes: they stand at `off`, what was held
    -- stands before and behind them, and the buffer is valid again. The offset is within the bytes
    -- held, these with the new ones are fewer than 2 ^ 52, and the new ones fit behind the block's
    -- address.
    pub insert-contents :
        Affords heap m (length bs)
        → (m' : Mbuf) × (insert heap m off (bytes bs) ≡ some (m', length bs))
          × IsValid m'
          × (contents m' ≡ spliced (contents m) off bs)
    insert-contents afford = elim (dec_le (m.len + length bs) m.size) [
      | yes h ↦ (in_place, insert_room h, in_place-IsValid h, in_place-contents h)
      | no h ↦ elim (Option-cases (heap.realloc m.buf (grown (m.len + length bs)))) [
        | inl e ↦ absurd (elim afford [ inl r ↦ h r | inr a ↦ a e ])
        | inr (b, e) ↦ (
          moved_to b,
          insert-grown b (omega arith) e,
          moved_to-IsValid b e,
          moved_to-contents b e,
        )
      ]
    ]

    -- Without room and without memory nothing changes, and 0 is returned, under the same conditions
    -- on the offset and the sizes.
    pub insert_fails : ¬ Affords heap m (length bs) → insert heap m off (bytes bs) ≡ some (m, 0)
    insert_fails no_room = elim (Option-cases (heap.realloc m.buf (grown (m.len + length bs)))) [
      | inl e ↦ elim (dec_le (m.len + length bs) m.size) [
        | yes h ↦ absurd (no_room (inl h))
        | no h ↦ insert_oom (omega arith) e
      ]
      | inr (b, e) ↦ absurd (no_room (inr (λ f. cc)))
    ]

-- A valid buffer that has room, or memory to grow, takes the bytes behind those that it holds, while
-- there are fewer than 2 ^ 52 and the new ones fit behind the block's address.
pub append-contents :
    (heap : Allocator) (m : Mbuf) (bs : List ℕ)
    → IsValid m
    → m.len + length bs < 2 ^ 52
    → m.buf.addr + length bs < 2 ^ 64
    → Affords heap m (length bs)
    → (m' : Mbuf) × (append heap m bs ≡ some (m', length bs))
      × IsValid m'
      × (contents m' ≡ contents m ++ bs)
unfolding append
append-contents heap m bs v small addressable afford =
    let (m', e, v', c) = insert-contents heap m m.len bs v (omega arith) small addressable afford in
    (m', e, v', c ∙ behind)
  where
    behind : spliced (contents m) m.len bs ≡ contents m ++ bs
    behind =
        ap (λ t. t ++ (bs ++ drop m.len (contents m)))
          (take_all m.len (contents m) (omega (arith, length-contents m v)))
        ∙ ap (λ t. contents m ++ (bs ++ t))
            (drop_all m.len (contents m) (omega (arith, length-contents m v)))
        ∙ ap (◌++◌ (contents m)) (append-nil bs)
