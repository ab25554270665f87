-- ===== src/Net/Links/Unlink.antt =====
-- `mg_remove_conn`: the connection leaves the list that the pointers stand for.
use mathlib.Core.Path.{subst}
use evmongoose.Common.{
  arith, ℕ, ◌≡◌, ◌≢◌, sym, ◌∙◌, Option, none, some, List, [], ◌∷◌, ◌++◌, All, All-append,
}
use evmongoose.Net.Links.{
  Links, unlink, Segment, NotIn, Distinct, Holds, Agree, Segment-at, Segment-Agree, All-map,
}

-- The connection behind `c` is not one that does not stand there.
next-ne :
    (m : Links) (before at : Option ℕ) (cs : List ℕ) (k : ℕ)
    → Segment m before at cs
    → NotIn k cs
    → at ≢ some k
next-ne m before at [] k s n e = cc
next-ne m before at (c ∷ cs) k s (n, _) e = ground (arith, s.0)

-- Nor is the connection before `c`, where some stand there.
prev-ne :
    (m : Links) (before at : Option ℕ) (x c : ℕ) (xs ys : List ℕ) (k : ℕ)
    → Segment m before at (x ∷ (xs ++ (c ∷ ys)))
    → NotIn k (x ∷ xs)
    → m.prev c ≢ some k
prev-ne m before at x c [] ys k s (n, _) e = ground (arith, s.2.1)
prev-ne m before at x c (z ∷ zs) ys k s (_, n) e = prev-ne m (some x) (m.next x) z c zs ys k s.2 n e

-- What stands behind a connection of the list.
behind :
    (m : Links) (before at : Option ℕ) (xs : List ℕ) (c : ℕ) (ys : List ℕ)
    → Segment m before at (xs ++ (c ∷ ys))
    → Segment m (some c) (m.next c) ys
behind m before at [] c ys s = s.2
behind m before at (x ∷ xs) c ys s = behind m (some x) (m.next x) xs c ys s.2

-- A connection that is not the first has one before it.
prev_some :
    (m : Links) (before at : Option ℕ) (x : ℕ) (xs : List ℕ) (c : ℕ) (ys : List ℕ)
    → Segment m before at (x ∷ (xs ++ (c ∷ ys)))
    → m.prev c ≢ none
prev_some m before at x [] c ys s e = ground (arith, s.2.1)
prev_some m before at x (z ∷ zs) c ys s e = prev_some m (some x) (m.next x) z zs c ys s.2 e

NotIn-parts :
    (k : ℕ) (xs : List ℕ) (c : ℕ) (ys : List ℕ)
    → NotIn k (xs ++ (c ∷ ys))
    → NotIn k xs × (k ≢ c) × NotIn k ys
NotIn-parts k xs c ys n =
    let parts = (All-append (λ j. k ≢ j) xs (c ∷ ys)).0 n in (parts.0, parts.1.0, parts.1.1)

Distinct-drop :
    (xs : List ℕ) (c : ℕ) (ys : List ℕ) → Distinct (xs ++ (c ∷ ys)) → Distinct (xs ++ ys)
Distinct-drop [] c ys d = d.1
Distinct-drop (x ∷ xs) c ys (n, d) =
    let parts = NotIn-parts x xs c ys n in
    ((All-append (λ j. x ≢ j) xs ys).1 (parts.0, parts.2), Distinct-drop xs c ys d)

module _ (c : ℕ) (m : Links) where
  unlink_next : (k : ℕ) → c ≢ k → m.prev c ≢ some k → (unlink c m).next k ≡ m.next k
  unfolding unlink
  unlink_next k n p = ground arith

  unlink_prev : (k : ℕ) → c ≢ k → m.next c ≢ some k → (unlink c m).prev k ≡ m.prev k
  unfolding unlink
  unlink_prev k n p = ground arith

  unlink-Agree :
      (cs : List ℕ)
      → NotIn c cs
      → All (λ k. m.prev c ≢ some k) cs
      → All (λ k. m.next c ≢ some k) cs
      → Agree m (unlink c m) cs
  unlink-Agree [] n p q = tt
  unlink-Agree (k ∷ cs) (n, ns) (p, ps) (q, qs) =
      ((unlink_next k n p, unlink_prev k n q), unlink-Agree cs ns ps qs)

  -- The connections behind `c`, once `c` is gone: the first of them has `c`'s predecessor.
  behind_Segment :
      (ys : List ℕ)
      → Segment m (some c) (m.next c) ys
      → NotIn c ys
      → Distinct ys
      → All (λ k. m.prev c ≢ some k) ys
      → Segment (unlink c m) (m.prev c) (m.next c) ys
  behind_Segment [] s n d p = s
  behind_Segment (y ∷ ys) (e, f, s) (n, ns) (d, _) (p, ps) = (
    e,
    (unfold unlink in ground (arith, e, n)),
    Segment-at (unlink c m) (some y) (m.next y) ((unlink c m).next y) ys (sym (unlink_next y n p)) (
        Segment-Agree m (unlink c m) (some y) (m.next y) ys
          (unlink-Agree ys ns ps (All-map ys (λ k ne e'. ground (arith, ne, e)) d)) s),
  )

  -- The connections up to and behind `c`, which is not the first.
  unlink_Segment :
      (before at : Option ℕ) (x : ℕ) (xs ys : List ℕ)
      → Segment m before at (x ∷ (xs ++ (c ∷ ys)))
      → Distinct (x ∷ (xs ++ (c ∷ ys)))
      → Segment (unlink c m) before at (x ∷ (xs ++ ys))
  unlink_Segment before at x [] ys (e, f, (g, p, s)) ((xc, xys), (cys, d)) = (
    e,
    unlink_prev x (λ q. xc (sym q)) (next-ne m (some c) (m.next c) ys x s xys) ∙ f,
    Segment-at (unlink c m) (some x) (m.next c) ((unlink c m).next x) ys
        (unfold unlink in ground (arith, p, xc))
        (subst (λ t. Segment (unlink c m) t (m.next c) ys) p
          (behind_Segment ys s cys d (All-map ys (λ k ne q. ground (arith, p, ne)) xys))),
  )
  unlink_Segment before at x (z ∷ zs) ys (e, f, s) (nx, d) =
      let parts = NotIn-parts x (z ∷ zs) c ys nx in
      let apart : c ≢ x = λ q. parts.1 (sym q) in
      (
        e,
        unlink_prev x apart (
              next-ne m (some c) (m.next c) ys x (behind m (some x) (m.next x) (z ∷ zs) c ys s)
                parts.2)
            ∙ f,
        Segment-at (unlink c m) (some x) (m.next x) ((unlink c m).next x) (z ∷ (zs ++ ys))
            (sym (unlink_next x apart (prev-ne m (some x) (m.next x) z c zs ys x s parts.0)))
            (unlink_Segment (some x) (m.next x) z zs ys s d),
      )

-- A connection of the list, wherever it stands, leaves it, and the others keep their order.
pub unlink-Holds :
    (c : ℕ) (m : Links) (xs ys : List ℕ) → Holds m (xs ++ (c ∷ ys)) → Holds (unlink c m) (xs ++ ys)
unlink-Holds c m [] ys h = record {
  segment =
      subst (λ t. Segment (unlink c m) none t ys) head
        (subst (λ t. Segment (unlink c m) t (m.next c) ys) first
          (behind_Segment c m ys h.segment.2 h.distinct.0 h.distinct.1
            (All-map ys (λ k ne q. ground (arith, first)) h.distinct.0)));
  distinct = h.distinct.1;
}
  where
    first : m.prev c ≡ none
    first = h.segment.1

    head : m.next c ≡ (unlink c m).active_connections
    head = unfold unlink in ground (arith, first)
unlink-Holds c m (x ∷ xs) ys h = record {
  segment =
      subst (λ t. Segment (unlink c m) none t (x ∷ (xs ++ ys))) head
        (unlink_Segment c m none m.active_connections x xs ys h.segment h.distinct);
  distinct = Distinct-drop (x ∷ xs) c ys h.distinct;
}
  where
    head : m.active_connections ≡ (unlink c m).active_connections
    head =
        unfold unlink in ground (arith, prev_some m none m.active_connections x xs c ys h.segment)
