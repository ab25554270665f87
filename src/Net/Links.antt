-- ===== src/Net/Links.antt =====
-- The doubly linked list of connections of a manager: `mg_add_conn` and `mg_remove_conn` on the
-- pointers, against the list of connections that the pointers stand for.
pub mod Unlink
use mathlib.Core.Path.{subst}
use evmongoose.Common.{
  arith, ℕ, ◌≡◌, ◌≢◌, refl, sym, ◌∙◌, ap, ◌⊎◌, inl, inr, Option, none, some, List, [], ◌∷◌, ◌++◌,
  ◌==◌, if◌then◌else◌, All, Option-cases, All-append,
}

-- `active_connections` of the manager, and `next` and `prev` of each connection.
pub record Links : Type 0 where
  pub active_connections : Option ℕ
  pub next : ℕ → Option ℕ
  pub prev : ℕ → Option ℕ

abbrev pub store : (ℕ → Option ℕ) → ℕ → Option ℕ → ℕ → Option ℕ
store f c v k = if c == k then v else f k

-- `if (p) p->field = v;`
abbrev pub store_at : (ℕ → Option ℕ) → Option ℕ → Option ℕ → ℕ → Option ℕ
store_at f none v k = f k
store_at f (some c) v k = store f c v k

-- The list part of `mg_add_conn`.
unfoldable pub link : ℕ → Links → Links
link c m = record {
  active_connections = some c;
  next = store m.next c m.active_connections;
  prev = store_at (store m.prev c none) m.active_connections (some c);
}

-- The list part of `mg_remove_conn`.
unfoldable pub unlink : ℕ → Links → Links
unlink c m = record {
  active_connections = elim (m.prev c) [ none ↦ m.next c | some p ↦ m.active_connections ];
  next = store (store_at m.next (m.prev c) (m.next c)) c none;
  prev = store (store_at m.prev (m.next c) (m.prev c)) c none;
}

-- From `at` on stand the connections `cs`, the first of them behind `before`.
abbrev pub Segment : Links → Option ℕ → Option ℕ → List ℕ → Type 0
Segment m before at [] = at ≡ none
Segment m before at (c ∷ cs) =
    (at ≡ some c) × (m.prev c ≡ before) × Segment m (some c) (m.next c) cs

abbrev pub NotIn : ℕ → List ℕ → Type 0
NotIn c = All (λ k. c ≢ k)

abbrev pub Distinct : List ℕ → Type 0
Distinct [] = Unit {0}
Distinct (c ∷ cs) = NotIn c cs × Distinct cs

-- The manager's list holds `cs`, in this order.
pub record Holds (m : Links) (cs : List ℕ) : Type 0 where
  pub segment : Segment m none m.active_connections cs
  pub distinct : Distinct cs

-- Two memories that agree on the connections of a segment.
abbrev pub Agree : Links → Links → List ℕ → Type 0
Agree m m' = All (λ k. (m'.next k ≡ m.next k) × (m'.prev k ≡ m.prev k))

-- A segment may begin at another name of the same place.
pub Segment-at :
    (m : Links) (before a b : Option ℕ) (cs : List ℕ)
    → a ≡ b
    → Segment m before a cs
    → Segment m before b cs
Segment-at m before a b cs e s = subst (λ t. Segment m before t cs) e s

pub Segment-Agree :
    (m m' : Links) (before at : Option ℕ) (cs : List ℕ)
    → Agree m m' cs
    → Segment m before at cs
    → Segment m' before at cs
Segment-Agree m m' before at [] a s = s
Segment-Agree m m' before at (c ∷ cs) ((n, p), a) (e, f, s) = (
  e,
  p ∙ f,
  Segment-at m' (some c) (m.next c) (m'.next c) cs (sym n)
      (Segment-Agree m m' (some c) (m.next c) cs a s),
)

pub All-map : {P Q : ℕ → Type 0} (cs : List ℕ) → ((k : ℕ) → P k → Q k) → All P cs → All Q cs
All-map [] f a = tt
All-map (c ∷ cs) f (p, a) = (f c p, All-map cs f a)

link-Agree :
    (c : ℕ) (m : Links) (cs : List ℕ)
    → NotIn c cs
    → All (λ k. m.active_connections ≢ some k) cs
    → Agree m (link c m) cs
unfolding link
link-Agree c m [] n a = tt
link-Agree c m (k ∷ cs) (n, ns) (a, rest) =
    ((ground arith, ground arith), link-Agree c m cs ns rest)

-- A connection that is not in the list becomes its head.
pub link-Holds :
    (c : ℕ) (m : Links) (cs : List ℕ) → NotIn c cs → Holds m cs → Holds (link c m) (c ∷ cs)
unfolding link
link-Holds c m [] n s = record {
  segment = unfold link in ground (arith, s.segment);
  distinct = (tt, tt);
}
link-Holds c m (d ∷ ds) (n, ns) s = record { segment = linked; distinct = ((n, ns), s.distinct) }
  where
    head : m.active_connections ≡ some d
    head = s.segment.0

    others : All (λ k. m.active_connections ≢ some k) ds
    others = All-map ds (λ k ne e. ground (arith, ne, head)) s.distinct.0

    linked : Segment (link c m) none (some c) (c ∷ d ∷ ds)
    linked =
        let to : (link c m).next c ≡ some d = unfold link in ground (arith, head) in
        let back : (link c m).prev d ≡ some c = unfold link in ground (arith, head) in
        let start : (link c m).prev c ≡ none = unfold link in ground (arith, head) in
        (
          refl,
          start,
          (
            to,
            back,
            Segment-Agree m (link c m) (some d) ((link c m).next d) ds (link-Agree c m ds ns others)
                (Segment-at m (some d) (m.next d) ((link c m).next d) ds
                  (unfold link in ground arith) s.segment.2),
          ),
        )
