-- ===== src/Uri/Normal.antt =====
-- A normalised path has no component `.` or `..`.
use mathlib.Core.Path.{subst}
use evmongoose.Common.{
  arith, ℕ, zero, suc, ◌+◌, ◌<◌, ◌≤◌, ◌^◌, ◌≡◌, ◌≢◌, ◌⊎◌, inl, inr, refl, sym, ap, ◌∙◌, true, false,
  some, List, [], ◌∷◌, ◌++◌, length, All, All-append, append_assoc, append-nil, Bool-cases,
}
use evmongoose.Common.Int.{is_zero}
use evmongoose.Str.{vcmp}
use evmongoose.Str.Order.{vcmp-zero}
use evmongoose.Uri.{
  Component, or_slash, parse_uri_component, chop, strip, add_component, normalize_loop,
  normalize_uri_path,
}

-- A component that may stand in a normalised path.
abbrev pub IsPlain : List ℕ → Type 0
IsPlain c = All (λ b. b ≢ b'/') c × (c ≢ b'.' ∷ []) × (c ≢ b'.' ∷ b'.' ∷ [])

-- Components, each with a slash behind it.
abbrev pub join : List (List ℕ) → List ℕ
join [] = []
join (c ∷ cs) = c ++ (b'/' ∷ join cs)

join-append : (cs ds : List (List ℕ)) → join (cs ++ ds) ≡ join cs ++ join ds
join-append [] ds = refl
join-append (c ∷ cs) ds =
    ap (λ t. c ++ (b'/' ∷ t)) (join-append cs ds) ∙ sym (append_assoc c (b'/' ∷ join cs) (join ds))

strip_plain : (c : List ℕ) → All (λ b. b ≢ b'/') c → strip c ≡ []
unfolding strip
strip_plain [] h = refl
strip_plain (b ∷ c) (n, h) = ground (arith, strip_plain c h)

strip-append : (d s : List ℕ) → strip (d ++ (b'/' ∷ s)) ≡ d ++ (b'/' ∷ strip s)
unfolding strip
strip-append [] [] = refl
strip-append [] (b ∷ s) = ground arith
strip-append (b ∷ []) s = ground (arith, strip-append [] s)
strip-append (b ∷ c ∷ d) s = ground (arith, strip-append (c ∷ d) s)

-- Without its last component a path ends at the slash before it.
strip-join :
    (cs : List (List ℕ)) (c : List ℕ) → All (λ b. b ≢ b'/') c → strip (join cs ++ c) ≡ join cs
strip-join [] c h = strip_plain c h
strip-join (d ∷ cs) c h =
    ap strip (append_assoc d (b'/' ∷ join cs) c)
    ∙ strip-append d (join cs ++ c)
    ∙ ap (λ t. d ++ (b'/' ∷ t)) (strip-join cs c h)

chop_slash : (c : ℕ) (out : List ℕ) → chop (c ∷ (out ++ (b'/' ∷ []))) ≡ c ∷ out
unfolding chop
chop_slash c [] = ground arith
chop_slash c (b ∷ []) = ground arith
chop_slash c (b ∷ a ∷ out) = ap (λ t. c ∷ t) (chop_slash b (a ∷ out))

length-parse_uri_component :
    (sep c : ℕ) (s : List ℕ) → length (parse_uri_component sep (c ∷ s)).rest ≤ length s
unfolding parse_uri_component
length-parse_uri_component sep c [] = ground arith
length-parse_uri_component sep c (b ∷ s) = ground (arith, length-parse_uri_component sep b s)

-- The component has no slash, and its chunk ends in one unless nothing follows.
parse_component_parts :
    (s : List ℕ)
    → let c = parse_uri_component b'/' s in
      All (λ b. b ≢ b'/') c.text
      × ((c.chunk ≡ c.text ++ (b'/' ∷ [])) ⊎ ((c.chunk ≡ c.text) × (c.rest ≡ [])))
unfolding parse_uri_component
parse_component_parts [] = (tt, inr (refl, refl))
parse_component_parts (b ∷ s) = ground (arith, parse_component_parts s)

length-text : (s : List ℕ) → length (parse_uri_component b'/' s).text ≤ length s
unfolding parse_uri_component
length-text [] = ground arith
length-text (b ∷ s) = ground (arith, length-text s)

last_cases :
    (cs : List (List ℕ)) → (cs ≡ []) ⊎ ((ds : List (List ℕ)) × (c : List ℕ) × (cs ≡ ds ++ (c ∷ [])))
last_cases [] = inl refl
last_cases (d ∷ cs) = elim (last_cases cs) [
  | inl e ↦ inr ([], d, ap (◌∷◌ d) e)
  | inr (ds, c, e) ↦ inr (d ∷ ds, c, ap (◌∷◌ d) e)
]

nil-IsPlain : IsPlain []
nil-IsPlain = (tt, (λ e. cc), (λ e. cc))

slash_only : strip (chop (b'/' ∷ [])) ≡ b'/' ∷ []
unfolding strip chop
slash_only = refl

back_from :
    (ds : List (List ℕ)) (c out : List ℕ)
    → All IsPlain ds
    → All (λ b. b ≢ b'/') c
    → out ≡ join ds ++ c
    → (es : List (List ℕ)) × All IsPlain es × (strip (chop (out ++ (b'/' ∷ []))) ≡ join es)
back_from ds c [] hd hc e = ([] ∷ [], (nil-IsPlain, tt), slash_only)
back_from ds c (x ∷ out) hd hc e = (ds, hd, ap strip (chop_slash x out ∙ e) ∙ strip-join ds c hc)

nothing_to_strip : strip (chop []) ≡ []
unfolding strip chop
nothing_to_strip = refl

-- Going back by one component leaves a normalised path.
back :
    (cs : List (List ℕ))
    → All IsPlain cs
    → (ds : List (List ℕ)) × All IsPlain ds × (strip (chop (join cs)) ≡ join ds)
back cs h = elim (last_cases cs) [
  | inl e ↦ ([], tt, ap (λ x. strip (chop (join x))) e ∙ nothing_to_strip)
  | inr (ds, c, e) ↦
      let parts = (All-append IsPlain ds (c ∷ [])).0 (subst (All IsPlain) e h) in
      let laid_out : join cs ≡ (join ds ++ c) ++ (b'/' ∷ []) =
        ap join e ∙ join-append ds (c ∷ []) ∙ sym (append_assoc (join ds) c (b'/' ∷ [])) in
      let (es, plain, e') = back_from ds c (join ds ++ c) parts.0 parts.1.0.0 refl in
      (es, plain, ap (λ x. strip (chop x)) laid_out ∙ e')
]

-- Components with a slash behind each, and a last one without.
abbrev pub IsNormal : List ℕ → Type 0
IsNormal out =
    (cs : List (List ℕ)) × (c : List ℕ) × All IsPlain cs × IsPlain c × (out ≡ join cs ++ c)

not_dots :
    (t z : List ℕ) → length t < 2 ^ 32 → length z < 2 ^ 32 → is_zero (vcmp t z) ≡ false → t ≢ z
not_dots t z h k e same =
    let zero_answer = (vcmp-zero t z h k).1 same in ground (arith, e, zero_answer)

-- A round leaves a normalised path with a slash at its end, or ends the loop with a normalised one.
add_component_cases :
    (n : Component) (out : List ℕ) (cs : List (List ℕ))
    → length n.text < 2 ^ 32
    → All IsPlain cs
    → out ≡ join cs
    → All (λ b. b ≢ b'/') n.text
    → (n.chunk ≡ n.text ++ (b'/' ∷ [])) ⊎ ((n.chunk ≡ n.text) × (n.rest ≡ []))
    → ((ds : List (List ℕ)) × All IsPlain ds × (add_component n out ≡ join ds))
      ⊎ ((n.rest ≡ []) × IsNormal (add_component n out))
unfolding add_component
add_component_cases n out cs l plain e noslash shape =
    elim (Bool-cases (is_zero (vcmp n.text (b'.' ∷ [])))) [
      | inl dot ↦ inl (cs, plain, rw dot e)
      | inr no_dot ↦ elim (Bool-cases (is_zero (vcmp n.text (b'.' ∷ b'.' ∷ [])))) [
        | inl dots ↦
            let (ds, plain', e') = back cs plain in
            inl (ds, plain', rw no_dot (rw dots (ap (λ x. strip (chop x)) e ∙ e')))
        | inr no_dots ↦ elim shape [
          | inl ended ↦ inl (
            cs ++ (n.text ∷ []),
            (All-append IsPlain cs (n.text ∷ [])).1 (plain, (kept no_dot no_dots, tt)),
            rw no_dot (
                rw no_dots (
                  rw ended (
                    ap (λ x. x ++ (n.text ++ (b'/' ∷ []))) e
                    ∙ sym (join-append cs (n.text ∷ []))))),
          )
          | inr (last, done) ↦ inr (
            done,
            (
              cs,
              n.text,
              plain,
              kept no_dot no_dots,
              rw no_dot (rw no_dots (rw last (ap (λ x. x ++ n.text) e))),
            ),
          )
        ]
      ]
    ]
  where
    kept :
        is_zero (vcmp n.text (b'.' ∷ [])) ≡ false
        → is_zero (vcmp n.text (b'.' ∷ b'.' ∷ [])) ≡ false
        → IsPlain n.text
    kept p q = (
      noslash,
      not_dots n.text (b'.' ∷ []) l (omega arith) p,
      not_dots n.text (b'.' ∷ b'.' ∷ []) l (omega arith) q,
    )

loop-IsNormal :
    (rounds : ℕ) (s out : List ℕ) (cs : List (List ℕ))
    → length s ≤ rounds
    → length s < 2 ^ 32
    → All IsPlain cs
    → out ≡ join cs
    → (res : List ℕ) × (normalize_loop rounds s out ≡ some res) × IsNormal res
unfolding normalize_loop
loop-IsNormal rounds [] out cs h l plain e =
    (out, refl, (cs, [], plain, nil-IsPlain, e ∙ sym (append-nil (join cs))))
loop-IsNormal zero (c ∷ s) out cs h l plain e = absurd (omega arith)
loop-IsNormal (suc rounds) (c ∷ s) out cs h l plain e =
    let short = length-parse_uri_component b'/' c s in
    let parts = parse_component_parts (c ∷ s) in
    elim (add_component_cases next out cs (omega (arith, length-text (c ∷ s))) plain e parts.0
      parts.1) [
        | inl (ds, plain', e') ↦
            loop-IsNormal rounds next.rest (add_component next out) ds (omega (arith, short))
              (omega (arith, short)) plain' e'
        | inr (done, normal) ↦ (
          add_component next out,
          ap (λ r. normalize_loop rounds r (add_component next out)) done,
          normal,
        )
      ]
  where
    next : Component
    next = parse_uri_component b'/' (c ∷ s)

or_slash-IsNormal : (out : List ℕ) → IsNormal out → IsNormal (or_slash out)
or_slash-IsNormal [] n = ([] ∷ [], [], (nil-IsPlain, tt), nil-IsPlain, refl)
or_slash-IsNormal (c ∷ out) n = n

-- A path that begins with a slash is always normalised, in as many rounds as it has bytes at most,
-- and what comes out is a list of components none of which is `.` or `..`. The path is shorter
-- than 2 ^ 32.
pub normalize_uri_path-IsNormal :
    (s : List ℕ)
    → length s + 1 < 2 ^ 32
    → (out : List ℕ) × (normalize_uri_path (b'/' ∷ s) ≡ some (true, out)) × IsNormal out
unfolding normalize_uri_path
normalize_uri_path-IsNormal s h =
    let (out, e, normal) =
      loop-IsNormal (suc (length s)) (b'/' ∷ s) [] [] (omega arith) (omega arith) tt refl in
    (or_slash out, rw e refl, or_slash-IsNormal out normal)
