-- ===== src/Acl/Entry.antt =====
-- What an entry of an access list says.
use mathlib.Core.Path.{subst}
use evmongoose.Common.{
  arith, ℕ, ◌+◌, ◌*◌, ◌^◌, ◌≤◌, ◌≡◌, ◌≢◌, refl, ◌⊎◌, inl, inr, ap, true, false, ◌||◌, Option,
  Option-cases, Bool-cases, none, some, List, [], ◌∷◌, ◌==◌, if◌then◌else◌,
}
use evmongoose.Common.Int.{ℤ, pos, negsuc}
use evmongoose.Acl.{Scanned, Rule, byte_of, mask_of, net_of, parse_scanned, parse_net, rule_of}
use evmongoose.Acl.Network.{mask}

abbrev pub IsSign : ℕ → Type 0
IsSign c = (c ≡ b'+') ⊎ (c ≡ b'-')

-- Four bytes and a width that have been scanned, as the network and the width.
pub record IsNet (s : Scanned) (slash : ℤ) (net w : ℕ) : Type 0 where
  pub a : ℕ
  pub b : ℕ
  pub c : ℕ
  pub d : ℕ
  pub a_is : s.a ≡ pos a
  pub b_is : s.b ≡ pos b
  pub c_is : s.c ≡ pos c
  pub d_is : s.d ≡ pos d
  pub bytes : (a ≤ 255) × (b ≤ 255) × (c ≤ 255) × (d ≤ 255)
  pub slash_is : slash ≡ pos w
  pub width : w ≤ 32
  pub counted : s.n ≢ 0
  pub net_is : net ≡ ((a * 256 + b) * 256 + c) * 256 + d

module _ (scan_width scan_plain : List ℕ → Option Scanned) where
  -- An entry is a sign and a network, with a width or, where that cannot be scanned, of the width 32.
  pub data IsRule : List ℕ → ℕ → ℕ → ℕ → Type 0 where
    wide :
        {flag net w : ℕ} {spec : List ℕ} (s : Scanned)
        → IsSign flag
        → scan_width spec ≡ some s
        → IsNet s s.slash net w
        → IsRule (flag ∷ spec) flag net w
    single :
        {flag net w : ℕ} {spec : List ℕ} (s : Scanned)
        → IsSign flag
        → scan_width spec ≡ none
        → scan_plain spec ≡ some s
        → IsNet s (pos 32) net w
        → IsRule (flag ∷ spec) flag net w

abbrev or_rule : Rule → Option Rule → Rule
or_rule r none = r
or_rule r (some q) = q

byte_of-some : (z : ℤ) (n : ℕ) → byte_of z ≡ some n → (z ≡ pos n) × (n ≤ 255)
unfolding byte_of
byte_of-some (pos m) n e = ground (arith, e)
byte_of-some (negsuc m) n e = absurd (cc e)

byte_of-pos : (n : ℕ) → n ≤ 255 → byte_of (pos n) ≡ some n
unfolding byte_of
byte_of-pos n h = ground arith

mask_of-some :
    (z : ℤ) (m : ℕ) → mask_of z ≡ some m → (w : ℕ) × (z ≡ pos w) × (w ≤ 32) × (m ≡ mask w)
unfolding mask_of
mask_of-some (pos w) m e = (w, refl, ground (arith, e), ground (arith, e))
mask_of-some (negsuc w) m e = absurd (cc e)

mask_of-pos : (w : ℕ) → w ≤ 32 → mask_of (pos w) ≡ some (mask w)
unfolding mask_of
mask_of-pos w h = ground arith

-- The slash of a network without a width.
net_of-IsNet :
    (s : Scanned) (slash : ℤ) (net w : ℕ)
    → IsNet s slash net w
    → net_of (record s { slash = slash }) ≡ some (net, mask w)
unfolding net_of
net_of-IsNet s slash net w i =
    let counted : (s.n == 0) ≡ false = ground (arith, i.counted) in
    rw (i.a_is) (
      rw (i.b_is) (
        rw (i.c_is) (
          rw (i.d_is) (
            rw (i.slash_is) (
              rw (byte_of-pos i.a i.bytes.0) (
                rw (byte_of-pos i.b i.bytes.1) (
                  rw (byte_of-pos i.c i.bytes.2) (
                    rw (byte_of-pos i.d i.bytes.3) (
                      rw (mask_of-pos w i.width)
                        (rw counted (ap (λ n. some (n, mask w)) (omega (arith, i.net_is)))))))))))))

-- What has been scanned, if `parse_net` takes it.
IsNet-net_of :
    (s : Scanned) (slash : ℤ) (r : ℕ × ℕ)
    → net_of (record s { slash = slash }) ≡ some r
    → (w : ℕ) × IsNet s slash r.0 w × (r.1 ≡ mask w)
unfolding net_of
IsNet-net_of s slash r e = elim (Option-cases (byte_of s.a)) [
  | inl x ↦ absurd (ground (arith, e, x))
  | inr (a, x) ↦ elim (Option-cases (byte_of s.b)) [
    | inl y ↦ absurd (ground (arith, e, x, y))
    | inr (b, y) ↦ elim (Option-cases (byte_of s.c)) [
      | inl z ↦ absurd (ground (arith, e, x, y, z))
      | inr (c, z) ↦ elim (Option-cases (byte_of s.d)) [
        | inl u ↦ absurd (ground (arith, e, x, y, z, u))
        | inr (d, u) ↦ elim (Option-cases (mask_of slash)) [
          | inl v ↦ absurd (ground (arith, e, x, y, z, u, v))
          | inr (m, v) ↦
              let (a_is, a_byte) = byte_of-some s.a a x in
              let (b_is, b_byte) = byte_of-some s.b b y in
              let (c_is, c_byte) = byte_of-some s.c c z in
              let (d_is, d_byte) = byte_of-some s.d d u in
              let (w, slash_is, width, m_is) = mask_of-some slash m v in
              let read : (if s.n == 0
                    then none
                    else some (a * 2 ^ 24 + b * 2 ^ 16 + c * 2 ^ 8 + d, m))
                  ≡ some r =
                rw v at (rw u at (rw z at (rw y at (rw x at e)))) in
              (
                w,
                record {
                  a = a;
                  b = b;
                  c = c;
                  d = d;
                  a_is = a_is;
                  b_is = b_is;
                  c_is = c_is;
                  d_is = d_is;
                  bytes = (a_byte, b_byte, c_byte, d_byte);
                  slash_is = slash_is;
                  width = width;
                  counted = ground (arith, read);
                  net_is = ground (arith, read);
                },
                ground (arith, read, m_is),
              )
        ]
      ]
    ]
  ]
]

module _ (scan_width scan_plain : List ℕ → Option Scanned) where
  sign-test : (flag : ℕ) → IsSign flag → (flag == b'+' || flag == b'-') ≡ true
  sign-test flag (inl e) = ground (arith, e)
  sign-test flag (inr e) = ground (arith, e)

  -- An entry that is a rule is read as one.
  pub rule_of-IsRule :
      (e : List ℕ) (flag net w : ℕ)
      → IsRule scan_width scan_plain e flag net w
      → rule_of scan_width scan_plain e ≡ some (record { flag = flag; net = net; mask = mask w })
  unfolding rule_of parse_net parse_scanned
  rule_of-IsRule e flag net w (wide {spec = spec} s sign x i) =
      rw (sign-test flag sign) (rw x (rw (net_of-IsNet s s.slash net w i) refl))
  rule_of-IsRule e flag net w (single {spec = spec} s sign x y i) =
      rw (sign-test flag sign) (rw x (rw y (rw (net_of-IsNet s (pos 32) net w i) refl)))

  IsRule-parse_net :
      (flag : ℕ) (spec : List ℕ) (r : ℕ × ℕ)
      → IsSign flag
      → parse_net scan_width scan_plain spec ≡ some r
      → (w : ℕ) × IsRule scan_width scan_plain (flag ∷ spec) flag r.0 w × (r.1 ≡ mask w)
  unfolding parse_net parse_scanned
  IsRule-parse_net flag spec r sign e = elim (Option-cases (scan_width spec)) [
    | inr (s, x) ↦ let (w, i, m) = IsNet-net_of s s.slash r (rw x at e) in (w, wide s sign x i, m)
    | inl x ↦ elim (Option-cases (scan_plain spec)) [
      | inr (s, y) ↦
          let (w, i, m) = IsNet-net_of s (pos 32) r (rw y at (rw x at e)) in
          (w, single s sign x y i, m)
      | inl y ↦ let z : none ≡ some r = rw y at (rw x at e) in absurd (cc z)
    ]
  ]

  width_of : {e : List ℕ} {flag net w : ℕ} → IsRule scan_width scan_plain e flag net w → w ≤ 32
  width_of (wide s _ _ i) = i.width
  width_of (single s _ _ _ i) = i.width

  -- What is read as a rule is one.
  pub IsRule-rule_of :
      (e : List ℕ) (r : Rule)
      → rule_of scan_width scan_plain e ≡ some r
      → (w : ℕ) × IsRule scan_width scan_plain e r.flag r.net w × (w ≤ 32) × (r.mask ≡ mask w)
  unfolding rule_of
  IsRule-rule_of [] r e = absurd (cc e)
  IsRule-rule_of (flag ∷ spec) r e = elim (Bool-cases (flag == b'+' || flag == b'-')) [
    | inr x ↦ let z : none ≡ some r = rw x at e in absurd (cc z)
    | inl x ↦ elim (Option-cases (parse_net scan_width scan_plain spec)) [
      | inl y ↦ let z : none ≡ some r = rw y at (rw x at e) in absurd (cc z)
      | inr (n, y) ↦
          let z : some (record { flag = flag; net = n.0; mask = n.1 }) ≡ some r =
            rw y at (rw x at e) in
          let sign : IsSign flag = ground (arith, x) in
          let (w, i, m) = IsRule-parse_net flag spec n sign y in
          subst
            (λ (q : Rule).
              (w : ℕ) × IsRule scan_width scan_plain (flag ∷ spec) q.flag q.net w
              × (w ≤ 32)
              × (q.mask ≡ mask w))
            (ap (or_rule r) z) (w, i, width_of i, m)
    ]
  ]
