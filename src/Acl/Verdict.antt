-- ===== src/Acl/Verdict.antt =====
-- What `mg_check_ip_acl` answers, in terms of the networks that the entries of the list name.
use evmongoose.Common.{
  ℕ, ◌^◌, ◌<◌, ◌≡◌, refl, ap, ◌∙◌, sym, ◌⊎◌, inl, inr, bit_and, true, false, Option, Option-cases,
  Bool-cases, none, some, List, [], ◌∷◌, ◌==◌, ==_iff, if◌then◌else◌, length, All,
}
use evmongoose.Common.Int.{ℤ, pos, negsuc}
use evmongoose.Acl.{before_comma, Scanned, Rule, rule_of, check_ip_acl}
use evmongoose.Acl.Network.{Covers, bit_and-mask}
use evmongoose.Acl.Entry.{IsRule, rule_of-IsRule, IsRule-rule_of}
use evmongoose.Acl.Rules.{
  split_entries, all_rules, last_match, match_of, or_else, flag_or, verdict, check_ip_acl-verdict,
}

module _ (scan_width scan_plain : List ℕ → Option Scanned) where
  abbrev pub IsEntry : List ℕ → Type 0
  IsEntry e = (flag : ℕ) × (net : ℕ) × (w : ℕ) × IsRule scan_width scan_plain e flag net w

  abbrev pub SomeMalformed : List (List ℕ) → Type 0
  SomeMalformed [] = ⊥
  SomeMalformed (e ∷ es) = (IsEntry e → ⊥) ⊎ SomeMalformed es

  -- The sign of the last rule whose network the address is in, if there is one.
  pub data LastSays (ip : ℕ) : List (List ℕ) → Option ℕ → Type 0 where
    nothing : LastSays ip [] none
    later :
        {e : List ℕ} {es : List (List ℕ)} {f : ℕ}
        → LastSays ip es (some f)
        → LastSays ip (e ∷ es) (some f)
    covering :
        {e : List ℕ} {es : List (List ℕ)} {flag net w : ℕ}
        → IsRule scan_width scan_plain e flag net w
        → Covers ip net w
        → LastSays ip es none
        → LastSays ip (e ∷ es) (some flag)
    elsewhere :
        {e : List ℕ} {es : List (List ℕ)} {flag net w : ℕ}
        → IsRule scan_width scan_plain e flag net w
        → (Covers ip net w → ⊥)
        → LastSays ip es none
        → LastSays ip (e ∷ es) none

  abbrev pub IsVerdict : ℕ → ℕ → List (List ℕ) → ℤ → Type 0
  IsVerdict ip otherwise es o =
      ((o ≡ negsuc 0) × SomeMalformed es)
      ⊎ ((m : Option ℕ) × All IsEntry es
          × LastSays ip es m
          × (o ≡ (if flag_or m otherwise == b'+' then pos 1 else pos 0)))

  malformed : (es : List (List ℕ)) → all_rules scan_width scan_plain es ≡ false → SomeMalformed es
  malformed [] h = absurd (cc h)
  malformed (e ∷ es) h = elim (Option-cases (rule_of scan_width scan_plain e)) [
    | inl x ↦ inl (λ (flag, net, w, r).
        let y = rule_of-IsRule scan_width scan_plain e flag net w r in absurd (cc (x, y)))
    | inr (r, x) ↦
        let rest : all_rules scan_width scan_plain es ≡ false = rw x at h in inr (malformed es rest)
  ]

  -- The test of the code, on what has been read as a rule.
  covers_test :
      (ip : ℕ) (r : Rule) (e : List ℕ) (es : List (List ℕ)) (o : Option ℕ)
      → ip < 2 ^ 32
      → rule_of scan_width scan_plain e ≡ some r
      → LastSays ip es o
      → LastSays ip (e ∷ es) (or_else o (match_of ip (some r)))
  covers_test ip r e es (some f) small x l = later l
  covers_test ip r e es none small x l =
      let (w, i, width, m) = IsRule-rule_of scan_width scan_plain e r x in
      let same = ap (bit_and ip) m ∙ bit_and-mask ip w small width in
      elim (Bool-cases (r.net == bit_and ip r.mask)) [
        | inl t ↦ rw t (covering i ((==_iff _ _).0 t ∙ same) l)
        | inr t ↦ rw t (
            elsewhere i
              (λ c. let u = (==_iff r.net (bit_and ip r.mask)).1 (c ∙ sym same) in cc (t, u)) l)
      ]

  well_formed :
      (ip : ℕ) (es : List (List ℕ))
      → ip < 2 ^ 32
      → all_rules scan_width scan_plain es ≡ true
      → All IsEntry es × LastSays ip es (last_match scan_width scan_plain ip es)
  well_formed ip [] small h = (tt, nothing)
  well_formed ip (e ∷ es) small h = elim (Option-cases (rule_of scan_width scan_plain e)) [
    | inl x ↦ let y : false ≡ true = rw x at h in absurd (cc y)
    | inr (r, x) ↦
        let (entries, l) = well_formed ip es small (rw x at h) in
        let (w, i, _, _) = IsRule-rule_of scan_width scan_plain e r x in
        (
          ((r.flag, r.net, w, i), entries),
          rw x (covers_test ip r e es (last_match scan_width scan_plain ip es) small x l),
        )
  ]

  verdict-IsVerdict :
      (ip otherwise : ℕ) (es : List (List ℕ))
      → ip < 2 ^ 32
      → IsVerdict ip otherwise es (verdict scan_width scan_plain ip otherwise es)
  verdict-IsVerdict ip otherwise es small = elim (Bool-cases (all_rules scan_width scan_plain es)) [
    | inl x ↦
        let (entries, l) = well_formed ip es small x in
        inr (last_match scan_width scan_plain ip es, entries, l, rw x refl)
    | inr x ↦ inl (rw x refl, malformed es x)
  ]

  -- Where `sscanf` with the formats of parse_net sees nothing behind a comma, mg_check_ip_acl comes to an
  -- end with -1 if an entry of the list is no rule, and else with 1 or 0 as the last rule whose network
  -- the address is in has a plus or a minus. A rule is a sign and four bytes with a width up to 32, or 32
  -- where there is none; its network has zeros behind the width, and an address is in it whose first bits
  -- are those of the network. An address that no rule covers is allowed by the empty list only.
  pub check_ip_acl-IsVerdict :
      (width_stops : (s : List ℕ) → scan_width s ≡ scan_width (before_comma s))
      (plain_stops : (s : List ℕ) → scan_plain s ≡ scan_plain (before_comma s)) (acl : List ℕ)
      (ip : ℕ)
      → ip < 2 ^ 32
      → (o : ℤ) × (check_ip_acl scan_width scan_plain acl ip ≡ some o)
        × IsVerdict ip (if length acl == 0 then b'+' else b'-') (split_entries acl) o
  check_ip_acl-IsVerdict width_stops plain_stops acl ip small =
      let otherwise = if length acl == 0 then b'+' else b'-' in
      (
        verdict scan_width scan_plain ip otherwise (split_entries acl),
        check_ip_acl-verdict scan_width scan_plain width_stops plain_stops acl ip,
        verdict-IsVerdict ip otherwise (split_entries acl) small,
      )
