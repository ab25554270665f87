-- ===== src/Acl/Rules.antt =====
-- The last rule of an access list that covers an address decides on it.
use mathlib.Core.Logic.{inl, inr}
use evmongoose.Common.{
  arith, ℕ, zero, suc, ◌≤◌, ◌<◌, ◌≡◌, refl, sym, ap, ◌∙◌, bit_and, Bool, true, false, Option,
  Option-cases, none, some, List, [], ◌∷◌, ◌==◌, ◌&&◌, if◌then◌else◌, length,
}
use evmongoose.Common.Int.{ℤ, pos, negsuc}
use evmongoose.Acl.{
  before_comma, after_comma, next_comma_list_entry, Scanned, Rule, parse_net, rule_of,
  check_entries, check_ip_acl,
}

-- The entries of a list; nothing follows a comma at its end.
abbrev cons_head : ℕ → List (List ℕ) → List (List ℕ)
cons_head c [] = (c ∷ []) ∷ []
cons_head c (e ∷ es) = (c ∷ e) ∷ es

abbrev pub split_entries : List ℕ → List (List ℕ)
split_entries [] = []
split_entries (c ∷ s) = if c == b',' then [] ∷ split_entries s else cons_head c (split_entries s)

split_entries-cons :
    (c : ℕ) (s : List ℕ)
    → split_entries (c ∷ s) ≡ before_comma (c ∷ s) ∷ split_entries (after_comma (c ∷ s))
unfolding before_comma after_comma
split_entries-cons c [] = ground arith
split_entries-cons c (d ∷ s) = ground (arith, split_entries-cons d s)

after_comma_shorter : (c : ℕ) (s : List ℕ) → length (after_comma (c ∷ s)) ≤ length s
unfolding after_comma
after_comma_shorter c [] = ground arith
after_comma_shorter c (d ∷ s) = ground (arith, after_comma_shorter d s)

-- What a rule says of an address, if it covers it.
abbrev pub match_of : ℕ → Option Rule → Option ℕ
match_of ip none = none
match_of ip (some r) = if r.net == bit_and ip r.mask then some r.flag else none

abbrev pub is_rule : Option Rule → Bool
is_rule none = false
is_rule (some r) = true

abbrev pub or_else : Option ℕ → Option ℕ → Option ℕ
or_else none o = o
or_else (some f) o = some f

abbrev pub flag_or : Option ℕ → ℕ → ℕ
flag_or none otherwise = otherwise
flag_or (some f) otherwise = f

abbrev pub answer : Bool → ℕ → ℤ
answer all flag = if all then if flag == b'+' then pos 1 else pos 0 else negsuc 0

-- The two calls of `sscanf`.
module _ (scan_width scan_plain : List ℕ → Option Scanned) where
  -- The sign of the last rule that covers the address.
  abbrev pub last_match : ℕ → List (List ℕ) → Option ℕ
  last_match ip [] = none
  last_match ip (e ∷ es) =
      or_else (last_match ip es) (match_of ip (rule_of scan_width scan_plain e))

  abbrev pub all_rules : List (List ℕ) → Bool
  all_rules [] = true
  all_rules (e ∷ es) = is_rule (rule_of scan_width scan_plain e) && all_rules es

  -- 1 or 0 by the last rule that covers the address, or by `otherwise`; -1 if an entry is no rule.
  abbrev pub verdict : ℕ → ℕ → List (List ℕ) → ℤ
  verdict ip otherwise es = answer (all_rules es) (flag_or (last_match ip es) otherwise)

  flag_or-match :
      (m : Option ℕ) (ip otherwise : ℕ) (r : Rule)
      → flag_or m (if r.net == bit_and ip r.mask then r.flag else otherwise)
        ≡ flag_or (or_else m (match_of ip (some r))) otherwise
  flag_or-match none ip otherwise r = ground arith
  flag_or-match (some f) ip otherwise r = refl

  verdict-cons :
      (ip otherwise : ℕ) (e : List ℕ) (es : List (List ℕ)) (r : Rule)
      → rule_of scan_width scan_plain e ≡ some r
      → verdict ip (if r.net == bit_and ip r.mask then r.flag else otherwise) es
        ≡ verdict ip otherwise (e ∷ es)
  verdict-cons ip otherwise e es r q =
      rw q (ap (answer (all_rules es)) (flag_or-match (last_match ip es) ip otherwise r))

  module _ (width_stops : (s : List ℕ) → scan_width s ≡ scan_width (before_comma s))
      (plain_stops : (s : List ℕ) → scan_plain s ≡ scan_plain (before_comma s)) where
    parse_net-before_comma :
        (s : List ℕ)
        → parse_net scan_width scan_plain s ≡ parse_net scan_width scan_plain (before_comma s)
    unfolding parse_net
    parse_net-before_comma s = rw (width_stops s, parse_net) (rw (plain_stops s, parse_net) refl)

    rule_of-before_comma :
        (c : ℕ) (s : List ℕ)
        → rule_of scan_width scan_plain (c ∷ s)
          ≡ rule_of scan_width scan_plain (before_comma (c ∷ s))
    unfolding rule_of before_comma
    rule_of-before_comma c s = ground (arith, parse_net-before_comma s)

    check_entries-verdict :
        (rounds ip allowed : ℕ) (acl : List ℕ)
        → length acl < rounds
        → check_entries scan_width scan_plain rounds ip allowed acl
          ≡ some (verdict ip allowed (split_entries acl))
    unfolding check_entries next_comma_list_entry
    check_entries-verdict zero ip allowed acl h = absurd (omega arith)
    check_entries-verdict (suc rounds) ip allowed [] h = refl
    check_entries-verdict (suc rounds) ip allowed (c ∷ s) h =
        let e = before_comma (c ∷ s) in
        let es = split_entries (after_comma (c ∷ s)) in
        let go : Option Rule → Option ℤ = λ o. elim o [
          | none ↦ some (negsuc 0)
          | some r ↦
              check_entries scan_width scan_plain rounds ip
                (if r.net == bit_and ip r.mask then r.flag else allowed) (after_comma (c ∷ s))
        ] in
        let entries : some (verdict ip allowed (e ∷ es))
            ≡ some (verdict ip allowed (split_entries (c ∷ s))) =
          ap (λ all. some (verdict ip allowed all)) (sym (split_entries-cons c s)) in
        ap go (rule_of-before_comma c s)
        ∙ elim (Option-cases (rule_of scan_width scan_plain e))
            as (λ _. go (rule_of scan_width scan_plain e) ≡ some (verdict ip allowed (e ∷ es))) [
              | inl q ↦
                  ap go q
                  ∙ ap
                      (λ o. some (
                        answer (is_rule o && all_rules es)
                          (flag_or (or_else (last_match ip es) (match_of ip o)) allowed)))
                      (sym q)
              | inr (r, q) ↦
                  ap go q
                  ∙ check_entries-verdict rounds ip
                      (if r.net == bit_and ip r.mask then r.flag else allowed) (after_comma (c ∷ s))
                      (omega (arith, after_comma_shorter c s))
                  ∙ ap some (verdict-cons ip allowed e es r q)
            ]
        ∙ entries

    -- The check of a list in terms of its entries.
    pub check_ip_acl-verdict :
        (acl : List ℕ) (ip : ℕ)
        → check_ip_acl scan_width scan_plain acl ip
          ≡ some (verdict ip (if length acl == 0 then b'+' else b'-') (split_entries acl))
    unfolding check_ip_acl
    check_ip_acl-verdict acl ip =
        check_entries-verdict (suc (length acl)) ip (if length acl == 0 then b'+' else b'-') acl
          (omega arith)
