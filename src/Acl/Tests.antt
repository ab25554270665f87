-- ===== src/Acl/Tests.antt =====
-- Runs of the access list on concrete inputs, with a `sscanf` that knows three texts.
use evmongoose.Common.{
  ℕ, ◌≡◌, refl, ap, Option, none, some, List, [], ◌∷◌, ◌==◌, if◌then◌else◌, arith,
}
use evmongoose.Common.Int.{ℤ, pos}
use evmongoose.Acl.{after_comma, before_comma, Scanned, check_ip_acl}
use evmongoose.Acl.Rules.{split_entries}
use evmongoose.Acl.Verdict.{IsVerdict, check_ip_acl-IsVerdict}

-- "A" is 10.0.0.0/8, "B" is 10.1.0.0/16, each of one character here; any other text is no network.
abbrev reads_width : List ℕ → Option Scanned
reads_width [] = none
reads_width (x ∷ s) =
    if x == 65
    then some (record { a = pos 10; b = pos 0; c = pos 0; d = pos 0; slash = pos 8; n = 1 })
    else if x == 66
    then some (record { a = pos 10; b = pos 1; c = pos 0; d = pos 0; slash = pos 16; n = 1 })
    else none

abbrev scan_width : List ℕ → Option Scanned
scan_width s = reads_width (before_comma s)

-- "C" is 127.0.0.1.
abbrev reads_plain : List ℕ → Option Scanned
reads_plain [] = none
reads_plain (x ∷ s) =
    if x == 67
    then some (record { a = pos 127; b = pos 0; c = pos 0; d = pos 1; slash = pos 0; n = 1 })
    else none

abbrev scan_plain : List ℕ → Option Scanned
scan_plain s = reads_plain (before_comma s)

before_comma_idem : (s : List ℕ) → before_comma s ≡ before_comma (before_comma s)
unfolding before_comma
before_comma_idem [] = refl
before_comma_idem (c ∷ s) = ground (arith, before_comma_idem s)

-- "+A,-B"
abbrev list : List ℕ
list = 43 ∷ 65 ∷ 44 ∷ 45 ∷ 66 ∷ []

-- 10.2.0.1 is allowed, 10.1.0.1 is not.
allows_network : check_ip_acl scan_width scan_plain list 167903233 ≡ some (pos 1)
unfolding check_ip_acl before_comma after_comma
allows_network = refl

denies_subnet : check_ip_acl scan_width scan_plain list 167837697 ≡ some (pos 0)
unfolding check_ip_acl before_comma after_comma
denies_subnet = refl

check_ip_acl-IsVerdict_example :
    (o : ℤ) × (check_ip_acl scan_width scan_plain list 167837697 ≡ some o)
    × IsVerdict scan_width scan_plain 167837697 45 (split_entries list) o
check_ip_acl-IsVerdict_example =
    check_ip_acl-IsVerdict scan_width scan_plain (λ s. ap reads_width (before_comma_idem s))
      (λ s. ap reads_plain (before_comma_idem s)) list 167837697 (omega arith)
