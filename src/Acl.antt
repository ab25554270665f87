-- ===== src/Acl.antt =====
-- `mg_check_ip_acl` of src/mongoose.c with `parse_net`, and `mg_next_comma_list_entry`.
--
-- `sscanf` with each of the two formats of `parse_net` is a parameter: what it has read if it has made
-- every conversion, with the number of characters at the end.
use mathlib.Core.Option
use evmongoose.Common.{
  ◌>>=◌, ℕ, zero, suc, ◌+◌, ◌-◌, ◌*◌, ◌%◌, ◌^◌, bit_and, true, false, Bool, not, ◌||◌, Option, none,
  some, List, [], ◌∷◌, leb, ◌==◌, if◌then◌else◌, length, take, drop,
}
use evmongoose.Common.Int.{ℤ, pos, negsuc}
use evmongoose.Mqtt.{MgStr}
pub mod Network
pub mod Entry
pub mod Rules
pub mod Verdict
mod Tests

-- What stands before the first comma, and behind it.
unfoldable pub before_comma : List ℕ → List ℕ
before_comma [] = []
before_comma (c ∷ s) = let more = before_comma s in if c == b',' then [] else c ∷ more

unfoldable pub after_comma : List ℕ → List ℕ
after_comma [] = []
after_comma (c ∷ s) = let later = after_comma s in if c == b',' then s else later

-- `mg_next_comma_list_entry` without `eq_val`: the entry and the rest of the list.
unfoldable pub next_comma_list_entry : List ℕ → Option (MgStr × List ℕ)
next_comma_list_entry [] = none
next_comma_list_entry (c ∷ s) =
    some (record { p = c ∷ s; len = length (before_comma (c ∷ s)) }, after_comma (c ∷ s))

-- Four numbers, the width and the count of characters, as `parse_net` has them after `sscanf`.
pub record Scanned : Type 0 where
  pub a : ℤ
  pub b : ℤ
  pub c : ℤ
  pub d : ℤ
  pub slash : ℤ
  pub n : ℕ

-- A rule of the list: its sign, its network and the mask.
pub record Rule : Type 0 where
  pub flag : ℕ
  pub net : ℕ
  pub mask : ℕ

-- `isbyte`, and the number.
unfoldable pub byte_of : ℤ → Option ℕ
byte_of (pos n) = if leb n 255 then some n else none
byte_of (negsuc n) = none

-- `slash >= 0 && slash < 33`, and the mask.
unfoldable pub mask_of : ℤ → Option ℕ
mask_of (pos s) =
    if leb s 32 then some (if s == 0 then 0 else (2 ^ 32 - 1) * 2 ^ (32 - s) % 2 ^ 32) else none
mask_of (negsuc n) = none

-- The lines of `parse_net` behind `sscanf`: `*net` and `*mask`; no result if it returns 0.
unfoldable pub net_of : Scanned → Option (ℕ × ℕ)
unfolding byte_of mask_of
net_of s = do
  a ← byte_of s.a
  b ← byte_of s.b
  c ← byte_of s.c
  d ← byte_of s.d
  mask ← mask_of s.slash
  if s.n == 0 then none else some (a * 2 ^ 24 + b * 2 ^ 16 + c * 2 ^ 8 + d, mask)

-- What `parse_net` makes of the two calls, of which the second is made if the first fails.
unfoldable pub parse_scanned : Option Scanned → Option Scanned → Option (ℕ × ℕ)
unfolding net_of
parse_scanned (some s) plain = net_of s
parse_scanned none (some s) = net_of (record s { slash = pos 32 })
parse_scanned none none = none

module _ (scan_width scan_plain : List ℕ → Option Scanned) where
  -- `parse_net`; the width is 32 where it is not given.
  unfoldable pub parse_net : List ℕ → Option (ℕ × ℕ)
  unfolding parse_scanned
  parse_net spec = parse_scanned (scan_width spec) (scan_plain spec)

  -- The first lines in the loop, on what `vec.p` points to.
  unfoldable pub rule_of : List ℕ → Option Rule
  unfolding parse_net
  rule_of [] = none
  rule_of (flag ∷ spec) =
      if flag == b'+' || flag == b'-'
      then Option.map (λ r. record { flag = flag; net = r.0; mask = r.1 }) (parse_net spec)
      else none

  -- The loop, in so many rounds at most; `none` if there are no more.
  unfoldable pub check_entries : ℕ → ℕ → ℕ → List ℕ → Option ℤ
  unfolding rule_of next_comma_list_entry
  check_entries zero ip allowed acl = none
  check_entries (suc rounds) ip allowed acl = elim (next_comma_list_entry acl) [
    | none ↦ some (if allowed == b'+' then pos 1 else pos 0)
    | some e ↦ elim (rule_of (e.0).p) [
      | none ↦ some (negsuc 0)
      | some r ↦
          check_entries rounds ip (if r.net == bit_and ip r.mask then r.flag else allowed) e.1
    ]
  ]

  -- `mg_check_ip_acl`, where a list that is NULL is as an empty one.
  unfoldable pub check_ip_acl : List ℕ → ℕ → Option ℤ
  unfolding check_entries
  check_ip_acl acl ip =
      check_entries (suc (length acl)) ip (if length acl == 0 then b'+' else b'-') acl
