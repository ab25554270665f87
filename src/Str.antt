-- ===== src/Str.antt =====
-- The strings of src/mongoose.c (common/mg_str.c and common/str_util.c).
--
-- A `struct mg_str` is the list of its `len` bytes; a C string is the list of its characters before
-- the NUL, so `strlen` is `length`. `char` is signed, as on the platforms that the library is built
-- for, and `tolower` is that of the C locale.
pub mod Order
pub mod Case
pub mod Hex
pub mod Find
pub mod Pattern
pub mod Matching
pub mod Heads
pub mod Prefix
mod Tests
use evmongoose.Common.{
  ℕ, zero, suc, ◌+◌, ◌-◌, ◌*◌, ◌/◌, ◌%◌, ◌^◌, ◌≤◌, ◌<◌, ◌≡◌, Bool, true, false, not, ◌&&◌, ◌||◌,
  Option, none, some, List, [], ◌∷◌, ◌++◌, ltb, leb, ◌==◌, if◌then◌else◌, length, take, drop,
  get_or, min,
}
use evmongoose.Common.Int.{ℤ, pos, negsuc, sub_ℕ, is_zero}

-- `c_strnlen` on the memory from `s` on.
unfoldable pub strnlen : List ℕ → ℕ → ℕ
strnlen s zero = 0
strnlen [] (suc maxlen) = 0
strnlen (c ∷ s) (suc maxlen) = let rest = strnlen s maxlen in if c == 0 then 0 else suc rest

-- A byte as a signed `char`, shifted by 128: the order of these is the order of the chars.
abbrev pub char_key : ℕ → ℕ
char_key b = (b + 128) % 256

unfoldable pub strcmp : List ℕ → List ℕ → ℤ
strcmp [] [] = pos 0
strcmp (x ∷ a) [] = pos 1
strcmp [] (y ∷ b) = negsuc 0
strcmp (x ∷ a) (y ∷ b) =
    let rest = strcmp a b in
    if ltb (char_key x) (char_key y)
    then negsuc 0
    else if ltb (char_key y) (char_key x)
    then pos 1
    else rest

unfoldable pub strncmp : List ℕ → List ℕ → ℕ → ℤ
unfolding strcmp
strncmp a b n =
    strcmp (if ltb n (length a) then take n a else a) (if ltb n (length b) then take n b else b)

-- The C library's `memcmp`: the sign of the first difference of two unsigned bytes.
unfoldable pub memcmp : List ℕ → List ℕ → ℕ → ℤ
memcmp a b zero = pos 0
memcmp [] b (suc n) = pos 0
memcmp (x ∷ a) [] (suc n) = pos 0
memcmp (x ∷ a) (y ∷ b) (suc n) =
    let rest = memcmp a b n in if ltb x y then negsuc 0 else if ltb y x then pos 1 else rest

-- `n1 - n2` of two `size_t`, converted to `int`.
abbrev pub length_diff : ℕ → ℕ → ℤ
length_diff n1 n2 =
    let w = (n1 + 2 ^ 64 - n2) % 2 ^ 32 in if ltb w (2 ^ 31) then pos w else negsuc (2 ^ 32 - w - 1)

unfoldable pub vcmp : List ℕ → List ℕ → ℤ
unfolding memcmp
vcmp str1 str2 =
    let n1 = length str1 in
    let n2 = length str2 in
    let r = memcmp str1 str2 (if ltb n1 n2 then n1 else n2) in
    if is_zero r then length_diff n1 n2 else r

abbrev pub tolower : ℕ → ℕ
tolower c = if leb b'A' c && leb c b'Z' then c + 32 else c

-- `mg_ncasecmp`; behind the end of a C string stands its NUL.
abbrev head_or_nul : List ℕ → ℕ
head_or_nul [] = 0
head_or_nul (c ∷ s) = c

abbrev rest_of : List ℕ → List ℕ
rest_of [] = []
rest_of (c ∷ s) = s

unfoldable pub ncasecmp : List ℕ → List ℕ → ℕ → ℤ
ncasecmp s1 s2 zero = pos 0
ncasecmp s1 s2 (suc len) =
    let diff = sub_ℕ (tolower (head_or_nul s1)) (tolower (head_or_nul s2)) in
    let rest = ncasecmp (rest_of s1) (rest_of s2) len in
    if is_zero diff && not (head_or_nul s1 == 0) then rest else diff

unfoldable pub vcasecmp : List ℕ → List ℕ → ℤ
unfolding ncasecmp
vcasecmp str1 str2 =
    let n1 = length str1 in
    let n2 = length str2 in
    let r = ncasecmp str1 str2 (if ltb n1 n2 then n1 else n2) in
    if is_zero r then length_diff n1 n2 else r

-- `hex[d]`, of the string "0123456789abcdef".
abbrev pub hex : ℕ → ℕ
hex d = if ltb d 10 then b'0' + d else b'a' + (d - 10)

-- `cs_to_hex`: what is written at `to`, the NUL included.
unfoldable pub to_hex : List ℕ → List ℕ
to_hex [] = 0 ∷ []
to_hex (b ∷ p) = hex (b / 16) ∷ hex (b % 16) ∷ to_hex p

unfoldable pub fourbit : ℕ → ℕ
fourbit ch =
    if leb b'0' ch && leb ch b'9'
    then ch - b'0'
    else if leb b'a' ch && leb ch b'f'
    then ch - b'a' + 10
    else if leb b'A' ch && leb ch b'F'
    then ch - b'A' + 10
    else 0

-- The rounds of the loop of `cs_from_hex`; memory behind the list reads as 0.
unfoldable pub from_hex_rounds : ℕ → List ℕ → List ℕ
unfolding fourbit
from_hex_rounds zero p = 0 ∷ []
from_hex_rounds (suc k) p =
    (fourbit (get_or p 0 0) * 16 + fourbit (get_or p 1 0)) ∷ from_hex_rounds k (drop 2 p)

unfoldable pub from_hex : List ℕ → ℕ → List ℕ
unfolding from_hex_rounds
from_hex p len = from_hex_rounds ((len + 1) / 2) p

-- `strncmp(s, find, strlen(find)) == 0`, for a `find` with no NUL.
unfoldable pub starts : List ℕ → List ℕ → Bool
starts s [] = true
starts [] (f ∷ find) = false
starts (c ∷ s) (f ∷ find) = c == f && starts s find

-- The loop of `c_strnstr` from position `i` on; `s` is what stands there.
unfoldable pub strnstr_from : ℕ → List ℕ → List ℕ → Option ℕ
unfolding starts
strnstr_from i [] find = none
strnstr_from i (c ∷ s) find =
    let later = strnstr_from (i + 1) s find in
    if ltb (suc (length s)) (length find)
    then none
    else if starts (c ∷ s) find
    then some i
    else later

-- `c_strnstr`: the offset of the first occurrence in the `slen` bytes of `s`.
unfoldable pub strnstr : List ℕ → List ℕ → Option ℕ
unfolding strnstr_from
strnstr s find = strnstr_from 0 s find
