-- ===== src/Str/Tests.antt =====
-- Runs of the string functions, and their theorems at such runs.
use Prim.Native.Char.{code}
use Prim.Native.String.{String}
use evmongoose.Common.{arith, ℕ, ◌≡◌, refl, Option, some, List, [], ◌∷◌, ◌++◌}
use evmongoose.Common.Int.{pos, negsuc}
use evmongoose.Common.{none}
use evmongoose.Str.Pattern.{match_prefix}
use evmongoose.Str.Prefix.{IsAnswer, match_prefix-IsAnswer}
use evmongoose.Str.{strcmp, vcasecmp, to_hex, strnstr}

abbrev codes : String → List ℕ
codes String.[] = []
codes (String.◌∷◌ c s) = code c ∷ codes s

-- As a signed char, 0xff comes before the letter a.
signed_order : strcmp (0xff ∷ []) (codes "a") ≡ negsuc 0
unfolding strcmp
signed_order = refl

same_host : vcasecmp (codes "Host") (codes "hOST") ≡ pos 0
unfolding vcasecmp
same_host = refl

hex_run : to_hex (0x1f ∷ 0xa0 ∷ []) ≡ codes "1fa0" ++ (0 ∷ [])
unfolding to_hex
hex_run = refl

find_run : strnstr (codes "a--b--c") (codes "--b") ≡ some 1
unfolding strnstr
find_run = refl

-- A single star stays in its segment, and the letters' case does not matter.
matches_segment : match_prefix (codes "/API/*/x") (codes "/api/users/xyz") ≡ some (some 12)
unfolding match_prefix
matches_segment = refl

matches_no_further : match_prefix (codes "/api/*$") (codes "/api/users/7") ≡ some none
unfolding match_prefix
matches_no_further = refl

matches_suffix : match_prefix (codes "**.cgi$|**.php$") (codes "/a/b.php") ≡ some (some 8)
unfolding match_prefix
matches_suffix = refl

match_prefix-IsAnswer_example :
    (o : Option ℕ) × (match_prefix (codes "a?|b*") (codes "b7/") ≡ some o)
    × IsAnswer (codes "a?" ∷ codes "b*" ∷ []) (codes "b7/") o
match_prefix-IsAnswer_example =
    match_prefix-IsAnswer (codes "a?") (codes "b*" ∷ []) (codes "b7/")
      (omega arith, (omega arith, tt)) ((omega arith, (omega arith, tt)), tt) (omega arith)
