-- ===== src/Uri/Tests.antt =====
-- Runs of the path normalisation.
use evmongoose.Common.{arith, ℕ, ◌≡◌, refl, true, some, List, [], ◌∷◌}
use evmongoose.Str.{vcmp, memcmp}
use evmongoose.Uri.{
  parse_uri_component, chop, strip, add_component, normalize_loop, normalize_uri_path,
}
use evmongoose.Uri.Parse.{UriParts, before, from, round, parse_uri_loop, parse_uri}
use evmongoose.Uri.Ends.{parse_uri-ends}
use evmongoose.Uri.Found.{whole_uri, parse_uri-whole_uri}
use evmongoose.Uri.Normal.{IsNormal, normalize_uri_path-IsNormal}

-- "/a/../b" becomes "/b".
one_back :
    normalize_uri_path (b'/' ∷ b'a' ∷ b'/' ∷ b'.' ∷ b'.' ∷ b'/' ∷ b'b' ∷ [])
    ≡ some (true, b'/' ∷ b'b' ∷ [])
unfolding normalize_uri_path normalize_loop add_component parse_uri_component chop strip vcmp memcmp
one_back = refl

normalize_uri_path-IsNormal_example :
    (out : List ℕ) × (normalize_uri_path (b'/' ∷ b'a' ∷ b'/' ∷ b'.' ∷ b'.' ∷ b'/' ∷ b'b' ∷ [])
      ≡ some (true, out))
    × IsNormal out
normalize_uri_path-IsNormal_example =
    normalize_uri_path-IsNormal (b'a' ∷ b'/' ∷ b'.' ∷ b'.' ∷ b'/' ∷ b'b' ∷ []) (omega arith)

-- "s://u@h:8/p?q#f".
parse_uri-whole_uri_example :
    parse_uri (
      whole_uri (b's' ∷ []) (b'u' ∷ []) (b'h' ∷ []) (b'8' ∷ []) (b'p' ∷ []) (b'q' ∷ []) (b'f' ∷ []))
    ≡ some (record {
      scheme = b's' ∷ [];
      user_info = b'u' ∷ [];
      host = b'h' ∷ [];
      port = 8;
      path = b'/' ∷ b'p' ∷ [];
      query = b'q' ∷ [];
      fragment = b'f' ∷ [];
    })
parse_uri-whole_uri_example =
    parse_uri-whole_uri (b's' ∷ []) (b'u' ∷ []) (b'h' ∷ []) (b'8' ∷ []) (b'p' ∷ []) (b'q' ∷ [])
      (b'f' ∷ []) (refl, tt) (refl, tt) (refl, tt) ((omega arith, omega arith), tt) (refl, tt)
      (refl, tt) (refl, tt)

parse_uri-ends_example :
    (r : UriParts) × (parse_uri (b'h' ∷ b':' ∷ b'8' ∷ b'/' ∷ 0 ∷ b'a' ∷ []) ≡ some r)
parse_uri-ends_example = parse_uri-ends (b'h' ∷ b':' ∷ b'8' ∷ b'/' ∷ 0 ∷ b'a' ∷ [])

-- With no query, the fragment stays in the path: "h/p#f".
fragment_in_path :
    parse_uri (b'h' ∷ b'/' ∷ b'p' ∷ b'#' ∷ b'f' ∷ [])
    ≡ some (record {
      scheme = [];
      user_info = [];
      host = b'h' ∷ [];
      port = 0;
      path = b'/' ∷ b'p' ∷ b'#' ∷ b'f' ∷ [];
      query = [];
      fragment = [];
    })
unfolding parse_uri parse_uri_loop round parse_uri_component before from
fragment_in_path = refl
