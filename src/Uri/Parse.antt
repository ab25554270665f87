-- ===== src/Uri/Parse.antt =====
-- `mg_parse_uri` of src/mongoose.c.
use evmongoose.Common.{
  false, ℕ, zero, suc, ◌+◌, ◌-◌, ◌*◌, ◌%◌, ◌^◌, Bool, ◌||◌, Option, none, some, List, [], ◌∷◌, leb,
  ◌==◌, if◌then◌else◌, length, take, drop,
}
use evmongoose.Str.{starts}
use evmongoose.Uri.{parse_uri_component}

pub data UriState : Type 0 where
  p_start p_scheme_or_port p_user_info p_host p_port p_rest : UriState

-- The variables that become the results.
pub record UriParts : Type 0 where
  pub scheme : List ℕ
  pub user_info : List ℕ
  pub host : List ℕ
  pub port : ℕ
  pub path : List ℕ
  pub query : List ℕ
  pub fragment : List ℕ

-- The bytes before the first of two separators, and those from it on.
unfoldable pub before : ℕ → ℕ → List ℕ → List ℕ
before a b [] = []
before a b (c ∷ p) = let more = before a b p in if c == a || c == b then [] else c ∷ more

unfoldable pub from : ℕ → ℕ → List ℕ → List ℕ
from a b [] = []
from a b (c ∷ p) = let later = from a b p in if c == a || c == b then c ∷ p else later

-- `rport *= 10; rport += *p - '0'`, for a signed `char`.
abbrev pub next_port : ℕ → ℕ → ℕ
next_port port c =
    (port * 10 + ((if leb 128 c then c + 2 ^ 32 - 256 else c + 2 ^ 32) - b'0')) % 2 ^ 32

unfoldable pub port_of : ℕ → List ℕ → ℕ
port_of port [] = port
port_of port (c ∷ p) = port_of (next_port port c) p

-- One round of the loop: the state, `p` and the variables.
pub record Round : Type 0 where
  pub state : UriState
  pub p : List ℕ
  pub parts : UriParts

-- The state at a `:` or a `/`, or at the end.
abbrev pub at_separator : UriState → UriState → List ℕ → UriState
at_separator here at_colon [] = here
at_separator here at_colon (c ∷ p) = if c == b':' then at_colon else p_rest

abbrev pub is_colon : List ℕ → Bool
is_colon [] = false
is_colon (c ∷ p) = c == b':'

-- The host begins behind an `@`.
abbrev pub skip_at : List ℕ → List ℕ
skip_at [] = []
skip_at (c ∷ p) = if c == b'@' then p else c ∷ p

abbrev pub at_sign : List ℕ → Bool
at_sign [] = false
at_sign (c ∷ p) = c == b'@'

unfoldable pub round : List ℕ → UriState → List ℕ → UriParts → Round
unfolding before from starts
round uri p_start p parts =
    let stop = from b':' b'/' p in
    record {
      state = at_separator p_start p_scheme_or_port stop;
      p = stop;
      parts = if is_colon stop then parts else record parts { host = before b':' b'/' p };
    }
round uri p_scheme_or_port p parts =
    let front = take (length uri - length p) uri in
    if starts p (b':' ∷ b'/' ∷ b'/' ∷ [])
    then record { state = p_user_info; p = drop 2 p; parts = record parts { scheme = front } }
    else record { state = p_port; p = p; parts = record parts { host = front } }
round uri p_user_info p parts =
    let user = drop 1 p in
    let stop = from b'@' b'/' user in
    if at_sign stop
    then record {
      state = p_host;
      p = stop;
      parts = record parts { user_info = before b'@' b'/' user };
    }
    else record { state = p_host; p = user; parts = record parts { user_info = [] } }
round uri p_host p parts =
    let host = skip_at p in
    let stop = from b':' b'/' host in
    record {
      state = at_separator p_host p_port stop;
      p = stop;
      parts = record parts { host = before b':' b'/' host };
    }
round uri p_port p parts =
    let digits = drop 1 p in
    let stop = from b'/' b'/' digits in
    record {
      state = at_separator p_port p_port stop;
      p = stop;
      parts = record parts { port = port_of parts.port (before b'/' b'/' digits) };
    }
round uri p_rest p parts =
    let path = parse_uri_component b'?' p in
    let query = parse_uri_component b'#' path.rest in
    let fragment = parse_uri_component 0 query.rest in
    record {
      state = p_rest;
      p = fragment.rest;
      parts = record parts { path = path.text; query = query.text; fragment = fragment.text };
    }

-- The loop, in so many rounds at most.
unfoldable pub parse_uri_loop : ℕ → List ℕ → UriState → List ℕ → UriParts → Option UriParts
parse_uri_loop rounds uri state [] parts = some parts
parse_uri_loop zero uri state (c ∷ p) parts = none
parse_uri_loop (suc rounds) uri state (c ∷ p) parts =
    let next = round uri state (c ∷ p) parts in
    parse_uri_loop rounds uri next.state next.p next.parts

abbrev pub no_parts : UriParts
no_parts = record {
  scheme = [];
  user_info = [];
  host = [];
  port = 0;
  path = [];
  query = [];
  fragment = [];
}

-- `mg_parse_uri`: a round for each state and one for each byte are enough.
unfoldable pub parse_uri : List ℕ → Option UriParts
parse_uri uri = parse_uri_loop (6 + length uri) uri p_start uri no_parts
