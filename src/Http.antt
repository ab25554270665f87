-- ===== src/Http.antt =====
-- HTTP of src/mongoose.c (mongoose/src/http.c): requests and responses, chunked bodies, encoded
-- variables.
--
-- A buffer is the list of its bytes. What a function reads or writes outside of it is the result
-- `outside`.
pub mod Chunk
pub mod Send
pub mod Digits
pub mod Collapse
pub mod Body
pub mod Sent
pub mod Request
pub mod Prefix
pub mod Decode
pub mod Message
pub mod Headers
pub mod Named
pub mod Rows
pub mod Reading
pub mod Asked
pub mod Form
pub mod Vars
mod Tests
use evmongoose.Common.{ℕ, ◌+◌, ◌-◌, Bool, ◌&&◌, ◌||◌, leb, if◌then◌else◌}
use evmongoose.Str.{tolower}

-- `isdigit` and `isxdigit` of the C locale.
abbrev pub isdigit : ℕ → Bool
isdigit c = leb b'0' c && leb c b'9'

abbrev pub isxdigit : ℕ → Bool
isxdigit c = isdigit c || leb b'A' c && leb c b'F' || leb b'a' c && leb c b'f'

-- The value of a hexadecimal digit.
unfoldable pub hex_value : ℕ → ℕ
hex_value c = if isdigit c then c - b'0' else tolower c - b'a' + 10
