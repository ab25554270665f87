-- ===== src/Base64/Tests.antt =====
-- Runs of the encoders and the decoder, and their theorems at such runs.
use evmongoose.Common.{arith, ◌≡◌, refl, List, ℕ, [], ◌∷◌, ◌++◌, length}
use evmongoose.Base64.{init, update, finish, encode_text, decode, from_b64, decode_group}
use evmongoose.Base64.Stream.{stream-encode_text}
use evmongoose.Base64.RoundTrip.{decode-encode_text}

-- "user:pw" as "dXNlcjpwdw==".
abbrev user : List ℕ
user = 117 ∷ 115 ∷ 101 ∷ 114 ∷ []

abbrev password : List ℕ
password = 58 ∷ 112 ∷ 119 ∷ []

encode_run :
    encode_text (user ++ password)
    ≡ 100 ∷ 88 ∷ 78 ∷ 108 ∷ 99 ∷ 106 ∷ 112 ∷ 119 ∷ 100 ∷ 119 ∷ 61 ∷ 61 ∷ []
unfolding encode_text
encode_run = refl

-- A character that is no digit ends the decoding.
decode_run : decode (100 ∷ 88 ∷ 78 ∷ 108 ∷ 99 ∷ 33 ∷ 112 ∷ 119 ∷ []) ≡ (117 ∷ 115 ∷ 101 ∷ [], 4)
unfolding decode from_b64 decode_group
decode_run = refl

stream-encode_text_example :
    (finish (update (update init user) password)).out ≡ encode_text (user ++ password)
stream-encode_text_example = stream-encode_text user password (omega arith)

decode-encode_text_example :
    decode (encode_text (user ++ password))
    ≡ (user ++ password, length (encode_text (user ++ password)))
decode-encode_text_example = decode-encode_text (user ++ password) (omega arith)
