-- ===== src/Base64/Digits.antt =====
-- The digits: the two encoders' tables agree, and the decoder's table inverts them.
use evmongoose.Common.{arith, ℕ, ◌<◌, ◌≡◌, refl}
use evmongoose.Base64.{emit_code, b64, from_b64}

pub emit_code-b64 : (v : ℕ) → v < 64 → emit_code v ≡ b64 v
unfolding emit_code b64
emit_code-b64 v h = ground arith

pub from_b64-b64 : (v : ℕ) → v < 64 → from_b64 (b64 v) ≡ v
unfolding from_b64 b64
from_b64-b64 v h = ground arith

pub from_b64_equals : from_b64 b'=' ≡ 200
unfolding from_b64
from_b64_equals = refl
