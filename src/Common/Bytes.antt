-- ===== src/Common/Bytes.antt =====
-- Bytes as numbers below 256.
use Prim.Native.Nat.{ℕ, ◌<◌}
use mathlib.Core.List.{List}
use evmongoose.Common.Lists.{All}

abbrev pub IsByte : ℕ → Type 0
IsByte b = b < 256

abbrev pub AllBytes : List ℕ → Type 0
AllBytes = All IsByte
