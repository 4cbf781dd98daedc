-- ===== src/Base/Pointers.antt =====
-- The `const uint8_t *` arguments of C with the length that goes with them.
use Prim.Native.Nat.{ℕ}
use mathlib.Core.Bool.{Bool, false}
use mathlib.Core.List.{List, []}
use cc2530_zigbee.Base.Tests.{◌!=◌}
use cc2530_zigbee.Base.Arrays.{length}

-- `bytes l` points at the bytes `l`, as many as the length argument says; `null n` is NULL with
-- the length argument `n`.
pub data Source : Type 0 where
  bytes : List ℕ → Source
  null : ℕ → Source

abbrev pub source_length : Source → ℕ
source_length (bytes l) = length l
source_length (null n) = n

abbrev pub source_bytes : Source → List ℕ
source_bytes (bytes l) = l
source_bytes (null n) = []

-- `p == NULL && length != 0`
abbrev pub is_missing : Source → Bool
is_missing (bytes l) = false
is_missing (null n) = n != 0
