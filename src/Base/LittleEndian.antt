-- ===== src/Base/LittleEndian.antt =====
-- Numbers written with the lowest byte first are read back.
use native.Mathlib.Omega.{arith}
use mathlib.Core.Path.{◌≡◌}
use Prim.Native.Nat.{ℕ, zero, suc, ◌/◌, ◌^◌, ◌<◌}
use native.Mathlib.Nat.{pow-suc, pow-zero}
use newtua_core.Base.Bytes.{from_le, to_le}

pub from_le-to_le : (n v : ℕ) → v < 256 ^ n → from_le (to_le n v) ≡ v
from_le-to_le zero v h = let h' = rw pow-zero at h in omega arith
from_le-to_le (suc n) v h =
    let h' = rw pow-suc at h in rw (from_le-to_le n (v / 256) (omega arith)) (omega arith)
