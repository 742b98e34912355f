-- ===== src/Base/BigEndian.antt =====
-- Numbers with the highest byte first are read back.
use native.Mathlib.Omega.{arith}
use mathlib.Core.List.{[], ◌∷◌, ◌++◌}
use mathlib.Core.Path.{◌≡◌, refl}
use Prim.Native.Nat.{ℕ, zero, suc, ◌+◌, ◌*◌, ◌/◌, ◌%◌, ◌^◌, ◌<◌}
use native.Mathlib.Nat.{pow-suc, pow-zero}
use newtua_core.Base.Lists.{length, length-append}
use newtua_core.Base.Bytes.{Bytes, to_be, from_be_onto, from_be}

from_be_onto-append :
    (acc b : ℕ) (xs : Bytes) → from_be_onto acc (xs ++ b ∷ []) ≡ from_be_onto acc xs * 256 + b
from_be_onto-append acc b [] = refl
from_be_onto-append acc b (x ∷ xs) = from_be_onto-append (acc * 256 + x) b xs

pub from_be-to_be : (n v : ℕ) → v < 256 ^ n → from_be (to_be n v) ≡ v
from_be-to_be zero v h = let h' = rw pow-zero at h in omega arith
from_be-to_be (suc n) v h =
    let h' = rw pow-suc at h in
    omega (arith, from_be_onto-append 0 (v % 256) (to_be n (v / 256)), from_be-to_be n (v / 256))

pub length-to_be : (n v : ℕ) → length (to_be n v) ≡ n
length-to_be zero v = refl
length-to_be (suc n) v =
    omega (arith, length-append (to_be n (v / 256)) ((v % 256) ∷ []), length-to_be n (v / 256))
