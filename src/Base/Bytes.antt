-- ===== src/Base/Bytes.antt =====
-- Byte strings and machine integers: the little-endian and big-endian forms of the standard
-- library's `from_le_bytes`, `to_le_bytes` and `to_be_bytes`.
use Prim.Native.Nat.{ℕ, zero, suc, ◌+◌, ◌*◌, ◌/◌, ◌%◌, ◌^◌}
use mathlib.Core.Path.{◌≡◌, refl, ap}
use mathlib.Core.List.{List, [], ◌∷◌, ◌++◌}
use mathlib.Core.Option.{Option, none, some}
use newtua_core.Base.Lists.{length, take, drop}
use newtua_core.Base.Tests.{leb, if◌then◌else◌}

abbrev pub Bytes : Type 0
Bytes = List ℕ

abbrev pub u16_max : ℕ
u16_max = 0xffff

abbrev pub u32_max : ℕ
u32_max = 0xffff_ffff

abbrev pub u64_mod : ℕ
u64_mod = 2 ^ 64

-- `buf.get(off..off + n)`
unfoldable pub slice? : Bytes → ℕ → ℕ → Option Bytes
slice? buf off n = if leb (off + n) (length buf) then some (take n (drop off buf)) else none

abbrev pub from_le : Bytes → ℕ
from_le [] = 0
from_le (b ∷ bs) = b + 256 * from_le bs

abbrev pub to_le : ℕ → ℕ → Bytes
to_le zero v = []
to_le (suc n) v = (v % 256) ∷ to_le n (v / 256)

pub length-to_le : (n v : ℕ) → length (to_le n v) ≡ n
length-to_le zero v = refl
length-to_le (suc n) v = ap suc (length-to_le n (v / 256))

-- The same with the highest byte first.
abbrev pub to_be : ℕ → ℕ → Bytes
to_be zero v = []
to_be (suc n) v = to_be n (v / 256) ++ (v % 256) ∷ []

abbrev pub from_be_onto : ℕ → Bytes → ℕ
from_be_onto acc [] = acc
from_be_onto acc (b ∷ bs) = from_be_onto (acc * 256 + b) bs

abbrev pub from_be : Bytes → ℕ
from_be bs = from_be_onto 0 bs
