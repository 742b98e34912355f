-- ===== src/Base/Utf8.antt =====
-- `String::from_utf8_lossy` and `str::from_utf8` of the standard library.
use native.Mathlib.Omega.{arith}
use mathlib.Core.Path.{◌≡◌, refl}
use Prim.Native.Nat.{ℕ, zero, suc, ◌≤◌}
use mathlib.Core.Bool.{Bool, true, false, ◌&&◌}
use mathlib.Core.List.{[], ◌∷◌, ◌++◌}
use newtua_core.Base.Tests.{ltb, leb, ◌==◌, if◌then◌else◌}
use newtua_core.Base.Lists.{length, take, drop, length-drop, take-append-drop}
use newtua_core.Base.Bytes.{Bytes}

abbrev within : ℕ → ℕ → ℕ → Bool
within lo hi c = leb lo c && leb c hi

-- Whether the head of the list is a byte of the range.
abbrev starts_within : ℕ → ℕ → Bytes → Bool
starts_within lo hi [] = false
starts_within lo hi (c ∷ cs) = within lo hi c

-- How many bytes of the character that `b` begins are well formed, and how many it wants.
pub record Prefix : Type 0 where
  pub good : ℕ
  pub want : ℕ

-- The second byte's range is given; the later ones are continuation bytes.
pairs : ℕ → ℕ → Bytes → Prefix
pairs lo hi cs = record { good = if starts_within lo hi cs then 2 else 1; want = 2 }

triples : ℕ → ℕ → Bytes → Prefix
triples lo hi cs = record {
  good = if starts_within lo hi cs then if starts_within 0x80 0xbf (drop 1 cs) then 3 else 2 else 1;
  want = 3;
}

quads : ℕ → ℕ → Bytes → Prefix
quads lo hi cs = record {
  good =
      if starts_within lo hi cs
      then if starts_within 0x80 0xbf (drop 1 cs)
        then if starts_within 0x80 0xbf (drop 2 cs) then 4 else 3
        else 2
      else 1;
  want = 4;
}

-- The table of well-formed sequences (Unicode, table 3-7).
prefix : ℕ → Bytes → Prefix
unfolding pairs triples quads
prefix b cs =
    if ltb b 0x80
    then record { good = 1; want = 1 }
    else if within 0xc2 0xdf b
    then pairs 0x80 0xbf cs
    else if b == 0xe0
    then triples 0xa0 0xbf cs
    else if b == 0xed
    then triples 0x80 0x9f cs
    else if within 0xe1 0xef b
    then triples 0x80 0xbf cs
    else if b == 0xf0
    then quads 0x90 0xbf cs
    else if within 0xf1 0xf3 b
    then quads 0x80 0xbf cs
    else if b == 0xf4
    then quads 0x80 0x8f cs
    else record { good = 1; want = 2 }

abbrev replacement : Bytes
replacement = 0xef ∷ 0xbf ∷ 0xbd ∷ []

lossy_loop : ℕ → Bytes → Bytes
lossy_loop zero bs = []
lossy_loop (suc fuel) [] = []
lossy_loop (suc fuel) (b ∷ cs) =
    let p : Prefix = prefix b cs in
    (if p.good == p.want then take p.good (b ∷ cs) else replacement)
    ++ lossy_loop fuel (drop p.good (b ∷ cs))

-- Each round takes a byte at least, so the length is fuel enough.
unfoldable pub from_utf8_lossy : Bytes → Bytes
unfolding lossy_loop prefix
from_utf8_lossy bs = lossy_loop (length bs) bs

valid_loop : ℕ → Bytes → Bool
valid_loop zero bs = true
valid_loop (suc fuel) [] = true
valid_loop (suc fuel) (b ∷ cs) =
    let p : Prefix = prefix b cs in (p.good == p.want) && valid_loop fuel (drop p.good (b ∷ cs))

-- `str::from_utf8(bs).is_ok()`
unfoldable pub is_utf8 : Bytes → Bool
unfolding valid_loop prefix
is_utf8 bs = valid_loop (length bs) bs

prefix_good : (b : ℕ) (cs : Bytes) → 1 ≤ (prefix b cs).good
unfolding prefix
prefix_good b cs = ground arith

lossy_loop-valid :
    (fuel : ℕ) (bs : Bytes) → length bs ≤ fuel → valid_loop fuel bs ≡ true → lossy_loop fuel bs ≡ bs
unfolding lossy_loop valid_loop
lossy_loop-valid zero [] h v = refl
lossy_loop-valid zero (b ∷ cs) h v = absurd (omega arith)
lossy_loop-valid (suc fuel) [] h v = refl
lossy_loop-valid (suc fuel) (b ∷ cs) h v =
    let k : ℕ = (prefix b cs).good in
    ground (
      arith,
      prefix_good b cs,
      length-drop k (b ∷ cs),
      take-append-drop k (b ∷ cs),
      lossy_loop-valid fuel (drop k (b ∷ cs)),
    )

-- Valid text comes out of the lossy decoding as it went in.
pub from_utf8_lossy-valid : (bs : Bytes) → is_utf8 bs ≡ true → from_utf8_lossy bs ≡ bs
from_utf8_lossy-valid bs h =
    unfold from_utf8_lossy is_utf8 in lossy_loop-valid (length bs) bs (omega arith) h
