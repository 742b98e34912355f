-- ===== src/Base/Utf16.antt =====
-- `char::decode_utf16` of the standard library, collected into a string, which is UTF-8.
use mathlib.Core.List.{List, [], ◌∷◌, ◌++◌}
use mathlib.Core.Option.{Option, none, some}
use mathlib.Core.Bool.{Bool, ◌&&◌, ◌||◌}
use Prim.Native.Nat.{ℕ, ◌+◌, ◌-◌, ◌*◌, ◌/◌, ◌%◌}
use newtua_core.Base.Tests.{ltb, leb, if◌then◌else◌}
use newtua_core.Base.Bytes.{Bytes}

-- The UTF-8 of a code point.
unfoldable pub encode_utf8 : ℕ → Bytes
encode_utf8 c =
    if ltb c 0x80
    then c ∷ []
    else if ltb c 0x800
    then (0xc0 + c / 64) ∷ (0x80 + c % 64) ∷ []
    else if ltb c 0x10000
    then (0xe0 + c / 4096) ∷ (0x80 + c / 64 % 64) ∷ (0x80 + c % 64) ∷ []
    else (0xf0 + c / 262_144) ∷ (0x80 + c / 4096 % 64) ∷ (0x80 + c / 64 % 64) ∷ (0x80 + c % 64) ∷ []

abbrev pub is_high : ℕ → Bool
is_high u = leb 0xd800 u && leb u 0xdbff

abbrev pub is_low : ℕ → Bool
is_low u = leb 0xdc00 u && leb u 0xdfff

abbrev pub of_pair : ℕ → ℕ → ℕ
of_pair u v = 0x10000 + (u - 0xd800) * 0x400 + (v - 0xdc00)

abbrev pub put_front : Bytes → Option Bytes → Option Bytes
put_front s none = none
put_front s (some rest) = some (s ++ rest)

-- A surrogate without its other half fails the whole text.
unfoldable pub from_utf16 : List ℕ → Option Bytes
from_utf16 [] = some []
from_utf16 (u ∷ []) = if is_high u || is_low u then none else some (encode_utf8 u)
from_utf16 (u ∷ v ∷ us) =
    let paired = from_utf16 us in
    let single = from_utf16 (v ∷ us) in
    if is_high u
    then (if is_low v then put_front (encode_utf8 (of_pair u v)) paired else none)
    else if is_low u
    then none
    else put_front (encode_utf8 u) single
