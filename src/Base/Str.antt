-- ===== src/Base/Str.antt =====
-- `str` of the standard library: trimming, slices, and the reading of numbers.
use mathlib.Core.List.{List, [], ◌∷◌, ◌++◌, map}
use mathlib.Core.Option.{Option, none, some}
use mathlib.Core.Bool.{Bool, true, ◌&&◌, ◌||◌}
use Prim.Native.Nat.{ℕ, zero, suc, ◌+◌, ◌-◌, ◌*◌}
use newtua_core.Base.Tests.{ltb, leb, ◌==◌, if◌then◌else◌}
use newtua_core.Base.Lists.{length, take, drop}
use newtua_core.Base.Bytes.{Bytes}
use newtua_core.Base.Int.{ℤ, pos, negsuc}
use newtua_core.Base.Text.{strip_prefix}

-- What reading a text comes to: the slice of a `str` panics within a character.
pub data Parsed (A : Type 0) : Type 0 where
  panics absent : Parsed A
  found : A → Parsed A

infixl 5 ◌>>=◌
abbrev pub ◌>>=◌ : {A B : Type 0} → Parsed A → (A → Parsed B) → Parsed B
panics >>= next = panics
absent >>= next = absent
found a >>= next = next a

-- The characters that are white space, in UTF-8.
abbrev pub white_space : List Bytes
white_space =
    (9 ∷ [])
    ∷ (10 ∷ [])
    ∷ (11 ∷ [])
    ∷ (12 ∷ [])
    ∷ (13 ∷ [])
    ∷ (32 ∷ [])
    ∷ (0xc2 ∷ 0x85 ∷ [])
    ∷ (0xc2 ∷ 0xa0 ∷ [])
    ∷ (0xe1 ∷ 0x9a ∷ 0x80 ∷ [])
    ∷ (0xe2 ∷ 0x80 ∷ 0x80 ∷ [])
    ∷ (0xe2 ∷ 0x80 ∷ 0x81 ∷ [])
    ∷ (0xe2 ∷ 0x80 ∷ 0x82 ∷ [])
    ∷ (0xe2 ∷ 0x80 ∷ 0x83 ∷ [])
    ∷ (0xe2 ∷ 0x80 ∷ 0x84 ∷ [])
    ∷ (0xe2 ∷ 0x80 ∷ 0x85 ∷ [])
    ∷ (0xe2 ∷ 0x80 ∷ 0x86 ∷ [])
    ∷ (0xe2 ∷ 0x80 ∷ 0x87 ∷ [])
    ∷ (0xe2 ∷ 0x80 ∷ 0x88 ∷ [])
    ∷ (0xe2 ∷ 0x80 ∷ 0x89 ∷ [])
    ∷ (0xe2 ∷ 0x80 ∷ 0x8a ∷ [])
    ∷ (0xe2 ∷ 0x80 ∷ 0xa8 ∷ [])
    ∷ (0xe2 ∷ 0x80 ∷ 0xa9 ∷ [])
    ∷ (0xe2 ∷ 0x80 ∷ 0xaf ∷ [])
    ∷ (0xe2 ∷ 0x81 ∷ 0x9f ∷ [])
    ∷ (0xe3 ∷ 0x80 ∷ 0x80 ∷ [])
    ∷ []

unfoldable pub without_one_of : List Bytes → Bytes → Option Bytes
without_one_of [] s = none
without_one_of (p ∷ ps) s = elim (strip_prefix p s) [
  | none ↦ without_one_of ps s
  | some rest ↦ some rest
]

unfoldable pub trim_start : ℕ → List Bytes → Bytes → Bytes
trim_start zero chars s = s
trim_start (suc fuel) chars s = elim (without_one_of chars s) [
  | none ↦ s
  | some rest ↦ trim_start fuel chars rest
]

unfoldable pub reversed : Bytes → Bytes
reversed [] = []
reversed (c ∷ cs) = reversed cs ++ c ∷ []

-- `trim`: the end is trimmed as the start of the reversed text, by the reversed characters.
unfoldable pub trim : Bytes → Bytes
trim s =
    let front : Bytes = trim_start (length s) white_space s in
    reversed (trim_start (length s) (map reversed white_space) (reversed front))

-- Whether a byte begins a character.
abbrev pub begins : Bytes → Bool
begins [] = true
begins (c ∷ cs) = ltb c 0x80 || leb 0xc0 c

-- `s[a..b]`
abbrev pub str_slice : Bytes → ℕ → ℕ → Parsed Bytes
str_slice s a b =
    if begins (drop a s) && begins (drop b s) then found (take (b - a) (drop a s)) else panics

unfoldable pub digits_value : ℕ → Bytes → Option ℕ
digits_value acc [] = some acc
digits_value acc (c ∷ cs) =
    let more = digits_value (acc * 10 + (c - b'0')) cs in
    if leb b'0' c && leb c b'9' then more else none

-- Digits, at least one of them.
abbrev pub digits : Bytes → Option ℕ
digits [] = none
digits (c ∷ cs) = digits_value 0 (c ∷ cs)

abbrev pub or_absent : {A : Type 0} → Option A → Parsed A
or_absent none = absent
or_absent (some a) = found a

-- `parse` of an unsigned number, whose digits are too few to overflow.
unfoldable pub parse_unsigned : Bytes → Option ℕ
parse_unsigned [] = none
parse_unsigned (c ∷ cs) = if c == b'+' then digits cs else digits (c ∷ cs)

abbrev pub positive : Option ℕ → Option ℤ
positive none = none
positive (some n) = some (pos n)

abbrev pub negative : Option ℕ → Option ℤ
negative none = none
negative (some zero) = some (pos zero)
negative (some (suc n)) = some (negsuc n)

-- The same of a signed one.
unfoldable pub parse_signed : Bytes → Option ℤ
parse_signed [] = none
parse_signed (c ∷ cs) =
    if c == b'-' then negative (digits cs) else positive (parse_unsigned (c ∷ cs))

abbrev pub number_in : Bytes → ℕ → ℕ → Parsed ℕ
number_in s a b = str_slice s a b >>= λ t. or_absent (parse_unsigned t)
