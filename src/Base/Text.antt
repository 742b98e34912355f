-- ===== src/Base/Text.antt =====
-- Text as bytes, after the standard library's `str` and slice methods.
use Prim.Native.Nat.{ℕ, zero, suc, ◌+◌, ◌/◌, ◌%◌, ◌≤◌, ◌<◌}
use mathlib.Core.Path.{◌≡◌, refl}
use mathlib.Core.Bool.{Bool, true, false, ◌&&◌}
use mathlib.Core.List.{List, [], ◌∷◌, ◌++◌}
use mathlib.Core.Option.{Option, none, some}
use native.Mathlib.Omega.{arith}
use newtua_core.Base.Lists.{length, length-append}
use newtua_core.Base.Bytes.{Bytes}
use newtua_core.Base.Tests.{leb, ◌==◌, if◌then◌else◌, equal}

abbrev pub is_some {ℓ} : {A : Type ℓ} → Option A → Bool
is_some none = false
is_some (some a) = true

-- What follows a prefix.
unfoldable pub strip_prefix : Bytes → Bytes → Option Bytes
strip_prefix [] s = some s
strip_prefix (p ∷ ps) [] = none
strip_prefix (p ∷ ps) (c ∷ cs) = let rest = strip_prefix ps cs in if c == p then rest else none

abbrev pub starts_with : Bytes → Bytes → Bool
starts_with s pre = is_some (strip_prefix pre s)

abbrev pub cons_if_some : ℕ → Option Bytes → Option Bytes
cons_if_some c none = none
cons_if_some c (some s) = some (c ∷ s)

-- What stands in front of a suffix.
unfoldable pub strip_suffix : Bytes → Bytes → Option Bytes
strip_suffix suf [] = if equal [] suf then some [] else none
strip_suffix suf (c ∷ cs) =
    let shorter = cons_if_some c (strip_suffix suf cs) in
    if equal (c ∷ cs) suf then some [] else shorter

abbrev pub ends_with : Bytes → Bytes → Bool
ends_with s suf = is_some (strip_suffix suf s)

abbrev pub cut_here : ℕ → Option Bytes → Option (Bytes × Bytes) → Option (Bytes × Bytes)
cut_here c (some rest) later = some ([], rest)
cut_here c none none = none
cut_here c none (some (front, rest)) = some (c ∷ front, rest)

-- What stands in front of the first place of a pattern that is not empty, and what follows it.
unfoldable pub split_once : Bytes → Bytes → Option (Bytes × Bytes)
split_once pat [] = none
split_once pat (c ∷ cs) = cut_here c (strip_prefix pat (c ∷ cs)) (split_once pat cs)

abbrev pub to_lower : ℕ → ℕ
to_lower c = if leb b'A' c && leb c b'Z' then c + 32 else c

-- `to_ascii_lowercase`
unfoldable pub lowercase : Bytes → Bytes
lowercase [] = []
lowercase (c ∷ cs) = to_lower c ∷ lowercase cs

-- `join` of pieces with a byte.
unfoldable pub join_with : ℕ → List Bytes → Bytes
join_with sep [] = []
join_with sep (s ∷ []) = s
join_with sep (s ∷ t ∷ ts) = s ++ sep ∷ join_with sep (t ∷ ts)

abbrev digits_onto : ℕ → ℕ → Bytes → Bytes
digits_onto zero n acc = acc
digits_onto (suc fuel) n acc =
    let more = digits_onto fuel (n / 10) ((b'0' + n % 10) ∷ acc) in
    if n / 10 == 0 then (b'0' + n % 10) ∷ acc else more

-- A number of 64 bits in decimal digits, of which it has at most 20.
unfoldable pub decimal : ℕ → Bytes
decimal n = digits_onto 20 n []

-- A text too short for no prefix decides by itself.
pub strip_prefix-append_none :
    (p s t : Bytes) → length p ≤ length s → strip_prefix p s ≡ none → strip_prefix p (s ++ t) ≡ none
unfolding strip_prefix
strip_prefix-append_none [] s t h e = absurd (cc)
strip_prefix-append_none (p ∷ ps) [] t h e = absurd (omega arith)
strip_prefix-append_none (p ∷ ps) (c ∷ cs) t h e = ground (arith, strip_prefix-append_none ps cs t)

equal-longer : (a b : Bytes) → length b < length a → equal a b ≡ false
unfolding equal
equal-longer [] b h = absurd (omega arith)
equal-longer (x ∷ a) [] h = refl
equal-longer (x ∷ a) (y ∷ b) h = ground (arith, equal-longer a b)

pub equal_refl : (a : Bytes) → equal a a ≡ true
unfolding equal
equal_refl [] = refl
equal_refl (x ∷ a) = ground (arith, equal_refl a)

-- What stands in front of a suffix is found again.
pub strip_suffix-append : (suf a : Bytes) → strip_suffix suf (a ++ suf) ≡ some a
unfolding strip_suffix
strip_suffix-append [] [] = unfold equal in refl
strip_suffix-append (x ∷ suf) [] = rw (equal_refl (x ∷ suf)) refl
strip_suffix-append suf (c ∷ cs) =
    let long : equal (c ∷ cs ++ suf) suf ≡ false =
      equal-longer (c ∷ cs ++ suf) suf (omega (arith, length-append cs suf)) in
    rw (long, strip_suffix-append suf cs) refl
