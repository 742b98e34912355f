-- ===== src/Xar.antt =====
-- src/format/xar.rs: `exceeds_nesting_depth`, the guard in front of the XML parser.
mod Runs
pub mod Paths
pub mod Safety
pub mod Order
pub mod Opening
pub mod Toc
pub mod Mtime
pub mod Nodes
pub mod Ends
mod Tests
use newtua_core.Base.{
  ltb, ◌==◌, if◌then◌else◌, length, drop, ℕ, zero, suc, ◌+◌, ◌-◌, Bool, true, false, not, ◌&&◌,
  ◌||◌, Option, none, some, [], ◌∷◌,
}
use newtua_core.Base.Bytes.{Bytes}
use newtua_core.Base.Text.{starts_with, split_once}
use newtua_core.Error.{Result, ok, stuck}

-- What follows the first byte that is `c`.
unfoldable pub after_byte : ℕ → Bytes → Option Bytes
after_byte c [] = none
after_byte c (b ∷ bs) = let later = after_byte c bs in if b == c then some bs else later

abbrev pub rest_of : Option (Bytes × Bytes) → Option Bytes
rest_of none = none
rest_of (some (_, rest)) = some rest

-- What follows the first place of a pattern.
unfoldable pub after_pattern : Bytes → Bytes → Option Bytes
after_pattern pat bs = rest_of (split_once pat bs)

-- "<!--", "-->", "<![CDATA[" and "]]>"
abbrev pub comment_start : Bytes
comment_start = b'<' ∷ b'!' ∷ b'-' ∷ b'-' ∷ []

abbrev pub comment_end : Bytes
comment_end = b'-' ∷ b'-' ∷ b'>' ∷ []

abbrev pub cdata_start : Bytes
cdata_start = b'<' ∷ b'!' ∷ b'[' ∷ b'C' ∷ b'D' ∷ b'A' ∷ b'T' ∷ b'A' ∷ b'[' ∷ []

abbrev pub cdata_end : Bytes
cdata_end = b']' ∷ b']' ∷ b'>' ∷ []

abbrev pub next_is : Bytes → ℕ → Bool
next_is [] c = false
next_is (b ∷ bs) c = b == c

-- The quote that is open behind a byte, or 0.
abbrev pub next_quote : ℕ → ℕ → ℕ
next_quote quote c =
    if not (quote == 0)
    then (if c == quote then 0 else quote)
    else if c == b'"' || c == b'\''
    then c
    else 0

-- The scan of an opening tag: the byte in front of its end, and what follows the end.
unfoldable pub tag_end : ℕ → ℕ → Bytes → Option (ℕ × Bytes)
tag_end quote prev [] = none
tag_end quote prev (c ∷ cs) =
    let more = tag_end (next_quote quote c) c cs in
    if quote == 0 && c == b'>' then some (prev, cs) else more

abbrev pub Rest : Type 0
Rest = ℕ → Bytes → Result Bool

abbrev pub on_end : ℕ → Option Bytes → Rest → Result Bool
on_end depth none more = ok false
on_end depth (some rest) more = more depth rest

abbrev pub on_tag : ℕ → ℕ → Option (ℕ × Bytes) → Rest → Result Bool
on_tag limit depth none more = ok false
on_tag limit depth (some (prev, rest)) more =
    if prev == b'/'
    then more depth rest
    else if ltb limit (depth + 1)
    then ok true
    else more (depth + 1) rest

-- One round at a `<`, with what follows it.
unfoldable pub at_angle : ℕ → ℕ → Bytes → Rest → Result Bool
at_angle limit depth cs more =
    if starts_with (b'<' ∷ cs) comment_start
    then on_end depth (after_pattern comment_end (drop 3 cs)) more
    else if starts_with (b'<' ∷ cs) cdata_start
    then on_end depth (after_pattern cdata_end (drop 8 cs)) more
    else if next_is cs b'?' || next_is cs b'!'
    then on_end depth (after_byte b'>' (drop 1 cs)) more
    else if next_is cs b'/'
    then on_end (depth - 1) (after_byte b'>' (drop 1 cs)) more
    else on_tag limit depth (tag_end 0 0 cs) more

unfoldable pub nesting_loop : ℕ → ℕ → ℕ → Bytes → Result Bool
nesting_loop zero limit depth bs = stuck
nesting_loop (suc fuel) limit depth [] = ok false
nesting_loop (suc fuel) limit depth (c ∷ cs) =
    if not (c == b'<')
    then nesting_loop fuel limit depth cs
    else at_angle limit depth cs (nesting_loop fuel limit)

-- A round takes a byte or more.
unfoldable pub exceeds_nesting_depth : Bytes → ℕ → Result Bool
exceeds_nesting_depth xml limit = nesting_loop (length xml + 1) limit 0 xml
