-- ===== src/Sfx.antt =====
-- src/format/sfx.rs: the archive behind an executable. The parsers of the goblin crate are
-- parameters.
pub mod Earliest
mod Tests
use newtua_core.Base.{
  if◌then◌else◌, length, drop, ℕ, suc, ◌+◌, ◌-◌, min, max, Bool, false, ◌||◌, Option, none, some,
  List, [], ◌∷◌,
}
use newtua_core.Base.Bytes.{Bytes, u64_mod}
use newtua_core.Base.Text.{starts_with}
use newtua_core.Error.{unknown_format, Result, err}
use newtua_core.Archive.Confidence
use newtua_core.Archive.Confidence.{Confidence as Level}

-- Of a zip, a 7z, a rar and a cab.
abbrev pub magics : List Bytes
magics =
    (b'P' ∷ b'K' ∷ 3 ∷ 4 ∷ [])
    ∷ (0x37 ∷ 0x7a ∷ 0xbc ∷ 0xaf ∷ 0x27 ∷ 0x1c ∷ [])
    ∷ (b'R' ∷ b'a' ∷ b'r' ∷ b'!' ∷ 0x1a ∷ 7 ∷ [])
    ∷ (b'M' ∷ b'S' ∷ b'C' ∷ b'F' ∷ [])
    ∷ []

abbrev pub macho_magics : List Bytes
macho_magics =
    (0xcf ∷ 0xfa ∷ 0xed ∷ 0xfe ∷ [])
    ∷ (0xce ∷ 0xfa ∷ 0xed ∷ 0xfe ∷ [])
    ∷ (0xfe ∷ 0xed ∷ 0xfa ∷ 0xcf ∷ [])
    ∷ (0xfe ∷ 0xed ∷ 0xfa ∷ 0xce ∷ [])
    ∷ (0xca ∷ 0xfe ∷ 0xba ∷ 0xbe ∷ [])
    ∷ []

unfoldable pub starts_with_any : List Bytes → Bytes → Bool
starts_with_any [] bytes = false
starts_with_any (m ∷ ms) bytes = starts_with bytes m || starts_with_any ms bytes

unfoldable pub is_macho : Bytes → Bool
is_macho header = starts_with_any macho_magics header

-- `saturating_add` of numbers of 64 bits, and the greatest of a list, or 0.
abbrev pub saturating_add : ℕ → ℕ → ℕ
saturating_add a b = min (a + b) (u64_mod - 1)

abbrev pub furthest : List (ℕ × ℕ) → ℕ
furthest [] = 0
furthest ((start, size) ∷ rest) = max (saturating_add start size) (furthest rest)

-- What the parser of Mach-O files gives: the places and sizes of the segments of one image, those
-- of the slices of a universal file, or an error.
pub data Mach : Type 0 where
  binary : List (ℕ × ℕ) → Mach
  fat : Option (List (ℕ × ℕ)) → Mach
  unreadable : Mach

pub record Parsers : Type 0 where
  -- the places and sizes of the sections
  pub parse_pe : Bytes → Option (List (ℕ × ℕ))
  pub parse_mach : Bytes → Mach

abbrev pub furthest_or_zero : Option (List (ℕ × ℕ)) → ℕ
furthest_or_zero none = 0
furthest_or_zero (some parts) = furthest parts

abbrev pub mach_end : Mach → ℕ
mach_end (binary segments) = furthest segments
mach_end (fat arches) = furthest_or_zero arches
mach_end unreadable = 0

abbrev pub later : Option ℕ → Option ℕ
later none = none
later (some k) = some (suc k)

-- The first place of a pattern that is not empty.
unfoldable pub position : Bytes → Bytes → Option ℕ
position pat [] = none
position pat (c ∷ cs) =
    let rest = position pat cs in if starts_with (c ∷ cs) pat then some 0 else later rest

abbrev pub min_opt : Option ℕ → Option ℕ → Option ℕ
min_opt none b = b
min_opt (some a) none = some a
min_opt (some a) (some b) = some (min a b)

unfoldable pub earliest_of : List Bytes → Bytes → Option ℕ
earliest_of [] bytes = none
earliest_of (m ∷ ms) bytes = min_opt (position m bytes) (earliest_of ms bytes)

unfoldable pub find_archive_magic : Bytes → Option ℕ
find_archive_magic bytes = earliest_of magics bytes

-- "MZ"
abbrev pub mz_magic : Bytes
mz_magic = b'M' ∷ b'Z' ∷ []

unfoldable pub probe : Bytes → Level
probe header = if starts_with header mz_magic || is_macho header then 50 else Confidence.none

module _ (parsers : Parsers) where
  unfoldable pub pe_overlay_offset : Bytes → ℕ
  pe_overlay_offset bytes = furthest_or_zero (parsers.parse_pe bytes)

  unfoldable pub macho_overlay_offset : Bytes → ℕ
  macho_overlay_offset bytes = mach_end (parsers.parse_mach bytes)

  unfoldable pub floor_of : Bytes → ℕ
  floor_of bytes =
      min (if is_macho bytes then macho_overlay_offset bytes else pe_overlay_offset bytes)
        (length bytes)

module _ {R : Type 0} (parsers : Parsers) (open_single : Bytes → Result R) where
  abbrev pub open_carved : Bytes → ℕ → Option ℕ → Result R
  open_carved bytes floor none = err unknown_format
  open_carved bytes floor (some rel) = open_single (drop (floor + rel) bytes)

  -- `open`, on the bytes of a file with a path. The reader delegates every call to the inner one.
  unfoldable pub open_sfx : Bytes → Result R
  open_sfx bytes =
      open_carved bytes (floor_of parsers bytes)
        (find_archive_magic (drop (floor_of parsers bytes) bytes))
