-- ===== src/AppImage.antt =====
-- src/format/appimage.rs: where the file system behind the ELF image begins.
pub mod Layout
pub mod Written
mod Tests
use newtua_core.Base.{
  ltb, leb, ◌==◌, if◌then◌else◌, length, get_or, take, drop, ℕ, ◌+◌, ◌*◌, Bool, true, false, not,
  ◌&&◌, ◌||◌, Option, none, some, [], ◌∷◌,
}
use newtua_core.Base.Bytes.{Bytes, u64_mod, slice?, from_le, from_be}
use newtua_core.Base.Text.{starts_with, ends_with, lowercase}
use newtua_core.Error.{corrupt, Result, ok, err, ◌>>=◌}
use newtua_core.Archive.Confidence
use newtua_core.Archive.Confidence.{Confidence as Level}

-- "hsqs"
abbrev pub squashfs_magic : Bytes
squashfs_magic = b'h' ∷ b's' ∷ b'q' ∷ b's' ∷ []

abbrev pub iso_sig_offset : ℕ
iso_sig_offset = 0x8001

-- "CD001"
abbrev pub iso_sig : Bytes
iso_sig = b'C' ∷ b'D' ∷ b'0' ∷ b'0' ∷ b'1' ∷ []

abbrev pub elf_magic : Bytes
elf_magic = 0x7f ∷ b'E' ∷ b'L' ∷ b'F' ∷ []

-- ".appimage"
abbrev appimage_suffix : Bytes
appimage_suffix = b'.' ∷ b'a' ∷ b'p' ∷ b'p' ∷ b'i' ∷ b'm' ∷ b'a' ∷ b'g' ∷ b'e' ∷ []

abbrev is_type_marker : Option Bytes → Bool
is_type_marker (some (a ∷ i ∷ t ∷ [])) = a == b'A' && (i == b'I' && (t == 1 || t == 2))
is_type_marker _ = false

abbrev named_appimage : Option Bytes → Bool
named_appimage none = false
named_appimage (some n) = ends_with (lowercase n) appimage_suffix

unfoldable pub probe : Bytes → Option Bytes → Level
probe header name =
    let magic_ok : Bool = starts_with header elf_magic && is_type_marker (slice? header 8 3) in
    if magic_ok || named_appimage name then Confidence.magic else Confidence.none

-- `read_at`: as many of the bytes as there are.
abbrev pub read_at : Bytes → ℕ → ℕ → Bytes
read_at file offset n = take n (drop offset file)

-- A number at a place of the header, in the byte order that the header names.
abbrev pub number_at : Bool → Bytes → ℕ → ℕ → ℕ
number_at true head n o = from_le (take n (drop o head))
number_at false head n o = from_be (take n (drop o head))

-- `e_shoff`, `e_shentsize` and `e_shnum`
abbrev pub section_table : Bool → Bool → Bytes → ℕ × ℕ × ℕ
section_table true le head =
    (number_at le head 8 0x28, number_at le head 2 0x3a, number_at le head 2 0x3c)
section_table false le head =
    (number_at le head 4 0x20, number_at le head 2 0x2e, number_at le head 2 0x30)

abbrev pub checked_offset : ℕ → ℕ → Result ℕ
checked_offset offset len =
    if not (ltb offset u64_mod)
    then err (corrupt "appimage: section-table offset overflow")
    else if offset == 0 || leb len offset
    then err (corrupt "appimage: computed fs offset out of range")
    else ok offset

abbrev pub end_of_table : ℕ × ℕ × ℕ → ℕ
end_of_table (shoff, shentsize, shnum) = shoff + shentsize * shnum

unfoldable pub appimage_fs_offset : Bytes → Result ℕ
appimage_fs_offset file =
    let head : Bytes = read_at file 0 64 in
    if ltb (length head) 64 || not (starts_with head elf_magic)
    then err (corrupt "appimage: not an ELF image")
    else (let is_64 : Bool = get_or head 4 0 == 2 in
        let le : Bool = not (get_or head 5 0 == 2) in
        checked_offset (end_of_table (section_table is_64 le head)) (length file))

-- What the handlers of the two file systems make of a file, and of a place in it.
module _ {R : Type 0} (open_iso : Bytes → Result R) (open_squashfs : Bytes → ℕ → Result R) where
  abbrev pub open_at : Bytes → ℕ → Result R
  open_at file offset =
      if starts_with (read_at file offset 4) squashfs_magic
      then open_squashfs file offset
      else if starts_with (read_at file (offset + iso_sig_offset) 5) iso_sig
      then open_iso (drop offset file)
      else err (corrupt "appimage: no squashfs/iso filesystem at the computed offset")

  unfoldable pub open_appimage : Bytes → Result R
  open_appimage file =
      if starts_with (read_at file iso_sig_offset 5) iso_sig
      then open_iso file
      else (appimage_fs_offset file >>= open_at file)
