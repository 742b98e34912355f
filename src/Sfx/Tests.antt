-- ===== src/Sfx/Tests.antt =====
-- Runs of the model of src/format/sfx.rs, and an instance of its theorem.
use newtua_core.Base.{◌≡◌, refl, some, [], ◌∷◌, ◌++◌}
use newtua_core.Base.Bytes.{Bytes}
use newtua_core.Base.Text.{strip_prefix}
use newtua_core.Error.{unknown_format, ok, err}
use newtua_core.Sfx.{
  starts_with_any, is_macho, unreadable, Parsers, position, earliest_of, find_archive_magic,
  pe_overlay_offset, floor_of, open_sfx,
}
use newtua_core.Sfx.Earliest.{clear_end, clear_byte, open_sfx-appended}

-- One section of two bytes behind two others.
abbrev parsers : Parsers
parsers = record { parse_pe = λ bytes. some ((2, 2) ∷ []); parse_mach = λ bytes. unreadable }

abbrev stub : Bytes
stub = b'M' ∷ b'Z' ∷ b'P' ∷ b'K' ∷ []

abbrev cab : Bytes
cab = b'M' ∷ b'S' ∷ b'C' ∷ b'F' ∷ 9 ∷ []

open_sfx-appended_example : open_sfx parsers (λ bytes. ok bytes) (stub ++ (0 ∷ [] ++ cab)) ≡ ok cab
unfolding floor_of pe_overlay_offset is_macho starts_with_any strip_prefix
open_sfx-appended_example =
    open_sfx-appended parsers (λ bytes. ok bytes) stub (0 ∷ []) cab b'M'
      (b'S' ∷ b'C' ∷ b'F' ∷ 9 ∷ []) refl refl (clear_byte refl clear_end) refl

-- A magic in the executable's own bytes is not looked at.
no_archive : open_sfx parsers (λ bytes. ok bytes) (b'M' ∷ b'Z' ∷ cab) ≡ err unknown_format
unfolding open_sfx floor_of pe_overlay_offset is_macho starts_with_any strip_prefix
    find_archive_magic earliest_of position
no_archive = refl
