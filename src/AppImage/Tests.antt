-- ===== src/AppImage/Tests.antt =====
-- A run of src/format/appimage.rs on a header.
use newtua_core.Base.{replicate, ◌≡◌, refl, false, [], ◌∷◌, ◌++◌}
use newtua_core.Base.Bytes.{Bytes, to_le}
use newtua_core.Base.Text.{strip_prefix}
use newtua_core.Error.{ok}
use newtua_core.AppImage.{elf_magic, appimage_fs_offset}
use newtua_core.AppImage.Layout.{ElfHeader}

-- A header of 64 bits with the table at 64, of one section of two bytes, and ten bytes behind it.
abbrev image : Bytes
image =
    elf_magic
    ++ (2 ∷ 1 ∷ 1 ∷ 0 ∷ []
        ++ (replicate 32 0
            ++ (to_le 8 64 ++ (replicate 10 0 ++ (to_le 2 2 ++ (to_le 2 1 ++ replicate 14 7))))))

image-offset : appimage_fs_offset image ≡ ok 66
unfolding appimage_fs_offset strip_prefix
image-offset = refl

-- A header of 32 bits, highest byte first, with three sections of forty bytes from place 300 on.
abbrev old_header : ElfHeader
old_header = record {
  wide = false;
  little = false;
  identity = replicate 26 1;
  between = replicate 10 2;
  behind = replicate 14 3;
  shoff = 300;
  shentsize = 40;
  shnum = 3;
}
