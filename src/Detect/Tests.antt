-- ===== src/Detect/Tests.antt =====
-- Runs of src/detect.rs on small files.
use newtua_core.Base.{
  if◌then◌else◌, equal, drop, ℕ, zero, suc, ◌+◌, ◌≤◌, ◌<◌, ◌≡◌, refl, ◌↔◌, Bool, true, false,
  Option, none, some, [], ◌∷◌, arith,
}
use newtua_core.Base.Bytes.{Bytes}
use newtua_core.Base.Text.{strip_prefix, starts_with, strip_suffix, lowercase, decimal}
use newtua_core.Base.Utf8.{is_utf8}
use newtua_core.Error.{unknown_format, Result, ok, err}
use newtua_core.Archive.{OpenOptions}
use newtua_core.PathSafety.Paths.{normal}
use newtua_core.Macos.{file_name}
use newtua_core.Extract.World.{FsPath}
use newtua_core.Extract.One.{with_file_name}
use newtua_core.Volume.Members.{padded, volume}
use newtua_core.Dmg.Fields.{read_koly, has_koly_trailer}
use newtua_core.Detect.Compressors.{gzip, lzc, lzc_magic, detect_compressor}
use newtua_core.Detect.Magics.{detect_compressor_iff}
use newtua_core.Detect.Choice.{best_loop, FirstBest, best_loop-FirstBest}
use newtua_core.Detect.Single.{
  File, Reader, Parts, is_tar, is_cpio, compressor_of, is_warc_name, is_dmg, open_single,
}
use newtua_core.Detect.Opening.{Disk, read_all, open_archive}
use newtua_core.Detect.Laws.{HoldsFile, open_single-wrapped, open_archive-volumes}

best_loop-FirstBest_example :
    FirstBest 0 (0 ∷ 50 ∷ 100 ∷ 100 ∷ []) (best_loop 0 (0 ∷ 50 ∷ 100 ∷ 100 ∷ []) none)
best_loop-FirstBest_example = best_loop-FirstBest 0 (0 ∷ 50 ∷ 100 ∷ 100 ∷ [])

detect_compressor_iff_example :
    (detect_compressor (0x1f ∷ 0x9d ∷ 1 ∷ []) ≡ some lzc)
    ↔ (starts_with (0x1f ∷ 0x9d ∷ 1 ∷ []) lzc_magic ≡ true)
detect_compressor_iff_example = detect_compressor_iff (0x1f ∷ 0x9d ∷ 1 ∷ []) lzc lzc_magic refl

-- No handler, and decoders that give the bytes behind a signature of two.
abbrev bare : Parts
bare = record {
  registry = [];
  warc = λ _ _. err unknown_format;
  dmg = λ _ _. err unknown_format;
  tar = λ _ _. err unknown_format;
  cpio = λ _ _. err unknown_format;
  iso = λ _ _. err unknown_format;
  hfs_plus = λ _ _. err unknown_format;
  zip = λ _ _. err unknown_format;
  nsis = λ _ _. err unknown_format;
  has_iso_signature = λ _. false;
  has_hfsplus_signature = λ _. false;
  decompressor = λ _ bytes. ok (drop 2 bytes);
  temp_name = none;
}

abbrev no_options : OpenOptions
no_options = record { password = none; encoding_override = none }

-- "n.gz"
abbrev small_gz : File
small_gz = record {
  name = some (b'n' ∷ b'.' ∷ b'g' ∷ b'z' ∷ []);
  bytes = 0x1f ∷ 0x8b ∷ 1 ∷ 2 ∷ 3 ∷ [];
}

open_single-wrapped_example :
    (reader : Reader) × (open_single bare no_options small_gz ≡ ok reader)
    × HoldsFile (b'n' ∷ []) (1 ∷ 2 ∷ 3 ∷ []) reader
open_single-wrapped_example =
    open_single-wrapped bare no_options small_gz (b'n' ∷ []) 0 (b'.' ∷ b'g' ∷ b'z' ∷ [], none) gzip
      (1 ∷ 2 ∷ 3 ∷ []) (unfold is_utf8 in refl) refl
      (unfold is_warc_name lowercase strip_suffix equal is_utf8 in refl)
      (unfold is_dmg has_koly_trailer read_koly lowercase strip_suffix equal is_utf8 in refl)
      (unfold compressor_of detect_compressor strip_prefix in refl) refl (unfold is_tar in refl)
      (unfold is_cpio in refl)

-- "n" with the text "hi"
abbrev plain_file : File
plain_file = record { name = some (b'n' ∷ []); bytes = b'h' ∷ b'i' ∷ [] }

-- "a.001" and "a.002", each with one byte of "hi".
abbrev half : Option Bytes → Result Bytes
half none = err unknown_format
half (some name) =
    if equal name (b'a' ∷ b'.' ∷ b'0' ∷ b'0' ∷ b'1' ∷ [])
    then ok (b'h' ∷ [])
    else if equal name (b'a' ∷ b'.' ∷ b'0' ∷ b'0' ∷ b'2' ∷ [])
    then ok (b'i' ∷ [])
    else err unknown_format

abbrev is_read : Result Bytes → Bool
is_read (ok _) = true
is_read _ = false

abbrev two_halves : Disk
two_halves = record {
  exists = λ p. is_read (half (file_name p));
  is_file = λ p. is_read (half (file_name p));
  contents = λ p. half (file_name p);
}

abbrev first_half : FsPath
first_half = normal (b'a' ∷ b'.' ∷ b'0' ∷ b'0' ∷ b'1' ∷ []) ∷ []

halves_there :
    (i : ℕ) → 1 ≤ i → i < 1 + 2 → two_halves.exists (volume first_half (b'a' ∷ []) i) ≡ true
unfolding file_name volume with_file_name padded decimal equal
halves_there zero lo hi = absurd (omega arith)
halves_there (suc zero) lo hi = refl
halves_there (suc (suc zero)) lo hi = refl
halves_there (suc (suc (suc i))) lo hi = absurd (omega arith)

open_archive-volumes_example :
    open_archive two_halves bare no_options first_half
    ≡ open_single bare no_options (record { name = none; bytes = b'h' ∷ b'i' ∷ [] })
open_archive-volumes_example =
    open_archive-volumes two_halves bare no_options first_half (b'a' ∷ []) 0
      ((b'h' ∷ []) ∷ (b'i' ∷ []) ∷ []) (unfold file_name is_utf8 in refl) (omega arith) halves_there
      (unfold file_name volume with_file_name padded decimal equal in refl)
      (unfold read_all file_name volume with_file_name padded decimal equal in refl)
