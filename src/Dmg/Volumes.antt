-- ===== src/Dmg/Volumes.antt =====
-- src/format/dmg.rs: the search of the raw image for a volume.
pub mod Sweep
use newtua_core.Base.{
  ◌==◌, equal, length, ℕ, zero, suc, ◌+◌, Bool, true, false, ◌||◌, Option, none, some, List, [],
  ◌∷◌,
}
use newtua_core.Base.Bytes.{Bytes, slice?, from_be}
use newtua_core.Error.{unknown_format, Result, ok, err, stuck, ◌>>=◌}
use newtua_core.Dmg.Fields.{read_koly}
use newtua_core.Dmg.Image.{sector_size, Decoders, build_raw_image}

-- The magic of a container: the place of it, and its length.
abbrev pub apfs_magic_offset : ℕ
apfs_magic_offset = 32

-- "NXSB"
abbrev pub apfs_magic : Bytes
apfs_magic = b'N' ∷ b'X' ∷ b'S' ∷ b'B' ∷ []

abbrev pub volume_header_offset : ℕ
volume_header_offset = 1024

abbrev pub is_apfs : Bytes → Bool
is_apfs sig = equal sig apfs_magic

-- `H+` and `HX`, as numbers of 16 bits.
unfoldable pub is_hfsplus_signature : Bytes → Bool
is_hfsplus_signature sig = from_be sig == 0x482b || from_be sig == 0x4858

-- Whether a try at a boundary gives a volume.
abbrev pub try_open {ℓ} : {R : Type ℓ} → Bool → Result R → Option R
try_open false r = none
try_open true (ok reader) = some reader
try_open true _ = none

abbrev pub or_more {ℓ} : {R : Type ℓ} → Option R → Result (Option R) → Result (Option R)
or_more (some reader) more = ok (some reader)
or_more none more = more

module _ {R : Type 0} (matches : Bytes → Bool) (magic_offset n : ℕ) (open_at : Bytes → ℕ → Result R)
    (raw : Bytes) where
  abbrev pub sweep_at : (ℕ → Result (Option R)) → ℕ → Option Bytes → Result (Option R)
  sweep_at next s none = ok none
  sweep_at next s (some sig) =
      or_more (try_open (matches sig) (open_at raw s)) (next (s + sector_size))

  unfoldable pub sweep_loop : ℕ → ℕ → Result (Option R)
  sweep_loop zero s = stuck
  sweep_loop (suc fuel) s = sweep_at (sweep_loop fuel) s (slice? raw (s + magic_offset) n)

  -- A boundary behind the end has no signature, so a round per byte is enough.
  unfoldable pub sweep_for_volume : Result (Option R)
  sweep_for_volume = sweep_loop (length raw + 1) 0

module _ {R : Type 0} (open_hfsplus open_apfs : Bytes → ℕ → Result R) where
  abbrev pub or_try : Result R → Result R → Result R
  or_try (ok reader) more = ok reader
  or_try (err e) more = more
  or_try stuck more = stuck

  abbrev pub or_next : Option R → Result R → Result R
  or_next (some reader) more = ok reader
  or_next none more = more

  unfoldable pub locate_volume : Bytes → Result R
  locate_volume raw = or_try (open_hfsplus raw 0) (
      or_try (open_apfs raw 0) (
        sweep_for_volume is_apfs apfs_magic_offset 4 open_apfs raw >>= λ apfs. or_next apfs (
          sweep_for_volume is_hfsplus_signature volume_header_offset 2 open_hfsplus raw >>= λ hfs.
          or_next hfs (err unknown_format))))

  -- `open`, on the bytes of the file.
  unfoldable pub open_dmg : Decoders → (Bytes → Result (List Bytes)) → Bytes → Result R
  open_dmg decoders parse_plist_blkx file = do
    koly ← read_koly file
    raw ← build_raw_image decoders parse_plist_blkx file koly
    locate_volume raw
