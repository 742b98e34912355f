-- ===== src/AppImage/Written.antt =====
-- src/format/appimage.rs on an image whose ELF header a writer laid out.
use newtua_core.Base.{ℕ, ◌^◌, ◌≤◌, ◌<◌, ◌≡◌, ◌⊎◌}
use newtua_core.Base.Bytes.{Bytes}
use newtua_core.Error.{corrupt, Result, ok, err}

-- What becomes of the end of a section table in a file of `len` bytes.
pub data Placed (offset len : ℕ) : Result ℕ → Type 0 where
  reached : 0 < offset → offset < len → offset < 2 ^ 64 → Placed offset len (ok offset)
  overflowing :
      2 ^ 64 ≤ offset → Placed offset len (err (corrupt "appimage: section-table offset overflow"))
  out_of_range :
      (offset ≡ 0) ⊎ (len ≤ offset)
      → Placed offset len (err (corrupt "appimage: computed fs offset out of range"))
