-- ===== src/Crx.antt =====
-- src/format/crx.rs: the zip behind the header of a Chrome extension.
pub mod Written
mod Tests
use newtua_core.Base.{
  ltb, ◌==◌, if◌then◌else◌, equal, length, take, drop, ℕ, ◌+◌, ◌-◌, not, ◌||◌, none, [], ◌∷◌,
}
use newtua_core.Base.Bytes.{Bytes, from_le}
use newtua_core.Base.Text.{starts_with}
use newtua_core.Error.{Error, unsupported, corrupt, Result, ok, err, ◌>>=◌}
use newtua_core.Archive.Confidence
use newtua_core.Archive.Confidence.{Confidence as Level}

-- "Cr24"
abbrev pub crx_magic : Bytes
crx_magic = b'C' ∷ b'r' ∷ b'2' ∷ b'4' ∷ []

abbrev pub number_at : Bytes → ℕ → ℕ
number_at head off = from_le (take 4 (drop off head))

unfoldable pub crx_zip_offset : Bytes → Result ℕ
crx_zip_offset head =
    if ltb (length head) 12 || not (equal (take 4 head) crx_magic)
    then err (corrupt "crx: short header or bad magic")
    else if number_at head 4 == 3
    then ok (12 + number_at head 8)
    else if number_at head 4 == 2
    then (if ltb (length head) 16
        then err (corrupt "crx2: short header")
        else ok (16 + number_at head 8 + number_at head 12))
    else err (unsupported "crx" "CRX version")

unfoldable pub probe : Bytes → Level
probe header = if starts_with header crx_magic then Confidence.magic else Confidence.none

-- `read_exact` of the next `n` bytes.
abbrev pub read_exact : Bytes → ℕ → Bytes → Error → Result Bytes
read_exact file n got e = if length got == n then ok got else err e

module _ {R : Type 0} (open_zip : Bytes → Result R) where
  abbrev pub open_behind : Bytes → ℕ → ℕ → Result R
  open_behind file consumed zip_offset =
      if ltb zip_offset consumed
      then err (corrupt "crx: header overlaps zip")
      else if ltb (length (take (zip_offset - consumed) (drop consumed file)))
          (zip_offset - consumed)
      then err (corrupt "crx: truncated before zip")
      else open_zip (drop (zip_offset - consumed) (drop consumed file))

  unfoldable pub open_crx : Bytes → Result R
  open_crx file = do
    first ← read_exact file 12 (take 12 file) (corrupt "crx header")
    let consumed : ℕ = if number_at first 4 == 2 then 16 else 12
    head ← read_exact file consumed (take consumed file) (corrupt "crx2 header")
    zip_offset ← crx_zip_offset head
    open_behind file consumed zip_offset
