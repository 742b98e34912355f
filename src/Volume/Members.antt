-- ===== src/Volume/Members.antt =====
-- src/volume.rs: `volume_members` and `split_zip_members`, which look for the files of an archive.
pub mod Gap
use newtua_core.Base.{
  if◌then◌else◌, length, take, replicate, ℕ, zero, suc, ◌+◌, ◌-◌, ◌^◌, Bool, not, Option, none,
  some, List, [], ◌∷◌, ◌++◌,
}
use newtua_core.Base.Bytes.{Bytes}
use newtua_core.Base.Text.{strip_suffix, ends_with, lowercase, decimal}
use newtua_core.Base.Utf8.{is_utf8}
use newtua_core.Error.{missing_volume, Result, ok, err, stuck}
use newtua_core.Macos.{file_name}
use newtua_core.Extract.World.{FsPath}
use newtua_core.Extract.One.{with_file_name}

-- `{n:0width}`
unfoldable pub padded : ℕ → ℕ → Bytes
padded width n = let digits : Bytes = decimal n in replicate (width - length digits) b'0' ++ digits

-- `file_name().and_then(to_str)`
abbrev pub text_or_none : Option Bytes → Option Bytes
text_or_none none = none
text_or_none (some name) = if is_utf8 name then some name else none

abbrev pub or_empty : Option Bytes → Bytes
or_empty none = []
or_empty (some name) = name

-- ".001"
abbrev pub first_suffix : Bytes
first_suffix = b'.' ∷ b'0' ∷ b'0' ∷ b'1' ∷ []

-- ".zip"
abbrev pub zip_suffix : Bytes
zip_suffix = b'.' ∷ b'z' ∷ b'i' ∷ b'p' ∷ []

-- The volume of a number, beside the first.
unfoldable pub volume : FsPath → Bytes → ℕ → FsPath
volume first stem idx = with_file_name first (stem ++ b'.' ∷ padded 3 idx)

unfoldable pub split_volume : FsPath → Bytes → ℕ → ℕ → FsPath
split_volume last stem letter idx = with_file_name last (stem ++ b'.' ∷ letter ∷ padded 2 idx)

abbrev pub cons_found : FsPath → Result (List FsPath) → Result (List FsPath)
cons_found p (ok ps) = ok (p ∷ ps)
cons_found p (err e) = err e
cons_found p stuck = stuck

-- The candidates from `idx` on, up to the first that is not there; `idx` is an u32.
unfoldable pub collect : (ℕ → Option FsPath) → ℕ → ℕ → Result (List FsPath)
collect candidate zero idx = stuck
collect candidate (suc fuel) idx = elim (candidate idx) [
  | none ↦ ok []
  | some p ↦ cons_found p (collect candidate fuel (idx + 1))
]

abbrev pub none_missing : Bytes → Result (List FsPath) → Result (List FsPath)
none_missing name (ok []) = err (missing_volume "")
none_missing name (ok (p ∷ ps)) = ok (p ∷ ps)
none_missing name (err e) = err e
none_missing name stuck = stuck

abbrev pub and_last : FsPath → Result (List FsPath) → Result (Option (List FsPath))
and_last last (ok []) = ok none
and_last last (ok (p ∷ ps)) = ok (some (p ∷ ps ++ last ∷ []))
and_last last (err e) = err e
and_last last stuck = stuck

-- `exists` of paths.
module _ (exists : FsPath → Bool) where
  abbrev pub there : FsPath → Option FsPath
  there p = if exists p then some p else none

  abbrev pub members_of : FsPath → Bytes → Option Bytes → Result (List FsPath)
  members_of first name none = ok (first ∷ [])
  members_of first name (some stem) =
      none_missing name (collect (λ idx. there (volume first stem idx)) (2 ^ 32) 1)

  unfoldable pub volume_members : FsPath → Result (List FsPath)
  volume_members first =
      let name : Bytes = or_empty (text_or_none (file_name first)) in
      members_of first name (strip_suffix first_suffix name)

-- `is_file` of paths.
module _ (is_file : FsPath → Bool) where
  -- The lower-case name where there is a file of it, and else the upper-case one.
  abbrev pub split_candidate : FsPath → Bytes → ℕ → Option FsPath
  split_candidate last stem idx =
      if is_file (split_volume last stem b'z' idx)
      then some (split_volume last stem b'z' idx)
      else if is_file (split_volume last stem b'Z' idx)
      then some (split_volume last stem b'Z' idx)
      else none

  abbrev pub split_of : FsPath → Option Bytes → Result (Option (List FsPath))
  split_of last none = ok none
  split_of last (some name) =
      if not (ends_with (lowercase name) zip_suffix)
      then ok none
      else and_last last (collect (split_candidate last (take (length name - 4) name)) (2 ^ 32) 1)

  unfoldable pub split_zip_members : FsPath → Result (Option (List FsPath))
  split_zip_members last = split_of last (text_or_none (file_name last))
