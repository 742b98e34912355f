-- ===== src/Volume/Join.antt =====
-- src/volume.rs: `join_split_zip`. Files are their bytes; that the file system fails is not modelled.
pub mod Search
pub mod Eocd
use newtua_core.Base.{
  ltb, leb, ◌==◌, if◌then◌else◌, equal, length, get_elem?, get_or, take, drop, ℕ, zero, suc, ◌+◌,
  ◌-◌, ◌*◌, ◌^◌, min, Bool, true, false, not, ◌&&◌, Option, none, some, List, [], ◌∷◌, ◌++◌,
}
use newtua_core.Base.Bytes.{Bytes, u16_max, u64_mod, to_le}
use newtua_core.Error.{
  unexpected_eof, Error, corrupt, missing_volume, Result, ok, err, ◌>>=◌, ◌>>◌, guard,
  io_err_to_corrupt,
}
use newtua_core.Volume.Fields.{
  eocd_sig, eocd64_sig, locator_sig, max_cd_record, le_u16, le_u32, le_u64, splice, eocd16, eocd32,
}
use newtua_core.Volume.Directory.{or_missing, checked_add, rebuild_central_directory}

abbrev pub no_eocd : Error
no_eocd = corrupt "no end-of-central-directory record in the last zip volume"

-- The places below `k`, the last one first.
unfoldable pub eocd_loop : ℕ → Bytes → ℕ → Result ℕ
eocd_loop zero buf window = err no_eocd
eocd_loop (suc p) buf window =
    let next = eocd_loop p buf window in
    if not (equal (take 4 (drop p buf)) eocd_sig)
    then next
    else (do comment ← le_u16 buf (p + 20); (if p + 22 + comment == window then ok p else next))

-- The offset of the record in the file, and the record with its comment.
unfoldable pub find_eocd : Bytes → Result (ℕ × Bytes)
find_eocd file =
    let window : ℕ = min (length file) (22 + 0xffff) in
    let buf : Bytes = drop (length file - window) file in
    if leb 22 window
    then (do p ← eocd_loop (window - 22 + 1) buf window; ok (length file - window + p, drop p buf))
    else err no_eocd

-- A `seek` and a `read_exact`.
unfoldable pub read_at : Bytes → ℕ → ℕ → Result Bytes
read_at file off n =
    let got : Bytes = take n (drop off file) in
    if length got == n then ok got else err (io_err_to_corrupt unexpected_eof)

-- What the locator points at.
unfoldable pub zip64_record : Bytes → List ℕ → Bytes → Result Bytes
zip64_record file bases loc = do
  disk ← le_u32 loc 4
  base ← or_missing (get_elem? bases disk) "volume named by the zip64 locator"
  off ← le_u64 loc 8
  abs ← checked_add base off "zip64 end-of-central-directory offset overflows"
  head ← read_at file abs 56
  guard (equal (take 4 head) eocd64_sig)
      (corrupt "zip64 locator does not point at a zip64 end-of-central-directory record")
  size ← le_u64 head 4
  total ← checked_add size 12 "zip64 record size overflows"
  guard (leb 56 total && leb total (2 ^ 20))
      (corrupt "implausible zip64 end-of-central-directory record size")
  read_at file abs total

abbrev pub zip64_of_locator : Bytes → List ℕ → Bytes → Result (Option Bytes)
zip64_of_locator file bases loc =
    if equal (take 4 loc) locator_sig
    then (do rec ← zip64_record file bases loc; ok (some rec))
    else ok none

unfoldable pub read_zip64_end : Bytes → List ℕ → ℕ → Result (Option Bytes)
read_zip64_end file bases eocd_abs =
    if ltb eocd_abs 20
    then ok none
    else (read_at file (eocd_abs - 20) 20 >>= zip64_of_locator file bases)

-- Where each volume begins in the joined file.
abbrev pub bases_from : ℕ → List Bytes → List ℕ
bases_from len [] = []
bases_from len (m ∷ ms) = len ∷ bases_from (len + length m) ms

abbrev pub joined : List Bytes → Bytes
joined [] = []
joined (m ∷ ms) = m ++ joined ms

abbrev pub last? : List Bytes → Option Bytes
last? [] = none
last? (m ∷ []) = some m
last? (_ ∷ m ∷ ms) = last? (m ∷ ms)

-- Where the directory lies, by the zip64 record or else by the end record.
pub record Directory : Type 0 where
  pub entries : ℕ
  pub cd_size : ℕ
  pub cd_off : ℕ
  pub cd_disk : ℕ

unfoldable pub directory_of : Bytes → ℕ → ℕ → Option Bytes → Result Directory
directory_of eocd eocd_cd_disk members (some rec) = do
  entries ← le_u64 rec 32
  cd_size ← le_u64 rec 40
  cd_off ← le_u64 rec 48
  cd_disk ← le_u32 rec 20
  last_disk ← le_u32 rec 16
  guard (last_disk + 1 == members) (missing_volume "split zip claims another number of volumes")
  ok (record { entries = entries; cd_size = cd_size; cd_off = cd_off; cd_disk = cd_disk })
directory_of eocd eocd_cd_disk members none = do
  entries ← le_u16 eocd 10
  cd_size ← le_u32 eocd 12
  cd_off ← le_u32 eocd 16
  ok (record { entries = entries; cd_size = cd_size; cd_off = cd_off; cd_disk = eocd_cd_disk })

-- The start of the directory in the joined file, with the checks on its extent.
unfoldable pub cd_start_of : Directory → List ℕ → ℕ → Result ℕ
cd_start_of d bases joined_len = do
  cd_base ← or_missing (get_elem? bases d.cd_disk) "volume holding the directory"
  cd_start ← checked_add cd_base d.cd_off "central directory offset overflows"
  cd_end ← checked_add cd_start d.cd_size "central directory size overflows"
  guard (leb cd_end joined_len)
      (corrupt "central directory runs past the end of the joined archive")
  guard (leb d.cd_size (min (d.entries * max_cd_record) (u64_mod - 1)))
      (corrupt "central directory cannot hold exactly that many records")
  ok cd_start

-- The zip64 record and its locator, rewritten for one volume.
abbrev pub new_zip64_tail : Option Bytes → Directory → ℕ → ℕ → Bytes
new_zip64_tail none d cd_start new_cd_size = []
new_zip64_tail (some rec) d cd_start new_cd_size =
    let rec₁ : Bytes = splice rec 16 (to_le 4 0) in
    let rec₂ : Bytes = splice rec₁ 20 (to_le 4 0) in
    let rec₃ : Bytes = splice rec₂ 24 (to_le 8 d.entries) in
    let rec₄ : Bytes = splice rec₃ 32 (to_le 8 d.entries) in
    let rec₅ : Bytes = splice rec₄ 40 (to_le 8 new_cd_size) in
    let rec₆ : Bytes = splice rec₅ 48 (to_le 8 cd_start) in
    rec₆ ++ (locator_sig ++ (to_le 4 0 ++ (to_le 8 (cd_start + new_cd_size) ++ to_le 4 1)))

abbrev pub is_some : Option Bytes → Bool
is_some none = false
is_some (some _) = true

unfoldable pub new_eocd : Bytes → Directory → ℕ → ℕ → Bool → Result Bytes
new_eocd eocd d cd_start new_cd_size has_zip64 = do
  here₀ ← le_u16 eocd 8
  here ← eocd16 here₀ d.entries has_zip64
  total₀ ← le_u16 eocd 10
  total ← eocd16 total₀ d.entries has_zip64
  size₀ ← le_u32 eocd 12
  size32 ← eocd32 size₀ new_cd_size has_zip64
  off₀ ← le_u32 eocd 16
  off32 ← eocd32 off₀ cd_start has_zip64
  let eocd₁ = splice (splice eocd 4 (to_le 2 0)) 6 (to_le 2 0)
  let eocd₂ = splice (splice eocd₁ 8 (to_le 2 here)) 10 (to_le 2 total)
  ok (splice (splice eocd₂ 12 (to_le 4 size32)) 16 (to_le 4 off32))

-- Steps 1 to 4, on the end record found in the last volume.
unfoldable pub join_members : List Bytes → ℕ → Bytes → ℕ → Result Bytes
join_members members eocd_abs eocd eocd_cd_disk = do
  let file = joined members
  let bases = bases_from 0 members
  zip64 ← read_zip64_end file bases eocd_abs
  d ← directory_of eocd eocd_cd_disk (length members) zip64
  cd_start ← cd_start_of d bases (length file)
  cd ← read_at file cd_start d.cd_size
  new_cd ← rebuild_central_directory cd d.entries bases cd_start
  tail ← new_eocd eocd d cd_start (length new_cd) (is_some zip64)
  ok (take cd_start file ++ (new_cd ++ (new_zip64_tail zip64 d cd_start (length new_cd) ++ tail)))

-- `eocd_disk != u16::MAX && eocd_disk as usize + 1 != members.len()`
abbrev pub wrong_count : ℕ → ℕ → Bool
wrong_count eocd_disk members = not (eocd_disk == u16_max) && not (eocd_disk + 1 == members)

-- The end record names the disks; both 0 is an archive of one volume.
unfoldable pub join_found : List Bytes → ℕ → Bytes → ℕ → ℕ → Result (Option Bytes)
join_found members eocd_in_last eocd eocd_disk eocd_cd_disk =
    if eocd_disk == 0 && eocd_cd_disk == 0
    then ok none
    else if wrong_count eocd_disk (length members)
    then err (missing_volume "split zip claims another number of volumes")
    else (let eocd_abs : ℕ = get_or (bases_from 0 members) (length members - 1) 0 + eocd_in_last in
        join_members members eocd_abs eocd eocd_cd_disk >>= λ file. ok (some file))

unfoldable pub join_on : List Bytes → Option Bytes → Result (Option Bytes)
join_on members none = ok none
join_on members (some last) = do
  (eocd_in_last, eocd) ← find_eocd last
  eocd_disk ← le_u16 eocd 4
  eocd_cd_disk ← le_u16 eocd 6
  join_found members eocd_in_last eocd eocd_disk eocd_cd_disk

unfoldable pub join_split_zip : List Bytes → Result (Option Bytes)
join_split_zip members = join_on members (last? members)
