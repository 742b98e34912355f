-- ===== src/Volume/Directory.antt =====
-- src/volume.rs: `rebuild_central_directory`.
pub mod Zip64
use newtua_core.Base.{
  ltb, leb, ◌==◌, if◌then◌else◌, equal, length, get_elem?, take, drop, ℕ, zero, suc, ◌+◌, ◌%◌, ◌^◌,
  String, Bool, ◌&&◌, Option, none, some, List, [], ◌∷◌, ◌++◌,
}
use newtua_core.Base.Bytes.{Bytes, u16_max, u32_max, u64_mod, slice?, to_le}
use newtua_core.Error.{corrupt, missing_volume, Result, ok, err, ◌>>=◌, ◌>>◌, guard}
use newtua_core.Volume.Fields.{
  cd_sig, zip64_extra_id, zip_unsupported, le_u16, le_u32, splice, split_extra, Zip64Extra,
  parse_zip64_extra,
}

abbrev pub unwrap_or {ℓ} : {A : Type ℓ} → Option A → A → A
unwrap_or none d = d
unwrap_or (some a) d = a

abbrev pub or_missing : Option ℕ → String → Result ℕ
or_missing none what = err (missing_volume what)
or_missing (some base) what = ok base

-- `checked_add` on u64
unfoldable pub checked_add : ℕ → ℕ → String → Result ℕ
checked_add a b what = if ltb (a + b) u64_mod then ok (a + b) else err (corrupt what)

abbrev pub le_bytes : ℕ → Option ℕ → Bytes
le_bytes n none = []
le_bytes n (some v) = to_le n v

-- The fields of a record that the rewriting reads, and its variable parts.
pub record CdRecord : Type 0 where
  pub fixed : Bytes
  pub csize : ℕ
  pub usize : ℕ
  pub disk_raw : ℕ
  pub lho_raw : ℕ
  pub name : Bytes
  pub extra : Bytes
  pub comment : Bytes
  pub end : ℕ

abbrev pub or_truncated : Option Bytes → Result Bytes
or_truncated none = err (corrupt "central directory record is truncated")
or_truncated (some fixed) = ok fixed

unfoldable pub read_record : Bytes → ℕ → Result CdRecord
read_record cd pos = do
  fixed ← or_truncated (slice? cd pos 46)
  guard (equal (take 4 fixed) cd_sig) (corrupt "bad central directory record signature")
  csize ← le_u32 fixed 20
  usize ← le_u32 fixed 24
  nlen ← le_u16 fixed 28
  elen ← le_u16 fixed 30
  clen ← le_u16 fixed 32
  disk_raw ← le_u16 fixed 34
  lho_raw ← le_u32 fixed 42
  let name = pos + 46
  let extra = name + nlen
  let comment = extra + elen
  let end = comment + clen
  guard (leb end (length cd)) (corrupt "central directory record runs past the directory")
  ok (record {
    fixed = fixed;
    csize = csize;
    usize = usize;
    disk_raw = disk_raw;
    lho_raw = lho_raw;
    name = take nlen (drop name cd);
    extra = take elen (drop extra cd);
    comment = take clen (drop comment cd);
    end = end;
  })

-- The absolute offset of the record's local header, from its volume and its offset there.
unfoldable pub absolute_offset : CdRecord → Zip64Extra → List ℕ → ℕ → Result ℕ
absolute_offset r z64 bases data_end = do
  let disk = unwrap_or z64.disk r.disk_raw
  let lho = unwrap_or z64.lho r.lho_raw
  base ← or_missing (get_elem? bases disk) "volume referenced by the directory"
  abs ← checked_add base lho "local header offset overflows"
  guard (ltb (abs + 30) u64_mod && leb (abs + 30) data_end)
      (corrupt "local header offset lies outside the joined archive")
  ok abs

abbrev pub lho_placeholder : ℕ → Bool
lho_placeholder abs = leb u32_max abs

-- The values whose classic fields keep their placeholder.
unfoldable pub zip64_data : Zip64Extra → ℕ → Bytes
zip64_data z64 abs =
    le_bytes 8 z64.usize
    ++ (le_bytes 8 z64.csize ++ (if lho_placeholder abs then to_le 8 abs else []))

abbrev pub zip64_field : Bytes → Bytes
zip64_field [] = []
zip64_field (b ∷ bs) = to_le 2 zip64_extra_id ++ (to_le 2 (length (b ∷ bs) % 2 ^ 16) ++ b ∷ bs)

-- The record as it is written, for its new extra area.
unfoldable pub new_record : CdRecord → ℕ → Bytes → Bytes
new_record r abs new_extra =
    let new_lho : ℕ = if lho_placeholder abs then u32_max else abs in
    splice (splice (splice r.fixed 30 (to_le 2 (length new_extra))) 34 (to_le 2 0)) 42
      (to_le 4 new_lho)
    ++ (r.name ++ (new_extra ++ r.comment))

unfoldable pub rewrite_record : CdRecord → List ℕ → ℕ → Result Bytes
rewrite_record r bases data_end = do
  let (z64_bytes, other_extra) = split_extra r.extra
  z64 ←
      parse_zip64_extra (unwrap_or z64_bytes []) (r.usize == u32_max) (r.csize == u32_max)
        (r.lho_raw == u32_max) (r.disk_raw == u16_max)
  abs ← absolute_offset r z64 bases data_end
  let new_extra = zip64_field (zip64_data z64 abs) ++ other_extra
  guard (leb (length new_extra) u16_max)
      (zip_unsupported "central directory record grew past its 64 KiB extra limit")
  ok (new_record r abs new_extra)

-- `for _ in 0..entries`
unfoldable pub rebuild_loop : ℕ → Bytes → List ℕ → ℕ → ℕ → Bytes → Result (Bytes × ℕ)
rebuild_loop zero cd bases data_end pos out = ok (out, pos)
rebuild_loop (suc entries) cd bases data_end pos out = do
  r ← read_record cd pos
  rec ← rewrite_record r bases data_end
  rebuild_loop entries cd bases data_end r.end (out ++ rec)

unfoldable pub rebuild_central_directory : Bytes → ℕ → List ℕ → ℕ → Result Bytes
rebuild_central_directory cd entries bases data_end = do
  (out, pos) ← rebuild_loop entries cd bases data_end 0 []
  guard (pos == length cd) (corrupt "central directory has trailing bytes")
  ok out
