-- ===== src/Cpio/Listing.antt =====
-- src/format/cpio.rs: the entry list, opening an archive, and reading an entry.
use newtua_core.Base.{
  leb, ◌==◌, if◌then◌else◌, equal, length, get_elem?, get_or, take, drop, ℕ, suc, Bool, true, false,
  not, ◌&&◌, ◌||◌, Option, none, some, List, [], ◌∷◌, map,
}
use newtua_core.Base.Bytes.{Bytes}
use newtua_core.Error.{corrupt, invalid_index, Result, ok, err, ◌>>=◌}
use newtua_core.Archive.{EntryKind, Entry, OpenOptions}
use newtua_core.Archive.Confidence
use newtua_core.Archive.Confidence.{Confidence as Level}
use newtua_core.Encoding.{Codecs, decode_names}
use newtua_core.Cpio.Fields.{
  magic_newc, magic_crc, magic_odc, magic_len, is_supported_magic, newc, crc, trim_end,
  summing_write,
}
use newtua_core.Cpio.Walk.{
  read_exact, KindRaw, file, dir, symlink, EntryMeta, Listing, scan_newc_seekable,
  scan_odc_seekable,
}

pub record Body : Type 0 where
  pub offset : ℕ
  pub size : ℕ
  pub checksum : Option ℕ

unfoldable pub probe : Bytes → Level
probe header =
    if leb magic_len (length header) && is_supported_magic (take magic_len header)
    then Confidence.magic
    else Confidence.none

unfoldable pub is_symlink : KindRaw → Bool
is_symlink (symlink t) = true
is_symlink _ = false

unfoldable pub any_symlink : List EntryMeta → Bool
any_symlink [] = false
any_symlink (m ∷ ms) = is_symlink m.kind || any_symlink ms

abbrev pub raw_target : KindRaw → Bytes
raw_target (symlink t) = t
raw_target _ = []

-- `strip_prefix("./").unwrap_or(name)`
unfoldable pub strip_dot_slash : Bytes → Bytes
strip_dot_slash (a ∷ b ∷ cs) = if a == b'.' && b == b'/' then cs else a ∷ b ∷ cs
strip_dot_slash name = name

-- `target` is the decoded text for a symlink.
unfoldable pub entry_kind : KindRaw → Bytes → EntryKind
entry_kind file target = EntryKind.file
entry_kind dir target = EntryKind.dir
entry_kind (symlink t) target = EntryKind.symlink target

unfoldable pub body_of : KindRaw → EntryMeta → Option Body
body_of file m = some (record { offset = m.offset; size = m.size; checksum = m.checksum })
body_of dir m = none
body_of (symlink t) m = none

unfoldable pub entry_of : EntryMeta → Bytes → Bytes → Bytes → Entry
entry_of m raw_name name target = record {
  path_raw = raw_name;
  path = strip_dot_slash (trim_end b'/' name);
  kind = entry_kind m.kind target;
  size = m.size;
  mode = some m.mode;
  is_encrypted = false;
  modified = m.modified;
  is_resource_fork = false;
}

-- The loop of `build_entries` at index `i` of the decoded lists.
unfoldable pub build_loop :
    ℕ → List EntryMeta → List Bytes → List Bytes → List Bytes → List Entry × List (Option Body)
build_loop i (m ∷ ms) (raw ∷ raws) names targets =
    let (es, bs) = build_loop (suc i) ms raws names targets in
    (entry_of m raw (get_or names i []) (get_or targets i []) ∷ es, body_of m.kind m ∷ bs)
build_loop i _ _ names targets = ([], [])

-- An open archive: the source and the parallel lists of entries and bodies.
pub record CpioSeekReader : Type 0 where
  pub src : Bytes
  pub entries : List Entry
  pub bodies : List (Option Body)

-- The variant's walk.
unfoldable pub scan_magic : Bytes → Bytes → ℕ → Result Listing
scan_magic magic src file_len =
    if equal magic magic_odc
    then scan_odc_seekable src file_len
    else if equal magic magic_newc
    then scan_newc_seekable src file_len newc
    else if equal magic magic_crc
    then scan_newc_seekable src file_len crc
    else err (corrupt "unsupported cpio magic")

module _ (c : Codecs) where
  unfoldable pub build_entries :
      List Bytes → List EntryMeta → OpenOptions → List Entry × List (Option Body)
  build_entries raw_names metas opts =
      let names : List Bytes = decode_names c raw_names opts.encoding_override in
      let targets : List Bytes =
        if any_symlink metas
        then decode_names c (map (λ m. raw_target m.kind) metas) opts.encoding_override
        else [] in
      build_loop 0 metas raw_names names targets

  unfoldable pub open_seekable : Bytes → ℕ → OpenOptions → Result CpioSeekReader
  open_seekable inner file_len opts = do
    (magic, _) ← read_exact magic_len (record { bytes = inner; at = 0 })
    (raw_names, metas) ← scan_magic magic inner file_len
    let built = build_entries raw_names metas opts
    ok (record { src = inner; entries = built.0; bodies = built.1 })

unfoldable pub verify_checksum : Option ℕ → ℕ → Result (Unit {0})
verify_checksum none actual = ok tt
verify_checksum (some want) actual =
    if not (want == actual) then err (corrupt "cpio crc: checksum mismatch") else ok tt

-- `sum` of the copy: through a `SummingWriter` where a checksum is declared, else 0.
abbrev pub copy_sum : Option ℕ → Bytes → ℕ
copy_sum none copied = 0
copy_sum (some want) copied =
    (summing_write (length copied) copied (record { inner = []; sum = 0 })).sum

-- The sink's bytes, and the outcome: the bytes are out before the checks are made.
unfoldable pub read_body : Bytes → Body → Bytes × Result (Unit {0})
read_body src b =
    if b.size == 0
    then ([], verify_checksum b.checksum 0)
    else (let copied : Bytes = take b.size (drop b.offset src) in
        (
          copied,
          if not (length copied == b.size)
              then err (corrupt "cpio: truncated body")
              else verify_checksum b.checksum (copy_sum b.checksum copied),
        ))

unfoldable pub read_slot : Bytes → ℕ → Option (Option Body) → Bytes × Result (Unit {0})
read_slot src idx none = ([], err (invalid_index idx))
read_slot src idx (some none) = ([], ok tt)
read_slot src idx (some (some b)) = read_body src b

unfoldable pub read_entry : CpioSeekReader → ℕ → Bytes × Result (Unit {0})
read_entry reader idx = read_slot reader.src idx (get_elem? reader.bodies idx)
