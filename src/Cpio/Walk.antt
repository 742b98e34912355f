-- ===== src/Cpio/Walk.antt =====
-- src/format/cpio.rs: the walks over the headers. The source is the archive's bytes and a position;
-- that a read of it fails for another reason than its end is not modelled.
use newtua_core.Base.{
  ltb, ◌==◌, if◌then◌else◌, equal, length, take, drop, ℕ, zero, suc, ◌+◌, ◌-◌, ◌%◌, ◌^◌, bit_and,
  not, Option, none, some, List, [], ◌∷◌,
}
use newtua_core.Base.Bytes.{Bytes}
use newtua_core.Error.{
  unexpected_eof, corrupt, Result, ok, err, stuck, ◌>>=◌, ◌>>◌, guard, io_err_to_corrupt,
}
use newtua_core.Datetime.{SystemTime, unix_secs_to_systime}
use newtua_core.Cpio.Fields.{
  s_ifmt, s_iflnk, s_ifdir, s_ifreg, magic_odc, magic_len, trailer_name, NewcVariant, newc, crc,
  variant_magic, newc_header_len, newc_mode, newc_mtime, newc_filesize, newc_namesize, newc_check,
  odc_header_len, odc_mode, odc_mtime, odc_namesize, odc_filesize, newc_field, odc_field, pad4,
  advance, trim_nuls,
}

pub record Reader : Type 0 where
  pub bytes : Bytes
  pub at : ℕ

unfoldable pub read_exact : ℕ → Reader → Result (Bytes × Reader)
read_exact n r =
    let got : Bytes = take n (drop r.at r.bytes) in
    if length got == n
    then ok (got, record r { at = r.at + n })
    else err (io_err_to_corrupt unexpected_eof)

unfoldable pub take_exact : ℕ → Reader → Result (Bytes × Reader)
take_exact n r =
    let got : Bytes = take n (drop r.at r.bytes) in
    if length got == n
    then ok (got, record r { at = r.at + n })
    else err (corrupt "cpio: truncated")

-- A relative seek where the distance is an i64, else an absolute one.
unfoldable pub skip_to : ℕ → ℕ → Reader → Reader
skip_to from target r =
    let delta : ℕ = target - from in
    if delta == 0 then r else record r { at = if ltb delta (2 ^ 63) then r.at + delta else target }

pub data KindRaw : Type 0 where
  file dir : KindRaw
  symlink : Bytes → KindRaw

pub record EntryMeta : Type 0 where
  pub kind : KindRaw
  pub offset : ℕ
  pub size : ℕ
  pub mode : ℕ
  pub modified : Option SystemTime
  pub checksum : Option ℕ

-- The fields of a header that the walk uses.
pub record Head : Type 0 where
  pub mode : ℕ
  pub mtime : ℕ
  pub filesize : ℕ
  pub namesize : ℕ
  pub checksum : Option ℕ

-- What one round of a walk does: it meets the trailer, passes over a special node, or pushes a
-- name and its metadata. The walk goes on at a position of the archive.
pub data Step : Type 0 where
  trailer : Step
  skipped : ℕ → Reader → Step
  pushed : Bytes → EntryMeta → ℕ → Reader → Step

abbrev pub Listing : Type 0
Listing = List Bytes × List EntryMeta

-- The end of a round: `break`, or the pushes and the rounds that follow.
abbrev pub continue_with : (ℕ → Reader → Result Listing) → Step → Result Listing
continue_with go trailer = ok ([], [])
continue_with go (skipped next r) = go next r
continue_with go (pushed name meta next r) = go next r >>= λ rest. ok (name ∷ rest.0, meta ∷ rest.1)

-- The loop of both walks.
unfoldable pub scan : (ℕ → Reader → Result Step) → ℕ → ℕ → Reader → Result Listing
scan round zero pos r = stuck
scan round (suc fuel) pos r = round pos r >>= continue_with (scan round fuel)

-- The `check` field, which only crc fills.
unfoldable pub check_field : NewcVariant → Bytes → Result (Option ℕ)
check_field newc header = ok none
check_field crc header = do check ← newc_field header newc_check; ok (some (check % 2 ^ 32))

unfoldable pub newc_head : NewcVariant → Bytes → Result Head
newc_head variant header = do
  mode ← newc_field header newc_mode
  mtime ← newc_field header newc_mtime
  filesize ← newc_field header newc_filesize
  namesize ← newc_field header newc_namesize
  checksum ← check_field variant header
  ok (record {
    mode = mode % 2 ^ 32;
    mtime = mtime;
    filesize = filesize;
    namesize = namesize;
    checksum = checksum;
  })

-- The bounds of a record: after the name, of the body, and of the next record.
pub record Bounds : Type 0 where
  pub after_name : ℕ
  pub body_start : ℕ
  pub after_body : ℕ
  pub next : ℕ

abbrev pub meta_of : KindRaw → ℕ → ℕ → Head → Option ℕ → EntryMeta
meta_of kind offset size h checksum = record {
  kind = kind;
  offset = offset;
  size = size;
  mode = h.mode;
  modified = unix_secs_to_systime h.mtime;
  checksum = checksum;
}

-- `match mode & S_IFMT` of the newc walk
unfoldable pub newc_entry : Head → Bytes → Bounds → Reader → Result Step
newc_entry h name b r =
    let type : ℕ = bit_and h.mode s_ifmt in
    if type == s_ifreg
    then ok (
        pushed name (meta_of file b.body_start h.filesize h h.checksum) b.next
          (skip_to b.after_name b.next r))
    else if type == s_ifdir
    then ok (pushed name (meta_of dir 0 0 h none) b.next (skip_to b.after_name b.next r))
    else if type == s_iflnk
    then (do
      (target, r') ← take_exact h.filesize (skip_to b.after_name b.body_start r)
      ok (
          pushed name (meta_of (symlink (trim_nuls target)) 0 h.filesize h none) b.next
            (skip_to b.after_body b.next r')))
    else ok (skipped b.next (skip_to b.after_name b.next r))

-- `NEWC_HEADER_LEN + namesize` is at most `file_len`, so the sum does not wrap.
unfoldable pub newc_bounds : ℕ → ℕ → Head → Result Bounds
newc_bounds file_len after_name h = do
  body_start ← advance after_name (pad4 (newc_header_len + h.namesize)) file_len
  after_body ← advance body_start h.filesize file_len
  next ← advance after_body (pad4 h.filesize) file_len
  ok (record {
    after_name = after_name;
    body_start = body_start;
    after_body = after_body;
    next = next;
  })

-- What follows the name in a record of either walk.
abbrev pub unless_trailer : Bytes → Result Step → Result Step
unless_trailer name more = if equal name trailer_name then ok trailer else more

unfoldable pub newc_record : ℕ → NewcVariant → ℕ → Reader → Result Step
newc_record file_len variant pos r = do
  after_header ← advance pos newc_header_len file_len
  (header, r₁) ← read_exact newc_header_len r
  guard (equal (take magic_len header) (variant_magic variant))
      (corrupt "cpio: record has no magic")
  h ← newc_head variant header
  guard (not (h.namesize == 0)) (corrupt "cpio: zero-length name")
  after_name ← advance after_header h.namesize file_len
  (name, r₂) ← take_exact h.namesize r₁
  unless_trailer (trim_nuls name)
      (newc_bounds file_len after_name h >>= λ b. newc_entry h (trim_nuls name) b r₂)

-- A record takes bytes of the file, so a round more than the file has bytes is fuel enough.
unfoldable pub scan_newc_seekable : Bytes → ℕ → NewcVariant → Result Listing
scan_newc_seekable src file_len variant =
    scan (newc_record file_len variant) (file_len + 1) 0 (record { bytes = src; at = 0 })

unfoldable pub odc_head : Bytes → Result Head
odc_head header = do
  mode ← odc_field header odc_mode
  mtime ← odc_field header odc_mtime
  namesize ← odc_field header odc_namesize
  filesize ← odc_field header odc_filesize
  ok (record {
    mode = mode % 2 ^ 32;
    mtime = mtime;
    filesize = filesize;
    namesize = namesize;
    checksum = none;
  })

-- `match mode & S_IFMT` of the odc walk, which has no padding
unfoldable pub odc_entry : Head → Bytes → ℕ → ℕ → Reader → Result Step
odc_entry h name after_name after_body r =
    let type : ℕ = bit_and h.mode s_ifmt in
    if type == s_ifreg
    then ok (
        pushed name (meta_of file after_name h.filesize h none) after_body
          (skip_to after_name after_body r))
    else if type == s_ifdir
    then ok (pushed name (meta_of dir 0 0 h none) after_body (skip_to after_name after_body r))
    else if type == s_iflnk
    then (do
      (target, r') ← take_exact h.filesize r
      ok (pushed name (meta_of (symlink (trim_nuls target)) 0 h.filesize h none) after_body r'))
    else ok (skipped after_body (skip_to after_name after_body r))

unfoldable pub odc_record : ℕ → ℕ → Reader → Result Step
odc_record file_len pos r = do
  after_header ← advance pos odc_header_len file_len
  (header, r₁) ← read_exact odc_header_len r
  guard (equal (take magic_len header) magic_odc)
      (corrupt "cpio odc: record does not start with 070707")
  h ← odc_head header
  guard (not (h.namesize == 0)) (corrupt "cpio odc: zero-length name")
  after_name ← advance after_header h.namesize file_len
  (name, r₂) ← take_exact h.namesize r₁
  unless_trailer (trim_nuls name) (
      advance after_name h.filesize file_len >>= λ after_body.
      odc_entry h (trim_nuls name) after_name after_body r₂)

unfoldable pub scan_odc_seekable : Bytes → ℕ → Result Listing
scan_odc_seekable src file_len =
    scan (odc_record file_len) (file_len + 1) 0 (record { bytes = src; at = 0 })
