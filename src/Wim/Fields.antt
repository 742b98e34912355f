-- ===== src/Wim/Fields.antt =====
-- src/format/wim.rs: the header, the resource headers and the lookup table.
pub mod Written
use newtua_core.Base.{
  ltb, leb, ◌==◌, if◌then◌else◌, equal, length, take, drop, ℕ, zero, suc, ◌/◌, ◌%◌, ◌^◌, max,
  bit_and, Bool, true, false, not, ◌&&◌, Option, none, some, List, [], ◌∷◌,
}
use newtua_core.Base.Bytes.{Bytes, from_le}
use newtua_core.Error.{corrupt, Result, ok, err, ◌>>=◌}

-- "MSWIM", with zeros to eight bytes
abbrev pub magic : Bytes
magic = b'M' ∷ b'S' ∷ b'W' ∷ b'I' ∷ b'M' ∷ 0 ∷ 0 ∷ 0 ∷ []

abbrev pub header_len : ℕ
header_len = 208

abbrev pub flag_spanned : ℕ
flag_spanned = 0x0000_0008

abbrev pub flag_header_compression : ℕ
flag_header_compression = 0x0000_0002

abbrev pub flag_compress_xpress : ℕ
flag_compress_xpress = 0x0002_0000

abbrev pub flag_compress_lzx : ℕ
flag_compress_lzx = 0x0004_0000

abbrev pub flag_compress_lzms : ℕ
flag_compress_lzms = 0x0008_0000

pub data Compressor : Type 0 where
  xpress lzx lzms : Compressor

pub record ResourceHeader : Type 0 where
  pub size_on_disk : ℕ
  pub flags : ℕ
  pub offset : ℕ
  pub original_size : ℕ

pub record WimHeader : Type 0 where
  pub chunk_size : ℕ
  pub compressor : Option Compressor
  pub part_number : ℕ
  pub total_parts : ℕ
  pub image_count : ℕ
  pub offset_table : ResourceHeader
  pub boot_metadata : ResourceHeader

-- `b[off..off + n]` as a number; the slice lies inside the buffer.
abbrev pub le_at : ℕ → Bytes → ℕ → ℕ
le_at n b off = from_le (take n (drop off b))

-- `flags & mask != 0`
abbrev pub has_flag : ℕ → ℕ → Bool
has_flag flags mask = not (bit_and flags mask == 0)

abbrev pub flag_metadata : ℕ
flag_metadata = 0x02

abbrev pub flag_compressed : ℕ
flag_compressed = 0x04

abbrev pub resource_header_at : Bytes → ResourceHeader
resource_header_at b = record {
  size_on_disk = le_at 8 b 0 % 2 ^ 56;
  flags = le_at 8 b 0 / 2 ^ 56 % 256;
  offset = le_at 8 b 8;
  original_size = le_at 8 b 16;
}

unfoldable pub parse_resource_header : Bytes → Result ResourceHeader
parse_resource_header b =
    if ltb (length b) 24
    then err (corrupt "wim: resource header shorter than 24 bytes")
    else ok (resource_header_at b)

unfoldable pub is_metadata : ResourceHeader → Bool
is_metadata rh = has_flag rh.flags flag_metadata

unfoldable pub is_compressed : ResourceHeader → Bool
is_compressed rh = has_flag rh.flags flag_compressed

abbrev pub spanned : WimHeader → Bool
spanned h = ltb 1 h.total_parts

-- The one codec that the flags name.
abbrev pub one_codec : Bool → Bool → Bool → Result (Option Compressor)
one_codec true false false = ok (some xpress)
one_codec false true false = ok (some lzx)
one_codec false false true = ok (some lzms)
one_codec _ _ _ = err (corrupt "wim: HEADER_COMPRESSION set but compressor flags are ambiguous")

unfoldable pub compressor_of : ℕ → Result (Option Compressor)
compressor_of dw_flags =
    if has_flag dw_flags flag_header_compression
    then one_codec (has_flag dw_flags flag_compress_xpress) (has_flag dw_flags flag_compress_lzx)
        (has_flag dw_flags flag_compress_lzms)
    else ok none

-- The flag makes an image spanned whatever the number of its parts says.
unfoldable pub parts_of : Bool → ℕ → ℕ
parts_of spanned_flag total = if spanned_flag && leb total 1 then max total 2 else total

unfoldable pub parse_header : Bytes → Result WimHeader
parse_header b =
    if ltb (length b) header_len
    then err (corrupt "wim: header shorter than 208 bytes")
    else if not (equal (take 8 b) magic)
    then err (corrupt "wim: bad magic")
    else do
      offset_table ← parse_resource_header (take 24 (drop 48 b))
      boot_metadata ← parse_resource_header (take 24 (drop 96 b))
      compressor ← compressor_of (le_at 4 b 16)
      ok (record {
        chunk_size = le_at 4 b 20;
        compressor = compressor;
        part_number = le_at 2 b 40;
        total_parts = parts_of (has_flag (le_at 4 b 16) flag_spanned) (le_at 2 b 42);
        image_count = le_at 4 b 44;
        offset_table = offset_table;
        boot_metadata = boot_metadata;
      })

pub record LookupEntry : Type 0 where
  pub resource : ResourceHeader
  pub hash : Bytes

abbrev pub lookup_entry_len : ℕ
lookup_entry_len = 50

-- `n` entries of the table.
unfoldable pub lookup_entries : ℕ → Bytes → Result (List LookupEntry)
lookup_entries zero bytes = ok []
lookup_entries (suc n) bytes =
    let rest = lookup_entries n (drop lookup_entry_len bytes) in
    parse_resource_header (take 24 bytes) >>= λ resource. rest >>= λ entries.
    ok (record { resource = resource; hash = take 20 (drop 30 bytes) } ∷ entries)

unfoldable pub parse_lookup_table : Bytes → Result (List LookupEntry)
parse_lookup_table bytes =
    if not (length bytes % lookup_entry_len == 0)
    then err (corrupt "wim: lookup table size is not a multiple of 50")
    else lookup_entries (length bytes / lookup_entry_len) bytes
