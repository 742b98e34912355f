-- ===== src/Detect/Compressors.antt =====
-- src/detect.rs: which compressor a file is wrapped in, by its first bytes or by its name, and the
-- name of what is inside.
use newtua_core.Base.{if◌then◌else◌, Option, none, some, List, [], ◌∷◌}
use newtua_core.Base.Bytes.{Bytes}
use newtua_core.Base.Text.{starts_with, strip_suffix, ends_with}
use newtua_core.Base.Utf8.{is_utf8}

-- src/decompress.rs
pub data Compressor : Type 0 where
  gzip bzip2 xz zstd lzma lzc lz4 brotli snappy lzip : Compressor

abbrev pub gzip_magic : Bytes
gzip_magic = 0x1f ∷ 0x8b ∷ []

-- "BZh"
abbrev pub bzip2_magic : Bytes
bzip2_magic = b'B' ∷ b'Z' ∷ b'h' ∷ []

abbrev pub xz_magic : Bytes
xz_magic = 0xfd ∷ 0x37 ∷ 0x7a ∷ 0x58 ∷ 0x5a ∷ 0x00 ∷ []

abbrev pub zstd_magic : Bytes
zstd_magic = 0x28 ∷ 0xb5 ∷ 0x2f ∷ 0xfd ∷ []

abbrev pub lzc_magic : Bytes
lzc_magic = 0x1f ∷ 0x9d ∷ []

abbrev pub lz4_magic : Bytes
lz4_magic = 0x04 ∷ 0x22 ∷ 0x4d ∷ 0x18 ∷ []

abbrev pub snappy_magic : Bytes
snappy_magic = 0xff ∷ 0x06 ∷ 0 ∷ 0 ∷ 0x73 ∷ 0x4e ∷ 0x61 ∷ 0x50 ∷ 0x70 ∷ 0x59 ∷ []

-- "LZIP" and the version
abbrev pub lzip_magic : Bytes
lzip_magic = b'L' ∷ b'Z' ∷ b'I' ∷ b'P' ∷ 1 ∷ []

unfoldable pub detect_compressor : Bytes → Option Compressor
detect_compressor header =
    if starts_with header gzip_magic
    then some gzip
    else if starts_with header bzip2_magic
    then some bzip2
    else if starts_with header xz_magic
    then some xz
    else if starts_with header zstd_magic
    then some zstd
    else if starts_with header lzc_magic
    then some lzc
    else if starts_with header lz4_magic
    then some lz4
    else if starts_with header snappy_magic
    then some snappy
    else if starts_with header lzip_magic
    then some lzip
    else none

-- A suffix, and the compressor that it stands for where the content does not tell.
abbrev pub Ext : Type 0
Ext = Bytes × Option Compressor

-- ".gz", ".bz2", ".xz", ".zst", ".Z", ".lz4", ".br", ".sz", ".lzma" and ".lz"
abbrev pub compressor_exts : List Ext
compressor_exts =
    (b'.' ∷ b'g' ∷ b'z' ∷ [], none)
    ∷ (b'.' ∷ b'b' ∷ b'z' ∷ b'2' ∷ [], none)
    ∷ (b'.' ∷ b'x' ∷ b'z' ∷ [], none)
    ∷ (b'.' ∷ b'z' ∷ b's' ∷ b't' ∷ [], none)
    ∷ (b'.' ∷ b'Z' ∷ [], none)
    ∷ (b'.' ∷ b'l' ∷ b'z' ∷ b'4' ∷ [], none)
    ∷ (b'.' ∷ b'b' ∷ b'r' ∷ [], some brotli)
    ∷ (b'.' ∷ b's' ∷ b'z' ∷ [], none)
    ∷ (b'.' ∷ b'l' ∷ b'z' ∷ b'm' ∷ b'a' ∷ [], some lzma)
    ∷ (b'.' ∷ b'l' ∷ b'z' ∷ [], none)
    ∷ []

-- `find_map`, over the rows that name a compressor.
unfoldable pub find_by_ext : List Ext → Bytes → Option Compressor
find_by_ext [] lower_name = none
find_by_ext ((ext, none) ∷ exts) lower_name = find_by_ext exts lower_name
find_by_ext ((ext, some comp) ∷ exts) lower_name =
    let rest = find_by_ext exts lower_name in if ends_with lower_name ext then some comp else rest

unfoldable pub detect_compressor_by_ext : Bytes → Option Compressor
detect_compressor_by_ext lower_name = find_by_ext compressor_exts lower_name

abbrev pub or_else {ℓ} : {A : Type ℓ} → Option A → Option A → Option A
or_else (some a) later = some a
or_else none later = later

unfoldable pub strip_exts : List Ext → Bytes → Option Bytes
strip_exts [] name = none
strip_exts (ext ∷ exts) name = or_else (strip_suffix ext.0 name) (strip_exts exts name)

abbrev pub or_whole : Bytes → Option Bytes → Bytes
or_whole name none = name
or_whole name (some stem) = stem

-- "data"
abbrev pub data_name : Bytes
data_name = b'd' ∷ b'a' ∷ b't' ∷ b'a' ∷ []

-- `stem_without_compressor_ext`, on the file name as text.
unfoldable pub stem_of_name : Bytes → Bytes
stem_of_name name = or_whole name (strip_exts compressor_exts name)

abbrev pub text_or_data : Option Bytes → Bytes
text_or_data none = data_name
text_or_data (some name) = if is_utf8 name then name else data_name

unfoldable pub stem_without_compressor_ext : Option Bytes → Bytes
stem_without_compressor_ext file_name = stem_of_name (text_or_data file_name)
