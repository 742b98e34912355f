-- ===== src/Rpm.antt =====
-- src/format/rpm.rs: the payload of an RPM package. The header's tags and the payload are what the
-- rpm crate gives, and the decoders and the cpio handler are parameters.
mod Tests
use newtua_core.Base.{if◌then◌else◌, equal, not, ◌||◌, Option, none, some, [], ◌∷◌}
use newtua_core.Base.Bytes.{Bytes}
use newtua_core.Base.Text.{starts_with}
use newtua_core.Error.{unsupported, Result, ok, err, ◌>>=◌}
use newtua_core.Detect.Compressors.{Compressor, gzip, bzip2, xz, zstd, lzma}
use newtua_core.Archive.Confidence
use newtua_core.Archive.Confidence.{Confidence as Level}

abbrev pub lead_magic : Bytes
lead_magic = 0xed ∷ 0xab ∷ 0xee ∷ 0xdb ∷ []

unfoldable pub probe : Bytes → Level
probe header = if starts_with header lead_magic then Confidence.magic else Confidence.none

-- "cpio", "gzip", "xz", "zstd", "lzma", "bzip2" and "none"
abbrev pub cpio_name : Bytes
cpio_name = b'c' ∷ b'p' ∷ b'i' ∷ b'o' ∷ []

abbrev pub gzip_name : Bytes
gzip_name = b'g' ∷ b'z' ∷ b'i' ∷ b'p' ∷ []

abbrev pub xz_name : Bytes
xz_name = b'x' ∷ b'z' ∷ []

abbrev pub zstd_name : Bytes
zstd_name = b'z' ∷ b's' ∷ b't' ∷ b'd' ∷ []

abbrev pub lzma_name : Bytes
lzma_name = b'l' ∷ b'z' ∷ b'm' ∷ b'a' ∷ []

abbrev pub bzip2_name : Bytes
bzip2_name = b'b' ∷ b'z' ∷ b'i' ∷ b'p' ∷ b'2' ∷ []

abbrev pub none_name : Bytes
none_name = b'n' ∷ b'o' ∷ b'n' ∷ b'e' ∷ []

unfoldable pub map_payload_compressor : Bytes → Result (Option Compressor)
map_payload_compressor s =
    if equal s gzip_name
    then ok (some gzip)
    else if equal s xz_name
    then ok (some xz)
    else if equal s zstd_name
    then ok (some zstd)
    else if equal s lzma_name
    then ok (some lzma)
    else if equal s bzip2_name
    then ok (some bzip2)
    else if equal s [] || equal s none_name
    then ok none
    else err (unsupported "rpm" "payload compressor")

-- The two tags that are read, and the payload.
pub record Package : Type 0 where
  pub payload_format : Option Bytes
  pub payload_compressor : Option Bytes
  pub payload : Bytes

abbrev pub or_text : Option Bytes → Bytes → Bytes
or_text none text = text
or_text (some s) text = s

module _ {R : Type 0} (decompressor : Compressor → Bytes → Result Bytes)
    (open_cpio : Bytes → Result R) where
  abbrev pub open_payload : Bytes → Option Compressor → Result R
  open_payload payload none = open_cpio payload
  open_payload payload (some c) = decompressor c payload >>= open_cpio

  -- `open`, on a package whose header could be parsed.
  unfoldable pub open_rpm : Package → Result R
  open_rpm pkg =
      if not (equal (or_text pkg.payload_format cpio_name) cpio_name)
      then err (unsupported "rpm" "payload format")
      else map_payload_compressor (or_text pkg.payload_compressor []) >>= open_payload pkg.payload
