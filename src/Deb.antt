-- ===== src/Deb.antt =====
-- src/format/deb.rs: the payload of a Debian package. The members are what the ar crate gives, and
-- the decoders and the tar handler are parameters.
pub mod Payload
mod Tests
use newtua_core.Base.{
  leb, if◌then◌else◌, length, take, drop, ◌&&◌, Option, none, some, List, [], ◌∷◌,
}
use newtua_core.Base.Bytes.{Bytes}
use newtua_core.Base.Text.{starts_with, ends_with, lowercase}
use newtua_core.Base.Utf8.{from_utf8_lossy}
use newtua_core.Error.{ErrorKind, unsupported, corrupt, Result, ok, err, ◌>>=◌, io_err_to_corrupt}
use newtua_core.Detect.Compressors.{Compressor, lzma, detect_compressor, or_else}
use newtua_core.Detect.Single.{is_tar}
use newtua_core.Archive.Confidence
use newtua_core.Archive.Confidence.{Confidence as Level}

-- What `next_entry` gives: a member with its name and bytes, or an error.
pub data Step : Type 0 where
  member : Bytes → Bytes → Step
  broken : ErrorKind → Step

-- "!<arch>" with a line feed, "debian-binary", "data.tar" and ".lzma"
abbrev pub arch_magic : Bytes
arch_magic = b'!' ∷ b'<' ∷ b'a' ∷ b'r' ∷ b'c' ∷ b'h' ∷ b'>' ∷ 10 ∷ []

abbrev pub debian_binary : Bytes
debian_binary =
    b'd' ∷ b'e' ∷ b'b' ∷ b'i' ∷ b'a' ∷ b'n' ∷ b'-' ∷ b'b' ∷ b'i' ∷ b'n' ∷ b'a' ∷ b'r' ∷ b'y' ∷ []

abbrev pub data_tar : Bytes
data_tar = b'd' ∷ b'a' ∷ b't' ∷ b'a' ∷ b'.' ∷ b't' ∷ b'a' ∷ b'r' ∷ []

abbrev pub lzma_ext : Bytes
lzma_ext = b'.' ∷ b'l' ∷ b'z' ∷ b'm' ∷ b'a' ∷ []

unfoldable pub probe : Bytes → Level
probe header =
    if leb 24 (length header)
      && starts_with header arch_magic
      && starts_with (take 16 (drop 8 header)) debian_binary
    then Confidence.magic
    else Confidence.none

-- The first `data.tar` member: its name, of which only an ASCII suffix is read, and its bytes. A
-- later member is not met.
unfoldable pub find_data : List Step → Result (Bytes × Bytes)
find_data [] = err (corrupt "deb: missing data.tar member")
find_data (broken e ∷ steps) = err (io_err_to_corrupt e)
find_data (member name bytes ∷ steps) =
    let rest = find_data steps in
    if starts_with name data_tar then ok (lowercase (from_utf8_lossy name), bytes) else rest

-- The compressor by content, or by the name of the member.
unfoldable pub compressor_of : Bytes → Bytes → Option Compressor
compressor_of name bytes =
    or_else (detect_compressor (take 6 bytes)) (if ends_with name lzma_ext then some lzma else none)

module _ {R : Type 0} (decompressor : Compressor → Bytes → Result Bytes)
    (open_tar : Bytes → Result R) where
  abbrev pub open_payload : Bytes → Option Compressor → Result R
  open_payload bytes (some c) = decompressor c bytes >>= open_tar
  open_payload bytes none =
      if is_tar bytes then open_tar bytes else err (unsupported "deb" "data.tar compression")

  -- `open`, on the members of the archive.
  unfoldable pub open_deb : List Step → Result R
  open_deb steps = find_data steps >>= λ found. open_payload found.1 (compressor_of found.0 found.1)
