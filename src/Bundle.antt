-- ===== src/Bundle.antt =====
-- src/format/bundle.rs: subtypes of zip that are known by the extension of the name.
mod Tests
use newtua_core.Base.{
  leb, if◌then◌else◌, equal, length, drop, ◌-◌, Bool, false, ◌&&◌, Option, none, some, List, [],
  ◌∷◌,
}
use newtua_core.Base.Bytes.{Bytes}
use newtua_core.Base.Text.{starts_with, lowercase}
use newtua_core.Archive.{FormatId}
use newtua_core.Archive.Confidence
use newtua_core.Archive.Confidence.{Confidence as Level}

abbrev pub Row : Type 0
Row = Bytes × FormatId

abbrev pub zip_bundles : List Row
zip_bundles =
    (b'.' ∷ b'j' ∷ b'a' ∷ b'r' ∷ [], FormatId.jar)
    ∷ (b'.' ∷ b'a' ∷ b'p' ∷ b'k' ∷ [], FormatId.apk)
    ∷ (b'.' ∷ b'i' ∷ b'p' ∷ b'a' ∷ [], FormatId.ipa)
    ∷ (b'.' ∷ b'e' ∷ b'p' ∷ b'u' ∷ b'b' ∷ [], FormatId.epub)
    ∷ (b'.' ∷ b'd' ∷ b'o' ∷ b'c' ∷ b'x' ∷ [], FormatId.docx)
    ∷ (b'.' ∷ b'x' ∷ b'l' ∷ b's' ∷ b'x' ∷ [], FormatId.xlsx)
    ∷ (b'.' ∷ b'p' ∷ b'p' ∷ b't' ∷ b'x' ∷ [], FormatId.pptx)
    ∷ (b'.' ∷ b'o' ∷ b'd' ∷ b't' ∷ [], FormatId.odt)
    ∷ (b'.' ∷ b'o' ∷ b'd' ∷ b's' ∷ [], FormatId.ods)
    ∷ (b'.' ∷ b'o' ∷ b'd' ∷ b'p' ∷ [], FormatId.odp)
    ∷ (b'.' ∷ b'w' ∷ b'a' ∷ b'r' ∷ [], FormatId.war)
    ∷ (b'.' ∷ b'a' ∷ b'p' ∷ b'p' ∷ b'x' ∷ [], FormatId.appx)
    ∷ (b'.' ∷ b'x' ∷ b'p' ∷ b'i' ∷ [], FormatId.xpi)
    ∷ []

pub record ZipBundleHandler : Type 0 where
  pub ext : Bytes
  pub format : FormatId

-- "PK", 3, 4
abbrev pub zip_magic : Bytes
zip_magic = b'P' ∷ b'K' ∷ 3 ∷ 4 ∷ []

abbrev pub ext_ok : Bytes → Option Bytes → Bool
ext_ok ext none = false
ext_ok ext (some n) =
    leb (length ext) (length n)
    && equal (lowercase (drop (length n - length ext) n)) (lowercase ext)

unfoldable pub probe : ZipBundleHandler → Bytes → Option Bytes → Level
probe handler header name =
    if ext_ok handler.ext name && starts_with header zip_magic
    then Confidence.magic
    else Confidence.none
