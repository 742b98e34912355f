-- ===== src/Archive.antt =====
-- src/archive.rs: the types that the handlers share.
pub mod Confidence
use newtua_core.Base.{ℕ, Bool, true, false, Option}
use newtua_core.Base.Bytes.{Bytes}
use newtua_core.Datetime.{SystemTime}

pub data FormatId : Type 0 where
  zip tar gzip bzip2 xz seven_z rar cab ar deb cpio rpm xar msi iso sfx warc raw : FormatId
  jar apk ipa epub docx xlsx pptx odt ods odp war appx xpi crx conda squashfs app_image : FormatId
  wim hfs_plus dmg wpress apfs : FormatId
  arj zoo lbr crunch arc squeeze bin_hex mac_binary apple_single compact_pro pack_it : FormatId
  stuff_it stuff_it5 stuff_it_x alz nsis lzx power_packer dms : FormatId

pub data EntryKind : Type 0 where
  file dir : EntryKind
  symlink : Bytes → EntryKind

pub record Entry : Type 0 where
  pub path_raw : Bytes
  pub path : Bytes
  pub kind : EntryKind
  pub size : ℕ
  pub mode : Option ℕ
  pub is_encrypted : Bool
  pub modified : Option SystemTime
  pub is_resource_fork : Bool

abbrev pub is_dir_kind : EntryKind → Bool
is_dir_kind dir = true
is_dir_kind _ = false

abbrev pub is_dir : Entry → Bool
is_dir e = is_dir_kind e.kind

pub record OpenOptions : Type 0 where
  pub password : Option Bytes
  pub encoding_override : Option Bytes
