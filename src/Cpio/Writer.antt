-- ===== src/Cpio/Writer.antt =====
-- Archives of the newc shape as a writer makes them (the layout that the comments of
-- src/format/cpio.rs give), and the listing that they hold.
use newtua_core.Base.{
  ◌==◌, if◌then◌else◌, length, replicate, ℕ, ◌+◌, ◌-◌, ◌*◌, ◌/◌, ◌^◌, ◌<◌, bit_and, ◌≡◌, Option,
  none, some, List, [], ◌∷◌, ◌++◌,
}
use newtua_core.Base.Bytes.{Bytes}
use newtua_core.Datetime.{unix_secs_to_systime}
use newtua_core.Cpio.Fields.{
  s_ifmt, s_iflnk, s_ifdir, s_ifreg, NewcVariant, newc, crc, variant_magic, newc_header_len,
  trim_nuls,
}
use newtua_core.Cpio.Numbers.{hex}
use newtua_core.Cpio.Walk.{KindRaw, file, dir, symlink, EntryMeta, Listing}

pub record Member : Type 0 where
  pub ino : ℕ
  pub mode : ℕ
  pub uid : ℕ
  pub gid : ℕ
  pub nlink : ℕ
  pub mtime : ℕ
  pub devmajor : ℕ
  pub devminor : ℕ
  pub rdevmajor : ℕ
  pub rdevminor : ℕ
  pub check : ℕ
  pub name : Bytes
  pub body : Bytes

abbrev pub namesize : Member → ℕ
namesize m = length m.name + 1

abbrev pub header : NewcVariant → Member → Bytes
header v m =
    variant_magic v
    ++ (hex 8 m.ino
        ++ (hex 8 m.mode
            ++ (hex 8 m.uid
                ++ (hex 8 m.gid
                    ++ (hex 8 m.nlink
                        ++ (hex 8 m.mtime
                            ++ (hex 8 (length m.body)
                                ++ (hex 8 m.devmajor
                                    ++ (hex 8 m.devminor
                                        ++ (hex 8 m.rdevmajor
                                            ++ (hex 8 m.rdevminor
                                                ++ (hex 8 (namesize m) ++ hex 8 m.check))))))))))))

-- The bytes from a length up to the next multiple of four.
unfoldable pub filling : ℕ → ℕ
filling len = (len + 3) / 4 * 4 - len

abbrev pub nul_name : Member → Bytes
nul_name m = m.name ++ 0 ∷ []

abbrev pub name_padding : Member → Bytes
name_padding m = replicate (filling (newc_header_len + namesize m)) 0

abbrev pub body_padding : Member → Bytes
body_padding m = replicate (filling (length m.body)) 0

-- A record: header, name with its NUL, padding, body, padding.
unfoldable pub written : NewcVariant → Member → Bytes
written v m = header v m ++ (nul_name m ++ (name_padding m ++ (m.body ++ body_padding m)))

-- The fields fit eight digits, and the name has no NUL at its end.
pub record IsMember (m : Member) : Type 0 where
  pub mode_fits : m.mode < 2 ^ 32
  pub mtime_fits : m.mtime < 2 ^ 32
  pub check_fits : m.check < 2 ^ 32
  pub namesize_fits : namesize m < 2 ^ 32
  pub filesize_fits : length m.body < 2 ^ 32
  pub name_trimmed : trim_nuls m.name ≡ m.name

abbrev pub body_start : ℕ → Member → ℕ
body_start pos m = pos + newc_header_len + namesize m + filling (newc_header_len + namesize m)

abbrev pub next_pos : ℕ → Member → ℕ
next_pos pos m = body_start pos m + length m.body + filling (length m.body)

abbrev pub checksum_of : NewcVariant → Member → Option ℕ
checksum_of newc m = none
checksum_of crc m = some m.check

abbrev pub meta_at : KindRaw → ℕ → ℕ → Option ℕ → Member → EntryMeta
meta_at kind offset size checksum m = record {
  kind = kind;
  offset = offset;
  size = size;
  mode = m.mode;
  modified = unix_secs_to_systime m.mtime;
  checksum = checksum;
}

-- What an archive lists of a member that lies at `pos`: nothing for a special node.
unfoldable pub listed : NewcVariant → ℕ → Member → Option EntryMeta
listed v pos m =
    let type : ℕ = bit_and m.mode s_ifmt in
    if type == s_ifreg
    then some (meta_at file (body_start pos m) (length m.body) (checksum_of v m) m)
    else if type == s_ifdir
    then some (meta_at dir 0 0 none m)
    else if type == s_iflnk
    then some (meta_at (symlink (trim_nuls m.body)) 0 (length m.body) none m)
    else none

abbrev pub add_listed : Bytes → Option EntryMeta → Listing → Listing
add_listed name none rest = rest
add_listed name (some meta) rest = (name ∷ rest.0, meta ∷ rest.1)

-- The listing of members that lie one after the other from `pos` on.
unfoldable pub listing : NewcVariant → ℕ → List Member → Listing
listing v pos [] = ([], [])
listing v pos (m ∷ ms) = add_listed m.name (listed v pos m) (listing v (next_pos pos m) ms)

-- The members, the trailer's record, and whatever follows it.
unfoldable pub archive_of : NewcVariant → List Member → Member → Bytes → Bytes
archive_of v [] last tail = written v last ++ tail
archive_of v (m ∷ ms) last tail = written v m ++ archive_of v ms last tail
