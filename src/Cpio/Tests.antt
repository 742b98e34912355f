-- ===== src/Cpio/Tests.antt =====
-- Runs of src/format/cpio.rs on a small archive of the crc variant.
use newtua_core.Base.{
  equal, length, All, ℕ, ◌^◌, ◌<◌, ◌≡◌, refl, false, none, some, List, [], ◌∷◌, arith,
}
use newtua_core.Base.Bytes.{Bytes}
use newtua_core.Error.{ok, guard, Ensures}
use newtua_core.Archive.{OpenOptions}
use newtua_core.Encoding.{Codecs, all_utf8, detected, resolve_label, resolve_encoding, decode_names}
use newtua_core.Cpio.Fields.{
  trailer_name, crc, hex_class, checked_push, digits_loop, parse_hex, newc_field, pad4, advance,
  trim_end, trim_nuls, body_checksum,
}
use newtua_core.Cpio.Walk.{
  read_exact, take_exact, skip_to, file, scan, check_field, newc_head, newc_entry, newc_bounds,
  newc_record, scan_newc_seekable,
}
use newtua_core.Cpio.Listing.{
  is_symlink, any_symlink, entry_kind, body_of, entry_of, build_loop, CpioSeekReader, scan_magic,
  build_entries, open_seekable, verify_checksum, read_entry,
}
use newtua_core.Cpio.Numbers.{hex_digit}
use newtua_core.Cpio.Writer.{Member, filling, written, IsMember, meta_at, listing, archive_of}
use newtua_core.Cpio.Bounds.{ListingFits, scan_newc_seekable-Ensures}
use newtua_core.Cpio.RoundTrip.{scan_newc_seekable-archive_of}
use newtua_core.Cpio.Checksum.{write_all, fresh, write_all-body_checksum}
use newtua_core.Cpio.Reading.{body_bytes, read_entry-opened}

abbrev member : ℕ → ℕ → Bytes → Bytes → Member
member mode check name body = record {
  ino = 1;
  mode = mode;
  uid = 0;
  gid = 0;
  nlink = 1;
  mtime = 1_700_000_000;
  devmajor = 0;
  devminor = 0;
  rdevmajor = 0;
  rdevminor = 0;
  check = check;
  name = name;
  body = body;
}

-- A file "a" with the body "xyz", whose bytes add up to 363.
abbrev small_file : Member
small_file = member 0o100644 363 (b'a' ∷ []) (b'x' ∷ b'y' ∷ b'z' ∷ [])

abbrev last_member : Member
last_member = member 0 0 trailer_name []

small_file-IsMember : IsMember small_file
unfolding trim_nuls trim_end
small_file-IsMember = record {
  mode_fits = omega arith;
  mtime_fits = omega arith;
  check_fits = omega arith;
  namesize_fits = omega arith;
  filesize_fits = omega arith;
  name_trimmed = refl;
}

last_member-IsMember : IsMember last_member
unfolding trim_nuls trim_end
last_member-IsMember = record {
  mode_fits = omega arith;
  mtime_fits = omega arith;
  check_fits = omega arith;
  namesize_fits = omega arith;
  filesize_fits = omega arith;
  name_trimmed = refl;
}

abbrev members : List Member
members = small_file ∷ []

abbrev members-AreMembers : All (λ m. IsMember m × (equal m.name trailer_name ≡ false)) members
members-AreMembers = ((small_file-IsMember, unfold equal in refl), tt)

abbrev archive : Bytes
archive = archive_of crc members last_member []

archive-length : length archive < 2 ^ 64
unfolding archive_of written hex_digit filling
archive-length = omega arith

scan_newc_seekable-archive_of_example :
    scan_newc_seekable archive (length archive) crc ≡ ok (listing crc 0 members)
scan_newc_seekable-archive_of_example =
    scan_newc_seekable-archive_of crc members last_member [] members-AreMembers last_member-IsMember
      refl archive-length

scan_newc_seekable-Ensures_example : Ensures (ListingFits 276) (scan_newc_seekable archive 276 crc)
scan_newc_seekable-Ensures_example = scan_newc_seekable-Ensures archive 276 crc

write_all-body_checksum_example :
    (write_all ((2, small_file.body) ∷ (1, b'z' ∷ []) ∷ []) fresh).sum
    ≡ body_checksum (write_all ((2, small_file.body) ∷ (1, b'z' ∷ []) ∷ []) fresh).inner
write_all-body_checksum_example =
    write_all-body_checksum ((2, small_file.body) ∷ (1, b'z' ∷ []) ∷ [])

-- Names that are taken as they stand.
abbrev plain : Codecs
plain = record {
  Encoding = Unit {0};
  Detector = Unit {0};
  for_label = λ label. none;
  utf_8 = tt;
  name = λ e. [];
  decode = λ e b. b;
  new = tt;
  feed = λ d b last. tt;
  guess = λ d. tt;
}

abbrev options : OpenOptions
options = record { password = none; encoding_override = none }

abbrev small_reader : CpioSeekReader
small_reader = record {
  src = archive;
  entries = entry_of (meta_at file 112 3 (some 363) small_file) (b'a' ∷ []) (b'a' ∷ []) [] ∷ [];
  bodies = some (record { offset = 112; size = 3; checksum = some 363 }) ∷ [];
}

archive-opens : open_seekable plain archive (length archive) options ≡ ok small_reader
unfolding archive_of written hex_digit pad4 filling open_seekable read_exact scan_magic
    scan_newc_seekable scan newc_record advance guard newc_head newc_field parse_hex digits_loop
    checked_push hex_class check_field take_exact trim_nuls trim_end newc_bounds newc_entry skip_to
    equal build_entries any_symlink is_symlink build_loop entry_of entry_kind body_of decode_names
    resolve_encoding resolve_label detected all_utf8
archive-opens = refl

read_entry-opened_example :
    (length (read_entry small_reader 0).0 ≡ 3)
    × (read_entry small_reader 0 ≡ (
      body_bytes archive (record { offset = 112; size = 3; checksum = some 363 }),
      verify_checksum (some 363) (
          body_checksum
            (body_bytes archive (record { offset = 112; size = 3; checksum = some 363 }))),
    ))
read_entry-opened_example =
    read_entry-opened plain archive options small_reader 0
      (record { offset = 112; size = 3; checksum = some 363 }) archive-opens refl
