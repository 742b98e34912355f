-- ===== src/Cpio/RoundTrip/Pieces.antt =====
-- The pieces of a written record, as the newc walk of src/format/cpio.rs reads them.
use native.Mathlib.Nat.{mod-eq_of_lt}
use newtua_core.Base.{
  ==_iff, length, take, drop, length-append, length-replicate, take-append, drop-append, ℕ, ◌+◌,
  ◌^◌, ◌≤◌, ◌<◌, ◌≡◌, refl, ap, ◌∙◌, Option, none, some, [], ◌∷◌, ◌++◌, append_assoc, arith,
}
use newtua_core.Base.Bytes.{Bytes}
use newtua_core.Error.{ok}
use newtua_core.Cpio.Fields.{
  magic_len, NewcVariant, newc, crc, variant_magic, Span, newc_header_len, newc_mode, newc_mtime,
  newc_filesize, newc_namesize, newc_check, field_at, newc_field, pad4, advance, trim_end,
  trim_nuls,
}
use newtua_core.Cpio.Numbers.{hex, parse_hex-hex}
use newtua_core.Cpio.Walk.{
  Reader, read_exact, take_exact, skip_to, EntryMeta, Head, Step, skipped, pushed, check_field,
  newc_head,
}
use newtua_core.Cpio.Writer.{
  Member, namesize, header, filling, nul_name, written, IsMember, next_pos, checksum_of,
}

abbrev pub reader_at : Bytes → ℕ → Reader
reader_at bytes at = record { bytes = bytes; at = at }

pub chunk_at :
    (all front chunk rest : Bytes) (at n : ℕ)
    → all ≡ front ++ chunk ++ rest
    → length front ≡ at
    → length chunk ≡ n
    → take n (drop at all) ≡ chunk
chunk_at all front chunk rest at n e p q =
    rw (e, append_assoc front chunk rest, drop-append at front (chunk ++ rest) p)
      (take-append n chunk rest q)

pub read_exact-chunk :
    (all front chunk rest : Bytes) (at n : ℕ)
    → all ≡ front ++ chunk ++ rest
    → length front ≡ at
    → length chunk ≡ n
    → read_exact n (reader_at all at) ≡ ok (chunk, reader_at all (at + n))
unfolding read_exact
read_exact-chunk all front chunk rest at n e p q =
    rw (chunk_at all front chunk rest at n e p q, (==_iff (length chunk) n).1 q)

pub take_exact-chunk :
    (all front chunk rest : Bytes) (at n : ℕ)
    → all ≡ front ++ chunk ++ rest
    → length front ≡ at
    → length chunk ≡ n
    → take_exact n (reader_at all at) ≡ ok (chunk, reader_at all (at + n))
unfolding take_exact
take_exact-chunk all front chunk rest at n e p q =
    rw (chunk_at all front chunk rest at n e p q, (==_iff (length chunk) n).1 q)

pub advance-eq :
    (pos n file_len : ℕ)
    → pos + n ≤ file_len
    → file_len < 2 ^ 64
    → advance pos n file_len ≡ ok (pos + n)
unfolding advance
advance-eq pos n file_len h k = ground arith

-- Either way of seeking lands on the target.
pub skip_to-eq :
    (all : Bytes) (from target : ℕ)
    → from ≤ target
    → skip_to from target (reader_at all from) ≡ reader_at all target
unfolding skip_to
skip_to-eq all from target h = ground arith

pub newc_field-hex :
    (h : Bytes) (span : Span) (n : ℕ)
    → field_at h span ≡ hex 8 n
    → n < 2 ^ 32
    → newc_field h span ≡ ok n
unfolding newc_field
newc_field-hex h span n e lt = rw (e, parse_hex-hex n lt)

abbrev pub head_of : NewcVariant → Member → Head
head_of v m = record {
  mode = m.mode;
  mtime = m.mtime;
  filesize = length m.body;
  namesize = namesize m;
  checksum = checksum_of v m;
}

pub header_fields :
    (v : NewcVariant) (m : Member)
    → (length (header v m) ≡ newc_header_len)
      × (take magic_len (header v m) ≡ variant_magic v)
      × (field_at (header v m) newc_mode ≡ hex 8 m.mode)
      × (field_at (header v m) newc_mtime ≡ hex 8 m.mtime)
      × (field_at (header v m) newc_filesize ≡ hex 8 (length m.body))
      × (field_at (header v m) newc_namesize ≡ hex 8 (namesize m))
      × (field_at (header v m) newc_check ≡ hex 8 m.check)
header_fields newc m = (refl, refl, refl, refl, refl, refl, refl)
header_fields crc m = (refl, refl, refl, refl, refl, refl, refl)

pub check_field-header :
    (v : NewcVariant) (m : Member) → IsMember m → check_field v (header v m) ≡ ok (checksum_of v m)
unfolding check_field
check_field-header newc m w = refl
check_field-header crc m w =
    rw (newc_field-hex (header crc m) newc_check m.check refl w.check_fits)
      (ap (λ n. ok (some n)) (mod-eq_of_lt w.check_fits))

pub newc_head-header :
    (v : NewcVariant) (m : Member) → IsMember m → newc_head v (header v m) ≡ ok (head_of v m)
unfolding newc_head
newc_head-header v m w =
    let f = header_fields v m in
    rw (
      newc_field-hex (header v m) newc_mode m.mode f.2 w.mode_fits,
      newc_field-hex (header v m) newc_mtime m.mtime f.3 w.mtime_fits,
      newc_field-hex (header v m) newc_filesize (length m.body) f.4 w.filesize_fits,
      newc_field-hex (header v m) newc_namesize (namesize m) f.5 w.namesize_fits,
      check_field-header v m w,
      mod-eq_of_lt w.mode_fits,
    )

pub trim_end-ended : (c : ℕ) (bs : Bytes) → trim_end c (bs ++ c ∷ []) ≡ trim_end c bs
unfolding trim_end
trim_end-ended c [] = ground arith
trim_end-ended c (b ∷ bs) = rw (trim_end-ended c bs)

pub trim_nuls-nul_name : (m : Member) → IsMember m → trim_nuls (nul_name m) ≡ m.name
unfolding trim_nuls
trim_nuls-nul_name m w = trim_end-ended 0 m.name ∙ w.name_trimmed

pub length-written : (v : NewcVariant) (m : Member) → length (written v m) ≡ next_pos 0 m
unfolding written
length-written v m = omega (arith, length-append {0}, length-replicate {0}, (header_fields v m).0)

-- The listed step of a member.
abbrev pub step_of : Bytes → Option EntryMeta → ℕ → Reader → Step
step_of name none next r = skipped next r
step_of name (some meta) next r = pushed name meta next r

-- The reader's padding is the writer's.
pub pad4-filling : (len : ℕ) → pad4 len ≡ filling len
unfolding pad4 filling
pad4-filling len = omega arith
