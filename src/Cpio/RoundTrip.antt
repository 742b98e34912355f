-- ===== src/Cpio/RoundTrip.antt =====
-- The newc walk of src/format/cpio.rs on an archive as it is written.
pub mod Pieces
pub mod Record
use newtua_core.Base.{
  equal, equal_iff, length, take, drop, All, length-append, length-replicate, ℕ, zero, suc, ◌+◌,
  ◌^◌, ◌<◌, ◌≡◌, refl, ap, ◌∙◌, true, false, Option, none, some, List, [], ◌∷◌, ◌++◌, append_assoc,
  arith,
}
use newtua_core.Base.Bytes.{Bytes}
use newtua_core.Error.{Result, ok}
use newtua_core.Cpio.Fields.{trailer_name, NewcVariant}
use newtua_core.Cpio.Walk.{
  Reader, EntryMeta, Step, Listing, continue_with, scan, newc_record, scan_newc_seekable,
}
use newtua_core.Cpio.Writer.{
  Member, header, nul_name, name_padding, written, IsMember, body_start, next_pos, listed,
  add_listed, listing, archive_of,
}
use newtua_core.Cpio.RoundTrip.Pieces.{reader_at, chunk_at, header_fields, length-written, step_of}
use newtua_core.Cpio.RoundTrip.Record.{at_body, newc_record-written, newc_record-trailer}

-- A walk that meets these records lists them, with rounds to spare.
abbrev AreMembers : List Member → Type 0
AreMembers ms = All (λ m. IsMember m × (equal m.name trailer_name ≡ false)) ms

-- What the loop does with the step of a member.
scan_step :
    (round : ℕ → Reader → Result Step) (fuel : ℕ) (name : Bytes) (o : Option EntryMeta) (next : ℕ)
    (r : Reader) {rest : Listing}
    → scan round fuel next r ≡ ok rest
    → continue_with (scan round fuel) (step_of name o next r) ≡ ok (add_listed name o rest)
unfolding scan
scan_step round fuel name none next r e = e
scan_step round fuel name (some meta) next r e = rw e

scan-archive_of :
    (v : NewcVariant) (last : Member) (tail all : Bytes)
    → IsMember last
    → equal last.name trailer_name ≡ true
    → length all < 2 ^ 64
    → (ms : List Member) (front : Bytes) (pos fuel : ℕ) → AreMembers ms
    → length front ≡ pos
    → all ≡ front ++ archive_of v ms last tail
    → length all < fuel + pos
    → scan (newc_record (length all) v) fuel pos (reader_at all pos) ≡ ok (listing v pos ms)
unfolding scan listing archive_of
scan-archive_of v last tail all w end small ms front pos zero h place cut enough =
    absurd (omega (arith, ap length cut, length-append {0}, place))
scan-archive_of v last tail all w end small [] front pos (suc fuel) h place cut enough =
    rw (newc_record-trailer v last w all front tail pos small place (cut ∙ simp append_assoc) end)
scan-archive_of v last tail all w end small (m ∷ ms) front pos (suc fuel) h place cut enough =
    rw
      (newc_record-written v m h.0.0 all front (archive_of v ms last tail) pos small place
        (cut ∙ simp append_assoc) h.0.1)
      (scan_step (newc_record (length all) v) fuel m.name (listed v pos m) (next_pos pos m)
        (reader_at all (next_pos pos m))
        (scan-archive_of v last tail all w end small ms (front ++ written v m) (next_pos pos m) fuel
          h.1 (omega (arith, length-append {0}, length-written v m, place))
          (cut ∙ simp append_assoc) (omega arith)))

-- The newc walk, of either variant, on an archive of members whose fields fit their digits, of a
-- trailer record and of any tail, with a length below 2^64, gives exactly the members' listing:
-- each file, directory and symbolic link with its metadata and the place of its body, special
-- nodes passed over, the tail not looked at.
pub scan_newc_seekable-archive_of :
    (v : NewcVariant) (ms : List Member) (last : Member) (tail : Bytes)
    → AreMembers ms
    → IsMember last
    → last.name ≡ trailer_name
    → length (archive_of v ms last tail) < 2 ^ 64
    → scan_newc_seekable (archive_of v ms last tail) (length (archive_of v ms last tail)) v
      ≡ ok (listing v 0 ms)
unfolding scan_newc_seekable
scan_newc_seekable-archive_of v ms last tail h w end small =
    scan-archive_of v last tail (archive_of v ms last tail) w
      ((equal_iff last.name trailer_name).1 end) small ms [] 0 _ h refl refl (omega arith)

-- Where a member's body lies, in an archive of members from `pos` on.
abbrev pub BodiesAt : Bytes → ℕ → List Member → Type 0
BodiesAt all pos [] = Unit
BodiesAt all pos (m ∷ ms) =
    (take (length m.body) (drop (body_start pos m) all) ≡ m.body) × BodiesAt all (next_pos pos m) ms

archive_of-bodies_from :
    (v : NewcVariant) (last : Member) (tail all : Bytes)
    → length all < 2 ^ 64
    → (ms : List Member) (front : Bytes) (pos : ℕ) → AreMembers ms
    → length front ≡ pos
    → all ≡ front ++ archive_of v ms last tail
    → BodiesAt all pos ms
unfolding archive_of
archive_of-bodies_from v last tail all small [] front pos h place cut = tt
archive_of-bodies_from v last tail all small (m ∷ ms) front pos h place cut = (
  chunk_at all (front ++ (header v m ++ (nul_name m ++ name_padding m))) m.body _ (body_start pos m)
      (length m.body)
      (at_body v m h.0.0 all front (archive_of v ms last tail) pos small place
        (cut ∙ simp append_assoc))
      (omega (arith, length-append {0}, length-replicate {0}, place, (header_fields v m).0)) refl,
  archive_of-bodies_from v last tail all small ms (front ++ written v m) (next_pos pos m) h.1
      (omega (arith, length-append {0}, length-written v m, place)) (cut ∙ simp append_assoc),
)

-- In an archive of members whose fields fit their digits, with a length below 2^64, the place that
-- the listing gives for each member's body holds just that body.
pub archive_of-BodiesAt :
    (v : NewcVariant) (ms : List Member) (last : Member) (tail : Bytes)
    → AreMembers ms
    → length (archive_of v ms last tail) < 2 ^ 64
    → BodiesAt (archive_of v ms last tail) 0 ms
archive_of-BodiesAt v ms last tail h small =
    archive_of-bodies_from v last tail (archive_of v ms last tail) small ms [] 0 h refl refl
