-- ===== src/Cpio/RoundTrip/Record.antt =====
-- One round of the newc walk of src/format/cpio.rs over a written record.
use newtua_core.Base.{
  ◌==◌, Bool-cases, equal, equal_iff, length, length-append, length-replicate, ℕ, ◌+◌, ◌^◌, ◌<◌,
  bit_and, ◌≡◌, refl, ap, ◌∙◌, inl, inr, true, false, ◌++◌, append_assoc, arith,
}
use newtua_core.Base.Bytes.{Bytes}
use newtua_core.Error.{ok, ◌>>=◌, guard}
use newtua_core.Cpio.Fields.{
  s_ifmt, s_iflnk, s_ifdir, s_ifreg, trailer_name, NewcVariant, variant_magic, newc_header_len,
}
use newtua_core.Cpio.Walk.{
  Reader, take_exact, trailer, Bounds, newc_entry, newc_bounds, unless_trailer, newc_record,
}
use newtua_core.Cpio.Writer.{
  Member, namesize, header, filling, nul_name, name_padding, body_padding, written, IsMember,
  body_start, next_pos, listed,
}
use newtua_core.Cpio.RoundTrip.Pieces.{
  reader_at, read_exact-chunk, take_exact-chunk, advance-eq, skip_to-eq, head_of, header_fields,
  newc_head-header, trim_nuls-nul_name, step_of, pad4-filling,
}

-- One record in an archive: what stands before it, and what follows.
module _ (v : NewcVariant) (m : Member) (w : IsMember m) (all front rest : Bytes) (pos : ℕ)
    (small : length all < 2 ^ 64) (place : length front ≡ pos)
    (cut : all ≡ front ++ written v m ++ rest) where
  pub length-all :
      length all
      ≡ pos
        + newc_header_len
        + namesize m
        + filling (newc_header_len + namesize m)
        + length m.body
        + filling (length m.body)
        + length rest
  unfolding written
  length-all =
      omega (
        arith,
        ap length cut,
        length-append {0},
        length-replicate {0},
        place,
        (header_fields v m).0,
      )

  at_header :
      all
      ≡ front
        ++ header v m
        ++ (nul_name m ++ (name_padding m ++ (m.body ++ (body_padding m ++ rest))))
  unfolding written
  at_header = cut ∙ simp append_assoc

  at_name :
      all
      ≡ (front ++ header v m)
        ++ nul_name m
        ++ (name_padding m ++ (m.body ++ (body_padding m ++ rest)))
  unfolding written
  at_name = cut ∙ simp append_assoc

  pub at_body :
      all
      ≡ (front ++ (header v m ++ (nul_name m ++ name_padding m)))
        ++ m.body
        ++ (body_padding m ++ rest)
  unfolding written
  at_body = cut ∙ simp append_assoc

  abbrev after_name_pos : ℕ
  after_name_pos = pos + newc_header_len + namesize m

  abbrev bounds_of : Bounds
  bounds_of = record {
    after_name = after_name_pos;
    body_start = body_start pos m;
    after_body = body_start pos m + length m.body;
    next = next_pos pos m;
  }

  newc_bounds-written : newc_bounds (length all) after_name_pos (head_of v m) ≡ ok bounds_of
  unfolding newc_bounds
  newc_bounds-written = rw (
    pad4-filling (newc_header_len + namesize m),
    pad4-filling (length m.body),
    advance-eq after_name_pos (filling (newc_header_len + namesize m)) (length all)
        (omega (arith, length-all)) small,
    advance-eq (body_start pos m) (length m.body) (length all) (omega (arith, length-all)) small,
    advance-eq (body_start pos m + length m.body) (filling (length m.body)) (length all)
        (omega (arith, length-all)) small,
  )

  take_exact-body :
      take_exact (length m.body) (reader_at all (body_start pos m))
      ≡ ok (m.body, reader_at all (body_start pos m + length m.body))
  take_exact-body =
      take_exact-chunk all (front ++ (header v m ++ (nul_name m ++ name_padding m))) m.body
        (body_padding m ++ rest) (body_start pos m) (length m.body) at_body
        (omega (arith, length-append {0}, length-replicate {0}, place, (header_fields v m).0)) refl

  abbrev pub next_reader : Reader
  next_reader = reader_at all (next_pos pos m)

  newc_entry-written :
      newc_entry (head_of v m) m.name bounds_of (reader_at all after_name_pos)
      ≡ ok (step_of m.name (listed v pos m) (next_pos pos m) next_reader)
  unfolding newc_entry listed
  newc_entry-written = elim (Bool-cases (bit_and m.mode s_ifmt == s_ifreg)) [
    | inl reg ↦ rw (reg, skip_to-eq all after_name_pos (next_pos pos m) (omega arith))
    | inr not_reg ↦ elim (Bool-cases (bit_and m.mode s_ifmt == s_ifdir)) [
      | inl is_dir ↦
          rw (not_reg, is_dir, skip_to-eq all after_name_pos (next_pos pos m) (omega arith))
      | inr not_dir ↦ elim (Bool-cases (bit_and m.mode s_ifmt == s_iflnk)) [
        | inl lnk ↦ rw (
          not_reg,
          not_dir,
          lnk,
          skip_to-eq all after_name_pos (body_start pos m) (omega arith),
          take_exact-body,
          skip_to-eq all (body_start pos m + length m.body) (next_pos pos m) (omega arith),
        )
        | inr not_lnk ↦ rw (
          not_reg,
          not_dir,
          not_lnk,
          skip_to-eq all after_name_pos (next_pos pos m) (omega arith),
        )
      ]
    ]
  ]

  namesize_pos : (namesize m == 0) ≡ false
  namesize_pos = ground arith

  -- The record up to its name.
  newc_record-name :
      newc_record (length all) v pos (reader_at all pos)
      ≡ unless_trailer m.name (
          newc_bounds (length all) after_name_pos (head_of v m) >>= λ b.
          newc_entry (head_of v m) m.name b (reader_at all after_name_pos))
  unfolding newc_record guard
  newc_record-name = rw (
    advance-eq pos newc_header_len (length all) (omega (arith, length-all)) small,
    read_exact-chunk all front (header v m) _ pos newc_header_len at_header place
        (header_fields v m).0,
    (header_fields v m).1,
    (equal_iff (variant_magic v) (variant_magic v)).1 refl,
    newc_head-header v m w,
    advance-eq (pos + newc_header_len) (namesize m) (length all) (omega (arith, length-all)) small,
    namesize_pos,
    take_exact-chunk all (front ++ header v m) (nul_name m) _ (pos + newc_header_len) (namesize m)
        at_name (omega (arith, length-append {0}, place, (header_fields v m).0))
        (omega (arith, length-append {0})),
    trim_nuls-nul_name m w,
  )

  pub newc_record-written :
      equal m.name trailer_name ≡ false
      → newc_record (length all) v pos (reader_at all pos)
        ≡ ok (step_of m.name (listed v pos m) (next_pos pos m) next_reader)
  newc_record-written other = newc_record-name ∙ rw (other, newc_bounds-written) newc_entry-written

  pub newc_record-trailer :
      equal m.name trailer_name ≡ true
      → newc_record (length all) v pos (reader_at all pos) ≡ ok trailer
  newc_record-trailer last = newc_record-name ∙ rw last
