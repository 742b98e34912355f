-- ===== src/Decompress/Tests.antt =====
-- Runs of src/decompress.rs on the framing of a member.
use newtua_core.Base.{replicate, ◌+◌, ◌*◌, ◌≡◌, refl, [], ◌∷◌, ◌++◌}
use newtua_core.Base.Bytes.{Bytes, to_le}
use newtua_core.Error.{invalid_data, io, ok, err, ◌>>=◌}
use newtua_core.Decompress.{lzip_magic, header, trailer_left, LzipReader, advance_trailer}

abbrev between : Bytes → LzipReader
between input = record { input = input; pending = []; state = header; member_out = 0; trailer = [] }

-- A dictionary of 7168 bytes: 2^13 less two sixteenths of it.
abbrev member : Bytes
member = lzip_magic ++ (1 ∷ (2 * 32 + 13) ∷ 9 ∷ [])

-- A trailer that comes in two pieces, for a member of 5 bytes.
abbrev ending : LzipReader
ending = record {
  input = replicate 4 7 ++ (to_le 8 5 ++ (replicate 8 7 ++ 1 ∷ []));
  pending = [];
  state = trailer_left;
  member_out = 5;
  trailer = [];
}

trailer_taken :
    (advance_trailer 3 ending >>= advance_trailer 18)
    ≡ ok (record ending {
      input = 1 ∷ [];
      trailer = replicate 4 7 ++ (to_le 8 5 ++ replicate 8 7);
      state = header;
    })
unfolding advance_trailer
trailer_taken = refl

-- The size that the trailer names is checked.
trailer_refused : advance_trailer 20 (record ending { member_out = 6 }) ≡ err (io invalid_data)
unfolding advance_trailer
trailer_refused = refl
