-- ===== src/Deb/Payload.antt =====
-- Which member src/format/deb.rs opens.
use newtua_core.Base.{All, ◌≡◌, refl, true, false, List, [], ◌∷◌, ◌++◌, map}
use newtua_core.Base.Bytes.{Bytes}
use newtua_core.Base.Text.{starts_with, lowercase}
use newtua_core.Base.Utf8.{from_utf8_lossy}
use newtua_core.Error.{Result, ok}
use newtua_core.Detect.Compressors.{Compressor}
use newtua_core.Deb.{Step, member, data_tar, find_data, compressor_of, open_payload, open_deb}

-- Members that are not the payload.
abbrev pub IsOther : Bytes × Bytes → Type 0
IsOther (name, bytes) = starts_with name data_tar ≡ false

abbrev pub members : List (Bytes × Bytes) → List Step
members ms = map (λ (m : Bytes × Bytes). member m.0 m.1) ms

find_data-members :
    (ms : List (Bytes × Bytes)) (name bytes : Bytes) (rest : List Step)
    → All IsOther ms
    → starts_with name data_tar ≡ true
    → find_data (members ms ++ member name bytes ∷ rest)
      ≡ ok (lowercase (from_utf8_lossy name), bytes)
unfolding find_data
find_data-members [] name bytes rest h e = rw e refl
find_data-members ((n, b) ∷ ms) name bytes rest (f, h) e =
    rw f (find_data-members ms name bytes rest h e)

module _ {R : Type 0} (decompressor : Compressor → Bytes → Result Bytes)
    (open_tar : Bytes → Result R) where
  -- A package is opened as the tar archive in its first data.tar member, whatever comes behind that
  -- member, broken or not: decoded by the compressor of the magic in it where there is one, then by
  -- lzma where its name says so, and as it is otherwise where it is a tar archive.
  pub open_deb-members :
      (ms : List (Bytes × Bytes)) (name bytes : Bytes) (rest : List Step)
      → All IsOther ms
      → starts_with name data_tar ≡ true
      → open_deb decompressor open_tar (members ms ++ member name bytes ∷ rest)
        ≡ open_payload decompressor open_tar bytes
            (compressor_of (lowercase (from_utf8_lossy name)) bytes)
  unfolding open_deb
  open_deb-members ms name bytes rest h e = rw (find_data-members ms name bytes rest h e) refl
