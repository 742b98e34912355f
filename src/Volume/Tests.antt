-- ===== src/Volume/Tests.antt =====
-- Runs of src/volume.rs on small volumes and zip structures.
use newtua_core.Base.Text.{strip_suffix, lowercase, decimal}
use newtua_core.Base.Utf8.{is_utf8}
use newtua_core.Macos.{file_name}
use newtua_core.PathSafety.Paths.{normal}
use newtua_core.Extract.World.{FsPath}
use newtua_core.Extract.One.{with_file_name}
use newtua_core.Volume.Members.{
  padded, volume, split_volume, collect, volume_members, split_zip_members,
}
use newtua_core.Volume.Members.Gap.{volume_members-gap}
use newtua_core.Base.{
  equal, drop, ℕ, zero, suc, ◌+◌, ◌^◌, ◌≤◌, ◌<◌, ◌≡◌, refl, Bool, true, false, ◌||◌, Option, none,
  some, List, [], ◌∷◌, ◌++◌, map, arith,
}
use newtua_core.Base.Bytes.{Bytes, slice?}
use newtua_core.Error.{ok}
use newtua_core.Volume.Concat.{ConcatReader, round, read_loop, read}
use newtua_core.Volume.Concat.Stream.{open_ok, Reads, Gives, read-Reads}
use newtua_core.Volume.Fields.{eocd_sig, le_u16, Zip64Extra, parse_zip64_extra}
use newtua_core.Volume.Directory.Zip64.{zip64_written, parse_zip64_extra-written}
use newtua_core.Volume.Join.{eocd_loop, find_eocd}
use newtua_core.Volume.Join.Search.{IsEocd}
use newtua_core.Volume.Join.Eocd.{Judged, find_eocd-Judged}

-- A file system on which a file holds its own name.
abbrev own_name : Bytes → Bytes
own_name path = path

-- An empty volume between two that are not.
abbrev three_volumes : ConcatReader
three_volumes = record { files = (1 ∷ 2 ∷ 3 ∷ []) ∷ [] ∷ (4 ∷ []) ∷ []; idx = 1; current = some [] }

empty-volume-passed :
    read (open_ok own_name) 2 three_volumes
    ≡ ok (4 ∷ [], record { files = three_volumes.files; idx = 3; current = some [] })
unfolding read read_loop round
empty-volume-passed = refl

-- On an empty buffer every volume counts as used up, and the bytes that were left are lost.
empty-buffer-drops :
    read (open_ok own_name) 0 (record three_volumes { idx = 0 })
    ≡ ok ([], record { files = three_volumes.files; idx = 3; current = none })
unfolding read read_loop round
empty-buffer-drops = refl

read-Reads_example :
    Gives (Reads own_name 2 three_volumes) (read (open_ok own_name) 2 three_volumes)
read-Reads_example = read-Reads own_name 2 (omega arith) three_volumes (omega arith)

-- A field of id 7, a zip64 field, and one of id 9 with no data.
abbrev three_fields : List (ℕ × Bytes)
three_fields = (7, 1 ∷ 2 ∷ []) ∷ (1, 0 ∷ 0 ∷ 0 ∷ 0 ∷ 1 ∷ 0 ∷ 0 ∷ 0 ∷ []) ∷ (9, []) ∷ []

abbrev big_entry : Zip64Extra
big_entry = record { usize = some (2 ^ 33); csize = none; lho = some 12; disk = some 3 }

parse_zip64_extra-written_example :
    parse_zip64_extra (zip64_written big_entry (9 ∷ [])) true false true true ≡ ok big_entry
parse_zip64_extra-written_example =
    parse_zip64_extra-written big_entry (9 ∷ []) (omega arith, tt, omega arith, omega arith)

-- Two bytes, then an end record with a comment of one byte.
abbrev small_zip : Bytes
small_zip =
    1 ∷ 2 ∷ eocd_sig
    ++ 0 ∷ 0 ∷ 0 ∷ 0 ∷ 0 ∷ 0 ∷ 0 ∷ 0 ∷ 0 ∷ 0 ∷ 0 ∷ 0 ∷ 0 ∷ 0 ∷ 0 ∷ 0 ∷ 1 ∷ 0 ∷ 5 ∷ []

small_zip-IsEocd : IsEocd small_zip 2
unfolding le_u16 slice?
small_zip-IsEocd = record { sig = refl; comment = 1; comment_len = refl; to_the_end = refl }

small_zip-found : find_eocd small_zip ≡ ok (2, drop 2 small_zip)
unfolding find_eocd eocd_loop le_u16 slice? equal
small_zip-found = refl

find_eocd-Judged_example : Judged small_zip 2 (find_eocd small_zip)
find_eocd-Judged_example = find_eocd-Judged small_zip 2

-- "a.001" and "a.002" are there.
abbrev names_two : Option Bytes → Bool
names_two none = false
names_two (some name) =
    equal name (b'a' ∷ b'.' ∷ b'0' ∷ b'0' ∷ b'1' ∷ [])
    || equal name (b'a' ∷ b'.' ∷ b'0' ∷ b'0' ∷ b'2' ∷ [])

abbrev exists_two : FsPath → Bool
exists_two p = names_two (file_name p)

abbrev first_of_two : FsPath
first_of_two = normal (b'a' ∷ b'.' ∷ b'0' ∷ b'0' ∷ b'1' ∷ []) ∷ []

two_there : (i : ℕ) → 1 ≤ i → i < 1 + 2 → exists_two (volume first_of_two (b'a' ∷ []) i) ≡ true
unfolding file_name volume with_file_name padded decimal equal
two_there zero lo hi = absurd (omega arith)
two_there (suc zero) lo hi = refl
two_there (suc (suc zero)) lo hi = refl
two_there (suc (suc (suc i))) lo hi = absurd (omega arith)

volume_members-gap_example :
    volume_members exists_two first_of_two ≡ ok (map (volume first_of_two (b'a' ∷ [])) (1 ∷ 2 ∷ []))
volume_members-gap_example =
    volume_members-gap exists_two first_of_two (b'a' ∷ []) 1 (unfold file_name is_utf8 in refl)
      (omega arith) two_there (unfold file_name volume with_file_name padded decimal equal in refl)

-- The archive "a.zip" with the volume "a.Z01" beside it.
zip_volumes :
    split_zip_members
      (λ p. elim (file_name p) [
        | none ↦ false
        | some s ↦ equal s (b'a' ∷ b'.' ∷ b'Z' ∷ b'0' ∷ b'1' ∷ [])
      ])
      (normal (b'a' ∷ b'.' ∷ b'Z' ∷ b'i' ∷ b'P' ∷ []) ∷ [])
    ≡ ok (
        some (
          (normal (b'a' ∷ b'.' ∷ b'Z' ∷ b'0' ∷ b'1' ∷ []) ∷ [])
          ∷ (normal (b'a' ∷ b'.' ∷ b'Z' ∷ b'i' ∷ b'P' ∷ []) ∷ [])
          ∷ []))
unfolding split_zip_members split_volume collect file_name with_file_name padded decimal lowercase
    strip_suffix equal is_utf8
zip_volumes = refl
