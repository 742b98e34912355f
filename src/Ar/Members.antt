-- ===== src/Ar/Members.antt =====
-- The entries and the members of an archive that src/format/ar.rs opens.
use newtua_core.Base.{
  leb, if◌then◌else◌, length, get_elem?, ℕ, suc, ◌≡◌, refl, ap, ◌∙◌, List, [], ◌∷◌, map, arith,
}
use newtua_core.Base.Bytes.{Bytes}
use newtua_core.Archive.{OpenOptions}
use newtua_core.Encoding.{Codecs, decode_names}
use newtua_core.Error.{invalid_index, ok, err}
use newtua_core.Ar.{Member, member, read_headers, zip_entries, open_ar, body_of, read_entry}

read_headers-member : (ms : List Member) → read_headers (map member ms) ≡ ok ms
unfolding read_headers
read_headers-member [] = refl
read_headers-member (m ∷ ms) = rw (read_headers-member ms) refl

length-zip_entries :
    (ms : List Member) (names : List Bytes)
    → length names ≡ length ms
    → length (zip_entries ms names) ≡ length ms
unfolding zip_entries
length-zip_entries [] names e = refl
length-zip_entries (m ∷ ms) [] e = absurd (omega (arith, e))
length-zip_entries (m ∷ ms) (n ∷ names) e = ap suc (length-zip_entries ms names (omega (arith, e)))

length-map : {A B : Type 0} (f : A → B) (xs : List A) → length (map f xs) ≡ length xs
length-map f [] = refl
length-map f (x ∷ xs) = ap suc (length-map f xs)

module _ (c : Codecs) (opts : OpenOptions) (ms : List Member) where
  abbrev names_of : List Bytes
  names_of = decode_names c (map (λ (m : Member). m.identifier) ms) opts.encoding_override

  -- An archive of members without an error among them is opened with one entry for each, in their
  -- order.
  pub open_ar-member :
      open_ar c (map member ms) opts
      ≡ ok (record { archive = ms; entries = zip_entries ms names_of })
  unfolding open_ar
  open_ar-member = rw (read_headers-member ms) refl

  names_count : length names_of ≡ length ms
  unfolding decode_names
  names_count = length-map _ _ ∙ length-map _ ms

  -- Reading an entry gives the whole body of the member of that number, and a bad index behind the
  -- last one.
  pub read_entry-member :
      (idx : ℕ)
      → read_entry (record { archive = ms; entries = zip_entries ms names_of }) idx
        ≡ (if leb (length ms) idx then err (invalid_index idx) else ok (body_of (get_elem? ms idx)))
  unfolding read_entry
  read_entry-member idx = rw (length-zip_entries ms names_of names_count) refl
