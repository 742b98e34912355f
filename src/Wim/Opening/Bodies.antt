-- ===== src/Wim/Opening/Bodies.antt =====
-- What the reader that src/format/wim.rs opens holds.
use newtua_core.Archive.{EntryKind, Entry}
use newtua_core.Base.{
  ltb, Bool-cases, length, get_elem?, take, ℕ, zero, suc, ◌≤◌, ◌≡◌, refl, inl, inr, Option, none,
  some, List, [], ◌∷◌, arith,
}
use newtua_core.Base.Bytes.{Bytes}
use newtua_core.Error.{invalid_index, Result, ok, err, stuck}
use newtua_core.Error.Run.{
  Run, done, failed, panicked, unended, of_result, Gives, giving, failing, panicking, unending,
  Gives-done, Gives-bind,
}
use newtua_core.Wim.Fields.{
  header_len, ResourceHeader, WimHeader, spanned, parse_header, parse_lookup_table,
}
use newtua_core.Wim.Chunks.{Codecs, read_resource}
use newtua_core.Wim.Tree.{Lookup, Listed, build_dir_tree}
use newtua_core.Wim.Tree.Pairs.{IsBody, Paired, no_pairs, pair_of, build_dir_tree-Paired}
use newtua_core.Wim.Opening.{
  sort_entries, WimReader, with_metadata, with_header, open_wim, body_bytes, read_entry,
}

-- The bodies stand beside the entries, for some lookup table.
abbrev pub Holds : WimReader → Type 0
Holds reader = (lookup : Lookup) × Paired lookup reader.entries reader.bodies

always : {A : Type 0} (r : Run A) → Gives (λ _. Unit {0}) r
always (done a) = giving tt
always (failed e) = failing
always panicked = panicking
always unended = unending

of_result-Gives :
    {A : Type 0} (P : A → Type 0) (r : Result A)
    → ((a : A) → r ≡ ok a → P a)
    → Gives P (of_result r)
of_result-Gives P (ok a) h = giving (h a refl)
of_result-Gives P (err e) h = failing
of_result-Gives P stuck h = unending

module _ (codecs : Codecs) (file : Bytes) (fuel : ℕ) where
  with_metadata-Holds :
      (header : WimHeader) (found : Option ResourceHeader × Lookup)
      → Gives Holds (with_metadata codecs file fuel header found)
  with_metadata-Holds header (none, lookup) = failing
  with_metadata-Holds header (some rh, lookup) =
      Gives-bind _ Holds (read_resource codecs file header.chunk_size header.compressor rh) _
        (always _)
        (λ meta u.
          Gives-bind (λ (r : Listed). Paired lookup r.0 r.1) Holds
            (of_result (build_dir_tree meta lookup fuel)) _
            (of_result-Gives (λ (r : Listed). Paired lookup r.0 r.1) _
              (λ listed e. build_dir_tree-Paired lookup meta fuel listed e))
            (λ listed p. giving (lookup, p)))

  with_header-Holds : (header : WimHeader) → Gives Holds (with_header codecs file fuel header)
  with_header-Holds header = elim (Bool-cases (spanned header)) [
    | inl e ↦ rw e failing
    | inr e ↦ rw e (
        Gives-bind _ Holds
          (read_resource codecs file header.chunk_size header.compressor header.offset_table) _
          (always _)
          (λ bytes u.
            Gives-bind _ Holds (of_result (parse_lookup_table bytes)) _ (always _)
              (λ table v. with_metadata-Holds header (sort_entries table none []))))
  ]

  open_wim-Gives : Gives Holds (open_wim codecs file fuel)
  unfolding open_wim
  open_wim-Gives = elim (Bool-cases (ltb (length file) header_len)) [
    | inl e ↦ rw e failing
    | inr e ↦ rw e (
        Gives-bind _ Holds (of_result (parse_header (take header_len file))) _ (always _)
          (λ header u. with_header-Holds header))
  ]

  pub open_wim-Holds : (reader : WimReader) → open_wim codecs file fuel ≡ done reader → Holds reader
  open_wim-Holds reader e = Gives-done Holds open_wim-Gives e

data Slot (lookup : Lookup) (es : List Entry) (i : ℕ)
    : Option (Option ResourceHeader) → Type 0 where
  inside :
      {e : Entry} {body : Option ResourceHeader}
      → get_elem? es i ≡ some e
      → IsBody lookup e body
      → Slot lookup es i (some body)
  outside : length es ≤ i → Slot lookup es i none

Slot-cons :
    (lookup : Lookup) (e : Entry) (es : List Entry) (i : ℕ) (o : Option (Option ResourceHeader))
    → Slot lookup es i o
    → Slot lookup (e ∷ es) (suc i) o
Slot-cons lookup e es i o (inside p h) = inside p h
Slot-cons lookup e es i o (outside h) = outside (omega (arith, h))

Paired-Slot :
    (lookup : Lookup) (es : List Entry) (bs : List (Option ResourceHeader)) (i : ℕ)
    → Paired lookup es bs
    → Slot lookup es i (get_elem? bs i)
Paired-Slot lookup [] [] i no_pairs = outside (omega arith)
Paired-Slot lookup [] (b ∷ bs) i p = elim p [ ]
Paired-Slot lookup (e ∷ es) [] i p = elim p [ ]
Paired-Slot lookup (e ∷ es) (b ∷ bs) zero (pair_of h p) = inside refl h
Paired-Slot lookup (e ∷ es) (b ∷ bs) (suc i) (pair_of h p) =
    Slot-cons lookup e es i (get_elem? bs i) (Paired-Slot lookup es bs i p)

module _ (codecs : Codecs) (reader : WimReader) (idx : ℕ) where
  -- What reading an entry comes to: an error behind the last entry, nothing for an entry of no
  -- bytes, and else the resource of the size that the entry reports.
  pub data Reads : Run Bytes → Type 0 where
    beyond : length reader.entries ≤ idx → Reads (failed (invalid_index idx))
    nothing : {e : Entry} → get_elem? reader.entries idx ≡ some e → e.size ≡ 0 → Reads (done [])
    body :
        {e : Entry} (rh : ResourceHeader)
        → get_elem? reader.entries idx ≡ some e
        → e.kind ≡ EntryKind.file
        → e.size ≡ rh.original_size
        → {r : Run Bytes}
        → r ≡ read_resource codecs reader.inner reader.chunk_size reader.compressor rh
        → Reads r

  body_bytes-Reads :
      (lookup : Lookup) (o : Option (Option ResourceHeader))
      → Slot lookup reader.entries idx o
      → Reads (body_bytes codecs reader idx o)
  body_bytes-Reads lookup none (outside h) = beyond h
  body_bytes-Reads lookup (some none) (inside p h) = nothing p h.0
  body_bytes-Reads lookup (some (some rh)) (inside p (s, inl n)) = absurd (cc)
  body_bytes-Reads lookup (some (some rh)) (inside p (s, inr (k, hash, h))) = body rh p k s refl

  pub read_entry-Reads : Holds reader → Reads (read_entry codecs reader idx)
  unfolding read_entry
  read_entry-Reads (lookup, p) =
      body_bytes-Reads lookup _ (Paired-Slot lookup reader.entries reader.bodies idx p)

-- Reading an entry of an image that was opened is the error of a bad index behind the last entry,
-- gives nothing for an entry without a body, and else the resource whose size the entry reports.
pub open_wim-read_entry :
    (codecs : Codecs) (file : Bytes) (fuel : ℕ) (reader : WimReader) (idx : ℕ)
    → open_wim codecs file fuel ≡ done reader
    → Reads codecs reader idx (read_entry codecs reader idx)
open_wim-read_entry codecs file fuel reader idx e =
    read_entry-Reads codecs reader idx (open_wim-Holds codecs file fuel reader e)
