-- ===== src/Detect/Laws.antt =====
-- Compressed files and volumes, as src/detect.rs opens them.
use newtua_core.Detect.Opening.{Disk, read_all, joined, is_first_volume, open_joined, open_archive}
use newtua_core.Volume.Members.Gap.{numbers, volume_members-gap}
use newtua_core.Extract.World.{FsPath}
use newtua_core.Macos.{file_name}
use newtua_core.Detect.Suffixes.{stem_of_name-ext}
use newtua_core.Base.Text.{is_some, ends_with, to_lower, lowercase, strip_suffix-append}
use newtua_core.Base.{
  Bool-cases, length, get_elem?, ℕ, suc, ◌+◌, ◌^◌, ◌≤◌, ◌<◌, ◌≡◌, refl, ap, ◌∙◌, inl, inr, true,
  false, Option, none, some, List, [], ◌∷◌, ◌++◌, map, arith,
}
use newtua_core.Base.Utf8.{is_utf8}
use newtua_core.Base.Bytes.{Bytes}
use newtua_core.Error.{ok}
use newtua_core.Archive.{FormatId, OpenOptions}
use newtua_core.Volume.Members.{text_or_none, or_empty, first_suffix, volume, there}
use newtua_core.Detect.Compressors.{
  Compressor, Ext, compressor_exts, stem_of_name, text_or_data, stem_without_compressor_ext,
}
use newtua_core.Detect.Single.{
  File, Reader, Parts, is_tar, is_cpio, read_single, single_file_reader, gz_mtime_if, compressor_of,
  is_warc_name, is_dmg, open_payload, open_single,
}

-- A reader of one file: its path, its size and its bytes.
pub record HoldsFile (path bytes : Bytes) (reader : Reader) : Type 0 where
  pub is_raw : reader.format ≡ FormatId.raw
  pub paths : map (λ e. e.path) reader.entries ≡ path ∷ []
  pub sizes : map (λ e. e.size) reader.entries ≡ length bytes ∷ []
  pub body : reader.read_entry 0 ≡ (bytes, ok tt)

single-HoldsFile :
    (original : Option Bytes) (path tmp : Bytes) (modified : Option _)
    → stem_without_compressor_ext original ≡ path
    → HoldsFile path tmp (single_file_reader original tmp modified)
unfolding single_file_reader read_single
single-HoldsFile original path tmp modified e = record {
  is_raw = refl;
  paths = ap (λ p. p ∷ []) e;
  sizes = refl;
  body = refl;
}

text_or_data-text :
    (o : Option Bytes) (name : Bytes) → text_or_none o ≡ some name → text_or_data o ≡ name
text_or_data-text none name h = absurd (cc)
text_or_data-text (some n) name h = elim (Bool-cases (is_utf8 n)) [
  | inl e ↦ let h' = rw e at h in rw e (cc)
  | inr e ↦ let h' = rw e at h in absurd (cc)
]

module _ (parts : Parts) (opts : OpenOptions) (file : File) where
  -- A file whose name ends in a suffix of the table, with a compressor found by content or name,
  -- that no earlier branch takes, and whose decoded stream is neither tar nor cpio, is opened as
  -- one raw file: its path is the name without the suffix, its size and the bytes that reading it
  -- gives are those of the stream.
  pub open_single-wrapped :
      (name : Bytes) (i : ℕ) (ext : Ext) (comp : Compressor) (payload : Bytes)
      → text_or_none file.name ≡ some (name ++ ext.0)
      → get_elem? compressor_exts i ≡ some ext
      → is_warc_name file ≡ false
      → is_dmg file ≡ false
      → compressor_of file ≡ some comp
      → parts.decompressor comp file.bytes ≡ ok payload
      → is_tar payload ≡ false
      → is_cpio payload ≡ false
      → (reader : Reader) × (open_single parts opts file ≡ ok reader)
        × HoldsFile name payload reader
  open_single-wrapped name i ext comp payload named row warc dmg wrapped decoded tar cpio =
      let stem : stem_without_compressor_ext file.name ≡ name =
        unfold stem_without_compressor_ext in
        (ap stem_of_name (text_or_data-text file.name (name ++ ext.0) named)
          ∙ stem_of_name-ext name i ext row) in
      (
        single_file_reader file.name payload (gz_mtime_if comp file.bytes),
        unfold open_single open_payload in rw (warc, dmg, wrapped, decoded, tar, cpio) refl,
        single-HoldsFile file.name name payload _ stem,
      )

lowercase-append : (a b : Bytes) → lowercase (a ++ b) ≡ lowercase a ++ lowercase b
unfolding lowercase
lowercase-append [] b = refl
lowercase-append (c ∷ a) b = ap (◌∷◌ (to_lower c)) (lowercase-append a b)

ends_with-append : (a suf : Bytes) → ends_with (a ++ suf) suf ≡ true
ends_with-append a suf = ap is_some (strip_suffix-append suf a)

module _ (disk : Disk) (parts : Parts) (opts : OpenOptions) where
  -- Where the volumes of a stem are there up to a number of at least two and below 2^32, the next
  -- one is not, and all can be read, opening the first of them is opening a temporary file with
  -- the contents of all of them in their order.
  pub open_archive-volumes :
      (first : FsPath) (stem : Bytes) (n : ℕ) (volumes : List Bytes)
      → or_empty (text_or_none (file_name first)) ≡ stem ++ first_suffix
      → n + 2 < 2 ^ 32
      → ((i : ℕ) → 1 ≤ i → i < 1 + suc (suc n) → disk.exists (volume first stem i) ≡ true)
      → disk.exists (volume first stem (1 + suc (suc n))) ≡ false
      → read_all disk (map (volume first stem) (numbers 1 (suc (suc n)))) ≡ ok volumes
      → open_archive disk parts opts first
        ≡ open_single parts opts (record { name = parts.temp_name; bytes = joined volumes })
  open_archive-volumes first stem n volumes named small there last read =
      let is_first : is_first_volume first ≡ true =
        unfold is_first_volume in
        (ap (λ s. ends_with (lowercase s) first_suffix) named
          ∙ ap (λ s. ends_with s first_suffix) (lowercase-append stem first_suffix)
          ∙ unfold lowercase in ends_with-append (lowercase stem) first_suffix) in
      let members =
        volume_members-gap disk.exists first stem (suc n) named (omega arith) there last in
      unfold open_archive open_joined in rw (is_first, members, read) refl
