-- ===== src/Cpio/Reading.antt =====
-- `open` and `read_entry` of src/format/cpio.rs.
use newtua_core.Archive.Confidence
use mathlib.Core.Path.{subst}
use newtua_core.Cpio.Rounds.{read_exact-Ensures}
use newtua_core.Cpio.Bounds.{
  KindFits, MetaFits, ListingFits, scan_newc_seekable-Ensures, scan_odc_seekable-Ensures,
}
use newtua_core.Cpio.Walk.{KindRaw, file, dir, symlink, EntryMeta, Listing}
use newtua_core.Encoding.{Codecs}
use newtua_core.Archive.{Entry, OpenOptions}
use newtua_core.Error.{Result, ok, Ensures, returns, fails, Ensures-ok, Ensures-bind, Ensures-if}
use newtua_core.Cpio.Checksum.{body_checksum-total}
use newtua_core.Base.{
  leb, ◌==◌, le→leb, ==_iff, Bool-cases, equal, length, get_elem?, take, drop, All, length-take,
  length-drop, take-length, ℕ, zero, suc, ◌+◌, ◌≤◌, ◌≡◌, refl, ap, inl, inr, true, Option, none,
  some, List, [], ◌∷◌, arith,
}
use newtua_core.Base.Bytes.{Bytes}
use newtua_core.Cpio.Fields.{
  magic_newc, magic_crc, magic_odc, magic_len, is_supported_magic, newc, crc, body_checksum,
  summing_write,
}
use newtua_core.Cpio.Listing.{
  Body, probe, body_of, build_loop, CpioSeekReader, scan_magic, build_entries, open_seekable,
  verify_checksum, copy_sum, read_body, read_slot, read_entry,
}

abbrev BodyFits : ℕ → Option Body → Type 0
BodyFits n none = Unit
BodyFits n (some b) = b.offset + b.size ≤ n

abbrev pub body_bytes : Bytes → Body → Bytes
body_bytes src b = take b.size (drop b.offset src)

length-body_bytes :
    (src : Bytes) (b : Body) → BodyFits (length src) (some b) → length (body_bytes src b) ≡ b.size
length-body_bytes src b h =
    omega (arith, length-take b.size (drop b.offset src), length-drop b.offset src)

verify-copy_sum :
    (c : Option ℕ) (copied : Bytes)
    → verify_checksum c (copy_sum c copied) ≡ verify_checksum c (body_checksum copied)
unfolding verify_checksum summing_write
verify-copy_sum none copied = refl
verify-copy_sum (some want) copied =
    rw (take-length copied)
      (ap (λ s. verify_checksum (some want) s) (omega (arith, body_checksum-total copied)))

body_checksum-nil : body_checksum [] ≡ 0
unfolding body_checksum
body_checksum-nil = refl

read_body-eq :
    (src : Bytes) (b : Body)
    → BodyFits (length src) (some b)
    → read_body src b
      ≡ (body_bytes src b, verify_checksum b.checksum (body_checksum (body_bytes src b)))
unfolding read_body
read_body-eq src b h = elim (Bool-cases (b.size == 0)) [
  | inl zero_size ↦
      let empty : body_bytes src b ≡ [] =
        ap (λ n. take n (drop b.offset src)) ((==_iff b.size 0).0 zero_size) in
      rw (zero_size, empty, body_checksum-nil)
  | inr more ↦
      rw (more, (==_iff _ b.size).1 (length-body_bytes src b h))
        (ap (λ r. (body_bytes src b, r)) (verify-copy_sum b.checksum (body_bytes src b)))
]

body_of-BodyFits : (n : ℕ) (k : KindRaw) (m : EntryMeta) → KindFits k n m → BodyFits n (body_of k m)
unfolding body_of
body_of-BodyFits n file m h = h
body_of-BodyFits n dir m h = tt
body_of-BodyFits n (symlink t) m h = tt

-- What `build_entries` makes of a listing.
record BuiltFits (n : ℕ) (built : List Entry × List (Option Body)) : Type 0 where
  parallel : length built.0 ≡ length built.1
  inside : All (BodyFits n) built.1

build_loop-BuiltFits :
    (n i : ℕ) (ms : List EntryMeta) (raws names targets : List Bytes)
    → All (MetaFits n) ms
    → BuiltFits n (build_loop i ms raws names targets)
unfolding build_loop
build_loop-BuiltFits n i (m ∷ ms) (raw ∷ raws) names targets h =
    let f = build_loop-BuiltFits n (suc i) ms raws names targets h.1 in
    record { parallel = ap suc f.parallel; inside = (body_of-BodyFits n m.kind m h.0, f.inside) }
build_loop-BuiltFits n i [] raws names targets h = record { parallel = refl; inside = tt }
build_loop-BuiltFits n i (m ∷ ms) [] names targets h = record { parallel = refl; inside = tt }

probe-magic :
    (src magic : Bytes)
    → length magic ≡ magic_len
    → magic ≡ take magic_len src
    → is_supported_magic magic ≡ true
    → probe src ≡ Confidence.magic
unfolding probe
probe-magic src magic n e s =
    let long : leb magic_len (length src) ≡ true =
      le→leb _ _ (omega (arith, ap length e, n, length-take magic_len src)) in
    rw (long, ← e, s)

-- A reader whose bodies lie inside its source.
pub record OpenFits (src : Bytes) (reader : CpioSeekReader) : Type 0 where
  pub same_src : reader.src ≡ src
  pub parallel : length reader.entries ≡ length reader.bodies
  pub inside : All (BodyFits (length src)) reader.bodies
  pub probed : probe src ≡ Confidence.magic

supported :
    {n : ℕ} (magic : Bytes) {r : Result Listing}
    → Ensures (ListingFits n) r
    → is_supported_magic magic ≡ true
    → Ensures (λ l. ListingFits n l × (is_supported_magic magic ≡ true)) r
supported magic (returns p) e = returns (p, e)
supported magic fails e = fails

scan_magic-Ensures :
    (magic src : Bytes) (file_len : ℕ)
    → Ensures
        (λ l. ListingFits file_len l × (is_supported_magic magic ≡ true))
        (scan_magic magic src file_len)
unfolding scan_magic is_supported_magic
scan_magic-Ensures magic src file_len =
    Ensures-if _ (equal magic magic_odc) _ _
      (λ e. supported magic (scan_odc_seekable-Ensures src file_len) (ground arith))
      λ e.
        Ensures-if _ (equal magic magic_newc) _ _
          (λ f. supported magic (scan_newc_seekable-Ensures src file_len newc) (ground arith))
          λ f.
            Ensures-if _ (equal magic magic_crc) _ _
              (λ g. supported magic (scan_newc_seekable-Ensures src file_len crc) (ground arith))
              λ g. fails

module _ (c : Codecs) where
  pub open_seekable-Ensures :
      (src : Bytes) (opts : OpenOptions)
      → Ensures (OpenFits src) (open_seekable c src (length src) opts)
  unfolding open_seekable build_entries
  open_seekable-Ensures src opts =
      Ensures-bind _ _ _ _ (read_exact-Ensures magic_len _) λ (magic, _) p.
        Ensures-bind _ _ _ _ (scan_magic-Ensures magic src (length src)) λ (names, metas) g.
          let f = g.0 in
          returns (
            let built = build_loop-BuiltFits (length src) 0 metas names _ _ f.inside in
            record {
              same_src = refl;
              parallel = built.parallel;
              inside = built.inside;
              probed = probe-magic src magic p.0 p.1 g.1;
            })

pub All-get_elem? {ℓ κ} :
    {A : Type ℓ} (P : A → Type κ) (xs : List A) (i : ℕ) {x : A}
    → All P xs
    → get_elem? xs i ≡ some x
    → P x
All-get_elem? P [] i h e = absurd (cc)
All-get_elem? P (x ∷ xs) zero h e = subst P (cc) h.0
All-get_elem? P (x ∷ xs) (suc i) h e = All-get_elem? P xs i h.1 e

-- An archive that `open_seekable` opens is one for which `probe` answers `MAGIC`.
pub open_seekable-probe :
    (c : Codecs) (src : Bytes) (opts : OpenOptions) (reader : CpioSeekReader)
    → open_seekable c src (length src) opts ≡ ok reader
    → probe src ≡ Confidence.magic
open_seekable-probe c src opts reader o =
    (Ensures-ok (OpenFits src) (open_seekable-Ensures c src opts) o).probed

module _ (c : Codecs) (src : Bytes) (opts : OpenOptions) (reader : CpioSeekReader) where
  -- Reading an entry with a body, of an archive that was opened, gives out the whole body of the
  -- listed size and never reports a truncation: the outcome is that of the checksum over just the
  -- bytes that went out.
  pub read_entry-opened :
      (idx : ℕ) (b : Body)
      → open_seekable c src (length src) opts ≡ ok reader
      → get_elem? reader.bodies idx ≡ some (some b)
      → (length (read_entry reader idx).0 ≡ b.size)
        × (read_entry reader idx
            ≡ (body_bytes src b, verify_checksum b.checksum (body_checksum (body_bytes src b))))
  unfolding read_entry read_slot
  read_entry-opened idx b o e =
      let f = Ensures-ok (OpenFits src) (open_seekable-Ensures c src opts) o in
      let fits : BodyFits (length src) (some b) =
        All-get_elem? (BodyFits (length src)) reader.bodies idx f.inside e in
      let whole = read_body-eq src b fits in
      rw (e, f.same_src, whole) (length-body_bytes src b fits, refl)
