-- ===== src/Wpress/Reading.antt =====
-- src/format/wpress.rs: text fields as they are written, the paths of entries, and reading one.
use newtua_core.Base.{
  ◌==◌, ==_iff, Bool-cases, length, get_elem?, take, drop, replicate, All, length-take, length-drop,
  ℕ, zero, suc, ◌+◌, ◌≤◌, ◌<◌, ◌≡◌, refl, sym, ap, ◌∙◌, inl, inr, true, false, some, List, [], ◌∷◌,
  ◌++◌, arith,
}
use newtua_core.Base.Bytes.{Bytes}
use newtua_core.Base.Utf8.{is_utf8, from_utf8_lossy-valid}
use newtua_core.Error.{ok, Ensures, returns, Ensures-ok, Ensures-bind}
use newtua_core.Encoding.{Codecs}
use newtua_core.Archive.{OpenOptions}
use newtua_core.PathSafety.{safe_join, raw_path_escapes}
use newtua_core.PathSafety.Raw.{is_refused, raw_path_escapes-safe_join}
use newtua_core.Cpio.Reading.{All-get_elem?}
use newtua_core.Wpress.Fields.{all_zero, text_field}
use newtua_core.Wpress.Walk.{
  Record, entry_of, build_loop, WpressReader, build_reader, open_seekable, read_slot, read_entry,
}
use newtua_core.Wpress.Bounds.{RecordFits, scan-RecordsFit}

all_zero-replicate : (k : ℕ) → all_zero (replicate k 0) ≡ true
unfolding all_zero
all_zero-replicate zero = refl
all_zero-replicate (suc k) = all_zero-replicate k

-- A text without NUL that is padded with any number of NULs is read back by `text_field`.
pub text_field-padded :
    (text : Bytes) (k : ℕ) → All (λ b. 0 < b) text → text_field (text ++ replicate k 0) ≡ some text
unfolding text_field
text_field-padded [] zero h = refl
text_field-padded [] (suc k) h = rw (all_zero-replicate k) refl
text_field-padded (b ∷ text) k h =
    let more : (b == 0) ≡ false = ground (arith, h.0) in
    rw (more, text_field-padded text k h.1) refl

-- Where the raw path of an entry is valid UTF-8 and leads out of the destination, `safe_join`
-- refuses the path that the entry is given, whatever its name was decoded to and whatever the
-- destination.
pub entry_of-refused :
    (dest raw name : Bytes) (rec : Record)
    → is_utf8 raw ≡ true
    → raw_path_escapes raw ≡ true
    → is_refused (safe_join dest (entry_of raw name rec).path) ≡ true
unfolding entry_of
entry_of-refused dest raw name rec valid e =
    rw (e, from_utf8_lossy-valid raw valid) (sym (raw_path_escapes-safe_join dest raw valid) ∙ e)

abbrev BodyInside : ℕ → ℕ × ℕ → Type 0
BodyInside n (offset, size) = offset + size ≤ n

build_loop-inside :
    (n i : ℕ) (raws : List Bytes) (recs : List Record) (names : List Bytes)
    → All (RecordFits n) recs
    → All (BodyInside n) (build_loop i raws recs names).1
unfolding build_loop
build_loop-inside n i (raw ∷ raws) (rec ∷ recs) names h =
    (h.0, build_loop-inside n (suc i) raws recs names h.1)
build_loop-inside n i [] recs names h = tt
build_loop-inside n i (raw ∷ raws) [] names h = tt

record OpenFits (src : Bytes) (reader : WpressReader) : Type 0 where
  same_src : reader.src ≡ src
  bodies_inside : All (BodyInside (length src)) reader.bodies

open_seekable-OpenFits :
    (c : Codecs) (src : Bytes) (opts : OpenOptions)
    → Ensures (OpenFits src) (open_seekable c src opts)
unfolding open_seekable build_reader
open_seekable-OpenFits c src opts =
    Ensures-bind _ _ _ _ (scan-RecordsFit src (length src)) λ (paths, recs) f. returns (record {
      same_src = refl;
      bodies_inside = build_loop-inside (length src) 0 paths recs _ f.0.inside;
    })

read_slot-inside :
    (src : Bytes) (idx offset size : ℕ)
    → offset + size ≤ length src
    → read_slot src idx (some (offset, size)) ≡ (take size (drop offset src), ok tt)
read_slot-inside src idx offset size h = elim (Bool-cases (size == 0)) [
  | inl e ↦ rw e (ap (λ n. (take n (drop offset src), ok tt)) (sym ((==_iff size 0).0 e)))
  | inr e ↦
      let whole : (length (take size (drop offset src)) == size) ≡ true =
        (==_iff _ size).1
          (omega (arith, h, length-take size (drop offset src), length-drop offset src)) in
      rw (e, whole) refl
]

-- Reading an entry of a dump that was opened gives out the whole body, which lies inside the
-- source, and never reports a truncation.
pub read_entry-whole :
    (c : Codecs) (src : Bytes) (opts : OpenOptions) (reader : WpressReader) (idx offset size : ℕ)
    → open_seekable c src opts ≡ ok reader
    → get_elem? reader.bodies idx ≡ some (offset, size)
    → (read_entry reader idx ≡ (take size (drop offset src), ok tt)) × (offset + size ≤ length src)
unfolding read_entry
read_entry-whole c src opts reader idx offset size o e =
    let f = Ensures-ok (OpenFits src) (open_seekable-OpenFits c src opts) o in
    let fits = All-get_elem? (BodyInside (length src)) reader.bodies idx f.bodies_inside e in
    (rw (e, f.same_src) (read_slot-inside src idx offset size fits), fits)
