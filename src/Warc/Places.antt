-- ===== src/Warc/Places.antt =====
-- Where src/format/warc.rs puts the bodies, and what reading them gives.
use mathlib.Core.Path.{subst}
use newtua_core.Detect.Copy.{copy_slice_exact-append}
use newtua_core.Base.{
  if◌then◌else◌, Bool-cases, length, get_elem?, length-append, ℕ, zero, suc, ◌+◌, ◌≡◌, refl, sym,
  ap, ◌∙◌, inl, inr, Option, none, some, List, [], ◌∷◌, ◌++◌, append-nil, append_assoc, arith,
}
use newtua_core.Base.Bytes.{Bytes}
use newtua_core.Error.{Error, ok}
use newtua_core.Datetime.{SystemTime}
use newtua_core.Base.Str.{Parsed, panics, absent, found}
use newtua_core.Warc.Reading.{
  Record, WarcReader, Opened, opened, failed, panicked, opt_date, payload_of, with_entry, is_kept,
  on_date, open_loop, empty_reader, open_records, read_slot, read_entry,
}

-- The bodies of the records that become entries, in their order.
unfoldable pub payloads : List (Option Record) → List Bytes
payloads [] = []
payloads (none ∷ recs) = []
payloads (some rec ∷ recs) =
    let rest = payloads recs in
    if is_kept rec.warc_type then payload_of rec.warc_type rec.body ∷ rest else rest

abbrev pub concat : List Bytes → Bytes
concat [] = []
concat (p ∷ ps) = p ++ concat ps

abbrev pub places : ℕ → List Bytes → List (ℕ × ℕ)
places k [] = []
places k (p ∷ ps) = (k, length p) ∷ places (k + length p) ps

concat-snoc : (ps : List Bytes) (p : Bytes) → concat (ps ++ p ∷ []) ≡ concat ps ++ p
concat-snoc [] p = append-nil p
concat-snoc (q ∷ ps) p = ap (λ x. q ++ x) (concat-snoc ps p) ∙ sym (append_assoc q (concat ps) p)

places-snoc :
    (k : ℕ) (ps : List Bytes) (p : Bytes)
    → places k (ps ++ p ∷ []) ≡ places k ps ++ (k + length (concat ps), length p) ∷ []
places-snoc k [] p = ap (λ n. (n, length p) ∷ []) (omega arith)
places-snoc k (q ∷ ps) p = ap (◌∷◌ (k, length q)) (
    places-snoc (k + length q) ps p
    ∙ ap (λ n. places (k + length q) ps ++ (n, length p) ∷ [])
        (omega (arith, length-append q (concat ps))))

-- The file and the places are those of a list of bodies.
abbrev pub Holds : WarcReader → List Bytes → Type 0
Holds st ps = (st.src ≡ concat ps) × (st.offsets ≡ places 0 ps)

with_entry-Holds :
    (st : WarcReader) (rec : Record) (modified : Option SystemTime) (ps : List Bytes)
    → Holds st ps
    → Holds (with_entry st rec modified) (ps ++ payload_of rec.warc_type rec.body ∷ [])
unfolding with_entry
with_entry-Holds st rec modified ps (e, f) =
    let p = payload_of rec.warc_type rec.body in
    (
      ap (λ s. s ++ p) e ∙ sym (concat-snoc ps p),
      ap (λ o. o ++ (length st.src, length p) ∷ []) f
          ∙ ap (λ n. places 0 ps ++ (n, length p) ∷ []) (ap length e ∙ omega arith)
          ∙ sym (places-snoc 0 ps p),
    )

-- A run of `open` ends in a panic, in an error, or in a reader with those bodies.
data Gives (ps : List Bytes) : Opened → Type 0 where
  holding : {st : WarcReader} → Holds st ps → Gives ps (opened st)
  failing : {e : Error} → Gives ps (failed e)
  panicking : Gives ps panicked

on_date-Gives :
    (d : Parsed SystemTime) (st : WarcReader) (rec : Record) (more : WarcReader → Opened)
    (ps all : List Bytes)
    → Holds st ps
    → ((next : WarcReader)
        → Holds next (ps ++ payload_of rec.warc_type rec.body ∷ [])
        → Gives all (more next))
    → Gives all (on_date d st rec more)
on_date-Gives panics st rec more ps all h k = panicking
on_date-Gives absent st rec more ps all h k = k _ (with_entry-Holds st rec none ps h)
on_date-Gives (found t) st rec more ps all h k = k _ (with_entry-Holds st rec (some t) ps h)

open_loop-Gives :
    (recs : List (Option Record)) (st : WarcReader) (ps : List Bytes)
    → Holds st ps
    → Gives (ps ++ payloads recs) (open_loop recs st)
unfolding open_loop payloads
open_loop-Gives [] st ps h = subst (λ qs. Gives qs (opened st)) (sym (append-nil ps)) (holding h)
open_loop-Gives (none ∷ recs) st ps h = failing
open_loop-Gives (some rec ∷ recs) st ps h = elim (Bool-cases (is_kept rec.warc_type)) [
  | inl t ↦ rw t (
      on_date-Gives (opt_date rec.date) st rec (open_loop recs) ps _ h λ next g.
        subst (λ qs. Gives qs (open_loop recs next))
          (append_assoc ps (payload_of rec.warc_type rec.body ∷ []) (payloads recs))
          (open_loop-Gives recs next (ps ++ payload_of rec.warc_type rec.body ∷ []) g))
  | inr t ↦ rw t (open_loop-Gives recs st ps h)
]

Gives-opened :
    (ps : List Bytes) (st : WarcReader) {o : Opened} → Gives ps o → o ≡ opened st → Holds st ps
Gives-opened ps st (holding {st = s} h) e = let same : s ≡ st = cc in subst (λ r. Holds r ps) same h
Gives-opened ps st failing e = absurd (cc)
Gives-opened ps st panicking e = absurd (cc)

read_slot-places :
    (front : Bytes) (ps : List Bytes) (b : Bytes) (i j : ℕ)
    → get_elem? ps i ≡ some b
    → read_slot (front ++ concat ps) j (get_elem? (places (length front) ps) i) ≡ (b, ok tt)
read_slot-places front [] b i j h = absurd (cc)
read_slot-places front (p ∷ ps) b zero j h =
    let same : p ≡ b = cc in
    copy_slice_exact-append front p (concat ps) "warc" ∙ ap (λ x. (x, ok tt)) same
read_slot-places front (p ∷ ps) b (suc i) j h =
    ap (λ k. read_slot (front ++ (p ++ concat ps)) j (get_elem? (places k ps) i))
      (sym (length-append front p))
    ∙ ap (λ s. read_slot s j (get_elem? (places (length (front ++ p)) ps) i))
        (sym (append_assoc front p (concat ps)))
    ∙ read_slot-places (front ++ p) ps b i j h

-- In a web archive that was opened, reading the entry of a number gives the whole payload of the
-- response or resource record of that number, and never reports a truncation.
pub read_entry-payloads :
    (recs : List (Option Record)) (reader : WarcReader) (i : ℕ) (b : Bytes)
    → open_records recs ≡ opened reader
    → get_elem? (payloads recs) i ≡ some b
    → read_entry reader i ≡ (b, ok tt)
unfolding open_records read_entry
read_entry-payloads recs reader i b h k =
    let (e, f) =
      Gives-opened (payloads recs) reader (open_loop-Gives recs empty_reader [] (refl, refl)) h in
    ap (λ s. read_slot s i (get_elem? reader.offsets i)) e
    ∙ ap (λ o. read_slot (concat (payloads recs)) i (get_elem? o i)) f
    ∙ read_slot-places [] (payloads recs) b i i k
