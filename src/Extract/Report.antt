-- ===== src/Extract/Report.antt =====
-- What the report of `extract_all` in src/extract.rs counts.
use newtua_core.PathSafety.Paths.{components}
use newtua_core.Extract.One.{when}
use mathlib.Core.Path.{subst}
use newtua_core.Extract.World.{
  create_dir_all, entry_start, Flow, continue, abort, World, Env, ArchiveReader, M, and_then, ◌>>=◌,
  ◌>>◌, lift, pure, perform, notify,
}
use newtua_core.Base.{
  if◌then◌else◌, Bool-cases, length, length-append, ℕ, suc, ◌+◌, ◌≡◌, refl, ap, inl, inr, Bool,
  true, false, not, ◌&&◌, List, [], ◌∷◌, arith,
}
use newtua_core.Base.Utf8.{from_utf8_lossy}
use newtua_core.Base.Bytes.{Bytes}
use newtua_core.Error.{Error, Result, ok, err, stuck, ok-injective}
use newtua_core.Archive.{Entry}
use newtua_core.Extract.{ExtractOptions, is_selected, is_skipped, subset_from, choose_dest}
use newtua_core.Extract.Run.{
  ExtractReport, Rest, on_result, after_one, on_start, take_entry, extract_loop,
  set_recorded_mtimes, new_report, extract_all,
}

-- The entries that a report accounts for.
abbrev pub accounted : ExtractReport → ℕ
accounted report = report.extracted + length report.failed

-- A run that comes to its end accounts for `n` entries.
data Counts (n : ℕ) : Result ExtractReport → Type 0 where
  whole : {report : ExtractReport} → accounted report ≡ n → Counts n (ok report)
  ended_early : {report : ExtractReport} → report.aborted ≡ true → Counts n (ok report)
  failing : {e : Error} → Counts n (err e)
  unending : Counts n stuck

if-Counts :
    (n : ℕ) (b : Bool) (x y : World × Result ExtractReport)
    → Counts n x.1
    → Counts n y.1
    → Counts n (if b then x else y).1
if-Counts n true x y p q = p
if-Counts n false x y p q = q

module _ (env : Env) (reader : ArchiveReader) (dest : Bytes) (opts : ExtractOptions) where
  on_result-Counts :
      (n idx : ℕ) (entry : Entry) (report : ExtractReport) (rest : Rest)
      (res : World × Result (Unit {0}))
      → ((rep : ExtractReport) (w : World)
          → accounted rep ≡ accounted report + 1
          → Counts n (rest rep w).1)
      → Counts n (on_result env opts.strict idx entry report rest res).1
  on_result-Counts n idx entry report rest (w, ok _) k = k _ _ (omega arith)
  on_result-Counts n idx entry report rest (w, err e) k =
      if-Counts n opts.strict _ _ failing
        (k _ w (omega (arith, length-append report.failed ((entry.path, e) ∷ []))))
  on_result-Counts n idx entry report rest (w, stuck) k = unending

  after_one-Counts :
      (n idx : ℕ) (entry : Entry) (report : ExtractReport) (rest : Rest)
      (res : World × Result (Unit {0}))
      → ((rep : ExtractReport) (w : World)
          → accounted rep ≡ accounted report + 1
          → Counts n (rest rep w).1)
      → Counts n (after_one env opts.strict idx entry report rest res).1
  after_one-Counts n idx entry report rest (w, r) k =
      if-Counts n w.aborted _ _ (ended_early refl)
        (on_result-Counts n idx entry report rest (w, r) k)

  on_start-Counts :
      (n idx : ℕ) (entry : Entry) (report : ExtractReport) (rest : Rest) (res : World × Flow)
      → ((rep : ExtractReport) (w : World)
          → accounted rep ≡ accounted report + 1
          → Counts n (rest rep w).1)
      → Counts n (on_start env reader opts dest idx entry report rest res).1
  on_start-Counts n idx entry report rest (w, abort) k = ended_early refl
  on_start-Counts n idx entry report rest (w, continue) k =
      after_one-Counts n idx entry report rest _ k

  extract_loop-Counts :
      (es : List Entry) (n idx : ℕ) (report : ExtractReport) (w : World)
      → accounted report + length (subset_from opts idx es) ≡ n
      → Counts n (extract_loop env reader opts dest idx es report w).1
  unfolding extract_loop subset_from take_entry
  extract_loop-Counts [] n idx report w h = whole (omega (arith, h))
  extract_loop-Counts (e ∷ es) n idx report w h =
      elim (Bool-cases (is_selected opts.selection idx && not (is_skipped opts e))) [
        | inl t ↦
            let h' = rw t at h in
            rw t (
              on_start-Counts n idx e report (extract_loop env reader opts dest (suc idx) es)
                (notify env (entry_start idx (from_utf8_lossy e.path) e.size) w)
                λ rep w' one. extract_loop-Counts es n (suc idx) rep w' (omega (arith, h', one)))
        | inr t ↦ let h' = rw t at h in rw t (extract_loop-Counts es n (suc idx) report w h')
      ]

-- An action that ends in such a report.
record Tells (n : ℕ) (m : M ExtractReport) : Type 0 where
  tells : (w : World) → Counts n (m w).1

and_then-Counts :
    {A : Type 0} (n : ℕ) (res : World × Result A) (next : A → M ExtractReport)
    → ((a : A) → res.1 ≡ ok a → Tells n (next a))
    → Counts n (and_then res next).1
and_then-Counts n (w, ok a) next k = (k a refl).tells w
and_then-Counts n (w, err e) next k = failing
and_then-Counts n (w, stuck) next k = unending

Tells-bind :
    {A : Type 0} (n : ℕ) (m : M A) (next : A → M ExtractReport)
    → ((a : A) → Tells n (next a))
    → Tells n (m >>= next)
Tells-bind n m next k = record { tells = λ w. and_then-Counts n (m w) next (λ a e. k a) }

Tells-lift :
    {A : Type 0} (n : ℕ) (r : Result A) (next : A → M ExtractReport)
    → ((a : A) → r ≡ ok a → Tells n (next a))
    → Tells n (lift r >>= next)
unfolding lift
Tells-lift n r next k = record { tells = λ w. and_then-Counts n (w, r) next k }

kept :
    (n : ℕ) (report : ExtractReport) (res : World × Result (Unit {0}))
    → Counts n (ok report)
    → Counts n (and_then res (λ _. pure report)).1
kept n report (w, ok _) c = c
kept n report (w, err e) c = failing
kept n report (w, stuck) c = unending

-- What follows the loop keeps its report.
Tells-after :
    (n : ℕ) (m : M (Unit {0})) (res : World × Result ExtractReport)
    → Counts n res.1
    → Counts n (and_then res (λ report. m >> pure report)).1
Tells-after n m (w, ok report) c = kept n report (m w) c
Tells-after n m (w, err e) c = failing
Tells-after n m (w, stuck) c = unending

Counts-ok :
    (n : ℕ) {r : Result ExtractReport} (report : ExtractReport)
    → Counts n r
    → r ≡ ok report
    → report.aborted ≡ false
    → accounted report ≡ n
Counts-ok n report (whole {report = rep} c) h live =
    let same : rep ≡ report = cc in subst (λ x. accounted x ≡ n) same c
Counts-ok n report (ended_early {report = rep} a) h live =
    let same : rep ≡ report = cc in absurd (cc (ap (λ x. x.aborted) same))
Counts-ok n report failing h live = absurd (cc)
Counts-ok n report unending h live = absurd (cc)

loop-Tells :
    (env : Env) (reader : ArchiveReader) (dest : Bytes) (opts : ExtractOptions)
    (entries : List Entry) (wrapped : Bool)
    → Tells (length (subset_from opts 0 entries)) (
        extract_loop env reader opts dest 0 entries (new_report wrapped) >>= λ report.
        when opts.preserve set_recorded_mtimes >> pure report)
loop-Tells env reader dest opts entries wrapped = record {
  tells = λ w.
      Tells-after _ (when opts.preserve set_recorded_mtimes)
        (extract_loop env reader opts dest 0 entries (new_report wrapped) w)
        (extract_loop-Counts env reader dest opts entries _ 0 (new_report wrapped) w (omega arith));
}

extract_all-Tells :
    (env : Env) (reader : ArchiveReader) (opts : ExtractOptions) (entries : List Entry)
    → reader.entries ≡ ok entries
    → Tells (length (subset_from opts 0 entries)) (extract_all env reader opts)
unfolding extract_all
extract_all-Tells env reader opts entries e =
    let n : ℕ = length (subset_from opts 0 entries) in
    Tells-lift n reader.entries _ λ found f.
      let same : found ≡ entries = ok-injective reader.entries found entries f e in
      rw same (
        Tells-lift n reader.verify_password _ λ _ _.
          Tells-bind n
            (when (choose_dest opts entries).1
              (perform env (create_dir_all (components (choose_dest opts entries).0))))
            _
            λ _.
              loop-Tells env reader (choose_dest opts entries).0 opts entries
                (choose_dest opts entries).1)

-- A run of `extract_all` that returns a report, and was not aborted, accounts for every entry that
-- is selected and not skipped: the entries extracted and those listed as failed are together just
-- as many.
pub extract_all_accounted :
    (env : Env) (reader : ArchiveReader) (opts : ExtractOptions) (entries : List Entry)
    (w v : World) (report : ExtractReport)
    → reader.entries ≡ ok entries
    → extract_all env reader opts w ≡ (v, ok report)
    → report.aborted ≡ false
    → report.extracted + length report.failed ≡ length (subset_from opts 0 entries)
extract_all_accounted env reader opts entries w v report e h live =
    Counts-ok _ report ((extract_all-Tells env reader opts entries e).tells w) (ap (λ res. res.1) h)
      live
