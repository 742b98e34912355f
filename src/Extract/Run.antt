-- ===== src/Extract/Run.antt =====
-- src/extract.rs: `extract_all`, the entries one after the other.
use newtua_core.Extract.World.{
  FsPath, create_dir_all, entry_start, entry_done, Flow, continue, abort, World, Env, ArchiveReader,
  M, ◌>>=◌, ◌>>◌, lift, pure, perform, notify,
}
use newtua_core.Base.{
  if◌then◌else◌, ℕ, suc, ◌+◌, Bool, true, false, not, ◌&&◌, Option, List, [], ◌∷◌, ◌++◌,
}
use newtua_core.Base.Bytes.{Bytes}
use newtua_core.Base.Utf8.{from_utf8_lossy}
use newtua_core.Error.{Error, Result, ok, err, stuck}
use newtua_core.Archive.{Entry}
use newtua_core.Datetime.{SystemTime}
use newtua_core.PathSafety.Paths.{components}
use newtua_core.Extract.{ExtractOptions, is_selected, is_skipped, choose_dest}
use newtua_core.Extract.One.{apply_mtime, when, extract_one}

pub record ExtractReport : Type 0 where
  pub extracted : ℕ
  pub failed : List (Bytes × Error)
  pub wrapped : Bool
  pub aborted : Bool

-- What the rest of the loop makes of the report so far.
abbrev pub Rest : Type 0
Rest = ExtractReport → M ExtractReport

abbrev pub on_result :
    Env
    → Bool
    → ℕ
    → Entry
    → ExtractReport
    → Rest
    → World × Result (Unit {0})
    → World × Result ExtractReport
on_result env strict idx entry report rest (w, ok _) =
    rest (record report { extracted = report.extracted + 1 }) (notify env (entry_done idx) w).0
on_result env strict idx entry report rest (w, err e) =
    if strict
    then (w, err e)
    else rest (record report { failed = report.failed ++ (entry.path, e) ∷ [] }) w
on_result env strict idx entry report rest (w, stuck) = (w, stuck)

abbrev pub after_one :
    Env
    → Bool
    → ℕ
    → Entry
    → ExtractReport
    → Rest
    → World × Result (Unit {0})
    → World × Result ExtractReport
after_one env strict idx entry report rest (w, r) =
    if w.aborted
    then (w, ok (record report { aborted = true }))
    else on_result env strict idx entry report rest (w, r)

abbrev pub on_start :
    Env
    → ArchiveReader
    → ExtractOptions
    → Bytes
    → ℕ
    → Entry
    → ExtractReport
    → Rest
    → World × Flow
    → World × Result ExtractReport
on_start env reader opts dest idx entry report rest (w, abort) =
    (w, ok (record report { aborted = true }))
on_start env reader opts dest idx entry report rest (w, continue) =
    after_one env opts.strict idx entry report rest
      (extract_one env reader idx entry dest opts.preserve (record w { aborted = false }))

-- An entry that is taken.
unfoldable pub take_entry :
    Env
    → ArchiveReader
    → ExtractOptions
    → Bytes
    → ℕ
    → Entry
    → ExtractReport
    → Rest
    → M ExtractReport
take_entry env reader opts dest idx entry report rest w =
    on_start env reader opts dest idx entry report rest
      (notify env (entry_start idx (from_utf8_lossy entry.path) entry.size) w)

-- The loop over the entries from index `idx` on.
unfoldable pub extract_loop :
    Env → ArchiveReader → ExtractOptions → Bytes → ℕ → List Entry → ExtractReport → M ExtractReport
extract_loop env reader opts dest idx [] report = pure report
extract_loop env reader opts dest idx (e ∷ es) report =
    let rest = extract_loop env reader opts dest (suc idx) es in
    if is_selected opts.selection idx && not (is_skipped opts e)
    then take_entry env reader opts dest idx e report rest
    else rest report

unfoldable pub set_dir_mtimes : List (FsPath × Option SystemTime) → M (Unit {0})
set_dir_mtimes [] = pure tt
set_dir_mtimes ((path, modified) ∷ dirs) = apply_mtime path modified >> set_dir_mtimes dirs

abbrev pub set_recorded_mtimes : M (Unit {0})
set_recorded_mtimes w = set_dir_mtimes w.dir_mtimes w

abbrev pub fresh : World
fresh = record { ops = []; events = []; dir_mtimes = []; aborted = false }

abbrev pub new_report : Bool → ExtractReport
new_report wrapped = record { extracted = 0; failed = []; wrapped = wrapped; aborted = false }

unfoldable pub extract_all : Env → ArchiveReader → ExtractOptions → M ExtractReport
extract_all env reader opts = do
  entries ← lift reader.entries
  lift reader.verify_password
  let (dest, wrapped) = choose_dest opts entries
  when wrapped (perform env (create_dir_all (components dest)))
  report ← extract_loop env reader opts dest 0 entries (new_report wrapped)
  when opts.preserve set_recorded_mtimes
  pure report
