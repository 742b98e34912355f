-- ===== src/Extract/Safety/Whole.antt =====
-- A whole run of `extract_all` in src/extract.rs, against the destination.
use mathlib.Core.Path.{subst}
use newtua_core.Extract.World.{
  FsPath, create_dir_all, entry_done, Flow, continue, abort, World, Env, ArchiveReader, ◌>>◌, pure,
}
use newtua_core.Base.{
  if◌then◌else◌, Bool-cases, All, ℕ, suc, ◌<◌, ◌≡◌, refl, sym, ap, ◌∙◌, inl, inr, Bool, true, false,
  not, ◌&&◌, Option, List, [], ◌∷◌, ◌++◌, append-nil, arith,
}
use newtua_core.Base.Bytes.{Bytes}
use newtua_core.Error.{Result, ok, err, stuck, ok-injective}
use newtua_core.Archive.{EntryKind, Entry}
use newtua_core.Datetime.{SystemTime}
use newtua_core.PathSafety.{normalized, count_normal}
use newtua_core.PathSafety.Paths.{Component, root_dir, cur_dir, parent_dir, normal, components}
use newtua_core.PathSafety.Join.{parts, Joined, inside, refused, safe_join-Joined}
use newtua_core.Extract.{ExtractOptions, is_selected, is_skipped, subset_from, choose_dest}
use newtua_core.Extract.One.{when, write_resource_fork, extract_kind, extract_at, extract_one}
use newtua_core.Extract.Run.{
  ExtractReport, Rest, on_result, after_one, on_start, take_entry, extract_loop, set_dir_mtimes,
  set_recorded_mtimes, fresh, extract_all,
}
use newtua_core.Extract.Safety.{
  all_names, Under, IsSafe, all_names-parts, Keeps, Keeps-bind, Keeps-lift, Keeps-when, IsPlaced,
  Below, Below-Under,
}
use newtua_core.Extract.Safety.Steps.{
  perform-IsSafe, apply_mtime-IsSafe, notify-IsSafe, extract_dir-IsSafe, extract_symlink-IsSafe,
  extract_file-IsSafe, write_resource_fork-IsSafe,
}

Joined-ok :
    (name dest out : Bytes) (cs : List Component) {r : Result Bytes}
    → Joined name dest cs r
    → r ≡ ok out
    → components out ≡ components dest ++ parts cs
Joined-ok name dest out cs (inside {out = o} e c) h =
    let same : o ≡ out = cc in subst (λ p. components p ≡ components dest ++ parts cs) same c
Joined-ok name dest out cs (refused e) h = absurd (cc)

parts-cons :
    (cs : List Component)
    → 0 < count_normal cs
    → (n : Component) × (ns : List Component) × (parts cs ≡ n ∷ ns)
unfolding count_normal
parts-cons [] h = absurd (omega arith)
parts-cons (normal s ∷ cs) h = (normal s, parts cs, refl)
parts-cons (root_dir ∷ cs) h = parts-cons cs h
parts-cons (cur_dir ∷ cs) h = parts-cons cs h
parts-cons (parent_dir ∷ cs) h = parts-cons cs h

if-IsSafe :
    (base : FsPath) (b : Bool) (x y : World × Result ExtractReport)
    → IsSafe base x.0
    → IsSafe base y.0
    → IsSafe base (if b then x else y).0
if-IsSafe base true x y p q = p
if-IsSafe base false x y p q = q

module _ (env : Env) (reader : ArchiveReader) (dest : Bytes) where
  abbrev dest_path : FsPath
  dest_path = components dest

  kind-IsSafe :
      (idx : ℕ) (entry : Entry) (preserve fork : Bool) (kind : EntryKind) (p : FsPath)
      → Below dest_path p
      → Keeps (IsSafe dest_path) (
          if fork
          then write_resource_fork env reader idx entry p preserve
          else extract_kind env reader idx entry dest p preserve kind)
  kind-IsSafe idx entry preserve true kind p b =
      write_resource_fork-IsSafe env reader dest_path idx entry p preserve b
  kind-IsSafe idx entry preserve false EntryKind.file p b =
      extract_file-IsSafe env reader dest_path idx entry p preserve b
  kind-IsSafe idx entry preserve false EntryKind.dir p b =
      extract_dir-IsSafe env reader dest_path entry p preserve (Below-Under dest_path p b)
  kind-IsSafe idx entry preserve false (EntryKind.symlink link) p b =
      extract_symlink-IsSafe env reader dest_path entry dest link p preserve b

  dir-IsSafe :
      (idx : ℕ) (entry : Entry) (preserve fork : Bool) (kind : EntryKind) (p : FsPath)
      → fork ≡ false
      → kind ≡ EntryKind.dir
      → Under dest_path p
      → Keeps (IsSafe dest_path) (
          if fork
          then write_resource_fork env reader idx entry p preserve
          else extract_kind env reader idx entry dest p preserve kind)
  dir-IsSafe idx entry preserve true kind p f k u = absurd (cc)
  dir-IsSafe idx entry preserve false EntryKind.dir p f k u =
      extract_dir-IsSafe env reader dest_path entry p preserve u
  dir-IsSafe idx entry preserve false EntryKind.file p f k u = absurd (cc)
  dir-IsSafe idx entry preserve false (EntryKind.symlink link) p f k u = absurd (cc)

  extract_one-IsSafe :
      (idx : ℕ) (entry : Entry) (preserve : Bool)
      → IsPlaced entry
      → Keeps (IsSafe dest_path) (extract_one env reader idx entry dest preserve)
  unfolding extract_one extract_at
  extract_one-IsSafe idx entry preserve placed = Keeps-lift (IsSafe dest_path) _ _ λ target joined.
      let cs = components (normalized entry.path) in
      let lies : components target ≡ dest_path ++ parts cs =
        Joined-ok _ dest target cs (safe_join-Joined dest entry.path) joined in
      elim placed [
        | inl named ↦
            let (n, ns, e) = parts-cons cs named in
            kind-IsSafe idx entry preserve entry.is_resource_fork entry.kind (components target) (
              n,
              ns,
              lies ∙ ap (λ qs. dest_path ++ qs) e,
              ap all_names (sym e) ∙ all_names-parts cs,
            )
        | inr (f, k) ↦
            dir-IsSafe idx entry preserve entry.is_resource_fork entry.kind (components target) f k
              (parts cs, lies, all_names-parts cs)
      ]

  module _ (opts : ExtractOptions) where
    on_result-IsSafe :
        (idx : ℕ) (entry : Entry) (report : ExtractReport) (rest : Rest)
        (res : World × Result (Unit {0}))
        → IsSafe dest_path res.0
        → ((rep : ExtractReport) → Keeps (IsSafe dest_path) (rest rep))
        → IsSafe dest_path (on_result env opts.strict idx entry report rest res).0
    on_result-IsSafe idx entry report rest (w, ok _) s k =
        (k _).keeps _ (notify-IsSafe env reader dest_path (entry_done idx) w s)
    on_result-IsSafe idx entry report rest (w, err e) s k =
        if-IsSafe dest_path opts.strict _ _ s ((k _).keeps w s)
    on_result-IsSafe idx entry report rest (w, stuck) s k = s

    after_one-IsSafe :
        (idx : ℕ) (entry : Entry) (report : ExtractReport) (rest : Rest)
        (res : World × Result (Unit {0}))
        → IsSafe dest_path res.0
        → ((rep : ExtractReport) → Keeps (IsSafe dest_path) (rest rep))
        → IsSafe dest_path (after_one env opts.strict idx entry report rest res).0
    after_one-IsSafe idx entry report rest (w, r) s k =
        if-IsSafe dest_path w.aborted _ _ s (on_result-IsSafe idx entry report rest (w, r) s k)

    on_start-IsSafe :
        (idx : ℕ) (entry : Entry) (report : ExtractReport) (rest : Rest) (res : World × Flow)
        → IsPlaced entry
        → IsSafe dest_path res.0
        → ((rep : ExtractReport) → Keeps (IsSafe dest_path) (rest rep))
        → IsSafe dest_path (on_start env reader opts dest idx entry report rest res).0
    on_start-IsSafe idx entry report rest (w, abort) placed s k = s
    on_start-IsSafe idx entry report rest (w, continue) placed s k =
        after_one-IsSafe idx entry report rest _
          ((extract_one-IsSafe idx entry opts.preserve placed).keeps (record w { aborted = false })
            s)
          k

    extract_loop-IsSafe :
        (es : List Entry) (idx : ℕ) (report : ExtractReport)
        → All IsPlaced (subset_from opts idx es)
        → Keeps (IsSafe dest_path) (extract_loop env reader opts dest idx es report)
    unfolding extract_loop subset_from take_entry
    extract_loop-IsSafe [] idx report h = record { keeps = λ w s. s }
    extract_loop-IsSafe (e ∷ es) idx report h =
        elim (Bool-cases (is_selected opts.selection idx && not (is_skipped opts e))) [
          | inl t ↦
              let h' = rw t at h in
              rw t (record {
                keeps = λ w s.
                    on_start-IsSafe idx e report _ _ h'.0 (notify-IsSafe env reader dest_path _ w s)
                      (λ rep. extract_loop-IsSafe es (suc idx) rep h'.1);
              })
          | inr t ↦ let h' = rw t at h in rw t (extract_loop-IsSafe es (suc idx) report h')
        ]

set_dir_mtimes-IsSafe :
    (env : Env) (reader : ArchiveReader) (base : FsPath) (ds : List (FsPath × Option SystemTime))
    → All (λ d. Under base d.0) ds
    → Keeps (IsSafe base) (set_dir_mtimes ds)
unfolding set_dir_mtimes
set_dir_mtimes-IsSafe env reader base [] h = record { keeps = λ w s. s }
set_dir_mtimes-IsSafe env reader base ((p, t) ∷ ds) h =
    Keeps-bind _ _ _ (apply_mtime-IsSafe env reader base p t h.0)
      λ _. set_dir_mtimes-IsSafe env reader base ds h.1

recorded-IsSafe :
    (env : Env) (reader : ArchiveReader) (base : FsPath) (preserve : Bool) (report : ExtractReport)
    → Keeps (IsSafe base) (when preserve set_recorded_mtimes >> pure report)
recorded-IsSafe env reader base preserve report =
    Keeps-bind (IsSafe base) _ _
      (Keeps-when (IsSafe base) preserve _ (record {
        keeps = λ w s. (set_dir_mtimes-IsSafe env reader base w.dir_mtimes s.1).keeps w s;
      }))
      λ _. record { keeps = λ w s. s }

-- Where every entry that is taken has a named component in its path, or is a directory without a
-- resource fork, every operation on the file system that `extract_all` tries, on any archive, any
-- file system and any callback, names a path that is the destination followed by names alone:
-- links that were put there before are not followed here.
pub extract_all-IsSafe :
    (env : Env) (reader : ArchiveReader) (opts : ExtractOptions) (entries : List Entry)
    → reader.entries ≡ ok entries
    → All IsPlaced (subset_from opts 0 entries)
    → IsSafe (components (choose_dest opts entries).0) (extract_all env reader opts fresh).0
unfolding extract_all
extract_all-IsSafe env reader opts entries e h =
    let dest = (choose_dest opts entries).0 in
    let base : FsPath = components dest in
    (Keeps-lift (IsSafe base) reader.entries _ λ found f.
        let same : found ≡ entries = ok-injective reader.entries found entries f e in
        rw same (
          Keeps-lift (IsSafe base) reader.verify_password _ λ _ _.
            Keeps-bind (IsSafe base) _ _
              (Keeps-when (IsSafe base) (choose_dest opts entries).1 _ (
                perform-IsSafe env reader base (create_dir_all base)
                  ([], sym (append-nil base), unfold all_names in refl)))
              λ _.
                Keeps-bind (IsSafe base) _ _
                  (extract_loop-IsSafe env reader dest opts entries 0 _ h)
                  λ report. recorded-IsSafe env reader base opts.preserve report)).keeps
      fresh (tt, tt)
