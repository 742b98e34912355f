-- ===== src/Extract/Safety/Steps.antt =====
-- Each step of `extract_one` in src/extract.rs stays below the destination.
use newtua_core.Extract.World.{
  FsPath, Op, create_dir_all, create, remove_file, write, write_file, make_symlink, set_permissions,
  set_file_mtime, set_symlink_file_times, ProgressEvent, bytes, Flow, continue, abort, World, Env,
  ArchiveReader, lift, perform, attempt, ask, notify, on_flow, tick, write_chunks, read_entry,
}
use newtua_core.Base.{length, All-append, ℕ, ◌%◌, ◌^◌, Bool, Option, none, some, List, [], ◌∷◌}
use newtua_core.Base.Bytes.{Bytes}
use newtua_core.Error.{Result, ok, err, stuck}
use newtua_core.Archive.{Entry}
use newtua_core.Datetime.{SystemTime}
use newtua_core.Extract.One.{
  parent_of, with_file_name, create_parent, apply_mtime, apply_symlink_mtime, apply_mode,
  push_dir_mtime, extract_dir, extract_symlink, finish_file, extract_file, write_resource_fork,
}
use newtua_core.Extract.Safety.{
  Under, path_of, IsSafe, parent_of-Under, with_file_name-Under, Keeps, Keeps-bind, Keeps-lift,
  Keeps-when, Below, Below-Under,
}

module _ (env : Env) (reader : ArchiveReader) (base : FsPath) where
  pub perform-IsSafe : (op : Op) → Under base (path_of op) → Keeps (IsSafe base) (perform env op)
  unfolding perform
  perform-IsSafe op u = record { keeps = λ w (s, d). ((u, s), d) }

  attempt-IsSafe : (op : Op) → Under base (path_of op) → Keeps (IsSafe base) (attempt op)
  unfolding attempt
  attempt-IsSafe op u = record { keeps = λ w (s, d). ((u, s), d) }

  pub apply_mtime-IsSafe :
      (p : FsPath) (t : Option SystemTime) → Under base p → Keeps (IsSafe base) (apply_mtime p t)
  unfolding apply_mtime
  apply_mtime-IsSafe p none u = record { keeps = λ w s. s }
  apply_mtime-IsSafe p (some t) u = attempt-IsSafe (set_file_mtime p t) u

  apply_symlink_mtime-IsSafe :
      (p : FsPath) (t : Option SystemTime)
      → Under base p
      → Keeps (IsSafe base) (apply_symlink_mtime p t)
  unfolding apply_symlink_mtime
  apply_symlink_mtime-IsSafe p none u = record { keeps = λ w s. s }
  apply_symlink_mtime-IsSafe p (some t) u = attempt-IsSafe (set_symlink_file_times p t) u

  apply_mode-IsSafe :
      (p : FsPath) (m : Option ℕ) → Under base p → Keeps (IsSafe base) (apply_mode p m)
  unfolding apply_mode
  apply_mode-IsSafe p none u = record { keeps = λ w s. s }
  apply_mode-IsSafe p (some m) u = attempt-IsSafe (set_permissions p (m % 2 ^ 12)) u

  push_dir_mtime-IsSafe :
      (p : FsPath) (t : Option SystemTime) → Under base p → Keeps (IsSafe base) (push_dir_mtime p t)
  unfolding push_dir_mtime
  push_dir_mtime-IsSafe p t u = record {
    keeps = λ w (s, d). (s, All-append _ w.dir_mtimes ((p, t) ∷ []) d (u, tt));
  }

  ask-IsSafe :
      (o : Option (List ProgressEvent → ProgressEvent → Flow)) (event : ProgressEvent) (w : World)
      → IsSafe base w
      → IsSafe base (ask o event w).0
  ask-IsSafe none event w s = s
  ask-IsSafe (some verdict) event w s = s

  pub notify-IsSafe :
      (event : ProgressEvent) (w : World) → IsSafe base w → IsSafe base (notify env event w).0
  unfolding notify
  notify-IsSafe event w s = ask-IsSafe env.progress event w s

  on_flow-IsSafe : (res : World × Flow) → IsSafe base res.0 → IsSafe base (on_flow res).0
  on_flow-IsSafe (w, continue) s = s
  on_flow-IsSafe (w, abort) s = s

  tick-IsSafe : (idx n : ℕ) → Keeps (IsSafe base) (tick env idx n)
  unfolding tick
  tick-IsSafe idx n = record {
    keeps = λ w s. on_flow-IsSafe (notify env (bytes idx n) w) (notify-IsSafe (bytes idx n) w s);
  }

  write_chunks-IsSafe :
      (idx : ℕ) (p : FsPath) (cs : List Bytes)
      → Under base p
      → Keeps (IsSafe base) (write_chunks env idx p cs)
  unfolding write_chunks
  write_chunks-IsSafe idx p [] u = record { keeps = λ w s. s }
  write_chunks-IsSafe idx p (c ∷ cs) u =
      Keeps-bind _ _ _ (perform-IsSafe (write p c) u)
        λ _. Keeps-bind _ _ _ (tick-IsSafe idx (length c)) λ _. write_chunks-IsSafe idx p cs u

  read_entry-IsSafe :
      (idx : ℕ) (p : FsPath) → Under base p → Keeps (IsSafe base) (read_entry env reader idx p)
  unfolding read_entry
  read_entry-IsSafe idx p u =
      Keeps-bind _ _ _ (write_chunks-IsSafe idx p (reader.chunks idx) u)
        λ _. record { keeps = λ w s. unfold lift in s }

  create_parent-IsSafe :
      (p : FsPath) → Below base p → Keeps (IsSafe base) (create_parent env (parent_of p))
  create_parent-IsSafe p (n, ns, e, named) =
      let (q, found, u) = parent_of-Under base n ns named in
      rw (e, found) (perform-IsSafe (create_dir_all q) u)

  pub extract_dir-IsSafe :
      (entry : Entry) (p : FsPath) (preserve : Bool)
      → Under base p
      → Keeps (IsSafe base) (extract_dir env entry p preserve)
  unfolding extract_dir
  extract_dir-IsSafe entry p preserve u =
      Keeps-bind _ _ _ (perform-IsSafe (create_dir_all p) u) λ _.
        Keeps-bind _ _ _ (Keeps-when _ preserve _ (apply_mode-IsSafe p entry.mode u))
          λ _. push_dir_mtime-IsSafe p entry.modified u

  pub extract_symlink-IsSafe :
      (entry : Entry) (dest link : Bytes) (p : FsPath) (preserve : Bool)
      → Below base p
      → Keeps (IsSafe base) (extract_symlink env entry dest link p preserve)
  unfolding extract_symlink
  extract_symlink-IsSafe entry dest link p preserve b =
      let u = Below-Under base p b in
      Keeps-lift _ _ _ λ _ _. Keeps-bind _ _ _ (create_parent-IsSafe p b) λ _.
        Keeps-bind _ _ _ (perform-IsSafe (make_symlink link p) u)
          λ _. Keeps-when _ preserve _ (apply_symlink_mtime-IsSafe p entry.modified u)

  finish_file-IsSafe :
      (entry : Entry) (p : FsPath) (preserve : Bool) (res : World × Result (Unit {0}))
      → Under base p
      → IsSafe base res.0
      → IsSafe base (finish_file entry p preserve res).0
  finish_file-IsSafe entry p preserve (w, ok _) u s =
      (Keeps-when (IsSafe base) preserve _ (
          Keeps-bind _ _ _ (apply_mode-IsSafe p entry.mode u)
            λ _. apply_mtime-IsSafe p entry.modified u)).keeps
        w s
  finish_file-IsSafe entry p preserve (w, err e) u s = (attempt-IsSafe (remove_file p) u).keeps w s
  finish_file-IsSafe entry p preserve (w, stuck) u s = s

  pub extract_file-IsSafe :
      (idx : ℕ) (entry : Entry) (p : FsPath) (preserve : Bool)
      → Below base p
      → Keeps (IsSafe base) (extract_file env reader idx entry p preserve)
  unfolding extract_file
  extract_file-IsSafe idx entry p preserve b =
      let u = Below-Under base p b in
      Keeps-bind _ _ _ (create_parent-IsSafe p b) λ _.
        Keeps-bind _ _ _ (perform-IsSafe (create p) u) λ _. record {
          keeps = λ w s.
              finish_file-IsSafe entry p preserve (read_entry env reader idx p w) u
                ((read_entry-IsSafe idx p u).keeps w s);
        }

  pub write_resource_fork-IsSafe :
      (idx : ℕ) (entry : Entry) (p : FsPath) (preserve : Bool)
      → Below base p
      → Keeps (IsSafe base) (write_resource_fork env reader idx entry p preserve)
  unfolding write_resource_fork
  write_resource_fork-IsSafe idx entry p preserve b =
      Keeps-bind _ _ _ (create_parent-IsSafe p b) λ _. Keeps-lift _ _ _ λ _ _.
        Keeps-lift _ _ _ λ _ _. Keeps-lift _ _ _ λ name _.
          let u : Under base (with_file_name p (b'.' ∷ b'_' ∷ name)) =
            let (n, ns, e, named) = b in
            rw e (with_file_name-Under base n ns (b'.' ∷ b'_' ∷ name) named) in
          Keeps-bind _ _ _ (perform-IsSafe (write_file _ _) u)
            λ _. Keeps-when _ preserve _ (apply_mtime-IsSafe _ entry.modified u)
