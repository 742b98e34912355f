-- ===== src/Extract/World.antt =====
-- What src/extract.rs does to the world: the operations on the file system, the progress callback,
-- and the archive that is read. A file system is what it refuses, after which operations.
use newtua_core.Base.{length, ℕ, Bool, true, Option, none, some, List, [], ◌∷◌}
use newtua_core.Base.Bytes.{Bytes}
use newtua_core.Error.{other_kind, Error, io, Result, ok, err, stuck}
use newtua_core.Archive.{Entry}
use newtua_core.Datetime.{SystemTime}
use newtua_core.PathSafety.Paths.{Component}

-- A path, up to the equality of `std::path`: its components.
abbrev pub FsPath : Type 0
FsPath = List Component

pub data Op : Type 0 where
  create_dir_all create remove_file : FsPath → Op
  write write_file : FsPath → Bytes → Op
  make_symlink : Bytes → FsPath → Op
  set_permissions : FsPath → ℕ → Op
  set_file_mtime set_symlink_file_times : FsPath → SystemTime → Op

pub data ProgressEvent : Type 0 where
  entry_start : ℕ → Bytes → ℕ → ProgressEvent
  bytes : ℕ → ℕ → ProgressEvent
  entry_done : ℕ → ProgressEvent

pub data Flow : Type 0 where
  continue abort : Flow

-- The operations tried and the events reported so far, the last one first; the directories whose
-- times are set at the end; and whether the callback has stopped the entry.
pub record World : Type 0 where
  pub ops : List Op
  pub events : List ProgressEvent
  pub dir_mtimes : List (FsPath × Option SystemTime)
  pub aborted : Bool

pub record Env : Type 0 where
  pub refuses : List Op → Op → Option Error
  pub progress : Option (List ProgressEvent → ProgressEvent → Flow)

-- An `ArchiveReader`: the pieces that reading an entry writes, and how it ends if all are taken.
pub record ArchiveReader : Type 0 where
  pub entries : Result (List Entry)
  pub verify_password : Result (Unit {0})
  pub chunks : ℕ → List Bytes
  pub outcome : ℕ → Result (Unit {0})

abbrev pub M : Type 0 → Type 0
M A = World → World × Result A

abbrev pub and_then : {A B : Type 0} → World × Result A → (A → M B) → World × Result B
and_then (w, ok a) next = next a w
and_then (w, err e) next = (w, err e)
and_then (w, stuck) next = (w, stuck)

infixl 5 ◌>>=◌ ◌>>◌
abbrev pub ◌>>=◌ : {A B : Type 0} → M A → (A → M B) → M B
◌>>=◌ m next w = and_then (m w) next

abbrev pub ◌>>◌ : {B : Type 0} → M (Unit {0}) → M B → M B
◌>>◌ m next = m >>= λ _. next

unfoldable pub lift : {A : Type 0} → Result A → M A
lift r w = (w, r)

abbrev pub pure : {A : Type 0} → A → M A
pure a w = (w, ok a)

abbrev pub allowed : Option Error → Result (Unit {0})
allowed none = ok tt
allowed (some e) = err e

-- An operation whose failure counts.
unfoldable pub perform : Env → Op → M (Unit {0})
perform env op w = (record w { ops = op ∷ w.ops }, allowed (env.refuses w.ops op))

-- `let _ =`: an operation whose failure does not count.
unfoldable pub attempt : Op → M (Unit {0})
attempt op w = (record w { ops = op ∷ w.ops }, ok tt)

abbrev pub ask :
    Option (List ProgressEvent → ProgressEvent → Flow) → ProgressEvent → World → World × Flow
ask none event w = (w, continue)
ask (some verdict) event w = (record w { events = event ∷ w.events }, verdict w.events event)

unfoldable pub notify : Env → ProgressEvent → World → World × Flow
notify env event w = ask env.progress event w

abbrev pub on_flow : World × Flow → World × Result (Unit {0})
on_flow (w, continue) = (w, ok tt)
on_flow (w, abort) = (record w { aborted = true }, err (io other_kind))

-- The report of a `ProgressWriter` after a write.
unfoldable pub tick : Env → ℕ → ℕ → M (Unit {0})
tick env idx n w = on_flow (notify env (bytes idx n) w)

-- The writes of one entry's pieces; the first that fails ends them.
unfoldable pub write_chunks : Env → ℕ → FsPath → List Bytes → M (Unit {0})
write_chunks env idx path [] = pure tt
write_chunks env idx path (c ∷ cs) = do
  perform env (write path c)
  tick env idx (length c)
  write_chunks env idx path cs

unfoldable pub read_entry : Env → ArchiveReader → ℕ → FsPath → M (Unit {0})
read_entry env reader idx path = do
  write_chunks env idx path (reader.chunks idx)
  lift (reader.outcome idx)
