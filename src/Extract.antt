-- ===== src/Extract.antt =====
-- src/extract.rs: what `extract_all` decides before it writes: the entries it takes, and the
-- directory it puts them in.
pub mod Root
pub mod World
pub mod AppleDouble
pub mod One
pub mod Run
pub mod Safety
pub mod Report
mod Tests
mod Runs
use newtua_core.Base.{
  ◌==◌, if◌then◌else◌, equal, ℕ, suc, Bool, true, false, not, ◌&&◌, ◌||◌, Option, none, some, List,
  [], ◌∷◌,
}
use newtua_core.Base.Bytes.{Bytes}
use newtua_core.Base.Utf8.{from_utf8_lossy}
use newtua_core.Archive.{Entry, is_dir}
use newtua_core.PathSafety.Paths.{Component, components, push}
use newtua_core.Macos.{os_str, is_macos_metadata}

-- `progress`, a callback, belongs to the environment of a run.
pub record ExtractOptions : Type 0 where
  pub dest : Bytes
  pub wrapper_name : Option Bytes
  pub strict : Bool
  pub preserve : Bool
  pub selection : Option (List ℕ)
  pub keep_macos_metadata : Bool

-- The top-level name of a path, as text; an empty path has none.
abbrev pub top_text : List Component → Option Bytes
top_text [] = none
top_text (c ∷ cs) = some (from_utf8_lossy (os_str c))

-- Whether a path goes on behind its first component.
abbrev pub goes_on : List Component → Bool
goes_on (_ ∷ _ ∷ _) = true
goes_on _ = false

-- One entry's name against the root so far: the search ends, or it goes on with that root.
abbrev pub with_root : Option Bytes → Option Bytes → (Bytes → Option Bytes) → Option Bytes
with_root none root more = none
with_root (some comp) none more = more comp
with_root (some comp) (some r) more = if not (equal r comp) then none else more r

-- The loop of `common_root`.
unfoldable pub root_loop : Option Bytes → Bool → List Entry → Option Bytes
root_loop root is_dir_root [] = if is_dir_root then root else none
root_loop root is_dir_root (e ∷ es) =
    with_root (top_text (components e.path)) root
      λ r. root_loop (some r) (is_dir_root || (goes_on (components e.path) || is_dir e)) es

unfoldable pub common_root : List Entry → Option Bytes
common_root [] = none
common_root (e ∷ es) = root_loop none false (e ∷ es)

unfoldable pub contains : ℕ → List ℕ → Bool
contains i [] = false
contains i (k ∷ ks) = i == k || contains i ks

abbrev pub is_selected : Option (List ℕ) → ℕ → Bool
is_selected none i = true
is_selected (some set) i = contains i set

unfoldable pub is_skipped : ExtractOptions → Entry → Bool
is_skipped opts e = not opts.keep_macos_metadata && is_macos_metadata e.path

-- The entries from index `i` on that are selected and not skipped.
unfoldable pub subset_from : ExtractOptions → ℕ → List Entry → List Entry
subset_from opts i [] = []
subset_from opts i (e ∷ es) =
    let rest = subset_from opts (suc i) es in
    if is_selected opts.selection i && not (is_skipped opts e) then e ∷ rest else rest

-- The destination, and whether it is a directory of its own.
abbrev pub wrapped_dest : Bytes → Option Bytes → Option Bytes → Bytes × Bool
wrapped_dest dest none (some name) = (push dest name, true)
wrapped_dest dest (some root) _ = (dest, false)
wrapped_dest dest none none = (dest, false)

unfoldable pub choose_dest : ExtractOptions → List Entry → Bytes × Bool
choose_dest opts entries =
    wrapped_dest opts.dest (common_root (subset_from opts 0 entries)) opts.wrapper_name
