-- ===== src/Extract/Safety.antt =====
-- Where `extract_all` of src/extract.rs writes.
pub mod Steps
pub mod Whole
use newtua_core.Error.{Result, ok, err, stuck}
use newtua_core.Extract.World.{
  FsPath, Op, create_dir_all, create, remove_file, write, write_file, make_symlink, set_permissions,
  set_file_mtime, set_symlink_file_times, World, M, and_then, ◌>>=◌, lift,
}
use newtua_core.Base.{
  All, ◌<◌, ◌≡◌, refl, ap, ◌∙◌, ◌⊎◌, Bool, true, false, some, List, [], ◌∷◌, ◌++◌,
}
use newtua_core.Base.Bytes.{Bytes}
use newtua_core.PathSafety.Paths.{Component, root_dir, cur_dir, parent_dir, normal, components}
use newtua_core.PathSafety.{normalized, count_normal}
use newtua_core.Archive.{EntryKind, Entry}
use newtua_core.PathSafety.Join.{parts}
use newtua_core.Extract.One.{in_front, parent_of, with_file_name, when}

-- Names only: no root and no `..`.
unfoldable pub all_names : List Component → Bool
all_names [] = true
all_names (normal _ ∷ cs) = all_names cs
all_names (_ ∷ cs) = false

-- A path at or below a directory, read as it stands.
abbrev pub Under : FsPath → FsPath → Type 0
Under base p = (ns : List Component) × (p ≡ base ++ ns) × (all_names ns ≡ true)

abbrev pub path_of : Op → FsPath
path_of (create_dir_all p) = p
path_of (create p) = p
path_of (remove_file p) = p
path_of (write p _) = p
path_of (write_file p _) = p
path_of (make_symlink _ p) = p
path_of (set_permissions p _) = p
path_of (set_file_mtime p _) = p
path_of (set_symlink_file_times p _) = p

abbrev pub IsSafe : FsPath → World → Type 0
IsSafe base w = All (λ op. Under base (path_of op)) w.ops × All (λ d. Under base d.0) w.dir_mtimes

pub all_names-parts : (cs : List Component) → all_names (parts cs) ≡ true
unfolding all_names
all_names-parts [] = refl
all_names-parts (normal s ∷ cs) = all_names-parts cs
all_names-parts (root_dir ∷ cs) = all_names-parts cs
all_names-parts (cur_dir ∷ cs) = all_names-parts cs
all_names-parts (parent_dir ∷ cs) = all_names-parts cs

parent_of-cons :
    (c d : Component) (cs : List Component)
    → parent_of (c ∷ d ∷ cs) ≡ in_front c (parent_of (d ∷ cs))
unfolding parent_of
parent_of-cons root_dir d cs = refl
parent_of-cons cur_dir d cs = refl
parent_of-cons parent_dir d cs = refl
parent_of-cons (normal s) d cs = refl

parent_of-in_front :
    (c : Component) (xs p : FsPath) → parent_of xs ≡ some p → parent_of (c ∷ xs) ≡ some (c ∷ p)
unfolding parent_of
parent_of-in_front c [] p h = absurd (cc)
parent_of-in_front c (d ∷ cs) p h = parent_of-cons c d cs ∙ ap (in_front c) h

-- The parent of a path that lies properly below a directory.
pub parent_of-Under :
    (base : FsPath) (n : Component) (ns : List Component)
    → all_names (n ∷ ns) ≡ true
    → (p : FsPath) × (parent_of (base ++ n ∷ ns) ≡ some p) × Under base p
unfolding all_names
parent_of-Under [] root_dir ns h = absurd (cc)
parent_of-Under [] cur_dir ns h = absurd (cc)
parent_of-Under [] parent_dir ns h = absurd (cc)
parent_of-Under [] (normal s) [] h = ([], unfold parent_of in refl, ([], refl, refl))
parent_of-Under [] (normal s) (m ∷ ms) h =
    let (p, e, (qs, pe, named)) = parent_of-Under [] m ms h in
    (
      normal s ∷ p,
      parent_of-in_front (normal s) (m ∷ ms) p e,
      (normal s ∷ qs, ap (◌∷◌ (normal s)) pe, named),
    )
parent_of-Under (b ∷ base) n ns h =
    let (p, e, (qs, pe, named)) = parent_of-Under base n ns h in
    (b ∷ p, parent_of-in_front b (base ++ n ∷ ns) p e, (qs, ap (◌∷◌ b) pe, named))

pub with_file_name-Under :
    (base : FsPath) (n : Component) (ns : List Component) (name : Bytes)
    → all_names (n ∷ ns) ≡ true
    → Under base (with_file_name (base ++ n ∷ ns) name)
unfolding all_names with_file_name
with_file_name-Under [] root_dir ns name h = absurd (cc)
with_file_name-Under [] cur_dir ns name h = absurd (cc)
with_file_name-Under [] parent_dir ns name h = absurd (cc)
with_file_name-Under [] (normal s) [] name h = (normal name ∷ [], refl, refl)
with_file_name-Under [] (normal s) (m ∷ ms) name h =
    let (qs, pe, named) = with_file_name-Under [] m ms name h in
    (normal s ∷ qs, ap (◌∷◌ (normal s)) pe, named)
with_file_name-Under (b ∷ []) n ns name h =
    let (qs, pe, named) = with_file_name-Under [] n ns name h in (qs, ap (◌∷◌ b) pe, named)
with_file_name-Under (b ∷ b' ∷ base) n ns name h =
    let (qs, pe, named) = with_file_name-Under (b' ∷ base) n ns name h in (qs, ap (◌∷◌ b) pe, named)

-- An action that leaves a property of the world as it is.
module _ (P : World → Type 0) where
  pub record Keeps {A : Type 0} (m : M A) : Type 0 where
    pub keeps : (w : World) → P w → P (m w).0

  Keeps-and_then :
      {A B : Type 0} (res : World × Result A) (next : A → M B)
      → P res.0
      → ((a : A) → res.1 ≡ ok a → P (next a res.0).0)
      → P (and_then res next).0
  Keeps-and_then (w, ok a) next p k = k a refl
  Keeps-and_then (w, err e) next p k = p
  Keeps-and_then (w, stuck) next p k = p

  pub Keeps-bind :
      {A B : Type 0} (m : M A) (next : A → M B)
      → Keeps m
      → ((a : A) → Keeps (next a))
      → Keeps (m >>= next)
  Keeps-bind m next km kn = record {
    keeps = λ w p.
        Keeps-and_then (m w) next (km.keeps w p) (λ a e. (kn a).keeps (m w).0 (km.keeps w p));
  }

  -- What a pure result is known to be serves what follows it.
  pub Keeps-lift :
      {A B : Type 0} (r : Result A) (next : A → M B)
      → ((a : A) → r ≡ ok a → Keeps (next a))
      → Keeps (lift r >>= next)
  unfolding lift
  Keeps-lift r next k = record {
    keeps = λ w p. Keeps-and_then (w, r) next p (λ a e. (k a e).keeps w p);
  }

  pub Keeps-when : (b : Bool) (m : M (Unit {0})) → Keeps m → Keeps (when b m)
  Keeps-when true m k = k
  Keeps-when false m k = record { keeps = λ w p. p }

-- The entry has a name below the destination, or is a directory, which may be the destination.
abbrev pub IsPlaced : Entry → Type 0
IsPlaced e =
    (0 < count_normal (components (normalized e.path)))
    ⊎ ((e.is_resource_fork ≡ false) × (e.kind ≡ EntryKind.dir))

-- A path properly below the destination.
abbrev pub Below : FsPath → FsPath → Type 0
Below base p =
    (n : Component) × (ns : List Component) × (p ≡ base ++ n ∷ ns) × (all_names (n ∷ ns) ≡ true)

pub Below-Under : (base p : FsPath) → Below base p → Under base p
Below-Under base p (n, ns, e, h) = (n ∷ ns, e, h)
