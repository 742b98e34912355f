-- ===== src/Extract/Root.antt =====
-- `common_root` of src/extract.rs: what the root that it gives says of the entries.
use mathlib.Core.Path.{subst}
use newtua_core.Base.{
  Bool-cases, equal, equal_iff, All, ◌≡◌, refl, sym, ap, ◌∙◌, inl, inr, Bool, true, false, ◌||◌,
  Option, none, some, List, [], ◌∷◌,
}
use newtua_core.Base.Bytes.{Bytes}
use newtua_core.Archive.{Entry, is_dir}
use newtua_core.PathSafety.Paths.{components}
use newtua_core.Extract.{top_text, goes_on, with_root, root_loop, common_root}

-- The entry lies at or below a top-level name.
abbrev pub IsUnder : Bytes → Entry → Type 0
IsUnder r e = top_text (components e.path) ≡ some r

-- Some entry shows that the top-level name is a directory.
unfoldable pub any_deeper : List Entry → Bool
any_deeper [] = false
any_deeper (e ∷ es) = (goes_on (components e.path) || is_dir e) || any_deeper es

-- An outcome of the loop: a root that all the entries lie under.
abbrev RootOf : Bytes → Bool → List Entry → Type 0
RootOf r dir es = All (IsUnder r) es × ((dir || any_deeper es) ≡ true)

with_root-eq :
    (top : Option Bytes) (r q : Bytes) (more : Bytes → Option Bytes)
    → with_root top (some r) more ≡ some q
    → (top ≡ some r) × (more r ≡ some q)
with_root-eq none r q more h = cc
with_root-eq (some comp) r q more h = elim (Bool-cases (equal r comp)) [
  | inl e ↦ (ap some (sym ((equal_iff r comp).0 e)), rw e at h)
  | inr e ↦ absurd (let h' = rw e at h in cc)
]

or-regroup : (a b c : Bool) → (a || (b || c)) ≡ ((a || b) || c)
or-regroup true b c = refl
or-regroup false b c = refl

root_loop-eq :
    (es : List Entry) (r q : Bytes) (dir : Bool)
    → root_loop (some r) dir es ≡ some q
    → (r ≡ q) × RootOf r dir es
unfolding root_loop any_deeper
root_loop-eq [] r q true h = (cc, (tt, refl))
root_loop-eq [] r q false h = absurd (cc)
root_loop-eq (e ∷ es) r q dir h =
    let (under, more) = with_root-eq _ r q _ h in
    let (same, found) = root_loop-eq es r q _ more in
    (
      same,
      (
        (under, found.0),
        or-regroup dir (goes_on (components e.path) || is_dir e) (any_deeper es) ∙ found.1,
      ),
    )

first_loop-eq :
    (e : Entry) (es : List Entry) (q : Bytes) (top : Option Bytes)
    → top_text (components e.path) ≡ top
    → with_root top none (λ r. root_loop (some r) (goes_on (components e.path) || is_dir e) es)
      ≡ some q
    → All (IsUnder q) (e ∷ es) × (any_deeper (e ∷ es) ≡ true)
unfolding any_deeper
first_loop-eq e es q none t h = cc
first_loop-eq e es q (some comp) t h =
    let (same, found) = root_loop-eq es comp q _ h in
    ((t ∙ ap some same, subst (λ r. All (IsUnder r) es) same found.0), found.1)

-- A root that `common_root` gives is the top-level name of every entry, and some entry shows that
-- it is a directory: one that lies deeper, or one that is a directory itself.
pub common_root-IsUnder :
    (entries : List Entry) (root : Bytes)
    → common_root entries ≡ some root
    → All (IsUnder root) entries × (any_deeper entries ≡ true)
unfolding common_root root_loop
common_root-IsUnder [] root h = cc
common_root-IsUnder (e ∷ es) root h = first_loop-eq e es root _ refl h

root_loop-IsUnder :
    (es : List Entry) (r : Bytes) (dir : Bool)
    → All (IsUnder r) es
    → (dir || any_deeper es) ≡ true
    → root_loop (some r) dir es ≡ some r
unfolding root_loop any_deeper
root_loop-IsUnder [] r true h d = refl
root_loop-IsUnder [] r false h d = absurd (cc)
root_loop-IsUnder (e ∷ es) r dir h d =
    rw (h.0, (equal_iff r r).1 refl)
      (root_loop-IsUnder es r _ h.1
        (sym (or-regroup dir (goes_on (components e.path) || is_dir e) (any_deeper es)) ∙ d))

-- Entries that all have one top-level name, with some entry that lies deeper or is a directory
-- itself, have that name as their `common_root`.
pub IsUnder-common_root :
    (e : Entry) (es : List Entry) (root : Bytes)
    → All (IsUnder root) (e ∷ es)
    → any_deeper (e ∷ es) ≡ true
    → common_root (e ∷ es) ≡ some root
unfolding common_root root_loop any_deeper
IsUnder-common_root e es root h d = rw h.0 (root_loop-IsUnder es root _ h.1 d)
