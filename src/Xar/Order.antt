-- ===== src/Xar/Order.antt =====
-- The order in which `collect` of src/format/xar.rs lists the entries.
use mathlib.Core.Path.{ap₂}
use newtua_core.Base.{
  if◌then◌else◌, Bool-cases, Option-cases, equal, ℕ, zero, suc, ◌+◌, ◌≤◌, ◌<◌, ◌≡◌, refl, sym, ap,
  ◌∙◌, inl, inr, Option, none, some, List, [], ◌∷◌, ◌++◌, append-nil, append_assoc, arith,
}
use newtua_core.Base.Bytes.{Bytes}
use newtua_core.Archive.{Entry}
use newtua_core.Error.Run.{Run, done, failed, panicked, unended, ◌>>=◌}
use newtua_core.Xar.Nodes.{Node, element, other_node, Nodes, nil, cons, HeapItem}
use newtua_core.Xar.Toc.{
  file_tag, below, Visited, Listed, joined, visit_at, files_of, path_in, collect_loop,
}
use newtua_core.Xar.Opening.{Tools, count_nodes, collect}

-- Two runs one after the other, and what both list.
infixl 6 ◌then_list◌
abbrev pub ◌then_list◌ : Run Listed → Run Listed → Run Listed
m then_list n = m >>= λ a. n >>= λ b. done (joined a b)

then_list_assoc : (l m n : Run Listed) → l then_list (m then_list n) ≡ (l then_list m) then_list n
then_list_assoc (done a) (done b) (done c) = ap done (
    ap₂ (λ (x : List Entry) (y : List (Option HeapItem)). (x, y)) (sym (append_assoc a.0 b.0 c.0))
      (sym (append_assoc a.1 b.1 c.1)))
then_list_assoc (done a) (done b) (failed e) = refl
then_list_assoc (done a) (done b) panicked = refl
then_list_assoc (done a) (done b) unended = refl
then_list_assoc (done a) (failed e) n = refl
then_list_assoc (done a) panicked n = refl
then_list_assoc (done a) unended n = refl
then_list_assoc (failed e) m n = refl
then_list_assoc panicked m n = refl
then_list_assoc unended m n = refl

nothing-then_list : (n : Run Listed) → n ≡ done ([], []) then_list n
nothing-then_list (done a) = refl
nothing-then_list (failed e) = refl
nothing-then_list panicked = refl
nothing-then_list unended = refl

then_list-nothing : (m : Run Listed) → m then_list done ([], []) ≡ m
then_list-nothing (done a) = ap done (
    ap₂ (λ (x : List Entry) (y : List (Option HeapItem)). (x, y)) (append-nil a.0) (append-nil a.1))
then_list-nothing (failed e) = refl
then_list-nothing panicked = refl
then_list-nothing unended = refl

abbrev pub alone : Visited → Listed
alone (e, i) = (e ∷ [], i ∷ [])

module _ (base64 : Bytes → Option Bytes) where
  -- The entry of a `file` element in front of what its children list, where the element is not
  -- passed over.
  abbrev pub after_path : (Bytes → Run Listed) → Nodes → Option Bytes → Run Listed
  after_path below kids none = done ([], [])
  after_path below kids (some path) =
      (visit_at kids path >>= λ v. done (alone v)) then_list below path

  -- The entries of the nodes by recursion, in the order of the document.
  unfoldable mutual
    pub listed_in : Node → Bytes → Run Listed
    listed_in other_node parent = done ([], [])
    listed_in (element name text attributes kids) parent =
        if equal name file_tag
        then after_path (listed kids) kids (path_in base64 kids parent)
        else done ([], [])

    pub listed : Nodes → Bytes → Run Listed
    listed nil parent = done ([], [])
    listed (cons n ns) parent = listed_in n parent then_list listed ns parent

  stack_listed : List (Nodes × Bytes) → Run Listed
  stack_listed [] = done ([], [])
  stack_listed ((kids, parent) ∷ rest) =
      after_path (listed kids) kids (path_in base64 kids parent) then_list stack_listed rest

  stack_listed-files_of :
      (ns : Nodes) (path : Bytes) (rest : List (Nodes × Bytes))
      → stack_listed (files_of ns path ++ rest) ≡ listed ns path then_list stack_listed rest
  unfolding stack_listed listed files_of
  stack_listed-files_of nil path rest = nothing-then_list _
  stack_listed-files_of (cons other_node ns) path rest =
      stack_listed-files_of ns path rest
      ∙ ap (λ (r : Run Listed). r then_list stack_listed rest) (nothing-then_list (listed ns path))
  stack_listed-files_of (cons (element name text attributes kids) ns) path rest =
      elim (Bool-cases (equal name file_tag)) [
        | inl e ↦
            rw (e, stack_listed-files_of ns path rest)
              (then_list_assoc (after_path (listed kids) kids (path_in base64 kids path))
                (listed ns path) (stack_listed rest))
        | inr e ↦ rw e (
            stack_listed-files_of ns path rest
            ∙ ap (λ (r : Run Listed). r then_list stack_listed rest)
                (nothing-then_list (listed ns path)))
      ]

  abbrev stack_size : List (Nodes × Bytes) → ℕ
  stack_size [] = 0
  stack_size ((kids, parent) ∷ rest) = suc (count_nodes kids) + stack_size rest

  stack_size-append :
      (a b : List (Nodes × Bytes)) → stack_size (a ++ b) ≡ stack_size a + stack_size b
  stack_size-append [] b = omega arith
  stack_size-append ((kids, parent) ∷ a) b = omega (arith, stack_size-append a b)

  stack_size-files_of : (ns : Nodes) (path : Bytes) → stack_size (files_of ns path) ≤ count_nodes ns
  unfolding files_of count_nodes
  stack_size-files_of nil path = omega arith
  stack_size-files_of (cons other_node ns) path = omega (arith, stack_size-files_of ns path)
  stack_size-files_of (cons (element name text attributes kids) ns) path =
      elim (Bool-cases (equal name file_tag)) [
        | inl e ↦ rw e (omega (arith, stack_size-files_of ns path))
        | inr e ↦ rw e (omega (arith, stack_size-files_of ns path))
      ]

  visit-then_list :
      (m : Run Visited) (x l n : Run Listed)
      → x ≡ l then_list n
      → (m >>= λ v. x >>= λ more. done (joined (v.0 ∷ [], v.1 ∷ []) more))
        ≡ ((m >>= λ v. done (alone v)) then_list l) then_list n
  visit-then_list (done v) x l n e =
      ap (λ (r : Run Listed). done (alone v) then_list r) e ∙ then_list_assoc (done (alone v)) l n
  visit-then_list (failed e) x l n h = refl
  visit-then_list panicked x l n h = refl
  visit-then_list unended x l n h = refl

  collect_loop-listed :
      (fuel : ℕ) (stack : List (Nodes × Bytes))
      → stack_size stack < fuel
      → collect_loop base64 fuel stack ≡ stack_listed stack
  unfolding collect_loop stack_listed
  collect_loop-listed zero stack h = absurd (omega (arith, h))
  collect_loop-listed (suc fuel) [] h = refl
  collect_loop-listed (suc fuel) ((kids, parent) ∷ rest) h =
      elim (Option-cases (path_in base64 kids parent)) [
        | inl e ↦ rw e (collect_loop-listed fuel rest (omega (arith, h)) ∙ nothing-then_list _)
        | inr (path, e) ↦
            let later = collect_loop-listed fuel (files_of kids path ++ rest) (
              omega (
                arith,
                h,
                stack_size-append (files_of kids path) rest,
                stack_size-files_of kids path,
              )) in
            rw e (
              visit-then_list (visit_at kids path) _ (listed kids path) (stack_listed rest)
                (later ∙ stack_listed-files_of kids path rest))
      ]

-- The walk with a stack of its own ends on any table of contents and lists the entries as the
-- recursion over the nodes does, in the order of the document, with the same error or panic.
pub collect-listed : (tools : Tools) (toc : Nodes) → collect tools toc ≡ listed tools.base64 toc []
unfolding collect stack_listed
collect-listed tools toc =
    collect_loop-listed tools.base64 (suc (count_nodes toc)) (files_of toc [])
      (omega (arith, stack_size-files_of tools.base64 toc []))
    ∙ ap (stack_listed tools.base64) (sym (append-nil (files_of toc [])))
    ∙ stack_listed-files_of tools.base64 toc [] []
    ∙ then_list-nothing (listed tools.base64 toc [])
