-- ===== src/Detect/Choice.antt =====
-- src/detect.rs: the handler that `open_single` picks, the first of those with the highest confidence.
use mathlib.Core.Path.{subst}
use newtua_core.Archive.Confidence.{Confidence}
use newtua_core.Base.{
  ltb, if◌then◌else◌, Bool-cases, get_elem?, take, All, ℕ, suc, ◌+◌, ◌≤◌, ◌<◌, ◌≡◌, refl, sym, ap,
  inl, inr, Bool, true, ◌&&◌, Option, none, some, List, [], ◌∷◌, arith,
}

-- `best.is_none_or(|(bc, _)| c > bc)`
abbrev pub is_better : Confidence → Option (Confidence × ℕ) → Bool
is_better c none = true
is_better c (some (bc, _)) = ltb bc c

-- The loop over the confidences of the handlers, from index `i` on.
unfoldable pub best_loop : ℕ → List Confidence → Option (Confidence × ℕ) → Option (Confidence × ℕ)
best_loop i [] best = best
best_loop i (c ∷ cs) best =
    best_loop (i + 1) cs (if ltb 0 c && is_better c best then some (c, i) else best)

-- The first of the confidences that are highest, at its index behind `i`; none where all are 0.
pub data FirstBest (i : ℕ) (cs : List Confidence) : Option (Confidence × ℕ) → Type 0 where
  all_none : All (λ x. x ≡ 0) cs → FirstBest i cs none
  best_at :
      (j : ℕ) {c : Confidence}
      → get_elem? cs j ≡ some c
      → 0 < c
      → All (λ x. x ≤ c) cs
      → All (λ x. x < c) (take j cs)
      → FirstBest i cs (some (c, i + j))

-- The same where an earlier one with confidence `bc` is held.
data Holding (i : ℕ) (cs : List Confidence) (bc bi : ℕ) : Option (Confidence × ℕ) → Type 0 where
  kept : All (λ x. x ≤ bc) cs → Holding i cs bc bi (some (bc, bi))
  passed :
      (j : ℕ) {c : Confidence}
      → get_elem? cs j ≡ some c
      → bc < c
      → All (λ x. x ≤ c) cs
      → All (λ x. x < c) (take j cs)
      → Holding i cs bc bi (some (c, i + j))

shifted : (i j c : ℕ) → ◌≡◌ {A = Option (ℕ × ℕ)} (some (c, i + 1 + j)) (some (c, i + suc j))
shifted i j c = ap (λ k. some (c, k)) (omega arith)

Holding-better :
    (i x bc bi : ℕ) (cs : List Confidence) {r : Option (Confidence × ℕ)}
    → bc < x
    → Holding (i + 1) cs x i r
    → Holding i (x ∷ cs) bc bi r
Holding-better i x bc bi cs lt (kept all) =
    subst (Holding i (x ∷ cs) bc bi) (ap (λ k. some (x, k)) (omega arith))
      (passed 0 refl lt (omega arith, all) tt)
Holding-better i x bc bi cs lt (passed j {c} at more all before) =
    subst (Holding i (x ∷ cs) bc bi) (sym (shifted i j c))
      (passed (suc j) at (omega arith) (omega arith, all) (more, before))

Holding-worse :
    (i x bc bi : ℕ) (cs : List Confidence) {r : Option (Confidence × ℕ)}
    → x ≤ bc
    → Holding (i + 1) cs bc bi r
    → Holding i (x ∷ cs) bc bi r
Holding-worse i x bc bi cs le (kept all) = kept (le, all)
Holding-worse i x bc bi cs le (passed j {c} at more all before) =
    subst (Holding i (x ∷ cs) bc bi) (sym (shifted i j c))
      (passed (suc j) at more (omega arith, all) (omega arith, before))

best_loop-Holding :
    (i : ℕ) (cs : List Confidence) (bc bi : ℕ) → Holding i cs bc bi (best_loop i cs (some (bc, bi)))
unfolding best_loop
best_loop-Holding i [] bc bi = kept tt
best_loop-Holding i (x ∷ cs) bc bi = elim (Bool-cases (ltb 0 x && ltb bc x)) [
  | inl e ↦ rw e (Holding-better i x bc bi cs (ground arith) (best_loop-Holding (i + 1) cs x i))
  | inr e ↦ rw e (Holding-worse i x bc bi cs (ground arith) (best_loop-Holding (i + 1) cs bc bi))
]

FirstBest-Holding :
    (i x : ℕ) (cs : List Confidence) {r : Option (Confidence × ℕ)}
    → 0 < x
    → Holding (i + 1) cs x i r
    → FirstBest i (x ∷ cs) r
FirstBest-Holding i x cs lt (kept all) =
    subst (FirstBest i (x ∷ cs)) (ap (λ k. some (x, k)) (omega arith))
      (best_at 0 refl lt (omega arith, all) tt)
FirstBest-Holding i x cs lt (passed j {c} at more all before) =
    subst (FirstBest i (x ∷ cs)) (sym (shifted i j c))
      (best_at (suc j) at (omega arith) (omega arith, all) (more, before))

FirstBest-later :
    (i x : ℕ) (cs : List Confidence) {r : Option (Confidence × ℕ)}
    → x ≡ 0
    → FirstBest (i + 1) cs r
    → FirstBest i (x ∷ cs) r
FirstBest-later i x cs e (all_none all) = all_none (e, all)
FirstBest-later i x cs e (best_at j {c} at more all before) =
    subst (FirstBest i (x ∷ cs)) (sym (shifted i j c))
      (best_at (suc j) at more (omega arith, all) (omega arith, before))

-- The loop over the confidences of the handlers gives none exactly when all are 0, and otherwise
-- the highest of them with the index of the first handler that has it.
pub best_loop-FirstBest : (i : ℕ) (cs : List Confidence) → FirstBest i cs (best_loop i cs none)
unfolding best_loop
best_loop-FirstBest i [] = all_none tt
best_loop-FirstBest i (x ∷ cs) = elim (Bool-cases (ltb 0 x)) [
  | inl e ↦ rw e (FirstBest-Holding i x cs (ground arith) (best_loop-Holding (i + 1) cs x i))
  | inr e ↦ rw e (FirstBest-later i x cs (ground arith) (best_loop-FirstBest (i + 1) cs))
]
