-- ===== src/Volume/Members/Gap.antt =====
-- The volumes that src/volume.rs finds, against the first gap.
use newtua_core.Base.Text.{strip_suffix, strip_suffix-append}
use newtua_core.Base.{
  ℕ, zero, suc, ◌+◌, ◌^◌, ◌≤◌, ◌<◌, ◌≡◌, refl, ap, ◌∙◌, Bool, true, false, Option, none, some, List,
  [], ◌∷◌, ◌++◌, map, arith,
}
use newtua_core.Base.Bytes.{Bytes}
use newtua_core.Error.{ok}
use newtua_core.Macos.{file_name}
use newtua_core.Extract.World.{FsPath}
use newtua_core.Volume.Members.{
  text_or_none, or_empty, first_suffix, volume, cons_found, collect, none_missing, there,
  volume_members,
}

-- `n` numbers from `idx` on.
abbrev pub numbers : ℕ → ℕ → List ℕ
numbers idx zero = []
numbers idx (suc n) = idx ∷ numbers (idx + 1) n

-- Candidates that are all there, and a gap behind them.
data Row (candidate : ℕ → Option FsPath) (path : ℕ → FsPath) : ℕ → ℕ → Type 0 where
  gap : {idx : ℕ} → candidate idx ≡ none → Row candidate path idx 0
  next :
      {idx n : ℕ}
      → candidate idx ≡ some (path idx)
      → Row candidate path (idx + 1) n
      → Row candidate path idx (suc n)

module _ (candidate : ℕ → Option FsPath) (path : ℕ → FsPath) where
  collect-Row :
      (fuel idx : ℕ) {n : ℕ}
      → Row candidate path idx n
      → n < fuel
      → collect candidate fuel idx ≡ ok (map path (numbers idx n))
  unfolding collect
  collect-Row zero idx r h = absurd (omega arith)
  collect-Row (suc fuel) idx (gap e) h = rw (e, collect) refl
  collect-Row (suc fuel) idx (next e r) h =
      rw (e, collect) (ap (cons_found (path idx)) (collect-Row fuel (idx + 1) r (omega arith)))

  Row-upto :
      (n idx : ℕ)
      → ((i : ℕ) → idx ≤ i → i < idx + n → candidate i ≡ some (path i))
      → candidate (idx + n) ≡ none
      → Row candidate path idx n
  Row-upto zero idx all last = gap (ap candidate (omega arith) ∙ last)
  Row-upto (suc n) idx all last = next (all idx (omega arith) (omega arith)) (
      Row-upto n (idx + 1) (λ i lo hi. all i (omega arith) (omega arith))
        (ap candidate (omega arith) ∙ last))

module _ (exists : FsPath → Bool) where
  -- Where the volumes of a stem are there from 1 up to a number below 2^32, and the next one is
  -- not, `volume_members` on the first ends and gives just those, in their order.
  pub volume_members-gap :
      (first : FsPath) (stem : Bytes) (n : ℕ)
      → or_empty (text_or_none (file_name first)) ≡ stem ++ first_suffix
      → suc n < 2 ^ 32
      → ((i : ℕ) → 1 ≤ i → i < 1 + suc n → exists (volume first stem i) ≡ true)
      → exists (volume first stem (1 + suc n)) ≡ false
      → volume_members exists first ≡ ok (map (volume first stem) (numbers 1 (suc n)))
  volume_members-gap first stem n name h all last =
      let candidate : ℕ → Option FsPath = λ idx. there exists (volume first stem idx) in
      let row : Row candidate (volume first stem) 1 (suc n) =
        Row-upto candidate (volume first stem) (suc n) 1 (λ i lo hi. rw (all i lo hi) refl)
          (rw last refl) in
      let stripped : strip_suffix first_suffix (or_empty (text_or_none (file_name first)))
          ≡ some stem =
        ap (strip_suffix first_suffix) name ∙ strip_suffix-append first_suffix stem in
      unfold volume_members in
      (rw stripped (
        ap (none_missing (or_empty (text_or_none (file_name first))))
          (collect-Row candidate (volume first stem) (2 ^ 32) 1 row h)))
