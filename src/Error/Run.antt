-- ===== src/Error/Run.antt =====
-- How a run of src/format/wim.rs or src/format/xar.rs ends, which may be in a panic.
use mathlib.Core.Path.{subst}
use newtua_core.Base.{◌≡◌, refl, Bool, true, false}
use newtua_core.Error.{Error, Result, ok, err, stuck}

-- `unended` is no outcome of the source: a loop ran out of the fuel that the model gives it.
pub data Run {ℓ} (A : Type ℓ) : Type ℓ where
  done : A → Run A
  failed : Error → Run A
  panicked : Run A
  unended : Run A

infixl 5 ◌>>=◌
abbrev pub ◌>>=◌ {ℓ κ} : {A : Type ℓ} {B : Type κ} → Run A → (A → Run B) → Run B
done a >>= next = next a
failed e >>= next = failed e
panicked >>= next = panicked
unended >>= next = unended

abbrev pub of_result {ℓ} : {A : Type ℓ} → Result A → Run A
of_result (ok a) = done a
of_result (err e) = failed e
of_result stuck = unended

-- An early return of an error unless a test holds.
abbrev pub unless {ℓ} : {A : Type ℓ} → Bool → Error → Run A → Run A
unless true e more = more
unless false e more = failed e

-- A value that the run returns has the property.
pub data Gives {ℓ κ} {A : Type ℓ} (P : A → Type κ) : Run A → Type (ℓ ⊔ κ) where
  giving : {a : A} → P a → Gives P (done a)
  failing : {e : Error} → Gives P (failed e)
  panicking : Gives P panicked
  unending : Gives P unended

module _ {ℓ κ} {A : Type ℓ} (P : A → Type κ) where
  pub Gives-done : {r : Run A} {a : A} → Gives P r → r ≡ done a → P a
  Gives-done (giving {a} p) e = subst P (cc) p
  Gives-done failing e = absurd (cc)
  Gives-done panicking e = absurd (cc)
  Gives-done unending e = absurd (cc)

module _ {ℓ κ ℓ' κ'} {A : Type ℓ} {B : Type ℓ'} (P : A → Type κ) (Q : B → Type κ') where
  pub Gives-bind :
      (m : Run A) (f : A → Run B) → Gives P m → ((a : A) → P a → Gives Q (f a)) → Gives Q (m >>= f)
  Gives-bind (done a) f h k = k a (Gives-done P h refl)
  Gives-bind (failed e) f h k = failing
  Gives-bind panicked f h k = panicking
  Gives-bind unended f h k = unending
