-- ===== src/Error.antt =====
-- src/error.rs: the crate's error type and its `Result`.
pub mod Run
use mathlib.Core.Path.{subst}
use Prim.Native.String.{String}
use newtua_core.Base.{if◌then◌else◌, ℕ, ◌≡◌, refl, ◌≢◌, Bool, true, false}
use newtua_core.Base.Bytes.{Bytes}

-- The kinds of `std::io::Error` that the crate tells apart.
pub data ErrorKind : Type 0 where
  invalid_data unexpected_eof other_kind : ErrorKind

-- The message of an error is the fixed part of its text; the values that `format!` puts into it
-- are left out, but for a refused path and a bad index.
pub data Error : Type 0 where
  io : ErrorKind → Error
  unknown_format : Error
  unsupported : String → String → Error
  encrypted : Error
  wrong_password : Error
  corrupt : String → Error
  path_traversal : Bytes → Error
  missing_volume : String → Error
  invalid_index : ℕ → Error

-- `stuck` is no value of the source: a loop ran out of the fuel that the model gives it.
pub data Result {ℓ} (A : Type ℓ) : Type ℓ where
  ok : A → Result A
  err : Error → Result A
  stuck : Result A

-- `?`: what follows sees the value, and any other outcome stands.
infixl 5 ◌>>=◌
abbrev pub ◌>>=◌ {ℓ κ} : {A : Type ℓ} {B : Type κ} → Result A → (A → Result B) → Result B
stuck >>= next = stuck
err reason >>= next = err reason
ok value >>= next = next value

infixl 5 ◌>>◌
abbrev pub ◌>>◌ {κ} : {B : Type κ} → Result (Unit {0}) → Result B → Result B
check >> next = check >>= λ _. next

-- An early return of an error unless a test holds.
unfoldable pub guard : Bool → Error → Result (Unit {0})
guard false reason = err reason
guard true reason = ok tt

pub io_err_to_corrupt : ErrorKind → Error
io_err_to_corrupt invalid_data = corrupt "invalid data"
io_err_to_corrupt unexpected_eof = corrupt "failed to fill whole buffer"
io_err_to_corrupt other_kind = io other_kind

-- A postcondition: the run ends, and a value that it returns has the property.
pub data Ensures {ℓ κ} {A : Type ℓ} (P : A → Type κ) : Result A → Type (ℓ ⊔ κ) where
  returns : {a : A} → P a → Ensures P (ok a)
  fails : {e : Error} → Ensures P (err e)

module _ {ℓ κ} {A : Type ℓ} (P : A → Type κ) where
  pub Ensures-ok : {r : Result A} {a : A} → Ensures P r → r ≡ ok a → P a
  Ensures-ok (returns {a} p) e = subst P (cc) p
  Ensures-ok fails e = absurd (cc)

  pub Ensures-ne-stuck : {r : Result A} → Ensures P r → r ≢ stuck
  Ensures-ne-stuck (returns p) = λ e. cc
  Ensures-ne-stuck fails = λ e. cc

module _ {ℓ κ κ'} {A : Type ℓ} (P : A → Type κ) (Q : A → Type κ') where
  pub Ensures-map : {r : Result A} → ((a : A) → P a → Q a) → Ensures P r → Ensures Q r
  Ensures-map f (returns {a} p) = returns (f a p)
  Ensures-map f fails = fails

module _ {ℓ κ ℓ' κ'} {A : Type ℓ} {B : Type ℓ'} (P : A → Type κ) (Q : B → Type κ') where
  pub Ensures-bind :
      (m : Result A) (f : A → Result B)
      → Ensures P m
      → ((a : A) → P a → Ensures Q (f a))
      → Ensures Q (m >>= f)
  Ensures-bind (ok a) f h k = k a (Ensures-ok P h refl)
  Ensures-bind (err e) f h k = fails
  Ensures-bind stuck f h k = absurd (Ensures-ne-stuck P h refl)

module _ {ℓ κ} {A : Type ℓ} (P : A → Type κ) where
  pub Ensures-guard :
      (b : Bool) (e : Error) (more : Result A)
      → (b ≡ true → Ensures P more)
      → Ensures P (guard b e >> more)
  unfolding guard
  Ensures-guard true e more h = h refl
  Ensures-guard false e more h = fails

module _ {ℓ κ} {A : Type ℓ} (P : A → Type κ) where
  pub Ensures-if :
      (b : Bool) (x y : Result A)
      → (b ≡ true → Ensures P x)
      → (b ≡ false → Ensures P y)
      → Ensures P (if b then x else y)
  Ensures-if true x y h k = h refl
  Ensures-if false x y h k = k refl

pub ok-injective {ℓ} : {A : Type ℓ} (m : Result A) (a b : A) → m ≡ ok a → m ≡ ok b → a ≡ b
ok-injective m a b p q = cc
