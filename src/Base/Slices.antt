-- ===== src/Base/Slices.antt =====
-- Slices out of concatenated byte strings.
use native.Mathlib.Omega.{arith}
use mathlib.Core.List.{[], ◌++◌, append-nil}
use mathlib.Core.Option.{some}
use mathlib.Core.Bool.{true}
use mathlib.Core.Path.{◌≡◌, refl, sym, ap, ◌∙◌}
use Prim.Native.Nat.{ℕ, ◌+◌}
use newtua_core.Base.Lists.{length, length-append, take-append, drop-append}
use newtua_core.Base.Bytes.{Bytes, slice?}
use newtua_core.Base.Tests.{leb, le→leb}

pub slice?-append :
    (n p : ℕ) (front b more : Bytes)
    → length front ≡ p
    → length b ≡ n
    → slice? (front ++ (b ++ more)) p n ≡ some b
unfolding slice?
slice?-append n p front b more e f =
    let fits : leb (p + n) (length (front ++ (b ++ more))) ≡ true =
      le→leb _ _ (omega (arith, length-append front (b ++ more), length-append b more)) in
    rw (fits, drop-append p front (b ++ more) e, take-append n b more f) refl

pub slice?-end :
    (n l : ℕ) (front b : Bytes) → length front ≡ n → length b ≡ l → slice? (front ++ b) n l ≡ some b
slice?-end n l front b e f =
    ap (λ more. slice? (front ++ more) n l) (sym (append-nil b)) ∙ slice?-append l n front b [] e f
