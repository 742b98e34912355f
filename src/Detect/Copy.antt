-- ===== src/Detect/Copy.antt =====
-- src/detect.rs: `copy_slice_exact`.
use newtua_core.Base.{
  ◌==◌, if◌then◌else◌, length, take, drop, take-append, drop-append, ℕ, String, ◌≡◌, refl, not, [],
  ◌∷◌, ◌++◌, arith,
}
use newtua_core.Base.Bytes.{Bytes}
use newtua_core.Error.{corrupt, Result, ok, err}

-- The bytes that reach the sink, and the outcome.
unfoldable pub copy_slice_exact : Bytes → ℕ → ℕ → String → Bytes × Result (Unit {0})
copy_slice_exact src offset size what =
    if size == 0
    then ([], ok tt)
    else (let copied : Bytes = take size (drop offset src) in
        (copied, if not (length copied == size) then err (corrupt what) else ok tt))

pub copy_slice_exact-append :
    (front b more : Bytes) (what : String)
    → copy_slice_exact (front ++ (b ++ more)) (length front) (length b) what ≡ (b, ok tt)
unfolding copy_slice_exact
copy_slice_exact-append front [] more what = refl
copy_slice_exact-append front (x ∷ b) more what =
    rw (drop-append (length front) front (x ∷ b ++ more) refl, take-append (length b) b more refl)
      (ground arith)
