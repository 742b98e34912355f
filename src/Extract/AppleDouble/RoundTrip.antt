-- ===== src/Extract/AppleDouble/RoundTrip.antt =====
-- A sidecar of src/extract.rs, read as the AppleDouble format has it.
use newtua_core.Base.{length, take, ◌%◌, ◌^◌, ◌<◌, ◌≡◌, refl, ap, ◌∙◌, some, arith}
use newtua_core.Base.Bytes.{Bytes, slice?, to_be, from_be}
use newtua_core.Base.Slices.{slice?-end}
use newtua_core.Base.BigEndian.{from_be-to_be}
use newtua_core.Extract.AppleDouble.{sidecar_bytes, find_descriptor, fork_in}

-- The sidecar that is written for a resource fork below 4 GiB, read as the AppleDouble format has
-- it, holds just that fork as its part with id 2.
pub fork_in-sidecar_bytes :
    (fork : Bytes) → length fork < 2 ^ 32 → fork_in (sidecar_bytes fork) 2 ≡ some fork
unfolding fork_in sidecar_bytes find_descriptor
fork_in-sidecar_bytes fork h =
    let len : from_be (to_be 4 (length fork % 2 ^ 32)) ≡ length fork =
      from_be-to_be 4 (length fork % 2 ^ 32) (omega arith) ∙ omega (arith, h) in
    ap (λ l. slice? (sidecar_bytes fork) 38 l) len
    ∙ slice?-end 38 (length fork) (take 38 (sidecar_bytes fork)) fork refl refl
