-- ===== src/Crx/Tests.antt =====
-- A run of src/format/crx.rs.
use newtua_core.Base.{◌≡◌, [], ◌∷◌, arith}
use newtua_core.Error.{ok}
use newtua_core.Crx.{open_crx}
use newtua_core.Crx.Written.{crx2, written, open_crx-written}

open_crx-written_example :
    open_crx (λ zip. ok zip) (written (crx2 (1 ∷ 2 ∷ []) (3 ∷ [])) (b'P' ∷ b'K' ∷ []))
    ≡ ok (b'P' ∷ b'K' ∷ [])
open_crx-written_example =
    open_crx-written (λ zip. ok zip) (crx2 (1 ∷ 2 ∷ []) (3 ∷ [])) (b'P' ∷ b'K' ∷ [])
      (omega arith, omega arith)
