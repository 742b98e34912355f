-- ===== src/Bundle/Tests.antt =====
-- Runs of the model of src/format/bundle.rs.
use newtua_core.Base.{equal, ◌≡◌, refl, some, [], ◌∷◌}
use newtua_core.Base.Text.{strip_prefix, lowercase}
use newtua_core.Archive.{FormatId}
use newtua_core.Bundle.{ZipBundleHandler, zip_magic, probe}

abbrev jar_handler : ZipBundleHandler
jar_handler = record { ext = b'.' ∷ b'j' ∷ b'a' ∷ b'r' ∷ []; format = FormatId.jar }

upper_case_name : probe jar_handler zip_magic (some (b'x' ∷ b'.' ∷ b'J' ∷ b'A' ∷ b'r' ∷ [])) ≡ 100
unfolding probe strip_prefix lowercase equal
upper_case_name = refl
