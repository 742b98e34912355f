-- ===== src/Rpm/Tests.antt =====
-- Runs of the model of src/format/rpm.rs.
use newtua_core.Base.{equal, take, ◌≡◌, refl, none, some, [], ◌∷◌}
use newtua_core.Base.Bytes.{Bytes}
use newtua_core.Error.{Result, ok}
use newtua_core.Detect.Compressors.{Compressor}
use newtua_core.Rpm.{xz_name, map_payload_compressor, Package, open_rpm}

abbrev pkg : Package
pkg = record { payload_format = none; payload_compressor = some xz_name; payload = 1 ∷ 2 ∷ [] }

-- A decoder that keeps the first byte.
abbrev first_byte : Compressor → Bytes → Result Bytes
first_byte c bytes = ok (take 1 bytes)

xz_payload : open_rpm first_byte (λ bytes. ok bytes) pkg ≡ ok (1 ∷ [])
unfolding open_rpm map_payload_compressor equal
xz_payload = refl
