-- ===== src/Deb/Tests.antt =====
-- Runs of the model of src/format/deb.rs.
use newtua_core.Base.{◌≡◌, refl, [], ◌∷◌}
use newtua_core.Base.Text.{strip_prefix}
use newtua_core.Error.{unexpected_eof, err, io_err_to_corrupt}
use newtua_core.Deb.{member, broken, debian_binary, data_tar, find_data}

broken_before :
    find_data (member debian_binary [] ∷ broken unexpected_eof ∷ member data_tar [] ∷ [])
    ≡ err (io_err_to_corrupt unexpected_eof)
unfolding find_data strip_prefix
broken_before = refl
