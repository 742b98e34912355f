-- ===== src/Macos.antt =====
-- src/macos.rs: the sidecar files of macOS.
use newtua_core.Base.{◌==◌, equal, Bool, false, ◌&&◌, ◌||◌, Option, none, some, List, [], ◌∷◌}
use newtua_core.Base.Bytes.{Bytes}
use newtua_core.Base.Utf8.{is_utf8}
use newtua_core.PathSafety.Paths.{
  Component, root_dir, cur_dir, parent_dir, normal, dot, dot_dot, components,
}

-- "__MACOSX"
abbrev pub macosx : Bytes
macosx = b'_' ∷ b'_' ∷ b'M' ∷ b'A' ∷ b'C' ∷ b'O' ∷ b'S' ∷ b'X' ∷ []

-- ".DS_Store"
abbrev pub ds_store : Bytes
ds_store = b'.' ∷ b'D' ∷ b'S' ∷ b'_' ∷ b'S' ∷ b't' ∷ b'o' ∷ b'r' ∷ b'e' ∷ []

-- `Component::as_os_str`
abbrev pub os_str : Component → Bytes
os_str root_dir = b'/' ∷ []
os_str cur_dir = dot
os_str parent_dir = dot_dot
os_str (normal s) = s

-- `Path::file_name`: the last component, if it is a name.
unfoldable pub file_name : List Component → Option Bytes
file_name [] = none
file_name (normal s ∷ []) = some s
file_name (_ ∷ []) = none
file_name (_ ∷ c ∷ cs) = file_name (c ∷ cs)

unfoldable pub any_macosx : List Component → Bool
any_macosx [] = false
any_macosx (c ∷ cs) = equal (os_str c) macosx || any_macosx cs

-- `starts_with("._")`
unfoldable pub is_apple_double : Bytes → Bool
is_apple_double (a ∷ b ∷ cs) = a == b'.' && b == b'_'
is_apple_double _ = false

-- The verdict on the file's name, where it is text.
unfoldable pub is_metadata_name : Option Bytes → Bool
is_metadata_name none = false
is_metadata_name (some name) = is_utf8 name && (equal name ds_store || is_apple_double name)

unfoldable pub is_macos_metadata : Bytes → Bool
is_macos_metadata path =
    any_macosx (components path) || is_metadata_name (file_name (components path))
