-- ===== src/PathSafety/Paths.antt =====
-- `std::path` of the standard library on Unix: the components of a path, and `PathBuf::push`.
use newtua_core.Base.{◌==◌, if◌then◌else◌, equal, ℕ, Bool, false, not, List, [], ◌∷◌, ◌++◌}
use newtua_core.Base.Bytes.{Bytes}

pub data Component : Type 0 where
  root_dir cur_dir parent_dir : Component
  normal : Bytes → Component

abbrev pub dot : Bytes
dot = b'.' ∷ []

abbrev pub dot_dot : Bytes
dot_dot = b'.' ∷ b'.' ∷ []

abbrev pub is_slash : ℕ → Bool
is_slash c = c == b'/'

-- `slice::split`: the first piece, and the others.
unfoldable pub split : (ℕ → Bool) → Bytes → Bytes × List Bytes
split sep [] = ([], [])
split sep (c ∷ cs) = let (s, r) = split sep cs in if sep c then ([], s ∷ r) else (c ∷ s, r)

abbrev pub segments : (ℕ → Bool) → Bytes → List Bytes
segments sep p = (split sep p).0 ∷ (split sep p).1

abbrev pub is_absolute : Bytes → Bool
is_absolute [] = false
is_absolute (c ∷ cs) = is_slash c

-- A piece between separators: an empty one and `.` are passed over.
unfoldable pub piece : Bytes → List Component
piece s =
    if equal s []
    then []
    else if equal s dot
    then []
    else if equal s dot_dot
    then parent_dir ∷ []
    else normal s ∷ []

unfoldable pub pieces : List Bytes → List Component
pieces [] = []
pieces (s ∷ ss) = piece s ++ pieces ss

-- A root, or a leading `.`.
unfoldable pub lead : Bytes → Bytes → List Component
lead p s = if is_absolute p then root_dir ∷ [] else if equal s dot then cur_dir ∷ [] else []

-- `Path::components`
unfoldable pub components : Bytes → List Component
components p = lead p (split is_slash p).0 ++ pieces (segments is_slash p)

unfoldable pub needs_separator : Bytes → Bool
needs_separator [] = false
needs_separator (c ∷ []) = not (is_slash c)
needs_separator (_ ∷ c ∷ cs) = needs_separator (c ∷ cs)

-- `PathBuf::push`
unfoldable pub push : Bytes → Bytes → Bytes
push out part =
    if is_absolute part
    then part
    else if needs_separator out
    then out ++ b'/' ∷ part
    else out ++ part
