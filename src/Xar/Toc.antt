-- ===== src/Xar/Toc.antt =====
-- src/format/xar.rs: the entries in the table of contents.
use newtua_core.Base.{
  ltb, leb, ◌==◌, if◌then◌else◌, equal, ℕ, zero, suc, ◌+◌, ◌-◌, ◌*◌, ◌^◌, Bool, true, false, ◌&&◌,
  ◌||◌, Option, none, some, List, [], ◌∷◌, ◌++◌, map,
}
use newtua_core.Base.Bytes.{Bytes, u64_mod}
use newtua_core.Base.Utf8.{from_utf8_lossy}
use newtua_core.Base.Str.{panics, absent, found, trim, parse_unsigned}
use newtua_core.Archive.{EntryKind, Entry}
use newtua_core.Datetime.{SystemTime}
use newtua_core.PathSafety.{slashed}
use newtua_core.PathSafety.Paths.{Component, root_dir, parent_dir, components, push}
use newtua_core.Error.Run.{Run, done, panicked, unended, ◌>>=◌, of_result}
use newtua_core.Xar.Nodes.{
  Node, Nodes, nil, cons, HeapItem, codec_from_style, has_tag_name, kids_of, attribute, find_tag,
  ◌and_then◌, or_default, child_text, file_name,
}
use newtua_core.Xar.Mtime.{parse_mtime}

abbrev pub file_tag : Bytes
file_tag = b'f' ∷ b'i' ∷ b'l' ∷ b'e' ∷ []

abbrev pub type_tag : Bytes
type_tag = b't' ∷ b'y' ∷ b'p' ∷ b'e' ∷ []

abbrev pub mode_tag : Bytes
mode_tag = b'm' ∷ b'o' ∷ b'd' ∷ b'e' ∷ []

abbrev pub mtime_tag : Bytes
mtime_tag = b'm' ∷ b't' ∷ b'i' ∷ b'm' ∷ b'e' ∷ []

abbrev pub data_tag : Bytes
data_tag = b'd' ∷ b'a' ∷ b't' ∷ b'a' ∷ []

abbrev pub link_tag : Bytes
link_tag = b'l' ∷ b'i' ∷ b'n' ∷ b'k' ∷ []

abbrev pub offset_tag : Bytes
offset_tag = b'o' ∷ b'f' ∷ b'f' ∷ b's' ∷ b'e' ∷ b't' ∷ []

abbrev pub length_tag : Bytes
length_tag = b'l' ∷ b'e' ∷ b'n' ∷ b'g' ∷ b't' ∷ b'h' ∷ []

abbrev pub size_tag : Bytes
size_tag = b's' ∷ b'i' ∷ b'z' ∷ b'e' ∷ []

abbrev pub encoding_tag : Bytes
encoding_tag = b'e' ∷ b'n' ∷ b'c' ∷ b'o' ∷ b'd' ∷ b'i' ∷ b'n' ∷ b'g' ∷ []

abbrev pub style_key : Bytes
style_key = b's' ∷ b't' ∷ b'y' ∷ b'l' ∷ b'e' ∷ []

-- "directory" and "symlink"
abbrev pub directory_kind : Bytes
directory_kind = b'd' ∷ b'i' ∷ b'r' ∷ b'e' ∷ b'c' ∷ b't' ∷ b'o' ∷ b'r' ∷ b'y' ∷ []

abbrev pub symlink_kind : Bytes
symlink_kind = b's' ∷ b'y' ∷ b'm' ∷ b'l' ∷ b'i' ∷ b'n' ∷ b'k' ∷ []

abbrev pub below : ℕ → Option ℕ → Option ℕ
below limit none = none
below limit (some n) = if ltb n limit then some n else none

-- `parse` of a number of 64 bits, or 0.
abbrev pub u64_or_zero : Option Bytes → ℕ
u64_or_zero text = or_default (text and_then λ s. below u64_mod (parse_unsigned (trim s))) 0

unfoldable pub octal_value : ℕ → Bytes → Option ℕ
octal_value acc [] = some acc
octal_value acc (c ∷ cs) =
    let more = octal_value (acc * 8 + (c - b'0')) cs in
    if leb b'0' c && leb c b'7' then more else none

abbrev pub octal_digits : Bytes → Option ℕ
octal_digits [] = none
octal_digits (c ∷ cs) = octal_value 0 (c ∷ cs)

-- `u32::from_str_radix(_, 8)`
abbrev pub parse_octal : Bytes → Option ℕ
parse_octal [] = none
parse_octal (c ∷ cs) = below (2 ^ 32) (if c == b'+' then octal_digits cs else octal_digits (c ∷ cs))

abbrev pub is_unsafe : Component → Bool
is_unsafe parent_dir = true
is_unsafe root_dir = true
is_unsafe _ = false

unfoldable pub any_unsafe : List Component → Bool
any_unsafe [] = false
any_unsafe (c ∷ cs) = is_unsafe c || any_unsafe cs

-- `replace('/', ":")`, on one byte.
abbrev pub colon_for : ℕ → ℕ
colon_for c = if c == b'/' then b':' else c

-- The time of an entry; a slice within a character panics.
abbrev pub time_of : Option Bytes → Run (Option SystemTime)
time_of none = done none
time_of (some text) = elim (parse_mtime text) [
  | panics ↦ panicked
  | absent ↦ done none
  | found t ↦ done (some t)
]

-- The kind, the size and the place of a regular file.
abbrev pub Body : Type 0
Body = EntryKind × ℕ × Option HeapItem

abbrev pub file_body : Option Node → Run Body
file_body none = done (EntryKind.file, 0, none)
file_body (some d) =
    of_result
      (codec_from_style (find_tag (kids_of d) encoding_tag and_then λ e. attribute e style_key))
    >>= λ codec. done (
      EntryKind.file,
      u64_or_zero (child_text (kids_of d) size_tag),
      some (record {
        offset = u64_or_zero (child_text (kids_of d) offset_tag);
        length = u64_or_zero (child_text (kids_of d) length_tag);
        codec = codec;
      }),
    )

unfoldable pub body_of : Nodes → Bytes → Run Body
body_of kids kind_str =
    if equal kind_str directory_kind
    then done (EntryKind.dir, 0, none)
    else if equal kind_str symlink_kind
    then done (EntryKind.symlink (or_default (child_text kids link_tag) []), 0, none)
    else file_body (find_tag kids data_tag)

abbrev pub entry_of : Bytes → Option ℕ → Option SystemTime → Body → Entry
entry_of path mode modified (kind, size, item) = record {
  path_raw = from_utf8_lossy path;
  path = path;
  kind = kind;
  size = size;
  mode = mode;
  is_encrypted = false;
  modified = modified;
  is_resource_fork = false;
}

abbrev pub Visited : Type 0
Visited = Entry × Option HeapItem

abbrev pub item_of : Body → Option HeapItem
item_of (kind, size, item) = item

-- What the walk pushes onto `entries` and onto `items`.
abbrev pub Listed : Type 0
Listed = List Entry × List (Option HeapItem)

abbrev pub joined : Listed → Listed → Listed
joined (es, is) (fs, js) = (es ++ fs, is ++ js)

-- The entry at a path.
unfoldable pub visit_at : Nodes → Bytes → Run Visited
visit_at kids path = time_of (child_text kids mtime_tag) >>= λ modified.
    body_of kids (or_default (child_text kids type_tag) file_tag) >>= λ body. done (
      entry_of path (child_text kids mode_tag and_then λ s. parse_octal (trim s)) modified body,
      item_of body,
    )

unfoldable pub files_of : Nodes → Bytes → List (Nodes × Bytes)
files_of nil path = []
files_of (cons n ns) path =
    let rest = files_of ns path in
    if has_tag_name n file_tag then (kids_of n, path) ∷ rest else rest

module _ (base64 : Bytes → Option Bytes) where
  -- The path of a `file` element, unless it is passed over.
  unfoldable pub path_in : Nodes → Bytes → Option Bytes
  path_in kids parent = file_name base64 kids and_then λ name.
      if any_unsafe (components (map slashed name))
      then none
      else some (push parent (map colon_for name))

  abbrev pub on_visit :
      (List (Nodes × Bytes) → Run Listed) → Nodes → List (Nodes × Bytes) → Option Bytes → Run Listed
  on_visit next kids rest none = next rest
  on_visit next kids rest (some path) = visit_at kids path >>= λ v.
      next (files_of kids path ++ rest) >>= λ more. done (joined (v.0 ∷ [], v.1 ∷ []) more)

  -- The top of the stack is the front of the list. A `file` element stands for its children.
  unfoldable pub collect_loop : ℕ → List (Nodes × Bytes) → Run Listed
  collect_loop zero stack = unended
  collect_loop (suc fuel) [] = done ([], [])
  collect_loop (suc fuel) ((kids, parent) ∷ rest) =
      on_visit (collect_loop fuel) kids rest (path_in kids parent)
