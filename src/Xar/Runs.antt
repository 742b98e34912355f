-- ===== src/Xar/Runs.antt =====
-- Runs of the reader of src/format/xar.rs, and instances of its theorems.
use newtua_core.Base.{equal, All, ◌≡◌, refl, false, none, some, [], ◌∷◌, map}
use newtua_core.Base.Bytes.{Bytes}
use newtua_core.Base.Str.{panics, without_one_of, trim_start, reversed, trim}
use newtua_core.Archive.{Entry}
use newtua_core.Base.Utf8.{is_utf8}
use newtua_core.Base.Text.{strip_prefix}
use newtua_core.PathSafety.{raw_path_escapes}
use newtua_core.PathSafety.Paths.{split, piece, pieces, lead, components, needs_separator, push}
use newtua_core.Error.Run.{Run, done}
use newtua_core.Xar.Nodes.{
  Node, element, other_node, Nodes, nil, cons, find_tag, child_text, name_tag, enctype_key,
  base64_value, decode_base64_name, file_name,
}
use newtua_core.Xar.Mtime.{parse_mtime}
use newtua_core.Xar.Toc.{
  file_tag, type_tag, directory_kind, any_unsafe, body_of, Listed, visit_at, files_of, path_in,
  collect_loop,
}
use newtua_core.Xar.Opening.{Tools, count_nodes, collect}
use newtua_core.Xar.Order.{listed, collect-listed}
use newtua_core.Xar.Paths.{collect_inside}

abbrev tools : Tools
tools = record {
  base64 = λ s. some (b'.' ∷ b'.' ∷ b'/' ∷ s);
  zlib_decoder = λ s. (s, none);
  bzip2_decoder = λ s. (s, none);
  xz_decoder = λ s. (s, none);
  parse_xml = λ s. none;
}

abbrev leaf : Bytes → Bytes → Node
leaf tag text = element tag (some text) [] nil

-- A `file` element with a name, and with others in it.
abbrev file_in : Bytes → Nodes → Node
file_in name kids = element file_tag none [] (cons (leaf name_tag name) kids)

-- A name that is coded as leading out.
abbrev coded : Node
coded =
    element file_tag none []
      (cons (element name_tag (some (b'x' ∷ [])) ((enctype_key, base64_value) ∷ []) nil) nil)

abbrev toc : Nodes
toc =
    cons
      (file_in (b'd' ∷ [])
        (cons (leaf type_tag directory_kind) (cons (file_in (b'a' ∷ b'/' ∷ b'b' ∷ []) nil) nil)))
      (cons coded (cons other_node (cons (file_in (b'e' ∷ []) nil) nil)))

abbrev listed_of : Run Listed → Listed
listed_of (done listed) = listed
listed_of _ = ([], [])

toc_paths :
    map (λ (e : Entry). e.path) (listed_of (collect tools toc)).0
    ≡ (b'd' ∷ []) ∷ (b'd' ∷ b'/' ∷ b'a' ∷ b':' ∷ b'b' ∷ []) ∷ (b'e' ∷ []) ∷ []
unfolding collect collect_loop path_in file_name find_tag equal components lead pieces piece split
    any_unsafe push needs_separator visit_at body_of child_text files_of count_nodes
    decode_base64_name is_utf8
toc_paths = refl

collect-listed_example : collect tools toc ≡ listed tools.base64 toc []
collect-listed_example = collect-listed tools toc

collect_inside_example :
    All (λ (e : Entry). raw_path_escapes e.path ≡ false) (listed_of (collect tools toc)).0
unfolding collect collect_loop path_in file_name find_tag equal components lead pieces piece split
    any_unsafe push needs_separator visit_at body_of child_text files_of count_nodes
    decode_base64_name is_utf8
collect_inside_example = collect_inside tools toc (listed_of (collect tools toc)) refl

-- A character of two bytes across the place where the year ends.
abbrev broken_date : Bytes
broken_date =
    b'2' ∷ b'0' ∷ b'0' ∷ 0xc3 ∷ 0xa9 ∷ b'0' ∷ b'1' ∷ b'-' ∷ b'0' ∷ b'2' ∷ b'T' ∷ b'0' ∷ b'3' ∷ b':'
    ∷ b'0' ∷ b'4' ∷ b':' ∷ b'0' ∷ b'5' ∷ []

date_panics : parse_mtime broken_date ≡ panics
unfolding parse_mtime trim reversed trim_start without_one_of strip_prefix
date_panics = refl
