-- ===== src/Xar/Nodes.antt =====
-- src/format/xar.rs: the nodes of the table of contents, and the names in it. The XML parser and
-- the base64 decoder are parameters.
use newtua_core.Base.{if◌then◌else◌, equal, ℕ, Bool, false, ◌||◌, Option, none, some, List, [], ◌∷◌}
use newtua_core.Base.Bytes.{Bytes}
use newtua_core.Base.Utf8.{is_utf8}
use newtua_core.Error.{unsupported, Result, ok, err}

-- A document's nodes: an element with its name, its text, its attributes and its children, or
-- another node.
mutual
  pub data Node : Type 0 where
    element : Bytes → Option Bytes → List (Bytes × Bytes) → Nodes → Node
    other_node : Node

  pub data Nodes : Type 0 where
    nil : Nodes
    cons : Node → Nodes → Nodes

pub data Codec : Type 0 where
  zlib bzip2 xz stored : Codec

pub record HeapItem : Type 0 where
  pub offset : ℕ
  pub length : ℕ
  pub codec : Codec

-- The bytes of a text.
abbrev pub style_gzip : Bytes
style_gzip =
    b'a' ∷ b'p' ∷ b'p' ∷ b'l' ∷ b'i' ∷ b'c' ∷ b'a' ∷ b't' ∷ b'i' ∷ b'o' ∷ b'n' ∷ b'/' ∷ b'x' ∷ b'-'
    ∷ b'g' ∷ b'z' ∷ b'i' ∷ b'p' ∷ []

abbrev pub style_zlib : Bytes
style_zlib =
    b'a' ∷ b'p' ∷ b'p' ∷ b'l' ∷ b'i' ∷ b'c' ∷ b'a' ∷ b't' ∷ b'i' ∷ b'o' ∷ b'n' ∷ b'/' ∷ b'z' ∷ b'l'
    ∷ b'i' ∷ b'b' ∷ []

abbrev pub style_bzip2 : Bytes
style_bzip2 =
    b'a' ∷ b'p' ∷ b'p' ∷ b'l' ∷ b'i' ∷ b'c' ∷ b'a' ∷ b't' ∷ b'i' ∷ b'o' ∷ b'n' ∷ b'/' ∷ b'x' ∷ b'-'
    ∷ b'b' ∷ b'z' ∷ b'i' ∷ b'p' ∷ b'2' ∷ []

abbrev pub style_xz : Bytes
style_xz =
    b'a' ∷ b'p' ∷ b'p' ∷ b'l' ∷ b'i' ∷ b'c' ∷ b'a' ∷ b't' ∷ b'i' ∷ b'o' ∷ b'n' ∷ b'/' ∷ b'x' ∷ b'-'
    ∷ b'x' ∷ b'z' ∷ []

abbrev pub style_stored : Bytes
style_stored =
    b'a' ∷ b'p' ∷ b'p' ∷ b'l' ∷ b'i' ∷ b'c' ∷ b'a' ∷ b't' ∷ b'i' ∷ b'o' ∷ b'n' ∷ b'/' ∷ b'o' ∷ b'c'
    ∷ b't' ∷ b'e' ∷ b't' ∷ b'-' ∷ b's' ∷ b't' ∷ b'r' ∷ b'e' ∷ b'a' ∷ b'm' ∷ []

unfoldable pub codec_from_style : Option Bytes → Result Codec
codec_from_style none = ok stored
codec_from_style (some style) =
    if equal style style_gzip || equal style style_zlib
    then ok zlib
    else if equal style style_bzip2
    then ok bzip2
    else if equal style style_xz
    then ok xz
    else if equal style style_stored
    then ok stored
    else err (unsupported "xar" "member codec")

abbrev pub has_tag_name : Node → Bytes → Bool
has_tag_name other_node tag = false
has_tag_name (element name text attributes kids) tag = equal name tag

abbrev pub text_of : Node → Option Bytes
text_of other_node = none
text_of (element name text attributes kids) = text

abbrev pub kids_of : Node → Nodes
kids_of other_node = nil
kids_of (element name text attributes kids) = kids

abbrev pub value_of : List (Bytes × Bytes) → Bytes → Option Bytes
value_of [] key = none
value_of ((name, value) ∷ rest) key =
    let more = value_of rest key in if equal name key then some value else more

abbrev pub attribute : Node → Bytes → Option Bytes
attribute other_node key = none
attribute (element name text attributes kids) key = value_of attributes key

-- The first child of a name.
unfoldable pub find_tag : Nodes → Bytes → Option Node
find_tag nil tag = none
find_tag (cons n ns) tag =
    let later = find_tag ns tag in if has_tag_name n tag then some n else later

infixl 5 ◌and_then◌
abbrev pub ◌and_then◌ : {A B : Type 0} → Option A → (A → Option B) → Option B
none and_then f = none
some a and_then f = f a

abbrev pub or_default : {A : Type 0} → Option A → A → A
or_default none d = d
or_default (some a) d = a

unfoldable pub child_text : Nodes → Bytes → Option Bytes
child_text kids tag = find_tag kids tag and_then text_of

-- "name", "enctype" and "base64"
abbrev pub name_tag : Bytes
name_tag = b'n' ∷ b'a' ∷ b'm' ∷ b'e' ∷ []

abbrev pub enctype_key : Bytes
enctype_key = b'e' ∷ b'n' ∷ b'c' ∷ b't' ∷ b'y' ∷ b'p' ∷ b'e' ∷ []

abbrev pub base64_value : Bytes
base64_value = b'b' ∷ b'a' ∷ b's' ∷ b'e' ∷ b'6' ∷ b'4' ∷ []

abbrev pub if_utf8 : Bytes → Option Bytes
if_utf8 bytes = if is_utf8 bytes then some bytes else none

abbrev pub is_base64 : Option Bytes → Bool
is_base64 none = false
is_base64 (some value) = equal value base64_value

module _ (base64 : Bytes → Option Bytes) where
  unfoldable pub decode_base64_name : Bytes → Option Bytes
  decode_base64_name text = base64 text and_then if_utf8

  -- The element's text, decoded where its attribute says so and the text allows it.
  abbrev pub decoded_name : Node → Bytes → Bytes
  decoded_name node text =
      if is_base64 (attribute node enctype_key)
      then or_default (decode_base64_name text) text
      else text

  unfoldable pub file_name : Nodes → Option Bytes
  file_name kids = find_tag kids name_tag and_then λ node.
      text_of node and_then λ text. some (decoded_name node text)
