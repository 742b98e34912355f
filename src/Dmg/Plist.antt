-- ===== src/Dmg/Plist.antt =====
-- src/format/dmg.rs: the blocks in the property list. The XML parser and the base64 decoder
-- are parameters.
use newtua_core.Base.{
  ◌==◌, if◌then◌else◌, equal, ℕ, String, Bool, true, false, not, ◌&&◌, ◌||◌, Option, none, some,
  List, [], ◌∷◌,
}
use newtua_core.Base.Bytes.{Bytes}
use newtua_core.Base.Utf8.{is_utf8}
use newtua_core.Xar.{exceeds_nesting_depth}
use newtua_core.Error.{corrupt, Result, ok, err, ◌>>=◌, ◌>>◌, guard}

-- A document's nodes: an element with its name and text, or another node.
mutual
  pub data Node : Type 0 where
    element : Bytes → Option Bytes → Nodes → Node
    other_node : Node

  pub data Nodes : Type 0 where
    nil : Nodes
    cons : Node → Nodes → Nodes

-- "key", "dict" and "array"
abbrev pub key_tag : Bytes
key_tag = b'k' ∷ b'e' ∷ b'y' ∷ []

abbrev pub dict_tag : Bytes
dict_tag = b'd' ∷ b'i' ∷ b'c' ∷ b't' ∷ []

abbrev pub array_tag : Bytes
array_tag = b'a' ∷ b'r' ∷ b'r' ∷ b'a' ∷ b'y' ∷ []

-- "resource-fork", "blkx" and "Data"
abbrev pub resource_fork_key : Bytes
resource_fork_key =
    b'r' ∷ b'e' ∷ b's' ∷ b'o' ∷ b'u' ∷ b'r' ∷ b'c' ∷ b'e' ∷ b'-' ∷ b'f' ∷ b'o' ∷ b'r' ∷ b'k' ∷ []

abbrev pub blkx_key : Bytes
blkx_key = b'b' ∷ b'l' ∷ b'k' ∷ b'x' ∷ []

abbrev pub data_key : Bytes
data_key = b'D' ∷ b'a' ∷ b't' ∷ b'a' ∷ []

abbrev pub max_plist_depth : ℕ
max_plist_depth = 64

unfoldable pub first_element : Nodes → Option Node
first_element nil = none
first_element (cons other_node ns) = first_element ns
first_element (cons (element tag text children) ns) = some (element tag text children)

abbrev pub is_text : Option Bytes → Bytes → Bool
is_text none key = false
is_text (some t) key = equal t key

unfoldable pub value_in : Nodes → Bytes → Option Node
value_in nil key = none
value_in (cons other_node ns) key = value_in ns key
value_in (cons (element tag text children) ns) key =
    let later = value_in ns key in
    if equal tag key_tag && is_text text key then first_element ns else later

abbrev pub children_of : Node → Nodes
children_of (element tag text children) = children
children_of other_node = nil

unfoldable pub dict_value : Node → Bytes → Option Node
dict_value node key = value_in (children_of node) key

unfoldable pub has_tag_name : Node → Bytes → Bool
has_tag_name other_node name = false
has_tag_name (element tag text children) name = equal tag name

-- The first child that is a `dict`.
unfoldable pub find_dict : Nodes → Option Node
find_dict nil = none
find_dict (cons n ns) =
    let later = find_dict ns in if has_tag_name n dict_tag then some n else later

abbrev pub or_missing : Option Node → String → Result Node
or_missing none message = err (corrupt message)
or_missing (some n) message = ok n

abbrev pub text_or_empty : Node → Bytes
text_or_empty (element tag (some t) children) = t
text_or_empty _ = []

-- `is_ascii_whitespace`
abbrev pub is_white : ℕ → Bool
is_white c = c == 9 || (c == 10 || (c == 12 || (c == 13 || c == 32)))

unfoldable pub without_white : Bytes → Bytes
without_white [] = []
without_white (c ∷ cs) = let rest = without_white cs in if is_white c then rest else c ∷ rest

module _ (base64 : Bytes → Option Bytes) where
  abbrev pub or_bad_base64 : Option Bytes → Result Bytes
  or_bad_base64 none = err (corrupt "dmg: base64 decode")
  or_bad_base64 (some b) = ok b

  unfoldable pub decode_base64 : Bytes → Result Bytes
  decode_base64 s = or_bad_base64 (base64 (without_white s))

  -- The data of each `dict` in the array.
  unfoldable pub blkx_loop : Nodes → Result (List Bytes)
  blkx_loop nil = ok []
  blkx_loop (cons n ns) = elim (has_tag_name n dict_tag) [
    | false ↦ blkx_loop ns
    | true ↦ or_missing (dict_value n data_key) "dmg: blkx entry missing Data" >>= λ data_node.
        decode_base64 (text_or_empty data_node) >>= λ block.
        blkx_loop ns >>= λ blocks. ok (block ∷ blocks)
  ]

  -- The parser gives the root element, or fails.
  module _ (parse_xml : Bytes → Result Node) where
    unfoldable pub parse_plist_blkx : Bytes → Result (List Bytes)
    parse_plist_blkx xml = do
      guard (is_utf8 xml) (corrupt "dmg: plist is not valid UTF-8")
      deep ← exceeds_nesting_depth xml max_plist_depth
      guard (not deep) (corrupt "dmg: plist nesting too deep")
      root ← parse_xml xml
      top_dict ← or_missing (find_dict (children_of root)) "dmg: plist missing top-level dict"
      rsrc_fork ←
          or_missing (dict_value top_dict resource_fork_key) "dmg: plist missing resource-fork"
      blkx_array ← or_missing (dict_value rsrc_fork blkx_key) "dmg: plist missing blkx"
      guard (has_tag_name blkx_array array_tag) (corrupt "dmg: blkx is not an array")
      blkx_loop (children_of blkx_array)
