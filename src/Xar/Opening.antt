-- ===== src/Xar/Opening.antt =====
-- src/format/xar.rs: the handler and the reader. The decoders and the XML parser are parameters.
use newtua_core.Base.{
  ltb, leb, ◌==◌, if◌then◌else◌, equal, length, get_elem?, take, drop, ℕ, suc, ◌+◌, ◌*◌, String,
  Bool, true, false, not, ◌||◌, Option, none, some, List, [], ◌∷◌,
}
use newtua_core.Base.Bytes.{Bytes, u64_mod, from_be}
use newtua_core.Base.Text.{starts_with}
use newtua_core.Base.Utf8.{is_utf8}
use newtua_core.Archive.{EntryKind, Entry}
use newtua_core.Archive.Confidence
use newtua_core.Archive.Confidence.{Confidence as Level}
use newtua_core.Error.{
  ErrorKind, unexpected_eof, corrupt, invalid_index, Result, ok, err, io_err_to_corrupt,
}
use newtua_core.Error.Run.{Run, done, failed, ◌>>=◌, of_result}
use newtua_core.Xar.{exceeds_nesting_depth}
use newtua_core.Xar.Nodes.{
  Node, element, other_node, Nodes, nil, cons, Codec, zlib, bzip2, xz, stored, HeapItem,
}
use newtua_core.Xar.Toc.{Listed, files_of, collect_loop}

-- What a stream decoder gives out, and the error that it ends in.
abbrev pub Decoder : Type 0
Decoder = Bytes → Bytes × Option ErrorKind

pub record Tools : Type 0 where
  pub base64 : Bytes → Option Bytes
  pub zlib_decoder : Decoder
  pub bzip2_decoder : Decoder
  pub xz_decoder : Decoder
  -- the nodes of a document
  pub parse_xml : Bytes → Option Nodes

abbrev pub max_toc_compressed : ℕ
max_toc_compressed = 128 * 1024 * 1024

abbrev pub max_toc_uncompressed : ℕ
max_toc_uncompressed = 256 * 1024 * 1024

abbrev pub max_toc_depth : ℕ
max_toc_depth = 64

-- "xar!"
abbrev pub xar_magic : Bytes
xar_magic = b'x' ∷ b'a' ∷ b'r' ∷ b'!' ∷ []

unfoldable pub probe : Bytes → Level
probe header = if starts_with header xar_magic then Confidence.magic else Confidence.none

-- "toc"
abbrev pub toc_tag : Bytes
toc_tag = b't' ∷ b'o' ∷ b'c' ∷ []

abbrev pub or_else : Option Nodes → Option Nodes → Option Nodes
or_else none later = later
or_else (some kids) later = some kids

-- The children of the first element of that name, in the order of the document.
unfoldable mutual
  pub find_toc_in : Node → Option Nodes
  find_toc_in other_node = none
  find_toc_in (element name text attributes kids) =
      if equal name toc_tag then some kids else find_toc kids

  pub find_toc : Nodes → Option Nodes
  find_toc nil = none
  find_toc (cons n ns) = or_else (find_toc_in n) (find_toc ns)

-- How many `file` elements a walk can meet.
unfoldable mutual
  pub count_in : Node → ℕ
  count_in other_node = 0
  count_in (element name text attributes kids) = suc (count_nodes kids)

  pub count_nodes : Nodes → ℕ
  count_nodes nil = 0
  count_nodes (cons n ns) = count_in n + count_nodes ns

pub record XarReader : Type 0 where
  pub inner : Bytes
  pub heap_offset : ℕ
  pub entries : List Entry
  pub items : List (Option HeapItem)

abbrev pub reader_of : Bytes → ℕ → Listed → XarReader
reader_of file heap_offset (entries, items) = record {
  inner = file;
  heap_offset = heap_offset;
  entries = entries;
  items = items;
}

-- `take(limit).read_to_string`: an error behind the limit is not met.
unfoldable pub limited_text : ℕ → Bytes × Option ErrorKind → Option Bytes
limited_text limit (out, none) = if is_utf8 (take limit out) then some (take limit out) else none
limited_text limit (out, some e) =
    if ltb (length out) limit
    then none
    else if is_utf8 (take limit out)
    then some (take limit out)
    else none

abbrev pub or_corrupt : {A : Type 0} → Option A → String → Run A
or_corrupt none what = failed (corrupt what)
or_corrupt (some a) what = done a

abbrev pub is_file_kind : EntryKind → Bool
is_file_kind EntryKind.file = true
is_file_kind _ = false

module _ (tools : Tools) where
  -- Every entry of the stack is a `file` element of its own, so their number is enough fuel.
  unfoldable pub collect : Nodes → Run Listed
  collect toc = collect_loop tools.base64 (suc (count_nodes toc)) (files_of toc [])

  unfoldable pub open_toc : Bytes → ℕ → Bytes → Run XarReader
  open_toc file heap_offset xml = of_result (exceeds_nesting_depth xml max_toc_depth) >>= λ deep.
      if deep
      then failed (corrupt "xar: TOC nesting too deep")
      else or_corrupt (tools.parse_xml xml) "xar: TOC XML" >>= λ doc.
          or_corrupt (find_toc doc) "xar: TOC has no <toc> element" >>= λ toc.
          collect toc >>= λ listed. done (reader_of file heap_offset listed)

  abbrev pub with_lengths : Bytes → ℕ → ℕ → Run XarReader
  with_lengths file header_len toc_len =
      if ltb header_len 28
      then failed (corrupt "xar: header size field < 28 (malformed)")
      else if toc_len == 0 || ltb max_toc_compressed toc_len
      then failed (corrupt "xar: implausible TOC length")
      else (let toc_compressed : Bytes = take toc_len (drop header_len file) in
          if ltb (length toc_compressed) toc_len
          then failed (io_err_to_corrupt unexpected_eof)
          else or_corrupt (limited_text max_toc_uncompressed (tools.zlib_decoder toc_compressed))
              "xar: TOC inflate"
            >>= open_toc file (header_len + toc_len))

  -- `open`, on the bytes of a source that can seek.
  unfoldable pub open_xar : Bytes → Run XarReader
  open_xar file =
      if ltb (length file) 28
      then failed (corrupt "xar: file too short (< 28 bytes)")
      else if not (equal (take 4 file) xar_magic)
      then failed (corrupt "xar: bad magic (expected 'xar!')")
      else with_lengths file (from_be (take 2 (drop 4 file))) (from_be (take 8 (drop 8 file)))

  -- What reaches the sink, and the outcome.
  abbrev pub outcome : Bytes × Option ErrorKind → Bytes × Result (Unit {0})
  outcome (out, none) = (out, ok tt)
  outcome (out, some e) = (out, err (io_err_to_corrupt e))

  unfoldable pub decode_item : Codec → Bytes → Bytes × Result (Unit {0})
  decode_item stored bytes = (bytes, ok tt)
  decode_item zlib bytes = outcome (tools.zlib_decoder bytes)
  decode_item bzip2 bytes = outcome (tools.bzip2_decoder bytes)
  decode_item xz bytes = outcome (tools.xz_decoder bytes)

  abbrev pub read_item : XarReader → Option (Option HeapItem) → Bytes × Result (Unit {0})
  read_item reader (some (some item)) =
      if leb u64_mod (reader.heap_offset + item.offset)
      then ([], err (corrupt "xar: heap offset overflow"))
      else decode_item item.codec
          (take item.length (drop (reader.heap_offset + item.offset) reader.inner))
  read_item reader _ = ([], ok tt)

  abbrev pub read_kind : XarReader → ℕ → Option Entry → Bytes × Result (Unit {0})
  read_kind reader idx none = ([], err (invalid_index idx))
  read_kind reader idx (some e) =
      if is_file_kind e.kind then read_item reader (get_elem? reader.items idx) else ([], ok tt)

  unfoldable pub read_entry : XarReader → ℕ → Bytes × Result (Unit {0})
  read_entry reader idx = read_kind reader idx (get_elem? reader.entries idx)
