-- ===== src/Wim/Tests.antt =====
-- Runs of the model of src/format/wim.rs, and instances of its theorems.
use newtua_core.Wim.Opening.Bodies.{Reads, open_wim-read_entry}
use newtua_core.Wim.Opening.{sort_entries, WimReader, open_wim, read_entry}
use newtua_core.Wim.Tree.Pairs.{IsRooted, rooted, build_dir_tree-IsRooted, build_dir_tree-listing}
use newtua_core.Wim.Tree.Listing.{
  Siblings, last, entry, listing, stored_last, stored_leaf, stored_entry, walk_children_self,
}
use newtua_core.Wim.Dentry.Ends.{Follows, parse_dirent-Follows}
use newtua_core.Wim.Fields.Written.{header_bytes, entry_bytes, parse_lookup_table-written}
use newtua_core.Base.{
  equal, length, replicate, All, ℕ, ◌-◌, ◌^◌, ◌≡◌, refl, Bool, true, false, Option, none, some,
  List, [], ◌∷◌, ◌++◌, map, arith,
}
use newtua_core.Base.Bytes.{Bytes, to_le}
use newtua_core.Archive.{Entry}
use newtua_core.Datetime.{filetime_to_systime}
use newtua_core.Base.Utf16.{encode_utf8, from_utf16}
use newtua_core.PathSafety.Paths.{needs_separator, push}
use newtua_core.Error.{corrupt, Result, ok, stuck, Ensures}
use newtua_core.Error.Run.{Run, done, failed, panicked}
use newtua_core.Wim.Fields.{
  magic, xpress, ResourceHeader, parse_resource_header, is_metadata, is_compressed, compressor_of,
  parts_of, parse_header, lookup_entries, parse_lookup_table,
}
use newtua_core.Wim.Chunks.{Codecs, entry_width, decode_chunked_resource, read_resource}
use newtua_core.Wim.Chunks.Written.{Chunk, contents, IsCoded, verbatim, coded}
use newtua_core.Wim.Chunks.Reading.{read_resource-written}
use newtua_core.Wim.Chunks.RoundTrip.{resource_of}
use newtua_core.Wim.Dentry.{
  decode_utf16le, RawDentry, tag_unix_data, mode_loop, unix_mode_from_tagged_items,
  security_block_len, name_at, mode_between, dirent_at, parse_dirent,
}
use newtua_core.Wim.Dentry.Items.{Item, items_bytes, unix_mode_from_tagged_items-written}
use newtua_core.Wim.Tree.{
  Lookup, find_hash, Listed, zero_hash, body_of, entry_of, walk_children, build_dir_tree,
}

-- A codec that repeats the first byte of a chunk, and two that refuse every chunk.
abbrev repeated : Bytes → ℕ → Option Bytes
repeated [] n = none
repeated (b ∷ bs) n = some (replicate n b)

abbrev codecs : Codecs
codecs = record { xpress_chunk = repeated; lzx_chunk = λ bs n. none; lzms_chunk = λ bs n. none }

-- Three chunks of three, three and two bytes: one is stored as it is.
abbrev chunks : List Chunk
chunks = (7 ∷ [], 7 ∷ 7 ∷ 7 ∷ []) ∷ (1 ∷ 2 ∷ 3 ∷ [], 1 ∷ 2 ∷ 3 ∷ []) ∷ (9 ∷ [], 9 ∷ 9 ∷ []) ∷ []

abbrev resource : ResourceHeader
resource = record { size_on_disk = 13; flags = 4; offset = 2; original_size = 8 }

chunks-IsCoded : All (IsCoded codecs xpress) chunks
chunks-IsCoded = (coded refl refl, (verbatim refl, (coded refl refl, tt)))

read_resource-written_example :
    read_resource codecs (0 ∷ 0 ∷ (resource_of chunks ++ 5 ∷ [])) 3 (some xpress) resource
    ≡ done (contents chunks)
read_resource-written_example =
    read_resource-written codecs xpress 3 2 (omega arith) (omega arith) (0 ∷ 0 ∷ []) (5 ∷ [])
      resource chunks refl refl refl (unfold is_compressed in refl) (refl, (refl, refl))
      chunks-IsCoded (omega arith) (λ e. absurd (omega arith)) (omega arith)

-- One byte below 4 GiB the table is read with eight bytes to a place.
width_at_limit : entry_width 0xffff_ffff ≡ 8
width_at_limit = refl

-- A chunk size of 0 in a header whose resource is compressed and not empty.
zero_chunk_size : decode_chunked_resource codecs (7 ∷ []) 0 3 xpress ≡ panicked
unfolding decode_chunked_resource
zero_chunk_size = refl

no_compressor :
    read_resource codecs
      (7 ∷ [])
      3
      none
      (record { size_on_disk = 1; flags = 4; offset = 0; original_size = 3 })
    ≡ failed (corrupt "wim: resource is COMPRESSED but the header has no compressor")
unfolding read_resource is_compressed
no_compressor = refl

abbrev items : List Item
items = (1, 5 ∷ []) ∷ (tag_unix_data, replicate 8 0 ++ (0xed ∷ 0x81 ∷ 0 ∷ 0 ∷ replicate 4 0)) ∷ []

unix_mode_from_tagged_items-written_example :
    unix_mode_from_tagged_items (items_bytes items) ≡ ok (some 0x81ed)
unix_mode_from_tagged_items-written_example =
    unix_mode_from_tagged_items-written items
      ((omega arith, omega arith), ((omega arith, omega arith), tt))

abbrev dentry : ℕ → ℕ → ℕ → Bytes → Bytes → Bytes
dentry len attributes subdir hash name =
    to_le 8 len
    ++ (to_le 4 attributes
        ++ (to_le 4 0
            ++ (to_le 8 subdir
                ++ (replicate 32 0
                    ++ (to_le 8 0
                        ++ (hash
                            ++ (replicate 16 0
                                ++ (to_le 2 (length name) ++ (name ++ (0 ∷ 0 ∷ []))))))))))

abbrev hash_one : Bytes
hash_one = replicate 20 1

-- The root, a directory `d` in it with a file `f`, and an empty file `e` behind the directory.
abbrev image : Bytes
image =
    to_le 8 0
    ++ (dentry 104 16 120 zero_hash []
        ++ (to_le 8 0
            ++ (dentry 112 16 352 zero_hash (b'd' ∷ 0 ∷ [])
                ++ (replicate 6 0
                    ++ (dentry 112 0 0 zero_hash (b'e' ∷ 0 ∷ [])
                        ++ (replicate 6 0
                            ++ (to_le 8 0
                                ++ (dentry 112 0 0 hash_one (b'f' ∷ 0 ∷ [])
                                    ++ (replicate 6 0 ++ to_le 8 0)))))))))

abbrev table : Lookup
table = (hash_one, resource) ∷ []

names_of : Result Listed → List Bytes
names_of (ok (es, bs)) = map (λ (e : Entry). e.path) es
names_of _ = []

image_names :
    names_of (build_dir_tree image table 5)
    ≡ (b'd' ∷ []) ∷ (b'd' ∷ b'/' ∷ b'f' ∷ []) ∷ (b'e' ∷ []) ∷ []
unfolding names_of build_dir_tree walk_children parse_dirent dirent_at name_at mode_between
    security_block_len decode_utf16le body_of find_hash entry_of unix_mode_from_tagged_items
    mode_loop from_utf16 equal push encode_utf8 needs_separator filetime_to_systime
image_names = refl

abbrev listed_of : Result Listed → Listed
listed_of (ok listed) = listed
listed_of _ = ([], [])

build_dir_tree-listing_example :
    (t : Siblings) × IsRooted image table t
    × (listed_of (build_dir_tree image table 5) ≡ listing [] t)
unfolding build_dir_tree walk_children parse_dirent dirent_at name_at mode_between
    security_block_len decode_utf16le body_of find_hash entry_of unix_mode_from_tagged_items
    mode_loop from_utf16 equal push encode_utf8 needs_separator filetime_to_systime
build_dir_tree-listing_example =
    build_dir_tree-listing image table 5 (listed_of (build_dir_tree image table 5)) refl

abbrev plain_dentry : Bool → ℕ → Bytes → Bytes → RawDentry
plain_dentry is_dir subdir hash name = record {
  is_dir = is_dir;
  subdir_offset = subdir;
  modified = none;
  mode = none;
  hash = hash;
  name = name;
}

abbrev tree : Siblings
tree =
    entry (plain_dentry true 352 zero_hash (b'd' ∷ [])) none
      (entry (plain_dentry false 0 hash_one (b'f' ∷ [])) (some resource) last last)
      (entry (plain_dentry false 0 zero_hash (b'e' ∷ [])) none last last)

tree-IsRooted : IsRooted image table tree
unfolding build_dir_tree walk_children parse_dirent dirent_at name_at mode_between
    security_block_len decode_utf16le body_of find_hash entry_of unix_mode_from_tagged_items
    mode_loop from_utf16 equal push encode_utf8 needs_separator filetime_to_systime
tree-IsRooted =
    rooted {sec = 8} {next = 112} {d = plain_dentry true 120 zero_hash []} refl refl refl (
      stored_entry {next = 232} refl refl refl
        (stored_leaf {next = 464} refl refl refl (stored_last refl))
        (stored_leaf {next = 344} refl refl refl (stored_last refl)))

build_dir_tree-IsRooted_example : build_dir_tree image table 3 ≡ ok (listing [] tree)
build_dir_tree-IsRooted_example =
    build_dir_tree-IsRooted image table 3 tree (omega arith) tree-IsRooted

parse_dirent-Follows_example : Ensures (Follows image 120) (parse_dirent image 120)
parse_dirent-Follows_example = parse_dirent-Follows image 120

-- A directory that is said to hold the list it stands in.
abbrev ring : Bytes
ring = to_le 8 0 ++ dentry 112 16 8 zero_hash (b'd' ∷ 0 ∷ []) ++ replicate 6 0

ring_unended : walk_children ring [] 1000 8 [] ≡ stuck
unfolding parse_dirent dirent_at name_at mode_between decode_utf16le body_of
    unix_mode_from_tagged_items mode_loop from_utf16 equal encode_utf8 filetime_to_systime
ring_unended =
    walk_children_self ring [] 1000 8 120 [] (plain_dentry true 8 zero_hash (b'd' ∷ [])) none refl
      refl refl refl

-- A length whose multiple of eight is 2^64 leads to the entry itself again.
abbrev wrapped : Bytes
wrapped = dentry (2 ^ 64 - 7) 0 0 zero_hash (b'e' ∷ 0 ∷ []) ++ replicate 6 0

wrapped_next : parse_dirent wrapped 0 ≡ ok (some (plain_dentry false 0 zero_hash (b'e' ∷ []), 0))
unfolding parse_dirent dirent_at name_at mode_between decode_utf16le unix_mode_from_tagged_items
    mode_loop from_utf16 equal encode_utf8 filetime_to_systime
wrapped_next = refl

abbrev place : ℕ → ℕ → ℕ → ℕ → ResourceHeader
place size flags off original = record {
  size_on_disk = size;
  flags = flags;
  offset = off;
  original_size = original;
}

abbrev file : Bytes
file =
    magic
    ++ (replicate 8 0
        ++ (to_le 4 0x20002
            ++ (to_le 4 3
                ++ (replicate 16 0
                    ++ (to_le 2 1
                        ++ (to_le 2 1
                            ++ (to_le 4 1
                                ++ (header_bytes (place 100 0 208 100)
                                    ++ (replicate 136 0
                                        ++ (header_bytes (place 472 2 308 472)
                                            ++ (replicate 26 0
                                                ++ (header_bytes (place 13 4 780 8)
                                                    ++ (replicate 6 0
                                                        ++ (hash_one
                                                            ++ (image
                                                            ++ resource_of chunks)))))))))))))))

abbrev opened_of : Run WimReader → WimReader
opened_of (done reader) = reader
opened_of _ = record { inner = []; chunk_size = 0; compressor = none; entries = []; bodies = [] }

open_wim-read_entry_example :
    Reads codecs
      (opened_of (open_wim codecs file 5))
      1
      (read_entry codecs (opened_of (open_wim codecs file 5)) 1)
unfolding open_wim parse_header parse_resource_header is_metadata is_compressed compressor_of
    parts_of lookup_entries parse_lookup_table read_resource sort_entries build_dir_tree
    walk_children parse_dirent dirent_at name_at mode_between security_block_len decode_utf16le
    body_of find_hash entry_of unix_mode_from_tagged_items mode_loop from_utf16 equal push
    encode_utf8 needs_separator filetime_to_systime
open_wim-read_entry_example =
    open_wim-read_entry codecs file 5 (opened_of (open_wim codecs file 5)) 1 refl

parse_lookup_table-written_example :
    parse_lookup_table
      (entry_bytes (replicate 6 0) (record { resource = resource; hash = hash_one }) ++ [])
    ≡ ok (record { resource = resource; hash = hash_one } ∷ [])
parse_lookup_table-written_example =
    parse_lookup_table-written
      ((replicate 6 0, record { resource = resource; hash = hash_one }) ∷ [])
      ((refl, refl, (omega arith, omega arith, omega arith, omega arith)), tt)
