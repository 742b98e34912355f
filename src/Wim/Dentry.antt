-- ===== src/Wim/Dentry.antt =====
-- src/format/wim.rs: the directory entries of a metadata resource.
pub mod Items
pub mod Ends
use newtua_core.Base.{
  ltb, leb, ◌==◌, if◌then◌else◌, length, take, drop, ℕ, zero, suc, ◌+◌, ◌-◌, ◌*◌, ◌/◌, ◌%◌, max,
  Bool, not, ◌&&◌, ◌||◌, Option, none, some, List, [], ◌∷◌,
}
use newtua_core.Base.Bytes.{Bytes, u64_mod, slice?}
use newtua_core.Base.Utf16.{from_utf16}
use newtua_core.Datetime.{SystemTime, filetime_to_systime}
use newtua_core.Error.{corrupt, Result, ok, err, stuck, ◌>>=◌}
use newtua_core.Wim.Fields.{le_at, has_flag}

-- The numbers of 16 bits that a text of even length holds.
abbrev pub units : Bytes → List ℕ
units [] = []
units (a ∷ []) = []
units (a ∷ b ∷ bs) = (a + 256 * b) ∷ units bs

abbrev pub name_or_corrupt : Option Bytes → Result Bytes
name_or_corrupt none = err (corrupt "wim: invalid UTF-16 name")
name_or_corrupt (some s) = ok s

unfoldable pub decode_utf16le : Bytes → Result Bytes
decode_utf16le b =
    if not (length b % 2 == 0)
    then err (corrupt "wim: odd-length UTF-16LE name")
    else name_or_corrupt (from_utf16 (units b))

abbrev pub file_attribute_directory : ℕ
file_attribute_directory = 0x10

abbrev pub direntry_fixed_len : ℕ
direntry_fixed_len = 0x66

pub record RawDentry : Type 0 where
  pub is_dir : Bool
  pub subdir_offset : ℕ
  pub modified : Option SystemTime
  pub mode : Option ℕ
  pub hash : Bytes
  pub name : Bytes

abbrev pub tag_unix_data : ℕ
tag_unix_data = 0x337d_d873

abbrev pub unix_data_len : ℕ
unix_data_len = 16

-- `n.next_multiple_of(8)`, which is `n.div_ceil(8) * 8`.
abbrev pub round_up : ℕ → ℕ
round_up n = (n + 7) / 8 * 8

-- An item at `at`: the mode that it states, or a scan behind it.
abbrev pub mode_item : (ℕ → Result (Option ℕ)) → Bytes → ℕ → Option Bytes → Result (Option ℕ)
mode_item next items at none = ok none
mode_item next items at (some item) =
    if le_at 4 items at == tag_unix_data && leb unix_data_len (length item)
    then ok (some (le_at 4 item 8))
    else next (at + max (round_up (8 + length item)) 8)

unfoldable pub mode_loop : Bytes → ℕ → ℕ → Result (Option ℕ)
mode_loop items zero at = stuck
mode_loop items (suc fuel) at =
    if ltb (length items) (at + 8)
    then ok none
    else mode_item (mode_loop items fuel) items at (slice? items (at + 8) (le_at 4 items (at + 4)))

-- Each round passes eight bytes, so a round per byte is enough.
unfoldable pub unix_mode_from_tagged_items : Bytes → Result (Option ℕ)
unix_mode_from_tagged_items items = mode_loop items (suc (length items)) 0

unfoldable pub security_block_len : Bytes → Result ℕ
security_block_len meta =
    if ltb (length meta) 8
    then err (corrupt "wim: metadata resource too small for a security block")
    else (let len : ℕ = round_up (max (le_at 4 meta 0) 8) in
        if ltb (length meta) len
        then err (corrupt "wim: security block longer than the metadata resource")
        else ok len)

-- A name of `n` bytes at `start`.
unfoldable pub name_at : Bytes → ℕ → ℕ → Result Bytes
name_at meta start n =
    if n == 0
    then ok []
    else if ltb (length meta) (start + n)
    then err (corrupt "wim: dirent file name runs past the metadata resource")
    else decode_utf16le (take n (drop start meta))

-- A name with its terminator; an empty one has none.
abbrev pub name_room : ℕ → ℕ
name_room n = if n == 0 then 0 else n + 2

-- Where the tagged items begin.
abbrev pub items_at : ℕ → ℕ → ℕ → ℕ
items_at off name_nbytes short_nbytes =
    off + round_up (direntry_fixed_len + name_room name_nbytes + name_room short_nbytes)

-- `meta.get(items_at..next)`, which is `None` also where the range is reversed.
unfoldable pub mode_between : Bytes → ℕ → ℕ → Result (Option ℕ)
mode_between meta at next =
    if leb at next && leb next (length meta)
    then unix_mode_from_tagged_items (take (next - at) (drop at meta))
    else ok none

-- The entry whose room in the resource has been checked.
unfoldable pub dirent_at : Bytes → ℕ → ℕ → Result (RawDentry × ℕ)
dirent_at meta off next = do
  name ← name_at meta (off + direntry_fixed_len) (le_at 2 meta (off + 0x64))
  mode ←
      mode_between meta (items_at off (le_at 2 meta (off + 0x64)) (le_at 2 meta (off + 0x62))) next
  ok (
    record {
      is_dir = has_flag (le_at 4 meta (off + 8)) file_attribute_directory;
      subdir_offset = le_at 8 meta (off + 16);
      modified = filetime_to_systime (le_at 8 meta (off + 0x38));
      mode = mode;
      hash = take 20 (drop (off + 0x40) meta);
      name = name;
    },
    next,
  )

abbrev pub mark_some : Result (RawDentry × ℕ) → Result (Option (RawDentry × ℕ))
mark_some (ok d) = ok (some d)
mark_some (err e) = err e
mark_some stuck = stuck

-- `length.div_ceil(8) * 8` in 64 bits, as a build without overflow checks computes it.
abbrev pub aligned_length : ℕ → ℕ
aligned_length len = round_up len % u64_mod

unfoldable pub parse_dirent : Bytes → ℕ → Result (Option (RawDentry × ℕ))
parse_dirent meta off =
    if leb u64_mod (off + 8) || ltb (length meta) (off + 8)
    then err (corrupt "wim: dirent Length field runs past the metadata resource")
    else if leb (le_at 8 meta off) 8
    then ok none
    else (let next : ℕ = off + aligned_length (le_at 8 meta off) in
        if leb u64_mod next || ltb (length meta) next
        then err (corrupt "wim: dirent Length runs past the metadata resource")
        else if ltb (length meta) (off + direntry_fixed_len)
        then err (corrupt "wim: dirent shorter than its fixed-size prefix")
        else mark_some (dirent_at meta off next))
