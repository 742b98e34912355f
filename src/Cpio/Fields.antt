-- ===== src/Cpio/Fields.antt =====
-- src/format/cpio.rs: constants, numbers in header fields, padding, the checksum.
use newtua_core.Base.{
  ltb, leb, ◌==◌, if◌then◌else◌, equal, take, drop, ℕ, ◌+◌, ◌-◌, ◌*◌, ◌%◌, ◌^◌, String, Bool, true,
  false, ◌&&◌, ◌||◌, Option, none, some, [], ◌∷◌, ◌++◌,
}
use newtua_core.Base.Bytes.{Bytes, u64_mod}
use newtua_core.Error.{corrupt, Result, ok, err}

abbrev pub s_ifmt : ℕ
s_ifmt = 0o170000

abbrev pub s_iflnk : ℕ
s_iflnk = 0o120000

abbrev pub s_ifdir : ℕ
s_ifdir = 0o040000

abbrev pub s_ifreg : ℕ
s_ifreg = 0o100000

-- "070701", "070702" and "070707"
abbrev pub magic_newc : Bytes
magic_newc = b'0' ∷ b'7' ∷ b'0' ∷ b'7' ∷ b'0' ∷ b'1' ∷ []

abbrev pub magic_crc : Bytes
magic_crc = b'0' ∷ b'7' ∷ b'0' ∷ b'7' ∷ b'0' ∷ b'2' ∷ []

abbrev pub magic_odc : Bytes
magic_odc = b'0' ∷ b'7' ∷ b'0' ∷ b'7' ∷ b'0' ∷ b'7' ∷ []

abbrev pub magic_len : ℕ
magic_len = 6

-- "TRAILER!!!"
abbrev pub trailer_name : Bytes
trailer_name = b'T' ∷ b'R' ∷ b'A' ∷ b'I' ∷ b'L' ∷ b'E' ∷ b'R' ∷ b'!' ∷ b'!' ∷ b'!' ∷ []

unfoldable pub is_supported_magic : Bytes → Bool
is_supported_magic magic = equal magic magic_newc || equal magic magic_crc || equal magic magic_odc

pub data NewcVariant : Type 0 where
  newc crc : NewcVariant

abbrev pub variant_magic : NewcVariant → Bytes
variant_magic newc = magic_newc
variant_magic crc = magic_crc

-- A field of a header: where it begins, and its length.
abbrev pub Span : Type 0
Span = ℕ × ℕ

abbrev pub newc_header_len : ℕ
newc_header_len = 110

abbrev pub newc_mode : Span
newc_mode = (14, 8)

abbrev pub newc_mtime : Span
newc_mtime = (46, 8)

abbrev pub newc_filesize : Span
newc_filesize = (54, 8)

abbrev pub newc_namesize : Span
newc_namesize = (94, 8)

abbrev pub newc_check : Span
newc_check = (102, 8)

abbrev pub odc_header_len : ℕ
odc_header_len = 76

abbrev pub odc_mode : Span
odc_mode = (18, 6)

abbrev pub odc_mtime : Span
odc_mtime = (48, 11)

abbrev pub odc_namesize : Span
odc_namesize = (59, 6)

abbrev pub odc_filesize : Span
odc_filesize = (65, 11)

-- What a byte of a field is to the parser.
pub data Class : Type 0 where
  digit : ℕ → Class
  padding bad : Class

abbrev within : ℕ → ℕ → ℕ → Bool
within lo hi b = leb lo b && leb b hi

unfoldable pub hex_class : ℕ → Class
hex_class b =
    if within b'0' b'9' b
    then digit (b - b'0')
    else if within b'a' b'f' b
    then digit (b - b'a' + 10)
    else if within b'A' b'F' b
    then digit (b - b'A' + 10)
    else if b == b' ' || b == 0
    then padding
    else bad

unfoldable pub octal_class : ℕ → Class
octal_class b =
    if within b'0' b'7' b then digit (b - b'0') else if b == b' ' || b == 0 then padding else bad

-- `value.checked_mul(base)?.checked_add(digit)?` on u64
unfoldable pub checked_push : ℕ → ℕ → ℕ → Option ℕ
checked_push base value d =
    if ltb (value * base) u64_mod
    then if ltb (value * base + d) u64_mod then some (value * base + d) else none
    else none

-- The loop of `parse_hex` and of `parse_octal`, which differ in their base and their digits.
unfoldable pub digits_loop : (ℕ → Class) → ℕ → Bytes → ℕ → Bool → Option ℕ
digits_loop class base [] value seen = if seen then some value else none
digits_loop class base (b ∷ field) value seen = elim (class b) [
  | digit d ↦ elim (checked_push base value d) [
    | none ↦ none
    | some value' ↦ digits_loop class base field value' true
  ]
  | padding ↦ elim seen [ true ↦ some value | false ↦ digits_loop class base field value false ]
  | bad ↦ none
]

unfoldable pub parse_hex : Bytes → Option ℕ
unfolding digits_loop hex_class checked_push
parse_hex field = digits_loop hex_class 16 field 0 false

unfoldable pub parse_octal : Bytes → Option ℕ
unfolding digits_loop octal_class checked_push
parse_octal field = digits_loop octal_class 8 field 0 false

abbrev pub or_corrupt {ℓ} : {A : Type ℓ} → Option A → String → Result A
or_corrupt none what = err (corrupt what)
or_corrupt (some a) what = ok a

-- `&header[off..off + len]`; the spans lie inside the header.
abbrev pub field_at : Bytes → Span → Bytes
field_at header span = take span.1 (drop span.0 header)

unfoldable pub newc_field : Bytes → Span → Result ℕ
newc_field header span = or_corrupt (parse_hex (field_at header span)) "cpio newc: bad hex in field"

unfoldable pub odc_field : Bytes → Span → Result ℕ
odc_field header span =
    or_corrupt (parse_octal (field_at header span)) "cpio odc: bad octal in field"

unfoldable pub pad4 : ℕ → ℕ
pad4 len = (4 - len % 4) % 4

-- `pos.checked_add(n)` on u64, held against the length of the file.
unfoldable pub advance : ℕ → ℕ → ℕ → Result ℕ
advance pos n file_len =
    if ltb (pos + n) u64_mod && leb (pos + n) file_len
    then ok (pos + n)
    else err (corrupt "cpio: a length runs past the end of the file")

-- One byte in front of text whose end is trimmed.
abbrev keep_unless : ℕ → ℕ → Bytes → Bytes
keep_unless c b [] = if b == c then [] else b ∷ []
keep_unless c b (t ∷ ts) = b ∷ t ∷ ts

-- The bytes without the trailing ones that are `c`.
unfoldable pub trim_end : ℕ → Bytes → Bytes
trim_end c [] = []
trim_end c (b ∷ bs) = keep_unless c b (trim_end c bs)

unfoldable pub trim_nuls : Bytes → Bytes
unfolding trim_end
trim_nuls = trim_end 0

-- `fold` with `wrapping_add` on u32
unfoldable pub sum_from : ℕ → Bytes → ℕ
sum_from acc [] = acc
sum_from acc (b ∷ bs) = sum_from ((acc + b) % 2 ^ 32) bs

unfoldable pub body_checksum : Bytes → ℕ
unfolding sum_from
body_checksum bytes = sum_from 0 bytes

-- A `SummingWriter`: what its sink has taken, and the sum.
pub record SummingWriter : Type 0 where
  pub inner : Bytes
  pub sum : ℕ

-- One `write`: the sink takes the first `n` bytes of the buffer.
unfoldable pub summing_write : ℕ → Bytes → SummingWriter → SummingWriter
summing_write n buf w = record {
  inner = w.inner ++ take n buf;
  sum = (w.sum + body_checksum (take n buf)) % 2 ^ 32;
}
