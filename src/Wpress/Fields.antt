-- ===== src/Wpress/Fields.antt =====
-- src/format/wpress.rs: the fields of a record's header, and the raw path of its entry.
use newtua_core.Base.{
  leb, ◌==◌, if◌then◌else◌, equal, take, drop, ℕ, ◌-◌, Bool, true, false, not, ◌&&◌, ◌||◌, Option,
  none, some, [], ◌∷◌, ◌++◌,
}
use newtua_core.Base.Bytes.{Bytes}
use newtua_core.Cpio.Fields.{checked_push, trim_end}

abbrev pub name_len : ℕ
name_len = 255

abbrev pub size_len : ℕ
size_len = 14

abbrev pub mtime_len : ℕ
mtime_len = 12

abbrev pub prefix_len : ℕ
prefix_len = 4096

abbrev pub header_len : ℕ
header_len = 4377

abbrev pub size_off : ℕ
size_off = 255

abbrev pub mtime_off : ℕ
mtime_off = 269

abbrev pub prefix_off : ℕ
prefix_off = 281

unfoldable pub all_zero : Bytes → Bool
all_zero [] = true
all_zero (b ∷ bs) = b == 0 && all_zero bs

abbrev pub cons_text : ℕ → Option Bytes → Option Bytes
cons_text b none = none
cons_text b (some t) = some (b ∷ t)

-- The text up to the first NUL, behind which nothing but NULs may stand.
unfoldable pub text_field : Bytes → Option Bytes
text_field [] = some []
text_field (b ∷ bs) =
    let rest = cons_text b (text_field bs) in
    if b == 0 then (if all_zero bs then some [] else none) else rest

abbrev pub is_ascii_whitespace : ℕ → Bool
is_ascii_whitespace b = b == b' ' || (b == 9 || (b == 10 || (b == 12 || b == 13)))

abbrev pub keep_end : ℕ → Bytes → Bytes
keep_end b [] = if is_ascii_whitespace b then [] else b ∷ []
keep_end b (t ∷ ts) = b ∷ t ∷ ts

unfoldable pub trim_ascii_end : Bytes → Bytes
trim_ascii_end [] = []
trim_ascii_end (b ∷ bs) = keep_end b (trim_ascii_end bs)

abbrev pub is_ascii_digit : ℕ → Bool
is_ascii_digit b = leb b'0' b && leb b b'9'

unfoldable pub all_digits : Bytes → Bool
all_digits [] = true
all_digits (b ∷ bs) = is_ascii_digit b && all_digits bs

abbrev pub and_then {ℓ κ} : {A : Type ℓ} {B : Type κ} → Option A → (A → Option B) → Option B
and_then none f = none
and_then (some a) f = f a

-- `parse::<u64>` on digits
unfoldable pub parse_u64 : Bytes → ℕ → Option ℕ
parse_u64 [] value = some value
parse_u64 (b ∷ bs) value = and_then (checked_push 10 value (b - b'0')) λ value'. parse_u64 bs value'

abbrev pub digits_value : Bytes → Option (Option ℕ)
digits_value [] = some none
digits_value (b ∷ bs) =
    if not (all_digits (b ∷ bs))
    then none
    else and_then (parse_u64 (b ∷ bs) 0) λ value. some (some value)

unfoldable pub decimal_field : Bytes → Option (Option ℕ)
decimal_field field = and_then (text_field field) λ text. digits_value (trim_ascii_end text)

pub record RawHeader : Type 0 where
  pub name : Bytes
  pub prefix : Bytes
  pub size : ℕ
  pub mtime : Option ℕ

unfoldable pub has_byte : ℕ → Bytes → Bool
has_byte c [] = false
has_byte c (b ∷ bs) = b == c || has_byte c bs

abbrev pub span_of : Bytes → ℕ → ℕ → Bytes
span_of block off len = take len (drop off block)

abbrev pub size_or_zero : Option ℕ → ℕ
size_or_zero none = 0
size_or_zero (some n) = n

unfoldable pub parse_header : Bytes → Option RawHeader
parse_header block = and_then (text_field (span_of block 0 name_len)) λ name.
    if equal name [] || (has_byte b'/' name || has_byte b'\\' name)
    then none
    else (and_then (decimal_field (span_of block size_off size_len)) λ size.
        and_then (decimal_field (span_of block mtime_off mtime_len)) λ mtime.
          and_then (text_field (span_of block prefix_off prefix_len)) λ prefix.
            some (record { name = name; prefix = prefix; size = size_or_zero size; mtime = mtime }))

-- `while let Some(rest) = p.strip_prefix("./")`
unfoldable pub strip_dots : Bytes → Bytes
strip_dots (a ∷ b ∷ p) =
    let rest = strip_dots p in if a == b'.' && b == b'/' then rest else a ∷ b ∷ p
strip_dots p = p

abbrev pub without_dot : Bytes → Bytes
without_dot p = if equal p (b'.' ∷ []) then [] else p

abbrev pub under : Bytes → Bytes → Bytes
under [] name = name
under (b ∷ p) name = (b ∷ p) ++ b'/' ∷ name

unfoldable pub join_raw : Bytes → Bytes → Bytes
join_raw prefix name = under (trim_end b'/' (without_dot (strip_dots prefix))) name
