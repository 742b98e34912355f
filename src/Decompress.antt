-- ===== src/Decompress.antt =====
-- src/decompress.rs: the framing of lzip members.
pub mod Read
pub mod Dictionary
mod Tests
use newtua_core.Base.{
  ltb, leb, ◌==◌, if◌then◌else◌, equal, length, get_or, take, drop, ℕ, zero, suc, ◌-◌, ◌*◌, ◌/◌,
  ◌%◌, ◌^◌, min, Bool, true, false, not, ◌&&◌, [], ◌∷◌, ◌++◌,
}
use newtua_core.Base.Bytes.{Bytes, from_le, to_le}
use newtua_core.Error.{invalid_data, io, Result, ok, err}

-- "LZIP"
abbrev pub lzip_magic : Bytes
lzip_magic = b'L' ∷ b'Z' ∷ b'I' ∷ b'P' ∷ []

abbrev pub lzip_version : ℕ
lzip_version = 1

abbrev pub lzip_header_len : ℕ
lzip_header_len = 6

abbrev pub lzip_trailer_len : ℕ
lzip_trailer_len = 20

abbrev pub lzip_lzma_props : ℕ
lzip_lzma_props = 93

-- The decoder in the state `body` is the crate's own value.
pub data LzipState : Type 0 where
  header body trailer_left done failed : LzipState

-- The input that is not consumed yet, buffered or not, in place of the buffer and its bounds.
pub record LzipReader : Type 0 where
  pub input : Bytes
  pub pending : Bytes
  pub state : LzipState
  pub member_out : ℕ
  pub trailer : Bytes

abbrev pub doubled : ℕ → ℕ → ℕ → ℕ
doubled zero p n = p
doubled (suc fuel) p n = let next = doubled fuel (p * 2) n in if leb n p then p else next

-- `next_power_of_two` on u32, where the result fits it.
unfoldable pub next_power_of_two : ℕ → ℕ
next_power_of_two n = doubled 31 1 n

-- The size of the dictionary, from its coded byte. `>> 5` is `/ 2 ^ 5`.
abbrev pub dictionary : ℕ → ℕ → ℕ
dictionary exponent sixteenths = 2 ^ exponent - 2 ^ exponent / 16 * sixteenths

-- The "alone" header of liblzma.
abbrev pub alone_header : ℕ → Bytes
alone_header dict = lzip_lzma_props ∷ to_le 4 (next_power_of_two dict) ++ to_le 8 (2 ^ 64 - 1)

abbrev pub with_member : LzipReader → ℕ → LzipReader
with_member r dict = record r {
  input = drop lzip_header_len r.input;
  pending = alone_header dict;
  state = body;
  trailer = [];
}

abbrev pub coded_member : LzipReader → ℕ → Result (Bool × LzipReader)
coded_member r coded =
    let exponent : ℕ = coded % 2 ^ 5 in
    if not (leb 12 exponent && leb exponent 29)
    then err (io invalid_data)
    else ok (true, with_member r (dictionary exponent (coded / 2 ^ 5)))

abbrev pub start_on : LzipReader → Bytes → Result (Bool × LzipReader)
start_on r head =
    if length head == 0
    then ok (false, r)
    else if ltb (length head) lzip_header_len
    then err (io invalid_data)
    else if not (equal (take 4 head) lzip_magic)
    then err (io invalid_data)
    else if not (get_or head 4 0 == lzip_version)
    then err (io invalid_data)
    else coded_member r (get_or head 5 0)

-- False where the input ended between members.
unfoldable pub start_member : LzipReader → Result (Bool × LzipReader)
start_member r = start_on r (take lzip_header_len r.input)

-- The trailer grows by the bytes that are buffered, of which there are `avail`.
unfoldable pub advance_trailer : ℕ → LzipReader → Result LzipReader
advance_trailer avail r =
    let n : ℕ = min (lzip_trailer_len - length r.trailer) avail in
    let grown : Bytes = r.trailer ++ take n r.input in
    let r' = record r { input = drop n r.input; trailer = grown } in
    if avail == 0
    then err (io invalid_data)
    else if ltb (length grown) lzip_trailer_len
    then ok (record r' { state = trailer_left })
    else if not (from_le (take 8 (drop 4 grown)) == r.member_out)
    then err (io invalid_data)
    else ok (record r' { state = header })
