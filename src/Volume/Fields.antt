-- ===== src/Volume/Fields.antt =====
-- src/volume.rs: numbers in zip structures, the extra area of a directory record, and the fields of
-- the rewritten end record.
pub mod Laws
use newtua_core.Base.{
  leb, ◌==◌, if◌then◌else◌, length, take, drop, ℕ, zero, suc, ◌+◌, ◌*◌, max, String, Bool, true,
  false, not, ◌&&◌, ◌||◌, Option, none, some, [], ◌∷◌, ◌++◌,
}
use newtua_core.Base.Bytes.{Bytes, u16_max, u32_max, slice?, from_le}
use newtua_core.Error.{Error, unsupported, corrupt, Result, ok, err, ◌>>=◌}

abbrev pub eocd_sig : Bytes
eocd_sig = b'P' ∷ b'K' ∷ 0x05 ∷ 0x06 ∷ []

abbrev pub eocd64_sig : Bytes
eocd64_sig = b'P' ∷ b'K' ∷ 0x06 ∷ 0x06 ∷ []

abbrev pub locator_sig : Bytes
locator_sig = b'P' ∷ b'K' ∷ 0x06 ∷ 0x07 ∷ []

abbrev pub cd_sig : Bytes
cd_sig = b'P' ∷ b'K' ∷ 0x01 ∷ 0x02 ∷ []

abbrev pub zip64_extra_id : ℕ
zip64_extra_id = 0x0001

abbrev pub max_cd_record : ℕ
max_cd_record = 46 + 3 * 0xffff

abbrev pub zip_unsupported : String → Error
zip_unsupported feature = unsupported "zip" feature

abbrev pub le_or_corrupt : Option Bytes → Result ℕ
le_or_corrupt none = err (corrupt "unexpected end of zip structure")
le_or_corrupt (some b) = ok (from_le b)

unfoldable pub le_u16 : Bytes → ℕ → Result ℕ
le_u16 buf off = le_or_corrupt (slice? buf off 2)

unfoldable pub le_u32 : Bytes → ℕ → Result ℕ
le_u32 buf off = le_or_corrupt (slice? buf off 4)

unfoldable pub le_u64 : Bytes → ℕ → Result ℕ
le_u64 buf off = le_or_corrupt (slice? buf off 8)

-- `buf[off..off + n].copy_from_slice(bytes)`
abbrev pub splice : Bytes → ℕ → Bytes → Bytes
splice buf off bytes = take off buf ++ (bytes ++ drop (off + length bytes) buf)

-- `eocd16` and `eocd32`, which differ in their placeholder and their message.
unfoldable pub eocd_field : ℕ → String → ℕ → ℕ → Bool → Result ℕ
eocd_field max message orig value has_zip64 =
    if orig == max || leb max value
    then (if not (orig == max) && not has_zip64 then err (zip_unsupported message) else ok max)
    else ok value

abbrev pub eocd16 : ℕ → ℕ → Bool → Result ℕ
eocd16 =
    eocd_field u16_max "joined split archive has 65535 or more entries but carries no zip64 record"

abbrev pub eocd32 : ℕ → ℕ → Bool → Result ℕ
eocd32 = eocd_field u32_max "joined split archive exceeds 4 GiB but carries no zip64 record"

-- The zip64 field's data if there is one, and all the other fields as they are.
abbrev pub Extra : Type 0
Extra = Option Bytes × Bytes

-- The loop of `split_extra` over what is left of the area. A field is 4 bytes at least, so the
-- length of the area is fuel enough.
unfoldable pub split_loop : ℕ → Bytes → Option Bytes → Bytes → Extra
split_loop zero extra zip64 rest = (zip64, rest ++ extra)
split_loop (suc fuel) extra zip64 rest =
    let id : ℕ = from_le (take 2 extra) in
    let len : ℕ = from_le (take 2 (drop 2 extra)) in
    let more : Bytes = drop (4 + len) extra in
    let taken = split_loop fuel more (some (take len (drop 4 extra))) rest in
    let passed = split_loop fuel more zip64 (rest ++ take (4 + len) extra) in
    if leb 4 (length extra) && leb (4 + len) (length extra)
    then (if id == zip64_extra_id then taken else passed)
    else (zip64, rest ++ extra)

unfoldable pub split_extra : Bytes → Extra
split_extra extra = split_loop (length extra) extra none []

pub record Zip64Extra : Type 0 where
  pub usize : Option ℕ
  pub csize : Option ℕ
  pub lho : Option ℕ
  pub disk : Option ℕ

-- An optional field of 8 bytes at `p`, and the place behind it.
unfoldable pub wanted_u64 : Bool → Bytes → ℕ → Result (Option ℕ × ℕ)
wanted_u64 true bytes p = do v ← le_u64 bytes p; ok (some v, p + 8)
wanted_u64 false bytes p = ok (none, p)

unfoldable pub wanted_u32 : Bool → Bytes → ℕ → Result (Option ℕ)
wanted_u32 true bytes p = do v ← le_u32 bytes p; ok (some v)
wanted_u32 false bytes p = ok none

unfoldable pub parse_zip64_extra : Bytes → Bool → Bool → Bool → Bool → Result Zip64Extra
parse_zip64_extra bytes want_usize want_csize want_lho want_disk = do
  (usize, p₁) ← wanted_u64 want_usize bytes 0
  (csize, p₂) ← wanted_u64 want_csize bytes p₁
  (lho, p₃) ← wanted_u64 want_lho bytes p₂
  disk ← wanted_u32 want_disk bytes p₃
  ok (record { usize = usize; csize = csize; lho = lho; disk = disk })
