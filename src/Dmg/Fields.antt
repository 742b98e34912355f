-- ===== src/Dmg/Fields.antt =====
-- src/format/dmg.rs: the koly trailer and the mish blocks.
pub mod Written
use newtua_core.Base.{
  ltb, ◌==◌, if◌then◌else◌, length, take, drop, ℕ, zero, suc, ◌+◌, ◌-◌, ◌*◌, Bool, true, false, not,
  List, [], ◌∷◌,
}
use newtua_core.Base.Bytes.{Bytes, from_be}
use newtua_core.Error.{unknown_format, corrupt, Result, ok, err}

-- The slices lie inside the buffers.
abbrev pub be_u32 : Bytes → ℕ → ℕ
be_u32 b off = from_be (take 4 (drop off b))

abbrev pub be_u64 : Bytes → ℕ → ℕ
be_u64 b off = from_be (take 8 (drop off b))

abbrev pub koly_signature : ℕ
koly_signature = 0x6b6f6c79

abbrev pub koly_size : ℕ
koly_size = 512

pub record Koly : Type 0 where
  pub data_fork_offset : ℕ
  pub xml_offset : ℕ
  pub xml_length : ℕ

unfoldable pub parse_koly : Bytes → Result Koly
parse_koly buf =
    if not (be_u32 buf 0x00 == koly_signature)
    then err unknown_format
    else ok (record {
      data_fork_offset = be_u64 buf 0x18;
      xml_offset = be_u64 buf 0xd8;
      xml_length = be_u64 buf 0xe0;
    })

unfoldable pub read_koly : Bytes → Result Koly
read_koly file =
    if ltb (length file) koly_size
    then err unknown_format
    else parse_koly (drop (length file - koly_size) file)

abbrev pub is_ok {ℓ} : {A : Type ℓ} → Result A → Bool
is_ok (ok _) = true
is_ok _ = false

unfoldable pub has_koly_trailer : Bytes → Bool
has_koly_trailer file = is_ok (read_koly file)

abbrev pub mish_signature : ℕ
mish_signature = 0x6d697368

abbrev pub mish_chunk_count_offset : ℕ
mish_chunk_count_offset = 0xc8

abbrev pub mish_chunks_offset : ℕ
mish_chunks_offset = 0xcc

abbrev pub chunk_entry_size : ℕ
chunk_entry_size = 40

pub record ChunkEntry : Type 0 where
  pub entry_type : ℕ
  pub sector_number : ℕ
  pub sector_count : ℕ
  pub compressed_offset : ℕ
  pub compressed_length : ℕ

pub record Mish : Type 0 where
  pub sector_number : ℕ
  pub sector_count : ℕ
  pub data_offset : ℕ
  pub chunks : List ChunkEntry

abbrev pub chunk_at : Bytes → ℕ → ChunkEntry
chunk_at bytes off = record {
  entry_type = be_u32 bytes off;
  sector_number = be_u64 bytes (off + 8);
  sector_count = be_u64 bytes (off + 16);
  compressed_offset = be_u64 bytes (off + 24);
  compressed_length = be_u64 bytes (off + 32);
}

-- `left` chunks of the table, from the place `off` on.
unfoldable pub chunks_from : Bytes → ℕ → ℕ → List ChunkEntry
chunks_from bytes off zero = []
chunks_from bytes off (suc left) =
    chunk_at bytes off ∷ chunks_from bytes (off + chunk_entry_size) left

unfoldable pub parse_mish : Bytes → Result Mish
parse_mish bytes =
    if ltb (length bytes) mish_chunks_offset
    then err (corrupt "dmg: mish block truncated (header)")
    else if not (be_u32 bytes 0x00 == mish_signature)
    then err (corrupt "dmg: bad mish signature")
    else (let num_chunks : ℕ = be_u32 bytes mish_chunk_count_offset in
        if ltb (length bytes) (mish_chunks_offset + num_chunks * chunk_entry_size)
        then err (corrupt "dmg: mish block truncated (chunk table)")
        else ok (record {
          sector_number = be_u64 bytes 0x08;
          sector_count = be_u64 bytes 0x10;
          data_offset = be_u64 bytes 0x18;
          chunks = chunks_from bytes mish_chunks_offset num_chunks;
        }))
