-- ===== src/Dmg/Image.antt =====
-- src/format/dmg.rs: the raw image that the chunks are put together to.
use newtua_core.Base.{
  ltb, leb, ◌==◌, if◌then◌else◌, length, take, drop, replicate, ℕ, ◌+◌, ◌-◌, ◌*◌, Bool, ◌&&◌, ◌||◌,
  List, [], ◌∷◌, ◌++◌,
}
use newtua_core.Base.Bytes.{Bytes, u64_mod}
use newtua_core.Error.{Error, corrupt, Result, ok, err, ◌>>=◌, ◌>>◌, guard}
use newtua_core.Dmg.Adc.{adc_decode}
use newtua_core.Dmg.Fields.{Koly, ChunkEntry, Mish, parse_mish}

abbrev pub sector_size : ℕ
sector_size = 512

abbrev pub entry_zero_fill : ℕ
entry_zero_fill = 0x0000_0000

abbrev pub entry_raw : ℕ
entry_raw = 0x0000_0001

abbrev pub entry_ignore : ℕ
entry_ignore = 0x0000_0002

abbrev pub entry_adc : ℕ
entry_adc = 0x8000_0004

abbrev pub entry_zlib : ℕ
entry_zlib = 0x8000_0005

abbrev pub entry_bzip2 : ℕ
entry_bzip2 = 0x8000_0006

abbrev pub entry_lzfse : ℕ
entry_lzfse = 0x8000_0007

abbrev pub entry_lzma : ℕ
entry_lzma = 0x8000_0008

abbrev pub entry_comment : ℕ
entry_comment = 0x7fff_fffe

abbrev pub entry_terminator : ℕ
entry_terminator = 0xffff_ffff

-- The decoders of whole chunks that are not the crate's own.
pub record Decoders : Type 0 where
  pub zlib : Bytes → Result Bytes
  pub bzip2 : Bytes → Result Bytes
  pub lzma : Bytes → Result Bytes
  pub lzfse : Bytes → Result Bytes

abbrev pub checked_u64 : ℕ → Error → Result ℕ
checked_u64 n e = if ltb n u64_mod then ok n else err e

abbrev pub read_plist_bytes : Bytes → Koly → Result Bytes
read_plist_bytes file koly =
    if ltb (koly.xml_offset + koly.xml_length) u64_mod
      && leb (koly.xml_offset + koly.xml_length) (length file)
    then ok (take koly.xml_length (drop koly.xml_offset file))
    else err (corrupt "dmg: plist offset/length out of range")

abbrev pub is_skipped_type : ℕ → Bool
is_skipped_type t =
    t == entry_zero_fill || (t == entry_ignore || (t == entry_comment || t == entry_terminator))

-- A write at a place of the file; the gap behind its end is filled with zeros.
unfoldable pub write_at : ℕ → Bytes → Bytes → Bytes
write_at off b file =
    if length b == 0
    then file
    else take off file ++ (replicate (off - length file) 0 ++ (b ++ drop (off + length b) file))

module _ (decoders : Decoders) where
  unfoldable pub decode_by_type : ℕ → Bytes → ℕ → Result Bytes
  decode_by_type entry_type comp out_len =
      if entry_type == entry_raw
      then ok comp
      else if entry_type == entry_zlib
      then decoders.zlib comp
      else if entry_type == entry_bzip2
      then decoders.bzip2 comp
      else if entry_type == entry_lzma
      then decoders.lzma comp
      else if entry_type == entry_lzfse
      then decoders.lzfse comp
      else if entry_type == entry_adc
      then adc_decode comp out_len
      else err (corrupt "dmg: unknown chunk type")

  unfoldable pub decode_chunk : ℕ → Bytes → ℕ → Result Bytes
  decode_chunk entry_type comp out_len = do
    out ← decode_by_type entry_type comp out_len
    guard (length out == out_len) (corrupt "dmg: chunk decoded to a wrong number of bytes")
    ok out

  -- The place of a chunk in the file and in the image, and its decoded bytes, written there.
  unfoldable pub write_decoded : Bytes → Koly → Mish → ChunkEntry → Bytes → Result Bytes
  write_decoded file koly mish chunk tmp = do
    sector ←
        checked_u64 (mish.sector_number + chunk.sector_number)
          (corrupt "dmg: chunk output offset overflow")
    out_offset ← checked_u64 (sector * sector_size) (corrupt "dmg: chunk output offset overflow")
    out_len ←
        checked_u64 (chunk.sector_count * sector_size) (corrupt "dmg: chunk output size overflow")
    fork ←
        checked_u64 (koly.data_fork_offset + mish.data_offset)
          (corrupt "dmg: chunk offset overflow")
    file_pos ← checked_u64 (fork + chunk.compressed_offset) (corrupt "dmg: chunk offset overflow")
    end ← checked_u64 (file_pos + chunk.compressed_length) (corrupt "dmg: chunk data out of range")
    guard (leb end (length file)) (corrupt "dmg: chunk data out of range")
    decoded ←
        decode_chunk chunk.entry_type (take chunk.compressed_length (drop file_pos file)) out_len
    ok (write_at out_offset decoded tmp)

  unfoldable pub write_chunk : Bytes → Koly → Mish → ChunkEntry → Bytes → Result Bytes
  write_chunk file koly mish chunk tmp =
      if is_skipped_type chunk.entry_type then ok tmp else write_decoded file koly mish chunk tmp

  unfoldable pub write_chunks : Bytes → Koly → Mish → List ChunkEntry → Bytes → Result Bytes
  write_chunks file koly mish [] tmp = ok tmp
  write_chunks file koly mish (c ∷ cs) tmp =
      write_chunk file koly mish c tmp >>= write_chunks file koly mish cs

  unfoldable pub write_mishes : Bytes → Koly → List Mish → Bytes → Result Bytes
  write_mishes file koly [] tmp = ok tmp
  write_mishes file koly (m ∷ ms) tmp =
      write_chunks file koly m m.chunks tmp >>= write_mishes file koly ms

  -- The blocks in their order, and the end of the last of their sectors.
  unfoldable pub parse_mishes : List Bytes → ℕ → Result (List Mish × ℕ)
  parse_mishes [] total = ok ([], total)
  parse_mishes (b ∷ bs) total = do
    mish ← parse_mish b
    end ←
        checked_u64 (mish.sector_number + mish.sector_count)
          (corrupt "dmg: mish sector range overflow")
    (ms, total') ← parse_mishes bs (if ltb total end then end else total)
    ok (mish ∷ ms, total')

  module _ (parse_plist_blkx : Bytes → Result (List Bytes)) where
    unfoldable pub build_raw_image : Bytes → Koly → Result Bytes
    build_raw_image file koly = do
      plist_bytes ← read_plist_bytes file koly
      blkx_entries ← parse_plist_blkx plist_bytes
      (mishes, total_sectors) ← parse_mishes blkx_entries 0
      total_bytes ←
          checked_u64 (total_sectors * sector_size) (corrupt "dmg: raw image size overflow")
      write_mishes file koly mishes (replicate total_bytes 0)
