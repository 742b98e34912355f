-- ===== src/Wim/Chunks.antt =====
-- src/format/wim.rs: reading a resource, with the codecs of `newtua_mscompress` as a parameter.
pub mod Written
pub mod RoundTrip
pub mod Reading
use newtua_core.Base.{
  ltb, leb, ◌==◌, if◌then◌else◌, length, take, drop, ℕ, zero, suc, ◌+◌, ◌-◌, ◌*◌, ◌/◌, ◌%◌, ◌^◌,
  String, not, ◌||◌, Option, none, some, List, [], ◌∷◌, ◌++◌,
}
use newtua_core.Base.Bytes.{Bytes, u64_mod, from_le}
use newtua_core.Error.{unexpected_eof, corrupt, io_err_to_corrupt}
use newtua_core.Error.Run.{Run, done, failed, panicked, ◌>>=◌}
use newtua_core.Wim.Fields.{Compressor, xpress, lzx, lzms, ResourceHeader, is_compressed}

-- `decompress_chunk` of each codec, on a chunk and the length of its content.
pub record Codecs : Type 0 where
  pub xpress_chunk : Bytes → ℕ → Option Bytes
  pub lzx_chunk : Bytes → ℕ → Option Bytes
  pub lzms_chunk : Bytes → ℕ → Option Bytes

abbrev pub or_failed : String → Option Bytes → Run Bytes
or_failed what none = failed (corrupt what)
or_failed what (some out) = done out

-- `Vec::with_capacity` panics for more bytes than an `isize` counts.
abbrev pub isize_limit : ℕ
isize_limit = 2 ^ 63

-- `a.div_ceil(b)`, where `b` is not 0.
abbrev pub div_ceil : ℕ → ℕ → ℕ
div_ceil a b = a / b + (if a % b == 0 then 0 else 1)

abbrev pub u32_limit : ℕ
u32_limit = 0xffff_ffff

abbrev pub entry_width : ℕ → ℕ
entry_width original_size = if ltb original_size u32_limit then 4 else 8

-- `n` entries of the table.
unfoldable pub table_entries : ℕ → ℕ → Bytes → List ℕ
table_entries width zero raw = []
table_entries width (suc n) raw = from_le (take width raw) ∷ table_entries width n (drop width raw)

-- The length of the content of the last chunk.
abbrev pub last_len : ℕ → ℕ → ℕ
last_len chunk_size original_size =
    let rem : ℕ = original_size % chunk_size in if rem == 0 then chunk_size else rem

module _ (codecs : Codecs) where
  abbrev pub run_codec : Compressor → Bytes → ℕ → Run Bytes
  run_codec xpress chunk n = or_failed "wim: xpress chunk decode" (codecs.xpress_chunk chunk n)
  run_codec lzx chunk n = or_failed "wim: lzx chunk decode" (codecs.lzx_chunk chunk n)
  run_codec lzms chunk n = or_failed "wim: lzms chunk decode" (codecs.lzms_chunk chunk n)

  unfoldable pub decode_one_chunk : Compressor → Bytes → ℕ → Run Bytes
  decode_one_chunk compressor chunk n =
      if length chunk == n then done chunk else run_codec compressor chunk n

  -- The chunks that end at the given places, from the chunk `i` on, which begins at `start`.
  unfoldable pub chunk_loop : Compressor → ℕ → ℕ → ℕ → Bytes → ℕ → ℕ → List ℕ → Run Bytes
  chunk_loop compressor num_chunks chunk_size original_size body i start [] = done []
  chunk_loop compressor num_chunks chunk_size original_size body i start (end ∷ ends) =
      let rest = chunk_loop compressor num_chunks chunk_size original_size body (suc i) end ends in
      if ltb end start || ltb (length body) end
      then failed (corrupt "wim: bad chunk offset table entry")
      else decode_one_chunk compressor (take (end - start) (drop start body))
          (if suc i == num_chunks then last_len chunk_size original_size else chunk_size)
        >>= λ plain. rest >>= λ more. done (plain ++ more)

  -- More than one chunk: the table, and the chunks behind it.
  unfoldable pub decode_chunks : Compressor → ℕ → ℕ → ℕ → Bytes → Run Bytes
  decode_chunks compressor num_chunks chunk_size original_size raw =
      let table_len : ℕ = (num_chunks - 1) * entry_width original_size % u64_mod in
      let body : Bytes = drop table_len raw in
      if ltb (length raw) table_len
      then failed (corrupt "wim: resource shorter than its chunk offset table")
      else if leb isize_limit (num_chunks * 8) || leb isize_limit original_size
      then panicked
      else chunk_loop compressor num_chunks chunk_size original_size body 0 0
          (table_entries (entry_width original_size) (num_chunks - 1) raw ++ length body ∷ [])

  -- A division by 0 panics.
  unfoldable pub decode_chunked_resource : Bytes → ℕ → ℕ → Compressor → Run Bytes
  decode_chunked_resource raw chunk_size original_size compressor =
      if original_size == 0
      then done []
      else if chunk_size == 0
      then panicked
      else (let num_chunks : ℕ = div_ceil original_size chunk_size in
          if leb num_chunks 1
          then decode_one_chunk compressor raw original_size
          else decode_chunks compressor num_chunks chunk_size original_size raw)

  abbrev pub with_codec : ResourceHeader → ℕ → Bytes → Option Compressor → Run Bytes
  with_codec rh chunk_size raw none =
      failed (corrupt "wim: resource is COMPRESSED but the header has no compressor")
  with_codec rh chunk_size raw (some compressor) =
      decode_chunked_resource raw chunk_size rh.original_size compressor

  -- The source is the bytes of the file; an allocation is taken to succeed.
  unfoldable pub read_resource : Bytes → ℕ → Option Compressor → ResourceHeader → Run Bytes
  read_resource file chunk_size header_compressor rh =
      let raw : Bytes = take rh.size_on_disk (drop rh.offset file) in
      if ltb (length raw) rh.size_on_disk
      then failed (io_err_to_corrupt unexpected_eof)
      else if not (is_compressed rh)
      then done raw
      else with_codec rh chunk_size raw header_compressor
