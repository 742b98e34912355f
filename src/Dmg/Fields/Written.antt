-- ===== src/Dmg/Fields/Written.antt =====
-- Mish blocks written out, for the parser of src/format/dmg.rs.
use newtua_core.Error.{ok}
use newtua_core.Base.BigEndian.{from_be-to_be}
use newtua_core.Base.{
  ltb, le→ltb, length, take, drop, All, length-append, drop-append, ℕ, zero, suc, ◌+◌, ◌*◌, ◌^◌,
  ◌<◌, ◌≡◌, refl, sym, ap, ◌∙◌, false, List, [], ◌∷◌, ◌++◌, append_assoc, arith,
}
use newtua_core.Base.Bytes.{Bytes, to_be, from_be}
use newtua_core.Dmg.Fields.{
  be_u32, be_u64, mish_signature, ChunkEntry, Mish, chunk_at, chunks_from, parse_mish,
}

abbrev pub chunk_written : ChunkEntry → Bytes
chunk_written c =
    to_be 4 c.entry_type
    ++ (to_be 4 0
        ++ (to_be 8 c.sector_number
            ++ (to_be 8 c.sector_count
                ++ (to_be 8 c.compressed_offset ++ to_be 8 c.compressed_length))))

abbrev pub chunks_written : List ChunkEntry → Bytes
chunks_written [] = []
chunks_written (c ∷ cs) = chunk_written c ++ chunks_written cs

-- The header, of which 168 bytes are not read.
abbrev pub header_written : Mish → Bytes → Bytes
header_written m unread =
    to_be 4 mish_signature
    ++ (to_be 4 1
        ++ (to_be 8 m.sector_number
            ++ (to_be 8 m.sector_count
                ++ (to_be 8 m.data_offset ++ (unread ++ to_be 4 (length m.chunks))))))

abbrev pub mish_written : Mish → Bytes → Bytes
mish_written m unread = header_written m unread ++ chunks_written m.chunks

-- The fields fit their widths.
abbrev pub FitsChunk : ChunkEntry → Type 0
FitsChunk c =
    (c.entry_type < 2 ^ 32)
    × (c.sector_number < 2 ^ 64)
    × (c.sector_count < 2 ^ 64)
    × (c.compressed_offset < 2 ^ 64)
    × (c.compressed_length < 2 ^ 64)

abbrev pub FitsMish : Mish → Type 0
FitsMish m =
    (m.sector_number < 2 ^ 64)
    × (m.sector_count < 2 ^ 64)
    × (m.data_offset < 2 ^ 64)
    × (length m.chunks < 2 ^ 32)
    × All FitsChunk m.chunks

drop-past :
    (k off : ℕ) (front rest : Bytes)
    → length front ≡ off
    → drop (off + k) (front ++ rest) ≡ drop k rest
drop-past k zero [] rest e = let same : 0 + k ≡ k = omega arith in ap (λ n. drop n rest) same
drop-past k zero (x ∷ front) rest e = absurd (omega arith)
drop-past k (suc off) [] rest e = absurd (omega arith)
drop-past k (suc off) (x ∷ front) rest e =
    let same : suc off + k ≡ suc (off + k) = omega arith in
    ap (λ n. drop n (x ∷ front ++ rest)) same ∙ drop-past k off front rest (omega arith)

chunk_at-written :
    (off : ℕ) (front rest : Bytes) (c : ChunkEntry)
    → length front ≡ off
    → FitsChunk c
    → chunk_at (front ++ (chunk_written c ++ rest)) off ≡ c
chunk_at-written off front rest c e (f, g, h, i, j) =
    let at = λ (k : ℕ). drop-past k off front (chunk_written c ++ rest) e in
    rw
      (
        drop-append off front (chunk_written c ++ rest) e,
        at 8,
        at 16,
        at 24,
        at 32,
        from_be-to_be 4 c.entry_type f,
        from_be-to_be 8 c.sector_number g,
        from_be-to_be 8 c.sector_count h,
        from_be-to_be 8 c.compressed_offset i,
        from_be-to_be 8 c.compressed_length j,
      )
      refl

chunks_from-written :
    (off : ℕ) (front : Bytes) (cs : List ChunkEntry)
    → length front ≡ off
    → All FitsChunk cs
    → chunks_from (front ++ chunks_written cs) off (length cs) ≡ cs
unfolding chunks_from
chunks_from-written off front [] e fits = refl
chunks_from-written off front (c ∷ cs) e fits =
    let later : chunks_from (front ++ (chunk_written c ++ chunks_written cs)) (off + 40) (length cs)
        ≡ cs =
      ap (λ b. chunks_from b (off + 40) (length cs))
        (sym (append_assoc front (chunk_written c) (chunks_written cs)))
      ∙ chunks_from-written (off + 40) (front ++ chunk_written c) cs
          (omega (arith, length-append front (chunk_written c))) fits.1 in
    rw (chunk_at-written off front (chunks_written cs) c e fits.0, later) refl

length-chunks_written : (cs : List ChunkEntry) → length (chunks_written cs) ≡ length cs * 40
length-chunks_written [] = omega arith
length-chunks_written (c ∷ cs) =
    omega (arith, length-append (chunk_written c) (chunks_written cs), length-chunks_written cs)

parse_mish-fields :
    (bytes : Bytes) (m : Mish)
    → be_u32 bytes 0 ≡ mish_signature
    → length bytes ≡ 204 + length m.chunks * 40
    → be_u32 bytes 0xc8 ≡ length m.chunks
    → be_u64 bytes 8 ≡ m.sector_number
    → be_u64 bytes 16 ≡ m.sector_count
    → be_u64 bytes 24 ≡ m.data_offset
    → chunks_from bytes 204 (length m.chunks) ≡ m.chunks
    → parse_mish bytes ≡ ok m
unfolding parse_mish
parse_mish-fields bytes m sig whole count f g h cs =
    let short : ltb (length bytes) 204 ≡ false = le→ltb _ _ (omega (arith, whole)) in
    let table : ltb (length bytes) (204 + length m.chunks * 40) ≡ false =
      le→ltb _ _ (omega (arith, whole)) in
    rw (short, sig, count, table, f, g, h, cs) refl

-- A block whose fields fit their widths, written out with any 168 bytes in the part that is not
-- read, is read back by `parse_mish` with all its chunks.
pub parse_mish-written :
    (m : Mish) (unread : Bytes)
    → FitsMish m
    → length unread ≡ 168
    → parse_mish (mish_written m unread) ≡ ok m
parse_mish-written m unread (f, g, h, i, all) u =
    let cs = chunks_written m.chunks in
    let bytes = mish_written m unread in
    let head : length (header_written m unread) ≡ 204 =
      omega (arith, u, length-append unread (to_be 4 (length m.chunks))) in
    let whole : length bytes ≡ 204 + length m.chunks * 40 =
      omega
        (arith, head, length-append (header_written m unread) cs, length-chunks_written m.chunks) in
    let count : be_u32 bytes 0xc8 ≡ length m.chunks =
      ap (λ b. from_be (take 4 (drop 168 b))) (append_assoc unread (to_be 4 (length m.chunks)) cs)
      ∙ ap (λ b. from_be (take 4 b)) (drop-append 168 unread (to_be 4 (length m.chunks) ++ cs) u)
      ∙ from_be-to_be 4 (length m.chunks) i in
    parse_mish-fields bytes m refl whole count (from_be-to_be 8 m.sector_number f)
      (from_be-to_be 8 m.sector_count g) (from_be-to_be 8 m.data_offset h)
      (chunks_from-written 204 (header_written m unread) m.chunks head all)
