-- ===== src/Wim/Chunks/Reading.antt =====
-- What `read_resource` of src/format/wim.rs reads of a resource that lies in the file.
use newtua_core.Base.{
  ltb, le→ltb, length, take, drop, All, take-append, drop-append, ℕ, ◌-◌, ◌^◌, ◌≤◌, ◌<◌, ◌≡◌, refl,
  ap, ◌∙◌, ◌≢◌, true, false, Option, some, List, ◌++◌, arith,
}
use newtua_core.Base.Bytes.{Bytes}
use newtua_core.Error.Run.{done}
use newtua_core.Wim.Fields.{Compressor, ResourceHeader, is_compressed}
use newtua_core.Wim.Chunks.{Codecs, decode_chunked_resource, read_resource}
use newtua_core.Wim.Chunks.Written.{Chunk, chunk_bytes, contents, AreSized, IsCoded}
use newtua_core.Wim.Chunks.RoundTrip.{place_width, resource_of, decode_chunked_resource-written}

-- A resource that is not compressed and lies inside the file is read as it is.
pub read_resource-plain :
    (codecs : Codecs) (front raw more : Bytes) (rh : ResourceHeader) (chunk_size : ℕ)
    (compressor : Option Compressor)
    → length front ≡ rh.offset
    → length raw ≡ rh.size_on_disk
    → is_compressed rh ≡ false
    → read_resource codecs (front ++ (raw ++ more)) chunk_size compressor rh ≡ done raw
unfolding read_resource
read_resource-plain codecs front raw more rh chunk_size compressor e f c =
    let got : take rh.size_on_disk (drop rh.offset (front ++ (raw ++ more))) ≡ raw =
      ap (λ (bs : Bytes). take rh.size_on_disk bs) (drop-append rh.offset front (raw ++ more) e)
      ∙ take-append rh.size_on_disk raw more f in
    let whole : ltb (length raw) rh.size_on_disk ≡ false = le→ltb _ _ (omega (arith, f)) in
    rw (got, whole, c) refl

-- A compressed one that lies inside the file is decoded.
pub read_resource-coded :
    (codecs : Codecs) (front raw more plain : Bytes) (rh : ResourceHeader) (chunk_size : ℕ)
    (comp : Compressor)
    → length front ≡ rh.offset
    → length raw ≡ rh.size_on_disk
    → is_compressed rh ≡ true
    → decode_chunked_resource codecs raw chunk_size rh.original_size comp ≡ done plain
    → read_resource codecs (front ++ (raw ++ more)) chunk_size (some comp) rh ≡ done plain
unfolding read_resource
read_resource-coded codecs front raw more plain rh chunk_size comp e f c h =
    let got : take rh.size_on_disk (drop rh.offset (front ++ (raw ++ more))) ≡ raw =
      ap (λ (bs : Bytes). take rh.size_on_disk bs) (drop-append rh.offset front (raw ++ more) e)
      ∙ take-append rh.size_on_disk raw more f in
    let whole : ltb (length raw) rh.size_on_disk ≡ false = le→ltb _ _ (omega (arith, f)) in
    rw (got, whole, c, h) refl

module _ (codecs : Codecs) (comp : Compressor) (size final : ℕ) (lo : 1 ≤ final)
    (hi : final ≤ size) where
  -- A compressed resource that lies inside the file, laid out as chunks of the chunk size with a
  -- shorter or equal last one that is not empty, behind a table of their places where there are
  -- several, each chunk stored as it is or coded, is read back as its contents. A place in the
  -- table has four bytes, and eight where the contents have 2^32 bytes or more. The contents are
  -- below 2^60 bytes and are not just 2^32 - 1 bytes long, and the chunks together are shorter
  -- than what a place in the table counts up to, which is 2^32 for four bytes and 2^64 for eight.
  pub read_resource-written :
      (front more : Bytes) (rh : ResourceHeader) (cs : List Chunk)
      → length front ≡ rh.offset
      → length (resource_of cs) ≡ rh.size_on_disk
      → rh.original_size ≡ length (contents cs)
      → is_compressed rh ≡ true
      → AreSized size final cs
      → All (IsCoded codecs comp) cs
      → length (contents cs) < 2 ^ 60
      → length (contents cs) ≢ 2 ^ 32 - 1
      → length (chunk_bytes cs) < 256 ^ place_width (length (contents cs))
      → read_resource codecs (front ++ (resource_of cs ++ more)) size (some comp) rh
        ≡ done (contents cs)
  read_resource-written front more rh cs e f g c l h short other small =
      read_resource-coded codecs front (resource_of cs) more (contents cs) rh size comp e f c (
        ap (λ (n : ℕ). decode_chunked_resource codecs (resource_of cs) size n comp) g
        ∙ decode_chunked_resource-written codecs comp size final lo hi cs l h short other small)
