-- ===== src/Wim/Chunks/RoundTrip.antt =====
-- What src/format/wim.rs reads from a chunked resource that a writer laid out.
use mathlib.Core.Path.{subst}
use native.Mathlib.Nat.{mul-le-mul_left, mod-eq_of_lt}
use newtua_core.Base.{
  ltb, leb, ◌==◌, if◌then◌else◌, le→ltb, length, All, length-append, take-append, drop-append, ℕ,
  suc, ◌+◌, ◌-◌, ◌*◌, ◌%◌, ◌^◌, ◌≤◌, ◌<◌, ◌≡◌, refl, sym, ap, ◌∙◌, ◌≢◌, false, List, [], ◌∷◌, ◌++◌,
  append-nil, append_assoc, arith,
}
use newtua_core.Base.Bytes.{Bytes, u64_mod, to_le, length-to_le}
use newtua_core.Base.LittleEndian.{from_le-to_le}
use newtua_core.Error.Run.{done}
use newtua_core.Wim.Fields.{Compressor}
use newtua_core.Wim.Chunks.{
  Codecs, isize_limit, div_ceil, entry_width, table_entries, last_len, chunk_loop, decode_chunks,
  decode_chunked_resource,
}
use newtua_core.Wim.Chunks.Written.{
  Chunk, chunk_bytes, contents, inner_ends, AreSized, IsCoded, decode_one_chunk-IsCoded,
  chunk_loop-written, length-contents, div_ceil-sized, last_len-sized,
}

abbrev pub table_of : ℕ → List ℕ → Bytes
table_of width [] = []
table_of width (e ∷ es) = to_le width e ++ table_of width es

-- The bytes of a place in the table: four, and eight from 4 GiB of contents on.
abbrev pub place_width : ℕ → ℕ
place_width total = if leb (2 ^ 32) total then 8 else 4

-- The table, with places of so many bytes, and the chunks.
abbrev resource_with : ℕ → List Chunk → Bytes
resource_with width cs = table_of width (inner_ends 0 cs) ++ chunk_bytes cs

-- The resource of a list of chunks.
abbrev pub resource_of : List Chunk → Bytes
resource_of cs = resource_with (place_width (length (contents cs))) cs

length-table_of : (width : ℕ) (es : List ℕ) → length (table_of width es) ≡ length es * width
length-table_of width [] = omega arith
length-table_of width (e ∷ es) = omega (
  arith,
  length-append (to_le width e) (table_of width es),
  length-to_le width e,
  length-table_of width es,
)

table_entries-table_of :
    (width : ℕ) (es : List ℕ) (rest : Bytes)
    → All (λ e. e < 256 ^ width) es
    → table_entries width (length es) (table_of width es ++ rest) ≡ es
unfolding table_entries
table_entries-table_of width [] rest h = refl
table_entries-table_of width (e ∷ es) rest h =
    let more : Bytes = table_of width es ++ rest in
    rw
      (
        append_assoc (to_le width e) (table_of width es) rest,
        take-append width (to_le width e) more (length-to_le width e),
        drop-append width (to_le width e) more (length-to_le width e),
        from_le-to_le width e h.0,
        table_entries-table_of width es rest h.1,
      )
      refl

length-inner_ends : (s : ℕ) (cs : List Chunk) → length (inner_ends s cs) ≡ length cs - 1
length-inner_ends s [] = refl
length-inner_ends s (x ∷ []) = refl
length-inner_ends s ((c, p) ∷ y ∷ cs) = omega (arith, length-inner_ends (s + length c) (y ∷ cs))

inner_ends_bounds :
    (bound s : ℕ) (cs : List Chunk)
    → s + length (chunk_bytes cs) < bound
    → All (λ e. e < bound) (inner_ends s cs)
inner_ends_bounds bound s [] h = tt
inner_ends_bounds bound s (x ∷ []) h = tt
inner_ends_bounds bound s ((c, p) ∷ y ∷ cs) h =
    let sum : length (chunk_bytes ((c, p) ∷ y ∷ cs)) ≡ length c + length (chunk_bytes (y ∷ cs)) =
      length-append c (chunk_bytes (y ∷ cs)) in
    (omega (arith, sum, h), inner_ends_bounds bound (s + length c) (y ∷ cs) (omega (arith, sum, h)))

entry_width-le : (n : ℕ) → entry_width n ≤ 8
entry_width-le n = ground arith

not_above : (a b : ℕ) → b < a → leb a b ≡ false
not_above a b h = ground arith

module _ (codecs : Codecs) (comp : Compressor) (size final : ℕ) where
  decode_chunks-written :
      (n total : ℕ) (cs : List Chunk)
      → length cs ≡ n
      → last_len size total ≡ final
      → n < 2 ^ 60
      → total < 2 ^ 60
      → length (chunk_bytes cs) < 256 ^ entry_width total
      → AreSized size final cs
      → All (IsCoded codecs comp) cs
      → decode_chunks codecs comp n size total (resource_with (entry_width total) cs)
        ≡ done (contents cs)
  unfolding decode_chunks
  decode_chunks-written n total cs k f few short small l h =
      let w : ℕ = entry_width total in
      let es : List ℕ = inner_ends 0 cs in
      let body : Bytes = chunk_bytes cs in
      let table : Bytes = table_of w es in
      let wide : w ≤ 8 = entry_width-le total in
      let fields : All (λ e. e < 256 ^ w) es =
        inner_ends_bounds (256 ^ w) 0 cs (omega (arith, small)) in
      let count : length es ≡ n - 1 = omega (arith, length-inner_ends 0 cs, k) in
      let room : length table ≡ (n - 1) * w = length-table_of w es ∙ ap (λ m. m * w) count in
      let cap : (n - 1) * w ≤ (n - 1) * 8 = mul-le-mul_left (n - 1) wide in
      let whole : (n - 1) * w % u64_mod ≡ (n - 1) * w = mod-eq_of_lt (omega (arith, few, cap)) in
      let fits : ltb (length (table ++ body)) ((n - 1) * w) ≡ false =
        le→ltb _ _ (omega (arith, room, length-append table body)) in
      let counted : leb isize_limit (n * 8) ≡ false = not_above _ _ (omega (arith, few)) in
      let held : leb isize_limit total ≡ false = not_above _ _ (omega (arith, short)) in
      let entries : table_entries w (n - 1) (table ++ body) ≡ es =
        ap (λ m. table_entries w m (table ++ body)) (sym count)
        ∙ table_entries-table_of w es body fields in
      let looped : chunk_loop codecs comp n size total body 0 0 (es ++ length body ∷ [])
          ≡ done (contents cs) =
        ap (λ m. chunk_loop codecs comp n size total body 0 0 (es ++ m ∷ [])) (omega arith)
        ∙ chunk_loop-written codecs comp n size total [] 0 0 cs refl (omega (arith, k))
            (subst (λ m. AreSized size m cs) (sym f) l) h in
      rw (whole, fits, counted, held, entries, drop-append ((n - 1) * w) table body room, looped)
        refl

ne-zero : (n : ℕ) → 1 ≤ n → (n == 0) ≡ false
ne-zero n h = ground arith

count-le : (k size final : ℕ) → 1 ≤ size → 1 ≤ final → suc k ≤ k * size + final
count-le k size final a b = omega (arith, a, b, mul-le-mul_left k a)

entry_width-place_width : (n : ℕ) → n ≢ 2 ^ 32 - 1 → entry_width n ≡ place_width n
entry_width-place_width n other = ground arith

module _ (codecs : Codecs) (comp : Compressor) (size final : ℕ) (lo : 1 ≤ final)
    (hi : final ≤ size) where
  laid_out_resource :
      (cs : List Chunk)
      → AreSized size final cs
      → All (IsCoded codecs comp) cs
      → length (contents cs) < 2 ^ 60
      → length (chunk_bytes cs) < 256 ^ entry_width (length (contents cs))
      → decode_chunked_resource codecs
          (resource_with (entry_width (length (contents cs))) cs)
          size
          (length (contents cs))
          comp
        ≡ done (contents cs)
  unfolding decode_chunked_resource
  laid_out_resource [] l h short small = absurd l
  laid_out_resource ((c, p) ∷ []) l h short small =
      let total : length (p ++ []) ≡ final = ap length (append-nil p) ∙ l in
      let some_bytes : (final == 0) ≡ false = ground arith in
      let divides : (size == 0) ≡ false = ground arith in
      let one : div_ceil final size ≡ 1 =
        ap (λ m. div_ceil m size) (omega arith) ∙ div_ceil-sized size final 0 lo hi in
      rw (total, some_bytes, divides, one, append-nil c, append-nil p)
        (decode_one_chunk-IsCoded codecs comp c p final l h.0)
  laid_out_resource ((c, p) ∷ y ∷ cs) l h short small =
      let k : ℕ = suc (length cs) in
      let all : List Chunk = (c, p) ∷ y ∷ cs in
      let total : length (contents all) ≡ k * size + final =
        length-contents size final k all refl l in
      let enough : suc k ≤ k * size + final = count-le k size final (omega (arith, lo, hi)) lo in
      let some_bytes : (length (contents all) == 0) ≡ false =
        ne-zero _ (omega (arith, total, lo)) in
      let divides : (size == 0) ≡ false = ne-zero _ (omega (arith, lo, hi)) in
      let many : div_ceil (length (contents all)) size ≡ suc k =
        ap (λ m. div_ceil m size) total ∙ div_ceil-sized size final k lo hi in
      let several : leb (suc k) 1 ≡ false = not_above _ _ (omega arith) in
      rw (some_bytes, divides, many, several)
        (decode_chunks-written codecs comp size final (suc k) (length (contents all)) all refl
          (ap (λ m. last_len size m) total ∙ last_len-sized size final k lo hi)
          (omega (arith, enough, total, short)) short small l h)

  -- A resource whose contents are of the chunk size but for the last, which is shorter or of the
  -- same size, and is not empty, is decoded to the contents one after the other, where each chunk
  -- is stored as it is or is one that the codec turns into its content: with the table of the
  -- places in front of the chunks where there are several, and without one where there is one. The
  -- contents are below 2^60 bytes and not just one byte below 4 GiB, and the chunks together are
  -- shorter than what a place in the table counts up to: 2^32 where the contents are below 4 GiB,
  -- and otherwise 2^64.
  pub decode_chunked_resource-written :
      (cs : List Chunk)
      → AreSized size final cs
      → All (IsCoded codecs comp) cs
      → length (contents cs) < 2 ^ 60
      → length (contents cs) ≢ 2 ^ 32 - 1
      → length (chunk_bytes cs) < 256 ^ place_width (length (contents cs))
      → decode_chunked_resource codecs (resource_of cs) size (length (contents cs)) comp
        ≡ done (contents cs)
  decode_chunked_resource-written cs l h short other small =
      let total : ℕ = length (contents cs) in
      subst
        (λ w.
          length (chunk_bytes cs) < 256 ^ w
          → decode_chunked_resource codecs (resource_with w cs) size total comp
            ≡ done (contents cs))
        (entry_width-place_width total other) (laid_out_resource cs l h short) small
