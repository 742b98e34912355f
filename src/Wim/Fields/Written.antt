-- ===== src/Wim/Fields/Written.antt =====
-- Numbers and headers as a writer lays them out, for src/format/wim.rs.
use newtua_core.Error.{ok}
use newtua_core.Base.{
  ltb, ◌==◌, le→ltb, ==_iff, length, take, drop, All, length-append, take-append, drop-append, ℕ,
  suc, ◌+◌, ◌*◌, ◌/◌, ◌%◌, ◌^◌, ◌<◌, ◌≡◌, refl, sym, ap, ◌∙◌, true, false, List, [], ◌∷◌, ◌++◌,
  append-nil, append_assoc, arith,
}
use newtua_core.Base.Bytes.{Bytes, from_le, to_le, length-to_le}
use newtua_core.Base.LittleEndian.{from_le-to_le}
use newtua_core.Wim.Fields.{
  ResourceHeader, le_at, parse_resource_header, LookupEntry, lookup_entries, parse_lookup_table,
}

-- The bytes of a field behind what stands in front of it.
pub le_at-append :
    (n k : ℕ) (front w more : Bytes)
    → length front ≡ k
    → length w ≡ n
    → le_at n (front ++ (w ++ more)) k ≡ from_le w
le_at-append n k front w more e f =
    rw (drop-append k front (w ++ more) e, take-append n w more f) refl

pub le_at-to_le :
    (n k v : ℕ) (front more : Bytes)
    → length front ≡ k
    → v < 256 ^ n
    → le_at n (front ++ (to_le n v ++ more)) k ≡ v
le_at-to_le n k v front more e h =
    le_at-append n k front (to_le n v) more e (length-to_le n v) ∙ from_le-to_le n v h

-- A resource header, and an entry of the lookup table with the numbers of its part and its
-- references, which the reader passes over.
abbrev pub header_bytes : ResourceHeader → Bytes
header_bytes rh =
    to_le 8 (rh.size_on_disk + rh.flags * 2 ^ 56)
    ++ (to_le 8 rh.offset ++ (to_le 8 rh.original_size))

abbrev pub Fits : ResourceHeader → Type 0
Fits rh =
    (rh.size_on_disk < 2 ^ 56)
    × (rh.flags < 256)
    × (rh.offset < 2 ^ 64)
    × (rh.original_size < 2 ^ 64)

-- What the reader passes over: six bytes.
abbrev pub entry_bytes : Bytes → LookupEntry → Bytes
entry_bytes gap e = header_bytes e.resource ++ (gap ++ e.hash)

length-header_bytes : (rh : ResourceHeader) → length (header_bytes rh) ≡ 24
length-header_bytes rh = refl

resource_header_at-fields :
    (a b c : Bytes) (rh : ResourceHeader)
    → length a ≡ 8
    → length b ≡ 8
    → length c ≡ 8
    → from_le a ≡ rh.size_on_disk + rh.flags * 2 ^ 56
    → from_le b ≡ rh.offset
    → from_le c ≡ rh.original_size
    → rh.size_on_disk < 2 ^ 56
    → rh.flags < 256
    → parse_resource_header (a ++ (b ++ c)) ≡ ok rh
unfolding parse_resource_header
resource_header_at-fields a b c rh k l m e f g s t =
    let long : ltb (length (a ++ (b ++ c))) 24 ≡ false =
      le→ltb _ _ (omega (arith, k, l, m, length-append a (b ++ c), length-append b c)) in
    let first : le_at 8 (a ++ (b ++ c)) 0 ≡ rh.size_on_disk + rh.flags * 2 ^ 56 =
      le_at-append 8 0 [] a (b ++ c) refl k ∙ e in
    let second : le_at 8 (a ++ (b ++ c)) 8 ≡ rh.offset = le_at-append 8 8 a b c k l ∙ f in
    let third : le_at 8 (a ++ (b ++ c)) 16 ≡ rh.original_size =
      ap (λ (bs : Bytes). le_at 8 bs 16)
        (sym (append_assoc a b c) ∙ ap (λ (x : Bytes). (a ++ b) ++ x) (sym (append-nil c)))
      ∙ le_at-append 8 16 (a ++ b) c [] (omega (arith, k, l, length-append a b)) m
      ∙ g in
    let low : (rh.size_on_disk + rh.flags * 2 ^ 56) % 2 ^ 56 ≡ rh.size_on_disk = omega (arith, s) in
    let high : (rh.size_on_disk + rh.flags * 2 ^ 56) / 2 ^ 56 % 256 ≡ rh.flags =
      omega (arith, s, t) in
    rw (long, first, second, third, low, high) refl

pub parse_resource_header-written :
    (rh : ResourceHeader) → Fits rh → parse_resource_header (header_bytes rh) ≡ ok rh
parse_resource_header-written rh (s, t, o, n) =
    resource_header_at-fields (to_le 8 (rh.size_on_disk + rh.flags * 2 ^ 56)) (to_le 8 rh.offset)
      (to_le 8 rh.original_size) rh refl refl refl
      (from_le-to_le 8 (rh.size_on_disk + rh.flags * 2 ^ 56) (omega (arith, s, t)))
      (from_le-to_le 8 rh.offset o) (from_le-to_le 8 rh.original_size n) s t

abbrev pub table_bytes : List (Bytes × LookupEntry) → Bytes
table_bytes [] = []
table_bytes ((gap, e) ∷ es) = entry_bytes gap e ++ table_bytes es

abbrev pub entries_of : List (Bytes × LookupEntry) → List LookupEntry
entries_of [] = []
entries_of ((gap, e) ∷ es) = e ∷ entries_of es

abbrev pub FitsEntry : Bytes × LookupEntry → Type 0
FitsEntry (gap, e) = (length gap ≡ 6) × (length e.hash ≡ 20) × Fits e.resource

-- One entry, over the bytes of its parts.
lookup_entries-step :
    (n : ℕ) (h gap rest : Bytes) (e : LookupEntry) (es : List LookupEntry)
    → length h ≡ 24
    → length gap ≡ 6
    → length e.hash ≡ 20
    → parse_resource_header h ≡ ok e.resource
    → lookup_entries n rest ≡ ok es
    → lookup_entries (suc n) ((h ++ (gap ++ e.hash)) ++ rest) ≡ ok (e ∷ es)
unfolding lookup_entries
lookup_entries-step n h gap rest e es k l m p q =
    let flat : (h ++ (gap ++ e.hash)) ++ rest ≡ h ++ (gap ++ (e.hash ++ rest)) =
      append_assoc h (gap ++ e.hash) rest
      ∙ ap (λ (x : Bytes). h ++ x) (append_assoc gap e.hash rest) in
    let whole : length (h ++ (gap ++ e.hash)) ≡ 50 =
      omega (arith, k, l, m, length-append h (gap ++ e.hash), length-append gap e.hash) in
    let a : take 24 ((h ++ (gap ++ e.hash)) ++ rest) ≡ h =
      ap (λ (x : Bytes). take 24 x) flat ∙ take-append 24 h (gap ++ (e.hash ++ rest)) k in
    let b : take 20 (drop 30 ((h ++ (gap ++ e.hash)) ++ rest)) ≡ e.hash =
      ap (λ (x : Bytes). take 20 (drop 30 x)) (flat ∙ sym (append_assoc h gap (e.hash ++ rest)))
      ∙ ap (λ (x : Bytes). take 20 x)
          (drop-append 30 (h ++ gap) (e.hash ++ rest) (omega (arith, k, l, length-append h gap)))
      ∙ take-append 20 e.hash rest m in
    rw (a, b, p, drop-append 50 (h ++ (gap ++ e.hash)) rest whole, q) refl

length-table_bytes :
    (es : List (Bytes × LookupEntry)) → All FitsEntry es → length (table_bytes es) ≡ length es * 50
length-table_bytes [] h = refl
length-table_bytes ((gap, e) ∷ es) ((l, m, f), h) = omega (
  arith,
  l,
  m,
  length-append (entry_bytes gap e) (table_bytes es),
  length-append (header_bytes e.resource) (gap ++ e.hash),
  length-append gap e.hash,
  length-table_bytes es h,
)

lookup_entries-written :
    (es : List (Bytes × LookupEntry))
    → All FitsEntry es
    → lookup_entries (length es) (table_bytes es) ≡ ok (entries_of es)
lookup_entries-written [] h = unfold lookup_entries in refl
lookup_entries-written ((gap, e) ∷ es) ((l, m, f), h) =
    lookup_entries-step (length es) (header_bytes e.resource) gap (table_bytes es) e (entries_of es)
      refl l m (parse_resource_header-written e.resource f) (lookup_entries-written es h)

-- A lookup table of written entries is read as those entries, in their order, where each has a
-- hash of 20 bytes and six bytes in front of it that are passed over, and numbers that fit their
-- fields: a size on disk below 2^56, flags below 256, and an offset and an original size below
-- 2^64.
pub parse_lookup_table-written :
    (es : List (Bytes × LookupEntry))
    → All FitsEntry es
    → parse_lookup_table (table_bytes es) ≡ ok (entries_of es)
unfolding parse_lookup_table
parse_lookup_table-written es h =
    let long : length (table_bytes es) ≡ length es * 50 = length-table_bytes es h in
    let whole : (length (table_bytes es) % 50 == 0) ≡ true = (==_iff _ _).1 (omega (arith, long)) in
    let count : length (table_bytes es) / 50 ≡ length es = omega (arith, long) in
    rw (whole, count) (lookup_entries-written es h)
