-- ===== src/Cpio/Checksum.antt =====
-- The checksum of the crc variant in src/format/cpio.rs.
use newtua_core.Base.{take, ℕ, ◌+◌, ◌%◌, ◌^◌, ◌<◌, ◌≡◌, refl, sym, ◌∙◌, List, [], ◌∷◌, ◌++◌, arith}
use newtua_core.Base.Bytes.{Bytes}
use newtua_core.Cpio.Fields.{sum_from, body_checksum, SummingWriter, summing_write}

-- All the bytes added up, with no bound.
abbrev pub total : Bytes → ℕ
total [] = 0
total (b ∷ bs) = b + total bs

pub total-append : (xs ys : Bytes) → total (xs ++ ys) ≡ total xs + total ys
total-append [] ys = omega arith
total-append (x ∷ xs) ys = omega (arith, total-append xs ys)

sum_from-total : (acc : ℕ) (bs : Bytes) → acc < 2 ^ 32 → sum_from acc bs ≡ (acc + total bs) % 2 ^ 32
unfolding sum_from
sum_from-total acc [] h = omega arith
sum_from-total acc (b ∷ bs) h = omega (arith, sum_from-total ((acc + b) % 2 ^ 32) bs (omega arith))

pub body_checksum-total : (bs : Bytes) → body_checksum bs ≡ total bs % 2 ^ 32
unfolding body_checksum
body_checksum-total bs = omega (arith, sum_from-total 0 bs (omega arith))

-- Any sequence of writes: how much of each buffer the sink takes, and the buffers.
abbrev pub write_all : List (ℕ × Bytes) → SummingWriter → SummingWriter
write_all [] w = w
write_all ((n, buf) ∷ writes) w = write_all writes (summing_write n buf w)

write_all-total :
    (writes : List (ℕ × Bytes)) (w : SummingWriter)
    → w.sum ≡ total w.inner % 2 ^ 32
    → (write_all writes w).sum ≡ total (write_all writes w).inner % 2 ^ 32
write_all-total [] w h = h
write_all-total ((n, buf) ∷ writes) w h = write_all-total writes (summing_write n buf w) (
    unfold summing_write in
    omega (arith, h, total-append w.inner (take n buf), body_checksum-total (take n buf)))

abbrev pub fresh : SummingWriter
fresh = record { inner = []; sum = 0 }

-- However a body is cut into writes, short writes included, the sum of a fresh `SummingWriter` is
-- the checksum of exactly the bytes that reached its sink.
pub write_all-body_checksum :
    (writes : List (ℕ × Bytes))
    → (write_all writes fresh).sum ≡ body_checksum (write_all writes fresh).inner
write_all-body_checksum writes =
    write_all-total writes fresh refl ∙ sym (body_checksum-total (write_all writes fresh).inner)
