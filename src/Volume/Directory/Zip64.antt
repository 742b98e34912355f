-- ===== src/Volume/Directory/Zip64.antt =====
-- The zip64 field of a directory record in src/volume.rs: what is written there is read back.
use newtua_core.Base.LittleEndian.{from_le-to_le}
use newtua_core.Base.{
  length, length-append, ℕ, ◌+◌, ◌^◌, ◌<◌, ◌≡◌, refl, sym, ap, ◌∙◌, Bool, true, false, Option, none,
  some, [], ◌++◌, append_assoc, arith,
}
use newtua_core.Base.Slices.{slice?-append}
use newtua_core.Base.Bytes.{Bytes, to_le, length-to_le}
use newtua_core.Error.{ok}
use newtua_core.Volume.Fields.{
  le_u32, le_u64, Zip64Extra, wanted_u64, wanted_u32, parse_zip64_extra,
}
use newtua_core.Volume.Directory.{le_bytes}

abbrev pub wanted : Option ℕ → Bool
wanted none = false
wanted (some v) = true

abbrev pub Fits : ℕ → Option ℕ → Type 0
Fits n none = Unit
Fits n (some v) = v < 256 ^ n

wanted_u64-written :
    (o : Option ℕ) (p : ℕ) (front more : Bytes)
    → length front ≡ p
    → Fits 8 o
    → wanted_u64 (wanted o) (front ++ (le_bytes 8 o ++ more)) p ≡ ok (o, p + length (le_bytes 8 o))
unfolding wanted_u64 le_u64
wanted_u64-written none p front more e h = ap (λ q. ok (none, q)) (omega arith)
wanted_u64-written (some v) p front more e h =
    rw (slice?-append 8 p front (to_le 8 v) more e (length-to_le 8 v), from_le-to_le 8 v h) refl

wanted_u32-written :
    (o : Option ℕ) (p : ℕ) (front more : Bytes)
    → length front ≡ p
    → Fits 4 o
    → wanted_u32 (wanted o) (front ++ (le_bytes 4 o ++ more)) p ≡ ok o
unfolding wanted_u32 le_u32
wanted_u32-written none p front more e h = refl
wanted_u32-written (some v) p front more e h =
    rw (slice?-append 4 p front (to_le 4 v) more e (length-to_le 4 v), from_le-to_le 4 v h) refl

-- A zip64 field as the format has it: the values that the classic fields do not hold, in a fixed
-- order, and whatever follows them.
abbrev pub zip64_written : Zip64Extra → Bytes → Bytes
zip64_written z more =
    le_bytes 8 z.usize ++ (le_bytes 8 z.csize ++ (le_bytes 8 z.lho ++ (le_bytes 4 z.disk ++ more)))

abbrev pub Zip64Fits : Zip64Extra → Type 0
Zip64Fits z = Fits 8 z.usize × Fits 8 z.csize × Fits 8 z.lho × Fits 4 z.disk

parse_zip64_extra-fields :
    (z : Zip64Extra) (bytes : Bytes) (p₁ p₂ p₃ : ℕ)
    → wanted_u64 (wanted z.usize) bytes 0 ≡ ok (z.usize, p₁)
    → wanted_u64 (wanted z.csize) bytes p₁ ≡ ok (z.csize, p₂)
    → wanted_u64 (wanted z.lho) bytes p₂ ≡ ok (z.lho, p₃)
    → wanted_u32 (wanted z.disk) bytes p₃ ≡ ok z.disk
    → parse_zip64_extra bytes (wanted z.usize) (wanted z.csize) (wanted z.lho) (wanted z.disk)
      ≡ ok z
unfolding parse_zip64_extra
parse_zip64_extra-fields z bytes p₁ p₂ p₃ a b c d = rw (a, b, c, d) refl

-- The values of a zip64 field, each within its width, are read back from the field by
-- `parse_zip64_extra` when it asks for just those that are there, whatever follows them.
pub parse_zip64_extra-written :
    (z : Zip64Extra) (more : Bytes)
    → Zip64Fits z
    → parse_zip64_extra
        (zip64_written z more)
        (wanted z.usize)
        (wanted z.csize)
        (wanted z.lho)
        (wanted z.disk)
      ≡ ok z
parse_zip64_extra-written z more (hu, hc, hl, hd) =
    let u : Bytes = le_bytes 8 z.usize in
    let c : Bytes = le_bytes 8 z.csize in
    let l : Bytes = le_bytes 8 z.lho in
    parse_zip64_extra-fields z (zip64_written z more) (0 + length u) (0 + length u + length c)
      (0 + length u + length c + length l) (wanted_u64-written z.usize 0 [] _ refl hu)
      (wanted_u64-written z.csize (0 + length u) u _ (omega arith) hc)
      (ap (λ b. wanted_u64 (wanted z.lho) b (0 + length u + length c)) (sym (append_assoc u c _))
        ∙ wanted_u64-written z.lho (0 + length u + length c) (u ++ c) _
            (omega (arith, length-append u c)) hl)
      (ap (λ b. wanted_u32 (wanted z.disk) b (0 + length u + length c + length l))
          (sym (append_assoc u c _) ∙ sym (append_assoc (u ++ c) l _))
        ∙ wanted_u32-written z.disk (0 + length u + length c + length l) ((u ++ c) ++ l) more
            (omega (arith, length-append u c, length-append (u ++ c) l)) hd)
