-- ===== src/Cpio/Rounds.antt =====
-- Postconditions of the steps from which the walks of src/format/cpio.rs are built.
use newtua_core.Cpio.Walk.{Reader, read_exact, take_exact, check_field, newc_head, odc_head}
use newtua_core.Base.{
  ltb, leb, ◌==◌, Bool-cases, Option-cases, length, take, drop, ℕ, ◌+◌, ◌≤◌, String, ◌≡◌, refl, inl,
  inr, ◌&&◌, Option, none, some, [], ◌∷◌, arith,
}
use newtua_core.Base.Bytes.{Bytes, u64_mod}
use newtua_core.Error.{Ensures, returns, fails, Ensures-bind}
use newtua_core.Cpio.Fields.{
  NewcVariant, newc, crc, Span, newc_mode, newc_mtime, newc_filesize, newc_namesize, newc_check,
  odc_mode, odc_mtime, odc_namesize, odc_filesize, parse_hex, parse_octal, or_corrupt, field_at,
  newc_field, odc_field, advance, trim_end, trim_nuls,
}

pub advance-Ensures :
    (pos n file_len : ℕ) → Ensures (λ e. (e ≡ pos + n) × (e ≤ file_len)) (advance pos n file_len)
unfolding advance
advance-Ensures pos n file_len =
    elim (Bool-cases (ltb (pos + n) u64_mod && leb (pos + n) file_len)) [
      | inl e ↦ rw e (returns (refl, ground arith))
      | inr e ↦ rw e fails
    ]

pub read_exact-Ensures :
    (n : ℕ) (r : Reader)
    → Ensures (λ p. (length p.0 ≡ n) × (p.0 ≡ take n (drop r.at r.bytes))) (read_exact n r)
unfolding read_exact
read_exact-Ensures n r = elim (Bool-cases (length (take n (drop r.at r.bytes)) == n)) [
  | inl e ↦ rw e (returns (ground arith, refl))
  | inr e ↦ rw e fails
]

pub take_exact-Ensures : (n : ℕ) (r : Reader) → Ensures (λ p. length p.0 ≡ n) (take_exact n r)
unfolding take_exact
take_exact-Ensures n r = elim (Bool-cases (length (take n (drop r.at r.bytes)) == n)) [
  | inl e ↦ rw e (returns (ground arith))
  | inr e ↦ rw e fails
]

pub or_corrupt-Ensures :
    (o : Option ℕ) (what : String) → Ensures (λ v. o ≡ some v) (or_corrupt o what)
or_corrupt-Ensures none what = fails
or_corrupt-Ensures (some v) what = returns refl

length-trim_end : (c : ℕ) (bs : Bytes) → length (trim_end c bs) ≤ length bs
unfolding trim_end
length-trim_end c [] = omega arith
length-trim_end c (b ∷ bs) = ground (arith, length-trim_end c bs)

pub length-trim_nuls : (bs : Bytes) → length (trim_nuls bs) ≤ length bs
length-trim_nuls bs = unfold trim_nuls in length-trim_end 0 bs

-- A header's fields are numbers of any size here.
pub newc_field-Ensures :
    (header : Bytes) (span : Span) → Ensures (λ _. Unit {0}) (newc_field header span)
unfolding newc_field
newc_field-Ensures header span = elim (Option-cases (parse_hex (field_at header span))) [
  | inl e ↦ rw e fails
  | inr (v, e) ↦ rw e (returns tt)
]

pub odc_field-Ensures :
    (header : Bytes) (span : Span) → Ensures (λ _. Unit {0}) (odc_field header span)
unfolding odc_field
odc_field-Ensures header span = elim (Option-cases (parse_octal (field_at header span))) [
  | inl e ↦ rw e fails
  | inr (v, e) ↦ rw e (returns tt)
]

pub check_field-Ensures :
    (v : NewcVariant) (header : Bytes) → Ensures (λ _. Unit {0}) (check_field v header)
unfolding check_field
check_field-Ensures newc header = returns tt
check_field-Ensures crc header =
    Ensures-bind _ _ _ _ (newc_field-Ensures header newc_check) λ c _. returns tt

pub newc_head-Ensures :
    (v : NewcVariant) (header : Bytes) → Ensures (λ _. Unit {0}) (newc_head v header)
unfolding newc_head
newc_head-Ensures v header = Ensures-bind _ _ _ _ (newc_field-Ensures header newc_mode) λ mode _.
    Ensures-bind _ _ _ _ (newc_field-Ensures header newc_mtime) λ mtime _.
      Ensures-bind _ _ _ _ (newc_field-Ensures header newc_filesize) λ filesize _.
        Ensures-bind _ _ _ _ (newc_field-Ensures header newc_namesize)
          λ namesize _. Ensures-bind _ _ _ _ (check_field-Ensures v header) λ checksum _. returns tt

pub odc_head-Ensures : (header : Bytes) → Ensures (λ _. Unit {0}) (odc_head header)
unfolding odc_head
odc_head-Ensures header = Ensures-bind _ _ _ _ (odc_field-Ensures header odc_mode) λ mode _.
    Ensures-bind _ _ _ _ (odc_field-Ensures header odc_mtime) λ mtime _.
      Ensures-bind _ _ _ _ (odc_field-Ensures header odc_namesize) λ namesize _.
        Ensures-bind _ _ _ _ (odc_field-Ensures header odc_filesize) λ filesize _. returns tt
