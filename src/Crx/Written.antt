-- ===== src/Crx/Written.antt =====
-- Extensions of either version written out, for src/format/crx.rs.
use newtua_core.Base.LittleEndian.{from_le-to_le}
use newtua_core.Base.{
  ltb, le→ltb, equal, length, drop, length-append, take-append, drop-append, ℕ, ◌+◌, ◌-◌, ◌^◌, ◌<◌,
  ◌≡◌, refl, sym, false, ◌++◌, append_assoc, arith,
}
use newtua_core.Base.Bytes.{Bytes, to_le}
use newtua_core.Error.{Result}
use newtua_core.Crx.{crx_magic, crx_zip_offset, open_behind, open_crx}

-- The header of version 3, or the key and the signature of version 2.
pub data Package : Type 0 where
  crx3 : Bytes → Package
  crx2 : Bytes → Bytes → Package

abbrev pub written : Package → Bytes → Bytes
written (crx3 header) zip = crx_magic ++ (to_le 4 3 ++ (to_le 4 (length header) ++ (header ++ zip)))
written (crx2 key sig) zip =
    crx_magic
    ++ (to_le 4 2 ++ (to_le 4 (length key) ++ (to_le 4 (length sig) ++ (key ++ (sig ++ zip)))))

abbrev pub FitsPackage : Package → Type 0
FitsPackage (crx3 header) = length header < 2 ^ 32
FitsPackage (crx2 key sig) = (length key < 2 ^ 32) × (length sig < 2 ^ 32)

module _ {R : Type 0} (open_zip : Bytes → Result R) where
  open_behind-past :
      (file skipped zip : Bytes) (consumed : ℕ)
      → drop consumed file ≡ skipped ++ zip
      → open_behind open_zip file consumed (consumed + length skipped) ≡ open_zip zip
  open_behind-past file skipped zip consumed e =
      let fits : ltb (consumed + length skipped) consumed ≡ false = le→ltb _ _ (omega arith) in
      let skip : consumed + length skipped - consumed ≡ length skipped = omega arith in
      let full : ltb (length skipped) (length skipped) ≡ false = le→ltb _ _ (omega arith) in
      rw
        (
          fits,
          skip,
          e,
          take-append (length skipped) skipped zip refl,
          full,
          drop-append (length skipped) skipped zip refl,
        )
        refl

  -- An extension of version 3 with any header, or of version 2 with any key and signature, each of
  -- less than 4 GiB, is opened as exactly the zip that stands behind them.
  pub open_crx-written :
      (p : Package) (zip : Bytes) → FitsPackage p → open_crx open_zip (written p zip) ≡ open_zip zip
  unfolding open_crx crx_zip_offset equal
  open_crx-written (crx3 header) zip h =
      rw (from_le-to_le 4 (length header) h)
        (open_behind-past (written (crx3 header) zip) header zip 12 refl)
  open_crx-written (crx2 key sig) zip h =
      let both : 16 + length key + length sig ≡ 16 + length (key ++ sig) =
        omega (arith, length-append key sig) in
      rw (from_le-to_le 4 (length key) h.0, from_le-to_le 4 (length sig) h.1, both)
        (open_behind-past (written (crx2 key sig) zip) (key ++ sig) zip 16
          (sym (append_assoc key sig zip)))
