-- ===== src/Cpio/Numbers.antt =====
-- `parse_hex` and `parse_octal` of src/format/cpio.rs: their range, and numbers as they are written.
use newtua_core.Error.{ok}
use newtua_core.Base.Bytes.{Bytes}
use newtua_core.Base.{
  ltb, if◌then◌else◌, length, drop, length-take, ℕ, zero, suc, ◌+◌, ◌-◌, ◌*◌, ◌/◌, ◌%◌, ◌^◌, ◌≤◌,
  ◌<◌, String, ◌≡◌, refl, sym, ap, ◌∙◌, ◌⊎◌, inl, inr, Bool, true, false, Option, none, some, [],
  ◌∷◌, ◌++◌, append-nil, append_assoc, arith,
}
use newtua_core.Cpio.Fields.{
  Class, digit, padding, bad, hex_class, octal_class, checked_push, digits_loop, parse_hex,
  parse_octal, or_corrupt, field_at, newc_field, odc_field,
}
use native.Mathlib.Nat.{pow-suc, mul-le-mul_right, pow-zero, mul-le-mul_left, pow-le-pow_right}

-- Every digit is below the base.
abbrev DigitsBelow : (ℕ → Class) → ℕ → Type 0
DigitsBelow class base = (b d : ℕ) → class b ≡ digit d → d < base

hex_class-below : DigitsBelow hex_class 16
unfolding hex_class
hex_class-below b d e = ground arith

octal_class-below : DigitsBelow octal_class 8
unfolding octal_class
octal_class-below b d e = ground arith

pow_pos : (base n : ℕ) → 0 < base → 1 ≤ base ^ n
pow_pos base zero h = rw pow-zero (omega arith)
pow_pos base (suc n) h = rw pow-suc (grind (arith, pow_pos base n h))

grow :
    (base value d n : ℕ) → d < base → (value * base + d + 1) * base ^ n ≤ (value + 1) * base ^ suc n
grow base value d n h = rw pow-suc (
    omega (
      arith,
      mul-le-mul_right {m = value * base + d + 1} {n = (value + 1) * base} (base ^ n) (omega arith),
    ))

Class-cases : (k : Class) → ((d : ℕ) × (k ≡ digit d)) ⊎ (k ≡ padding) ⊎ (k ≡ bad)
Class-cases (digit d) = inl (d, refl)
Class-cases padding = inr (inl refl)
Class-cases bad = inr (inr refl)

suc_le : (n : ℕ) → n ≤ suc n
suc_le n = omega arith

-- The value that is read stays below what its digits can hold.
digits_loop-lt :
    (class : ℕ → Class) (base : ℕ)
    → DigitsBelow class base
    → 0 < base
    → (field : Bytes) (value : ℕ) (seen : Bool) (v : ℕ)
    → digits_loop class base field value seen ≡ some v
    → v < (value + 1) * base ^ length field
unfolding digits_loop checked_push
digits_loop-lt class base below pos [] value true v e = rw pow-zero (ground arith)
digits_loop-lt class base below pos [] value false v e = cc
digits_loop-lt class base below pos (b ∷ field) value seen v e = elim (Class-cases (class b)) [
  | inl (d, k) ↦ ground (
    arith,
    k,
    grow base value d (length field) (below b d k),
    digits_loop-lt class base below pos field (value * base + d) true v,
  )
  | inr (inl k) ↦ ground (
    arith,
    k,
    mul-le-mul_left (value + 1) (pow_pos base (suc (length field)) pos),
    mul-le-mul_left (value + 1) (pow-le-pow_right pos (suc_le (length field))),
    digits_loop-lt class base below pos field value false v,
  )
  | inr (inr k) ↦ ground (arith, k)
]

or_corrupt-eq-ok : (o : Option ℕ) (what : String) (v : ℕ) → or_corrupt o what ≡ ok v → o ≡ some v
or_corrupt-eq-ok none what v e = cc
or_corrupt-eq-ok (some a) what v e = cc

pub length-field_at :
    (header : Bytes) (offset len : ℕ) → length (field_at header (offset, len)) ≤ len
length-field_at header offset len = omega (arith, length-take len (drop offset header))

-- A header field of eight bytes that `newc_field` reads is below 2^32, so the casts of the walk to
-- u32 lose nothing.
pub newc_field-lt :
    (header : Bytes) (offset v : ℕ) → newc_field header (offset, 8) ≡ ok v → v < 2 ^ 32
unfolding newc_field
newc_field-lt header offset v e =
    let field = field_at header (offset, 8) in
    let bound : v < (0 + 1) * 16 ^ length field =
      unfold parse_hex in
      digits_loop-lt hex_class 16 hex_class-below (omega arith) field 0 false v
        (or_corrupt-eq-ok _ _ v e) in
    omega (arith, bound, pow-le-pow_right {n = 16} (omega arith) (length-field_at header offset 8))

pub odc_field-lt :
    (header : Bytes) (offset len v : ℕ) → odc_field header (offset, len) ≡ ok v → v < 8 ^ len
unfolding odc_field
odc_field-lt header offset len v e =
    let field = field_at header (offset, len) in
    let bound : v < (0 + 1) * 8 ^ length field =
      unfold parse_octal in
      digits_loop-lt octal_class 8 octal_class-below (omega arith) field 0 false v
        (or_corrupt-eq-ok _ _ v e) in
    omega (arith, bound, pow-le-pow_right {n = 8} (omega arith) (length-field_at header offset len))

-- `n` hexadecimal digits, the highest first, as GNU cpio writes them.
unfoldable pub hex_digit : ℕ → ℕ
hex_digit d = if ltb d 10 then d + b'0' else d - 10 + b'a'

abbrev pub hex : ℕ → ℕ → Bytes
hex zero v = []
hex (suc n) v = hex n (v / 16) ++ hex_digit (v % 16) ∷ []

hex_class-hex_digit : (d : ℕ) → d < 16 → hex_class (hex_digit d) ≡ digit d
unfolding hex_class hex_digit
hex_class-hex_digit d h = ground arith

-- One digit more.
digits_loop-hex_digit :
    (d value : ℕ) (rest : Bytes) (seen : Bool)
    → d < 16
    → value * 16 + d < 2 ^ 64
    → digits_loop hex_class 16 (hex_digit d ∷ rest) value seen
      ≡ digits_loop hex_class 16 rest (value * 16 + d) true
unfolding digits_loop checked_push
digits_loop-hex_digit d value rest seen h fits = ground (arith, hex_class-hex_digit d h)

digits_loop-hex :
    (n v : ℕ) (rest : Bytes)
    → v < 2 ^ 64
    → v < 16 ^ suc n
    → digits_loop hex_class 16 (hex (suc n) v ++ rest) 0 false
      ≡ digits_loop hex_class 16 rest v true
digits_loop-hex zero v rest fits h =
    digits_loop-hex_digit (v % 16) 0 rest false (omega arith) (omega arith)
    ∙ ap (λ w. digits_loop hex_class 16 rest w true) (omega arith)
digits_loop-hex (suc n) v rest fits h =
    ap (λ s. digits_loop hex_class 16 s 0 false)
      (append_assoc (hex (suc n) (v / 16)) (hex_digit (v % 16) ∷ []) rest)
    ∙ digits_loop-hex n (v / 16) (hex_digit (v % 16) ∷ rest) (omega arith)
        (let h' = rw (pow-suc) at h in omega arith)
    ∙ digits_loop-hex_digit (v % 16) (v / 16) rest true (omega arith) (omega arith)
    ∙ ap (λ w. digits_loop hex_class 16 rest w true) (omega arith)

-- A number below 2^32, written as eight hexadecimal digits, is read back by `parse_hex`.
pub parse_hex-hex : (v : ℕ) → v < 2 ^ 32 → parse_hex (hex 8 v) ≡ some v
parse_hex-hex v h =
    unfold parse_hex digits_loop in
    ap (λ s. digits_loop hex_class 16 s 0 false) (sym (append-nil (hex 8 v)))
    ∙ digits_loop-hex 7 v [] (omega arith) (omega arith)
