-- ===== src/AppImage/Layout.antt =====
-- The layout of an ELF header, written field by field, as src/format/appimage.rs reads it.
use newtua_core.Base.{
  length, length-append, take-append, drop-append, ℕ, ◌+◌, ◌^◌, ◌<◌, ◌≡◌, refl, ap, ◌∙◌, Bool, true,
  false, ◌∷◌, ◌++◌, append_assoc, arith,
}
use newtua_core.Base.Bytes.{Bytes, to_le, length-to_le, to_be}
use newtua_core.Base.BigEndian.{from_be-to_be, length-to_be}
use newtua_core.Base.LittleEndian.{from_le-to_le}
use newtua_core.AppImage.{number_at, section_table}

-- An ELF header of either class (of 64 bits where it is wide, else of 32) and either byte order.
-- `identity` is what stands between the byte that names the order and `e_shoff`, `between` what
-- stands between that and `e_shentsize`, and `behind` the last field, and what makes 64 bytes.
pub record ElfHeader : Type 0 where
  pub wide : Bool
  pub little : Bool
  pub identity : Bytes
  pub between : Bytes
  pub behind : Bytes
  pub shoff : ℕ
  pub shentsize : ℕ
  pub shnum : ℕ

-- A number of so many bytes, in the order of the header.
abbrev pub ordered : Bool → ℕ → ℕ → Bytes
ordered true n v = to_le n v
ordered false n v = to_be n v

-- The bytes of an address, those in front of the first of the three fields, and those behind the
-- last.
abbrev pub address : Bool → ℕ
address true = 8
address false = 4

abbrev pub front_len : Bool → ℕ
front_len true = 40
front_len false = 32

abbrev pub behind_len : Bool → ℕ
behind_len true = 2
behind_len false = 14

abbrev pub class_byte : Bool → ℕ
class_byte true = 2
class_byte false = 1

abbrev pub order_byte : Bool → ℕ
order_byte true = 1
order_byte false = 2

abbrev pub tail_bytes : ElfHeader → Bytes
tail_bytes h =
    ordered h.little (address h.wide) h.shoff
    ++ (h.between ++ (ordered h.little 2 h.shentsize ++ (ordered h.little 2 h.shnum ++ h.behind)))

abbrev pub front_bytes : ElfHeader → Bytes
front_bytes h = 0x7f ∷ b'E' ∷ b'L' ∷ b'F' ∷ class_byte h.wide ∷ order_byte h.little ∷ h.identity

abbrev pub elf_bytes : ElfHeader → Bytes
elf_bytes h = front_bytes h ++ tail_bytes h

-- The parts have the lengths of the layout, and the numbers fit their fields.
pub record IsElf (h : ElfHeader) : Type 0 where
  pub identity_len : length h.identity + 6 ≡ front_len h.wide
  pub between_len : length h.between ≡ 10
  pub behind_len_is : length h.behind ≡ behind_len h.wide
  pub shoff_fits : h.shoff < 256 ^ address h.wide
  pub shentsize_fits : h.shentsize < 256 ^ 2
  pub shnum_fits : h.shnum < 256 ^ 2

pub length-ordered : (little : Bool) (n v : ℕ) → length (ordered little n v) ≡ n
length-ordered true n v = length-to_le n v
length-ordered false n v = length-to_be n v

-- A field is read where it stands.
number_at-ordered :
    (little : Bool) (n v : ℕ) (front more : Bytes) (o : ℕ)
    → length front ≡ o
    → v < 256 ^ n
    → number_at little (front ++ (ordered little n v ++ more)) n o ≡ v
number_at-ordered true n v front more o e h =
    rw
      (drop-append o front (to_le n v ++ more) e, take-append n (to_le n v) more (length-to_le n v))
      (from_le-to_le n v h)
number_at-ordered false n v front more o e h =
    rw
      (drop-append o front (to_be n v ++ more) e, take-append n (to_be n v) more (length-to_be n v))
      (from_be-to_be n v h)

number_at-field :
    (little : Bool) (n v : ℕ) (front more whole : Bytes) (o : ℕ)
    → whole ≡ front ++ (ordered little n v ++ more)
    → length front ≡ o
    → v < 256 ^ n
    → number_at little whole n o ≡ v
number_at-field little n v front more whole o w e h =
    ap (λ (x : Bytes). number_at little x n o) w ∙ number_at-ordered little n v front more o e h

module _ (little : Bool) (front between behind : Bytes) (a b c : ℕ)
    (between_len : length between ≡ 10) (b_fits : b < 256 ^ 2) (c_fits : c < 256 ^ 2) where
  laid_out : ℕ → Bytes
  laid_out n =
      front
      ++ (ordered little n a ++ (between ++ (ordered little 2 b ++ (ordered little 2 c ++ behind))))

  shentsize_read : (n o : ℕ) → length front + n + 10 ≡ o → number_at little (laid_out n) 2 o ≡ b
  unfolding laid_out
  shentsize_read n o e =
      let mine : Bytes = ordered little n a in
      number_at-field little 2 b (front ++ (mine ++ between)) (ordered little 2 c ++ behind) _ o
        (simp append_assoc)
        (omega (
          arith,
          e,
          between_len,
          length-append front (mine ++ between),
          length-append mine between,
          length-ordered little n a,
        ))
        b_fits

  shnum_read : (n o : ℕ) → length front + n + 12 ≡ o → number_at little (laid_out n) 2 o ≡ c
  unfolding laid_out
  shnum_read n o e =
      let mine : Bytes = ordered little n a in
      let size : Bytes = ordered little 2 b in
      number_at-field little 2 c (front ++ (mine ++ (between ++ size))) behind _ o
        (simp append_assoc)
        (omega (
          arith,
          e,
          between_len,
          length-append front (mine ++ (between ++ size)),
          length-append mine (between ++ size),
          length-append between size,
          length-ordered little n a,
          length-ordered little 2 b,
        ))
        c_fits

  section_table-laid_out :
      (wide : Bool)
      → length front ≡ front_len wide
      → a < 256 ^ address wide
      → section_table wide little (laid_out (address wide)) ≡ (a, b, c)
  unfolding laid_out
  section_table-laid_out true e f =
      rw
        (
          number_at-ordered little 8 a front _ 0x28 e f,
          shentsize_read 8 0x3a (omega (arith, e)),
          shnum_read 8 0x3c (omega (arith, e)),
        )
        refl
  section_table-laid_out false e f =
      rw
        (
          number_at-ordered little 4 a front _ 0x20 e f,
          shentsize_read 4 0x2e (omega (arith, e)),
          shnum_read 4 0x30 (omega (arith, e)),
        )
        refl

pub section_table-elf_bytes :
    (h : ElfHeader)
    → IsElf h
    → section_table h.wide h.little (elf_bytes h) ≡ (h.shoff, h.shentsize, h.shnum)
section_table-elf_bytes h ok_h =
    unfold laid_out in
    section_table-laid_out h.little (front_bytes h) h.between h.behind h.shoff h.shentsize h.shnum
      ok_h.between_len ok_h.shentsize_fits ok_h.shnum_fits h.wide (omega (arith, ok_h.identity_len))
      ok_h.shoff_fits
