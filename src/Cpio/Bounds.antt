-- ===== src/Cpio/Bounds.antt =====
-- The walks of src/format/cpio.rs end, and what they list lies inside the file.
use newtua_core.Cpio.Walk.{
  Reader, KindRaw, file, dir, symlink, EntryMeta, Head, Step, trailer, skipped, pushed, Listing,
  scan, Bounds, newc_entry, newc_bounds, unless_trailer, newc_record, scan_newc_seekable, odc_entry,
  odc_record, scan_odc_seekable,
}
use newtua_core.Base.{
  ◌==◌, Bool-cases, equal, length, All, ℕ, zero, suc, ◌+◌, ◌≤◌, ◌<◌, bit_and, ◌≡◌, refl, ap, inl,
  inr, none, arith,
}
use newtua_core.Base.Bytes.{Bytes}
use newtua_core.Error.{Result, Ensures, returns, Ensures-bind, Ensures-guard}
use newtua_core.Cpio.Fields.{
  s_ifmt, s_iflnk, s_ifdir, s_ifreg, trailer_name, NewcVariant, newc_header_len, odc_header_len,
  trim_nuls,
}
use newtua_core.Cpio.Rounds.{
  advance-Ensures, read_exact-Ensures, take_exact-Ensures, length-trim_nuls, newc_head-Ensures,
  odc_head-Ensures,
}

-- Where an entry's body or target lies.
abbrev pub KindFits : KindRaw → ℕ → EntryMeta → Type 0
KindFits file file_len m = m.offset + m.size ≤ file_len
KindFits dir file_len m = (m.size ≡ 0) × (m.checksum ≡ none)
KindFits (symlink t) file_len m = (length t ≤ m.size) × (m.size ≤ file_len) × (m.checksum ≡ none)

abbrev pub MetaFits : ℕ → EntryMeta → Type 0
MetaFits file_len m = KindFits m.kind file_len m

-- A round goes forward, and stays inside the file.
abbrev pub StepFits : ℕ → ℕ → Step → Type 0
StepFits file_len pos trailer = Unit
StepFits file_len pos (skipped next r) = (pos < next) × (next ≤ file_len)
StepFits file_len pos (pushed name m next r) =
    (pos < next) × (next ≤ file_len) × MetaFits file_len m

record BoundsFit (file_len : ℕ) (filesize : ℕ) (b : Bounds) : Type 0 where
  name_first : b.after_name ≤ b.body_start
  body : b.body_start + filesize ≤ b.after_body
  body_first : b.after_body ≤ b.next
  inside : b.next ≤ file_len

newc_bounds-Ensures :
    (file_len after_name : ℕ) (h : Head)
    → Ensures
        (λ b. BoundsFit file_len h.filesize b × (b.after_name ≡ after_name))
        (newc_bounds file_len after_name h)
unfolding newc_bounds
newc_bounds-Ensures file_len after_name h =
    Ensures-bind _ _ _ _ (advance-Ensures _ _ _) λ body_start p.
      Ensures-bind _ _ _ _ (advance-Ensures _ _ _) λ after_body q.
        Ensures-bind _ _ _ _ (advance-Ensures _ _ _) λ next s. returns (ground arith, refl)

newc_entry-Ensures :
    (file_len pos : ℕ) (h : Head) (name : Bytes) (b : Bounds) (r : Reader)
    → BoundsFit file_len h.filesize b
    → pos < b.after_name
    → Ensures (StepFits file_len pos) (newc_entry h name b r)
unfolding newc_entry
newc_entry-Ensures file_len pos h name b r f lt =
    elim (Bool-cases (bit_and h.mode s_ifmt == s_ifreg)) [
      | inl reg ↦ rw reg (returns (ground arith))
      | inr not_reg ↦ elim (Bool-cases (bit_and h.mode s_ifmt == s_ifdir)) [
        | inl is_dir ↦ rw (not_reg, is_dir) (returns (ground arith))
        | inr not_dir ↦ elim (Bool-cases (bit_and h.mode s_ifmt == s_iflnk)) [
          | inl lnk ↦
              rw (not_reg, not_dir, lnk)
                (Ensures-bind _ _ _ _ (take_exact-Ensures _ _)
                  λ p e. returns (ground (arith, length-trim_nuls p.0)))
          | inr not_lnk ↦ rw (not_reg, not_dir, not_lnk) (returns (ground arith))
        ]
      ]
    ]

odc_entry-Ensures :
    (file_len pos : ℕ) (h : Head) (name : Bytes) (after_name after_body : ℕ) (r : Reader)
    → after_name + h.filesize ≤ after_body
    → after_body ≤ file_len
    → pos < after_name
    → Ensures (StepFits file_len pos) (odc_entry h name after_name after_body r)
unfolding odc_entry
odc_entry-Ensures file_len pos h name after_name after_body r fit inside lt =
    elim (Bool-cases (bit_and h.mode s_ifmt == s_ifreg)) [
      | inl reg ↦ rw reg (returns (ground arith))
      | inr not_reg ↦ elim (Bool-cases (bit_and h.mode s_ifmt == s_ifdir)) [
        | inl is_dir ↦ rw (not_reg, is_dir) (returns (ground arith))
        | inr not_dir ↦ elim (Bool-cases (bit_and h.mode s_ifmt == s_iflnk)) [
          | inl lnk ↦
              rw (not_reg, not_dir, lnk)
                (Ensures-bind _ _ _ _ (take_exact-Ensures _ _)
                  λ p e. returns (ground (arith, length-trim_nuls p.0)))
          | inr not_lnk ↦ rw (not_reg, not_dir, not_lnk) (returns (ground arith))
        ]
      ]
    ]

unless_trailer-Ensures :
    (file_len pos : ℕ) (name : Bytes) (more : Result Step)
    → Ensures (StepFits file_len pos) more
    → Ensures (StepFits file_len pos) (unless_trailer name more)
unless_trailer-Ensures file_len pos name more h = elim (Bool-cases (equal name trailer_name)) [
  | inl e ↦ rw e (returns tt)
  | inr e ↦ rw e h
]

newc_record-Ensures :
    (file_len : ℕ) (v : NewcVariant) (pos : ℕ) (r : Reader)
    → Ensures (StepFits file_len pos) (newc_record file_len v pos r)
unfolding newc_record
newc_record-Ensures file_len v pos r =
    Ensures-bind _ _ _ _ (advance-Ensures pos newc_header_len file_len) λ after_header p.
      Ensures-bind _ _ _ _ (read_exact-Ensures newc_header_len r) λ (header, r₁) _.
        Ensures-guard _ _ _ _ λ _. Ensures-bind _ _ _ _ (newc_head-Ensures v header) λ h _.
          Ensures-guard _ _ _ _ λ _.
            Ensures-bind _ _ _ _ (advance-Ensures after_header h.namesize file_len) λ after_name q.
              Ensures-bind _ _ _ _ (take_exact-Ensures h.namesize r₁) λ (name, r₂) _.
                unless_trailer-Ensures file_len pos (trim_nuls name) _ (
                  Ensures-bind _ _ _ _ (newc_bounds-Ensures file_len after_name h) λ b s.
                    newc_entry-Ensures file_len pos h (trim_nuls name) b r₂ s.0 (omega arith))

odc_record-Ensures :
    (file_len pos : ℕ) (r : Reader) → Ensures (StepFits file_len pos) (odc_record file_len pos r)
unfolding odc_record
odc_record-Ensures file_len pos r =
    Ensures-bind _ _ _ _ (advance-Ensures pos odc_header_len file_len) λ after_header p.
      Ensures-bind _ _ _ _ (read_exact-Ensures odc_header_len r) λ (header, r₁) _.
        Ensures-guard _ _ _ _ λ _. Ensures-bind _ _ _ _ (odc_head-Ensures header) λ h _.
          Ensures-guard _ _ _ _ λ _.
            Ensures-bind _ _ _ _ (advance-Ensures after_header h.namesize file_len) λ after_name q.
              Ensures-bind _ _ _ _ (take_exact-Ensures h.namesize r₁) λ (name, r₂) _.
                unless_trailer-Ensures file_len pos (trim_nuls name) _ (
                  Ensures-bind _ _ _ _ (advance-Ensures after_name h.filesize file_len)
                    λ after_body s.
                      odc_entry-Ensures file_len pos h (trim_nuls name) after_name after_body r₂
                        (omega arith) s.1 (omega arith))

-- The names and the metadata are parallel, and every body lies inside the file.
pub record ListingFits (file_len : ℕ) (l : Listing) : Type 0 where
  pub parallel : length l.0 ≡ length l.1
  pub inside : All (MetaFits file_len) l.1

-- With more rounds than bytes that are left, a walk whose rounds go forward ends.
scan-Ensures :
    (round : ℕ → Reader → Result Step) (file_len : ℕ)
    → ((pos : ℕ) (r : Reader) → Ensures (StepFits file_len pos) (round pos r))
    → (fuel pos : ℕ) (r : Reader) → file_len < fuel + pos
    → pos ≤ file_len
    → Ensures (ListingFits file_len) (scan round fuel pos r)
unfolding scan
scan-Ensures round file_len fits zero pos r enough inside = absurd (omega arith)
scan-Ensures round file_len fits (suc fuel) pos r enough inside =
    Ensures-bind _ _ _ _ (fits pos r) (elim [
      | trailer ↦ λ _. returns (record { parallel = refl; inside = tt })
      | skipped next r' ↦ λ s. scan-Ensures round file_len fits fuel next r' (omega arith) s.1
      | pushed name meta next r' ↦ λ s.
          Ensures-bind _ _ _ _ (scan-Ensures round file_len fits fuel next r' (omega arith) s.1)
            λ rest g. returns (record { parallel = ap suc g.parallel; inside = (s.2, g.inside) })
    ])

-- On any bytes and for any file length, the newc walk ends within its fuel, with an error or with
-- a listing whose bodies and targets all lie inside that length.
pub scan_newc_seekable-Ensures :
    (src : Bytes) (file_len : ℕ) (variant : NewcVariant)
    → Ensures (ListingFits file_len) (scan_newc_seekable src file_len variant)
unfolding scan_newc_seekable
scan_newc_seekable-Ensures src file_len variant =
    scan-Ensures (newc_record file_len variant) file_len (newc_record-Ensures file_len variant)
      (file_len + 1) 0 _ (omega arith) (omega arith)

-- On any bytes and for any file length, the odc walk ends within its fuel, with an error or with a
-- listing whose bodies and targets all lie inside that length.
pub scan_odc_seekable-Ensures :
    (src : Bytes) (file_len : ℕ) → Ensures (ListingFits file_len) (scan_odc_seekable src file_len)
unfolding scan_odc_seekable
scan_odc_seekable-Ensures src file_len =
    scan-Ensures (odc_record file_len) file_len (odc_record-Ensures file_len) (file_len + 1) 0 _
      (omega arith) (omega arith)
