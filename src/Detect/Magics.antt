-- ===== src/Detect/Magics.antt =====
-- The signatures that src/detect.rs looks for, against each other.
use mathlib.Core.Path.{subst}
use newtua_core.Base.{
  ◌==◌, if◌then◌else◌, Bool-cases, Option-cases, ◌≡◌, refl, sym, ap, ◌∙◌, ◌↔◌, inl, inr, true,
  Option, none, some, [], ◌∷◌, ◌++◌, arith,
}
use newtua_core.Base.Bytes.{Bytes}
use newtua_core.Base.Text.{strip_prefix, starts_with}
use newtua_core.Detect.Compressors.{
  Compressor, gzip, bzip2, xz, zstd, lzma, lzc, lz4, brotli, snappy, lzip, gzip_magic, bzip2_magic,
  xz_magic, zstd_magic, lzc_magic, lz4_magic, snappy_magic, lzip_magic, detect_compressor,
}

-- The signature of a compressor that has one.
abbrev pub magic_of : Compressor → Option Bytes
magic_of gzip = some gzip_magic
magic_of bzip2 = some bzip2_magic
magic_of xz = some xz_magic
magic_of zstd = some zstd_magic
magic_of lzc = some lzc_magic
magic_of lz4 = some lz4_magic
magic_of snappy = some snappy_magic
magic_of lzip = some lzip_magic
magic_of lzma = none
magic_of brotli = none

strip_prefix-inv : (p s t : Bytes) → strip_prefix p s ≡ some t → s ≡ p ++ t
unfolding strip_prefix
strip_prefix-inv [] s t h = cc
strip_prefix-inv (p ∷ ps) [] t h = absurd (cc)
strip_prefix-inv (p ∷ ps) (c ∷ cs) t h = elim (Bool-cases (c == p)) [
  | inl e ↦
      let h' = rw e at h in
      let same : c ≡ p = ground arith in
      ap (λ x. x ∷ cs) same ∙ ap (◌∷◌ p) (strip_prefix-inv ps cs t h')
  | inr e ↦ let h' = rw e at h in absurd (cc)
]

starts_with-inv : (s p : Bytes) → starts_with s p ≡ true → (t : Bytes) × (s ≡ p ++ t)
starts_with-inv s p h = elim (Option-cases (strip_prefix p s)) [
  | inl e ↦ let h' = rw e at h in absurd (cc)
  | inr (t, e) ↦ (t, strip_prefix-inv p s t e)
]

detect_compressor-magic :
    (c : Compressor) (m t : Bytes) → magic_of c ≡ some m → detect_compressor (m ++ t) ≡ some c
unfolding detect_compressor strip_prefix
detect_compressor-magic gzip m t h = let same : gzip_magic ≡ m = cc in rw (← same) refl
detect_compressor-magic bzip2 m t h = let same : bzip2_magic ≡ m = cc in rw (← same) refl
detect_compressor-magic xz m t h = let same : xz_magic ≡ m = cc in rw (← same) refl
detect_compressor-magic zstd m t h = let same : zstd_magic ≡ m = cc in rw (← same) refl
detect_compressor-magic lzc m t h = let same : lzc_magic ≡ m = cc in rw (← same) refl
detect_compressor-magic lz4 m t h = let same : lz4_magic ≡ m = cc in rw (← same) refl
detect_compressor-magic snappy m t h = let same : snappy_magic ≡ m = cc in rw (← same) refl
detect_compressor-magic lzip m t h = let same : lzip_magic ≡ m = cc in rw (← same) refl
detect_compressor-magic lzma m t h = absurd (cc)
detect_compressor-magic brotli m t h = absurd (cc)

-- A verdict that the header bears out.
data IsSigned (header : Bytes) : Option Compressor → Type 0 where
  unknown : IsSigned header none
  signed :
      (c : Compressor) (m : Bytes)
      → magic_of c ≡ some m
      → starts_with header m ≡ true
      → IsSigned header (some c)

if-IsSigned :
    (header m : Bytes) (c : Compressor) (later : Option Compressor)
    → magic_of c ≡ some m
    → IsSigned header later
    → IsSigned header (if starts_with header m then some c else later)
if-IsSigned header m c later k h = elim (Bool-cases (starts_with header m)) [
  | inl e ↦ rw e (signed c m k e)
  | inr e ↦ rw e h
]

detect_compressor-IsSigned : (header : Bytes) → IsSigned header (detect_compressor header)
unfolding detect_compressor
detect_compressor-IsSigned header = if-IsSigned header gzip_magic gzip _ refl (
    if-IsSigned header bzip2_magic bzip2 _ refl (
      if-IsSigned header xz_magic xz _ refl (
        if-IsSigned header zstd_magic zstd _ refl (
          if-IsSigned header lzc_magic lzc _ refl (
            if-IsSigned header lz4_magic lz4 _ refl (
              if-IsSigned header snappy_magic snappy _ refl
                (if-IsSigned header lzip_magic lzip _ refl unknown)))))))

IsSigned-magic :
    (header m : Bytes) (c : Compressor) {o : Option Compressor}
    → IsSigned header o
    → o ≡ some c
    → magic_of c ≡ some m
    → starts_with header m ≡ true
IsSigned-magic header m c unknown h k = absurd (cc)
IsSigned-magic header m c (signed d n l e) h k =
    let which : d ≡ c = cc in
    let what : some n ≡ some m = sym l ∙ ap magic_of which ∙ k in
    let same : n ≡ m = cc in subst (λ x. starts_with header x ≡ true) same e

-- For each compressor that has a signature, `detect_compressor` gives it exactly when the header
-- starts with that signature, so the order of the tests does not matter.
pub detect_compressor_iff :
    (header : Bytes) (c : Compressor) (m : Bytes)
    → magic_of c ≡ some m
    → (detect_compressor header ≡ some c) ↔ (starts_with header m ≡ true)
detect_compressor_iff header c m k = (
  λ h. IsSigned-magic header m c (detect_compressor-IsSigned header) h k,
  λ h.
      let (t, e) = starts_with-inv header m h in
      ap detect_compressor e ∙ detect_compressor-magic c m t k,
)
