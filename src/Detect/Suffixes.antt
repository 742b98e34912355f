-- ===== src/Detect/Suffixes.antt =====
-- The suffixes that src/detect.rs knows, against each other.
use mathlib.Core.Path.{subst}
use newtua_core.Detect.Compressors.{Ext, compressor_exts, strip_exts, or_whole, stem_of_name}
use newtua_core.Base.{
  leb, Bool-cases, Option-cases, equal, equal_iff, length, get_elem?, ℕ, zero, suc, ◌≤◌, ◌≡◌, refl,
  sym, ap, ◌∙◌, inl, inr, Bool, true, not, ◌&&◌, Option, none, some, List, [], ◌∷◌, ◌++◌, arith,
}
use newtua_core.Base.Bytes.{Bytes}
use newtua_core.Base.Text.{cons_if_some, strip_suffix, strip_suffix-append}

-- The last two bytes.
unfoldable pub last_two : Bytes → Bytes
last_two [] = []
last_two (a ∷ []) = a ∷ []
last_two (a ∷ b ∷ []) = a ∷ b ∷ []
last_two (a ∷ b ∷ c ∷ cs) = last_two (b ∷ c ∷ cs)

last_two-cons : (c a b : ℕ) (cs : Bytes) → last_two (c ∷ a ∷ b ∷ cs) ≡ last_two (a ∷ b ∷ cs)
unfolding last_two
last_two-cons c a b cs = refl

last_two-append : (s e : Bytes) → 2 ≤ length e → last_two (s ++ e) ≡ last_two e
last_two-append [] e h = refl
last_two-append (c ∷ []) [] h = absurd (omega arith)
last_two-append (c ∷ []) (a ∷ []) h = absurd (omega arith)
last_two-append (c ∷ []) (a ∷ b ∷ e) h = last_two-cons c a b e
last_two-append (c ∷ d ∷ []) [] h = absurd (omega arith)
last_two-append (c ∷ d ∷ []) (a ∷ e) h = last_two-cons c d a e ∙ last_two-append (d ∷ []) (a ∷ e) h
last_two-append (c ∷ d ∷ f ∷ s) e h = last_two-cons c d f (s ++ e) ∙ last_two-append (d ∷ f ∷ s) e h

cons_if_some-inv :
    (c : ℕ) (o : Option Bytes) (t : Bytes)
    → cons_if_some c o ≡ some t
    → (u : Bytes) × (o ≡ some u) × (c ∷ u ≡ t)
cons_if_some-inv c none t h = absurd (cc)
cons_if_some-inv c (some u) t h = (u, refl, cc)

-- A suffix that is stripped was there.
strip_suffix-inv : (suf s t : Bytes) → strip_suffix suf s ≡ some t → s ≡ t ++ suf
unfolding strip_suffix
strip_suffix-inv suf [] t h = elim (Bool-cases (equal [] suf)) [
  | inl e ↦
      let h' = rw e at h in
      let same : [] ≡ suf = (equal_iff [] suf).0 e in
      let empty : [] ≡ t = cc in rw (← same, ← empty) refl
  | inr e ↦ let h' = rw e at h in absurd (cc)
]
strip_suffix-inv suf (c ∷ cs) t h = elim (Bool-cases (equal (c ∷ cs) suf)) [
  | inl e ↦
      let h' = rw e at h in
      let same : c ∷ cs ≡ suf = (equal_iff (c ∷ cs) suf).0 e in
      let empty : [] ≡ t = cc in same ∙ ap (λ x. x ++ suf) empty
  | inr e ↦
      let h' = rw e at h in
      let (u, f, g) = cons_if_some-inv c (strip_suffix suf cs) t h' in
      ap (◌∷◌ c) (strip_suffix-inv suf cs u f) ∙ ap (λ x. x ++ suf) g
]

-- Whether two suffixes end in other bytes.
abbrev differ : Bytes → Bytes → Bool
differ e f = leb 2 (length e) && (leb 2 (length f) && not (equal (last_two e) (last_two f)))

abbrev apart_from : Bytes → List Ext → Bool
apart_from e [] = true
apart_from e (f ∷ exts) = differ e f.0 && apart_from e exts

abbrev apart : List Ext → Bool
apart [] = true
apart (e ∷ exts) = apart_from e.0 exts && apart exts

differ-strip_suffix : (e f name : Bytes) → differ e f ≡ true → strip_suffix e (name ++ f) ≡ none
differ-strip_suffix e f name h = elim (Option-cases (strip_suffix e (name ++ f))) [
  | inl n ↦ n
  | inr (t, s) ↦
      let same : last_two f ≡ last_two e =
        sym (last_two-append name f (ground arith))
        ∙ ap last_two (strip_suffix-inv e (name ++ f) t s)
        ∙ last_two-append t e (ground arith) in
      let eq : equal (last_two e) (last_two f) ≡ true =
        (equal_iff (last_two e) (last_two f)).1 (sym same) in
      absurd (ground arith)
]

apart_from-row :
    (e : Bytes) (exts : List Ext) (i : ℕ) (ext : Ext)
    → get_elem? exts i ≡ some ext
    → apart_from e exts ≡ true
    → differ e ext.0 ≡ true
apart_from-row e [] i ext h k = absurd (cc)
apart_from-row e (f ∷ exts) zero ext h k =
    let same : f ≡ ext = cc in subst (λ x. differ e x.0 ≡ true) same (ground arith)
apart_from-row e (f ∷ exts) (suc i) ext h k = apart_from-row e exts i ext h (ground arith)

strip_exts-row :
    (exts : List Ext) (i : ℕ) (ext : Ext) (name : Bytes)
    → get_elem? exts i ≡ some ext
    → apart exts ≡ true
    → strip_exts exts (name ++ ext.0) ≡ some name
unfolding strip_exts
strip_exts-row [] i ext name h k = absurd (cc)
strip_exts-row (e ∷ exts) zero ext name h k =
    let same : e ≡ ext = cc in rw (← same, strip_suffix-append e.0 name) refl
strip_exts-row (e ∷ exts) (suc i) ext name h k =
    let other =
      differ-strip_suffix e.0 ext.0 name (apart_from-row e.0 exts i ext h (ground arith)) in
    rw other (strip_exts-row exts i ext name h (ground arith))

exts-apart : apart compressor_exts ≡ true
unfolding last_two equal
exts-apart = refl

-- A name with any suffix of the compressors' table behind it gives back just that name, so no
-- suffix of the table hides another.
pub stem_of_name-ext :
    (name : Bytes) (i : ℕ) (ext : Ext)
    → get_elem? compressor_exts i ≡ some ext
    → stem_of_name (name ++ ext.0) ≡ name
unfolding stem_of_name
stem_of_name-ext name i ext h =
    ap (or_whole (name ++ ext.0)) (strip_exts-row compressor_exts i ext name h exts-apart)
