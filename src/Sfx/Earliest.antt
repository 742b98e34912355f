-- ===== src/Sfx/Earliest.antt =====
-- Where src/format/sfx.rs finds the archive.
use newtua_core.Base.{
  if◌then◌else◌, Bool-cases, length, drop, length-append, drop-append, ℕ, ◌+◌, ◌≡◌, refl, sym, ap,
  ◌∙◌, inl, inr, true, false, Option, none, some, List, [], ◌∷◌, ◌++◌, append_assoc, arith,
}
use newtua_core.Base.Bytes.{Bytes}
use newtua_core.Base.Text.{starts_with}
use newtua_core.Error.{Result}
use newtua_core.Sfx.{
  magics, starts_with_any, Parsers, later, position, min_opt, earliest_of, find_archive_magic,
  floor_of, open_sfx,
}

min_opt-zero : (o : Option ℕ) → min_opt (some 0) o ≡ some 0
min_opt-zero none = refl
min_opt-zero (some b) = ap some (omega arith)

min_opt-zero_right : (o : Option ℕ) → min_opt o (some 0) ≡ some 0
min_opt-zero_right none = refl
min_opt-zero_right (some a) = ap some (omega arith)

min_opt-later : (a b : Option ℕ) → min_opt (later a) (later b) ≡ later (min_opt a b)
min_opt-later none b = refl
min_opt-later (some a) none = refl
min_opt-later (some a) (some b) = ap some (omega arith)

-- One byte on, of all patterns at once.
earliest_of-cons :
    (ms : List Bytes) (c : ℕ) (cs : Bytes)
    → earliest_of ms (c ∷ cs)
      ≡ (if starts_with_any ms (c ∷ cs) then some 0 else later (earliest_of ms cs))
unfolding earliest_of starts_with_any position
earliest_of-cons [] c cs = refl
earliest_of-cons (m ∷ ms) c cs = elim (Bool-cases (starts_with (c ∷ cs) m)) [
  | inl e ↦ rw e (min_opt-zero _)
  | inr e ↦ elim (Bool-cases (starts_with_any ms (c ∷ cs))) [
    | inl f ↦ rw (e, earliest_of-cons ms c cs, f) (min_opt-zero_right _)
    | inr f ↦
        rw (e, earliest_of-cons ms c cs, f) (min_opt-later (position m cs) (earliest_of ms cs))
  ]
]

earliest_of-nil : (ms : List Bytes) → earliest_of ms [] ≡ none
unfolding earliest_of position
earliest_of-nil [] = refl
earliest_of-nil (m ∷ ms) = earliest_of-nil ms

-- The place of the first suffix that starts with one of the patterns.
pub data IsFirst (ms : List Bytes) : Bytes → Option ℕ → Type 0 where
  nowhere : IsFirst ms [] none
  here : {c : ℕ} {cs : Bytes} → starts_with_any ms (c ∷ cs) ≡ true → IsFirst ms (c ∷ cs) (some 0)
  further :
      {c : ℕ} {cs : Bytes} {o : Option ℕ}
      → starts_with_any ms (c ∷ cs) ≡ false
      → IsFirst ms cs o
      → IsFirst ms (c ∷ cs) (later o)

earliest_of-IsFirst : (ms : List Bytes) (bytes : Bytes) → IsFirst ms bytes (earliest_of ms bytes)
earliest_of-IsFirst ms [] = rw (earliest_of-nil ms) nowhere
earliest_of-IsFirst ms (c ∷ cs) = elim (Bool-cases (starts_with_any ms (c ∷ cs))) [
  | inl e ↦ rw (earliest_of-cons ms c cs, e) (here e)
  | inr e ↦ rw (earliest_of-cons ms c cs, e) (further e (earliest_of-IsFirst ms cs))
]

-- No place in the front starts one of the patterns, whatever stands behind it.
pub data IsClear (ms : List Bytes) (rest : Bytes) : Bytes → Type 0 where
  clear_end : IsClear ms rest []
  clear_byte :
      {c : ℕ} {cs : Bytes}
      → starts_with_any ms (c ∷ cs ++ rest) ≡ false
      → IsClear ms rest cs
      → IsClear ms rest (c ∷ cs)

earliest_of-IsClear :
    (ms : List Bytes) (front : Bytes) (c : ℕ) (cs : Bytes)
    → IsClear ms (c ∷ cs) front
    → starts_with_any ms (c ∷ cs) ≡ true
    → earliest_of ms (front ++ c ∷ cs) ≡ some (length front)
earliest_of-IsClear ms [] c cs clear_end h = rw (earliest_of-cons ms c cs, h) refl
earliest_of-IsClear ms (d ∷ front) c cs (clear_byte e k) h =
    rw (earliest_of-cons ms d (front ++ c ∷ cs), e, earliest_of-IsClear ms front c cs k h) refl

module _ {R : Type 0} (parsers : Parsers) (open_single : Bytes → Result R) where
  -- An executable with an archive behind it, whose headers end its image in front of the archive
  -- with no place of a magic in between, is opened as just the bytes of the archive.
  pub open_sfx-appended :
      (stub gap archive : Bytes) (c : ℕ) (cs : Bytes)
      → archive ≡ c ∷ cs
      → starts_with_any magics archive ≡ true
      → IsClear magics archive gap
      → floor_of parsers (stub ++ (gap ++ archive)) ≡ length stub
      → open_sfx parsers open_single (stub ++ (gap ++ archive)) ≡ open_single archive
  unfolding open_sfx find_archive_magic
  open_sfx-appended stub gap archive c cs e h k f =
      let h' = rw e at h in
      let k' = rw e at k in
      let at_archive : earliest_of magics (gap ++ archive) ≡ some (length gap) =
        ap (λ (a : Bytes). earliest_of magics (gap ++ a)) e
        ∙ earliest_of-IsClear magics gap c cs k' h' in
      let carved : drop (length stub + length gap) (stub ++ (gap ++ archive)) ≡ archive =
        ap (drop (length stub + length gap)) (sym (append_assoc stub gap archive))
        ∙ drop-append (length stub + length gap) (stub ++ gap) archive (length-append stub gap) in
      rw (f, drop-append (length stub) stub (gap ++ archive) refl, at_archive, carved) refl
