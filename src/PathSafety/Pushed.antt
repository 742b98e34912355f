-- ===== src/PathSafety/Pushed.antt =====
-- `PathBuf::push` on Unix: pushing a part adds one component.
use mathlib.Core.Path.{subst}
use newtua_core.Base.{
  ==_iff, Bool-cases, equal, All, ℕ, ◌≡◌, refl, sym, ◌⊎◌, inl, inr, Bool, true, false, List, [],
  ◌∷◌, ◌++◌, append-nil, append_assoc, arith,
}
use newtua_core.Base.Bytes.{Bytes}
use newtua_core.PathSafety.Paths.{
  normal, dot, is_slash, split, segments, is_absolute, piece, pieces, lead, components,
  needs_separator, push,
}

-- A byte string with no separator in it.
abbrev pub Unbroken : (ℕ → Bool) → Bytes → Type 0
Unbroken sep s = All (λ c. sep c ≡ false) s

pub split-Unbroken :
    (sep : ℕ → Bool) (p : Bytes) → Unbroken sep (split sep p).0 × All (Unbroken sep) (split sep p).1
unfolding split
split-Unbroken sep [] = (tt, tt)
split-Unbroken sep (c ∷ cs) =
    let (h, t) = split-Unbroken sep cs in
    elim (Bool-cases (sep c)) [ inl e ↦ rw e (tt, (h, t)) | inr e ↦ rw e ((e, h), t) ]

pub split-of_Unbroken : (sep : ℕ → Bool) (p : Bytes) → Unbroken sep p → split sep p ≡ (p, [])
unfolding split
split-of_Unbroken sep [] h = refl
split-of_Unbroken sep (c ∷ cs) h = rw (h.0, split-of_Unbroken sep cs h.1)

split-append :
    (xs ys : Bytes)
    → split is_slash (xs ++ b'/' ∷ ys)
      ≡ ((split is_slash xs).0, (split is_slash xs).1 ++ segments is_slash ys)
unfolding split
split-append [] ys = refl
split-append (c ∷ cs) ys = elim (Bool-cases (is_slash c)) [
  | inl e ↦ rw (e, split-append cs ys)
  | inr e ↦ rw (e, split-append cs ys)
]

pub pieces-append : (xs ys : List Bytes) → pieces (xs ++ ys) ≡ pieces xs ++ pieces ys
unfolding pieces
pieces-append [] ys = refl
pieces-append (x ∷ xs) ys = simp (pieces-append xs, append_assoc)

-- What `components` makes of a name: such a piece is pushed as it stands.
pub record IsPart (part : Bytes) : Type 0 where
  pub whole : Unbroken is_slash part
  pub kept : piece part ≡ normal part ∷ []

IsPart-absolute : (part : Bytes) → IsPart part → is_absolute part ≡ false
IsPart-absolute [] h = refl
IsPart-absolute (c ∷ cs) h = h.whole.0

dot-not-kept : (part : Bytes) → IsPart part → equal part dot ≡ false
unfolding piece
dot-not-kept part h = ground (arith, h.kept)

components-part : (part : Bytes) → IsPart part → components part ≡ normal part ∷ []
unfolding components lead pieces
components-part part h =
    rw
      (split-of_Unbroken is_slash part h.whole, IsPart-absolute part h, dot-not-kept part h, h.kept)

components-slash :
    (c : ℕ) (cs part : Bytes)
    → IsPart part
    → components ((c ∷ cs) ++ b'/' ∷ part) ≡ components (c ∷ cs) ++ normal part ∷ []
unfolding components lead pieces
components-slash c cs part h =
    rw (split-append (c ∷ cs) part, split-of_Unbroken is_slash part h.whole)
      (simp (pieces-append, h.kept, append_assoc))

piece-empty : piece [] ≡ []
unfolding piece equal
piece-empty = refl

split-empty : split is_slash [] ≡ ([], [])
unfolding split
split-empty = refl

is_absolute-ended :
    (out part : Bytes) → is_absolute (out ++ b'/' ∷ part) ≡ is_absolute (out ++ b'/' ∷ [])
is_absolute-ended [] part = refl
is_absolute-ended (c ∷ cs) part = refl

-- A path that ends in a slash takes the part with no second one.
components-ended :
    (out part : Bytes)
    → IsPart part
    → components (out ++ b'/' ∷ part) ≡ components (out ++ b'/' ∷ []) ++ normal part ∷ []
unfolding components lead pieces
components-ended out part h =
    rw
      (
        is_absolute-ended out part,
        split-append out part,
        split-append out [],
        split-of_Unbroken is_slash part h.whole,
      )
      (simp (split-empty, pieces-append, piece-empty, h.kept, append_assoc, append-nil))

-- A path that needs no separator is empty or ends in one.
needs_separator-cases :
    (out : Bytes)
    → needs_separator out ≡ false
    → (out ≡ []) ⊎ ((front : Bytes) × (out ≡ front ++ b'/' ∷ []))
unfolding needs_separator
needs_separator-cases [] h = inl refl
needs_separator-cases (c ∷ []) h = inr ([], ground (arith, ==_iff c b'/'))
needs_separator-cases (b ∷ c ∷ cs) h = elim (needs_separator-cases (c ∷ cs) h) [
  | inl e ↦ absurd (cc)
  | inr (front, e) ↦ inr (b ∷ front, cc)
]

push-slash :
    (out part : Bytes)
    → IsPart part
    → needs_separator out ≡ true
    → push out part ≡ out ++ b'/' ∷ part
unfolding push
push-slash out part h e = rw (IsPart-absolute part h, e)

push-ended :
    (out part : Bytes) → IsPart part → needs_separator out ≡ false → push out part ≡ out ++ part
unfolding push
push-ended out part h e = rw (IsPart-absolute part h, e)

components-empty : components [] ≡ []
unfolding components lead split pieces piece equal
components-empty = refl

-- Pushing a part adds one component, whatever the path was.
pub components-push :
    (out part : Bytes)
    → IsPart part
    → components (push out part) ≡ components out ++ normal part ∷ []
components-push [] part h =
    rw (push-ended [] part h (unfold needs_separator in refl), components-empty)
      (components-part part h)
components-push (c ∷ cs) part h = elim (Bool-cases (needs_separator (c ∷ cs))) [
  | inl e ↦ rw (push-slash (c ∷ cs) part h e) (components-slash c cs part h)
  | inr e ↦ elim (needs_separator-cases (c ∷ cs) e) [
    | inl nil ↦ absurd (cc)
    | inr (front, ended) ↦ rw (push-ended (c ∷ cs) part h e) (
        subst (λ o. components (o ++ part) ≡ components o ++ normal part ∷ []) (sym ended)
          (rw (append_assoc front (b'/' ∷ []) part) (components-ended front part h)))
  ]
]
