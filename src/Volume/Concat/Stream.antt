-- ===== src/Volume/Concat/Stream.antt =====
-- `ConcatReader` of src/volume.rs reads its volumes as one stream.
use native.Mathlib.Numerals.{add-one}
use newtua_core.Base.{
  ◌==◌, ==_iff, Bool-cases, Option-cases, length, get_elem?, take, drop, length-take,
  take-append-drop, ℕ, zero, suc, ◌+◌, ◌-◌, ◌≤◌, ◌<◌, ◌≡◌, refl, sym, ap, ◌∙◌, ◌⊎◌, inl, inr,
  Option, none, some, List, [], ◌∷◌, ◌++◌, append_assoc, arith,
}
use newtua_core.Base.Bytes.{Bytes}
use newtua_core.Error.{Result, ok}
use newtua_core.Volume.Concat.{ConcatReader, from_current, read_with, round, read_loop, read}

module _ (contents : Bytes → Bytes) where
  -- A file system on which every volume opens.
  abbrev pub open_ok : Bytes → Result Bytes
  open_ok path = ok (contents path)

  abbrev pub volumes : List Bytes → Bytes
  volumes [] = []
  volumes (p ∷ ps) = contents p ++ volumes ps

  abbrev pub left_of : Option Bytes → Bytes
  left_of none = []
  left_of (some left) = left

  -- The bytes that the stream has yet to give.
  abbrev pub remaining : ConcatReader → Bytes
  remaining r = left_of r.current ++ volumes (drop r.idx r.files)

  -- What a read on a buffer of `n` bytes does: it gives a piece of the front, which is empty only
  -- at the end of the stream, and leaves the rest.
  pub record Reads (n : ℕ) (r : ConcatReader) (res : Bytes × ConcatReader) : Type 0 where
    pub split : res.0 ++ remaining res.1 ≡ remaining r
    pub fits : length res.0 ≤ n
    pub progress : (0 < length res.0) ⊎ (remaining r ≡ [])
    pub idx_le : res.1.idx ≤ length res.1.files

-- The run ends with a value, and no error, and the value has the property.
abbrev pub Gives {ℓ} : {A : Type ℓ} → (A → Type 0) → Result A → Type ℓ
Gives {A} P r = (a : A) × (r ≡ ok a) × P a

drop-get_elem? :
    (xs : List Bytes) (i : ℕ) {x : Bytes}
    → get_elem? xs i ≡ some x
    → (drop i xs ≡ x ∷ drop (i + 1) xs) × (i < length xs)
drop-get_elem? [] i e = absurd (cc)
drop-get_elem? (y ∷ xs) zero e = (cc, omega arith)
drop-get_elem? (y ∷ xs) (suc i) e =
    let (a, b) = drop-get_elem? xs i e in (a ∙ rw (add-one, add-one), omega (arith, b))

drop-get_elem?-none : (xs : List Bytes) (i : ℕ) → get_elem? xs i ≡ none → drop i xs ≡ []
drop-get_elem?-none [] zero e = refl
drop-get_elem?-none [] (suc i) e = refl
drop-get_elem?-none (y ∷ xs) zero e = cc
drop-get_elem?-none (y ∷ xs) (suc i) e = drop-get_elem?-none xs i e

length-zero : (xs : Bytes) → length xs ≡ 0 → xs ≡ []
length-zero [] e = refl
length-zero (x ∷ xs) e = absurd (omega arith)

take-zero : (n : ℕ) (xs : Bytes) → 0 < n → length (take n xs) ≡ 0 → xs ≡ []
take-zero n xs h e = length-zero xs (omega (arith, length-take n xs))

-- How many rounds may pass before one ends the loop.
abbrev rounds_left : List Bytes → ℕ → Option Bytes → ℕ
rounds_left files idx none = length files - idx
rounds_left files idx (some left) = length files - idx + 1

abbrev at : List Bytes → ℕ → Option Bytes → ConcatReader
at files idx current = record { files = files; idx = idx; current = current }

rounds_enough :
    (files : List Bytes) (idx : ℕ) (current : Option Bytes)
    → idx ≤ length files
    → rounds_left files idx current < length files + 2 - idx
rounds_enough files idx none h = omega arith
rounds_enough files idx (some left) h = omega arith

module _ (contents : Bytes → Bytes) (n : ℕ) (pos : 0 < n) where
  Reads-along :
      (a b : ConcatReader) (res : Bytes × ConcatReader)
      → remaining contents a ≡ remaining contents b
      → Reads contents n a res
      → Reads contents n b res
  Reads-along a b res e r = record {
    split = r.split ∙ e;
    fits = r.fits;
    progress = elim r.progress [ inl more ↦ inl more | inr gone ↦ inr (sym e ∙ gone) ];
    idx_le = r.idx_le;
  }

  -- A read of an open file, from which `start` differs in nothing that is left to give.
  from_current-Reads :
      (start r : ConcatReader) (left : Bytes) (again : ConcatReader → Result (Bytes × ConcatReader))
      → remaining contents start ≡ left ++ volumes contents (drop r.idx r.files)
      → r.idx ≤ length r.files
      → (let next = record r { current = none } in Gives (Reads contents n next) (again next))
      → Gives (Reads contents n start) (read_with again start (from_current n r left))
  from_current-Reads start r left again e h later = elim (Bool-cases (length (take n left) == 0)) [
    | inl used ↦
        let gone : left ≡ [] = take-zero n left pos ((==_iff _ 0).0 used) in
        rw used (
          let (res, ran, p) = later in
          (
            res,
            ran,
            Reads-along (record r { current = none }) start res (sym (e ∙ rw gone refl)) p,
          ))
    | inr more ↦ rw more (
      _,
      refl,
      (record {
        split =
            sym (append_assoc (take n left) (drop n left) _)
            ∙ ap (λ s. s ++ volumes contents (drop r.idx r.files)) (take-append-drop n left)
            ∙ sym e;
        fits = omega (arith, length-take n left);
        progress = inl (ground arith);
        idx_le = h;
      }),
    )
  ]

  read_loop-Reads :
      (fuel : ℕ) (files : List Bytes) (idx : ℕ) (current : Option Bytes)
      → rounds_left files idx current < fuel
      → idx ≤ length files
      → Gives
          (Reads contents n (at files idx current))
          (read_loop (open_ok contents) fuel n (at files idx current))
  unfolding read_loop round
  read_loop-Reads zero files idx current enough h = absurd (omega arith)
  read_loop-Reads (suc fuel) files idx (some left) enough h =
      from_current-Reads (at files idx (some left)) (at files idx (some left)) left
        (read_loop (open_ok contents) fuel n) refl h
        (read_loop-Reads fuel files idx none (omega (arith, enough)) h)
  read_loop-Reads (suc fuel) files idx none enough h = elim (Option-cases (get_elem? files idx)) [
    | inl f ↦ rw f (
      _,
      refl,
      (record {
        split = refl;
        fits = omega arith;
        progress = inr (ap (volumes contents) (drop-get_elem?-none files idx f));
        idx_le = h;
      }),
    )
    | inr (path, f) ↦
        let (dropped, lt) = drop-get_elem? files idx f in
        rw f (
          from_current-Reads (at files idx none) (at files (idx + 1) none) (contents path)
            (read_loop (open_ok contents) fuel n) (ap (volumes contents) dropped)
            (omega (arith, lt))
            (read_loop-Reads fuel files (idx + 1) none (omega (arith, enough, lt))
              (omega (arith, lt))))
  ]

  -- On a file system where every volume opens, a read on a buffer that is not empty always
  -- returns: it gives a piece of the front of what is left of the volumes that fits the buffer,
  -- leaves the rest, and the piece is empty only when nothing is left.
  pub read-Reads :
      (r : ConcatReader)
      → r.idx ≤ length r.files
      → Gives (Reads contents n r) (read (open_ok contents) n r)
  unfolding read
  read-Reads r h =
      read_loop-Reads (length r.files + 2 - r.idx) r.files r.idx r.current
        (rounds_enough r.files r.idx r.current h) h
