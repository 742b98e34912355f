-- ===== src/Xar/Ends.antt =====
-- The fuel of the guard of src/format/xar.rs.
use newtua_core.Base.{
  ltb, ◌==◌, if◌then◌else◌, length, drop, length-drop, ℕ, zero, suc, ◌+◌, ◌-◌, ◌≤◌, ◌<◌, ◌≡◌, refl,
  ◌≢◌, Bool, true, false, not, ◌&&◌, ◌||◌, Option, none, some, [], ◌∷◌, arith,
}
use newtua_core.Base.Bytes.{Bytes}
use newtua_core.Base.Text.{strip_prefix, starts_with, cut_here, split_once}
use newtua_core.Error.{Result, stuck, Ensures, returns, Ensures-ne-stuck, Ensures-if}
use newtua_core.Xar.{
  after_byte, rest_of, after_pattern, comment_start, comment_end, cdata_start, cdata_end, next_is,
  next_quote, tag_end, Rest, on_end, on_tag, at_angle, nesting_loop, exceeds_nesting_depth,
}

-- A rest, if there is one, that is not longer than the text.
data Shorter (n : ℕ) : Option Bytes → Type 0 where
  nothing : Shorter n none
  shorter : {rest : Bytes} → length rest ≤ n → Shorter n (some rest)

abbrev Ends : Result Bool → Type 0
Ends = Ensures (λ b. b ≡ b)

if-Shorter :
    (n : ℕ) (b : Bool) (x y : Option Bytes)
    → Shorter n x
    → Shorter n y
    → Shorter n (if b then x else y)
if-Shorter n true x y p q = p
if-Shorter n false x y p q = q

longer-Shorter : {m n : ℕ} {o : Option Bytes} → m ≤ n → Shorter m o → Shorter n o
longer-Shorter le nothing = nothing
longer-Shorter le (shorter h) = shorter (omega arith)

after_byte-Shorter : (c : ℕ) (bs : Bytes) → Shorter (length bs) (after_byte c bs)
unfolding after_byte
after_byte-Shorter c [] = nothing
after_byte-Shorter c (b ∷ bs) =
    if-Shorter _ (b == c) _ _ (shorter (omega arith))
      (longer-Shorter (omega arith) (after_byte-Shorter c bs))

strip_prefix-Shorter : (p s : Bytes) → Shorter (length s) (strip_prefix p s)
unfolding strip_prefix
strip_prefix-Shorter [] s = shorter (omega arith)
strip_prefix-Shorter (p ∷ ps) [] = nothing
strip_prefix-Shorter (p ∷ ps) (c ∷ cs) =
    if-Shorter _ (c == p) _ _ (longer-Shorter (omega arith) (strip_prefix-Shorter ps cs)) nothing

cut_here-Shorter :
    (n c : ℕ) (here : Option Bytes) (later : Option (Bytes × Bytes))
    → Shorter n here
    → Shorter n (rest_of later)
    → Shorter n (rest_of (cut_here c here later))
cut_here-Shorter n c (some rest) later p q = p
cut_here-Shorter n c none none p q = nothing
cut_here-Shorter n c none (some (front, rest)) p q = q

after_pattern-Shorter : (pat bs : Bytes) → Shorter (length bs) (after_pattern pat bs)
unfolding after_pattern split_once
after_pattern-Shorter pat [] = nothing
after_pattern-Shorter pat (c ∷ cs) =
    cut_here-Shorter _ c (strip_prefix pat (c ∷ cs)) (split_once pat cs)
      (strip_prefix-Shorter pat (c ∷ cs))
      (longer-Shorter (omega arith) (after_pattern-Shorter pat cs))

abbrev tag_rest : Option (ℕ × Bytes) → Option Bytes
tag_rest none = none
tag_rest (some (_, rest)) = some rest

if-tag :
    (n : ℕ) (b : Bool) (x y : Option (ℕ × Bytes))
    → Shorter n (tag_rest x)
    → Shorter n (tag_rest y)
    → Shorter n (tag_rest (if b then x else y))
if-tag n true x y p q = p
if-tag n false x y p q = q

tag_end-Shorter :
    (quote prev : ℕ) (bs : Bytes) → Shorter (length bs) (tag_rest (tag_end quote prev bs))
unfolding tag_end
tag_end-Shorter quote prev [] = nothing
tag_end-Shorter quote prev (c ∷ cs) =
    if-tag _ (quote == 0 && c == b'>') _ _ (shorter (omega arith))
      (longer-Shorter (omega arith) (tag_end-Shorter (next_quote quote c) c cs))

module _ (n : ℕ) (more : Rest)
    (good : (depth : ℕ) (rest : Bytes) → length rest ≤ n → Ends (more depth rest)) where
  on_end-Ends : (depth : ℕ) (o : Option Bytes) → Shorter n o → Ends (on_end depth o more)
  on_end-Ends depth none nothing = returns refl
  on_end-Ends depth (some rest) (shorter h) = good depth rest h

  on_tag-Ends :
      (limit depth : ℕ) (o : Option (ℕ × Bytes))
      → Shorter n (tag_rest o)
      → Ends (on_tag limit depth o more)
  on_tag-Ends limit depth none nothing = returns refl
  on_tag-Ends limit depth (some (prev, rest)) (shorter h) =
      Ensures-if _ (prev == b'/') _ _ (λ _. good depth rest h)
        λ _.
          Ensures-if _ (ltb limit (depth + 1)) _ _ (λ _. returns refl) λ _. good (depth + 1) rest h

  at_angle-Ends :
      (limit depth : ℕ) (cs : Bytes) → length cs ≤ n → Ends (at_angle limit depth cs more)
  unfolding at_angle
  at_angle-Ends limit depth cs h =
      let past = λ (k : ℕ) (p : Bytes).
        longer-Shorter {n = n} (omega (arith, h, length-drop k cs))
          (after_pattern-Shorter p (drop k cs)) in
      let byte =
        longer-Shorter {n = n} (omega (arith, h, length-drop 1 cs))
          (after_byte-Shorter b'>' (drop 1 cs)) in
      Ensures-if _ (starts_with (b'<' ∷ cs) comment_start) _ _
        (λ _. on_end-Ends depth _ (past 3 comment_end))
        λ _.
          Ensures-if _ (starts_with (b'<' ∷ cs) cdata_start) _ _
            (λ _. on_end-Ends depth _ (past 8 cdata_end))
            λ _.
              Ensures-if _ (next_is cs b'?' || next_is cs b'!') _ _ (λ _. on_end-Ends depth _ byte)
                λ _.
                  Ensures-if _ (next_is cs b'/') _ _ (λ _. on_end-Ends (depth - 1) _ byte)
                    λ _. on_tag-Ends limit depth _ (longer-Shorter h (tag_end-Shorter 0 0 cs))

nesting_loop-Ends :
    (fuel limit depth : ℕ) (bs : Bytes) → length bs < fuel → Ends (nesting_loop fuel limit depth bs)
unfolding nesting_loop
nesting_loop-Ends zero limit depth bs h = absurd (omega arith)
nesting_loop-Ends (suc fuel) limit depth [] h = returns refl
nesting_loop-Ends (suc fuel) limit depth (c ∷ cs) h =
    Ensures-if _ (not (c == b'<')) _ _ (λ _. nesting_loop-Ends fuel limit depth cs (omega arith))
      λ _.
        at_angle-Ends (length cs) (nesting_loop fuel limit)
          (λ d rest k. nesting_loop-Ends fuel limit d rest (omega arith)) limit depth cs
          (omega arith)

pub exceeds_nesting_depth_ends : (xml : Bytes) (limit : ℕ) → exceeds_nesting_depth xml limit ≢ stuck
unfolding exceeds_nesting_depth
exceeds_nesting_depth_ends xml limit =
    Ensures-ne-stuck _ (nesting_loop-Ends (length xml + 1) limit 0 xml (omega arith))
