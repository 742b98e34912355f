-- ===== src/Volume/Join/Eocd.antt =====
-- `find_eocd` of src/volume.rs: which end record it picks.
use mathlib.Core.Path.{subst}
use mathlib.Core.Path.{subst}
use newtua_core.Base.{
  ltb, leb, if◌then◌else◌, Bool-cases, length, take, drop, length-drop, ℕ, zero, suc, ◌+◌, ◌-◌, ◌≤◌,
  ◌<◌, min, ◌≡◌, refl, sym, ap, ◌∙◌, ◌⊎◌, inl, inr, none, some, [], ◌∷◌, arith,
}
use newtua_core.Base.Bytes.{Bytes, slice?}
use newtua_core.Error.{Result, ok, err, stuck, ◌>>=◌}
use newtua_core.Volume.Fields.{le_or_corrupt, le_u16}
use newtua_core.Volume.Join.Search.{IsEocd, Searched, found, missing, eocd_loop-Searched}
use newtua_core.Volume.Join.{no_eocd, eocd_loop, find_eocd}

abbrev no_bytes : Bytes
no_bytes = []

drop-nil : (k : ℕ) → drop k no_bytes ≡ []
drop-nil zero = refl
drop-nil (suc k) = refl

zero_front : (a : ℕ) → a ≡ 0 + a
zero_front a = omega arith

drop-drop : (a b : ℕ) (xs : Bytes) → drop a (drop b xs) ≡ drop (b + a) xs
drop-drop a zero xs = ap (λ k. drop k xs) (zero_front a)
drop-drop a (suc b) [] = drop-nil a ∙ sym (drop-nil (suc b + a))
drop-drop a (suc b) (x ∷ xs) =
    drop-drop a b xs ∙ ap (λ k. drop k (x ∷ xs)) {x = suc (b + a)} (omega arith)

le_u16-drop : (s i : ℕ) (xs : Bytes) → s ≤ length xs → le_u16 (drop s xs) i ≡ le_u16 xs (s + i)
unfolding le_u16 slice?
le_u16-drop s i xs h =
    rw (drop-drop i s xs, length-drop s xs)
      (ap (λ b. le_or_corrupt (if b then some (take 2 (drop (s + i) xs)) else none)) (ground arith))

module _ (file : Bytes) (s : ℕ) (h : s ≤ length file) where
  up : (p : ℕ) → IsEocd (drop s file) p → IsEocd file (s + p)
  up p i = record {
    sig = ap (take 4) (sym (drop-drop p s file)) ∙ i.sig;
    comment = i.comment;
    comment_len =
        ap (le_u16 file) (omega arith) ∙ sym (le_u16-drop s (p + 20) file h) ∙ i.comment_len;
    to_the_end = omega (arith, i.to_the_end, length-drop s file);
  }

  down : (q : ℕ) → s ≤ q → IsEocd file q → IsEocd (drop s file) (q - s)
  down q le i = record {
    sig =
        ap (take 4) (drop-drop (q - s) s file ∙ ap (λ k. drop k file) (omega (arith, le))) ∙ i.sig;
    comment = i.comment;
    comment_len =
        le_u16-drop s (q - s + 20) file h ∙ ap (le_u16 file) (omega (arith, le)) ∙ i.comment_len;
    to_the_end = omega (arith, i.to_the_end, length-drop s file, le);
  }

-- What the search of a whole file comes to. A record has 22 bytes and a comment of 65535 at most.
pub data Found (file : Bytes) : Result (ℕ × Bytes) → Type 0 where
  last_one :
      {off : ℕ}
      → IsEocd file off
      → ((q : ℕ) → off < q → ¬ IsEocd file q)
      → Found file (ok (off, drop off file))
  not_there :
      ((q : ℕ) → length file ≤ q + (22 + 0xffff) → ¬ IsEocd file q) → Found file (err no_eocd)

none_past :
    (file : Bytes) (s p : ℕ) (h : s ≤ length file)
    → s + 22 ≤ length file
    → ((q : ℕ) → p < q → q < length file - s - 22 + 1 → ¬ IsEocd (drop s file) q)
    → (q : ℕ) → s + p < q
    → ¬ IsEocd file q
none_past file s p h wide f q lt i =
    f (q - s) (omega (arith, lt)) (omega (arith, i.to_the_end, lt))
      (down file s h q (omega (arith, lt)) i)

window-Searched :
    (buf : Bytes) (w k : ℕ)
    → length buf ≡ w
    → 22 ≤ w
    → k ≡ w - 22 + 1
    → Searched buf k (eocd_loop (w - 22 + 1) buf w)
window-Searched buf w k len wide e =
    rw (e, ← len) (eocd_loop-Searched (length buf - 22 + 1) buf (omega (arith, len, wide)))

Found-from :
    (file : Bytes) (s : ℕ) (r : Result ℕ)
    → s ≡ length file - min (length file) (22 + 0xffff)
    → s + 22 ≤ length file
    → Searched (drop s file) (length file - s - 22 + 1) r
    → Found file (r >>= λ p. ok (s + p, drop p (drop s file)))
Found-from file s (ok _) start wide (found {off = p} l) =
    let h : s ≤ length file = omega (arith, wide) in
    subst (λ rec. Found file (ok (s + p, rec))) (sym (drop-drop p s file))
      (last_one (up file s h p l.here) (none_past file s p h wide l.none_behind))
Found-from file s stuck start wide x = elim x [ ]
Found-from file s (err e) start wide (missing f) =
    let h : s ≤ length file = omega (arith, wide) in
    not_there (λ q w i.
      let le : s ≤ q = omega (arith, start, w) in
      f (q - s) (omega (arith, i.to_the_end, le)) (down file s h q le i))

-- The search of the end of a file finds its last end record, or else the file has none that starts
-- in the last 65557 bytes, and the run ends with the error that says so.
find_eocd-Found : (file : Bytes) → Found file (find_eocd file)
unfolding find_eocd
find_eocd-Found file =
    let window : ℕ = min (length file) (22 + 0xffff) in
    let s : ℕ = length file - window in
    elim (Bool-cases (leb 22 window)) [
      | inr e ↦ rw e (not_there (λ q w i. absurd (ground (arith, i.to_the_end))))
      | inl e ↦
          let len : length (drop s file) ≡ window = omega (arith, length-drop s file) in
          let wide : 22 ≤ window = ground arith in
          rw e (
            Found-from file s _ refl (omega (arith, wide)) (
              window-Searched (drop s file) window _ len wide
                (omega (arith, len, length-drop s file, wide))))
    ]

-- What the search comes to, held against one place of the file: the record that it gives is not in
-- front of another one, or there is none in reach of the search.
pub data Judged (file : Bytes) (q : ℕ) : Result (ℕ × Bytes) → Type 0 where
  chosen :
      {off : ℕ}
      → IsEocd file off
      → (q ≤ off) ⊎ (¬ IsEocd file q)
      → Judged file q (ok (off, drop off file))
  out_of_reach : (q + (22 + 0xffff) < length file) ⊎ (¬ IsEocd file q) → Judged file q (err no_eocd)

order : (a b : ℕ) → (a < b) ⊎ (b ≤ a)
order a b = elim (Bool-cases (ltb a b)) [ inl e ↦ inl (ground arith) | inr e ↦ inr (ground arith) ]

judge : (file : Bytes) (q : ℕ) {r : Result (ℕ × Bytes)} → Found file r → Judged file q r
judge file q (last_one {off = o} here none_behind) =
    chosen here (elim (order o q) [ inl lt ↦ inr (none_behind q lt) | inr le ↦ inl le ])
judge file q (not_there none_in) = out_of_reach (elim (order (q + (22 + 0xffff)) (length file)) [
  | inl lt ↦ inl lt
  | inr le ↦ inr (none_in q le)
])

-- On any file, `find_eocd` gives the place of an end record, whose comment reaches just to the end
-- of the file, and the bytes from there on, and no place of the file behind it holds an end
-- record; or it ends with the error of a missing record, and no place within the last 65557 bytes
-- of the file holds one.
pub find_eocd-Judged : (file : Bytes) (q : ℕ) → Judged file q (find_eocd file)
find_eocd-Judged file q = judge file q (find_eocd-Found file)
