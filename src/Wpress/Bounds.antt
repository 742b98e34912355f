-- ===== src/Wpress/Bounds.antt =====
-- The walk of src/format/wpress.rs ends, and what it lists lies inside the file.
use newtua_core.Base.{
  ltb, ◌==◌, length, take, drop, All, ℕ, zero, suc, ◌+◌, ◌-◌, ◌≤◌, ◌<◌, String, ◌≡◌, refl, ap, Bool,
  true, false, Option, none, some, [], ◌∷◌, arith,
}
use newtua_core.Base.Bytes.{Bytes, u64_mod}
use newtua_core.Error.{Result, Ensures, returns, fails, Ensures-bind, Ensures-if}
use newtua_core.Wpress.Fields.{header_len, all_zero, RawHeader, parse_header}
use newtua_core.Wpress.Walk.{
  Record, Records, corrupt_or_unknown, read_block, add_offset, Round, finished, pushed, body_round,
  header_round, round, continue_with, walk, known_if_any, scan,
}

abbrev pub RecordFits : ℕ → Record → Type 0
RecordFits file_len r = r.offset + r.size ≤ file_len

-- Bodies inside the file, and a path for each record.
pub record RecordsFit (file_len : ℕ) (found : Records) : Type 0 where
  pub inside : All (RecordFits file_len) found.1
  pub parallel : length found.0 ≡ length found.1

abbrev RoundFits : ℕ → ℕ → Round → Type 0
RoundFits file_len pos finished = Unit
RoundFits file_len pos (pushed path r next) =
    (pos < next) × (next ≤ file_len) × RecordFits file_len r

corrupt_or_unknown-Ensures {ℓ} :
    {A : Type ℓ} (P : A → Type 0) (first : Bool) (message : String)
    → Ensures P (corrupt_or_unknown first message)
unfolding corrupt_or_unknown
corrupt_or_unknown-Ensures P true message = fails
corrupt_or_unknown-Ensures P false message = fails

add_offset-Ensures :
    (a b : ℕ) (message : String) → Ensures (λ n. n ≡ a + b) (add_offset a b message)
unfolding add_offset
add_offset-Ensures a b message =
    Ensures-if _ (ltb (a + b) u64_mod) _ _ (λ e. returns refl) (λ e. fails)

body_round-Ensures :
    (file_len pos : ℕ) (h : RawHeader) (body_off : ℕ) (first : Bool) (next : ℕ)
    → body_off ≡ pos + header_len
    → next ≡ body_off + h.size
    → Ensures (RoundFits file_len pos) (body_round file_len h body_off first next)
body_round-Ensures file_len pos h body_off first next b n =
    Ensures-if _ (ltb file_len next) _ _ (λ e. corrupt_or_unknown-Ensures _ first _)
      (λ e. returns (ground arith))

header_round-Ensures :
    (file_len pos : ℕ) (first : Bool) (h : Option RawHeader)
    → Ensures (RoundFits file_len pos) (header_round file_len pos first h)
header_round-Ensures file_len pos first none = corrupt_or_unknown-Ensures _ first _
header_round-Ensures file_len pos first (some h) =
    Ensures-bind _ _ _ _ (add_offset-Ensures _ _ _) λ body_off b.
      Ensures-bind _ _ _ _ (add_offset-Ensures _ _ _)
        λ next n. body_round-Ensures file_len pos h body_off first next b n

read_block-Ensures : (src : Bytes) (pos n : ℕ) → Ensures (λ b. Unit {0}) (read_block src pos n)
unfolding read_block
read_block-Ensures src pos n =
    Ensures-if _ (length (take n (drop pos src)) == n) _ _ (λ e. returns tt) (λ e. fails)

round-Ensures :
    (src : Bytes) (file_len pos : ℕ) (first : Bool)
    → Ensures (RoundFits file_len pos) (round src file_len pos first)
unfolding round
round-Ensures src file_len pos first =
    Ensures-if _ (file_len - pos == 0) _ _ (λ e. returns tt)
      λ e.
        Ensures-if _ (ltb (file_len - pos) header_len) _ _
          (λ short. Ensures-bind _ _ _ _ (read_block-Ensures _ _ _) λ tail _.
            Ensures-if _ (all_zero tail) _ _ (λ z. returns tt)
              (λ z. corrupt_or_unknown-Ensures _ first _))
          (λ long. Ensures-bind _ _ _ _ (read_block-Ensures _ _ _) λ block _.
            Ensures-if _ (all_zero block) _ _ (λ z. returns tt)
              (λ z. header_round-Ensures file_len pos first (parse_header block)))

continue_with-Ensures :
    (file_len pos : ℕ) (go : ℕ → Result Records) (r : Round)
    → RoundFits file_len pos r
    → ((next : ℕ) → pos < next → next ≤ file_len → Ensures (RecordsFit file_len) (go next))
    → Ensures (RecordsFit file_len) (continue_with go r)
continue_with-Ensures file_len pos go finished f more =
    returns (record { inside = tt; parallel = refl })
continue_with-Ensures file_len pos go (pushed path r next) (lt, le, fits) more =
    Ensures-bind _ _ _ _ (more next lt le)
      λ rest p. returns (record { inside = (fits, p.inside); parallel = ap suc p.parallel })

walk-Ensures :
    (src : Bytes) (file_len fuel pos : ℕ) (first : Bool)
    → pos ≤ file_len
    → file_len < fuel + pos
    → Ensures (RecordsFit file_len) (walk src file_len fuel pos first)
unfolding walk
walk-Ensures src file_len zero pos first le enough = absurd (omega arith)
walk-Ensures src file_len (suc fuel) pos first le enough =
    Ensures-bind _ _ _ _ (round-Ensures src file_len pos first) λ r f.
      continue_with-Ensures file_len pos _ r f
        λ next lt le'. walk-Ensures src file_len fuel next false le' (omega (arith, enough, lt))

known_if_any-Ensures :
    (file_len : ℕ) (found : Records)
    → RecordsFit file_len found
    → Ensures (λ l. RecordsFit file_len l × (0 < length l.1)) (known_if_any found)
known_if_any-Ensures file_len (paths, []) f = fails
known_if_any-Ensures file_len (paths, r ∷ rs) f = returns (f, omega arith)

-- On any bytes and for any file length, the walk over a dump ends within its fuel, with an error
-- or with a path for each record, at least one record, and bodies that all lie inside that length.
pub scan-RecordsFit :
    (src : Bytes) (file_len : ℕ)
    → Ensures (λ l. RecordsFit file_len l × (0 < length l.1)) (scan src file_len)
unfolding scan
scan-RecordsFit src file_len =
    Ensures-bind _ _ _ _
      (walk-Ensures src file_len (file_len + 1) 0 true (omega arith) (omega arith))
      λ found f. known_if_any-Ensures file_len found f
