-- ===== src/Wim/Dentry/Ends.antt =====
-- `unix_mode_from_tagged_items` and `parse_dirent` of src/format/wim.rs come to an end.
use mathlib.Core.Path.{subst}
use newtua_core.Base.Utf16.{from_utf16}
use newtua_core.Wim.Dentry.{
  units, decode_utf16le, direntry_fixed_len, RawDentry, tag_unix_data, unix_data_len, round_up,
  mode_loop, unix_mode_from_tagged_items, name_at, mode_between, dirent_at, mark_some,
  aligned_length, parse_dirent,
}
use newtua_core.Wim.Fields.{le_at}
use newtua_core.Base.Bytes.{Bytes, u64_mod, slice?}
use newtua_core.Base.{
  ltb, leb, ◌==◌, leb→le, ltb→le, Bool-cases, Option-cases, length, ℕ, zero, suc, ◌+◌, ◌-◌, ◌%◌,
  ◌^◌, ◌≤◌, ◌<◌, max, ◌≡◌, refl, sym, ◌⊎◌, inl, inr, Bool, true, false, not, ◌&&◌, ◌||◌, Option,
  none, some, arith,
}
use newtua_core.Error.{Result, Ensures, returns, fails, Ensures-bind, Ensures-if}

abbrev Ends {ℓ} : {A : Type ℓ} → Result A → Type ℓ
Ends r = Ensures (λ _. Unit {0}) r

no_more : (a : Bool) (n m : ℕ) → (a || ltb n m) ≡ false → m ≤ n
no_more true n m h = absurd (cc)
no_more false n m h = ltb→le n m h

leb→lt : (a b : ℕ) → leb a b ≡ false → b < a
leb→lt a b h = ground arith

mode_loop-Ends :
    (items : Bytes) (fuel at : ℕ)
    → 0 < fuel
    → length items < at + fuel
    → Ends (mode_loop items fuel at)
unfolding mode_loop
mode_loop-Ends items zero at g h = absurd (omega (arith, g))
mode_loop-Ends items (suc fuel) at g h =
    Ensures-if _ (ltb (length items) (at + 8)) _ _ (λ e. returns tt)
      (λ e. elim (Option-cases (slice? items (at + 8) (le_at 4 items (at + 4)))) [
        | inl n ↦ rw n (returns tt)
        | inr (item, n) ↦ rw n (
            Ensures-if _ (le_at 4 items at == tag_unix_data && leb unix_data_len (length item)) _ _
              (λ t. returns tt)
              (λ t.
                mode_loop-Ends items fuel (at + max (round_up (8 + length item)) 8)
                  (omega (arith, h, ltb→le _ _ e)) (omega (arith, h))))
      ])

-- The scan ends on any bytes.
pub unix_mode_from_tagged_items-Ends : (items : Bytes) → Ends (unix_mode_from_tagged_items items)
unfolding unix_mode_from_tagged_items
unix_mode_from_tagged_items-Ends items =
    mode_loop-Ends items (suc (length items)) 0 (omega arith) (omega arith)

mode_between-Ends : (meta : Bytes) (at next : ℕ) → Ends (mode_between meta at next)
unfolding mode_between
mode_between-Ends meta at next =
    Ensures-if _ (leb at next && leb next (length meta)) _ _
      (λ e. unix_mode_from_tagged_items-Ends _) (λ e. returns tt)

decode_utf16le-Ends : (b : Bytes) → Ends (decode_utf16le b)
unfolding decode_utf16le
decode_utf16le-Ends b =
    Ensures-if _ (not (length b % 2 == 0)) _ _ (λ e. fails)
      (λ e. elim (Option-cases (from_utf16 (units b))) [
        | inl n ↦ rw n fails
        | inr (s, n) ↦ rw n (returns tt)
      ])

name_at-Ends : (meta : Bytes) (start n : ℕ) → Ends (name_at meta start n)
unfolding name_at
name_at-Ends meta start n =
    Ensures-if _ (n == 0) _ _ (λ e. returns tt)
      (λ e.
        Ensures-if _ (ltb (length meta) (start + n)) _ _ (λ f. fails) (λ f. decode_utf16le-Ends _))

-- The place of the next entry is the one that the length leads to.
dirent_at-next : (meta : Bytes) (off next : ℕ) → Ensures (λ r. r.1 ≡ next) (dirent_at meta off next)
unfolding dirent_at
dirent_at-next meta off next =
    Ensures-bind _ _ _ _ (name_at-Ends meta _ _)
      (λ name p. Ensures-bind _ _ _ _ (mode_between-Ends meta _ next) (λ mode q. returns refl))

-- Where the walk goes on behind an entry at `off` of that length.
abbrev pub Follows : Bytes → ℕ → Option (RawDentry × ℕ) → Type 0
Follows meta off none = Unit
Follows meta off (some (d, next)) =
    ((2 ^ 64 - 8 < le_at 8 meta off) ⊎ (off + 16 ≤ next)) × (next ≤ length meta)

mark_some-Follows :
    (meta : Bytes) (off next : ℕ) {r : Result (RawDentry × ℕ)}
    → (2 ^ 64 - 8 < le_at 8 meta off) ⊎ (off + 16 ≤ next)
    → next ≤ length meta
    → Ensures (λ d. d.1 ≡ next) r
    → Ensures (Follows meta off) (mark_some r)
mark_some-Follows meta off next a b (returns {a = d} e) =
    returns
      (subst (λ m. (2 ^ 64 - 8 < le_at 8 meta off) ⊎ (off + 16 ≤ m)) (sym e) a, omega (arith, e, b))
mark_some-Follows meta off next a b fails = fails

aligned_length-le : (n : ℕ) → 8 < n → n ≤ 2 ^ 64 - 8 → 16 ≤ aligned_length n
aligned_length-le n a b = omega (arith, a, b)

past_or_on : (off n : ℕ) → 8 < n → (2 ^ 64 - 8 < n) ⊎ (off + 16 ≤ off + aligned_length n)
past_or_on off n h = elim (Bool-cases (leb n (2 ^ 64 - 8))) [
  | inl e ↦ inr (omega (arith, aligned_length-le n h (leb→le _ _ e)))
  | inr e ↦ inl (leb→lt _ _ e)
]

-- Parsing an entry ends on any bytes, and the next entry lies inside the metadata and at least
-- sixteen bytes on, where the length of the entry is at most 2^64 - 8.
pub parse_dirent-Follows :
    (meta : Bytes) (off : ℕ) → Ensures (Follows meta off) (parse_dirent meta off)
unfolding parse_dirent
parse_dirent-Follows meta off =
    Ensures-if _ (leb u64_mod (off + 8) || ltb (length meta) (off + 8)) _ _ (λ a. fails)
      (λ a.
        Ensures-if _ (leb (le_at 8 meta off) 8) _ _ (λ b. returns tt)
          (λ b.
            let next : ℕ = off + aligned_length (le_at 8 meta off) in
            Ensures-if _ (leb u64_mod next || ltb (length meta) next) _ _ (λ c. fails)
              (λ c.
                Ensures-if _ (ltb (length meta) (off + direntry_fixed_len)) _ _ (λ d. fails)
                  (λ d.
                    mark_some-Follows meta off next
                      (past_or_on off (le_at 8 meta off) (leb→lt _ _ b)) (no_more _ _ _ c)
                      (dirent_at-next meta off next)))))
