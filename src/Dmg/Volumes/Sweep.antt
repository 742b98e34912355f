-- ===== src/Dmg/Volumes/Sweep.antt =====
-- The sweep of src/format/dmg.rs, against the single sector boundaries.
use newtua_core.Base.{
  ltb, ltb→lt, ltb→le, Bool-cases, Option-cases, length, ℕ, zero, suc, ◌+◌, ◌*◌, ◌≤◌, ◌<◌, ◌≡◌, ap,
  ◌∙◌, inl, inr, Bool, Option, none, some, arith,
}
use newtua_core.Base.Bytes.{Bytes, slice?}
use newtua_core.Error.{Result, Ensures, returns}
use newtua_core.Dmg.Volumes.{try_open, sweep_loop, sweep_for_volume}

module _ {R : Type 0} (matches : Bytes → Bool) (magic_offset n : ℕ) (open_at : Bytes → ℕ → Result R)
    (raw : Bytes) where
  abbrev pub on_slot : ℕ → Option Bytes → Option R
  on_slot s none = none
  on_slot s (some sig) = try_open (matches sig) (open_at raw s)

  -- What the boundary of a number gives.
  abbrev pub attempt : ℕ → Option R
  attempt i = on_slot (i * 512) (slice? raw (i * 512 + magic_offset) n)

  pub data FirstVolume : Option R → Type 0 where
    mounted :
        (i : ℕ) {reader : R}
        → attempt i ≡ some reader
        → ((k : ℕ) → k < i → attempt k ≡ none)
        → FirstVolume (some reader)
    nowhere : ((k : ℕ) → attempt k ≡ none) → FirstVolume none

slice?-beyond : (raw : Bytes) (s t n : ℕ) → s ≤ t → slice? raw s n ≡ none → slice? raw t n ≡ none
unfolding slice?
slice?-beyond raw s t n le h = ground (arith, le, h)

slice?-inside : (raw : Bytes) (s n : ℕ) (b : Bytes) → slice? raw s n ≡ some b → s + n ≤ length raw
unfolding slice?
slice?-inside raw s n b h = ground (arith, h)

below-suc :
    {R : Type 0} (f : ℕ → Option R) (i : ℕ)
    → f i ≡ none
    → ((k : ℕ) → k < i → f k ≡ none)
    → (k : ℕ) → k < i + 1
    → f k ≡ none
below-suc f i here below k h = elim (Bool-cases (ltb k i)) [
  | inl e ↦ below k (ltb→lt k i e)
  | inr e ↦ let same : k ≡ i = omega (arith, ltb→le k i e) in ap f same ∙ here
]

module _ {R : Type 0} (matches : Bytes → Bool) (magic_offset n : ℕ) (open_at : Bytes → ℕ → Result R)
    (raw : Bytes) where
  abbrev tried : ℕ → Option R
  tried = attempt matches magic_offset n open_at raw

  abbrev IsFirst : Option R → Type 0
  IsFirst = FirstVolume matches magic_offset n open_at raw

  silent-beyond :
      (i : ℕ)
      → ((k : ℕ) → k < i → tried k ≡ none)
      → slice? raw (i * 512 + magic_offset) n ≡ none
      → (k : ℕ) → tried k ≡ none
  silent-beyond i below gone k = elim (Bool-cases (ltb k i)) [
    | inl e ↦ below k (ltb→lt k i e)
    | inr e ↦
        let far : i * 512 + magic_offset ≤ k * 512 + magic_offset = omega (arith, ltb→le k i e) in
        ap (on_slot matches magic_offset n open_at raw (k * 512))
          (slice?-beyond raw (i * 512 + magic_offset) (k * 512 + magic_offset) n far gone)
  ]

  sweep_loop-IsFirst :
      (fuel i : ℕ)
      → length raw < i + fuel
      → i * 512 ≤ length raw + 511
      → 0 < n
      → ((k : ℕ) → k < i → tried k ≡ none)
      → Ensures IsFirst (sweep_loop matches magic_offset n open_at raw fuel (i * 512))
  unfolding sweep_loop
  sweep_loop-IsFirst zero i enough near some_sig below = absurd (omega arith)
  sweep_loop-IsFirst (suc fuel) i enough near some_sig below =
      elim (Option-cases (slice? raw (i * 512 + magic_offset) n)) [
        | inl gone ↦ rw gone (returns (nowhere (silent-beyond i below gone)))
        | inr (sig, here) ↦
            let inside = slice?-inside raw (i * 512 + magic_offset) n sig here in
            elim (Option-cases (try_open (matches sig) (open_at raw (i * 512)))) [
              | inl shut ↦
                  let missed : tried i ≡ none =
                    ap (on_slot matches magic_offset n open_at raw (i * 512)) here ∙ shut in
                  let next : (i + 1) * 512 ≡ i * 512 + 512 = omega arith in
                  rw (here, shut, ← next)
                    (sweep_loop-IsFirst fuel (i + 1) (omega arith) (omega arith) some_sig
                      (below-suc tried i missed below))
              | inr (reader, opened) ↦
                  let hit : tried i ≡ some reader =
                    ap (on_slot matches magic_offset n open_at raw (i * 512)) here ∙ opened in
                  rw (here, opened) (returns (mounted i hit below))
            ]
      ]

  -- For a signature of at least one byte the sweep over the sector boundaries ends within its
  -- fuel; it gives the volume of the first boundary that has the signature and opens, and none
  -- only when no boundary does.
  pub sweep_for_volume-FirstVolume :
      0 < n
      → Ensures
          (FirstVolume matches magic_offset n open_at raw)
          (sweep_for_volume matches magic_offset n open_at raw)
  unfolding sweep_for_volume
  sweep_for_volume-FirstVolume some_sig =
      sweep_loop-IsFirst (length raw + 1) 0 (omega arith) (omega arith) some_sig
        λ k h. absurd (omega arith)
