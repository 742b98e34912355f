-- ===== src/Dmg/Adc/Bounds.antt =====
-- How much the ADC decoder of src/format/dmg.rs gives.
use newtua_core.Base.{
  ltb, ◌==◌, length, get_or, take, drop, length-append, length-take, length-drop, ℕ, zero, suc, ◌+◌,
  ◌-◌, ◌*◌, ◌/◌, ◌%◌, ◌^◌, ◌≤◌, ◌<◌, ◌≡◌, ◌||◌, [], ◌∷◌, ◌++◌, arith,
}
use newtua_core.Base.Bytes.{Bytes}
use newtua_core.Error.{◌>>=◌, Ensures, returns, fails, Ensures-bind, Ensures-if}
use newtua_core.Dmg.Adc.{
  push_back, adc_copy_overlap, Rest, literal_run, long_match, short_match, adc_round, adc_loop,
  adc_decode,
}

length-push_back : (n src : ℕ) (out : Bytes) → length (push_back n src out) ≡ length out + n
unfolding push_back
length-push_back zero src out = omega arith
length-push_back (suc n) src out = omega (
  arith,
  length-push_back n (src + 1) (out ++ get_or out src 0 ∷ []),
  length-append out (get_or out src 0 ∷ []),
)

abbrev Fits : ℕ → Bytes → Type 0
Fits out_len out = length out ≤ out_len

adc_copy_overlap-Fits :
    (out : Bytes) (back n out_len : ℕ)
    → Ensures (Fits out_len) (adc_copy_overlap out back n out_len)
unfolding adc_copy_overlap
adc_copy_overlap-Fits out back n out_len =
    Ensures-if _ (ltb (length out) back || ltb out_len (length out + n)) _ _ (λ e. fails)
      λ e.
        let small : length out + n ≤ out_len = ground arith in
        returns (omega (arith, length-push_back n (length out - back) out))

module _ (out_len bound : ℕ) (more : Rest)
    (good : (rest next : Bytes)
      → length rest < bound
      → Fits out_len next
      → Ensures (Fits out_len) (more rest next)) where
  literal_run-Fits :
      (n : ℕ) (bs out : Bytes)
      → length bs < bound
      → Ensures (Fits out_len) (literal_run n bs out out_len more)
  literal_run-Fits n bs out h =
      Ensures-if _ (ltb (length bs) n || ltb out_len (length out + n)) _ _ (λ e. fails)
        λ e.
          let small : length out + n ≤ out_len = ground arith in
          good (drop n bs) (out ++ take n bs) (omega (arith, length-drop n bs))
            (omega (arith, length-append out (take n bs), length-take n bs))

  copy-Fits :
      (back n : ℕ) (bs out : Bytes)
      → length bs < bound
      → Ensures (Fits out_len) (adc_copy_overlap out back n out_len >>= more bs)
  copy-Fits back n bs out h =
      Ensures-bind _ _ _ _ (adc_copy_overlap-Fits out back n out_len)
        λ next fits. good bs next h fits

  long_match-Fits :
      (n : ℕ) (bs out : Bytes)
      → length bs < bound
      → Ensures (Fits out_len) (long_match n bs out out_len more)
  long_match-Fits n [] out h = fails
  long_match-Fits n (hi ∷ []) out h = fails
  long_match-Fits n (hi ∷ lo ∷ bs) out h = copy-Fits (hi * 256 + lo + 1) n bs out (omega arith)

  short_match-Fits :
      (n high : ℕ) (bs out : Bytes)
      → length bs < bound
      → Ensures (Fits out_len) (short_match n high bs out out_len more)
  short_match-Fits n high [] out h = fails
  short_match-Fits n high (lo ∷ bs) out h = copy-Fits (high * 256 + lo + 1) n bs out (omega arith)

  adc_round-Fits :
      (b : ℕ) (bs out : Bytes)
      → length bs < bound
      → Ensures (Fits out_len) (adc_round b bs out out_len more)
  unfolding adc_round
  adc_round-Fits b bs out h =
      Ensures-if _ (b / 2 ^ 7 % 2 == 1) _ _ (λ _. literal_run-Fits (b % 2 ^ 7 + 1) bs out h)
        λ _.
          Ensures-if _ (b / 2 ^ 6 % 2 == 1) _ _ (λ _. long_match-Fits (b % 2 ^ 6 + 4) bs out h)
            λ _. short_match-Fits (b % 2 ^ 6 / 4 + 3) (b % 4) bs out h

adc_loop-Fits :
    (fuel : ℕ) (input out : Bytes) (out_len : ℕ)
    → length input < fuel
    → Fits out_len out
    → Ensures (Fits out_len) (adc_loop fuel input out out_len)
unfolding adc_loop
adc_loop-Fits zero input out out_len h fits = absurd (omega arith)
adc_loop-Fits (suc fuel) [] out out_len h fits = returns fits
adc_loop-Fits (suc fuel) (b ∷ bs) out out_len h fits =
    Ensures-if _ (ltb (length out) out_len) _ _
      (λ _.
        adc_round-Fits out_len fuel _ (λ rest next k f. adc_loop-Fits fuel rest next out_len k f) b
          bs out (omega arith))
      λ _. returns fits

-- On any bytes `adc_decode` ends within its fuel, with an error or with no more bytes than were
-- asked for.
pub adc_decode-Fits :
    (input : Bytes) (out_len : ℕ) → Ensures (λ out. length out ≤ out_len) (adc_decode input out_len)
unfolding adc_decode
adc_decode-Fits input out_len =
    adc_loop-Fits (length input + 1) input [] out_len (omega arith) (omega arith)
