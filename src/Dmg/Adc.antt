-- ===== src/Dmg/Adc.antt =====
-- src/format/dmg.rs: the ADC decoder.
pub mod Bounds
pub mod RoundTrip
use newtua_core.Base.{
  ltb, ◌==◌, if◌then◌else◌, length, get_or, take, drop, ℕ, zero, suc, ◌+◌, ◌-◌, ◌*◌, ◌/◌, ◌%◌, ◌^◌,
  ◌||◌, [], ◌∷◌, ◌++◌,
}
use newtua_core.Base.Bytes.{Bytes}
use newtua_core.Error.{corrupt, Result, ok, err, stuck, ◌>>=◌}

-- `out.push(out[src + k])`, n times from `src` on; the index lies in `out`, else the access panics.
unfoldable pub push_back : ℕ → ℕ → Bytes → Bytes
push_back zero src out = out
push_back (suc n) src out = push_back n (src + 1) (out ++ get_or out src 0 ∷ [])

unfoldable pub adc_copy_overlap : Bytes → ℕ → ℕ → ℕ → Result Bytes
adc_copy_overlap out back n out_len =
    if ltb (length out) back || ltb out_len (length out + n)
    then err (corrupt "dmg: ADC back-reference out of bounds")
    else ok (push_back n (length out - back) out)

abbrev pub Rest : Type 0
Rest = Bytes → Bytes → Result Bytes

-- A run of the bytes that follow.
abbrev pub literal_run : ℕ → Bytes → Bytes → ℕ → Rest → Result Bytes
literal_run n bs out out_len more =
    if ltb (length bs) n || ltb out_len (length out + n)
    then err (corrupt "dmg: ADC literal run out of bounds")
    else more (drop n bs) (out ++ take n bs)

abbrev pub long_match : ℕ → Bytes → Bytes → ℕ → Rest → Result Bytes
long_match n (hi ∷ lo ∷ bs) out out_len more =
    adc_copy_overlap out (hi * 256 + lo + 1) n out_len >>= more bs
long_match n _ out out_len more = err (corrupt "dmg: ADC long match header truncated")

abbrev pub short_match : ℕ → ℕ → Bytes → Bytes → ℕ → Rest → Result Bytes
short_match n high (lo ∷ bs) out out_len more =
    adc_copy_overlap out (high * 256 + lo + 1) n out_len >>= more bs
short_match n high [] out out_len more = err (corrupt "dmg: ADC short match header truncated")

-- One round on the byte `b` and those behind it. `b & 0x80` is `b / 2 ^ 7 % 2`.
unfoldable pub adc_round : ℕ → Bytes → Bytes → ℕ → Rest → Result Bytes
adc_round b bs out out_len more =
    if b / 2 ^ 7 % 2 == 1
    then literal_run (b % 2 ^ 7 + 1) bs out out_len more
    else if b / 2 ^ 6 % 2 == 1
    then long_match (b % 2 ^ 6 + 4) bs out out_len more
    else short_match (b % 2 ^ 6 / 4 + 3) (b % 4) bs out out_len more

-- The loop on what is left of the input.
unfoldable pub adc_loop : ℕ → Bytes → Bytes → ℕ → Result Bytes
adc_loop zero input out out_len = stuck
adc_loop (suc fuel) [] out out_len = ok out
adc_loop (suc fuel) (b ∷ bs) out out_len =
    if ltb (length out) out_len
    then adc_round b bs out out_len (λ rest next. adc_loop fuel rest next out_len)
    else ok out

-- A round takes a byte or more of the input.
unfoldable pub adc_decode : Bytes → ℕ → Result Bytes
adc_decode input out_len = adc_loop (length input + 1) input [] out_len
