-- ===== src/Dmg/Adc/RoundTrip.antt =====
-- What the ADC decoder of src/format/dmg.rs gives on runs and matches that were written for it.
use newtua_core.Base.{
  ltb, ◌==◌, lt→ltb, ==_iff, length, get_elem?, get_or, length-append, take-append, drop-append, ℕ,
  zero, suc, ◌+◌, ◌-◌, ◌*◌, ◌/◌, ◌%◌, ◌^◌, ◌≤◌, ◌<◌, ◌≡◌, refl, sym, ap, ◌∙◌, true, false, ◌||◌,
  some, List, [], ◌∷◌, ◌++◌, append-nil, append_assoc, arith,
}
use newtua_core.Base.Bytes.{Bytes}
use newtua_core.Error.{ok}
use newtua_core.Dmg.Adc.{
  push_back, adc_copy_overlap, Rest, literal_run, adc_round, adc_loop, adc_decode,
}

-- Bytes as they stand, or a copy of so many bytes from so far back, in two forms.
pub data Token : Type 0 where
  literal : Bytes → Token
  long short : ℕ → ℕ → Token

abbrev pub encode_token : Token → Bytes
encode_token (literal bs) = (127 + length bs) ∷ bs
encode_token (long back n) = (60 + n) ∷ ((back - 1) / 256) ∷ ((back - 1) % 256) ∷ []
encode_token (short back n) = ((n - 3) * 4 + (back - 1) / 256) ∷ ((back - 1) % 256) ∷ []

abbrev pub encode : List Token → Bytes
encode [] = []
encode (t ∷ ts) = encode_token t ++ encode ts

-- `w` are the bytes that a copy from `src` on adds to `out`, which may be among those it added.
pub data Copies : Bytes → ℕ → Bytes → Type 0 where
  copied : {out : Bytes} {src : ℕ} → Copies out src []
  copy_more :
      {out w : Bytes} {src x : ℕ}
      → get_elem? out src ≡ some x
      → Copies (out ++ x ∷ []) (src + 1) w
      → Copies out src (x ∷ w)

-- A match of `n` bytes from `back` bytes back, with `lo` to `hi` bytes and no further back than `far`.
pub record Match (lo hi far : ℕ) (out : Bytes) (back n : ℕ) (w : Bytes) : Type 0 where
  pub counted : length w ≡ n
  pub least : lo ≤ n
  pub most : n ≤ hi
  pub some_way : 1 ≤ back
  pub within : back ≤ length out
  pub near : back ≤ far
  pub copies : Copies out (length out - back) w

-- What tokens make of the bytes so far.
pub data Replays : List Token → Bytes → Bytes → Type 0 where
  finished : {out : Bytes} → Replays [] out out
  literally :
      {bs out all : Bytes} {ts : List Token}
      → 1 ≤ length bs
      → length bs ≤ 128
      → Replays ts (out ++ bs) all
      → Replays (literal bs ∷ ts) out all
  by_long :
      {back n : ℕ} {w out all : Bytes} {ts : List Token}
      → Match 4 67 65536 out back n w
      → Replays ts (out ++ w) all
      → Replays (long back n ∷ ts) out all
  by_short :
      {back n : ℕ} {w out all : Bytes} {ts : List Token}
      → Match 3 18 1024 out back n w
      → Replays ts (out ++ w) all
      → Replays (short back n ∷ ts) out all

Replays-length : {ts : List Token} (out all : Bytes) → Replays ts out all → length out ≤ length all
Replays-length out all finished = omega arith
Replays-length out all (literally {bs = bs} lo hi r) =
    omega (arith, Replays-length (out ++ bs) all r, length-append out bs)
Replays-length out all (by_long {w = w} m r) =
    omega (arith, Replays-length (out ++ w) all r, length-append out w)
Replays-length out all (by_short {w = w} m r) =
    omega (arith, Replays-length (out ++ w) all r, length-append out w)

get_or-some : (xs : Bytes) (i x d : ℕ) → get_elem? xs i ≡ some x → get_or xs i d ≡ x
get_or-some [] i x d h = absurd (cc)
get_or-some (y ∷ xs) zero x d h = cc
get_or-some (y ∷ xs) (suc i) x d h = get_or-some xs i x d h

push_back-Copies :
    (out : Bytes) (src : ℕ) (w : Bytes) → Copies out src w → push_back (length w) src out ≡ out ++ w
unfolding push_back
push_back-Copies out src [] copied = sym (append-nil out)
push_back-Copies out src (x ∷ w) (copy_more at more) =
    ap (λ y. push_back (length w) (src + 1) (out ++ y ∷ [])) (get_or-some out src x 0 at)
    ∙ push_back-Copies (out ++ x ∷ []) (src + 1) w more
    ∙ append_assoc out (x ∷ []) w

adc_copy_overlap-Match :
    {lo hi far : ℕ} (out : Bytes) (back n : ℕ) (w : Bytes) (out_len : ℕ)
    → Match lo hi far out back n w
    → length (out ++ w) ≤ out_len
    → adc_copy_overlap out back n out_len ≡ ok (out ++ w)
unfolding adc_copy_overlap
adc_copy_overlap-Match out back n w out_len m fits =
    let test : (ltb (length out) back || ltb out_len (length out + n)) ≡ false =
      ground (arith, m.within, m.counted, fits, length-append out w) in
    rw (test, ← m.counted) (ap ok (push_back-Copies out (length out - back) w m.copies))

module _ (out_len : ℕ) (more : Rest) where
  literal_run-append :
      (bs rest out : Bytes)
      → length (out ++ bs) ≤ out_len
      → literal_run (length bs) (bs ++ rest) out out_len more ≡ more rest (out ++ bs)
  literal_run-append bs rest out fits =
      let test : (ltb (length (bs ++ rest)) (length bs) || ltb out_len (length out + length bs))
          ≡ false =
        ground (arith, fits, length-append out bs, length-append bs rest) in
      rw (test, drop-append (length bs) bs rest refl, take-append (length bs) bs rest refl) refl

  adc_round-literal :
      (bs rest out : Bytes)
      → 1 ≤ length bs
      → length bs ≤ 128
      → length (out ++ bs) ≤ out_len
      → adc_round (127 + length bs) (bs ++ rest) out out_len more ≡ more rest (out ++ bs)
  adc_round-literal bs rest out lo hi fits =
      let flag : ((127 + length bs) / 2 ^ 7 % 2 == 1) ≡ true = (==_iff _ _).1 (omega arith) in
      let n : (127 + length bs) % 2 ^ 7 + 1 ≡ length bs = omega arith in
      unfold adc_round in rw (flag, n) (literal_run-append bs rest out fits)

  adc_round-long :
      (back n : ℕ) (w rest out : Bytes)
      → Match 4 67 65536 out back n w
      → length (out ++ w) ≤ out_len
      → adc_round (60 + n) (((back - 1) / 256) ∷ ((back - 1) % 256) ∷ rest) out out_len more
        ≡ more rest (out ++ w)
  adc_round-long back n w rest out m fits =
      let flag : ((60 + n) / 2 ^ 7 % 2 == 1) ≡ false = ground (arith, m.least, m.most) in
      let flag' : ((60 + n) / 2 ^ 6 % 2 == 1) ≡ true =
        (==_iff _ _).1 (omega (arith, m.least, m.most)) in
      let n' : (60 + n) % 2 ^ 6 + 4 ≡ n = omega (arith, m.least, m.most) in
      let back' : (back - 1) / 256 * 256 + (back - 1) % 256 + 1 ≡ back =
        omega (arith, m.some_way) in
      unfold adc_round in
      rw (flag, flag', n', back', adc_copy_overlap-Match out back n w out_len m fits) refl

  adc_round-short :
      (back n : ℕ) (w rest out : Bytes)
      → Match 3 18 1024 out back n w
      → length (out ++ w) ≤ out_len
      → adc_round ((n - 3) * 4 + (back - 1) / 256) (((back - 1) % 256) ∷ rest) out out_len more
        ≡ more rest (out ++ w)
  adc_round-short back n w rest out m fits =
      let b = (n - 3) * 4 + (back - 1) / 256 in
      let small : b < 64 = omega (arith, m.least, m.most, m.near, m.some_way) in
      let flag : (b / 2 ^ 7 % 2 == 1) ≡ false = ground (arith, small) in
      let flag' : (b / 2 ^ 6 % 2 == 1) ≡ false = ground (arith, small) in
      let n' : b % 2 ^ 6 / 4 + 3 ≡ n = omega (arith, small, m.least, m.near, m.some_way) in
      let back' : b % 4 * 256 + (back - 1) % 256 + 1 ≡ back = omega (arith, m.near, m.some_way) in
      unfold adc_round in
      rw (flag, flag', n', back', adc_copy_overlap-Match out back n w out_len m fits) refl

adc_loop-cons :
    (fuel b : ℕ) (bs out : Bytes) (out_len : ℕ)
    → length out < out_len
    → adc_loop (suc fuel) (b ∷ bs) out out_len
      ≡ adc_round b bs out out_len (λ rest next. adc_loop fuel rest next out_len)
unfolding adc_loop
adc_loop-cons fuel b bs out out_len h = rw (lt→ltb _ _ h) refl

adc_loop-Replays :
    (fuel : ℕ) (ts : List Token) (out all : Bytes)
    → length (encode ts) < fuel
    → Replays ts out all
    → adc_loop fuel (encode ts) out (length all) ≡ ok all
adc_loop-Replays zero ts out all h r = absurd (omega arith)
adc_loop-Replays (suc fuel) [] out all h finished = unfold adc_loop in refl
adc_loop-Replays (suc fuel) (literal bs ∷ ts) out all h (literally lo hi r) =
    let fits = Replays-length (out ++ bs) all r in
    adc_loop-cons fuel _ _ out (length all) (omega (arith, fits, length-append out bs))
    ∙ adc_round-literal (length all) _ bs (encode ts) out lo hi fits
    ∙ adc_loop-Replays fuel ts (out ++ bs) all (omega (arith, length-append bs (encode ts))) r
adc_loop-Replays (suc fuel) (long back n ∷ ts) out all h (by_long {w = w} m r) =
    let fits = Replays-length (out ++ w) all r in
    adc_loop-cons fuel _ _ out (length all)
      (omega (arith, fits, length-append out w, m.least, m.counted))
    ∙ adc_round-long (length all) _ back n w (encode ts) out m fits
    ∙ adc_loop-Replays fuel ts (out ++ w) all (omega arith) r
adc_loop-Replays (suc fuel) (short back n ∷ ts) out all h (by_short {w = w} m r) =
    let fits = Replays-length (out ++ w) all r in
    adc_loop-cons fuel _ _ out (length all)
      (omega (arith, fits, length-append out w, m.least, m.counted))
    ∙ adc_round-short (length all) _ back n w (encode ts) out m fits
    ∙ adc_loop-Replays fuel ts (out ++ w) all (omega arith) r

-- Literal runs of 1 to 128 bytes and matches in their two forms, within the lengths and distances
-- that the forms can hold and within the bytes that are there, are decoded by `adc_decode` to just
-- the bytes that the runs and the byte-by-byte copies make, copies of bytes that a match itself
-- makes included.
pub adc_decode-encode :
    (ts : List Token) (all : Bytes)
    → Replays ts [] all
    → adc_decode (encode ts) (length all) ≡ ok all
unfolding adc_decode
adc_decode-encode ts all r = adc_loop-Replays (length (encode ts) + 1) ts [] all (omega arith) r
