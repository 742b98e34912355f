-- ===== src/Decompress/Dictionary.antt =====
-- The header that src/decompress.rs makes for a member of lzip.
use newtua_core.Error.{ok}
use newtua_core.Base.Bytes.{Bytes, to_le}
use mathlib.Core.Path.{subst}
use native.Mathlib.Nat.{pow-suc, pow-le-pow_right, mul-le-mul_left}
use newtua_core.Base.{
  leb, le→leb, equal, take, drop, replicate, ℕ, zero, suc, ◌+◌, ◌-◌, ◌*◌, ◌/◌, ◌%◌, ◌^◌, ◌≤◌, ◌<◌,
  ◌≡◌, refl, sym, ap, ◌∙◌, true, false, ◌&&◌, [], ◌∷◌, ◌++◌, arith,
}
use newtua_core.Decompress.{
  lzip_magic, body, LzipReader, doubled, next_power_of_two, dictionary, alone_header, coded_member,
  start_on, start_member,
}

leb_above : (a b : ℕ) → b < a → leb a b ≡ false
leb_above a b h = ground arith

double-pow : (k : ℕ) → 2 ^ k * 2 ≡ 2 ^ (k + 1)
double-pow k = let same : suc k ≡ k + 1 = omega arith in sym (pow-suc 2 k) ∙ ap (λ x. 2 ^ x) same

-- The power of two that a number reaches and half of which it exceeds.
doubled-pow :
    (j fuel k n : ℕ)
    → j < fuel
    → n ≤ 2 ^ (k + j)
    → 2 ^ (k + j) < n * 2
    → doubled fuel (2 ^ k) n ≡ 2 ^ (k + j)
doubled-pow j zero k n f le lt = absurd (omega arith)
doubled-pow zero (suc fuel) k n f le lt =
    let same : k + 0 ≡ k = omega arith in
    let le' : n ≤ 2 ^ k = subst (λ x. n ≤ 2 ^ x) same le in rw (same, le→leb n (2 ^ k) le') refl
doubled-pow (suc j) (suc fuel) k n f le lt =
    let same : k + suc j ≡ k + 1 + j = omega arith in
    let grow : 2 ^ (k + 1) ≤ 2 ^ (k + suc j) = pow-le-pow_right (omega arith) (omega arith) in
    let step : 2 ^ k * 2 ≡ 2 ^ (k + 1) = double-pow k in
    let above : 2 ^ k < n = omega (arith, grow, step, lt) in
    let big : leb n (2 ^ k) ≡ false = leb_above n (2 ^ k) above in
    rw (big, step, same)
      (doubled-pow j fuel (k + 1) n (omega arith) (subst (λ x. n ≤ 2 ^ x) same le)
        (subst (λ x. 2 ^ x < n * 2) same lt))

pow-sixteen : (e : ℕ) → 4 ≤ e → 2 ^ e ≡ 2 ^ (e - 4) * 16
pow-sixteen e h =
    let q : ℕ = e - 4 in
    let same : q + 1 + 1 + 1 + 1 ≡ e = omega arith in
    let whole : 2 ^ (q + 1 + 1 + 1 + 1) ≡ 2 ^ e = ap (λ x. 2 ^ x) same in
    omega (
      arith,
      whole,
      double-pow q,
      double-pow (q + 1),
      double-pow (q + 1 + 1),
      double-pow (q + 1 + 1 + 1),
    )

-- Seven sixteenths at most are taken away.
sixteenths-bounds :
    (p q s : ℕ) → p ≡ q * 16 → 1 ≤ q → s < 8 → (p - p / 16 * s ≤ p) × (p < (p - p / 16 * s) * 2)
sixteenths-bounds p q s e h small =
    let part : p / 16 ≡ q = omega (arith, e) in
    let most : q * s ≤ q * 7 = mul-le-mul_left q (omega arith) in
    rw part (omega arith, omega (arith, e, h, most))

next_power_of_two-doubled : (n : ℕ) → next_power_of_two n ≡ doubled 31 (2 ^ 0) n
unfolding next_power_of_two
next_power_of_two-doubled n = refl

-- A member's dictionary is more than half of its power of two.
next_power_of_two-dictionary :
    (exponent sixteenths : ℕ)
    → 4 ≤ exponent
    → exponent ≤ 29
    → sixteenths < 8
    → next_power_of_two (dictionary exponent sixteenths) ≡ 2 ^ exponent
next_power_of_two-dictionary exponent sixteenths lo hi small =
    let some_power : 2 ^ 0 ≤ 2 ^ (exponent - 4) =
      pow-le-pow_right (omega arith) {i = 0} (omega arith) in
    let (le, lt) =
      sixteenths-bounds (2 ^ exponent) (2 ^ (exponent - 4)) sixteenths (pow-sixteen exponent lo)
        some_power small in
    let same : 0 + exponent ≡ exponent = omega arith in
    next_power_of_two-doubled (dictionary exponent sixteenths)
    ∙ doubled-pow exponent 31 0 (dictionary exponent sixteenths) (omega arith)
        (subst (λ x. dictionary exponent sixteenths ≤ 2 ^ x) (sym same) le)
        (subst (λ x. 2 ^ x < dictionary exponent sixteenths * 2) (sym same) lt)
    ∙ ap (λ x. 2 ^ x) same

coded_member-started :
    (r : LzipReader) (coded exponent sixteenths : ℕ) (rest : Bytes)
    → coded % 2 ^ 5 ≡ exponent
    → coded / 2 ^ 5 ≡ sixteenths
    → (leb 12 exponent && leb exponent 29) ≡ true
    → drop 6 r.input ≡ rest
    → next_power_of_two (dictionary exponent sixteenths) ≡ 2 ^ exponent
    → coded_member r coded
      ≡ ok (
        true,
        record r {
          input = rest;
          pending = 93 ∷ to_le 4 (2 ^ exponent) ++ replicate 8 255;
          state = body;
          trailer = [];
        },
      )
coded_member-started r coded exponent sixteenths rest low high test tail dict =
    rw (low, high, test)
      (ap
          (λ input. ok (
            true,
            record r {
              input = input;
              pending = alone_header (dictionary exponent sixteenths);
              state = body;
              trailer = [];
            },
          ))
          tail
        ∙ ap
            (λ p. ok (
              true,
              record r {
                input = rest;
                pending = 93 ∷ to_le 4 p ++ replicate 8 255;
                state = body;
                trailer = [];
              },
            ))
            dict)

-- On a member header of version 1 with an exponent of 12 to 29 and up to seven sixteenths taken
-- away, `start_member` takes just the header from the input and arms the decoder with the
-- properties byte of lzip, the dictionary rounded up to two to the exponent, and an unknown size.
pub start_member-coded :
    (r : LzipReader) (exponent sixteenths : ℕ) (rest : Bytes)
    → 12 ≤ exponent
    → exponent ≤ 29
    → sixteenths < 8
    → r.input ≡ lzip_magic ++ (1 ∷ (sixteenths * 32 + exponent) ∷ rest)
    → start_member r
      ≡ ok (
        true,
        record r {
          input = rest;
          pending = 93 ∷ to_le 4 (2 ^ exponent) ++ replicate 8 255;
          state = body;
          trailer = [];
        },
      )
start_member-coded r exponent sixteenths rest lo hi small e =
    let coded : ℕ = sixteenths * 32 + exponent in
    let head : take 6 r.input ≡ lzip_magic ++ (1 ∷ coded ∷ []) = ap (take 6) e in
    let tail : drop 6 r.input ≡ rest = ap (drop 6) e in
    let low : coded % 2 ^ 5 ≡ exponent = omega arith in
    let high : coded / 2 ^ 5 ≡ sixteenths = omega arith in
    let test : (leb 12 exponent && leb exponent 29) ≡ true = ground (arith, lo, hi) in
    let dict = next_power_of_two-dictionary exponent sixteenths (omega arith) hi small in
    unfold start_member in
    (ap (start_on r) head
      ∙ unfold equal in
        coded_member-started r coded exponent sixteenths rest low high test tail dict)
