-- ===== src/Volume/Join/Search.antt =====
-- The loop of `find_eocd` in src/volume.rs.
use mathlib.Core.Path.{subst}
use mathlib.Core.Path.{subst}
use newtua_core.Base.{
  ◌==◌, le→leb, ==_iff, Bool-cases, equal, equal_iff, length, take, drop, ℕ, zero, suc, ◌+◌, ◌≤◌,
  ◌<◌, ◌≡◌, refl, sym, ap, ◌∙◌, inl, inr, true, false, arith,
}
use newtua_core.Base.Bytes.{Bytes, slice?, from_le}
use newtua_core.Error.{Result, ok, err, ok-injective}
use newtua_core.Volume.Fields.{eocd_sig, le_u16}
use newtua_core.Volume.Join.{no_eocd, eocd_loop}

-- An end record at an offset of the file, whose comment reaches just to the end of it.
pub record IsEocd (file : Bytes) (off : ℕ) : Type 0 where
  pub sig : take 4 (drop off file) ≡ eocd_sig
  pub comment : ℕ
  pub comment_len : le_u16 file (off + 20) ≡ ok comment
  pub to_the_end : off + 22 + comment ≡ length file

-- The last of them below a bound.
pub record IsLastEocd (file : Bytes) (bound off : ℕ) : Type 0 where
  pub here : IsEocd file off
  pub below : off < bound
  pub none_behind : (q : ℕ) → off < q → q < bound → ¬ IsEocd file q

-- What a search below a bound comes to: the last record, or the error when there is none.
pub data Searched (file : Bytes) (bound : ℕ) : Result ℕ → Type 0 where
  found : {off : ℕ} → IsLastEocd file bound off → Searched file bound (ok off)
  missing : ((q : ℕ) → q < bound → ¬ IsEocd file q) → Searched file bound (err no_eocd)

behind :
    (file : Bytes) (p : ℕ)
    → ¬ IsEocd file p
    → (P : ℕ → Type 0) → ((q : ℕ) → P q → q < p → ¬ IsEocd file q)
    → (q : ℕ) → P q
    → q < suc p
    → ¬ IsEocd file q
behind file p neg P rest q h lt = elim (Bool-cases (q == p)) [
  | inl e ↦ subst (λ k. ¬ IsEocd file k) (sym ((==_iff q p).0 e)) neg
  | inr e ↦ rest q h (ground arith)
]

Searched-suc :
    (file : Bytes) (p : ℕ) (r : Result ℕ)
    → ¬ IsEocd file p
    → Searched file p r
    → Searched file (suc p) r
Searched-suc file p r neg (found {off} l) = found (record {
  here = l.here;
  below = omega (arith, l.below);
  none_behind = behind file p neg (λ q. off < q) l.none_behind;
})
Searched-suc file p r neg (missing f) =
    missing (λ q lt. behind file p neg (λ _. Unit {0}) (λ q' _ lt'. f q' lt') q tt lt)

le_u16-in : (buf : Bytes) (p : ℕ) → p + 2 ≤ length buf → (c : ℕ) × (le_u16 buf p ≡ ok c)
unfolding le_u16 slice?
le_u16-in buf p h = (from_le (take 2 (drop p buf)), rw (le→leb (p + 2) (length buf) h) refl)

other_comment :
    (buf : Bytes) (p c : ℕ)
    → le_u16 buf (p + 20) ≡ ok c
    → (p + 22 + c == length buf) ≡ false
    → ¬ IsEocd buf p
other_comment buf p c read f i =
    let same : i.comment ≡ c = ok-injective _ _ _ i.comment_len read in
    let ends : (p + 22 + c == length buf) ≡ true =
      (==_iff _ (length buf)).1 (ap (λ k. p + 22 + k) (sym same) ∙ i.to_the_end) in
    absurd (cc (f, ends))

pub eocd_loop-Searched :
    (k : ℕ) (buf : Bytes) → k + 21 ≤ length buf → Searched buf k (eocd_loop k buf (length buf))
unfolding eocd_loop
eocd_loop-Searched zero buf h = missing (λ q lt. absurd (omega (arith, lt)))
eocd_loop-Searched (suc p) buf h =
    let later = eocd_loop-Searched p buf (omega arith) in
    elim (Bool-cases (equal (take 4 (drop p buf)) eocd_sig)) [
      | inr e ↦
          rw e (Searched-suc buf p _ (λ i. absurd (cc (e, (equal_iff _ eocd_sig).1 i.sig))) later)
      | inl e ↦
          let (c, read) = le_u16-in buf (p + 20) (omega arith) in
          rw (e, read)
            (elim (Bool-cases (p + 22 + c == length buf)) [
              | inl f ↦ rw f (
                  found (record {
                    here = record {
                      sig = (equal_iff _ eocd_sig).0 e;
                      comment = c;
                      comment_len = read;
                      to_the_end = (==_iff _ (length buf)).0 f;
                    };
                    below = omega arith;
                    none_behind = λ q a b. absurd (omega (arith, a, b));
                  }))
              | inr f ↦ rw f (Searched-suc buf p _ (other_comment buf p c read f) later)
            ])
    ]
