-- ===== src/Wim/Chunks/Written.antt =====
-- Chunked resources as a writer lays them out, for src/format/wim.rs.
use native.Mathlib.Nat.{
  mul-add-div_right, mul-add-mod_self_right, div-eq_of_lt, mod_self, div_self, mod-eq_of_lt,
}
use newtua_core.Base.{
  ltb, ◌==◌, if◌then◌else◌, ltb→lt, ltb→le, le→ltb, ==_iff, Bool-cases, length, All, length-append,
  take-append, drop-append, ℕ, zero, suc, ◌+◌, ◌-◌, ◌*◌, ◌/◌, ◌%◌, ◌≤◌, ◌<◌, ◌≡◌, refl, sym, ap,
  ◌∙◌, inl, inr, true, false, List, [], ◌∷◌, ◌++◌, append-nil, append_assoc, arith,
}
use newtua_core.Base.Bytes.{Bytes}
use newtua_core.Error.Run.{done}
use newtua_core.Wim.Fields.{Compressor}
use newtua_core.Wim.Chunks.{Codecs, div_ceil, last_len, run_codec, decode_one_chunk, chunk_loop}

-- A chunk as it is stored, and its content.
abbrev pub Chunk : Type 0
Chunk = Bytes × Bytes

abbrev pub chunk_bytes : List Chunk → Bytes
chunk_bytes [] = []
chunk_bytes ((c, p) ∷ cs) = c ++ chunk_bytes cs

abbrev pub contents : List Chunk → Bytes
contents [] = []
contents ((c, p) ∷ cs) = p ++ contents cs

-- Where each chunk but the last ends, from the place `s` on.
abbrev pub inner_ends : ℕ → List Chunk → List ℕ
inner_ends s [] = []
inner_ends s (x ∷ []) = []
inner_ends s ((c, p) ∷ y ∷ cs) = (s + length c) ∷ inner_ends (s + length c) (y ∷ cs)

-- Every content but the last is of the chunk size, and the last is of a size of its own.
abbrev pub AreSized : ℕ → ℕ → List Chunk → Type 0
AreSized size final [] = ⊥
AreSized size final ((c, p) ∷ []) = length p ≡ final
AreSized size final ((c, p) ∷ y ∷ cs) = (length p ≡ size) × AreSized size final (y ∷ cs)

more_left : (i l n : ℕ) → i + suc (suc l) ≡ n → (suc i == n) ≡ false
more_left i l n e = ground arith

module _ (codecs : Codecs) (comp : Compressor) where
  -- A chunk that is stored as it is, or that the codec turns into its content.
  pub data IsCoded : Chunk → Type 0 where
    verbatim : {c p : Bytes} → c ≡ p → IsCoded (c, p)
    coded :
        {c p : Bytes}
        → (length c == length p) ≡ false
        → run_codec codecs comp c (length p) ≡ done p
        → IsCoded (c, p)

  pub decode_one_chunk-IsCoded :
      (c p : Bytes) (n : ℕ)
      → length p ≡ n
      → IsCoded (c, p)
      → decode_one_chunk codecs comp c n ≡ done p
  unfolding decode_one_chunk
  decode_one_chunk-IsCoded c p n e (verbatim q) =
      let same : (length c == n) ≡ true = (==_iff _ _).1 (ap length q ∙ e) in rw (same, q) refl
  decode_one_chunk-IsCoded c p n e (coded t h) =
      let t' : (length c == n) ≡ false = ap (λ k. length c == k) (sym e) ∙ t in
      let h' : run_codec codecs comp c n ≡ done p =
        ap (λ k. run_codec codecs comp c k) (sym e) ∙ h in
      rw (t', h') refl

  -- One round, for a chunk that ends inside the data.
  chunk_loop-step :
      (n size total : ℕ) (front c p rest : Bytes) (i s want : ℕ) (ends : List ℕ) {more : Bytes}
      → length front ≡ s
      → (if suc i == n then last_len size total else size) ≡ want
      → length p ≡ want
      → IsCoded (c, p)
      → chunk_loop codecs comp n size total (front ++ (c ++ rest)) (suc i) (s + length c) ends
        ≡ done more
      → chunk_loop codecs comp n size total (front ++ (c ++ rest)) i s ((s + length c) ∷ ends)
        ≡ done (p ++ more)
  unfolding chunk_loop
  chunk_loop-step n size total front c p rest i s want ends e w l h later =
      let a : ltb (s + length c) s ≡ false = le→ltb _ _ (omega arith) in
      let b : ltb (length (front ++ (c ++ rest))) (s + length c) ≡ false =
        le→ltb _ _ (omega (arith, e, length-append front (c ++ rest), length-append c rest)) in
      let k : s + length c - s ≡ length c = omega arith in
      rw
        (
          a,
          b,
          k,
          drop-append s front (c ++ rest) e,
          take-append (length c) c rest refl,
          w,
          decode_one_chunk-IsCoded c p want l h,
          later,
        )
        refl

  -- The loop from the chunk `i` on, with `front` behind it.
  pub chunk_loop-written :
      (n size total : ℕ) (front : Bytes) (i s : ℕ) (cs : List Chunk)
      → length front ≡ s
      → i + length cs ≡ n
      → AreSized size (last_len size total) cs
      → All IsCoded cs
      → chunk_loop codecs comp n size total
          (front ++ chunk_bytes cs)
          i
          s
          (inner_ends s cs ++ (s + length (chunk_bytes cs)) ∷ [])
        ≡ done (contents cs)
  chunk_loop-written n size total front i s [] e k l h = absurd l
  chunk_loop-written n size total front i s ((c, p) ∷ []) e k l h =
      let final : (suc i == n) ≡ true = (==_iff _ _).1 (omega (arith, k)) in
      let one : length (c ++ []) ≡ length c = ap length (append-nil c) in
      rw one (
        chunk_loop-step n size total front c p [] i s (last_len size total) [] e (rw final refl) l
          h.0 (unfold chunk_loop in refl))
  chunk_loop-written n size total front i s ((c, p) ∷ y ∷ cs) e k l h =
      let inner : (suc i == n) ≡ false = more_left i (length cs) n k in
      let at_end : s + length (chunk_bytes ((c, p) ∷ y ∷ cs))
          ≡ s + length c + length (chunk_bytes (y ∷ cs)) =
        omega (arith, length-append c (chunk_bytes (y ∷ cs))) in
      let later =
        chunk_loop-written n size total (front ++ c) (suc i) (s + length c) (y ∷ cs)
          (omega (arith, e, length-append front c)) (omega (arith, k)) l.1 h.1 in
      let later' = rw (append_assoc front c (chunk_bytes (y ∷ cs))) at later in
      rw at_end (
        chunk_loop-step n size total front c p (chunk_bytes (y ∷ cs)) i s size _ e (rw inner refl)
          l.0 h.0 later')

-- How many contents there are, and how long they are together.
pub length-contents :
    (size final k : ℕ) (cs : List Chunk)
    → length cs ≡ suc k
    → AreSized size final cs
    → length (contents cs) ≡ k * size + final
length-contents size final k [] n e = absurd e
length-contents size final zero ((c, p) ∷ []) n e = omega (arith, e, ap length (append-nil p))
length-contents size final (suc k) ((c, p) ∷ []) n e = absurd (omega (arith, n))
length-contents size final zero ((c, p) ∷ y ∷ cs) n e = absurd (omega (arith, n))
length-contents size final (suc k) ((c, p) ∷ y ∷ cs) n (e, f) = omega (
  arith,
  e,
  length-contents size final k (y ∷ cs) (omega (arith, n)) f,
  length-append p (contents (y ∷ cs)),
)

module _ (size final k : ℕ) (lo : 1 ≤ final) where
  less_than : final < size → (k * size + final) / size ≡ k
  less_than h =
      mul-add-div_right {m = size} (omega (arith, h, lo)) k final
      ∙ omega (arith, div-eq_of_lt {n = final} {m = size} h)

  mod_less_than : final < size → (k * size + final) % size ≡ final
  mod_less_than h = mul-add-mod_self_right k size final ∙ mod-eq_of_lt h

  mod_same : final ≡ size → (k * size + final) % size ≡ 0
  mod_same e = mul-add-mod_self_right k size final ∙ ap (λ n. n % size) e ∙ mod_self size

  div_same : final ≡ size → (k * size + final) / size ≡ suc k
  div_same e =
      mul-add-div_right {m = size} (omega (arith, e, lo)) k final
      ∙ omega (arith, ap (λ n. n / size) e, div_self {n = size} (omega (arith, e, lo)))

  -- Such contents need one more chunk than there are whole ones in front of the last.
  pub div_ceil-sized : final ≤ size → div_ceil (k * size + final) size ≡ suc k
  div_ceil-sized hi = elim (Bool-cases (ltb final size)) [
    | inl h ↦
        let h' : final < size = ltb→lt _ _ h in
        let t : (final == 0) ≡ false = ground arith in
        rw (less_than h', mod_less_than h', t) (omega arith)
    | inr h ↦
        let e : final ≡ size = omega (arith, ltb→le _ _ h) in
        rw (div_same e, mod_same e) (omega arith)
  ]

  pub last_len-sized : final ≤ size → last_len size (k * size + final) ≡ final
  last_len-sized hi = elim (Bool-cases (ltb final size)) [
    | inl h ↦
        let t : (final == 0) ≡ false = ground arith in rw (mod_less_than (ltb→lt _ _ h), t) refl
    | inr h ↦ let e : final ≡ size = omega (arith, ltb→le _ _ h) in rw (mod_same e) (sym e)
  ]
