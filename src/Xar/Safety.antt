-- ===== src/Xar/Safety.antt =====
-- The paths that src/format/xar.rs lists.
use newtua_core.Base.{
  ◌==◌, ==_iff, Bool-cases, equal, ℕ, ◌≡◌, refl, ap, ◌∙◌, ◌⊎◌, inl, inr, Bool, true, false, ◌||◌,
  List, [], ◌∷◌, ◌++◌, map, arith,
}
use newtua_core.Base.Bytes.{Bytes}
use newtua_core.PathSafety.{is_separator, any_dot_dot, first_is_separator, raw_path_escapes}
use newtua_core.PathSafety.Paths.{
  Component, root_dir, cur_dir, parent_dir, normal, dot_dot, split, is_absolute, needs_separator,
  push,
}
use newtua_core.PathSafety.Join.{escapes}
use newtua_core.Xar.Toc.{any_unsafe, colon_for}

pub any_unsafe-escapes : (cs : List Component) → any_unsafe cs ≡ escapes cs
unfolding any_unsafe
any_unsafe-escapes [] = refl
any_unsafe-escapes (normal s ∷ cs) = any_unsafe-escapes cs
any_unsafe-escapes (cur_dir ∷ cs) = any_unsafe-escapes cs
any_unsafe-escapes (parent_dir ∷ cs) = refl
any_unsafe-escapes (root_dir ∷ cs) = refl

-- The pieces between separators, of both kinds.
abbrev pub cut : Bytes → Bytes × List Bytes
cut s = split is_separator s

cut-break : (c : ℕ) (s : Bytes) → is_separator c ≡ true → cut (c ∷ s) ≡ ([], (cut s).0 ∷ (cut s).1)
unfolding split
cut-break c s e = rw e refl

cut-go : (c : ℕ) (s : Bytes) → is_separator c ≡ false → cut (c ∷ s) ≡ (c ∷ (cut s).0, (cut s).1)
unfolding split
cut-go c s e = rw e refl

-- A byte is a slash, a backslash, or another one, which stays as it is.
data Kind (c : ℕ) : Type 0 where
  slash : c ≡ b'/' → Kind c
  back : colon_for c ≡ c → is_separator c ≡ true → Kind c
  plain : colon_for c ≡ c → is_separator c ≡ false → Kind c

kind_of : (c : ℕ) → Kind c
kind_of c = elim (Bool-cases (c == b'/')) [
  | inl e ↦ slash ((==_iff _ _).0 e)
  | inr e ↦ elim (Bool-cases (c == b'\\')) [
    | inl f ↦ back (rw e refl) (rw (e, f) refl)
    | inr f ↦ plain (rw e refl) (rw (e, f) refl)
  ]
]

abbrev HasColon : Bytes → Type 0
HasColon [] = ⊥
HasColon (c ∷ cs) = (c ≡ b':') ⊎ HasColon cs

-- The first piece is the same with the colons, or has one of them.
cut-colon :
    (s : Bytes) → HasColon (cut (map colon_for s)).0 ⊎ ((cut (map colon_for s)).0 ≡ (cut s).0)
cut-colon [] = inr refl
cut-colon (c ∷ s) = elim (kind_of c) [
  | slash e ↦ rw e (rw (cut-go b':' (map colon_for s) refl) (inl (inl refl)))
  | back e f ↦ rw e (rw (cut-break c (map colon_for s) f, cut-break c s f) (inr refl))
  | plain e f ↦ rw e (
      rw (cut-go c (map colon_for s) f, cut-go c s f)
        (elim (cut-colon s) [ inl h ↦ inl (inr h) | inr h ↦ inr (ap (◌∷◌ c) h) ]))
]

HasColon-ne-dot_dot : (x : Bytes) → HasColon x → equal x dot_dot ≡ false
unfolding equal
HasColon-ne-dot_dot [] h = absurd h
HasColon-ne-dot_dot (c ∷ []) h = ground arith
HasColon-ne-dot_dot (c ∷ d ∷ []) (inl e) = ground arith
HasColon-ne-dot_dot (c ∷ d ∷ []) (inr (inl e)) = ground arith
HasColon-ne-dot_dot (c ∷ d ∷ []) (inr (inr h)) = absurd h
HasColon-ne-dot_dot (c ∷ d ∷ e ∷ x) h = ground arith

pub first-colon :
    (s : Bytes) → equal (cut s).0 dot_dot ≡ false → equal (cut (map colon_for s)).0 dot_dot ≡ false
first-colon s h = elim (cut-colon s) [
  | inl k ↦ HasColon-ne-dot_dot _ k
  | inr k ↦ ap (λ (x : Bytes). equal x dot_dot) k ∙ h
]

or_false : (a b : Bool) → (a || b) ≡ false → (a ≡ false) × (b ≡ false)
or_false true b h = absurd (cc)
or_false false b h = (refl, h)

pub any_dot_dot-colon :
    (s : Bytes) → any_dot_dot (cut s).1 ≡ false → any_dot_dot (cut (map colon_for s)).1 ≡ false
unfolding any_dot_dot
any_dot_dot-colon [] h = unfold split in refl
any_dot_dot-colon (c ∷ s) h = elim (kind_of c) [
  | slash e ↦
      let h' = rw (e, cut-break b'/' s refl) at h in
      rw e (
        rw (cut-go b':' (map colon_for s) refl)
          (any_dot_dot-colon s (or_false (equal (cut s).0 dot_dot) _ h').1))
  | back e f ↦
      let h' = rw (cut-break c s f) at h in
      let (a, b) = or_false (equal (cut s).0 dot_dot) _ h' in
      rw e (rw (cut-break c (map colon_for s) f, first-colon s a, any_dot_dot-colon s b) refl)
  | plain e f ↦
      let h' = rw (cut-go c s f) at h in
      rw e (rw (cut-go c (map colon_for s) f) (any_dot_dot-colon s h'))
]

-- A text that does not lead out, by its pieces.
abbrev pub Stays : Bytes → Type 0
Stays s =
    (first_is_separator s ≡ false)
    × (equal (cut s).0 dot_dot ≡ false)
    × (any_dot_dot (cut s).1 ≡ false)

pub Stays-raw : (s : Bytes) → Stays s → raw_path_escapes s ≡ false
unfolding raw_path_escapes any_dot_dot
Stays-raw s (a, b, c) = rw (a, b, c) refl

pub raw-Stays : (s : Bytes) → raw_path_escapes s ≡ false → Stays s
unfolding raw_path_escapes any_dot_dot
raw-Stays s h = elim (Bool-cases (first_is_separator s)) [
  | inl e ↦ let h' = rw e at h in absurd (cc)
  | inr e ↦ let h' = rw e at h in let (a, b) = or_false (equal (cut s).0 dot_dot) _ h' in (e, a, b)
]

pub first_is_separator-colon :
    (s : Bytes) → first_is_separator s ≡ false → first_is_separator (map colon_for s) ≡ false
first_is_separator-colon [] h = refl
first_is_separator-colon (c ∷ s) h = ground arith

-- What stands in front of a separator does not change by what follows it.
abbrev Continues : Bytes → Bytes → Type 0
Continues p q = ((cut q).0 ≡ (cut p).0) × (any_dot_dot (cut q).1 ≡ false)

Continues-cons :
    (c : ℕ) (p q : Bytes)
    → any_dot_dot (cut (c ∷ p)).1 ≡ false
    → (any_dot_dot (cut p).1 ≡ false → Continues p q)
    → Continues (c ∷ p) (c ∷ q)
unfolding any_dot_dot
Continues-cons c p q h k = elim (Bool-cases (is_separator c)) [
  | inl e ↦
      let h' = rw (cut-break c p e) at h in
      let (a, b) = or_false (equal (cut p).0 dot_dot) _ h' in
      rw (cut-break c p e, cut-break c q e) (refl, rw ((k b).0, a, (k b).1) refl)
  | inr e ↦
      let h' = rw (cut-go c p e) at h in
      rw (cut-go c p e, cut-go c q e) (ap (◌∷◌ c) (k h').0, (k h').1)
]

after_separator : (n : Bytes) → Stays n → Continues [] (b'/' ∷ n)
unfolding any_dot_dot
after_separator n (f, a, b) = rw (cut-break b'/' n refl) (unfold split in refl, rw (a, b) refl)

joined_by_separator :
    (p n : Bytes) → any_dot_dot (cut p).1 ≡ false → Stays n → Continues p (p ++ b'/' ∷ n)
joined_by_separator [] n h s = after_separator n s
joined_by_separator (c ∷ p) n h s =
    Continues-cons c p (p ++ b'/' ∷ n) h (λ g. joined_by_separator p n g s)

joined_behind :
    (c : ℕ) (p n : Bytes)
    → needs_separator (c ∷ p) ≡ false
    → any_dot_dot (cut (c ∷ p)).1 ≡ false
    → Stays n
    → Continues (c ∷ p) (c ∷ p ++ n)
unfolding needs_separator
joined_behind c [] n e h (f, a, b) =
    let sep : is_separator c ≡ true = ground arith in
    rw (cut-break c [] sep, cut-break c n sep) (refl, unfold any_dot_dot in rw (a, b) refl)
joined_behind c (d ∷ p) n e h s =
    Continues-cons c (d ∷ p) (d ∷ p ++ n) h (λ g. joined_behind d p n e g s)

first_is_separator-append :
    (c : ℕ) (p n : Bytes) → first_is_separator (c ∷ p) ≡ first_is_separator (c ∷ p ++ n)
first_is_separator-append c p n = refl

not_absolute : (n : Bytes) → first_is_separator n ≡ false → is_absolute n ≡ false
not_absolute [] h = refl
not_absolute (c ∷ n) h = ground arith

pub Stays-push : (p n : Bytes) → Stays p → Stays n → Stays (push p n)
unfolding push
Stays-push [] n s t = rw (not_absolute n t.0) (unfold needs_separator in t)
Stays-push (c ∷ p) n (f, a, b) t =
    rw (not_absolute n t.0) (elim (Bool-cases (needs_separator (c ∷ p))) [
      | inl e ↦
          let (k, l) = joined_by_separator (c ∷ p) n b t in
          rw e (f, ap (λ (x : Bytes). equal x dot_dot) k ∙ a, l)
      | inr e ↦
          let (k, l) = joined_behind c p n e b t in
          rw e (f, ap (λ (x : Bytes). equal x dot_dot) k ∙ a, l)
    ])
