-- ===== src/Warc/Safety.antt =====
-- The names that src/format/warc.rs makes of URIs, against `safe_join`.
use newtua_core.PathSafety.Raw.{is_refused, raw_path_escapes-safe_join}
use newtua_core.Base.Utf8.{is_utf8}
use newtua_core.Base.Text.{join_with}
use newtua_core.Base.{
  ◌==◌, if◌then◌else◌, Bool-cases, equal, All, ℕ, ◌≡◌, refl, sym, ap, ◌∙◌, inl, inr, Bool, true,
  false, not, ◌&&◌, ◌||◌, List, [], ◌∷◌, ◌++◌, arith,
}
use newtua_core.Base.Bytes.{Bytes}
use newtua_core.PathSafety.{
  safe_join, is_separator, any_dot_dot, first_is_separator, raw_path_escapes,
}
use newtua_core.PathSafety.Paths.{dot, dot_dot, is_slash, split, segments}
use newtua_core.Warc.Names.{without_qs, kept_segments, join_or_index, uri_to_path}

unfoldable pub has_none : (ℕ → Bool) → Bytes → Bool
has_none sep [] = true
has_none sep (c ∷ cs) = not (sep c) && has_none sep cs

abbrev pub is_backslash : ℕ → Bool
is_backslash c = c == b'\\'

abbrev HasNone : Bytes → Type 0
HasNone s = has_none is_separator s ≡ true

split-HasNone :
    (p : Bytes)
    → has_none is_backslash p ≡ true
    → HasNone (split is_slash p).0 × All HasNone (split is_slash p).1
unfolding split has_none
split-HasNone [] h = (refl, tt)
split-HasNone (c ∷ cs) h =
    let tail : has_none is_backslash cs ≡ true = ground arith in
    let (a, b) = split-HasNone cs tail in
    elim (Bool-cases (is_slash c)) [ inl t ↦ rw t (refl, (a, b)) | inr t ↦ rw t (ground arith, b) ]

-- What a segment of a name is.
abbrev IsSegment : Bytes → Type 0
IsSegment s = HasNone s × (equal s [] ≡ false) × (equal s dot_dot ≡ false)

kept-IsSegment :
    (s : Bytes)
    → HasNone s
    → equal s [] ≡ false
    → IsSegment (if equal s dot_dot then b'_' ∷ [] else s)
kept-IsSegment s h e = elim (Bool-cases (equal s dot_dot)) [
  | inl t ↦ rw t (unfold has_none in refl, unfold equal in refl, unfold equal in refl)
  | inr t ↦ rw t (h, e, t)
]

kept_segments-IsSegment : (ss : List Bytes) → All HasNone ss → All IsSegment (kept_segments ss)
unfolding kept_segments
kept_segments-IsSegment [] h = tt
kept_segments-IsSegment (s ∷ ss) h = elim (Bool-cases (equal s [] || equal s dot)) [
  | inl t ↦ rw t (kept_segments-IsSegment ss h.1)
  | inr t ↦
      let e : equal s [] ≡ false = ground arith in
      rw t (kept-IsSegment s h.0 e, kept_segments-IsSegment ss h.1)
]

longer : (c : ℕ) (x s : Bytes) (xs ss : List Bytes) → x ∷ xs ≡ s ∷ ss → (c ∷ x) ∷ xs ≡ (c ∷ s) ∷ ss
longer c x s xs ss h = cc

segments-whole : (s : Bytes) → HasNone s → segments is_separator s ≡ s ∷ []
unfolding split has_none
segments-whole [] h = refl
segments-whole (c ∷ cs) h =
    let here : is_separator c ≡ false = ground arith in
    let more = segments-whole cs (ground arith) in rw here (longer c _ _ _ _ more)

segments-front :
    (s rest : Bytes)
    → HasNone s
    → segments is_separator (s ++ b'/' ∷ rest) ≡ s ∷ segments is_separator rest
unfolding split has_none
segments-front [] rest h = refl
segments-front (c ∷ cs) rest h =
    let here : is_separator c ≡ false = ground arith in
    let more = segments-front cs rest (ground arith) in rw here (longer c _ _ _ _ more)

segments-join_with :
    (s : Bytes) (ss : List Bytes)
    → IsSegment s
    → All IsSegment ss
    → segments is_separator (join_with b'/' (s ∷ ss)) ≡ s ∷ ss
unfolding join_with
segments-join_with s [] h k = segments-whole s h.0
segments-join_with s (t ∷ ts) h k =
    segments-front s (join_with b'/' (t ∷ ts)) h.0 ∙ ap (◌∷◌ s) (segments-join_with t ts k.0 k.1)

any_dot_dot-IsSegment : (ss : List Bytes) → All IsSegment ss → any_dot_dot ss ≡ false
unfolding any_dot_dot
any_dot_dot-IsSegment [] h = refl
any_dot_dot-IsSegment (s ∷ ss) h = let (_, _, e) = h.0 in rw (e, any_dot_dot-IsSegment ss h.1) refl

first_is_separator-join_with :
    (s : Bytes) (ss : List Bytes)
    → IsSegment s
    → first_is_separator (join_with b'/' (s ∷ ss)) ≡ false
unfolding join_with has_none equal
first_is_separator-join_with [] ss h = absurd (cc)
first_is_separator-join_with (c ∷ cs) [] h = ground arith
first_is_separator-join_with (c ∷ cs) (t ∷ ts) h = ground arith

raw_path_escapes-inside :
    (raw : Bytes) (ss : List Bytes)
    → first_is_separator raw ≡ false
    → segments is_separator raw ≡ ss
    → any_dot_dot ss ≡ false
    → raw_path_escapes raw ≡ false
unfolding raw_path_escapes
raw_path_escapes-inside raw ss f e h = rw f (ap any_dot_dot e ∙ h)

join_or_index-inside :
    (ss : List Bytes) → All IsSegment ss → raw_path_escapes (join_or_index ss) ≡ false
join_or_index-inside [] h = unfold raw_path_escapes any_dot_dot split equal in refl
join_or_index-inside (s ∷ ss) h =
    raw_path_escapes-inside (join_with b'/' (s ∷ ss)) (s ∷ ss)
      (first_is_separator-join_with s ss h.0) (segments-join_with s ss h.0 h.1)
      (any_dot_dot-IsSegment (s ∷ ss) h)

uri_to_path-inside :
    (uri : Bytes)
    → has_none is_backslash (without_qs uri) ≡ true
    → raw_path_escapes (uri_to_path uri) ≡ false
unfolding uri_to_path
uri_to_path-inside uri h =
    let (a, b) = split-HasNone (without_qs uri) h in
    join_or_index-inside _ (kept_segments-IsSegment (segments is_slash (without_qs uri)) (a, b))

-- Where the part of a URI that names the file has no backslash, and the path made of it is valid
-- UTF-8, `safe_join` does not refuse that path, whatever the destination and however many `..` the
-- URI has.
pub uri_to_path-safe_join :
    (dest uri : Bytes)
    → has_none is_backslash (without_qs uri) ≡ true
    → is_utf8 (uri_to_path uri) ≡ true
    → is_refused (safe_join dest (uri_to_path uri)) ≡ false
uri_to_path-safe_join dest uri h u =
    sym (raw_path_escapes-safe_join dest (uri_to_path uri) u) ∙ uri_to_path-inside uri h
