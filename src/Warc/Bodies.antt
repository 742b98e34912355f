-- ===== src/Warc/Bodies.antt =====
-- Names and bodies of the entries that src/format/warc.rs makes.
use newtua_core.Base.{
  take, length-append, ℕ, ◌≡◌, refl, sym, ap, ◌∙◌, Option, none, some, [], ◌∷◌, ◌++◌, append_assoc,
  arith,
}
use newtua_core.Base.Bytes.{Bytes}
use newtua_core.Base.Text.{strip_prefix, cut_here, split_once, strip_prefix-append_none}
use newtua_core.Warc.Names.{separator, payload_or, strip_http_headers}

cut_here-none :
    (c : ℕ) (here : Option Bytes) (later : Option (Bytes × Bytes))
    → cut_here c here later ≡ none
    → (here ≡ none) × (later ≡ none)
cut_here-none c (some rest) later h = absurd (cc)
cut_here-none c none none h = (refl, refl)
cut_here-none c none (some (front, rest)) h = absurd (cc)

split_once-cons :
    (pat : Bytes) (c : ℕ) (cs : Bytes)
    → split_once pat (c ∷ cs) ≡ cut_here c (strip_prefix pat (c ∷ cs)) (split_once pat cs)
unfolding split_once
split_once-cons pat c cs = refl

split_once-here : (body : Bytes) → split_once separator (separator ++ body) ≡ some ([], body)
unfolding split_once strip_prefix
split_once-here body = refl

-- The first separator stands behind a head that has none, the separator's own start included.
split_once-first :
    (head body : Bytes)
    → split_once separator (head ++ take 3 separator) ≡ none
    → split_once separator (head ++ (separator ++ body)) ≡ some (head, body)
split_once-first [] body h = split_once-here body
split_once-first (c ∷ head) body h =
    let s : Bytes = c ∷ head ++ take 3 separator in
    let whole : c ∷ head ++ (separator ++ body) ≡ s ++ 10 ∷ body =
      ap (◌∷◌ c) (sym (append_assoc head (take 3 separator) (10 ∷ body))) in
    let (p, q) =
      cut_here-none c (strip_prefix separator s) (split_once separator (head ++ take 3 separator))
        (sym (split_once-cons separator c (head ++ take 3 separator)) ∙ h) in
    let here : strip_prefix separator (c ∷ head ++ (separator ++ body)) ≡ none =
      ap (strip_prefix separator) whole
      ∙ strip_prefix-append_none separator s (10 ∷ body)
          (omega (arith, length-append head (take 3 separator))) p in
    let later : split_once separator (head ++ (separator ++ body)) ≡ some (head, body) =
      split_once-first head body q in
    split_once-cons separator c (head ++ (separator ++ body)) ∙ rw (here, later) refl

-- A body whose head has no empty line, not even one that the line end in front of the payload
-- completes, loses just that head and the empty line: the payload is kept whole, with the empty
-- lines of its own.
pub strip_http_headers-first :
    (head body : Bytes)
    → split_once separator (head ++ take 3 separator) ≡ none
    → strip_http_headers (head ++ (separator ++ body)) ≡ body
unfolding strip_http_headers
strip_http_headers-first head body h =
    ap (payload_or (head ++ (separator ++ body))) (split_once-first head body h)
