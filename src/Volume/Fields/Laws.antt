-- ===== src/Volume/Fields/Laws.antt =====
-- The extra area of a directory record, as src/volume.rs splits and reads it.
use newtua_core.Base.{
  leb, ◌==◌, if◌then◌else◌, le→leb, length, take, drop, All, length-append, take-append,
  drop-append, ℕ, zero, suc, ◌+◌, ◌^◌, ◌≤◌, ◌<◌, ◌≡◌, refl, ◌∙◌, true, Option, none, some, List, [],
  ◌∷◌, ◌++◌, append-nil, arith,
}
use newtua_core.Base.Bytes.{Bytes, from_le, to_le}
use newtua_core.Volume.Fields.{zip64_extra_id, Extra, split_loop, split_extra}

-- A field of an extra area: its id and its data.
abbrev pub Field : Type 0
Field = ℕ × Bytes

abbrev pub IsField : Field → Type 0
IsField (id, body) = (id < 2 ^ 16) × (length body < 2 ^ 16)

abbrev pub field_bytes : Field → Bytes
field_bytes (id, body) = to_le 2 id ++ (to_le 2 (length body) ++ body)

abbrev pub area : List Field → Bytes
area [] = []
area (f ∷ fs) = field_bytes f ++ area fs

-- What the loop has to give on a list of fields: the last zip64 field's data, and the others.
abbrev pub sorted : List Field → Option Bytes → Bytes → Extra
sorted [] zip64 rest = (zip64, rest)
sorted ((id, body) ∷ fs) zip64 rest =
    if id == zip64_extra_id
    then sorted fs (some body) rest
    else sorted fs zip64 (rest ++ field_bytes (id, body))

length-field_bytes : (f : Field) → length (field_bytes f) ≡ 4 + length f.1
length-field_bytes (id, body) = omega arith

id-field_bytes :
    (f : Field) (more : Bytes) → IsField f → from_le (take 2 (field_bytes f ++ more)) ≡ f.0
id-field_bytes (id, body) more h = omega (arith, h.0)

len-field_bytes :
    (f : Field) (more : Bytes)
    → IsField f
    → from_le (take 2 (drop 2 (field_bytes f ++ more))) ≡ length f.1
len-field_bytes (id, body) more h = omega (arith, h.1)

body-field_bytes :
    (f : Field) (more : Bytes) → take (length f.1) (drop 4 (field_bytes f ++ more)) ≡ f.1
body-field_bytes (id, body) more = take-append (length body) body more refl

-- One round of the loop, on an area that begins with a whole field.
split_loop-field :
    (fuel id : ℕ) (extra whole body more : Bytes) (zip64 : Option Bytes) (rest : Bytes)
    → from_le (take 2 extra) ≡ id
    → from_le (take 2 (drop 2 extra)) ≡ length body
    → take (4 + length body) extra ≡ whole
    → drop (4 + length body) extra ≡ more
    → take (length body) (drop 4 extra) ≡ body
    → 4 + length body ≤ length extra
    → split_loop (suc fuel) extra zip64 rest ≡ (
        if id == zip64_extra_id
        then split_loop fuel more (some body) rest
        else split_loop fuel more zip64 (rest ++ whole))
unfolding split_loop
split_loop-field fuel id extra whole body more zip64 rest i l w m b fits =
    let head : leb 4 (length extra) ≡ true = le→leb _ _ (omega arith) in
    let all : leb (4 + length body) (length extra) ≡ true = le→leb _ _ fits in
    rw (i, l, w, m, b, head, all) refl

split_loop-area :
    (fuel : ℕ) (fs : List Field) (zip64 : Option Bytes) (rest : Bytes)
    → All IsField fs
    → length (area fs) ≤ fuel
    → split_loop fuel (area fs) zip64 rest ≡ sorted fs zip64 rest
unfolding split_loop
split_loop-area zero [] zip64 rest h e = simp append-nil
split_loop-area (suc fuel) [] zip64 rest h e = simp append-nil
split_loop-area zero (f ∷ fs) zip64 rest h e = absurd (omega arith)
split_loop-area (suc fuel) ((id, body) ∷ fs) zip64 rest h e =
    let f : Field = (id, body) in
    let n = length-field_bytes f in
    split_loop-field fuel id (area (f ∷ fs)) (field_bytes f) body (area fs) zip64 rest
      (id-field_bytes f (area fs) h.0) (len-field_bytes f (area fs) h.0)
      (take-append (4 + length body) (field_bytes f) (area fs) n)
      (drop-append (4 + length body) (field_bytes f) (area fs) n) (body-field_bytes f (area fs))
      (omega (arith, length-append (field_bytes f) (area fs), n))
    ∙ rw
        (
          split_loop-area fuel fs (some body) rest h.1
              (omega (arith, e, length-append body (area fs))),
          split_loop-area fuel fs zip64 (rest ++ field_bytes f) h.1
              (omega (arith, e, length-append body (area fs))),
        )
        refl

-- On an extra area of whole fields `split_extra` gives the data of the last zip64 field, and the
-- other fields as they are, in their order.
pub split_extra-area :
    (fs : List Field) → All IsField fs → split_extra (area fs) ≡ sorted fs none []
unfolding split_extra
split_extra-area fs h = split_loop-area (length (area fs)) fs none [] h (omega arith)
