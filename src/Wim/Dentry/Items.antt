-- ===== src/Wim/Dentry/Items.antt =====
-- The tagged items of a directory entry as a writer lays them out, for src/format/wim.rs.
use newtua_core.Base.{
  ltb, leb, ◌==◌, if◌then◌else◌, lt→ltb, le→ltb, Bool-cases, length, replicate, All, length-append,
  length-replicate, ℕ, zero, suc, ◌+◌, ◌-◌, ◌^◌, ◌≤◌, ◌<◌, max, ◌≡◌, refl, sym, ap, ◌∙◌, inl, inr,
  true, false, ◌&&◌, Option, none, some, List, [], ◌∷◌, ◌++◌, append-nil, append_assoc, arith,
}
use newtua_core.Base.Bytes.{Bytes, slice?, to_le, length-to_le}
use newtua_core.Base.Slices.{slice?-append}
use newtua_core.Error.{ok}
use newtua_core.Wim.Fields.{le_at}
use newtua_core.Wim.Fields.Written.{le_at-to_le}
use newtua_core.Wim.Dentry.{
  tag_unix_data, unix_data_len, round_up, mode_loop, unix_mode_from_tagged_items,
}

-- A tag and the bytes of an item.
abbrev pub Item : Type 0
Item = ℕ × Bytes

abbrev pub padding : ℕ → Bytes
padding n = replicate (round_up (8 + n) - (8 + n)) 0

abbrev pub item_bytes : Item → Bytes
item_bytes (tag, b) = to_le 4 tag ++ (to_le 4 (length b) ++ (b ++ padding (length b)))

abbrev pub items_bytes : List Item → Bytes
items_bytes [] = []
items_bytes (i ∷ is) = item_bytes i ++ items_bytes is

abbrev pub Fits : Item → Type 0
Fits (tag, b) = (tag < 2 ^ 32) × (length b < 2 ^ 32)

-- The mode of the first item of the tag that is long enough.
abbrev pub stated_mode : List Item → Option ℕ
stated_mode [] = none
stated_mode ((tag, b) ∷ is) =
    if tag == tag_unix_data && leb unix_data_len (length b)
    then some (le_at 4 b 8)
    else stated_mode is

length-item_bytes : (tag : ℕ) (b : Bytes) → length (item_bytes (tag, b)) ≡ round_up (8 + length b)
length-item_bytes tag b = omega (
  arith,
  length-append (to_le 4 tag) (to_le 4 (length b) ++ (b ++ padding (length b))),
  length-append (to_le 4 (length b)) (b ++ padding (length b)),
  length-append b (padding (length b)),
  length-to_le 4 tag,
  length-to_le 4 (length b),
  length-replicate {A = ℕ} (round_up (8 + length b) - (8 + length b)) 0,
)

-- One round at an item, whose parts are the pieces of the bytes behind `front`.
mode_loop-item :
    (front b pad rest : Bytes) (tag at fuel : ℕ)
    → length front ≡ at
    → tag < 2 ^ 32
    → length b < 2 ^ 32
    → mode_loop
        (front ++ (to_le 4 tag ++ (to_le 4 (length b) ++ (b ++ (pad ++ rest)))))
        (suc fuel)
        at
      ≡ (if tag == tag_unix_data && leb unix_data_len (length b)
          then ok (some (le_at 4 b 8))
          else mode_loop
              (front ++ (to_le 4 tag ++ (to_le 4 (length b) ++ (b ++ (pad ++ rest)))))
              fuel
              (at + max (round_up (8 + length b)) 8))
unfolding mode_loop
mode_loop-item front b pad rest tag at fuel e t l =
    let w : Bytes = to_le 4 tag in
    let n : Bytes = to_le 4 (length b) in
    let after : Bytes = b ++ (pad ++ rest) in
    let all : Bytes = front ++ (w ++ (n ++ after)) in
    let room : ltb (length all) (at + 8) ≡ false = le→ltb _ _ (
      omega (
        arith,
        e,
        length-append front (w ++ (n ++ after)),
        length-append w (n ++ after),
        length-append n after,
        length-to_le 4 tag,
        length-to_le 4 (length b),
      )) in
    let tag_read : le_at 4 all at ≡ tag = le_at-to_le 4 at tag front (n ++ after) e t in
    let len_read : le_at 4 all (at + 4) ≡ length b =
      ap (λ (bs : Bytes). le_at 4 bs (at + 4)) (sym (append_assoc front w (n ++ after)))
      ∙ le_at-to_le 4 (at + 4) (length b) (front ++ w) after
          (omega (arith, e, length-append front w, length-to_le 4 tag)) l in
    let item_read : slice? all (at + 8) (length b) ≡ some b =
      rw (sym (append_assoc front w (n ++ after)), sym (append_assoc (front ++ w) n after))
        (slice?-append (length b) (at + 8) ((front ++ w) ++ n) b (pad ++ rest)
          (omega (
            arith,
            e,
            length-append (front ++ w) n,
            length-append front w,
            length-to_le 4 tag,
            length-to_le 4 (length b),
          ))
          refl) in
    rw (room, len_read, item_read, tag_read) refl

items_regroup :
    (front : Bytes) (tag : ℕ) (b : Bytes) (is : List Item)
    → front ++ items_bytes ((tag, b) ∷ is)
      ≡ front
        ++ (to_le 4 tag ++ (to_le 4 (length b) ++ (b ++ (padding (length b) ++ items_bytes is))))
items_regroup front tag b is = simp append_assoc

mode_loop-items :
    (is : List Item) (front : Bytes) (at fuel : ℕ)
    → length front ≡ at
    → length is < fuel
    → All Fits is
    → mode_loop (front ++ items_bytes is) fuel at ≡ ok (stated_mode is)
mode_loop-items [] front at zero e f h = absurd (omega arith)
mode_loop-items [] front at (suc fuel) e f h =
    let past : ltb (length (front ++ [])) (at + 8) ≡ true =
      lt→ltb _ _ (omega (arith, e, ap length (append-nil front))) in
    unfold mode_loop in rw past refl
mode_loop-items ((tag, b) ∷ is) front at zero e f h = absurd (omega arith)
mode_loop-items ((tag, b) ∷ is) front at (suc fuel) e f (g, h) =
    let grown : length (front ++ item_bytes (tag, b)) ≡ at + max (round_up (8 + length b)) 8 =
      omega (arith, e, length-append front (item_bytes (tag, b)), length-item_bytes tag b) in
    let later =
      mode_loop-items is (front ++ item_bytes (tag, b)) (at + max (round_up (8 + length b)) 8) fuel
        grown (omega (arith, f)) h in
    let later' = rw (append_assoc front (item_bytes (tag, b)) (items_bytes is)) at later in
    rw items_regroup (
      rw (mode_loop-item front b (padding (length b)) (items_bytes is) tag at fuel e g.0 g.1)
        (elim (Bool-cases (tag == tag_unix_data && leb unix_data_len (length b))) [
          | inl t ↦ rw t refl
          | inr t ↦ rw t (rw (sym (items_regroup front tag b is)) later')
        ]))

length-items_bytes : (is : List Item) → length is ≤ length (items_bytes is)
length-items_bytes [] = omega arith
length-items_bytes ((tag, b) ∷ is) = omega (
  arith,
  length-append (item_bytes (tag, b)) (items_bytes is),
  length-item_bytes tag b,
  length-items_bytes is,
)

-- The scan of tagged items that are padded to eight bytes gives the mode of the first one with the
-- tag of the Unix data and at least sixteen bytes, and none where there is no such item.
pub unix_mode_from_tagged_items-written :
    (is : List Item)
    → All Fits is
    → unix_mode_from_tagged_items (items_bytes is) ≡ ok (stated_mode is)
unfolding unix_mode_from_tagged_items
unix_mode_from_tagged_items-written is h =
    mode_loop-items is [] 0 (suc (length (items_bytes is))) refl
      (omega (arith, length-items_bytes is)) h
