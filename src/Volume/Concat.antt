-- ===== src/Volume/Concat.antt =====
-- src/volume.rs: `ConcatReader`, the volumes read as one stream.
pub mod Stream
use newtua_core.Base.{
  ◌==◌, if◌then◌else◌, length, get_elem?, take, drop, ℕ, zero, suc, ◌+◌, ◌-◌, Option, none, some,
  List, [], ◌∷◌,
}
use newtua_core.Base.Bytes.{Bytes}
use newtua_core.Error.{missing_volume, Result, ok, err, stuck, ◌>>=◌}

-- An open file is the bytes that it has left to give.
pub record ConcatReader : Type 0 where
  pub files : List Bytes
  pub idx : ℕ
  pub current : Option Bytes

unfoldable pub open_members : List Bytes → Result ConcatReader
open_members [] = err (missing_volume "<empty>")
open_members (m ∷ ms) = ok (record { files = m ∷ ms; idx = 0; current = none })

-- One round of the loop of `read`: the end of the stream, bytes, or a file that is used up.
pub data Round : Type 0 where
  finished : Round
  bytes : Bytes → ConcatReader → Round
  used_up : ConcatReader → Round

-- A read of a file on a buffer of `n` bytes fills the buffer as far as the file goes.
abbrev pub from_current : ℕ → ConcatReader → Bytes → Round
from_current n r left =
    let got : Bytes = take n left in
    if length got == 0
    then used_up (record r { current = none })
    else bytes got (record r { current = some (drop n left) })

abbrev pub read_with :
    (ConcatReader → Result (Bytes × ConcatReader))
    → ConcatReader
    → Round
    → Result (Bytes × ConcatReader)
read_with again r finished = ok ([], r)
read_with again r (bytes got r') = ok (got, r')
read_with again r (used_up r') = again r'

-- The file system: what opening a path gives, to be read from its first byte.
module _ (open_file : Bytes → Result Bytes) where
  abbrev pub open_next : ConcatReader → Option Bytes → Result (Option Bytes)
  open_next r none = ok none
  open_next r (some path) = open_file path >>= λ left. ok (some left)

  abbrev pub after_open : ℕ → ConcatReader → Option Bytes → Round
  after_open n r none = finished
  after_open n r (some left) = from_current n (record r { idx = r.idx + 1 }) left

  abbrev pub round_on : ℕ → ConcatReader → Option Bytes → Result Round
  round_on n r (some left) = ok (from_current n r left)
  round_on n r none = open_next r (get_elem? r.files r.idx) >>= λ o. ok (after_open n r o)

  unfoldable pub round : ℕ → ConcatReader → Result Round
  round n r = round_on n r r.current

  unfoldable pub read_loop : ℕ → ℕ → ConcatReader → Result (Bytes × ConcatReader)
  read_loop zero n r = stuck
  read_loop (suc fuel) n r = round n r >>= read_with (read_loop fuel n) r

  -- A file is used up at most once, the current one and those behind `idx`.
  unfoldable pub read : ℕ → ConcatReader → Result (Bytes × ConcatReader)
  read n r = read_loop (length r.files + 2 - r.idx) n r
