-- ===== src/Decompress/Read.antt =====
-- src/decompress.rs: the loop that feeds the decoder with the members of an lzip stream. The decoder
-- of liblzma is a parameter, and so is how much of the input is buffered.
use newtua_core.Base.{
  ◌==◌, if◌then◌else◌, take, drop, ℕ, zero, suc, ◌<◌, ◌≡◌, refl, ap, Bool, true, false, not, ◌&&◌,
  Option, none, some, [], ◌∷◌, arith,
}
use newtua_core.Base.Bytes.{Bytes}
use newtua_core.Error.{invalid_data, Error, io, Result, ok, err, stuck, ◌>>=◌}
use newtua_core.Decompress.{
  LzipState, header, body, trailer_left, done, failed, LzipReader, start_member, advance_trailer,
}

pub data Status : Type 0 where
  stream_end status_ok other_status : Status

-- What `process` did: the bytes it took, and those that it gave out.
pub record Step (Stream : Type 0) : Type 0 where
  pub stream : Stream
  pub consumed : ℕ
  pub produced : Bytes
  pub status : Status

pub record Decoder : Type 1 where
  pub Stream : Type 0
  -- `Stream::new_lzma_decoder`
  pub fresh : Result Stream
  -- on the input and the room for output
  pub process : Stream → Bytes → ℕ → Result (Step Stream)
  pub total_out : Stream → ℕ

abbrev pub is_empty : Bytes → Bool
is_empty [] = true
is_empty (b ∷ bs) = false

abbrev pub is_ok_status : Status → Bool
is_ok_status status_ok = true
is_ok_status _ = false

-- The stream is there in the state `body`; in another state it is that of the member before, or none.
pub record Reading (Stream : Type 0) : Type 0 where
  pub reader : LzipReader
  pub stream : Option Stream

abbrev pub in_state : LzipReader → LzipState → LzipReader
in_state r s = record r { state = s }

module _ (decoder : Decoder) (buffered : Bytes → ℕ) where
  abbrev pub Outcome : Type 0
  Outcome = Result (Reading decoder.Stream × Bytes)

  abbrev pub after_status : LzipReader → Step decoder.Stream → Result LzipReader
  after_status r step = elim step.status [
    | stream_end ↦
        ok (record r { member_out = decoder.total_out step.stream; state = trailer_left })
    | status_ok ↦ ok (in_state r body)
    | other_status ↦ err (io invalid_data)
  ]

  abbrev pub drained : LzipReader → Bool → ℕ → LzipReader
  drained r from_pending n =
      if from_pending
      then record r { pending = drop n r.pending }
      else record r { input = drop n r.input }

  abbrev pub body_step :
      (Reading decoder.Stream → Outcome) → LzipReader → Option decoder.Stream → ℕ → Outcome
  body_step next r none room = err (io invalid_data)
  body_step next r (some s) room =
      let from_pending : Bool = not (is_empty r.pending) in
      let input : Bytes = if from_pending then r.pending else take (buffered r.input) r.input in
      if is_empty input
      then err (io invalid_data)
      else decoder.process s input room >>= λ step.
          after_status (drained r from_pending step.consumed) step >>= λ r'.
          let m : Reading decoder.Stream = record { reader = r'; stream = some step.stream } in
          if not (is_empty step.produced)
          then ok (m, step.produced)
          else if step.consumed == 0 && is_ok_status step.status
          then err (io invalid_data)
          else next m

  abbrev pub on_start :
      (Reading decoder.Stream → Outcome) → Option decoder.Stream → Bool × LzipReader → Outcome
  on_start next s (false, r) = ok (record { reader = in_state r done; stream = s }, [])
  on_start next s (true, r) =
      decoder.fresh >>= λ stream. next (record { reader = r; stream = some stream })

  abbrev pub by_state :
      (Reading decoder.Stream → Outcome) → LzipState → Reading decoder.Stream → ℕ → Outcome
  by_state next done m room = ok (m, [])
  by_state next failed m room = ok (m, [])
  by_state next header m room = start_member m.reader >>= on_start next m.stream
  by_state next trailer_left m room = advance_trailer (buffered m.reader.input) m.reader >>= λ r.
      next (record { reader = r; stream = m.stream })
  by_state next body m room = body_step next m.reader m.stream room

  -- `room` is the length of the buffer for output.
  unfoldable pub read_member_loop : ℕ → ℕ → Reading decoder.Stream → Outcome
  read_member_loop zero room m = stuck
  read_member_loop (suc fuel) room m = by_state (read_member_loop fuel room) m.reader.state m room

  -- A failure is kept in the state.
  abbrev pub latched : Reading decoder.Stream → Outcome → Reading decoder.Stream × Result Bytes
  latched m (ok (m', out)) = (m', ok out)
  latched m (err e) = (record m { reader = in_state m.reader failed }, err e)
  latched m stuck = (m, stuck)

  abbrev pub read_in :
      LzipState → ℕ → ℕ → Reading decoder.Stream → Reading decoder.Stream × Result Bytes
  read_in done fuel room m = (m, ok [])
  read_in failed fuel room m = (m, err (io invalid_data))
  read_in _ fuel room m = latched m (read_member_loop fuel room m)

  unfoldable pub read : ℕ → ℕ → Reading decoder.Stream → Reading decoder.Stream × Result Bytes
  read fuel room m = if room == 0 then (m, ok []) else read_in m.reader.state fuel room m

  latched-again :
      (m : Reading decoder.Stream) (o : Outcome) (e : Error)
      → (latched m o).1 ≡ err e
      → (latched m o).0.reader.state ≡ failed
  latched-again m (ok (m', out)) e h = absurd (cc)
  latched-again m (err e') e h = refl
  latched-again m stuck e h = absurd (cc)

  read_in-failed :
      (s : LzipState) (fuel room : ℕ) (m : Reading decoder.Stream) (e : Error)
      → m.reader.state ≡ s
      → (read_in s fuel room m).1 ≡ err e
      → (read_in s fuel room m).0.reader.state ≡ failed
  read_in-failed done fuel room m e p h = absurd (cc)
  read_in-failed failed fuel room m e p h = p
  read_in-failed header fuel room m e p h = latched-again m (read_member_loop fuel room m) e h
  read_in-failed trailer_left fuel room m e p h = latched-again m (read_member_loop fuel room m) e h
  read_in-failed body fuel room m e p h = latched-again m (read_member_loop fuel room m) e h

  again :
      (fuel room : ℕ) (m : Reading decoder.Stream)
      → 0 < room
      → m.reader.state ≡ failed
      → (read fuel room m).1 ≡ err (io invalid_data)
  unfolding read
  again fuel room m p h =
      let t : (room == 0) ≡ false = ground arith in
      rw t (ap (λ (s : LzipState). (read_in s fuel room m).1) h)

  -- After a read that gave an error, a read into a buffer that is not empty is an error again.
  pub read_after_error :
      (fuel room fuel' room' : ℕ) (m : Reading decoder.Stream) (e : Error)
      → 0 < room
      → 0 < room'
      → (read fuel room m).1 ≡ err e
      → (read fuel' room' (read fuel room m).0).1 ≡ err (io invalid_data)
  unfolding read
  read_after_error fuel room fuel' room' m e p q h =
      let t : (room == 0) ≡ false = ground arith in
      let h' = rw t at h in
      rw t (
        again fuel' room' (read_in m.reader.state fuel room m).0 q
          (read_in-failed m.reader.state fuel room m e refl h'))
