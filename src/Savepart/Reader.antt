-- ===== src/Savepart/Reader.antt =====
-- `savepartReader`. Its reader, its block size and its callbacks do not change: they are parameters.
-- Positions stay below 2^63, the size of an object, so that no uint64 wraps around.
use tavern.Prelude.{
  ℕ, zero, suc, ◌+◌, ◌-◌, ◌/◌, ◌%◌, ◌^◌, Bool, true, false, Option, none, some, List, [], ◌∷◌, ◌++◌,
  length, min, ltb, ◌==◌, if◌then◌else◌, take, drop,
}
use tavern.Prelude.Text.{Bytes}
use tavern.Readers.Stream.{Status, nil, eof, failed, bad_count}

-- `sink` is what the callbacks change.
pub record SavepartReader (S : Type 0) : Type 0 where
  pub skip : Bool
  pub at_eof : Bool
  pub closed : Bool
  pub pos : ℕ
  pub buf : Bytes
  pub sink : S

-- `SavepartReader`, with the offset at which the body starts
unfoldable pub savepart_reader : {S : Type 0} → ℕ → S → SavepartReader S
savepart_reader start_at sink = record {
  skip = ltb 0 start_at;
  at_eof = false;
  closed = false;
  pos = start_at;
  buf = [];
  sink = sink;
}

-- `EventSuccess`, `EventError` and `EventClose`. The first says whether it returns no error.
pub record Events (S : Type 0) : Type 0 where
  pub on_success : S → Bytes → ℕ → ℕ → Bool → Bool × S
  pub on_error : S → S
  pub on_close : S → Bool → S

module _ {S : Type 0} (events : Events S) (block_size : ℕ) where
  abbrev pub after_success : Bool → SavepartReader S → Bool × S → Bool × SavepartReader S
  after_success at_end s (true, sink) = (true, record s { at_eof = at_end; buf = []; sink = sink })
  after_success at_end s (false, sink) = (false, record s { at_eof = at_end; sink = sink })

  -- `writeBlock`: whether it returns no error, and the next state
  unfoldable pub write_block : Bool → SavepartReader S → Bool × SavepartReader S
  write_block at_end s =
      if length s.buf == 0
      then (true, record s { at_eof = at_end })
      else after_success at_end s (
          events.on_success s.sink s.buf ((s.pos - length s.buf) / block_size % 2 ^ 32) s.pos
            at_end)

  -- the end of a round of `flush`, with room for so many bytes in the block
  abbrev pub add_data :
      (Bytes → SavepartReader S → Option (Bool × SavepartReader S))
      → Bytes
      → ℕ
      → SavepartReader S
      → Option (Bool × SavepartReader S)
  add_data again bytes room s =
      let tow = min room (length bytes) in
      again (drop tow bytes) (record s { buf = s.buf ++ take tow bytes; pos = s.pos + tow })

  abbrev pub after_block :
      (Bytes → SavepartReader S → Option (Bool × SavepartReader S))
      → Bytes
      → ℕ
      → Bool × SavepartReader S
      → Option (Bool × SavepartReader S)
  after_block again bytes room (true, s) = add_data again bytes room s
  after_block again bytes room (false, s) = some (false, s)

  abbrev pub skip_data :
      (Bytes → SavepartReader S → Option (Bool × SavepartReader S))
      → Bytes
      → ℕ
      → SavepartReader S
      → Option (Bool × SavepartReader S)
  skip_data again bytes room s =
      let n = min room (length bytes) in again (drop n bytes) (record s { pos = s.pos + n })

  -- a round of the loop of `flush`
  abbrev pub flush_round :
      (Bytes → SavepartReader S → Option (Bool × SavepartReader S))
      → Bool
      → Bytes
      → SavepartReader S
      → Option (Bool × SavepartReader S)
  flush_round again at_end bytes s =
      let from = s.pos % block_size in
      let room = block_size - from in
      if s.skip
      then (if from == 0
          then again bytes (record s { skip = false })
          else skip_data again bytes room s)
      else (if length s.buf == block_size
          then after_block again bytes room (write_block at_end s)
          else add_data again bytes room s)

  -- the loop of `flush` on the data that remains, with the rounds left; without them it has not ended,
  -- which is no result
  unfoldable pub flush_loop : ℕ → Bool → Bytes → SavepartReader S → Option (Bool × SavepartReader S)
  flush_loop rounds at_end [] s = some (true, s)
  flush_loop zero at_end (x ∷ xs) s = none
  flush_loop (suc rounds) at_end (x ∷ xs) s =
      flush_round (flush_loop rounds at_end) at_end (x ∷ xs) s

  abbrev pub flush_end : Bool → Option (Bool × SavepartReader S) → Option (Bool × SavepartReader S)
  flush_end at_end none = none
  flush_end at_end (some (false, s)) = some (false, s)
  flush_end at_end (some (true, s)) = if at_end then some (write_block at_end s) else some (true, s)

  -- `flush`. A round takes a byte at least, but for the one that ends the skipping.
  unfoldable pub flush : Bool → Bytes → SavepartReader S → Option (Bool × SavepartReader S)
  flush at_end bytes s = flush_end at_end (flush_loop (length bytes + 1) at_end bytes s)

  abbrev pub report : Bool → SavepartReader S → SavepartReader S
  report true s = s
  report false s = record s { sink = events.on_error s.sink }

  abbrev pub flushed :
      Bytes → Status → Option (Bool × SavepartReader S) → Option (Bytes × Status × SavepartReader S)
  flushed bytes st none = none
  flushed bytes eof (some (ok, s)) = some (bytes, eof, report ok s)
  flushed bytes st (some (true, s)) = some (bytes, nil, s)
  flushed bytes st (some (false, s)) = some (bytes, failed, report false s)

  -- `Read`, with what the read of the underlying reader gives
  unfoldable pub read_saving :
      Bytes × Status → SavepartReader S → Option (Bytes × Status × SavepartReader S)
  read_saving (bytes, nil) s = flushed bytes nil (flush false bytes s)
  read_saving (bytes, eof) s = flushed bytes eof (flush true bytes s)
  read_saving (bytes, failed) s = some ([], failed, report false s)
  read_saving (bytes, bad_count) s = some ([], failed, report false s)

  -- `Close`
  unfoldable pub close_saving : SavepartReader S → SavepartReader S
  close_saving s =
      if s.closed then s else record s { closed = true; sink = events.on_close s.sink s.at_eof }

  abbrev pub prepend :
      Bytes
      → Option (Bytes × Status × SavepartReader S)
      → Option (Bytes × Status × SavepartReader S)
  prepend bytes none = none
  prepend bytes (some (rest, st, s)) = some (bytes ++ rest, st, s)

  abbrev pub read_next :
      (SavepartReader S → Option (Bytes × Status × SavepartReader S))
      → Option (Bytes × Status × SavepartReader S)
      → Option (Bytes × Status × SavepartReader S)
  read_next again (some (bytes, nil, s)) = prepend bytes (again s)
  read_next again (some (bytes, st, s)) = some (bytes, st, s)
  read_next again none = none

  -- a client that reads until a read fails or gives the end, with what the reads of the underlying reader
  -- give in turn: the bytes, the last status and the next state
  unfoldable pub save_all :
      List (Bytes × Status) → SavepartReader S → Option (Bytes × Status × SavepartReader S)
  save_all [] s = none
  save_all (a ∷ rest) s = read_next (save_all rest) (read_saving a s)
