-- ===== src/Readers/Window.antt =====
-- pkg/iobuf/range_reader.go: `RangeReader`. Positions are ints; they stay below 2^63, the size of an
-- object, so that no sum of two wraps around.
use tavern.Prelude.{ℕ, ◌+◌, ◌-◌, Option, none, some, [], length, min, ltb, if◌then◌else◌, take}
use tavern.Prelude.Text.{Bytes}
use tavern.Readers.Stream.{Status, nil, eof, failed, bad_count, Reader, discard}

pub record RangeReader (S : Type 0) : Type 0 where
  pub reader : S
  pub new_start : ℕ
  pub new_end : ℕ
  pub raw_start : ℕ
  pub raw_end : ℕ
  pub offset : ℕ

-- `RangeReader`
unfoldable pub range_reader : {S : Type 0} → S → ℕ → ℕ → ℕ → ℕ → RangeReader S
range_reader s new_start new_end raw_start raw_end = record {
  reader = s;
  new_start = new_start;
  new_end = new_end;
  raw_start = raw_start;
  raw_end = raw_end;
  offset = new_start;
}

abbrev pub moved : {S : Type 0} → RangeReader S → S → ℕ → RangeReader S
moved w s offset = record w { reader = s; offset = offset }

-- what a discard gave: the bytes that it took, of n, and the state; the rest of the tail is lost with
-- an error
abbrev pub discarded : {S : Type 0} → ℕ → S → Option (ℕ × Status × S) → ℕ × S
discarded n s none = (0, s)
discarded n s (some (left, st, s')) = (n - left, s')

module _ {S : Type 0} (r : Reader S) (rounds : ℕ) where
  -- the end of the window: the tail up to `newEnd` is discarded. `discardSize` is `newEnd - cur + 1`,
  -- which is below 0 where more was read than `newEnd` has, and at most `newEnd`.
  abbrev pub end_window : RangeReader S → Bytes → S → Bytes × Status × RangeReader S
  end_window w d s =
      let cur = w.offset + length d in
      let size = min w.new_end (w.new_end + 1 - cur) in
      let (taken, s') = discarded size s (discard r rounds size s) in
      let next = moved w s' (min (w.new_end + 1) cur + taken) in
      if ltb (w.raw_end + 1) w.offset
      then ([], bad_count, next)
      else (take (w.raw_end + 1 - w.offset) d, eof, next)

  -- `Read` from `rawStart` on
  abbrev pub in_window : RangeReader S → Bytes × Status × S → Bytes × Status × RangeReader S
  in_window w (d, st, s) =
      if ltb w.raw_end (w.offset + length d)
      then end_window w d s
      else (d, st, moved w s (w.offset + length d))

  abbrev pub after_discard :
      RangeReader S → ℕ → Option (ℕ × Status × S) → Bytes × Status × RangeReader S
  after_discard w k none = ([], failed, w)
  after_discard w k (some (left, nil, s)) = in_window (moved w s w.raw_start) (r.read s k)
  after_discard w k (some (left, eof, s)) = ([], eof, moved w s w.offset)
  after_discard w k (some (left, failed, s)) = ([], failed, moved w s w.offset)
  after_discard w k (some (left, bad_count, s)) = ([], failed, moved w s w.offset)

  -- `Read`
  unfoldable pub read_range : RangeReader S → ℕ → Bytes × Status × RangeReader S
  read_range w k =
      if ltb w.offset w.raw_start
      then after_discard w k (discard r rounds (w.raw_start - w.offset) w.reader)
      else in_window w (r.read w.reader k)

  abbrev pub window_reader : Reader (RangeReader S)
  window_reader = record { read = read_range; close = λ w. r.close w.reader }
