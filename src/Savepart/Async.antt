-- ===== src/Savepart/Async.antt =====
-- pkg/iobuf/savepart_async_reader.go: `flush` and `enqueueWrite` are those of `savepartReader` with a receiver
-- that puts the blocks into a queue; the goroutine of `startWriter` hands them over. It runs between the reads
-- here: before each it deals with any number of blocks that wait. (A full channel holds a read back until the
-- goroutine has taken a block; the queue here takes any number.)
use tavern.Prelude.{
  ℕ, zero, suc, Bool, true, false, Option, none, some, List, [], ◌∷◌, ◌++◌, if◌then◌else◌,
}
use tavern.Prelude.Text.{Bytes}
use tavern.Readers.Stream.{Status, failed}
use tavern.Savepart.Reader.{
  SavepartReader, savepart_reader, Events, read_saving, close_saving, read_next,
}

-- `writeJob`
pub record WriteJob : Type 0 where
  pub buf : Bytes
  pub bit_idx : ℕ
  pub pos : ℕ
  pub at_end : Bool

-- `writeCh` and whether there is a `writeErr`, with what the callbacks change
pub record Writer (S : Type 0) : Type 0 where
  pub write_ch : List WriteJob
  pub write_err : Bool
  pub sink : S

abbrev pub AsyncReader : Type 0 → Type 0
AsyncReader S = SavepartReader (Writer S)

-- `SavepartAsyncReader`
unfoldable pub savepart_async_reader : {S : Type 0} → ℕ → S → AsyncReader S
unfolding savepart_reader
savepart_async_reader start_at sink =
    savepart_reader start_at (record { write_ch = []; write_err = false; sink = sink })

module _ {S : Type 0} (events : Events S) where
  abbrev after_job : Writer S → Bool × S → Writer S
  after_job w (true, s) = record w { sink = s }
  after_job w (false, s) = record w { write_err = true; sink = events.on_error s }

  -- a turn of the loop of `startWriter`, for a job
  unfoldable pub run_job : WriteJob → Writer S → Writer S
  run_job job w = after_job w (events.on_success w.sink job.buf job.bit_idx job.pos job.at_end)

  -- turns of the loop, while there are jobs
  unfoldable pub run_jobs : ℕ → List WriteJob → Writer S → Writer S
  run_jobs zero js w = record w { write_ch = js }
  run_jobs (suc n) [] w = record w { write_ch = [] }
  run_jobs (suc n) (job ∷ js) w = run_jobs n js (run_job job w)

  -- the rest of the loop, once the channel is closed
  unfoldable pub drain : List WriteJob → Writer S → Writer S
  drain [] w = record w { write_ch = [] }
  drain (job ∷ js) w = drain js (run_job job w)

  -- what `flush` and `Close` call: `enqueueWrite`, which always takes the block, `onError`, and the wait for the
  -- goroutine with `onClose`
  abbrev pub async_events : Events (Writer S)
  async_events = record {
    on_success = λ w b i pos at_end. (
      true,
      record w {
        write_ch = w.write_ch ++ record { buf = b; bit_idx = i; pos = pos; at_end = at_end } ∷ [];
      },
    );
    on_error = λ w. record w { sink = events.on_error w.sink };
    on_close =
        λ w at_end. let d = drain w.write_ch w in record d { sink = events.on_close d.sink at_end };
  }

  -- the goroutine, before a read
  abbrev pub run_writer : ℕ → AsyncReader S → AsyncReader S
  run_writer n s = record s { sink = run_jobs n s.sink.write_ch s.sink }

  module _ (block_size : ℕ) where
    -- `Read`, with what the read of the underlying reader gives
    unfoldable pub read_async :
        Bytes × Status → AsyncReader S → Option (Bytes × Status × AsyncReader S)
    read_async a s =
        if s.sink.write_err then some ([], failed, s) else read_saving async_events block_size a s

    -- `Close`
    unfoldable pub close_async : AsyncReader S → AsyncReader S
    unfolding close_saving
    close_async s = close_saving async_events block_size s

    -- a client that reads until a read fails or gives the end, with what the reads of the underlying reader give
    -- in turn, and how many jobs the goroutine deals with before each
    unfoldable pub save_async :
        List ((Bytes × Status) × ℕ) → AsyncReader S → Option (Bytes × Status × AsyncReader S)
    save_async [] s = none
    save_async ((a, n) ∷ rest) s =
        read_next async_events block_size (save_async rest) (read_async a (run_writer n s))
