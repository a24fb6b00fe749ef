-- ===== src/Savepart/Written.antt =====
-- What the bucket holds after a body is read through an asynchronous saving reader, and this is closed.
use tavern.Prelude.{
  if◌then◌else◌, ℕ, ◌+◌, ◌*◌, ◌≤◌, ◌<◌, ◌≡◌, ◌⊎◌, inl, inr, Bool, true, false, some, List, [], ◌++◌,
  arith, length, ◌==◌, Bool-cases,
}
use tavern.Prelude.Text.{Bytes}
use tavern.Prelude.Slices.{slice}
use tavern.Readers.Stream.{eof}
use tavern.Iobuf.Bitmap.{BitmapLib}
use tavern.Savepart.Align.{first_boundary, boundary_before}
use tavern.Savepart.Reader.{close_saving}
use tavern.Savepart.Async.{AsyncReader, savepart_async_reader, drain, save_async, close_async}
use tavern.Savepart.Chunks.{ChunkStore, Target, flush_events, writer_closer}
use tavern.Savepart.Honest.{IsHonest, Works, Reaches, flush_events-Takes}
use tavern.Savepart.Queue.{async_reads, bytes_of, drain_lem, save_async_lem}

module _ (L : BitmapLib) (obj : Bytes) (t : Target L) (works : Works L obj t) (stop : ℕ)
    (ends : (stop ≡ length obj) ⊎ ((j : ℕ) × (stop ≡ j * t.block_size))) where
  writer_closer-Reaches :
      (first : ℕ) (st : ChunkStore L) (k : ℕ) (at_end : Bool)
      → Reaches L obj t.block_size first st k
      → Reaches L obj t.block_size first (writer_closer L t st at_end) k
  unfolding writer_closer
  writer_closer-Reaches first st k at_end r =
      let known : (t.obj_size == 0) ≡ false = ground (arith, works.1, works.2) in
      rw known (elim (Bool-cases at_end) [
        | inl e ↦ rw e (stored first st k r)
        | inr e ↦ rw e (stored first st k r)
      ])
    where
      stored :
          (first : ℕ) (st : ChunkStore L) (k : ℕ)
          → Reaches L obj t.block_size first st k
          → Reaches L obj t.block_size first
              (if t.async_flush_chunk then record st { index = some st.chunks } else st)
              k
      stored first st k r = elim (Bool-cases t.async_flush_chunk) [
        | inl e ↦ rw e r
        | inr e ↦ rw e r
      ]

  -- A client that reads the bytes from `start` up to `stop` of the object, which is the end of the object or of
  -- a block, through an asynchronous saving reader in pieces of any sizes, while the goroutine deals with any
  -- number of blocks before each read, and that closes the reader then. The size of the object is known, above
  -- 0 and at most 2^32, and that of a block above 0; and the disk opens the files of the chunks, takes whole
  -- blocks, and can rename the files. The client gets these bytes and the end. After the close no block waits
  -- and there is no error; if each chunk of the metadata was a file with the object's bytes at its place, so it
  -- is then, and every chunk that starts from `start` on, before `stop`, is in the metadata.
  pub save_async-IsHonest :
      (ds : List (Bytes × ℕ)) (last : Bytes) (n start : ℕ) (st : ChunkStore L)
      → bytes_of ds ++ last ≡ slice obj start stop
      → start ≤ stop
      → stop ≤ length obj
      → IsHonest L obj t.block_size st
      → (s : AsyncReader (ChunkStore L)) × (save_async
            (flush_events L t)
            t.block_size
            (async_reads ds last n)
            (savepart_async_reader start st)
          ≡ some (slice obj start stop, eof, s))
        × (let w = (close_async (flush_events L t) t.block_size s).sink in
            (w.write_ch ≡ [])
            × (w.write_err ≡ false)
            × IsHonest L obj t.block_size w.sink
            × ((i : ℕ)
                → start ≤ i * t.block_size
                → i * t.block_size < stop
                → L.contains w.sink.chunks i ≡ true))
  unfolding close_async close_saving
  save_async-IsHonest ds last n start st e h l honest =
      let p = t.block_size in
      let events = flush_events L t in
      let (k, lo, hi) = first_boundary p start works.0 in
      let law = flush_events-Takes L obj t works stop ends k in
      let (s, k', done, unclosed, (fine, waits), all) =
        save_async_lem events p works.0 obj stop (λ st j. Reaches L obj p k st j) law ds last n
          start k st e h l (honest, λ i a b. absurd (omega arith)) lo hi in
      let (none_left, no_error, reached) =
        drain_lem events p works.0 obj stop (λ st j. Reaches L obj p k st j) law s.sink.write_ch
          s.sink k' fine waits in
      let (honest', there) =
        writer_closer-Reaches k (drain events s.sink.write_ch s.sink).sink k' s.at_eof reached in
      (
        s,
        done,
        rw unclosed (
          none_left,
          no_error,
          honest',
          λ i a b.
              there i (omega (arith, boundary_before p k (i + 1) (after_next i k a hi)))
                (boundary_before p i k' (omega arith)),
        ),
      )
    where
      after_next :
          (i k : ℕ)
          → start ≤ i * t.block_size
          → k * t.block_size < start + t.block_size
          → k * t.block_size < (i + 1) * t.block_size
      after_next i k a b =
          let next : (i + 1) * t.block_size ≡ i * t.block_size + t.block_size = grind arith in
          omega arith
