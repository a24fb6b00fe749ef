-- ===== src/Savepart/Chunks.antt =====
-- server/middleware/caching/caching.go: `flushbufferSlice` and `flushFailed`, the callbacks that put
-- the blocks of a body into the bucket. The files are those of the disk bucket (`WriteChunkFile` of
-- storage/bucket/disk/disk.go), where the file that is closed takes the place of the chunk's file.
-- The message to the verifier and the counters are left out.
use tavern.Prelude.{
  ℕ, Bool, true, false, not, ◌&&◌, Option, none, some, [], length, take, ◌==◌, if◌then◌else◌,
}
use tavern.Prelude.Text.{Bytes}
use tavern.Iobuf.Bitmap.{BitmapLib}
use tavern.Savepart.Reader.{Events}

module _ (L : BitmapLib) where
  pub record ChunkStore : Type 0 where
    pub files : ℕ → Option Bytes
    -- `md.Chunks` and `md.Size` of the request
    pub chunks : L.Bitmap
    pub size : ℕ
    -- the chunks that the index of the bucket has for the object, if it has the object
    pub index : Option L.Bitmap

  -- The size of the object as the response's Content-Range says it, the block size, whether the index is
  -- written at the end only, and the disk: whether it opens the file of a chunk, how many bytes of it it
  -- takes, whether the file that is closed can take the place of the chunk's, and whether that can be removed.
  pub record Target : Type 0 where
    pub obj_size : ℕ
    pub block_size : ℕ
    pub async_flush_chunk : Bool
    pub opens : ℕ → Bool
    pub accepts : ℕ → ℕ
    pub renames : ℕ → Bool
    pub removes : ℕ → Bool

  -- the file of a chunk is closed; an error of that is dropped
  abbrev pub put_file : Target → ℕ → Bytes → ChunkStore → ChunkStore
  put_file t i b st = record st {
    files = λ j. if j == i && t.renames i then some b else st.files j;
  }

  abbrev pub chunked : Target → Bool
  chunked t = t.obj_size == 0

  -- `bucket.Store`
  abbrev pub store_index : ChunkStore → ChunkStore
  store_index st = record st { index = some st.chunks }

  abbrev pub set_chunk : Target → ℕ → ChunkStore → ChunkStore
  set_chunk t i st =
      let chunks = L.set st.chunks i in
      record st { chunks = chunks; index = if t.async_flush_chunk then st.index else some chunks }

  -- the write of a block to its open file, which is closed in any case
  abbrev pub write_file : Target → ℕ → Bytes → ChunkStore → Bool × ChunkStore
  write_file t i b st =
      let written = take (t.accepts i) b in
      if length written == length b
      then (true, set_chunk t i (put_file t i written st))
      else (false, put_file t i written st)

  -- `writerBuffer`: whether it returns no error
  unfoldable pub writer_buffer : Target → ChunkStore → Bytes → ℕ → ℕ → Bool → Bool × ChunkStore
  writer_buffer t st b i current at_end =
      if t.opens i
      then (if chunked t
          then write_file t i b (record st { size = current })
          else if not (length b == t.block_size) && not (current == t.obj_size)
          then (true, put_file t i [] st)
          else write_file t i b st)
      else (false, st)

  -- `DiscardWithMetadata` and `Discard`: the index forgets the object, and those files of
  -- the chunks that it had are removed that can be.
  abbrev pub discard_chunks : Target → Option L.Bitmap → ChunkStore → ChunkStore
  discard_chunks t none st = st
  discard_chunks t (some c) st = record st {
    files = λ i. if L.contains c i && t.removes i then none else st.files i;
    index = none;
  }

  abbrev pub discard_object : Target → ChunkStore → ChunkStore
  discard_object t st = discard_chunks t st.index st

  -- `writerCloser`
  unfoldable pub writer_closer : Target → ChunkStore → Bool → ChunkStore
  writer_closer t st at_end =
      if not at_end && chunked t
      then discard_object t st
      else if t.async_flush_chunk
      then store_index st
      else st

  abbrev pub flush_events : Target → Events ChunkStore
  flush_events t = record {
    on_success = writer_buffer t;
    on_error = discard_object t;
    on_close = writer_closer t;
  }
