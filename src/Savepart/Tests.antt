-- ===== src/Savepart/Tests.antt =====
-- An object of seven bytes in blocks of three, and the theorems applied.
use tavern.Prelude.{
  ℕ, suc, ◌+◌, ◌*◌, ◌≤◌, ◌<◌, ◌≡◌, ap, inl, refl, true, false, none, some, List, [], ◌∷◌, arith,
  length, ◌%◌, ◌^◌, if◌then◌else◌, ◌==◌, ◌&&◌,
}
use tavern.Prelude.Text.{Bytes}
use tavern.Prelude.Slices.{slice}
use tavern.Readers.Stream.{eof, failed}
use tavern.Iobuf.Bitmap.{lists}
use tavern.Savepart.Reader.{SavepartReader, savepart_reader, save_all, Events}
use tavern.Savepart.Blocks.{Takes}
use tavern.Savepart.Chunks.{ChunkStore, Target, flush_events, writer_buffer, writer_closer}
use tavern.Savepart.Stream.{reads_failing, save_all-failed}
use tavern.Savepart.Honest.{IsHonest}
use tavern.Savepart.Async.{AsyncReader, savepart_async_reader, save_async, close_async}
use tavern.Savepart.Queue.{async_reads}
use tavern.Savepart.Written.{save_async-IsHonest}

abbrev letters : Bytes
letters = 97 ∷ 98 ∷ 99 ∷ 100 ∷ 101 ∷ 102 ∷ 103 ∷ []

abbrev target : Target lists
target = record {
  obj_size = 7;
  block_size = 3;
  async_flush_chunk = true;
  opens = λ i. true;
  accepts = λ i. 3;
  renames = λ i. true;
  removes = λ i. true;
}

-- a bucket that has nothing of the object
abbrev empty_store : ChunkStore lists
empty_store = record { files = λ i. none; chunks = []; size = 7; index = none }

empty_store-IsHonest : IsHonest lists letters 3 empty_store
empty_store-IsHonest i c = absurd (cc c)

save_async-IsHonest_example :
    (s : AsyncReader (ChunkStore lists)) × (save_async
        (flush_events lists target)
        3
        (async_reads ((99 ∷ 100 ∷ 101 ∷ 102 ∷ [], 0) ∷ []) (103 ∷ []) 1)
        (savepart_async_reader 2 empty_store)
      ≡ some (slice letters 2 7, eof, s))
    × (let w = (close_async (flush_events lists target) 3 s).sink in
        (w.write_ch ≡ [])
        × (w.write_err ≡ false)
        × IsHonest lists letters 3 w.sink
        × ((i : ℕ) → 2 ≤ i * 3 → i * 3 < 7 → lists.contains w.sink.chunks i ≡ true))
unfolding slice
save_async-IsHonest_example =
    save_async-IsHonest lists letters target
      (omega arith, refl, omega arith, omega arith, λ i. refl, λ i. omega arith, λ i. refl) 7
      (inl refl) ((99 ∷ 100 ∷ 101 ∷ 102 ∷ [], 0) ∷ []) (103 ∷ []) 1 2 empty_store refl (omega arith)
      (omega arith) empty_store-IsHonest

-- Where the file that is closed cannot take the place of the chunk's, there is no error, and the metadata have a
-- chunk without a file.
abbrev stuck : Target lists
stuck = record target { renames = λ i. false }

marked_without_file :
    (let r = writer_buffer lists stuck empty_store (97 ∷ 98 ∷ 99 ∷ []) 0 3 false in
      (r.0 ≡ true) × (r.1.files 0 ≡ none) × (r.1.chunks ≡ 0 ∷ []))
unfolding writer_buffer
marked_without_file = (refl, refl, refl)

-- the numbers of the blocks that came
abbrev count : Events (List ℕ)
count = record {
  on_success = λ s b i pos at_end. (true, i ∷ s);
  on_error = λ s. [];
  on_close = λ s at_end. s;
}

-- as many as there are blocks
abbrev Counted : List ℕ → ℕ → Type 0
Counted s k = length s ≡ k

count-Takes : Takes count 3 letters 7 Counted
count-Takes = record { takes = λ s k pos at_end q lo hi whole. (k % 2 ^ 32 ∷ s, refl, ap suc q) }

save_all-failed_example :
    (t : SavepartReader (List ℕ)) × (k : ℕ) × (save_all count 3
        (reads_failing ((97 ∷ 98 ∷ []) ∷ (99 ∷ 100 ∷ []) ∷ []) (101 ∷ []))
        (savepart_reader 0 [])
      ≡ some (97 ∷ 98 ∷ 99 ∷ 100 ∷ [], failed, record t { sink = [] }))
    × (length t.sink ≡ k)
    × (4 ≤ (k + 1) * 3)
unfolding slice
save_all-failed_example =
    save_all-failed count 3 (omega arith) letters 7 Counted count-Takes
      ((97 ∷ 98 ∷ []) ∷ (99 ∷ 100 ∷ []) ∷ []) (101 ∷ []) 0 4 0 [] refl (omega arith) (omega arith)
      refl (omega arith) (omega arith)

-- Of a body that ends inside a block, before the object ends, the last block leaves an empty file, also where
-- the chunk was stored.
abbrev full_store : ChunkStore lists
full_store = record {
  files = λ i. some (99 ∷ 99 ∷ 99 ∷ []);
  chunks = 0 ∷ [];
  size = 7;
  index = none;
}

empties_file : writer_buffer lists target full_store (97 ∷ 98 ∷ []) 0 2 true ≡ (
  true,
  record full_store { files = λ j. if j == 0 && true then some [] else some (99 ∷ 99 ∷ 99 ∷ []) },
)
unfolding writer_buffer
empties_file = refl

-- After a failed write the object is discarded, and the end of the body puts it into the index again.
abbrev listed : ChunkStore lists
listed = record {
  files = λ i. some (99 ∷ 99 ∷ 99 ∷ []);
  chunks = 0 ∷ [];
  size = 7;
  index = some (0 ∷ []);
}

discarded_returns :
    writer_closer lists target ((flush_events lists target).on_error listed) false ≡ record listed {
      files = λ i. if lists.contains (0 ∷ []) i && true then none else some (99 ∷ 99 ∷ 99 ∷ []);
    }
unfolding writer_closer
discarded_returns = refl
