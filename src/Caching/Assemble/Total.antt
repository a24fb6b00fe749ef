-- ===== src/Caching/Assemble/Total.antt =====
-- `getContents` gives a reader when every chunk file is either missing or whole.
use tavern.Prelude.{
  ℕ, ◌+◌, ◌*◌, ◌/◌, ◌≤◌, ◌<◌, ◌≡◌, refl, ◌⊎◌, inl, inr, Bool, true, Option, none, some, List, [],
  ◌++◌, arith,
}
use tavern.Prelude.Text.{Bytes}
use tavern.Iobuf.Block.{build}
use tavern.Caching.Chunks.{
  Source, ChunkFile, missing, failed, file, Contents, reader, get_contents, first_chunk, fill,
  fill_anchor, fill_before, fill_rest, find_anchor, from_origin, check_chunk_size,
}
use tavern.Caching.Assemble.Search.{find_anchor_bounds}
use tavern.Caching.Assemble.Segments.{Serves, Asks, get_or-build, last_of-build}
use tavern.Caching.Assemble.Contents.{
  fill_rest-eq, fill_before-eq, before_origin, idx_le, rest_to_bounds, end_small,
}

-- Every chunk file is missing, or can be read and has its size.
pub record NoFaults (c : Source) : Type 0 where
  pub whole :
      (k : ℕ)
      → (c.chunk_file k ≡ missing)
        ⊎ ((b : Bytes) × (s : Bool) × (c.chunk_file k ≡ file b s)
            × (check_chunk_size c k b s ≡ true))

abbrev pub Gives : Contents → Type 0
Gives r = (bytes : Bytes) × (count : ℕ) × (r ≡ reader bytes count)

module _ (c : Source) (obj : Bytes) (sv : Serves c obj) (start end : ℕ) (ask : Asks c start end)
    (ok : NoFaults c) where
  abbrev p : ℕ
  p = c.block_size

  abbrev req : List ℕ
  req = build start end p

  from_origin-Gives :
      (o : Option Bytes) (bytes tail : Bytes) (n : ℕ)
      → o ≡ some bytes
      → Gives (from_origin o tail n)
  from_origin-Gives none bytes tail n e = cc
  from_origin-Gives (some b) bytes tail n e = (b ++ tail, n, refl)

  fill_rest-Gives : (i : ℕ) → start / p + i ≤ end / p → Gives (fill_rest c req i)
  fill_rest-Gives i h =
      let idx = start / p + i in
      let le = idx_le c obj sv start end ask idx h in
      let (lo, hi) = rest_to_bounds c obj sv start end ask in
      rw (fill_rest-eq c obj sv start end ask i h)
        (from_origin-Gives _ _ [] _ (sv.origin (idx * p) _ (omega arith) hi))

  fill_before-Gives :
      (i a : ℕ) (f : ChunkFile)
      → start / p + i < a
      → a ≤ end / p
      → (f ≡ missing)
        ⊎ ((b : Bytes) × (s : Bool) × (f ≡ file b s) × (check_chunk_size c a b s ≡ true))
      → Gives (fill_before c req i a f)
  unfolding fill_before
  fill_before-Gives i a missing h k w = fill_rest-Gives i (omega arith)
  fill_before-Gives i a failed h k w = fill_rest-Gives i (omega arith)
  fill_before-Gives i a (file b s) h k (inl m) = cc
  fill_before-Gives i a (file b s) h k (inr (b', s', e, good)) =
      let whole : check_chunk_size c a b s ≡ true = ground arith in
      rw (fill_before-eq c obj sv start end ask i a b s (omega arith), whole)
        (from_origin-Gives _ _ b _ (before_origin c obj sv start end ask i a h k))

  fill_anchor-Gives :
      (i : ℕ) (o : Option ℕ)
      → start / p + i ≤ end / p
      → find_anchor c (start / p + i) (end / p) ≡ o
      → Gives (fill_anchor c req i o)
  fill_anchor-Gives i none h e = fill_rest-Gives i h
  fill_anchor-Gives i (some a) h e =
      let (lo, hi) = find_anchor_bounds c (start / p + i) (end / p) a e in
      fill_before-Gives i a (c.chunk_file a) lo hi (ok.whole a)

  fill-Gives : (i : ℕ) → start / p + i ≤ end / p → Gives (fill c req i)
  unfolding fill
  fill-Gives i h =
      let small = end_small c obj sv start end ask in
      rw
        (
          get_or-build start end p sv.block_pos ask.ordered small i h,
          last_of-build start end p sv.block_pos ask.ordered small,
        )
        (fill_anchor-Gives i (find_anchor c (start / p + i) (end / p)) h refl)

  first_chunk-Gives :
      (i : ℕ) (f : ChunkFile)
      → start / p + i ≤ end / p
      → c.chunk_file (start / p + i) ≡ f
      → Gives (first_chunk c req i f)
  first_chunk-Gives i missing h e = fill-Gives i h
  first_chunk-Gives i failed h e = ground (arith, ok.whole (start / p + i))
  first_chunk-Gives i (file b s) h e =
      let at =
        get_or-build start end p sv.block_pos ask.ordered (end_small c obj sv start end ask) i h in
      let whole : check_chunk_size c (start / p + i) b s ≡ true =
        ground (arith, ok.whole (start / p + i)) in
      (b, 1, rw (at, whole))

  pub get_contents-Gives : (i : ℕ) → start / p + i ≤ end / p → Gives (get_contents c req i)
  unfolding get_contents
  get_contents-Gives i h =
      rw (get_or-build start end p sv.block_pos ask.ordered (end_small c obj sv start end ask) i h)
        (first_chunk-Gives i (c.chunk_file (start / p + i)) h refl)
