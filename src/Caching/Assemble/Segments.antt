-- ===== src/Caching/Assemble/Segments.antt =====
-- What one call of `getContents` gives.
use tavern.Prelude.Division.{div_mono}
use tavern.Prelude.{
  ℕ, zero, suc, ◌+◌, ◌-◌, ◌*◌, ◌/◌, ◌^◌, ◌≤◌, ◌<◌, ◌≡◌, refl, ap, ◌∙◌, Bool, true, some, arith,
  length, get_or,
}
use tavern.Prelude.Text.{Bytes}
use tavern.Prelude.Slices.{slice}
use tavern.Iobuf.Block.{build, parts_from}
use tavern.Caching.Chunks.{Source, file, check_chunk_size, last_of}

-- A chunk file that passes the size check holds the object's bytes, and the origin answers with the
-- bytes that it is asked for. The object is at most 2^32 bytes long, since the code computes byte
-- positions in uint32.
pub record Serves (c : Source) (obj : Bytes) : Type 0 where
  pub size_small : c.size ≤ 2 ^ 32
  pub block_pos : 0 < c.block_size
  pub block_small : c.block_size < 2 ^ 32
  pub stored :
      (k : ℕ) (b : Bytes) (s : Bool)
      → c.chunk_file k ≡ file b s
      → check_chunk_size c k b s ≡ true
      → b ≡ slice obj (k * c.block_size) ((k + 1) * c.block_size)
  pub origin : (a b : ℕ) → a ≤ b → b < c.size → c.upstream a b ≡ some (slice obj a (b + 1))

-- The range lies inside the object, and not behind the range of the request's header.
pub record Asks (c : Source) (start end : ℕ) : Type 0 where
  pub ordered : start ≤ end
  pub inside : end < c.size
  pub header_end : end ≤ c.range_end

-- The bytes of a reader that covers `count` chunks from the chunk `idx` on, of the chunks up to
-- the last one, which holds the byte `end`.
pub record IsSegment (p idx last end : ℕ) (obj : Bytes) (bytes : Bytes) (count : ℕ) : Type 0 where
  pub stop : ℕ
  pub count_pos : 0 < count
  pub count_fits : idx + count ≤ last + 1
  pub content : bytes ≡ slice obj (idx * p) stop
  pub inner : idx + count ≤ last → stop ≡ (idx + count) * p
  pub outer : idx + count ≡ last + 1 → end + 1 ≤ stop

get_or-parts_from : (i n k : ℕ) → i + n ≤ 2 ^ 32 → k < n → get_or (parts_from i n) k 0 ≡ i + k
unfolding parts_from
get_or-parts_from i zero k h l = absurd (omega arith)
get_or-parts_from i (suc n) zero h l = ground arith
get_or-parts_from i (suc n) (suc k) h l = ground (arith, get_or-parts_from (i + 1) n k)

length-parts_from : (i n : ℕ) → length (parts_from i n) ≡ n
unfolding parts_from
length-parts_from i zero = refl
length-parts_from i (suc n) = ap suc (length-parts_from (i + 1) n)

div_small : (a p : ℕ) → 0 < p → a < 2 ^ 32 → a / p < 2 ^ 32
div_small a p h k = grind arith

module _ (start end p : ℕ) (pos : 0 < p) (ordered : start ≤ end) (small : end < 2 ^ 32) where
  pub length-build : length (build start end p) ≡ end / p - start / p + 1
  unfolding build
  length-build =
      length-parts_from (start / p) (end / p + 1 - start / p)
      ∙ omega (arith, div_mono start end p pos ordered)

  pub get_or-build :
      (i : ℕ) → start / p + i ≤ end / p → get_or (build start end p) i 0 ≡ start / p + i
  unfolding build
  get_or-build i h =
      get_or-parts_from (start / p) (end / p + 1 - start / p) i
        (omega (arith, div_mono start end p pos ordered, div_small end p pos small)) (omega arith)

  pub last_of-build : last_of (build start end p) ≡ end / p
  last_of-build = rw length-build (
      get_or-build (end / p - start / p + 1 - 1) (omega (arith, div_mono start end p pos ordered))
      ∙ omega (arith, div_mono start end p pos ordered))
