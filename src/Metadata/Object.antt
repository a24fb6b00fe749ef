-- ===== src/Metadata/Object.antt =====
-- api/defined/v1/storage/object/object.go, and `markCacheStatus` of
-- server/middleware/caching/internal.go, which reads the same bitmap of chunks.
use Prim.Native.Nat.{bit_and}
use tavern.Prelude.{
  Option, none, some, true, ℕ, ◌+◌, ◌-◌, ◌/◌, ◌%◌, ◌^◌, Bool, false, ◌&&◌, ◌||◌, List, ltb, ◌==◌,
  if◌then◌else◌, length,
}
use tavern.Prelude.Text.{Bytes}
use tavern.Iobuf.Bitmap.{BitmapLib}
use tavern.Iobuf.Block.{u32, full_hit, part_hit}

-- the constants of `CacheFlag`; `FlagCache` is 0
abbrev pub flag_vary_index : ℕ
flag_vary_index = 1

abbrev pub flag_vary_cache : ℕ
flag_vary_cache = 2

abbrev pub flag_chunked_cache : ℕ
flag_chunked_cache = 4

-- what `Flags`, `BlockSize`, `Chunks`, `Size` and `VirtualKey` of the metadata are
pub record Metadata (lib : BitmapLib) : Type 0 where
  pub flags : ℕ
  pub block_size : ℕ
  pub chunks : lib.Bitmap
  pub size : ℕ
  pub virtual_key : List Bytes

-- `storage.CacheStatus`, the states that a hit can have
pub data CacheStatus : Type 0 where
  cache_hit cache_part_hit cache_part_miss cache_hot_hit : CacheStatus

module _ (lib : BitmapLib) where
  abbrev pub is_vary : Metadata lib → Bool
  is_vary m = m.flags == flag_vary_index

  abbrev pub is_vary_cache : Metadata lib → Bool
  is_vary_cache m = ltb 0 (bit_and m.flags flag_vary_cache)

  abbrev pub is_chunked : Metadata lib → Bool
  is_chunked m = ltb 0 (bit_and m.flags flag_chunked_cache)

  abbrev pub is_vary_chunked : Metadata lib → Bool
  is_vary_chunked m = is_vary_cache m && is_chunked m

  abbrev pub has_vary : Metadata lib → Bool
  has_vary m = ltb 0 (length m.virtual_key)

  -- the number of chunks of the whole object, as `HasComplete` counts them
  abbrev pub chunk_count : Metadata lib → ℕ
  chunk_count m =
      if m.size % m.block_size == 0 then m.size / m.block_size else m.size / m.block_size + 1

  -- `HasComplete`; `Count` of the bitmap is the number of its members
  unfoldable pub has_complete : Metadata lib → Bool
  has_complete m =
      if is_vary m
      then false
      else if m.size == 0
      then false
      else chunk_count m == length (lib.range m.chunks)

  abbrev pub part_status : Option Bool → Option CacheStatus
  part_status none = none
  part_status (some true) = some cache_part_hit
  part_status (some false) = some cache_part_miss

  abbrev pub hit_status : Bool → Option Bool → Option CacheStatus → Option CacheStatus
  hit_status migration none part = none
  hit_status migration (some true) part = some (if migration then cache_hot_hit else cache_hit)
  hit_status migration (some false) part = part

  -- `markCacheStatus` of a request for the bytes from `start` to `end`: whether it is a HEAD
  -- request (or asks for everything up to the largest int), whether the object is being migrated,
  -- and the status before. Where a loop over the chunks does not end, there is no status.
  unfoldable pub mark_cache_status :
      Metadata lib → Bool → Bool → CacheStatus → ℕ → ℕ → Option CacheStatus
  mark_cache_status m head migration before start end =
      let first = u32 (start / m.block_size) in
      let last = u32 (end / m.block_size) in
      if head || end == 2 ^ 63 - 1
      then some (if migration then cache_hot_hit else before)
      else hit_status migration (full_hit lib first last m.chunks)
          (part_status (part_hit lib first last m.chunks))
