-- ===== src/Metadata/Tests.antt =====
-- An object of 25 bytes in chunks of 10, and the theorems applied.
use tavern.Prelude.{ℕ, ◌/◌, ◌≤◌, ◌<◌, ◌≡◌, ◌↔◌, refl, some, true, false, [], ◌∷◌, arith, All}
use tavern.Iobuf.Bitmap.{lists, sort}
use tavern.Iobuf.Block.{full_hit, part_hit}
use tavern.Metadata.Object.{
  CacheStatus, Metadata, has_complete, chunk_count, cache_hit, cache_part_miss, mark_cache_status,
}
use tavern.Metadata.Complete.{mark_cache_status_lem}

abbrev whole : Metadata lists
whole = record { flags = 0; block_size = 10; chunks = 2 ∷ 0 ∷ 1 ∷ []; size = 25; virtual_key = [] }

whole-has_complete : has_complete lists whole ≡ true
unfolding has_complete sort
whole-has_complete = refl

inside : All (λ k. k < chunk_count lists whole) (lists.range whole.chunks)
unfolding sort
inside = (omega arith, (omega arith, (omega arith, tt)))

mark_cache_status_lem_example :
    (status : CacheStatus) × (mark_cache_status lists whole false false cache_hit 5 24
      ≡ some status)
    × ((status ≡ cache_hit)
        ↔ ((x : ℕ) → 5 ≤ x → x ≤ 24 → lists.contains whole.chunks (x / 10) ≡ true))
    × ((status ≡ cache_part_miss)
        ↔ ((x : ℕ) → 5 ≤ x → x ≤ 24 → lists.contains whole.chunks (x / 10) ≡ false))
mark_cache_status_lem_example =
    mark_cache_status_lem lists whole cache_hit 5 24 (omega arith) (omega arith) (omega arith)
      (omega arith)

hit_marked : mark_cache_status lists whole false false cache_part_miss 5 24 ≡ some cache_hit
unfolding mark_cache_status full_hit part_hit
hit_marked = refl
