-- ===== src/Iobuf/Tests.antt =====
-- Runs of the chunk bitmaps and the groups, and the theorems applied.
use tavern.Prelude.{
  ℕ, ◌/◌, ◌≤◌, ◌≡◌, refl, ◌↔◌, ◌-◌, ◌^◌, Bool, some, true, false, List, [], ◌∷◌, arith,
}
use tavern.Iobuf.Bitmap.{lists, sort}
use tavern.Iobuf.Block.{full_hit, part_hit, group_by, block_group}
use tavern.Iobuf.Hits.{full_hit_lem}
use tavern.Iobuf.Groups.{concat, AreRuns, group_by_lem}

abbrev stored : List ℕ
stored = 2 ∷ 3 ∷ 5 ∷ []

abbrev runs : List ℕ
runs = 2 ∷ 3 ∷ 5 ∷ 8 ∷ 9 ∷ []

grouped : group_by runs ≡ (2 ∷ 3 ∷ []) ∷ (5 ∷ []) ∷ (8 ∷ 9 ∷ []) ∷ []
unfolding group_by
grouped = refl

-- The hits stand before the misses, whatever their indices.
block_group_hits_first :
    block_group lists (5 ∷ []) (4 ∷ 5 ∷ [])
    ≡ record { matched = true; block_range = 5 ∷ [] }
      ∷ record { matched = false; block_range = 4 ∷ [] }
      ∷ []
unfolding block_group sort
block_group_hits_first = refl

hit_over_stored : full_hit lists 2 3 stored ≡ some true
unfolding full_hit
hit_over_stored = refl

miss_at_gap : full_hit lists 2 5 stored ≡ some false
unfolding full_hit
miss_at_gap = refl

-- At the largest index the loop of `PartHit` goes on to chunk 0, and finds the chunks from 2 on.
part_hit_wraps : part_hit lists (2 ^ 32 - 1) (2 ^ 32 - 1) stored ≡ some true
unfolding part_hit
part_hit_wraps = refl

full_hit_lem_example :
    (b : Bool) × (full_hit lists (20 / 10) (39 / 10) stored ≡ some b)
    × ((b ≡ true) ↔ ((x : ℕ) → 20 ≤ x → x ≤ 39 → lists.contains stored (x / 10) ≡ true))
full_hit_lem_example = full_hit_lem lists stored 20 39 10 (omega arith) (omega arith) (omega arith)

group_by_lem_example : (concat (group_by runs) ≡ runs) × AreRuns (group_by runs)
group_by_lem_example = group_by_lem runs
