-- ===== src/Iobuf/Block.antt =====
-- pkg/iobuf/blockfile.go and pkg/iobuf/ioindexes: chunk indices are uint32, byte positions int64.
-- A loop of `FullHit` or `PartHit` that has not ended after 2^32 rounds is back where it began, and never ends:
-- it has no result.
use tavern.Prelude.{
  ℕ, zero, suc, ◌+◌, ◌-◌, ◌*◌, ◌/◌, ◌%◌, ◌^◌, Bool, true, false, List, [], ◌∷◌, ◌++◌, ◌==◌,
  if◌then◌else◌, Option, none, some, leb,
}
use tavern.Iobuf.Bitmap.{BitmapLib}

abbrev pub u32 : ℕ → ℕ
u32 n = n % 2 ^ 32

module _ (lib : BitmapLib) where
  open lib use {Bitmap, contains, set, empty, range, inter, diff}

  -- the loop of `FullHit`, from `i`, with the rounds that are left
  unfoldable pub full_from : Bitmap → ℕ → ℕ → ℕ → Option Bool
  full_from fs last i zero = none
  full_from fs last i (suc n) =
      let rest = full_from fs last (u32 (i + 1)) n in
      if leb i last then (if contains fs i then rest else some false) else some true

  -- `FullHit`
  unfoldable pub full_hit : ℕ → ℕ → Bitmap → Option Bool
  unfolding full_from
  full_hit first last fs = full_from fs last first (2 ^ 32 + 1)

  -- the loop of `PartHit`
  unfoldable pub part_from : Bitmap → ℕ → ℕ → ℕ → Option Bool
  part_from fs last i zero = none
  part_from fs last i (suc n) =
      let rest = part_from fs last (u32 (i + 1)) n in
      if leb i last then (if contains fs i then some true else rest) else some false

  -- `PartHit`
  unfoldable pub part_hit : ℕ → ℕ → Bitmap → Option Bool
  unfolding part_from
  part_hit first last fs = part_from fs last first (2 ^ 32 + 1)

  unfoldable pub set_from : Bitmap → ℕ → ℕ → Bitmap
  set_from bm i zero = bm
  set_from bm i (suc n) = set_from (set bm (u32 i)) (i + 1) n

  -- `BreakInBitmap`
  unfoldable pub break_in_bitmap : ℕ → ℕ → ℕ → Bitmap
  unfolding set_from
  break_in_bitmap start end part_size =
      let first_index = start / part_size in
      let last_index = end / part_size + 1 in set_from empty first_index (last_index - first_index)

-- the loop of `groupBy`: the group at hand, its last number, and the numbers to come
unfoldable pub group_from : List ℕ → ℕ → List ℕ → List (List ℕ)
group_from group prev [] = group ∷ []
group_from group prev (x ∷ xs) =
    let same = group_from (group ++ x ∷ []) x xs in
    let next = group ∷ group_from (x ∷ []) x xs in if x == u32 (prev + 1) then same else next

unfoldable pub group_by : List ℕ → List (List ℕ)
unfolding group_from
group_by [] = []
group_by (x ∷ xs) = group_from (x ∷ []) x xs

pub record Block : Type 0 where
  pub matched : Bool
  pub block_range : List ℕ

abbrev blocks_of : Bool → List (List ℕ) → List Block
blocks_of b [] = []
blocks_of b (g ∷ gs) = record { matched = b; block_range = g } ∷ blocks_of b gs

module _ (lib : BitmapLib) where
  open lib use {Bitmap, range, inter, diff}

  -- `BlockGroup`. The comparison that it gives to `slices.SortFunc` is the int of a difference of
  -- two uint32, so it is never negative, and the sort moves no block (up to 12 blocks, where the
  -- library sorts by insertion): the hits stand before the misses.
  unfoldable pub block_group : Bitmap → Bitmap → List Block
  unfolding group_by
  block_group hitter want =
      blocks_of true (group_by (range (inter want hitter)))
      ++ blocks_of false (group_by (range (diff want hitter)))

abbrev last_or : ℕ → List ℕ → ℕ
last_or d [] = d
last_or d (x ∷ xs) = last_or x xs

-- `ChunkPart` on the run `b ∷ bs`: the products are taken in uint32.
unfoldable pub chunk_part : ℕ → List ℕ → ℕ → ℕ × ℕ
chunk_part b bs part_size = (u32 (b * part_size), u32 (last_or b bs * part_size) + part_size)

-- `BufBlock`
unfoldable pub buf_block : ℕ → List ℕ → ℕ × ℕ
unfolding chunk_part
buf_block b bs = chunk_part b bs (2 ^ 15)

-- the loop of `ioindexes.Build`, with the rounds left
unfoldable pub parts_from : ℕ → ℕ → List ℕ
parts_from i zero = []
parts_from i (suc n) = u32 i ∷ parts_from (i + 1) n

-- `ioindexes.Build`; `lastIndex - firstIndex` is a uint64
unfoldable pub build : ℕ → ℕ → ℕ → List ℕ
unfolding parts_from
build start end part_size =
    let first_index = start / part_size in
    let last_index = end / part_size + 1 in parts_from first_index (last_index - first_index)
