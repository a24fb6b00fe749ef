-- ===== src/Metadata/Complete.antt =====
-- What `HasComplete` and the status of a hit say of the chunks.
use tavern.Prelude.Division.{div_mono}
use tavern.Prelude.{
  some, ℕ, suc, ◌-◌, ◌/◌, ◌^◌, ◌≤◌, ◌<◌, ◌≡◌, ◌↔◌, refl, sym, ◌∙◌, Bool, true, false, List, [], ◌∷◌,
  arith, ◌==◌, if◌then◌else◌, length, All, Bool-cases, inl, inr,
}
use tavern.Iobuf.Bitmap.{BitmapLib, IsAscending, has}
use tavern.Iobuf.Block.{u32, full_hit, part_hit}
use tavern.Iobuf.Hits.{full_hit_lem, part_hit_lem}
use tavern.Metadata.Object.{
  Metadata, chunk_count, has_complete, CacheStatus, cache_hit, cache_part_hit, cache_part_miss,
  hit_status, part_status, mark_cache_status,
}

raise : (a b : ℕ) (xs : List ℕ) → a ≤ b → All (λ y. b < y) xs → All (λ y. suc a ≤ y) xs
raise a b [] h k = tt
raise a b (x ∷ xs) h k = (omega (arith, k.0), raise a b xs h k.1)

length-le :
    (xs : List ℕ) (a b : ℕ)
    → IsAscending xs
    → All (λ y. a ≤ y) xs
    → All (λ y. y < b) xs
    → length xs ≤ b - a
length-le [] a b s l u = omega arith
length-le (x ∷ xs) a b s l u =
    omega (arith, l.0, u.0, length-le xs (suc x) b s.1 (raise x x xs (omega arith) s.0) u.1)

-- An ascending list between two bounds that is as long as can be has every number between them.
ascending_full :
    (xs : List ℕ) (a b k : ℕ)
    → IsAscending xs
    → All (λ y. a ≤ y) xs
    → All (λ y. y < b) xs
    → length xs ≡ b - a
    → a ≤ k
    → k < b
    → has xs k ≡ true
ascending_full [] a b k s l u e h h' = absurd (omega arith)
ascending_full (x ∷ xs) a b k s l u e h h' =
    let above = raise x x xs (omega arith) s.0 in
    let rest = length-le xs (suc x) b s.1 above u.1 in
    let first : x ≡ a = omega (arith, l.0, u.0, rest, e) in
    elim (Bool-cases (x == k)) [
      | inl q ↦ ground arith
      | inr q ↦ ground (
        arith,
        ascending_full xs (suc x) b k s.1 above u.1 (omega (arith, e, first, u.0))
            (ground (arith, first)) h',
      )
    ]

module _ (lib : BitmapLib) (m : Metadata lib) where
  chunks_full : has_complete lib m ≡ true → length (lib.range m.chunks) ≡ chunk_count lib m
  unfolding has_complete
  chunks_full h = ground arith

  from_zero : (xs : List ℕ) → All (λ y. 0 ≤ y) xs
  from_zero [] = tt
  from_zero (x ∷ xs) = (omega arith, from_zero xs)

  -- If `HasComplete` holds and every stored chunk lies inside the object, then every chunk of the
  -- object is stored.
  pub has_complete_lem :
      has_complete lib m ≡ true
      → All (λ k. k < chunk_count lib m) (lib.range m.chunks)
      → (k : ℕ) → k < chunk_count lib m
      → lib.contains m.chunks k ≡ true
  has_complete_lem h inside k l =
      sym (lib.has-range m.chunks k)
      ∙ ascending_full (lib.range m.chunks) 0 (chunk_count lib m) k (lib.range_ascending m.chunks)
          (from_zero (lib.range m.chunks)) inside (omega (arith, chunks_full h)) (omega arith) l

  status_lem :
      (before : CacheStatus) (start end : ℕ) (full part : Bool)
      → start ≤ end
      → end < 2 ^ 63 - 1
      → 0 < m.block_size
      → end / m.block_size < 2 ^ 32 - 1
      → full_hit lib (start / m.block_size) (end / m.block_size) m.chunks ≡ some full
      → part_hit lib (start / m.block_size) (end / m.block_size) m.chunks ≡ some part
      → mark_cache_status lib m false false before start end
        ≡ some (if full then cache_hit else if part then cache_part_hit else cache_part_miss)
  unfolding mark_cache_status
  status_lem before start end full part o l p s f g =
      let first : u32 (start / m.block_size) ≡ start / m.block_size =
        omega (arith, div_mono start end m.block_size p o, s) in
      let last : u32 (end / m.block_size) ≡ end / m.block_size = omega (arith, s) in
      let below : (end == 2 ^ 63 - 1) ≡ false = ground arith in
      rw (first, last, below, f, g) (statuses full part)
    where
      statuses :
          (full part : Bool)
          → hit_status lib false (some full) (part_status lib (some part))
            ≡ some (if full then cache_hit else if part then cache_part_hit else cache_part_miss)
      statuses true part = refl
      statuses false true = refl
      statuses false false = refl

  -- For a GET request for the bytes from `start` to `end`, which is below the largest int, of an object
  -- that is not migrated, with a block size above 0 and a last chunk whose index is below 2^32 - 1,
  -- `markCacheStatus` ends, and it sets the status of a hit exactly when every byte of the range lies in a
  -- stored chunk, and that of a part miss exactly when no byte of the range does.
  pub mark_cache_status_lem :
      (before : CacheStatus) (start end : ℕ)
      → 0 < m.block_size
      → start ≤ end
      → end < 2 ^ 63 - 1
      → end / m.block_size < 2 ^ 32 - 1
      → (status : CacheStatus) × (mark_cache_status lib m false false before start end
          ≡ some status)
        × ((status ≡ cache_hit)
            ↔ ((x : ℕ) → start ≤ x → x ≤ end → lib.contains m.chunks (x / m.block_size) ≡ true))
        × ((status ≡ cache_part_miss)
            ↔ ((x : ℕ) → start ≤ x → x ≤ end → lib.contains m.chunks (x / m.block_size) ≡ false))
  mark_cache_status_lem before start end p o l s =
      let (full, f, every) = full_hit_lem lib m.chunks start end m.block_size p o s in
      let (part, g, some_at) = part_hit_lem lib m.chunks start end m.block_size p o s in
      (
        if full then cache_hit else if part then cache_part_hit else cache_part_miss,
        status_lem before start end full part o l p s f g,
        (λ e. every.0 (full_of_hit full part e), λ all. rw (every.1 all) refl),
        (
          λ e. some_at.0 (part_of_miss full part e),
          λ none_at.
              rw
                (
                  some_at.1 none_at,
                  not_full full
                      (λ e. cc (every.0 e start (omega arith) o, none_at start (omega arith) o)),
                )
                refl,
        ),
      )
    where
      full_of_hit :
          (full part : Bool)
          → (if full then cache_hit else if part then cache_part_hit else cache_part_miss)
            ≡ cache_hit
          → full ≡ true
      full_of_hit true part e = refl
      full_of_hit false true e = cc
      full_of_hit false false e = cc

      part_of_miss :
          (full part : Bool)
          → (if full then cache_hit else if part then cache_part_hit else cache_part_miss)
            ≡ cache_part_miss
          → part ≡ false
      part_of_miss true part e = cc
      part_of_miss false true e = cc
      part_of_miss false false e = refl

      not_full : (full : Bool) → ¬ (full ≡ true) → full ≡ false
      not_full true h = absurd (h refl)
      not_full false h = refl
