-- ===== src/HeavyKeeper/Growth.antt =====
-- `Add` of a key that the sketch has counted raises its count by one, and `Clear` forgets all.
use tavern.Prelude.{
  ℕ, zero, suc, ◌+◌, ◌-◌, ◌^◌, ◌≤◌, ◌<◌, ◌≡◌, refl, Bool, Option, none, some, List, [], ◌∷◌, arith,
  map, get_elem?, Option-cases, inl, inr,
}
use tavern.HeavyKeeper.Sketch.{
  Bucket, no_bucket, HeavyKeeper, index, add_bucket, update_at, add_rows, counted_as, query_rows,
  add, query, hash2, clear,
}

-- The best count found so far, before and after: one more, or a first one.
abbrev OneMore : ℕ → ℕ → Type 0
OneMore a b = (a ≡ 0 → b ≤ 1) × (0 < a → b ≡ a + 1)

get_elem?-update_at-none :
    (g : Bucket → Bucket) (row : List Bucket) (i : ℕ)
    → get_elem? row i ≡ none
    → get_elem? (update_at g row i) i ≡ none
get_elem?-update_at-none g [] i h = refl
get_elem?-update_at-none g (x ∷ row) zero h = cc
get_elem?-update_at-none g (x ∷ row) (suc i) h = get_elem?-update_at-none g row i h

get_elem?-update_at-some :
    (g : Bucket → Bucket) (row : List Bucket) (i : ℕ) (x : Bucket)
    → get_elem? row i ≡ some x
    → get_elem? (update_at g row i) i ≡ some (g x)
get_elem?-update_at-some g [] i x h = cc
get_elem?-update_at-some g (y ∷ row) zero x h = cc
get_elem?-update_at-some g (y ∷ row) (suc i) x h = get_elem?-update_at-some g row i x h

bucket_grows :
    (f : ℕ) (decays : ℕ → Bool) (x : Bucket) (a b : ℕ)
    → OneMore a b
    → counted_as f (some x) a < 2 ^ 32 - 1
    → OneMore (counted_as f (some x) a) (counted_as f (some (add_bucket f decays x)) b)
unfolding add_bucket
bucket_grows f decays x a b h l = ground arith

row_grows :
    (f : ℕ) (decays : ℕ → Bool) (row : List Bucket) (i a b : ℕ)
    → OneMore a b
    → counted_as f (get_elem? row i) a < 2 ^ 32 - 1
    → OneMore
        (counted_as f (get_elem? row i) a)
        (counted_as f (get_elem? (update_at (add_bucket f decays) row i) i) b)
row_grows f decays row i a b h l = elim (Option-cases (get_elem? row i)) [
  | inl n ↦ rw (n, get_elem?-update_at-none (add_bucket f decays) row i n) h
  | inr (x, m) ↦
      rw (m, get_elem?-update_at-some (add_bucket f decays) row i x m)
        (bucket_grows f decays x a b h (rw m at l))
]

counted_as_le : (f : ℕ) (o : Option Bucket) (a : ℕ) → a ≤ counted_as f o a
counted_as_le f none a = omega arith
counted_as_le f (some x) a = ground arith

query_rows_le :
    (f h2 width i : ℕ) (rows : List (List Bucket)) (a : ℕ) → a ≤ query_rows f h2 width a i rows
unfolding query_rows
query_rows_le f h2 width i [] a = omega arith
query_rows_le f h2 width i (row ∷ rows) a = omega (
  arith,
  counted_as_le f (get_elem? row (index f h2 width i)) a,
  query_rows_le f h2 width (i + 1) rows (counted_as f (get_elem? row (index f h2 width i)) a),
)

rows_grow :
    (f h2 width : ℕ) (decays : ℕ → ℕ → Bool) (i : ℕ) (rows : List (List Bucket)) (a b : ℕ)
    → OneMore a b
    → query_rows f h2 width a i rows < 2 ^ 32 - 1
    → OneMore
        (query_rows f h2 width a i rows)
        (query_rows f h2 width b i (add_rows f h2 width decays i rows))
unfolding query_rows add_rows
rows_grow f h2 width decays i [] a b h l = h
rows_grow f h2 width decays i (row ∷ rows) a b h l =
    let a' = counted_as f (get_elem? row (index f h2 width i)) a in
    rows_grow f h2 width decays (i + 1) rows a' _
      (row_grows f (decays i) row (index f h2 width i) a b h
        (omega (arith, query_rows_le f h2 width (i + 1) rows a')))
      l

module _ (hash : List ℕ → ℕ) (hk : HeavyKeeper) (key : List ℕ) where
  -- If `Query` gives a count above 0 and below the largest uint32 for a key, then after `Add` of the
  -- key it gives one more, however the random tests come out.
  pub query-add :
      (decays : ℕ → ℕ → Bool)
      → 0 < query hash hk key
      → query hash hk key < 2 ^ 32 - 1
      → query hash (add hash decays hk key) key ≡ query hash hk key + 1
  unfolding query add
  query-add decays h l =
      (rows_grow (hash key) (hash2 key) hk.width decays 0 hk.buckets 0 0
          (λ e. omega arith, λ e. absurd (omega arith)) l).1
        h

  cleared_row :
      (row : List Bucket) (i : ℕ)
      → counted_as (hash key) (get_elem? (map (λ b. no_bucket) row) i) 0 ≡ 0
  cleared_row [] i = refl
  cleared_row (x ∷ row) zero = ground arith
  cleared_row (x ∷ row) (suc i) = cleared_row row i

  cleared :
      (h2 width i : ℕ) (rows : List (List Bucket))
      → query_rows (hash key) h2 width 0 i (map (map (λ b. no_bucket)) rows) ≡ 0
  unfolding query_rows
  cleared h2 width i [] = refl
  cleared h2 width i (row ∷ rows) =
      rw (query_rows, cleared_row row (index (hash key) h2 width i)) (cleared h2 width (i + 1) rows)

  -- After `Clear`, `Query` gives 0 for every key.
  pub query-clear : query hash (clear hk) key ≡ 0
  unfolding query clear
  query-clear = cleared (hash2 key) hk.width 0 hk.buckets
