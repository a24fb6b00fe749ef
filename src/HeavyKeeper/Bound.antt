-- ===== src/HeavyKeeper/Bound.antt =====
-- The count that the sketch gives for a key is never above the times that keys with its fingerprint
-- were added.
use tavern.Prelude.{
  ℕ, zero, suc, ◌+◌, ◌≤◌, ◌≡◌, refl, Bool, Option, none, some, List, [], ◌∷◌, arith, ◌==◌,
  if◌then◌else◌, All, replicate, get_elem?,
}
use tavern.HeavyKeeper.Sketch.{
  Bucket, no_bucket, HeavyKeeper, new, index, add_bucket, update_at, add_rows, counted_as,
  query_rows, add, query, hash2,
}

-- The count of a bucket is at most what its fingerprint has.
abbrev IsBelow : (ℕ → ℕ) → Bucket → Type 0
IsBelow occ b = b.count ≤ occ b.fingerprint

abbrev AreBelow : (ℕ → ℕ) → List (List Bucket) → Type 0
AreBelow occ rows = All (λ row. All (λ b. IsBelow occ b) row) rows

-- one more for a fingerprint
abbrev plus_one : ℕ → (ℕ → ℕ) → ℕ → ℕ
plus_one f occ g = if f == g then occ g + 1 else occ g

add_bucket-IsBelow :
    (f : ℕ) (decays : ℕ → Bool) (occ : ℕ → ℕ) (b : Bucket)
    → IsBelow occ b
    → IsBelow (plus_one f occ) (add_bucket f decays b)
unfolding add_bucket
add_bucket-IsBelow f decays occ b h = ground arith

weaken :
    (f : ℕ) (occ : ℕ → ℕ) (row : List Bucket)
    → All (λ b. IsBelow occ b) row
    → All (λ b. IsBelow (plus_one f occ) b) row
weaken f occ [] h = tt
weaken f occ (b ∷ row) h = (ground (arith, h.0), weaken f occ row h.1)

update_at-IsBelow :
    (f : ℕ) (decays : ℕ → Bool) (occ : ℕ → ℕ) (row : List Bucket) (i : ℕ)
    → All (λ b. IsBelow occ b) row
    → All (λ b. IsBelow (plus_one f occ) b) (update_at (add_bucket f decays) row i)
update_at-IsBelow f decays occ [] i h = tt
update_at-IsBelow f decays occ (b ∷ row) zero h =
    (add_bucket-IsBelow f decays occ b h.0, weaken f occ row h.1)
update_at-IsBelow f decays occ (b ∷ row) (suc i) h =
    (ground (arith, h.0), update_at-IsBelow f decays occ row i h.1)

add_rows-AreBelow :
    (f h2 width : ℕ) (decays : ℕ → ℕ → Bool) (occ : ℕ → ℕ) (i : ℕ) (rows : List (List Bucket))
    → AreBelow occ rows
    → AreBelow (plus_one f occ) (add_rows f h2 width decays i rows)
unfolding add_rows
add_rows-AreBelow f h2 width decays occ i [] h = tt
add_rows-AreBelow f h2 width decays occ i (row ∷ rows) h = (
  update_at-IsBelow f (decays i) occ row (index f h2 width i) h.0,
  add_rows-AreBelow f h2 width decays occ (i + 1) rows h.1,
)

get_elem?-IsBelow :
    (occ : ℕ → ℕ) (row : List Bucket) (i : ℕ) (b : Bucket)
    → All (λ b. IsBelow occ b) row
    → get_elem? row i ≡ some b
    → IsBelow occ b
get_elem?-IsBelow occ [] i b h e = cc
get_elem?-IsBelow occ (x ∷ row) zero b h e = ground (arith, h.0)
get_elem?-IsBelow occ (x ∷ row) (suc i) b h e = get_elem?-IsBelow occ row i b h.1 e

counted_as_bound :
    (occ : ℕ → ℕ) (f : ℕ) (o : Option Bucket) (best : ℕ)
    → best ≤ occ f
    → ((b : Bucket) → o ≡ some b → IsBelow occ b)
    → counted_as f o best ≤ occ f
counted_as_bound occ f none best h k = h
counted_as_bound occ f (some b) best h k = ground (arith, k b refl)

query_rows_bound :
    (occ : ℕ → ℕ) (f h2 width i : ℕ) (rows : List (List Bucket)) (best : ℕ)
    → best ≤ occ f
    → AreBelow occ rows
    → query_rows f h2 width best i rows ≤ occ f
unfolding query_rows
query_rows_bound occ f h2 width i [] best h k = h
query_rows_bound occ f h2 width i (row ∷ rows) best h k =
    query_rows_bound occ f h2 width (i + 1) rows _
      (counted_as_bound occ f _ best h (λ b. get_elem?-IsBelow occ row _ b k.0)) k.1

empty_row : (occ : ℕ → ℕ) (n : ℕ) → All (λ b. IsBelow occ b) (replicate n no_bucket)
empty_row occ zero = tt
empty_row occ (suc n) = (omega arith, empty_row occ n)

empty_rows : (occ : ℕ → ℕ) (n w : ℕ) → AreBelow occ (replicate n (replicate w no_bucket))
empty_rows occ zero w = tt
empty_rows occ (suc n) w = (empty_row occ w, empty_rows occ n w)

abbrev pub Addition : Type 0
Addition = (ℕ → ℕ → Bool) × List ℕ

module _ (hash : List ℕ → ℕ) where
  -- the keys added in turn, the last one first, each with the outcomes of its random tests
  pub add_all : HeavyKeeper → List Addition → HeavyKeeper
  add_all hk [] = hk
  add_all hk ((decays, key) ∷ keys) = add hash decays (add_all hk keys) key

  -- how many of the added keys have the fingerprint
  pub occurrences : List Addition → ℕ → ℕ
  occurrences [] f = 0
  occurrences ((decays, key) ∷ keys) f = plus_one (hash key) (occurrences keys) f

  add_all-AreBelow :
      (depth width : ℕ) (keys : List Addition)
      → AreBelow (occurrences keys) (add_all (new depth width) keys).buckets
  unfolding add_all occurrences add new
  add_all-AreBelow depth width [] = empty_rows _ depth width
  add_all-AreBelow depth width ((decays, key) ∷ keys) =
      add_rows-AreBelow (hash key) (hash2 key) _ decays _ 0 _ (add_all-AreBelow depth width keys)

  -- Whatever keys were added to a new sketch and however the random tests came out, `Query` of a
  -- key is at most the number of the added keys that have its fingerprint.
  pub query_bound :
      (depth width : ℕ) (keys : List Addition) (key : List ℕ)
      → query hash (add_all (new depth width) keys) key ≤ occurrences keys (hash key)
  unfolding query
  query_bound depth width keys key =
      query_rows_bound _ (hash key) (hash2 key) _ 0 _ 0 (omega arith)
        (add_all-AreBelow depth width keys)
