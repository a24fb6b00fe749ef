-- ===== src/HeavyKeeper/Sketch.antt =====
-- pkg/algorithm/heavykeeper/heavykeeper.go: the sketch, its rows and buckets. `hash` is
-- FNV-1a of the library; a run's random numbers decide each decay, so `Add` takes for each row and
-- count whether `Float64` is below the power of `decay`. `width` is not 0: the code divides by it.
use Prim.Native.Nat.{bit_xor}
use tavern.Prelude.{
  ℕ, zero, suc, ◌+◌, ◌-◌, ◌*◌, ◌%◌, ◌^◌, Bool, Option, none, some, List, [], ◌∷◌, ltb, ◌==◌,
  if◌then◌else◌, map, replicate, get_elem?,
}

pub record Bucket : Type 0 where
  pub fingerprint : ℕ
  pub count : ℕ

abbrev pub no_bucket : Bucket
no_bucket = record { fingerprint = 0; count = 0 }

pub record HeavyKeeper : Type 0 where
  pub buckets : List (List Bucket)
  pub depth : ℕ
  pub width : ℕ

-- `New`
unfoldable pub new : ℕ → ℕ → HeavyKeeper
new depth width = record {
  buckets = replicate depth (replicate width no_bucket);
  depth = depth;
  width = width;
}

-- the bucket of row i: `(fingerprint + i * h2) % width` in uint64
abbrev pub index : ℕ → ℕ → ℕ → ℕ → ℕ
index fingerprint h2 width i = (fingerprint + i * h2) % 2 ^ 64 % width

-- the body of the loop of `Add`: `decays` is the outcome of the random test for a count
unfoldable pub add_bucket : ℕ → (ℕ → Bool) → Bucket → Bucket
add_bucket fingerprint decays b =
    if b.count == 0
    then record { fingerprint = fingerprint; count = 1 }
    else if b.fingerprint == fingerprint
    then record { fingerprint = b.fingerprint; count = (b.count + 1) % 2 ^ 32 }
    else if decays b.count
    then (if b.count - 1 == 0
        then record { fingerprint = fingerprint; count = 1 }
        else record { fingerprint = b.fingerprint; count = b.count - 1 })
    else b

abbrev pub update_at : {A : Type 0} → (A → A) → List A → ℕ → List A
update_at f [] i = []
update_at f (x ∷ xs) zero = f x ∷ xs
update_at f (x ∷ xs) (suc i) = x ∷ update_at f xs i

-- the loop of `Add` over the rows, from row i on
unfoldable pub add_rows : ℕ → ℕ → ℕ → (ℕ → ℕ → Bool) → ℕ → List (List Bucket) → List (List Bucket)
unfolding add_bucket
add_rows fingerprint h2 width decays i [] = []
add_rows fingerprint h2 width decays i (row ∷ rows) =
    update_at (add_bucket fingerprint (decays i)) row (index fingerprint h2 width i)
    ∷ add_rows fingerprint h2 width decays (i + 1) rows

abbrev pub counted_as : ℕ → Option Bucket → ℕ → ℕ
counted_as fingerprint none best = best
counted_as fingerprint (some b) best =
    if b.fingerprint == fingerprint then (if ltb best b.count then b.count else best) else best

-- the loop of `Query`
unfoldable pub query_rows : ℕ → ℕ → ℕ → ℕ → ℕ → List (List Bucket) → ℕ
query_rows fingerprint h2 width best i [] = best
query_rows fingerprint h2 width best i (row ∷ rows) =
    query_rows fingerprint h2 width
      (counted_as fingerprint (get_elem? row (index fingerprint h2 width i)) best) (i + 1) rows

-- the loop of `hash2`, in uint64
unfoldable pub mix : ℕ → List ℕ → ℕ
mix h [] = h
mix h (c ∷ cs) = mix (bit_xor (h * 16777619 % 2 ^ 64) c) cs

-- `hash2` with its salt
unfoldable pub hash2 : List ℕ → ℕ
unfolding mix
hash2 key = bit_xor (mix 2166136261 key) 11400714819323198485

module _ (hash : List ℕ → ℕ) where
  -- `Add`
  unfoldable pub add : (ℕ → ℕ → Bool) → HeavyKeeper → List ℕ → HeavyKeeper
  unfolding add_rows hash2
  add decays hk key = record {
    buckets = add_rows (hash key) (hash2 key) hk.width decays 0 hk.buckets;
    depth = hk.depth;
    width = hk.width;
  }

  -- `Query`
  unfoldable pub query : HeavyKeeper → List ℕ → ℕ
  unfolding query_rows hash2
  query hk key = query_rows (hash key) (hash2 key) hk.width 0 0 hk.buckets

-- `Clear`
unfoldable pub clear : HeavyKeeper → HeavyKeeper
clear hk = record {
  buckets = map (map (λ b. no_bucket)) hk.buckets;
  depth = hk.depth;
  width = hk.width;
}
