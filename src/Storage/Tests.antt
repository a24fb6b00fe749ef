-- ===== src/Storage/Tests.antt =====
-- A bucket with an object and its variant, and the theorems applied.
use tavern.Prelude.{
  ℕ, ◌*◌, ◌≡◌, ◌⊎◌, ◌^◌, refl, ap, Bool, ◌==◌, if◌then◌else◌, true, false, Option, none, some, List,
  [], ◌∷◌, arith, length,
}
use tavern.Prelude.Text.{Bytes, codes, bytes_eq}
use tavern.Iobuf.Bitmap.{lists, sort}
use tavern.Lru.Cache as Lru
use tavern.SharedKv.Counter.{Store, not_found}
use tavern.Storage.Index.{find, put}
use tavern.Storage.Disk.{
  ObjectId, Stored, DiskBucket, Env, hash, World, discard, discard_hash, store, migrate,
  copy_chunks, write_chunk,
}
use tavern.Storage.Discard.{IsKeyed, IsDiscarded, discard_hash-IsDiscarded}
use tavern.Storage.Migrate.{IsKept, IsMoved, migrate_lem, migrate-IsReady}
use tavern.Storage.Keyed.{put-IsKeyed, operations-IsKeyed}
use tavern.Storage.Tiers.{StoreType, Migrator, hot, warm, cold, lower_layer, evict}
use tavern.Storage.Evict.{IsEvicted, IsPlaced, evict_lem}
use tavern.Storage.Purge.{purge_bucket, IsExpired, purge_bucket_lem}

-- ids as their own hashes
abbrev env : Env
env = record { sha1 = λ k. k; host = λ p. some p }

abbrev empty_store : Store
empty_store = record { get = λ k. not_found; writes = true }

abbrev stored : ObjectId → ℕ → List ℕ → List Bytes → Stored lists
stored id flags chunks keys = record {
  id = id;
  meta = record { flags = flags; block_size = 10; chunks = chunks; size = 15; virtual_key = keys };
  last_ref_unix = 5;
  refs = 1;
  expires_at = 100;
}

abbrev page : ObjectId
page = record { path = codes "a"; ext = [] }

abbrev variant : ObjectId
variant = record { path = codes "a"; ext = codes "v" }

abbrev page_stored : Stored lists
page_stored = stored page 1 (0 ∷ []) (codes "v" ∷ [])

abbrev variant_stored : Stored lists
variant_stored = stored variant 2 (0 ∷ 1 ∷ []) []

abbrev empty_bucket : DiskBucket lists
empty_bucket = record {
  path = codes "d";
  index = [];
  writes = true;
  files = λ k i. some (i ∷ []);
  opens = λ i. true;
  accepts = λ i. 10;
  renames = λ i. true;
  removes = λ k i. true;
  cache = Lru.new 4;
}

empty-IsKeyed : IsKeyed lists env empty_bucket
empty-IsKeyed k md h = cc h

abbrev variant_bucket : DiskBucket lists
variant_bucket = record empty_bucket { index = put [] (hash lists env variant) variant_stored }

abbrev bucket : DiskBucket lists
bucket = record variant_bucket {
  index = put variant_bucket.index (hash lists env page) page_stored;
}

bucket-IsKeyed : IsKeyed lists env bucket
bucket-IsKeyed =
    put-IsKeyed lists env page_stored variant_bucket
      (put-IsKeyed lists env variant_stored empty_bucket empty-IsKeyed)

page_found : find bucket.index (hash lists env page) ≡ some page_stored
unfolding bytes_eq
page_found = refl

abbrev entries : Option (World lists env) → Option ℕ
entries none = none
entries (some w) = some (length w.0.index)

-- The variant goes with the object.
variant_discarded : entries (discard_hash lists env (codes "a") (bucket, empty_store)).1 ≡ some 0
unfolding discard_hash discard bytes_eq
variant_discarded = refl

-- A migration leaves the source without the variant, and moves the object alone.
abbrev migrated_entries : Option (DiskBucket lists × DiskBucket lists × Store) → Option (ℕ × ℕ)
migrated_entries none = none
migrated_entries (some (d, e, s)) = some (length d.index, length e.index)

variant_lost :
    migrated_entries (migrate lists env page bucket empty_bucket empty_store).1 ≡ some (0, 1)
unfolding migrate discard bytes_eq store copy_chunks write_chunk sort
variant_lost = refl

-- Where the target cannot rename the file of the chunk, there is no error, and neither bucket has it.
abbrev stuck_bucket : DiskBucket lists
stuck_bucket = record empty_bucket { files = λ k i. none; renames = λ i. false }

abbrev migrated_files :
    Bool × Option (DiskBucket lists × DiskBucket lists × Store) → Bool × Option Bytes × Option Bytes
migrated_files (ok, none) = (ok, none, none)
migrated_files (ok, some (d, e, s)) = (ok, d.files (codes "a") 0, e.files (codes "a") 0)

chunk_lost :
    migrated_files (migrate lists env page bucket stuck_bucket empty_store) ≡ (true, none, none)
unfolding migrate discard bytes_eq store copy_chunks write_chunk sort
chunk_lost = refl

discard_hash-IsDiscarded_example :
    ((discard_hash lists env (codes "a") (bucket, empty_store)).0 ≡ true)
    × IsDiscarded lists env page_stored bucket
        (discard_hash lists env (codes "a") (bucket, empty_store)).1
discard_hash-IsDiscarded_example =
    discard_hash-IsDiscarded lists env (codes "a") page_stored (bucket, empty_store) refl
      bucket-IsKeyed page_found

migrate_lem_example :
    (let m = migrate lists env page bucket empty_bucket empty_store in
      ((m.0 ≡ false) × IsKept lists env bucket m.1)
      ⊎ ((m.0 ≡ true) × IsMoved lists env page_stored bucket empty_bucket m.1))
migrate_lem_example =
    migrate_lem lists env page page_stored bucket empty_bucket empty_store refl bucket-IsKeyed
      page_found

migrate-IsReady_example :
    (let m = migrate lists env page bucket empty_bucket empty_store in
      (m.0 ≡ true) × IsMoved lists env page_stored bucket empty_bucket m.1)
migrate-IsReady_example =
    migrate-IsReady lists env page page_stored bucket empty_bucket empty_store refl bucket-IsKeyed
      page_found
      record {
        opens = λ i. refl;
        accepts =
            λ i b e. omega (arith, ap {B = ℕ} (λ o. elim o [ none ↦ 0 | some c ↦ length c ]) e);
        writes = refl;
      }
      (λ i h. (i ∷ [], refl))

operations-IsKeyed_example :
    IsKeyed lists env (store lists env page_stored (bucket, empty_store)).1.0
    × ((v : World lists env)
        → (discard_hash lists env (codes "a") (bucket, empty_store)).1 ≡ some v
        → IsKeyed lists env v.0)
    × ((x : DiskBucket lists × DiskBucket lists × Store)
        → (migrate lists env page bucket empty_bucket empty_store).0 ≡ true
        → (migrate lists env page bucket empty_bucket empty_store).1 ≡ some x
        → IsKeyed lists env x.0 × IsKeyed lists env x.1)
operations-IsKeyed_example =
    operations-IsKeyed lists env page_stored page_stored page bucket empty_bucket empty_store refl
      bucket-IsKeyed empty-IsKeyed page_found

-- Three buckets: 0 is hot, 1 is warm, and 2 is cold.
abbrev migrator : Migrator lists
migrator = record {
  bucket = λ b. if b == 2 then empty_bucket else bucket;
  store_type = λ b. if b == 0 then hot else if b == 1 then warm else cold;
  hot_selector = some (λ id. some 0);
  warm_selector = λ id. some 1;
  cold_selector = some (λ id. some 2);
  memory_bucket = none;
  kv = empty_store;
}

evict_lem_example :
    (let r = evict lists env true migrator 1 (codes "a") in
      ((true ≡ false) × IsEvicted lists env page_stored migrator 1 r)
      ⊎ ((true ≡ true) × (lower_layer (migrator.store_type 1) ≡ none) × (r ≡ some migrator))
      ⊎ ((true ≡ true)
          × (layer : StoreType) × (lower_layer (migrator.store_type 1) ≡ some layer)
          × IsPlaced lists env page_stored migrator 1 layer r))
evict_lem_example = evict_lem lists env true migrator 1 page_stored refl bucket-IsKeyed page_found

purge_bucket_lem_example :
    ((purge_bucket lists env true (7 * 10 ^ 9) page (bucket, empty_store)).0 ≡ true)
    × IsDiscarded lists env page_stored bucket
        (purge_bucket lists env true (7 * 10 ^ 9) page (bucket, empty_store)).1
    × IsExpired lists env page_stored
        (7 * 10 ^ 9)
        bucket
        (purge_bucket lists env false (7 * 10 ^ 9) page (bucket, empty_store))
purge_bucket_lem_example =
    purge_bucket_lem lists env page page_stored (bucket, empty_store) (7 * 10 ^ 9) (omega arith)
      refl bucket-IsKeyed page_found
