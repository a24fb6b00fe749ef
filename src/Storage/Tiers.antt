-- ===== src/Storage/Tiers.antt =====
-- storage/migrator.go: the tiers of buckets, the selection of a bucket, and the moves between tiers; and
-- `evict` and `touch` of storage/bucket/disk/disk.go, which start them. A bucket is named by a number. The
-- selectors are arguments (the hash ring is that of HashRing); a nil selector of a tier is none.
use tavern.Prelude.{
  ℕ, ◌+◌, ◌-◌, ◌%◌, ◌^◌, Bool, true, false, ◌&&◌, Option, none, some, List, [], ◌∷◌, if◌then◌else◌,
  ◌==◌, leb, ltb,
}
use tavern.Prelude.Text.{Bytes, bytes_eq}
use tavern.Iobuf.Bitmap.{BitmapLib}
use tavern.HeavyKeeper.Sketch.{HeavyKeeper}
use tavern.HeavyKeeper.Sketch as Sketch
use tavern.Lru.Cache as Lru
use tavern.SharedKv.Counter.{Store}
use tavern.Storage.Mark.{last_access, refs, set_last_access, set_refs}
use tavern.Storage.Index.{find}
use tavern.Storage.Disk.{
  ObjectId, Stored, DiskBucket, Env, hash, World, in_cache, discard_hash, migrate,
}

-- the constants of `StoreType`
pub data StoreType : Type 0 where
  in_memory normal warm cold hot : StoreType

pub record Migrator (L : BitmapLib) : Type 0 where
  pub bucket : ℕ → DiskBucket L
  pub store_type : ℕ → StoreType
  pub hot_selector : Option (ObjectId → Option ℕ)
  pub warm_selector : ObjectId → Option ℕ
  pub cold_selector : Option (ObjectId → Option ℕ)
  pub memory_bucket : Option ℕ
  pub kv : Store

-- the tier that `Demote` and `Promote` move to
abbrev pub lower_layer : StoreType → Option StoreType
lower_layer hot = some warm
lower_layer warm = some cold
lower_layer other = none

abbrev pub upper_layer : StoreType → Option StoreType
upper_layer cold = some warm
upper_layer warm = some hot
upper_layer other = none

abbrev pub select_with : Option (ObjectId → Option ℕ) → ObjectId → Option ℕ
select_with none id = none
select_with (some f) id = f id

abbrev pub has_some {ℓ} : {A : Type ℓ} → Option A → Bool
has_some none = false
has_some (some a) = true

-- the state of `touch` for promotion: the sketch of the hits, the time of its last reset, the window and
-- the hits that are needed; times are in nanoseconds
pub record Promotion : Type 0 where
  pub enabled : Bool
  pub sketch : HeavyKeeper
  pub last_reset : ℕ
  pub window : ℕ
  pub min_hits : ℕ

module _ (L : BitmapLib) (env : Env) where
  -- `SelectLayer`
  unfoldable pub select_layer : Migrator L → ObjectId → StoreType → Option ℕ
  select_layer m id hot = select_with m.hot_selector id
  select_layer m id normal = m.warm_selector id
  select_layer m id warm = m.warm_selector id
  select_layer m id cold = select_with m.cold_selector id
  select_layer m id in_memory = m.memory_bucket

  -- `Exist`: the buckets on disk ask their index, that in memory asks its cache
  abbrev pub exist_in : StoreType → DiskBucket L → Bytes → Bool
  exist_in in_memory d k = in_cache L env d k
  exist_in other d k = has_some (find d.index k)

  abbrev pub exist : Migrator L → ℕ → ObjectId → Bool
  exist m b id = exist_in (m.store_type b) (m.bucket b) (hash L env id)

  -- `chainSelector`
  unfoldable pub chain_selector :
      Migrator L → ObjectId → List (Option (ObjectId → Option ℕ)) → Option ℕ
  chain_selector m id [] = m.warm_selector id
  chain_selector m id (sel ∷ sels) =
      let rest = chain_selector m id sels in
      elim (select_with sel id) [ none ↦ rest | some b ↦ if exist m b id then some b else rest ]

  -- `Select`
  unfoldable pub select : Migrator L → ObjectId → Option ℕ
  select m id = chain_selector m id (m.hot_selector ∷ some m.warm_selector ∷ m.cold_selector ∷ [])

  abbrev pub put_bucket : Migrator L → ℕ → DiskBucket L → Migrator L
  put_bucket m b d = record m { bucket = λ c. if c == b then d else m.bucket c }

  abbrev pub put_migrated :
      Migrator L → ℕ → ℕ → Option (DiskBucket L × DiskBucket L × Store) → Option (Migrator L)
  put_migrated m src dest none = none
  put_migrated m src dest (some (d, e, s)) =
      some (record (put_bucket (put_bucket m dest e) src d) { kv = s })

  abbrev pub move_to : Migrator L → ObjectId → ℕ → Option ℕ → Bool × Option (Migrator L)
  move_to m id src none = (false, some m)
  move_to m id src (some dest) =
      let r = migrate L env id (m.bucket src) (m.bucket dest) m.kv in
      (r.0, put_migrated m src dest r.1)

  abbrev pub move_layer : Migrator L → ObjectId → ℕ → Option StoreType → Bool × Option (Migrator L)
  move_layer m id src none = (true, some m)
  move_layer m id src (some layer) = move_to m id src (select_layer m id layer)

  -- `Demote` and `Promote` of an object in a bucket: whether there is no error
  unfoldable pub demote : Migrator L → ObjectId → ℕ → Bool × Option (Migrator L)
  demote m id src = move_layer m id src (lower_layer (m.store_type src))

  unfoldable pub promote : Migrator L → ObjectId → ℕ → Bool × Option (Migrator L)
  promote m id src = move_layer m id src (upper_layer (m.store_type src))

  abbrev pub put_world : Migrator L → ℕ → Option (World L env) → Option (Migrator L)
  put_world m b none = none
  put_world m b (some (d, s)) = some (record (put_bucket m b d) { kv = s })

  abbrev pub discard_in : Migrator L → ℕ → Bytes → Option (Migrator L)
  discard_in m b k = put_world m b (discard_hash L env k (m.bucket b, m.kv)).1

  -- the object is discarded if it could not be demoted
  abbrev pub or_discard : ℕ → Bytes → Bool × Option (Migrator L) → Option (Migrator L)
  or_discard b k (true, r) = r
  or_discard b k (false, none) = none
  or_discard b k (false, some m) = discard_in m b k

  abbrev pub demote_found : Migrator L → ℕ → Option (Stored L) → Bool × Option (Migrator L)
  demote_found m b none = (false, some m)
  demote_found m b (some md) = demote m md.id b

  -- a turn of the loop of `evict`, for a key that the cache has put out
  unfoldable pub evict : Bool → Migrator L → ℕ → Bytes → Option (Migrator L)
  evict migration m b k =
      if migration
      then or_discard b k (demote_found m b (find (m.bucket b).index k))
      else discard_in m b k

  abbrev pub touch_mark : DiskBucket L → Bytes → ℕ → Option ℕ → DiskBucket L
  touch_mark d k now none = d
  touch_mark d k now (some mark) =
      if last_access mark == 0
      then d
      else let seen = set_last_access mark now in
        record d { cache = Lru.set bytes_eq d.cache k (set_refs seen (refs seen + 1)) }

  -- the mark in `touch`, which is read by `Get`
  unfoldable pub touch : DiskBucket L → Bytes → ℕ → DiskBucket L
  touch d k now =
      let (mark, c) = Lru.get bytes_eq d.cache k in touch_mark (record d { cache = c }) k now mark

  -- the window in `touch`
  abbrev pub reset : Promotion → ℕ → Promotion
  reset p now =
      if ltb 0 p.window && ltb p.window (now - p.last_reset)
      then record p { sketch = Sketch.clear p.sketch; last_reset = now }
      else p

  abbrev pub count_hit : (ℕ → ℕ → Bool) → (Bytes → ℕ) → Promotion → Bytes → Bool × Promotion
  count_hit decays sketch_hash p k =
      let hk = Sketch.add sketch_hash decays p.sketch k in
      (leb (p.min_hits % 2 ^ 32) (Sketch.query sketch_hash hk k), record p { sketch = hk })

  -- the count in `touch` of an object with a mark: whether its promotion is started
  unfoldable pub promotes : (ℕ → ℕ → Bool) → (Bytes → ℕ) → Promotion → Bytes → ℕ → Bool × Promotion
  promotes decays sketch_hash p k now =
      if p.enabled then count_hit decays sketch_hash (reset p now) k else (false, p)
