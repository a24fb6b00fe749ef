-- ===== src/Storage/Purge.antt =====
-- `PURGE` of storage/migrator.go for one object, `Lookup` of storage/bucket/disk/disk.go, and `hasExpired` of
-- server/middleware/caching/caching_revalidate.go. Times are in nanoseconds, from 1970 on.
use tavern.Prelude.{
  ℕ, ◌-◌, ◌*◌, ◌/◌, ◌^◌, ◌≤◌, ◌<◌, ◌≡◌, refl, ap, ◌∙◌, Bool, true, false, Option, none, some, [],
  if◌then◌else◌, ltb, lt→ltb, arith, ◌==◌,
}
use tavern.Prelude.Text.{Bytes, bytes_eq}
use tavern.Iobuf.Bitmap.{BitmapLib}
use tavern.SharedKv.Counter.{Store}
use tavern.Storage.Index.{find}
use tavern.Storage.Disk.{ObjectId, Stored, DiskBucket, Env, hash, World, discard_hash, store}
use tavern.Storage.Discard.{IsKeyed, IsDiscarded, discard_hash-IsDiscarded}
use tavern.Storage.Migrate.{store-IsStored, stored_true}
use tavern.Storage.Mark.{last_access}
use tavern.Storage.Tiers.{touch_mark, Migrator, put_world, select, touch}

-- `time.Second`
abbrev second : ℕ
second = 10 ^ 9

-- `NewID`
abbrev pub new_id : Bytes → ObjectId
new_id url = record { path = url; ext = [] }

module _ (L : BitmapLib) where
  -- `hasExpired`
  unfoldable pub has_expired : Stored L → ℕ → Bool
  has_expired md now = ltb (md.expires_at * second) now

  -- the time of expiry that is set: `Add(-1)` is a nanosecond back, and `Unix` cuts to seconds
  abbrev pub expire : ℕ → Stored L → Stored L
  expire now md = record md { expires_at = (now - 1) / second }

module _ (L : BitmapLib) (env : Env) where
  -- `Lookup`: the metadata, and the bucket touched
  unfoldable pub lookup : DiskBucket L → ObjectId → ℕ → Option (Stored L) × DiskBucket L
  lookup d id now = elim (find d.index (hash L env id)) [
    | none ↦ (none, d)
    | some md ↦ (some md, touch L env d (hash L env id) (now / second))
  ]

  abbrev pub store_expired : ℕ → Option (Stored L) × DiskBucket L → Store → Bool × World L env
  store_expired now (none, d) s = (false, (d, s))
  store_expired now (some md, d) s = store L env (expire L now md) (d, s)

  -- a purge in a bucket: hard, or by its time of expiry
  unfoldable pub purge_bucket : Bool → ℕ → ObjectId → World L env → Bool × Option (World L env)
  purge_bucket hard now id (d, s) =
      if hard
      then discard_hash L env (hash L env id) (d, s)
      else let r = store_expired now (lookup d id now) s in (r.0, some r.1)

  abbrev pub purge_selected :
      Migrator L → Bool → ℕ → ObjectId → Option ℕ → Bool × Option (Migrator L)
  purge_selected m hard now id none = (false, some m)
  purge_selected m hard now id (some b) =
      let r = purge_bucket hard now id (m.bucket b, m.kv) in (r.0, put_world L env m b r.1)

  -- `PURGE` of a URL
  unfoldable pub purge : Migrator L → Bool → ℕ → Bytes → Bool × Option (Migrator L)
  purge m hard now url = purge_selected m hard now (new_id url) (select L env m (new_id url))

  -- Only the cache of a bucket is another.
  abbrev IsTouched : DiskBucket L → DiskBucket L → Type 0
  IsTouched d e = (e.index ≡ d.index) × (e.files ≡ d.files) × (e.writes ≡ d.writes)

  if-IsTouched :
      (b : Bool) (d e f : DiskBucket L)
      → IsTouched d e
      → IsTouched d f
      → IsTouched d (if b then e else f)
  if-IsTouched true d e f h g = h
  if-IsTouched false d e f h g = g

  touch_mark-IsTouched :
      (d e : DiskBucket L) (k : Bytes) (now : ℕ) (mark : Option ℕ)
      → IsTouched d e
      → IsTouched d (touch_mark L env e k now mark)
  touch_mark-IsTouched d e k now none h = h
  touch_mark-IsTouched d e k now (some mark) h = if-IsTouched (last_access mark == 0) d e _ h h

  touch-IsTouched : (d : DiskBucket L) (k : Bytes) (now : ℕ) → IsTouched d (touch L env d k now)
  unfolding touch
  touch-IsTouched d k now = touch_mark-IsTouched d _ k now _ (refl, refl, refl)

  -- A purge that is not hard: the metadata have expired, and all else is as it was.
  pub record IsExpired (md : Stored L) (now : ℕ) (d : DiskBucket L)
      (r : Bool × Option (World L env)) : Type 0 where
    pub after : World L env
    pub result : r ≡ (true, some after)
    pub new : Stored L
    pub entry :
        (j : Bytes)
        → find after.0.index j
          ≡ (if bytes_eq (hash L env md.id) j then some new else find d.index j)
    pub file : (j : Bytes) (i : ℕ) → after.0.files j i ≡ d.files j i
    pub same : new ≡ record md { expires_at = new.expires_at }
    pub expired : (later : ℕ) → now ≤ later → has_expired L new later ≡ true

  expired_later :
      (md : Stored L) (now later : ℕ)
      → 0 < now
      → now ≤ later
      → has_expired L (expire L now md) later ≡ true
  unfolding has_expired
  expired_later md now later h k = lt→ltb ((now - 1) / second * second) later (omega arith)

  soft-IsExpired :
      (id : ObjectId) (md : Stored L) (d : DiskBucket L) (s : Store) (now : ℕ)
      → 0 < now
      → d.writes ≡ true
      → find d.index (hash L env id) ≡ some md
      → IsExpired md now d (purge_bucket false now id (d, s))
  unfolding purge_bucket lookup
  soft-IsExpired id md d s now h ws found =
      let e = touch L env d (hash L env id) (now / second) in
      let (index, files, writes) = touch-IsTouched d (hash L env id) (now / second) in
      let new = expire L now md in
      let ok = stored_true L env new (e, s) (writes ∙ ws) in
      let stored = store-IsStored L env new (e, s) ok in
      rw (lookup, found)
        record {
          after = (store L env new (e, s)).1;
          result = ap (λ b. (b, some (store L env new (e, s)).1)) ok;
          new = new;
          entry = λ j.
              stored.entry j
              ∙ ap (λ es. if bytes_eq (hash L env md.id) j then some new else find es j) index;
          file = λ j i. stored.file j i ∙ ap (λ f. f j i) files;
          same = refl;
          expired = λ later k. expired_later md now later h k;
        }

  -- A purge of an object that a bucket has, where its index takes writes and has every entry under the hash
  -- of its object. A hard one ends without error, and leaves neither the object nor those files of its
  -- chunks that can be removed. Any other leaves all files and all other entries as they were, and the
  -- metadata too but for the time of expiry: the object has expired at the time of the purge and from then
  -- on.
  pub purge_bucket_lem :
      (id : ObjectId) (md : Stored L) (w : World L env) (now : ℕ)
      → 0 < now
      → w.0.writes ≡ true
      → IsKeyed L env w.0
      → find w.0.index (hash L env id) ≡ some md
      → ((purge_bucket true now id w).0 ≡ true)
        × IsDiscarded L env md w.0 (purge_bucket true now id w).1
        × IsExpired md now w.0 (purge_bucket false now id w)
  unfolding purge_bucket
  purge_bucket_lem id md (d, s) now h ws ks found =
      let hard = discard_hash-IsDiscarded L env (hash L env id) md (d, s) ws ks found in
      (hard.0, hard.1, soft-IsExpired id md d s now h ws found)
