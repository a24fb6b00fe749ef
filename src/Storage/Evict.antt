-- ===== src/Storage/Evict.antt =====
-- `evict` of storage/bucket/disk/disk.go with `Demote` of storage/migrator.go: what becomes of an object that
-- the cache has put out.
use tavern.Prelude.{
  ℕ, ◌≡◌, ◌⊎◌, inl, inr, refl, sym, ap, ◌∙◌, subst, Bool, true, false, Option, none, some, ◌==◌,
  ==_iff,
}
use tavern.Iobuf.Bitmap.{BitmapLib}
use tavern.SharedKv.Counter.{Store}
use tavern.Storage.Index.{find}
use tavern.Storage.Disk.{Stored, DiskBucket, Env, hash, discard_hash, migrate}
use tavern.Storage.Discard.{IsKeyed, IsLess, IsDiscarded, discard_hash-IsDiscarded}
use tavern.Storage.Migrate.{IsMoved, IsKept, migrate_lem}
use tavern.Storage.Tiers.{
  Migrator, StoreType, lower_layer, select_layer, put_bucket, put_migrated, move_to, move_layer,
  demote, put_world, discard_in, or_discard, evict,
}

module _ (L : BitmapLib) (env : Env) where
  -- The bucket has ended up without the object, with no files of its chunks but those that cannot be removed,
  -- and of the rest with nothing that it did not hold.
  pub record IsEvicted (md : Stored L) (m : Migrator L) (b : ℕ) (r : Option (Migrator L))
      : Type 0 where
    pub after : Migrator L
    pub result : r ≡ some after
    pub smaller : IsLess L env (after.bucket b) (m.bucket b)
    pub no_entry : find (after.bucket b).index (hash L env md.id) ≡ none
    pub no_chunk :
        (i : ℕ)
        → L.contains md.meta.chunks i ≡ true
        → (m.bucket b).removes (hash L env md.id) i ≡ true
        → (after.bucket b).files (hash L env md.id) i ≡ none

  -- The object has moved from one bucket to another, and the other buckets are as they were.
  pub record IsDemoted (md : Stored L) (m : Migrator L) (b dest : ℕ) (r : Option (Migrator L))
      : Type 0 where
    pub after : Migrator L
    pub result : r ≡ some after
    pub left : DiskBucket L
    pub target : DiskBucket L
    pub moved : IsMoved L env md (m.bucket b) (m.bucket dest) (some (left, target, after.kv))
    pub source : after.bucket b ≡ left
    pub destination : (dest == b) ≡ false → after.bucket dest ≡ target
    pub other : (c : ℕ) → (c == b) ≡ false → (c == dest) ≡ false → after.bucket c ≡ m.bucket c

  -- what becomes of the object, by whether it could be migrated
  abbrev pub IsSettled : Stored L → Migrator L → ℕ → ℕ → Option (Migrator L) → Type 0
  IsSettled md m b dest r =
      let moved = (migrate L env md.id (m.bucket b) (m.bucket dest) m.kv).0 in
      ((moved ≡ false) × IsEvicted md m b r) ⊎ ((moved ≡ true) × IsDemoted md m b dest r)

  -- what becomes of the object, by whether a tier selects a bucket for it
  abbrev pub IsPlaced : Stored L → Migrator L → ℕ → StoreType → Option (Migrator L) → Type 0
  IsPlaced md m b layer r =
      ((select_layer L env m md.id layer ≡ none) × IsEvicted md m b r)
      ⊎ ((dest : ℕ) × (select_layer L env m md.id layer ≡ some dest) × IsSettled md m b dest r)

  self_bucket : (m : Migrator L) (b : ℕ) (d : DiskBucket L) → (put_bucket L env m b d).bucket b ≡ d
  self_bucket m b d = simp ((==_iff b b).1 refl) refl

  discard_in-IsEvicted :
      (md : Stored L) (m n : Migrator L) (b : ℕ)
      → n.bucket b ≡ m.bucket b
      → (m.bucket b).writes ≡ true
      → IsKeyed L env (m.bucket b)
      → find (m.bucket b).index (hash L env md.id) ≡ some md
      → IsEvicted md m b (discard_in L env n b (hash L env md.id))
  discard_in-IsEvicted md m n b same ws ks found =
      let k = hash L env md.id in
      let h : IsDiscarded L env md (m.bucket b) (discard_hash L env k (n.bucket b, n.kv)).1 =
        rw same (discard_hash-IsDiscarded L env k md (m.bucket b, n.kv) ws ks found).1 in
      let w = h.ended.after in
      let back = sym (self_bucket n b w.0) in
      record {
        after = record (put_bucket L env n b w.0) { kv = w.1 };
        result = ap (put_world L env n b) h.ended.result;
        smaller = subst (λ d. IsLess L env d (m.bucket b)) back h.ended.smaller;
        no_entry = ap (λ d. find d.index k) (self_bucket n b w.0) ∙ h.entry;
        no_chunk = λ i c g. ap (λ d. d.files k i) (self_bucket n b w.0) ∙ h.chunk i c g;
      }

  moved-IsDemoted :
      (md : Stored L) (m : Migrator L) (b dest : ℕ)
      (r : Option (DiskBucket L × DiskBucket L × Store))
      → IsMoved L env md (m.bucket b) (m.bucket dest) r
      → IsDemoted md m b dest (put_migrated L env m b dest r)
  moved-IsDemoted md m b dest r h =
      let there = put_bucket L env m dest h.target in
      record {
        after = record (put_bucket L env there b h.left) { kv = h.kv };
        result = ap (put_migrated L env m b dest) h.result;
        left = h.left;
        target = h.target;
        moved = subst (IsMoved L env md (m.bucket b) (m.bucket dest)) h.result h;
        source = self_bucket there b h.left;
        destination = λ e. rw e (self_bucket m dest h.target);
        other = λ c e f. rw e (rw f refl);
      }

  module _ (m : Migrator L) (b : ℕ) (md : Stored L) (ws : (m.bucket b).writes ≡ true)
      (ks : IsKeyed L env (m.bucket b))
      (found : find (m.bucket b).index (hash L env md.id) ≡ some md) where
    settled_lem :
        (dest : ℕ) (ok : Bool) (r : Option (DiskBucket L × DiskBucket L × Store))
        → ((ok ≡ false) × IsKept L env (m.bucket b) r)
          ⊎ ((ok ≡ true) × IsMoved L env md (m.bucket b) (m.bucket dest) r)
        → (let e = or_discard L env b (hash L env md.id) (ok, put_migrated L env m b dest r) in
            ((ok ≡ false) × IsEvicted md m b e) ⊎ ((ok ≡ true) × IsDemoted md m b dest e))
    settled_lem dest false r (inl (h, (d, s, e))) = inl (
      refl,
      rw e (
          discard_in-IsEvicted md m
            (record (put_bucket L env (put_bucket L env m dest d) b (m.bucket b)) { kv = s }) b
            (self_bucket (put_bucket L env m dest d) b (m.bucket b)) ws ks found),
    )
    settled_lem dest true r (inl (h, k)) = absurd (cc h)
    settled_lem dest false r (inr (h, k)) = absurd (cc h)
    settled_lem dest true r (inr (h, k)) = inr (refl, moved-IsDemoted md m b dest r k)

    placed_lem :
        (layer : StoreType) (dest : Option ℕ)
        → select_layer L env m md.id layer ≡ dest
        → IsPlaced md m b layer
            (or_discard L env b (hash L env md.id) (move_to L env m md.id b dest))
    placed_lem layer none e = inl (e, discard_in-IsEvicted md m m b refl ws ks found)
    placed_lem layer (some t) e =
        let r = migrate L env md.id (m.bucket b) (m.bucket t) m.kv in
        inr (
          t,
          e,
          settled_lem t r.0 r.1
              (migrate_lem L env md.id md (m.bucket b) (m.bucket t) m.kv ws ks found),
        )

    layer_lem :
        (layer : Option StoreType)
        → (let e = or_discard L env b (hash L env md.id) (move_layer L env m md.id b layer) in
            ((layer ≡ none) × (e ≡ some m))
            ⊎ ((lower : StoreType) × (layer ≡ some lower) × IsPlaced md m b lower e))
    layer_lem none = inl (refl, refl)
    layer_lem (some layer) =
        inr (layer, refl, placed_lem layer (select_layer L env m md.id layer) refl)

  -- What becomes of an object that the cache of a bucket puts out, where the index of the bucket has it,
  -- takes writes, and has every entry under the hash of its object. It is discarded (the bucket ends up
  -- without the object, with no files of its chunks but those that cannot be removed, and of the rest with
  -- nothing that it did not hold) where objects do not migrate, where the lower tier selects no bucket for it,
  -- and where its migration there returns an error. Where the migration returns none, the selected bucket, if
  -- it is another one, has the metadata and those chunks of the object whose files it can rename, with the
  -- content they had, and the buckets that take no part are as they were. Where objects migrate and the
  -- bucket is of a type that has no lower tier, nothing at all is done.
  pub evict_lem :
      (migration : Bool) (m : Migrator L) (b : ℕ) (md : Stored L)
      → (m.bucket b).writes ≡ true
      → IsKeyed L env (m.bucket b)
      → find (m.bucket b).index (hash L env md.id) ≡ some md
      → (let r = evict L env migration m b (hash L env md.id) in
          ((migration ≡ false) × IsEvicted md m b r)
          ⊎ ((migration ≡ true) × (lower_layer (m.store_type b) ≡ none) × (r ≡ some m))
          ⊎ ((migration ≡ true)
              × (layer : StoreType) × (lower_layer (m.store_type b) ≡ some layer)
              × IsPlaced md m b layer r))
  unfolding evict demote
  evict_lem false m b md ws ks found = inl (refl, discard_in-IsEvicted md m m b refl ws ks found)
  evict_lem true m b md ws ks found =
      rw found (elim (layer_lem m b md ws ks found (lower_layer (m.store_type b))) [
        | inl (e, h) ↦ inr (inl (refl, e, h))
        | inr (layer, e, h) ↦ inr (inr (refl, layer, e, h))
      ])
