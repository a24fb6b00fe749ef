-- ===== src/Storage/Keyed.antt =====
-- The invariant of the index of a bucket (storage/bucket/disk/disk.go): every entry stands under the hash
-- of its object.
use tavern.Prelude.{
  ◌≡◌, ◌⊎◌, inl, inr, sym, ap, ◌∙◌, subst, Bool, true, false, Option, none, some, Bool-cases,
  if◌then◌else◌,
}
use tavern.Prelude.Text.{Bytes, bytes_eq, bytes_eq-true}
use tavern.Iobuf.Bitmap.{BitmapLib}
use tavern.SharedKv.Counter.{Store}
use tavern.Storage.Index.{find, put}
use tavern.Storage.Disk.{
  ObjectId, Stored, DiskBucket, Env, hash, World, discard_hash, store, migrate,
}
use tavern.Storage.Discard.{IsKeyed, IsKeyed-less, IsEnded, discard_hash-IsDiscarded}
use tavern.Storage.Migrate.{IsMoved, find-put, migrate_lem, store-IsStored, stored_true}

module _ (L : BitmapLib) (env : Env) where
  some_same : (a b : Stored L) → some a ≡ some b → a ≡ b
  some_same a b e = ap (λ o. elim o [ none ↦ a | some c ↦ c ]) e

  entry-IsKeyed :
      (md : Stored L) (d after : DiskBucket L)
      → ((j : Bytes)
          → find after.index j
            ≡ (if bytes_eq (hash L env md.id) j then some md else find d.index j))
      → IsKeyed L env d
      → IsKeyed L env after
  entry-IsKeyed md d after f ks k m e = elim (Bool-cases (bytes_eq (hash L env md.id) k)) [
    | inl g ↦
        let h : find after.index k ≡ some md = simp g at (f k) in
        ap (λ x. hash L env x.id) (sym (some_same md m (sym h ∙ e)))
        ∙ bytes_eq-true (hash L env md.id) k g
    | inr g ↦ let h : find after.index k ≡ find d.index k = simp g at (f k) in ks k m (sym h ∙ e)
  ]

  pub put-IsKeyed :
      (md : Stored L) (d : DiskBucket L)
      → IsKeyed L env d
      → IsKeyed L env (record d { index = put d.index (hash L env md.id) md })
  put-IsKeyed md d =
      entry-IsKeyed md d (record d { index = put d.index (hash L env md.id) md })
        (λ j. find-put L env d.index (hash L env md.id) j md)

  store-IsKeyed :
      (md : Stored L) (w : World L env)
      → (store L env md w).0 ≡ true
      → IsKeyed L env w.0
      → IsKeyed L env (store L env md w).1.0
  store-IsKeyed md w h ks =
      entry-IsKeyed md w.0 (store L env md w).1.0 (store-IsStored L env md w h).entry ks

  moved-IsKeyed :
      (md : Stored L) (src dest : DiskBucket L) (r : Option (DiskBucket L × DiskBucket L × Store))
      (m : IsMoved L env md src dest r)
      → IsKeyed L env src
      → IsKeyed L env dest
      → IsKeyed L env m.left × IsKeyed L env m.target
  moved-IsKeyed md src dest r m ks kd =
      (IsKeyed-less L env m.left src m.smaller ks, entry-IsKeyed md dest m.target m.entry kd)

  some_after :
      (d : DiskBucket L) (r : Option (World L env)) (e : IsEnded L env d r) (w : World L env)
      → r ≡ some w
      → e.after ≡ w
  some_after d r e w h = ap (λ o. elim o [ none ↦ w | some c ↦ c ]) (sym e.result ∙ h)

  some_moved :
      (md : Stored L) (src dest : DiskBucket L) (r : Option (DiskBucket L × DiskBucket L × Store))
      (m : IsMoved L env md src dest r) (x : DiskBucket L × DiskBucket L × Store)
      → r ≡ some x
      → (m.left, m.target, m.kv) ≡ x
  some_moved md src dest r m x h = ap (λ o. elim o [ none ↦ x | some c ↦ c ]) (sym m.result ∙ h)

  discarded-IsKeyed :
      (k : Bytes) (md : Stored L) (w v : World L env)
      → w.0.writes ≡ true
      → IsKeyed L env w.0
      → find w.0.index k ≡ some md
      → (discard_hash L env k w).1 ≡ some v
      → IsKeyed L env v.0
  discarded-IsKeyed k md w v ws ks found h =
      let r = discard_hash-IsDiscarded L env k md w ws ks found in
      let same = some_after w.0 (discard_hash L env k w).1 r.1.ended v h in
      subst (λ x. IsKeyed L env x.0) same
        (IsKeyed-less L env r.1.ended.after.0 w.0 r.1.ended.smaller ks)

  migrated-IsKeyed :
      (md : Stored L) (src dest : DiskBucket L)
      (m : Bool × Option (DiskBucket L × DiskBucket L × Store))
      (x : DiskBucket L × DiskBucket L × Store) (P : Type 0)
      → ((m.0 ≡ false) × P) ⊎ ((m.0 ≡ true) × IsMoved L env md src dest m.1)
      → m.0 ≡ true
      → m.1 ≡ some x
      → IsKeyed L env src
      → IsKeyed L env dest
      → IsKeyed L env x.0 × IsKeyed L env x.1
  migrated-IsKeyed md src dest m x P (inl h) t e ks kd = absurd (cc (h.0, t))
  migrated-IsKeyed md src dest m x P (inr (h, moved)) t e ks kd =
      subst (λ y. IsKeyed L env y.0 × IsKeyed L env y.1) (some_moved md src dest m.1 moved x e)
        (moved-IsKeyed md src dest m.1 moved ks kd)

  -- In every index each entry stands under the hash of its object, and that stays so, where the index of the
  -- bucket takes writes: after `Store` of any metadata, and after `DiscardWithHash` of an object that the
  -- bucket has, it holds of the bucket, and after a `Migrate` of it without an error of the bucket and of the
  -- target.
  pub operations-IsKeyed :
      (md new : Stored L) (id : ObjectId) (src dest : DiskBucket L) (s : Store)
      → src.writes ≡ true
      → IsKeyed L env src
      → IsKeyed L env dest
      → find src.index (hash L env id) ≡ some md
      → (IsKeyed L env (store L env new (src, s)).1.0)
        × ((v : World L env)
            → (discard_hash L env (hash L env id) (src, s)).1 ≡ some v
            → IsKeyed L env v.0)
        × ((x : DiskBucket L × DiskBucket L × Store)
            → (migrate L env id src dest s).0 ≡ true
            → (migrate L env id src dest s).1 ≡ some x
            → IsKeyed L env x.0 × IsKeyed L env x.1)
  operations-IsKeyed md new id src dest s ws ks kd found = (
    store-IsKeyed new (src, s) (stored_true L env new (src, s) ws) ks,
    λ v. discarded-IsKeyed (hash L env id) md (src, s) v ws ks found,
    λ x t e.
        migrated-IsKeyed md src dest (migrate L env id src dest s) x _
          (migrate_lem L env id md src dest s ws ks found) t e ks kd,
  )
