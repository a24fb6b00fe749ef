-- ===== src/Storage/Migrate.antt =====
-- `Store` and `Migrate` of storage/bucket/disk/disk.go: an object moves as a whole, or stays.
use tavern.Prelude.{
  ℕ, ◌+◌, ◌≡◌, ◌⊎◌, inl, inr, refl, sym, ap, ◌∙◌, Bool, true, false, ◌&&◌, Option, none, some, List,
  arith, if◌then◌else◌, length,
}
use tavern.Prelude.Text.{Bytes, bytes_eq}
use tavern.Iobuf.Bitmap.{BitmapLib}
use tavern.Lru.Cache.{Cache}
use tavern.SharedKv.Counter.{Store}
use tavern.Storage.Index.{find, put, find-erase, length-erase}
use tavern.Storage.Disk.{
  ObjectId, Stored, DiskBucket, Env, hash, World, store, copy_chunks, with_dest, migrate_drop,
  migrate_meta, migrate,
}
use tavern.Storage.Discard.{IsKeyed, IsLess, discard-IsDiscarded}
use tavern.Storage.Copy.{IsCopied, copy_chunks-IsCopied, IsReady, copy_chunks-IsReady}

module _ (L : BitmapLib) (env : Env) where
  -- A bucket is another with an object stored: its entry of the index, and nothing else of the index
  -- and the files.
  pub record IsStored (md : Stored L) (d after : DiskBucket L) : Type 0 where
    pub entry :
        (j : Bytes)
        → find after.index j ≡ (if bytes_eq (hash L env md.id) j then some md else find d.index j)
    pub file : (j : Bytes) (i : ℕ) → after.files j i ≡ d.files j i

  pub find-put :
      (es : List (Bytes × Stored L)) (k j : Bytes) (md : Stored L)
      → find (put es k md) j ≡ (if bytes_eq k j then some md else find es j)
  find-put es k j md = ground (arith, find-erase es k j)

  written-IsStored :
      (b : Bool) (md : Stored L) (d : DiskBucket L) (c : Cache Bytes ℕ) (s t : Store)
      → (let e = record d { cache = c } in
          let r : Bool × World L env =
            if b
            then (true, (record e { index = put d.index (hash L env md.id) md }, s))
            else (false, (e, t)) in
          r.0 ≡ true → IsStored md d r.1.0)
  written-IsStored true md d c s t h = record {
    entry = λ j. find-put d.index (hash L env md.id) j md;
    file = λ j i. refl;
  }
  written-IsStored false md d c s t h = cc h

  pub store-IsStored :
      (md : Stored L) (w : World L env)
      → (store L env md w).0 ≡ true
      → IsStored md w.0 (store L env md w).1.0
  unfolding store
  store-IsStored md (d, s) h = written-IsStored d.writes md d _ _ _ h

  pub stored_true :
      (md : Stored L) (w : World L env) → w.0.writes ≡ true → (store L env md w).0 ≡ true
  unfolding store
  stored_true md (d, s) e = simp e refl

  -- An object has moved from one bucket to another.
  pub record IsMoved (md : Stored L) (src dest : DiskBucket L)
      (r : Option (DiskBucket L × DiskBucket L × Store)) : Type 0 where
    pub left : DiskBucket L
    pub target : DiskBucket L
    pub kv : Store
    pub result : r ≡ some (left, target, kv)
    -- the source
    pub smaller : IsLess L env left src
    pub no_entry : find left.index (hash L env md.id) ≡ none
    pub no_chunk :
        (i : ℕ)
        → L.contains md.meta.chunks i ≡ true
        → src.removes (hash L env md.id) i ≡ true
        → left.files (hash L env md.id) i ≡ none
    -- the target
    pub entry :
        (j : Bytes)
        → find target.index j
          ≡ (if bytes_eq (hash L env md.id) j then some md else find dest.index j)
    pub file :
        (j : Bytes) (i : ℕ)
        → target.files j i ≡ (
            if bytes_eq j (hash L env md.id) && (L.contains md.meta.chunks i && dest.renames i)
            then src.files (hash L env md.id) i
            else dest.files j i)
    pub chunk :
        (i : ℕ)
        → L.contains md.meta.chunks i ≡ true
        → (b : Bytes) × (src.files (hash L env md.id) i ≡ some b)

  -- An object has stayed: the source is as it was.
  abbrev pub IsKept : DiskBucket L → Option (DiskBucket L × DiskBucket L × Store) → Type 0
  IsKept src r = (dest : DiskBucket L) × (s : Store) × (r ≡ some (src, dest, s))

  module _ (md : Stored L) (src : DiskBucket L) (ws : src.writes ≡ true)
      (ks : IsKeyed L env src) where
    dropped_lem :
        (dest mid : DiskBucket L)
        → IsCopied L env src (hash L env md.id) (L.range md.meta.chunks) dest mid
        → (r : Bool × World L env) → r.0 ≡ true
        → IsStored md mid r.1.0
        → (let m = migrate_drop L env md src r in (m.0 ≡ true) × IsMoved md src dest m.1)
    dropped_lem dest mid c (false, (target, s)) h f = cc h
    dropped_lem dest mid c (true, (target, s)) h f =
        let gone =
          discard-IsDiscarded L env (length src.index + 1) md (src, s) ws ks
            (omega (arith, length-erase src.index (hash L env md.id))) in
        (
          ap (λ r. (with_dest L env target r).0) gone.ended.result,
          record {
            left = gone.ended.after.0;
            target = target;
            kv = gone.ended.after.1;
            result = ap (λ r. (with_dest L env target r).1) gone.ended.result;
            smaller = gone.ended.smaller;
            no_entry = gone.entry;
            no_chunk = gone.chunk;
            entry = λ j. rw⁻¹ (ap (λ es. find es j) c.index) (f.entry j);
            file = λ j i. f.file j i ∙ rw⁻¹ (L.has-range md.meta.chunks i) (c.file j i);
            chunk = λ i h. c.chunk i (L.has-range md.meta.chunks i ∙ h);
          },
        )

    migrate_drop_lem :
        (dest mid : DiskBucket L)
        → IsCopied L env src (hash L env md.id) (L.range md.meta.chunks) dest mid
        → (r : Bool × World L env) → (r.0 ≡ true → IsStored md mid r.1.0)
        → (let m = migrate_drop L env md src r in
            ((m.0 ≡ false) × IsKept src m.1) ⊎ ((m.0 ≡ true) × IsMoved md src dest m.1))
    migrate_drop_lem dest mid c (false, (target, s)) f = inl (refl, (target, s, refl))
    migrate_drop_lem dest mid c (true, (target, s)) f =
        inr (dropped_lem dest mid c (true, (target, s)) refl (f refl))

    migrate_meta_lem :
        (dest : DiskBucket L) (s : Store) (r : Bool × DiskBucket L)
        → (r.0 ≡ true → IsCopied L env src (hash L env md.id) (L.range md.meta.chunks) dest r.1)
        → (let m = migrate_meta L env md src s r in
            ((m.0 ≡ false) × IsKept src m.1) ⊎ ((m.0 ≡ true) × IsMoved md src dest m.1))
    migrate_meta_lem dest s (false, mid) f = inl (refl, (mid, s, refl))
    migrate_meta_lem dest s (true, mid) f =
        migrate_drop_lem dest mid (f refl) (store L env md (mid, s)) (store-IsStored md (mid, s))

    meta_moved :
        (dest : DiskBucket L) (s : Store) (r : Bool × DiskBucket L)
        → (r.0 ≡ true → IsCopied L env src (hash L env md.id) (L.range md.meta.chunks) dest r.1)
        → (r.0 ≡ true) × IsReady L env src (hash L env md.id) r.1
        → (let m = migrate_meta L env md src s r in (m.0 ≡ true) × IsMoved md src dest m.1)
    meta_moved dest s (true, mid) f h =
        let done = stored_true md (mid, s) h.1.writes in
        dropped_lem dest mid (f refl) (store L env md (mid, s)) done
          (store-IsStored md (mid, s) done)
    meta_moved dest s (false, mid) f h = cc h.0

  -- `Migrate` of an object that the source has, where the index of the source takes writes and every entry
  -- stands under the hash of its object. If there is an error, the source is as it was. If there is none, the
  -- target has the metadata of the object and those of the chunks they list whose files it can rename, with
  -- the content they had in the source, and its index and files are else as they were; the source has not the
  -- entry, and of these chunks only files that cannot be removed.
  pub migrate_lem :
      (id : ObjectId) (md : Stored L) (src dest : DiskBucket L) (s : Store)
      → src.writes ≡ true
      → IsKeyed L env src
      → find src.index (hash L env id) ≡ some md
      → (let m = migrate L env id src dest s in
          ((m.0 ≡ false) × IsKept src m.1) ⊎ ((m.0 ≡ true) × IsMoved md src dest m.1))
  unfolding migrate
  migrate_lem id md src dest s ws ks found = simp found (
      migrate_meta_lem md src ws ks dest s
        (copy_chunks L env src (hash L env md.id) (L.range md.meta.chunks) dest)
        (copy_chunks-IsCopied L env src (hash L env md.id) (L.range md.meta.chunks) dest))

  -- `Migrate` of an object that the source has, with the files of all chunks that its metadata list, where
  -- the index of the source takes writes and has every entry under the hash of its object, to a target whose
  -- index takes writes and whose files open and take these chunks: it ends without an error, and the target
  -- has the metadata and every listed chunk whose file it can rename, with the content it had in the source,
  -- while the source has no entry of the object and of these chunks only files that cannot be removed.
  pub migrate-IsReady :
      (id : ObjectId) (md : Stored L) (src dest : DiskBucket L) (s : Store)
      → src.writes ≡ true
      → IsKeyed L env src
      → find src.index (hash L env id) ≡ some md
      → IsReady L env src (hash L env md.id) dest
      → ((i : ℕ)
          → L.contains md.meta.chunks i ≡ true
          → (b : Bytes) × (src.files (hash L env md.id) i ≡ some b))
      → (let m = migrate L env id src dest s in (m.0 ≡ true) × IsMoved md src dest m.1)
  unfolding migrate
  migrate-IsReady id md src dest s ws ks found r h = simp found (
      let k = hash L env md.id in
      let is = L.range md.meta.chunks in
      meta_moved md src ws ks dest s (copy_chunks L env src k is dest)
        (copy_chunks-IsCopied L env src k is dest)
        (copy_chunks-IsReady L env src k is dest r
          (λ i g. h i (sym (L.has-range md.meta.chunks i) ∙ g))))
