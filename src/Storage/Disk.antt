-- ===== src/Storage/Disk.antt =====
-- storage/bucket/disk/disk.go: the operations of a bucket. Its files are named by the hash of the object
-- and the number of the chunk. pebble's writes of the index succeed or not (`writes`); the shared store
-- is that of SharedKv. Log lines and counters of metrics are left out, and so are the goroutines: what
-- they run is an operation of its own.
use tavern.Prelude.{
  ℕ, zero, suc, ◌+◌, Bool, true, false, ◌&&◌, Option, none, some, List, [], ◌∷◌, ◌++◌,
  if◌then◌else◌, length, take, ◌==◌,
}
use tavern.Prelude.Text.{Bytes, codes, bytes_eq}
use tavern.Iobuf.Bitmap.{BitmapLib}
use tavern.Metadata.Object.{Metadata, is_vary}
use tavern.Lru.Cache.{Cache}
use tavern.Lru.Cache as Lru
use tavern.SharedKv.Counter.{Store, Counted, counted, error, panic, incr, decr}
use tavern.SharedKv.Counter as Kv
use tavern.Storage.Mark.{new_mark}
use tavern.Storage.Index.{find, put, erase}

-- `object.ID`; the hash is that of the library, of the path and the extension one after the other
pub record ObjectId : Type 0 where
  pub path : Bytes
  pub ext : Bytes

-- `Key`
abbrev pub key : ObjectId → Bytes
key id = id.path ++ id.ext

abbrev pub new_virtual_id : Bytes → Bytes → ObjectId
new_virtual_id path ext = record { path = path; ext = ext }

-- the metadata of a stored object, with what the bucket reads of it beside
pub record Stored (L : BitmapLib) : Type 0 where
  pub id : ObjectId
  pub meta : Metadata L
  pub last_ref_unix : ℕ
  pub refs : ℕ
  pub expires_at : ℕ

pub record DiskBucket (L : BitmapLib) : Type 0 where
  pub path : Bytes
  pub index : List (Bytes × Stored L)
  pub writes : Bool
  pub files : Bytes → ℕ → Option Bytes
  -- whether the files of a chunk can be opened for writing, and how many bytes they take
  pub opens : ℕ → Bool
  pub accepts : ℕ → ℕ
  -- whether `Close` of a chunk that was written gives the file its name, and whether a file can be removed
  pub renames : ℕ → Bool
  pub removes : Bytes → ℕ → Bool
  pub cache : Cache Bytes ℕ

-- what the library computes: hashes of ids, and the host of a URL, if it can be parsed
pub record Env : Type 0 where
  pub sha1 : Bytes → Bytes
  pub host : Bytes → Option Bytes

module _ (L : BitmapLib) (env : Env) where
  abbrev pub hash : ObjectId → Bytes
  hash id = env.sha1 (key id)

  -- the bucket, and the store that all buckets share
  abbrev pub World : Type 0
  World = DiskBucket L × Store

  -- the keys in the shared store: the inverted index of a directory, and the counter of a domain
  abbrev pub ix_key : DiskBucket L → ObjectId → Bytes
  ix_key d id = codes "ix/" ++ (d.path ++ b'/' ∷ key id)

  abbrev pub domain_key : Bytes → Bytes
  domain_key host = codes "if/domain/" ++ host

  -- A panic on a counter of less than four bytes does not come up: domains are counted by these two alone.
  abbrev pub kv_after : Store → Counted → Store
  kv_after s (counted n s') = s'
  kv_after s error = s
  kv_after s panic = s

  abbrev pub kv_delete : Store → Bytes → Store
  kv_delete s k =
      if s.writes
      then record {
        get = λ j. if bytes_eq j k then Kv.Got.not_found else s.get j;
        writes = s.writes;
      }
      else s

  abbrev pub kv_set : Store → Bytes → Bytes → Store
  kv_set s k v = if s.writes then Kv.put s k v else s

  abbrev pub count_domain : (Store → Bytes → ℕ → Counted) → Option Bytes → Store → Store
  count_domain f none s = s
  count_domain f (some host) s = kv_after s (f s (domain_key host) 1)

  -- `indexdb.Delete`; its error is logged
  abbrev pub drop_index : Bytes → DiskBucket L → DiskBucket L
  drop_index k d = if d.writes then record d { index = erase d.index k } else d

  -- the files of the chunks; an error of `os.Remove` is logged, and the file stays
  abbrev pub remove_chunks : Stored L → DiskBucket L → DiskBucket L
  remove_chunks md d = record d {
    files = λ k i.
        if bytes_eq k (hash md.id) && (L.contains md.meta.chunks i && d.removes k i)
        then none
        else d.files k i;
  }

  -- the end of `discard`: the chunk files, the inverted index and the counter of the domain
  abbrev pub remove_files : Stored L → World → World
  remove_files md (d, s) =
      (remove_chunks md d, count_domain decr (env.host md.id.path) (kv_delete s (ix_key d md.id)))

  -- `Discard` of a variant within `discard`; its error is dropped
  abbrev pub discard_found :
      (Stored L → World → Option World) → Option (Stored L) → World → Option World
  discard_found again none w = some w
  discard_found again (some md) w = again md w

  abbrev pub then_files : (World → Option World) → Option World → Option World
  then_files f none = none
  then_files f (some w) = f w

  -- the loop over the variants
  abbrev pub discard_variants :
      (Stored L → World → Option World) → Stored L → List Bytes → World → Option World
  discard_variants again md [] w = some w
  discard_variants again md (v ∷ vs) (d, s) =
      let oid = new_virtual_id md.id.path v in
      then_files (discard_variants again md vs) (
        if bytes_eq (hash oid) (hash md.id)
        then some (d, s)
        else discard_found again (find d.index (hash oid)) (d, s))

  abbrev pub after_variants : Stored L → Option World → Option World
  after_variants md none = none
  after_variants md (some w) = some (remove_files md w)

  -- `discard` of metadata, with the depth of the calls of itself that are left; without it the call has not
  -- ended, which is no result
  unfoldable pub discard : ℕ → Stored L → World → Option World
  discard zero md w = none
  discard (suc depth) md (d, s) = after_variants md (
      discard_variants (discard depth) md (if is_vary L md.meta then md.meta.virtual_key else [])
        (drop_index (hash md.id) d, s))

  abbrev pub has_result : Option World → Bool
  has_result none = false
  has_result (some w) = true

  abbrev pub discard_or : Option (Stored L) → World → Bool × Option World
  discard_or none w = (false, some w)
  discard_or (some md) (d, s) = let r = discard (length d.index + 1) md (d, s) in (has_result r, r)

  -- `Discard`, `DiscardWithMessage`, `DiscardWithMetadata` and `DiscardWithHash`: whether they have ended without an
  -- error (an object that is not there is one)
  unfoldable pub discard_hash : Bytes → World → Bool × Option World
  discard_hash k (d, s) = discard_or (find d.index k) (d, s)

  abbrev pub in_cache : DiskBucket L → Bytes → Bool
  in_cache d k = elim (Lru.lookup bytes_eq d.cache.values k) [ none ↦ false | some e ↦ true ]

  -- `Store`: whether the index was written, and the bucket and the shared store
  unfoldable pub store : Stored L → World → Bool × World
  store md (d, s) =
      let k = hash md.id in
      let c =
        if in_cache d k
        then d.cache
        else Lru.set bytes_eq d.cache k (new_mark md.last_ref_unix md.refs) in
      let e = record d { cache = c } in
      if d.writes
      then (
        true,
        (
          record e { index = put d.index k md },
          kv_set (count_domain incr (env.host md.id.path) s) (ix_key d md.id) (hash md.id),
        ),
      )
      else (false, (e, s))

  -- `WriteChunkFile`, a copy of the content and the deferred `Close`: whether the first two give no error. The
  -- error of `Close` is dropped; the chunk is then not there under its name.
  unfoldable pub write_chunk : Bytes → ℕ → Bytes → DiskBucket L → Bool × DiskBucket L
  write_chunk k i b d =
      if d.opens i
      then (
        length (take (d.accepts i) b) == length b,
        record d {
          files = λ j m.
              if bytes_eq j k && (i == m && d.renames i)
              then some (take (d.accepts i) b)
              else d.files j m;
        },
      )
      else (false, d)

  abbrev pub copy_rest :
      (DiskBucket L → Bool × DiskBucket L) → Bool × DiskBucket L → Bool × DiskBucket L
  copy_rest rest (true, dest) = rest dest
  copy_rest rest (false, dest) = (false, dest)

  -- the loop of `Migrate` over the chunks: they are read from the source and written to the other bucket
  unfoldable pub copy_chunks : DiskBucket L → Bytes → List ℕ → DiskBucket L → Bool × DiskBucket L
  copy_chunks src k [] dest = (true, dest)
  copy_chunks src k (i ∷ is) dest = elim (src.files k i) [
    | none ↦ (false, dest)
    | some b ↦ copy_rest (copy_chunks src k is) (write_chunk k i b dest)
  ]

  -- a discard that has ended gives no error; one that has not gives no result
  abbrev pub with_dest :
      DiskBucket L → Option World → Bool × Option (DiskBucket L × DiskBucket L × Store)
  with_dest dest none = (false, none)
  with_dest dest (some (src, s)) = (true, some (src, dest, s))

  -- the end of `Migrate`: the metadata are stored in the target, and the object is discarded in the source
  abbrev pub migrate_drop :
      Stored L → DiskBucket L → Bool × World → Bool × Option (DiskBucket L × DiskBucket L × Store)
  migrate_drop md src (false, (dest, s)) = (false, some (src, dest, s))
  migrate_drop md src (true, (dest, s)) =
      with_dest dest (discard (length src.index + 1) md (src, s))

  abbrev pub migrate_meta :
      Stored L
      → DiskBucket L
      → Store
      → Bool × DiskBucket L
      → Bool × Option (DiskBucket L × DiskBucket L × Store)
  migrate_meta md src s (false, dest) = (false, some (src, dest, s))
  migrate_meta md src s (true, dest) = migrate_drop md src (store md (dest, s))

  abbrev pub migrate_found :
      Option (Stored L)
      → DiskBucket L
      → DiskBucket L
      → Store
      → Bool × Option (DiskBucket L × DiskBucket L × Store)
  migrate_found none src dest s = (false, some (src, dest, s))
  migrate_found (some md) src dest s =
      migrate_meta md src s (copy_chunks src (hash md.id) (L.range md.meta.chunks) dest)

  -- `Migrate`: whether it has ended without an error, the source, the target and the shared store
  unfoldable pub migrate :
      ObjectId
      → DiskBucket L
      → DiskBucket L
      → Store
      → Bool × Option (DiskBucket L × DiskBucket L × Store)
  migrate id src dest s = migrate_found (find src.index (hash id)) src dest s
