-- ===== src/Variants.antt =====
-- server/middleware/caching/caching_vary.go: the variants of an object. The metadata that the processor reads
-- and writes are a record, of whose headers the values of `Vary` are kept; `caching.req` and the request of
-- the processor are the same. The bucket is an interface.
use tavern.Prelude.{
  ℕ, ◌+◌, ◌≡◌, Bool, true, false, not, ◌&&◌, ◌||◌, Option, none, some, List, [], ◌∷◌, ◌++◌,
  if◌then◌else◌, length, ltb, leb, ◌==◌,
}
use Prim.Native.Nat.{bit_and}
use tavern.Prelude.Text.{Bytes, bytes_eq}
use tavern.Metadata.Object.{flag_vary_index, flag_vary_cache}
use tavern.Storage.Disk.{ObjectId, new_virtual_id}
use tavern.VaryControl.{clean, compare, elem, vary_data}
pub mod Limit
pub mod Found
mod Tests

pub record VaryMetadata : Type 0 where
  pub flags : ℕ
  pub id : ObjectId
  pub block_size : ℕ
  pub chunks : List ℕ
  pub code : ℕ
  pub size : ℕ
  pub resp_unix : ℕ
  pub last_ref_unix : ℕ
  pub expires_at : ℕ
  pub vary : List Bytes
  pub virtual_key : List Bytes

-- the request: its headers, and its URL with and without the query
pub record Request : Type 0 where
  pub headers : Bytes → List Bytes
  pub url : Bytes
  pub url_path : Bytes

-- the response: `Content-Length` as `Atoi` reads it, and the size that `ParseContentRange` gives
pub record Response : Type 0 where
  pub code : ℕ
  pub vary : List Bytes
  pub content_length : ℕ
  pub object_size : ℕ

-- what the processor uses of a bucket in the state B; errors of a lookup give no metadata
pub record VaryBucket (B : Type 0) : Type 0 where
  pub lookup : B → ObjectId → Option VaryMetadata × B
  pub discard : B → ObjectId → B

-- the fields of `Caching`
pub record VaryState (B : Type 0) : Type 0 where
  pub bucket : B
  pub md : VaryMetadata
  pub rootmd : Option VaryMetadata
  pub id : ObjectId
  pub has_no_cache : Bool
  pub include_query : Bool

pub data VaryError : Type 0 where
  header_no_match_vary_key header_no_match_vary_data : VaryError
  vary_size_limited vary_downgrade_normal : VaryError

pub data Converted : Type 0 where
  metadata : VaryMetadata → Converted
  error : VaryError → Converted

-- `newObjectIDFromRequest`
unfoldable pub new_object_id : Request → Bytes → Bool → ObjectId
new_object_id req vd include_query =
    if include_query then new_virtual_id req.url vd else new_virtual_id req.url_path vd

module _ {B : Type 0} (ops : VaryBucket B) where
  abbrev pub lookup_id : VaryState B → Request → List Bytes → ObjectId
  lookup_id c req ks = new_object_id req (vary_data ks req.headers) c.include_query

  -- `lookup`: the id that is asked for is that of the keys of the object and the headers of the request
  unfoldable pub lookup_variant : VaryState B → Request → Option VaryMetadata × B
  lookup_variant c req = ops.lookup c.bucket (lookup_id c req (clean c.md.vary))

  abbrev pub looked : VaryState B → Option VaryMetadata × B → Bool × VaryState B
  looked c (none, b) = (false, record c { bucket = b })
  looked c (some vmd, b) =
      (true, record c { bucket = b; rootmd = some c.md; id = vmd.id; md = vmd })

  -- `Lookup`
  unfoldable pub lookup : VaryState B → Request → Bool × VaryState B
  lookup c req =
      if c.has_no_cache
      then (false, c)
      else if not (c.md.flags == flag_vary_index)
      then (true, c)
      else looked c (lookup_variant c req)

  abbrev pub with_key : VaryState B → List Bytes → VaryState B
  with_key c ks = record c { md = record c.md { virtual_key = ks } }

  abbrev pub discard_id : VaryState B → VaryState B
  discard_id c = record c { bucket = ops.discard c.bucket c.id }

  -- the metadata of a variant for a response without `Vary`
  abbrev pub plain_variant : ℕ → VaryState B → Request → Response → Bytes → VaryMetadata
  plain_variant now c req resp data_of = record {
    flags = flag_vary_cache;
    id = new_object_id req data_of c.include_query;
    block_size = c.md.block_size;
    chunks = [];
    code = resp.code;
    size = resp.content_length;
    resp_unix = now;
    last_ref_unix = 0;
    expires_at = c.md.expires_at;
    vary = resp.vary;
    virtual_key = [];
  }

  -- `handleNoResponseVary`
  unfoldable pub handle_no_response_vary :
      ℕ → ℕ → VaryState B → Request → Response → List Bytes → Converted × VaryState B
  handle_no_response_vary max_limit now c req resp [] = (error header_no_match_vary_key, c)
  handle_no_response_vary max_limit now c req resp (k ∷ ks) =
      let data_of = vary_data (k ∷ ks) req.headers in
      if bytes_eq data_of []
      then (error header_no_match_vary_data, record (discard_id c) { rootmd = none })
      else if leb max_limit (length c.md.virtual_key)
      then (error vary_size_limited, c)
      else (
        metadata (plain_variant now c req resp data_of),
        (if elem data_of c.md.virtual_key
            then c
            else with_key c (c.md.virtual_key ++ data_of ∷ [])),
      )

  -- `upgrade`
  unfoldable pub upgrade :
      ℕ → ℕ → VaryState B → Response → ObjectId → Bytes → Converted × VaryState B
  upgrade max_limit now c resp id data_of =
      let keys = clean (c.md.virtual_key ++ data_of ∷ []) in
      if ltb max_limit (length keys) then (error vary_size_limited, c) else (
        metadata record {
          flags = flag_vary_cache;
          id = id;
          block_size = c.md.block_size;
          chunks = [];
          code = resp.code;
          size = resp.object_size;
          resp_unix = now;
          last_ref_unix = now;
          expires_at = c.md.expires_at;
          vary = clean (resp.vary ++ c.md.vary);
          virtual_key = [];
        },
        record c { md = record c.md { virtual_key = keys; id = id; flags = flag_vary_index } },
      )

  -- a new variant, under the data of the request for the keys
  abbrev pub new_variant :
      ℕ → ℕ → VaryState B → Request → Response → List Bytes → Converted × VaryState B
  new_variant max_limit now c req resp ks =
      upgrade max_limit now c resp (lookup_id c req ks) (vary_data ks req.headers)

  abbrev pub found_variant :
      ℕ
      → ℕ
      → VaryState B
      → Request
      → Response
      → List Bytes
      → Option VaryMetadata × B
      → Converted × VaryState B
  found_variant max_limit now c req resp ks (none, b) =
      new_variant max_limit now (record c { bucket = b }) req resp ks
  found_variant max_limit now c req resp ks (some vmd, b) = (metadata vmd, record c { bucket = b })

  -- `handleResponseVary`, for keys of the response that are not empty
  unfoldable pub handle_response_vary :
      ℕ → ℕ → VaryState B → Request → Response → List Bytes → List Bytes → Converted × VaryState B
  handle_response_vary max_limit now c req resp [] resp_keys =
      let d = if ltb 0 (length c.md.chunks) then discard_id c else c in
      new_variant max_limit now (with_key d []) req resp resp_keys
  handle_response_vary max_limit now c req resp (k ∷ ks) resp_keys =
      if compare (k ∷ ks) resp_keys
      then found_variant max_limit now c req resp (k ∷ ks)
          (ops.lookup c.bucket (lookup_id c req (k ∷ ks)))
      else new_variant max_limit now (with_key (discard_id c) []) req resp resp_keys

  -- `convertVaryMetadata`
  abbrev pub convert_keys :
      ℕ → ℕ → VaryState B → Request → Response → List Bytes → List Bytes → Converted × VaryState B
  convert_keys max_limit now c req resp meta_keys [] =
      handle_no_response_vary max_limit now c req resp meta_keys
  convert_keys max_limit now c req resp meta_keys (r ∷ rs) =
      handle_response_vary max_limit now c req resp meta_keys (r ∷ rs)

  unfoldable pub convert_vary_metadata :
      ℕ → ℕ → VaryState B → Request → Response → Converted × VaryState B
  convert_vary_metadata max_limit now c req resp =
      convert_keys max_limit now c req resp (clean c.md.vary) (clean resp.vary)

  -- the index of the variants, and the variant with the times of the index
  abbrev pub root_of : VaryState B → Response → VaryMetadata
  root_of c resp = record c.md {
    id = c.id;
    size = 0;
    flags = flag_vary_index;
    chunks = [];
    vary = clean (c.md.vary ++ resp.vary);
  }

  abbrev pub with_times : VaryMetadata → VaryMetadata → VaryMetadata
  with_times root vmd = record vmd {
    resp_unix = root.resp_unix;
    last_ref_unix = root.last_ref_unix;
    expires_at = root.expires_at;
  }

  abbrev pub after_convert : Response → Converted × VaryState B → VaryState B
  after_convert resp (error e, c) = c
  after_convert resp (metadata vmd, c) = record c {
    rootmd = some (root_of c resp);
    md = with_times (root_of c resp) vmd;
    id = vmd.id;
  }

  -- `PostRequest`, which gives the response as it is
  unfoldable pub post_request : ℕ → ℕ → VaryState B → Request → Response → VaryState B
  post_request max_limit now c req resp =
      if ltb 0 (bit_and c.md.flags flag_vary_cache)
      then c
      else after_convert resp (convert_vary_metadata max_limit now c req resp)
