-- ===== src/Variants/Tests.antt =====
-- A page in two languages, runs of the processor, and the theorems applied.
use tavern.Prelude.{
  ◌≡◌, inl, refl, sym, ap, Bool, true, false, Option, none, some, List, [], ◌∷◌, arith,
}
use tavern.Prelude.Text.{Bytes, codes, bytes_eq, split, trim_space, trim_left, trim_right}
use tavern.Metadata.Object.{flag_vary_index}
use tavern.Storage.Disk.{ObjectId}
use tavern.VaryControl.{
  clean, le_text, insert_text, trimmed_keys, canonical, compact, compare, vary_data, sort_value,
  sort_values, join_comma,
}
use tavern.Variants.{
  VaryMetadata, Request, Response, VaryBucket, VaryState, lookup_variant, upgrade, new_object_id,
  handle_response_vary, convert_vary_metadata, post_request,
}
use tavern.Variants.Limit.{IsLimited, post_request-IsLimited}
use tavern.Variants.Found.{post_request-lookup_variant}

abbrev page : ObjectId
page = record { path = codes "p"; ext = [] }

abbrev metadata_of : ObjectId → List Bytes → VaryMetadata
metadata_of id vary = record {
  flags = 0;
  id = id;
  block_size = 10;
  chunks = [];
  code = 200;
  size = 5;
  resp_unix = 1;
  last_ref_unix = 1;
  expires_at = 9;
  vary = vary;
  virtual_key = [];
}

abbrev found_at : Bool → ObjectId → Option VaryMetadata
found_at true id = some (metadata_of id [])
found_at false id = none

-- a bucket that has some ids
abbrev ids : VaryBucket (ObjectId → Bool)
ids = record { lookup = λ b id. (found_at (b id) id, b); discard = λ b id. b }

found_id : (b : Bool) (id : ObjectId) (vmd : VaryMetadata) → found_at b id ≡ some vmd → vmd.id ≡ id
found_id true id vmd h = sym (ap {B = ObjectId} (λ o. elim o [ none ↦ id | some v ↦ v.id ]) h)
found_id false id vmd h = cc h

abbrev state : List Bytes → VaryState (ObjectId → Bool)
state vary = record {
  bucket = λ id. false;
  md = metadata_of page vary;
  rootmd = none;
  id = page;
  has_no_cache = false;
  include_query = true;
}

-- each header has the value x
abbrev request : Request
request = record { headers = λ k. codes "x" ∷ []; url = codes "p"; url_path = codes "p" }

abbrev response : Response
response = record { code = 200; vary = codes "B" ∷ []; content_length = 5; object_size = 5 }

abbrev made : VaryState (ObjectId → Bool)
made = post_request ids 2 7 (state []) request response

abbrev made_root : VaryMetadata
made_root = record (metadata_of page []) {
  flags = flag_vary_index;
  size = 0;
  vary = codes "B" ∷ [];
  virtual_key = codes "B=x" ∷ [];
}

made_has_root : made.rootmd ≡ some made_root
unfolding post_request convert_vary_metadata handle_response_vary upgrade new_object_id clean
    compact canonical trimmed_keys split trim_space trim_left trim_right insert_text le_text
    bytes_eq vary_data sort_values sort_value join_comma
made_has_root = refl

no_keys : clean [] ≡ []
unfolding clean compact
no_keys = refl

post_request-lookup_variant_example :
    (made_root.flags ≡ flag_vary_index)
    × (lookup_variant ids (record (state []) { md = made_root; bucket = λ id. true }) request
        ≡ ids.lookup (λ id. true) made.id)
post_request-lookup_variant_example =
    post_request-lookup_variant ids 2 7 request response (λ b id. found_id (b id) id) (state [])
      made_root (λ id. true) refl refl (inl no_keys) made_has_root

post_request-IsLimited_example :
    IsLimited ids 2 7 (post_request ids 2 7 (state []) request response)
post_request-IsLimited_example =
    post_request-IsLimited ids 2 7 (state []) request response (omega arith) refl

-- Where the origin changes `Vary`, the variant stands under the data of the new keys, and is looked for under
-- those of the old and the new ones.
abbrev changed : VaryState (ObjectId → Bool)
changed = post_request ids 2 7 (state (codes "A" ∷ [])) request response

changed_not_found :
    (changed.id.ext ≡ codes "B=x")
    × (vary_data (clean (codes "A" ∷ codes "B" ∷ [])) request.headers ≡ codes "A=x&B=x")
unfolding post_request convert_vary_metadata handle_response_vary upgrade new_object_id clean
    compact compare canonical trimmed_keys split trim_space trim_left trim_right insert_text le_text
    bytes_eq vary_data sort_values sort_value join_comma
changed_not_found = (refl, refl)

-- The data of a variant with two values are listed as two keys, so that no key names the variant.
comma_split : clean (codes "B=x,y" ∷ []) ≡ codes "B=x" ∷ codes "y" ∷ []
unfolding clean compact canonical trimmed_keys split trim_space trim_left trim_right insert_text
    le_text bytes_eq
comma_split = refl
