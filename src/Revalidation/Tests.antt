-- ===== src/Revalidation/Tests.antt =====
-- An object that has expired, its answers, and the theorems applied.
use tavern.Prelude.{
  ℕ, ◌+◌, ◌*◌, ◌≡◌, ◌≢◌, ◌≤◌, refl, Bool, true, false, none, some, [], ◌∷◌, if◌then◌else◌,
}
use tavern.Prelude.Text.{codes, bytes_eq}
use tavern.Iobuf.Bitmap.{lists, sort}
use tavern.Metadata.Object.{has_complete}
use tavern.Storage.Disk.{ObjectId}
use tavern.Revalidation.{
  CachedObject, RevalidateBucket, RevalidateState, other_status, FuzzyRefresh, Revalidated,
  pass_response, second, etag, is_expired, can_revalidate, has_condition_header, renew, answer_of,
  lookup_fresh, post_request_revalidated, calculate_soft_ttl, should_trigger_fuzzy_refresh,
}
use tavern.Revalidation.Fresh.{IsExpiring, lookup_fresh_lem}
use tavern.Revalidation.Renewed.{post_request_revalidated-lookup_fresh}

abbrev page : ObjectId
page = record { path = codes "p"; ext = [] }

abbrev cached : CachedObject lists
cached = record {
  id = page;
  meta = record { flags = 0; block_size = 10; chunks = 0 ∷ 1 ∷ []; size = 15; virtual_key = [] };
  code = 200;
  resp_unix = 100;
  last_ref_unix = 100;
  expires_at = 200;
  headers = λ k. if bytes_eq k etag then codes "v1" ∷ [] else [];
}

-- a bucket that counts what is stored
abbrev counting : RevalidateBucket lists ℕ
counting = record { discard = λ n id. n; store = λ n md. n + 1 }

abbrev state : RevalidateState lists ℕ
state = record {
  bucket = 0;
  id = page;
  md = some cached;
  revalidate = false;
  is_cacheable = false;
  status = other_status;
}

abbrev fuzzy : FuzzyRefresh
fuzzy = record { enabled = true; part = λ n. 80 }

abbrev draws : ℕ → ℕ → Bool
draws a b = true

abbrev answer : Revalidated
answer = record { status_code = 304; headers = λ k. []; cache_time = some (50 * second) }

cached-expired : is_expired lists cached (201 * second) ≡ true
unfolding is_expired
cached-expired = refl

cached-can_revalidate : can_revalidate lists cached ≡ true
unfolding has_complete has_condition_header sort bytes_eq
cached-can_revalidate = refl

-- Between the soft and the hard time of expiry the object is served, and a refresh is started.
refresh_started :
    (let r = lookup_fresh lists counting fuzzy draws (190 * second) state in
      (r.hit ≡ true) × (r.refreshes ≡ true))
unfolding lookup_fresh calculate_soft_ttl should_trigger_fuzzy_refresh has_complete
    has_condition_header sort bytes_eq
refresh_started = (refl, refl)

lookup_fresh_lem_example :
    (let r = lookup_fresh lists counting fuzzy draws (201 * second) state in
      (is_expired lists cached (201 * second) ≡ false → (r.hit ≡ true) × (r.state ≡ state))
      × (is_expired lists cached (201 * second) ≡ true
          → (r.hit ≡ false)
            × (r.refreshes ≡ false)
            × IsExpiring lists counting state cached r.state))
lookup_fresh_lem_example =
    lookup_fresh_lem lists counting fuzzy draws (201 * second) state cached refl

post_request_revalidated-lookup_fresh_example :
    (let d = (lookup_fresh lists counting fuzzy draws (201 * second) state).state in
      let r = post_request_revalidated lists counting (202 * second) d none answer in
      (answer.status_code ≡ 304
        → (duration : ℕ) → answer.cache_time ≡ some duration
        → 230 * second + second ≤ 202 * second + duration + 1
        → (r.0 ≡ answer_of lists counting none 15)
          × (r.1.bucket
              ≡ counting.store 0
                  (renew lists counting (202 * second) answer.headers duration cached))
          × ((renew lists counting (202 * second) answer.headers duration cached).meta
              ≡ cached.meta)
          × ((lookup_fresh lists counting fuzzy draws (230 * second) r.1).hit ≡ true))
      × (answer.status_code ≢ 304 → (r.0 ≡ pass_response) × (r.1.bucket ≡ counting.discard 0 d.id)))
post_request_revalidated-lookup_fresh_example =
    post_request_revalidated-lookup_fresh lists counting fuzzy draws (201 * second) (202 * second)
      (230 * second) state cached none answer refl cached-expired cached-can_revalidate
