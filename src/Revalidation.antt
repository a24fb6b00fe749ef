-- ===== src/Revalidation.antt =====
-- server/middleware/caching/caching_revalidate.go: when stored metadata are fresh, and what is done with those
-- that have expired. Times are seconds since 1970, but for the clock, in nanoseconds. Headers are functions
-- from canonical names to values. What `float64` and the random numbers compute are arguments: the part of a
-- lifetime that the rate gives, and whether a number drawn is below a share of two numbers.
use tavern.Prelude.{
  ℕ, ◌+◌, ◌-◌, ◌*◌, ◌/◌, ◌≡◌, Bool, true, false, not, ◌&&◌, ◌||◌, Option, none, some, List, [], ◌∷◌,
  if◌then◌else◌, length, ltb, leb, ◌==◌,
}
use tavern.Prelude.Text.{Bytes, codes, bytes_eq}
use tavern.Iobuf.Bitmap.{BitmapLib}
use tavern.Metadata.Object.{Metadata, has_complete}
use tavern.Storage.Disk.{ObjectId}
use tavern.Prelude.Int.{ℤ, pos}
use tavern.HttpRange.{Result, ok, err, Range, single_parse}
pub mod Fresh
pub mod Renewed
mod Tests

abbrev pub Headers : Type 0
Headers = Bytes → List Bytes

-- `Get`
abbrev pub first_of : List Bytes → Bytes
first_of [] = []
first_of (v ∷ vs) = v

abbrev pub with_header : Headers → Bytes → Bytes → Headers
with_header h k v = λ j. if bytes_eq j k then v ∷ [] else h j

abbrev pub if_given : List Bytes → List Bytes → List Bytes
if_given [] old = old
if_given (v ∷ vs) old = v ∷ vs

-- `CopyHeader`
abbrev pub copy_header : Headers → Headers → Headers
copy_header dst src = λ k. if_given (src k) (dst k)

abbrev pub is_given : Headers → Bytes → Bool
is_given h k = not (bytes_eq (first_of (h k)) [])

abbrev pub etag : Bytes
etag = codes "Etag"

abbrev pub last_modified : Bytes
last_modified = codes "Last-Modified"

-- `hasConditionHeader`
unfoldable pub has_condition_header : Headers → Bool
has_condition_header h = is_given h etag || is_given h last_modified

-- the metadata of `Caching`
pub record CachedObject (L : BitmapLib) : Type 0 where
  pub id : ObjectId
  pub meta : Metadata L
  pub code : ℕ
  pub resp_unix : ℕ
  pub last_ref_unix : ℕ
  pub expires_at : ℕ
  pub headers : Headers

-- the states of `CacheStatus` that this processor sets, and any other
pub data RevalidateStatus : Type 0 where
  cache_revalidate_hit cache_revalidate_miss cache_miss other_status : RevalidateStatus

-- what the processor does with a bucket in the state B
pub record RevalidateBucket (L : BitmapLib) (B : Type 0) : Type 0 where
  pub discard : B → ObjectId → B
  pub store : B → CachedObject L → B

pub record RevalidateState (L : BitmapLib) (B : Type 0) : Type 0 where
  pub bucket : B
  pub id : ObjectId
  pub md : Option (CachedObject L)
  pub revalidate : Bool
  pub is_cacheable : Bool
  pub status : RevalidateStatus

-- the options, with the rate as the part of a lifetime that it gives
pub record FuzzyRefresh : Type 0 where
  pub enabled : Bool
  pub part : ℕ → ℕ

-- the response: `ParseCacheTime` gives a duration in nanoseconds, if it may be cached
pub record Revalidated : Type 0 where
  pub status_code : ℕ
  pub headers : Headers
  pub cache_time : Option ℕ

abbrev pub second : ℕ
second = 1000000000

-- `calculateSoftTTL`; a lifetime of less than nothing gives the time of expiry, as one of nothing does
unfoldable pub calculate_soft_ttl : FuzzyRefresh → ℕ → ℕ → ℕ
calculate_soft_ttl opt resp_unix expires_at =
    if leb expires_at resp_unix then expires_at else resp_unix + opt.part (expires_at - resp_unix)

-- `shouldTriggerFuzzyRefresh`
unfoldable pub should_trigger_fuzzy_refresh : (ℕ → ℕ → Bool) → ℕ → ℕ → ℕ → Bool
should_trigger_fuzzy_refresh draw now soft_ttl hard_ttl =
    if ltb now soft_ttl
    then false
    else if leb hard_ttl now
    then false
    else if leb hard_ttl soft_ttl
    then false
    else draw (now - soft_ttl) (hard_ttl - soft_ttl)

module _ (L : BitmapLib) where
  -- `hasExpired`
  unfoldable pub is_expired : CachedObject L → ℕ → Bool
  is_expired md clock = ltb (md.expires_at * second) clock

  abbrev pub can_revalidate : CachedObject L → Bool
  can_revalidate md = has_complete L md.meta && has_condition_header md.headers

  -- whether the clock is in the zone of the refresh in the background
  abbrev pub in_zone : FuzzyRefresh → CachedObject L → ℕ → Bool
  in_zone opt md clock =
      opt.enabled
      && (leb (calculate_soft_ttl opt md.resp_unix md.expires_at) (clock / second)
          && ltb (clock / second) md.expires_at)

  -- `Chunks.Clear`
  abbrev pub clear_chunks : CachedObject L → CachedObject L
  clear_chunks md = record md { meta = record md.meta { chunks = L.empty } }

-- What `PostRequest` gives: the response (with X-Cache set), error 416, or the answer of `lazilyRespond` for a range.
pub data RevalidateAnswer : Type 0 where
  pass_response not_satisfiable : RevalidateAnswer
  respond_range : ℤ → ℤ → RevalidateAnswer

-- what `Lookup` gives: whether it hits, and whether a refresh in the background is started
pub record LookedUp (S : Type 0) : Type 0 where
  pub hit : Bool
  pub refreshes : Bool
  pub state : S

module _ (L : BitmapLib) {B : Type 0} (ops : RevalidateBucket L B) where
  -- the metadata are dropped
  abbrev pub drop_metadata :
      RevalidateState L B → CachedObject L → RevalidateStatus → RevalidateState L B
  drop_metadata c md status = record c {
    md = some (clear_chunks L md);
    revalidate = false;
    status = status;
    bucket = ops.discard c.bucket c.id;
  }

  abbrev pub expired_lookup : RevalidateState L B → CachedObject L → RevalidateState L B
  expired_lookup c md =
      if can_revalidate L md
      then record c { revalidate = true; status = cache_revalidate_hit }
      else drop_metadata c md cache_miss

  abbrev pub lookup_metadata :
      FuzzyRefresh
      → (ℕ → ℕ → Bool)
      → ℕ
      → RevalidateState L B
      → CachedObject L
      → LookedUp (RevalidateState L B)
  lookup_metadata opt draw clock c md =
      let soft = calculate_soft_ttl opt md.resp_unix md.expires_at in
      if in_zone L opt md clock
      then record {
        hit = true;
        refreshes =
            should_trigger_fuzzy_refresh draw (clock / second) soft md.expires_at
            && can_revalidate L md;
        state = c;
      }
      else if not (is_expired L md clock)
      then record { hit = true; refreshes = false; state = c }
      else record { hit = false; refreshes = false; state = expired_lookup c md }

  abbrev pub lookup_cached :
      FuzzyRefresh
      → (ℕ → ℕ → Bool)
      → ℕ
      → RevalidateState L B
      → Option (CachedObject L)
      → LookedUp (RevalidateState L B)
  lookup_cached opt draw clock c none = record { hit = false; refreshes = false; state = c }
  lookup_cached opt draw clock c (some md) = lookup_metadata opt draw clock c md

  -- `Lookup`
  unfoldable pub lookup_fresh :
      FuzzyRefresh → (ℕ → ℕ → Bool) → ℕ → RevalidateState L B → LookedUp (RevalidateState L B)
  lookup_fresh opt draw clock c = lookup_cached opt draw clock c c.md

  abbrev pub condition_headers : Headers → Headers → Headers
  condition_headers stored h =
      let e =
        if is_given stored etag
        then with_header h (codes "If-None-Match") (first_of (stored etag))
        else h in
      if is_given stored last_modified
      then with_header e (codes "If-Modified-Since") (first_of (stored last_modified))
      else e

  -- `PreRequest` for metadata: the headers of the request, the `Range` header that is kept for the response,
  -- and the state
  abbrev pub pre_request_for :
      RevalidateState L B → Headers → CachedObject L → Headers × Option Bytes × RevalidateState L B
  pre_request_for c h md =
      let conditional = condition_headers md.headers h in
      if has_condition_header md.headers || leb 300 md.code
      then (
        conditional,
        (if is_given conditional (codes "Range")
            then some (first_of (conditional (codes "Range")))
            else none),
        c,
      )
      else (
        conditional,
        none,
        record c { md = some (clear_chunks L md); bucket = ops.discard c.bucket c.id },
      )

  -- `PreRequest`; a state that revalidates has metadata
  unfoldable pub pre_request_conditional :
      RevalidateState L B → Headers → Headers × Option Bytes × RevalidateState L B
  pre_request_conditional c h = elim c.md [
    | none ↦ (h, none, c)
    | some md ↦ if c.revalidate then pre_request_for c h md else (h, none, c)
  ]

  abbrev pub renew : ℕ → Headers → ℕ → CachedObject L → CachedObject L
  renew clock h duration md = record md {
    expires_at = (clock + duration) / second;
    resp_unix = clock / second;
    last_ref_unix = clock / second;
    headers = copy_header md.headers h;
  }

  -- `freshness`: the metadata with the times and headers of the response, if it may be cached
  unfoldable pub freshness :
      ℕ → RevalidateState L B → CachedObject L → Revalidated → RevalidateState L B
  freshness clock c md resp = elim resp.cache_time [
    | none ↦ c
    | some duration ↦
        let new = renew clock resp.headers duration md in
        record c { is_cacheable = true; md = some new; bucket = ops.store c.bucket new }
  ]

  abbrev pub range_answer : Result Range → RevalidateAnswer
  range_answer (ok r) = respond_range r.start r.end
  range_answer (err e) = not_satisfiable

  -- the range that `lazilyRespond` is asked for: that of the `Range` header, else all
  unfoldable pub answer_of : Option Bytes → ℕ → RevalidateAnswer
  answer_of none size = respond_range (pos 0) (pos (if ltb 0 size then size - 1 else 0))
  answer_of (some raw) size = range_answer (single_parse raw size)

  -- `revalidate`
  abbrev pub revalidate_with :
      ℕ
      → RevalidateState L B
      → CachedObject L
      → Option Bytes
      → Revalidated
      → RevalidateAnswer × RevalidateState L B
  revalidate_with clock c md raw resp =
      if not (resp.status_code == 304)
      then (
        pass_response,
        record c {
          status = cache_revalidate_miss;
          md = some (clear_chunks L md);
          bucket = ops.discard c.bucket c.id;
        },
      )
      else (answer_of raw md.meta.size, freshness clock c md resp)

  -- `PostRequest`, with the `Range` header that was kept
  unfoldable pub post_request_revalidated :
      ℕ → RevalidateState L B → Option Bytes → Revalidated → RevalidateAnswer × RevalidateState L B
  post_request_revalidated clock c raw resp = elim c.md [
    | none ↦ (pass_response, c)
    | some md ↦
        if c.revalidate
        then revalidate_with clock (record c { revalidate = false }) md raw resp
        else (pass_response, c)
  ]
