-- ===== src/Revalidation/Renewed.antt =====
-- An expired object, from its lookup over the answer of the origin to a later lookup
-- (server/middleware/caching/caching_revalidate.go).
use tavern.Prelude.{
  ℕ, ◌+◌, ◌≡◌, ◌≤◌, ◌≢◌, refl, sym, ap, subst, ◌∙◌, Bool, true, false, Option, none, some, List,
  arith, if◌then◌else◌, ◌==◌, ==_iff,
}
use tavern.Prelude.Text.{Bytes}
use tavern.Iobuf.Bitmap.{BitmapLib}
use tavern.Revalidation.{
  CachedObject, RevalidateBucket, RevalidateState, FuzzyRefresh, Revalidated, RevalidateAnswer,
  pass_response, second, is_expired, can_revalidate, clear_chunks, renew, freshness, answer_of,
  revalidate_with, lookup_fresh, post_request_revalidated,
}
use tavern.Revalidation.Fresh.{lookup_fresh_lem}

module _ (L : BitmapLib) {B : Type 0} (ops : RevalidateBucket L B) where
  renewed_fresh :
      (md : CachedObject L) (h : Bytes → List Bytes) (clock duration later : ℕ)
      → later + second ≤ clock + duration + 1
      → is_expired L (renew L ops clock h duration md) later ≡ false
  unfolding is_expired
  renewed_fresh md h clock duration later e = ground (arith, e)

  -- What the answer of the origin has done to the state of a request that revalidates.
  pub record IsAnswered (c : RevalidateState L B) (md : CachedObject L) (clock : ℕ)
      (raw : Option Bytes) (resp : Revalidated) (r : RevalidateAnswer × RevalidateState L B)
      : Type 0 where
    pub renewed :
        resp.status_code ≡ 304
        → (duration : ℕ) → resp.cache_time ≡ some duration
        → (r.0 ≡ answer_of L ops raw md.meta.size)
          × (r.1.md ≡ some (renew L ops clock resp.headers duration md))
          × (r.1.bucket ≡ ops.store c.bucket (renew L ops clock resp.headers duration md))
    pub uncacheable :
        resp.status_code ≡ 304
        → resp.cache_time ≡ none
        → (r.0 ≡ answer_of L ops raw md.meta.size) × (r.1.md ≡ c.md) × (r.1.bucket ≡ c.bucket)
    pub changed :
        resp.status_code ≢ 304
        → (r.0 ≡ pass_response)
          × (r.1.md ≡ some (clear_chunks L md))
          × (r.1.bucket ≡ ops.discard c.bucket c.id)

  same_code : (n : ℕ) → n ≡ 304 → (n == 304) ≡ true
  same_code n e = (==_iff n 304).1 e

  revalidate-IsAnswered :
      (clock : ℕ) (c : RevalidateState L B) (md : CachedObject L) (raw : Option Bytes)
      (resp : Revalidated) (same : Bool)
      → (resp.status_code == 304) ≡ same
      → IsAnswered c md clock raw resp (revalidate_with L ops clock c md raw resp)
  unfolding freshness
  revalidate-IsAnswered clock c md raw resp true e = rw e record {
    renewed = λ h d f. rw f (refl, refl, refl);
    uncacheable = λ h f. rw f (refl, refl, refl);
    changed = λ h. absurd (h ((==_iff resp.status_code 304).0 e));
  }
  revalidate-IsAnswered clock c md raw resp false e = rw e record {
    renewed = λ h d f. absurd (cc (same_code resp.status_code h, e));
    uncacheable = λ h f. absurd (cc (same_code resp.status_code h, e));
    changed = λ h. (refl, refl, refl);
  }

  post_request-IsAnswered :
      (clock : ℕ) (c : RevalidateState L B) (md : CachedObject L) (raw : Option Bytes)
      (resp : Revalidated)
      → c.md ≡ some md
      → c.revalidate ≡ true
      → IsAnswered
          (record c { revalidate = false })
          md
          clock
          raw
          resp
          (post_request_revalidated L ops clock c raw resp)
  unfolding post_request_revalidated
  post_request-IsAnswered clock c md raw resp e f =
      subst
        (λ o.
          IsAnswered (record c { revalidate = false }) md clock raw resp
            (elim o [
              | none ↦ (pass_response, c)
              | some md ↦
                  if c.revalidate
                  then revalidate_with L ops clock (record c { revalidate = false }) md raw resp
                  else (pass_response, c)
            ]))
        (sym e)
        (subst
          (λ b.
            IsAnswered (record c { revalidate = false }) md clock raw resp
              (if b
                then revalidate_with L ops clock (record c { revalidate = false }) md raw resp
                else (pass_response, c)))
          (sym f)
          (revalidate-IsAnswered clock (record c { revalidate = false }) md raw resp
            (resp.status_code == 304) refl))

  -- An object that has expired, is complete and has an ETag or Last-Modified header: after its `Lookup`, an answer
  -- 304 of the origin that may be cached is answered with the range that was asked for, and the object is stored
  -- with all its chunks; a `Lookup` up to a second before the new lifetime has passed then hits. Any answer but 304
  -- is passed on, and the object is discarded.
  pub post_request_revalidated-lookup_fresh :
      (opt : FuzzyRefresh) (draw : ℕ → ℕ → Bool) (clock back later : ℕ) (c : RevalidateState L B)
      (md : CachedObject L) (raw : Option Bytes) (resp : Revalidated)
      → c.md ≡ some md
      → is_expired L md clock ≡ true
      → can_revalidate L md ≡ true
      → (let r =
            post_request_revalidated L ops back
              (lookup_fresh L ops opt draw clock c).state
              raw
              resp in
          (resp.status_code ≡ 304
            → (duration : ℕ) → resp.cache_time ≡ some duration
            → later + second ≤ back + duration + 1
            → (r.0 ≡ answer_of L ops raw md.meta.size)
              × (r.1.bucket ≡ ops.store c.bucket (renew L ops back resp.headers duration md))
              × ((renew L ops back resp.headers duration md).meta ≡ md.meta)
              × ((lookup_fresh L ops opt draw later r.1).hit ≡ true))
          × (resp.status_code ≢ 304
              → (r.0 ≡ pass_response)
                × (r.1.bucket
                    ≡ ops.discard c.bucket (lookup_fresh L ops opt draw clock c).state.id)))
  post_request_revalidated-lookup_fresh opt draw clock back later c md raw resp e old can =
      let d = (lookup_fresh L ops opt draw clock c).state in
      let (asked, kept, bucket) =
        ((lookup_fresh_lem L ops opt draw clock c md e).1 old).2.asked can in
      let answer = post_request-IsAnswered back d md raw resp (kept ∙ e) asked in
      (
        λ same duration f late.
            let (range, new, stored) = answer.renewed same duration f in
            let fresh = renewed_fresh md resp.headers back duration later late in
            (
              range,
              stored ∙ ap (λ b. ops.store b (renew L ops back resp.headers duration md)) bucket,
              refl,
              ((lookup_fresh_lem L ops opt draw later _ _ new).0 fresh).0,
            ),
        λ other.
            let (pass, gone, discarded) = answer.changed other in
            (pass, discarded ∙ ap (λ b. ops.discard b d.id) bucket),
      )
