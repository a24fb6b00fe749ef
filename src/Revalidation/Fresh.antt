-- ===== src/Revalidation/Fresh.antt =====
-- Which objects the revalidation serves (server/middleware/caching/caching_revalidate.go).
use tavern.Prelude.{ℕ, ◌/◌, ◌≡◌, refl, sym, subst, Bool, true, false, ◌&&◌, some, arith, ltb, leb}
use tavern.Iobuf.Bitmap.{BitmapLib}
use tavern.Revalidation.{
  CachedObject, RevalidateBucket, RevalidateState, FuzzyRefresh, second, calculate_soft_ttl,
  is_expired, can_revalidate, in_zone, clear_chunks, expired_lookup, lookup_metadata, lookup_cached,
  lookup_fresh,
}

module _ (L : BitmapLib) {B : Type 0} (ops : RevalidateBucket L B) where
  and_false : (a b : Bool) → (a && (b && false)) ≡ false
  and_false true true = refl
  and_false true false = refl
  and_false false b = refl

  in_zone-expired :
      (opt : FuzzyRefresh) (md : CachedObject L) (clock : ℕ)
      → is_expired L md clock ≡ true
      → in_zone L opt md clock ≡ false
  unfolding is_expired
  in_zone-expired opt md clock h =
      let late : ltb (clock / second) md.expires_at ≡ false = ground (arith, h) in
      rw late (
        and_false opt.enabled
          (leb (calculate_soft_ttl opt md.resp_unix md.expires_at) (clock / second)))

  -- What `Lookup` has left of an object that has expired, for the request to the origin.
  pub record IsExpiring (c : RevalidateState L B) (md : CachedObject L) (d : RevalidateState L B)
      : Type 0 where
    pub asked :
        can_revalidate L md ≡ true → (d.revalidate ≡ true) × (d.md ≡ c.md) × (d.bucket ≡ c.bucket)
    pub dropped :
        can_revalidate L md ≡ false
        → (d.revalidate ≡ false)
          × (d.md ≡ some (clear_chunks L md))
          × (d.bucket ≡ ops.discard c.bucket c.id)

  expired-IsExpiring :
      (b : Bool) (c : RevalidateState L B) (md : CachedObject L)
      → can_revalidate L md ≡ b
      → IsExpiring c md (expired_lookup L ops c md)
  expired-IsExpiring true c md e =
      rw e record { asked = λ h. (refl, refl, refl); dropped = λ h. absurd (cc (e, h)) }
  expired-IsExpiring false c md e =
      rw e record { asked = λ h. absurd (cc (e, h)); dropped = λ h. (refl, refl, refl) }

  metadata_lem :
      (opt : FuzzyRefresh) (draw : ℕ → ℕ → Bool) (clock : ℕ) (c : RevalidateState L B)
      (md : CachedObject L) (zone expired : Bool)
      → in_zone L opt md clock ≡ zone
      → is_expired L md clock ≡ expired
      → (expired ≡ true → zone ≡ false)
      → (let r = lookup_metadata L ops opt draw clock c md in
          (expired ≡ false → (r.hit ≡ true) × (r.state ≡ c))
          × (expired ≡ true → (r.hit ≡ false) × (r.refreshes ≡ false) × IsExpiring c md r.state))
  metadata_lem opt draw clock c md true false z e f = rw z (λ h. (refl, refl), λ h. absurd (cc h))
  metadata_lem opt draw clock c md true true z e f = absurd (cc (f refl))
  metadata_lem opt draw clock c md false false z e f =
      rw (z, e) (λ h. (refl, refl), λ h. absurd (cc h))
  metadata_lem opt draw clock c md false true z e f =
      rw (z, e)
        (λ h. absurd (cc h), λ h. (refl, refl, expired-IsExpiring (can_revalidate L md) c md refl))

  -- `Lookup` of metadata hits exactly while they have not expired, whatever the options and the random numbers,
  -- and then changes nothing. Where they have expired, no refresh is started in the background; a complete object
  -- that has an ETag or Last-Modified header is kept to be revalidated, and any other is discarded.
  pub lookup_fresh_lem :
      (opt : FuzzyRefresh) (draw : ℕ → ℕ → Bool) (clock : ℕ) (c : RevalidateState L B)
      (md : CachedObject L)
      → c.md ≡ some md
      → (let r = lookup_fresh L ops opt draw clock c in
          (is_expired L md clock ≡ false → (r.hit ≡ true) × (r.state ≡ c))
          × (is_expired L md clock ≡ true
              → (r.hit ≡ false) × (r.refreshes ≡ false) × IsExpiring c md r.state))
  unfolding lookup_fresh
  lookup_fresh_lem opt draw clock c md e =
      subst
        (λ o.
          (let r = lookup_cached L ops opt draw clock c o in
            (is_expired L md clock ≡ false → (r.hit ≡ true) × (r.state ≡ c))
            × (is_expired L md clock ≡ true
                → (r.hit ≡ false) × (r.refreshes ≡ false) × IsExpiring c md r.state)))
        (sym e)
        (metadata_lem opt draw clock c md (in_zone L opt md clock) (is_expired L md clock) refl refl
          (in_zone-expired opt md clock))
