-- ===== src/CacheControl/Cacheable.antt =====
-- When `Cacheable` holds.
use tavern.Prelude.{◌≡◌, ◌↔◌, inl, inr, refl, true, false, none, some, arith, Option-cases}
use tavern.Prelude.Int.{ℤ, pos, negsuc, minus_one, eqb_ℤ}
use tavern.Prelude.Text.{Bytes, codes, parse_int, NumError, nil, syntax, range}
use tavern.CacheControl.Directives.{
  CacheControl, directive, no_store, no_cache, private, must_revalidate, proxy_revalidate, seconds,
  duration_of, timed_directive, max_age, cacheable,
}

-- A number of seconds is never the duration -1.
not_minus_one : (i : ℤ) → eqb_ℤ (seconds i) minus_one ≡ false
unfolding seconds
not_minus_one (pos n) = ground arith
not_minus_one (negsuc n) = ground arith

-- The directive has a value that is a decimal number of an int64.
abbrev pub HasNumber : CacheControl → Bytes → Type 0
HasNumber c key = (t : Bytes) × (i : ℤ) × (directive c key ≡ some t) × (parse_int t ≡ (i, nil))

number_of : (r : ℤ × NumError) → eqb_ℤ (duration_of r) minus_one ≡ false → (i : ℤ) × (r ≡ (i, nil))
number_of (i, nil) h = (i, refl)
number_of (i, syntax) h = cc
number_of (i, range) h = cc

timed_directive-none :
    (c : CacheControl) (key : Bytes) → directive c key ≡ none → timed_directive c key ≡ minus_one
unfolding timed_directive
timed_directive-none c key e = rw (timed_directive, e) refl

timed_directive-some :
    (c : CacheControl) (key t : Bytes)
    → directive c key ≡ some t
    → timed_directive c key ≡ duration_of (parse_int t)
unfolding timed_directive
timed_directive-some c key t e = rw (timed_directive, e) refl

timed_number :
    (c : CacheControl) (key : Bytes)
    → eqb_ℤ (timed_directive c key) minus_one ≡ false
    → HasNumber c key
timed_number c key h = elim (Option-cases (directive c key)) [
  | inl e ↦ cc (rw (timed_directive-none c key e) at h)
  | inr (t, e) ↦
      let (i, r) = number_of (parse_int t) (rw (timed_directive-some c key t e) at h) in
      (t, i, e, r)
]

number_timed :
    (c : CacheControl) (key : Bytes)
    → HasNumber c key
    → eqb_ℤ (timed_directive c key) minus_one ≡ false
number_timed c key (t, i, e, r) = rw (timed_directive-some c key t e, r) (not_minus_one i)

-- None of the directives that forbid a shared cache is there.
abbrev pub Allows : CacheControl → Type 0
Allows c =
    (no_store c ≡ false)
    × (no_cache c ≡ false)
    × (private c ≡ false)
    × (must_revalidate c ≡ false)
    × (proxy_revalidate c ≡ false)

-- `Cacheable` holds exactly when none of no-store, no-cache, private, must-revalidate and
-- proxy-revalidate is there and max-age has a decimal number of an int64 as its value.
pub cacheable_lem :
    (c : CacheControl) → (cacheable c ≡ true) ↔ (Allows c × HasNumber c (codes "max-age"))
unfolding cacheable
cacheable_lem c = (to, from)
  where
    to : cacheable c ≡ true → Allows c × HasNumber c (codes "max-age")
    to h =
        let aged : eqb_ℤ (max_age c) minus_one ≡ false = ground arith in
        (ground arith, timed_number c (codes "max-age") aged)

    from : Allows c × HasNumber c (codes "max-age") → cacheable c ≡ true
    from ((st, ca, pr, mu, px), n) =
        rw (st, ca, pr, mu, px, number_timed c (codes "max-age") n) refl
