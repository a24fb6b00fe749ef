-- ===== src/CacheControl/Directives.antt =====
-- pkg/x/http/cachecontrol/cachecontrol.go: the directives as an association list, and their tests.
-- The regular expression of `Parse` is not modelled. A duration is an int64 of nanoseconds.
use tavern.Prelude.{
  ◌+◌, ◌-◌, ◌*◌, ◌%◌, ◌^◌, Bool, true, false, Option, none, some, List, [], ◌∷◌, if◌then◌else◌,
}
use tavern.Prelude.Int.{ℤ, pos, negsuc, of_bits64, minus_one, eqb_ℤ}
use tavern.Prelude.Text.{Bytes, bytes_eq, codes, parse_int, NumError, nil, syntax, range}

abbrev pub CacheControl : Type 0
CacheControl = List (Bytes × Bytes)

unfoldable pub directive : CacheControl → Bytes → Option Bytes
directive [] key = none
directive ((k, v) ∷ c) key = let rest = directive c key in if bytes_eq k key then some v else rest

abbrev pub is_some : Option Bytes → Bool
is_some none = false
is_some (some v) = true

-- whether a directive is there, as in `Public`, `NoStore`, `NoTransform` and `OnlyIfCached`
unfoldable pub has_directive : CacheControl → Bytes → Bool
unfolding directive
has_directive c key = is_some (directive c key)

abbrev pub no_store : CacheControl → Bool
no_store c = has_directive c (codes "no-store")

abbrev pub must_revalidate : CacheControl → Bool
must_revalidate c = has_directive c (codes "must-revalidate")

abbrev pub proxy_revalidate : CacheControl → Bool
proxy_revalidate c = has_directive c (codes "proxy-revalidate")

-- `Private` and `NoCache` also give the value
abbrev pub private : CacheControl → Bool
private c = has_directive c (codes "private")

abbrev pub no_cache : CacheControl → Bool
no_cache c = has_directive c (codes "no-cache")

-- `time.Duration(i) * time.Second`
unfoldable pub seconds : ℤ → ℤ
seconds (pos n) = of_bits64 (n * 1000000000)
seconds (negsuc n) = of_bits64 (2 ^ 64 - (n + 1) * 1000000000 % 2 ^ 64)

-- `strconv.Atoi` is `ParseInt` with an int of 64 bits
abbrev pub duration_of : ℤ × NumError → ℤ
duration_of (i, nil) = seconds i
duration_of (i, syntax) = minus_one
duration_of (i, range) = minus_one

-- `timedDirective`
unfoldable pub timed_directive : CacheControl → Bytes → ℤ
unfolding directive
timed_directive c key = elim (directive c key) [
  | none ↦ minus_one
  | some t ↦ duration_of (parse_int t)
]

abbrev pub max_age : CacheControl → ℤ
max_age c = timed_directive c (codes "max-age")

abbrev pub min_fresh : CacheControl → ℤ
min_fresh c = timed_directive c (codes "min-fresh")

-- `MaxStale`: with no value there is no limit
unfoldable pub max_stale : CacheControl → ℤ
unfolding directive
max_stale c = elim (directive c (codes "max-stale")) [
  | none ↦ minus_one
  | some [] ↦ pos (2 ^ 63 - 1)
  | some (d ∷ t) ↦ duration_of (parse_int (d ∷ t))
]

-- `Cacheable`
unfoldable pub cacheable : CacheControl → Bool
unfolding has_directive timed_directive
cacheable c =
    if no_store c
    then false
    else if no_cache c
    then false
    else if private c
    then false
    else if must_revalidate c
    then false
    else if proxy_revalidate c
    then false
    else if eqb_ℤ (max_age c) minus_one
    then false
    else true
