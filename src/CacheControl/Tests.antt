-- ===== src/CacheControl/Tests.antt =====
-- Directives of a response, and the theorem applied.
use tavern.Prelude.{◌≡◌, ◌↔◌, refl, true, [], ◌∷◌}
use tavern.Prelude.Text.{codes, bytes_eq, parse_int}
use tavern.CacheControl.Directives.{CacheControl, cacheable, seconds}
use tavern.CacheControl.Cacheable.{Allows, HasNumber, cacheable_lem}

abbrev stale : CacheControl
stale = (codes "public", []) ∷ (codes "max-age", codes "0") ∷ []

-- A response that is stale at once is cacheable too.
stale-cacheable : cacheable stale ≡ true
unfolding cacheable bytes_eq parse_int seconds
stale-cacheable = refl

cacheable_lem_example :
    (cacheable stale ≡ true) ↔ (Allows stale × HasNumber stale (codes "max-age"))
cacheable_lem_example = cacheable_lem stale
