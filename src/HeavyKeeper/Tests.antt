-- ===== src/HeavyKeeper/Tests.antt =====
-- A sketch of one row, and the theorems applied.
use tavern.Prelude.{ℕ, ◌≤◌, ◌≡◌, refl, true, List, [], ◌∷◌}
use tavern.HeavyKeeper.Sketch.{HeavyKeeper, new, query}
use tavern.HeavyKeeper.Bound.{Addition, add_all, occurrences, query_bound}

-- a hash for the tests: the first byte
abbrev first_byte : List ℕ → ℕ
first_byte [] = 0
first_byte (c ∷ cs) = c

abbrev additions : List Addition
additions = (λ i n. true, 1 ∷ []) ∷ (λ i n. true, 2 ∷ []) ∷ (λ i n. true, 1 ∷ []) ∷ []

query_bound_example :
    query first_byte (add_all first_byte (new 1 4) additions) (1 ∷ [])
    ≤ occurrences first_byte additions 1
query_bound_example = query_bound first_byte 1 4 additions (1 ∷ [])

abbrev one_row : HeavyKeeper
one_row = record {
  buckets = (record { fingerprint = 7; count = 3 } ∷ []) ∷ [];
  depth = 1;
  width = 1;
}

one_row-query : query first_byte one_row (7 ∷ []) ≡ 3
unfolding query
one_row-query = refl
