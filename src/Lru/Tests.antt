-- ===== src/Lru/Tests.antt =====
-- A full cache of two keys, and the theorems applied.
use tavern.Prelude.{ℕ, ◌≡◌, refl, Bool, none, [], ◌∷◌, ◌==◌}
use tavern.Lru.Cache.{Cache, set, peek}

abbrev same : ℕ → ℕ → Bool
same a b = a == b

-- the keys 1 and 2 were used once and twice
abbrev two_keys : Cache ℕ ℕ
two_keys = record {
  upper_bound = 2;
  lower_bound = 2;
  values =
      record { key = 1; value = 10; freq_node = 2 }
      ∷ record { key = 2; value = 20; freq_node = 3 }
      ∷ [];
  freqs = record { freq = 2; entries = 1 ∷ [] } ∷ record { freq = 3; entries = 2 ∷ [] } ∷ [];
  len = 2;
}

-- A new key in a full cache whose entries have all been used is evicted at once.
new_key_lost : peek same (set same two_keys 3 30) 3 ≡ none
unfolding peek set
new_key_lost = refl
