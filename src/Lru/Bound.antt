-- ===== src/Lru/Bound.antt =====
-- `Set` of a new key keeps the count of the entries, and the bound.
use tavern.Prelude.{◌+◌, ◌≡◌, Bool, length}
use tavern.Lru.Cache.{Cache, order, increment, with_len}
use tavern.Lru.Order.{AreFilled}

-- `len` is the number of the keys in the nodes, and no node is empty.
pub record IsCounted {K V : Type 0} (c : Cache K V) : Type 0 where
  pub filled : AreFilled c.freqs
  pub counted : c.len ≡ length (order c.freqs)

module _ {K V : Type 0} (eq : K → K → Bool) where
  -- the cache with the new entry, before the bounds are kept
  abbrev entered : Cache K V → K → V → Cache K V
  entered c k v =
      with_len eq (c.len + 1) (increment eq c (record { key = k; value = v; freq_node = 0 }))
