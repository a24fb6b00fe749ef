-- ===== src/SharedKv/Tests.antt =====
-- A store with one counter, bounds of prefixes, and the theorems applied.
use tavern.Prelude.{◌≡◌, refl, true, false, some, [], ◌∷◌, arith}
use tavern.Prelude.Text.{Bytes, has_prefix}
use tavern.SharedKv.Counter.{Store, value, put_u32}
use tavern.SharedKv.Prefix.{key_upper_bound, iterates, drops, iterates_lem}

abbrev key : Bytes
key = 105 ∷ 100 ∷ []

abbrev store : Store
store = record { get = λ k. value (put_u32 4294967295); writes = true }

bound_carries : key_upper_bound (1 ∷ 255 ∷ 255 ∷ []) ≡ some (2 ∷ [])
unfolding key_upper_bound
bound_carries = refl

-- `DropPrefix` of a prefix whose last byte is 255 deletes no key of the prefix.
drops_nothing : drops (1 ∷ 255 ∷ []) (1 ∷ 255 ∷ 3 ∷ []) ≡ some false
unfolding drops
drops_nothing = refl

iterates_lem_example :
    iterates (1 ∷ 255 ∷ []) (1 ∷ 255 ∷ 3 ∷ []) ≡ has_prefix (1 ∷ 255 ∷ 3 ∷ []) (1 ∷ 255 ∷ [])
iterates_lem_example =
    iterates_lem (1 ∷ 255 ∷ []) (1 ∷ 255 ∷ 3 ∷ []) (omega arith, (omega arith, tt))
      (omega arith, (omega arith, (omega arith, tt)))
