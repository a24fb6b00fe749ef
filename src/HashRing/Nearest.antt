-- ===== src/HashRing/Nearest.antt =====
-- storage/selector/hashring: `GetN`, the walk that gives the closest nodes, and the selector on it.
use tavern.Prelude.{
  ℕ, zero, suc, ◌+◌, ◌*◌, Bool, false, not, ◌&&◌, ◌||◌, Option, none, some, List, [], ◌∷◌, ◌++◌,
  leb, ◌==◌, if◌then◌else◌, length, get_elem?,
}
use tavern.Prelude.Int.{ℤ, pos, pos_part, ltb_ℤ}
use tavern.Prelude.Text.{Bytes, bytes_eq}
use tavern.HashRing.Ring.{Node, Consistent, search_ring, node_at}

-- `sliceContainsMember`
abbrev pub slice_contains_member : List Node → Node → Bool
slice_contains_member [] v = false
slice_contains_member (m ∷ ms) v = bytes_eq m.id v.id || slice_contains_member ms v

-- What `GetN` gives: nodes, the error of an empty circle, a panic at a nil node, or no result
-- within the rounds.
pub data Nodes : Type 0 where
  nodes : List Node → Nodes
  empty_circle panic no_result : Nodes

abbrev pub with_node : List Node → Node → List Node
with_node res v = if slice_contains_member res v then res else res ++ v ∷ []

-- the loop of `GetN` at position `i`, with the rounds left
unfoldable pub walk : (ℕ → Option Node) → ℕ → ℕ → ℕ → ℕ → ℕ → List Node → Nodes
walk at len start n zero i res = no_result
walk at len start n (suc fuel) i res =
    let j = if leb len i then 0 else i in
    elim (at j) [
      | none ↦ if i == start then nodes res else panic
      | some v ↦
          let res' = with_node res v in
          let rest = walk at len start n fuel (j + 1) res' in
          if i == start then nodes res else if length res' == n then nodes res' else rest
    ]

-- `n` of `GetN`, cut to the count of the members; a count below 0 is no capacity for `make`, a panic
abbrev pub cut_to_count : ℤ → ℕ → ℕ
cut_to_count count n = if ltb_ℤ count (pos n) then pos_part count else n

module _ (hash_key : Bytes → ℕ) where
  -- `GetN`
  unfoldable pub get_n : Consistent → Bytes → ℕ → Nodes
  unfolding walk search_ring
  get_n c name n =
      let start = search_ring c (hash_key name) in
      let len = length c.sorted_hashes in
      let cut = cut_to_count c.count n in
      if length c.circles == 0 then empty_circle else elim (node_at c start) [
        | none ↦ panic
        | some v ↦
            if ltb_ℤ c.count (pos 0)
            then panic
            else if 1 == cut
            then nodes (v ∷ [])
            else walk (node_at c) len start cut (2 * len + 1) (start + 1) (v ∷ [])
      ]

-- What `Select` gives: a bucket, no bucket, or a panic.
pub data Selected : Type 0 where
  bucket : Node → Selected
  no_bucket panic no_result : Selected

-- one round of `Select` on what `GetN` gave for `i + 1` nodes
abbrev pub pick : ℕ → Nodes → Selected → Selected
pick i empty_circle rest = no_bucket
pick i panic rest = panic
pick i no_result rest = no_result
pick i (nodes groups) rest = elim (get_elem? groups i) [
  | none ↦ panic
  | some v ↦ if v.use_allow && not v.has_bad then bucket v else rest
]

module _ (hash_key : Bytes → ℕ) where
  unfoldable pub select_from : Consistent → Bytes → ℕ → ℕ → Selected
  unfolding get_n
  select_from c id i zero = no_bucket
  select_from c id i (suc n) = pick i (get_n hash_key c id (i + 1)) (select_from c id (i + 1) n)

  -- `Select` of a balancer with `n` buckets
  unfoldable pub select : Consistent → Bytes → ℕ → Selected
  unfolding select_from
  select c id n = select_from c id 0 n
