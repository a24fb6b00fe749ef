-- ===== src/HashRing/Ring.antt =====
-- storage/selector/hashring/consistent.go and hashring.go: the ring, its members, and the walk that
-- gives the closest nodes. A Go map is an association list, in the order in which `range` takes it.
-- `hash_key` is the hash of the library, a uint32. A weight below 0 counts as 0, as its loop does.
use tavern.Prelude.{
  ℕ, zero, suc, ◌+◌, Bool, false, ◌||◌, Option, none, some, List, [], ◌∷◌, ◌++◌, ltb, leb, ◌==◌,
  if◌then◌else◌, length, get_elem?, get_or, map,
}
use tavern.Prelude.Int.{ℤ, pos, sub_ℕ, pos_part, neg_part}
use tavern.Prelude.Text.{Bytes, bytes_eq}
use tavern.Prelude.Text.{show_ℕ}
use tavern.Prelude.Search.{search}

-- `storage.Bucket` as a node: `UseAllow` and `HasBad` are what the selector asks of it.
pub record Node : Type 0 where
  pub id : Bytes
  pub weight : ℕ
  pub use_allow : Bool
  pub has_bad : Bool

pub record Consistent : Type 0 where
  pub circles : List (ℕ × Node)
  pub members : List Bytes
  pub sorted_hashes : List ℕ
  pub number_of_replicas : ℕ
  pub count : ℤ

-- a map of hashes: lookup, write and delete
abbrev pub lookup : List (ℕ × Node) → ℕ → Option Node
lookup [] h = none
lookup ((k, v) ∷ m) h = if k == h then some v else lookup m h

abbrev pub delete : List (ℕ × Node) → ℕ → List (ℕ × Node)
delete [] h = []
delete ((k, v) ∷ m) h = let rest = delete m h in if k == h then rest else (k, v) ∷ rest

abbrev pub put : List (ℕ × Node) → ℕ → Node → List (ℕ × Node)
put m h v = (h, v) ∷ delete m h

abbrev pub is_member : List Bytes → Bytes → Bool
is_member [] id = false
is_member (m ∷ ms) id = bytes_eq m id || is_member ms id

abbrev pub without : List Bytes → Bytes → List Bytes
without [] id = []
without (m ∷ ms) id = let rest = without ms id in if bytes_eq m id then rest else m ∷ rest

-- `eltKey`
unfoldable pub elt_key : Bytes → ℕ → ℕ → Bytes
elt_key elt idx weight = show_ℕ idx ++ 124 ∷ show_ℕ weight ++ 124 ∷ elt

-- `sort.Sort` of the hashes
abbrev pub insert : ℕ → List ℕ → List ℕ
insert h [] = h ∷ []
insert h (x ∷ xs) = let rest = insert h xs in if leb h x then h ∷ x ∷ xs else x ∷ rest

unfoldable pub sort : List ℕ → List ℕ
sort [] = []
sort (h ∷ hs) = insert h (sort hs)

-- `updateSortedHashes`; the capacity of the slice has no effect on its content
unfoldable pub update_sorted_hashes : Consistent → Consistent
unfolding sort
update_sorted_hashes c = record {
  circles = c.circles;
  members = c.members;
  sorted_hashes = sort (map (λ kv. kv.0) c.circles);
  number_of_replicas = c.number_of_replicas;
  count = c.count;
}

-- the map of the nodes by their id in `Set`: a later node takes the place of an earlier one
abbrev pub drop_id : List Node → Bytes → List Node
drop_id [] id = []
drop_id (v ∷ vs) id = let rest = drop_id vs id in if bytes_eq v.id id then rest else v ∷ rest

unfoldable pub by_id : List Node → List Node → List Node
by_id elts [] = elts
by_id elts (v ∷ vs) = by_id (drop_id elts v.id ++ v ∷ []) vs

abbrev pub has_id : List Node → Bytes → Bool
has_id [] id = false
has_id (v ∷ vs) id = bytes_eq id v.id || has_id vs id

-- `search`
unfoldable pub search_ring : Consistent → ℕ → ℕ
search_ring c key =
    let i = search (length c.sorted_hashes) (λ x. ltb key (get_or c.sorted_hashes x 0)) in
    if leb (length c.sorted_hashes) i then 0 else i

-- the node at a position of the ring; `none` is the nil of a missing key, or out of range
abbrev pub node_at : Consistent → ℕ → Option Node
node_at c i = elim (get_elem? c.sorted_hashes i) [ none ↦ none | some h ↦ lookup c.circles h ]

module _ (hash_key : Bytes → ℕ) where
  -- the inner loop of `add`, with the rounds done and left
  unfoldable pub put_replicas : Node → ℕ → ℕ → ℕ → List (ℕ × Node) → List (ℕ × Node)
  put_replicas v i j zero m = m
  put_replicas v i j (suc n) m = put_replicas v i (j + 1) n (put m (hash_key (elt_key v.id i j)) v)

  -- the outer loop of `add`
  unfoldable pub put_all : Node → ℕ → ℕ → ℕ → List (ℕ × Node) → List (ℕ × Node)
  unfolding put_replicas
  put_all v weight i zero m = m
  put_all v weight i (suc n) m = put_all v weight (i + 1) n (put_replicas v i 0 weight m)

  -- the fields that `add` writes
  abbrev pub added : Consistent → Node → ℕ → Consistent
  added c v weight = record {
    circles = put_all v weight 0 c.number_of_replicas c.circles;
    members = v.id ∷ without c.members v.id;
    sorted_hashes = c.sorted_hashes;
    number_of_replicas = c.number_of_replicas;
    count = sub_ℕ (pos_part c.count + 1) (neg_part c.count);
  }

  -- `add`
  unfoldable pub add : Consistent → Node → ℕ → Consistent
  unfolding put_all update_sorted_hashes
  add c v weight = update_sorted_hashes (added c v weight)

  unfoldable pub delete_replicas : Bytes → ℕ → ℕ → ℕ → List (ℕ × Node) → List (ℕ × Node)
  delete_replicas elt i j zero m = m
  delete_replicas elt i j (suc n) m =
      delete_replicas elt i (j + 1) n (delete m (hash_key (elt_key elt i j)))

  unfoldable pub delete_all : Bytes → ℕ → ℕ → ℕ → List (ℕ × Node) → List (ℕ × Node)
  unfolding delete_replicas
  delete_all elt weight i zero m = m
  delete_all elt weight i (suc n) m =
      delete_all elt weight (i + 1) n (delete_replicas elt i 0 weight m)

  -- the fields that `remove` writes
  abbrev pub removed : Consistent → Bytes → ℕ → Consistent
  removed c elt weight = record {
    circles = delete_all elt weight 0 c.number_of_replicas c.circles;
    members = without c.members elt;
    sorted_hashes = c.sorted_hashes;
    number_of_replicas = c.number_of_replicas;
    count = sub_ℕ (pos_part c.count) (neg_part c.count + 1);
  }

  -- `remove`
  unfoldable pub remove : Consistent → Bytes → ℕ → Consistent
  unfolding delete_all update_sorted_hashes
  remove c elt weight = update_sorted_hashes (removed c elt weight)

  -- the first loop of `Set`: members that are not among the nodes are removed
  unfoldable pub remove_absent : List Node → List Bytes → Consistent → Consistent
  unfolding remove
  remove_absent elts [] c = c
  remove_absent elts (k ∷ ks) c = remove_absent elts ks (if has_id elts k then c else remove c k 1)

  -- its second loop: nodes that are no members are added
  unfoldable pub add_new : List Node → Consistent → Consistent
  unfolding add
  add_new [] c = c
  add_new (v ∷ vs) c = add_new vs (if is_member c.members v.id then c else add c v v.weight)

  -- `Set`
  unfoldable pub set : Consistent → List Node → Consistent
  unfolding by_id remove_absent add_new
  set c nodes = let elts = by_id [] nodes in add_new elts (remove_absent elts c.members c)

  -- the fields that `NewConsistent` starts from
  abbrev pub no_nodes : ℕ → Consistent
  no_nodes replicas = record {
    circles = [];
    members = [];
    sorted_hashes = [];
    number_of_replicas = replicas;
    count = pos 0;
  }

  -- `NewConsistent`
  unfoldable pub new_consistent : List Node → ℕ → Consistent
  unfolding set
  new_consistent nodes replicas = set (no_nodes replicas) nodes

  -- `Get`; the circle is empty where it gives `none`
  unfoldable pub get : Consistent → Bytes → Option Node
  unfolding search_ring
  get c name = if length c.circles == 0 then none else node_at c (search_ring c (hash_key name))
