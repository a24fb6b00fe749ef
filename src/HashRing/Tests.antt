-- ===== src/HashRing/Tests.antt =====
-- A ring of three nodes under a small hash, and the theorems applied.
use tavern.Prelude.{ℕ, ◌+◌, ◌≡◌, refl, ap, Bool, true, false, List, [], ◌∷◌, arith, length, take}
use tavern.Prelude.Int.{pos}
use tavern.Prelude.Text.{Bytes, bytes_eq}
use tavern.Prelude.Search.{search}
use tavern.HashRing.Ring.{search_ring, Node, Consistent}
use tavern.HashRing.Nearest.{nodes, get_n, bucket, select}
use tavern.HashRing.Synced.{IsRing}
use tavern.HashRing.Walk.{distinct}
use tavern.HashRing.Select.{get_n_lem, select_lem, first_usable, turn}

-- a hash for the tests: the sum of the bytes
abbrev sum : Bytes → ℕ
sum [] = 0
sum (c ∷ cs) = c + sum cs

abbrev node : ℕ → Bool → Node
node n bad = record { id = n ∷ []; weight = 1; use_allow = true; has_bad = bad }

abbrev three_nodes : Consistent
three_nodes = record {
  circles = (10, node 1 true) ∷ (20, node 2 false) ∷ (30, node 1 true) ∷ (40, node 3 false) ∷ [];
  members = (1 ∷ []) ∷ (2 ∷ []) ∷ (3 ∷ []) ∷ [];
  sorted_hashes = 10 ∷ 20 ∷ 30 ∷ 40 ∷ [];
  number_of_replicas = 2;
  count = pos 3;
}

three_nodes-IsRing : IsRing three_nodes
three_nodes-IsRing = record {
  ascending = (
    (omega arith, (omega arith, (omega arith, tt))),
    ((omega arith, (omega arith, tt)), ((omega arith, tt), (tt, tt))),
  );
  placed = (
    (node 1 true, refl),
    ((node 2 false, refl), ((node 1 true, refl), ((node 3 false, refl), tt))),
  );
  complete = (refl, (refl, (refl, (refl, tt))));
}

-- The walk from a hash above all of them starts at the first position; the first node is bad, so
-- that the second distinct one is selected.
select_run : select sum three_nodes (50 ∷ []) 3 ≡ bucket (node 2 false)
unfolding select search bytes_eq
select_run = refl

abbrev order : List Node
order = node 2 false ∷ node 1 true ∷ node 3 false ∷ []

visited : distinct [] (turn sum three_nodes (15 ∷ [])) ≡ order
unfolding turn search search_ring bytes_eq
visited = refl

get_n_lem_example :
    get_n sum three_nodes (15 ∷ []) 2
    ≡ nodes (take 2 (distinct [] (turn sum three_nodes (15 ∷ []))))
get_n_lem_example =
    get_n_lem sum three_nodes three_nodes-IsRing (omega arith) (15 ∷ []) 3 2 refl (omega arith)
      (omega arith) (omega (arith, ap length visited))

select_lem_example :
    select sum three_nodes (15 ∷ []) 3
    ≡ first_usable (take 3 (distinct [] (turn sum three_nodes (15 ∷ []))))
select_lem_example =
    select_lem sum three_nodes three_nodes-IsRing (omega arith) (15 ∷ []) 3 3 refl (omega arith)
      (omega (arith, ap length visited))
