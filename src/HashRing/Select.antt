-- ===== src/HashRing/Select.antt =====
-- What `Get`, `GetN` and `Select` give on a ring.
use tavern.Prelude.{
  ℕ, zero, suc, ◌+◌, ◌-◌, ◌*◌, ◌≤◌, ◌<◌, ◌≡◌, refl, ap, ◌∙◌, false, not, ◌&&◌, Option, none, some,
  List, [], ◌∷◌, ◌++◌, arith, ltb, leb, ◌==◌, if◌then◌else◌, length, get_elem?, get_or, take, drop,
  All, ◌⊎◌, inl, inr, Bool-cases,
}
use tavern.Prelude.Int.{pos, ltb_ℤ}
use tavern.Prelude.Text.{Bytes}
use tavern.Prelude.Search.{search, search-lt, search-gt, search-le}
use tavern.HashRing.Ring.{Node, Consistent, lookup, search_ring, node_at, get}
use tavern.HashRing.Nearest.{
  nodes, cut_to_count, get_n, Selected, bucket, no_bucket, pick, select_from, select,
}
use tavern.HashRing.Synced.{IsAscending, HasNode, IsRing}
use tavern.HashRing.Walk.{distinct, at_drop, walk-outer}

-- the nodes under the hashes
abbrev pub nodes_of : List (ℕ × Node) → List ℕ → List Node
nodes_of m [] = []
nodes_of m (h ∷ hs) =
    let rest = nodes_of m hs in elim (lookup m h) [ none ↦ rest | some v ↦ v ∷ rest ]

nodes_of-cons :
    (m : List (ℕ × Node)) (h : ℕ) (hs : List ℕ) (v : Node)
    → lookup m h ≡ some v
    → nodes_of m (h ∷ hs) ≡ v ∷ nodes_of m hs
nodes_of-cons m h hs v e = rw (nodes_of, e) refl

length-nodes_of :
    (m : List (ℕ × Node)) (hs : List ℕ)
    → All (λ h. HasNode m h) hs
    → length (nodes_of m hs) ≡ length hs
length-nodes_of m [] a = refl
length-nodes_of m (h ∷ hs) a =
    rw (nodes_of-cons m h hs a.0.0 a.0.1) (ap suc (length-nodes_of m hs a.1))

at_nodes_of :
    (m : List (ℕ × Node)) (hs : List ℕ)
    → All (λ h. HasNode m h) hs
    → (i : ℕ)
    → (elim (get_elem? hs i) as (λ x. Option Node) [ none ↦ none | some h ↦ lookup m h ])
      ≡ get_elem? (nodes_of m hs) i
at_nodes_of m [] a i = refl
at_nodes_of m (h ∷ hs) a zero = rw (nodes_of-cons m h hs a.0.0 a.0.1) a.0.1
at_nodes_of m (h ∷ hs) a (suc i) = rw (nodes_of-cons m h hs a.0.0 a.0.1) (at_nodes_of m hs a.1 i)

ascending_at :
    (hs : List ℕ) (i j : ℕ) → IsAscending hs → i ≤ j → j < length hs → get_or hs i 0 ≤ get_or hs j 0
ascending_at [] i j a h l = absurd (omega arith)
ascending_at (x ∷ hs) zero zero a h l = omega arith
ascending_at (x ∷ hs) zero (suc j) a h l = all_at hs j a.0 (omega arith)
  where
    all_at : (ys : List ℕ) (k : ℕ) → All (λ y. x ≤ y) ys → k < length ys → x ≤ get_or ys k 0
    all_at [] k b m = absurd (omega arith)
    all_at (y ∷ ys) zero b m = b.0
    all_at (y ∷ ys) (suc k) b m = all_at ys k b.1 (omega arith)
ascending_at (x ∷ hs) (suc i) zero a h l = absurd (omega arith)
ascending_at (x ∷ hs) (suc i) (suc j) a h l = ascending_at hs i j a.1 (omega arith) (omega arith)

get_elem?-get_or : (hs : List ℕ) (i : ℕ) → i < length hs → get_elem? hs i ≡ some (get_or hs i 0)
get_elem?-get_or [] i h = absurd (omega arith)
get_elem?-get_or (x ∷ hs) zero h = refl
get_elem?-get_or (x ∷ hs) (suc i) h = get_elem?-get_or hs i (omega arith)

get_elem?-take_suc : (vs : List Node) (i : ℕ) → get_elem? (take (i + 1) vs) i ≡ get_elem? vs i
get_elem?-take_suc vs i = rw one_more (go vs i)
  where
    one_more : i + 1 ≡ suc i
    one_more = omega arith

    go : (us : List Node) (k : ℕ) → get_elem? (take (suc k) us) k ≡ get_elem? us k
    go [] k = refl
    go (u ∷ us) zero = refl
    go (u ∷ us) (suc k) = go us k

-- The hash that follows the key on the ring: the smallest above it, or the smallest of all.
abbrev pub Follows : List ℕ → ℕ → ℕ → Type 0
Follows hs key h =
    ((key < h) × ((j : ℕ) → j < length hs → key < get_or hs j 0 → h ≤ get_or hs j 0))
    ⊎ ((j : ℕ) → j < length hs → (get_or hs j 0 ≤ key) × (h ≤ get_or hs j 0))

-- the first usable bucket
abbrev pub first_usable : List Node → Selected
first_usable [] = no_bucket
first_usable (v ∷ vs) =
    let rest = first_usable vs in if v.use_allow && not v.has_bad then bucket v else rest

pick-nodes :
    (vs : List Node) (i : ℕ) (v : Node) (rest : Selected)
    → get_elem? vs i ≡ some v
    → pick i (nodes vs) rest ≡ (if v.use_allow && not v.has_bad then bucket v else rest)
pick-nodes vs i v rest e = rw (pick, e) refl

lookup-filled :
    (m : List (ℕ × Node)) (h : ℕ) (v : Node) → lookup m h ≡ some v → (length m == 0) ≡ false
lookup-filled [] h v e = cc
lookup-filled (kv ∷ m) h v e = ground arith

placed-filled :
    (m : List (ℕ × Node)) (hs : List ℕ)
    → All (λ h. HasNode m h) hs
    → 0 < length hs
    → (length m == 0) ≡ false
placed-filled m [] a l = absurd (omega arith)
placed-filled m (h ∷ hs) a l = lookup-filled m h a.0.0 a.0.1

module _ (hash_key : Bytes → ℕ) (c : Consistent) where
  abbrev ring : List Node
  ring = nodes_of c.circles c.sorted_hashes

  unfoldable pub start : Bytes → ℕ
  start name = search_ring c (hash_key name)

  -- the nodes of the ring from the position that the name hashes to, once around
  unfoldable pub turn : Bytes → List Node
  unfolding start
  turn name = drop (start name) ring ++ take (start name) ring

module _ (hash_key : Bytes → ℕ) (c : Consistent) (r : IsRing c)
    (filled : 0 < length c.sorted_hashes) where
  search_ring-lt : (key : ℕ) → search_ring c key < length c.sorted_hashes
  unfolding search_ring
  search_ring-lt key =
      ground (arith, search-le (λ x. ltb key (get_or c.sorted_hashes x 0)) (length c.sorted_hashes))

  search_ring-Follows :
      (key : ℕ) → Follows c.sorted_hashes key (get_or c.sorted_hashes (search_ring c key) 0)
  unfolding search_ring
  search_ring-Follows key =
      let hs = c.sorted_hashes in
      let f = λ (x : ℕ). ltb key (get_or hs x 0) in
      let le = search-le f (length hs) in
      elim (Bool-cases (leb (length hs) (search (length hs) f))) [
        | inl e ↦
            let last = search-gt f (length hs) (ground arith) in
            rw e (
              inr (λ j l. (
                ground (
                  arith,
                  last,
                  ascending_at hs j (search (length hs) f - 1) r.ascending (ground arith)
                      (ground arith),
                ),
                ascending_at hs 0 j r.ascending (omega arith) l,
              )))
        | inr e ↦
            let above = search-lt f (length hs) (ground arith) in
            rw e (
              inl (
                ground (arith, above),
                λ j l k. elim (Bool-cases (leb (search (length hs) f) j)) [
                  | inl q ↦ ascending_at hs (search (length hs) f) j r.ascending (ground arith) l
                  | inr q ↦
                      let before = search-gt f (length hs) (ground arith) in
                      absurd (
                        ground (
                          arith,
                          before,
                          k,
                          ascending_at hs j (search (length hs) f - 1) r.ascending (ground arith)
                              (ground arith),
                        ))
                ],
              ))
      ]

  start-lt : (name : Bytes) → start hash_key c name < length (ring hash_key c)
  unfolding start
  start-lt name =
      rw (length-nodes_of c.circles c.sorted_hashes r.placed) (search_ring-lt (hash_key name))

  -- the node at the start, and the ring from it on
  at_start :
      (name : Bytes)
      → (v : Node) × (node_at c (start hash_key c name) ≡ some v)
        × (turn hash_key c name
            ≡ v
              ∷ (drop (start hash_key c name + 1) (ring hash_key c)
                  ++ take (start hash_key c name) (ring hash_key c)))
  unfolding turn
  at_start name =
      let (v, g, d) = at_drop (ring hash_key c) (start hash_key c name) (start-lt name) in
      (v, at_nodes_of c.circles c.sorted_hashes r.placed (start hash_key c name) ∙ g, rw d refl)

  not_empty : (length c.circles == 0) ≡ false
  not_empty = placed-filled c.circles c.sorted_hashes r.placed filled

  -- On a ring that is not empty, `Get` gives the node under the smallest hash above that of the
  -- name, or under the smallest of all where none is above.
  pub get_lem :
      (name : Bytes)
      → (h : ℕ) × (v : Node) × Follows c.sorted_hashes (hash_key name) h
        × (lookup c.circles h ≡ some v)
        × (get hash_key c name ≡ some v)
  unfolding get start
  get_lem name =
      let (v, g, t) = at_start name in
      let s = search_ring c (hash_key name) in
      let e = get_elem?-get_or c.sorted_hashes s (search_ring-lt (hash_key name)) in
      (
        get_or c.sorted_hashes s 0,
        v,
        search_ring-Follows (hash_key name),
        rw (node_at, e) at g,
        rw (not_empty, g) refl,
      )

  -- On a ring with k members that is not empty, `GetN` of n nodes, 1 ≤ n ≤ k, gives the first n
  -- distinct nodes of a turn around the ring from the name's position, if the turn has as many.
  pub get_n_lem :
      (name : Bytes) (k n : ℕ)
      → c.count ≡ pos k
      → 1 ≤ n
      → n ≤ k
      → n ≤ length (distinct [] (turn hash_key c name))
      → get_n hash_key c name n ≡ nodes (take n (distinct [] (turn hash_key c name)))
  unfolding get_n start
  get_n_lem name k n count one le enough =
      let (v, g, t) = at_start name in
      let cut : cut_to_count c.count n ≡ n = rw count (ground arith) in
      let sign : ltb_ℤ c.count (pos 0) ≡ false = rw count (ground arith) in
      elim (Bool-cases (1 == n)) [
        | inl e ↦ let e' : n ≡ 1 = ground arith in rw (not_empty, g, sign, cut, e, t) (rw e' refl)
        | inr e ↦
            let rest =
              drop (start hash_key c name + 1) (ring hash_key c)
              ++ take (start hash_key c name) (ring hash_key c) in
            let short : length (v ∷ []) < n = ground arith in
            let enough' : n ≤ length (distinct (v ∷ []) rest) = rw t at enough in
            let walked =
              walk-outer (ring hash_key c) (node_at c)
                (at_nodes_of c.circles c.sorted_hashes r.placed) (start hash_key c name) n
                (2 * length (ring hash_key c) + 1) (start hash_key c name + 1) (v ∷ [])
                (omega arith) (omega (arith, start-lt name)) (omega (arith, start-lt name)) short
                enough' in
            rw (not_empty, g, sign, cut, e, t)
              (rw (length-nodes_of c.circles c.sorted_hashes r.placed) at walked)
      ]

  select_from-usable :
      (id : Bytes) (k i n : ℕ)
      → c.count ≡ pos k
      → i + n ≤ k
      → i + n ≤ length (distinct [] (turn hash_key c id))
      → select_from hash_key c id i n
        ≡ first_usable (take n (drop i (distinct [] (turn hash_key c id))))
  unfolding select_from
  select_from-usable id k i zero count le enough = refl
  select_from-usable id k i (suc n) count le enough =
      let d = distinct [] (turn hash_key c id) in
      let (v, g, t) = at_drop d i (omega arith) in
      let got = get_n_lem id k (i + 1) count (omega arith) (omega arith) (omega arith) in
      let rest = select_from-usable id k (i + 1) n count (omega arith) (omega arith) in
      rw (got, pick-nodes (take (i + 1) d) i v _ (get_elem?-take_suc d i ∙ g), t, rest) refl

  -- On a ring with k members that is not empty, `Select` of a balancer with n ≤ k buckets gives the
  -- first usable one (it allows use and has no bad mark) of the first n distinct nodes of a turn
  -- around the ring from the object's position, if the turn has as many.
  pub select_lem :
      (id : Bytes) (k n : ℕ)
      → c.count ≡ pos k
      → n ≤ k
      → n ≤ length (distinct [] (turn hash_key c id))
      → select hash_key c id n ≡ first_usable (take n (distinct [] (turn hash_key c id)))
  unfolding select
  select_lem id k n count le enough = select_from-usable id k 0 n count (omega arith) (omega arith)
