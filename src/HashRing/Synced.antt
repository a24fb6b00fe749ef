-- ===== src/HashRing/Synced.antt =====
-- What `updateSortedHashes` keeps: the sorted hashes are the keys of the circle, in order.
use tavern.Prelude.{
  ℕ, ◌≤◌, ◌≡◌, refl, ◌∙◌, Bool, true, false, some, List, [], ◌∷◌, arith, leb, ◌==◌, if◌then◌else◌,
  map, All, inl, inr, Bool-cases,
}
use tavern.Prelude.Text.{Bytes}
use tavern.HashRing.Ring.{
  Node, Consistent, lookup, insert, sort, update_sorted_hashes, add, remove, remove_absent, add_new,
  has_id, is_member, by_id, set, new_consistent, added, removed, no_nodes,
}

abbrev pub IsAscending : List ℕ → Type 0
IsAscending [] = Unit
IsAscending (x ∷ xs) = All (λ y. x ≤ y) xs × IsAscending xs

-- The circle has a node under the hash.
abbrev pub HasNode : List (ℕ × Node) → ℕ → Type 0
HasNode m h = (v : Node) × (lookup m h ≡ some v)

abbrev pub has : List ℕ → ℕ → Bool
has [] h = false
has (x ∷ xs) h = if x == h then true else has xs h

-- The sorted hashes ascend, each has a node, and each key of the circle is among them.
pub record IsRing (c : Consistent) : Type 0 where
  pub ascending : IsAscending c.sorted_hashes
  pub placed : All (λ h. HasNode c.circles h) c.sorted_hashes
  pub complete : All (λ kv. has c.sorted_hashes kv.0 ≡ true) c.circles

module _ (P : ℕ → Type 0) where
  All-insert : (h : ℕ) (xs : List ℕ) → P h → All P xs → All P (insert h xs)
  All-insert h [] p a = (p, tt)
  All-insert h (x ∷ xs) p a = elim (Bool-cases (leb h x)) [
    | inl e ↦ rw e (p, a)
    | inr e ↦ rw e (a.0, All-insert h xs p a.1)
  ]

  pub All-sort : (xs : List ℕ) → All P xs → All P (sort xs)
  unfolding sort
  All-sort [] a = tt
  All-sort (x ∷ xs) a = All-insert x (sort xs) a.0 (All-sort xs a.1)

All-trans : (a b : ℕ) (xs : List ℕ) → a ≤ b → All (λ y. b ≤ y) xs → All (λ y. a ≤ y) xs
All-trans a b [] h k = tt
All-trans a b (x ∷ xs) h k = (omega (arith, k.0), All-trans a b xs h k.1)

insert-IsAscending : (h : ℕ) (xs : List ℕ) → IsAscending xs → IsAscending (insert h xs)
insert-IsAscending h [] a = (tt, tt)
insert-IsAscending h (x ∷ xs) a = elim (Bool-cases (leb h x)) [
  | inl e ↦ rw e ((ground arith, All-trans h x xs (ground arith) a.0), a)
  | inr e ↦ rw e (All-insert (λ y. x ≤ y) h xs (ground arith) a.0, insert-IsAscending h xs a.1)
]

sort-IsAscending : (xs : List ℕ) → IsAscending (sort xs)
unfolding sort
sort-IsAscending [] = tt
sort-IsAscending (x ∷ xs) = insert-IsAscending x (sort xs) (sort-IsAscending xs)

has-insert : (h : ℕ) (xs : List ℕ) (k : ℕ) → has (insert h xs) k ≡ has (h ∷ xs) k
has-insert h [] k = refl
has-insert h (x ∷ xs) k = ground (arith, has-insert h xs k)

has-sort : (xs : List ℕ) (k : ℕ) → has (sort xs) k ≡ has xs k
unfolding sort
has-sort [] k = refl
has-sort (x ∷ xs) k = ground (arith, has-insert x (sort xs) k, has-sort xs k)

lookup-here :
    (m : List (ℕ × Node)) (h : ℕ) (v : Node) (k : ℕ) → HasNode m k → HasNode ((h, v) ∷ m) k
lookup-here m h v k (w, e) = elim (Bool-cases (h == k)) [
  | inl q ↦ (v, rw q refl)
  | inr q ↦ (w, rw q e)
]

All-HasNode :
    (m : List (ℕ × Node)) (h : ℕ) (v : Node) (ks : List ℕ)
    → All (λ k. HasNode m k) ks
    → All (λ k. HasNode ((h, v) ∷ m) k) ks
All-HasNode m h v [] a = tt
All-HasNode m h v (k ∷ ks) a = (lookup-here m h v k a.0, All-HasNode m h v ks a.1)

abbrev keys : List (ℕ × Node) → List ℕ
keys m = map (λ kv. kv.0) m

keys_placed : (m : List (ℕ × Node)) → All (λ k. HasNode m k) (keys m)
keys_placed [] = tt
keys_placed ((h, v) ∷ m) = ((v, ground arith), All-HasNode m h v (keys m) (keys_placed m))

complete_when :
    (xs : List ℕ) (m : List (ℕ × Node))
    → ((k : ℕ) → has (keys m) k ≡ true → has xs k ≡ true)
    → All (λ kv. has xs kv.0 ≡ true) m
complete_when xs [] h = tt
complete_when xs ((k, v) ∷ m) h =
    (h k (ground arith), complete_when xs m (λ j e. h j (ground (arith, e))))

update_sorted_hashes-IsRing : (c : Consistent) → IsRing (update_sorted_hashes c)
unfolding update_sorted_hashes
update_sorted_hashes-IsRing c = record {
  ascending = sort-IsAscending (keys c.circles);
  placed = All-sort (λ k. HasNode c.circles k) (keys c.circles) (keys_placed c.circles);
  complete =
      complete_when (sort (keys c.circles)) c.circles (λ k e. has-sort (keys c.circles) k ∙ e);
}

module _ (hash_key : Bytes → ℕ) where
  -- `add` and `remove` leave a ring, whatever they are applied to.
  pub add-IsRing : (c : Consistent) (v : Node) (weight : ℕ) → IsRing (add hash_key c v weight)
  unfolding add
  add-IsRing c v weight = update_sorted_hashes-IsRing (added hash_key c v weight)

  pub remove-IsRing :
      (c : Consistent) (id : Bytes) (weight : ℕ) → IsRing (remove hash_key c id weight)
  unfolding remove
  remove-IsRing c id weight = update_sorted_hashes-IsRing (removed hash_key c id weight)

  remove_absent-IsRing :
      (elts : List Node) (ks : List Bytes) (c : Consistent)
      → IsRing c
      → IsRing (remove_absent hash_key elts ks c)
  unfolding remove_absent
  remove_absent-IsRing elts [] c r = r
  remove_absent-IsRing elts (k ∷ ks) c r = elim (Bool-cases (has_id elts k)) [
    | inl e ↦ rw e (remove_absent-IsRing elts ks c r)
    | inr e ↦ rw e (remove_absent-IsRing elts ks _ (remove-IsRing c k 1))
  ]

  add_new-IsRing : (vs : List Node) (c : Consistent) → IsRing c → IsRing (add_new hash_key vs c)
  unfolding add_new
  add_new-IsRing [] c r = r
  add_new-IsRing (v ∷ vs) c r = elim (Bool-cases (is_member c.members v.id)) [
    | inl e ↦ rw e (add_new-IsRing vs c r)
    | inr e ↦ rw e (add_new-IsRing vs _ (add-IsRing c v v.weight))
  ]

  -- `Set` keeps the ring: its sorted hashes ascend and are the keys of the circle.
  pub set-IsRing : (c : Consistent) (vs : List Node) → IsRing c → IsRing (set hash_key c vs)
  unfolding set
  set-IsRing c vs r =
      add_new-IsRing (by_id [] vs) _ (remove_absent-IsRing (by_id [] vs) c.members c r)

  -- The ring that `NewConsistent` builds has its sorted hashes in ascending order, and they are the
  -- keys of its circle.
  pub new_consistent-IsRing :
      (vs : List Node) (replicas : ℕ) → IsRing (new_consistent hash_key vs replicas)
  unfolding new_consistent
  new_consistent-IsRing vs replicas =
      set-IsRing (no_nodes hash_key replicas) vs
        (record { ascending = tt; placed = tt; complete = tt })
