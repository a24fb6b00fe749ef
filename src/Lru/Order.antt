-- ===== src/Lru/Order.antt =====
-- `evict` takes entries from the front of the cache's order, the lowest frequencies first, and `TopK`
-- gives keys from its back.
use mathlib.Core.List.{append-nil, append_assoc}
use tavern.Prelude.{
  ℕ, zero, suc, ◌+◌, ◌≤◌, ◌<◌, ◌≡◌, refl, ap, sym, ◌∙◌, Bool, true, Option, none, some, List, [],
  ◌∷◌, ◌++◌, arith, leb, length, take, drop, All, length-append, inl, inr, Bool-cases, Option-cases,
}
use tavern.Prelude.Slices.{take-append_short, take-append_exact, take_all}
use tavern.Lru.Cache.{
  FreqNode, Cache, order, backwards, pop_front, pop_node, keep_node, evict, popped, top_entries,
  top_nodes, top_k,
}

-- No node is empty.
abbrev pub AreFilled : {K : Type 0} → List (FreqNode K) → Type 0
AreFilled ns = All (λ n. 0 < length n.entries) ns

module _ {K : Type 0} where
  order-keep_node :
      (f : ℕ) (ks : List K) (ns : List (FreqNode K)) → order (keep_node f ks ns) ≡ ks ++ order ns
  order-keep_node f [] ns = refl
  order-keep_node f (k ∷ ks) ns = refl

  keep_node-AreFilled :
      (f : ℕ) (ks : List K) (ns : List (FreqNode K)) → AreFilled ns → AreFilled (keep_node f ks ns)
  keep_node-AreFilled f [] ns a = a
  keep_node-AreFilled f (k ∷ ks) ns a = (omega arith, a)

  -- the first key of the nodes, and the nodes that are left without it
  abbrev Popped : List (FreqNode K) → Option (K × List (FreqNode K)) → Type 0
  Popped ns none = order ns ≡ []
  Popped ns (some (k, ms)) = (order ns ≡ k ∷ order ms) × AreFilled ms

  pop_node-Popped :
      (f : ℕ) (ks : List K) (ns : List (FreqNode K))
      → 0 < length ks
      → AreFilled ns
      → Popped (record { freq = f; entries = ks } ∷ ns) (pop_node f ks ns)
  pop_node-Popped f [] ns h a = absurd (omega arith)
  pop_node-Popped f (k ∷ ks) ns h a =
      (ap (λ t. k ∷ t) (sym (order-keep_node f ks ns)), keep_node-AreFilled f ks ns a)

  pub pop_front-Popped : (ns : List (FreqNode K)) → AreFilled ns → Popped ns (pop_front ns)
  pop_front-Popped [] a = refl
  pop_front-Popped (n ∷ ns) a = pop_node-Popped n.freq n.entries ns a.0 a.1

  drop-nil : (n : ℕ) → drop {A = K} n [] ≡ []
  drop-nil zero = refl
  drop-nil (suc n) = refl

  top_entries-eq :
      (k : ℕ) (xs keys : List K)
      → length keys < k
      → top_entries k xs keys ≡ (take k (keys ++ xs), leb k (length (keys ++ xs)))
  unfolding top_entries
  top_entries-eq k [] keys h =
      rw (append-nil keys, take_all k keys (omega arith)) (ap (λ b. (keys, b)) (ground arith))
  top_entries-eq k (x ∷ xs) keys h =
      let size : length (keys ++ x ∷ []) ≡ length keys + 1 = length-append keys (x ∷ []) in
      let whole = append_assoc keys (x ∷ []) xs in
      elim (Bool-cases (leb k (length keys + 1))) [
        | inl e ↦
            let m : length (keys ++ x ∷ []) ≡ k = ground (arith, size) in
            let cut : take k (keys ++ x ∷ xs) ≡ keys ++ x ∷ [] =
              rw (← whole, ← m) (take-append_exact (keys ++ x ∷ []) xs) in
            let reached : leb k (length (keys ++ x ∷ xs)) ≡ true =
              ground (arith, length-append keys (x ∷ xs)) in
            rw (e, cut, reached) refl
        | inr e ↦ rw (e, ← whole) (top_entries-eq k xs (keys ++ x ∷ []) (ground (arith, size)))
      ]

  -- the keys of the nodes, each node from its back
  flat : List (FreqNode K) → List K
  flat [] = []
  flat (n ∷ ns) = backwards n.entries [] ++ flat ns

  top_nodes-eq :
      (k : ℕ) (ns : List (FreqNode K)) (keys : List K)
      → length keys < k
      → top_nodes k ns keys ≡ take k (keys ++ flat ns)
  unfolding top_nodes flat
  top_nodes-eq k [] keys h = rw (append-nil keys, take_all k keys (omega arith)) refl
  top_nodes-eq k (n ∷ ns) keys h =
      let here = keys ++ backwards n.entries [] in
      let e = top_entries-eq k (backwards n.entries []) keys h in
      let whole = append_assoc keys (backwards n.entries []) (flat ns) in
      elim (Bool-cases (leb k (length here))) [
        | inl full ↦ rw (e, full, ← whole) (sym (take-append_short k here (flat ns) (ground arith)))
        | inr more ↦
            let rest = take_all k here (ground arith) in
            rw (e, more, rest, ← whole) (top_nodes-eq k ns here (ground arith))
      ]

  backwards-append : (xs acc : List K) → backwards xs acc ≡ backwards xs [] ++ acc
  backwards-append [] acc = refl
  backwards-append (x ∷ xs) acc =
      backwards-append xs (x ∷ acc)
      ∙ sym (append_assoc (backwards xs []) (x ∷ []) acc)
      ∙ ap (λ t. t ++ acc) (sym (backwards-append xs (x ∷ [])))

  backwards_both : (xs ys acc : List K) → backwards (xs ++ ys) acc ≡ backwards ys (backwards xs acc)
  backwards_both [] ys acc = refl
  backwards_both (x ∷ xs) ys acc = backwards_both xs ys (x ∷ acc)

  flat-backwards :
      (ns acc : List (FreqNode K)) → flat (backwards ns acc) ≡ backwards (order ns) (flat acc)
  unfolding flat
  flat-backwards [] acc = refl
  flat-backwards (n ∷ ns) acc =
      flat-backwards ns (n ∷ acc)
      ∙ sym (
          backwards_both n.entries (order ns) (flat acc)
          ∙ ap (λ t. backwards (order ns) t) (backwards-append n.entries (flat acc)))

-- `TopK` of k ≥ 1 gives the last k keys of the cache's order, by frequency and then by the time at
-- which they came to it, the highest first.
pub top_k_lem :
    {K V : Type 0} (c : Cache K V) (k : ℕ)
    → 1 ≤ k
    → top_k c k ≡ take k (backwards (order c.freqs) [])
unfolding top_k flat
top_k_lem c k h =
    top_nodes-eq k (backwards c.freqs []) [] (omega arith)
    ∙ ap (λ t. take k t) (flat-backwards c.freqs [])

module _ {K V : Type 0} (eq : K → K → Bool) where
  pub evict-none : (n : ℕ) (c : Cache K V) → pop_front c.freqs ≡ none → evict eq (suc n) c ≡ c
  unfolding evict
  evict-none n c e = rw (evict, e) refl

  pub evict-some :
      (n : ℕ) (c : Cache K V) (k : K) (ms : List (FreqNode K))
      → pop_front c.freqs ≡ some (k, ms)
      → evict eq (suc n) c ≡ evict eq n (popped eq c k ms)
  unfolding evict
  evict-some n c k ms e = rw (evict, e) refl

  pub evict-AreFilled : (n : ℕ) (c : Cache K V) → AreFilled c.freqs → AreFilled (evict eq n c).freqs
  unfolding evict
  evict-AreFilled zero c a = a
  evict-AreFilled (suc n) c a = elim (Option-cases (pop_front c.freqs)) [
    | inl e ↦ rw (evict-none n c e) a
    | inr ((k, ms), e) ↦
        let p = rw e at (pop_front-Popped c.freqs a) in
        rw (evict-some n c k ms e) (evict-AreFilled n (popped eq c k ms) p.1)
  ]
