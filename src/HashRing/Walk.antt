-- ===== src/HashRing/Walk.antt =====
-- `GetN` gives the first distinct nodes of the ring, from the position that the name hashes to.
use mathlib.Core.List.{append-nil, append_assoc}
use tavern.Prelude.{
  ℕ, zero, suc, ◌+◌, ◌-◌, ◌≤◌, ◌<◌, ◌≡◌, ◌≢◌, refl, ap, ◌∙◌, false, Option, some, List, [], ◌∷◌,
  ◌++◌, arith, leb, ◌==◌, if◌then◌else◌, length, get_elem?, take, drop, length-append, inl, inr,
  Bool-cases,
}
use tavern.Prelude.Slices.{take-append_exact}
use tavern.HashRing.Ring.{Node}
use tavern.HashRing.Nearest.{slice_contains_member, with_node, nodes, walk}

-- the nodes of a list that are new, by their id, after the given ones
abbrev pub fresh : List Node → List Node → List Node
fresh res [] = []
fresh res (v ∷ vs) =
    let more = v ∷ fresh (res ++ v ∷ []) vs in
    let same = fresh res vs in if slice_contains_member res v then same else more

-- the given nodes, and the new ones
abbrev pub distinct : List Node → List Node → List Node
distinct res vs = res ++ fresh res vs

distinct-step :
    (res : List Node) (v : Node) (vs : List Node)
    → distinct (with_node res v) vs ≡ distinct res (v ∷ vs)
distinct-step res v vs = elim (Bool-cases (slice_contains_member res v)) [
  | inl e ↦ rw e refl
  | inr e ↦ rw e (append_assoc res (v ∷ []) (fresh (res ++ v ∷ []) vs))
]

distinct-nil : (res : List Node) → distinct res [] ≡ res
distinct-nil res = append-nil res

length-with_node : (res : List Node) (v : Node) → length (with_node res v) ≤ length res + 1
length-with_node res v = ground (arith, length-append res (v ∷ []))

-- an element in range, and the rest of the list from it on
pub at_drop :
    (vs : List Node) (i : ℕ)
    → i < length vs
    → (v : Node) × (get_elem? vs i ≡ some v) × (drop i vs ≡ v ∷ drop (i + 1) vs)
at_drop [] i h = absurd (omega arith)
at_drop (x ∷ vs) zero h = (x, refl, refl)
at_drop (x ∷ vs) (suc i) h =
    let (v, g, d) = at_drop vs i (omega arith) in
    let e : suc i + 1 ≡ suc (i + 1) = omega arith in (v, g, rw e d)

drop_past : (vs : List Node) (i : ℕ) → length vs ≤ i → drop i vs ≡ []
drop_past [] zero h = refl
drop_past [] (suc i) h = refl
drop_past (x ∷ vs) zero h = absurd (omega arith)
drop_past (x ∷ vs) (suc i) h = drop_past vs i (omega arith)

take_suc : (n : ℕ) (v : Node) (vs : List Node) → 0 < n → take n (v ∷ vs) ≡ v ∷ take (n - 1) vs
take_suc zero v vs h = absurd (omega arith)
take_suc (suc n) v vs h = ap (λ k. v ∷ take k vs) (omega arith)

module _ (ring : List Node) (at : ℕ → Option Node) (is_at : (i : ℕ) → at i ≡ get_elem? ring i)
    (start n : ℕ) where
  abbrev len : ℕ
  len = length ring

  -- what a walk gives that still has these nodes before it
  abbrev Gives : ℕ → ℕ → List Node → List Node → Type 0
  Gives fuel i res todo = walk at len start n fuel i res ≡ nodes (take n (distinct res todo))

  walk-some :
      (fuel i j : ℕ) (res : List Node) (v : Node)
      → i ≢ start
      → (if leb len i then 0 else i) ≡ j
      → get_elem? ring j ≡ some v
      → walk at len start n (suc fuel) i res ≡ (
          if length (with_node res v) == n
          then nodes (with_node res v)
          else walk at len start n fuel (j + 1) (with_node res v))
  unfolding walk
  walk-some fuel i j res v ne e g =
      let stop : (i == start) ≡ false = ground arith in
      let first = if leb len i then 0 else i in
      let found : at first ≡ some v = is_at first ∙ ap (λ k. get_elem? ring k) e ∙ g in
      rw (← e, walk, found, stop) refl

  -- a step of the walk at a position in range
  walk-step :
      (fuel i j : ℕ) (res todo : List Node) (v : Node)
      → i ≢ start
      → (if leb len i then 0 else i) ≡ j
      → get_elem? ring j ≡ some v
      → length res < n
      → (length (with_node res v) < n → Gives fuel (j + 1) (with_node res v) todo)
      → Gives (suc fuel) i res (v ∷ todo)
  unfolding walk
  walk-step fuel i j res todo v ne e g l k =
      let s = distinct-step res v todo in
      let exact = take-append_exact (with_node res v) (fresh (with_node res v) todo) in
      let bound = length-with_node res v in
      elim (Bool-cases (length (with_node res v) == n)) [
        | inl q ↦
            let m : length (with_node res v) ≡ n = ground arith in
            let done : take n (distinct res (v ∷ todo)) ≡ with_node res v = rw (← s, ← m) exact in
            walk-some fuel i j res v ne e g ∙ rw (q, done) refl
        | inr q ↦ walk-some fuel i j res v ne e g ∙ rw (q, ← s) (k (ground (arith, bound)))
      ]

  -- the walk before its start, after it has gone around
  walk-inner :
      (fuel i : ℕ) (res : List Node)
      → i ≤ start
      → start < len
      → start - i < fuel
      → length res < n
      → n ≤ length (distinct res (take (start - i) (drop i ring)))
      → Gives fuel i res (take (start - i) (drop i ring))
  walk-inner zero i res h s f l enough = absurd (omega arith)
  walk-inner (suc fuel) i res h s f l enough = elim (Bool-cases (i == start)) [
    | inl q ↦
        let z : start - i ≡ 0 = ground arith in
        let none_left : n ≤ length (distinct res []) = rw z at enough in
        absurd (omega (arith, none_left, ap length (distinct-nil res)))
    | inr q ↦
        let (v, g, d) = at_drop ring i (omega arith) in
        let ne : i ≢ start = ground arith in
        let t : take (start - i) (drop i ring) ≡ v ∷ take (start - (i + 1)) (drop (i + 1) ring) =
          rw d (
            take_suc (start - i) v (drop (i + 1) ring) (omega (arith, h, ne))
            ∙ ap (λ k. v ∷ take k (drop (i + 1) ring)) (omega arith)) in
        rw t (
          walk-step fuel i i res _ v ne (ground arith) g l (λ l'.
            walk-inner fuel (i + 1) (with_node res v) (omega (arith, h, ne)) s
              (omega (arith, h, ne, f)) l'
              (rw (distinct-step res v (take (start - (i + 1)) (drop (i + 1) ring)))
                (rw t at enough))))
  ]

  -- the walk behind its start
  pub walk-outer :
      (fuel i : ℕ) (res : List Node)
      → start < i
      → i ≤ len
      → len - i + start + 1 < fuel
      → length res < n
      → n ≤ length (distinct res (drop i ring ++ take start ring))
      → Gives fuel i res (drop i ring ++ take start ring)
  walk-outer zero i res h s f l enough = absurd (omega arith)
  walk-outer (suc fuel) i res h s f l enough = elim (Bool-cases (i == len)) [
    | inl q ↦
        let past : drop i ring ≡ [] = drop_past ring i (ground arith) in
        rw past (elim (Bool-cases (start == 0)) [
          | inl z ↦
              let zero_start : start ≡ 0 = ground arith in
              let w : take start ring ≡ [] = rw zero_start refl in
              let none_left : n ≤ length (distinct res []) = rw (past, w) at enough in
              absurd (omega (arith, none_left, ap length (distinct-nil res)))
          | inr z ↦
              let (v, g, d) = at_drop ring 0 (omega arith) in
              let t : take start ring ≡ v ∷ take (start - 1) (drop 1 ring) =
                ap (λ k. take start k) d ∙ take_suc start v (drop 1 ring) (ground arith) in
              rw t (
                walk-step fuel i 0 res _ v (omega arith) (ground arith) g l (λ l'.
                  walk-inner fuel 1 (with_node res v) (ground arith) (omega (arith, h, s))
                    (omega arith) l'
                    (rw (distinct-step res v (take (start - 1) (drop 1 ring)))
                      (rw (past, t) at enough))))
        ])
    | inr q ↦
        let (v, g, d) = at_drop ring i (ground arith) in
        let t : drop i ring ++ take start ring ≡ v ∷ (drop (i + 1) ring ++ take start ring) =
          rw d refl in
        rw t (
          walk-step fuel i i res _ v (omega arith) (ground arith) g l (λ l'.
            walk-outer fuel (i + 1) (with_node res v) (omega arith) (ground arith) (ground arith) l'
              (rw (distinct-step res v (drop (i + 1) ring ++ take start ring)) (rw t at enough))))
  ]
