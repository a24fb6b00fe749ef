-- ===== src/Caching/Assemble/Search.antt =====
-- The stored chunk that `getContents` finds.
use tavern.Prelude.{
  ℕ, zero, suc, ◌≤◌, ◌<◌, ◌≡◌, refl, none, some, List, arith, ltb, length, get_elem?, Bool-cases,
  inl, inr,
}
use tavern.Prelude.Search.{search, search-lt}
use tavern.Caching.Chunks.{Source, is_anchor, find_anchor}

get_elem?-past : (xs : List ℕ) (i : ℕ) → length xs ≤ i → get_elem? xs i ≡ none
get_elem?-past List.[] i h = refl
get_elem?-past (List.◌∷◌ x xs) zero h = absurd (omega arith)
get_elem?-past (List.◌∷◌ x xs) (suc i) h = get_elem?-past xs i (omega arith)

-- The stored chunk that is found lies behind the missing one, up to the last that is asked for.
pub find_anchor_bounds :
    (c : Source) (first last a : ℕ) → find_anchor c first last ≡ some a → (first < a) × (a ≤ last)
unfolding find_anchor
find_anchor_bounds c first last a h =
    let n = length c.chunks in
    let f = λ (i : ℕ). is_anchor first last (get_elem? c.chunks i) in
    elim (Bool-cases (ltb (search n f) n)) [
      | inl e ↦ ground (arith, search-lt f n)
      | inr e ↦ ground (arith, get_elem?-past c.chunks (search n f))
    ]
