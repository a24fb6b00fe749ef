-- ===== src/Prelude/Search.antt =====
-- `sort.Search` of Go's library, and what it finds.
use tavern.Prelude.{
  ℕ, zero, suc, ◌+◌, ◌-◌, ◌/◌, ◌≤◌, ◌<◌, ◌≡◌, Bool, true, false, arith, ltb, if◌then◌else◌,
}

-- the rounds left, and the bounds
unfoldable pub search_from : (ℕ → Bool) → ℕ → ℕ → ℕ → ℕ
search_from f zero i j = i
search_from f (suc fuel) i j =
    let h = (i + j) / 2 in
    let rest = search_from f fuel (if f h then i else h + 1) (if f h then h else j) in
    if ltb i j then rest else i

-- Each round at least halves the bounds, so that n + 1 rounds are enough.
unfoldable pub search : ℕ → (ℕ → Bool) → ℕ
unfolding search_from
search n f = search_from f (n + 1) 0 n

search_from-lt :
    (f : ℕ → Bool) (fuel i j n : ℕ)
    → j - i < fuel
    → i ≤ j
    → j ≤ n
    → (j < n → f j ≡ true)
    → search_from f fuel i j < n
    → f (search_from f fuel i j) ≡ true
unfolding search_from
search_from-lt f zero i j n e o k t h = absurd (omega arith)
search_from-lt f (suc fuel) i j n e o k t h =
    let upper = search_from-lt f fuel ((i + j) / 2 + 1) j n in
    let lower = search_from-lt f fuel i ((i + j) / 2) n in ground (arith, lower, upper)

search_from-gt :
    (f : ℕ → Bool) (fuel i j : ℕ)
    → j - i < fuel
    → i ≤ j
    → (0 < i → f (i - 1) ≡ false)
    → 0 < search_from f fuel i j
    → f (search_from f fuel i j - 1) ≡ false
unfolding search_from
search_from-gt f zero i j e o t h = absurd (omega arith)
search_from-gt f (suc fuel) i j e o t h =
    let upper = search_from-gt f fuel ((i + j) / 2 + 1) j in
    let lower = search_from-gt f fuel i ((i + j) / 2) in ground (arith, lower, upper)

search_from-bounds :
    (f : ℕ → Bool) (fuel i j : ℕ)
    → j - i < fuel
    → i ≤ j
    → (i ≤ search_from f fuel i j) × (search_from f fuel i j ≤ j)
unfolding search_from
search_from-bounds f zero i j e o = absurd (omega arith)
search_from-bounds f (suc fuel) i j e o =
    let upper = search_from-bounds f fuel ((i + j) / 2 + 1) j in
    let lower = search_from-bounds f fuel i ((i + j) / 2) in ground (arith, lower, upper)

module _ (f : ℕ → Bool) (n : ℕ) where
  -- What is found passes the test, whatever the test is.
  pub search-lt : search n f < n → f (search n f) ≡ true
  unfolding search
  search-lt h =
      search_from-lt f (n + 1) 0 n n (omega arith) (omega arith) (omega arith)
        (λ l. absurd (omega arith)) h

  -- What stands before it does not.
  pub search-gt : 0 < search n f → f (search n f - 1) ≡ false
  unfolding search
  search-gt h =
      search_from-gt f (n + 1) 0 n (omega arith) (omega arith) (λ l. absurd (omega arith)) h

  pub search-le : search n f ≤ n
  unfolding search
  search-le = (search_from-bounds f (n + 1) 0 n (omega arith) (omega arith)).1
