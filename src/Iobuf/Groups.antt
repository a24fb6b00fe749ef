-- ===== src/Iobuf/Groups.antt =====
-- `groupBy` cuts a list of chunk indices into its runs of consecutive numbers.
use mathlib.Core.List.{append_assoc}
use tavern.Prelude.{ℕ, ◌+◌, ◌≡◌, ◌≢◌, refl, List, [], ◌∷◌, ◌++◌, arith, ◌==◌, Bool-cases, inl, inr}
use tavern.Iobuf.Block.{u32, group_from, group_by}

abbrev pub concat : List (List ℕ) → List ℕ
concat [] = []
concat (g ∷ gs) = g ++ concat gs

-- From `x` each number is one more than the one before it, as a uint32, and the last is `l`.
abbrev pub IsRunFrom : ℕ → List ℕ → ℕ → Type 0
IsRunFrom x [] l = x ≡ l
IsRunFrom x (y ∷ ys) l = (y ≡ u32 (x + 1)) × IsRunFrom y ys l

abbrev pub IsRunTo : List ℕ → ℕ → Type 0
IsRunTo [] l = ⊥
IsRunTo (x ∷ xs) l = IsRunFrom x xs l

-- The next group does not go on where a run ends.
abbrev pub StartsAnew : ℕ → List (List ℕ) → Type 0
StartsAnew l [] = Unit
StartsAnew l ([] ∷ gs) = ⊥
StartsAnew l ((y ∷ ys) ∷ gs) = y ≢ u32 (l + 1)

-- Runs, none of which the next one continues.
abbrev pub AreRuns : List (List ℕ) → Type 0
AreRuns [] = Unit
AreRuns (g ∷ gs) = ((l : ℕ) × IsRunTo g l × StartsAnew l gs) × AreRuns gs

concat-group_from : (g : List ℕ) (prev : ℕ) (xs : List ℕ) → concat (group_from g prev xs) ≡ g ++ xs
unfolding group_from
concat-group_from g prev [] = refl
concat-group_from g prev (x ∷ xs) = ground (
  arith,
  concat-group_from (g ++ x ∷ []) x xs,
  append_assoc g (x ∷ []) xs,
  concat-group_from (x ∷ []) x xs,
)

IsRunFrom-append :
    (x : ℕ) (xs : List ℕ) (l y : ℕ)
    → IsRunFrom x xs l
    → y ≡ u32 (l + 1)
    → IsRunFrom x (xs ++ y ∷ []) y
IsRunFrom-append x [] l y h e = ground arith
IsRunFrom-append x (z ∷ zs) l y h e = (h.0, IsRunFrom-append z zs l y h.1 e)

IsRunTo-append : (g : List ℕ) (l y : ℕ) → IsRunTo g l → y ≡ u32 (l + 1) → IsRunTo (g ++ y ∷ []) y
IsRunTo-append [] l y h e = absurd h
IsRunTo-append (x ∷ xs) l y h e = IsRunFrom-append x xs l y h e

-- The first group begins as the group at hand does.
group_from-StartsAnew :
    (x : ℕ) (g : List ℕ) (prev : ℕ) (xs : List ℕ) (l : ℕ)
    → x ≢ u32 (l + 1)
    → StartsAnew l (group_from (x ∷ g) prev xs)
unfolding group_from
group_from-StartsAnew x g prev [] l h = h
group_from-StartsAnew x g prev (y ∷ ys) l h =
    ground (arith, group_from-StartsAnew x (g ++ y ∷ []) y ys l)

group_from-AreRuns :
    (g : List ℕ) (prev : ℕ) (xs : List ℕ) → IsRunTo g prev → AreRuns (group_from g prev xs)
unfolding group_from
group_from-AreRuns g prev [] h = ((prev, h, tt), tt)
group_from-AreRuns g prev (x ∷ xs) h = elim (Bool-cases (x == u32 (prev + 1))) [
  | inl e ↦
      ground
        (arith, group_from-AreRuns (g ++ x ∷ []) x xs (IsRunTo-append g prev x h (ground arith)))
  | inr e ↦
      let next : AreRuns (g ∷ group_from (x ∷ []) x xs) = (
        (prev, h, group_from-StartsAnew x [] x xs prev (ground arith)),
        group_from-AreRuns (x ∷ []) x xs refl,
      ) in
      ground (arith, next)
]

-- `groupBy` keeps the numbers in their order and cuts them into runs of consecutive numbers, as
-- long as they can be.
pub group_by_lem : (v : List ℕ) → (concat (group_by v) ≡ v) × AreRuns (group_by v)
unfolding group_by
group_by_lem [] = (refl, tt)
group_by_lem (x ∷ xs) = (concat-group_from (x ∷ []) x xs, group_from-AreRuns (x ∷ []) x xs refl)
