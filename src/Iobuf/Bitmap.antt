-- ===== src/Iobuf/Bitmap.antt =====
-- What the program uses of the bitmap library (github.com/kelindar/bitmap): its operations, and
-- their documented effect on membership. A list of numbers shows that it can be implemented.
use tavern.Prelude.{
  ℕ, ◌<◌, ◌≡◌, refl, Bool, false, not, ◌&&◌, ◌||◌, List, [], ◌∷◌, arith, ◌==◌, ltb, if◌then◌else◌,
  All,
}

-- every number is below the next one
abbrev pub IsAscending : List ℕ → Type 0
IsAscending [] = Unit
IsAscending (x ∷ xs) = All (λ y. x < y) xs × IsAscending xs

abbrev pub has : List ℕ → ℕ → Bool
has [] i = false
has (x ∷ xs) i = x == i || has xs i

pub record BitmapLib : Type 1 where
  pub Bitmap : Type 0
  pub empty : Bitmap
  pub contains : Bitmap → ℕ → Bool
  pub set : Bitmap → ℕ → Bitmap
  -- `Range` calls its function with these numbers in turn.
  pub range : Bitmap → List ℕ
  pub inter : Bitmap → Bitmap → Bitmap
  pub diff : Bitmap → Bitmap → Bitmap
  pub contains-empty : (i : ℕ) → contains empty i ≡ false
  pub contains-set : (b : Bitmap) (i j : ℕ) → contains (set b i) j ≡ (i == j || contains b j)
  pub contains-inter :
      (a b : Bitmap) (i : ℕ) → contains (inter a b) i ≡ (contains a i && contains b i)
  pub contains-diff :
      (a b : Bitmap) (i : ℕ) → contains (diff a b) i ≡ (contains a i && not (contains b i))
  pub range_ascending : (b : Bitmap) → IsAscending (range b)
  pub has-range : (b : Bitmap) (i : ℕ) → has (range b) i ≡ contains b i

unfoldable insert : ℕ → List ℕ → List ℕ
insert n [] = n ∷ []
insert n (x ∷ xs) = if ltb n x then n ∷ x ∷ xs else if n == x then x ∷ xs else x ∷ insert n xs

unfoldable pub sort : List ℕ → List ℕ
unfolding insert
sort [] = []
sort (x ∷ xs) = insert x (sort xs)

All-insert : (a n : ℕ) (xs : List ℕ) → a < n → All (λ y. a < y) xs → All (λ y. a < y) (insert n xs)
unfolding insert
All-insert a n [] h k = (h, tt)
All-insert a n (x ∷ xs) h k = ground (arith, All-insert a n xs h)

All-trans : (a b : ℕ) (xs : List ℕ) → a < b → All (λ y. b < y) xs → All (λ y. a < y) xs
All-trans a b [] h k = tt
All-trans a b (x ∷ xs) h k = (omega arith, All-trans a b xs h k.1)

insert-IsAscending : (n : ℕ) (xs : List ℕ) → IsAscending xs → IsAscending (insert n xs)
unfolding insert
insert-IsAscending n [] h = (tt, tt)
insert-IsAscending n (x ∷ xs) h =
    ground (arith, insert-IsAscending n xs h.1, All-insert x n xs, All-trans n x xs)

pub sort-IsAscending : (xs : List ℕ) → IsAscending (sort xs)
unfolding sort
sort-IsAscending [] = tt
sort-IsAscending (x ∷ xs) = insert-IsAscending x (sort xs) (sort-IsAscending xs)

has-insert : (n : ℕ) (xs : List ℕ) (i : ℕ) → has (insert n xs) i ≡ (n == i || has xs i)
unfolding insert
has-insert n [] i = refl
has-insert n (x ∷ xs) i = ground (arith, has-insert n xs i)

pub has-sort : (xs : List ℕ) (i : ℕ) → has (sort xs) i ≡ has xs i
unfolding sort
has-sort [] i = refl
has-sort (x ∷ xs) i = ground (arith, has-sort xs i, has-insert x (sort xs) i)

abbrev pub select : (ℕ → Bool) → List ℕ → List ℕ
select p [] = []
select p (x ∷ xs) = if p x then x ∷ select p xs else select p xs

pub has-select : (p : ℕ → Bool) (xs : List ℕ) (i : ℕ) → has (select p xs) i ≡ (has xs i && p i)
has-select p [] i = refl
has-select p (x ∷ xs) i = ground (arith, has-select p xs i)

abbrev pub lists : BitmapLib
lists = record {
  Bitmap = List ℕ;
  empty = [];
  contains = has;
  set = λ b i. i ∷ b;
  range = sort;
  inter = λ a b. select (has b) a;
  diff = λ a b. select (λ i. not (has b i)) a;
  contains-empty = λ i. refl;
  contains-set = λ b i j. refl;
  contains-inter = λ a b i. has-select (has b) a i;
  contains-diff = λ a b i. has-select (λ i. not (has b i)) a i;
  range_ascending = sort-IsAscending;
  has-range = has-sort;
}
