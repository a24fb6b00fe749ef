-- ===== src/Prelude/Slices.antt =====
-- The part of a list between two positions; what lies past the end of the list is left out.
use native.Mathlib.Nat.{suc-add}
use tavern.Prelude.{
  ℕ, zero, suc, ◌+◌, ◌-◌, ◌≤◌, ◌≡◌, refl, sym, ap, ◌∙◌, List, [], ◌∷◌, ◌++◌, arith, take, drop,
  length, length-take, length-drop,
}

module _ {ℓ} {A : Type ℓ} where
  -- the elements at the positions from `a` on, below `b`
  unfoldable pub slice : List A → ℕ → ℕ → List A
  slice xs a b = take (b - a) (drop a xs)

pub drop-nil {ℓ} : (A : Type ℓ) (n : ℕ) → drop {A = A} n [] ≡ []
drop-nil A zero = refl
drop-nil A (suc n) = refl

pub take-nil {ℓ} : (A : Type ℓ) (n : ℕ) → take {A = A} n [] ≡ []
take-nil A zero = refl
take-nil A (suc n) = refl

module _ {ℓ} {A : Type ℓ} where
  pub take-append_exact : (xs ys : List A) → take (length xs) (xs ++ ys) ≡ xs
  take-append_exact [] ys = refl
  take-append_exact (x ∷ xs) ys = ap (λ t. x ∷ t) (take-append_exact xs ys)

  pub drop-append_past :
      (n : ℕ) (xs ys : List A) → length xs ≤ n → drop n (xs ++ ys) ≡ drop (n - length xs) ys
  drop-append_past n [] ys h = ap (λ k. drop k ys) (omega arith)
  drop-append_past zero (x ∷ xs) ys h = absurd (omega arith)
  drop-append_past (suc n) (x ∷ xs) ys h =
      drop-append_past n xs ys (omega arith) ∙ ap (λ k. drop k ys) (omega arith)

  pub take-append_past :
      (n : ℕ) (xs ys : List A) → length xs ≤ n → take n (xs ++ ys) ≡ xs ++ take (n - length xs) ys
  take-append_past n [] ys h = ap (λ k. take k ys) (omega arith)
  take-append_past zero (x ∷ xs) ys h = absurd (omega arith)
  take-append_past (suc n) (x ∷ xs) ys h =
      ap (λ t. x ∷ t)
        (take-append_past n xs ys (omega arith) ∙ ap (λ k. xs ++ take k ys) (omega arith))

  pub take-append_short : (k : ℕ) (xs ys : List A) → k ≤ length xs → take k (xs ++ ys) ≡ take k xs
  take-append_short zero xs ys h = refl
  take-append_short (suc k) [] ys h = absurd (omega arith)
  take-append_short (suc k) (x ∷ xs) ys h =
      ap (λ t. x ∷ t) (take-append_short k xs ys (omega arith))

  pub drop-drop : (m n : ℕ) (xs : List A) → drop m (drop n xs) ≡ drop (n + m) xs
  drop-drop m zero xs = ap (λ k. drop k xs) (omega arith)
  drop-drop m (suc n) [] = drop-nil A m ∙ rw drop-nil
  drop-drop m (suc n) (x ∷ xs) = rw suc-add (drop-drop m n xs)

  pub take-append-take : (m n : ℕ) (xs : List A) → take m xs ++ take n (drop m xs) ≡ take (m + n) xs
  take-append-take zero n xs = ap (λ k. take k xs) (omega arith)
  take-append-take (suc m) n [] = take-nil A n ∙ rw take-nil
  take-append-take (suc m) n (x ∷ xs) = rw suc-add (ap (◌∷◌ x) (take-append-take m n xs))

  pub take-take : (m n : ℕ) (xs : List A) → m ≤ n → take m (take n xs) ≡ take m xs
  take-take zero n xs h = refl
  take-take (suc m) zero xs h = absurd (omega arith)
  take-take (suc m) (suc n) [] h = refl
  take-take (suc m) (suc n) (x ∷ xs) h = ap (◌∷◌ x) (take-take m n xs (omega arith))

  pub drop-take : (m n : ℕ) (xs : List A) → drop m (take n xs) ≡ take (n - m) (drop m xs)
  drop-take zero n xs = ap (λ k. take k xs) (omega arith)
  drop-take (suc m) zero xs =
      let e : zero ≡ zero - suc m = omega arith in ap (λ k. take k (drop (suc m) xs)) e
  drop-take (suc m) (suc n) [] = rw take-nil
  drop-take (suc m) (suc n) (x ∷ xs) = drop-take m n xs ∙ ap (λ k. take k (drop m xs)) (omega arith)

  pub slice-append :
      (xs : List A) (a b c : ℕ) → a ≤ b → b ≤ c → slice xs a b ++ slice xs b c ≡ slice xs a c
  unfolding slice
  slice-append xs a b c h k =
      ap (λ ys. take (b - a) (drop a xs) ++ take (c - b) ys) behind
      ∙ take-append-take (b - a) (c - b) (drop a xs)
      ∙ ap (λ n. take n (drop a xs)) (omega arith)
    where
      behind : drop b xs ≡ drop (b - a) (drop a xs)
      behind = ap (λ n. drop n xs) (omega arith) ∙ sym (drop-drop (b - a) a xs)

  pub length-slice : (xs : List A) (a b : ℕ) → b ≤ length xs → length (slice xs a b) ≡ b - a
  unfolding slice
  length-slice xs a b h = omega (arith, length-take (b - a) (drop a xs), length-drop a xs)

  pub drop-slice : (xs : List A) (a b k : ℕ) → drop k (slice xs a b) ≡ slice xs (a + k) b
  unfolding slice
  drop-slice xs a b k =
      drop-take k (b - a) (drop a xs)
      ∙ ap (take (b - a - k)) (drop-drop k a xs)
      ∙ ap (λ n. take n (drop (a + k) xs)) (omega arith)

  pub take-slice :
      (xs : List A) (a b k : ℕ) → a + k ≤ b → take k (slice xs a b) ≡ slice xs a (a + k)
  unfolding slice
  take-slice xs a b k h =
      take-take k (b - a) (drop a xs) (omega arith) ∙ ap (λ n. take n (drop a xs)) (omega arith)

  -- a slice of a slice
  pub slice-slice :
      (xs : List A) (a b c d : ℕ)
      → a ≤ c
      → c ≤ d
      → d ≤ b
      → drop (c - a) (take (d - a) (slice xs a b)) ≡ slice xs c d
  slice-slice xs a b c d h k l =
      ap (λ ys. drop (c - a) ys) (take-slice xs a b (d - a) (omega arith))
      ∙ drop-slice xs a (a + (d - a)) (c - a)
      ∙ bounds (omega arith) (omega arith)
    where
      bounds : {x y : ℕ} → x ≡ c → y ≡ d → slice xs x y ≡ slice xs c d
      bounds e f = rw (e, f) refl

  pub length-slice_past :
      (xs : List A) (a b d : ℕ) → d ≤ b → d ≤ length xs → d - a ≤ length (slice xs a b)
  unfolding slice
  length-slice_past xs a b d h k = omega (arith, length-take (b - a) (drop a xs), length-drop a xs)

  pub take_all : (n : ℕ) (xs : List A) → length xs ≤ n → take n xs ≡ xs
  take_all n [] h = take-nil A n
  take_all zero (x ∷ xs) h = absurd (omega arith)
  take_all (suc n) (x ∷ xs) h = ap (◌∷◌ x) (take_all n xs (omega arith))

  pub slice_empty : (xs : List A) (a b : ℕ) → b ≤ a → slice xs a b ≡ []
  unfolding slice
  slice_empty xs a b h = let e : b - a ≡ 0 = omega arith in ap (λ n. take n (drop a xs)) e
