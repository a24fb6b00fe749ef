-- ===== src/VaryControl/Sorted.antt =====
-- Sorting texts: the order is total, so that what is sorted does not show the order before.
use tavern.Prelude.{
  ◌≡◌, inl, inr, refl, sym, ap, ◌∙◌, true, false, List, [], ◌∷◌, ◌++◌, arith, Bool-cases,
}
use tavern.Prelude.Text.{Bytes}
use tavern.VaryControl.{le_text, insert_text, insert_all, sort_strings}

le_text-total : (x y : Bytes) → le_text x y ≡ false → le_text y x ≡ true
unfolding le_text
le_text-total [] y h = cc
le_text-total (a ∷ x) [] h = refl
le_text-total (a ∷ x) (b ∷ y) h = ground (arith, le_text-total x y)

pub le_text-antisym : (x y : Bytes) → le_text x y ≡ true → le_text y x ≡ true → x ≡ y
unfolding le_text
le_text-antisym [] [] h k = refl
le_text-antisym [] (b ∷ y) h k = cc
le_text-antisym (a ∷ x) [] h k = cc
le_text-antisym (a ∷ x) (b ∷ y) h k = ground (arith, le_text-antisym x y)

pub le_text_trans : (x y z : Bytes) → le_text x y ≡ true → le_text y z ≡ true → le_text x z ≡ true
unfolding le_text
le_text_trans [] y z h k = refl
le_text_trans (a ∷ x) [] z h k = cc
le_text_trans (a ∷ x) (b ∷ y) [] h k = cc
le_text_trans (a ∷ x) (b ∷ y) (c ∷ z) h k = ground (arith, le_text_trans x y z)

insert_same :
    (x y : Bytes) (zs : List Bytes)
    → x ≡ y
    → insert_text x (insert_text y zs) ≡ insert_text y (insert_text x zs)
insert_same x y zs e = λ i. insert_text (e i) (insert_text (sym e i) zs)

-- a text and a later one, before a head
insert_apart :
    (x y z : Bytes) (zs : List Bytes)
    → le_text x y ≡ true
    → le_text y x ≡ false
    → insert_text x (insert_text y zs) ≡ insert_text y (insert_text x zs)
    → insert_text x (insert_text y (z ∷ zs)) ≡ insert_text y (insert_text x (z ∷ zs))
unfolding insert_text
insert_apart x y z zs p q ih = elim (Bool-cases (le_text y z)) [
  | inl b ↦ rw (b, le_text_trans x y z p b, p, q, b) refl
  | inr b ↦ elim (Bool-cases (le_text x z)) [
    | inl a ↦ rw (b, a, q, b) refl
    | inr a ↦ rw (b, a, b, ih) refl
  ]
]

pub insert_text_comm :
    (x y : Bytes) (zs : List Bytes)
    → insert_text x (insert_text y zs) ≡ insert_text y (insert_text x zs)
unfolding insert_text
insert_text_comm x y [] = elim (Bool-cases (le_text x y)) [
  | inl p ↦ elim (Bool-cases (le_text y x)) [
    | inl q ↦ rw (le_text-antisym x y p q) refl
    | inr q ↦ rw (p, q) refl
  ]
  | inr p ↦ rw (p, le_text-total x y p) refl
]
insert_text_comm x y (z ∷ zs) = elim (Bool-cases (le_text x y)) [
  | inl p ↦ elim (Bool-cases (le_text y x)) [
    | inl q ↦ insert_same x y (z ∷ zs) (le_text-antisym x y p q)
    | inr q ↦ insert_apart x y z zs p q (insert_text_comm x y zs)
  ]
  | inr p ↦ sym (insert_apart y x z zs (le_text-total x y p) p (sym (insert_text_comm x y zs)))
]

insert_text-insert_all :
    (x : Bytes) (ys acc : List Bytes)
    → insert_text x (insert_all ys acc) ≡ insert_all ys (insert_text x acc)
insert_text-insert_all x [] acc = refl
insert_text-insert_all x (y ∷ ys) acc =
    insert_text_comm x y (insert_all ys acc)
    ∙ ap (λ l. insert_text y l) (insert_text-insert_all x ys acc)

pub insert_all_comm :
    (xs ys acc : List Bytes) → insert_all xs (insert_all ys acc) ≡ insert_all ys (insert_all xs acc)
insert_all_comm [] ys acc = refl
insert_all_comm (x ∷ xs) ys acc =
    ap (λ l. insert_text x l) (insert_all_comm xs ys acc)
    ∙ insert_text-insert_all x ys (insert_all xs acc)

pub insert_all-append :
    (xs ys acc : List Bytes) → insert_all (xs ++ ys) acc ≡ insert_all xs (insert_all ys acc)
insert_all-append [] ys acc = refl
insert_all-append (x ∷ xs) ys acc = ap (λ l. insert_text x l) (insert_all-append xs ys acc)

-- every text is not after the next one
abbrev pub IsSorted : List Bytes → Type 0
IsSorted [] = Unit
IsSorted (x ∷ []) = Unit
IsSorted (x ∷ y ∷ ys) = (le_text x y ≡ true) × IsSorted (y ∷ ys)

insert_text-IsSorted : (x : Bytes) (ys : List Bytes) → IsSorted ys → IsSorted (insert_text x ys)
unfolding insert_text
insert_text-IsSorted x [] s = tt
insert_text-IsSorted x (y ∷ []) s = elim (Bool-cases (le_text x y)) [
  | inl p ↦ rw p (p, tt)
  | inr p ↦ rw p (le_text-total x y p, tt)
]
insert_text-IsSorted x (y ∷ z ∷ zs) (h, s) =
    let ih = insert_text-IsSorted x (z ∷ zs) s in
    elim (Bool-cases (le_text x y)) [
      | inl p ↦ rw p (p, (h, s))
      | inr p ↦ elim (Bool-cases (le_text x z)) [
        | inl q ↦ rw (p, q) (le_text-total x y p, rw q at ih)
        | inr q ↦ rw (p, q) (h, rw q at ih)
      ]
    ]

pub sort_strings-IsSorted : (xs : List Bytes) → IsSorted (sort_strings xs)
sort_strings-IsSorted [] = tt
sort_strings-IsSorted (x ∷ xs) =
    insert_text-IsSorted x (insert_all xs []) (sort_strings-IsSorted xs)
