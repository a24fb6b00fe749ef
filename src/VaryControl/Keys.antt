-- ===== src/VaryControl/Keys.antt =====
-- `Clean` and `VaryData` do not depend on the order of their values.
use mathlib.Core.List as List
use mathlib.Core.List.{Perm, foldr}
use mathlib.Core.List.Perm
use native.Mathlib.Nat.{ℕ_set}
use tavern.Prelude.{
  ◌≡◌, ◌≢◌, ◌↔◌, inl, inr, refl, sym, ap, ◌∙◌, Bool, true, false, ◌||◌, List, [], ◌∷◌, ◌++◌, map,
  arith, Bool-cases, subst,
}
use tavern.Prelude.Text.{Bytes, bytes_eq, bytes_eq_refl, bytes_eq-true}
use tavern.VaryControl.{
  le_text, insert_text, insert_all, sort_strings, canonical, all_keys, compact, clean, compare,
  elem, sort_value, sort_values, join_comma, distinct_keys, print_pairs, vary_data,
}
use tavern.VaryControl.Sorted.{
  insert_text_comm, insert_all_comm, insert_all-append, IsSorted, sort_strings-IsSorted,
}

all_keys-sorted :
    (vs : List Bytes)
    → sort_strings (all_keys vs) ≡ foldr (λ v acc. insert_all (canonical v) acc) [] vs
all_keys-sorted [] = refl
all_keys-sorted (v ∷ vs) =
    insert_all-append (canonical v) (all_keys vs) []
    ∙ ap (λ l. insert_all (canonical v) l) (all_keys-sorted vs)

-- `Clean` gives the same key for the values of the Vary headers in any order.
pub clean-Perm : (vs ws : List Bytes) → Perm vs ws → clean vs ≡ clean ws
unfolding clean
clean-Perm vs ws p = ap compact (
    all_keys-sorted vs
    ∙ Perm.foldr-eq (List.is_set (List.is_set ℕ_set)) (λ v acc. insert_all (canonical v) acc)
        (λ a b x. insert_all_comm (canonical a) (canonical b) x) p []
    ∙ sym (all_keys-sorted ws))

map-sorted :
    (vs : List Bytes)
    → sort_strings (map sort_value vs) ≡ foldr (λ v acc. insert_text (sort_value v) acc) [] vs
map-sorted [] = refl
map-sorted (v ∷ vs) = ap (λ l. insert_text (sort_value v) l) (map-sorted vs)

sort_values_lem : (vs : List Bytes) → sort_values vs ≡ join_comma (sort_strings (map sort_value vs))
unfolding sort_values insert_text join_comma
sort_values_lem [] = refl
sort_values_lem (v ∷ []) = refl
sort_values_lem (v ∷ w ∷ vs) = refl

sort_values-Perm : (vs ws : List Bytes) → Perm vs ws → sort_values vs ≡ sort_values ws
sort_values-Perm vs ws p =
    sort_values_lem vs
    ∙ ap join_comma (
        map-sorted vs
        ∙ Perm.foldr-eq (List.is_set (List.is_set ℕ_set)) (λ v acc. insert_text (sort_value v) acc)
            (λ a b x. insert_text_comm (sort_value a) (sort_value b) x) p []
        ∙ sym (map-sorted ws))
    ∙ sym (sort_values_lem ws)

print_pairs-Perm :
    (ks : List Bytes) (h g : Bytes → List Bytes)
    → ((k : Bytes) → Perm (h k) (g k))
    → print_pairs h ks ≡ print_pairs g ks
print_pairs-Perm [] h g p = refl
print_pairs-Perm (k ∷ []) h g p = ap (λ v. k ++ b'=' ∷ v) (sort_values-Perm (h k) (g k) (p k))
print_pairs-Perm (k ∷ j ∷ ks) h g p =
    rw (sort_values-Perm (h k) (g k) (p k), print_pairs-Perm (j ∷ ks) h g p) refl

-- `VaryData` gives the same text for the same values of each header in any order.
pub vary_data-Perm :
    (ks : List Bytes) (h g : Bytes → List Bytes)
    → ((k : Bytes) → Perm (h k) (g k))
    → vary_data ks h ≡ vary_data ks g
unfolding vary_data
vary_data-Perm ks h g p = print_pairs-Perm (sort_strings (distinct_keys ks)) h g p

-- each text is before the next one
abbrev pub IsStrict : List Bytes → Type 0
IsStrict [] = Unit
IsStrict (x ∷ []) = Unit
IsStrict (x ∷ y ∷ ys) = (le_text x y ≡ true) × (x ≢ y) × IsStrict (y ∷ ys)

compact_head : (x : Bytes) (xs : List Bytes) → (rest : List Bytes) × (compact (x ∷ xs) ≡ x ∷ rest)
unfolding compact
compact_head x [] = ([], refl)
compact_head x (y ∷ ys) = elim (Bool-cases (bytes_eq x y)) [
  | inl e ↦
      let (rest, q) = compact_head y ys in
      (rest, rw e (q ∙ ap (λ z. z ∷ rest) (sym (bytes_eq-true x y e))))
  | inr e ↦ (compact (y ∷ ys), rw e refl)
]

compact-IsStrict : (xs : List Bytes) → IsSorted xs → IsStrict (compact xs)
unfolding compact
compact-IsStrict [] s = tt
compact-IsStrict (x ∷ []) s = tt
compact-IsStrict (x ∷ y ∷ ys) (h, s) =
    let ih = compact-IsStrict (y ∷ ys) s in
    elim (Bool-cases (bytes_eq x y)) [
      | inl e ↦ rw e ih
      | inr e ↦
          let (rest, q) = compact_head y ys in
          rw (e, q) (h, (λ same. cc (same, e, bytes_eq_refl x)), rw q at ih)
    ]

elem-insert_text :
    (k x : Bytes) (ys : List Bytes) → elem k (insert_text x ys) ≡ (bytes_eq k x || elem k ys)
unfolding insert_text
elem-insert_text k x [] = refl
elem-insert_text k x (y ∷ ys) = ground (arith, elem-insert_text k x ys)

elem-sort_strings : (k : Bytes) (xs : List Bytes) → elem k (sort_strings xs) ≡ elem k xs
elem-sort_strings k [] = refl
elem-sort_strings k (x ∷ xs) =
    elem-insert_text k x (insert_all xs []) ∙ ap (λ b. bytes_eq k x || b) (elem-sort_strings k xs)

or_twice : (a b : Bool) → (a || (a || b)) ≡ (a || b)
or_twice true b = refl
or_twice false b = refl

elem-compact : (k : Bytes) (xs : List Bytes) → elem k (compact xs) ≡ elem k xs
unfolding compact
elem-compact k [] = refl
elem-compact k (x ∷ []) = refl
elem-compact k (x ∷ y ∷ ys) =
    let ih = elem-compact k (y ∷ ys) in
    elim (Bool-cases (bytes_eq x y)) [
      | inl e ↦ rw (e, bytes_eq-true x y e) (ih ∙ sym (or_twice (bytes_eq k y) (elem k ys)))
      | inr e ↦ rw e (ap (λ b. bytes_eq k x || b) ih)
    ]

-- `Clean` gives the trimmed keys of all values that are not empty, each of them once, in ascending order.
pub clean_lem :
    (vs : List Bytes)
    → IsStrict (clean vs) × ((k : Bytes) → elem k (clean vs) ≡ elem k (all_keys vs))
unfolding clean
clean_lem vs = (
  compact-IsStrict (sort_strings (all_keys vs)) (sort_strings-IsSorted (all_keys vs)),
  λ k. elem-compact k (sort_strings (all_keys vs)) ∙ elem-sort_strings k (all_keys vs),
)

compare_refl : (k : List Bytes) → compare k k ≡ true
unfolding compare
compare_refl [] = refl
compare_refl (x ∷ xs) = rw (bytes_eq_refl x, compare_refl xs) refl

-- `Compare` decides whether two keys are equal.
pub compare_lem : (k j : List Bytes) → compare k j ≡ true ↔ k ≡ j
unfolding compare
compare_lem [] [] = (λ h. refl, λ h. refl)
compare_lem [] (y ∷ ys) = (λ h. cc h, λ h. absurd (cc h))
compare_lem (x ∷ xs) [] = (λ h. cc h, λ h. absurd (cc h))
compare_lem (x ∷ xs) (y ∷ ys) =
    let ih = compare_lem xs ys in
    (
      λ h. ground (arith, h, bytes_eq-true x y, ih.0),
      λ e. subst (λ z. compare (x ∷ xs) z ≡ true) e (compare_refl (x ∷ xs)),
    )
