-- ===== src/Storage/Index.antt =====
-- The index of a bucket: metadata under the hashes of objects, as pebble keeps them.
use tavern.Prelude.{
  ◌≤◌, ◌<◌, ◌≡◌, ap, sym, ◌∙◌, false, Option, none, some, List, [], ◌∷◌, arith, if◌then◌else◌,
  length, Bool-cases, inl, inr,
}
use tavern.Prelude.Text.{Bytes, bytes_eq, bytes_eq-true}

module _ {ℓ} {A : Type ℓ} where
  abbrev pub find : List (Bytes × A) → Bytes → Option A
  find [] k = none
  find ((j, v) ∷ es) k = let rest = find es k in if bytes_eq j k then some v else rest

  abbrev pub erase : List (Bytes × A) → Bytes → List (Bytes × A)
  erase [] k = []
  erase ((j, v) ∷ es) k = let rest = erase es k in if bytes_eq j k then rest else (j, v) ∷ rest

  abbrev pub put : List (Bytes × A) → Bytes → A → List (Bytes × A)
  put es k v = (k, v) ∷ erase es k

  pub find-erase :
      (es : List (Bytes × A)) (k j : Bytes)
      → find (erase es k) j ≡ (if bytes_eq k j then none else find es j)
  find-erase [] k j = ground arith
  find-erase ((i, v) ∷ es) k j =
      let ih = find-erase es k j in
      elim (Bool-cases (bytes_eq i k)) [
        | inl e ↦ elim (Bool-cases (bytes_eq k j)) [
          | inl f ↦ simp (e, f) (simp f at ih)
          | inr f ↦
              let g : bytes_eq i j ≡ false = ap (λ x. bytes_eq x j) (bytes_eq-true i k e) ∙ f in
              simp (e, f, g) (simp f at ih)
        ]
        | inr e ↦ elim (Bool-cases (bytes_eq k j)) [
          | inl f ↦
              let g : bytes_eq i j ≡ false =
                ap (λ x. bytes_eq i x) (sym (bytes_eq-true k j f)) ∙ e in
              simp (e, f, g) (simp f at ih)
          | inr f ↦ simp (e, f) (ap (λ x. if bytes_eq i j then some v else x) (simp f at ih))
        ]
      ]

  pub length-erase : (es : List (Bytes × A)) (k : Bytes) → length (erase es k) ≤ length es
  length-erase [] k = omega arith
  length-erase ((i, v) ∷ es) k = ground (arith, length-erase es k)

  pub length-erase_found :
      (es : List (Bytes × A)) (k : Bytes) (v : A)
      → find es k ≡ some v
      → length (erase es k) < length es
  length-erase_found [] k v h = cc h
  length-erase_found ((i, w) ∷ es) k v h =
      ground (arith, length-erase es k, length-erase_found es k v)
