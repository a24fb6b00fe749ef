-- ===== src/VaryControl/Tests.antt =====
-- Vary headers, and the theorems applied.
use mathlib.Core.List.Perm
use tavern.Prelude.{◌≡◌, not, ◌&&◌, map, refl, List, [], ◌∷◌, if◌then◌else◌}
use tavern.Prelude.Text.{Bytes, codes, bytes_eq, split, trim_space}
use tavern.VaryControl.{
  clean, vary_data, append_key, canonical, trimmed_keys, elem, le_text, insert_text, sort_values,
  sort_value, join_comma,
}
use tavern.VaryControl.Keys.{clean-Perm, IsStrict}
use tavern.VaryControl.Parts.{parts_of, clean-parts}

clean-Perm_example :
    clean (codes "Accept, Cookie" ∷ codes "Origin" ∷ [])
    ≡ clean (codes "Origin" ∷ codes "Accept, Cookie" ∷ [])
clean-Perm_example =
    clean-Perm (codes "Accept, Cookie" ∷ codes "Origin" ∷ [])
      (codes "Origin" ∷ codes "Accept, Cookie" ∷ [])
      (Perm.swap (codes "Origin") (codes "Accept, Cookie") [])

abbrev some_values : Bytes → List Bytes
some_values k = codes "br" ∷ codes "gzip" ∷ []

abbrev other_order : Bytes → List Bytes
other_order k = codes "gzip" ∷ codes "br" ∷ []

-- A value with two keys is appended again, as the value itself is none of the keys.
appends_twice :
    append_key (append_key [] (codes "A,B")) (codes "A,B")
    ≡ codes "A" ∷ codes "B" ∷ codes "A" ∷ codes "B" ∷ []
unfolding append_key canonical trimmed_keys split trim_space bytes_eq
appends_twice = refl

clean-parts_example :
    IsStrict (clean (codes "B, A" ∷ codes "A," ∷ []))
    × ((k : Bytes)
        → elem k (clean (codes "B, A" ∷ codes "A," ∷ [])) ≡ (
            not (bytes_eq k [])
            && elem k (map trim_space (parts_of (codes "B, A" ∷ codes "A," ∷ [])))))
clean-parts_example = clean-parts (codes "B, A" ∷ codes "A," ∷ [])

-- Different values of two headers may give the same text, as `&` and `=` in a value are not escaped.
abbrev of_a : Bytes → Bytes → Bytes → List Bytes
of_a a b k = if bytes_eq k (codes "A") then a ∷ [] else b ∷ []

same_data :
    vary_data (codes "A" ∷ codes "B" ∷ []) (of_a (codes "x&B=y") (codes "z"))
    ≡ vary_data (codes "A" ∷ codes "B" ∷ []) (of_a (codes "x") (codes "y&B=z"))
unfolding vary_data insert_text le_text sort_values sort_value join_comma split trim_space bytes_eq
same_data = refl
