-- ===== src/VaryControl.antt =====
-- pkg/x/http/varycontrol/vary.go: the keys under which the variants of an object are stored.
use tavern.Prelude.{
  ℕ, ◌≡◌, Bool, true, false, ◌&&◌, ◌||◌, List, [], ◌∷◌, ◌++◌, map, ltb, ◌==◌, if◌then◌else◌,
}
use tavern.Prelude.Text.{Bytes, bytes_eq, trim_space, split}
pub mod Sorted
pub mod Keys
pub mod Trimmed
pub mod Again
pub mod Parts
mod Tests

-- `<=` on strings
unfoldable pub le_text : Bytes → Bytes → Bool
le_text [] ys = true
le_text (x ∷ xs) [] = false
le_text (x ∷ xs) (y ∷ ys) = let rest = le_text xs ys in ltb x y || (x == y && rest)

unfoldable pub insert_text : Bytes → List Bytes → List Bytes
insert_text x [] = x ∷ []
insert_text x (y ∷ ys) = let rest = insert_text x ys in if le_text x y then x ∷ y ∷ ys else y ∷ rest

abbrev pub insert_all : List Bytes → List Bytes → List Bytes
insert_all [] acc = acc
insert_all (x ∷ xs) acc = insert_text x (insert_all xs acc)

-- `sort.Strings`
abbrev pub sort_strings : List Bytes → List Bytes
sort_strings xs = insert_all xs []

-- `strings.Join(_, ",")`
unfoldable pub join_comma : List Bytes → Bytes
join_comma [] = []
join_comma (x ∷ []) = x
join_comma (x ∷ y ∷ ys) = x ++ b',' ∷ join_comma (y ∷ ys)

-- the keys that are not empty, without space around them
unfoldable pub trimmed_keys : List Bytes → List Bytes
trimmed_keys [] = []
trimmed_keys (k ∷ ks) =
    let key = trim_space k in
    let rest = trimmed_keys ks in if bytes_eq key [] then rest else key ∷ rest

-- `canonical`; nil is the empty list
unfoldable pub canonical : Bytes → List Bytes
canonical val = trimmed_keys (split (trim_space val) b',')

-- the keys of the values, one after the other
abbrev pub all_keys : List Bytes → List Bytes
all_keys [] = []
all_keys (v ∷ vs) = canonical v ++ all_keys vs

-- `slices.Compact`
unfoldable pub compact : List Bytes → List Bytes
compact [] = []
compact (x ∷ []) = x ∷ []
compact (x ∷ y ∷ ys) = let rest = compact (y ∷ ys) in if bytes_eq x y then rest else x ∷ rest

-- `Clean`
unfoldable pub clean : List Bytes → List Bytes
clean vs = compact (sort_strings (all_keys vs))

-- `Key.Compare`
unfoldable pub compare : List Bytes → List Bytes → Bool
compare [] [] = true
compare [] (y ∷ ys) = false
compare (x ∷ xs) [] = false
compare (x ∷ xs) (y ∷ ys) = let rest = compare xs ys in bytes_eq x y && rest

abbrev pub elem : Bytes → List Bytes → Bool
elem x [] = false
elem x (y ∷ ys) = let rest = elem x ys in bytes_eq x y || rest

-- `Key.Append`
unfoldable pub append_key : List Bytes → Bytes → List Bytes
append_key ks val = if elem val ks then ks else ks ++ canonical val

-- `sortValue` of a text that is trimmed, and `splitTrimSpace`
abbrev sort_trimmed : Bytes → Bytes
sort_trimmed [] = []
sort_trimmed (c ∷ cs) = join_comma (sort_strings (map trim_space (split (c ∷ cs) b',')))

unfoldable pub sort_value : Bytes → Bytes
sort_value val = sort_trimmed (trim_space val)

-- `sortValues`
unfoldable pub sort_values : List Bytes → Bytes
sort_values (v ∷ []) = sort_value v
sort_values vs = join_comma (sort_strings (map sort_value vs))

-- the keys of the map, each one once
abbrev pub distinct_keys : List Bytes → List Bytes
distinct_keys [] = []
distinct_keys (k ∷ ks) = let rest = distinct_keys ks in if elem k rest then rest else k ∷ rest

-- `key=value`, joined by `&`
abbrev pub print_pairs : (Bytes → List Bytes) → List Bytes → Bytes
print_pairs header [] = []
print_pairs header (k ∷ []) = k ++ b'=' ∷ sort_values (header k)
print_pairs header (k ∷ j ∷ ks) =
    k ++ b'=' ∷ sort_values (header k) ++ b'&' ∷ print_pairs header (j ∷ ks)

-- `Key.VaryData`, with the values of the request's headers
unfoldable pub vary_data : List Bytes → (Bytes → List Bytes) → Bytes
vary_data ks header = print_pairs header (sort_strings (distinct_keys ks))
