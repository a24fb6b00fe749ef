-- ===== src/PathTrie/Kept.antt =====
-- A path that is inserted is found, and the other paths are as they were (pkg/pathtrie/pathtrie.go).
use tavern.Prelude.{
  ◌≡◌, inl, inr, refl, ap, ◌∙◌, Bool, true, false, not, ◌&&◌, Option, none, some, List, [], ◌∷◌,
  if◌then◌else◌, All, Bool-cases,
}
use tavern.Prelude.Text.{Bytes, codes, bytes_eq, bytes_eq_refl, bytes_eq-true}
use tavern.PathTrie.{
  Regex, TrieNode, Children, node, no_child, child, split_path, new_node, find_child, put_child,
  child_or_new, is_regex, is_plain, insert_child, insert_parts, insert_path, or_else, search_child,
  search_wildcard, search_node, search_path,
}

-- whether a path begins with another
abbrev pub begins_with : List Bytes → List Bytes → Bool
begins_with qs [] = true
begins_with [] (p ∷ ps) = false
begins_with (q ∷ qs) (p ∷ ps) = bytes_eq p q && begins_with qs ps

abbrev pub IsPlain : List Bytes → Type 0
IsPlain ps = All (λ p. is_plain p ≡ true) ps

if_twice {ℓ} :
    {A : Type ℓ} (b : Bool) (x y z : A)
    → (if b then x else z) ≡ (if b then x else (if b then y else z))
if_twice true x y z = refl
if_twice false x y z = refl

module _ {R T : Type 0} (re : Regex R) where
  find_child-put_child :
      (cs : Children R T) (k j : Bytes) (m : TrieNode R T)
      → find_child (put_child cs k m) j ≡ (if bytes_eq k j then some m else find_child cs j)
  find_child-put_child no_child k j m = refl
  find_child-put_child (child i n cs) k j m =
      let ih = find_child-put_child cs k j m in
      elim (Bool-cases (bytes_eq i k)) [
        | inl e ↦
            rw (e, bytes_eq-true i k e)
              (if_twice (bytes_eq k j) (some m) (some n) (find_child cs j))
        | inr e ↦ elim (Bool-cases (bytes_eq i j)) [
          | inl f ↦ elim (Bool-cases (bytes_eq k j)) [
            | inl g ↦ absurd (cc (e, f, ap (bytes_eq i) (bytes_eq-true k j g)))
            | inr g ↦ simp (e, f, g) refl
          ]
          | inr f ↦ simp (e, f) ih
        ]
      ]

  plain_step :
      (b c : Bool) (x y z : TrieNode R T)
      → (not b && not c) ≡ true
      → (if b then x else if c then y else z) ≡ z
  plain_step true c x y z h = cc h
  plain_step false true x y z h = cc h
  plain_step false false x y z h = refl

  search_new :
      (qs : List Bytes) (pattern : Bytes) → search_node re qs (new_node {T = T} pattern) ≡ none
  unfolding search_node
  search_new [] pattern = refl
  search_new (q ∷ qs) pattern = refl

  -- What an insertion does to the search of a path: it finds the value, or finds what it found.
  abbrev IsKept : List Bytes → T → List Bytes → TrieNode R T → TrieNode R T → Type 0
  IsKept ps value qs n m =
      (qs ≡ ps → search_node re qs m ≡ some value)
      × (begins_with qs ps ≡ false → search_node re qs m ≡ search_node re qs n)

  child_or_new_lem :
      (qs : List Bytes) (o : Option (TrieNode R T)) (pattern : Bytes)
      → search_node re qs (child_or_new o pattern) ≡ search_child re (search_node re qs) o
  child_or_new_lem qs none pattern = search_new qs pattern
  child_or_new_lem qs (some n) pattern = refl

  insert_plain :
      (part : Bytes) (ps : List Bytes) (pattern : Bytes) (value : T) (n : TrieNode R T)
      → is_plain part ≡ true
      → insert_parts re (part ∷ ps) pattern value n
        ≡ insert_child re (insert_parts re ps pattern value) part pattern n
  unfolding insert_parts
  insert_plain part ps pattern value n h =
      plain_step (bytes_eq part (codes "*")) (is_regex part) _ _ _ h

  child_if :
      (b : Bool) (m : TrieNode R T) (o : Option (TrieNode R T)) (qs : List Bytes)
      → search_child re (search_node re qs) (if b then some m else o)
        ≡ (if b then search_node re qs m else search_child re (search_node re qs) o)
  child_if true m o qs = refl
  child_if false m o qs = refl

  child_found :
      (cs : Children R T) (a q : Bytes) (m : TrieNode R T) (qs : List Bytes)
      → search_child re (search_node re qs) (find_child (put_child cs a m) q) ≡ (
          if bytes_eq a q
          then search_node re qs m
          else search_child re (search_node re qs) (find_child cs q))
  child_found cs a q m qs =
      ap (search_child re (search_node re qs)) (find_child-put_child cs a q m)
      ∙ child_if (bytes_eq a q) m (find_child cs q) qs

  child_kept :
      (b : Bool) (cs : Children R T) (a q : Bytes) (m : TrieNode R T) (qs ps : List Bytes)
      (pattern : Bytes)
      → bytes_eq a q ≡ b
      → (b && begins_with qs ps) ≡ false
      → (begins_with qs ps ≡ false
          → search_node re qs m ≡ search_node re qs (child_or_new (find_child cs a) pattern))
      → search_child re (search_node re qs) (find_child (put_child cs a m) q)
        ≡ search_child re (search_node re qs) (find_child cs q)
  child_kept true cs a q m qs ps pattern e h f =
      child_found cs a q m qs
      ∙ simp e (
          f h
          ∙ child_or_new_lem qs (find_child cs a) pattern
          ∙ ap (λ k. search_child re (search_node re qs) (find_child cs k)) (bytes_eq-true a q e))
  child_kept false cs a q m qs ps pattern e h f = child_found cs a q m qs ∙ simp e refl

  insert_parts-IsKept :
      (ps : List Bytes) (pattern : Bytes) (value : T) (qs : List Bytes) (n : TrieNode R T)
      → IsPlain ps
      → IsKept ps value qs n (insert_parts re ps pattern value n)
  unfolding insert_parts search_node
  insert_parts-IsKept [] pattern value [] (node cs v w p) h = (λ e. refl, λ e. absurd (cc e))
  insert_parts-IsKept [] pattern value (q ∷ qs) (node cs v w p) h =
      (λ e. absurd (cc e), λ e. absurd (cc e))
  insert_parts-IsKept (a ∷ ps) pattern value [] (node cs v w p) (h, g) =
      rw (insert_plain a ps pattern value (node cs v w p) h) (λ e. absurd (cc e), λ e. refl)
  insert_parts-IsKept (a ∷ ps) pattern value (q ∷ qs) (node cs v w p) (h, g) =
      rw (insert_plain a ps pattern value (node cs v w p) h) (
        let m = insert_parts re ps pattern value (child_or_new (find_child cs a) pattern) in
        let ih =
          insert_parts-IsKept ps pattern value qs (child_or_new (find_child cs a) pattern) g in
        let rest = or_else re (search_wildcard re (search_node re qs) q w) v in
        (
          λ e.
              let head : q ≡ a = cc e in
              let tail : qs ≡ ps = cc e in
              let here : (if bytes_eq a q
                    then search_node re qs m
                    else search_child re (search_node re qs) (find_child cs q))
                  ≡ some value =
                rw (head, bytes_eq_refl a) (ih.0 tail) in
              ap (λ o. or_else re o rest) (child_found cs a q m qs ∙ here),
          λ e.
              ap (λ o. or_else re o rest)
                (child_kept (bytes_eq a q) cs a q m qs ps pattern refl e ih.1),
        ))

  -- After `Insert` of a path whose parts are neither wildcards nor regular expressions, with a value, `Search` of
  -- a path of the same parts gives the value, and `Search` of any path that does not begin with these parts gives
  -- what it gave before.
  pub search_path-insert_path :
      (pattern path : Bytes) (value : T) (root : TrieNode R T)
      → IsPlain (split_path pattern)
      → (split_path path ≡ split_path pattern
          → search_path re path (insert_path re pattern value root) ≡ some value)
        × (begins_with (split_path path) (split_path pattern) ≡ false
            → search_path re path (insert_path re pattern value root) ≡ search_path re path root)
  unfolding search_path insert_path
  search_path-insert_path pattern path value root h =
      insert_parts-IsKept (split_path pattern) pattern value (split_path path) root h
