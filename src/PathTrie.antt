-- ===== src/PathTrie.antt =====
-- pkg/pathtrie/pathtrie.go: a trie of paths with wildcards. A map of children is an association list, and a node
-- is the end of a path where it has a value. The compiled regular expressions of the library are an argument.
use tavern.Prelude.{
  ℕ, ◌≡◌, Bool, true, false, not, ◌&&◌, ◌||◌, Option, none, some, List, [], ◌∷◌, ◌++◌,
  if◌then◌else◌, ◌==◌,
}
use tavern.Prelude.Text.{Bytes, codes, bytes_eq, has_prefix}
pub mod Kept
mod Tests

-- `regexp.Compile` and `MatchString`
pub record Regex (R : Type 0) : Type 0 where
  pub compile : Bytes → Option R
  pub matches : R → Bytes → Bool

mutual
  -- the children, the value, the wildcard and the pattern
  pub data TrieNode (R T : Type 0) : Type 0 where
    node : Children R T → Option T → Wildcard R T → Bytes → TrieNode R T

  pub data Children (R T : Type 0) : Type 0 where
    no_child : Children R T
    child : Bytes → TrieNode R T → Children R T → Children R T

  pub data Wildcard (R T : Type 0) : Type 0 where
    no_wildcard : Wildcard R T
    any_part : TrieNode R T → Wildcard R T
    regex_part : R → TrieNode R T → Wildcard R T

-- the parts between separators that are not empty
abbrev pub push_part : Bytes → List Bytes → List Bytes
push_part [] ps = ps
push_part (c ∷ cs) ps = (c ∷ cs) ∷ ps

-- `split`; a separator in front or at the end makes no part
unfoldable pub split_from : Bytes → Bytes → List Bytes
split_from part [] = push_part part []
split_from part (c ∷ cs) =
    let apart = split_from [] cs in
    let longer = split_from (part ++ c ∷ []) cs in
    if c == b'/' then push_part part apart else longer

unfoldable pub split_path : Bytes → List Bytes
split_path path = split_from [] path

abbrev pub is_regex : Bytes → Bool
is_regex part = has_prefix part (codes "[") || has_prefix part (codes ".*")

-- a part that is neither the wildcard nor a regular expression
abbrev pub is_plain : Bytes → Bool
is_plain part = not (bytes_eq part (codes "*")) && not (is_regex part)

module _ {R T : Type 0} where
  abbrev pub new_node : Bytes → TrieNode R T
  new_node pattern = node no_child none no_wildcard pattern

  abbrev pub find_child : Children R T → Bytes → Option (TrieNode R T)
  find_child no_child k = none
  find_child (child j n cs) k = let rest = find_child cs k in if bytes_eq j k then some n else rest

  -- a child changed, or put in
  abbrev pub put_child : Children R T → Bytes → TrieNode R T → Children R T
  put_child no_child k m = child k m no_child
  put_child (child j n cs) k m =
      let rest = child j n (put_child cs k m) in if bytes_eq j k then child j m cs else rest

  abbrev pub child_or_new : Option (TrieNode R T) → Bytes → TrieNode R T
  child_or_new none pattern = new_node pattern
  child_or_new (some n) pattern = n

module _ {R T : Type 0} (re : Regex R) where
  abbrev pub set_value : TrieNode R T → T → TrieNode R T
  set_value (node cs v w p) value = node cs (some value) w p

  -- the step of `Insert` into the wildcard, into a child, and into a new wildcard of a regular expression
  abbrev pub insert_wildcard : (TrieNode R T → TrieNode R T) → Bytes → TrieNode R T → TrieNode R T
  insert_wildcard f pattern (node cs v no_wildcard p) =
      node cs v (any_part (f (new_node pattern))) p
  insert_wildcard f pattern (node cs v (any_part n) p) = node cs v (any_part (f n)) p
  insert_wildcard f pattern (node cs v (regex_part r n) p) = node cs v (regex_part r (f n)) p

  abbrev pub insert_child :
      (TrieNode R T → TrieNode R T) → Bytes → Bytes → TrieNode R T → TrieNode R T
  insert_child f part pattern (node cs v w p) =
      node (put_child cs part (f (child_or_new (find_child cs part) pattern))) v w p

  abbrev pub insert_compiled :
      (TrieNode R T → TrieNode R T) → Bytes → Option R → TrieNode R T → TrieNode R T
  insert_compiled f pattern none n = f n
  insert_compiled f pattern (some r) (node cs v w p) =
      node cs v (regex_part r (f (new_node pattern))) p

  abbrev pub insert_regex :
      (TrieNode R T → TrieNode R T) → Bytes → Bytes → TrieNode R T → TrieNode R T
  insert_regex f part pattern (node cs v no_wildcard p) =
      insert_compiled f pattern (re.compile part) (node cs v no_wildcard p)
  insert_regex f part pattern (node cs v (any_part n) p) =
      insert_child f part pattern (node cs v (any_part n) p)
  insert_regex f part pattern (node cs v (regex_part r n) p) =
      insert_child f part pattern (node cs v (regex_part r n) p)

  -- the loop of `Insert`
  unfoldable pub insert_parts : List Bytes → Bytes → T → TrieNode R T → TrieNode R T
  insert_parts [] pattern value n = set_value n value
  insert_parts (part ∷ ps) pattern value n =
      let f = insert_parts ps pattern value in
      if bytes_eq part (codes "*")
      then insert_wildcard f pattern n
      else if is_regex part
      then insert_regex f part pattern n
      else insert_child f part pattern n

  -- `Insert`
  unfoldable pub insert_path : Bytes → T → TrieNode R T → TrieNode R T
  insert_path pattern value root = insert_parts (split_path pattern) pattern value root

  abbrev pub or_else : Option T → Option T → Option T
  or_else none o = o
  or_else (some v) o = some v

  abbrev pub search_child : (TrieNode R T → Option T) → Option (TrieNode R T) → Option T
  search_child f none = none
  search_child f (some n) = f n

  abbrev pub search_wildcard : (TrieNode R T → Option T) → Bytes → Wildcard R T → Option T
  search_wildcard f part no_wildcard = none
  search_wildcard f part (any_part n) = f n
  search_wildcard f part (regex_part r n) =
      let inside = f n in if re.matches r part then inside else none

  abbrev pub end_value : TrieNode R T → Option T
  end_value (node cs v w p) = v

  abbrev pub search_in : (TrieNode R T → Option T) → Bytes → TrieNode R T → Option T
  search_in f part (node cs v w p) =
      or_else (search_child f (find_child cs part)) (or_else (search_wildcard f part w) v)

  -- `searchNode`: the child first, then the wildcard, then the value of the node
  unfoldable pub search_node : List Bytes → TrieNode R T → Option T
  search_node [] n = end_value n
  search_node (part ∷ ps) n = search_in (search_node ps) part n

  -- `Search`
  unfoldable pub search_path : Bytes → TrieNode R T → Option T
  search_path path root = search_node (split_path path) root
