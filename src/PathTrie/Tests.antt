-- ===== src/PathTrie/Tests.antt =====
-- A trie with a path, and the theorems applied.
use tavern.Prelude.{ℕ, ◌≡◌, refl, false, ◌&&◌, none, some, [], if◌then◌else◌}
use tavern.Prelude.Text.{Bytes, codes, bytes_eq, has_prefix}
use tavern.PathTrie.{
  Regex, TrieNode, new_node, split_from, split_path, insert_parts, insert_path, search_node,
  search_path,
}
use tavern.PathTrie.Kept.{IsPlain, begins_with, search_path-insert_path}

-- expressions that match the text b alone, all but one of which compiles
abbrev only_b : Regex Bytes
only_b = record {
  compile = λ r. if bytes_eq r (codes "[x") then none else some r;
  matches = λ r part. bytes_eq r (codes "[b]") && bytes_eq part (codes "b");
}

abbrev empty : TrieNode Bytes ℕ
empty = new_node []

pattern-IsPlain : IsPlain (split_path (codes "/a/b"))
unfolding split_path split_from bytes_eq has_prefix
pattern-IsPlain = (refl, (refl, tt))

search_path-insert_path_example :
    (split_path (codes "a/b/") ≡ split_path (codes "/a/b")
      → search_path only_b (codes "a/b/") (insert_path only_b (codes "/a/b") 7 empty) ≡ some 7)
    × (begins_with (split_path (codes "a/b/")) (split_path (codes "/a/b")) ≡ false
        → search_path only_b (codes "a/b/") (insert_path only_b (codes "/a/b") 7 empty)
          ≡ search_path only_b (codes "a/b/") empty)
search_path-insert_path_example =
    search_path-insert_path only_b (codes "/a/b") (codes "a/b/") 7 empty pattern-IsPlain

same_parts : split_path (codes "a/b/") ≡ split_path (codes "/a/b")
unfolding split_path split_from
same_parts = refl

-- The second regular expression at a node is stored as a text, and does not match.
second_regex_lost :
    search_path only_b
      (codes "b")
      (insert_path only_b (codes "[b]") 2 (insert_path only_b (codes "[a]") 1 empty))
    ≡ none
unfolding search_path search_node insert_path insert_parts split_path split_from bytes_eq has_prefix
second_regex_lost = refl

-- An expression that does not compile is left out of its path: the value goes to the parent.
parent_gets_value :
    search_path only_b (codes "a") (insert_path only_b (codes "a/[x") 1 empty) ≡ some 1
unfolding search_path search_node insert_path insert_parts split_path split_from bytes_eq has_prefix
parent_gets_value = refl
