-- ===== src/Lru/Cache.antt =====
-- pkg/algorithm/lru/lru.go. An entry is named by its key, and its `freqNode` by the frequency of
-- that node (0 for nil): the list of frequencies has each frequency once, and each key stands in one
-- node. The linked lists of the library are lists, from `Front` to `Back`. Locks are left out: each
-- operation holds the lock from its start to its end.
use tavern.Prelude.{
  ℕ, zero, suc, ◌+◌, ◌-◌, Bool, true, false, ◌&&◌, Option, none, some, List, [], ◌∷◌, ◌++◌, ltb,
  leb, ◌==◌, if◌then◌else◌, length,
}

-- `listEntry`: a frequency and the keys of its entries
pub record FreqNode (K : Type 0) : Type 0 where
  pub freq : ℕ
  pub entries : List K

pub record CacheEntry (K V : Type 0) : Type 0 where
  pub key : K
  pub value : V
  pub freq_node : ℕ

pub record Cache (K V : Type 0) : Type 0 where
  pub upper_bound : ℕ
  pub lower_bound : ℕ
  pub values : List (CacheEntry K V)
  pub freqs : List (FreqNode K)
  pub len : ℕ

module _ {K : Type 0} where
  -- a node, unless it is left empty
  abbrev pub keep_node : ℕ → List K → List (FreqNode K) → List (FreqNode K)
  keep_node f [] ns = ns
  keep_node f (x ∷ xs) ns = record { freq = f; entries = x ∷ xs } ∷ ns

  -- `PushBack` on the next node, which is made where it is not there
  abbrev pub push_next : ℕ → K → List (FreqNode K) → List (FreqNode K)
  push_next f k [] = record { freq = f; entries = k ∷ [] } ∷ []
  push_next f k (n ∷ ns) =
      if n.freq == f
      then record { freq = f; entries = n.entries ++ k ∷ [] } ∷ ns
      else record { freq = f; entries = k ∷ [] } ∷ n ∷ ns

  abbrev pub pop_node : ℕ → List K → List (FreqNode K) → Option (K × List (FreqNode K))
  pop_node f [] ns = none
  pop_node f (k ∷ ks) ns = some (k, keep_node f ks ns)

  -- the first entry of the first node taken out: its key and the nodes that are left
  abbrev pub pop_front : List (FreqNode K) → Option (K × List (FreqNode K))
  pop_front [] = none
  pop_front (n ∷ ns) = pop_node n.freq n.entries ns

module _ {K : Type 0} (eq : K → K → Bool) where
  -- an entry taken out of a list
  abbrev pub take_out : List K → K → List K
  take_out [] k = []
  take_out (x ∷ xs) k = let rest = take_out xs k in if eq x k then xs else x ∷ rest

  -- `increment` of the list of frequencies, for an entry at the node `place`, which is not nil
  unfoldable pub move_up : ℕ → K → List (FreqNode K) → List (FreqNode K)
  move_up place k [] = []
  move_up place k (n ∷ ns) =
      let here = keep_node n.freq (take_out n.entries k) (push_next (place + 1) k ns) in
      let there = n ∷ move_up place k ns in if n.freq == place then here else there

  -- `remEntry`
  unfoldable pub rem_entry : ℕ → K → List (FreqNode K) → List (FreqNode K)
  rem_entry place k [] = []
  rem_entry place k (n ∷ ns) =
      let there = n ∷ rem_entry place k ns in
      if n.freq == place then keep_node n.freq (take_out n.entries k) ns else there

-- `New`
unfoldable pub new : {K V : Type 0} → ℕ → Cache K V
new cap = record { upper_bound = cap; lower_bound = cap; values = []; freqs = []; len = 0 }

module _ {K V : Type 0} (eq : K → K → Bool) where
  -- the map of the entries: lookup, write and delete
  abbrev pub lookup : List (CacheEntry K V) → K → Option (CacheEntry K V)
  lookup [] k = none
  lookup (e ∷ es) k = if eq e.key k then some e else lookup es k

  abbrev pub delete : List (CacheEntry K V) → K → List (CacheEntry K V)
  delete [] k = []
  delete (e ∷ es) k = let rest = delete es k in if eq e.key k then rest else e ∷ rest

  -- `increment`
  unfoldable pub increment : Cache K V → CacheEntry K V → Cache K V
  unfolding move_up
  increment c e = record {
    upper_bound = c.upper_bound;
    lower_bound = c.lower_bound;
    values =
        record { key = e.key; value = e.value; freq_node = e.freq_node + 1 }
        ∷ delete c.values e.key;
    freqs =
        if e.freq_node == 0
        then push_next 1 e.key c.freqs
        else move_up eq e.freq_node e.key c.freqs;
    len = c.len;
  }

  -- the cache without the entry that was in front
  abbrev pub popped : Cache K V → K → List (FreqNode K) → Cache K V
  popped c k ns = record {
    upper_bound = c.upper_bound;
    lower_bound = c.lower_bound;
    values = delete c.values k;
    freqs = ns;
    len = c.len - 1;
  }

  -- `evict`; no node is empty, else its loop would not end
  unfoldable pub evict : ℕ → Cache K V → Cache K V
  evict zero c = c
  evict (suc count) c = elim (pop_front c.freqs) [
    | none ↦ c
    | some (k, ns) ↦ evict count (popped c k ns)
  ]

  abbrev pub with_len : ℕ → Cache K V → Cache K V
  with_len n c = record {
    upper_bound = c.upper_bound;
    lower_bound = c.lower_bound;
    values = c.values;
    freqs = c.freqs;
    len = n;
  }

  -- the bounds of `Set`
  unfoldable pub keep_bounds : Cache K V → Cache K V
  unfolding evict
  keep_bounds c =
      if ltb 0 c.upper_bound && ltb 0 c.lower_bound && ltb c.upper_bound c.len
      then evict (c.len - c.lower_bound) c
      else c

  -- `Set`
  unfoldable pub set : Cache K V → K → V → Cache K V
  unfolding increment keep_bounds
  set c k v = elim (lookup c.values k) [
    | some e ↦ increment c (record { key = e.key; value = v; freq_node = e.freq_node })
    | none ↦
        keep_bounds
          (with_len (c.len + 1) (increment c (record { key = k; value = v; freq_node = 0 })))
  ]

  -- `Get`
  unfoldable pub get : Cache K V → K → Option V × Cache K V
  unfolding increment
  get c k = elim (lookup c.values k) [ none ↦ (none, c) | some e ↦ (some e.value, increment c e) ]

  -- `Peek`
  unfoldable pub peek : Cache K V → K → Option V
  peek c k = elim (lookup c.values k) [ none ↦ none | some e ↦ some e.value ]

  -- `GetFrequency`
  unfoldable pub get_frequency : Cache K V → K → ℕ
  get_frequency c k = elim (lookup c.values k) [ none ↦ 0 | some e ↦ e.freq_node ]

  -- `Remove`
  unfoldable pub remove : Cache K V → K → Bool × Cache K V
  unfolding rem_entry
  remove c k = elim (lookup c.values k) [
    | none ↦ (false, c)
    | some e ↦ (
      true,
      record {
        upper_bound = c.upper_bound;
        lower_bound = c.lower_bound;
        values = delete c.values k;
        freqs = rem_entry eq e.freq_node k c.freqs;
        len = c.len - 1;
      },
    )
  ]

-- the keys from `Front` to `Back`
abbrev pub order : {K : Type 0} → List (FreqNode K) → List K
order [] = []
order (n ∷ ns) = n.entries ++ order ns

abbrev pub backwards : {A : Type 0} → List A → List A → List A
backwards [] acc = acc
backwards (x ∷ xs) acc = backwards xs (x ∷ acc)

-- the inner loop of `TopK` on the entries of a node from `Back` on; whether it returned
unfoldable pub top_entries : {K : Type 0} → ℕ → List K → List K → List K × Bool
top_entries k [] keys = (keys, false)
top_entries k (x ∷ xs) keys =
    let more = top_entries k xs (keys ++ x ∷ []) in
    if leb k (length keys + 1) then (keys ++ x ∷ [], true) else more

-- its outer loop, on the nodes from `Back` on
unfoldable pub top_nodes : {K : Type 0} → ℕ → List (FreqNode K) → List K → List K
unfolding top_entries
top_nodes k [] keys = keys
top_nodes k (n ∷ ns) keys =
    let r = top_entries k (backwards n.entries []) keys in
    let more = top_nodes k ns (r.0) in if r.1 then r.0 else more

-- `TopK`
unfoldable pub top_k : {K V : Type 0} → Cache K V → ℕ → List K
unfolding top_nodes
top_k c k = top_nodes k (backwards c.freqs []) []
