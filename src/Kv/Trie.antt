-- ===== src/Kv/Trie.antt =====
-- The radix trie of engine/kv_cache.py: nested dicts from token ids to nodes, where a node may
-- hold an "_entry". A `Trie` lists the children of one dict in insertion order.
pub mod Modify
pub mod Paths
pub mod Sizes
pub mod Oldest
pub mod Descend
use superl8_serve.Prelude.{
  ℕ, ◌+◌, ◌≡◌, refl, List, [], ◌∷◌, ◌++◌, map, Option, none, some, if◌then◌else◌, ◌==◌, leb, ltb,
  count, true, false, Bool, ◌≢◌,
}
use mathlib.Core.List.{foldl}

pub record Entry : Type 0 where
  pub blocks : List ℕ
  pub num_tokens : ℕ
  pub lru : ℕ

-- `node t e sub rest`: token `t` leads to a dict with the entry `e` and the children `sub`;
-- `rest` are the siblings inserted later.
pub data Trie : Type 0 where
  leaf : Trie
  node : ℕ → Option Entry → Trie → Trie → Trie

-- The entry of the dict at a path of tokens. The root dict holds none.
unfoldable pub entry_at : List ℕ → Trie → Option Entry
entry_at [] f = none
entry_at (t ∷ p) leaf = none
entry_at (t ∷ []) (node u e sub rest) = if u == t then e else entry_at (t ∷ []) rest
entry_at (t ∷ q ∷ p) (node u e sub rest) = elim (u == t) [
  | true ↦ entry_at (q ∷ p) sub
  | false ↦ entry_at (t ∷ q ∷ p) rest
]

-- `setdefault` along a path, and a change of the entry at its end.
unfoldable pub modify : List ℕ → (Option Entry → Option Entry) → Trie → Trie
modify [] g f = f
modify (t ∷ []) g leaf = node t (g none) leaf leaf
modify (t ∷ q ∷ p) g leaf = node t none (modify (q ∷ p) g leaf) leaf
modify (t ∷ []) g (node u e sub rest) = elim (u == t) [
  | true ↦ node u (g e) sub rest
  | false ↦ node u e sub (modify (t ∷ []) g rest)
]
modify (t ∷ q ∷ p) g (node u e sub rest) = elim (u == t) [
  | true ↦ node u e (modify (q ∷ p) g sub) rest
  | false ↦ node u e sub (modify (t ∷ q ∷ p) g rest)
]

-- A child whose dict is empty goes; any other stays.
unfoldable pub drop_empty : ℕ → Option Entry → Trie → Trie → Trie
drop_empty u none leaf rest = rest
drop_empty u e sub rest = node u e sub rest

-- `if len(node) == 0: parent.pop(path[-1], None)`, for the node at the path.
unfoldable pub prune : List ℕ → Trie → Trie
prune [] f = f
prune (t ∷ p) leaf = leaf
prune (t ∷ []) (node u e sub rest) = elim (u == t) [
  | true ↦ drop_empty u e sub rest
  | false ↦ node u e sub (prune (t ∷ []) rest)
]
prune (t ∷ q ∷ p) (node u e sub rest) = elim (u == t) [
  | true ↦ node u e (prune (q ∷ p) sub) rest
  | false ↦ node u e sub (prune (t ∷ q ∷ p) rest)
]

-- The entries with their paths, in the order in which `_walk` meets them.
abbrev pub here : ℕ → Option Entry → List (List ℕ × Entry)
here t none = []
here t (some e) = (t ∷ [], e) ∷ []

abbrev pub under : ℕ → List ℕ × Entry → List ℕ × Entry
under t (p, e) = (t ∷ p, e)

unfoldable pub walk : Trie → List (List ℕ × Entry)
walk leaf = []
walk (node t e sub rest) = here t e ++ (map (under t) (walk sub) ++ walk rest)

-- `if oldest is None or lru < oldest_lru`
unfoldable pub older : Option (List ℕ × Entry) → List ℕ × Entry → Option (List ℕ × Entry)
older none x = some x
older (some (q, d)) (p, e) = if ltb e.lru d.lru then some (p, e) else some (q, d)

unfoldable pub oldest : Trie → Option (List ℕ × Entry)
oldest f = foldl older none (walk f)

-- One step of `lookup_prefix` at a node: the entry with its LRU time moved, and the best match.
unfoldable pub visit : ℕ → ℕ → Option Entry → ℕ × List ℕ → Option Entry × (ℕ × List ℕ)
visit now n none best = (none, best)
visit now n (some e) best =
    if leb e.num_tokens n
    then (some (record e { lru = now }), (e.num_tokens, e.blocks))
    else (some e, best)

-- The loop of `lookup_prefix`, `n` tokens down: the trie with the LRU times moved, and the match.
unfoldable pub descend : ℕ → ℕ → List ℕ → Trie → ℕ × List ℕ → Trie × (ℕ × List ℕ)
descend now n [] f best = (f, best)
descend now n (t ∷ ts) leaf best = (leaf, best)
descend now n (t ∷ ts) (node u e sub rest) best = elim (u == t) [
  | true ↦
      let (e', best') = visit now (n + 1) e best in
      let (sub', found) = descend now (n + 1) ts sub best' in (node u e' sub' rest, found)
  | false ↦ let (rest', found) = descend now n (t ∷ ts) rest best in (node u e sub rest', found)
]

-- What an entry and a trie pin: how often block `b` stands in them, and how many entries there are.
abbrev pub entry_refs : ℕ → Option Entry → ℕ
entry_refs b none = 0
entry_refs b (some e) = count b e.blocks

unfoldable pub refs : ℕ → Trie → ℕ
refs b leaf = 0
refs b (node t e sub rest) = entry_refs b e + (refs b sub + refs b rest)

abbrev pub one_if : Option Entry → ℕ
one_if none = 0
one_if (some e) = 1

unfoldable pub entries : Trie → ℕ
entries leaf = 0
entries (node t e sub rest) = one_if e + (entries sub + entries rest)

-- No dict has a key twice.
abbrev pub Fresh : ℕ → Trie → Type 0
Fresh t leaf = Unit
Fresh t (node u e sub rest) = (u ≢ t) × Fresh t rest

abbrev pub IsDict : Trie → Type 0
IsDict leaf = Unit
IsDict (node t e sub rest) = Fresh t rest × IsDict sub × IsDict rest
