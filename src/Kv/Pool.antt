-- ===== src/Kv/Pool.antt =====
-- `PagedKVCache` of engine/kv_cache.py, the host bookkeeping: slots, blocks, reference counts and
-- the prefix cache. A Python list used as a stack is a list with the top first. The tensors that
-- hold the quantised keys and values are not modelled.
pub mod Ledger
pub mod Valid
pub mod Slots
pub mod Evict
pub mod Entries
pub mod Store
pub mod Compact
pub mod Reach
mod Tests
use superl8_serve.Prelude.{
  ℕ, zero, suc, ◌+◌, ◌-◌, ◌*◌, ◌/◌, ◌%◌, List, [], ◌∷◌, ◌++◌, Option, none, some, Bool, true, false,
  ◌&&◌, if◌then◌else◌, ◌==◌, leb, ltb, length, get_or, set, take, range_down, replicate, max,
}
use mathlib.Core.List.{foldl}
use superl8_serve.Kv.Dict.{Dict, get, insert, erase}
use superl8_serve.Kv.Trie.{Entry, Trie, leaf, entry_at, modify, prune, oldest, descend, entries}

pub record Pool : Type 0 where
  pub block_size : ℕ
  pub num_blocks : ℕ
  pub num_slots : ℕ
  pub free_blocks : List ℕ
  pub free_slots : List ℕ
  pub slot_blocks : List (List ℕ)
  pub block_refcount : Dict
  pub prefix_trie : Trie
  pub lru : ℕ
  pub max_prefix_entries : Option ℕ
  pub prefix_entry_count : ℕ
  pub max_prefix_blocks : Option ℕ
  pub prefix_block_refs : Dict

pub record Config : Type 0 where
  pub num_slots : ℕ
  pub max_len : ℕ
  pub block_size : ℕ
  pub num_blocks : Option ℕ
  pub max_prefix_entries : Option ℕ
  pub max_prefix_blocks : Option ℕ
  pub max_prefix_block_fraction : Option (ℕ × ℕ)

-- Blocks for `n` tokens: `(n + block_size - 1) // block_size`.
abbrev pub blocks_for : ℕ → ℕ → ℕ
blocks_for bs n = (n + bs - 1) / bs

-- `num_blocks or num_slots * max_blocks_per_seq`
abbrev pub or_default : Option ℕ → ℕ → ℕ
or_default none d = d
or_default (some n) d = if n == 0 then d else n

-- The budget of the prefix cache in blocks; the fraction of the pool is a numerator and a
-- denominator.
abbrev pub prefix_budget : Option ℕ → Option (ℕ × ℕ) → ℕ → Option ℕ
prefix_budget (some m) f n = some m
prefix_budget none (some (a, b)) n = some (max 1 (n * a / b))
prefix_budget none none n = none

unfoldable pub init : Config → Pool
init c = record {
  block_size = c.block_size;
  num_blocks = blocks;
  num_slots = c.num_slots;
  free_blocks = range_down blocks;
  free_slots = range_down c.num_slots;
  slot_blocks = replicate c.num_slots [];
  block_refcount = [];
  prefix_trie = leaf;
  lru = 0;
  max_prefix_entries = c.max_prefix_entries;
  prefix_entry_count = 0;
  max_prefix_blocks = prefix_budget c.max_prefix_blocks c.max_prefix_block_fraction blocks;
  prefix_block_refs = [];
}
  where
    blocks : ℕ
    blocks = or_default c.num_blocks (c.num_slots * blocks_for c.block_size c.max_len)

-- The block table of a slot.
abbrev pub blocks_of : Pool → ℕ → List ℕ
blocks_of p slot = get_or p.slot_blocks slot []

-- `none` is the RuntimeError "no free slots".
unfoldable pub alloc : Pool → Option (Pool × ℕ)
alloc p = elim p.free_slots [ [] ↦ none | s ∷ rest ↦ some (record p { free_slots = rest }, s) ]

unfoldable pub has_free_slot : Pool → Bool
has_free_slot p = elim p.free_slots [ [] ↦ false | _ ∷ _ ↦ true ]

unfoldable pub has_free_block : Pool → Bool
has_free_block p = elim p.free_blocks [ [] ↦ false | _ ∷ _ ↦ true ]

unfoldable pub used_blocks : Pool → ℕ
used_blocks p = p.num_blocks - length p.free_blocks

-- One reference to a block less; with the last one the block is free.
unfoldable pub release : Pool → ℕ → Pool
release p blk =
    let c = get p.block_refcount blk 1 - 1 in
    record p {
      block_refcount = if c == 0 then erase blk p.block_refcount else insert blk c p.block_refcount;
      free_blocks = if c == 0 then blk ∷ p.free_blocks else p.free_blocks;
    }

unfoldable pub free : Pool → ℕ → Pool
free p slot =
    let q = foldl release p (blocks_of p slot) in
    record q { slot_blocks = set q.slot_blocks slot []; free_slots = slot ∷ q.free_slots }

-- The `while` of `ensure_capacity` for one slot, by the blocks that are still wanted. `false` is
-- the RuntimeError "no free blocks", after which the slot keeps the blocks taken so far.
unfoldable pub grow : ℕ → ℕ → Pool → Pool × Bool
grow zero slot p = (p, true)
grow (suc k) slot p = elim p.free_blocks [
  | [] ↦ (p, false)
  | blk ∷ rest ↦ grow k slot (record p {
    free_blocks = rest;
    slot_blocks = set p.slot_blocks slot (blocks_of p slot ++ blk ∷ []);
    block_refcount = insert blk 1 p.block_refcount;
  })
]

unfoldable pub ensure_capacity : List (ℕ × ℕ) → Pool → Pool × Bool
ensure_capacity [] p = (p, true)
ensure_capacity ((slot, n) ∷ rest) p =
    let (q, done) = grow (blocks_for p.block_size n - length (blocks_of p slot)) slot p in
    elim done [ true ↦ ensure_capacity rest q | false ↦ (q, false) ]

-- One reference to a block more.
unfoldable pub retain : Pool → ℕ → Pool
retain p blk = record p {
  block_refcount = insert blk (get p.block_refcount blk 1 + 1) p.block_refcount;
}

unfoldable pub share_blocks : ℕ → List ℕ → Pool → Pool
share_blocks slot blocks p =
    foldl retain (record p { slot_blocks = set p.slot_blocks slot blocks }) blocks

unfoldable pub tick_lru : Pool → Pool
tick_lru p = record p { lru = p.lru + 1 }

-- A prefix entry's own reference to a block less.
unfoldable pub unpin : Pool → ℕ → Pool
unpin p blk =
    let pc = get p.prefix_block_refs blk 0 - 1 in
    release
      (record p {
        prefix_block_refs =
            if pc == 0 then erase blk p.prefix_block_refs else insert blk pc p.prefix_block_refs;
      })
      blk

unfoldable pub pin : Pool → ℕ → Pool
pin p blk =
    let q = retain p blk in
    record q {
      prefix_block_refs = insert blk (get q.prefix_block_refs blk 0 + 1) q.prefix_block_refs;
    }

-- The eviction of the entry `e` that stands at a path.
unfoldable pub evict_at : List ℕ → Entry → Pool → Pool
evict_at path e p =
    let q = foldl unpin p e.blocks in
    record q {
      prefix_entry_count = q.prefix_entry_count - 1;
      prefix_trie = prune path (modify path (λ _. none) q.prefix_trie);
    }

unfoldable pub evict_one_prefix : Pool → Pool × Bool
evict_one_prefix p = elim (oldest p.prefix_trie) [
  | none ↦ (p, false)
  | some (path, e) ↦ (evict_at path e p, true)
]

-- The `while` of `_enforce_prefix_budget` on fuel.
unfoldable pub enforce_loop : ℕ → ℕ → Pool → Pool
enforce_loop zero budget p = p
enforce_loop (suc fuel) budget p = elim (ltb budget (length p.prefix_block_refs)) [
  | true ↦
      let (q, evicted) = evict_one_prefix p in
      elim evicted [ true ↦ enforce_loop fuel budget q | false ↦ q ]
  | false ↦ p
]

-- Each round takes an entry away, so one round more than there are entries is enough.
unfoldable pub enforce_prefix_budget : Pool → Pool
enforce_prefix_budget p = elim p.max_prefix_blocks [
  | none ↦ p
  | some budget ↦ enforce_loop (suc (entries p.prefix_trie)) budget p
]

unfoldable pub pinned_prefix_blocks : Pool → ℕ
pinned_prefix_blocks p = length p.prefix_block_refs

-- "Evicts the oldest entry when max_prefix_entries is exceeded."
unfoldable pub make_room : Pool → Pool
make_room p = elim p.max_prefix_entries [
  | none ↦ p
  | some m ↦ if leb m p.prefix_entry_count then (evict_one_prefix p).0 else p
]

-- A new entry under a path, over blocks that the slot holds.
unfoldable pub add_entry : ℕ → List ℕ → List ℕ → Pool → Pool
add_entry now path blocks p =
    let e : Entry = record { blocks = blocks; num_tokens = length path; lru = now } in
    let q = foldl pin (record p { prefix_trie = modify path (λ _. some e) p.prefix_trie }) blocks in
    record q { prefix_entry_count = q.prefix_entry_count + 1 }

abbrev pub touched : ℕ → Option Entry → Option Entry
touched now none = none
touched now (some e) = some (record e { lru = now })

-- A block-aligned boundary: a new entry, or the old one's LRU time moved.
unfoldable pub store_entry : ℕ → List ℕ → List ℕ → Pool → Pool
store_entry now path full p = elim (entry_at path p.prefix_trie) [
  | none ↦ add_entry now path (take (length path / p.block_size) full) (make_room p)
  | some _ ↦ record p { prefix_trie = modify path (touched now) p.prefix_trie }
]

-- One token of the loop of `store_prefix`: the path, the token included, then the boundary.
unfoldable pub store_token : ℕ → ℕ → List ℕ → List ℕ → Pool → Pool
store_token now num_shared full path p =
    let q = record p { prefix_trie = modify path (λ e. e) p.prefix_trie } in
    if length path % p.block_size == 0 && leb (length path / p.block_size) num_shared
    then store_entry now path full q
    else q

unfoldable pub store_loop : ℕ → ℕ → List ℕ → List ℕ → List ℕ → Pool → Pool
store_loop now num_shared full path [] p = p
store_loop now num_shared full path (t ∷ ts) p =
    store_loop now num_shared full (path ++ t ∷ []) ts
      (store_token now num_shared full (path ++ t ∷ []) p)

unfoldable pub store_prefix : List ℕ → ℕ → Pool → Pool
store_prefix token_ids slot p =
    let num_shared = length token_ids / p.block_size in
    if num_shared == 0
    then p
    else enforce_prefix_budget
        (store_loop (p.lru + 1) num_shared (blocks_of p slot) [] token_ids (tick_lru p))

unfoldable pub lookup_prefix : List ℕ → Pool → Pool × (ℕ × List ℕ)
lookup_prefix token_ids p =
    let (trie, best) = descend (p.lru + 1) 0 token_ids p.prefix_trie (0, []) in
    (record p { lru = p.lru + 1; prefix_trie = trie }, best)

-- The flat index of a position: `blocks[p // block_size] * block_size + p % block_size`.
abbrev pub flat_index : ℕ → List ℕ → ℕ → ℕ
flat_index bs blocks pos = get_or blocks (pos / bs) 0 * bs + pos % bs

-- `flat_slot_mapping(slot, length)`, from position `i` on.
unfoldable pub flat_from : ℕ → List ℕ → ℕ → ℕ → List ℕ
flat_from bs blocks i zero = []
flat_from bs blocks i (suc n) = flat_index bs blocks i ∷ flat_from bs blocks (i + 1) n

unfoldable pub flat_slot_mapping : Pool → ℕ → ℕ → List ℕ
flat_slot_mapping p slot n = flat_from p.block_size (blocks_of p slot) 0 n
