-- ===== src/Kv/Pool/Tests.antt =====
-- A small cache taken through its calls, and the theorems at its states.
use superl8_serve.Prelude.{
  ℕ, ◌+◌, ◌≤◌, ◌<◌, ◌≡◌, refl, List, [], ◌∷◌, some, none, true, arith, count, ltb, if◌then◌else◌,
  min,
}
use superl8_serve.Kv.Dict.{lookup, insert, erase}
use superl8_serve.Kv.Trie.{
  Entry, entry_at, modify, prune, drop_empty, walk, older, oldest, visit, descend, refs, entries,
}
use superl8_serve.Kv.Trie.Descend.{Longest}
use superl8_serve.Kv.Pool.{
  Pool, Config, init, alloc, free, release, retain, grow, ensure_capacity, share_blocks,
  store_prefix, lookup_prefix, evict_one_prefix, blocks_of, evict_at, unpin, pin, enforce_loop,
  enforce_prefix_budget, make_room, add_entry, store_entry, store_token, store_loop, tick_lru,
  pinned_prefix_blocks,
}
use superl8_serve.Kv.Pool.Valid.{IsValid, InUse, holders, slot_refs, init-IsValid, alloc-IsValid}
use superl8_serve.Kv.Pool.Slots.{Provides, AllHeld, free-IsValid, ensure_capacity-Provides}
use superl8_serve.Kv.Pool.Evict.{Evicts, Keeps, evict_one_prefix-Evicts}
use superl8_serve.Kv.Pool.Store.{store_prefix-Keeps, lookup_prefix-Longest, pinned-store_prefix}
use superl8_serve.Kv.Pool.Compact.{
  compact, replace_blocks, pop_blocks, drop_block, Metrics, compact-shared,
}
use superl8_serve.Kv.Pool.Reach.{here, next, allocates, ensures, stores, free_or_held}

program : Unit {0}
unfolding init alloc free release retain grow ensure_capacity share_blocks store_prefix
    lookup_prefix evict_one_prefix evict_at unpin pin enforce_loop enforce_prefix_budget make_room
    add_entry store_entry store_token store_loop tick_lru pinned_prefix_blocks lookup insert erase
    entry_at modify prune drop_empty walk older oldest visit descend refs entries slot_refs compact
    replace_blocks pop_blocks drop_block
program = tt

-- Two slots of up to six tokens, blocks of two, half of the six blocks for the prefix cache.
abbrev config : Config
config = record {
  num_slots = 2;
  max_len = 6;
  block_size = 2;
  num_blocks = none;
  max_prefix_entries = none;
  max_prefix_blocks = none;
  max_prefix_block_fraction = some (1, 2);
}

abbrev start : Pool
start = init config

-- Slot 1 given out, grown to four tokens, and its prompt stored.
abbrev leased : Pool
leased = record start { free_slots = 0 ∷ [] }

abbrev filled : Pool
filled = (ensure_capacity ((1, 4) ∷ []) leased).0

abbrev prompt : List ℕ
prompt = 7 ∷ 8 ∷ 9 ∷ 1 ∷ []

abbrev cached : Pool
cached = store_prefix prompt 1 filled

filled_blocks : filled.slot_blocks ≡ [] ∷ (5 ∷ 4 ∷ []) ∷ []
unfolding program
filled_blocks = refl

cached_books :
    (cached.prefix_block_refs ≡ (5, 2) ∷ (4, 1) ∷ [])
    × (cached.block_refcount ≡ (5, 3) ∷ (4, 2) ∷ [])
unfolding program
cached_books = (refl, refl)

-- A longer prompt with the same first four tokens shares their blocks.
shared_prefix : (lookup_prefix (7 ∷ 8 ∷ 9 ∷ 1 ∷ 2 ∷ []) cached).1 ≡ (4, 5 ∷ 4 ∷ [])
unfolding program
shared_prefix = refl

start-IsValid : IsValid start
start-IsValid = init-IsValid config (omega arith)

allocated : alloc start ≡ some (leased, 1)
unfolding program
allocated = refl

leased-IsValid : IsValid leased
leased-IsValid = (alloc-IsValid start start-IsValid allocated).0

leased-InUse : InUse leased 1
leased-InUse = (alloc-IsValid start start-IsValid allocated).1

ensure_capacity-Provides_example :
    Provides leased ((1, 4) ∷ []) (ensure_capacity ((1, 4) ∷ []) leased)
ensure_capacity-Provides_example =
    ensure_capacity-Provides ((1, 4) ∷ []) leased leased-IsValid (leased-InUse, tt)

filled-IsValid : IsValid filled
filled-IsValid = ensure_capacity-Provides_example.0.valid

filled-InUse : InUse filled 1
unfolding program
filled-InUse = (omega arith, refl)

store_prefix-Keeps_example : Keeps filled (store_prefix prompt 1 filled)
unfolding program
store_prefix-Keeps_example = store_prefix-Keeps prompt 1 filled (omega arith) filled-IsValid

cached-IsValid : IsValid cached
cached-IsValid = store_prefix-Keeps_example.valid

cached-InUse : InUse cached 1
unfolding program
cached-InUse = (omega arith, refl)

free-IsValid_example : IsValid (free cached 1)
free-IsValid_example = free-IsValid cached 1 cached-IsValid cached-InUse

-- The freed slot's blocks stay with the prefix cache.
freed_blocks : (free cached 1).free_blocks ≡ 3 ∷ 2 ∷ 1 ∷ 0 ∷ []
unfolding program
freed_blocks = refl

lookup_prefix-Longest_example :
    Longest prompt cached.prefix_trie (0, []) (lookup_prefix prompt cached).1
    × Keeps cached (lookup_prefix prompt cached).0
lookup_prefix-Longest_example = lookup_prefix-Longest prompt cached cached-IsValid

-- Slot 0 given out too, to share the prompt's blocks.
abbrev second : Pool
second = record cached { free_slots = [] }

second-lease : alloc cached ≡ some (second, 0)
unfolding program
second-lease = refl

second-IsValid : IsValid second
second-IsValid = (alloc-IsValid cached cached-IsValid second-lease).0

second-AllHeld : AllHeld second (5 ∷ 4 ∷ [])
unfolding program
second-AllHeld b h = ground arith

pinned-store_prefix_example : pinned_prefix_blocks (store_prefix prompt 1 filled) ≤ 3
unfolding program
pinned-store_prefix_example =
    pinned-store_prefix prompt 1 filled 3 (omega arith) filled-IsValid refl (omega arith)

evict_one_prefix-Evicts_example :
    (t : ℕ) × (r : List ℕ) × (e : Entry) × (evict_one_prefix cached
      ≡ (evict_at (t ∷ r) e cached, true))
    × Evicts cached (evict_at (t ∷ r) e cached) t r e
    × IsValid (evict_at (t ∷ r) e cached)
    × (entries (evict_at (t ∷ r) e cached).prefix_trie + 1 ≡ entries cached.prefix_trie)
unfolding program
evict_one_prefix-Evicts_example = evict_one_prefix-Evicts cached cached-IsValid (omega arith)

free_or_held_example :
    count 5 cached.free_blocks + min 1 (holders cached 5)
    ≡ (if ltb 5 cached.num_blocks then 1 else 0)
unfolding program
free_or_held_example = free_or_held config cached 5 (omega arith) (
    next (next (next here (allocates allocated)) (ensures ((1, 4) ∷ []) (leased-InUse, tt)))
      (stores prompt 1 (omega arith)))

-- Keeping one token of slot 1 needs one block in place of two; both are shared with the prefix
-- cache, and are now free as well as held.
abbrev compacted : Pool
compacted = record cached {
  free_blocks = 4 ∷ 5 ∷ 2 ∷ 1 ∷ 0 ∷ [];
  slot_blocks = [] ∷ (3 ∷ []) ∷ [];
  block_refcount = [];
}

abbrev metrics : Metrics
metrics = record { blocks_freed = 1; blocks_after = 1; tokens_kept = 1 }

compact-shared_example :
    (0 < count 5 compacted.free_blocks) × (0 < holders compacted 5) × (¬ IsValid compacted)
unfolding program
compact-shared_example =
    compact-shared 1 (0 ∷ []) cached compacted metrics 5 cached-IsValid (omega arith) refl
      (λ e. absurd (omega arith)) (omega arith) (omega arith)

abbrev lone : Pool
lone = record filled {
  free_blocks = 4 ∷ 5 ∷ 2 ∷ 1 ∷ 0 ∷ [];
  slot_blocks = [] ∷ (3 ∷ []) ∷ [];
  block_refcount = [];
}

filled_alone : (b : ℕ) → 0 < count b (blocks_of filled 1) → holders filled b ≡ 1
unfolding program
filled_alone b h = ground arith
