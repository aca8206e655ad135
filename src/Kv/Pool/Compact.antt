-- ===== src/Kv/Pool/Compact.antt =====
-- The block bookkeeping of `KVEviction.compact` in engine/kv_cache.py. The move of the kept
-- tokens' keys and values between the blocks is not modelled.
use superl8_serve.Prelude.{
  ℕ, zero, suc, ◌+◌, ◌-◌, ◌/◌, ◌<◌, Bool, true, ◌&&◌, ltb, ◌≡◌, refl, List, [], ◌∷◌, Option, none,
  some, ◌||◌, if◌then◌else◌, ◌==◌, leb, arith, count, set, length, length-set, get_or-set_ne, subst,
  sym, ap, ◌≢◌, Option-cases, inl, inr,
}
use mathlib.Core.List.{foldl}
use native.Mathlib.Decide.{ℕ_discrete}
use superl8_serve.Kv.Dict.{erase, lookup-erase}
use superl8_serve.Kv.Trie.{refs, IsDict}
use superl8_serve.Kv.Trie.Sizes.{IsSized}
use mathlib.Core.Path.{subst₂}
use superl8_serve.Kv.Pool.Ledger.{Books, Frame, Frame-all}
use superl8_serve.Kv.Pool.{Pool, blocks_of, blocks_for}
use superl8_serve.Kv.Pool.Valid.{IsValid, InUse, holders, slot_refs, slot_refs-set}

pub record Metrics : Type 0 where
  pub blocks_freed : ℕ
  pub blocks_after : ℕ
  pub tokens_kept : ℕ

-- The `_free_blocks.pop()` for each new block with its check; `none` is the RuntimeError "no free
-- blocks for eviction compaction", after which the blocks popped so far are on no list.
unfoldable pub pop_blocks : ℕ → List ℕ → Option (List ℕ × List ℕ)
pop_blocks zero free = some ([], free)
pop_blocks (suc n) [] = none
pop_blocks (suc n) (blk ∷ free) = elim (pop_blocks n free) [
  | none ↦ none
  | some (taken, rest) ↦ some (blk ∷ taken, rest)
]

-- `_block_refcount.pop(blk, None)` and `_free_blocks.append(blk)`, whatever the count was.
unfoldable pub drop_block : Pool → ℕ → Pool
drop_block p blk = record p {
  block_refcount = erase blk p.block_refcount;
  free_blocks = blk ∷ p.free_blocks;
}

-- The part behind the early returns: `needed` new blocks in place of the old ones.
unfoldable pub replace_blocks : ℕ → ℕ → ℕ → Pool → Option (Pool × Metrics)
replace_blocks slot needed num_kept p = elim (pop_blocks needed p.free_blocks) [
  | none ↦ none
  | some (new_blocks, rest) ↦
      let old_blocks = blocks_of p slot in
      let q = foldl drop_block (record p { free_blocks = rest }) old_blocks in
      some (
        record q { slot_blocks = set q.slot_blocks slot new_blocks },
        record {
          blocks_freed = length old_blocks - needed;
          blocks_after = length new_blocks;
          tokens_kept = num_kept;
        },
      )
]

abbrev unchanged : ℕ → ℕ → Pool → Option (Pool × Metrics)
unchanged slot kept p =
    some
      (p, record { blocks_freed = 0; blocks_after = length (blocks_of p slot); tokens_kept = kept })

-- The positions have their blocks; the index of another one into `old_blocks` is an IndexError.
abbrev pub all_within : ℕ → ℕ → List ℕ → Bool
all_within block_size num_blocks [] = true
all_within block_size num_blocks (pos ∷ positions) =
    ltb (pos / block_size) num_blocks && all_within block_size num_blocks positions

-- `compact(cache, slot, keep_positions)` for an int8 cache of one layer or more; `none` is an error.
unfoldable pub compact : ℕ → List ℕ → Pool → Option (Pool × Metrics)
compact slot keep_positions p =
    let num_kept = length keep_positions in
    let needed = blocks_for p.block_size num_kept in
    if length (blocks_of p slot) == 0 || num_kept == 0
    then unchanged slot 0 p
    else if leb (length (blocks_of p slot)) needed
    then unchanged slot num_kept p
    else if all_within p.block_size (length (blocks_of p slot)) keep_positions
    then replace_blocks slot needed num_kept p
    else none

pop_blocks-count :
    (n : ℕ) (free : List ℕ) {taken rest : List ℕ} (b : ℕ)
    → pop_blocks n free ≡ some (taken, rest)
    → count b free ≡ count b taken + count b rest
unfolding pop_blocks
pop_blocks-count zero free b h = ground arith
pop_blocks-count (suc n) [] b h = cc
pop_blocks-count (suc n) (blk ∷ free) {taken} {rest} b h = elim (Option-cases (pop_blocks n free)) [
  | inl dry ↦ absurd (ground arith)
  | inr ((more, left), e) ↦ let ih = pop_blocks-count n free b e in ground arith
]

drop_all-Frame : (xs : List ℕ) (p : Pool) → Frame p (foldl drop_block p xs)
unfolding drop_block
drop_all-Frame = Frame-all drop_block (λ p x. ground arith)

drop_all-refs :
    (xs : List ℕ) (p : Pool) → (foldl drop_block p xs).prefix_block_refs ≡ p.prefix_block_refs
unfolding drop_block
drop_all-refs [] p = refl
drop_all-refs (x ∷ xs) p = drop_all-refs xs (drop_block p x)

drop_all-count :
    (b : ℕ) (xs : List ℕ) (p : Pool)
    → count b (foldl drop_block p xs).free_blocks ≡ count b p.free_blocks + count b xs
unfolding drop_block
drop_all-count b [] p = omega arith
drop_all-count b (x ∷ xs) p = omega (arith, drop_all-count b xs (drop_block p x))

drop_block-Books :
    (p : Pool) (x b k : ℕ)
    → (x ≡ b → k ≡ 0)
    → Books p b (k + (if x == b then 1 else 0))
    → Books (drop_block p x) b k
unfolding drop_block
drop_block-Books p x b k alone h = ground (arith, lookup-erase x b p.block_refcount)

drop_all-Books :
    (b : ℕ) (xs : List ℕ) (p : Pool) (k : ℕ)
    → (0 < count b xs → (k ≡ 0) × (count b xs ≡ 1))
    → Books p b (k + count b xs)
    → Books (foldl drop_block p xs) b k
drop_all-Books b [] p k alone h = subst (Books p b) (omega arith) h
drop_all-Books b (x ∷ xs) p k alone h =
    drop_all-Books b xs (drop_block p x) k (λ k'. ground arith)
      (drop_block-Books p x b (k + count b xs) (λ e. ground arith)
        (subst (Books p b) (omega arith) h))

-- What a successful replacement leaves.
replace_inv :
    (slot needed num_kept : ℕ) (p : Pool) {q : Pool} {m : Metrics}
    → replace_blocks slot needed num_kept p ≡ some (q, m)
    → (taken : List ℕ) × (rest : List ℕ) × (pop_blocks needed p.free_blocks ≡ some (taken, rest))
      × (let r = foldl drop_block (record p { free_blocks = rest }) (blocks_of p slot) in
          q ≡ record r { slot_blocks = set r.slot_blocks slot taken })
unfolding replace_blocks
replace_inv slot needed num_kept p h = elim (Option-cases (pop_blocks needed p.free_blocks)) [
  | inl dry ↦ absurd (ground arith)
  | inr ((taken, rest), e) ↦ (taken, rest, e, ground arith)
]

compact_inv :
    (slot : ℕ) (keep : List ℕ) (p : Pool) {q : Pool} {m : Metrics}
    → compact slot keep p ≡ some (q, m)
    → m.blocks_freed ≢ 0
    → replace_blocks slot (blocks_for p.block_size (length keep)) (length keep) p ≡ some (q, m)
unfolding compact
compact_inv slot keep p h freed = ground arith

compact_same :
    (slot : ℕ) (keep : List ℕ) (p : Pool) {q : Pool} {m : Metrics}
    → compact slot keep p ≡ some (q, m)
    → m.blocks_freed ≡ 0
    → q ≡ p
unfolding compact replace_blocks
compact_same slot keep p h none_freed = ground arith

-- On a valid cache, where `compact` replaces the blocks of a slot and one of them has another
-- holder, that block is then on the free list and held, and the cache is not valid.
pub compact-shared :
    (slot : ℕ) (keep : List ℕ) (p q : Pool) (m : Metrics) (b : ℕ)
    → IsValid p
    → slot < p.num_slots
    → compact slot keep p ≡ some (q, m)
    → m.blocks_freed ≢ 0
    → 0 < count b (blocks_of p slot)
    → count b (blocks_of p slot) < holders p b
    → (0 < count b q.free_blocks) × (0 < holders q b) × (¬ IsValid q)
compact-shared slot keep p q m b v lt h freed has other =
    let (taken, rest, popped, is) =
      replace_inv slot (blocks_for p.block_size (length keep)) (length keep) p
        (compact_inv slot keep p h freed) in
    let r = foldl drop_block (record p { free_blocks = rest }) (blocks_of p slot) in
    let fr = drop_all-Frame (blocks_of p slot) (record p { free_blocks = rest }) in
    let on_list = drop_all-count b (blocks_of p slot) (record p { free_blocks = rest }) in
    let table = slot_refs-set b p.slot_blocks slot taken in
    let free_again : 0 < count b q.free_blocks = ground (arith, is, on_list) in
    let held : 0 < holders q b = ground (arith, is, table, v.slots) in
    (free_again, held, λ valid. absurd (ground (arith, (valid.books b).placed)))

replaced-IsValid :
    (slot : ℕ) (keep : List ℕ) (p q : Pool) (m : Metrics)
    → IsValid p
    → InUse p slot
    → ((b : ℕ) → 0 < count b (blocks_of p slot) → holders p b ≡ 1)
    → compact slot keep p ≡ some (q, m)
    → m.blocks_freed ≢ 0
    → IsValid q
replaced-IsValid slot keep p q m v u alone h freed =
    let (taken, rest, popped, is) =
      replace_inv slot (blocks_for p.block_size (length keep)) (length keep) p
        (compact_inv slot keep p h freed) in
    let p' : Pool = record p { free_blocks = rest } in
    let r = foldl drop_block p' (blocks_of p slot) in
    let fr = drop_all-Frame (blocks_of p slot) p' in
    let books = λ (b : ℕ).
      let table = slot_refs-set b p.slot_blocks slot taken in
      let split = pop_blocks-count (blocks_for p.block_size (length keep)) p.free_blocks b popped in
      let same_table = ap (λ ts. slot_refs b (set ts slot taken)) fr.slot_blocks in
      let same_trie = ap (refs b) fr.prefix_trie in
      drop_all-Books b (blocks_of p slot) p'
        (slot_refs b (set r.slot_blocks slot taken) + refs b r.prefix_trie)
        (λ has. ground (arith, alone b, (v.books b).placed, v.slots))
        (record {
          counted = ground (arith, (v.books b).counted, (v.books b).placed, alone b, v.slots);
          placed = ground (arith, (v.books b).placed, alone b, v.slots);
        }) in
    subst IsValid (sym is) (record {
      positive = ground (arith, v.positive);
      books = λ b. record { counted = (books b).counted; placed = (books b).placed };
      pins = λ b. ground (arith, v.pins b, drop_all-refs (blocks_of p slot) p');
      counted = ground (arith, v.counted);
      dict = subst IsDict (sym fr.prefix_trie) v.dict;
      sized = subst₂ (λ bs f. IsSized bs 0 f) (sym fr.block_size) (sym fr.prefix_trie) v.sized;
      slots = ground (arith, v.slots, length-set r.slot_blocks slot taken);
      idle = λ t k. ground (arith, v.idle t, get_or-set_ne p.slot_blocks slot t taken []);
    })

-- Where `compact` of a slot in use of a valid cache returns and nothing else holds any of its blocks,
-- the cache stays valid.
pub compact-IsValid :
    (slot : ℕ) (keep : List ℕ) (p q : Pool) (m : Metrics)
    → IsValid p
    → InUse p slot
    → ((b : ℕ) → 0 < count b (blocks_of p slot) → holders p b ≡ 1)
    → compact slot keep p ≡ some (q, m)
    → IsValid q
compact-IsValid slot keep p q m v u alone h = elim (ℕ_discrete m.blocks_freed 0) [
  | yes none_freed ↦ subst IsValid (sym (compact_same slot keep p h none_freed)) v
  | no freed ↦ replaced-IsValid slot keep p q m v u alone h freed
]
