-- ===== src/Kv/Pool/Reach.antt =====
-- The cache under any legal sequence of calls.
use superl8_serve.Prelude.{
  ℕ, ◌+◌, ◌/◌, ◌≤◌, ◌<◌, ◌≡◌, List, [], some, length, All, count, ltb, if◌then◌else◌, min,
}
use superl8_serve.Kv.Pool.{
  Pool, Config, init, alloc, free, ensure_capacity, share_blocks, store_prefix, lookup_prefix,
  evict_one_prefix, blocks_of,
}
use superl8_serve.Kv.Pool.Valid.{IsValid, InUse, holders, init-IsValid, alloc-IsValid}
use superl8_serve.Kv.Pool.Slots.{
  AllHeld, free-IsValid, ensure_capacity-Provides, share_blocks-IsValid,
}
use superl8_serve.Kv.Pool.Evict.{evict_one_prefix-Keeps}
use superl8_serve.Kv.Pool.Compact.{Metrics, compact, compact-IsValid}
use superl8_serve.Kv.Pool.Store.{store_prefix-Keeps, lookup_prefix-Longest}

-- One call: `alloc` that gives a slot; `free` and `ensure_capacity` of slots in use, which may fail
-- for want of blocks; `store_prefix` from a slot with a block for each full block of the tokens;
-- `lookup_prefix`; `share_blocks` of held blocks with a slot in use that has none; the eviction of a
-- prefix; and `compact` of a slot in use whose blocks nothing else holds, where it returns.
pub data Step (p : Pool) : Pool → Type 0 where
  allocates : {q : Pool} {s : ℕ} → alloc p ≡ some (q, s) → Step p q
  frees : (s : ℕ) → InUse p s → Step p (free p s)
  ensures : (rs : List (ℕ × ℕ)) → All (λ r. InUse p r.0) rs → Step p (ensure_capacity rs p).0
  stores :
      (ts : List ℕ) (s : ℕ)
      → length ts / p.block_size ≤ length (blocks_of p s)
      → Step p (store_prefix ts s p)
  looks_up : (ts : List ℕ) → Step p (lookup_prefix ts p).0
  shares :
      (s : ℕ) (xs : List ℕ)
      → InUse p s
      → blocks_of p s ≡ []
      → AllHeld p xs
      → Step p (share_blocks s xs p)
  evicts : Step p (evict_one_prefix p).0
  compacts :
      {q : Pool} {m : Metrics} (s : ℕ) (keep : List ℕ)
      → InUse p s
      → ((b : ℕ) → 0 < count b (blocks_of p s) → holders p b ≡ 1)
      → compact s keep p ≡ some (q, m)
      → Step p q

pub data Reach (p : Pool) : Pool → Type 0 where
  here : Reach p p
  next : {q r : Pool} → Reach p q → Step q r → Reach p r

Step-IsValid : {p q : Pool} → IsValid p → Step p q → IsValid q
Step-IsValid {p} v (allocates h) = (alloc-IsValid p v h).0
Step-IsValid {p} v (frees s u) = free-IsValid p s v u
Step-IsValid {p} v (ensures rs us) = (ensure_capacity-Provides rs p v us).0.valid
Step-IsValid {p} v (stores ts s enough) = (store_prefix-Keeps ts s p enough v).valid
Step-IsValid {p} v (looks_up ts) = (lookup_prefix-Longest ts p v).1.valid
Step-IsValid {p} v (shares s xs u fresh held) = (share_blocks-IsValid s xs p v u fresh held).0
Step-IsValid {p} v evicts = (evict_one_prefix-Keeps p v).valid
Step-IsValid {p} {q} v (compacts {m = m} s keep u alone h) =
    compact-IsValid s keep p q m v u alone h

pub Reach-IsValid : {p q : Pool} → IsValid p → Reach p q → IsValid q
Reach-IsValid v here = v
Reach-IsValid v (next r s) = Step-IsValid (Reach-IsValid v r) s

-- After any of these calls, in any order, on a new cache with a positive block size: an `alloc` that
-- gives a slot, `free` and `ensure_capacity` of slots in use, `store_prefix` from a slot with a block
-- for each full block of the tokens, `lookup_prefix`, `share_blocks` of held blocks with a slot in
-- use that has none, the eviction of a prefix, and a `compact` that returns of a slot in use whose
-- blocks nothing else holds. Each block of the pool is on the free list exactly once when no slot
-- and no prefix entry holds it, and not at all when one does; no other block is there.
pub free_or_held :
    (c : Config) (p : Pool) (b : ℕ)
    → 0 < c.block_size
    → Reach (init c) p
    → count b p.free_blocks + min 1 (holders p b) ≡ (if ltb b p.num_blocks then 1 else 0)
free_or_held c p b h r = ((Reach-IsValid (init-IsValid c h) r).books b).placed
