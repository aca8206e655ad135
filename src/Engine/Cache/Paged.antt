-- ===== src/Engine/Cache/Paged.antt =====
-- PagedKVCache (engine/kv_cache.py) as the scheduler's cache.
use superl8_serve.Prelude.{
  ℕ, ◌≡◌, ◌≤◌, ◌/◌, refl, List, [], ◌∷◌, some, true, count, length, get_or, arith, ap, List-cases,
  inl, inr,
}
use superl8_serve.Kv.Pool.{
  Pool, alloc, free, has_free_slot, has_free_block, lookup_prefix, share_blocks, blocks_of,
  store_prefix,
}
use superl8_serve.Kv.Pool.Ledger.{release_all-Frame}
use superl8_serve.Kv.Pool.Valid.{IsValid, InUse, alloc-IsValid}
use superl8_serve.Kv.Pool.Slots.{AllHeld, free-IsValid, share_blocks-IsValid}
use superl8_serve.Kv.Pool.Store.{lookup_prefix-Longest, lookup_prefix-AllHeld, store_prefix-Keeps}
use superl8_serve.Kv.Pool.Evict.{SameSlots}
use superl8_serve.Engine.Cache.{KvCache}

-- Given out and holding nothing.
abbrev pub IsFresh : ℕ → Pool → Type 0
IsFresh s p = InUse p s × (blocks_of p s ≡ [])

pub alloc_nonempty :
    (p : Pool)
    → has_free_slot p ≡ true
    → (q : Pool) × (s : ℕ) × (alloc p ≡ some (q, s))
      × (q.num_slots ≡ p.num_slots)
      × (p.free_slots ≡ s ∷ q.free_slots)
unfolding has_free_slot alloc
alloc_nonempty p h = elim (List-cases p.free_slots) [
  | inl e ↦ ground (arith, e)
  | inr (s, rest, e) ↦ (record p { free_slots = rest }, s, ground (arith, e), refl, e)
]

pub free-free_slots :
    (s : ℕ) (p : Pool)
    → ((free p s).free_slots ≡ s ∷ p.free_slots) × ((free p s).num_slots ≡ p.num_slots)
unfolding free
free-free_slots s p = let fr = release_all-Frame (blocks_of p s) p in ground arith

pub lookup_prefix-IsFresh :
    (ts : List ℕ) (s : ℕ) (p : Pool)
    → SameSlots p (lookup_prefix ts p).0
    → IsFresh s p
    → IsFresh s (lookup_prefix ts p).0
lookup_prefix-IsFresh ts s p same fresh = ground (arith, same)

-- A table with a block for each full block of the tokens.
abbrev pub CanStore : List ℕ → ℕ → Pool → Type 0
CanStore ts s p = length ts / p.block_size ≤ length (blocks_of p s)

pub SameSlots-CanStore :
    (p q : Pool) (ts : List ℕ) (s : ℕ) → SameSlots p q → CanStore ts s p → CanStore ts s q
SameSlots-CanStore p q ts s same h =
    let table : blocks_of q s ≡ blocks_of p s = ap (λ t. get_or t s []) same.slot_blocks in
    rw (table, same.block_size) h

abbrev pub paged_cache : KvCache
paged_cache = record {
  State = Pool;
  free_slots = λ p. p.free_slots;
  num_slots = λ p. p.num_slots;
  has_free_slot = has_free_slot;
  has_free_block = has_free_block;
  alloc = alloc;
  lookup_prefix = lookup_prefix;
  share_blocks = share_blocks;
  free = λ s p. free p s;
  store_prefix = store_prefix;
  IsValid = IsValid;
  IsFresh = IsFresh;
  AreHeld = λ blocks p. AllHeld p blocks;
  CanStore = CanStore;
  alloc_law = λ p v h.
      let (q, s, e, n, top) = alloc_nonempty p h in
      let (valid, used, empty) = alloc-IsValid p v e in
      (q, s, e, valid, (used, empty), n, λ a. ap (count a) top);
  lookup_law = λ ts s p v fresh.
      let kept = (lookup_prefix-Longest ts p v).1 in
      (
        kept.valid,
        lookup_prefix-IsFresh ts s p kept.same fresh,
        lookup_prefix-AllHeld ts p v,
        kept.same.free_slots,
        kept.same.num_slots,
      );
  share_law = λ s blocks p v fresh held.
      let (valid, table, slots, n) = share_blocks-IsValid s blocks p v fresh.0 fresh.1 held in
      (valid, slots, n);
  free_law = λ s p v bound used.
      let (slots, n) = free-free_slots s p in
      (free-IsValid p s v (bound, used), λ a. ap (count a) slots, n);
  store_law = λ ts s p v enough.
      let kept = store_prefix-Keeps ts s p enough v in
      (
        kept.valid,
        kept.same.free_slots,
        kept.same.num_slots,
        λ us r. SameSlots-CanStore p (store_prefix ts s p) us r kept.same,
      );
}
