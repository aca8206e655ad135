-- ===== src/Engine/Cache.antt =====
-- What the scheduler needs of a KV cache, with what it relies on; kv_cache.py and models/cache.py
-- provide it in the children.
pub mod Paged
pub mod Latent
use superl8_serve.Prelude.{
  ℕ, ◌+◌, ◌<◌, ◌≤◌, ◌≡◌, List, Option, some, Bool, true, count, if◌then◌else◌, ◌==◌,
}

-- `free_slots` is the list of slots that are not given out, `IsFresh` a slot with nothing in it and
-- `AreHeld` blocks that may be shared and `CanStore` a slot that has blocks for the tokens.
pub record KvCache : Type 1 where
  pub State : Type 0
  pub free_slots : State → List ℕ
  pub num_slots : State → ℕ
  pub has_free_slot : State → Bool
  pub has_free_block : State → Bool
  pub alloc : State → Option (State × ℕ)
  pub lookup_prefix : List ℕ → State → State × (ℕ × List ℕ)
  pub share_blocks : ℕ → List ℕ → State → State
  pub free : ℕ → State → State
  pub store_prefix : List ℕ → ℕ → State → State
  pub IsValid : State → Type 0
  pub IsFresh : ℕ → State → Type 0
  pub AreHeld : List ℕ → State → Type 0
  pub CanStore : List ℕ → ℕ → State → Type 0
  pub alloc_law :
      (c : State)
      → IsValid c
      → has_free_slot c ≡ true
      → (d : State) × (s : ℕ) × (alloc c ≡ some (d, s))
        × IsValid d
        × IsFresh s d
        × (num_slots d ≡ num_slots c)
        × ((a : ℕ) → count a (free_slots c) ≡ (if s == a then 1 else 0) + count a (free_slots d))
  pub lookup_law :
      (ts : List ℕ) (s : ℕ) (c : State)
      → IsValid c
      → IsFresh s c
      → IsValid (lookup_prefix ts c).0
        × IsFresh s (lookup_prefix ts c).0
        × AreHeld (lookup_prefix ts c).1.1 (lookup_prefix ts c).0
        × (free_slots (lookup_prefix ts c).0 ≡ free_slots c)
        × (num_slots (lookup_prefix ts c).0 ≡ num_slots c)
  pub share_law :
      (s : ℕ) (blocks : List ℕ) (c : State)
      → IsValid c
      → IsFresh s c
      → AreHeld blocks c
      → IsValid (share_blocks s blocks c)
        × (free_slots (share_blocks s blocks c) ≡ free_slots c)
        × (num_slots (share_blocks s blocks c) ≡ num_slots c)
  pub free_law :
      (s : ℕ) (c : State)
      → IsValid c
      → s < num_slots c
      → count s (free_slots c) ≡ 0
      → IsValid (free s c)
        × ((a : ℕ)
            → count a (free_slots (free s c)) ≡ (if s == a then 1 else 0) + count a (free_slots c))
        × (num_slots (free s c) ≡ num_slots c)
  pub store_law :
      (ts : List ℕ) (s : ℕ) (c : State)
      → IsValid c
      → CanStore ts s c
      → IsValid (store_prefix ts s c)
        × (free_slots (store_prefix ts s c) ≡ free_slots c)
        × (num_slots (store_prefix ts s c) ≡ num_slots c)
        × ((us : List ℕ) (r : ℕ) → CanStore us r c → CanStore us r (store_prefix ts s c))
