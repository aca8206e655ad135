-- ===== src/Kv/Pool/Ledger.antt =====
-- The books of one block: its reference count against its holders, and its place on the free list.
use mathlib.Core.List.{foldl}
use superl8_serve.Prelude.{
  ℕ, ◌+◌, ◌-◌, ◌<◌, ◌≡◌, refl, List, [], ◌∷◌, none, some, if◌then◌else◌, ◌==◌, ltb, arith, count,
  max, min, subst,
}
use superl8_serve.Kv.Dict.{get, lookup, lookup-insert, lookup-erase}
use superl8_serve.Kv.Pool.{Pool, release, retain, pin, unpin}

-- Block `b` has `k` holders: its count says so, where a missing count means one holder, and the
-- block is on the free list exactly once if nothing holds it, as far as the pool has the block.
pub record Books (p : Pool) (b k : ℕ) : Type 0 where
  pub counted : get p.block_refcount b 1 ≡ max 1 k
  pub placed : count b p.free_blocks + min 1 k ≡ (if ltb b p.num_blocks then 1 else 0)

-- Block `b` is pinned by `k` prefix entries.
abbrev pub Pins : Pool → ℕ → ℕ → Type 0
Pins p b k = lookup b p.prefix_block_refs ≡ (if k == 0 then none else some k)

module _ (p : Pool) (x b k : ℕ) where
  pub release-Books : Books p b (k + (if x == b then 1 else 0)) → Books (release p x) b k
  unfolding release
  release-Books h = ground (
    arith,
    lookup-insert x b (get p.block_refcount x 1 - 1) p.block_refcount,
    lookup-erase x b p.block_refcount,
  )

  pub retain-Books :
      (x ≡ b → 0 < k) → Books p b k → Books (retain p x) b (k + (if x == b then 1 else 0))
  unfolding retain
  retain-Books held h =
      ground (arith, lookup-insert x b (get p.block_refcount x 1 + 1) p.block_refcount)

  pub unpin-Books : Books p b (k + (if x == b then 1 else 0)) → Books (unpin p x) b k
  unfolding unpin release
  unpin-Books h = ground (
    arith,
    lookup-insert x b (get p.block_refcount x 1 - 1) p.block_refcount,
    lookup-erase x b p.block_refcount,
  )

  pub unpin-Pins : Pins p b (k + (if x == b then 1 else 0)) → Pins (unpin p x) b k
  unfolding unpin release
  unpin-Pins h = ground (
    arith,
    lookup-insert x b (get p.prefix_block_refs x 0 - 1) p.prefix_block_refs,
    lookup-erase x b p.prefix_block_refs,
  )

  pub pin-Books : (x ≡ b → 0 < k) → Books p b k → Books (pin p x) b (k + (if x == b then 1 else 0))
  unfolding pin retain
  pin-Books held h =
      ground (arith, lookup-insert x b (get p.block_refcount x 1 + 1) p.block_refcount)

  pub pin-Pins : Pins p b k → Pins (pin p x) b (k + (if x == b then 1 else 0))
  unfolding pin retain
  pin-Pins h =
      ground (arith, lookup-insert x b (get p.prefix_block_refs x 0 + 1) p.prefix_block_refs)

-- The same for a list of blocks, each counted as often as it stands there.
module _ (b : ℕ) where
  pub release_all-Books :
      (xs : List ℕ) (p : Pool) (k : ℕ) → Books p b (k + count b xs) → Books (foldl release p xs) b k
  release_all-Books [] p k h = subst (Books p b) (omega arith) h
  release_all-Books (x ∷ xs) p k h =
      release_all-Books xs (release p x) k
        (release-Books p x b (k + count b xs) (subst (Books p b) (omega arith) h))

  pub unpin_all-Books :
      (xs : List ℕ) (p : Pool) (k : ℕ) → Books p b (k + count b xs) → Books (foldl unpin p xs) b k
  unpin_all-Books [] p k h = subst (Books p b) (omega arith) h
  unpin_all-Books (x ∷ xs) p k h =
      unpin_all-Books xs (unpin p x) k
        (unpin-Books p x b (k + count b xs) (subst (Books p b) (omega arith) h))

  pub unpin_all-Pins :
      (xs : List ℕ) (p : Pool) (k : ℕ) → Pins p b (k + count b xs) → Pins (foldl unpin p xs) b k
  unpin_all-Pins [] p k h = subst (Pins p b) {x = k + 0} {y = k} (omega arith) h
  unpin_all-Pins (x ∷ xs) p k h = unpin_all-Pins xs (unpin p x) k (
      unpin-Pins p x b (k + count b xs) (
        subst (Pins p b) {x = k + count b (x ∷ xs)} {y = k + count b xs + (if x == b then 1 else 0)}
          (omega arith) h))

  pub retain_all-Books :
      (xs : List ℕ) (p : Pool) (k : ℕ)
      → (0 < count b xs → 0 < k)
      → Books p b k
      → Books (foldl retain p xs) b (k + count b xs)
  retain_all-Books [] p k held h = subst (Books p b) (omega arith) h
  retain_all-Books (x ∷ xs) p k held h =
      subst (Books (foldl retain (retain p x) xs) b) (omega arith) (
        retain_all-Books xs (retain p x) (k + (if x == b then 1 else 0)) (λ some_left. ground arith)
          (retain-Books p x b k (λ e. held (ground arith)) h))

  pub pin_all-Books :
      (xs : List ℕ) (p : Pool) (k : ℕ)
      → (0 < count b xs → 0 < k)
      → Books p b k
      → Books (foldl pin p xs) b (k + count b xs)
  pin_all-Books [] p k held h = subst (Books p b) (omega arith) h
  pin_all-Books (x ∷ xs) p k held h = subst (Books (foldl pin (pin p x) xs) b) (omega arith) (
      pin_all-Books xs (pin p x) (k + (if x == b then 1 else 0)) (λ some_left. ground arith)
        (pin-Books p x b k (λ e. held (ground arith)) h))

  pub pin_all-Pins :
      (xs : List ℕ) (p : Pool) (k : ℕ) → Pins p b k → Pins (foldl pin p xs) b (k + count b xs)
  pin_all-Pins [] p k h = subst (Pins p b) {x = k} {y = k + 0} (omega arith) h
  pin_all-Pins (x ∷ xs) p k h =
      subst (Pins (foldl pin (pin p x) xs) b) {x = k + (if x == b then 1 else 0) + count b xs}
        {y = k + count b (x ∷ xs)} (omega arith)
        (pin_all-Pins xs (pin p x) (k + (if x == b then 1 else 0)) (pin-Pins p x b k h))

-- The fields that the changes of the counts leave alone.
pub record Frame (p q : Pool) : Type 0 where
  pub block_size : q.block_size ≡ p.block_size
  pub num_blocks : q.num_blocks ≡ p.num_blocks
  pub num_slots : q.num_slots ≡ p.num_slots
  pub free_slots : q.free_slots ≡ p.free_slots
  pub slot_blocks : q.slot_blocks ≡ p.slot_blocks
  pub prefix_trie : q.prefix_trie ≡ p.prefix_trie
  pub lru : q.lru ≡ p.lru
  pub max_prefix_entries : q.max_prefix_entries ≡ p.max_prefix_entries
  pub prefix_entry_count : q.prefix_entry_count ≡ p.prefix_entry_count
  pub max_prefix_blocks : q.max_prefix_blocks ≡ p.max_prefix_blocks

abbrev pub IsFramed : (Pool → ℕ → Pool) → Type 0
IsFramed f = (p : Pool) (x : ℕ) → Frame p (f p x)

Frame-trans : {p q r : Pool} → Frame p q → Frame q r → Frame p r
Frame-trans g h = ground arith

pub Frame-all :
    (f : Pool → ℕ → Pool) → IsFramed f → (xs : List ℕ) (p : Pool) → Frame p (foldl f p xs)
Frame-all f framed [] p = ground arith
Frame-all f framed (x ∷ xs) p = Frame-trans (framed p x) (Frame-all f framed xs (f p x))

pub release_all-Frame : (xs : List ℕ) (p : Pool) → Frame p (foldl release p xs)
unfolding release
release_all-Frame = Frame-all release (λ p x. ground arith)

pub retain_all-Frame : (xs : List ℕ) (p : Pool) → Frame p (foldl retain p xs)
unfolding retain
retain_all-Frame = Frame-all retain (λ p x. ground arith)

pub pin_all-Frame : (xs : List ℕ) (p : Pool) → Frame p (foldl pin p xs)
unfolding pin retain
pin_all-Frame = Frame-all pin (λ p x. ground arith)

pub unpin_all-Frame : (xs : List ℕ) (p : Pool) → Frame p (foldl unpin p xs)
unfolding unpin release
unpin_all-Frame = Frame-all unpin (λ p x. ground arith)

-- `release` and `retain` leave the pins of the prefix cache alone.
pub release_all-refs :
    (xs : List ℕ) (p : Pool) → (foldl release p xs).prefix_block_refs ≡ p.prefix_block_refs
unfolding release
release_all-refs [] p = refl
release_all-refs (x ∷ xs) p = release_all-refs xs (release p x)

pub retain_all-refs :
    (xs : List ℕ) (p : Pool) → (foldl retain p xs).prefix_block_refs ≡ p.prefix_block_refs
unfolding retain
retain_all-refs [] p = refl
retain_all-refs (x ∷ xs) p = retain_all-refs xs (retain p x)
