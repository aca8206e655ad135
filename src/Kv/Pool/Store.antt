-- ===== src/Kv/Pool/Store.antt =====
-- `store_prefix` and `lookup_prefix`.
use native.Mathlib.Decide.{ℕ_discrete}
use superl8_serve.Prelude.{
  ℕ, ◌+◌, ◌/◌, ◌%◌, ◌≤◌, ◌≡◌, refl, List, [], ◌∷◌, ◌++◌, some, Bool, true, false, inl, inr, ◌==◌,
  leb, arith, count, get_or, length, take, sym, subst, ap, ◌∙◌, Bool-cases, ◌≢◌, ◌&&◌,
}
use superl8_serve.Kv.Trie.{Trie, Entry, entry_at, modify, refs, entry_refs}
use superl8_serve.Kv.Trie.Descend.{Longest, at_prefix, descend-Longest, refs-descend}
use superl8_serve.Kv.Pool.{
  Pool, blocks_of, store_entry, store_token, store_loop, store_prefix, tick_lru, lookup_prefix,
  enforce_prefix_budget, pinned_prefix_blocks,
}
use superl8_serve.Kv.Pool.Valid.{IsValid, refs-entry_at}
use superl8_serve.Kv.Pool.Slots.{AllHeld}
use superl8_serve.Kv.Pool.Evict.{
  Keeps, Keeps-refl, Keeps-trans, enforce_prefix_budget-Keeps, pinned-enforce_prefix_budget,
}
use superl8_serve.Kv.Pool.Entries.{reshape-IsValid, lookup-IsValid, modify-Keeps, store_entry-Keeps}

abbrev defaulted : List ℕ → Pool → Pool
defaulted path p = record p { prefix_trie = modify path (λ e. e) p.prefix_trie }

abbrev is_boundary : ℕ → List ℕ → ℕ → Bool
is_boundary num_shared path bs = length path % bs == 0 && leb (length path / bs) num_shared

store_token_boundary :
    (now num_shared : ℕ) (full path : List ℕ) (p : Pool)
    → is_boundary num_shared path p.block_size ≡ true
    → store_token now num_shared full path p ≡ store_entry now path full (defaulted path p)
unfolding store_token
store_token_boundary now num_shared full path p h = rw h

store_token_inside :
    (now num_shared : ℕ) (full path : List ℕ) (p : Pool)
    → is_boundary num_shared path p.block_size ≡ false
    → store_token now num_shared full path p ≡ defaulted path p
unfolding store_token
store_token_inside now num_shared full path p h = rw h

store_token-Keeps :
    (now num_shared t : ℕ) (r : List ℕ) (slot : ℕ) (p : Pool)
    → num_shared ≤ length (blocks_of p slot)
    → IsValid p
    → Keeps p (store_token now num_shared (blocks_of p slot) (t ∷ r) p)
store_token-Keeps now num_shared t r slot p enough v =
    let first = modify-Keeps (λ e. e) t r p (λ b e. refl) (λ e. refl) (λ e k. k) v in
    elim (Bool-cases (is_boundary num_shared (t ∷ r) p.block_size)) [
      | inl aligned ↦
          subst (Keeps p)
            (sym (store_token_boundary now num_shared (blocks_of p slot) (t ∷ r) p aligned))
            (Keeps-trans first (
              store_entry-Keeps now t r slot (defaulted (t ∷ r) p) (ground arith) (ground arith)
                first.valid))
      | inr inside ↦
          subst (Keeps p)
            (sym (store_token_inside now num_shared (blocks_of p slot) (t ∷ r) p inside)) first
    ]

snoc_cons : (path : List ℕ) (t : ℕ) → (h : ℕ) × (r : List ℕ) × (path ++ t ∷ [] ≡ h ∷ r)
snoc_cons [] t = (t, [], refl)
snoc_cons (h ∷ path) t = (h, path ++ t ∷ [], refl)

store_loop-Keeps :
    (now num_shared slot : ℕ) (path ts : List ℕ) (p : Pool)
    → num_shared ≤ length (blocks_of p slot)
    → IsValid p
    → Keeps p (store_loop now num_shared (blocks_of p slot) path ts p)
unfolding store_loop
store_loop-Keeps now num_shared slot path [] p enough v = Keeps-refl v
store_loop-Keeps now num_shared slot path (t ∷ ts) p enough v =
    let full = blocks_of p slot in
    let (h, r, e) = snoc_cons path t in
    let q = store_token now num_shared full (path ++ t ∷ []) p in
    let first : Keeps p q =
      subst (λ k. Keeps p (store_token now num_shared full k p)) (sym e)
        (store_token-Keeps now num_shared h r slot p enough v) in
    let table : blocks_of q slot ≡ full =
      ap (λ (tables : List (List ℕ)). get_or tables slot []) first.same.slot_blocks in
    Keeps-trans first (
      subst (λ xs. Keeps q (store_loop now num_shared xs (path ++ t ∷ []) ts q)) table
        (store_loop-Keeps now num_shared slot (path ++ t ∷ []) ts q
          (subst (λ xs. num_shared ≤ length xs) (sym table) enough) first.valid))

tick_lru-Keeps : (p : Pool) → IsValid p → Keeps p (tick_lru p)
unfolding tick_lru
tick_lru-Keeps p v = record {
  valid = reshape-IsValid p p.prefix_trie (p.lru + 1) (λ b. refl) refl v.dict v.sized v;
  same = ground arith;
}

-- The pool before the budget is enforced.
abbrev stored : List ℕ → ℕ → Pool → Pool
stored ts slot p =
    store_loop (p.lru + 1) (length ts / p.block_size) (blocks_of p slot) [] ts (tick_lru p)

stored-Keeps :
    (ts : List ℕ) (slot : ℕ) (p : Pool)
    → length ts / p.block_size ≤ length (blocks_of p slot)
    → IsValid p
    → Keeps p (stored ts slot p)
unfolding tick_lru
stored-Keeps ts slot p enough v =
    let first = tick_lru-Keeps p v in
    Keeps-trans first (
      store_loop-Keeps (p.lru + 1) (length ts / p.block_size) slot [] ts (tick_lru p) enough
        first.valid)

store_prefix_short :
    (ts : List ℕ) (slot : ℕ) (p : Pool) → length ts / p.block_size ≡ 0 → store_prefix ts slot p ≡ p
unfolding store_prefix
store_prefix_short ts slot p h = ground arith

store_prefix_long :
    (ts : List ℕ) (slot : ℕ) (p : Pool)
    → length ts / p.block_size ≢ 0
    → store_prefix ts slot p ≡ enforce_prefix_budget (stored ts slot p)
unfolding store_prefix
store_prefix_long ts slot p h = ground arith

-- On a valid cache, for a slot that holds a block for each full block of tokens, `store_prefix`
-- keeps the cache valid and the slots, their tables and the limits as they were.
pub store_prefix-Keeps :
    (ts : List ℕ) (slot : ℕ) (p : Pool)
    → length ts / p.block_size ≤ length (blocks_of p slot)
    → IsValid p
    → Keeps p (store_prefix ts slot p)
store_prefix-Keeps ts slot p enough v = elim (ℕ_discrete (length ts / p.block_size) 0) [
  | yes short ↦ subst (Keeps p) (sym (store_prefix_short ts slot p short)) (Keeps-refl v)
  | no long ↦
      let kept = stored-Keeps ts slot p enough v in
      subst (Keeps p) (sym (store_prefix_long ts slot p long))
        (Keeps-trans kept (enforce_prefix_budget-Keeps (stored ts slot p) kept.valid))
]

-- On a valid cache with a budget of blocks, for a slot that holds a block for each full block of
-- tokens: if at most the budget is pinned before `store_prefix`, at most the budget is pinned after.
pub pinned-store_prefix :
    (ts : List ℕ) (slot : ℕ) (p : Pool) (budget : ℕ)
    → length ts / p.block_size ≤ length (blocks_of p slot)
    → IsValid p
    → p.max_prefix_blocks ≡ some budget
    → pinned_prefix_blocks p ≤ budget
    → pinned_prefix_blocks (store_prefix ts slot p) ≤ budget
pinned-store_prefix ts slot p budget enough v limit within =
    elim (ℕ_discrete (length ts / p.block_size) 0) [
      | yes short ↦
          subst (λ q. pinned_prefix_blocks q ≤ budget) (sym (store_prefix_short ts slot p short))
            within
      | no long ↦
          let kept = stored-Keeps ts slot p enough v in
          subst (λ q. pinned_prefix_blocks q ≤ budget) (sym (store_prefix_long ts slot p long))
            (pinned-enforce_prefix_budget (stored ts slot p) budget kept.valid
              (kept.same.max_prefix_blocks ∙ limit))
    ]

lookup_prefix-refs :
    (b : ℕ) (ts : List ℕ) (p : Pool)
    → refs b (lookup_prefix ts p).0.prefix_trie ≡ refs b p.prefix_trie
unfolding lookup_prefix
lookup_prefix-refs b ts p = refs-descend b (p.lru + 1) 0 ts p.prefix_trie (0, [])

-- What `lookup_prefix` promises: the entry under the longest stored prefix of the tokens, with the
-- books right and the slots as they were.
pub lookup_prefix-Longest :
    (ts : List ℕ) (p : Pool)
    → IsValid p
    → Longest ts p.prefix_trie (0, []) (lookup_prefix ts p).1 × Keeps p (lookup_prefix ts p).0
unfolding lookup_prefix
lookup_prefix-Longest ts p v = (
  descend-Longest p.block_size (p.lru + 1) 0 ts p.prefix_trie (0, []) v.sized,
  record { valid = unfold lookup_prefix in lookup-IsValid ts p v; same = ground arith },
)

entry_at-held :
    (n : ℕ) (ts : List ℕ) (f : Trie) (e : Entry) (b : ℕ)
    → at_prefix ts f n ≡ some e
    → count b e.blocks ≤ refs b f
entry_at-held n [] f e b h = unfold entry_at in cc
entry_at-held n (t ∷ ts) f e b h =
    subst (λ o. entry_refs b o ≤ refs b f) h (refs-entry_at b t (take n ts) f)

-- On a valid cache every block that `lookup_prefix` returns has a holder.
pub lookup_prefix-AllHeld :
    (ts : List ℕ) (p : Pool) → IsValid p → AllHeld (lookup_prefix ts p).0 (lookup_prefix ts p).1.1
lookup_prefix-AllHeld ts p v b h = elim (lookup_prefix-Longest ts p v).0 [
  | inl (same, _) ↦ absurd (omega (arith, ap (λ (r : ℕ × List ℕ). count b r.1) same))
  | inr (n, e, _, at, same, _) ↦ omega (
    arith,
    ap (λ (r : ℕ × List ℕ). count b r.1) same,
    entry_at-held n ts p.prefix_trie e b at,
    lookup_prefix-refs b ts p,
  )
]
