-- ===== src/Kv/Pool/Evict.antt =====
-- Eviction from the prefix cache: the books, whom it evicts, and the block budget.
use mathlib.Core.List.{foldl}
use native.Mathlib.Decide.{ℕ_discrete}
use superl8_serve.Prelude.{
  ℕ, zero, suc, ◌+◌, ◌-◌, ◌≤◌, ◌<◌, ◌≡◌, refl, List, [], ◌∷◌, none, some, Bool, true, false, ◌⊎◌,
  inl, inr, ltb, arith, count, length, sym, subst, ap, ◌∙◌, Bool-cases, Option-cases, ◌≢◌, ◌≢◌,
}
use superl8_serve.Kv.Dict.{empty_of_lookup}
use superl8_serve.Kv.Trie.{Trie, Entry, entry_at, modify, prune, refs, entries, IsDict}
use superl8_serve.Kv.Trie.Modify.{
  refs-modify, refs-prune, entries-modify, entries-prune, modify-IsDict,
}
use superl8_serve.Kv.Trie.Paths.{
  prune-IsDict, entry_at-modify_self, entry_at-modify_ne, entry_at-prune,
}
use superl8_serve.Kv.Trie.Oldest.{oldest_none, oldest_lem}
use superl8_serve.Kv.Trie.Sizes.{IsSized, modify-IsSized, prune-IsSized}
use superl8_serve.Kv.Pool.{
  Pool, unpin, evict_at, evict_one_prefix, enforce_loop, enforce_prefix_budget, make_room,
  pinned_prefix_blocks,
}
use superl8_serve.Kv.Pool.Ledger.{Books, Pins, unpin_all-Books, unpin_all-Pins, unpin_all-Frame}
use superl8_serve.Kv.Pool.Valid.{IsValid, slot_refs}

-- What a change of the prefix cache leaves alone: the slots, their tables and the limits.
pub record SameSlots (p q : Pool) : Type 0 where
  pub block_size : q.block_size ≡ p.block_size
  pub num_blocks : q.num_blocks ≡ p.num_blocks
  pub num_slots : q.num_slots ≡ p.num_slots
  pub free_slots : q.free_slots ≡ p.free_slots
  pub slot_blocks : q.slot_blocks ≡ p.slot_blocks
  pub max_prefix_entries : q.max_prefix_entries ≡ p.max_prefix_entries
  pub max_prefix_blocks : q.max_prefix_blocks ≡ p.max_prefix_blocks

pub SameSlots-refl : (p : Pool) → SameSlots p p
SameSlots-refl p = ground arith

pub SameSlots-trans : {p q r : Pool} → SameSlots p q → SameSlots q r → SameSlots p r
SameSlots-trans g h = ground arith

abbrev cleared : ℕ → List ℕ → Trie → Trie
cleared t r f = prune (t ∷ r) (modify (t ∷ r) (λ _. none) f)

module _ (t : ℕ) (r : List ℕ) (f : Trie) (e : Entry) (at : entry_at (t ∷ r) f ≡ some e) where
  refs-cleared : (b : ℕ) → refs b (cleared t r f) + count b e.blocks ≡ refs b f
  refs-cleared b =
      ground (
        arith,
        refs-prune b (t ∷ r) (modify (t ∷ r) (λ _. none) f),
        refs-modify b (λ _. none) t r f,
      )

  entries-cleared : entries (cleared t r f) + 1 ≡ entries f
  entries-cleared = ground (
    arith,
    entries-prune (t ∷ r) (modify (t ∷ r) (λ _. none) f),
    entries-modify (λ _. none) t r f,
  )

cleared-IsDict : (t : ℕ) (r : List ℕ) (f : Trie) → IsDict f → IsDict (cleared t r f)
cleared-IsDict t r f d = prune-IsDict (t ∷ r) _ (modify-IsDict (λ _. none) t r f d)

cleared-IsSized : (bs t : ℕ) (r : List ℕ) (f : Trie) → IsSized bs 0 f → IsSized bs 0 (cleared t r f)
cleared-IsSized bs t r f h =
    prune-IsSized bs 0 (t ∷ r) _ (modify-IsSized bs (λ _. none) 0 t r f (λ o k. tt) h)

-- Evicting an entry that stands in the trie keeps the books right.
pub evict_at-IsValid :
    (t : ℕ) (r : List ℕ) (e : Entry) (p : Pool)
    → entry_at (t ∷ r) p.prefix_trie ≡ some e
    → IsValid p
    → IsValid (evict_at (t ∷ r) e p)
unfolding evict_at
evict_at-IsValid t r e p at v =
    let q = foldl unpin p e.blocks in
    let fr = unpin_all-Frame e.blocks p in
    let f = cleared t r p.prefix_trie in
    let e_f : cleared t r q.prefix_trie ≡ f = ap (cleared t r) fr.prefix_trie in
    let books = λ (b : ℕ).
      unpin_all-Books b e.blocks p (slot_refs b q.slot_blocks + refs b f)
        (subst (Books p b) (ground (arith, refs-cleared t r p.prefix_trie e at b)) (v.books b)) in
    let pins = λ (b : ℕ).
      unpin_all-Pins b e.blocks p (refs b f)
        (subst (Pins p b) (sym (refs-cleared t r p.prefix_trie e at b)) (v.pins b)) in
    subst
      (λ (g : Trie).
        IsValid (record q { prefix_entry_count = q.prefix_entry_count - 1; prefix_trie = g }))
      (sym e_f)
      (record {
        positive = ground (arith, v.positive);
        books = λ b. record { counted = (books b).counted; placed = (books b).placed };
        pins = pins;
        counted = ground (arith, v.counted, entries-cleared t r p.prefix_trie e at);
        dict = cleared-IsDict t r p.prefix_trie v.dict;
        sized =
            subst (λ bs. IsSized bs 0 f) (sym fr.block_size)
              (cleared-IsSized p.block_size t r p.prefix_trie v.sized);
        slots = ground (arith, v.slots);
        idle = λ s k. ground (arith, v.idle s);
      })

pub evict_at-SameSlots : (path : List ℕ) (e : Entry) (p : Pool) → SameSlots p (evict_at path e p)
unfolding evict_at
evict_at-SameSlots path e p = let fr = unpin_all-Frame e.blocks p in ground arith

entry_at-cleared_self :
    (t : ℕ) (r : List ℕ) (f : Trie) → IsDict f → entry_at (t ∷ r) (cleared t r f) ≡ none
entry_at-cleared_self t r f d =
    entry_at-prune t r (t ∷ r) _ (modify-IsDict (λ _. none) t r f d)
    ∙ entry_at-modify_self (λ _. none) t r f

entry_at-cleared_ne :
    (t : ℕ) (r : List ℕ) (f : Trie) (s : ℕ) (q : List ℕ)
    → IsDict f
    → s ∷ q ≢ t ∷ r
    → entry_at (s ∷ q) (cleared t r f) ≡ entry_at (s ∷ q) f
entry_at-cleared_ne t r f s q d ne =
    entry_at-prune s q (t ∷ r) _ (modify-IsDict (λ _. none) t r f d)
    ∙ entry_at-modify_ne (λ _. none) s q t r f ne

evict_at-trie :
    (t : ℕ) (r : List ℕ) (e : Entry) (p : Pool)
    → (evict_at (t ∷ r) e p).prefix_trie ≡ cleared t r p.prefix_trie
unfolding evict_at
evict_at-trie t r e p = ap (cleared t r) (unpin_all-Frame e.blocks p).prefix_trie

-- `q` is `p` without the entry `e` of the path, which no entry of `p` is older than.
pub record Evicts (p q : Pool) (t : ℕ) (r : List ℕ) (e : Entry) : Type 0 where
  pub stood : entry_at (t ∷ r) p.prefix_trie ≡ some e
  pub oldest :
      (s : ℕ) (k : List ℕ) (d : Entry) → entry_at (s ∷ k) p.prefix_trie ≡ some d → e.lru ≤ d.lru
  pub gone : entry_at (t ∷ r) q.prefix_trie ≡ none
  pub others :
      (s : ℕ) (k : List ℕ)
      → s ∷ k ≢ t ∷ r
      → entry_at (s ∷ k) q.prefix_trie ≡ entry_at (s ∷ k) p.prefix_trie

-- Where a valid cache has an entry, `_evict_one_prefix` takes away exactly one, a least recently
-- used one, and keeps the books right.
pub evict_one_prefix-Evicts :
    (p : Pool)
    → IsValid p
    → 0 < entries p.prefix_trie
    → (t : ℕ) × (r : List ℕ) × (e : Entry) × (evict_one_prefix p ≡ (evict_at (t ∷ r) e p, true))
      × Evicts p (evict_at (t ∷ r) e p) t r e
      × IsValid (evict_at (t ∷ r) e p)
      × (entries (evict_at (t ∷ r) e p).prefix_trie + 1 ≡ entries p.prefix_trie)
unfolding evict_one_prefix
evict_one_prefix-Evicts p v h =
    let (t, r, e, found, at, low) = oldest_lem p.prefix_trie v.dict h in
    let same = evict_at-trie t r e p in
    (
      t,
      r,
      e,
      ground arith,
      record {
        stood = at;
        oldest = low;
        gone = ap (entry_at (t ∷ r)) same ∙ entry_at-cleared_self t r p.prefix_trie v.dict;
        others = λ s k ne.
            ap (entry_at (s ∷ k)) same ∙ entry_at-cleared_ne t r p.prefix_trie s k v.dict ne;
      },
      evict_at-IsValid t r e p at v,
      ap (λ f. entries f + 1) same ∙ entries-cleared t r p.prefix_trie e at,
    )

evict_one_prefix-empty : (p : Pool) → entries p.prefix_trie ≡ 0 → evict_one_prefix p ≡ (p, false)
unfolding evict_one_prefix
evict_one_prefix-empty p h = let none_found = oldest_none p.prefix_trie h in ground arith

-- Whether or not there is an entry: the books stay right, and so do the slots.
pub record Keeps (p q : Pool) : Type 0 where
  pub valid : IsValid q
  pub same : SameSlots p q

pub Keeps-refl : {p : Pool} → IsValid p → Keeps p p
Keeps-refl {p} v = record { valid = v; same = SameSlots-refl p }

pub Keeps-trans : {p q r : Pool} → Keeps p q → Keeps q r → Keeps p r
Keeps-trans g h = record { valid = h.valid; same = SameSlots-trans g.same h.same }

zero-or-pos : (n : ℕ) → (n ≡ 0) ⊎ (0 < n)
zero-or-pos zero = inl refl
zero-or-pos (suc n) = inr (omega arith)

pub evict_one_prefix-Keeps : (p : Pool) → IsValid p → Keeps p (evict_one_prefix p).0
evict_one_prefix-Keeps p v = elim (zero-or-pos (entries p.prefix_trie)) [
  | inl empty ↦ subst (λ r. Keeps p r.0) (sym (evict_one_prefix-empty p empty)) (Keeps-refl v)
  | inr full ↦
      let (t, r, e, is, _, valid, _) = evict_one_prefix-Evicts p v full in
      subst (λ x. Keeps p x.0) (sym is)
        (record { valid = valid; same = evict_at-SameSlots (t ∷ r) e p })
]

pub make_room_cases : (p : Pool) → (make_room p ≡ p) ⊎ (make_room p ≡ (evict_one_prefix p).0)
unfolding make_room
make_room_cases p = ground arith

pub make_room-Keeps : (p : Pool) → IsValid p → Keeps p (make_room p)
make_room-Keeps p v = elim (make_room_cases p) [
  | inl same ↦ subst (Keeps p) (sym same) (Keeps-refl v)
  | inr evicted ↦ subst (Keeps p) (sym evicted) (evict_one_prefix-Keeps p v)
]

path_discrete : Discrete (List ℕ)
path_discrete = hlevel ℕ_discrete

-- An eviction leaves a vacant path vacant.
pub evict_one_prefix-vacant :
    (t : ℕ) (r : List ℕ) (p : Pool)
    → IsValid p
    → entry_at (t ∷ r) p.prefix_trie ≡ none
    → entry_at (t ∷ r) (evict_one_prefix p).0.prefix_trie ≡ none
evict_one_prefix-vacant t r p v vacant = elim (zero-or-pos (entries p.prefix_trie)) [
  | inl empty ↦
      ap (λ (x : Pool × Bool). entry_at (t ∷ r) x.0.prefix_trie) (evict_one_prefix-empty p empty)
      ∙ vacant
  | inr full ↦
      let (t', r', e, is, evicts, _, _) = evict_one_prefix-Evicts p v full in
      ap (λ (x : Pool × Bool). entry_at (t ∷ r) x.0.prefix_trie) is
      ∙ elim (path_discrete (t ∷ r) (t' ∷ r')) [
        | yes same ↦
            subst (λ k. entry_at k (evict_at (t' ∷ r') e p).prefix_trie ≡ none) (sym same)
              evicts.gone
        | no other ↦ evicts.others t r other ∙ vacant
      ]
]

refs_of_entries : (b : ℕ) (f : Trie) → entries f ≡ 0 → refs b f ≡ 0
unfolding refs entries
refs_of_entries b Trie.leaf h = refl
refs_of_entries b (Trie.node t none sub rest) h =
    omega (arith, refs_of_entries b sub (omega arith), refs_of_entries b rest (omega arith))
refs_of_entries b (Trie.node t (some e) sub rest) h = absurd (omega arith)

no_pins : (p : Pool) → IsValid p → entries p.prefix_trie ≡ 0 → p.prefix_block_refs ≡ []
no_pins p v h =
    empty_of_lookup p.prefix_block_refs
      (λ b. ground (arith, v.pins b, refs_of_entries b p.prefix_trie h))

-- The loop ends within the budget, the books right.
abbrev Budgeted : ℕ → Pool → Pool → Type 0
Budgeted budget p q = Keeps p q × (length q.prefix_block_refs ≤ budget)

enforce_over :
    (fuel budget : ℕ) (p q : Pool)
    → ltb budget (length p.prefix_block_refs) ≡ true
    → evict_one_prefix p ≡ (q, true)
    → enforce_loop (suc fuel) budget p ≡ enforce_loop fuel budget q
unfolding enforce_loop
enforce_over fuel budget p q over e = ground arith

enforce_under :
    (fuel budget : ℕ) (p : Pool)
    → ltb budget (length p.prefix_block_refs) ≡ false
    → enforce_loop (suc fuel) budget p ≡ p
unfolding enforce_loop
enforce_under fuel budget p under = ground arith

enforce_loop-Budgeted :
    (fuel budget : ℕ) (p : Pool)
    → entries p.prefix_trie < fuel
    → IsValid p
    → Budgeted budget p (enforce_loop fuel budget p)
enforce_loop-Budgeted zero budget p h v = elim h [ ]
enforce_loop-Budgeted (suc fuel) budget p h v =
    elim (Bool-cases (ltb budget (length p.prefix_block_refs))) [
      | inr under ↦
          subst (Budgeted budget p) (sym (enforce_under fuel budget p under))
            (Keeps-refl v, ground arith)
      | inl over ↦
          let full : 0 < entries p.prefix_trie = elim (zero-or-pos (entries p.prefix_trie)) [
            | inl empty ↦ absurd (ground (arith, no_pins p v empty))
            | inr full ↦ full
          ] in
          let (t, r, e, is, _, valid, less) = evict_one_prefix-Evicts p v full in
          let (kept, within) =
            enforce_loop-Budgeted fuel budget (evict_at (t ∷ r) e p) (omega arith) valid in
          subst (Budgeted budget p) (sym (enforce_over fuel budget p _ over is)) (
            Keeps-trans (record { valid = valid; same = evict_at-SameSlots (t ∷ r) e p }) kept,
            within,
          )
    ]

enforce_some :
    (p : Pool) (budget : ℕ)
    → p.max_prefix_blocks ≡ some budget
    → enforce_prefix_budget p ≡ enforce_loop (suc (entries p.prefix_trie)) budget p
unfolding enforce_prefix_budget
enforce_some p budget h = ground arith

enforce_none : (p : Pool) → p.max_prefix_blocks ≡ none → enforce_prefix_budget p ≡ p
unfolding enforce_prefix_budget
enforce_none p h = ground arith

-- Enforcing the budget keeps the books right.
pub enforce_prefix_budget-Keeps : (p : Pool) → IsValid p → Keeps p (enforce_prefix_budget p)
enforce_prefix_budget-Keeps p v = elim (Option-cases p.max_prefix_blocks) [
  | inl unlimited ↦ subst (Keeps p) (sym (enforce_none p unlimited)) (Keeps-refl v)
  | inr (budget, limited) ↦
      subst (Keeps p) (sym (enforce_some p budget limited))
        (enforce_loop-Budgeted (suc (entries p.prefix_trie)) budget p (omega arith) v).0
]

-- Afterwards at most the budgeted number of blocks is pinned.
pub pinned-enforce_prefix_budget :
    (p : Pool) (budget : ℕ)
    → IsValid p
    → p.max_prefix_blocks ≡ some budget
    → pinned_prefix_blocks (enforce_prefix_budget p) ≤ budget
unfolding pinned_prefix_blocks
pinned-enforce_prefix_budget p budget v h =
    subst (λ (q : Pool). length q.prefix_block_refs ≤ budget) (sym (enforce_some p budget h))
      (enforce_loop-Budgeted (suc (entries p.prefix_trie)) budget p (omega arith) v).1
