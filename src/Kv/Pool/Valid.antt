-- ===== src/Kv/Pool/Valid.antt =====
-- The well-formedness of the cache's books.
use superl8_serve.Prelude.{
  ℕ, zero, suc, ◌+◌, ◌*◌, ◌≤◌, ◌<◌, ◌≡◌, refl, List, [], ◌∷◌, some, arith, count, get_or, set,
  length, replicate, length-replicate, sym, subst, count-range_down,
}
use superl8_serve.Kv.Trie.{Trie, leaf, node, entry_at, refs, entries, entry_refs, IsDict}
use superl8_serve.Kv.Trie.Sizes.{IsSized}
use superl8_serve.Kv.Dict.{lookup}
use superl8_serve.Kv.Pool.{Pool, Config, init, blocks_of, blocks_for, or_default, alloc}
use superl8_serve.Kv.Pool.Ledger.{Books, Pins}

-- How often a block stands in the tables of the slots, and with the prefix entries added.
unfoldable pub slot_refs : ℕ → List (List ℕ) → ℕ
slot_refs b [] = 0
slot_refs b (t ∷ ts) = count b t + slot_refs b ts

abbrev pub holders : Pool → ℕ → ℕ
holders p b = slot_refs b p.slot_blocks + refs b p.prefix_trie

-- The invariant: each block's count is the number of its holders and it is free exactly when it
-- has none; the prefix cache's own counts and sizes are right; a free slot holds nothing.
pub record IsValid (p : Pool) : Type 0 where
  pub positive : 0 < p.block_size
  pub books : (b : ℕ) → Books p b (holders p b)
  pub pins : (b : ℕ) → Pins p b (refs b p.prefix_trie)
  pub counted : p.prefix_entry_count ≡ entries p.prefix_trie
  pub dict : IsDict p.prefix_trie
  pub sized : IsSized p.block_size 0 p.prefix_trie
  pub slots : length p.slot_blocks ≡ p.num_slots
  pub idle :
      (s : ℕ)
      → 0 < count s p.free_slots
      → (count s p.free_slots ≡ 1) × (s < p.num_slots) × (blocks_of p s ≡ [])

-- The slot is given out.
abbrev pub InUse : Pool → ℕ → Type 0
InUse p s = (s < p.num_slots) × (count s p.free_slots ≡ 0)

pub slot_refs-set :
    (b : ℕ) (ts : List (List ℕ)) (s : ℕ) (v : List ℕ)
    → s < length ts
    → slot_refs b (set ts s v) + count b (get_or ts s []) ≡ slot_refs b ts + count b v
unfolding slot_refs
slot_refs-set b [] s v h = elim h [ ]
slot_refs-set b (t ∷ ts) zero v h = omega arith
slot_refs-set b (t ∷ ts) (suc s) v h = omega (arith, slot_refs-set b ts s v (omega arith))

-- A slot's table is among the tables.
pub count-le-slot_refs :
    (b : ℕ) (ts : List (List ℕ)) (s : ℕ) → count b (get_or ts s []) ≤ slot_refs b ts
unfolding slot_refs
count-le-slot_refs b [] s = omega arith
count-le-slot_refs b (t ∷ ts) zero = omega arith
count-le-slot_refs b (t ∷ ts) (suc s) = omega (arith, count-le-slot_refs b ts s)

-- An entry that stands in the trie is counted there.
pub refs-entry_at : (b t : ℕ) (p : List ℕ) (f : Trie) → entry_refs b (entry_at (t ∷ p) f) ≤ refs b f
unfolding refs entry_at
refs-entry_at b t p leaf = omega arith
refs-entry_at b t [] (node u e sub rest) = ground (arith, refs-entry_at b t [] rest)
refs-entry_at b t (q ∷ p) (node u e sub rest) =
    ground (arith, refs-entry_at b q p sub, refs-entry_at b t (q ∷ p) rest)

slot_refs-replicate : (b n : ℕ) → slot_refs b (replicate n []) ≡ 0
unfolding slot_refs
slot_refs-replicate b zero = refl
slot_refs-replicate b (suc n) = omega (arith, slot_refs-replicate b n)

get_or-replicate : (n s : ℕ) → get_or {A = List ℕ} (replicate n []) s [] ≡ []
get_or-replicate zero s = refl
get_or-replicate (suc n) zero = refl
get_or-replicate (suc n) (suc s) = get_or-replicate n s

-- The constructor's cache is valid: every block and every slot is free.
pub init-IsValid : (c : Config) → 0 < c.block_size → IsValid (init c)
unfolding init refs entries lookup
init-IsValid c h = record {
  positive = h;
  books = λ b. record {
    counted = ground (arith, slot_refs-replicate b c.num_slots);
    placed = ground (
      arith,
      slot_refs-replicate b c.num_slots,
      count-range_down b
          (or_default c.num_blocks (c.num_slots * blocks_for c.block_size c.max_len)),
    );
  };
  pins = λ b. ground arith;
  counted = refl;
  dict = tt;
  sized = tt;
  slots = length-replicate c.num_slots [];
  idle = λ s k. (
    ground (arith, count-range_down s c.num_slots),
    ground (arith, count-range_down s c.num_slots),
    get_or-replicate c.num_slots s,
  );
}

alloc_inv :
    (p : Pool) {q : Pool} {s : ℕ}
    → alloc p ≡ some (q, s)
    → (rest : List ℕ) × (p.free_slots ≡ s ∷ rest) × (q ≡ record p { free_slots = rest })
unfolding alloc
alloc_inv p h = ground arith

-- `alloc` takes a free slot, which is then in use, with an empty table.
pub alloc-IsValid :
    (p : Pool) {q : Pool} {s : ℕ}
    → IsValid p
    → alloc p ≡ some (q, s)
    → IsValid q × InUse q s × (blocks_of q s ≡ [])
alloc-IsValid p {q} {s} v h =
    let (rest, top, is) = alloc_inv p h in
    let given = v.idle s (ground arith) in
    subst (λ q. IsValid q × InUse q s × (blocks_of q s ≡ [])) (sym is)
      (
        record {
          positive = v.positive;
          books = λ b. record { counted = (v.books b).counted; placed = (v.books b).placed };
          pins = v.pins;
          counted = v.counted;
          dict = v.dict;
          sized = v.sized;
          slots = v.slots;
          idle = λ s' k. ground (arith, v.idle s');
        },
        (given.1, ground arith),
        given.2,
      )
