-- ===== src/Kv/Pool/Entries.antt =====
-- PagedKVCache: what the steps of store_prefix do to one entry of the prefix cache.
use mathlib.Core.List.{foldl}
use mathlib.Core.Path.{subst₂}
use native.Mathlib.Nat.{div-add-mod'}
use superl8_serve.Prelude.{
  ℕ, suc, ◌+◌, ◌*◌, ◌/◌, ◌%◌, ◌≤◌, ◌≡◌, refl, List, [], ◌∷◌, Option, none, some, inl, inr, arith,
  count, count-append, get_or, length, length-take, take, drop, take-append-drop, sym, subst, ap,
  ◌∙◌, Option-cases,
}
use superl8_serve.Kv.Trie.{
  Trie, Entry, entry_at, modify, refs, entries, entry_refs, one_if, IsDict, descend,
}
use superl8_serve.Kv.Trie.Modify.{refs-modify, entries-modify, modify-IsDict}
use superl8_serve.Kv.Trie.Sizes.{IsSized, Fits, modify-IsSized}
use superl8_serve.Kv.Trie.Descend.{descend-IsDict, descend-IsSized, refs-descend, entries-descend}
use superl8_serve.Kv.Pool.{
  Pool, blocks_of, pin, make_room, add_entry, store_entry, touched, lookup_prefix,
}
use superl8_serve.Kv.Pool.Ledger.{Books, Pins, pin_all-Books, pin_all-Pins, pin_all-Frame}
use superl8_serve.Kv.Pool.Valid.{IsValid, holders, slot_refs, count-le-slot_refs}
use superl8_serve.Kv.Pool.Slots.{AllHeld}
use superl8_serve.Kv.Pool.Evict.{
  make_room_cases, evict_one_prefix-vacant, SameSlots, Keeps, Keeps-trans, make_room-Keeps,
}

-- A change of the trie that leaves the counts, the dicts and the sizes.
pub reshape-IsValid :
    (p : Pool) (f : Trie) (now : ℕ)
    → ((b : ℕ) → refs b f ≡ refs b p.prefix_trie)
    → entries f ≡ entries p.prefix_trie
    → IsDict f
    → IsSized p.block_size 0 f
    → IsValid p
    → IsValid (record p { prefix_trie = f; lru = now })
reshape-IsValid p f now same_refs same_entries d z v = record {
  positive = v.positive;
  books = λ b. record {
    counted = ground (arith, (v.books b).counted, same_refs b);
    placed = ground (arith, (v.books b).placed, same_refs b);
  };
  pins = λ b. subst (Pins p b) (sym (same_refs b)) (v.pins b);
  counted = v.counted ∙ sym same_entries;
  dict = d;
  sized = z;
  slots = v.slots;
  idle = v.idle;
}

pub lookup-IsValid : (ts : List ℕ) (p : Pool) → IsValid p → IsValid (lookup_prefix ts p).0
unfolding lookup_prefix
lookup-IsValid ts p v =
    reshape-IsValid p (descend (p.lru + 1) 0 ts p.prefix_trie (0, [])).0 (p.lru + 1)
      (λ b. refs-descend b (p.lru + 1) 0 ts p.prefix_trie (0, []))
      (entries-descend (p.lru + 1) 0 ts p.prefix_trie (0, []))
      (descend-IsDict (p.lru + 1) 0 ts p.prefix_trie (0, []) v.dict)
      (descend-IsSized p.block_size (p.lru + 1) 0 ts p.prefix_trie (0, []) v.sized) v

-- A new entry over blocks that are held, at a path with none, keeps the books right.
add_entry-IsValid :
    (now t : ℕ) (r xs : List ℕ) (p : Pool)
    → entry_at (t ∷ r) p.prefix_trie ≡ none
    → length xs * p.block_size ≡ suc (length r)
    → AllHeld p xs
    → IsValid p
    → IsValid (add_entry now (t ∷ r) xs p)
unfolding add_entry
add_entry-IsValid now t r xs p vacant sized held v =
    let e : Entry = record { blocks = xs; num_tokens = suc (length r); lru = now } in
    let f = modify (t ∷ r) (λ _. some e) p.prefix_trie in
    let p' : Pool = record p { prefix_trie = f } in
    let q = foldl pin p' xs in
    let fr = pin_all-Frame xs p' in
    let more = λ (b : ℕ). refs-modify b (λ _. some e) t r p.prefix_trie in
    let books = λ (b : ℕ).
      subst (Books q b) {x = holders p b + count b xs}
        {y = slot_refs b q.slot_blocks + refs b q.prefix_trie} (ground (arith, more b))
        (pin_all-Books b xs p' (holders p b) (held b)
          (record { counted = (v.books b).counted; placed = (v.books b).placed })) in
    let pins = λ (b : ℕ).
      subst (Pins q b) {x = refs b p.prefix_trie + count b xs} {y = refs b q.prefix_trie}
        (ground (arith, more b)) (pin_all-Pins b xs p' (refs b p.prefix_trie) (v.pins b)) in
    record {
      positive = ground (arith, v.positive);
      books = λ b. record { counted = (books b).counted; placed = (books b).placed };
      pins = pins;
      counted = ground (arith, v.counted, entries-modify (λ _. some e) t r p.prefix_trie);
      dict =
          subst IsDict (sym fr.prefix_trie) (modify-IsDict (λ _. some e) t r p.prefix_trie v.dict);
      sized =
          subst₂ (λ bs f. IsSized bs 0 f) (sym fr.block_size) (sym fr.prefix_trie)
            (modify-IsSized p.block_size (λ _. some e) 0 t r p.prefix_trie (λ _ _. omega arith)
              v.sized);
      slots = ground (arith, v.slots);
      idle = λ s k. ground (arith, v.idle s);
    }

add_entry-SameSlots :
    (now : ℕ) (path xs : List ℕ) (p : Pool) → SameSlots p (add_entry now path xs p)
unfolding add_entry
add_entry-SameSlots now path xs p =
    let e : Entry = record { blocks = xs; num_tokens = length path; lru = now } in
    let fr =
      pin_all-Frame xs (record p { prefix_trie = modify path (λ _. some e) p.prefix_trie }) in
    ground arith

-- Making room leaves a vacant path vacant.
make_room-vacant :
    (t : ℕ) (r : List ℕ) (p : Pool)
    → IsValid p
    → entry_at (t ∷ r) p.prefix_trie ≡ none
    → entry_at (t ∷ r) (make_room p).prefix_trie ≡ none
make_room-vacant t r p v vacant = elim (make_room_cases p) [
  | inl same ↦ ap (λ (q : Pool). entry_at (t ∷ r) q.prefix_trie) same ∙ vacant
  | inr evicted ↦
      ap (λ (q : Pool). entry_at (t ∷ r) q.prefix_trie) evicted
      ∙ evict_one_prefix-vacant t r p v vacant
]

count-take-le : (b n : ℕ) (xs : List ℕ) → count b (take n xs) ≤ count b xs
count-take-le b n xs =
    omega (arith, count-append b (take n xs) (drop n xs), ap (count b) (take-append-drop n xs))

take-AllHeld : (n slot : ℕ) (p : Pool) → AllHeld p (take n (blocks_of p slot))
take-AllHeld n slot p b h =
    omega (arith, count-take-le b n (blocks_of p slot), count-le-slot_refs b p.slot_blocks slot)

exact_blocks :
    (bs n : ℕ) (xs : List ℕ) → n % bs ≡ 0 → n / bs ≤ length xs → length (take (n / bs) xs) * bs ≡ n
exact_blocks bs n xs h le =
    let e : length (take (n / bs) xs) ≡ n / bs = omega (arith, length-take (n / bs) xs) in
    ap (λ k. k * bs) e ∙ omega (arith, div-add-mod' n bs)

touched-Fits : (bs n now : ℕ) (e : Option Entry) → Fits bs n e → Fits bs n (touched now e)
touched-Fits bs n now none h = tt
touched-Fits bs n now (some e) h = h

entry_refs-touched : (b now : ℕ) (e : Option Entry) → entry_refs b (touched now e) ≡ entry_refs b e
entry_refs-touched b now none = refl
entry_refs-touched b now (some e) = refl

one_if-touched : (now : ℕ) (e : Option Entry) → one_if (touched now e) ≡ one_if e
one_if-touched now none = refl
one_if-touched now (some e) = refl

-- The changes that keep each entry's blocks and sizes: `setdefault` alone, and an LRU time.
module _ (g : Option Entry → Option Entry) (t : ℕ) (r : List ℕ) (p : Pool)
    (same_refs : (b : ℕ) (e : Option Entry) → entry_refs b (g e) ≡ entry_refs b e)
    (same_one : (e : Option Entry) → one_if (g e) ≡ one_if e)
    (fits : (e : Option Entry)
      → Fits p.block_size (suc (length r)) e
      → Fits p.block_size (suc (length r)) (g e)) where
  pub modify-Keeps : IsValid p → Keeps p (record p { prefix_trie = modify (t ∷ r) g p.prefix_trie })
  modify-Keeps v = record {
    valid =
        reshape-IsValid p (modify (t ∷ r) g p.prefix_trie) p.lru
          (λ b. omega (
            arith,
            refs-modify b g t r p.prefix_trie,
            same_refs b (entry_at (t ∷ r) p.prefix_trie),
          ))
          (omega
            (arith, entries-modify g t r p.prefix_trie, same_one (entry_at (t ∷ r) p.prefix_trie)))
          (modify-IsDict g t r p.prefix_trie v.dict)
          (modify-IsSized p.block_size g 0 t r p.prefix_trie fits' v.sized) v;
    same = ground arith;
  }
    where
      same_depth : 0 + length r ≡ length r
      same_depth = omega arith

      fits' :
          (e : Option Entry)
          → Fits p.block_size (suc (0 + length r)) e
          → Fits p.block_size (suc (0 + length r)) (g e)
      fits' =
          subst
            (λ n.
              (e : Option Entry) → Fits p.block_size (suc n) e → Fits p.block_size (suc n) (g e))
            (sym same_depth) fits

store_entry_vacant :
    (now : ℕ) (path full : List ℕ) (p : Pool)
    → entry_at path p.prefix_trie ≡ none
    → store_entry now path full p
      ≡ add_entry now path (take (length path / p.block_size) full) (make_room p)
unfolding store_entry
store_entry_vacant now path full p h = ground arith

store_entry_taken :
    (now : ℕ) (path full : List ℕ) (p : Pool) (e : Entry)
    → entry_at path p.prefix_trie ≡ some e
    → store_entry now path full p
      ≡ record p { prefix_trie = modify path (touched now) p.prefix_trie }
unfolding store_entry
store_entry_taken now path full p e h = ground arith

pub store_entry-Keeps :
    (now t : ℕ) (r : List ℕ) (slot : ℕ) (p : Pool)
    → suc (length r) % p.block_size ≡ 0
    → suc (length r) / p.block_size ≤ length (blocks_of p slot)
    → IsValid p
    → Keeps p (store_entry now (t ∷ r) (blocks_of p slot) p)
store_entry-Keeps now t r slot p aligned enough v =
    elim (Option-cases (entry_at (t ∷ r) p.prefix_trie)) [
      | inl vacant ↦
          let room = make_room-Keeps p v in
          let n = suc (length r) / p.block_size in
          let table : blocks_of (make_room p) slot ≡ blocks_of p slot =
            ap (λ ts. get_or ts slot []) room.same.slot_blocks in
          let held =
            subst (λ xs. AllHeld (make_room p) (take n xs)) table
              (take-AllHeld n slot (make_room p)) in
          let sized =
            subst (λ bs. length (take n (blocks_of p slot)) * bs ≡ suc (length r))
              (sym room.same.block_size)
              (exact_blocks p.block_size (suc (length r)) (blocks_of p slot) aligned enough) in
          subst (Keeps p) (sym (store_entry_vacant now (t ∷ r) (blocks_of p slot) p vacant)) (
            Keeps-trans room (record {
              valid =
                  add_entry-IsValid now t r (take n (blocks_of p slot)) (make_room p)
                    (make_room-vacant t r p v vacant) sized held room.valid;
              same = add_entry-SameSlots now (t ∷ r) (take n (blocks_of p slot)) (make_room p);
            }))
      | inr (e, taken) ↦
          subst (Keeps p) (sym (store_entry_taken now (t ∷ r) (blocks_of p slot) p e taken)) (
            modify-Keeps (touched now) t r p (λ b. entry_refs-touched b now) (one_if-touched now)
              (touched-Fits p.block_size (suc (length r)) now) v)
    ]
