-- ===== src/Kv/Pool/Slots.antt =====
-- `free`, `ensure_capacity` and `share_blocks` keep the books.
use mathlib.Core.List.{foldl, append-nil, append_assoc}
use native.Mathlib.Decide.{ℕ_discrete}
use superl8_serve.Prelude.{
  ℕ, zero, suc, ◌+◌, ◌-◌, ◌*◌, ◌≤◌, ◌<◌, ◌≡◌, refl, List, [], ◌∷◌, ◌++◌, Bool, true, false, inl,
  inr, arith, count, count-append, get_or, set, length, length-append, length-set, sym, subst,
  get_or-set_self, get_or-set_ne, ap, ◌∙◌, Bool-cases, All, All-mono, List-cases,
}
use mathlib.Core.Path.{subst₂}
use native.Mathlib.Nat.{div-add-mod', mod-lt}
use superl8_serve.Kv.Trie.{refs, IsDict}
use superl8_serve.Kv.Trie.Sizes.{IsSized}
use superl8_serve.Kv.Dict.{insert, lookup-insert}
use superl8_serve.Kv.Pool.{
  Pool, blocks_of, blocks_for, free, release, grow, ensure_capacity, retain, share_blocks,
}
use superl8_serve.Kv.Pool.Ledger.{
  Books, release_all-Books, release_all-Frame, release_all-refs, retain_all-Books, retain_all-Frame,
  retain_all-refs,
}
use superl8_serve.Kv.Pool.Valid.{IsValid, InUse, holders, slot_refs, slot_refs-set}

-- A slot in use is given back with its blocks, each of which is free if nothing else holds it.
pub free-IsValid : (p : Pool) (s : ℕ) → IsValid p → InUse p s → IsValid (free p s)
unfolding free
free-IsValid p s v u =
    let fr = release_all-Frame (blocks_of p s) p in
    let q = foldl release p (blocks_of p s) in
    let books = λ (b : ℕ).
      release_all-Books b (blocks_of p s) p
        (slot_refs b (set q.slot_blocks s []) + refs b q.prefix_trie)
        (subst (Books p b) (ground (arith, slot_refs-set b p.slot_blocks s [])) (v.books b)) in
    record {
      positive = ground (arith, v.positive);
      books = λ b. record { counted = (books b).counted; placed = (books b).placed };
      pins = λ b. ground (arith, v.pins b, release_all-refs (blocks_of p s) p);
      counted = ground (arith, v.counted);
      dict = subst IsDict (sym fr.prefix_trie) v.dict;
      sized = subst₂ (λ bs f. IsSized bs 0 f) (sym fr.block_size) (sym fr.prefix_trie) v.sized;
      slots = ground (arith, length-set q.slot_blocks s []);
      idle = λ t k. ground (
        arith,
        v.idle t,
        get_or-set_self p.slot_blocks s [] [],
        get_or-set_ne p.slot_blocks s t [] [],
      );
    }

-- The table of a slot after `grow` took one block.
abbrev took : Pool → ℕ → ℕ → List ℕ → Pool
took p slot blk rest = record p {
  free_blocks = rest;
  slot_blocks = set p.slot_blocks slot (blocks_of p slot ++ blk ∷ []);
  block_refcount = insert blk 1 p.block_refcount;
}

took-IsValid :
    (p : Pool) (s blk : ℕ) (rest : List ℕ)
    → p.free_blocks ≡ blk ∷ rest
    → IsValid p
    → InUse p s
    → IsValid (took p s blk rest)
took-IsValid p s blk rest e v u = record {
  positive = v.positive;
  books = λ b. record {
    counted = ground (
      arith,
      (v.books b).counted,
      (v.books b).placed,
      lookup-insert blk b 1 p.block_refcount,
      slot_refs-set b p.slot_blocks s (blocks_of p s ++ blk ∷ []),
      count-append b (blocks_of p s) (blk ∷ []),
    );
    placed = ground (
      arith,
      (v.books b).placed,
      slot_refs-set b p.slot_blocks s (blocks_of p s ++ blk ∷ []),
      count-append b (blocks_of p s) (blk ∷ []),
    );
  };
  pins = v.pins;
  counted = v.counted;
  dict = v.dict;
  sized = v.sized;
  slots = ground (arith, v.slots, length-set p.slot_blocks s (blocks_of p s ++ blk ∷ []));
  idle = λ t k.
      ground (arith, v.idle t, get_or-set_ne p.slot_blocks s t (blocks_of p s ++ blk ∷ []) []);
}

-- What `grow` and `ensure_capacity` do: the books stay right, the free slots and the block size
-- stay as they are, and each table is the old one with new blocks behind it.
pub record Grows (p q : Pool) : Type 0 where
  pub valid : IsValid q
  pub free_slots : q.free_slots ≡ p.free_slots
  pub num_slots : q.num_slots ≡ p.num_slots
  pub block_size : q.block_size ≡ p.block_size
  pub extends : (t : ℕ) → (xs : List ℕ) × (blocks_of q t ≡ blocks_of p t ++ xs)

Grows-refl : {p : Pool} → IsValid p → Grows p p
Grows-refl v = record {
  valid = v;
  free_slots = refl;
  num_slots = refl;
  block_size = refl;
  extends = λ t. ([], sym (append-nil _));
}

Grows-trans : {p q r : Pool} → Grows p q → Grows q r → Grows p r
Grows-trans g h = record {
  valid = h.valid;
  free_slots = h.free_slots ∙ g.free_slots;
  num_slots = h.num_slots ∙ g.num_slots;
  block_size = h.block_size ∙ g.block_size;
  extends = λ t.
      let (xs, e) = g.extends t in
      let (ys, f) = h.extends t in (xs ++ ys, f ∙ ap (λ zs. zs ++ ys) e ∙ append_assoc _ xs ys);
}

InUse-Grows : {p q : Pool} (s : ℕ) → Grows p q → InUse p s → InUse q s
InUse-Grows s g u = ground arith

took-Grows :
    (p : Pool) (s blk : ℕ) (rest : List ℕ)
    → p.free_blocks ≡ blk ∷ rest
    → IsValid p
    → InUse p s
    → Grows p (took p s blk rest)
took-Grows p s blk rest e v u = record {
  valid = took-IsValid p s blk rest e v u;
  free_slots = refl;
  num_slots = refl;
  block_size = refl;
  extends = λ t. elim (ℕ_discrete s t) [
    | yes same ↦ (
      blk ∷ [],
      subst
          (λ t.
            get_or (set p.slot_blocks s (blocks_of p s ++ blk ∷ [])) t []
            ≡ blocks_of p t ++ blk ∷ [])
          same (get_or-set_self p.slot_blocks s _ [] (subst (λ n. s < n) (sym v.slots) u.0)),
    )
    | no other ↦ ([], get_or-set_ne p.slot_blocks s t _ [] other ∙ sym (append-nil _))
  ];
}

grow_step :
    (k s : ℕ) (p : Pool) (blk : ℕ) (rest : List ℕ)
    → p.free_blocks ≡ blk ∷ rest
    → grow (suc k) s p ≡ grow k s (took p s blk rest)
unfolding grow
grow_step k s p blk rest e = ground arith

grow_dry : (k s : ℕ) (p : Pool) → p.free_blocks ≡ [] → grow (suc k) s p ≡ (p, false)
unfolding grow
grow_dry k s p e = ground arith

-- What a slot that wants `k` blocks gets: all of them, unless the call fails.
abbrev Gets : Pool → ℕ → ℕ → Pool × Bool → Type 0
Gets p s k r = Grows p r.0 × (r.1 ≡ true → length (blocks_of r.0 s) ≡ length (blocks_of p s) + k)

-- The blocks come from the free list; where they run out, the call fails with the books right.
pub grow-Grows : (k s : ℕ) (p : Pool) → IsValid p → InUse p s → Gets p s k (grow k s p)
grow-Grows zero s p v u = unfold grow in (Grows-refl v, λ done. omega arith)
grow-Grows (suc k) s p v u = elim (List-cases p.free_blocks) [
  | inl dry ↦ subst (Gets p s (suc k)) (sym (grow_dry k s p dry)) (Grows-refl v, λ done. cc done)
  | inr (blk, rest, e) ↦
      let first = took-Grows p s blk rest e v u in
      let (more, sized) = grow-Grows k s (took p s blk rest) first.valid (InUse-Grows s first u) in
      subst (Gets p s (suc k)) (sym (grow_step k s p blk rest e)) (
        Grows-trans first more,
        λ done. ground (
          arith,
          sized done,
          length-append (blocks_of p s) (blk ∷ []),
          get_or-set_self p.slot_blocks s (blocks_of p s ++ blk ∷ []) [],
          v.slots,
        ),
      )
]

-- The slot's table has room for `n` tokens.
abbrev pub HasRoom : Pool → ℕ × ℕ → Type 0
HasRoom p (s, n) = n ≤ length (blocks_of p s) * p.block_size

HasRoom-Grows : {p q : Pool} (r : ℕ × ℕ) → Grows p q → HasRoom p r → HasRoom q r
HasRoom-Grows {p} {q} (s, n) g h =
    let (xs, e) = g.extends s in
    let wider : length (blocks_of p s) ≤ length (blocks_of q s) =
      omega (arith, ap length e, length-append (blocks_of p s) xs) in
    grind arith

blocks_for_room : (bs n : ℕ) → 0 < bs → n ≤ blocks_for bs n * bs
blocks_for_room bs n h = omega (arith, div-add-mod' (n + bs - 1) bs, mod-lt (n + bs - 1) h)

mul_mono : (a b c : ℕ) → a ≤ b → a * c ≤ b * c
mul_mono a b c h = grind arith

room_enough :
    (bs bs' n old now : ℕ) → 0 < bs → now ≡ old + (blocks_for bs n - old) → bs' ≡ bs → n ≤ now * bs'
room_enough bs bs' n old now pos e same =
    let wider : blocks_for bs n * bs ≤ now * bs = mul_mono (blocks_for bs n) now bs (omega arith) in
    let moved : now * bs' ≡ now * bs = ap (λ x. now * x) same in
    omega (arith, blocks_for_room bs n pos)

-- The first request of `ensure_capacity`.
abbrev first_grow : ℕ → ℕ → Pool → Pool × Bool
first_grow s n p = grow (blocks_for p.block_size n - length (blocks_of p s)) s p

ensure_capacity_more :
    (s n : ℕ) (rs : List (ℕ × ℕ)) (p : Pool)
    → (first_grow s n p).1 ≡ true
    → ensure_capacity ((s, n) ∷ rs) p ≡ ensure_capacity rs (first_grow s n p).0
unfolding ensure_capacity
ensure_capacity_more s n rs p e = ground arith

ensure_capacity_dry :
    (s n : ℕ) (rs : List (ℕ × ℕ)) (p : Pool)
    → (first_grow s n p).1 ≡ false
    → ensure_capacity ((s, n) ∷ rs) p ≡ ((first_grow s n p).0, false)
unfolding ensure_capacity
ensure_capacity_dry s n rs p e = ground arith

-- What a list of requests gets: room for each, unless the call fails.
abbrev pub Provides : Pool → List (ℕ × ℕ) → Pool × Bool → Type 0
Provides p rs r = Grows p r.0 × (r.1 ≡ true → All (HasRoom r.0) rs)

-- `ensure_capacity` on slots in use keeps the books right and what each table holds, and, if it
-- does not fail, leaves room for all that was asked for.
pub ensure_capacity-Provides :
    (rs : List (ℕ × ℕ)) (p : Pool)
    → IsValid p
    → All (λ r. InUse p r.0) rs
    → Provides p rs (ensure_capacity rs p)
ensure_capacity-Provides [] p v us = unfold ensure_capacity in (Grows-refl v, λ done. tt)
ensure_capacity-Provides ((s, n) ∷ rs) p v us =
    let bs = p.block_size in
    let k = blocks_for bs n - length (blocks_of p s) in
    let (first, sized) = grow-Grows k s p v us.0 in
    let (rest, room) =
      ensure_capacity-Provides rs (first_grow s n p).0 first.valid
        (All-mono rs (λ r u. InUse-Grows r.0 first u) us.1) in
    elim (Bool-cases (first_grow s n p).1) [
      | inl done ↦
          let enough : length (blocks_of (first_grow s n p).0 s) ≡ length (blocks_of p s) + k =
            sized done in
          let here : HasRoom (first_grow s n p).0 (s, n) =
            room_enough bs _ n _ _ v.positive enough first.block_size in
          subst (Provides p ((s, n) ∷ rs)) (sym (ensure_capacity_more s n rs p done))
            (Grows-trans first rest, λ all_done. (HasRoom-Grows (s, n) rest here, room all_done))
      | inr dry ↦
          subst (Provides p ((s, n) ∷ rs)) (sym (ensure_capacity_dry s n rs p dry))
            (first, λ done. cc done)
    ]

-- The blocks of a list are all held.
abbrev pub AllHeld : Pool → List ℕ → Type 0
AllHeld p xs = (b : ℕ) → 0 < count b xs → 0 < holders p b

-- On a valid cache, sharing blocks that are held with a slot that is in use and empty keeps the
-- cache valid, makes them the slot's table, and leaves the free slots.
pub share_blocks-IsValid :
    (s : ℕ) (xs : List ℕ) (p : Pool)
    → IsValid p
    → InUse p s
    → blocks_of p s ≡ []
    → AllHeld p xs
    → IsValid (share_blocks s xs p)
      × (blocks_of (share_blocks s xs p) s ≡ xs)
      × ((share_blocks s xs p).free_slots ≡ p.free_slots)
      × ((share_blocks s xs p).num_slots ≡ p.num_slots)
unfolding share_blocks
share_blocks-IsValid s xs p v u fresh held =
    let p' : Pool = record p { slot_blocks = set p.slot_blocks s xs } in
    let q = foldl retain p' xs in
    let fr = retain_all-Frame xs p' in
    let books = λ (b : ℕ).
      retain_all-Books b xs p' (holders p b) (held b)
        (record { counted = (v.books b).counted; placed = (v.books b).placed }) in
    let after = λ (b : ℕ).
      subst (Books q b) {x = holders p b + count b xs}
        {y = slot_refs b q.slot_blocks + refs b q.prefix_trie}
        (ground (arith, slot_refs-set b p.slot_blocks s xs, v.slots)) (books b) in
    (
      record {
        positive = ground (arith, v.positive);
        books = after;
        pins = λ b. ground (arith, v.pins b, retain_all-refs xs p');
        counted = ground (arith, v.counted);
        dict = subst IsDict (sym fr.prefix_trie) v.dict;
        sized = subst₂ (λ bs f. IsSized bs 0 f) (sym fr.block_size) (sym fr.prefix_trie) v.sized;
        slots = ground (arith, length-set p.slot_blocks s xs, v.slots);
        idle = λ t k. ground (arith, v.idle t, get_or-set_ne p.slot_blocks s t xs []);
      },
      ground (arith, get_or-set_self p.slot_blocks s xs []),
      fr.free_slots,
      fr.num_slots,
    )
