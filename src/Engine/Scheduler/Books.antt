-- ===== src/Engine/Scheduler/Books.antt =====
-- engine/scheduler.py: which slots of the cache are free, and which sequence holds which.
use superl8_serve.Prelude.{
  ℕ, suc, ◌+◌, ◌-◌, ◌≤◌, ◌<◌, ◌≡◌, refl, sym, ap, subst, ◌∙◌, List, [], ◌∷◌, ◌++◌, Option, some,
  none, Bool, true, false, ◌&&◌, not, if◌then◌else◌, ◌==◌, ltb, leb, arith, length, length-append,
  count, map, All, All-append, filter, Bool-cases, inl, inr, ◌⊎◌,
}
use superl8_serve.Engine.Cache.{KvCache}
use superl8_serve.Engine.Sequence.{Sequence, Status, is_finished, num_output, num_prompt}
use superl8_serve.Engine.Scheduler.{
  take_fewest, free_slot_of, admit_one, Admission, admit, has_room, over_budget, sweep, nonempty,
}

abbrev pub holds : ℕ → Sequence → ℕ
holds a s = elim s.slot [ none ↦ 0 | some slot ↦ if slot == a then 1 else 0 ]

abbrev pub held : ℕ → List Sequence → ℕ
held a [] = 0
held a (s ∷ ss) = holds a s + held a ss

-- The tokens that a sequence may still get, and one more for the step that finishes it.
abbrev pub due : Sequence → ℕ
due s = suc (s.params.max_tokens - num_output s)

abbrev pub owed : List Sequence → ℕ
owed [] = 0
owed (s ∷ ss) = due s + owed ss

pub owed-append : (xs ys : List Sequence) → owed (xs ++ ys) ≡ owed xs + owed ys
owed-append [] ys = omega arith
owed-append (x ∷ xs) ys = omega (arith, owed-append xs ys)

pub owed-take_fewest :
    (s : Sequence) (ss : List Sequence)
    → due (take_fewest s ss).0 + owed (take_fewest s ss).1 ≡ due s + owed ss
unfolding take_fewest
owed-take_fewest s [] = refl
owed-take_fewest s (t ∷ ts) = grind (arith, owed-take_fewest t ts)

abbrev pub HasSlot : Sequence → Type 0
HasSlot s = (slot : ℕ) × (s.slot ≡ some slot)

pub held-append : (a : ℕ) (xs ys : List Sequence) → held a (xs ++ ys) ≡ held a xs + held a ys
held-append a [] ys = omega arith
held-append a (x ∷ xs) ys = omega (arith, held-append a xs ys)

pub held-take_fewest :
    (a : ℕ) (s : Sequence) (ss : List Sequence)
    → holds a (take_fewest s ss).0 + held a (take_fewest s ss).1 ≡ holds a s + held a ss
unfolding take_fewest
held-take_fewest a s [] = refl
held-take_fewest a s (t ∷ ts) = grind (arith, held-take_fewest a t ts)

pub All-take_fewest :
    (P : Sequence → Type 0) (s : Sequence) (ss : List Sequence)
    → P s
    → All P ss
    → P (take_fewest s ss).0 × All P (take_fewest s ss).1
unfolding take_fewest
All-take_fewest P s [] p ps = (p, tt)
All-take_fewest P s (t ∷ ts) p ps =
    let (q, qs) = All-take_fewest P t ts ps.0 ps.1 in
    elim (Bool-cases (leb (num_output s) (num_output (take_fewest t ts).0))) [
      | inl le ↦ rw le (p, ps)
      | inr gt ↦ rw gt (q, (p, qs))
    ]

ids_moved :
    (t s : Sequence) (front back : List Sequence)
    → t.seq_id ≡ s.seq_id
    → map (λ s. s.seq_id) (front ++ (t ∷ [])) ++ map (λ s. s.seq_id) back
      ≡ map (λ s. s.seq_id) front ++ map (λ s. s.seq_id) (s ∷ back)
ids_moved t s [] back e = ap (λ i. i ∷ map (λ s. s.seq_id) back) e
ids_moved t s (x ∷ front) back e = ap (◌∷◌ x.seq_id) (ids_moved t s front back e)

abbrev pub prompt_tokens : List Sequence → ℕ
prompt_tokens [] = 0
prompt_tokens (s ∷ ss) = num_prompt s + prompt_tokens ss

prompt_tokens-append :
    (xs ys : List Sequence) → prompt_tokens (xs ++ ys) ≡ prompt_tokens xs + prompt_tokens ys
prompt_tokens-append [] ys = omega arith
prompt_tokens-append (x ∷ xs) ys = omega (arith, prompt_tokens-append xs ys)

module _ (C : KvCache) where
  -- The cache is valid and each slot is free once, or given out to the one that `out` counts.
  pub record Accounts (c : C.State) (out : ℕ → ℕ) : Type 0 where
    pub valid : C.IsValid c
    pub placed :
        (a : ℕ) → count a (C.free_slots c) + out a ≡ (if ltb a (C.num_slots c) then 1 else 0)

  pub Accounts-same :
      (c : C.State) (f g : ℕ → ℕ) → ((a : ℕ) → f a ≡ g a) → Accounts c f → Accounts c g
  Accounts-same c f g e h = record { valid = h.valid; placed = λ a. omega (arith, e a, h.placed a) }

  pub free_slot_of-Accounts :
      (s : Sequence) (c : C.State) (out : ℕ → ℕ)
      → HasSlot s
      → Accounts c (λ a. holds a s + out a)
      → Accounts (free_slot_of C s c) out
  unfolding free_slot_of
  free_slot_of-Accounts s c out (slot, e) h =
      let p = h.placed slot in
      let (v, f, n) = C.free_law slot c h.valid (ground arith) (ground arith) in
      rw e (record { valid = v; placed = λ a. ground (arith, f a, h.placed a) })

  pub free_slot_of-num_slots :
      (s : Sequence) (c : C.State) (out : ℕ → ℕ)
      → HasSlot s
      → Accounts c (λ a. holds a s + out a)
      → C.num_slots (free_slot_of C s c) ≡ C.num_slots c
  unfolding free_slot_of
  free_slot_of-num_slots s c out (slot, e) h =
      let p = h.placed slot in
      let (v, f, n) = C.free_law slot c h.valid (ground arith) (ground arith) in rw e n

  -- A waiting sequence gets a free slot and keeps its id, prompt and output.
  pub record Admitted (s : Sequence) (c : C.State) (out : ℕ → ℕ) : Type 0 where
    pub cache : C.State
    pub seq : Sequence
    pub returns : admit_one C s c ≡ some (cache, seq)
    pub accounts : Accounts cache (λ a. holds a seq + out a)
    pub slot : HasSlot seq
    pub same_id : seq.seq_id ≡ s.seq_id
    pub same_prompt : seq.prompt_ids ≡ s.prompt_ids
    pub same_due : due seq ≡ due s
    pub same_slots : C.num_slots cache ≡ C.num_slots c

  pub admit_one-Admitted :
      (s : Sequence) (c : C.State) (out : ℕ → ℕ)
      → Accounts c out
      → C.has_free_slot c ≡ true
      → Admitted s c out
  unfolding admit_one
  admit_one-Admitted s c out h room =
      let (d, slot, e, v, fresh, n, f) = C.alloc_law c h.valid room in
      let (v', fresh', sharable, f', n') = C.lookup_law s.prompt_ids slot d v fresh in
      let (v'', f'', n'') =
        C.share_law slot (C.lookup_prefix s.prompt_ids d).1.1 (C.lookup_prefix s.prompt_ids d).0 v'
          fresh' sharable in
      let r = C.lookup_prefix s.prompt_ids d in
      elim (Bool-cases (ltb 0 r.1.0 && nonempty r.1.1)) [
        | inl hit ↦ record {
          cache = C.share_blocks slot r.1.1 r.0;
          seq = record s { slot = some slot; prefix_matched_len = r.1.0; status = Status.running };
          returns = rw (admit_one, e, hit) refl;
          accounts = record { valid = v''; placed = λ a. ground (arith, f a, h.placed a) };
          slot = (slot, refl);
          same_id = refl;
          same_prompt = refl;
          same_due = refl;
          same_slots = omega (arith, n, n', n'');
        }
        | inr miss ↦ record {
          cache = r.0;
          seq = record s { slot = some slot; status = Status.running };
          returns = rw (admit_one, e, miss) refl;
          accounts = record { valid = v'; placed = λ a. ground (arith, f a, h.placed a) };
          slot = (slot, refl);
          same_id = refl;
          same_prompt = refl;
          same_due = refl;
          same_slots = omega (arith, n, n');
        }
      ]

  room_inv :
      (r m : ℕ) (c : C.State) (batch : List Sequence) (x : Bool)
      → (has_room C (r + length batch) m c && x) ≡ true
      → (C.has_free_slot c ≡ true) × (r + length batch < m)
  unfolding has_room
  room_inv r m c batch x go = grind arith

  module _ (r m b : ℕ) (s : Sequence) (batch : List Sequence) (tokens : ℕ) (c : C.State) where
    abbrev tests : Bool
    tests = has_room C (r + length batch) m c && not (over_budget C batch tokens b s)

    go_budget : tests ≡ true → over_budget C batch tokens b s ≡ false
    go_budget go = grind arith

    stop_room : tests ≡ false → batch ≡ [] → has_room C (r + length batch) m c ≡ false
    unfolding over_budget
    stop_room stop e = elim (Bool-cases (over_budget C batch tokens b s)) [
      | inl over ↦ grind arith
      | inr under ↦ grind arith
    ]

  module _ (r m b : ℕ) (s : Sequence) (ws batch : List Sequence) (tokens : ℕ) (c : C.State) where
    abbrev goes : Bool
    goes = has_room C (r + length batch) m c && not (over_budget C batch tokens b s)

    admit_go :
        (d : C.State) (t : Sequence)
        → goes ≡ true
        → admit_one C s c ≡ some (d, t)
        → admit C r m b (s ∷ ws) batch tokens c
          ≡ admit C r m b ws (batch ++ (t ∷ [])) (tokens + num_prompt s) d
    unfolding admit
    admit_go d t go one = grind arith

    admit_stop :
        goes ≡ false
        → admit C r m b (s ∷ ws) batch tokens c
          ≡ some (record { cache = c; waiting = s ∷ ws; batch = batch })
    unfolding admit
    admit_stop stop = grind arith

  abbrev pub InBudget : ℕ → List Sequence → Type 0
  InBudget limit batch = (length batch ≤ 1) ⊎ (prompt_tokens batch ≤ limit)

  budget_kept :
      (b tokens : ℕ) (s t : Sequence) (batch : List Sequence)
      → t.prompt_ids ≡ s.prompt_ids
      → tokens ≡ prompt_tokens batch
      → over_budget C batch tokens b s ≡ false
      → InBudget b (batch ++ (t ∷ [])) × (tokens + num_prompt s ≡ prompt_tokens (batch ++ (t ∷ [])))
  unfolding over_budget
  budget_kept b tokens s t [] same e under = (inl (omega arith), grind arith)
  budget_kept b tokens s t (x ∷ batch) same e under =
      let sum : tokens + num_prompt s ≡ prompt_tokens ((x ∷ batch) ++ (t ∷ [])) =
        omega (arith, e, prompt_tokens-append batch (t ∷ []), ap length same) in
      (inr (ground (arith, under, sum)), sum)

  -- The inner loop from its start: it returns, the slots stay right, the cap and the token budget
  -- hold, the batch is a prefix of the queue, and it is empty only if nothing could be admitted.
  pub record Admits (running max_num_seqs max_batch_tokens : ℕ) (waiting batch : List Sequence)
      (out : ℕ → ℕ) (c : C.State) (result : Option (Admission C)) : Type 0 where
    pub end : Admission C
    pub returns : result ≡ some end
    pub accounts : Accounts end.cache (λ a. held a end.batch + out a)
    pub slots : All HasSlot end.batch
    pub capped : running + length end.batch ≤ max_num_seqs
    pub budget : InBudget max_batch_tokens end.batch
    pub stuck :
        end.batch ≡ []
        → (end.waiting ≡ [])
          ⊎ (has_room C (running + length end.batch) max_num_seqs end.cache ≡ false)
    pub in_order :
        map (λ s. s.seq_id) end.batch ++ map (λ s. s.seq_id) end.waiting
        ≡ map (λ s. s.seq_id) batch ++ map (λ s. s.seq_id) waiting
    pub same_owed : owed end.batch + owed end.waiting ≡ owed batch + owed waiting
    pub same_slots : C.num_slots end.cache ≡ C.num_slots c

  pub admit-Admits :
      (running max_num_seqs max_batch_tokens : ℕ) (waiting batch : List Sequence) (tokens : ℕ)
      (c : C.State) (out : ℕ → ℕ)
      → Accounts c (λ a. held a batch + out a)
      → All HasSlot batch
      → running + length batch ≤ max_num_seqs
      → InBudget max_batch_tokens batch
      → tokens ≡ prompt_tokens batch
      → Admits running max_num_seqs max_batch_tokens waiting batch out c
          (admit C running max_num_seqs max_batch_tokens waiting batch tokens c)
  unfolding admit
  admit-Admits r m b [] batch tokens c out h slots le within sum = record {
    end = _;
    returns = refl;
    accounts = h;
    slots = slots;
    capped = le;
    budget = within;
    stuck = λ e. inl refl;
    in_order = refl;
    same_owed = refl;
    same_slots = refl;
  }
  admit-Admits r m b (s ∷ ws) batch tokens c out h slots le within sum =
      elim (Bool-cases
        (has_room C (r + length batch) m c && not (over_budget C batch tokens b s))) [
          | inl go ↦
              let (room, under) = room_inv r m c batch _ go in
              let one = admit_one-Admitted s c (λ a. held a batch + out a) h room in
              let (fits, total) =
                budget_kept b tokens s one.seq batch one.same_prompt sum
                  (go_budget r m b s batch tokens c go) in
              let rest =
                admit-Admits r m b ws (batch ++ (one.seq ∷ [])) (tokens + num_prompt s) one.cache
                  out
                  (Accounts-same one.cache _ _
                    (λ a. omega (arith, held-append a batch (one.seq ∷ []))) one.accounts)
                  (All-append HasSlot batch (one.seq ∷ []) slots (one.slot, tt))
                  (omega (arith, under, length-append batch (one.seq ∷ []))) fits total in
              subst (Admits r m b (s ∷ ws) batch out c)
                (sym (admit_go r m b s ws batch tokens c one.cache one.seq go one.returns))
                (record {
                  end = rest.end;
                  returns = rest.returns;
                  accounts = rest.accounts;
                  slots = rest.slots;
                  capped = rest.capped;
                  budget = rest.budget;
                  stuck = rest.stuck;
                  in_order = rest.in_order ∙ ids_moved one.seq s batch ws one.same_id;
                  same_owed =
                      omega (arith, rest.same_owed, owed-append batch (one.seq ∷ []), one.same_due);
                  same_slots = rest.same_slots ∙ one.same_slots;
                })
          | inr stop ↦
              subst (Admits r m b (s ∷ ws) batch out c)
                (sym (admit_stop r m b s ws batch tokens c stop))
                (record {
                  end = _;
                  returns = refl;
                  accounts = h;
                  slots = slots;
                  capped = le;
                  budget = within;
                  stuck = λ e. inr (stop_room r m b s batch tokens c stop e);
                  in_order = refl;
                  same_owed = refl;
                  same_slots = refl;
                })
        ]

  -- What finished is out of the list, its slots free; what runs on keeps its slot.
  pub record Swept (eos_id : Option ℕ) (running : List Sequence) (out : ℕ → ℕ) (c : C.State)
      (r : List Sequence × C.State) : Type 0 where
    pub accounts : Accounts r.1 (λ a. held a r.0 + out a)
    pub slots : All HasSlot r.0
    pub unfinished : r.0 ≡ filter (λ s. not (is_finished s eos_id)) running
    pub same_slots : C.num_slots r.1 ≡ C.num_slots c

  sweep_over :
      (eos_id : Option ℕ) (s : Sequence) (ss : List Sequence) (c : C.State)
      → is_finished s eos_id ≡ true
      → sweep C eos_id (s ∷ ss) c ≡ sweep C eos_id ss (free_slot_of C s c)
  unfolding sweep
  sweep_over eos_id s ss c over = grind arith

  sweep_on :
      (eos_id : Option ℕ) (s : Sequence) (ss : List Sequence) (c : C.State)
      → is_finished s eos_id ≡ false
      → sweep C eos_id (s ∷ ss) c ≡ (s ∷ (sweep C eos_id ss c).0, (sweep C eos_id ss c).1)
  unfolding sweep
  sweep_on eos_id s ss c on = grind arith

  pub sweep-Swept :
      (eos_id : Option ℕ) (running : List Sequence) (c : C.State) (out : ℕ → ℕ)
      → Accounts c (λ a. held a running + out a)
      → All HasSlot running
      → Swept eos_id running out c (sweep C eos_id running c)
  unfolding sweep
  sweep-Swept eos_id [] c out h slots = record {
    accounts = h;
    slots = tt;
    unfinished = refl;
    same_slots = refl;
  }
  sweep-Swept eos_id (s ∷ ss) c out h slots = elim (Bool-cases (is_finished s eos_id)) [
    | inl over ↦
        let rest =
          sweep-Swept eos_id ss (free_slot_of C s c) out
            (free_slot_of-Accounts s c (λ a. held a ss + out a) slots.0
              (Accounts-same c _ _ (λ a. omega arith) h))
            slots.1 in
        subst (Swept eos_id (s ∷ ss) out c) (sym (sweep_over eos_id s ss c over)) (record {
          accounts = rest.accounts;
          slots = rest.slots;
          unfinished = rw over rest.unfinished;
          same_slots =
              rest.same_slots
              ∙ free_slot_of-num_slots s c (λ a. held a ss + out a) slots.0
                  (Accounts-same c _ _ (λ a. omega arith) h);
        })
    | inr on ↦
        let rest =
          sweep-Swept eos_id ss c (λ a. holds a s + out a)
            (Accounts-same c _ _ (λ a. omega arith) h) slots.1 in
        subst (Swept eos_id (s ∷ ss) out c) (sym (sweep_on eos_id s ss c on)) (record {
          accounts = Accounts-same _ _ _ (λ a. omega arith) rest.accounts;
          slots = (slots.0, rest.slots);
          unfinished = rw on (ap (◌∷◌ s) rest.unfinished);
          same_slots = rest.same_slots;
        })
  ]
