-- ===== src/Engine/Scheduler/Schedule.antt =====
-- A call of `schedule`: what is admitted, and when it preempts.
use superl8_serve.Prelude.{
  ℕ, zero, suc, ◌+◌, ◌≤◌, ◌≡◌, refl, sym, ap, subst, ◌∙◌, List, [], ◌∷◌, ◌++◌, Option, some, Bool,
  true, false, ◌&&◌, not, arith, length, map, All, Bool-cases, List-cases, inl, inr, ◌⊎◌,
}
use mathlib.Core.Bool.{false≢true}
use superl8_serve.Engine.Cache.{KvCache}
use superl8_serve.Engine.Sequence.{Sequence, is_finished}
use superl8_serve.Engine.Scheduler.{
  Scheduler, take_fewest, restart, drop_carry, free_slot_of, has_room, nonempty, preempt_one,
  block_pressure, pass, result, schedule_loop, schedule,
}
use superl8_serve.Engine.Scheduler.Books.{
  holds, held, HasSlot, free_slot_of-num_slots, Accounts, Accounts-same, InBudget, admit-Admits,
  held-take_fewest, All-take_fewest, free_slot_of-Accounts, due, owed, owed-append,
  owed-take_fewest,
}

abbrev pub ids : List Sequence → List ℕ
ids = map (λ s. s.seq_id)

length-take_fewest : (s : Sequence) (ss : List Sequence) → length (take_fewest s ss).1 ≡ length ss
unfolding take_fewest
length-take_fewest s [] = refl
length-take_fewest s (t ∷ ts) = grind (arith, length-take_fewest t ts)

restart-due : (s : Sequence) → due (restart s) ≡ due s
unfolding restart drop_carry
restart-due s = refl

module _ (C : KvCache) where
  -- Each slot is free, or that of one running sequence, and no more run than the cap.
  pub record IsValid (s : Scheduler C) : Type 0 where
    pub accounts : Accounts C s.cache (λ a. held a s.running)
    pub slots : All HasSlot s.running
    pub capped : length s.running ≤ s.max_num_seqs

  -- The same with a batch that is not among the running sequences yet.
  pub record HasBatch (s : Scheduler C) (batch : List Sequence) : Type 0 where
    pub accounts : Accounts C s.cache (λ a. held a batch + held a s.running)
    pub slots : All HasSlot batch
    pub running_slots : All HasSlot s.running
    pub capped : length s.running + length batch ≤ s.max_num_seqs
    pub budget : InBudget C s.max_batch_tokens batch

  abbrev pub NothingToAdmit : Scheduler C → Type 0
  NothingToAdmit s =
      (s.waiting ≡ []) ⊎ (has_room C (length s.running) s.max_num_seqs s.cache ≡ false)

  pub record Passes (s : Scheduler C) (r : Option (Scheduler C × List Sequence)) : Type 0 where
    pub end : Scheduler C
    pub batch : List Sequence
    pub returns : r ≡ some (end, batch)
    pub running : end.running ≡ s.running
    pub max_num_seqs : end.max_num_seqs ≡ s.max_num_seqs
    pub eos_id : end.eos_id ≡ s.eos_id
    pub out : HasBatch end batch
    pub stuck : batch ≡ [] → NothingToAdmit end
    pub in_order : ids batch ++ ids end.waiting ≡ ids s.waiting
    pub same_owed : owed batch + owed end.waiting ≡ owed s.waiting
    pub same_slots : C.num_slots end.cache ≡ C.num_slots s.cache

  -- A round of `schedule` from a valid state returns: the batch with the sequences that run is
  -- within the cap, the batch within the token budget unless it is one sequence, each slot free or
  -- given to one of them; the batch is a prefix of the queue, and empty only if nothing waits or
  -- there is no room for it.
  pub pass-Passes : (s : Scheduler C) → IsValid s → Passes s (pass C s)
  unfolding pass
  pass-Passes s v =
      let a =
        admit-Admits C (length s.running) s.max_num_seqs s.max_batch_tokens s.waiting [] 0 s.cache
          (λ x. held x s.running) (Accounts-same C _ _ _ (λ x. omega arith) v.accounts) tt
          (omega (arith, v.capped)) (inl (omega arith)) refl in
      record {
        end = record s { cache = a.end.cache; waiting = a.end.waiting };
        batch = a.end.batch;
        returns = rw (pass, a.returns) refl;
        running = refl;
        max_num_seqs = refl;
        eos_id = refl;
        out = record {
          accounts = a.accounts;
          slots = a.slots;
          running_slots = v.slots;
          capped = a.capped;
          budget = a.budget;
        };
        stuck = λ e. elim (a.stuck e) [
          | inl none_left ↦ inl none_left
          | inr full ↦ inr (
              subst (λ n. has_room C n s.max_num_seqs a.end.cache ≡ false)
                (omega (arith, ap length e)) full)
        ];
        in_order = a.in_order;
        same_owed = omega (arith, a.same_owed);
        same_slots = a.same_slots;
      }

  pub record Preempts (s : Scheduler C) (r : Option (Scheduler C)) : Type 0 where
    pub end : Scheduler C
    pub returns : r ≡ some end
    pub valid : IsValid end
    pub fewer : suc (length end.running) ≡ length s.running
    pub max_num_seqs : end.max_num_seqs ≡ s.max_num_seqs
    pub eos_id : end.eos_id ≡ s.eos_id
    pub owes_less : owed end.waiting + owed end.running ≤ owed s.waiting + owed s.running
    pub same_slots : C.num_slots end.cache ≡ C.num_slots s.cache

  -- Where something runs, `_preempt_one` takes one of the running sequences and its slot.
  pub preempt_one-Preempts :
      (s : Scheduler C) (first : Sequence) (others : List Sequence)
      → s.running ≡ first ∷ others
      → IsValid s
      → Preempts s (preempt_one C s)
  unfolding preempt_one
  preempt_one-Preempts s first others e v =
      let (victim, rest) = take_fewest first others in
      let slots =
        All-take_fewest HasSlot first others (subst (All HasSlot) e v.slots).0
          (subst (All HasSlot) e v.slots).1 in
      let given : Accounts C s.cache (λ a. holds a victim + held a rest) =
        Accounts-same C _ _ _ (λ a. omega (arith, ap (held a) e, held-take_fewest a first others))
          v.accounts in
      let acc = free_slot_of-Accounts C victim s.cache (λ a. held a rest) slots.0 given in
      let kept = free_slot_of-num_slots C victim s.cache (λ a. held a rest) slots.0 given in
      let n = length-take_fewest first others in
      let cap : length rest ≤ s.max_num_seqs = omega (arith, n, ap length e, v.capped) in
      elim (Bool-cases (is_finished victim s.eos_id)) [
        | inl over ↦ record {
          end = record s { running = rest; cache = free_slot_of C victim s.cache };
          returns = rw (preempt_one, e, over) refl;
          valid = record { accounts = acc; slots = slots.1; capped = cap };
          fewer = omega (arith, n, ap length e);
          max_num_seqs = refl;
          eos_id = refl;
          owes_less = omega (arith, owed-take_fewest first others, ap owed e);
          same_slots = kept;
        }
        | inr on ↦ record {
          end = record s {
            running = rest;
            cache = free_slot_of C victim s.cache;
            waiting = s.waiting ++ (restart victim ∷ []);
          };
          returns = rw (preempt_one, e, on) refl;
          valid = record { accounts = acc; slots = slots.1; capped = cap };
          fewer = omega (arith, n, ap length e);
          max_num_seqs = refl;
          eos_id = refl;
          owes_less = omega (
            arith,
            owed-append s.waiting (restart victim ∷ []),
            restart-due victim,
            owed-take_fewest first others,
            ap owed e,
          );
          same_slots = kept;
        }
      ]

  -- What a call of `schedule` returns: a batch to prefill, or the sequences that run, to decode.
  pub data Outcome (end : Scheduler C) : List Sequence × Bool → Type 0 where
    prefills :
        (seq : Sequence) (batch : List Sequence)
        → HasBatch end (seq ∷ batch)
        → Outcome end (seq ∷ batch, true)
    decodes :
        IsValid end
        → NothingToAdmit end
        → block_pressure C end ≡ false
        → Outcome end (end.running, false)

  abbrev pub Schedules : Option (Scheduler C × (List Sequence × Bool)) → Type 0
  Schedules r =
      (end : Scheduler C) × (answer : List Sequence × Bool) × (r ≡ some (end, answer))
      × Outcome end answer

  pub HasBatch-IsValid : (s : Scheduler C) → HasBatch s [] → IsValid s
  HasBatch-IsValid s h = record {
    accounts = Accounts-same C _ _ _ (λ a. omega arith) h.accounts;
    slots = h.running_slots;
    capped = omega (arith, h.capped);
  }

  pub result-Outcome :
      (s : Scheduler C) (batch : List Sequence)
      → HasBatch s batch
      → (batch ≡ [] → NothingToAdmit s)
      → (batch ≡ [] → block_pressure C s ≡ false)
      → Schedules (some (result C s batch))
  unfolding result
  result-Outcome s [] h stuck calm =
      (s, (s.running, false), refl, decodes (HasBatch-IsValid s h) (stuck refl) (calm refl))
  result-Outcome s (seq ∷ batch) h stuck calm = (s, (seq ∷ batch, true), refl, prefills seq batch h)

  pub no_pressure : (s : Scheduler C) → s.running ≡ [] → block_pressure C s ≡ false
  unfolding block_pressure
  no_pressure s e = grind arith

  pub pressure_running :
      (s : Scheduler C)
      → block_pressure C s ≡ true
      → (first : Sequence) × (others : List Sequence) × (s.running ≡ first ∷ others)
  unfolding block_pressure
  pressure_running s h = elim (List-cases s.running) [
    | inl e ↦ grind arith
    | inr some_run ↦ some_run
  ]

  pub no_batch :
      (batch : List Sequence) (b : Bool) → (not (nonempty batch) && b) ≡ true → batch ≡ []
  no_batch [] b h = refl
  no_batch (x ∷ xs) b h = absurd (false≢true h)

  pub loop_zero :
      (s end : Scheduler C) (batch : List Sequence)
      → pass C s ≡ some (end, batch)
      → schedule_loop C 0 s ≡ some (result C end batch)
  unfolding schedule_loop
  loop_zero s end batch e = grind arith

  pub loop_return :
      (left : ℕ) (s end : Scheduler C) (batch : List Sequence)
      → pass C s ≡ some (end, batch)
      → (not (nonempty batch) && block_pressure C end) ≡ false
      → schedule_loop C (suc left) s ≡ some (result C end batch)
  unfolding schedule_loop
  loop_return left s end batch e calm = grind arith

  pub loop_preempt :
      (left : ℕ) (s end u : Scheduler C) (batch : List Sequence)
      → pass C s ≡ some (end, batch)
      → (not (nonempty batch) && block_pressure C end) ≡ true
      → preempt_one C end ≡ some u
      → schedule_loop C (suc left) s ≡ schedule_loop C left u
  unfolding schedule_loop
  loop_preempt left s end u batch e press one = grind arith

  pub schedule_loop-Schedules :
      (left : ℕ) (s : Scheduler C)
      → IsValid s
      → length s.running ≤ left
      → Schedules (schedule_loop C left s)
  schedule_loop-Schedules zero s v few =
      let p = pass-Passes s v in
      subst Schedules (sym (loop_zero s p.end p.batch p.returns)) (
        result-Outcome p.end p.batch p.out p.stuck
          (λ e. no_pressure p.end (p.running ∙ empty s.running few)))
    where
      empty : (xs : List Sequence) → length xs ≤ 0 → xs ≡ []
      empty [] h = refl
      empty (x ∷ xs) h = elim h [ ]
  schedule_loop-Schedules (suc left) s v few =
      let p = pass-Passes s v in
      elim (Bool-cases (not (nonempty p.batch) && block_pressure C p.end)) [
        | inl press ↦
            let (first, others, e) = pressure_running p.end (grind arith) in
            let q =
              preempt_one-Preempts p.end first others e (
                HasBatch-IsValid p.end (subst (HasBatch p.end) (no_batch p.batch _ press) p.out)) in
            subst Schedules
              (sym (loop_preempt left s p.end q.end p.batch p.returns press q.returns))
              (schedule_loop-Schedules left q.end q.valid
                (omega (arith, q.fewer, ap length p.running, few)))
        | inr calm ↦
            subst Schedules (sym (loop_return left s p.end p.batch p.returns calm))
              (result-Outcome p.end p.batch p.out p.stuck (λ e. grind arith))
      ]

  -- From a valid state `schedule` returns. Either it has a batch to prefill, which with the
  -- sequences that run is within the cap and the slots; or it gives the sequences that run, in a
  -- valid state, and then nothing waits or there is no room to admit it, and no sequence is left
  -- to preempt for blocks.
  pub schedule-Schedules : (s : Scheduler C) → IsValid s → Schedules (schedule C s)
  unfolding schedule
  schedule-Schedules s v = schedule_loop-Schedules s.max_num_seqs s v v.capped
