-- ===== src/Engine/Scheduler/Finish.antt =====
-- How sequences leave the scheduler: `postprocess` and `cancel`.
use superl8_serve.Prelude.{
  ℕ, ◌+◌, ◌≤◌, ◌≡◌, refl, sym, subst, List, [], ◌∷◌, ◌++◌, Option, some, none, true, false, not,
  if◌then◌else◌, ◌==◌, arith, length, length-append, count, All, All-append, filter, Bool-cases,
  length-filter, inl, inr, ◌⊎◌,
}
use mathlib.Core.Option.{some_inj}
use superl8_serve.Engine.Cache.{KvCache}
use superl8_serve.Engine.Sequence.{Sequence, Status, is_finished}
use superl8_serve.Engine.Scheduler.{
  Scheduler, take_id, drop_carry, free_slot_of, cancel, postprocess,
}
use superl8_serve.Engine.Scheduler.Books.{
  holds, held, HasSlot, Accounts-same, held-append, free_slot_of-Accounts, sweep-Swept,
}
use superl8_serve.Engine.Scheduler.Schedule.{ids, IsValid, HasBatch}

-- One where `r` is a sequence of the id.
abbrev pub cancelled : Option Sequence → ℕ → ℕ
cancelled none a = 0
cancelled (some x) a = if x.seq_id == a then 1 else 0

record Takes (seq_id : ℕ) (ss : List Sequence) (seq : Sequence) (rest : List Sequence)
    : Type 0 where
  its_id : seq.seq_id ≡ seq_id
  counted : (a : ℕ) → count a (ids ss) ≡ (if seq.seq_id == a then 1 else 0) + count a (ids rest)
  owed : (a : ℕ) → held a ss ≡ holds a seq + held a rest
  fewer : length rest ≤ length ss
  slots : All HasSlot ss → HasSlot seq × All HasSlot rest

take_id-Takes :
    (seq_id : ℕ) (ss : List Sequence)
    → ((take_id seq_id ss ≡ none) × (count seq_id (ids ss) ≡ 0))
      ⊎ ((seq : Sequence) × (rest : List Sequence) × (take_id seq_id ss ≡ some (seq, rest))
          × Takes seq_id ss seq rest)
unfolding take_id
take_id-Takes seq_id [] = inl (refl, refl)
take_id-Takes seq_id (s ∷ ss) = elim (Bool-cases (s.seq_id == seq_id)) [
  | inl found ↦ inr (
    s,
    ss,
    rw (take_id, found) refl,
    record {
      its_id = ground (arith, found);
      counted = λ a. refl;
      owed = λ a. refl;
      fewer = omega arith;
      slots = λ h. h;
    },
  )
  | inr other ↦ elim (take_id-Takes seq_id ss) [
    | inl (e, zero_times) ↦ inl (rw (take_id, other, e) refl, ground (arith, other, zero_times))
    | inr (t, rest, e, h) ↦ inr (
      t,
      s ∷ rest,
      rw (take_id, other, e) refl,
      record {
        its_id = h.its_id;
        counted = λ a. omega (arith, h.counted a);
        owed = λ a. omega (arith, h.owed a);
        fewer = omega (arith, h.fewer);
        slots = λ g. let (one, more) = h.slots g.1 in (one, (g.0, more));
      },
    )
  ]
]

module _ (C : KvCache) where
  -- `postprocess` of a batch that was prefilled leaves a valid state, in which the running
  -- sequences are those that have not finished, in their order.
  pub postprocess-prefill :
      (batch : List Sequence) (s : Scheduler C)
      → HasBatch C s batch
      → IsValid C (postprocess C batch true s)
        × ((postprocess C batch true s).running
            ≡ filter (λ x. not (is_finished x s.eos_id)) (s.running ++ batch))
  unfolding postprocess
  postprocess-prefill batch s h =
      let w =
        sweep-Swept C s.eos_id (s.running ++ batch) s.cache (λ a. 0)
          (Accounts-same C _ _ _ (λ a. omega (arith, held-append a s.running batch)) h.accounts)
          (All-append HasSlot s.running batch h.running_slots h.slots) in
      (
        record {
          accounts = Accounts-same C _ _ _ (λ a. omega arith) w.accounts;
          slots = w.slots;
          capped =
              subst (λ xs. length xs ≤ s.max_num_seqs) (sym w.unfinished)
                (omega (
                  arith,
                  length-filter (λ x. not (is_finished x s.eos_id)) (s.running ++ batch),
                  length-append s.running batch,
                  h.capped,
                ));
        },
        w.unfinished,
      )

  -- From a valid state `postprocess` of a step that decoded leaves a valid state, in which the running
  -- sequences are those that have not finished, in their order.
  pub postprocess-decode :
      (batch : List Sequence) (s : Scheduler C)
      → IsValid C s
      → IsValid C (postprocess C batch false s)
        × ((postprocess C batch false s).running
            ≡ filter (λ x. not (is_finished x s.eos_id)) s.running)
  unfolding postprocess
  postprocess-decode batch s v =
      let w =
        sweep-Swept C s.eos_id s.running s.cache (λ a. 0)
          (Accounts-same C _ _ _ (λ a. omega arith) v.accounts) v.slots in
      (
        record {
          accounts = Accounts-same C _ _ _ (λ a. omega arith) w.accounts;
          slots = w.slots;
          capped =
              subst (λ xs. length xs ≤ s.max_num_seqs) (sym w.unfinished)
                (omega
                  (arith, length-filter (λ x. not (is_finished x s.eos_id)) s.running, v.capped));
        },
        w.unfinished,
      )

  -- What `cancel` does to the two queues.
  pub record Cancels (seq_id : ℕ) (s : Scheduler C) (r : Scheduler C × Option Sequence)
      : Type 0 where
    pub valid : IsValid C r.0
    pub finished :
        (x : Sequence) → r.1 ≡ some x → (x.seq_id ≡ seq_id) × (x.status ≡ Status.finished)
    pub queued :
        (a : ℕ)
        → count a (ids s.waiting) + count a (ids s.running)
          ≡ cancelled r.1 a + (count a (ids r.0.waiting) + count a (ids r.0.running))
    pub missing :
        r.1 ≡ none
        → (count seq_id (ids s.waiting) ≡ 0) × (count seq_id (ids s.running) ≡ 0) × (r.0 ≡ s)

  module _ (seq_id : ℕ) (s : Scheduler C) where
    cancel_waiting :
        (x : Sequence) (rest : List Sequence)
        → take_id seq_id s.waiting ≡ some (x, rest)
        → cancel C seq_id s
          ≡ (record s { waiting = rest }, some (record x { status = Status.finished }))
    unfolding cancel
    cancel_waiting x rest e = rw (cancel, e) refl

    cancel_running :
        (x : Sequence) (rest : List Sequence)
        → take_id seq_id s.waiting ≡ none
        → take_id seq_id s.running ≡ some (x, rest)
        → cancel C seq_id s ≡ (
          record s { running = rest; cache = free_slot_of C x s.cache },
          some (drop_carry (record x { status = Status.finished })),
        )
    unfolding cancel
    cancel_running x rest absent e = rw (cancel, absent, e) refl

    cancel_absent :
        take_id seq_id s.waiting ≡ none
        → take_id seq_id s.running ≡ none
        → cancel C seq_id s ≡ (s, none)
    unfolding cancel
    cancel_absent absent gone = rw (cancel, absent, gone) refl

  -- On a valid state `cancel` keeps the state valid, takes out at most one sequence, which has the
  -- id and is finished, and changes nothing only if no sequence has the id.
  pub cancel-Cancels :
      (seq_id : ℕ) (s : Scheduler C) → IsValid C s → Cancels seq_id s (cancel C seq_id s)
  unfolding cancel drop_carry
  cancel-Cancels seq_id s v = elim (take_id-Takes seq_id s.waiting) [
    | inr (x, rest, e, h) ↦
        subst (Cancels seq_id s) (sym (cancel_waiting seq_id s x rest e)) (record {
          valid = record { accounts = v.accounts; slots = v.slots; capped = v.capped };
          finished = λ y is.
              subst (λ y. (y.seq_id ≡ seq_id) × (y.status ≡ Status.finished)) (some_inj.0 is)
                (h.its_id, refl);
          queued = λ a. omega (arith, h.counted a);
          missing = λ is. ground arith;
        })
    | inl (absent, w0) ↦ elim (take_id-Takes seq_id s.running) [
      | inr (x, rest, e, h) ↦
          subst (Cancels seq_id s) (sym (cancel_running seq_id s x rest absent e)) (record {
            valid = record {
              accounts =
                  free_slot_of-Accounts C x s.cache (λ a. held a rest) (h.slots v.slots).0
                    (Accounts-same C _ _ _ h.owed v.accounts);
              slots = (h.slots v.slots).1;
              capped = omega (arith, h.fewer, v.capped);
            };
            finished = λ y is.
                subst (λ y. (y.seq_id ≡ seq_id) × (y.status ≡ Status.finished)) (some_inj.0 is)
                  (h.its_id, refl);
            queued = λ a. omega (arith, h.counted a);
            missing = λ is. ground arith;
          })
      | inl (gone, r0) ↦
          subst (Cancels seq_id s) (sym (cancel_absent seq_id s absent gone)) (record {
            valid = v;
            finished = λ y is. ground arith;
            queued = λ a. omega arith;
            missing = λ is. (w0, r0, refl);
          })
    ]
  ]
