-- ===== src/Engine/Scheduler/Preempt.antt =====
-- What `_preempt_one` puts back in the queue.
use superl8_serve.Prelude.{
  ℕ, ◌+◌, ◌*◌, ◌≤◌, ◌≡◌, refl, sym, subst, List, [], ◌∷◌, ◌++◌, Option, some, none, false, arith,
  length-append, All,
}
use superl8_serve.Engine.Cache.{KvCache}
use superl8_serve.Engine.Sequence.{
  Sequence, Reason, is_finished, finish_reason, num_output, num_prompt, all_token_ids,
}
use superl8_serve.Engine.Scheduler.{
  Scheduler, take_fewest, restart, drop_carry, free_slot_of, preempt_one,
}

take_fewest-fewest :
    (m : ℕ) (s : Sequence) (ss : List Sequence)
    → m ≤ num_output (take_fewest s ss).0
    → All (λ t. m ≤ num_output t) (s ∷ ss)
unfolding take_fewest
take_fewest-fewest m s [] le = (le, tt)
take_fewest-fewest m s (t ∷ ts) le =
    (ground (arith, le), take_fewest-fewest m t ts (ground (arith, le)))

pub record Requeued (waiting running : List Sequence) (victim : Sequence)
    (end_waiting : List Sequence) : Type 0 where
  pub queued : Sequence
  pub last : end_waiting ≡ waiting ++ (queued ∷ [])
  pub same_id : queued.seq_id ≡ victim.seq_id
  pub no_slot : queued.slot ≡ none
  pub output_ids : queued.output_ids ≡ victim.output_ids
  pub fewest : All (λ t. num_output victim ≤ num_output t) running
  pub repeated : all_token_ids queued ≡ all_token_ids victim ++ victim.output_ids
  pub counted_twice :
      num_prompt queued + num_output queued ≡ num_prompt victim + 2 * num_output victim
  pub early :
      (m : ℕ) (eos_id : Option ℕ)
      → victim.max_len ≡ some m
      → m ≤ num_prompt victim + 2 * num_output victim
      → finish_reason queued eos_id ≡ some Reason.length_limit

-- The unfinished sequence that `_preempt_one` puts back has the fewest output tokens of those that
-- run; it is last in the queue, without a slot, and has its output at the end of its prompt and
-- still as its output: its context repeats the output, the output counts twice against the window,
-- and it ends with `length` at the window if the output counted twice fills it.
pub preempt_one-Requeued :
    (C : KvCache) (s : Scheduler C) (first : Sequence) (others : List Sequence)
    → s.running ≡ first ∷ others
    → is_finished (take_fewest first others).0 s.eos_id ≡ false
    → (end : Scheduler C) × (preempt_one C s ≡ some end)
      × Requeued s.waiting s.running (take_fewest first others).0 end.waiting
unfolding preempt_one restart drop_carry finish_reason
preempt_one-Requeued C s first others e on =
    let (victim, rest) = take_fewest first others in
    (
      record s {
        running = rest;
        cache = free_slot_of C victim s.cache;
        waiting = s.waiting ++ (restart victim ∷ []);
      },
      rw (preempt_one, e, on) refl,
      record {
        queued = restart victim;
        last = refl;
        same_id = refl;
        no_slot = refl;
        output_ids = refl;
        fewest =
            subst (All (λ t. num_output victim ≤ num_output t)) (sym e)
              (take_fewest-fewest (num_output victim) first others (omega arith));
        repeated = refl;
        counted_twice = omega (arith, length-append victim.prompt_ids victim.output_ids);
        early = λ m eos window full.
            grind (arith, window, full, length-append victim.prompt_ids victim.output_ids);
      },
    )
