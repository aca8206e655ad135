-- ===== src/Engine/Scheduler/Tests.antt =====
-- A scheduler over each of the two caches, and the theorems at its states.
use superl8_serve.Prelude.{
  ℕ, ◌≤◌, ◌≡◌, refl, List, [], ◌∷◌, some, none, true, false, arith, count, filter, not, inl,
}
use superl8_serve.Kv.Pool.{Config, init}
use superl8_serve.Kv.Pool.Valid.{init-IsValid}
use superl8_serve.Engine.Cache.Paged.{paged_cache}
use superl8_serve.Engine.Cache.Latent.{latent_cache}
use superl8_serve.Engine.Sequence.{
  Sequence, Params, Status, new, repetition_token_ids, contains, all_token_ids, is_finished,
}
use superl8_serve.Engine.Sequence.History.{IsCurrent, repetition_token_ids-exact}
use superl8_serve.Engine.Scheduler.{
  Scheduler, take_fewest, preempt_one, pass, schedule, postprocess, cancel,
}
use superl8_serve.Engine.Scheduler.Schedule.{
  IsValid, HasBatch, Passes, Schedules, pass-Passes, schedule-Schedules,
}
use superl8_serve.Engine.Scheduler.Finish.{
  Cancels, postprocess-prefill, postprocess-decode, cancel-Cancels,
}
use superl8_serve.Engine.Scheduler.Preempt.{Requeued, preempt_one-Requeued}

abbrev params : Params
params = record { max_tokens = 4; ignore_eos = false }

abbrev request : ℕ → Sequence
request n = new n (1 ∷ 2 ∷ 3 ∷ []) params

abbrev config : Config
config = record {
  num_slots = 2;
  max_len = 6;
  block_size = 2;
  num_blocks = none;
  max_prefix_entries = none;
  max_prefix_blocks = none;
  max_prefix_block_fraction = none;
}

-- Three requests for two slots.
abbrev paged : Scheduler paged_cache
paged = record {
  cache = init config;
  max_num_seqs = 2;
  max_batch_tokens = 6;
  eos_id = some 9;
  waiting = request 0 ∷ request 1 ∷ request 2 ∷ [];
  running = [];
}

paged-IsValid : IsValid paged_cache paged
unfolding init
paged-IsValid = record {
  accounts = record { valid = init-IsValid config (omega arith); placed = λ a. ground arith };
  slots = tt;
  capped = omega arith;
}

pass-Passes_example : Passes paged_cache paged (pass paged_cache paged)
pass-Passes_example = pass-Passes paged_cache paged paged-IsValid

schedule-Schedules_example : Schedules paged_cache (schedule paged_cache paged)
schedule-Schedules_example = schedule-Schedules paged_cache paged paged-IsValid

-- Both slots given out; the second sequence has its last token.
abbrev first : Sequence
first = record (request 0) { slot = some 1; status = Status.running; output_ids = 7 ∷ [] }

abbrev second : Sequence
second = record (request 1) {
  slot = some 0;
  status = Status.running;
  output_ids = 7 ∷ 9 ∷ [];
  max_len = some 6;
}

abbrev latent : List Sequence → Scheduler latent_cache
latent running = record {
  cache = record { num_slots = 2; free_slots = [] };
  max_num_seqs = 2;
  max_batch_tokens = 6;
  eos_id = some 9;
  waiting = request 2 ∷ [];
  running = running;
}

latent-IsValid : IsValid latent_cache (latent (first ∷ second ∷ []))
latent-IsValid = record {
  accounts = record { valid = tt; placed = λ a. ground arith };
  slots = ((1, refl), ((0, refl), tt));
  capped = omega arith;
}

latent-HasBatch : HasBatch latent_cache (latent (first ∷ [])) (second ∷ [])
latent-HasBatch = record {
  accounts = record { valid = tt; placed = λ a. ground arith };
  slots = ((0, refl), tt);
  running_slots = ((1, refl), tt);
  capped = omega arith;
  budget = inl (omega arith);
}

postprocess-prefill_example :
    IsValid latent_cache (postprocess latent_cache (second ∷ []) true (latent (first ∷ [])))
    × ((postprocess latent_cache (second ∷ []) true (latent (first ∷ []))).running
        ≡ filter (λ x. not (is_finished x (some 9))) (first ∷ second ∷ []))
postprocess-prefill_example =
    postprocess-prefill latent_cache (second ∷ []) (latent (first ∷ [])) latent-HasBatch

postprocess-decode_example :
    IsValid latent_cache (postprocess latent_cache [] false (latent (first ∷ second ∷ [])))
    × ((postprocess latent_cache [] false (latent (first ∷ second ∷ []))).running
        ≡ filter (λ x. not (is_finished x (some 9))) (first ∷ second ∷ []))
postprocess-decode_example =
    postprocess-decode latent_cache [] (latent (first ∷ second ∷ [])) latent-IsValid

cancel-Cancels_example :
    Cancels latent_cache 1
      (latent (first ∷ second ∷ []))
      (cancel latent_cache 1 (latent (first ∷ second ∷ [])))
cancel-Cancels_example = cancel-Cancels latent_cache 1 (latent (first ∷ second ∷ [])) latent-IsValid

preempt_one-Requeued_example :
    (end : Scheduler latent_cache) × (preempt_one latent_cache (latent (first ∷ second ∷ []))
      ≡ some end)
    × Requeued
        (request 2 ∷ [])
        (first ∷ second ∷ [])
        (take_fewest first (second ∷ [])).0
        end.waiting
unfolding take_fewest is_finished superl8_serve.Engine.Sequence.finish_reason
preempt_one-Requeued_example =
    preempt_one-Requeued latent_cache (latent (first ∷ second ∷ [])) first (second ∷ []) refl refl

repetition_token_ids-exact_example :
    ((a : ℕ) → contains a (repetition_token_ids second).1 ≡ contains a (all_token_ids second))
    × ((a : ℕ) → count a (repetition_token_ids second).1 ≤ 1)
    × IsCurrent (repetition_token_ids second).0
repetition_token_ids-exact_example =
    repetition_token_ids-exact second (λ h. record { same = λ a. refl; once = λ a. omega arith })
