-- ===== src/Engine/Loop/Tests.antt =====
-- engine/llm_engine.py: an engine over the latent cache with a small model, and the theorems there.
use superl8_serve.Prelude.{
  ℕ, ◌+◌, ◌%◌, ◌≤◌, ◌<◌, ◌≡◌, refl, List, [], ◌∷◌, Option, some, none, true, false, not, ◌==◌,
  arith, length, map, filter, count, ◌⊎◌,
}
use superl8_serve.Engine.Sequence.{Sequence, Params, new, all_token_ids, is_finished, finish_reason}
use superl8_serve.Engine.Cache.Latent.{
  latent_cache, alloc, free, has_free_slot, has_free_block, lookup_prefix, share_blocks,
  store_prefix,
}
use superl8_serve.Engine.Scheduler.{
  add, has_work, schedule, schedule_loop, pass, result, admit, admit_one, has_room, over_budget,
  block_pressure, postprocess, sweep, free_slot_of,
}
use superl8_serve.Engine.Scheduler.Schedule.{ids, IsValid}
use superl8_serve.Engine.Loop.{
  ModelRunner, Engine, turn, serve, step, after_serve, store_all, add_request, add_requests, run,
  outputs, sequence, generate, encode, forget, cancel_request,
}
use superl8_serve.Engine.Loop.Requests.{
  Added, IsFresh, Forgotten, add_request-Adds, cancel_request-Forgets,
}

-- A model that says how many tokens it has read, up to six.
abbrev next_token : Sequence → ℕ
next_token s = length (all_token_ids s) % 7

abbrev read : Sequence → Sequence
read s = record s { length = length (all_token_ids s) }

-- The runner keeps the slots that it has not cleared.
abbrev runner : ModelRunner latent_cache
runner = record {
  Pooled = ℕ;
  State = List ℕ;
  clear_state = λ slot u. filter (λ t. not (t == slot)) u;
  prefill = λ c u batch. some (c, (u, (map read batch, map next_token batch)));
  decode = λ c u batch. some (c, (u, (map read batch, some (map next_token batch))));
  encode = λ c u batch. some (c, (u, (length batch, [])));
}

abbrev engine : Engine latent_cache runner
engine = record {
  scheduler = record {
    cache = record { num_slots = 2; free_slots = 1 ∷ 0 ∷ [] };
    max_num_seqs = 2;
    max_batch_tokens = 8;
    eos_id = some 6;
    waiting = [];
    running = [];
  };
  runner = [];
  max_len = some 9;
  next_id = 5;
  out = [];
}

abbrev params : Params
params = record { max_tokens = 3; ignore_eos = false }

abbrev texts_of : Option (Engine latent_cache runner × List (List ℕ)) → Option (List (List ℕ))
texts_of none = none
texts_of (some (e, texts)) = some texts

abbrev prompts : List (List ℕ)
prompts = (1 ∷ 2 ∷ []) ∷ (1 ∷ 2 ∷ 3 ∷ 4 ∷ 5 ∷ []) ∷ (1 ∷ []) ∷ []

-- Each prompt gets its tokens, until the limit or the end of its sequence.
generate_value :
    texts_of (generate latent_cache runner 12 prompts params engine)
    ≡ some ((2 ∷ 3 ∷ 4 ∷ []) ∷ (5 ∷ 6 ∷ []) ∷ (1 ∷ 2 ∷ 3 ∷ []) ∷ [])
unfolding generate add_requests add_request run step turn serve outputs sequence add schedule
    schedule_loop pass result admit admit_one has_room over_budget block_pressure after_serve
    store_all postprocess sweep free_slot_of forget is_finished finish_reason alloc free
    has_free_slot has_free_block lookup_prefix share_blocks store_prefix has_work
generate_value = refl

-- One request that has its first token.
abbrev busy : Engine latent_cache runner
busy = record engine {
  scheduler = record engine.scheduler {
    cache = record { num_slots = 2; free_slots = 0 ∷ [] };
    running = record (new 4 (1 ∷ 2 ∷ []) params) { slot = some 1; output_ids = 2 ∷ [] } ∷ [];
    waiting = new 5 (1 ∷ []) params ∷ [];
  };
  runner = 0 ∷ 1 ∷ [];
  next_id = 6;
  out =
      record (new 4 (1 ∷ 2 ∷ []) params) { slot = some 1; output_ids = 2 ∷ [] }
      ∷ new 5 (1 ∷ []) params
      ∷ [];
}

busy-IsValid : IsValid latent_cache busy.scheduler
busy-IsValid = record {
  accounts = record { valid = tt; placed = λ a. ground arith };
  slots = ((1, refl), tt);
  capped = omega arith;
}

busy-IsFresh : IsFresh latent_cache runner busy
busy-IsFresh = record {
  known = (omega arith, (omega arith, tt));
  waits = (omega arith, tt);
  runs = (omega arith, tt);
}

-- The cancelled request runs in slot 1, which the runner clears.
cancel_request-Forgets_example :
    (((cancel_request latent_cache runner 4 busy).1 ≡ true)
      × Forgotten latent_cache runner 4 busy (cancel_request latent_cache runner 4 busy).0)
    ⊎ ((cancel_request latent_cache runner 4 busy ≡ (busy, false))
        × ((sequence latent_cache runner 4 busy ≡ none)
            ⊎ (count 4 (ids busy.scheduler.waiting) + count 4 (ids busy.scheduler.running) ≡ 0)))
cancel_request-Forgets_example = cancel_request-Forgets latent_cache runner 4 busy busy-IsValid

add_request-Adds_example :
    ((limit : ℕ) × (busy.max_len ≡ some limit)
      × (limit < 2)
      × (add_request latent_cache runner (1 ∷ 2 ∷ []) params busy ≡ none))
    ⊎ (((limit : ℕ) → busy.max_len ≡ some limit → 2 ≤ limit)
        × ((end : Engine latent_cache runner) × (i : ℕ) × (seq : Sequence) × (add_request
                latent_cache runner
                (1 ∷ 2 ∷ [])
                params
                busy
              ≡ some (end, i))
            × Added latent_cache runner (1 ∷ 2 ∷ []) busy end i seq))
add_request-Adds_example =
    add_request-Adds latent_cache runner (1 ∷ 2 ∷ []) params busy busy-IsFresh

-- After an embedding the request still runs, and its slot is not free.
abbrev running_after : Option (Engine latent_cache runner × Option ℕ) → List ℕ × List ℕ
running_after none = ([], [])
running_after (some (e, pooled)) =
    (map (λ s. s.seq_id) e.scheduler.running, e.scheduler.cache.free_slots)

encode_runs_on :
    running_after (encode latent_cache runner (1 ∷ 2 ∷ []) params engine) ≡ (5 ∷ [], 0 ∷ [])
unfolding encode add_request add schedule schedule_loop pass result admit admit_one has_room
    over_budget block_pressure after_serve store_all postprocess sweep free_slot_of forget
    is_finished finish_reason alloc has_free_slot has_free_block lookup_prefix share_blocks
    store_prefix
encode_runs_on = refl
