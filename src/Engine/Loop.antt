-- ===== src/Engine/Loop.antt =====
-- engine/llm_engine.py: the requests of LLMEngine and its loop over the scheduler, without the
-- diffusion decoder and the statistics. The model runner is a parameter, whose `State` is what it keeps
-- for the slots (`lin_cache` and `mtp_cache`); `none` is an error that is raised.
pub mod Requests
pub mod Tests
use superl8_serve.Prelude.{
  ℕ, zero, suc, ◌+◌, List, [], ◌∷◌, ◌++◌, Option, some, none, Bool, true, false, not, if◌then◌else◌,
  ◌==◌, ltb, length, filter, map,
}
use superl8_serve.Engine.Cache.{KvCache}
use superl8_serve.Engine.Sequence.{Sequence, Params, Status, new}
use superl8_serve.Engine.Speculative.{append_tokens}
use superl8_serve.Engine.Scheduler.{Scheduler, add, has_work, cancel, schedule, postprocess}

-- The Sequence objects of a batch are changed in place: a call returns them as it leaves them.
pub record ModelRunner (C : KvCache) : Type 1 where
  pub Pooled : Type 0
  pub State : Type 0
  pub clear_state : ℕ → State → State
  pub prefill :
      C.State → State → List Sequence → Option (C.State × (State × (List Sequence × List ℕ)))
  pub decode :
      C.State
      → State
      → List Sequence
      → Option (C.State × (State × (List Sequence × Option (List ℕ))))
  pub encode : C.State → State → List Sequence → Option (C.State × (State × (Pooled × List Pooled)))

-- `_out`, in the order in which its keys were added, with the objects as they are now.
abbrev pub find_out : ℕ → List Sequence → Option Sequence
find_out seq_id [] = none
find_out seq_id (s ∷ ss) = if s.seq_id == seq_id then some s else find_out seq_id ss

abbrev pub now : List Sequence → Sequence → Sequence
now live s = elim (find_out s.seq_id live) [ none ↦ s | some t ↦ t ]

abbrev pub over_length : Option ℕ → ℕ → Bool
over_length none n = false
over_length (some max_len) n = ltb max_len n

abbrev pub mark_finished : Sequence → Sequence
mark_finished s = record s { status = Status.finished }

module _ (C : KvCache) (R : ModelRunner C) where
  -- `self.cache.store_prefix(seq.prompt_ids, seq.slot)` for each row of the batch.
  unfoldable pub store_all : List Sequence → C.State → C.State
  store_all [] c = c
  store_all (seq ∷ batch) c =
      store_all batch
        (elim seq.slot [ none ↦ c | some slot ↦ C.store_prefix seq.prompt_ids slot c ])

  -- The runner's part of a step: the cache, the runner, and the batch with its new tokens.
  unfoldable pub serve :
      Bool → C.State → R.State → List Sequence → Option (C.State × (R.State × List Sequence))
  unfolding store_all
  serve true c u batch = elim (R.prefill c u batch) [
    | none ↦ none
    | some (d, (v, (rows, toks))) ↦
        let served = append_tokens rows (some toks) in some (store_all served d, (v, served))
  ]
  serve false c u batch = elim (R.decode c u batch) [
    | none ↦ none
    | some (d, (v, (rows, toks))) ↦ some (d, (v, append_tokens rows toks))
  ]

  -- A batch to decode is the list of the running sequences, which are the objects that were served.
  unfoldable pub after_serve : Bool → C.State → List Sequence → Scheduler C → Scheduler C
  after_serve is_prefill c served s =
      postprocess C served is_prefill
        (record s { cache = c; running = if is_prefill then s.running else served })

  -- The scheduler, the runner, and the objects that the runner has changed.
  unfoldable pub turn : Scheduler C → R.State → Option (Scheduler C × (R.State × List Sequence))
  unfolding serve after_serve
  turn s u = elim (schedule C s) [
    | none ↦ none
    | some (t, ([], is_prefill)) ↦ some (t, (u, []))
    | some (t, (first ∷ batch, is_prefill)) ↦ elim (serve is_prefill t.cache u (first ∷ batch)) [
      | none ↦ none
      | some (c, (v, served)) ↦ some (after_serve is_prefill c served t, (v, served))
    ]
  ]

  pub record Engine : Type 0 where
    pub scheduler : Scheduler C
    pub runner : R.State
    pub max_len : Option ℕ
    pub next_id : ℕ
    pub out : List Sequence

  unfoldable pub add_request : List ℕ → Params → Engine → Option (Engine × ℕ)
  add_request prompt_ids params e =
      if over_length e.max_len (length prompt_ids)
      then none
      else let seq : Sequence = record (new e.next_id prompt_ids params) { max_len = e.max_len } in
        some (
          record e {
            scheduler = add C seq e.scheduler;
            next_id = e.next_id + 1;
            out = e.out ++ (seq ∷ []);
          },
          e.next_id,
        )

  unfoldable pub sequence : ℕ → Engine → Option Sequence
  sequence seq_id e = find_out seq_id e.out

  unfoldable pub forget : ℕ → Engine → Engine
  forget seq_id e = record e { out = filter (λ s. not (s.seq_id == seq_id)) e.out }

  abbrev pub clear_slot_of : Option ℕ → R.State → R.State
  clear_slot_of none u = u
  clear_slot_of (some slot) u = R.clear_state slot u

  unfoldable pub cancel_request : ℕ → Engine → Engine × Bool
  unfolding forget
  cancel_request seq_id e = elim (find_out seq_id e.out) [
    | none ↦ (e, false)
    | some seq ↦
        let (s, gone) = cancel C seq_id e.scheduler in
        elim gone [
          | none ↦ (e, false)
          | some x ↦ (
            forget seq_id (record e { scheduler = s; runner = clear_slot_of seq.slot e.runner }),
            true,
          )
        ]
  ]

  -- The objects are refreshed from those that were served and those that the queues hold.
  unfoldable pub step : Engine → Option Engine
  unfolding turn
  step e = elim (turn e.scheduler e.runner) [
    | none ↦ none
    | some (s, (u, served)) ↦ some (record e {
      scheduler = s;
      runner = u;
      out = map (now (served ++ (s.running ++ s.waiting))) e.out;
    })
  ]

  -- The `while` of `generate`, with at most `fuel` rounds; `none` where they are not enough.
  unfoldable pub run : ℕ → Engine → Option Engine
  unfolding step
  run zero e = if has_work C e.scheduler then none else some e
  run (suc fuel) e =
      if has_work C e.scheduler
      then elim (step e) [ none ↦ none | some e' ↦ run fuel e' ]
      else some e

  unfoldable pub add_requests : List (List ℕ) → Params → Engine → Option (Engine × List ℕ)
  unfolding add_request
  add_requests [] params e = some (e, [])
  add_requests (p ∷ prompts) params e = elim (add_request p params e) [
    | none ↦ none
    | some (e', i) ↦ elim (add_requests prompts params e') [
      | none ↦ none
      | some (end, ids) ↦ some (end, i ∷ ids)
    ]
  ]

  unfoldable pub outputs : List ℕ → Engine → Option (List (List ℕ))
  unfolding sequence
  outputs [] e = some []
  outputs (i ∷ ids) e = elim (sequence i e) [
    | none ↦ none
    | some s ↦ elim (outputs ids e) [ none ↦ none | some later ↦ some (s.output_ids ∷ later) ]
  ]

  abbrev pub forget_all : List ℕ → Engine → Engine
  forget_all [] e = e
  forget_all (i ∷ ids) e = forget_all ids (forget i e)

  unfoldable pub generate : ℕ → List (List ℕ) → Params → Engine → Option (Engine × List (List ℕ))
  unfolding add_requests run outputs
  generate fuel prompts params e = elim (add_requests prompts params e) [
    | none ↦ none
    | some (started, ids) ↦ elim (run fuel started) [
      | none ↦ none
      | some end ↦ elim (outputs ids end) [
        | none ↦ none
        | some texts ↦ some (forget_all ids end, texts)
      ]
    ]
  ]

  -- The embedding of a prompt, or nothing where the scheduler has no batch.
  unfoldable pub encode : List ℕ → Params → Engine → Option (Engine × Option R.Pooled)
  unfolding add_request store_all forget
  encode prompt_ids params e = elim (add_request prompt_ids params e) [
    | none ↦ none
    | some (e', seq_id) ↦ elim (schedule C e'.scheduler) [
      | none ↦ none
      | some (t, ([], is_prefill)) ↦ some (forget seq_id (record e' { scheduler = t }), none)
      | some (t, (first ∷ batch, is_prefill)) ↦ elim (R.encode t.cache e'.runner (first ∷ batch)) [
        | none ↦ none
        | some (c, (u, (pooled, others))) ↦
            let marked = map mark_finished (first ∷ batch) in
            let end = after_serve is_prefill (store_all (first ∷ batch) c) marked t in
            some (
              forget seq_id (record e' {
                scheduler = end;
                runner = u;
                out = map (now (marked ++ (end.running ++ end.waiting))) e'.out;
              }),
              some pooled,
            )
      ]
    ]
  ]
