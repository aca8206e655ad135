-- ===== src/Engine/Scheduler.antt =====
-- engine/scheduler.py, over any cache that keeps the laws of Engine/Cache. `none` is the error that
-- `alloc` or `min` raises.
pub mod Books
pub mod Schedule
pub mod Finish
pub mod Preempt
pub mod Tests
use superl8_serve.Prelude.{
  ℕ, zero, suc, ◌+◌, List, [], ◌∷◌, ◌++◌, Option, some, none, Bool, true, false, ◌&&◌, not,
  if◌then◌else◌, ◌==◌, ltb, leb, length,
}
use superl8_serve.Engine.Cache.{KvCache}
use superl8_serve.Engine.Sequence.{
  Sequence, Status, all_token_ids, num_prompt, num_output, is_finished,
}

-- The truth value of a list.
abbrev pub nonempty {ℓ} : {A : Type ℓ} → List A → Bool
nonempty [] = false
nonempty (x ∷ xs) = true

-- `list.remove` of the first sequence with an id.
unfoldable pub take_id : ℕ → List Sequence → Option (Sequence × List Sequence)
take_id seq_id [] = none
take_id seq_id (s ∷ ss) =
    let later = take_id seq_id ss in
    if s.seq_id == seq_id
    then some (s, ss)
    else elim later [ none ↦ none | some (t, rest) ↦ some (t, s ∷ rest) ]

-- `min(self.running, key=lambda s: len(s.output_ids))` and its removal: the first one of the least.
unfoldable pub take_fewest : Sequence → List Sequence → Sequence × List Sequence
take_fewest s [] = (s, [])
take_fewest s (t ∷ ts) =
    let (least, rest) = take_fewest t ts in
    if leb (num_output s) (num_output least) then (s, t ∷ ts) else (least, s ∷ rest)

-- The fields that name positions in the freed cache.
unfoldable pub drop_carry : Sequence → Sequence
drop_carry s = record s { slot = none; spec_base_tok = none; spec_ngram_cooldown = 0 }

unfoldable pub restart : Sequence → Sequence
unfolding drop_carry
restart s = record (drop_carry s) {
  prompt_ids = all_token_ids s;
  length = 0;
  prefix_matched_len = 0;
  status = Status.waiting;
}

module _ (C : KvCache) where
  pub record Scheduler : Type 0 where
    pub cache : C.State
    pub max_num_seqs : ℕ
    pub max_batch_tokens : ℕ
    pub eos_id : Option ℕ
    pub waiting : List Sequence
    pub running : List Sequence

  unfoldable pub add : Sequence → Scheduler → Scheduler
  add seq s = record s { waiting = s.waiting ++ (seq ∷ []) }

  unfoldable pub has_work : Scheduler → Bool
  has_work s = elim s.waiting [ _ ∷ _ ↦ true | [] ↦ nonempty s.running ]

  -- `self.cache.free(seq.slot)`. A running sequence has a slot; for one without, nothing is done.
  unfoldable pub free_slot_of : Sequence → C.State → C.State
  free_slot_of seq c = elim seq.slot [ none ↦ c | some slot ↦ C.free slot c ]

  -- With the sequence as it is left where the source returns True, `none` where it returns False.
  unfoldable pub cancel : ℕ → Scheduler → Scheduler × Option Sequence
  unfolding take_id free_slot_of drop_carry
  cancel seq_id s = elim (take_id seq_id s.waiting) [
    | some (seq, rest) ↦
        (record s { waiting = rest }, some (record seq { status = Status.finished }))
    | none ↦ elim (take_id seq_id s.running) [
      | some (seq, rest) ↦ (
        record s { running = rest; cache = free_slot_of seq s.cache },
        some (drop_carry (record seq { status = Status.finished })),
      )
      | none ↦ (s, none)
    ]
  ]

  unfoldable pub preempt_one : Scheduler → Option Scheduler
  unfolding take_fewest free_slot_of restart is_finished
  preempt_one s = elim s.running [
    | [] ↦ none
    | first ∷ others ↦
        let (preempted, rest) = take_fewest first others in
        let freed : Scheduler = record s {
          running = rest;
          cache = free_slot_of preempted s.cache;
        } in
        if is_finished preempted s.eos_id
        then some freed
        else some (record freed { waiting = s.waiting ++ (restart preempted ∷ []) })
  ]

  -- A slot for a waiting sequence, with the blocks of a stored prefix.
  unfoldable pub admit_one : Sequence → C.State → Option (C.State × Sequence)
  admit_one seq c = elim (C.alloc c) [
    | none ↦ none
    | some (d, slot) ↦
        let (e, (matched, shared)) = C.lookup_prefix seq.prompt_ids d in
        if ltb 0 matched && nonempty shared
        then some (
          C.share_blocks slot shared e,
          record seq { slot = some slot; prefix_matched_len = matched; status = Status.running },
        )
        else some (e, record seq { slot = some slot; status = Status.running })
  ]

  -- What the inner `while` leaves.
  pub record Admission : Type 0 where
    pub cache : C.State
    pub waiting : List Sequence
    pub batch : List Sequence

  -- The condition of the inner `while`, but for `self.waiting`.
  unfoldable pub has_room : ℕ → ℕ → C.State → Bool
  has_room busy max_num_seqs c = ltb busy max_num_seqs && (C.has_free_slot c && C.has_free_block c)

  unfoldable pub over_budget : List Sequence → ℕ → ℕ → Sequence → Bool
  over_budget batch tokens max_batch_tokens seq =
      nonempty batch && ltb max_batch_tokens (tokens + num_prompt seq)

  unfoldable pub admit : ℕ → ℕ → ℕ → List Sequence → List Sequence → ℕ → C.State → Option Admission
  unfolding has_room over_budget admit_one
  admit running max_num_seqs max_batch_tokens [] batch tokens c =
      some (record { cache = c; waiting = []; batch = batch })
  admit running max_num_seqs max_batch_tokens (seq ∷ waiting) batch tokens c =
      elim (has_room (running + length batch) max_num_seqs c
        && not (over_budget batch tokens max_batch_tokens seq)) [
          | false ↦ some (record { cache = c; waiting = seq ∷ waiting; batch = batch })
          | true ↦ elim (admit_one seq c) [
            | none ↦ none
            | some (d, admitted) ↦
                admit running max_num_seqs max_batch_tokens waiting (batch ++ (admitted ∷ []))
                  (tokens + num_prompt seq) d
          ]
        ]

  unfoldable pub block_pressure : Scheduler → Bool
  block_pressure s =
      nonempty s.waiting
      && (nonempty s.running && (C.has_free_slot s.cache && not (C.has_free_block s.cache)))

  -- The inner `while` from the start of a round, with the batch.
  unfoldable pub pass : Scheduler → Option (Scheduler × List Sequence)
  unfolding admit
  pass s =
      elim (admit (length s.running) s.max_num_seqs s.max_batch_tokens s.waiting [] 0 s.cache) [
        | none ↦ none
        | some a ↦ some (record s { cache = a.cache; waiting = a.waiting }, a.batch)
      ]

  unfoldable pub result : Scheduler → List Sequence → Scheduler × (List Sequence × Bool)
  result s [] = (s, (s.running, false))
  result s (seq ∷ batch) = (s, (seq ∷ batch, true))

  -- The outer `while` with the preemptions that are left.
  unfoldable pub schedule_loop : ℕ → Scheduler → Option (Scheduler × (List Sequence × Bool))
  unfolding pass result block_pressure preempt_one
  schedule_loop zero s = elim (pass s) [ none ↦ none | some (t, batch) ↦ some (result t batch) ]
  schedule_loop (suc left) s = elim (pass s) [
    | none ↦ none
    | some (t, batch) ↦ elim (not (nonempty batch) && block_pressure t) [
      | false ↦ some (result t batch)
      | true ↦ elim (preempt_one t) [ none ↦ none | some u ↦ schedule_loop left u ]
    ]
  ]

  -- The batch, and whether it is to be prefilled.
  unfoldable pub schedule : Scheduler → Option (Scheduler × (List Sequence × Bool))
  unfolding schedule_loop
  schedule s = schedule_loop s.max_num_seqs s

  -- The `for` of `postprocess`: what is still running, and the cache.
  unfoldable pub sweep : Option ℕ → List Sequence → C.State → List Sequence × C.State
  unfolding free_slot_of is_finished
  sweep eos_id [] c = ([], c)
  sweep eos_id (seq ∷ running) c = elim (is_finished seq eos_id) [
    | true ↦ sweep eos_id running (free_slot_of seq c)
    | false ↦ let (still, d) = sweep eos_id running c in (seq ∷ still, d)
  ]

  unfoldable pub postprocess : List Sequence → Bool → Scheduler → Scheduler
  unfolding sweep
  postprocess batch is_prefill s =
      let (still, c) =
        sweep s.eos_id (if is_prefill then s.running ++ batch else s.running) s.cache in
      record s { running = still; cache = c }
