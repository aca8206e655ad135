-- ===== src/Engine/Speculative.antt =====
-- The host side of speculative decoding, engine/model_runner.py, for rows without a grammar.
-- The target model is `greedy`, the arg-max token after a list of tokens, and the MTP head is
-- `mtp`, the draft that it returns; both read the tokens so far, as their K/V stand for them. The
-- tensors, the telemetry and the draft head's own cache are left out.
pub mod Accept
pub mod Greedy
pub mod Batch
pub mod Tests
use superl8_serve.Prelude.{
  ℕ, zero, suc, ◌+◌, ◌-◌, max, List, [], ◌∷◌, ◌++◌, map, Option, none, some, Bool, true, false,
  ◌&&◌, ◌||◌, not, if◌then◌else◌, ◌==◌, ltb, leb, length, take,
}
use superl8_serve.Engine.Sequence.{Sequence, Params, all_token_ids, num_output, is_finished}
use superl8_serve.Engine.Drafters.{NgramDrafter, cascade_draft, could_match_after}

pub data DrafterMode : Type 0 where
  mtp_mode grammar_mode ngram_mode cascade_mode : DrafterMode

pub record Runner : Type 0 where
  pub drafter_mode : DrafterMode
  pub ngram : Option NgramDrafter
  pub spec_k : ℕ
  pub eos_id : Option ℕ

-- `_draft_bucket`: the first of the widths below `spec_k` that `n` fits in, or `spec_k`.
unfoldable pub bucket_of : ℕ → ℕ → List ℕ → ℕ
bucket_of spec_k n [] = spec_k
bucket_of spec_k n (b ∷ widths) =
    let next = bucket_of spec_k n widths in
    if leb spec_k b then spec_k else if leb n b then b else next

abbrev pub verify_widths : List ℕ
verify_widths = 1 ∷ 2 ∷ 4 ∷ 8 ∷ 16 ∷ 32 ∷ []

unfoldable pub draft_bucket : Runner → ℕ → ℕ
unfolding bucket_of
draft_bucket r n = bucket_of r.spec_k n verify_widths

-- `emit[: i + 1]` at the first token that is `eos`.
abbrev pub up_to : ℕ → List ℕ → List ℕ
up_to eos [] = []
up_to eos (t ∷ emit) = if t == eos then t ∷ [] else t ∷ up_to eos emit

abbrev pub stop_at_eos : Option ℕ → Bool → List ℕ → List ℕ
stop_at_eos none ignore emit = emit
stop_at_eos (some eos) ignore emit = if ignore then emit else up_to eos emit

-- `remaining` may be negative in the source; here it stops at 0, and at least one token is kept.
unfoldable pub truncate_emit : Runner → Sequence → List ℕ → List ℕ
truncate_emit r seq emit =
    let remaining = seq.params.max_tokens - num_output seq in
    stop_at_eos r.eos_id seq.params.ignore_eos
      (if ltb remaining (length emit) then take (max 1 remaining) emit else emit)

-- The drafts that agree with the model, while they do: `context` ends with the token before them.
unfoldable pub matching : (List ℕ → ℕ) → List ℕ → List ℕ → List ℕ
matching greedy context [] = []
matching greedy context (d ∷ drafts) =
    let rest = matching greedy (context ++ (d ∷ [])) drafts in
    if d == greedy context then d ∷ rest else []

abbrev pub any_match : NgramDrafter → List Sequence → Bool
any_match d [] = false
any_match d (seq ∷ batch) = could_match_after d (all_token_ids seq) || any_match d batch

-- `_spec_decode_allowed` for text rows of a model without recurrent layers: a drafter, and where
-- the n-gram drafter is the only one, some row that it could draft for. `greedy_rows` says that
-- every row has temperature 0 and no repetition penalty.
unfoldable pub spec_decode_allowed : Runner → Bool → Bool → List Sequence → Bool
spec_decode_allowed r has_mtp greedy_rows batch = elim r.ngram [
  | none ↦ has_mtp && greedy_rows
  | some d ↦ greedy_rows && (has_mtp || any_match d batch)
]

-- Part 4 for one row: the surviving tokens are appended, and the next base token is carried unless
-- the row was cut or is finished.
unfoldable pub commit : Runner → Sequence → List ℕ → ℕ → Sequence
unfolding truncate_emit
commit r seq accepted next_base_tok =
    let emit = truncate_emit r seq accepted in
    let after : Sequence = record seq {
      output_ids = seq.output_ids ++ emit;
      length = seq.length + length emit;
    } in
    record after {
      spec_base_tok =
          if ltb (length emit) (length accepted) || is_finished after r.eos_id
          then none
          else some next_base_tok;
    }

module _ (greedy : List ℕ → ℕ) (mtp : Sequence → ℕ → List ℕ) (r : Runner) where
  -- The token that a row verifies first: carried from its last step, or one more base forward.
  unfoldable pub base_token : Sequence → ℕ
  base_token seq = elim seq.spec_base_tok [ some t ↦ t | none ↦ greedy (all_token_ids seq) ]

  unfoldable pub compute_drafts : Sequence → List ℕ
  unfolding base_token
  compute_drafts seq =
      let base = base_token seq in
      let tokens = all_token_ids seq ++ (base ∷ []) in
      elim r.drafter_mode [
        | grammar_mode ↦ cascade_draft none none none tokens r.spec_k
        | ngram_mode ↦ cascade_draft none r.ngram none tokens r.spec_k
        | mtp_mode ↦ cascade_draft none r.ngram (some (mtp seq base)) tokens r.spec_k
        | cascade_mode ↦ cascade_draft none r.ngram (some (mtp seq base)) tokens r.spec_k
      ]

  -- What follows the base token in the tokens that a row emits, before it is cut.
  unfoldable pub accepted_drafts : Sequence → List ℕ
  unfolding matching base_token compute_drafts
  accepted_drafts seq =
      matching greedy (all_token_ids seq ++ (base_token seq ∷ [])) (compute_drafts seq)

  unfoldable pub commit_row : Sequence → Sequence
  unfolding accepted_drafts base_token
  commit_row seq =
      let accepted = base_token seq ∷ accepted_drafts seq in
      commit r seq accepted (greedy (all_token_ids seq ++ accepted))

  -- A step in which no row has a draft: the base tokens are returned, and the engine appends them.
  unfoldable pub commit_base : Sequence → Sequence
  commit_base seq = record seq { length = seq.length + 1; spec_base_tok = none }

  abbrev pub any_drafts : List Sequence → Bool
  any_drafts [] = false
  any_drafts (seq ∷ batch) = leb 1 (length (compute_drafts seq)) || any_drafts batch

  -- The batch as the step leaves it, and the tokens that it returns, `none` where it appended them.
  unfoldable pub spec_decode : List Sequence → List Sequence × Option (List ℕ)
  unfolding commit_row commit_base base_token
  spec_decode batch =
      if any_drafts batch
      then (map commit_row batch, none)
      else (map commit_base batch, some (map base_token batch))

-- What the engine does with the tokens that a runner returns: `None` leaves the batch as it is.
abbrev pub append_token : Sequence → ℕ → Sequence
append_token seq tok = record seq { output_ids = seq.output_ids ++ (tok ∷ []) }

abbrev pub append_tokens : List Sequence → Option (List ℕ) → List Sequence
append_tokens batch none = batch
append_tokens [] (some toks) = []
append_tokens (seq ∷ batch) (some []) = seq ∷ batch
append_tokens (seq ∷ batch) (some (t ∷ toks)) = append_token seq t ∷ append_tokens batch (some toks)
