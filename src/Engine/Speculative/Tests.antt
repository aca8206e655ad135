-- ===== src/Engine/Speculative/Tests.antt =====
-- engine/model_runner.py: runs of the speculative step, and examples of its theorems.
use superl8_serve.Prelude.{ℕ, ◌%◌, ◌≡◌, refl, inl, false, some, List, [], ◌∷◌, length, arith}
use superl8_serve.Engine.Sequence.{Sequence, new, is_finished, finish_reason}
use superl8_serve.Engine.Drafters.{cascade_draft, propose, sweep}
use superl8_serve.Engine.Speculative.{
  Runner, ngram_mode, commit, commit_row, base_token, accepted_drafts, compute_drafts, matching,
  truncate_emit,
}
use superl8_serve.Engine.Speculative.Greedy.{Decodes}
use superl8_serve.Engine.Speculative.Batch.{Rows, Ready, speculate, spec_decode-Decodes}

-- A model that counts to two and starts again.
abbrev counting : List ℕ → ℕ
counting tokens = length tokens % 3

abbrev no_head : Sequence → ℕ → List ℕ
no_head s base = []

abbrev runner : Runner
runner = record {
  drafter_mode = ngram_mode;
  ngram = some (record { min_n = 1; max_n = 3; max_k = 8 });
  spec_k = 3;
  eos_id = some 9;
}

abbrev request : List ℕ → Sequence
request prompt = record (new 1 prompt (record { max_tokens = 5; ignore_eos = false })) {
  max_len = some 30;
}

abbrev repeating : Sequence
repeating = request (0 ∷ 1 ∷ 2 ∷ 0 ∷ 1 ∷ 2 ∷ [])

-- The base token and three drafts, one of which is cut by the budget where it is three.
commit_row-repeating :
    (commit_row counting no_head runner repeating).output_ids ≡ 0 ∷ 1 ∷ 2 ∷ 0 ∷ []
unfolding commit_row commit accepted_drafts compute_drafts base_token matching truncate_emit
    cascade_draft propose sweep is_finished finish_reason
commit_row-repeating = refl

repeating-Ready : Ready counting no_head runner repeating
unfolding accepted_drafts compute_drafts base_token matching cascade_draft propose sweep is_finished
    finish_reason
repeating-Ready = record { running = refl; carries = inl refl; room = omega arith }

spec_decode-Decodes_example :
    Rows
      (Decodes counting (some 9))
      (repeating ∷ [])
      (speculate counting no_head runner (repeating ∷ []))
spec_decode-Decodes_example =
    spec_decode-Decodes counting no_head runner (repeating ∷ []) (repeating-Ready, tt)
