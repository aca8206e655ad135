-- ===== src/Engine/Speculative/Batch.antt =====
-- engine/model_runner.py: a speculative step on a batch, whose tokens the engine appends on a miss.
use superl8_serve.Prelude.{
  ℕ, suc, ◌+◌, ◌≤◌, ◌≡◌, inl, inr, false, some, List, [], ◌∷◌, map, length, Bool-cases, All, arith,
}
use superl8_serve.Engine.Sequence.{Sequence, num_prompt, num_output, is_finished}
use superl8_serve.Engine.Speculative.{
  Runner, commit_row, commit_base, base_token, accepted_drafts, any_drafts, spec_decode,
  append_tokens, draft_bucket, bucket_of, verify_widths,
}
use superl8_serve.Engine.Speculative.Accept.{Room}
use superl8_serve.Engine.Speculative.Greedy.{
  Decodes, CarriesNext, commit_row-Decodes, commit_base-Decodes,
}

pub data Rows (R : Sequence → Sequence → Type 0) : List Sequence → List Sequence → Type 0 where
  done : Rows R [] []
  row :
      {s s' : Sequence} {batch batch' : List Sequence}
      → R s s'
      → Rows R batch batch'
      → Rows R (s ∷ batch) (s' ∷ batch')

module _ (greedy : List ℕ → ℕ) (mtp : Sequence → ℕ → List ℕ) (r : Runner) where
  -- A row that a speculative step may serve: it runs, its carried token is the model's, and its
  -- window has room for the base token and the drafts that are accepted.
  pub record Ready (s : Sequence) : Type 0 where
    pub running : is_finished s r.eos_id ≡ false
    pub carries : CarriesNext greedy s
    pub room :
        Room s.max_len (num_prompt s + num_output s + suc (length (accepted_drafts greedy mtp r s)))

  commit_row-Rows :
      (batch : List Sequence)
      → All Ready batch
      → Rows (Decodes greedy r.eos_id) batch (map (commit_row greedy mtp r) batch)
  commit_row-Rows [] ready = done
  commit_row-Rows (s ∷ batch) (first, ready) =
      row (commit_row-Decodes greedy mtp r s first.running first.carries first.room)
        (commit_row-Rows batch ready)

  commit_base-Rows :
      (batch : List Sequence)
      → All Ready batch
      → Rows (Decodes greedy r.eos_id) batch (
          append_tokens
            (map (commit_base greedy mtp r) batch)
            (some (map (base_token greedy mtp r) batch)))
  commit_base-Rows [] ready = done
  commit_base-Rows (s ∷ batch) (first, ready) =
      row (commit_base-Decodes greedy mtp r s first.running first.carries)
        (commit_base-Rows batch ready)

  abbrev pub speculate : List Sequence → List Sequence
  speculate batch = let (rows, tokens) = spec_decode greedy mtp r batch in append_tokens rows tokens

  -- Where every row of the batch runs, carries no token or the model's next one, and its window has
  -- room for the accepted tokens, a speculative step and the engine's appending of what it returns
  -- give every row one or more tokens of plain greedy decoding, none after the row was finished, and
  -- again no carried token or the model's next one.
  pub spec_decode-Decodes :
      (batch : List Sequence)
      → All Ready batch
      → Rows (Decodes greedy r.eos_id) batch (speculate batch)
  unfolding spec_decode
  spec_decode-Decodes batch ready = elim (Bool-cases (any_drafts greedy mtp r batch)) [
    | inl some_draft ↦ rw some_draft (commit_row-Rows batch ready)
    | inr no_draft ↦ rw no_draft (commit_base-Rows batch ready)
  ]

bucket_of-fits : (k n : ℕ) (widths : List ℕ) → n ≤ k → n ≤ bucket_of k n widths
unfolding bucket_of
bucket_of-fits k n [] small = small
bucket_of-fits k n (b ∷ widths) small = ground (arith, bucket_of-fits k n widths small)

bucket_of-capped : (k n : ℕ) (widths : List ℕ) → bucket_of k n widths ≤ k
unfolding bucket_of
bucket_of-capped k n [] = omega arith
bucket_of-capped k n (b ∷ widths) = ground (arith, bucket_of-capped k n widths)

-- A step of at most `spec_k` drafts gets a width that holds them, and none beyond `spec_k`; a longer
-- one is given no less than it had.
pub draft_bucket-fits :
    (r : Runner) (n : ℕ) → n ≤ r.spec_k → (n ≤ draft_bucket r n) × (draft_bucket r n ≤ r.spec_k)
unfolding draft_bucket
draft_bucket-fits r n small =
    (bucket_of-fits r.spec_k n verify_widths small, bucket_of-capped r.spec_k n verify_widths)
