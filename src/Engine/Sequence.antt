-- ===== src/Engine/Sequence.antt =====
-- engine/sequence.py. Token ids are numbers; the sampling parameters that only the kernels read, the
-- images and the hidden states carried between speculative steps are left out.
pub mod History
use superl8_serve.Prelude.{
  ℕ, zero, suc, ◌+◌, ◌-◌, List, [], ◌∷◌, ◌++◌, Option, none, some, Bool, true, false, ◌&&◌, ◌||◌,
  not, if◌then◌else◌, ◌==◌, leb, ltb, length, take, drop,
}

pub data Status : Type 0 where
  waiting running finished : Status

pub data Reason : Type 0 where
  length_limit stop : Reason

pub record Params : Type 0 where
  pub max_tokens : ℕ
  pub ignore_eos : Bool

-- `slot` is `none` where the source has -1.
pub record Sequence : Type 0 where
  pub seq_id : ℕ
  pub prompt_ids : List ℕ
  pub params : Params
  pub status : Status
  pub slot : Option ℕ
  pub output_ids : List ℕ
  pub length : ℕ
  pub prefix_matched_len : ℕ
  pub max_len : Option ℕ
  pub spec_base_tok : Option ℕ
  pub spec_ngram_cooldown : ℕ
  pub repetition_seen : List ℕ
  pub repetition_seen_count : ℕ

-- A request as it is made: `Sequence(seq_id, prompt_ids, params)`.
abbrev pub new : ℕ → List ℕ → Params → Sequence
new seq_id prompt_ids params = record {
  seq_id = seq_id;
  prompt_ids = prompt_ids;
  params = params;
  status = waiting;
  slot = none;
  output_ids = [];
  length = 0;
  prefix_matched_len = 0;
  max_len = none;
  spec_base_tok = none;
  spec_ngram_cooldown = 0;
  repetition_seen = [];
  repetition_seen_count = 0;
}

abbrev pub num_prompt : Sequence → ℕ
num_prompt s = length s.prompt_ids

abbrev pub num_output : Sequence → ℕ
num_output s = length s.output_ids

abbrev pub last_or : ℕ → List ℕ → ℕ
last_or d [] = d
last_or d (x ∷ xs) = last_or x xs

-- `output_ids[-1] if output_ids else prompt_ids[-1]`; `none` is the IndexError of an empty prompt.
unfoldable pub last_token : Sequence → Option ℕ
last_token s = elim s.output_ids [
  | x ∷ xs ↦ some (last_or x xs)
  | [] ↦ elim s.prompt_ids [ [] ↦ none | x ∷ xs ↦ some (last_or x xs) ]
]

abbrev pub all_token_ids : Sequence → List ℕ
all_token_ids s = s.prompt_ids ++ s.output_ids

abbrev pub over_window : Option ℕ → ℕ → Bool
over_window none n = false
over_window (some m) n = leb m n

abbrev pub ends_with : Option ℕ → List ℕ → Bool
ends_with none xs = false
ends_with (some e) [] = false
ends_with (some e) (x ∷ xs) = last_or x xs == e

unfoldable pub finish_reason : Sequence → Option ℕ → Option Reason
finish_reason s eos_id =
    if leb s.params.max_tokens (num_output s)
    then some length_limit
    else if over_window s.max_len (num_prompt s + num_output s)
    then some length_limit
    else if not s.params.ignore_eos && ends_with eos_id s.output_ids
    then some stop
    else none

unfoldable pub is_finished : Sequence → Option ℕ → Bool
unfolding finish_reason
is_finished s eos_id = elim (finish_reason s eos_id) [ none ↦ false | some _ ↦ true ]

-- A Python set of ids: `update` adds the ids that are not there yet.
abbrev pub contains : ℕ → List ℕ → Bool
contains a [] = false
contains a (x ∷ xs) = x == a || contains a xs

unfoldable pub update : List ℕ → List ℕ → List ℕ
update seen [] = seen
update seen (x ∷ xs) = update (if contains x seen then seen else x ∷ seen) xs

-- The three `if`s of `repetition_token_ids`, on the set and its count.
unfoldable pub reset_stale : ℕ → List ℕ × ℕ → List ℕ × ℕ
reset_stale token_count (seen, n) = if ltb token_count n then ([], 0) else (seen, n)

unfoldable pub scan_prompt : List ℕ → List ℕ × ℕ → List ℕ × ℕ
unfolding update
scan_prompt prompt (seen, n) =
    if ltb n (length prompt) then (update seen (drop n prompt), length prompt) else (seen, n)

unfoldable pub scan_output : List ℕ → List ℕ → List ℕ × ℕ → List ℕ × ℕ
unfolding update
scan_output prompt output (seen, n) =
    if ltb n (length prompt + length output)
    then (update seen (drop (n - length prompt) output), length prompt + length output)
    else (seen, n)

unfoldable pub repetition_token_ids : Sequence → Sequence × List ℕ
unfolding reset_stale scan_prompt scan_output
repetition_token_ids s =
    let token_count = num_prompt s + num_output s in
    let (seen, n) = scan_output s.prompt_ids s.output_ids (
      scan_prompt s.prompt_ids
        (reset_stale token_count (s.repetition_seen, s.repetition_seen_count))) in
    (record s { repetition_seen = seen; repetition_seen_count = n }, seen)
