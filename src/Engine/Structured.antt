-- ===== src/Engine/Structured.antt =====
-- structured.py: a request's walk through its grammar; engine/drafters.py: the drafts of the grammar;
-- engine/model_runner.py: the check of drafts on a constrained row. The matcher of xgrammar and the
-- tokenizer are arguments. The buffer for the bitmask is left out: it is filled before each use.
pub mod Walk
pub mod Rounds
pub mod Peek
pub mod Session
pub mod Verify
pub mod Tests
use superl8_serve.Prelude.{
  ℕ, zero, suc, ◌+◌, ◌-◌, ◌*◌, ◌/◌, ◌%◌, ◌^◌, min, List, [], ◌∷◌, ◌++◌, Option, none, some, Bool,
  true, false, not, ◌&&◌, if◌then◌else◌, ◌==◌, ltb, length, drop,
}
use Prim.Native.Nat.{bit_and}

-- xgrammar.GrammarMatcher: `accept_token` says whether the token is legal, `next_token_bitmask` has
-- words of 32 bits, and `find_jump_forward_string` gives the characters of the string.
pub record Matcher : Type 1 where
  pub State : Type 0
  pub accept_token : State → ℕ → Bool × State
  pub rollback : State → ℕ → State
  pub is_terminated : State → Bool
  pub next_token_bitmask : State → List ℕ
  pub find_jump_forward_string : State → List ℕ

-- The words that are not zero, with their places from `i` on.
abbrev pub nonzero_from : ℕ → List ℕ → List (ℕ × ℕ)
nonzero_from i [] = []
nonzero_from i (w ∷ words) =
    if w == 0 then nonzero_from (i + 1) words else (i, w) ∷ nonzero_from (i + 1) words

abbrev pub bit_length : ℕ → ℕ → ℕ
bit_length zero w = 0
bit_length (suc fuel) w = if w == 0 then 0 else bit_length fuel (w / 2) + 1

-- `w & -w` of a word of 32 bits has a complement of 32 bits.
unfoldable pub single_set_bit : List ℕ → Option ℕ
single_set_bit words = elim (nonzero_from 0 words) [
  | [] ↦ none
  | (i, w) ∷ [] ↦
      if bit_and w (w - 1) == 0
      then some (i * 32 + (bit_length 32 (bit_and w (2 ^ 32 - w)) - 1))
      else none
  | _ ∷ (_ ∷ _) ↦ none
]

-- `tt != self.eos_id`.
abbrev pub other_than : Option ℕ → ℕ → Bool
other_than none tt = true
other_than (some eos_id) tt = not (tt == eos_id)

module _ (M : Matcher) where
  -- `_matcher` and `_seen`.
  pub record GrammarLogitsProcessor : Type 0 where
    pub matcher : M.State
    pub seen : Option ℕ

  abbrev pub new_processor : M.State → GrammarLogitsProcessor
  new_processor s = record { matcher = s; seen = none }

  -- `for token_id in ...: self._matcher.accept_token(token_id)`.
  abbrev pub accept_all : M.State → List ℕ → M.State
  accept_all s [] = s
  accept_all s (t ∷ tokens) = accept_all (M.accept_token s t).1 tokens

  unfoldable pub sync : List ℕ → GrammarLogitsProcessor → GrammarLogitsProcessor
  sync input_ids g = elim g.seen [
    | none ↦ record g { seen = some (length input_ids) }
    | some n ↦ record {
      matcher = accept_all g.matcher (drop n input_ids);
      seen = some (length input_ids);
    }
  ]

  -- The mask that a row of logits gets, `none` where it is left alone.
  abbrev pub mask_row : GrammarLogitsProcessor → Option (List ℕ)
  mask_row g = if M.is_terminated g.matcher then none else some (M.next_token_bitmask g.matcher)

  -- `__call__`.
  unfoldable pub call : List ℕ → GrammarLogitsProcessor → GrammarLogitsProcessor × Option (List ℕ)
  call input_ids g =
      let seen : GrammarLogitsProcessor = elim g.seen [
        | none ↦ record g { seen = some (length input_ids) }
        | some n ↦ record {
          matcher = accept_all g.matcher (drop n input_ids);
          seen = some (length input_ids);
        }
      ] in
      (seen, mask_row seen)

  abbrev pub mark_committed : ℕ → GrammarLogitsProcessor → GrammarLogitsProcessor
  mark_committed n g = record g { seen = some n }

  unfoldable pub advance : ℕ → GrammarLogitsProcessor → Bool × GrammarLogitsProcessor
  advance token_id g =
      let (legal, next) = M.accept_token g.matcher token_id in (legal, record g { matcher = next })

  -- `for tok in emit: gv.advance(tok)`, and `mark_committed` with the length of the history.
  unfoldable pub commit_walk : List ℕ → ℕ → GrammarLogitsProcessor → GrammarLogitsProcessor
  unfolding advance
  commit_walk [] n g = mark_committed n g
  commit_walk (t ∷ emit) n g = commit_walk emit n (advance t g).1

  unfoldable pub rewind : ℕ → GrammarLogitsProcessor → GrammarLogitsProcessor
  rewind n g = if ltb 0 n then record g { matcher = M.rollback g.matcher n } else g

  unfoldable pub next_singleton : GrammarLogitsProcessor → Option ℕ
  next_singleton g =
      if M.is_terminated g.matcher then none else single_set_bit (M.next_token_bitmask g.matcher)

  -- The `for` over the tokens of the forced string, with `progressed`.
  unfoldable pub take_string : ℕ → List ℕ → List ℕ → Bool → M.State → Bool × (List ℕ × M.State)
  take_string k out [] progressed s = (progressed, (out, s))
  take_string k out (t ∷ tokens) progressed s =
      let (legal, next) = M.accept_token s t in
      let rest = take_string k (out ++ t ∷ []) tokens true next in
      if not (ltb (length out) k)
      then (progressed, (out, s))
      else if not legal
      then (progressed, (out, next))
      else rest

  -- One round of the `while` of forced_run: whether it goes on, and what it leaves.
  unfoldable pub forced_round :
      Option (List ℕ → List ℕ) → ℕ → List ℕ → M.State → Bool × (List ℕ × M.State)
  unfolding take_string
  forced_round tokenizer k out s =
      if M.is_terminated s
      then (false, (out, s))
      else (elim (single_set_bit (M.next_token_bitmask s)) [
        | some tid ↦
            let (legal, next) = M.accept_token s tid in
            if legal then (true, (out ++ tid ∷ [], next)) else (false, (out, next))
        | none ↦ elim tokenizer [
          | none ↦ (false, (out, s))
          | some encode ↦ elim (M.find_jump_forward_string s) [
            | [] ↦ (false, (out, s))
            | c ∷ string ↦ take_string k out (encode (c ∷ string)) false s
          ]
        ]
      ])

  -- The `while` of forced_run, on fuel: `none` is out of fuel.
  unfoldable pub forced_loop :
      Option (List ℕ → List ℕ) → ℕ → ℕ → List ℕ → M.State → Option (List ℕ × M.State)
  unfolding forced_round
  forced_loop tokenizer zero k out s = if ltb (length out) k then none else some (out, s)
  forced_loop tokenizer (suc fuel) k out s =
      let (again, (more, next)) = forced_round tokenizer k out s in
      let rest = forced_loop tokenizer fuel k more next in
      if not (ltb (length out) k) then some (out, s) else if again then rest else some (more, next)

  unfoldable pub forced_run :
      Option (List ℕ → List ℕ)
      → ℕ
      → GrammarLogitsProcessor
      → Option (List ℕ × GrammarLogitsProcessor)
  unfolding forced_loop
  forced_run tokenizer k g = elim (forced_loop tokenizer k k [] g.matcher) [
    | none ↦ none
    | some (out, s) ↦ some (out, record g { matcher = s })
  ]

  -- GrammarDrafter.propose, for a view that is there and has `forced_run`.
  unfoldable pub propose_forced :
      Option (List ℕ → List ℕ)
      → ℕ
      → ℕ
      → ℕ
      → GrammarLogitsProcessor
      → Option (List ℕ × GrammarLogitsProcessor)
  unfolding forced_run advance rewind
  propose_forced tokenizer max_k base_tok k g =
      let (legal, stepped) = advance base_tok g in
      let run : Option (List ℕ × GrammarLogitsProcessor) =
        elim (forced_run tokenizer (min k max_k) stepped) [
          | none ↦ none
          | some (forced, walked) ↦ some (forced, rewind (1 + length forced) walked)
        ] in
      if min k max_k == 0 then some ([], g) else if not legal then some ([], stepped) else run

  -- The masked truths of the slots of a row after its base token, with the number of advances. `pick`
  -- is the argmax of the model's logits for the tokens so far under a mask.
  unfoldable pub verify_slots :
      (List ℕ → Option (List ℕ) → ℕ)
      → Option ℕ
      → List ℕ
      → List ℕ
      → GrammarLogitsProcessor
      → List ℕ × (ℕ × GrammarLogitsProcessor)
  unfolding advance
  verify_slots pick eos_id tokens [] g = (pick tokens (mask_row g) ∷ [], (0, g))
  verify_slots pick eos_id tokens (d ∷ drafts) g =
      let tt = pick tokens (mask_row g) in
      let (more, (acc, walked)) =
        verify_slots pick eos_id (tokens ++ tt ∷ []) drafts (advance tt g).1 in
      if (tt == d) && other_than eos_id tt
      then (tt ∷ more, (acc + 1, walked))
      else (tt ∷ [], (0, g))

  -- A constrained row: `none` where its truths stay the plain ones.
  unfoldable pub verify_row :
      (List ℕ → Option (List ℕ) → ℕ)
      → Option ℕ
      → List ℕ
      → ℕ
      → List ℕ
      → GrammarLogitsProcessor
      → Option (List ℕ) × GrammarLogitsProcessor
  unfolding verify_slots rewind
  verify_row pick eos_id tokens base_tok drafts g =
      let (legal, stepped) = advance base_tok g in
      let (truths, (acc, walked)) =
        verify_slots pick eos_id (tokens ++ base_tok ∷ []) drafts stepped in
      if legal then (some truths, rewind (1 + acc) walked) else (none, stepped)
