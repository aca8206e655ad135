-- ===== src/Api/Reasoning.antt =====
-- api/reasoning.py: the split of decoded text into reasoning and answer. A text is the list of its
-- characters' codes.
pub mod Search
pub mod Stream
pub mod Parts
pub mod Grow
pub mod Tests
use superl8_serve.Prelude.{
  ℕ, zero, suc, ◌+◌, ◌-◌, min, List, [], ◌∷◌, ◌++◌, Option, none, some, Bool, true, false, ◌&&◌,
  ◌||◌, not, if◌then◌else◌, ◌==◌, ltb, length, take, drop,
}
use superl8_serve.Engine.Drafters.{same_ids, suffix}

-- "<think>" and "</think>".
abbrev pub open_marker : List ℕ
open_marker = 60 ∷ 116 ∷ 104 ∷ 105 ∷ 110 ∷ 107 ∷ 62 ∷ []

abbrev pub close_marker : List ℕ
close_marker = 60 ∷ 47 ∷ 116 ∷ 104 ∷ 105 ∷ 110 ∷ 107 ∷ 62 ∷ []

pub record ReasoningText : Type 0 where
  pub reasoning_content : Option (List ℕ)
  pub content : List ℕ

-- `text.startswith(prefix)`.
abbrev pub starts_with : List ℕ → List ℕ → Bool
starts_with [] text = true
starts_with (c ∷ prefix) [] = false
starts_with (c ∷ prefix) (d ∷ text) = (c == d) && starts_with prefix text

-- `text.find(pattern)`, with `none` for -1.
unfoldable pub find_text : List ℕ → List ℕ → Option ℕ
find_text pattern [] = if starts_with pattern [] then some 0 else none
find_text pattern (c ∷ text) =
    let later = find_text pattern text in
    if starts_with pattern (c ∷ text)
    then some 0
    else elim later [ none ↦ none | some i ↦ some (suc i) ]

-- `text.find(pattern, start)`.
abbrev pub find_after : List ℕ → ℕ → List ℕ → Option ℕ
find_after pattern start text = elim (find_text pattern (drop start text)) [
  | none ↦ none
  | some i ↦ some (start + i)
]

-- The marker's ids at the end of the prompt, where the tokenizer gives any.
unfoldable pub prompt_prefills_thinking : Option (List ℕ) → List ℕ → Bool
prompt_prefills_thinking none prompt_ids = false
prompt_prefills_thinking (some []) prompt_ids = false
prompt_prefills_thinking (some (m ∷ marker_ids)) prompt_ids =
    ltb (length (m ∷ marker_ids)) (length prompt_ids)
    && same_ids (suffix (length (m ∷ marker_ids)) prompt_ids) (m ∷ marker_ids)

-- `text.endswith(end)`.
abbrev pub ends_text : List ℕ → List ℕ → Bool
ends_text end text =
    starts_with end (drop (length text - length end) text) && not (ltb (length text) (length end))

-- The `for` over the lengths, downwards to 1.
unfoldable pub hold_back : List ℕ → ℕ → List ℕ
hold_back text zero = text
hold_back text (suc n) =
    let shorter = hold_back text n in
    if ends_text (take (suc n) close_marker) text then take (length text - suc n) text else shorter

unfoldable pub without_partial_close : List ℕ → List ℕ
unfolding hold_back
without_partial_close text = hold_back text (min (length text) (length close_marker - 1))

-- The end of `split_reasoning_content`.
unfoldable pub split_at : List ℕ → Bool → ℕ → Option ℕ → ReasoningText
unfolding without_partial_close
split_at text final reasoning_start (some close_at) = record {
  reasoning_content = some (drop reasoning_start (take close_at text));
  content = drop (close_at + length close_marker) text;
}
split_at text final reasoning_start none =
    let reasoning = drop reasoning_start text in
    record {
      reasoning_content = some (if final then reasoning else without_partial_close reasoning);
      content = [];
    }

unfoldable pub split_reasoning_content : List ℕ → Bool → Bool → ReasoningText
unfolding find_text split_at
split_reasoning_content text prompt_prefilled final =
    let explicit = starts_with open_marker text in
    let start = if explicit then length open_marker else 0 in
    if not prompt_prefilled && not explicit
    then if not final && starts_with text open_marker
      then record { reasoning_content = none; content = [] }
      else elim (find_text close_marker text) [
        | none ↦ record { reasoning_content = none; content = text }
        | some close_at ↦ split_at text final start (some close_at)
      ]
    else split_at text final start (find_after close_marker start text)
