-- ===== src/Api/Reasoning/Tests.antt =====
-- api/reasoning.py: splits of small texts, and an example of the theorem.
use superl8_serve.Prelude.{ℕ, ◌≡◌, refl, List, [], ◌∷◌, ◌++◌, some, none, true, false}
use superl8_serve.Api.Reasoning.{
  split_reasoning_content, split_at, find_text, without_partial_close, hold_back,
  prompt_prefills_thinking,
}
use superl8_serve.Api.Reasoning.Parts.{Grows}
use superl8_serve.Api.Reasoning.Grow.{split_reasoning_content-Grows}

-- "a</th" where the prompt opened the reasoning, and with "ink>b" behind it.
abbrev partial_text : List ℕ
partial_text = 97 ∷ 60 ∷ 47 ∷ 116 ∷ 104 ∷ []

abbrev rest_of_text : List ℕ
rest_of_text = 105 ∷ 110 ∷ 107 ∷ 62 ∷ 98 ∷ []

held_back :
    split_reasoning_content partial_text true false
    ≡ record { reasoning_content = some (97 ∷ []); content = [] }
unfolding split_reasoning_content split_at find_text without_partial_close hold_back
held_back = refl

split_reasoning_content-Grows_example :
    Grows
      (split_reasoning_content partial_text true false)
      (split_reasoning_content (partial_text ++ rest_of_text) true true)
split_reasoning_content-Grows_example =
    split_reasoning_content-Grows partial_text rest_of_text true true refl refl

-- Where neither the prompt nor the text opens the reasoning, the start of the marker is shown, and
-- taken back when the marker is there.
shown_early :
    split_reasoning_content partial_text false false
    ≡ record { reasoning_content = none; content = partial_text }
unfolding split_reasoning_content split_at find_text without_partial_close hold_back
shown_early = refl

taken_back :
    split_reasoning_content (partial_text ++ rest_of_text) false false
    ≡ record { reasoning_content = some (97 ∷ []); content = 98 ∷ [] }
unfolding split_reasoning_content split_at find_text without_partial_close hold_back
taken_back = refl

prefilled_prompt : prompt_prefills_thinking (some (4 ∷ 5 ∷ [])) (1 ∷ 4 ∷ 5 ∷ []) ≡ true
unfolding prompt_prefills_thinking
prefilled_prompt = refl
