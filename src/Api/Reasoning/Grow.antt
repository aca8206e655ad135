-- ===== src/Api/Reasoning/Grow.antt =====
-- api/reasoning.py: the streamed split of a text is a beginning of the split of a longer one.
use superl8_serve.Prelude.{
  ℕ, zero, suc, ◌+◌, ◌≤◌, ◌≡◌, refl, sym, ap, ◌∙◌, List, [], ◌∷◌, ◌++◌, none, some, Bool, true,
  false, ◌&&◌, ◌||◌, not, inl, inr, ◌⊎◌, if◌then◌else◌, arith, length, take, drop, drop-append_left,
  Bool-cases, Option-cases,
}
use mathlib.Core.Bool.{true≢false}
use superl8_serve.Api.Reasoning.{
  ReasoningText, starts_with, find_text, find_after, without_partial_close, split_at,
  split_reasoning_content, close_marker, open_marker,
}
use superl8_serve.Api.Reasoning.Search.{starts_with_fits}
use superl8_serve.Api.Reasoning.Parts.{
  parts, split_found, split_open, parts_found, parts_open, Grows, Grows-same, parts-Grows,
}

drop_nothing : (n : ℕ) → drop {A = ℕ} n [] ≡ []
drop_nothing zero = refl
drop_nothing (suc n) = refl

take_nothing : (n : ℕ) → take {A = ℕ} n [] ≡ []
take_nothing zero = refl
take_nothing (suc n) = refl

drop-drop : (m n : ℕ) (xs : List ℕ) → drop (m + n) xs ≡ drop n (drop m xs)
drop-drop zero n xs = ap (λ k. drop k xs) (omega arith)
drop-drop (suc m) n [] = drop_nothing (suc m + n) ∙ sym (drop_nothing n)
drop-drop (suc m) n (x ∷ xs) =
    let up : suc m + n ≡ suc (m + n) = omega arith in
    ap (λ k. drop k (x ∷ xs)) up ∙ drop-drop m n xs

drop-take : (m n : ℕ) (xs : List ℕ) → drop m (take (m + n) xs) ≡ take n (drop m xs)
drop-take zero n xs = ap (λ k. take k xs) (omega arith)
drop-take (suc m) n [] = ap (drop (suc m)) (take_nothing (suc m + n)) ∙ sym (take_nothing n)
drop-take (suc m) n (x ∷ xs) =
    let up : suc m + n ≡ suc (m + n) = omega arith in
    ap (λ k. drop (suc m) (take k (x ∷ xs))) up ∙ drop-take m n xs

split_at_open :
    (text : List ℕ) (final : Bool) (start : ℕ)
    → split_at text final start none
      ≡ split_open (if final then drop start text else without_partial_close (drop start text))
unfolding split_at
split_at_open text final start = refl

split_at_found :
    (text : List ℕ) (final : Bool) (start i : ℕ)
    → split_at text final start (some (start + i)) ≡ split_found (drop start text) i
unfolding split_at
split_at_found text final start i =
    let behind : start + i + length close_marker ≡ start + (i + length close_marker) =
      omega arith in
    rw (drop-take start i text, behind, drop-drop start (i + length close_marker) text) refl

find_after_cases :
    (start : ℕ) (text : List ℕ)
    → ((find_text close_marker (drop start text) ≡ none)
        × (find_after close_marker start text ≡ none))
      ⊎ ((i : ℕ) × (find_text close_marker (drop start text) ≡ some i)
          × (find_after close_marker start text ≡ some (start + i)))
find_after_cases start text = elim (Option-cases (find_text close_marker (drop start text))) [
  | inl miss ↦ inl (miss, rw (find_after, miss) refl)
  | inr (i, hit) ↦ inr (i, hit, rw (find_after, hit) refl)
]

split_at-parts :
    (text : List ℕ) (final : Bool) (start : ℕ)
    → split_at text final start (find_after close_marker start text) ≡ parts (drop start text) final
split_at-parts text final start = elim (find_after_cases start text) [
  | inl (miss, e) ↦
      ap (split_at text final start) e
      ∙ split_at_open text final start
      ∙ sym (parts_open (drop start text) final miss)
  | inr (i, hit, e) ↦
      ap (split_at text final start) e
      ∙ split_at_found text final start i
      ∙ sym (parts_found (drop start text) final i hit)
]

opened_branch :
    (pre explicit : Bool) (a b : ReasoningText)
    → (pre || explicit) ≡ true
    → (if not pre && not explicit then a else b) ≡ b
opened_branch true explicit a b h = refl
opened_branch false true a b h = refl
opened_branch false false a b h = absurd (true≢false (sym h))

abbrev start_of : Bool → ℕ
start_of explicit = if explicit then length open_marker else 0

split_reasoning_content-parts :
    (text : List ℕ) (prompt_prefilled final : Bool)
    → (prompt_prefilled || starts_with open_marker text) ≡ true
    → split_reasoning_content text prompt_prefilled final
      ≡ parts (drop (start_of (starts_with open_marker text)) text) final
unfolding split_reasoning_content
split_reasoning_content-parts text prompt_prefilled final h =
    opened_branch prompt_prefilled (starts_with open_marker text) _ _ h
    ∙ split_at-parts text final (start_of (starts_with open_marker text))

start_within : (text : List ℕ) → start_of (starts_with open_marker text) ≤ length text
start_within text = elim (Bool-cases (starts_with open_marker text)) [
  | inl explicit ↦ rw explicit (starts_with_fits open_marker text explicit)
  | inr implicit ↦ rw implicit (omega arith)
]

-- Where the prompt opened the reasoning or the text does, and more text does not decide whether it
-- does, both fields of the streamed split of a text are beginnings of those of the split of the text
-- with more behind it, streamed or final.
pub split_reasoning_content-Grows :
    (text more : List ℕ) (prompt_prefilled final : Bool)
    → (prompt_prefilled || starts_with open_marker text) ≡ true
    → starts_with open_marker (text ++ more) ≡ starts_with open_marker text
    → Grows
        (split_reasoning_content text prompt_prefilled false)
        (split_reasoning_content (text ++ more) prompt_prefilled final)
split_reasoning_content-Grows text more prompt_prefilled final opened same =
    let start = start_of (starts_with open_marker text) in
    let later : (prompt_prefilled || starts_with open_marker (text ++ more)) ≡ true =
      rw same opened in
    let rest : drop (start_of (starts_with open_marker (text ++ more))) (text ++ more)
        ≡ drop start text ++ more =
      rw same (drop-append_left start text more (start_within text)) in
    Grows-same _ _ _ _ (split_reasoning_content-parts text prompt_prefilled false opened)
      (split_reasoning_content-parts (text ++ more) prompt_prefilled final later
        ∙ ap (λ t. parts t final) rest)
      (parts-Grows (drop start text) more final)
