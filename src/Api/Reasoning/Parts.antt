-- ===== src/Api/Reasoning/Parts.antt =====
-- api/reasoning.py: the split of what follows the opening marker, as the text grows.
use superl8_serve.Prelude.{
  ℕ, zero, suc, ◌+◌, ◌-◌, ◌≤◌, ◌<◌, ◌≡◌, refl, sym, ap, subst, ◌∙◌, min, List, [], ◌∷◌, ◌++◌, none,
  some, Bool, true, false, ◌&&◌, inl, inr, if◌then◌else◌, ltb, arith, length, length-append,
  length-take, length-drop, take, drop, take_all, take-append-drop, take-append_left,
  drop-append_left, Bool-cases, Option-cases,
}
use mathlib.Core.Bool.{true≢false}
use superl8_serve.Api.Reasoning.{
  ReasoningText, starts_with, find_text, hold_back, without_partial_close, close_marker,
}
use superl8_serve.Api.Reasoning.Search.{
  starts_with_longer, find_text_here, find_text_nowhere, find_text_longer,
}
use superl8_serve.Api.Reasoning.Stream.{Holds, hold_back-Holds, before_place}

abbrev pub IsPrefix : List ℕ → List ℕ → Type 0
IsPrefix xs ys = (rest : List ℕ) × (ys ≡ xs ++ rest)

-- Both fields are beginnings of those of the other.
pub record Grows (a b : ReasoningText) : Type 0 where
  pub before : List ℕ
  pub after : List ℕ
  pub had : a.reasoning_content ≡ some before
  pub has : b.reasoning_content ≡ some after
  pub reasoning : IsPrefix before after
  pub content : IsPrefix a.content b.content

take-take_le : (h p : ℕ) (xs : List ℕ) → h ≤ p → take h (take p xs) ≡ take h xs
take-take_le zero p xs le = refl
take-take_le (suc h) zero xs le = absurd (omega (arith, le))
take-take_le (suc h) (suc p) [] le = refl
take-take_le (suc h) (suc p) (x ∷ xs) le = ap (◌∷◌ x) (take-take_le h p xs (omega (arith, le)))

take-IsPrefix :
    (h p : ℕ) (t more : List ℕ) → h ≤ length t → h ≤ p → IsPrefix (take h t) (take p (t ++ more))
take-IsPrefix h p t more within le =
    let first = take-take_le h p (t ++ more) le ∙ take-append_left h t more within in
    (
      drop h (take p (t ++ more)),
      sym (take-append-drop h (take p (t ++ more)))
          ∙ ap (λ xs. xs ++ drop h (take p (t ++ more))) first,
    )

-- The split of what follows the opening marker.
abbrev pub parts : List ℕ → Bool → ReasoningText
parts t final = elim (find_text close_marker t) [
  | none ↦ record {
    reasoning_content = some (if final then t else without_partial_close t);
    content = [];
  }
  | some i ↦ record {
    reasoning_content = some (take i t);
    content = drop (i + length close_marker) t;
  }
]

abbrev pub split_found : List ℕ → ℕ → ReasoningText
split_found t i = record {
  reasoning_content = some (take i t);
  content = drop (i + length close_marker) t;
}

abbrev pub split_open : List ℕ → ReasoningText
split_open reasoning = record { reasoning_content = some reasoning; content = [] }

pub parts_found :
    (t : List ℕ) (final : Bool) (i : ℕ)
    → find_text close_marker t ≡ some i
    → parts t final ≡ split_found t i
parts_found t final i hit = rw (parts, hit) refl

pub parts_open :
    (t : List ℕ) (final : Bool)
    → find_text close_marker t ≡ none
    → parts t final ≡ split_open (if final then t else without_partial_close t)
parts_open t final miss = rw (parts, miss) refl

pub Grows-same : (a b a' b' : ReasoningText) → a ≡ a' → b ≡ b' → Grows a' b' → Grows a b
Grows-same a b a' b' e e' g = rw (e, e') g

open-Grows :
    (before after rest content : List ℕ)
    → after ≡ before ++ rest
    → Grows (split_open before) (record { reasoning_content = some after; content = content })
open-Grows before after rest content e = record {
  before = before;
  after = after;
  had = refl;
  has = refl;
  reasoning = (rest, e);
  content = (content, refl);
}

and_left : (a b : Bool) → (a && b) ≡ true → a ≡ true
and_left true b h = refl
and_left false b h = absurd (true≢false (sym h))

module _ (t more : List ℕ) where
  abbrev bound : ℕ
  bound = min (length t) (length close_marker - 1)

  shown_before_marker :
      (o : Holds t bound (hold_back t bound)) (p : ℕ)
      → find_text close_marker t ≡ none
      → find_text close_marker (t ++ more) ≡ some p
      → o.h ≤ p
  shown_before_marker o p miss hit = elim (Bool-cases (ltb p (length t))) [
    | inr beyond ↦ ground (arith, o.within, beyond)
    | inl inside ↦
        let place : p ≤ length t = ground (arith, inside) in
        let (here, fits) = find_text_here close_marker (t ++ more) p hit in
        elim (Bool-cases (ltb (length t - p) (length close_marker))) [
          | inl short ↦
              before_place t more bound p 8 (hold_back t bound) o place (ground (arith, short))
                (omega arith) (ground (arith, short)) here
          | inr long ↦
              let size = length-drop p t in
              let shifted =
                subst (λ x. starts_with close_marker x ≡ true) (drop-append_left p t more place)
                  here in
              let whole =
                starts_with_longer close_marker (drop p t) more (ground (arith, size, long)) in
              absurd (true≢false (sym shifted ∙ whole ∙ find_text_nowhere close_marker t p miss))
        ]
  ]

  shown_before_held :
      (n : ℕ) (o : Holds t bound (hold_back t bound))
      (o' : Holds (t ++ more) n (hold_back (t ++ more) n))
      → n < length close_marker
      → o.h ≤ o'.h
  shown_before_held n o o' short = elim o'.exact [
    | inl all ↦ omega (arith, all, length-append t more, o.within)
    | inr (l, some_l, few, at, ends) ↦ elim (Bool-cases (ltb o'.h (length t))) [
      | inr beyond ↦ ground (arith, o.within, beyond)
      | inl inside ↦
          let place : o'.h ≤ length t = ground (arith, inside) in
          let width : length (take l close_marker) ≡ l =
            omega (arith, length-take l close_marker, few, short) in
          let start = and_left _ _ ends in
          let here =
            subst
              (λ w.
                starts_with (take l close_marker) (drop (length (t ++ more) - w) (t ++ more))
                ≡ true)
              width start in
          before_place t more bound o'.h l (hold_back t bound) o place
            (omega (arith, at, few, short, length-append t more)) (omega arith)
            (omega (arith, at, few, length-append t more))
            (subst (λ q. starts_with (take l close_marker) (drop q (t ++ more)) ≡ true) (sym at)
              here)
    ]
  ]

  held : Holds t bound (hold_back t bound)
  held = hold_back-Holds t bound

  -- What is shown is a beginning of any `take` that goes as far.
  shown-IsPrefix : (p : ℕ) → held.h ≤ p → IsPrefix (hold_back t bound) (take p (t ++ more))
  shown-IsPrefix p le =
      subst (λ xs. IsPrefix xs (take p (t ++ more))) (sym held.part)
        (take-IsPrefix held.h p t more held.within le)

  open_later :
      (final : Bool)
      → IsPrefix
          (hold_back t bound)
          (if final then t ++ more else without_partial_close (t ++ more))
  unfolding without_partial_close
  open_later true =
      subst (IsPrefix (hold_back t bound)) (take_all (length (t ++ more)) (t ++ more) (omega arith))
        (shown-IsPrefix (length (t ++ more)) (omega (arith, held.within, length-append t more)))
  open_later false =
      let n = min (length (t ++ more)) (length close_marker - 1) in
      let held' = hold_back-Holds (t ++ more) n in
      subst (IsPrefix (hold_back t bound)) (sym held'.part)
        (shown-IsPrefix held'.h (shown_before_held n held held' (omega arith)))

  pub parts-Grows : (final : Bool) → Grows (parts t false) (parts (t ++ more) final)
  unfolding without_partial_close
  parts-Grows final = elim (Option-cases (find_text close_marker t)) [
    | inr (i, hit) ↦
        let (here, fits) = find_text_here close_marker t i hit in
        Grows-same _ _ _ _ (parts_found t false i hit)
          (parts_found (t ++ more) final i
            (find_text_longer close_marker t more i (omega arith) hit))
          (record {
            before = take i t;
            after = take i (t ++ more);
            had = refl;
            has = refl;
            reasoning = take-IsPrefix i i t more (omega (arith, fits)) (omega arith);
            content = (more, drop-append_left (i + length close_marker) t more fits);
          })
    | inl miss ↦ elim (Option-cases (find_text close_marker (t ++ more))) [
      | inr (p, hit) ↦
          let (rest, e) = shown-IsPrefix p (shown_before_marker held p miss hit) in
          Grows-same _ _ _ _ (parts_open t false miss) (parts_found (t ++ more) final p hit)
            (open-Grows (hold_back t bound) (take p (t ++ more)) rest _ e)
      | inl miss' ↦
          let (rest, e) = open_later final in
          Grows-same _ _ _ _ (parts_open t false miss) (parts_open (t ++ more) final miss')
            (open-Grows (hold_back t bound) _ rest [] e)
    ]
  ]
