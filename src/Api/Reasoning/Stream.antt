-- ===== src/Api/Reasoning/Stream.antt =====
-- api/reasoning.py: what is shown of a growing text is never taken back.
use superl8_serve.Prelude.{
  ℕ, zero, suc, ◌-◌, ◌≤◌, ◌<◌, ◌≡◌, refl, sym, subst, ◌∙◌, List, [], ◌∷◌, ◌++◌, true, false, ◌&&◌,
  inl, inr, ◌⊎◌, ◌==◌, ltb, arith, length, length-take, length-drop, take, drop, take_all,
  drop-append_left, Bool-cases,
}
use native.Mathlib.Decide.{ℕ_discrete}
use mathlib.Core.Bool.{true≢false}
use superl8_serve.Api.Reasoning.{starts_with, ends_text, hold_back, close_marker}

-- How much of a text is shown: its end could otherwise be the start of a closing marker.
pub record Holds (t : List ℕ) (n : ℕ) (shown : List ℕ) : Type 0 where
  pub h : ℕ
  pub part : shown ≡ take h t
  pub within : h ≤ length t
  pub past : (l : ℕ) → 1 ≤ l → l ≤ n → ends_text (take l close_marker) t ≡ true → h ≤ length t - l
  pub exact :
      (h ≡ length t)
      ⊎ ((l : ℕ) × (1 ≤ l)
          × (l ≤ n)
          × (h ≡ length t - l)
          × (ends_text (take l close_marker) t ≡ true))

pub hold_back-Holds : (t : List ℕ) (n : ℕ) → Holds t n (hold_back t n)
unfolding hold_back
hold_back-Holds t zero = record {
  h = length t;
  part = sym (take_all (length t) t (omega arith));
  within = omega arith;
  past = λ l some_l few ends. absurd (omega (arith, some_l, few));
  exact = inl refl;
}
hold_back-Holds t (suc n) = elim (Bool-cases (ends_text (take (suc n) close_marker) t)) [
  | inl ends ↦ rw ends (record {
    h = length t - suc n;
    part = refl;
    within = omega arith;
    past = λ l some_l few e. omega (arith, few);
    exact = inr (suc n, omega arith, omega arith, refl, ends);
  })
  | inr not_here ↦
      let rest = hold_back-Holds t n in
      rw not_here (record {
        h = rest.h;
        part = rest.part;
        within = rest.within;
        past = λ l some_l few e. elim (ℕ_discrete l (suc n)) [
          | yes last ↦ absurd (
              true≢false
                (sym (subst (λ k. ends_text (take k close_marker) t ≡ true) last e) ∙ not_here))
          | no less ↦ rest.past l some_l (omega (arith, few, less)) e
        ];
        exact = elim rest.exact [
          | inl all ↦ inl all
          | inr (l, some_l, few, at, ends) ↦ inr (l, some_l, omega (arith, few), at, ends)
        ];
      })
]

starts_with_cut :
    (l : ℕ) (p x more : List ℕ)
    → length x ≤ l
    → starts_with (take l p) (x ++ more) ≡ true
    → starts_with (take (length x) p) x ≡ true
starts_with_cut l p [] more le h = refl
starts_with_cut zero p (d ∷ x) more le h = absurd (omega (arith, le))
starts_with_cut (suc l) [] (d ∷ x) more le h = refl
starts_with_cut (suc l) (c ∷ p) (d ∷ x) more le h = elim (Bool-cases (c == d)) [
  | inl same ↦ rw same (
      starts_with_cut l p x more (omega (arith, le))
        (subst (λ b. (b && starts_with (take l p) (x ++ more)) ≡ true) same h))
  | inr other ↦
      absurd
        (true≢false (sym (subst (λ b. (b && starts_with (take l p) (x ++ more)) ≡ true) other h)))
]

-- A place before the end of the text where the longer text goes on as the marker does is not shown.
pub before_place :
    (t more : List ℕ) (n q l : ℕ) (shown : List ℕ)
    → (o : Holds t n shown) → q ≤ length t
    → length t - q ≤ n
    → n < length close_marker
    → length t - q ≤ l
    → starts_with (take l close_marker) (drop q (t ++ more)) ≡ true
    → o.h ≤ q
before_place t more n q l shown o place few short le h = elim (ℕ_discrete (length t - q) 0) [
  | yes none_left ↦ omega (arith, o.within, none_left, place)
  | no some_left ↦
      let k = length t - q in
      let size : length (drop q t) ≡ k = length-drop q t in
      let cut = starts_with_cut l close_marker (drop q t) more (omega (arith, size, le)) (
        subst (λ x. starts_with (take l close_marker) x ≡ true) (drop-append_left q t more place)
          h) in
      let it : starts_with (take k close_marker) (drop q t) ≡ true =
        subst (λ m. starts_with (take m close_marker) (drop q t) ≡ true) size cut in
      let width : length (take k close_marker) ≡ k =
        omega (arith, length-take k close_marker, few, short) in
      let from : length t - k ≡ q = omega (arith, place) in
      let fits : ltb (length t) k ≡ false = ground (arith, place) in
      let ends : ends_text (take k close_marker) t ≡ true = rw (width, from, it, fits) refl in
      omega (arith, o.past k (omega (arith, some_left)) few ends, from)
]
