-- ===== src/Api/Reasoning/Search.antt =====
-- api/reasoning.py: what the searches of a text find, and what is held back of it.
use superl8_serve.Prelude.{
  ℕ, zero, suc, ◌+◌, ◌≤◌, ◌≡◌, refl, sym, ap, subst, ◌∙◌, List, [], ◌∷◌, ◌++◌, none, some, true,
  false, ◌&&◌, inl, inr, ◌==◌, ==_iff, arith, length, length-append, drop, Bool-cases, Option-cases,
}
use mathlib.Core.Option.{some_inj, none-ne-some}
use mathlib.Core.Bool.{true≢false}
use superl8_serve.Api.Reasoning.{starts_with, find_text}

pub starts_with_split : (p x : List ℕ) → starts_with p x ≡ true → x ≡ p ++ drop (length p) x
starts_with_split [] x h = refl
starts_with_split (c ∷ p) [] h = absurd (true≢false (sym h))
starts_with_split (c ∷ p) (d ∷ x) h = elim (Bool-cases (c == d)) [
  | inl same ↦
      let more = starts_with_split p x (subst (λ b. (b && starts_with p x) ≡ true) same h) in
      rw ((==_iff c d).0 same) (ap (◌∷◌ d) more)
  | inr other ↦ absurd (true≢false (sym (subst (λ b. (b && starts_with p x) ≡ true) other h)))
]

pub starts_with-append : (p x : List ℕ) → starts_with p (p ++ x) ≡ true
starts_with-append [] x = refl
starts_with-append (c ∷ p) x = rw ((==_iff c c).1 refl) (starts_with-append p x)

pub starts_with_longer :
    (p x more : List ℕ) → length p ≤ length x → starts_with p (x ++ more) ≡ starts_with p x
starts_with_longer [] x more le = refl
starts_with_longer (c ∷ p) [] more le = absurd (omega (arith, le))
starts_with_longer (c ∷ p) (d ∷ x) more le =
    ap (λ b. (c == d) && b) (starts_with_longer p x more (omega (arith, le)))

pub starts_with_fits : (p x : List ℕ) → starts_with p x ≡ true → length p ≤ length x
starts_with_fits p x h =
    omega (arith, ap length (starts_with_split p x h), length-append p (drop (length p) x))

-- The three outcomes of a search at a character.
data Found (p : List ℕ) (c : ℕ) (t : List ℕ) : Type 0 where
  here : starts_with p (c ∷ t) ≡ true → find_text p (c ∷ t) ≡ some 0 → Found p c t
  later :
      (i : ℕ)
      → starts_with p (c ∷ t) ≡ false
      → find_text p t ≡ some i
      → find_text p (c ∷ t) ≡ some (suc i)
      → Found p c t
  nowhere :
      starts_with p (c ∷ t) ≡ false
      → find_text p t ≡ none
      → find_text p (c ∷ t) ≡ none
      → Found p c t

find_text-Found : (p : List ℕ) (c : ℕ) (t : List ℕ) → Found p c t
unfolding find_text
find_text-Found p c t = elim (Bool-cases (starts_with p (c ∷ t))) [
  | inl hit ↦ here hit (rw (find_text, hit) refl)
  | inr miss ↦ elim (Option-cases (find_text p t)) [
    | inl e ↦ nowhere miss e (rw (find_text, miss, e) refl)
    | inr (i, e) ↦ later i miss e (rw (find_text, miss, e) refl)
  ]
]

end_hit : (p : List ℕ) → starts_with p [] ≡ true → find_text p [] ≡ some 0
unfolding find_text
end_hit p hit = rw hit refl

end_miss : (p : List ℕ) → starts_with p [] ≡ false → find_text p [] ≡ none
unfolding find_text
end_miss p miss = rw miss refl

-- What `find` returns is a place of the pattern.
pub find_text_here :
    (p t : List ℕ) (i : ℕ)
    → find_text p t ≡ some i
    → (starts_with p (drop i t) ≡ true) × (i + length p ≤ length t)
find_text_here p [] i h = elim (Bool-cases (starts_with p [])) [
  | inl hit ↦
      let at : 0 ≡ i = some_inj.0 (sym (end_hit p hit) ∙ h) in
      let fits = starts_with_fits p [] hit in
      (subst (λ n. starts_with p (drop n []) ≡ true) at hit, omega (arith, at, fits))
  | inr miss ↦ absurd (none-ne-some i (sym (end_miss p miss) ∙ h))
]
find_text_here p (c ∷ t) i h = elim (find_text-Found p c t) [
  | here hit e ↦
      let at : 0 ≡ i = some_inj.0 (sym e ∙ h) in
      let fits = starts_with_fits p (c ∷ t) hit in
      (subst (λ n. starts_with p (drop n (c ∷ t)) ≡ true) at hit, omega (arith, at, fits))
  | later j miss e e' ↦
      let at : suc j ≡ i = some_inj.0 (sym e' ∙ h) in
      let (hit, fits) = find_text_here p t j e in
      (subst (λ n. starts_with p (drop n (c ∷ t)) ≡ true) at hit, omega (arith, at, fits))
  | nowhere miss e e' ↦ absurd (none-ne-some i (sym e' ∙ h))
]

pub find_text_nowhere :
    (p t : List ℕ) (i : ℕ) → find_text p t ≡ none → starts_with p (drop i t) ≡ false
find_text_nowhere p [] i h = elim (Bool-cases (starts_with p [])) [
  | inl hit ↦ absurd (none-ne-some 0 (sym h ∙ end_hit p hit))
  | inr miss ↦ subst (λ x. starts_with p x ≡ false) (sym (drop_nothing i)) miss
]
  where
    drop_nothing : (n : ℕ) → drop {A = ℕ} n [] ≡ []
    drop_nothing zero = refl
    drop_nothing (suc n) = refl
find_text_nowhere p (c ∷ t) zero h = elim (find_text-Found p c t) [
  | here hit e ↦ absurd (none-ne-some 0 (sym h ∙ e))
  | later j miss e e' ↦ miss
  | nowhere miss e e' ↦ miss
]
find_text_nowhere p (c ∷ t) (suc i) h = elim (find_text-Found p c t) [
  | here hit e ↦ absurd (none-ne-some 0 (sym h ∙ e))
  | later j miss e e' ↦ absurd (none-ne-some (suc j) (sym h ∙ e'))
  | nowhere miss e e' ↦ find_text_nowhere p t i e
]

pub find_text_longer :
    (p t more : List ℕ) (i : ℕ)
    → 1 ≤ length p
    → find_text p t ≡ some i
    → find_text p (t ++ more) ≡ some i
find_text_longer p [] more i long h =
    let (hit, fits) = find_text_here p [] i h in absurd (omega (arith, long, fits))
find_text_longer p (c ∷ t) more i long h =
    let (hit, fits) = find_text_here p (c ∷ t) i h in
    let same = starts_with_longer p (c ∷ t) more (omega (arith, fits)) in
    elim (find_text-Found p c t) [
      | here hit e ↦ elim (find_text-Found p c (t ++ more)) [
        | here _ e' ↦ e' ∙ sym e ∙ h
        | later j miss _ _ ↦ absurd (true≢false (sym hit ∙ sym same ∙ miss))
        | nowhere miss _ _ ↦ absurd (true≢false (sym hit ∙ sym same ∙ miss))
      ]
      | later j miss e e' ↦
          let more_later = find_text_longer p t more j long e in
          elim (find_text-Found p c (t ++ more)) [
            | here hit _ ↦ absurd (true≢false (sym hit ∙ same ∙ miss))
            | later k _ f f' ↦
                f' ∙ ap (λ n. some (suc n)) (some_inj.0 (sym f ∙ more_later)) ∙ sym e' ∙ h
            | nowhere _ f _ ↦ absurd (none-ne-some j (sym f ∙ more_later))
          ]
      | nowhere miss e e' ↦ absurd (none-ne-some i (sym e' ∙ h))
    ]
