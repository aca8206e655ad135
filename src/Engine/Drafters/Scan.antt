-- ===== src/Engine/Drafters/Scan.antt =====
-- What the scans find, and slices of lists.
use superl8_serve.Prelude.{
  ℕ, zero, suc, ◌<◌, ◌≡◌, ◌≢◌, refl, sym, ap, ◌∙◌, List, [], ◌∷◌, none, some, Bool, true, false,
  length, take, arith, inl, inr, Bool-cases,
}
use native.Mathlib.Decide.{ℕ_discrete}
use superl8_serve.Engine.Drafters.{same_ids, last_below, any_below}

pub same_ids-eq : (xs ys : List ℕ) → same_ids xs ys ≡ true → xs ≡ ys
same_ids-eq [] [] h = refl
same_ids-eq [] (y ∷ ys) h = ground arith
same_ids-eq (x ∷ xs) [] h = ground arith
same_ids-eq (x ∷ xs) (y ∷ ys) h = grind (arith, same_ids-eq xs ys)

pub same_ids_refl : (xs : List ℕ) → same_ids xs xs ≡ true
same_ids_refl [] = refl
same_ids_refl (x ∷ xs) = ground (arith, same_ids_refl xs)

pub last_below-none : (p : ℕ → Bool) (n i : ℕ) → last_below p n ≡ none → i < n → p i ≡ false
last_below-none p zero i h lt = absurd (omega arith)
last_below-none p (suc n) i h lt = elim (Bool-cases (p n)) [
  | inl hit ↦ grind arith
  | inr miss ↦ elim (ℕ_discrete i n) [
    | yes e ↦ ap p e ∙ miss
    | no ne ↦ last_below-none p n i (grind arith) (grind arith)
  ]
]

pub last_below-some :
    (p : ℕ → Bool) (n i : ℕ)
    → last_below p n ≡ some i
    → (i < n) × (p i ≡ true) × ((j : ℕ) → i < j → j < n → p j ≡ false)
last_below-some p zero i h = ground arith
last_below-some p (suc n) i h = elim (Bool-cases (p n)) [
  | inl hit ↦
      let e : n ≡ i = grind arith in
      (omega (arith, e), ap p (sym e) ∙ hit, λ j gt lt. absurd (omega (arith, e, gt, lt)))
  | inr miss ↦
      let (lt, hit, last) = last_below-some p n i (grind arith) in
      (
        omega (arith, lt),
        hit,
        λ j gt below. elim (ℕ_discrete j n) [
          | yes e ↦ ap p e ∙ miss
          | no ne ↦ last j gt (grind arith)
        ],
      )
]

pub any_below_hit : (p : ℕ → Bool) (n i : ℕ) → i < n → p i ≡ true → any_below p n ≡ true
any_below_hit p zero i lt h = absurd (omega arith)
any_below_hit p (suc n) i lt h = elim (ℕ_discrete i n) [
  | yes e ↦ let hit : p n ≡ true = ap p (sym e) ∙ h in grind arith
  | no ne ↦ let hit = any_below_hit p n i (grind arith) h in grind arith
]

pub take-nonempty : (k : ℕ) (xs : List ℕ) → 0 < k → 0 < length xs → take k xs ≢ []
take-nonempty zero xs h l = absurd (omega arith)
take-nonempty (suc k) [] h l = absurd (omega arith)
take-nonempty (suc k) (x ∷ xs) h l = λ e. ground arith
