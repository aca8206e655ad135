-- ===== src/Dist/Entropy/Normalize/Turns.antt =====
-- dist/entropy.py: `order[i % n_present]` takes turns over the places.
use native.Mathlib.Nat.{suc-mod, mod-eq_of_lt, mod_self, mod-lt}
use superl8_serve.Prelude.{
  ℕ, suc, ◌+◌, ◌-◌, ◌%◌, ◌≤◌, ◌<◌, ◌≡◌, ap, ◌∙◌, ◌==◌, leb, arith, Bool-cases, inl, inr, ◌⊎◌,
}

module _ (n : ℕ) (some_present : 0 < n) where
  -- After `k` more turns it is the turn of place `j`.
  abbrev pub Turns : ℕ → ℕ → ℕ → Type 0
  Turns i k j = (i % n + k ≡ j) ⊎ (i % n + k ≡ n + j)

  pub turns_to : (i j : ℕ) → j < n → (k : ℕ) × (k < n) × Turns i k j
  turns_to i j lt =
      let here = mod-lt i some_present in
      elim (Bool-cases (leb (i % n) j)) [
        | inl ahead ↦
            let le : i % n ≤ j = ground arith in
            (j - i % n, omega (arith, lt, le), inl (omega (arith, le)))
        | inr behind ↦
            let gt : j < i % n = ground arith in
            (n + j - i % n, omega (arith, lt, gt, here), inr (omega (arith, here)))
      ]

  pub next_turn : (i k j : ℕ) → j < n → Turns i (suc k) j → Turns (i + 1) k j
  next_turn i k j lt turns =
      let here = mod-lt i some_present in
      let step : (i + 1) % n ≡ suc (i % n) % n =
        ap (λ a. a % n) {y = suc i} (omega arith) ∙ suc-mod i n in
      elim (Bool-cases (suc (i % n) == n)) [
        | inl last ↦
            let e : suc (i % n) ≡ n = ground arith in
            let first : (i + 1) % n ≡ 0 = step ∙ ap (λ a. a % n) e ∙ mod_self n in
            elim turns [
              | inl eq ↦ absurd (omega (arith, eq, e, lt))
              | inr eq ↦ inl (omega (arith, eq, e, first))
            ]
        | inr within ↦
            let ne : suc (i % n) < n = ground (arith, here) in
            let after : (i + 1) % n ≡ suc (i % n) = step ∙ mod-eq_of_lt ne in
            elim turns [
              | inl eq ↦ inl (omega (arith, eq, after))
              | inr eq ↦ inr (omega (arith, eq, after))
            ]
      ]
