-- ===== src/Scheduling/Scores.antt =====
-- scheduling.py: the order of the scores, and what the choice of the best of two keeps.
use superl8_serve.Prelude.{
  ℕ, ◌≤◌, ◌<◌, ◌≡◌, refl, sym, subst, some, true, false, ◌⊎◌, inl, inr, arith, Bool-cases,
  Option-cases,
}
use mathlib.Core.Bool.{true≢false}
use superl8_serve.Scheduling.{
  ModelConfig, Best, below, beats, consider, over_replicas, no_best, experts_of,
}

-- What the loops of `plan_parallelism` choose.
abbrev pub best_of : ModelConfig → ℕ → ℕ → Best
best_of cfg gpus max_pp =
    over_replicas max_pp cfg.num_hidden_layers (experts_of cfg) gpus gpus no_best

abbrev pub Score : Type 0
Score = ℕ × (ℕ × ℕ)

-- `<=` of two tuples of three.
abbrev pub AtMost : Score → Score → Type 0
AtMost (a, (b, c)) (x, (y, z)) = (a < x) ⊎ ((a ≡ x) × ((b < y) ⊎ ((b ≡ y) × (c ≤ z))))

AtMost-trans : (s t u : Score) → AtMost s t → AtMost t u → AtMost s u
AtMost-trans (a, (b, c)) (x, (y, z)) (p, (q, r)) h k = ground (arith, h, k)

AtMost-refl : (s : Score) → AtMost s s
AtMost-refl (a, (b, c)) = inr (refl, inr (refl, omega arith))

pub not_below : (s t : Score) → below t s ≡ false → AtMost s t
not_below (a, (b, c)) (x, (y, z)) h = ground (arith, h)

pub is_below : (s t : Score) → below t s ≡ true → AtMost t s
is_below (a, (b, c)) (x, (y, z)) h = ground (arith, h)

-- The best layout so far has a score that is not below `s`.
abbrev pub Reached : Score → Best → Type 0
Reached s b = (t : Score) × (b.score ≡ some t) × AtMost s t

module _ (bonus pp ep replicas : ℕ) (b : Best) where
  pub consider_better :
      beats (bonus, (pp, replicas)) b.score ≡ true
      → consider bonus pp ep replicas b
        ≡ record { score = some (bonus, (pp, replicas)); pp = pp; ep = ep; replicas = replicas }
  unfolding consider
  consider_better h = rw h refl

  pub consider_worse :
      beats (bonus, (pp, replicas)) b.score ≡ false → consider bonus pp ep replicas b ≡ b
  unfolding consider
  consider_worse h = rw h refl

  pub consider-Reached : Reached (bonus, (pp, replicas)) (consider bonus pp ep replicas b)
  consider-Reached =
      let s : Score = (bonus, (pp, replicas)) in
      elim (Bool-cases (beats s b.score)) [
        | inl better ↦ subst (Reached s) (sym (consider_better better)) (s, refl, AtMost-refl s)
        | inr worse ↦ subst (Reached s) (sym (consider_worse worse)) (elim (Option-cases b.score) [
          | inl none_yet ↦ absurd (true≢false (subst (λ o. beats s o ≡ false) none_yet worse))
          | inr (t, is) ↦ (t, is, not_below s t (subst (λ o. beats s o ≡ false) is worse))
        ])
      ]

  pub consider-keeps_Reached :
      (s : Score) → Reached s b → Reached s (consider bonus pp ep replicas b)
  consider-keeps_Reached s (t, is, le) =
      let new : Score = (bonus, (pp, replicas)) in
      elim (Bool-cases (beats new b.score)) [
        | inr worse ↦ subst (Reached s) (sym (consider_worse worse)) (t, is, le)
        | inl better ↦
            let up = is_below new t (subst (λ o. beats new o ≡ true) is better) in
            subst (Reached s) (sym (consider_better better)) (new, refl, AtMost-trans s t new le up)
      ]
