-- ===== src/Scheduling/Depth.antt =====
-- scheduling.py: the loop over the replicas of a dense model passes over no deeper pipeline.
use superl8_serve.Prelude.{
  ℕ, zero, suc, ◌/◌, ◌%◌, ◌≤◌, ◌<◌, ◌≡◌, refl, sym, subst, min, none, some, true, false,
  if◌then◌else◌, ◌==◌, leb, arith, Bool-cases, inl, inr, ◌⊎◌,
}
use mathlib.Core.Bool.{true≢false}
use native.Mathlib.Decide.{ℕ_discrete}
use superl8_serve.Scheduling.{Best, below, beats, consider, dense, over_replicas}
use superl8_serve.Scheduling.Scores.{consider_better, consider_worse}

-- The score of the best layout so far is that of a dense model.
abbrev pub Scored : Best → Type 0
Scored b = (b.score ≡ none) ⊎ (b.score ≡ some (0, (b.pp, b.replicas)))

-- A pipeline of two stages or more is not deeper, nor as deep with more replicas.
abbrev pub Covers : ℕ → ℕ → Best → Type 0
Covers pp replicas b =
    2 ≤ pp
    → (b.score ≡ some (0, (b.pp, b.replicas)))
      × ((pp < b.pp) ⊎ ((pp ≡ b.pp) × (replicas ≤ b.replicas)))

not_below : (x y p r : ℕ) → below (0, (x, y)) (0, (p, r)) ≡ false → (p < x) ⊎ ((p ≡ x) × (r ≤ y))
not_below x y p r h = ground (arith, h)

is_below : (x y p r : ℕ) → below (0, (x, y)) (0, (p, r)) ≡ true → (x < p) ⊎ ((x ≡ p) × (y ≤ r))
is_below x y p r h = ground (arith, h)

module _ (pp replicas : ℕ) (b : Best) where
  consider-Scored : Scored b → Scored (consider 0 pp 1 replicas b)
  consider-Scored h = elim (Bool-cases (beats (0, (pp, replicas)) b.score)) [
    | inl better ↦ subst Scored (sym (consider_better 0 pp 1 replicas b better)) (inr refl)
    | inr worse ↦ subst Scored (sym (consider_worse 0 pp 1 replicas b worse)) h
  ]

  consider-Covers : Scored b → Covers pp replicas (consider 0 pp 1 replicas b)
  consider-Covers h = elim (Bool-cases (beats (0, (pp, replicas)) b.score)) [
    | inl better ↦
        subst (Covers pp replicas) (sym (consider_better 0 pp 1 replicas b better))
          (λ deep. (refl, inr (refl, omega arith)))
    | inr worse ↦
        subst (Covers pp replicas) (sym (consider_worse 0 pp 1 replicas b worse)) (elim h [
          | inl none_yet ↦
              absurd (true≢false (subst (λ o. beats (0, (pp, replicas)) o ≡ false) none_yet worse))
          | inr scored ↦ λ deep. (
            scored,
            not_below b.pp b.replicas pp replicas
                (subst (λ o. beats (0, (pp, replicas)) o ≡ false) scored worse),
          )
        ])
  ]

  consider-keeps_Covers : (q n : ℕ) → Covers q n b → Covers q n (consider 0 pp 1 replicas b)
  consider-keeps_Covers q n h = elim (Bool-cases (beats (0, (pp, replicas)) b.score)) [
    | inr worse ↦ subst (Covers q n) (sym (consider_worse 0 pp 1 replicas b worse)) h
    | inl better ↦ subst (Covers q n) (sym (consider_better 0 pp 1 replicas b better)) (λ deep.
        let (scored, less) = h deep in
        let up =
          is_below b.pp b.replicas pp replicas
            (subst (λ o. beats (0, (pp, replicas)) o ≡ true) scored better) in
        (refl, further q n b.pp b.replicas pp replicas less up))
  ]
    where
      further :
          (q n x y p r : ℕ)
          → (q < x) ⊎ ((q ≡ x) × (n ≤ y))
          → (x < p) ⊎ ((x ≡ p) × (y ≤ r))
          → (q < p) ⊎ ((q ≡ p) × (n ≤ r))
      further q n x y p r (inl lt) (inl lt') = inl (omega (arith, lt, lt'))
      further q n x y p r (inl lt) (inr (e, le)) = inl (omega (arith, lt, e))
      further q n x y p r (inr (e, le)) (inl lt) = inl (omega (arith, e, lt))
      further q n x y p r (inr (e, le)) (inr (e', le')) =
          inr (omega (arith, e, e'), omega (arith, le, le'))

pub record Covered (max_pp layers gpus r : ℕ) (b end : Best) : Type 0 where
  scored : Scored end
  kept : (q n : ℕ) → Covers q n b → Covers q n end
  pub all :
      (n : ℕ) → 1 ≤ n → n ≤ r → gpus % n ≡ 0 → Covers (min max_pp (min layers (gpus / n))) n end

module _ (max_pp layers gpus : ℕ) where
  abbrev pub body : ℕ → Best → Best
  body r b = if gpus % suc r == 0 then dense max_pp layers (gpus / suc r) (suc r) b else b

  abbrev pub depth : ℕ → ℕ
  depth n = min max_pp (min layers (gpus / n))

  record Considered (r : ℕ) (b end : Best) : Type 0 where
    scored : Scored end
    kept : (q n : ℕ) → Covers q n b → Covers q n end
    new : gpus % suc r ≡ 0 → Covers (depth (suc r)) (suc r) end

  dense-Considered :
      (r : ℕ) (b : Best) → Scored b → Considered r b (dense max_pp layers (gpus / suc r) (suc r) b)
  unfolding dense
  dense-Considered r b h = elim (Bool-cases (leb 2 (depth (suc r)))) [
    | inl deep ↦ rw deep (record {
      scored = consider-Scored (depth (suc r)) (suc r) b h;
      kept = λ q n. consider-keeps_Covers (depth (suc r)) (suc r) b q n;
      new = λ divides. consider-Covers (depth (suc r)) (suc r) b h;
    })
    | inr flat ↦ rw flat (record {
      scored = h;
      kept = λ q n c. c;
      new = λ divides deep. absurd (ground (arith, flat, deep));
    })
  ]

  body-Considered : (r : ℕ) (b : Best) → Scored b → Considered r b (body r b)
  body-Considered r b h = elim (Bool-cases (gpus % suc r == 0)) [
    | inl divides ↦ rw divides (dense-Considered r b h)
    | inr other ↦ rw other (record {
      scored = h;
      kept = λ q n c. c;
      new = λ divides. absurd (ground (arith, other, divides));
    })
  ]

  pub over_replicas-Covered :
      (r : ℕ) (b : Best)
      → Scored b
      → Covered max_pp layers gpus r b (over_replicas max_pp layers 0 gpus r b)
  unfolding over_replicas
  over_replicas-Covered zero b h = record {
    scored = h;
    kept = λ q n c. c;
    all = λ n some_n few. absurd (omega (arith, some_n, few));
  }
  over_replicas-Covered (suc r) b h =
      let one = body-Considered r b h in
      let rest = over_replicas-Covered r (body r b) one.scored in
      record {
        scored = rest.scored;
        kept = λ q n c. rest.kept q n (one.kept q n c);
        all = λ n some_n few divides. elim (ℕ_discrete n (suc r)) [
          | yes last ↦
              rw last (
                rest.kept (depth (suc r)) (suc r)
                  (one.new (subst (λ m. gpus % m ≡ 0) last divides)))
          | no less ↦ rest.all n some_n (omega (arith, few, less)) divides
        ];
      }
