-- ===== src/Scheduling/Dense.antt =====
-- scheduling.py: for a dense model the plan has the deepest pipeline, and of those the most replicas.
use superl8_serve.Prelude.{
  ℕ, zero, suc, ◌/◌, ◌%◌, ◌≤◌, ◌<◌, ◌≡◌, refl, sym, ap, subst, ◌∙◌, min, max, none, some, false,
  ◌==◌, leb, arith, Bool-cases, inl, inr, ◌⊎◌,
}
use mathlib.Core.Option.{none-ne-some}
use superl8_serve.Scheduling.{
  ModelConfig, ParallelismStrategy, Best, beats, consider, dense, over_replicas, no_best,
  experts_of, plan_parallelism, layout,
}
use superl8_serve.Scheduling.Scores.{best_of, consider_better, consider_worse}
use superl8_serve.Scheduling.Depth.{Covers, body, depth, over_replicas-Covered}

-- The stages of a replica where the GPUs are divided into `n`.
abbrev pub stages : ModelConfig → ℕ → ℕ → ℕ → ℕ
stages cfg gpus max_pp n = min max_pp (min cfg.num_hidden_layers (gpus / n))

-- What the loop has chosen: as many replicas as divide the GPUs, the stages of each, and no expert
-- groups.
record IsChosen (max_pp layers gpus : ℕ) (b : Best) : Type 0 where
  some_replicas : 1 ≤ b.replicas
  few : b.replicas ≤ gpus
  divides : gpus % b.replicas ≡ 0
  depth_of : b.pp ≡ min max_pp (min layers (gpus / b.replicas))
  single : b.ep ≡ 1

module _ (max_pp layers gpus : ℕ) where
  abbrev Chosen : Best → Type 0
  Chosen b = (b.score ≡ none) ⊎ IsChosen max_pp layers gpus b

  dense-Chosen :
      (r : ℕ) (b : Best)
      → suc r ≤ gpus
      → gpus % suc r ≡ 0
      → Chosen b
      → Chosen (dense max_pp layers (gpus / suc r) (suc r) b)
  unfolding dense
  dense-Chosen r b few divides h = elim (Bool-cases (leb 2 (depth max_pp layers gpus (suc r)))) [
    | inr flat ↦ rw flat h
    | inl deep ↦ rw deep (considered (depth max_pp layers gpus (suc r)) refl)
  ]
    where
      considered :
          (pp : ℕ) → pp ≡ depth max_pp layers gpus (suc r) → Chosen (consider 0 pp 1 (suc r) b)
      considered pp is = elim (Bool-cases (beats (0, (pp, suc r)) b.score)) [
        | inr worse ↦ subst Chosen (sym (consider_worse 0 pp 1 (suc r) b worse)) h
        | inl better ↦ subst Chosen (sym (consider_better 0 pp 1 (suc r) b better)) (
            inr (record {
              some_replicas = omega arith;
              few = few;
              divides = divides;
              depth_of = is;
              single = refl;
            }))
      ]

  over_replicas-Chosen :
      (r : ℕ) (b : Best) → r ≤ gpus → Chosen b → Chosen (over_replicas max_pp layers 0 gpus r b)
  unfolding over_replicas
  over_replicas-Chosen zero b few h = h
  over_replicas-Chosen (suc r) b few h =
      over_replicas-Chosen r (body max_pp layers gpus r b) (omega (arith, few))
        (elim (Bool-cases (gpus % suc r == 0)) [
          | inl divides ↦ rw divides (dense-Chosen r b few (ground (arith, divides)) h)
          | inr other ↦ rw other h
        ])

-- A plan that the GPUs allow: as many replicas as divide them, each with all the stages that they
-- have room for within the limits, and no expert groups.
pub record IsFeasible (cfg : ModelConfig) (gpus max_pp : ℕ) (st : ParallelismStrategy)
    : Type 0 where
  pub some_replicas : 1 ≤ st.num_replicas
  pub few : st.num_replicas ≤ gpus
  pub divides : gpus % st.num_replicas ≡ 0
  pub stages_of : st.pp_size ≡ stages cfg gpus max_pp st.num_replicas
  pub single : st.ep_size ≡ 1

-- For a dense model on two GPUs or more, where some number of replicas that divides the GPUs allows
-- a pipeline of two stages or more: the plan exists; its replicas divide the GPUs, its stages are
-- the most that the GPUs of a replica, the layers and `max_pp` allow, and it has one expert group;
-- and the pipeline of that other number of replicas is not deeper than the plan's, and where it is
-- as deep, the number is at most the plan's.
pub plan_parallelism-deepest :
    (cfg : ModelConfig) (gpus max_pp n : ℕ)
    → cfg.is_moe ≡ false
    → 2 ≤ gpus
    → 1 ≤ n
    → n ≤ gpus
    → gpus % n ≡ 0
    → 2 ≤ stages cfg gpus max_pp n
    → (st : ParallelismStrategy) × (plan_parallelism cfg gpus max_pp ≡ some st)
      × IsFeasible cfg gpus max_pp st
      × ((stages cfg gpus max_pp n < st.pp_size)
          ⊎ ((stages cfg gpus max_pp n ≡ st.pp_size) × (n ≤ st.num_replicas)))
unfolding plan_parallelism
plan_parallelism-deepest cfg gpus max_pp n is_dense many some_n few divides deep =
    let layers = cfg.num_hidden_layers in
    let b = best_of cfg gpus max_pp in
    let no_experts : experts_of cfg ≡ 0 = rw is_dense refl in
    let same : b ≡ over_replicas max_pp layers 0 gpus gpus no_best =
      ap (λ e. over_replicas max_pp layers e gpus gpus no_best) no_experts in
    let most = subst (Covers (stages cfg gpus max_pp n) n) (sym same) (
      (over_replicas-Covered max_pp layers gpus gpus no_best (inl refl)).all n some_n few
        divides) in
    let chosen : IsChosen max_pp layers gpus b =
      elim (subst (Chosen max_pp layers gpus) (sym same)
        (over_replicas-Chosen max_pp layers gpus gpus no_best (omega arith) (inl refl))) [
          | inl nothing ↦ absurd (none-ne-some _ (sym nothing ∙ (most deep).0))
          | inr c ↦ c
        ] in
    let positive : leb gpus 0 ≡ false = ground (arith, many) in
    let several : (gpus == 1) ≡ false = ground (arith, many) in
    let two : 2 ≤ b.pp = elim (most deep).1 [
      | inl less ↦ omega (arith, less, deep)
      | inr (as_deep, fewer) ↦ omega (arith, as_deep, deep)
    ] in
    let all : max 1 (min b.pp (min max_pp layers)) ≡ b.pp = omega (arith, two, chosen.depth_of) in
    (
      layout cfg gpus max_pp b,
      rw (plan_parallelism, positive, several) refl,
      record {
        some_replicas = chosen.some_replicas;
        few = chosen.few;
        divides = chosen.divides;
        stages_of = all ∙ chosen.depth_of;
        single = omega (arith, chosen.single);
      },
      elim (most deep).1 [
        | inl less ↦ inl (omega (arith, less, all))
        | inr (as_deep, fewer) ↦ inr (omega (arith, as_deep, all), fewer)
      ],
    )
