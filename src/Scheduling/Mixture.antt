-- ===== src/Scheduling/Mixture.antt =====
-- scheduling.py: for a model with experts the plan has the greatest score of all the layouts that the
-- GPUs allow.
use superl8_serve.Prelude.{
  ℕ, ◌≤◌, ◌≡◌, refl, sym, subst, ◌∙◌, min, max, some, false, ◌==◌, leb, arith, inl, inr,
}
use mathlib.Core.Option.{none-ne-some, some_inj}
use mathlib.Core.Path.{subst₂}
use superl8_serve.Scheduling.{
  ModelConfig, ParallelismStrategy, ep_bonus, no_best, experts_of, plan_parallelism, layout,
}
use superl8_serve.Scheduling.Scores.{AtMost, best_of}
use superl8_serve.Scheduling.Search.{IsCandidate, over_replicas-Searched}

-- For a model with experts on two GPUs or more, where some layout is allowed (as many replicas as
-- divide the GPUs, for each two stages or more within `max_pp` and the layers, and at most as many
-- expert groups as experts, which use all of its GPUs): the plan exists, is such a layout, and its
-- score (whether its groups share the experts meaningfully, then its stages, then its replicas) is
-- not below that of the other layout.
pub plan_parallelism-best :
    (cfg : ModelConfig) (gpus max_pp pp ep replicas : ℕ)
    → 2 ≤ gpus
    → IsCandidate max_pp cfg.num_hidden_layers (experts_of cfg) gpus pp ep replicas
    → (st : ParallelismStrategy) × (plan_parallelism cfg gpus max_pp ≡ some st)
      × IsCandidate max_pp cfg.num_hidden_layers
          (experts_of cfg)
          gpus
          st.pp_size
          st.ep_size
          st.num_replicas
      × AtMost
          (ep_bonus (experts_of cfg) ep, (pp, replicas))
          (ep_bonus (experts_of cfg) st.ep_size, (st.pp_size, st.num_replicas))
unfolding plan_parallelism
plan_parallelism-best cfg gpus max_pp pp ep replicas many c =
    let layers = cfg.num_hidden_layers in
    let experts = experts_of cfg in
    let b = best_of cfg gpus max_pp in
    let positive : leb gpus 0 ≡ false = ground (arith, many) in
    let several : (gpus == 1) ≡ false = ground (arith, many) in
    let searched =
      over_replicas-Searched max_pp layers experts gpus gpus no_best
        (omega (arith, c.some_ep, c.enough_experts)) (omega arith) (inl refl) in
    let (t, is, le) = searched.all pp ep replicas c c.few in
    elim searched.chosen [
      | inl no_score ↦ absurd (none-ne-some _ (sym no_score ∙ is))
      | inr (scored, chosen) ↦
          let same_pp : b.pp ≡ max 1 (min b.pp (min max_pp layers)) =
            omega (arith, chosen.deep, chosen.shallow) in
          let same_ep : b.ep ≡ max 1 (min b.ep (max 1 experts)) =
            omega (arith, chosen.some_ep, chosen.enough_experts) in
          let at_most : AtMost (ep_bonus experts ep, (pp, replicas))
              (ep_bonus experts b.ep, (b.pp, b.replicas)) =
            subst (AtMost (ep_bonus experts ep, (pp, replicas))) (some_inj.0 (sym is ∙ scored))
              le in
          (
            layout cfg gpus max_pp b,
            rw (plan_parallelism, positive, several) refl,
            subst₂ (λ p e. IsCandidate max_pp layers experts gpus p e b.replicas) same_pp same_ep
                chosen,
            subst₂
                (λ p e.
                  AtMost (ep_bonus experts ep, (pp, replicas))
                    (ep_bonus experts e, (p, b.replicas)))
                same_pp same_ep at_most,
          )
    ]
