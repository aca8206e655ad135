-- ===== src/Scheduling/Tests.antt =====
-- scheduling.py: plans of small fleets, and examples of the theorems.
use superl8_serve.Prelude.{◌≤◌, ◌<◌, ◌≡◌, refl, some, true, false, arith, ◌⊎◌}
use superl8_serve.Scheduling.{
  ModelConfig, ParallelismStrategy, shallow_pp, pp_plus_local_ep, consider, dense, ep_bonus,
  over_ep, over_pp, over_replicas, plan_parallelism,
}
use superl8_serve.Scheduling.Scores.{AtMost}
use superl8_serve.Scheduling.Search.{IsCandidate}
use superl8_serve.Scheduling.Mixture.{plan_parallelism-best}
use superl8_serve.Scheduling.Dense.{IsFeasible, stages, plan_parallelism-deepest}

abbrev llama : ModelConfig
llama = record { num_hidden_layers = 32; num_experts = 0; is_moe = false }

abbrev mixture : ModelConfig
mixture = record { num_hidden_layers = 24; num_experts = 16; is_moe = true }

-- Six GPUs get one pipeline of four, which leaves two of them.
plan_six :
    plan_parallelism llama 6 4
    ≡ some (record {
      num_gpus = 6;
      pp_size = 4;
      ep_size = 1;
      strategy = shallow_pp;
      num_replicas = 1;
      warnings = 0;
    })
unfolding plan_parallelism over_replicas dense consider
plan_six = refl

-- Sixteen GPUs get two replicas of four stages with two expert groups.
plan_mixture :
    plan_parallelism mixture 16 4
    ≡ some (record {
      num_gpus = 16;
      pp_size = 4;
      ep_size = 2;
      strategy = pp_plus_local_ep;
      num_replicas = 2;
      warnings = 0;
    })
unfolding plan_parallelism over_replicas over_pp over_ep ep_bonus dense consider
plan_mixture = refl

-- One replica of four stages with four expert groups is allowed too.
plan_parallelism-best_example :
    (st : ParallelismStrategy) × (plan_parallelism mixture 16 4 ≡ some st)
    × IsCandidate 4 24 16 16 st.pp_size st.ep_size st.num_replicas
    × AtMost (ep_bonus 16 4, (4, 1)) (ep_bonus 16 st.ep_size, (st.pp_size, st.num_replicas))
plan_parallelism-best_example = plan_parallelism-best mixture 16 4 4 4 1 (omega arith) (record {
  some_replicas = omega arith;
  few = omega arith;
  divides = refl;
  deep = omega arith;
  shallow = omega arith;
  some_ep = omega arith;
  enough_experts = omega arith;
  used = refl;
})

plan_parallelism-deepest_example :
    (st : ParallelismStrategy) × (plan_parallelism llama 6 4 ≡ some st)
    × IsFeasible llama 6 4 st
    × ((stages llama 6 4 2 < st.pp_size)
        ⊎ ((stages llama 6 4 2 ≡ st.pp_size) × (2 ≤ st.num_replicas)))
plan_parallelism-deepest_example =
    plan_parallelism-deepest llama 6 4 2 refl (omega arith) (omega arith) (omega arith) refl
      (omega arith)
