-- ===== src/Scheduling.antt =====
-- scheduling.py: the layout of pipeline stages, expert groups and replicas that the planner
-- recommends, and the check of a configuration. A score's -1 is `none`; messages are their number,
-- and the throughput estimate is left out.
pub mod Scores
pub mod Depth
pub mod Dense
pub mod Search
pub mod Mixture
pub mod Tests
use superl8_serve.Prelude.{
  ℕ, zero, suc, ◌+◌, ◌-◌, ◌*◌, ◌/◌, ◌%◌, min, max, Option, none, some, Bool, true, false, ◌&&◌,
  ◌||◌, if◌then◌else◌, ◌==◌, ltb, leb,
}

pub record ModelConfig : Type 0 where
  pub num_hidden_layers : ℕ
  pub num_experts : ℕ
  pub is_moe : Bool

pub data Label : Type 0 where
  replicate shallow_pp pp_replicate pp_plus_local_ep : Label

pub record ParallelismStrategy : Type 0 where
  pub num_gpus : ℕ
  pub pp_size : ℕ
  pub ep_size : ℕ
  pub strategy : Label
  pub num_replicas : ℕ
  pub warnings : ℕ

-- `best_score` with `best_pp`, `best_ep` and `best_replicas`.
pub record Best : Type 0 where
  pub score : Option (ℕ × (ℕ × ℕ))
  pub pp : ℕ
  pub ep : ℕ
  pub replicas : ℕ

-- `<` of two tuples of three.
abbrev pub below : ℕ × (ℕ × ℕ) → ℕ × (ℕ × ℕ) → Bool
below (a, (b, c)) (x, (y, z)) = ltb a x || ((a == x) && (ltb b y || ((b == y) && ltb c z)))

abbrev pub beats : ℕ × (ℕ × ℕ) → Option (ℕ × (ℕ × ℕ)) → Bool
beats score none = true
beats score (some best) = below best score

unfoldable pub consider : ℕ → ℕ → ℕ → ℕ → Best → Best
consider ep_bonus pp ep replicas best =
    if beats (ep_bonus, (pp, replicas)) best.score
    then record { score = some (ep_bonus, (pp, replicas)); pp = pp; ep = ep; replicas = replicas }
    else best

-- The loop body for a dense model.
unfoldable pub dense : ℕ → ℕ → ℕ → ℕ → Best → Best
unfolding consider
dense max_pp n_layers gpus_per_replica replicas best =
    let pp = min max_pp (min n_layers gpus_per_replica) in
    if leb 2 pp then consider 0 pp 1 replicas best else best

unfoldable pub ep_bonus : ℕ → ℕ → ℕ
ep_bonus n_experts ep = if leb 2 ep && leb 2 (n_experts / ep) then 1 else 0

-- The `for` over `ep`, from `ep` on with `left` more of them.
unfoldable pub over_ep : ℕ → ℕ → ℕ → ℕ → ℕ → ℕ → Best → Best
unfolding consider ep_bonus
over_ep n_experts gpus_per_replica pp replicas ep zero best = best
over_ep n_experts gpus_per_replica pp replicas ep (suc left) best =
    over_ep n_experts gpus_per_replica pp replicas (ep + 1) left (
      if pp * ep == gpus_per_replica
      then consider (ep_bonus n_experts ep) pp ep replicas best
      else best)

-- The `for` over `pp`, downwards to 2.
unfoldable pub over_pp : ℕ → ℕ → ℕ → ℕ → Best → Best
unfolding over_ep
over_pp n_experts gpus_per_replica replicas zero best = best
over_pp n_experts gpus_per_replica replicas (suc p) best =
    over_pp n_experts gpus_per_replica replicas p (
      if leb 2 (suc p)
      then over_ep n_experts gpus_per_replica (suc p) replicas 1
          (min (gpus_per_replica / suc p) n_experts) best
      else best)

-- The `for` over `replicas`, downwards to 1.
unfoldable pub over_replicas : ℕ → ℕ → ℕ → ℕ → ℕ → Best → Best
unfolding dense over_pp
over_replicas max_pp n_layers n_experts num_gpus zero best = best
over_replicas max_pp n_layers n_experts num_gpus (suc r) best =
    let gpus_per_replica = num_gpus / suc r in
    over_replicas max_pp n_layers n_experts num_gpus r (
      if num_gpus % suc r == 0
      then if n_experts == 0
        then dense max_pp n_layers gpus_per_replica (suc r) best
        else over_pp n_experts gpus_per_replica (suc r) (min max_pp (min n_layers gpus_per_replica))
            best
      else best)

abbrev pub label : ℕ → ℕ → ℕ → Label
label pp ep replicas =
    if (replicas == 1) && ((pp == 1) && (ep == 1))
    then replicate
    else if ltb 1 ep
    then pp_plus_local_ep
    else if ltb 1 replicas
    then pp_replicate
    else shallow_pp

abbrev pub no_best : Best
no_best = record { score = none; pp = 1; ep = 1; replicas = 1 }

abbrev pub experts_of : ModelConfig → ℕ
experts_of cfg = if cfg.is_moe then cfg.num_experts else 0

abbrev pub one_gpu : ParallelismStrategy
one_gpu = record {
  num_gpus = 1;
  pp_size = 1;
  ep_size = 1;
  strategy = replicate;
  num_replicas = 1;
  warnings = 0;
}

-- The strategy of the best layout.
abbrev pub layout : ModelConfig → ℕ → ℕ → Best → ParallelismStrategy
layout cfg num_gpus max_pp best =
    let pp = max 1 (min best.pp (min max_pp cfg.num_hidden_layers)) in
    let ep = max 1 (min best.ep (max 1 (experts_of cfg))) in
    record {
      num_gpus = num_gpus;
      pp_size = pp;
      ep_size = ep;
      strategy = label pp ep best.replicas;
      num_replicas = best.replicas;
      warnings = if ltb cfg.num_hidden_layers (max pp 1) then 1 else 0;
    }

-- With `none` for the ValueError.
unfoldable pub plan_parallelism : ModelConfig → ℕ → ℕ → Option ParallelismStrategy
unfolding over_replicas
plan_parallelism cfg num_gpus max_pp =
    let best =
      over_replicas max_pp cfg.num_hidden_layers (experts_of cfg) num_gpus num_gpus no_best in
    if leb num_gpus 0
    then none
    else if num_gpus == 1
    then some one_gpu
    else some (layout cfg num_gpus max_pp best)

-- The numbers of warnings and of errors. Sizes below zero, which are errors too, are left out.
unfoldable pub validate_parallel_config : ℕ → ℕ → ℕ × ℕ
validate_parallel_config tp pp =
    (if ltb 4 pp then 1 else 0, (if tp == 1 then 0 else 1) + (if pp == 0 then 1 else 0))
