-- ===== src/Dist/Pipeline.antt =====
-- dist/pipeline.py: how make_pipeline divides the layers of a model into stages. A layer is its index
-- in the model; devices, weights and modules are left out.
pub mod Partition
pub mod Tests
use superl8_serve.Prelude.{
  ℕ, zero, suc, ◌+◌, ◌-◌, ◌*◌, ◌/◌, List, [], ◌∷◌, ◌++◌, Option, none, some, Bool, if◌then◌else◌,
  ◌==◌, ltb, length, take, drop,
}

-- `embed` and `norm`, `lm_head` say whether the stage has them; `cache_layers` is the number of layers
-- of its cache.
pub record PipelineStage : Type 0 where
  pub stage_id : ℕ
  pub embed : Bool
  pub layers : List ℕ
  pub norm : Bool
  pub lm_head : Bool
  pub layer_offset : ℕ
  pub num_stages : ℕ
  pub cache_layers : ℕ

unfoldable pub is_first : PipelineStage → Bool
is_first st = st.stage_id == 0

unfoldable pub is_last : PipelineStage → Bool
is_last st = st.stage_id == (st.num_stages - 1)

-- `bounds[i]`.
abbrev pub bound : ℕ → ℕ → ℕ → ℕ
bound n_layers n_stages i = i * n_layers / n_stages

unfoldable pub stage_at : List ℕ → ℕ → ℕ → PipelineStage
stage_at layers n_stages stage_id =
    let start = bound (length layers) n_stages stage_id in
    let end = bound (length layers) n_stages (stage_id + 1) in
    record {
      stage_id = stage_id;
      embed = stage_id == 0;
      layers = drop start (take end layers);
      norm = stage_id == (n_stages - 1);
      lm_head = stage_id == (n_stages - 1);
      layer_offset = start;
      num_stages = n_stages;
      cache_layers = end - start;
    }

-- The `for` over the devices, from `stage_id` on with `left` more of them.
unfoldable pub stages_from : List ℕ → ℕ → ℕ → ℕ → List PipelineStage
unfolding stage_at
stages_from layers n_stages stage_id zero = []
stages_from layers n_stages stage_id (suc left) =
    stage_at layers n_stages stage_id ∷ stages_from layers n_stages (stage_id + 1) left

-- The stages for a number of devices, with `none` for a ValueError.
unfoldable pub make_pipeline : List ℕ → ℕ → Option (List PipelineStage)
unfolding stages_from
make_pipeline layers n_stages =
    if ltb n_stages 2
    then none
    else if ltb (length layers) n_stages
    then none
    else some (stages_from layers n_stages 0 n_stages)

-- The layer of its cache that a stage uses for a layer of the model: `layer - self._offset`.
abbrev pub remapped : PipelineStage → ℕ → ℕ
remapped st layer = layer - st.layer_offset
