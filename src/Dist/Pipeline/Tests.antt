-- ===== src/Dist/Pipeline/Tests.antt =====
-- dist/pipeline.py: a model on three devices, and an example of the theorem.
use superl8_serve.Prelude.{ℕ, ◌≤◌, ◌<◌, ◌≡◌, refl, List, [], ◌∷◌, none, some, ◌⊎◌, map, length}
use superl8_serve.Dist.Pipeline.{PipelineStage, stages_from, stage_at, make_pipeline}
use superl8_serve.Dist.Pipeline.Partition.{Chain, all_layers, make_pipeline-Partitions}

abbrev model : List ℕ
model = 0 ∷ 1 ∷ 2 ∷ 3 ∷ 4 ∷ []

-- Of five layers, the later stages get more.
stages_of_five :
    map (λ st. st.layers) (stages_from model 3 0 3) ≡ (0 ∷ []) ∷ (1 ∷ 2 ∷ []) ∷ (3 ∷ 4 ∷ []) ∷ []
unfolding stages_from stage_at
stages_of_five = refl

too_many_devices : make_pipeline model 6 ≡ none
unfolding make_pipeline
too_many_devices = refl

make_pipeline-Partitions_example :
    ((3 < 2 ⊎ length model < 3) × (make_pipeline model 3 ≡ none))
    ⊎ (2 ≤ 3
        × 3 ≤ length model
        × (stages : List PipelineStage) × (make_pipeline model 3 ≡ some stages)
        × (length stages ≡ 3)
        × (all_layers stages ≡ model)
        × Chain 0 0 stages)
make_pipeline-Partitions_example = make_pipeline-Partitions model 3
