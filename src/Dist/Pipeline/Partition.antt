-- ===== src/Dist/Pipeline/Partition.antt =====
-- dist/pipeline.py: the stages are the layers of the model in their order.
use superl8_serve.Prelude.{
  ℕ, zero, suc, ◌+◌, ◌-◌, ◌*◌, ◌≤◌, ◌<◌, ◌≡◌, refl, sym, ap, subst, ◌∙◌, List, [], ◌∷◌, ◌++◌, none,
  some, ltb, ltb→lt, arith, length, take, drop, length-take, length-drop, Bool-cases, inl, inr, ◌⊎◌,
}
use native.Mathlib.Nat.{
  div-mul-le_self, le-div_iff_mul-le, div-le_of_le-mul, mul-le-mul_right, mul-div_cancel_left,
}
use superl8_serve.Dist.Pipeline.{
  PipelineStage, is_first, is_last, bound, stage_at, stages_from, make_pipeline, remapped,
}

slice-append : (a b : ℕ) (xs : List ℕ) → a ≤ b → drop a (take b xs) ++ drop b xs ≡ drop a xs
slice-append zero zero xs le = refl
slice-append zero (suc b) [] le = refl
slice-append zero (suc b) (x ∷ xs) le = ap (◌∷◌ x) (slice-append zero b xs (omega arith))
slice-append (suc a) zero xs le = absurd (omega (arith, le))
slice-append (suc a) (suc b) [] le = refl
slice-append (suc a) (suc b) (x ∷ xs) le = slice-append a b xs (omega (arith, le))

drop_all : (xs : List ℕ) → drop (length xs) xs ≡ []
drop_all [] = refl
drop_all (x ∷ xs) = drop_all xs

module _ (n s : ℕ) (some_stage : 0 < s) where
  bound-grows : (i : ℕ) → s ≤ n → bound n s i + 1 ≤ bound n s (i + 1)
  bound-grows i enough =
      (le-div_iff_mul-le some_stage).1 (omega (arith, div-mul-le_self (i * n) s, enough))

  bound-within : (i : ℕ) → i ≤ s → bound n s i ≤ n
  bound-within i le = div-le_of_le-mul s (mul-le-mul_right n le)

  bound-end : bound n s s ≡ n
  bound-end = mul-div_cancel_left n some_stage

  bound-start : bound n s 0 ≡ 0
  bound-start =
      let below : bound n s 0 ≤ 0 = div-le_of_le-mul s (omega arith) in omega (arith, below)

  length-slice :
      (layers : List ℕ) (i : ℕ)
      → length layers ≡ n
      → i < s
      → length (drop (bound n s i) (take (bound n s (i + 1)) layers))
        ≡ bound n s (i + 1) - bound n s i
  length-slice layers i len lt = omega (
    arith,
    length-drop (bound n s i) (take (bound n s (i + 1)) layers),
    length-take (bound n s (i + 1)) layers,
    bound-within (i + 1) (omega (arith, lt)),
    len,
  )

-- All layers of the stages, in order.
unfoldable pub all_layers : List PipelineStage → List ℕ
all_layers [] = []
all_layers (st ∷ sts) = st.layers ++ all_layers sts

-- A stage that follows `before` layers, as the `after`-th of the stages: it has a layer, a cache with
-- as many, which it uses for its layers in order, and the embedding and the head where it is the first and the last.
pub record IsStage (before after : ℕ) (st : PipelineStage) : Type 0 where
  pub place : st.stage_id ≡ after
  pub offset : st.layer_offset ≡ before
  pub cached_at : (i : ℕ) → remapped st (before + i) ≡ i
  pub some_layer : 0 < length st.layers
  pub cache : st.cache_layers ≡ length st.layers
  pub first : st.embed ≡ is_first st
  pub last : (st.norm ≡ is_last st) × (st.lm_head ≡ is_last st)

-- Stages that follow one another.
pub data Chain : ℕ → ℕ → List PipelineStage → Type 0 where
  done : {before after : ℕ} → Chain before after []
  next :
      {before after : ℕ} {st : PipelineStage} {sts : List PipelineStage}
      → IsStage before after st
      → Chain (before + length st.layers) (after + 1) sts
      → Chain before after (st ∷ sts)

module _ (layers : List ℕ) (s : ℕ) (some_stage : 0 < s) (enough : s ≤ length layers) where
  stage_at-IsStage : (i : ℕ) → i < s → IsStage (bound (length layers) s i) i (stage_at layers s i)
  unfolding stage_at is_first is_last
  stage_at-IsStage i lt =
      let len = length-slice (length layers) s some_stage layers i refl lt in
      record {
        place = refl;
        offset = refl;
        cached_at = λ i. omega arith;
        some_layer = omega (arith, len, bound-grows (length layers) s some_stage i enough);
        cache = sym len;
        first = refl;
        last = (refl, refl);
      }

  stages_from-Chain :
      (i left : ℕ)
      → i + left ≡ s
      → Chain (bound (length layers) s i) i (stages_from layers s i left)
  unfolding stages_from stage_at
  stages_from-Chain i zero eq = done
  stages_from-Chain i (suc left) eq = next (stage_at-IsStage i (omega (arith, eq))) (
      subst (λ before. Chain before (i + 1) (stages_from layers s (i + 1) left))
        (omega (
          arith,
          length-slice (length layers) s some_stage layers i refl (omega (arith, eq)),
          bound-grows (length layers) s some_stage i enough,
        ))
        (stages_from-Chain (i + 1) left (omega (arith, eq))))

  all_layers-stages_from :
      (i left : ℕ)
      → i + left ≡ s
      → all_layers (stages_from layers s i left) ≡ drop (bound (length layers) s i) layers
  unfolding stages_from stage_at all_layers
  all_layers-stages_from i zero eq = sym (
      ap (λ j. drop (bound (length layers) s j) layers) (omega (arith, eq))
      ∙ ap (λ b. drop b layers) (bound-end (length layers) s some_stage)
      ∙ drop_all layers)
  all_layers-stages_from i (suc left) eq =
      ap
        (λ rest.
          drop (bound (length layers) s i) (take (bound (length layers) s (i + 1)) layers) ++ rest)
        (all_layers-stages_from (i + 1) left (omega (arith, eq)))
      ∙ slice-append (bound (length layers) s i) (bound (length layers) s (i + 1)) layers
          (omega (arith, bound-grows (length layers) s some_stage i enough))

  length-stages_from : (i left : ℕ) → length (stages_from layers s i left) ≡ left
  unfolding stages_from
  length-stages_from i zero = refl
  length-stages_from i (suc left) = omega (arith, length-stages_from (i + 1) left)

make_pipeline-none :
    (layers : List ℕ) (n_stages : ℕ)
    → n_stages < 2 ⊎ length layers < n_stages
    → make_pipeline layers n_stages ≡ none
unfolding make_pipeline
make_pipeline-none layers n_stages h = ground arith

make_pipeline-some :
    (layers : List ℕ) (n_stages : ℕ)
    → 2 ≤ n_stages
    → n_stages ≤ length layers
    → make_pipeline layers n_stages ≡ some (stages_from layers n_stages 0 n_stages)
unfolding make_pipeline
make_pipeline-some layers n_stages two enough = ground arith

-- make_pipeline raises where there are fewer than two devices or more devices than layers, and only
-- there. Otherwise it returns a stage for each device; their layers, one stage after the other, are the
-- layers of the model, and the stages follow one another: each has at least a layer, a cache for as many
-- layers as it has, the number of layers before it as its offset, so that the cache gets its layers
-- from 0 on, the embedding where it is the first
-- and the norm and head where it is the last.
pub make_pipeline-Partitions :
    (layers : List ℕ) (n_stages : ℕ)
    → ((n_stages < 2 ⊎ length layers < n_stages) × (make_pipeline layers n_stages ≡ none))
      ⊎ (2 ≤ n_stages
          × n_stages ≤ length layers
          × (stages : List PipelineStage) × (make_pipeline layers n_stages ≡ some stages)
          × (length stages ≡ n_stages)
          × (all_layers stages ≡ layers)
          × Chain 0 0 stages)
make_pipeline-Partitions layers n_stages = elim (Bool-cases (ltb n_stages 2)) [
  | inl few ↦
      let few = ltb→lt n_stages 2 few in inl (inl few, make_pipeline-none layers n_stages (inl few))
  | inr ok ↦ elim (Bool-cases (ltb (length layers) n_stages)) [
    | inl many ↦
        let many = ltb→lt (length layers) n_stages many in
        inl (inr many, make_pipeline-none layers n_stages (inr many))
    | inr within ↦
        let two : 2 ≤ n_stages = ground arith in
        let enough : n_stages ≤ length layers = ground arith in
        let some_stage : 0 < n_stages = omega (arith, two) in
        inr (
          two,
          enough,
          stages_from layers n_stages 0 n_stages,
          make_pipeline-some layers n_stages two enough,
          length-stages_from layers n_stages some_stage enough 0 n_stages,
          all_layers-stages_from layers n_stages some_stage enough 0 n_stages (omega arith)
              ∙ ap (λ b. drop b layers) (bound-start (length layers) n_stages some_stage),
          subst (λ b. Chain b 0 (stages_from layers n_stages 0 n_stages))
              (bound-start (length layers) n_stages some_stage)
              (stages_from-Chain layers n_stages some_stage enough 0 n_stages (omega arith)),
        )
  ]
]
