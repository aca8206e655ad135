-- ===== src/Config/Tests.antt =====
-- models/config.py: the hybrid pattern of small configs, and an example of the theorem.
use superl8_serve.Prelude.{
  ℕ, zero, suc, ◌≡◌, refl, sym, List, [], ◌∷◌, none, some, true, false, arith, get_elem?, map,
}
use mathlib.Core.Option.{some_inj}
use superl8_serve.Config.{
  full, LayerType, linear_attention, full_attention, HfConfig, attention_kind, layer_is_moe,
  full_interval, from_hf,
}
use superl8_serve.Config.Hybrid.{kind_of, strided, from_hf-layer_types}

abbrev config : List LayerType → HfConfig
config types = record {
  hidden_size = 64;
  num_attention_heads = 4;
  head_dim = none;
  layer_types = types;
  attn_type_list = [];
  linear_attention = false;
  full_attention_interval = none;
  sliding_window = none;
  sliding_window_pattern = none;
  num_experts = some 8;
  decoder_sparse_step = some 2;
  mlp_only_layers = 3 ∷ [];
}

abbrev third : List LayerType
third = linear_attention ∷ linear_attention ∷ full_attention ∷ linear_attention ∷ []

third-strided : (i : ℕ) (t : LayerType) → get_elem? third i ≡ some t → t ≡ strided 3 i
third-strided zero t h = sym (some_inj.0 h)
third-strided (suc zero) t h = sym (some_inj.0 h)
third-strided (suc (suc zero)) t h = sym (some_inj.0 h)
third-strided (suc (suc (suc zero))) t h = sym (some_inj.0 h)
third-strided (suc (suc (suc (suc i)))) t h = ground (arith, h)

from_hf-layer_types_example :
    kind_of full_attention ≡ some (attention_kind (from_hf none (config third)) 2)
from_hf-layer_types_example =
    from_hf-layer_types none (config third) 3 (omega arith) (omega arith) refl third-strided 2
      full_attention refl

-- Layers 1 and 3 would be MoE layers; layer 3 is forced dense.
moe_layers :
    map (layer_is_moe (from_hf none (config third))) (0 ∷ 1 ∷ 2 ∷ 3 ∷ [])
    ≡ some false ∷ some true ∷ some false ∷ some false ∷ []
unfolding layer_is_moe from_hf
moe_layers = refl

-- A list with no full layer gives no interval, and every layer is full.
all_linear :
    attention_kind (from_hf none (config (linear_attention ∷ linear_attention ∷ []))) 0 ≡ full
unfolding attention_kind from_hf full_interval
all_linear = refl

-- A list without a stride gets the stride of its first full layer: its last layer is full.
no_stride :
    attention_kind
      (from_hf none
        (config (linear_attention ∷ full_attention ∷ linear_attention ∷ linear_attention ∷ [])))
      3
    ≡ full
unfolding attention_kind from_hf full_interval
no_stride = refl
