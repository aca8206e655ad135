-- ===== src/Config.antt =====
-- models/config.py: which attention and which feed-forward network each layer of a model has, and how
-- from_hf derives the hybrid pattern. The fields that none of this reads are left out.
pub mod Hybrid
pub mod Tests
use superl8_serve.Prelude.{
  ℕ, zero, suc, ◌+◌, ◌/◌, ◌%◌, List, [], ◌∷◌, Option, none, some, Bool, true, false, not, ◌&&◌,
  ◌||◌, if◌then◌else◌, ◌==◌, ltb,
}

pub data Kind : Type 0 where
  linear : Kind
  latent : Kind
  sliding : Kind
  full : Kind

pub record ModelConfig : Type 0 where
  pub hidden_size : ℕ
  pub num_attention_heads : ℕ
  pub head_dim : Option ℕ
  pub sliding_window : Option ℕ
  pub sliding_window_pattern : Option ℕ
  pub linear_attention : Bool
  pub full_attention_interval : ℕ
  pub latent_attention : Bool
  pub num_experts : ℕ
  pub decoder_sparse_step : ℕ
  pub mlp_only_layers : List ℕ

-- `x or 0`.
abbrev pub value_or_zero : Option ℕ → ℕ
value_or_zero none = 0
value_or_zero (some n) = n

-- `none` is a ZeroDivisionError.
abbrev pub resolved_head_dim : ModelConfig → Option ℕ
resolved_head_dim c =
    if ltb 0 (value_or_zero c.head_dim)
    then some (value_or_zero c.head_dim)
    else if c.num_attention_heads == 0
    then none
    else some (c.hidden_size / c.num_attention_heads)

abbrev pub is_moe : ModelConfig → Bool
is_moe c = ltb 0 c.num_experts

unfoldable pub layer_is_global : ModelConfig → ℕ → Bool
layer_is_global c layer_idx =
    if (value_or_zero c.sliding_window == 0) || (value_or_zero c.sliding_window_pattern == 0)
    then true
    else (layer_idx + 1) % value_or_zero c.sliding_window_pattern == 0

unfoldable pub attention_kind : ModelConfig → ℕ → Kind
unfolding layer_is_global
attention_kind c layer_idx =
    if c.latent_attention
    then latent
    else if c.linear_attention && ltb 0 c.full_attention_interval
    then (if (layer_idx + 1) % c.full_attention_interval == 0 then full else linear)
    else if ltb 0 (value_or_zero c.sliding_window) && ltb 0 (value_or_zero c.sliding_window_pattern)
    then (if layer_is_global c layer_idx then full else sliding)
    else full

abbrev pub among : ℕ → List ℕ → Bool
among n [] = false
among n (x ∷ xs) = (x == n) || among n xs

-- `none` is a ZeroDivisionError.
unfoldable pub layer_is_moe : ModelConfig → ℕ → Option Bool
layer_is_moe c layer_idx =
    if not (is_moe c) || among layer_idx c.mlp_only_layers
    then some false
    else if c.decoder_sparse_step == 0
    then none
    else some ((layer_idx + 1) % c.decoder_sparse_step == 0)

-- The strings of `layer_types`.
pub data LayerType : Type 0 where
  linear_attention : LayerType
  full_attention : LayerType
  other_attention : LayerType

-- What from_hf reads of the HuggingFace config, `none` where a key is absent.
pub record HfConfig : Type 0 where
  pub hidden_size : ℕ
  pub num_attention_heads : ℕ
  pub head_dim : Option ℕ
  pub layer_types : List LayerType
  pub attn_type_list : List ℕ
  pub linear_attention : Bool
  pub full_attention_interval : Option ℕ
  pub sliding_window : Option ℕ
  pub sliding_window_pattern : Option ℕ
  pub num_experts : Option ℕ
  pub decoder_sparse_step : Option ℕ
  pub mlp_only_layers : List ℕ

abbrev pub is_full : LayerType → Bool
is_full full_attention = true
is_full _ = false

abbrev pub is_linear : LayerType → Bool
is_linear linear_attention = true
is_linear _ = false

module _ {ℓ} {A : Type ℓ} where
  abbrev pub any : (A → Bool) → List A → Bool
  any p [] = false
  any p (x ∷ xs) = p x || any p xs

  -- `[i for i, t in enumerate(xs) if p(t)]`, from `i` on.
  abbrev pub indices_from : ℕ → (A → Bool) → List A → List ℕ
  indices_from i p [] = []
  indices_from i p (x ∷ xs) =
      if p x then i ∷ indices_from (i + 1) p xs else indices_from (i + 1) p xs

-- `[...] or [...]`.
abbrev pub or_list : List ℕ → List ℕ → List ℕ
or_list [] ys = ys
or_list (x ∷ xs) ys = x ∷ xs

abbrev pub full_layers : HfConfig → List ℕ
full_layers hf =
    or_list (indices_from 0 is_full hf.layer_types) (indices_from 0 (λ t. t == 1) hf.attn_type_list)

abbrev pub has_linear : HfConfig → Bool
has_linear hf =
    hf.linear_attention || (any is_linear hf.layer_types || any (λ t. t == 0) hf.attn_type_list)

-- `full_interval` before the fallback.
unfoldable pub full_interval : HfConfig → ℕ
full_interval hf =
    if has_linear hf && (value_or_zero hf.full_attention_interval == 0)
    then elim (full_layers hf) [ [] ↦ 0 | i ∷ rest ↦ i + 1 ]
    else value_or_zero hf.full_attention_interval

-- `default_interval` is the entry of the architecture in _HYBRID_LINEAR_DEFAULT_INTERVAL.
unfoldable pub from_hf : Option ℕ → HfConfig → ModelConfig
unfolding full_interval
from_hf default_interval hf =
    let found = has_linear hf && ltb 0 (full_interval hf) in
    let derived : Bool × ℕ = (has_linear hf, full_interval hf) in
    let fallback : Bool × ℕ = elim default_interval [ none ↦ derived | some n ↦ (true, n) ] in
    let chosen = if found then derived else fallback in
    record {
      hidden_size = hf.hidden_size;
      num_attention_heads = hf.num_attention_heads;
      head_dim = hf.head_dim;
      sliding_window = hf.sliding_window;
      sliding_window_pattern = hf.sliding_window_pattern;
      linear_attention = chosen.0;
      full_attention_interval = chosen.1;
      latent_attention = false;
      num_experts = value_or_zero hf.num_experts;
      decoder_sparse_step = elim hf.decoder_sparse_step [ none ↦ 1 | some n ↦ n ];
      mlp_only_layers = hf.mlp_only_layers;
    }
