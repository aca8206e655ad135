-- ===== src/Config/Hybrid.antt =====
-- models/config.py: a hybrid model with a full layer at every n-th place gets the layers of its list.
use native.Mathlib.Nat.{mod-eq_of_lt, mod_self}
use mathlib.Core.Option.{some_inj}
use superl8_serve.Prelude.{
  ℕ, zero, suc, ◌+◌, ◌%◌, ◌≤◌, ◌<◌, ◌≡◌, refl, sym, ap, ◌∙◌, List, [], ◌∷◌, Option, none, some,
  Bool, true, false, ◌||◌, if◌then◌else◌, ◌==◌, lt→ltb, arith, length, get_elem?, Bool-cases, inl,
  inr,
}
use superl8_serve.Config.{
  Kind, linear, full, LayerType, linear_attention, full_attention, other_attention, HfConfig,
  value_or_zero, attention_kind, is_full, is_linear, any, indices_from, or_list, full_layers,
  has_linear, full_interval, from_hf,
}

module _ {ℓ} {A : Type ℓ} (p : A → Bool) where
  -- The first index is that of the first element that passes.
  indices_from-first :
      (i k : ℕ) (xs : List A) (x : A)
      → get_elem? xs k ≡ some x
      → p x ≡ true
      → ((j : ℕ) (y : A) → j < k → get_elem? xs j ≡ some y → p y ≡ false)
      → (rest : List ℕ) × (indices_from i p xs ≡ (i + k) ∷ rest)
  indices_from-first i k [] x h px before = ground (arith, h)
  indices_from-first i zero (y ∷ xs) x h px before =
      let py : p y ≡ true = ap p (some_inj.0 h) ∙ px in
      (
        indices_from (i + 1) p xs,
        ap (λ b. if b then i ∷ indices_from (i + 1) p xs else indices_from (i + 1) p xs) py
            ∙ ap (λ n. n ∷ indices_from (i + 1) p xs) (omega arith),
      )
  indices_from-first i (suc k) (y ∷ xs) x h px before =
      let py = before 0 y (omega arith) refl in
      let (rest, is) =
        indices_from-first (i + 1) k xs x h px
          (λ j z lt at. before (suc j) z (omega (arith, lt)) at) in
      (
        rest,
        ap (λ b. if b then i ∷ indices_from (i + 1) p xs else indices_from (i + 1) p xs) py
            ∙ is
            ∙ ap (λ n. n ∷ rest) (omega arith),
      )

  any-at : (k : ℕ) (xs : List A) (x : A) → get_elem? xs k ≡ some x → p x ≡ true → any p xs ≡ true
  any-at k [] x h px = ground (arith, h)
  any-at zero (y ∷ xs) x h px = ap (λ b. b || any p xs) (ap p (some_inj.0 h) ∙ px)
  any-at (suc k) (y ∷ xs) x h px = ground (arith, any-at k xs x h px)

get_elem?-some {ℓ} :
    {A : Type ℓ} (xs : List A) (i : ℕ) → i < length xs → (x : A) × (get_elem? xs i ≡ some x)
get_elem?-some [] i h = elim h [ ]
get_elem?-some (x ∷ xs) zero h = (x, refl)
get_elem?-some (x ∷ xs) (suc i) h = get_elem?-some xs i (omega arith)

-- The type of a layer where every `n`-th layer is full and the others are linear.
abbrev pub strided : ℕ → ℕ → LayerType
strided n i = if (i + 1) % n == 0 then full_attention else linear_attention

abbrev pub kind_of : LayerType → Option Kind
kind_of linear_attention = some linear
kind_of full_attention = some full
kind_of other_attention = none

kind_of-strided :
    (n i : ℕ) → kind_of (strided n i) ≡ some (if (i + 1) % n == 0 then full else linear)
kind_of-strided n i = elim (Bool-cases ((i + 1) % n == 0)) [
  | inl every ↦
      ap (λ b. kind_of (if b then full_attention else linear_attention)) every
      ∙ ap (λ b. some (if b then full else linear)) (sym every)
  | inr other ↦
      ap (λ b. kind_of (if b then full_attention else linear_attention)) other
      ∙ ap (λ b. some (if b then full else linear)) (sym other)
]

strided-full : (n : ℕ) → strided (suc n) n ≡ full_attention
strided-full n =
    let e : (n + 1) % suc n ≡ 0 = ap (λ m. m % suc n) (omega arith) ∙ mod_self (suc n) in
    ap (λ m. if m == 0 then full_attention else linear_attention) e

strided-linear : (n i : ℕ) → i + 1 < n → strided n i ≡ linear_attention
strided-linear n i lt =
    ap (λ m. if m == 0 then full_attention else linear_attention) (mod-eq_of_lt lt)
    ∙ ap (λ b. if b then full_attention else linear_attention) {x = i + 1 == 0} {y = false}
        (ground arith)

derived_kind :
    (default_interval : Option ℕ) (hf : HfConfig) (n i : ℕ)
    → has_linear hf ≡ true
    → full_interval hf ≡ suc n
    → attention_kind (from_hf default_interval hf) i
      ≡ (if (i + 1) % suc n == 0 then full else linear)
unfolding from_hf attention_kind
derived_kind default_interval hf n i linear_ interval =
    let positive = lt→ltb 0 (suc n) (omega arith) in
    rw (attention_kind, from_hf, interval, linear_, positive, positive) refl

interval_of :
    (hf : HfConfig) (n : ℕ) (rest : List ℕ)
    → has_linear hf ≡ true
    → value_or_zero hf.full_attention_interval ≡ 0
    → full_layers hf ≡ (0 + n) ∷ rest
    → full_interval hf ≡ suc n
unfolding full_interval
interval_of hf n rest linear_ none_set layers =
    rw (full_interval, linear_, none_set, layers) (omega arith)

-- Where every n-th of the layer types is full and the others are linear, n is two or more and at most
-- the number of layers, and the config sets no interval, the attention kinds that from_hf derives are
-- those of the list, for any default of the architecture.
pub from_hf-layer_types :
    (default_interval : Option ℕ) (hf : HfConfig) (n : ℕ)
    → 2 ≤ n
    → n ≤ length hf.layer_types
    → value_or_zero hf.full_attention_interval ≡ 0
    → ((i : ℕ) (t : LayerType) → get_elem? hf.layer_types i ≡ some t → t ≡ strided n i)
    → (i : ℕ) (t : LayerType) → get_elem? hf.layer_types i ≡ some t
    → kind_of t ≡ some (attention_kind (from_hf default_interval hf) i)
from_hf-layer_types default_interval hf zero two long none_set types i t at =
    absurd (omega (arith, two))
from_hf-layer_types default_interval hf (suc n) two long none_set types i t at =
    let (x, at_n) = get_elem?-some hf.layer_types n (omega (arith, long)) in
    let (y, at_0) = get_elem?-some hf.layer_types 0 (omega (arith, long)) in
    let is_x = ap is_full (types n x at_n ∙ strided-full n) in
    let is_y = ap is_linear (types 0 y at_0 ∙ strided-linear (suc n) 0 (omega (arith, two))) in
    let (rest, first) =
      indices_from-first is_full 0 n hf.layer_types x at_n is_x (λ j z lt at_j.
        ap is_full (types j z at_j ∙ strided-linear (suc n) j (omega (arith, lt)))) in
    let linear_ : has_linear hf ≡ true =
      ap (λ b. hf.linear_attention || (b || any (λ a. a == 0) hf.attn_type_list))
        (any-at is_linear 0 hf.layer_types y at_0 is_y)
      ∙ ground arith in
    let interval =
      interval_of hf n rest linear_ none_set
        (ap (λ l. or_list l (indices_from 0 (λ a. a == 1) hf.attn_type_list)) first) in
    ap kind_of (types i t at)
    ∙ kind_of-strided (suc n) i
    ∙ ap some (sym (derived_kind default_interval hf n i linear_ interval))
