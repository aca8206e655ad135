-- ===== src/Engine/Drafters.antt =====
-- engine/drafters.py: the n-gram drafter and the cascade.
pub mod Scan
pub mod Ngram
pub mod Tests
use superl8_serve.Prelude.{
  ℕ, zero, suc, ◌+◌, ◌-◌, min, max, List, [], ◌∷◌, Option, none, some, Bool, true, false, ◌&&◌,
  ◌||◌, if◌then◌else◌, ◌==◌, ltb, leb, length, take, drop,
}
use superl8_serve.Engine.Sequence.{last_or}

-- `==` of two lists of ids.
abbrev pub same_ids : List ℕ → List ℕ → Bool
same_ids [] [] = true
same_ids [] (y ∷ ys) = false
same_ids (x ∷ xs) [] = false
same_ids (x ∷ xs) (y ∷ ys) = x == y && same_ids xs ys

-- A `for` over `range(n - 1, -1, -1)` up to the first hit.
abbrev pub last_below : (ℕ → Bool) → ℕ → Option ℕ
last_below p zero = none
last_below p (suc n) = if p n then some n else last_below p n

-- A `for` over `range(n)` that asks for a hit, from its end.
abbrev pub any_below : (ℕ → Bool) → ℕ → Bool
any_below p zero = false
any_below p (suc n) = p n || any_below p n

pub record NgramDrafter : Type 0 where
  pub min_n : ℕ
  pub max_n : ℕ
  pub max_k : ℕ

unfoldable pub ngram_drafter : ℕ → ℕ → ℕ → NgramDrafter
ngram_drafter min_n max_n max_k = record {
  min_n = max 1 min_n;
  max_n = max (max 1 min_n) max_n;
  max_k = max_k;
}

-- `tokens[-n:]`, for `n` from 1 to the length; and for 0 what `could_match_after` writes for it.
abbrev pub suffix : ℕ → List ℕ → List ℕ
suffix n tokens = drop (length tokens - n) tokens

abbrev pub occurs : List ℕ → ℕ → ℕ → Bool
occurs tokens n i = same_ids (take n (drop i tokens)) (suffix n tokens)

-- The `for` over the pattern lengths, from `n` down to `min_n`.
unfoldable pub sweep : List ℕ → ℕ → ℕ → ℕ → List ℕ
sweep tokens k min_n zero = []
sweep tokens k min_n (suc m) =
    let shorter = sweep tokens k min_n m in
    if ltb (suc m) min_n
    then []
    else elim (last_below (occurs tokens (suc m)) (length tokens - suc m)) [
      | none ↦ shorter
      | some i ↦ elim (take k (drop (i + suc m) tokens)) [ [] ↦ shorter | t ∷ cont ↦ t ∷ cont ]
    ]

unfoldable pub propose : NgramDrafter → List ℕ → ℕ → List ℕ
unfolding sweep
propose d tokens k =
    if leb (min k d.max_k) 0
    then []
    else sweep tokens (min k d.max_k) d.min_n (min d.max_n (length tokens - 1))

-- The lengths from `min_n` to `min(max_n, L + 1)`, the last one first, which a mere `any` allows.
unfoldable pub could_match_after : NgramDrafter → List ℕ → Bool
could_match_after d tokens =
    any_below (λ m. leb d.min_n m && any_below (occurs tokens (m - 1)) (length tokens - (m - 1)))
      (suc (min d.max_n (length tokens + 1)))

-- `grammar`, `ngram` and `mtp_fallback` are what their calls would return, `none` where absent.
unfoldable pub cascade_draft :
    Option (ℕ → ℕ → List ℕ) → Option NgramDrafter → Option (List ℕ) → List ℕ → ℕ → List ℕ
unfolding propose
cascade_draft grammar ngram mtp_fallback tokens k = elim (from_grammar grammar tokens) [
  | t ∷ drafts ↦ t ∷ drafts
  | [] ↦ elim (from_ngram ngram) [
    | t ∷ drafts ↦ t ∷ drafts
    | [] ↦ elim mtp_fallback [ none ↦ [] | some drafts ↦ drafts ]
  ]
]
  where
    from_grammar : Option (ℕ → ℕ → List ℕ) → List ℕ → List ℕ
    from_grammar none ts = []
    from_grammar (some g) [] = []
    from_grammar (some g) (t ∷ ts) = g (last_or t ts) k

    from_ngram : Option NgramDrafter → List ℕ
    from_ngram none = []
    from_ngram (some d) = propose d tokens k
