-- ===== src/Dist/Entropy/Normalize.antt =====
-- dist/entropy.py: _normalize_freqs, and encode with the table that it makes. Counts and frequencies are
-- lists with an entry for each symbol, as many as there are, and their products are unbounded numbers
-- where the source's have 64 bits; `np.argsort` is an argument of the definitions.
pub mod Order
pub mod Turns
pub mod Settle
pub mod Tests
pub mod Whole
use superl8_serve.Prelude.{
  ℕ, zero, suc, ◌+◌, ◌-◌, ◌*◌, ◌/◌, ◌%◌, max, List, [], ◌∷◌, map, Option, none, some, Bool, true,
  false, if◌then◌else◌, ◌==◌, ltb, leb, get_or, set, count, replicate,
}
use superl8_serve.Dist.Entropy.{mass, encode}
use superl8_serve.Dist.Entropy.Step.{sum}

-- `_ALPHABET_SIZE`.
abbrev pub alphabet_size : ℕ
alphabet_size = 256

-- `int(present.sum())`.
abbrev pub n_present : List ℕ → ℕ
n_present [] = 0
n_present (c ∷ counts) = (if ltb 0 c then 1 else 0) + n_present counts

-- The floor of the proportion, and at least one where the symbol is present.
abbrev pub scaled : ℕ → ℕ → ℕ
scaled all c = if ltb 0 c then max (c * mass / all) 1 else 0

-- `order[i % n_present]`.
abbrev pub turn_of : List ℕ → ℕ → ℕ → ℕ
turn_of order n i = get_or order (i % n) 0

-- The `while` where `diff` is positive, with `diff` and `i`.
unfoldable pub give : List ℕ → ℕ → ℕ → ℕ → List ℕ → List ℕ
give order n zero i freqs = freqs
give order n (suc diff) i freqs =
    let s = turn_of order n i in give order n diff (i + 1) (set freqs s (get_or freqs s 0 + 1))

-- The `while` where `diff` is negative, on fuel, with `- diff` and `i`: `none` is out of fuel.
unfoldable pub take_back : List ℕ → ℕ → ℕ → ℕ → ℕ → List ℕ → Option (List ℕ)
take_back order n fuel zero i freqs = some freqs
take_back order n zero (suc diff) i freqs = none
take_back order n (suc fuel) (suc diff) i freqs =
    let s = turn_of order n i in
    elim (ltb 1 (get_or freqs s 0)) [
      | true ↦ take_back order n fuel diff (i + 1) (set freqs s (get_or freqs s 0 - 1))
      | false ↦ take_back order n fuel (suc diff) (i + 1) freqs
    ]

-- `argsort` gives the symbols by descending count: `np.argsort(-counts)`.
unfoldable pub normalize_freqs : (List ℕ → List ℕ) → List ℕ → Option (List ℕ)
unfolding give take_back
normalize_freqs argsort counts =
    if sum counts == 0
    then some (map (λ c. 0) counts)
    else (let freqs = map (scaled (sum counts)) counts in
        let n = n_present counts in
        if leb (sum freqs) mass
        then some (give (argsort counts) n (mass - sum freqs) 0 freqs)
        else take_back (argsort counts) n (n * (sum freqs - mass)) (sum freqs - mass) 0 freqs)

-- `np.bincount`, for `k` symbols from `s` on.
abbrev pub bincount_from : ℕ → ℕ → List ℕ → List ℕ
bincount_from s zero symbols = []
bincount_from s (suc k) symbols = count s symbols ∷ bincount_from (s + 1) k symbols

unfoldable pub bincount : List ℕ → List ℕ
bincount symbols = bincount_from 0 alphabet_size symbols

-- The bytes and the table of frequencies.
unfoldable pub encode_symbols : (List ℕ → List ℕ) → List ℕ → Option (List ℕ × List ℕ)
unfolding normalize_freqs encode
encode_symbols argsort [] = some ([], replicate alphabet_size 0)
encode_symbols argsort (s ∷ symbols) = elim (normalize_freqs argsort (bincount (s ∷ symbols))) [
  | none ↦ none
  | some freqs ↦ elim (encode freqs (s ∷ symbols)) [
    | none ↦ none
    | some bytes ↦ some (bytes, freqs)
  ]
]
