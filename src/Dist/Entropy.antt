-- ===== src/Dist/Entropy.antt =====
-- dist/entropy.py: the rANS coder, given the table of normalised frequencies. Bytes are numbers, and
-- a byte stream is kept from its end, where the encoder appends and the decoder starts.
pub mod Normalize
pub mod Step
pub mod RoundTrip
pub mod Tests
use superl8_serve.Prelude.{
  ℕ, zero, suc, ◌+◌, ◌-◌, ◌*◌, ◌/◌, ◌%◌, ◌^◌, List, [], ◌∷◌, ◌++◌, Option, none, some, Bool, true,
  false, if◌then◌else◌, ◌==◌, ltb, leb, length, get_or, replicate,
}

-- `_M`, `_L` and `_X_MAX_FACTOR`.
abbrev pub mass : ℕ
mass = 4096

abbrev pub low : ℕ
low = 8388608

abbrev pub x_max_factor : ℕ
x_max_factor = low / mass * 256

abbrev pub cumulative_from : ℕ → List ℕ → List ℕ
cumulative_from total [] = total ∷ []
cumulative_from total (f ∷ freqs) = total ∷ cumulative_from (total + f) freqs

-- `_cumulative`: entry `s` is the first slot of symbol `s`.
abbrev pub cumulative : List ℕ → List ℕ
cumulative freqs = cumulative_from 0 freqs

-- `np.repeat(np.arange(...), freqs)`.
abbrev pub repeat_from : ℕ → List ℕ → List ℕ
repeat_from s [] = []
repeat_from s (f ∷ freqs) = replicate f s ++ repeat_from (suc s) freqs

abbrev pub slot_to_sym : List ℕ → List ℕ
slot_to_sym freqs = repeat_from 0 freqs

-- `while state >= x_max`, on fuel: `none` is out of fuel.
unfoldable pub shrink : ℕ → ℕ → ℕ → List ℕ → Option (ℕ × List ℕ)
shrink zero x_max state out = none
shrink (suc fuel) x_max state out =
    let rest = shrink fuel x_max (state / 256) (state % 256 ∷ out) in
    if leb x_max state then rest else some (state, out)

-- One symbol of the encoder.
unfoldable pub push : List ℕ → ℕ → ℕ → List ℕ → Option (ℕ × List ℕ)
unfolding shrink
push freqs s state out =
    let f = get_or freqs s 0 in
    elim (shrink 5 (x_max_factor * f) state out) [
      | none ↦ none
      | some (x, bytes) ↦ some (x / f * mass + x % f + get_or (cumulative freqs) s 0, bytes)
    ]

-- `for s in symbols[::-1]`: the last symbol first.
unfoldable pub push_symbols : List ℕ → List ℕ → Option (ℕ × List ℕ)
unfolding push
push_symbols freqs [] = some (low, [])
push_symbols freqs (s ∷ symbols) = elim (push_symbols freqs symbols) [
  | none ↦ none
  | some (state, out) ↦ push freqs s state out
]

-- The low byte of the state first.
unfoldable pub flush : ℕ → ℕ → List ℕ → List ℕ
flush zero state out = out
flush (suc n) state out = flush n (state / 256) (state % 256 ∷ out)

unfoldable pub encode : List ℕ → List ℕ → Option (List ℕ)
unfolding push_symbols flush
encode freqs [] = some []
encode freqs (s ∷ symbols) = elim (push_symbols freqs (s ∷ symbols)) [
  | none ↦ none
  | some (state, out) ↦ some (flush 4 state out)
]

-- The initial state, and what is left. `none` is a stream of less than four bytes.
unfoldable pub load : List ℕ → Option (ℕ × List ℕ)
load (b3 ∷ b2 ∷ b1 ∷ b0 ∷ buf) = some (b0 + b1 * 256 + b2 * 65536 + b3 * 16777216, buf)
load _ = none

-- `while state < _L`. `none` is a read before the start of the stream.
unfoldable pub refill : ℕ → List ℕ → Option (ℕ × List ℕ)
refill state [] = if ltb state low then none else some (state, [])
refill state (b ∷ buf) = elim (ltb state low) [
  | true ↦ refill (state * 256 + b) buf
  | false ↦ some (state, b ∷ buf)
]

-- One symbol of the decoder once it is known, with the state and the bytes that are left.
unfoldable pub pop_symbol : List ℕ → ℕ → ℕ → List ℕ → Option (ℕ × (ℕ × List ℕ))
unfolding refill
pop_symbol freqs s state buf =
    elim (refill (get_or freqs s 0 * (state / mass) + state % mass - get_or (cumulative freqs) s 0)
      buf) [ none ↦ none | some rest ↦ some (s, rest) ]

unfoldable pub pop : List ℕ → ℕ → List ℕ → Option (ℕ × (ℕ × List ℕ))
unfolding pop_symbol
pop freqs state buf = pop_symbol freqs (get_or (slot_to_sym freqs) (state % mass) 0) state buf

unfoldable pub pop_symbols : List ℕ → ℕ → ℕ → List ℕ → Option (List ℕ)
unfolding pop
pop_symbols freqs zero state buf = some []
pop_symbols freqs (suc n) state buf = elim (pop freqs state buf) [
  | none ↦ none
  | some (s, (next, rest)) ↦ elim (pop_symbols freqs n next rest) [
    | none ↦ none
    | some symbols ↦ some (s ∷ symbols)
  ]
]

-- `none` is the failed assertion on the table, too.
unfoldable pub decode : List ℕ → List ℕ → ℕ → Option (List ℕ)
unfolding load pop_symbols
decode freqs encoded zero = some []
decode freqs encoded (suc n) =
    if length (slot_to_sym freqs) == mass
    then elim (load encoded) [
      | none ↦ none
      | some (state, buf) ↦ pop_symbols freqs (suc n) state buf
    ]
    else none
