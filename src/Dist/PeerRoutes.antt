-- ===== src/Dist/PeerRoutes.antt =====
-- dist/peer_routes.py. Text is a list of character codes; `str.strip`'s white space and `int` are
-- parameters; `int_of` gives `none` for text that is no integer. A pair of the set has indices from 0.
pub mod Routes
pub mod Tests
use superl8_serve.Prelude.{
  ℕ, zero, suc, List, [], ◌∷◌, ◌++◌, Option, none, some, Bool, true, false, ◌&&◌, ◌||◌, not,
  if◌then◌else◌, ◌==◌, ltb, map,
}

pub data Reason : Type 0 where
  validated_p2p same_device not_validated no_capability : Reason

abbrev pub Pairs : Type 0
Pairs = List (ℕ × ℕ)

-- A GPU index as it is given: `negsuc n` is -(n + 1).
pub data ℤ : Type 0 where
  pos : ℕ → ℤ
  negsuc : ℕ → ℤ

abbrev pub same_index : ℤ → ℤ → Bool
same_index (pos a) (pos b) = a == b
same_index (negsuc a) (negsuc b) = a == b
same_index (pos a) (negsuc b) = false
same_index (negsuc a) (pos b) = false

-- `none` is the ValueError, of a negative index or of one index twice.
unfoldable pub normalize_pair : ℤ → ℤ → Option (ℕ × ℕ)
normalize_pair (pos a) (pos b) = if a == b then none else some (if ltb a b then (a, b) else (b, a))
normalize_pair (pos a) (negsuc b) = none
normalize_pair (negsuc a) b = none

abbrev pub has_pair : ℕ × ℕ → Pairs → Bool
has_pair p [] = false
has_pair (a, b) ((c, d) ∷ ps) = (a == c && b == d) || has_pair (a, b) ps

-- What is left of the policy once the devices differ. `capability` is none where it is not known.
unfoldable pub route_of : ℕ × ℕ → Pairs → Option Bool → Bool × Reason
route_of pair validated capability =
    if not (has_pair pair validated) then (false, Reason.not_validated) else elim capability [
      | some true ↦ (true, Reason.validated_p2p)
      | some false ↦ (false, Reason.no_capability)
      | none ↦ (false, Reason.no_capability)
    ]

unfoldable pub select_route : ℤ → ℤ → Pairs → Option Bool → Option (Bool × Reason)
unfolding normalize_pair route_of
select_route src dst validated capability =
    if same_index src dst then some (false, Reason.same_device) else elim (normalize_pair src dst) [
      | none ↦ none
      | some pair ↦ some (route_of pair validated capability)
    ]

-- `text.split(sep)`, which gives at least one piece.
abbrev pub split : ℕ → List ℕ → List (List ℕ)
split sep [] = [] ∷ []
split sep (c ∷ text) = if c == sep then [] ∷ split sep text else before c (split sep text)
  where
    before : ℕ → List (List ℕ) → List (List ℕ)
    before c [] = (c ∷ []) ∷ []
    before c (piece ∷ pieces) = (c ∷ piece) ∷ pieces

abbrev pub empty : List ℕ → Bool
empty [] = true
empty (c ∷ text) = false

abbrev pub all_empty : List (List ℕ) → Bool
all_empty [] = true
all_empty (c ∷ cs) = empty c && all_empty cs

abbrev pub any_empty : List (List ℕ) → Bool
any_empty [] = false
any_empty (c ∷ cs) = empty c || any_empty cs

module _ (is_space : ℕ → Bool) (int_of : List ℕ → Option ℤ) where
  abbrev pub lstrip : List ℕ → List ℕ
  lstrip [] = []
  lstrip (c ∷ text) = if is_space c then lstrip text else c ∷ text

  abbrev pub rstrip : List ℕ → List ℕ
  rstrip [] = []
  rstrip (c ∷ text) = if is_space c && empty (rstrip text) then [] else c ∷ rstrip text

  abbrev pub strip : List ℕ → List ℕ
  strip text = rstrip (lstrip text)

  -- One element of the list, after `strip`. 44 is the comma.
  unfoldable pub parse_pair : List ℕ → Option (ℕ × ℕ)
  unfolding normalize_pair
  parse_pair chunk = elim (map strip (split 44 chunk)) [
    | left ∷ right ∷ [] ↦ if empty left || empty right then none else elim (int_of left) [
      | none ↦ none
      | some a ↦ elim (int_of right) [ none ↦ none | some b ↦ normalize_pair a b ]
    ]
    | _ ↦ none
  ]

  unfoldable pub parse_pairs : List (List ℕ) → Option Pairs
  unfolding parse_pair
  parse_pairs [] = some []
  parse_pairs (chunk ∷ chunks) = elim (parse_pair chunk) [
    | none ↦ none
    | some p ↦ elim (parse_pairs chunks) [ none ↦ none | some ps ↦ some (p ∷ ps) ]
  ]

  -- The set as a list of its pairs. 59 is the semicolon; `none` as `spec` is the empty one.
  unfoldable pub parse_validated_pairs : List ℕ → Option Pairs
  unfolding parse_pairs
  parse_validated_pairs spec =
      if empty (strip spec)
      then some []
      else let chunks = map strip (split 59 spec) in
        if all_empty chunks then some [] else if any_empty chunks then none else parse_pairs chunks
