-- ===== src/Kv/Dict.antt =====
-- A Python dict from ints to counts, as an association list with at most one entry for a key.
use superl8_serve.Prelude.{
  ℕ, ◌≡◌, refl, List, [], ◌∷◌, Option, none, some, arith, if◌then◌else◌, ◌==◌,
}

abbrev pub Dict : Type 0
Dict = List (ℕ × ℕ)

unfoldable pub lookup : ℕ → Dict → Option ℕ
lookup k [] = none
lookup k ((j, v) ∷ d) = if j == k then some v else lookup k d

-- `d.get(k, default)`
abbrev pub or_else : ℕ → Option ℕ → ℕ
or_else v none = v
or_else v (some w) = w

abbrev pub get : Dict → ℕ → ℕ → ℕ
get d k v = or_else v (lookup k d)

-- `d[k] = v`
unfoldable pub insert : ℕ → ℕ → Dict → Dict
insert k v [] = (k, v) ∷ []
insert k v ((j, w) ∷ d) = if j == k then (k, v) ∷ d else (j, w) ∷ insert k v d

-- `d.pop(k, None)`, on every entry of the key
unfoldable pub erase : ℕ → Dict → Dict
erase k [] = []
erase k ((j, w) ∷ d) = if j == k then erase k d else (j, w) ∷ erase k d

pub lookup-insert :
    (k j v : ℕ) (d : Dict) → lookup j (insert k v d) ≡ (if k == j then some v else lookup j d)
unfolding lookup insert
lookup-insert k j v [] = refl
lookup-insert k j v ((i, w) ∷ d) = ground (arith, lookup-insert k j v d)

pub lookup-erase :
    (k j : ℕ) (d : Dict) → lookup j (erase k d) ≡ (if k == j then none else lookup j d)
unfolding lookup erase
lookup-erase k j [] = ground arith
lookup-erase k j ((i, w) ∷ d) = ground (arith, lookup-erase k j d)

-- A dict in which no key is found is empty.
pub empty_of_lookup : (d : Dict) → ((k : ℕ) → lookup k d ≡ none) → d ≡ []
unfolding lookup
empty_of_lookup [] h = refl
empty_of_lookup ((j, v) ∷ d) h = ground (arith, h j)
