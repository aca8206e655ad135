-- ===== src/Dist/PeerRoutes/Tests.antt =====
-- The spec "0,1; 2,1", with decimal integers and the blank as white space.
use superl8_serve.Prelude.{
  ℕ, ◌+◌, ◌-◌, ◌*◌, ◌≡◌, ◌≢◌, ◌↔◌, ◌⊎◌, refl, List, [], ◌∷◌, Option, none, some, Bool, true, ◌&&◌,
  if◌then◌else◌, ◌==◌, leb,
}
use superl8_serve.Dist.PeerRoutes.{
  ℤ, pos, negsuc, Reason, Pairs, normalize_pair, select_route, parse_pair, parse_pairs,
  parse_validated_pairs,
}
use superl8_serve.Dist.PeerRoutes.Routes.{IsNegative, Allows, select_route-allowed}

abbrev is_blank : ℕ → Bool
is_blank c = c == 32

abbrev map_index : (ℕ → ℤ) → Option ℕ → Option ℤ
map_index f none = none
map_index f (some n) = some (f n)

abbrev decimal_from : ℕ → List ℕ → Option ℕ
decimal_from n [] = some n
decimal_from n (c ∷ text) =
    let rest = decimal_from (n * 10 + (c - 48)) text in if leb 48 c && leb c 57 then rest else none

-- 45 is the minus sign.
abbrev decimal : List ℕ → Option ℤ
decimal [] = none
decimal (c ∷ text) =
    if c == 45
    then map_index (λ n. if n == 0 then pos 0 else negsuc (n - 1)) (decimal_from 0 text)
    else map_index pos (decimal_from 0 (c ∷ text))

abbrev spec : List ℕ
spec = 48 ∷ 44 ∷ 49 ∷ 59 ∷ 32 ∷ 50 ∷ 44 ∷ 49 ∷ []

abbrev pairs : Pairs
pairs = (0, 1) ∷ (1, 2) ∷ []

spec-pairs : parse_validated_pairs is_blank decimal spec ≡ some pairs
unfolding parse_validated_pairs parse_pairs parse_pair normalize_pair
spec-pairs = refl

-- A negative index is refused.
negative : parse_validated_pairs is_blank decimal (45 ∷ 49 ∷ 44 ∷ 50 ∷ []) ≡ none
unfolding parse_validated_pairs parse_pairs parse_pair normalize_pair
negative = refl

select_route-allowed_example :
    ((pos 2 ≢ pos 1)
      × (IsNegative (pos 2) ⊎ IsNegative (pos 1))
      × (select_route (pos 2) (pos 1) pairs (some true) ≡ none))
    ⊎ ((r : Bool × Reason) × (select_route (pos 2) (pos 1) pairs (some true) ≡ some r)
        × ((pos 2 ≡ pos 1) ⊎ (¬ (IsNegative (pos 2) ⊎ IsNegative (pos 1))))
        × ((r.0 ≡ true) ↔ Allows (pos 2) (pos 1) pairs (some true)))
select_route-allowed_example = select_route-allowed (pos 2) (pos 1) pairs (some true)
