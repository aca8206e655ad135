-- ===== src/Engine/Drafters/Tests.antt =====
-- The n-gram drafter on a text that repeats itself.
use superl8_serve.Prelude.{ℕ, ◌-◌, ◌≡◌, refl, min, List, [], ◌∷◌, ◌++◌, true, arith, length}
use superl8_serve.Engine.Drafters.{NgramDrafter, sweep, propose, could_match_after}
use superl8_serve.Engine.Drafters.Ngram.{Sweeps, propose-Sweeps, could_match_after-propose}

abbrev drafter : NgramDrafter
drafter = record { min_n = 2; max_n = 3; max_k = 8 }

abbrev text : List ℕ
text = 1 ∷ 2 ∷ 3 ∷ 4 ∷ 1 ∷ []

text-proposal : propose drafter (text ++ (2 ∷ [])) 2 ≡ 3 ∷ 4 ∷ []
unfolding propose sweep
text-proposal = refl

propose-Sweeps_example :
    Sweeps
      (text ++ (2 ∷ []))
      2
      (min 3 (length (text ++ (2 ∷ [])) - 1))
      (min 2 8)
      (propose drafter (text ++ (2 ∷ [])) 2)
propose-Sweeps_example = propose-Sweeps drafter (text ++ (2 ∷ [])) 2 (omega arith) (omega arith)

could_match_after-propose_example : could_match_after drafter text ≡ true
could_match_after-propose_example =
    could_match_after-propose drafter text 2 2 (omega arith) (λ e. ground (arith, text-proposal, e))
