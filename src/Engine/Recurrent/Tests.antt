-- ===== src/Engine/Recurrent/Tests.antt =====
-- models/cache.py: two slots and two layers, and an example of the theorem.
use superl8_serve.Prelude.{
  ℕ, ◌<◌, ◌≡◌, refl, List, [], ◌∷◌, some, none, false, arith, count, All, ◌⊎◌,
}
use superl8_serve.Engine.Recurrent.{
  RecurrentStateCache, row_of, empty_cache, bind, set_state, get_state, clear_slot, gather, scatter,
  put_row, commit_verify,
}
use superl8_serve.Engine.Recurrent.Commit.{
  Verified, trajectories, state_after, tail_after, commit_verify-Commits,
}

-- A row is the list of its tokens, the last first.
abbrev Row : Type 0
Row = List ℕ

abbrev blank : Row → Row
blank r = []

abbrev remember : ℕ → ℕ → Row → Row
remember l t r = t ∷ r

abbrev nothing : ℕ → ℕ → Row
nothing s l = []

-- Slot 4 accepts two of its three tokens, and slot 1 one.
abbrev batch : List Verified
batch =
    record { slot = 4; tokens = 7 ∷ 8 ∷ 9 ∷ []; last = 1 }
    ∷ record { slot = 1; tokens = 5 ∷ 5 ∷ 5 ∷ []; last = 0 }
    ∷ []

abbrev captured : RecurrentStateCache Row blank
captured = record (bind Row blank (some (4 ∷ 1 ∷ [])) (empty_cache Row blank)) {
  vtraj = trajectories Row blank remember remember nothing nothing batch (0 ∷ 2 ∷ []);
}

commit_verify-Commits_example :
    (after : RecurrentStateCache Row blank) × (commit_verify Row blank (1 ∷ 0 ∷ []) captured
      ≡ some after)
    × All
        (λ l.
          All
            (λ b.
              (row_of Row blank after.state b.slot l
                ≡ some (state_after Row blank remember remember nothing nothing batch l b))
              × (row_of Row blank after.conv_tail b.slot l
                  ≡ some (tail_after Row blank remember remember nothing nothing batch l b)))
            batch)
        (0 ∷ 2 ∷ [])
    × ((t m : ℕ)
        → ((0 < count t (4 ∷ 1 ∷ [])) × (0 < count m (0 ∷ 2 ∷ [])))
          ⊎ ((row_of Row blank after.state t m ≡ none)
              × (row_of Row blank after.conv_tail t m ≡ none)))
    × (after.vcap ≡ false)
    × (after.vtraj ≡ [])
unfolding row_of
commit_verify-Commits_example =
    commit_verify-Commits Row blank remember remember nothing nothing batch (refl, (refl, tt))
      (omega arith, (omega arith, tt)) captured (0 ∷ 2 ∷ []) refl refl (refl, (refl, tt))

-- A slot without a state is read as zeros beside one that has one, and as nothing after it is cleared.
gathered :
    (get_state Row blank 0 (
        set_state Row blank 0
          ((3 ∷ []) ∷ [])
          (bind Row blank (some (4 ∷ [])) (empty_cache Row blank)))
      ≡ some ((3 ∷ []) ∷ []))
    × (gather Row blank (1 ∷ 4 ∷ []) (((4, 0), 3 ∷ []) ∷ []) 0 ≡ some ([] ∷ (3 ∷ []) ∷ []))
    × (gather Row blank
          (4 ∷ [])
          (clear_slot Row blank 4 (
            set_state Row blank 0
              ((3 ∷ []) ∷ [])
              (bind Row blank (some (4 ∷ [])) (empty_cache Row blank)))).state
          0
        ≡ none)
unfolding gather scatter put_row row_of clear_slot
gathered = (refl, refl, refl)
