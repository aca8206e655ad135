-- ===== src/Engine/Structured/Peek.antt =====
-- structured.py and engine/drafters.py: the drafts of the grammar are forced, and propose only peeks.
use mathlib.Core.List.{append_assoc, append-nil}
use superl8_serve.Prelude.{
  ℕ, zero, suc, ◌+◌, ◌≤◌, ◌≡◌, refl, sym, ap, subst, ◌∙◌, min, List, [], ◌∷◌, ◌++◌, Option, some,
  true, false, if◌then◌else◌, ◌==◌, ltb, ltb→lt, arith, length, Bool-cases, inl, inr, ◌⊎◌,
}
use superl8_serve.Engine.Structured.{
  Matcher, GrammarLogitsProcessor, forced_round, forced_loop, forced_run, advance, rewind,
  propose_forced,
}
use superl8_serve.Engine.Structured.Walk.{
  rewind_some, step, Rolls, Forced, stop, Forced-Accepts, Forced-append,
}
use superl8_serve.Engine.Structured.Rounds.{forced_round-Rounds}

module _ (M : Matcher) (max_rollback_tokens : ℕ) (rolls : Rolls M max_rollback_tokens)
    (tokenizer : Option (List ℕ → List ℕ)) where
  -- What the loop returns.
  record Runs (k : ℕ) (out : List ℕ) (s : M.State) (r : Option (List ℕ × M.State)) : Type 0 where
    tokens : List ℕ
    last : M.State
    returns : r ≡ some (out ++ tokens, last)
    walks : Forced M tokenizer s tokens last
    bounded : length (out ++ tokens) ≤ k

  loop_full :
      (fuel k : ℕ) (out : List ℕ) (s : M.State)
      → ltb (length out) k ≡ false
      → forced_loop M tokenizer fuel k out s ≡ some (out, s)
  unfolding forced_loop
  loop_full zero k out s full = rw (forced_loop, full) refl
  loop_full (suc fuel) k out s full = rw (forced_loop, full) refl

  loop_again :
      (fuel k : ℕ) (out : List ℕ) (s : M.State)
      → ltb (length out) k ≡ true
      → forced_loop M tokenizer (suc fuel) k out s ≡ (
          let r = forced_round M tokenizer k out s in
          if r.0 then forced_loop M tokenizer fuel k r.1.0 r.1.1 else some r.1)
  unfolding forced_loop
  loop_again fuel k out s room = rw (forced_loop, room) refl

  full-Runs :
      (fuel k : ℕ) (out : List ℕ) (s : M.State)
      → length out ≤ k
      → ltb (length out) k ≡ false
      → Runs k out s (forced_loop M tokenizer fuel k out s)
  full-Runs fuel k out s le full = record {
    tokens = [];
    last = s;
    returns = loop_full fuel k out s full ∙ ap (λ o. some (o, s)) (sym (append-nil out));
    walks = stop;
    bounded = subst (λ o. length o ≤ k) (sym (append-nil out)) le;
  }

  forced_loop-Runs :
      (fuel k : ℕ) (out : List ℕ) (s : M.State)
      → length out ≤ k
      → k ≤ fuel + length out
      → Runs k out s (forced_loop M tokenizer fuel k out s)
  forced_loop-Runs zero k out s le enough = full-Runs zero k out s le (ground (arith, enough))
  forced_loop-Runs (suc fuel) k out s le enough = elim (Bool-cases (ltb (length out) k)) [
    | inr full ↦ full-Runs (suc fuel) k out s le full
    | inl room ↦
        let r = forced_round M tokenizer k out s in
        let one = forced_round-Rounds M max_rollback_tokens rolls tokenizer k out s in
        let bound = one.bounded (ltb→lt (length out) k room) in
        let choose = loop_again fuel k out s room in
        elim (Bool-cases r.0) [
          | inr over ↦ record {
            tokens = one.tokens;
            last = r.1.1;
            returns =
                choose
                ∙ ap (λ b. if b then forced_loop M tokenizer fuel k r.1.0 r.1.1 else some r.1) over
                ∙ ap (λ o. some (o, r.1.1)) one.adds;
            walks = one.walks;
            bounded = subst (λ o. length o ≤ k) one.adds bound;
          }
          | inl again ↦
              let more =
                forced_loop-Runs fuel k r.1.0 r.1.1 bound
                  (omega (arith, enough, one.moves again)) in
              let joined =
                ap (λ o. o ++ more.tokens) one.adds ∙ append_assoc out one.tokens more.tokens in
              record {
                tokens = one.tokens ++ more.tokens;
                last = more.last;
                returns =
                    choose
                    ∙ ap (λ b. if b then forced_loop M tokenizer fuel k r.1.0 r.1.1 else some r.1)
                        again
                    ∙ more.returns
                    ∙ ap (λ o. some (o, more.last)) joined;
                walks = Forced-append M tokenizer one.walks more.walks;
                bounded = subst (λ o. length o ≤ k) joined more.bounded;
              }
        ]
  ]

  propose_zero :
      (max_k base_tok k : ℕ) (g : GrammarLogitsProcessor M)
      → (min k max_k == 0) ≡ true
      → propose_forced M tokenizer max_k base_tok k g ≡ some ([], g)
  unfolding propose_forced
  propose_zero max_k base_tok k g none_wanted = rw (propose_forced, none_wanted) refl

  propose_refused :
      (max_k base_tok k : ℕ) (g : GrammarLogitsProcessor M)
      → (min k max_k == 0) ≡ false
      → (M.accept_token g.matcher base_tok).0 ≡ false
      → propose_forced M tokenizer max_k base_tok k g
        ≡ some ([], record g { matcher = (M.accept_token g.matcher base_tok).1 })
  unfolding propose_forced advance
  propose_refused max_k base_tok k g wanted refused =
      rw (propose_forced, advance, wanted, refused) refl

  propose_run :
      (max_k base_tok k : ℕ) (g : GrammarLogitsProcessor M) (forced : List ℕ) (last : M.State)
      → (min k max_k == 0) ≡ false
      → (M.accept_token g.matcher base_tok).0 ≡ true
      → forced_loop M tokenizer (min k max_k) (min k max_k) [] (M.accept_token g.matcher base_tok).1
        ≡ some (forced, last)
      → propose_forced M tokenizer max_k base_tok k g
        ≡ some (forced, record g { matcher = M.rollback last (1 + length forced) })
  unfolding propose_forced advance forced_run rewind
  propose_run max_k base_tok k g forced last wanted legal runs =
      rw (propose_forced, advance, forced_run, wanted, legal, runs)
        (ap (λ h. some (forced, h)) (rewind_some M (length forced) (record g { matcher = last })))

  -- For a matcher that refuses without a change and goes back over as many tokens as the base token and
  -- the drafts, propose returns with the walk as it was. Its drafts are at most as many as were asked
  -- for and as its limit, and, where there are any, the grammar takes the base token and then forces
  -- them.
  pub propose_forced-Peeks :
      (max_k base_tok k : ℕ) (g : GrammarLogitsProcessor M)
      → min k max_k + 1 ≤ max_rollback_tokens
      → (forced : List ℕ) × (propose_forced M tokenizer max_k base_tok k g ≡ some (forced, g))
        × length forced ≤ min k max_k
        × ((forced ≡ [])
            ⊎ ((next last : M.State) × (M.accept_token g.matcher base_tok ≡ (true, next))
                × Forced M tokenizer next forced last))
  propose_forced-Peeks max_k base_tok k g budget = elim (Bool-cases (min k max_k == 0)) [
    | inl none_wanted ↦ ([], propose_zero max_k base_tok k g none_wanted, omega arith, inl refl)
    | inr wanted ↦
        let next = (M.accept_token g.matcher base_tok).1 in
        elim (Bool-cases (M.accept_token g.matcher base_tok).0) [
          | inr refused ↦
              let same = rolls.refuses g.matcher next base_tok (ap (λ b. (b, next)) refused) in
              (
                [],
                propose_refused max_k base_tok k g wanted refused
                    ∙ ap (λ s. some ([], record g { matcher = s })) same,
                omega arith,
                inl refl,
              )
          | inl legal ↦
              let runs =
                forced_loop-Runs (min k max_k) (min k max_k) [] next (omega arith) (omega arith) in
              let accepts =
                step (ap (λ b. (b, next)) legal) (Forced-Accepts M tokenizer runs.walks) in
              let back =
                rolls.returns g.matcher runs.last (base_tok ∷ runs.tokens) accepts
                  (omega (arith, budget, runs.bounded)) in
              (
                runs.tokens,
                propose_run max_k base_tok k g runs.tokens runs.last wanted legal runs.returns
                    ∙ ap (λ s. some (runs.tokens, record g { matcher = s }))
                        (ap (M.rollback runs.last) (omega arith) ∙ back),
                runs.bounded,
                inr (next, runs.last, ap (λ b. (b, next)) legal, runs.walks),
              )
        ]
  ]
