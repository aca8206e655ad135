-- ===== src/Engine/Structured/Session.antt =====
-- structured.py: the steps of a request over its grammar, in any order.
use mathlib.Core.List.{append_assoc, append-nil}
use superl8_serve.Prelude.{
  ℕ, ◌+◌, ◌≤◌, ◌≡◌, refl, sym, ap, ◌∙◌, min, List, [], ◌∷◌, ◌++◌, Option, none, some, length, drop,
}
use superl8_serve.Engine.Structured.{
  Matcher, GrammarLogitsProcessor, new_processor, accept_all, sync, call, advance, commit_walk,
  propose_forced,
}
use superl8_serve.Engine.Structured.Walk.{Rolls}
use superl8_serve.Engine.Structured.Peek.{propose_forced-Peeks}

module _ (M : Matcher) (max_rollback_tokens : ℕ) (rolls : Rolls M max_rollback_tokens)
    (tokenizer : Option (List ℕ → List ℕ)) (first : M.State) (prompt : List ℕ) where
  -- A request's history and its grammar: the steps of plain decoding, of speculative decoding and of
  -- drafting, in any order.
  pub data Session : List ℕ → GrammarLogitsProcessor M → Type 0 where
    anchor : Session prompt (sync M prompt (new_processor M first))
    anchor_call : Session prompt (call M prompt (new_processor M first)).0
    synced :
        {ids : List ℕ} {g : GrammarLogitsProcessor M} (new : List ℕ)
        → Session ids g
        → Session (ids ++ new) (sync M (ids ++ new) g)
    called :
        {ids : List ℕ} {g : GrammarLogitsProcessor M} (new : List ℕ)
        → Session ids g
        → Session (ids ++ new) (call M (ids ++ new) g).0
    committed :
        {ids : List ℕ} {g : GrammarLogitsProcessor M} (emit : List ℕ)
        → Session ids g
        → Session (ids ++ emit) (commit_walk M emit (length (ids ++ emit)) g)
    drafted :
        {ids drafts : List ℕ} {g after : GrammarLogitsProcessor M} (max_k base_tok k : ℕ)
        → Session ids g
        → min k max_k + 1 ≤ max_rollback_tokens
        → propose_forced M tokenizer max_k base_tok k g ≡ some (drafts, after)
        → Session ids after

  -- The grammar of a history: the matcher was given the generated tokens, each once.
  abbrev pub at : List ℕ → List ℕ → GrammarLogitsProcessor M
  at generated ids = record { matcher = accept_all M first generated; seen = some (length ids) }

  accept_all-append :
      (s : M.State) (front back : List ℕ)
      → accept_all M s (front ++ back) ≡ accept_all M (accept_all M s front) back
  accept_all-append s [] back = refl
  accept_all-append s (t ∷ front) back = accept_all-append (M.accept_token s t).1 front back

  drop-length : (ids new : List ℕ) → drop (length ids) (ids ++ new) ≡ new
  drop-length [] new = refl
  drop-length (t ∷ ids) new = drop-length ids new

  grown :
      (generated ids new : List ℕ)
      → record {
        matcher = accept_all M (accept_all M first generated) (drop (length ids) (ids ++ new));
        seen = some (length (ids ++ new));
      }
        ≡ at (generated ++ new) (ids ++ new)
  grown generated ids new =
      ap (λ s. record { matcher = s; seen = some (length (ids ++ new)) })
        (ap (accept_all M (accept_all M first generated)) (drop-length ids new)
          ∙ sym (accept_all-append first generated new))

  sync-at :
      (generated ids new : List ℕ)
      → sync M (ids ++ new) (at generated ids) ≡ at (generated ++ new) (ids ++ new)
  unfolding sync
  sync-at generated ids new = grown generated ids new

  call-at :
      (generated ids new : List ℕ)
      → (call M (ids ++ new) (at generated ids)).0 ≡ at (generated ++ new) (ids ++ new)
  unfolding call
  call-at generated ids new = grown generated ids new

  commit_walk-is :
      (emit : List ℕ) (n : ℕ) (g : GrammarLogitsProcessor M)
      → commit_walk M emit n g ≡ record { matcher = accept_all M g.matcher emit; seen = some n }
  unfolding commit_walk advance
  commit_walk-is [] n g = refl
  commit_walk-is (t ∷ emit) n g = commit_walk-is emit n (advance M t g).1

  commit_walk-at :
      (generated ids emit : List ℕ)
      → commit_walk M emit (length (ids ++ emit)) (at generated ids)
        ≡ at (generated ++ emit) (ids ++ emit)
  commit_walk-at generated ids emit =
      commit_walk-is emit (length (ids ++ emit)) (at generated ids)
      ∙ ap (λ s. record { matcher = s; seen = some (length (ids ++ emit)) })
          (sym (accept_all-append first generated emit))

  -- However calls of the sampler, syncs, speculative commits and drafts of at most the matcher's limit
  -- follow one another, the history is the prompt and the generated tokens, the matcher was given each
  -- of the generated tokens once, in order, and none of the prompt, and the watermark is the length of
  -- the history.
  pub Session-once :
      (ids : List ℕ) (g : GrammarLogitsProcessor M)
      → Session ids g
      → (generated : List ℕ) × (ids ≡ prompt ++ generated) × (g ≡ at generated ids)
  unfolding sync call
  Session-once ids g anchor = ([], sym (append-nil prompt), refl)
  Session-once ids g anchor_call = ([], sym (append-nil prompt), refl)
  Session-once _ _ (synced {ids} {g} new before) =
      let (generated, is, now) = Session-once ids g before in
      (
        generated ++ new,
        ap (λ h. h ++ new) is ∙ append_assoc prompt generated new,
        ap (sync M (ids ++ new)) now ∙ sync-at generated ids new,
      )
  Session-once _ _ (called {ids} {g} new before) =
      let (generated, is, now) = Session-once ids g before in
      (
        generated ++ new,
        ap (λ h. h ++ new) is ∙ append_assoc prompt generated new,
        ap (λ h. (call M (ids ++ new) h).0) now ∙ call-at generated ids new,
      )
  Session-once _ _ (committed {ids} {g} emit before) =
      let (generated, is, now) = Session-once ids g before in
      (
        generated ++ emit,
        ap (λ h. h ++ emit) is ∙ append_assoc prompt generated emit,
        ap (commit_walk M emit (length (ids ++ emit))) now ∙ commit_walk-at generated ids emit,
      )
  Session-once ids after (drafted {g} max_k base_tok k before budget returns) =
      let (generated, is, now) = Session-once ids g before in
      let (forced, peeks, _, _) =
        propose_forced-Peeks M max_rollback_tokens rolls tokenizer max_k base_tok k g budget in
      (generated, is, ap snd_of (sym returns ∙ peeks) ∙ now)
    where
      snd_of : Option (List ℕ × GrammarLogitsProcessor M) → GrammarLogitsProcessor M
      snd_of none = after
      snd_of (some r) = r.1
