-- ===== src/Engine/Structured/Tests.antt =====
-- structured.py: a grammar with one text, and examples of the theorems with it.
use superl8_serve.Prelude.{
  ℕ, zero, suc, ◌^◌, ◌≤◌, ◌≡◌, refl, sym, ap, ◌∙◌, min, List, [], ◌∷◌, ◌++◌, Option, none, some,
  Bool, true, false, if◌then◌else◌, ◌==◌, arith, length, drop, Bool-cases, inl, inr, ◌⊎◌,
}
use superl8_serve.Engine.Structured.{
  Matcher, GrammarLogitsProcessor, new_processor, sync, call, commit_walk, single_set_bit, advance,
  rewind, propose_forced, forced_run, forced_loop, forced_round, verify_slots, verify_row,
  other_than,
}
use superl8_serve.Engine.Structured.Walk.{Accepts, rest, step, Rolls, Forced}
use superl8_serve.Engine.Structured.Peek.{propose_forced-Peeks}
use superl8_serve.Engine.Structured.Session.{anchor, called, committed, Session-once, at}
use superl8_serve.Engine.Structured.Verify.{
  Masks, picked, constrained, common, verify_row-constrained,
}

-- The grammar of 1, 2, 3 and the end-of-sequence token 9. A state has the accepted tokens, the last
-- first.
abbrev fits : List ℕ → ℕ → Bool
fits [] t = t == 1
fits (a ∷ []) t = t == 2
fits (a ∷ b ∷ []) t = t == 3
fits (a ∷ b ∷ c ∷ []) t = t == 9
fits (a ∷ b ∷ c ∷ d ∷ s) t = false

abbrev over : List ℕ → Bool
over [] = false
over (a ∷ []) = false
over (a ∷ b ∷ []) = false
over (a ∷ b ∷ c ∷ []) = false
over (a ∷ b ∷ c ∷ d ∷ s) = true

abbrev mask : List ℕ → List ℕ
mask [] = 2 ∷ 0 ∷ []
mask (a ∷ []) = 4 ∷ 0 ∷ []
mask (a ∷ b ∷ []) = 8 ∷ 0 ∷ []
mask (a ∷ b ∷ c ∷ []) = 512 ∷ 0 ∷ []
mask (a ∷ b ∷ c ∷ d ∷ s) = 0 ∷ 0 ∷ []

abbrev M : Matcher
M = record {
  State = List ℕ;
  accept_token = λ s t. if fits s t then (true, t ∷ s) else (false, s);
  rollback = λ s n. drop n s;
  is_terminated = over;
  next_token_bitmask = mask;
  find_jump_forward_string = λ s. [];
}

accepted :
    (s next : List ℕ) (t : ℕ)
    → M.accept_token s t ≡ (true, next)
    → (fits s t ≡ true) × (next ≡ t ∷ s)
accepted s next t h = elim (Bool-cases (fits s t)) [
  | inl yes_ ↦
      (yes_, ap (λ a. a.1) (sym h ∙ ap (λ b. if b then (true, t ∷ s) else (false, s)) yes_))
  | inr no_ ↦
      let wrong : true ≡ false =
        ap (λ a. a.0) (sym h ∙ ap (λ b. if b then (true, t ∷ s) else (false, s)) no_) in
      ground (arith, wrong)
]

refused : (s next : List ℕ) (t : ℕ) → M.accept_token s t ≡ (false, next) → next ≡ s
refused s next t h = elim (Bool-cases (fits s t)) [
  | inr no_ ↦ ap (λ a. a.1) (sym h ∙ ap (λ b. if b then (true, t ∷ s) else (false, s)) no_)
  | inl yes_ ↦
      let wrong : false ≡ true =
        ap (λ a. a.0) (sym h ∙ ap (λ b. if b then (true, t ∷ s) else (false, s)) yes_) in
      ground (arith, wrong)
]

drop_one : (n : ℕ) (xs : List ℕ) → drop (suc n) xs ≡ drop 1 (drop n xs)
drop_one zero xs = refl
drop_one (suc n) [] = refl
drop_one (suc n) (x ∷ xs) = drop_one n xs

back : {s next : List ℕ} {tokens : List ℕ} → Accepts M s tokens next → drop (length tokens) next ≡ s
back rest = refl
back (step {s} {s1} {s2} {t} {tokens} e walk) =
    drop_one (length tokens) s2 ∙ ap (drop 1) (back walk ∙ (accepted s s1 t e).1)

rolls : Rolls M 64
rolls = record { refuses = refused; returns = λ s next tokens walk le. back walk }

-- A row of logits that has its maximum at 7, and under a mask at the only legal token.
abbrev pick : List ℕ → Option (List ℕ) → ℕ
pick tokens none = 7
pick tokens (some words) = elim (single_set_bit words) [ none ↦ 7 | some t ↦ t ]

-- Words of 32 bits: token 35 is the fourth of the second word.
single_values :
    (single_set_bit (0 ∷ 8 ∷ []) ≡ some 35)
    × (single_set_bit (0 ∷ 12 ∷ []) ≡ none)
    × (single_set_bit (2 ^ 31 ∷ []) ≡ some 31)
    × (single_set_bit (1 ∷ 1 ∷ []) ≡ none)
unfolding single_set_bit
single_values = (refl, refl, refl, refl)

legal :
    (s tokens : List ℕ)
    → M.is_terminated s ≡ false
    → (M.accept_token s (picked M pick (some 9) tokens s)).0 ≡ true
unfolding single_set_bit
legal [] tokens h = refl
legal (a ∷ []) tokens h = refl
legal (a ∷ b ∷ []) tokens h = refl
legal (a ∷ b ∷ c ∷ []) tokens h = refl
legal (a ∷ b ∷ c ∷ d ∷ s) tokens h = ground (arith, h)

over-next :
    (s : List ℕ) (t : ℕ) → fits s t ≡ true → other_than (some 9) t ≡ true → over (t ∷ s) ≡ false
over-next [] t h e = refl
over-next (a ∷ []) t h e = refl
over-next (a ∷ b ∷ []) t h e = refl
over-next (a ∷ b ∷ c ∷ []) t h e = ground (arith, h, e)
over-next (a ∷ b ∷ c ∷ d ∷ s) t h e = ground (arith, h)

masks : Masks M pick (some 9)
masks = record {
  legal = legal;
  ends = λ s next t h e. let (fit, is) = accepted s next t h in ap over is ∙ over-next s t fit e;
}

abbrev fresh : GrammarLogitsProcessor M
fresh = record { matcher = []; seen = some 2 }

-- After the base token the grammar forces 2, 3 and 9, of which two are asked for.
drafts_value : propose_forced M none 8 1 2 fresh ≡ some (2 ∷ 3 ∷ [], fresh)
unfolding propose_forced forced_run forced_loop forced_round advance rewind single_set_bit
drafts_value = refl

propose_forced-Peeks_example :
    (forced : List ℕ) × (propose_forced M none 8 1 2 fresh ≡ some (forced, fresh))
    × length forced ≤ min 2 8
    × ((forced ≡ [])
        ⊎ ((next last : List ℕ) × (M.accept_token [] 1 ≡ (true, next))
            × Forced M none next forced last))
propose_forced-Peeks_example = propose_forced-Peeks M 64 rolls none 8 1 2 fresh (omega arith)

-- A prompt of two tokens, a call of the sampler, a speculative commit of two tokens, and another call.
Session-once_example :
    (generated : List ℕ) × ((((5 ∷ 6 ∷ []) ++ 1 ∷ []) ++ 2 ∷ 3 ∷ []) ++ 9 ∷ []
      ≡ (5 ∷ 6 ∷ []) ++ generated)
    × ((call M ((((5 ∷ 6 ∷ []) ++ 1 ∷ []) ++ 2 ∷ 3 ∷ []) ++ 9 ∷ []) (
          commit_walk M
            (2 ∷ 3 ∷ [])
            5
            (call M ((5 ∷ 6 ∷ []) ++ 1 ∷ []) (sync M (5 ∷ 6 ∷ []) (new_processor M []))).0)).0
        ≡ at M 64 rolls none []
            (5 ∷ 6 ∷ [])
            generated
            ((((5 ∷ 6 ∷ []) ++ 1 ∷ []) ++ 2 ∷ 3 ∷ []) ++ 9 ∷ []))
Session-once_example =
    Session-once M 64 rolls none [] (5 ∷ 6 ∷ []) _ _
      (called (9 ∷ []) (committed (2 ∷ 3 ∷ []) (called (1 ∷ []) anchor)))

-- The second draft is not what the grammar forces.
truths_value :
    verify_row M pick (some 9) (5 ∷ 6 ∷ []) 1 (2 ∷ 4 ∷ []) fresh ≡ (some (2 ∷ 3 ∷ []), fresh)
unfolding verify_row verify_slots advance rewind single_set_bit
truths_value = refl

verify_row-constrained_example : verify_row M pick (some 9) (5 ∷ 6 ∷ []) 1 (2 ∷ 4 ∷ []) fresh ≡ (
  some (
      constrained M pick
        (some 9)
        (suc (common M pick (some 9) (2 ∷ 4 ∷ []) (5 ∷ 6 ∷ 1 ∷ []) (1 ∷ [])))
        (5 ∷ 6 ∷ 1 ∷ [])
        (1 ∷ [])),
  fresh,
)
verify_row-constrained_example =
    verify_row-constrained M pick (some 9) masks 64 rolls (2 ∷ 4 ∷ []) (5 ∷ 6 ∷ []) 1 fresh (1 ∷ [])
      refl refl (omega arith)

-- Where the base token ends the grammar and a draft agrees with the plain pick after it, the refused
-- advance is counted, and the walk goes back one token too far.
one_too_far :
    verify_row M pick
      (some 9)
      (5 ∷ 6 ∷ [])
      9
      (7 ∷ [])
      (record { matcher = 3 ∷ 2 ∷ 1 ∷ []; seen = some 5 })
    ≡ (some (7 ∷ 7 ∷ []), record { matcher = 2 ∷ 1 ∷ []; seen = some 5 })
unfolding verify_row verify_slots advance rewind
one_too_far = refl
