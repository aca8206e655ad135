-- ===== src/Engine/Structured/Verify.antt =====
-- engine/model_runner.py: the truths of a constrained row are those of plain constrained decoding.
use superl8_serve.Prelude.{
  ℕ, zero, suc, ◌+◌, ◌≤◌, ◌≡◌, refl, sym, ap, subst, ◌∙◌, List, [], ◌∷◌, ◌++◌, Option, none, some,
  Bool, true, false, ◌&&◌, if◌then◌else◌, ◌==◌, arith, length, Bool-cases, inl, inr,
}
use superl8_serve.Engine.Structured.{
  Matcher, GrammarLogitsProcessor, advance, rewind, other_than, verify_slots, verify_row,
}
use superl8_serve.Engine.Structured.Walk.{Accepts, rest, step, Rolls, rewind_some}

if_true {ℓ} : {A : Type ℓ} {b : Bool} (x y : A) → b ≡ true → (if b then x else y) ≡ x
if_true x y h = ap (λ c. if c then x else y) h

if_false {ℓ} : {A : Type ℓ} {b : Bool} (x y : A) → b ≡ false → (if b then x else y) ≡ y
if_false x y h = ap (λ c. if c then x else y) h

and_right : (a b : Bool) → (a && b) ≡ true → b ≡ true
and_right true b h = h
and_right false b h = ground (arith, h)

module _ (M : Matcher) (pick : List ℕ → Option (List ℕ) → ℕ) (eos_id : Option ℕ) where
  abbrev pub picked : List ℕ → M.State → ℕ
  picked tokens s = pick tokens (if M.is_terminated s then none else some (M.next_token_bitmask s))

  -- The next `n` tokens of plain decoding, which masks, picks and accepts.
  unfoldable pub constrained : ℕ → List ℕ → M.State → List ℕ
  constrained zero tokens s = []
  constrained (suc n) tokens s =
      let t = picked tokens s in t ∷ constrained n (tokens ++ t ∷ []) (M.accept_token s t).1

  -- How many of the drafts are the tokens of a list, before the end-of-sequence token.
  unfoldable pub agreed : List ℕ → List ℕ → ℕ
  agreed [] tokens = 0
  agreed (d ∷ drafts) [] = 0
  agreed (d ∷ drafts) (t ∷ tokens) =
      let more = agreed drafts tokens in if (t == d) && other_than eos_id t then suc more else 0

  -- What the check relies on: a token picked under the mask is legal, and only the end-of-sequence token
  -- ends the grammar.
  pub record Masks : Type 0 where
    pub legal :
        (s : M.State) (tokens : List ℕ)
        → M.is_terminated s ≡ false
        → (M.accept_token s (picked tokens s)).0 ≡ true
    pub ends :
        (s next : M.State) (t : ℕ)
        → M.accept_token s t ≡ (true, next)
        → other_than eos_id t ≡ true
        → M.is_terminated next ≡ false

  abbrev pub common : List ℕ → List ℕ → M.State → ℕ
  common drafts tokens s = agreed drafts (constrained (length drafts) tokens s)

  record Checks (drafts tokens : List ℕ) (g : GrammarLogitsProcessor M)
      (r : List ℕ × (ℕ × GrammarLogitsProcessor M)) : Type 0 where
    truths : r.0 ≡ constrained (suc (common drafts tokens g.matcher)) tokens g.matcher
    path : List ℕ
    advances : r.1.0 ≡ length path
    walks : Accepts M g.matcher path r.1.1.matcher
    seen : r.1.1.seen ≡ g.seen
    few : length path ≤ length drafts

  module _ (masks : Masks) where
    abbrev goes_on : ℕ → List ℕ → GrammarLogitsProcessor M → Bool
    goes_on d tokens g =
        (picked tokens g.matcher == d) && other_than eos_id (picked tokens g.matcher)

    slots_stop :
        (d : ℕ) (drafts tokens : List ℕ) (g : GrammarLogitsProcessor M)
        → goes_on d tokens g ≡ false
        → verify_slots M pick eos_id tokens (d ∷ drafts) g ≡ (picked tokens g.matcher ∷ [], (0, g))
    unfolding verify_slots
    slots_stop d drafts tokens g stops = if_false _ _ stops

    slots_more :
        (d : ℕ) (drafts tokens : List ℕ) (g : GrammarLogitsProcessor M)
        → goes_on d tokens g ≡ true
        → verify_slots M pick eos_id tokens (d ∷ drafts) g ≡ (
            let t = picked tokens g.matcher in
            let r =
              verify_slots M pick eos_id
                (tokens ++ t ∷ [])
                drafts
                (record g { matcher = (M.accept_token g.matcher t).1 }) in
            (t ∷ r.0, (r.1.0 + 1, r.1.1)))
    unfolding verify_slots advance
    slots_more d drafts tokens g more = if_true _ _ more

    common_stop :
        (d : ℕ) (drafts tokens : List ℕ) (g : GrammarLogitsProcessor M)
        → goes_on d tokens g ≡ false
        → common (d ∷ drafts) tokens g.matcher ≡ 0
    unfolding constrained agreed
    common_stop d drafts tokens g stops = if_false _ _ stops

    common_more :
        (d : ℕ) (drafts tokens : List ℕ) (g : GrammarLogitsProcessor M)
        → goes_on d tokens g ≡ true
        → common (d ∷ drafts) tokens g.matcher ≡ (
            let t = picked tokens g.matcher in
            suc (common drafts (tokens ++ t ∷ []) (M.accept_token g.matcher t).1))
    unfolding constrained agreed
    common_more d drafts tokens g more = if_true _ _ more

    verify_slots-Checks :
        (drafts tokens : List ℕ) (g : GrammarLogitsProcessor M)
        → M.is_terminated g.matcher ≡ false
        → Checks drafts tokens g (verify_slots M pick eos_id tokens drafts g)
    unfolding verify_slots constrained
    verify_slots-Checks [] tokens g open_ = record {
      truths = unfold constrained agreed in refl;
      path = [];
      advances = refl;
      walks = rest;
      seen = refl;
      few = omega arith;
    }
    verify_slots-Checks (d ∷ drafts) tokens g open_ =
        let t = picked tokens g.matcher in
        let next = (M.accept_token g.matcher t).1 in
        elim (Bool-cases (goes_on d tokens g)) [
          | inr stops ↦
              subst (Checks (d ∷ drafts) tokens g) (sym (slots_stop d drafts tokens g stops))
                (record {
                  truths =
                      ap (λ n. constrained (suc n) tokens g.matcher)
                        (sym (common_stop d drafts tokens g stops));
                  path = [];
                  advances = refl;
                  walks = rest;
                  seen = refl;
                  few = omega arith;
                })
          | inl more ↦
              let accepted = ap (λ b. (b, next)) (masks.legal g.matcher tokens open_) in
              let still_open =
                masks.ends g.matcher next t accepted
                  (and_right (t == d) (other_than eos_id t) more) in
              let after = record g { matcher = next } in
              let r =
                verify_slots-Checks drafts (tokens ++ t ∷ []) (record g { matcher = next })
                  still_open in
              subst (Checks (d ∷ drafts) tokens g) (sym (slots_more d drafts tokens g more))
                (record {
                  truths =
                      ap (◌∷◌ t) r.truths
                      ∙ ap (λ n. constrained (suc n) tokens g.matcher)
                          (sym (common_more d drafts tokens g more));
                  path = t ∷ r.path;
                  advances = omega (arith, r.advances);
                  walks = step accepted r.walks;
                  seen = r.seen;
                  few = omega (arith, r.few);
                })
        ]

    rewound :
        {s : M.State} {n : Option ℕ} {g : GrammarLogitsProcessor M}
        → s ≡ g.matcher
        → n ≡ g.seen
        → record { matcher = s; seen = n } ≡ g
    rewound e f = λ i. record { matcher = e i; seen = f i }

    row_checked :
        (drafts tokens : List ℕ) (base_tok : ℕ) (g : GrammarLogitsProcessor M)
        → (M.accept_token g.matcher base_tok).0 ≡ true
        → verify_row M pick eos_id tokens base_tok drafts g ≡ (
            let r =
              verify_slots M pick eos_id
                (tokens ++ base_tok ∷ [])
                drafts
                (record g { matcher = (M.accept_token g.matcher base_tok).1 }) in
            (some r.0, rewind M (1 + r.1.0) r.1.1))
    unfolding verify_row advance
    row_checked drafts tokens base_tok g legal = if_true _ _ legal

    -- For a matcher that refuses without a change and goes back over as many tokens as the base token and
    -- the drafts, masked picks that are legal, a grammar that only the end-of-sequence token ends, and a
    -- base token that the grammar takes without ending: the truths of a constrained row are the next
    -- tokens of plain constrained decoding after the base token, one for each draft that agrees with
    -- them before the end-of-sequence token and one more, and the walk is as it was.
    pub verify_row-constrained :
        (max_rollback_tokens : ℕ)
        → Rolls M max_rollback_tokens
        → (drafts tokens : List ℕ) (base_tok : ℕ) (g : GrammarLogitsProcessor M) (next : M.State)
        → M.accept_token g.matcher base_tok ≡ (true, next)
        → M.is_terminated next ≡ false
        → length drafts + 1 ≤ max_rollback_tokens
        → verify_row M pick eos_id tokens base_tok drafts g ≡ (
          some (
              constrained
                (suc (common drafts (tokens ++ base_tok ∷ []) next))
                (tokens ++ base_tok ∷ [])
                next),
          g,
        )
    verify_row-constrained max_rollback_tokens rolls drafts tokens base_tok g next takes open_
          budget =
        let h = record g { matcher = next } in
        let after = tokens ++ base_tok ∷ [] in
        let r = verify_slots M pick eos_id after drafts (record g { matcher = next }) in
        let checks = verify_slots-Checks drafts after (record g { matcher = next }) open_ in
        let back =
          rolls.returns g.matcher r.1.1.matcher (base_tok ∷ checks.path) (step takes checks.walks)
            (omega (arith, budget, checks.few)) in
        row_checked drafts tokens base_tok g (ap (λ a. a.0) takes)
        ∙ ap
            (λ a.
              (let q = verify_slots M pick eos_id after drafts (record g { matcher = a.1 }) in
                (some q.0, rewind M (1 + q.1.0) q.1.1)))
            takes
        ∙ ap (λ ts. (some ts, rewind M (1 + r.1.0) r.1.1)) checks.truths
        ∙ ap (λ v. (some (constrained (suc (common drafts after next)) after next), v))
            (rewind_some M r.1.0 r.1.1
              ∙ rewound (ap (M.rollback r.1.1.matcher) (omega (arith, checks.advances)) ∙ back)
                  checks.seen)
