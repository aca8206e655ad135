-- ===== src/Engine/Structured/Rounds.antt =====
-- structured.py: a round of forced_run adds tokens that the grammar forces.
use mathlib.Core.List.{append-nil}
use superl8_serve.Prelude.{
  ℕ, ◌≤◌, ◌<◌, ◌≡◌, refl, sym, ap, subst, ◌∙◌, List, [], ◌∷◌, ◌++◌, Option, none, some, Bool, true,
  false, if◌then◌else◌, arith, length, length-append, Bool-cases, Option-cases, List-cases, inl,
  inr,
}
use superl8_serve.Engine.Structured.{Matcher, single_set_bit, take_string, forced_round}
use superl8_serve.Engine.Structured.Walk.{Rolls, Forced, stop, single, jump, take_string-Takes}

module _ (M : Matcher) (max_rollback_tokens : ℕ) (rolls : Rolls M max_rollback_tokens)
    (tokenizer : Option (List ℕ → List ℕ)) where
  -- What a round adds, and that it adds something where it goes on.
  pub record Rounds (k : ℕ) (out : List ℕ) (s : M.State) (r : Bool × (List ℕ × M.State))
      : Type 0 where
    pub tokens : List ℕ
    pub adds : r.1.0 ≡ out ++ tokens
    pub walks : Forced M tokenizer s tokens r.1.1
    pub bounded : length out < k → length r.1.0 ≤ k
    pub moves : r.0 ≡ true → length out < length r.1.0

  stays : (k : ℕ) (out : List ℕ) (s next : M.State) → next ≡ s → Rounds k out s (false, (out, next))
  stays k out s next same = record {
    tokens = [];
    adds = sym (append-nil out);
    walks = subst (Forced M tokenizer s []) (sym same) stop;
    bounded = λ h. omega (arith, h);
    moves = λ h. ground arith;
  }

  round_single :
      (k t : ℕ) (out : List ℕ) (s : M.State)
      → M.is_terminated s ≡ false
      → single_set_bit (M.next_token_bitmask s) ≡ some t
      → forced_round M tokenizer k out s ≡ (
          if (M.accept_token s t).0
          then (true, (out ++ t ∷ [], (M.accept_token s t).1))
          else (false, (out, (M.accept_token s t).1)))
  unfolding forced_round
  round_single k t out s open_ one = rw (forced_round, open_, one) refl

  one_token :
      (k t : ℕ) (out : List ℕ) (s : M.State)
      → M.is_terminated s ≡ false
      → single_set_bit (M.next_token_bitmask s) ≡ some t
      → Rounds k out s (forced_round M tokenizer k out s)
  one_token k t out s open_ one =
      let next = (M.accept_token s t).1 in
      elim (Bool-cases (M.accept_token s t).0) [
        | inl legal ↦
            let longer = length-append out (t ∷ []) in
            subst (Rounds k out s)
              (sym (
                round_single k t out s open_ one
                ∙ ap (λ b. if b then (true, (out ++ t ∷ [], next)) else (false, (out, next)))
                    legal))
              (record {
                tokens = t ∷ [];
                adds = refl;
                walks = single one (ap (λ b. (b, next)) legal) stop;
                bounded = λ h. omega (arith, h, longer);
                moves = λ h. omega (arith, longer);
              })
        | inr refused ↦
            subst (Rounds k out s)
              (sym (
                round_single k t out s open_ one
                ∙ ap (λ b. if b then (true, (out ++ t ∷ [], next)) else (false, (out, next)))
                    refused))
              (stays k out s next (rolls.refuses s next t (ap (λ b. (b, next)) refused)))
      ]

  round_done :
      (k : ℕ) (out : List ℕ) (s : M.State)
      → M.is_terminated s ≡ true
      → forced_round M tokenizer k out s ≡ (false, (out, s))
  unfolding forced_round
  round_done k out s done = rw (forced_round, done) refl

  round_none :
      (k : ℕ) (out : List ℕ) (s : M.State)
      → M.is_terminated s ≡ false
      → single_set_bit (M.next_token_bitmask s) ≡ none
      → tokenizer ≡ none
      → forced_round M tokenizer k out s ≡ (false, (out, s))
  unfolding forced_round
  round_none k out s open_ several bare = rw (forced_round, open_, several, bare) refl

  round_empty :
      (k : ℕ) (out : List ℕ) (s : M.State) (encode : List ℕ → List ℕ)
      → M.is_terminated s ≡ false
      → single_set_bit (M.next_token_bitmask s) ≡ none
      → tokenizer ≡ some encode
      → M.find_jump_forward_string s ≡ []
      → forced_round M tokenizer k out s ≡ (false, (out, s))
  unfolding forced_round
  round_empty k out s encode open_ several has empty =
      rw (forced_round, open_, several, has, empty) refl

  round_string :
      (k c : ℕ) (string out : List ℕ) (s : M.State) (encode : List ℕ → List ℕ)
      → M.is_terminated s ≡ false
      → single_set_bit (M.next_token_bitmask s) ≡ none
      → tokenizer ≡ some encode
      → M.find_jump_forward_string s ≡ c ∷ string
      → forced_round M tokenizer k out s ≡ take_string M k out (encode (c ∷ string)) false s
  unfolding forced_round
  round_string k c string out s encode open_ several has forced =
      rw (forced_round, open_, several, has, forced) refl

  jumps :
      (k : ℕ) (out string : List ℕ) (s : M.State) (encode : List ℕ → List ℕ)
      → tokenizer ≡ some encode
      → M.find_jump_forward_string s ≡ string
      → Rounds k out s (take_string M k out (encode string) false s)
  jumps k out string s encode has forced =
      let r = take_string-Takes M max_rollback_tokens rolls k out (encode string) false s in
      record {
        tokens = r.front;
        adds = r.adds;
        walks =
            subst (λ ts. Forced M tokenizer s ts (take_string M k out (encode string) false s).1.1)
              (append-nil r.front)
              (jump encode r.back has (r.parts ∙ ap encode (sym forced)) r.walks stop);
        bounded = λ h. r.bounded (omega (arith, h));
        moves = λ h. elim (r.moves h) [ inl no_way ↦ ground (arith, no_way) | inr longer ↦ longer ];
      }

  several_tokens :
      (k : ℕ) (out : List ℕ) (s : M.State)
      → M.is_terminated s ≡ false
      → single_set_bit (M.next_token_bitmask s) ≡ none
      → Rounds k out s (forced_round M tokenizer k out s)
  several_tokens k out s open_ several = elim (Option-cases tokenizer) [
    | inl bare ↦
        subst (Rounds k out s) (sym (round_none k out s open_ several bare)) (stays k out s s refl)
    | inr (encode, has) ↦ elim (List-cases (M.find_jump_forward_string s)) [
      | inl empty ↦
          subst (Rounds k out s) (sym (round_empty k out s encode open_ several has empty))
            (stays k out s s refl)
      | inr (c, string, forced) ↦
          subst (Rounds k out s)
            (sym (round_string k c string out s encode open_ several has forced))
            (jumps k out (c ∷ string) s encode has forced)
    ]
  ]

  pub forced_round-Rounds :
      (k : ℕ) (out : List ℕ) (s : M.State) → Rounds k out s (forced_round M tokenizer k out s)
  forced_round-Rounds k out s = elim (Bool-cases (M.is_terminated s)) [
    | inl done ↦ subst (Rounds k out s) (sym (round_done k out s done)) (stays k out s s refl)
    | inr open_ ↦ elim (Option-cases (single_set_bit (M.next_token_bitmask s))) [
      | inl several ↦ several_tokens k out s open_ several
      | inr (t, one) ↦ one_token k t out s open_ one
    ]
  ]
