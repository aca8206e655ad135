-- ===== src/Engine/Structured/Walk.antt =====
-- structured.py and engine/drafters.py: the drafts of the grammar, and that they leave the walk alone.
use mathlib.Core.List.{append_assoc, append-nil}
use superl8_serve.Prelude.{
  ℕ, ◌+◌, ◌≤◌, ◌<◌, ◌≡◌, refl, sym, ap, subst, ◌∙◌, List, [], ◌∷◌, ◌++◌, Option, some, Bool, true,
  false, ltb, ltb→lt, lt→ltb, arith, length, length-append, Bool-cases, inl, inr, ◌⊎◌,
}
use superl8_serve.Engine.Structured.{
  Matcher, GrammarLogitsProcessor, single_set_bit, take_string, rewind,
}

module _ (M : Matcher) where
  -- The matcher accepts tokens one after the other.
  pub data Accepts : M.State → List ℕ → M.State → Type 0 where
    rest : {s : M.State} → Accepts s [] s
    step :
        {s s1 s2 : M.State} {t : ℕ} {tokens : List ℕ}
        → M.accept_token s t ≡ (true, s1)
        → Accepts s1 tokens s2
        → Accepts s (t ∷ tokens) s2

  -- What the walk relies on: a refused token changes nothing, and the matcher goes back over as many
  -- accepted tokens as it was made for.
  pub record Rolls (max_rollback_tokens : ℕ) : Type 0 where
    pub refuses : (s next : M.State) (t : ℕ) → M.accept_token s t ≡ (false, next) → next ≡ s
    pub returns :
        (s next : M.State) (tokens : List ℕ)
        → Accepts s tokens next
        → length tokens ≤ max_rollback_tokens
        → M.rollback next (length tokens) ≡ s

  pub rewind_some :
      (n : ℕ) (g : GrammarLogitsProcessor M)
      → rewind M (1 + n) g ≡ record g { matcher = M.rollback g.matcher (1 + n) }
  unfolding rewind
  rewind_some n g = rw (rewind, lt→ltb 0 (1 + n) (omega arith)) refl

  pub Accepts-append :
      {s s1 s2 : M.State} {front back : List ℕ}
      → Accepts s front s1
      → Accepts s1 back s2
      → Accepts s (front ++ back) s2
  Accepts-append rest b = b
  Accepts-append (step e a) b = step e (Accepts-append a b)

  module _ (tokenizer : Option (List ℕ → List ℕ)) where
    -- Tokens that the grammar forces: each is the only legal one, or they begin the tokens of the string
    -- that the grammar forces.
    pub data Forced : M.State → List ℕ → M.State → Type 0 where
      stop : {s : M.State} → Forced s [] s
      single :
          {s s1 s2 : M.State} {t : ℕ} {tokens : List ℕ}
          → single_set_bit (M.next_token_bitmask s) ≡ some t
          → M.accept_token s t ≡ (true, s1)
          → Forced s1 tokens s2
          → Forced s (t ∷ tokens) s2
      jump :
          {s s1 s2 : M.State} {front tokens : List ℕ} (encode : List ℕ → List ℕ) (back : List ℕ)
          → tokenizer ≡ some encode
          → front ++ back ≡ encode (M.find_jump_forward_string s)
          → Accepts s front s1
          → Forced s1 tokens s2
          → Forced s (front ++ tokens) s2

    pub Forced-Accepts :
        {s s1 : M.State} {tokens : List ℕ} → Forced s tokens s1 → Accepts s tokens s1
    Forced-Accepts stop = rest
    Forced-Accepts (single one e f) = step e (Forced-Accepts f)
    Forced-Accepts (jump encode back t e a f) = Accepts-append a (Forced-Accepts f)

    pub Forced-append :
        {s s1 s2 : M.State} {front back : List ℕ}
        → Forced s front s1
        → Forced s1 back s2
        → Forced s (front ++ back) s2
    Forced-append stop g = g
    Forced-append (single one e f) g = single one e (Forced-append f g)
    Forced-append {s} {s2} {back} (jump {front = front} {tokens = tokens} encode rest_of t e a f)
          g =
        subst (λ ts. Forced s ts s2) (sym (append_assoc front tokens back))
          (jump encode rest_of t e a (Forced-append f g))

  module _ (max_rollback_tokens : ℕ) (rolls : Rolls max_rollback_tokens) where
    -- What the loop over the forced string adds.
    pub record Takes (k : ℕ) (out tokens : List ℕ) (progressed : Bool) (s : M.State)
        (r : Bool × (List ℕ × M.State)) : Type 0 where
      pub front : List ℕ
      pub back : List ℕ
      pub parts : front ++ back ≡ tokens
      pub adds : r.1.0 ≡ out ++ front
      pub walks : Accepts s front r.1.1
      pub bounded : length out ≤ k → length r.1.0 ≤ k
      pub moves : r.0 ≡ true → (progressed ≡ true) ⊎ (length out < length r.1.0)

    take_full :
        (k t : ℕ) (out tokens : List ℕ) (progressed : Bool) (s : M.State)
        → ltb (length out) k ≡ false
        → take_string M k out (t ∷ tokens) progressed s ≡ (progressed, (out, s))
    unfolding take_string
    take_full k t out tokens progressed s full = rw (take_string, full) refl

    take_refused :
        (k t : ℕ) (out tokens : List ℕ) (progressed : Bool) (s : M.State)
        → ltb (length out) k ≡ true
        → (M.accept_token s t).0 ≡ false
        → take_string M k out (t ∷ tokens) progressed s
          ≡ (progressed, (out, (M.accept_token s t).1))
    unfolding take_string
    take_refused k t out tokens progressed s room refused = rw (take_string, room, refused) refl

    take_legal :
        (k t : ℕ) (out tokens : List ℕ) (progressed : Bool) (s : M.State)
        → ltb (length out) k ≡ true
        → (M.accept_token s t).0 ≡ true
        → take_string M k out (t ∷ tokens) progressed s
          ≡ take_string M k (out ++ t ∷ []) tokens true (M.accept_token s t).1
    unfolding take_string
    take_legal k t out tokens progressed s room legal = rw (take_string, room, legal) refl

    pub take_string-Takes :
        (k : ℕ) (out tokens : List ℕ) (progressed : Bool) (s : M.State)
        → Takes k out tokens progressed s (take_string M k out tokens progressed s)
    unfolding take_string
    take_string-Takes k out [] progressed s = record {
      front = [];
      back = [];
      parts = refl;
      adds = sym (append-nil out);
      walks = rest;
      bounded = λ h. h;
      moves = λ h. inl h;
    }
    take_string-Takes k out (t ∷ tokens) progressed s = elim (Bool-cases (ltb (length out) k)) [
      | inr full ↦
          subst (Takes k out (t ∷ tokens) progressed s)
            (sym (take_full k t out tokens progressed s full))
            (record {
              front = [];
              back = t ∷ tokens;
              parts = refl;
              adds = sym (append-nil out);
              walks = rest;
              bounded = λ h. h;
              moves = λ h. inl h;
            })
      | inl room ↦ elim (Bool-cases (M.accept_token s t).0) [
        | inr refused ↦
            let same =
              rolls.refuses s (M.accept_token s t).1 t
                (ap (λ b. (b, (M.accept_token s t).1)) refused) in
            subst (Takes k out (t ∷ tokens) progressed s)
              (sym (take_refused k t out tokens progressed s room refused))
              (record {
                front = [];
                back = t ∷ tokens;
                parts = refl;
                adds = sym (append-nil out);
                walks = subst (Accepts s []) (sym same) rest;
                bounded = λ h. h;
                moves = λ h. inl h;
              })
        | inl legal ↦
            let r = take_string-Takes k (out ++ t ∷ []) tokens true (M.accept_token s t).1 in
            let longer = length-append out (t ∷ []) in
            subst (Takes k out (t ∷ tokens) progressed s)
              (sym (take_legal k t out tokens progressed s room legal))
              (record {
                front = t ∷ r.front;
                back = r.back;
                parts = ap (◌∷◌ t) r.parts;
                adds = r.adds ∙ append_assoc out (t ∷ []) r.front;
                walks = step (ap (λ b. (b, (M.accept_token s t).1)) legal) r.walks;
                bounded = λ h. r.bounded (omega (arith, longer, ltb→lt (length out) k room));
                moves = λ h. inr (
                    omega (arith, longer, ap length r.adds, length-append (out ++ t ∷ []) r.front));
              })
      ]
    ]
