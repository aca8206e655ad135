-- ===== src/Engine/Speculative/Greedy.antt =====
-- engine/model_runner.py: a speculative step next to plain greedy decoding, one token at a time.
use superl8_serve.Prelude.{
  ℕ, zero, suc, ◌+◌, ◌≤◌, ◌≡◌, refl, sym, ap, ◌∙◌, subst, ◌⊎◌, inl, inr, false, ◌||◌, Option, none,
  some, List, [], ◌∷◌, ◌++◌, arith, length, length-append, if◌then◌else◌, ltb, Bool-cases,
}
use superl8_serve.Engine.Sequence.{Sequence, all_token_ids, num_prompt, num_output, is_finished}
use superl8_serve.Engine.Speculative.{
  Runner, commit, commit_row, truncate_emit, base_token, compute_drafts, accepted_drafts,
  commit_row, commit_base, append_token,
}
use superl8_serve.Engine.Speculative.Accept.{
  IsGreedy, matching-IsGreedy, push, Room, truncate_emit-step, truncate_emit_empty, or_left,
}
use mathlib.Core.List.{append_assoc, append-nil}

-- Plain greedy decoding of a sequence, which stops where it is finished.
abbrev pub plain_step : (List ℕ → ℕ) → Option ℕ → Sequence → Sequence
plain_step greedy eos s = if is_finished s eos then s else push s (greedy (all_token_ids s))

abbrev pub plain : (List ℕ → ℕ) → Option ℕ → ℕ → Sequence → Sequence
plain greedy eos zero s = s
plain greedy eos (suc n) s = plain greedy eos n (plain_step greedy eos s)

abbrev pub pushes : Sequence → List ℕ → Sequence
pushes s toks = record s { output_ids = s.output_ids ++ toks; length = s.length + length toks }

-- Each token is one that plain decoding appends.
abbrev pub Steps : (List ℕ → ℕ) → Option ℕ → Sequence → List ℕ → Type 0
Steps greedy eos s [] = Unit
Steps greedy eos s (t ∷ toks) =
    (is_finished s eos ≡ false) × (t ≡ greedy (all_token_ids s)) × Steps greedy eos (push s t) toks

all_token_ids-push : (s : Sequence) (t : ℕ) → all_token_ids (push s t) ≡ all_token_ids s ++ (t ∷ [])
all_token_ids-push s t = sym (append_assoc s.prompt_ids s.output_ids (t ∷ []))

pushes-push : (s : Sequence) (t : ℕ) (toks : List ℕ) → pushes (push s t) toks ≡ pushes s (t ∷ toks)
pushes-push s t toks =
    let tokens = append_assoc s.output_ids (t ∷ []) toks in
    let n : s.length + 1 + length toks ≡ s.length + suc (length toks) = omega arith in
    rw (tokens, n) refl

room-push :
    (s : Sequence) (t : ℕ) (toks : List ℕ)
    → num_prompt s + num_output s + length (t ∷ toks)
      ≡ num_prompt s + num_output (push s t) + length toks
room-push s t toks = rw (length-append s.output_ids (t ∷ [])) (omega arith)

pub truncate_emit-Steps :
    (greedy : List ℕ → ℕ) (r : Runner) (s : Sequence) (toks : List ℕ)
    → is_finished s r.eos_id ≡ false
    → IsGreedy greedy (all_token_ids s) toks
    → Room s.max_len (num_prompt s + num_output s + length toks)
    → Steps greedy r.eos_id s (truncate_emit r s toks)
truncate_emit-Steps greedy r s [] running _ room =
    subst (Steps greedy r.eos_id s) (sym (truncate_emit_empty r s)) tt
truncate_emit-Steps greedy r s (t ∷ toks) running (first, follow) room =
    subst (Steps greedy r.eos_id s) (sym (truncate_emit-step r s t toks running room))
      (elim (Bool-cases (is_finished (push s t) r.eos_id)) [
        | inl stop ↦ rw stop (running, first, tt)
        | inr on ↦ rw on (
          running,
          first,
          truncate_emit-Steps greedy r (push s t) toks on
              (subst (λ c. IsGreedy greedy c toks) (sym (all_token_ids-push s t)) follow)
              (subst (Room s.max_len) (room-push s t toks) room),
        )
      ])

pub plain-Steps :
    (greedy : List ℕ → ℕ) (eos : Option ℕ) (s : Sequence) (toks : List ℕ)
    → Steps greedy eos s toks
    → plain greedy eos (length toks) s ≡ pushes s toks
plain-Steps greedy eos s [] steps =
    let n : s.length ≡ s.length + 0 = omega arith in rw (append-nil s.output_ids, sym n) refl
plain-Steps greedy eos s (t ∷ toks) (running, first, follow) =
    let step : plain_step greedy eos s ≡ push s t = rw (running, first) refl in
    ap (plain greedy eos (length toks)) step
    ∙ plain-Steps greedy eos (push s t) toks follow
    ∙ pushes-push s t toks

length_zero : (toks : List ℕ) → length toks ≤ 0 → toks ≡ []
length_zero [] h = refl
length_zero (t ∷ toks) h = ground (arith, h)

truncate_emit_whole :
    (r : Runner) (s : Sequence) (toks : List ℕ)
    → is_finished s r.eos_id ≡ false
    → Room s.max_len (num_prompt s + num_output s + length toks)
    → length toks ≤ length (truncate_emit r s toks)
    → truncate_emit r s toks ≡ toks
truncate_emit_whole r s [] running room long = truncate_emit_empty r s
truncate_emit_whole r s (t ∷ toks) running room long =
    let step = truncate_emit-step r s t toks running room in
    let long' = subst (λ xs. suc (length toks) ≤ length xs) step long in
    step
    ∙ ap (λ xs. t ∷ xs)
        (elim (Bool-cases (is_finished (push s t) r.eos_id)) [
          | inl stop ↦ rw stop (
              sym (
                length_zero toks (
                  subst
                    (λ b. length toks ≤ length (if b then [] else truncate_emit r (push s t) toks))
                    stop (omega (arith, long')))))
          | inr on ↦ rw on (
              truncate_emit_whole r (push s t) toks on
                (subst (Room s.max_len) (room-push s t toks) room)
                (subst
                  (λ b. length toks ≤ length (if b then [] else truncate_emit r (push s t) toks)) on
                  (omega (arith, long'))))
        ])

-- A carried base token is the model's next one.
abbrev pub CarriesNext : (List ℕ → ℕ) → Sequence → Type 0
CarriesNext greedy s =
    (s.spec_base_tok ≡ none) ⊎ (s.spec_base_tok ≡ some (greedy (all_token_ids s)))

-- The sequence `after` is `before` with `n` more tokens of plain greedy decoding, none of them
-- after it was finished.
pub record Decodes (greedy : List ℕ → ℕ) (eos : Option ℕ) (before after : Sequence) : Type 0 where
  pub n : ℕ
  pub progress : 1 ≤ n
  pub tokens : after ≡ record (plain greedy eos n before) { spec_base_tok = after.spec_base_tok }
  pub grown : num_output after ≡ num_output before + n
  pub carries : CarriesNext greedy after

base_token-greedy :
    (greedy : List ℕ → ℕ) (mtp : Sequence → ℕ → List ℕ) (r : Runner) (s : Sequence)
    → CarriesNext greedy s
    → base_token greedy mtp r s ≡ greedy (all_token_ids s)
unfolding base_token
base_token-greedy greedy mtp r s (inl none_yet) = rw none_yet refl
base_token-greedy greedy mtp r s (inr next) = rw next refl

truncate_emit_some :
    (r : Runner) (s : Sequence) (t : ℕ) (toks : List ℕ)
    → is_finished s r.eos_id ≡ false
    → Room s.max_len (num_prompt s + num_output s + length (t ∷ toks))
    → 1 ≤ length (truncate_emit r s (t ∷ toks))
truncate_emit_some r s t toks running room =
    rw (truncate_emit-step r s t toks running room) (omega arith)

pub commit-Decodes :
    (greedy : List ℕ → ℕ) (r : Runner) (s : Sequence) (t : ℕ) (toks : List ℕ)
    → is_finished s r.eos_id ≡ false
    → IsGreedy greedy (all_token_ids s) (t ∷ toks)
    → Room s.max_len (num_prompt s + num_output s + length (t ∷ toks))
    → Decodes greedy r.eos_id s (commit r s (t ∷ toks) (greedy (all_token_ids s ++ (t ∷ toks))))
unfolding commit
commit-Decodes greedy r s t toks running follows room = record {
  n = length emit;
  progress = truncate_emit_some r s t toks running room;
  tokens = rw (plain-Steps greedy r.eos_id s emit steps) refl;
  grown = length-append s.output_ids emit;
  carries =
      elim (Bool-cases (ltb (length emit) (length (t ∷ toks)) || is_finished after r.eos_id)) [
        | inl ends ↦ inl (rw ends refl)
        | inr on ↦ inr (rw on (ap (λ xs. some (greedy xs)) (sym (all_of on))))
      ];
}
  where
    emit : List ℕ
    emit = truncate_emit r s (t ∷ toks)

    after : Sequence
    after = pushes s emit

    steps : Steps greedy r.eos_id s emit
    steps = truncate_emit-Steps greedy r s (t ∷ toks) running follows room

    all_of :
        (ltb (length emit) (length (t ∷ toks)) || is_finished after r.eos_id) ≡ false
        → s.prompt_ids ++ (s.output_ids ++ emit) ≡ all_token_ids s ++ (t ∷ toks)
    all_of on =
        let short = or_left _ (is_finished after r.eos_id) on in
        let whole = truncate_emit_whole r s (t ∷ toks) running room (ground (arith, short)) in
        sym (append_assoc s.prompt_ids s.output_ids emit) ∙ ap (λ e. all_token_ids s ++ e) whole

pub commit_row-Decodes :
    (greedy : List ℕ → ℕ) (mtp : Sequence → ℕ → List ℕ) (r : Runner) (s : Sequence)
    → is_finished s r.eos_id ≡ false
    → CarriesNext greedy s
    → Room s.max_len (num_prompt s + num_output s + suc (length (accepted_drafts greedy mtp r s)))
    → Decodes greedy r.eos_id s (commit_row greedy mtp r s)
unfolding commit_row accepted_drafts
commit_row-Decodes greedy mtp r s running carry room =
    commit-Decodes greedy r s (base_token greedy mtp r s) (accepted_drafts greedy mtp r s) running
      (
        base_token-greedy greedy mtp r s carry,
        matching-IsGreedy greedy _ (compute_drafts greedy mtp r s),
      )
      room

-- A miss: the engine appends the base token.
pub commit_base-Decodes :
    (greedy : List ℕ → ℕ) (mtp : Sequence → ℕ → List ℕ) (r : Runner) (s : Sequence)
    → is_finished s r.eos_id ≡ false
    → CarriesNext greedy s
    → Decodes greedy r.eos_id s
        (append_token (commit_base greedy mtp r s) (base_token greedy mtp r s))
unfolding commit_base
commit_base-Decodes greedy mtp r s running carry = record {
  n = 1;
  progress = omega arith;
  tokens = rw (running, base_token-greedy greedy mtp r s carry) refl;
  grown = length-append s.output_ids (base_token greedy mtp r s ∷ []);
  carries = inl refl;
}
