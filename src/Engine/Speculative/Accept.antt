-- ===== src/Engine/Speculative/Accept.antt =====
-- engine/model_runner.py: which drafts a speculative step accepts, and which it emits.
use superl8_serve.Prelude.{
  ℕ, zero, suc, ◌+◌, ◌-◌, ◌≤◌, ◌<◌, max, ◌≡◌, refl, sym, ap, ◌∙◌, subst, ◌⊎◌, inl, inr, Bool, true,
  false, not, ◌&&◌, ◌||◌, Option, none, some, List, [], ◌∷◌, ◌++◌, arith, length, take,
  length-append, List-cases, if◌then◌else◌, ◌==◌, ltb, leb, ==_iff, Bool-cases,
}
use superl8_serve.Engine.Sequence.{
  Sequence, num_prompt, num_output, is_finished, finish_reason, over_window, ends_with, last_or,
  length_limit, stop,
}
use superl8_serve.Engine.Speculative.{Runner, matching, truncate_emit, stop_at_eos}

-- Each token is the model's after those before it.
abbrev pub IsGreedy : (List ℕ → ℕ) → List ℕ → List ℕ → Type 0
IsGreedy greedy context [] = Unit
IsGreedy greedy context (t ∷ toks) =
    (t ≡ greedy context) × IsGreedy greedy (context ++ (t ∷ [])) toks

pub matching-IsGreedy :
    (greedy : List ℕ → ℕ) (context drafts : List ℕ)
    → IsGreedy greedy context (matching greedy context drafts)
unfolding matching
matching-IsGreedy greedy context [] = tt
matching-IsGreedy greedy context (d ∷ drafts) = elim (Bool-cases (d == greedy context)) [
  | inl e ↦
      subst
        (λ b.
          IsGreedy greedy context
            (if b then d ∷ matching greedy (context ++ (d ∷ [])) drafts else []))
        (sym e)
        ((==_iff d (greedy context)).0 e, matching-IsGreedy greedy (context ++ (d ∷ [])) drafts)
  | inr e ↦
      subst
        (λ b.
          IsGreedy greedy context
            (if b then d ∷ matching greedy (context ++ (d ∷ [])) drafts else []))
        (sym e) tt
]

-- The sequence after one more token, as `output_ids` and `length` show it.
abbrev pub push : Sequence → ℕ → Sequence
push s t = record s { output_ids = s.output_ids ++ (t ∷ []); length = s.length + 1 }

-- A window that is not exceeded by `n` tokens.
abbrev pub Room : Option ℕ → ℕ → Type 0
Room none n = Unit
Room (some m) n = n ≤ m

pub last_or-push : (d : ℕ) (xs : List ℕ) (t : ℕ) → last_or d (xs ++ (t ∷ [])) ≡ t
last_or-push d [] t = refl
last_or-push d (x ∷ xs) t = last_or-push x xs t

pub ends_with-push :
    (e : Option ℕ) (xs : List ℕ) (t : ℕ) → ends_with e (xs ++ (t ∷ [])) ≡ ends_with e (t ∷ [])
ends_with-push none [] t = refl
ends_with-push none (x ∷ xs) t = refl
ends_with-push (some e) [] t = refl
ends_with-push (some e) (x ∷ xs) t = ap (λ v. v == e) (last_or-push x xs t)

pub is_finished-tests :
    (s : Sequence) (e : Option ℕ)
    → is_finished s e ≡ (
        leb s.params.max_tokens (num_output s)
        || (over_window s.max_len (num_prompt s + num_output s)
            || (not s.params.ignore_eos && ends_with e s.output_ids)))
unfolding is_finished finish_reason
is_finished-tests s e =
    tests (leb s.params.max_tokens (num_output s))
      (over_window s.max_len (num_prompt s + num_output s))
      (not s.params.ignore_eos && ends_with e s.output_ids)
  where
    tests :
        (a b c : Bool)
        → elim (if a
            then some length_limit
            else if b
            then some length_limit
            else if c
            then some stop
            else none) [ none ↦ false | some _ ↦ true ]
          ≡ (a || (b || c))
    tests true b c = refl
    tests false true c = refl
    tests false false true = refl
    tests false false false = refl

-- `emit` up to the budget, with one token at least.
abbrev pub within : ℕ → List ℕ → List ℕ
within remaining emit = if ltb remaining (length emit) then take (max 1 remaining) emit else emit

pub within-step : (n t : ℕ) (toks : List ℕ) → 1 < n → within n (t ∷ toks) ≡ t ∷ within (n - 1) toks
within-step zero t toks more = ground (arith, more)
within-step (suc zero) t toks more = ground (arith, more)
within-step (suc (suc k)) t toks more = ground arith

pub stop_at_eos-step :
    (e : Option ℕ) (ignore : Bool) (t : ℕ) (toks : List ℕ)
    → stop_at_eos e ignore (t ∷ toks)
      ≡ t ∷ (if not ignore && ends_with e (t ∷ []) then [] else stop_at_eos e ignore toks)
stop_at_eos-step none true t toks = refl
stop_at_eos-step none false t toks = refl
stop_at_eos-step (some e) true t toks = refl
stop_at_eos-step (some e) false t toks = elim (Bool-cases (t == e)) [
  | inl h ↦ rw h refl
  | inr h ↦ rw h refl
]

stop_at_eos_empty : (e : Option ℕ) (ignore : Bool) → stop_at_eos e ignore [] ≡ []
stop_at_eos_empty none ignore = refl
stop_at_eos_empty (some e) true = refl
stop_at_eos_empty (some e) false = refl

stop_at_eos-within_empty :
    (n : ℕ) (e : Option ℕ) (ignore : Bool) → stop_at_eos e ignore (within n []) ≡ []
stop_at_eos-within_empty n e ignore =
    let nothing : within n [] ≡ [] = ground arith in
    ap (stop_at_eos e ignore) nothing ∙ stop_at_eos_empty e ignore

within_one : (t : ℕ) (toks : List ℕ) → within 1 (t ∷ toks) ≡ t ∷ []
within_one t [] = refl
within_one t (x ∷ toks) = ground arith

both_empty : (b : Bool) (xs : List ℕ) → xs ≡ [] → (if b then [] else xs) ≡ []
both_empty true xs empty = refl
both_empty false xs empty = empty

abbrev pub cut : ℕ → ℕ → Option ℕ → Bool → List ℕ → List ℕ
cut max_tokens outputs e ignore emit = stop_at_eos e ignore (within (max_tokens - outputs) emit)

cut-step :
    (m n : ℕ) (e : Option ℕ) (ignore window : Bool) (t : ℕ) (toks : List ℕ)
    → leb m n ≡ false
    → (window ≡ false) ⊎ (toks ≡ [])
    → cut m n e ignore (t ∷ toks)
      ≡ t
        ∷ (if leb m (n + 1) || (window || (not ignore && ends_with e (t ∷ [])))
            then []
            else cut m (n + 1) e ignore toks)
cut-step m n e ignore window t toks running room = elim (Bool-cases (leb m (n + 1))) [
  | inl last ↦
      let one : m - n ≡ 1 = ground (arith, last, running) in
      rw (last, one, within_one t toks, stop_at_eos-step e ignore t [])
        (ap (λ xs. t ∷ xs) (both_empty _ _ (stop_at_eos_empty e ignore)))
  | inr more ↦
      let left : 1 < m - n = ground (arith, more) in
      let rest : m - n - 1 ≡ m - (n + 1) = omega arith in
      rw
        (
          more,
          within-step (m - n) t toks left,
          rest,
          stop_at_eos-step e ignore t (within (m - (n + 1)) toks),
        )
        (elim room [
          | inl inside ↦ rw inside refl
          | inr empty ↦ rw empty (
              ap (λ xs. t ∷ xs)
                (both_empty _ _ (stop_at_eos-within_empty (m - (n + 1)) e ignore)
                  ∙ sym (both_empty _ _ (stop_at_eos-within_empty (m - (n + 1)) e ignore))))
        ])
]

pub or_left : (a b : Bool) → (a || b) ≡ false → a ≡ false
or_left true b h = h
or_left false b h = refl

inside :
    (m : Option ℕ) (p o n : ℕ) → Room m (p + o + suc (suc n)) → over_window m (p + (o + 1)) ≡ false
inside none p o n room = refl
inside (some m) p o n room = ground (arith, room)

-- Where the window has room for the tokens, the cut goes on as long as the sequence would.
pub truncate_emit-step :
    (r : Runner) (s : Sequence) (t : ℕ) (toks : List ℕ)
    → is_finished s r.eos_id ≡ false
    → Room s.max_len (num_prompt s + num_output s + suc (length toks))
    → truncate_emit r s (t ∷ toks)
      ≡ t ∷ (if is_finished (push s t) r.eos_id then [] else truncate_emit r (push s t) toks)
unfolding truncate_emit
truncate_emit-step r s t toks running room =
    rw (is_finished-tests (push s t) r.eos_id, outputs, ends_with-push r.eos_id s.output_ids t)
      (cut-step s.params.max_tokens (num_output s) r.eos_id s.params.ignore_eos
        (over_window s.max_len (num_prompt s + (num_output s + 1))) t toks budget window)
  where
    outputs : length (s.output_ids ++ (t ∷ [])) ≡ num_output s + 1
    outputs = length-append s.output_ids (t ∷ [])

    budget : leb s.params.max_tokens (num_output s) ≡ false
    budget = or_left _ _ (sym (is_finished-tests s r.eos_id) ∙ running)

    window : (over_window s.max_len (num_prompt s + (num_output s + 1)) ≡ false) ⊎ (toks ≡ [])
    window = elim (List-cases toks) [
      | inl empty ↦ inr empty
      | inr (x, xs, more) ↦ inl (
          inside s.max_len (num_prompt s) (num_output s) (length xs) (
            subst (λ ts. Room s.max_len (num_prompt s + num_output s + suc (length ts))) more room))
    ]

pub truncate_emit_empty : (r : Runner) (s : Sequence) → truncate_emit r s [] ≡ []
unfolding truncate_emit
truncate_emit_empty r s =
    stop_at_eos-within_empty (s.params.max_tokens - num_output s) r.eos_id s.params.ignore_eos
