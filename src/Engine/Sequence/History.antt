-- ===== src/Engine/Sequence/History.antt =====
-- The incremental set of a sequence's tokens.
use superl8_serve.Prelude.{
  ℕ, zero, suc, ◌+◌, ◌-◌, ◌≤◌, ◌≡◌, refl, List, [], ◌∷◌, ◌++◌, false, ◌||◌, ap, ◌∙◌, sym,
  if◌then◌else◌, ltb, arith, length, take, drop, take-append-drop, take_all, take-append_left,
  length-append, count, Bool-cases, inl, inr,
}
use superl8_serve.Engine.Sequence.{
  Sequence, contains, update, reset_stale, scan_prompt, scan_output, repetition_token_ids,
  all_token_ids, num_prompt, num_output,
}

contains-append :
    (a : ℕ) (xs ys : List ℕ) → contains a (xs ++ ys) ≡ (contains a xs || contains a ys)
contains-append a [] ys = refl
contains-append a (x ∷ xs) ys = ground (arith, contains-append a xs ys)

contains-update :
    (a : ℕ) (seen xs : List ℕ) → contains a (update seen xs) ≡ (contains a seen || contains a xs)
unfolding update
contains-update a seen [] = ground arith
contains-update a seen (x ∷ xs) =
    ground (arith, contains-update a (if contains x seen then seen else x ∷ seen) xs)

count-update :
    (a : ℕ) (seen xs : List ℕ) → ((b : ℕ) → count b seen ≤ 1) → count a (update seen xs) ≤ 1
unfolding update
count-update a seen [] h = h a
count-update a seen (x ∷ xs) h = count-update a (if contains x seen then seen else x ∷ seen) xs once
  where
    absent : (b : ℕ) (ys : List ℕ) → contains b ys ≡ false → count b ys ≡ 0
    absent b [] e = refl
    absent b (y ∷ ys) e = ground (arith, absent b ys)

    once : (b : ℕ) → count b (if contains x seen then seen else x ∷ seen) ≤ 1
    once b = ground (arith, h b, absent x seen)

contains-split :
    (a n : ℕ) (xs : List ℕ) → contains a xs ≡ (contains a (take n xs) || contains a (drop n xs))
contains-split a n xs =
    ap (contains a) (sym (take-append-drop n xs)) ∙ contains-append a (take n xs) (drop n xs)

take_long :
    (n : ℕ) (xs ys : List ℕ) → length xs ≤ n → take n (xs ++ ys) ≡ xs ++ take (n - length xs) ys
take_long n [] ys h = let e : n - 0 ≡ n = omega arith in ap (λ k. take k ys) (sym e)
take_long zero (x ∷ xs) ys h = elim h [ ]
take_long (suc n) (x ∷ xs) ys h =
    let e : suc n - suc (length xs) ≡ n - length xs = omega arith in
    ap (◌∷◌ x) (take_long n xs ys (omega arith) ∙ ap (λ k. xs ++ take k ys) (sym e))

-- The set holds the first `n` tokens, each once.
pub record Holds (tokens : List ℕ) (state : List ℕ × ℕ) : Type 0 where
  pub same : (a : ℕ) → contains a state.0 ≡ contains a (take state.1 tokens)
  pub once : (a : ℕ) → count a state.0 ≤ 1

-- The cached set is right, unless its count is past the tokens, as after a truncation.
abbrev pub IsCurrent : Sequence → Type 0
IsCurrent s =
    s.repetition_seen_count ≤ num_prompt s + num_output s
    → Holds (all_token_ids s) (s.repetition_seen, s.repetition_seen_count)

module _ (p o : List ℕ) where
  reset_stale-Holds :
      (seen : List ℕ) (n : ℕ)
      → (n ≤ length p + length o → Holds (p ++ o) (seen, n))
      → Holds (p ++ o) (reset_stale (length p + length o) (seen, n))
        × ((reset_stale (length p + length o) (seen, n)).1 ≤ length p + length o)
  unfolding reset_stale
  reset_stale-Holds seen n h = elim (Bool-cases (ltb (length p + length o) n)) [
    | inl stale ↦ rw stale (record { same = λ a. refl; once = λ a. omega arith }, omega arith)
    | inr fresh ↦ rw fresh (h (ground arith), ground arith)
  ]

  scan_prompt-Holds :
      (seen : List ℕ) (n : ℕ)
      → Holds (p ++ o) (seen, n)
      → n ≤ length p + length o
      → Holds (p ++ o) (scan_prompt p (seen, n))
        × (length p ≤ (scan_prompt p (seen, n)).1)
        × ((scan_prompt p (seen, n)).1 ≤ length p + length o)
  unfolding scan_prompt
  scan_prompt-Holds seen n h le = elim (Bool-cases (ltb n (length p))) [
    | inl behind ↦ rw behind (
      record {
        same = λ a.
            contains-update a seen (drop n p)
            ∙ ap (λ b. b || contains a (drop n p))
                (h.same a ∙ ap (contains a) (take-append_left n p o (ground arith)))
            ∙ sym (contains-split a n p)
            ∙ ap (contains a) (
                sym (
                  take-append_left (length p) p o (omega arith)
                  ∙ take_all (length p) p (omega arith)));
        once = λ a. count-update a seen (drop n p) h.once;
      },
      omega arith,
      omega arith,
    )
    | inr past ↦ rw past (h, ground arith, le)
  ]

  scan_output-Holds :
      (seen : List ℕ) (n : ℕ)
      → Holds (p ++ o) (seen, n)
      → length p ≤ n
      → n ≤ length p + length o
      → Holds (p ++ o) (scan_output p o (seen, n))
        × ((scan_output p o (seen, n)).1 ≡ length p + length o)
  unfolding scan_output
  scan_output-Holds seen n h ge le = elim (Bool-cases (ltb n (length p + length o))) [
    | inl behind ↦ rw behind (
      record {
        same = λ a.
            contains-update a seen (drop (n - length p) o)
            ∙ ap (λ b. b || contains a (drop (n - length p) o))
                (h.same a
                  ∙ ap (contains a) (take_long n p o ge)
                  ∙ contains-append a p (take (n - length p) o))
            ∙ regroup a
            ∙ ap (contains a)
                (sym (take_all (length p + length o) (p ++ o) (omega (arith, length-append p o))));
        once = λ a. count-update a seen (drop (n - length p) o) h.once;
      },
      refl,
    )
    | inr done ↦ rw done (h, ground arith)
  ]
    where
      regroup :
          (a : ℕ)
          → ((contains a p || contains a (take (n - length p) o))
              || contains a (drop (n - length p) o))
            ≡ contains a (p ++ o)
      regroup a = ground (arith, contains-split a (n - length p) o, contains-append a p o)

-- `repetition_token_ids` returns exactly the tokens of the prompt and the output, each once, and
-- leaves a set that is right for all of them.
pub repetition_token_ids-exact :
    (s : Sequence)
    → IsCurrent s
    → ((a : ℕ) → contains a (repetition_token_ids s).1 ≡ contains a (all_token_ids s))
      × ((a : ℕ) → count a (repetition_token_ids s).1 ≤ 1)
      × IsCurrent (repetition_token_ids s).0
unfolding repetition_token_ids
repetition_token_ids-exact s h =
    let p = s.prompt_ids in
    let o = s.output_ids in
    let (h1, le1) = reset_stale-Holds p o s.repetition_seen s.repetition_seen_count h in
    let (h2, ge2, le2) = scan_prompt-Holds p o _ _ h1 le1 in
    let (h3, all) = scan_output-Holds p o _ _ h2 ge2 le2 in
    (
      λ a.
          h3.same a ∙ ap (contains a) (take_all _ (p ++ o) (omega (arith, all, length-append p o))),
      h3.once,
      λ _. h3,
    )
