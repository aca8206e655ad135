-- ===== src/Engine/Drafters/Ngram.antt =====
-- What the n-gram drafter proposes.
use superl8_serve.Prelude.{
  ℕ, zero, suc, ◌+◌, ◌-◌, ◌≤◌, ◌<◌, ◌≡◌, ◌≢◌, refl, sym, ap, ◌∙◌, min, List, [], ◌∷◌, ◌++◌, none,
  some, true, false, ◌&&◌, ltb, leb, length, take, drop, length-drop, length-append, take_all,
  take-append_left, drop-append_left, take-take, arith, inl, inr, ◌⊎◌, Bool-cases, Option-cases,
  List-cases, subst, lt→ltb,
}
use native.Mathlib.Decide.{ℕ_discrete}
use mathlib.Core.Bool.{true≢false}
use superl8_serve.Engine.Drafters.{
  same_ids, NgramDrafter, suffix, occurs, last_below, any_below, sweep, propose, could_match_after,
}
use superl8_serve.Engine.Drafters.Scan.{
  same_ids-eq, last_below-none, last_below-some, any_below_hit, take-nonempty, same_ids_refl,
}

not_ltb : (a b : ℕ) → b ≤ a → ltb a b ≡ false
not_ltb a b h = ground arith

module _ (tokens : List ℕ) where
  -- The last `n` tokens stand at `i`, with a token after them.
  pub record Occurs (n i : ℕ) : Type 0 where
    pub room : i + n < length tokens
    pub same : take n (drop i tokens) ≡ suffix n tokens

  -- What follows the last place where the longest pattern stands that stands anywhere.
  pub record Follows (min_n max_n k : ℕ) (cont : List ℕ) : Type 0 where
    pub n : ℕ
    pub i : ℕ
    pub at_least : min_n ≤ n
    pub at_most : n ≤ max_n
    pub found : Occurs n i
    pub is : cont ≡ take k (drop (i + n) tokens)
    pub latest : (j : ℕ) → i < j → j + n < length tokens → take n (drop j tokens) ≢ suffix n tokens
    pub longest :
        (m j : ℕ)
        → n < m
        → m ≤ max_n
        → j + m < length tokens
        → take m (drop j tokens) ≢ suffix m tokens

  abbrev pub Absent : ℕ → ℕ → Type 0
  Absent min_n max_n =
      (m j : ℕ)
      → min_n ≤ m
      → m ≤ max_n
      → j + m < length tokens
      → take m (drop j tokens) ≢ suffix m tokens

  none_at :
      (n : ℕ)
      → last_below (occurs tokens n) (length tokens - n) ≡ none
      → (j : ℕ) → j + n < length tokens
      → take n (drop j tokens) ≢ suffix n tokens
  none_at n e j room same = absurd (
      true≢false
        (sym hit ∙ last_below-none (occurs tokens n) (length tokens - n) j e (omega (arith, room))))
    where
      hit : occurs tokens n j ≡ true
      hit = ap (λ xs. same_ids xs (suffix n tokens)) same ∙ same_ids_refl (suffix n tokens)

  sweep_absent : (k min_n m : ℕ) → (suc m < min_n) → sweep tokens k min_n (suc m) ≡ []
  unfolding sweep
  sweep_absent k min_n m h = rw (lt→ltb (suc m) min_n h) refl

  sweep_shorter :
      (k min_n m : ℕ)
      → min_n ≤ suc m
      → last_below (occurs tokens (suc m)) (length tokens - suc m) ≡ none
      → sweep tokens k min_n (suc m) ≡ sweep tokens k min_n m
  unfolding sweep
  sweep_shorter k min_n m h e = rw (not_ltb (suc m) min_n h, e) refl

  sweep_found :
      (k min_n m i : ℕ)
      → min_n ≤ suc m
      → last_below (occurs tokens (suc m)) (length tokens - suc m) ≡ some i
      → take k (drop (i + suc m) tokens) ≢ []
      → sweep tokens k min_n (suc m) ≡ take k (drop (i + suc m) tokens)
  unfolding sweep
  sweep_found k min_n m i h e some_cont = elim (List-cases (take k (drop (i + suc m) tokens))) [
    | inl nothing ↦ absurd (some_cont nothing)
    | inr (t, cont, is) ↦ rw (not_ltb (suc m) min_n h, e, is) refl
  ]

  abbrev pub Sweeps : ℕ → ℕ → ℕ → List ℕ → Type 0
  Sweeps min_n max_n k cont = ((cont ≡ []) × Absent min_n max_n) ⊎ Follows min_n max_n k cont

  -- Where the pattern of length `suc m` stands nowhere, what the shorter ones give.
  sweep_up :
      (min_n m k : ℕ) (cont : List ℕ)
      → ((j : ℕ) → j + suc m < length tokens → take (suc m) (drop j tokens) ≢ suffix (suc m) tokens)
      → Sweeps min_n m k cont
      → Sweeps min_n (suc m) k cont
  sweep_up min_n m k cont no_more (inl (e, absent)) = inl (
    e,
    λ n j lo hi room. elim (ℕ_discrete n (suc m)) [
      | yes is ↦
          subst (λ n. j + n < length tokens → take n (drop j tokens) ≢ suffix n tokens) (sym is)
            (no_more j) room
      | no ne ↦ absent n j lo (grind arith) room
    ],
  )
  sweep_up min_n m k cont no_more (inr f) = inr (record {
    n = f.n;
    i = f.i;
    at_least = f.at_least;
    at_most = omega (arith, f.at_most);
    found = f.found;
    is = f.is;
    latest = f.latest;
    longest = λ n j gt hi room. elim (ℕ_discrete n (suc m)) [
      | yes is ↦
          subst (λ n. j + n < length tokens → take n (drop j tokens) ≢ suffix n tokens) (sym is)
            (no_more j) room
      | no ne ↦ f.longest n j gt (grind arith) room
    ];
  })

  found_here :
      (k min_n m i : ℕ)
      → 0 < k
      → min_n ≤ suc m
      → last_below (occurs tokens (suc m)) (length tokens - suc m) ≡ some i
      → Follows min_n (suc m) k (sweep tokens k min_n (suc m))
  found_here k min_n m i pos lo e =
      let (lt, hit, last) = last_below-some (occurs tokens (suc m)) (length tokens - suc m) i e in
      let room : i + suc m < length tokens = omega (arith, lt) in
      record {
        n = suc m;
        i = i;
        at_least = lo;
        at_most = omega arith;
        found = record { room = room; same = same_ids-eq _ _ hit };
        is = sweep_found k min_n m i lo e (
            take-nonempty k (drop (i + suc m) tokens) pos
              (omega (arith, length-drop (i + suc m) tokens, room)));
        latest = λ j gt after same. absurd (
            true≢false (
              sym (
                ap (λ xs. same_ids xs (suffix (suc m) tokens)) same
                ∙ same_ids_refl (suffix (suc m) tokens))
              ∙ last j gt (omega (arith, after))));
        longest = λ n j gt hi after. absurd (omega (arith, gt, hi));
      }

  pub sweep-Sweeps :
      (k min_n top : ℕ) → 0 < k → 0 < min_n → Sweeps min_n top k (sweep tokens k min_n top)
  sweep-Sweeps k min_n zero pos low =
      inl (unfold sweep in refl, λ n j lo hi room. absurd (omega (arith, lo, hi, low)))
  sweep-Sweeps k min_n (suc m) pos low = elim (Bool-cases (ltb (suc m) min_n)) [
    | inl short ↦ inl (
      sweep_absent k min_n m (ground (arith, short)),
      λ n j lo hi room. absurd (ground (arith, short, lo, hi)),
    )
    | inr long ↦ elim (Option-cases (last_below (occurs tokens (suc m)) (length tokens - suc m))) [
      | inl e ↦ sweep_up min_n m k (sweep tokens k min_n (suc m)) (none_at (suc m) e) (
          subst (Sweeps min_n m k) (sym (sweep_shorter k min_n m (ground (arith, long)) e))
            (sweep-Sweeps k min_n m pos low))
      | inr (i, e) ↦ inr (found_here k min_n m i pos (ground (arith, long)) e)
    ]
  ]

proposes :
    (d : NgramDrafter) (tokens : List ℕ) (k : ℕ)
    → 0 < min k d.max_k
    → propose d tokens k ≡ sweep tokens (min k d.max_k) d.min_n (min d.max_n (length tokens - 1))
unfolding propose
proposes d tokens k pos =
    let more : leb (min k d.max_k) 0 ≡ false = ground (arith, pos) in rw more refl

proposes_none :
    (d : NgramDrafter) (tokens : List ℕ) (k : ℕ)
    → leb (min k d.max_k) 0 ≡ true
    → propose d tokens k ≡ []
unfolding propose
proposes_none d tokens k none_wanted = rw none_wanted refl

le→leb : (a b : ℕ) → a ≤ b → leb a b ≡ true
le→leb a b h = ground arith

-- For a positive `k` the n-gram drafter proposes what follows the last place where its longest
-- pattern stands that stands anywhere before, cut to `k` and the drafter's own cap; and it proposes
-- nothing only if none of its patterns stands anywhere with a token after it.
pub propose-Sweeps :
    (d : NgramDrafter) (tokens : List ℕ) (k : ℕ)
    → 0 < min k d.max_k
    → 0 < d.min_n
    → Sweeps tokens d.min_n (min d.max_n (length tokens - 1)) (min k d.max_k) (propose d tokens k)
propose-Sweeps d tokens k pos low =
    subst (Sweeps tokens d.min_n (min d.max_n (length tokens - 1)) (min k d.max_k))
      (sym (proposes d tokens k pos))
      (sweep-Sweeps tokens (min k d.max_k) d.min_n (min d.max_n (length tokens - 1)) pos low)

-- The pattern without the token to come stands at the same place in the tokens so far.
occurs_before :
    (xs : List ℕ) (t m i : ℕ)
    → Occurs (xs ++ (t ∷ [])) (suc m) i
    → (i < length xs - m) × (occurs xs m i ≡ true)
occurs_before xs t m i o =
    let whole : length (xs ++ (t ∷ [])) ≡ length xs + 1 = length-append xs (t ∷ []) in
    let room = o.room in
    let before : take m (take (suc m) (drop i (xs ++ (t ∷ [])))) ≡ take m (drop i xs) =
      take-take m (drop i (xs ++ (t ∷ [])))
      ∙ ap (take m) (drop-append_left i xs (t ∷ []) (omega (arith, whole, room)))
      ∙ take-append_left m (drop i xs) (t ∷ []) (omega (arith, whole, room, length-drop i xs)) in
    let after : take m (suffix (suc m) (xs ++ (t ∷ []))) ≡ suffix m xs =
      ap (λ n. take m (drop n (xs ++ (t ∷ [])))) {x = length (xs ++ (t ∷ [])) - suc m}
        {y = length xs - m} (omega (arith, whole))
      ∙ ap (take m) (drop-append_left (length xs - m) xs (t ∷ []) (omega arith))
      ∙ take-append_left m (drop (length xs - m) xs) (t ∷ [])
          (omega (arith, whole, room, length-drop (length xs - m) xs))
      ∙ take_all m (drop (length xs - m) xs) (omega (arith, length-drop (length xs - m) xs)) in
    (
      omega (arith, whole, room),
      ap (λ ys. same_ids ys (suffix m xs)) (sym before ∙ ap (take m) o.same ∙ after)
          ∙ same_ids_refl (suffix m xs),
    )

-- With a positive `min_n`: if the n-gram drafter has a proposal once a token `t` is there,
-- `could_match_after` says so before.
pub could_match_after-propose :
    (d : NgramDrafter) (tokens : List ℕ) (t k : ℕ)
    → 0 < d.min_n
    → propose d (tokens ++ (t ∷ [])) k ≢ []
    → could_match_after d tokens ≡ true
unfolding could_match_after
could_match_after-propose d tokens t k low proposed = elim (Bool-cases (leb (min k d.max_k) 0)) [
  | inl nothing ↦ absurd (proposed (proposes_none d (tokens ++ (t ∷ [])) k nothing))
  | inr pos ↦ elim (propose-Sweeps d (tokens ++ (t ∷ [])) k (ground (arith, pos)) low) [
    | inl absent ↦ absurd (proposed absent.0)
    | inr f ↦ hit f.n f.i f.at_least f.at_most f.found
  ]
]
  where
    hit :
        (n i : ℕ)
        → d.min_n ≤ n
        → n ≤ min d.max_n (length (tokens ++ (t ∷ [])) - 1)
        → Occurs (tokens ++ (t ∷ [])) n i
        → could_match_after d tokens ≡ true
    hit zero i lo hi o = absurd (omega (arith, lo, low))
    hit (suc m) i lo hi o =
        let (below, stands) = occurs_before tokens t m i o in
        any_below_hit
          (λ m. leb d.min_n m && any_below (occurs tokens (m - 1)) (length tokens - (m - 1)))
          (suc (min d.max_n (length tokens + 1))) (suc m)
          (omega (arith, hi, length-append tokens (t ∷ [])))
          (ap (λ b. b && any_below (occurs tokens (suc m - 1)) (length tokens - (suc m - 1)))
              (le→leb d.min_n (suc m) lo)
            ∙ ap (λ n. any_below (occurs tokens n) (length tokens - n)) {x = suc m - 1} {y = m}
                (omega arith)
            ∙ any_below_hit (occurs tokens m) (length tokens - m) i below stands)
