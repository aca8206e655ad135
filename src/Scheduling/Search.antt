-- ===== src/Scheduling/Search.antt =====
-- scheduling.py: the loops over the layouts of a model with experts consider all that the GPUs allow.
use superl8_serve.Prelude.{
  ℕ, zero, suc, ◌+◌, ◌*◌, ◌/◌, ◌%◌, ◌≤◌, ◌<◌, ◌≡◌, refl, sym, subst, ◌∙◌, min, none, some, false,
  if◌then◌else◌, ◌==◌, ==_iff, leb, arith, Bool-cases, inl, inr, ◌⊎◌,
}
use mathlib.Core.Bool.{true≢false}
use mathlib.Core.Path.{subst₂}
use native.Mathlib.Decide.{ℕ_discrete}
use native.Mathlib.Nat.{mul_comm, le-div_iff_mul-le, le-mul_of_pos_right, le_trans}
use superl8_serve.Scheduling.{
  Best, beats, consider, dense, ep_bonus, over_ep, over_pp, over_replicas,
}
use superl8_serve.Scheduling.Scores.{
  Score, Reached, consider_better, consider_worse, consider-Reached, consider-keeps_Reached,
}

-- A layout that the GPUs allow: the replicas divide them, a replica uses all of its GPUs for its
-- stages, of which there are two or more, and their expert groups, and the limits hold.
pub record IsCandidate (max_pp layers experts gpus pp ep replicas : ℕ) : Type 0 where
  pub some_replicas : 1 ≤ replicas
  pub few : replicas ≤ gpus
  pub divides : gpus % replicas ≡ 0
  pub deep : 2 ≤ pp
  pub shallow : pp ≤ min max_pp layers
  pub some_ep : 1 ≤ ep
  pub enough_experts : ep ≤ experts
  pub used : pp * ep ≡ gpus / replicas

module _ (max_pp layers experts gpus : ℕ) where
  abbrev pub Candidate : ℕ → ℕ → ℕ → Type 0
  Candidate = IsCandidate max_pp layers experts gpus

  abbrev pub score : ℕ → ℕ → ℕ → Score
  score pp ep replicas = (ep_bonus experts ep, (pp, replicas))

  -- The best layout so far is a candidate with its score.
  abbrev pub Chosen : Best → Type 0
  Chosen b =
      (b.score ≡ none)
      ⊎ ((b.score ≡ some (score b.pp b.ep b.replicas)) × Candidate b.pp b.ep b.replicas)

  -- From `b` to `end` the candidates of `P` have been considered.
  pub record Searched (P : ℕ → ℕ → ℕ → Type 0) (b end : Best) : Type 0 where
    pub chosen : Chosen end
    pub keeps : (s : Score) → Reached s b → Reached s end
    pub all : (pp ep r : ℕ) → Candidate pp ep r → P pp ep r → Reached (score pp ep r) end

  nothing :
      (P : ℕ → ℕ → ℕ → Type 0) (b : Best)
      → Chosen b
      → ((pp ep r : ℕ) → Candidate pp ep r → ¬ P pp ep r)
      → Searched P b b
  nothing P b h no_one = record {
    chosen = h;
    keeps = λ s g. g;
    all = λ pp ep r c p. absurd (no_one pp ep r c p);
  }

  after :
      (P Q R : ℕ → ℕ → ℕ → Type 0) (b mid end : Best)
      → Searched P b mid
      → Searched Q mid end
      → ((pp ep r : ℕ) → Candidate pp ep r → R pp ep r → P pp ep r ⊎ Q pp ep r)
      → Searched R b end
  after P Q R b mid end one more split = record {
    chosen = more.chosen;
    keeps = λ s g. more.keeps s (one.keeps s g);
    all = λ pp ep r c x. elim (split pp ep r c x) [
      | inl p ↦ more.keeps (score pp ep r) (one.all pp ep r c p)
      | inr q ↦ more.all pp ep r c q
    ];
  }

  abbrev Just : ℕ → ℕ → ℕ → ℕ → ℕ → ℕ → Type 0
  Just pp ep r p e q = (p ≡ pp) × (e ≡ ep) × (q ≡ r)

  consider-Searched :
      (pp ep r : ℕ) (b : Best)
      → Candidate pp ep r
      → Chosen b
      → Searched (Just pp ep r) b (consider (ep_bonus experts ep) pp ep r b)
  consider-Searched pp ep r b c h = record {
    chosen = elim (Bool-cases (beats (score pp ep r) b.score)) [
      | inl better ↦
          subst Chosen (sym (consider_better (ep_bonus experts ep) pp ep r b better))
            (inr (refl, c))
      | inr worse ↦ subst Chosen (sym (consider_worse (ep_bonus experts ep) pp ep r b worse)) h
    ];
    keeps = consider-keeps_Reached (ep_bonus experts ep) pp ep r b;
    all = λ p e q d (same_pp, same_ep, same_r).
        subst₂
          (λ x y. Reached (ep_bonus experts x, (y, q)) (consider (ep_bonus experts ep) pp ep r b))
          (sym same_ep) (sym same_pp)
          (subst
            (λ n. Reached (ep_bonus experts ep, (pp, n)) (consider (ep_bonus experts ep) pp ep r b))
            (sym same_r) (consider-Reached (ep_bonus experts ep) pp ep r b));
  }

  -- A number of replicas that divides the GPUs.
  record IsShare (r : ℕ) : Type 0 where
    some_replicas : 1 ≤ r
    few : r ≤ gpus
    divides : gpus % r ≡ 0

  abbrev Groups : ℕ → ℕ → ℕ → ℕ → ℕ → ℕ → ℕ → Type 0
  Groups pp r ep left p e q = (p ≡ pp) × (q ≡ r) × (ep ≤ e) × (e < ep + left)

  over_ep-Searched :
      (pp r ep left : ℕ) (b : Best)
      → IsShare r
      → 2 ≤ pp
      → pp ≤ min max_pp layers
      → 1 ≤ ep
      → ep + left ≤ suc experts
      → Chosen b
      → Searched (Groups pp r ep left) b (over_ep experts (gpus / r) pp r ep left b)
  unfolding over_ep
  over_ep-Searched pp r ep zero b share deep shallow some_ep enough h =
      nothing (Groups pp r ep zero) b h
        (λ p e q c (same_pp, same_r, from, below). absurd (omega (arith, from, below)))
  over_ep-Searched pp r ep (suc left) b share deep shallow some_ep enough h =
      let one : Searched (Just pp ep r) b
          (if pp * ep == gpus / r then consider (ep_bonus experts ep) pp ep r b else b) =
        elim (Bool-cases (pp * ep == gpus / r)) [
          | inl uses ↦ rw uses (
              consider-Searched pp ep r b
                (record {
                  some_replicas = share.some_replicas;
                  few = share.few;
                  divides = share.divides;
                  deep = deep;
                  shallow = shallow;
                  some_ep = some_ep;
                  enough_experts = omega (arith, enough);
                  used = (==_iff (pp * ep) (gpus / r)).0 uses;
                })
                h)
          | inr wastes ↦ rw wastes (
              nothing (Just pp ep r) b h (λ p e q c (same_pp, same_ep, same_r).
                let uses : pp * ep ≡ gpus / r =
                  subst₂ (λ x y. x * y ≡ gpus / r) same_pp same_ep
                    (subst (λ n. p * e ≡ gpus / n) same_r c.used) in
                true≢false (sym ((==_iff (pp * ep) (gpus / r)).1 uses) ∙ wastes)))
        ] in
      after (Just pp ep r) (Groups pp r (ep + 1) left) (Groups pp r ep (suc left)) b _ _ one
        (over_ep-Searched pp r (ep + 1) left _ share deep shallow (omega arith)
          (omega (arith, enough)) one.chosen)
        (λ p e q c (same_pp, same_r, from, below). elim (ℕ_discrete e ep) [
          | yes first ↦ inl (same_pp, first, same_r)
          | no later ↦ inr (same_pp, same_r, omega (arith, from, later), omega (arith, below))
        ])

  abbrev Stages : ℕ → ℕ → ℕ → ℕ → ℕ → Type 0
  Stages r n p e q = (q ≡ r) × (p ≤ n)

  over_pp-Searched :
      (r p : ℕ) (b : Best)
      → IsShare r
      → p ≤ min max_pp layers
      → Chosen b
      → Searched (Stages r p) b (over_pp experts (gpus / r) r p b)
  unfolding over_pp
  over_pp-Searched r zero b share few h =
      nothing (Stages r zero) b h
        (λ p e q c (same, none_left). absurd (omega (arith, none_left, c.deep)))
  over_pp-Searched r (suc n) b share few h =
      let left = min (gpus / r / suc n) experts in
      let one : Searched (Groups (suc n) r 1 left) b
          (if leb 2 (suc n) then over_ep experts (gpus / r) (suc n) r 1 left b else b) =
        elim (Bool-cases (leb 2 (suc n))) [
          | inl deep ↦ rw deep (
              over_ep-Searched (suc n) r 1 left b share (ground (arith, deep)) few (omega arith)
                (omega arith) h)
          | inr flat ↦ rw flat (
              nothing (Groups (suc n) r 1 left) b h (λ p e q c (same_pp, same_r, from, below).
                absurd (ground (arith, flat, same_pp, c.deep))))
        ] in
      after (Groups (suc n) r 1 left) (Stages r n) (Stages r (suc n)) b _ _ one
        (over_pp-Searched r n _ share (omega (arith, few)) one.chosen)
        (λ p e q c (same_r, up_to). elim (ℕ_discrete p (suc n)) [
          | no less ↦ inr (same_r, omega (arith, less, up_to))
          | yes same_pp ↦
              let uses : suc n * e ≡ gpus / r =
                subst₂ (λ x y. x * e ≡ gpus / y) same_pp same_r c.used in
              let enough : e ≤ gpus / r / suc n =
                (le-div_iff_mul-le (omega arith)).1 (omega (arith, uses, mul_comm e (suc n))) in
              inl (same_pp, same_r, c.some_ep, omega (arith, enough, c.enough_experts))
        ])

  pub over_replicas-Searched :
      (r : ℕ) (b : Best)
      → 1 ≤ experts
      → r ≤ gpus
      → Chosen b
      → Searched (λ p e q. q ≤ r) b (over_replicas max_pp layers experts gpus r b)
  unfolding over_replicas
  over_replicas-Searched zero b some_experts few h =
      nothing (λ p e q. q ≤ 0) b h (λ p e q c le. absurd (omega (arith, le, c.some_replicas)))
  over_replicas-Searched (suc r) b some_experts few h =
      let mixture : (experts == 0) ≡ false = ground (arith, some_experts) in
      let depth = min max_pp (min layers (gpus / suc r)) in
      let last = Stages (suc r) depth in
      let one : Searched last b (
          if gpus % suc r == 0
          then if experts == 0
            then dense max_pp layers (gpus / suc r) (suc r) b
            else over_pp experts (gpus / suc r) (suc r) depth b
          else b) =
        elim (Bool-cases (gpus % suc r == 0)) [
          | inl divides ↦
              rw (divides, mixture)
                (over_pp-Searched (suc r) depth b
                  (record {
                    some_replicas = omega arith;
                    few = few;
                    divides = ground (arith, divides);
                  })
                  (omega arith) h)
          | inr other ↦ rw other (
              nothing last b h (λ p e q c (same, le).
                absurd (ground (arith, other, subst (λ n. gpus % n ≡ 0) same c.divides))))
        ] in
      after last (λ p e q. q ≤ r) (λ p e q. q ≤ suc r) b _ _ one
        (over_replicas-Searched r _ some_experts (omega (arith, few)) one.chosen)
        (λ p e q c le. elim (ℕ_discrete q (suc r)) [
          | no less ↦ inr (omega (arith, less, le))
          | yes same ↦
              let fits : p ≤ gpus / suc r =
                le_trans (le-mul_of_pos_right p c.some_ep)
                  (subst (λ n. p * e ≤ gpus / n) same (omega (arith, c.used))) in
              inl (same, omega (arith, fits, c.shallow))
        ])
