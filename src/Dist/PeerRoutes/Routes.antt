-- ===== src/Dist/PeerRoutes/Routes.antt =====
-- dist/peer_routes.py: the policy, and what a spec is read as.
use superl8_serve.Prelude.{
  ℕ, ◌<◌, ◌≡◌, ◌≢◌, ◌↔◌, refl, ap, sym, subst, ◌∙◌, ◌⊎◌, length, length-map, List, [], ◌∷◌, Option,
  none, some, Bool, true, false, ◌==◌, ltb, map, min, max, All, arith, Bool-cases, Option-cases,
  inl, inr,
}
use native.Mathlib.Decide.{ℕ_discrete}
use mathlib.Core.Bool.{false≢true}
use mathlib.Core.Option.{some_inj, none-ne-some}
use mathlib.Core.Path.{subst₂}
use superl8_serve.Dist.PeerRoutes.{
  ℤ, pos, negsuc, route_of, Reason, Pairs, normalize_pair, has_pair, select_route, parse_pair,
  parse_pairs, parse_validated_pairs, split, strip, empty, all_empty, any_empty,
}

normalize_pair-order : (a b : ℕ) → a ≢ b → normalize_pair (pos a) (pos b) ≡ some (min a b, max a b)
unfolding normalize_pair
normalize_pair-order a b ne =
    let apart : (a == b) ≡ false = ground (arith, ne) in
    elim (Bool-cases (ltb a b)) [
      | inl lt ↦
          rw (apart, lt)
            (ap (λ n. some (n, b)) {x = a} {y = min a b} (ground (arith, lt))
              ∙ ap (λ n. some (min a b, n)) {x = b} {y = max a b} (ground (arith, lt)))
      | inr ge ↦
          rw (apart, ge)
            (ap (λ n. some (n, a)) {x = b} {y = min a b} (ground (arith, ge))
              ∙ ap (λ n. some (min a b, n)) {x = a} {y = max a b} (ground (arith, ge)))
    ]

module _ (src dst : ℕ) (validated : Pairs) (capability : Option Bool) where
  select_same :
      src ≡ dst
      → select_route (pos src) (pos dst) validated capability ≡ some (false, Reason.same_device)
  unfolding select_route
  select_same e = let same : (src == dst) ≡ true = ground (arith, e) in rw same refl

  select_apart :
      src ≢ dst
      → select_route (pos src) (pos dst) validated capability
        ≡ some (route_of (min src dst, max src dst) validated capability)
  unfolding select_route
  select_apart ne =
      let apart : (src == dst) ≡ false = ground (arith, ne) in
      grind (arith, apart, normalize_pair-order src dst ne)

route_of-allowed :
    (pair : ℕ × ℕ) (validated : Pairs) (capability : Option Bool)
    → ((route_of pair validated capability).0 ≡ true)
      ↔ ((has_pair pair validated ≡ true) × (capability ≡ some true))
unfolding route_of
route_of-allowed pair validated capability = ground arith

abbrev is_negative : ℤ → Bool
is_negative (pos n) = false
is_negative (negsuc n) = true

pos≢negsuc : (a b : ℕ) → pos a ≢ negsuc b
pos≢negsuc a b e = false≢true (ap is_negative e)

abbrev index : ℤ → ℕ
index (pos n) = n
index (negsuc n) = n

abbrev pub IsNegative : ℤ → Type 0
IsNegative i = (n : ℕ) × (i ≡ negsuc n)

-- A pair of devices that may copy directly.
abbrev pub Allows : ℤ → ℤ → Pairs → Option Bool → Type 0
Allows src dst validated capability =
    (a : ℕ) × (b : ℕ) × (src ≡ pos a)
    × (dst ≡ pos b)
    × (a ≢ b)
    × (has_pair (min a b, max a b) validated ≡ true)
    × (capability ≡ some true)

negative-Allows :
    (src dst : ℤ) (validated : Pairs) (capability : Option Bool)
    → IsNegative src
    → (false ≡ true) ↔ Allows src dst validated capability
negative-Allows src dst validated capability (n, neg) = (
  λ h. absurd (false≢true h),
  λ (a, b, p, q, ne, has, known). absurd (pos≢negsuc a n (sym p ∙ neg)),
)

-- `select_route` raises exactly where the indices differ and one of them is negative. Otherwise it
-- returns a route, which allows P2P exactly where the devices differ and are not negative, the pair
-- of them in order is validated, and the capability is known to be there.
pub select_route-allowed :
    (src dst : ℤ) (validated : Pairs) (capability : Option Bool)
    → ((src ≢ dst)
        × (IsNegative src ⊎ IsNegative dst)
        × (select_route src dst validated capability ≡ none))
      ⊎ ((r : Bool × Reason) × (select_route src dst validated capability ≡ some r)
          × ((src ≡ dst) ⊎ (¬ (IsNegative src ⊎ IsNegative dst)))
          × ((r.0 ≡ true) ↔ Allows src dst validated capability))
unfolding select_route normalize_pair
select_route-allowed (pos a) (negsuc b) validated capability =
    inl (pos≢negsuc a b, inr (b, refl), refl)
select_route-allowed (negsuc a) (pos b) validated capability =
    inl (λ e. pos≢negsuc b a (sym e), inl (a, refl), refl)
select_route-allowed (negsuc a) (negsuc b) validated capability = elim (ℕ_discrete a b) [
  | yes e ↦
      let same : (a == b) ≡ true = ground (arith, e) in
      inr (
        (false, Reason.same_device),
        rw same refl,
        inl (ap negsuc e),
        negative-Allows (negsuc a) (negsuc b) validated capability (a, refl),
      )
  | no ne ↦
      let apart : (a == b) ≡ false = ground (arith, ne) in
      inl (λ e. ne (ap index e), inl (a, refl), rw apart refl)
]
select_route-allowed (pos a) (pos b) validated capability = elim (ℕ_discrete a b) [
  | yes e ↦ inr (
    (false, Reason.same_device),
    select_same a b validated capability e,
    inl (ap pos e),
    (
      λ h. absurd (false≢true h),
      λ (x, y, p, q, ne, has, known). absurd (ne (sym (ap index p) ∙ (e ∙ ap index q))),
    ),
  )
  | no ne ↦
      let allowed = route_of-allowed (min a b, max a b) validated capability in
      inr (
        route_of (min a b, max a b) validated capability,
        select_apart a b validated capability ne,
        inr not_negative,
        (
          λ h. (a, b, refl, refl, ne, (allowed.0 h).0, (allowed.0 h).1),
          λ (x, y, p, q, apart, has, known). allowed.1 (
            subst₂ (λ m n. has_pair (min m n, max m n) validated ≡ true) (sym (ap index p))
                (sym (ap index q)) has,
            known,
          ),
        ),
      )
]
  where
    not_negative : ¬ (IsNegative (pos a) ⊎ IsNegative (pos b))
    not_negative (inl (n, e)) = pos≢negsuc a n e
    not_negative (inr (n, e)) = pos≢negsuc b n e

some≢none {ℓ} : {A : Type ℓ} {a : A} → some a ≢ none
some≢none e = ground (arith, e)

abbrev pub InOrder : ℕ × ℕ → Type 0
InOrder p = p.0 < p.1

normalize_pair-InOrder : (a b : ℤ) (p : ℕ × ℕ) → normalize_pair a b ≡ some p → InOrder p
unfolding normalize_pair
normalize_pair-InOrder (pos a) (pos b) p h = ground (arith, h)
normalize_pair-InOrder (pos a) (negsuc b) p h = absurd (none-ne-some _ h)
normalize_pair-InOrder (negsuc a) b p h = absurd (none-ne-some _ h)

module _ (is_space : ℕ → Bool) (int_of : List ℕ → Option ℤ) where
  parse_pair-InOrder :
      (chunk : List ℕ) (p : ℕ × ℕ) → parse_pair is_space int_of chunk ≡ some p → InOrder p
  unfolding parse_pair
  parse_pair-InOrder chunk p h = grind (arith, h, normalize_pair-InOrder)

  parse_pairs_nil : parse_pairs is_space int_of [] ≡ some []
  unfolding parse_pairs
  parse_pairs_nil = refl

  parse_pairs_fail :
      (chunk : List ℕ) (chunks : List (List ℕ))
      → (parse_pair is_space int_of chunk ≡ none) ⊎ (parse_pairs is_space int_of chunks ≡ none)
      → parse_pairs is_space int_of (chunk ∷ chunks) ≡ none
  unfolding parse_pairs
  parse_pairs_fail chunk chunks h = grind (arith, h)

  parse_pairs_more :
      (chunk : List ℕ) (chunks : List (List ℕ)) (p : ℕ × ℕ) (ps : Pairs)
      → parse_pair is_space int_of chunk ≡ some p
      → parse_pairs is_space int_of chunks ≡ some ps
      → parse_pairs is_space int_of (chunk ∷ chunks) ≡ some (p ∷ ps)
  unfolding parse_pairs
  parse_pairs_more chunk chunks p ps one more = rw (parse_pairs, one, more) refl

  abbrev Parsed : List (List ℕ) → Pairs → Type 0
  Parsed chunks ps = All InOrder ps × (length ps ≡ length chunks)

  parse_pairs-Parsed :
      (chunks : List (List ℕ)) (ps : Pairs)
      → parse_pairs is_space int_of chunks ≡ some ps
      → Parsed chunks ps
  parse_pairs-Parsed [] ps h = subst (Parsed []) (some_inj.0 (sym parse_pairs_nil ∙ h)) (tt, refl)
  parse_pairs-Parsed (chunk ∷ chunks) ps h =
      elim (Option-cases (parse_pair is_space int_of chunk)) [
        | inl bad ↦ absurd (some≢none (sym h ∙ parse_pairs_fail chunk chunks (inl bad)))
        | inr (p, one) ↦ elim (Option-cases (parse_pairs is_space int_of chunks)) [
          | inl bad ↦ absurd (some≢none (sym h ∙ parse_pairs_fail chunk chunks (inr bad)))
          | inr (qs, more) ↦
              let (ordered, len) = parse_pairs-Parsed chunks qs more in
              subst (Parsed (chunk ∷ chunks))
                (some_inj.0 (sym (parse_pairs_more chunk chunks p qs one more) ∙ h))
                ((parse_pair-InOrder chunk p one, ordered), omega (arith, len))
        ]
      ]

  -- A spec that is accepted gives no pair, or one for each of its elements; each pair is in order,
  -- so that no pair names one device twice.
  pub parse_validated_pairs-InOrder :
      (spec : List ℕ) (ps : Pairs)
      → parse_validated_pairs is_space int_of spec ≡ some ps
      → All InOrder ps × ((ps ≡ []) ⊎ (length ps ≡ length (split 59 spec)))
  unfolding parse_validated_pairs
  parse_validated_pairs-InOrder spec ps h = elim (Bool-cases (empty (strip is_space int_of spec))) [
    | inl blank ↦ nothing (sym (rw (parse_validated_pairs, blank) refl) ∙ h)
    | inr text ↦ elim (Bool-cases (all_empty (map (strip is_space int_of) (split 59 spec)))) [
      | inl blank ↦ nothing (sym (rw (parse_validated_pairs, text, blank) refl) ∙ h)
      | inr pieces ↦ elim (Bool-cases (any_empty (map (strip is_space int_of) (split 59 spec)))) [
        | inl bad ↦ absurd (some≢none (sym h ∙ rw (parse_validated_pairs, text, pieces, bad) refl))
        | inr full ↦
            let (ordered, len) =
              parse_pairs-Parsed (map (strip is_space int_of) (split 59 spec)) ps
                (sym (rw (parse_validated_pairs, text, pieces, full) refl) ∙ h) in
            (ordered, inr (len ∙ length-map (strip is_space int_of) (split 59 spec)))
      ]
    ]
  ]
    where
      nothing :
          some [] ≡ some ps → All InOrder ps × ((ps ≡ []) ⊎ (length ps ≡ length (split 59 spec)))
      nothing e =
          subst (λ ps. All InOrder ps × ((ps ≡ []) ⊎ (length ps ≡ length (split 59 spec))))
            (some_inj.0 e) (tt, inl refl)
