-- ===== src/Dist/Entropy/Normalize/Settle.antt =====
-- dist/entropy.py: the loop of _normalize_freqs that corrects the sum of the frequencies.
use native.Mathlib.Nat.{mod-lt}
use superl8_serve.Prelude.{
  ℕ, zero, suc, ◌+◌, ◌-◌, ◌*◌, ◌%◌, ◌≤◌, ◌<◌, ◌≡◌, ◌≢◌, refl, sym, subst, ◌∙◌, List, [], ◌∷◌,
  Option, some, true, false, ◌==◌, ltb, ltb→lt, arith, length, get_or, set, length-set,
  get_or-set_self, get_or-set_ne, Bool-cases, inl, inr, ◌⊎◌,
}
use superl8_serve.Dist.Entropy.{mass}
use superl8_serve.Dist.Entropy.Step.{sum}
use superl8_serve.Dist.Entropy.Normalize.{turn_of, give, take_back}
use superl8_serve.Dist.Entropy.Normalize.Turns.{Turns, turns_to, next_turn}

sum-set : (xs : List ℕ) (i v : ℕ) → i < length xs → sum (set xs i v) + get_or xs i 0 ≡ sum xs + v
sum-set [] i v h = elim h [ ]
sum-set (x ∷ xs) zero v h = omega arith
sum-set (x ∷ xs) (suc i) v h = omega (arith, sum-set xs i v (omega arith))

-- Where the sum is above the length, an entry is above one.
above_one : (xs : List ℕ) → length xs < sum xs → (s : ℕ) × (s < length xs) × (1 < get_or xs s 0)
above_one [] h = absurd (omega (arith, h))
above_one (x ∷ xs) h = elim (Bool-cases (ltb 1 x)) [
  | inl more ↦ (0, omega arith, ltb→lt 1 x more)
  | inr less ↦
      let few : x ≤ 1 = ground arith in
      let (s, lt, gt) = above_one xs (omega (arith, h, few)) in (suc s, omega (arith, lt), gt)
]

get_or-set :
    (xs : List ℕ) (i j v : ℕ)
    → i < length xs
    → ((i ≡ j) × (get_or (set xs i v) j 0 ≡ v))
      ⊎ ((i ≢ j) × (get_or (set xs i v) j 0 ≡ get_or xs j 0))
get_or-set xs i j v h = elim (Bool-cases (i == j)) [
  | inl same ↦
      let e : i ≡ j = ground arith in
      inl (e, subst (λ k. get_or (set xs i v) k 0 ≡ v) e (get_or-set_self xs i v 0 h))
  | inr other ↦ let ne : i ≢ j = ground arith in inr (ne, get_or-set_ne xs i j v 0 ne)
]

-- The table that the loop ends with, for the counts that it started from.
pub record Settled (start freqs : List ℕ) : Type 0 where
  pub normal : sum freqs ≡ mass
  pub size : length freqs ≡ length start
  pub keeps : (s : ℕ) → 0 < get_or start s 0 → 0 < get_or freqs s 0

module _ (order : List ℕ) (n alphabet : ℕ) (some_present : 0 < n)
    (known : (j : ℕ) → j < n → get_or order j 0 < alphabet) where
  turn_of-known : (i : ℕ) → turn_of order n i < alphabet
  turn_of-known i = known (i % n) (mod-lt i some_present)

  pub give-Settled :
      (diff i : ℕ) (freqs : List ℕ)
      → length freqs ≡ alphabet
      → sum freqs + diff ≡ mass
      → Settled freqs (give order n diff i freqs)
  unfolding give
  give-Settled zero i freqs size all = record {
    normal = omega (arith, all);
    size = refl;
    keeps = λ s h. h;
  }
  give-Settled (suc diff) i freqs size all =
      let s = turn_of order n i in
      let lt : s < length freqs = omega (arith, size, turn_of-known i) in
      let v = get_or freqs s 0 + 1 in
      let r =
        give-Settled diff (i + 1) (set freqs s v) (length-set freqs s v ∙ size)
          (omega (arith, all, sum-set freqs s v lt)) in
      record {
        normal = r.normal;
        size = r.size ∙ length-set freqs s v;
        keeps = λ a h. r.keeps a (elim (get_or-set freqs s a v lt) [
          | inl same ↦ omega (arith, same.1)
          | inr other ↦ omega (arith, other.1, h)
        ]);
      }

  -- A table that is too large by `diff`, in which only symbols with a turn have more than one slot.
  pub record Excess (diff : ℕ) (freqs : List ℕ) : Type 0 where
    pub size : length freqs ≡ alphabet
    pub all : sum freqs ≡ mass + diff
    pub turn : (s : ℕ) → 1 < get_or freqs s 0 → (j : ℕ) × (j < n) × (get_or order j 0 ≡ s)

  -- There is a symbol to take from within `n` turns.
  due :
      (diff i : ℕ) (freqs : List ℕ)
      → alphabet ≤ mass
      → Excess (suc diff) freqs
      → (k : ℕ) × (k < n)
        × (j : ℕ) × (j < n)
        × (1 < get_or freqs (get_or order j 0) 0)
        × Turns n some_present i k j
  due diff i freqs small e =
      let (s, lt, gt) = above_one freqs (omega (arith, e.size, e.all, small)) in
      let (j, lt_n, is) = e.turn s gt in
      let (k, lt_k, turns) = turns_to n some_present i j lt_n in
      (k, lt_k, j, lt_n, subst (λ a. 1 < get_or freqs a 0) (sym is) gt, turns)

  lowered :
      (diff i : ℕ) (freqs : List ℕ)
      → Excess (suc diff) freqs
      → 1 < get_or freqs (turn_of order n i) 0
      → Excess diff (set freqs (turn_of order n i) (get_or freqs (turn_of order n i) 0 - 1))
  lowered diff i freqs e gt =
      let s = turn_of order n i in
      let v = get_or freqs s 0 - 1 in
      let lt : s < length freqs = omega (arith, e.size, turn_of-known i) in
      record {
        size = length-set freqs s v ∙ e.size;
        all = omega (arith, e.all, sum-set freqs s v lt, gt);
        turn = λ a h. e.turn a (elim (get_or-set freqs s a v lt) [
          | inl same ↦ subst (λ b. 1 < get_or freqs b 0) same.0 gt
          | inr other ↦ omega (arith, other.1, h)
        ]);
      }

  -- What the loop returns.
  pub record Returns (freqs : List ℕ) (r : Option (List ℕ)) : Type 0 where
    pub table : List ℕ
    pub returns : r ≡ some table
    pub settled : Settled freqs table

  take_back_one :
      (fuel diff i : ℕ) (freqs : List ℕ)
      → ltb 1 (get_or freqs (turn_of order n i) 0) ≡ true
      → take_back order n (suc fuel) (suc diff) i freqs
        ≡ take_back order n fuel diff
            (i + 1)
            (set freqs (turn_of order n i) (get_or freqs (turn_of order n i) 0 - 1))
  unfolding take_back
  take_back_one fuel diff i freqs h = rw (take_back, h) refl

  take_back_none :
      (fuel diff i : ℕ) (freqs : List ℕ)
      → ltb 1 (get_or freqs (turn_of order n i) 0) ≡ false
      → take_back order n (suc fuel) (suc diff) i freqs
        ≡ take_back order n fuel (suc diff) (i + 1) freqs
  unfolding take_back
  take_back_none fuel diff i freqs h = rw (take_back, h) refl

  after_one :
      (freqs : List ℕ) (i v : ℕ) (r q : Option (List ℕ))
      → r ≡ q
      → length freqs ≡ alphabet
      → 0 < v
      → Returns (set freqs (turn_of order n i) v) q
      → Returns freqs r
  after_one freqs i v r q e size pos b =
      let s = turn_of order n i in
      let lt : s < length freqs = omega (arith, size, turn_of-known i) in
      record {
        table = b.table;
        returns = e ∙ b.returns;
        settled = record {
          normal = b.settled.normal;
          size = b.settled.size ∙ length-set freqs s v;
          keeps = λ a h. b.settled.keeps a (elim (get_or-set freqs s a v lt) [
            | inl same ↦ omega (arith, same.1, pos)
            | inr other ↦ omega (arith, other.1, h)
          ]);
        };
      }

  take_back_done : (fuel i : ℕ) (freqs : List ℕ) → take_back order n fuel zero i freqs ≡ some freqs
  unfolding take_back
  take_back_done zero i freqs = refl
  take_back_done (suc fuel) i freqs = refl

  -- The fuel is enough for the turns until a slot can be taken, and a round for each of the others.
  abbrev Wait : ℕ → ℕ → ℕ → List ℕ → Type 0
  Wait fuel zero i freqs = Unit
  Wait fuel (suc diff) i freqs =
      (k j : ℕ) × j < n
      × 1 < get_or freqs (get_or order j 0) 0
      × Turns n some_present i k j
      × k + diff * n + 1 ≤ fuel

  pub waits :
      (fuel diff i : ℕ) (freqs : List ℕ)
      → alphabet ≤ mass
      → Excess diff freqs
      → diff * n ≤ fuel
      → Wait fuel diff i freqs
  waits fuel zero i freqs small e enough = tt
  waits fuel (suc diff) i freqs small e enough =
      let (k, lt_k, j, lt, gt, turns) = due diff i freqs small e in
      (k, j, lt, gt, turns, omega (arith, enough, lt_k))

  -- A turn at which nothing can be taken is not yet the turn of `j`.
  still :
      (fuel diff k j i : ℕ) (freqs : List ℕ)
      → j < n
      → 1 < get_or freqs (get_or order j 0) 0
      → Turns n some_present i k j
      → k + diff * n + 1 ≤ suc fuel
      → ltb 1 (get_or freqs (turn_of order n i) 0) ≡ false
      → Wait fuel (suc diff) (i + 1) freqs
  still fuel diff zero j i freqs lt gt turns enough few = absurd (elim turns [
    | inl eq ↦
        let here : 1 < get_or freqs (turn_of order n i) 0 =
          subst (λ b. 1 < get_or freqs (get_or order b 0) 0) {x = j} {y = i % n} (omega (arith, eq))
            gt in
        ground (arith, here, few)
    | inr eq ↦ omega (arith, eq, mod-lt i some_present, lt)
  ])
  still fuel diff (suc k) j i freqs lt gt turns enough few =
      (k, j, lt, gt, next_turn n some_present i k j lt turns, omega (arith, enough))

  pub take_back-Returns :
      (fuel diff i : ℕ) (freqs : List ℕ)
      → alphabet ≤ mass
      → Excess diff freqs
      → Wait fuel diff i freqs
      → Returns freqs (take_back order n fuel diff i freqs)
  take_back-Returns fuel zero i freqs small e wait = record {
    table = freqs;
    returns = take_back_done fuel i freqs;
    settled = record { normal = omega (arith, e.all); size = refl; keeps = λ s h. h };
  }
  take_back-Returns zero (suc diff) i freqs small e wait =
      let (k, j, lt, gt, turns, enough) = wait in absurd (omega (arith, enough))
  take_back-Returns (suc fuel) (suc diff) i freqs small e wait =
      let (k, j, lt, gt, turns, enough) = wait in
      elim (Bool-cases (ltb 1 (get_or freqs (turn_of order n i) 0))) [
        | inl one ↦
            let more = ltb→lt 1 (get_or freqs (turn_of order n i) 0) one in
            let less = lowered diff i freqs e more in
            after_one freqs i (get_or freqs (turn_of order n i) 0 - 1) _ _
              (take_back_one fuel diff i freqs one) e.size (omega (arith, more))
              (take_back-Returns fuel diff (i + 1) _ small less
                (waits fuel diff (i + 1) _ small less (omega (arith, enough))))
        | inr few ↦
            let rest =
              take_back-Returns fuel (suc diff) (i + 1) freqs small e
                (still fuel diff k j i freqs lt gt turns enough few) in
            record {
              table = rest.table;
              returns = take_back_none fuel diff i freqs few ∙ rest.returns;
              settled = rest.settled;
            }
      ]
