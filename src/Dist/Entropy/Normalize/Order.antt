-- ===== src/Dist/Entropy/Normalize/Order.antt =====
-- dist/entropy.py: the symbols by descending count have those that are present first.
use mathlib.Core.Logic.{∥∥₁_elim}
use mathlib.Core.List.{Mem, Perm, Permᴰ, Pairwise, mem-cons_self, mem-cons_of_mem}
use native.Mathlib.Nat.{ℕ_set}
use superl8_serve.Prelude.{
  ℕ, zero, suc, ◌+◌, ◌≤◌, ◌<◌, ◌≡◌, refl, sym, ap, subst, ◌∙◌, List, [], ◌∷◌, if◌then◌else◌, ◌==◌,
  ltb, arith, length, get_or, Bool-cases, inl, inr,
}
use superl8_serve.Dist.Entropy.Normalize.{n_present}

-- `np.arange(s, s + k)`.
abbrev pub range_from : ℕ → ℕ → List ℕ
range_from s zero = []
range_from s (suc k) = s ∷ range_from (s + 1) k

-- What `np.argsort(-counts)` returns: every symbol once, and none before one with a higher count.
pub record Descends (counts order : List ℕ) : Type 0 where
  pub all : Perm order (range_from 0 (length counts))
  pub sorted : Pairwise (λ a b. get_or counts b 0 ≤ get_or counts a 0) order

weight : (ℕ → ℕ) → List ℕ → ℕ
weight f [] = 0
weight f (x ∷ xs) = f x + weight f xs

weight-Permᴰ : (f : ℕ → ℕ) {xs ys : List ℕ} → Permᴰ xs ys → weight f xs ≡ weight f ys
unfolding weight
weight-Permᴰ f Permᴰ.nil = refl
weight-Permᴰ f (Permᴰ.cons e p) = omega (arith, ap f e, weight-Permᴰ f p)
weight-Permᴰ f (Permᴰ.swap e g) = omega (arith, ap f e, ap f g)
weight-Permᴰ f (Permᴰ.trans p q) = weight-Permᴰ f p ∙ weight-Permᴰ f q

weight-perm : (f : ℕ → ℕ) {xs ys : List ℕ} → Perm xs ys → weight f xs ≡ weight f ys
weight-perm f p = ∥∥₁_elim p (ℕ_set _ _) (weight-Permᴰ f)

abbrev one_if_present : List ℕ → ℕ → ℕ
one_if_present counts s = if ltb 0 (get_or counts s 0) then 1 else 0

weight-range :
    (f : ℕ → ℕ) (counts : List ℕ) (s : ℕ)
    → ((i : ℕ) → f (s + i) ≡ one_if_present counts i)
    → weight f (range_from s (length counts)) ≡ n_present counts
unfolding weight
weight-range f [] s h = refl
weight-range f (c ∷ counts) s h =
    let here : f s ≡ one_if_present (c ∷ counts) 0 = ap f (omega arith) ∙ h 0 in
    let rest =
      weight-range f counts (s + 1)
        (λ i. ap f {x = s + 1 + i} {y = s + suc i} (omega arith) ∙ h (suc i)) in
    omega (arith, here, rest)

-- Whatever holds a place of the order is a symbol.
weight-none :
    (f : ℕ → ℕ) (s k : ℕ) → ((i : ℕ) → i < s + k → f i ≡ 0) → weight f (range_from s k) ≡ 0
unfolding weight
weight-none f s zero h = refl
weight-none f s (suc k) h =
    omega (arith, h s (omega arith), weight-none f (s + 1) k (λ i lt. h i (omega (arith, lt))))

weight-get : (f : ℕ → ℕ) (xs : List ℕ) (j : ℕ) → j < length xs → f (get_or xs j 0) ≤ weight f xs
unfolding weight
weight-get f [] j h = elim h [ ]
weight-get f (x ∷ xs) zero h = omega arith
weight-get f (x ∷ xs) (suc j) h = omega (arith, weight-get f xs j (omega arith))

length-weight : (xs : List ℕ) → weight (λ x. 1) xs ≡ length xs
unfolding weight
length-weight [] = refl
length-weight (x ∷ xs) = omega (arith, length-weight xs)

length-range_from : (s k : ℕ) → length (range_from s k) ≡ k
length-range_from s zero = refl
length-range_from s (suc k) = omega (arith, length-range_from (s + 1) k)

get_or-range_from : (s k i : ℕ) → i < k → get_or (range_from s k) i 0 ≡ s + i
get_or-range_from s zero i h = elim h [ ]
get_or-range_from s (suc k) zero h = omega arith
get_or-range_from s (suc k) (suc i) h = omega (arith, get_or-range_from (s + 1) k i (omega arith))

abbrev is : ℕ → ℕ → ℕ
is s x = if x == s then 1 else 0

place_of :
    (s : ℕ) (xs : List ℕ) → 0 < weight (is s) xs → (j : ℕ) × j < length xs × (get_or xs j 0 ≡ s)
unfolding weight
place_of s [] h = elim h [ ]
place_of s (x ∷ xs) h = elim (Bool-cases (x == s)) [
  | inl same ↦ (0, omega arith, ground arith)
  | inr other ↦
      let rest : 0 < weight (is s) xs = ground (arith, h, other) in
      let (j, lt, eq) = place_of s xs rest in (suc j, omega (arith, lt), eq)
]

mem-get : (xs : List ℕ) (j : ℕ) → j < length xs → Mem (get_or xs j 0) xs
mem-get [] j h = elim h [ ]
mem-get (x ∷ xs) zero h = mem-cons_self
mem-get (x ∷ xs) (suc j) h = mem-cons_of_mem x (mem-get xs j (omega arith))

-- A present symbol is before the absent ones.
place-before :
    (counts order : List ℕ) (j : ℕ)
    → Pairwise (λ a b. get_or counts b 0 ≤ get_or counts a 0) order
    → j < length order
    → 0 < get_or counts (get_or order j 0) 0
    → j < weight (one_if_present counts) order
unfolding weight
place-before counts [] j p lt h = elim lt [ ]
place-before counts (x ∷ order) zero p lt h = ground (arith, h)
place-before counts (x ∷ order) (suc j) (Pairwise.cons below p) lt h =
    let rest = place-before counts order j p (omega arith) h in
    let le = below (get_or order j 0) (mem-get order j (omega arith)) in
    let head : one_if_present counts x ≡ 1 = ground (arith, h, le) in omega (arith, head, rest)

get_or-within : (xs : List ℕ) (s : ℕ) → 0 < get_or xs s 0 → s < length xs
get_or-within [] s h = elim h [ ]
get_or-within (x ∷ xs) zero h = omega arith
get_or-within (x ∷ xs) (suc s) h = omega (arith, get_or-within xs s h)

n_present-le : (counts : List ℕ) → n_present counts ≤ length counts
n_present-le [] = omega arith
n_present-le (c ∷ counts) = ground (arith, n_present-le counts)

module _ (counts order : List ℕ) (d : Descends counts order) where
  size : length order ≡ length counts
  size =
      sym (length-weight order)
      ∙ weight-perm (λ x. 1) d.all
      ∙ length-weight (range_from 0 (length counts))
      ∙ length-range_from 0 (length counts)

  -- A present symbol has one of the first places.
  pub turn-present :
      (s : ℕ) → 0 < get_or counts s 0 → (j : ℕ) × j < n_present counts × (get_or order j 0 ≡ s)
  turn-present s h =
      let lt = get_or-within counts s h in
      let here = get_or-range_from 0 (length counts) s lt in
      let one =
        weight-get (is s) (range_from 0 (length counts)) s
          (omega (arith, length-range_from 0 (length counts), lt)) in
      let some_one : 0 < weight (is s) order =
        ground (arith, one, here, weight-perm (is s) d.all) in
      let (j, lt_j, eq) = place_of s order some_one in
      let before =
        place-before counts order j d.sorted lt_j (subst (λ a. 0 < get_or counts a 0) (sym eq) h) in
      (
        j,
        omega (
          arith,
          before,
          weight-perm (one_if_present counts) d.all,
          weight-range (one_if_present counts) counts 0
              (λ i. ap (one_if_present counts) (omega arith)),
        ),
        eq,
      )

  abbrev stranger : ℕ → ℕ
  stranger x = if ltb x (length counts) then 0 else 1

  pub turn-known : (j : ℕ) → j < n_present counts → get_or order j 0 < length counts
  turn-known j lt =
      let none : weight stranger (range_from 0 (length counts)) ≡ 0 =
        weight-none stranger 0 (length counts) (λ i lt. ground (arith, lt)) in
      let at = weight-get stranger order j (omega (arith, lt, n_present-le counts, size)) in
      ground (arith, none, at, weight-perm stranger d.all)
