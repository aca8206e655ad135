-- ===== src/Kv/Trie/Oldest.antt =====
-- What the search of `_evict_one_prefix` for the least recently used entry finds.
use mathlib.Core.List.{foldl}
use superl8_serve.Prelude.{
  ℕ, ◌≤◌, ◌<◌, ◌≡◌, refl, List, [], ◌∷◌, ◌++◌, map, Option, none, some, arith, length, All,
  Bool-cases, inl, inr, ltb, ap, sym, subst, ◌∙◌, All-append, All-mono, length-append, length-map,
}
use superl8_serve.Kv.Trie.{
  Entry, Trie, leaf, node, entry_at, walk, here, under, older, oldest, entries, Fresh, IsDict,
}
use superl8_serve.Kv.Trie.Paths.{entry_at-node, entry_at-Fresh}

-- The entry stands at its path.
abbrev pub Stands : Trie → List ℕ × Entry → Type 0
Stands f ([], e) = ⊥
Stands f (t ∷ p, e) = entry_at (t ∷ p) f ≡ some e

Stands-under :
    (t : ℕ) (o : Option Entry) (sub rest : Trie) (x : List ℕ × Entry)
    → Stands sub x
    → Stands (node t o sub rest) (under t x)
Stands-under t o sub rest ([], e) h = absurd h
Stands-under t o sub rest (q ∷ p, e) h = ground (arith, entry_at-node t (q ∷ p) t o sub rest)

Stands-rest :
    (t : ℕ) (o : Option Entry) (sub rest : Trie) (x : List ℕ × Entry)
    → Fresh t rest
    → Stands rest x
    → Stands (node t o sub rest) x
Stands-rest t o sub rest ([], e) fr h = absurd h
Stands-rest t o sub rest (q ∷ p, e) fr h =
    ground (arith, entry_at-node q p t o sub rest, entry_at-Fresh q p rest)

All-under :
    (P Q : List ℕ × Entry → Type 0) (t : ℕ) (xs : List (List ℕ × Entry))
    → ((x : List ℕ × Entry) → P x → Q (under t x))
    → All P xs
    → All Q (map (under t) xs)
All-under P Q t [] f h = tt
All-under P Q t (x ∷ xs) f h = (f x h.0, All-under P Q t xs f h.1)

pub walk-Stands : (f : Trie) → IsDict f → All (Stands f) (walk f)
unfolding walk
walk-Stands leaf d = tt
walk-Stands (node t o sub rest) d = All-append _ (here t o) _ (first o) (
    All-append _ (map (under t) (walk sub)) (walk rest)
      (All-under _ _ t (walk sub) (λ x h. Stands-under t o sub rest x h) (walk-Stands sub d.1))
      (All-mono (walk rest) (λ x h. Stands-rest t o sub rest x d.0 h) (walk-Stands rest d.2)))
  where
    first : (e : Option Entry) → All (Stands (node t e sub rest)) (here t e)
    first none = tt
    first (some e) = (ground (arith, entry_at-node t [] t (some e) sub rest), tt)

All-append_left {ℓ κ} : {A : Type ℓ} (P : A → Type κ) (xs ys : List A) → All P (xs ++ ys) → All P xs
All-append_left P [] ys h = tt
All-append_left P (x ∷ xs) ys h = (h.0, All-append_left P xs ys h.1)

All-append_right {ℓ κ} :
    {A : Type ℓ} (P : A → Type κ) (xs ys : List A) → All P (xs ++ ys) → All P ys
All-append_right P [] ys h = h
All-append_right P (x ∷ xs) ys h = All-append_right P xs ys h.1

All-under_inv :
    (l t : ℕ) (xs : List (List ℕ × Entry))
    → All (λ x. l ≤ x.1.lru) (map (under t) xs)
    → All (λ x. l ≤ x.1.lru) xs
All-under_inv l t [] h = tt
All-under_inv l t (x ∷ xs) h = (h.0, All-under_inv l t xs h.1)

-- A bound on the times met in the walk is a bound on the time of every entry.
pub walk_bound :
    (l : ℕ) (f : Trie) (t : ℕ) (p : List ℕ) (e : Entry)
    → All (λ x. l ≤ x.1.lru) (walk f)
    → entry_at (t ∷ p) f ≡ some e
    → l ≤ e.lru
unfolding walk entry_at
walk_bound l leaf t p e h k = cc
walk_bound l (node u none sub rest) t [] e h k =
    ground (
      arith,
      walk_bound l rest t [] e (All-append_right _ (map (under u) (walk sub)) (walk rest) h),
    )
walk_bound l (node u (some d) sub rest) t [] e h k = ground (
  arith,
  walk_bound l rest t [] e (All-append_right _ (map (under u) (walk sub)) (walk rest) h.1),
)
walk_bound l (node u o sub rest) t (q ∷ p) e h k = ground (
  arith,
  walk_bound l rest t (q ∷ p) e (All-append_right _ (map (under u) (walk sub)) (walk rest) tail),
  walk_bound l sub q p e (
      All-under_inv l u (walk sub) (All-append_left _ (map (under u) (walk sub)) (walk rest) tail)),
)
  where
    tail : All (λ (x : List ℕ × Entry). l ≤ x.1.lru) (map (under u) (walk sub) ++ walk rest)
    tail = All-append_right _ (here u o) _ h

-- The fold keeps an entry that was there, and one that is no younger than any.
older_fold :
    (P : List ℕ × Entry → Type 0) (xs : List (List ℕ × Entry)) (a : List ℕ × Entry)
    → P a
    → All P xs
    → (m : List ℕ × Entry) × (foldl older (some a) xs ≡ some m)
      × P m
      × (m.1.lru ≤ a.1.lru)
      × All (λ x. m.1.lru ≤ x.1.lru) xs
unfolding older
older_fold P [] a pa h = (a, refl, pa, omega arith, tt)
older_fold P ((q, d) ∷ xs) (p, e) pa h = elim (Bool-cases (ltb d.lru e.lru)) [
  | inl younger ↦
      let (m, found, pm, low, all) = older_fold P xs (q, d) h.0 h.1 in
      (m, rw younger found, pm, ground arith, (low, all))
  | inr no_younger ↦
      let (m, found, pm, low, all) = older_fold P xs (p, e) pa h.1 in
      (m, rw no_younger found, pm, low, (ground arith, all))
]

pub length-walk : (f : Trie) → length (walk f) ≡ entries f
unfolding walk entries
length-walk leaf = refl
length-walk (node t none sub rest) = omega (
  arith,
  length-append (map (under t) (walk sub)) (walk rest),
  length-map (under t) (walk sub),
  length-walk sub,
  length-walk rest,
)
length-walk (node t (some e) sub rest) = omega (
  arith,
  length-append (map (under t) (walk sub)) (walk rest),
  length-map (under t) (walk sub),
  length-walk sub,
  length-walk rest,
)

-- The search finds an entry exactly when there is one.
pub oldest_none : (f : Trie) → entries f ≡ 0 → oldest f ≡ none
unfolding oldest
oldest_none f h = none_of (walk f) (length-walk f ∙ h)
  where
    none_of : (xs : List (List ℕ × Entry)) → length xs ≡ 0 → foldl older none xs ≡ none
    none_of [] e = refl
    none_of (x ∷ xs) e = absurd (omega arith)

-- What it finds stands in the trie, and no entry was used longer ago.
pub oldest_lem :
    (f : Trie)
    → IsDict f
    → 0 < entries f
    → (t : ℕ) × (p : List ℕ) × (e : Entry) × (oldest f ≡ some (t ∷ p, e))
      × (entry_at (t ∷ p) f ≡ some e)
      × ((s : ℕ) (q : List ℕ) (d : Entry) → entry_at (s ∷ q) f ≡ some d → e.lru ≤ d.lru)
unfolding oldest older
oldest_lem f d h = of_walk (walk f) refl (walk-Stands f d)
  where
    finish :
        (x : List ℕ × Entry)
        → foldl older none (walk f) ≡ some x
        → Stands f x
        → All (λ (y : List ℕ × Entry). x.1.lru ≤ y.1.lru) (walk f)
        → (t : ℕ) × (p : List ℕ) × (e : Entry) × (foldl older none (walk f) ≡ some (t ∷ p, e))
          × (entry_at (t ∷ p) f ≡ some e)
          × ((s : ℕ) (q : List ℕ) (d : Entry) → entry_at (s ∷ q) f ≡ some d → e.lru ≤ d.lru)
    finish ([], e) found stands low = absurd stands
    finish (t ∷ p, e) found stands low =
        (t, p, e, found, stands, λ s q d k. walk_bound e.lru f s q d low k)

    of_walk :
        (xs : List (List ℕ × Entry))
        → walk f ≡ xs
        → All (Stands f) (walk f)
        → (t : ℕ) × (p : List ℕ) × (e : Entry) × (foldl older none (walk f) ≡ some (t ∷ p, e))
          × (entry_at (t ∷ p) f ≡ some e)
          × ((s : ℕ) (q : List ℕ) (d : Entry) → entry_at (s ∷ q) f ≡ some d → e.lru ≤ d.lru)
    of_walk [] e stands = absurd (omega (arith, length-walk f, ap length e))
    of_walk (x ∷ xs) e stands =
        let all = subst (All (Stands f)) e stands in
        let (m, found, pm, low, rest) = older_fold (Stands f) xs x all.0 all.1 in
        finish m (ap (foldl older none) e ∙ found) pm
          (subst (All (λ (y : List ℕ × Entry). m.1.lru ≤ y.1.lru)) (sym e) (low, rest))
