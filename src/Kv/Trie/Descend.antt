-- ===== src/Kv/Trie/Descend.antt =====
-- What the walk of `lookup_prefix` finds, and what it leaves unchanged.
use superl8_serve.Prelude.{
  ℕ, zero, suc, ◌+◌, ◌<◌, ◌≡◌, refl, List, [], ◌∷◌, Option, none, some, arith, ◌==◌, take, length,
  ◌⊎◌, inl, inr, Bool-cases, true, false, ◌∙◌,
}
use superl8_serve.Kv.Trie.{
  Entry, Trie, leaf, node, entry_at, descend, visit, refs, entries, entry_refs, one_if, Fresh,
  IsDict,
}
use superl8_serve.Kv.Trie.Sizes.{Fits, IsSized}
use superl8_serve.Kv.Trie.Paths.{below, entry_at-node}

visit-refs :
    (now n b : ℕ) (e : Option Entry) (best : ℕ × List ℕ)
    → entry_refs b (visit now n e best).0 ≡ entry_refs b e
unfolding visit
visit-refs now n b none best = refl
visit-refs now n b (some e) best = ground arith

visit-one_if :
    (now n : ℕ) (e : Option Entry) (best : ℕ × List ℕ) → one_if (visit now n e best).0 ≡ one_if e
unfolding visit
visit-one_if now n none best = refl
visit-one_if now n (some e) best = ground arith

pub refs-descend :
    (b now n : ℕ) (ts : List ℕ) (f : Trie) (best : ℕ × List ℕ)
    → refs b (descend now n ts f best).0 ≡ refs b f
unfolding refs descend
refs-descend b now n [] f best = refl
refs-descend b now n (t ∷ ts) leaf best = refl
refs-descend b now n (t ∷ ts) (node u e sub rest) best = ground (
  arith,
  visit-refs now (n + 1) b e best,
  refs-descend b now (n + 1) ts sub (visit now (n + 1) e best).1,
  refs-descend b now n (t ∷ ts) rest best,
)

pub entries-descend :
    (now n : ℕ) (ts : List ℕ) (f : Trie) (best : ℕ × List ℕ)
    → entries (descend now n ts f best).0 ≡ entries f
unfolding entries descend
entries-descend now n [] f best = refl
entries-descend now n (t ∷ ts) leaf best = refl
entries-descend now n (t ∷ ts) (node u e sub rest) best = ground (
  arith,
  visit-one_if now (n + 1) e best,
  entries-descend now (n + 1) ts sub (visit now (n + 1) e best).1,
  entries-descend now n (t ∷ ts) rest best,
)

Fresh-descend :
    (v now n : ℕ) (ts : List ℕ) (f : Trie) (best : ℕ × List ℕ)
    → Fresh v f
    → Fresh v (descend now n ts f best).0
unfolding descend
Fresh-descend v now n [] f best h = h
Fresh-descend v now n (t ∷ ts) leaf best h = h
Fresh-descend v now n (t ∷ ts) (node u e sub rest) best h =
    ground (arith, Fresh-descend v now n (t ∷ ts) rest best)

pub descend-IsDict :
    (now n : ℕ) (ts : List ℕ) (f : Trie) (best : ℕ × List ℕ)
    → IsDict f
    → IsDict (descend now n ts f best).0
unfolding descend
descend-IsDict now n [] f best h = h
descend-IsDict now n (t ∷ ts) leaf best h = h
descend-IsDict now n (t ∷ ts) (node u e sub rest) best h = ground (
  arith,
  descend-IsDict now (n + 1) ts sub (visit now (n + 1) e best).1,
  descend-IsDict now n (t ∷ ts) rest best,
  Fresh-descend u now n (t ∷ ts) rest best,
)

visit-Fits :
    (bs now n : ℕ) (e : Option Entry) (best : ℕ × List ℕ)
    → Fits bs n e
    → Fits bs n (visit now n e best).0
unfolding visit
visit-Fits bs now n none best h = tt
visit-Fits bs now n (some e) best h = ground arith

pub descend-IsSized :
    (bs now n : ℕ) (ts : List ℕ) (f : Trie) (best : ℕ × List ℕ)
    → IsSized bs n f
    → IsSized bs n (descend now n ts f best).0
unfolding descend
descend-IsSized bs now n [] f best h = h
descend-IsSized bs now n (t ∷ ts) leaf best h = h
descend-IsSized bs now n (t ∷ ts) (node u e sub rest) best h = ground (
  arith,
  visit-Fits bs now (n + 1) e best,
  descend-IsSized bs now (n + 1) ts sub (visit now (n + 1) e best).1,
  descend-IsSized bs now n (t ∷ ts) rest best,
)

-- The entry under the first `suc n` tokens.
abbrev pub at_prefix : List ℕ → Trie → ℕ → Option Entry
at_prefix ts f n = entry_at (take (suc n) ts) f

-- `r` is the entry under the longest prefix of the tokens that has one, or `best` if none has.
abbrev pub Longest : List ℕ → Trie → ℕ × List ℕ → ℕ × List ℕ → Type 0
Longest ts f best r =
    ((r ≡ best) × ((n : ℕ) → n < length ts → at_prefix ts f n ≡ none))
    ⊎ ((n : ℕ) × (e : Entry) × (n < length ts)
        × (at_prefix ts f n ≡ some e)
        × (r ≡ (e.num_tokens, e.blocks))
        × ((k : ℕ) → n < k → k < length ts → at_prefix ts f k ≡ none))

module _ (t u : ℕ) (ts : List ℕ) (e : Option Entry) (sub rest : Trie) where
  at_prefix-miss :
      (u == t) ≡ false
      → (n : ℕ) → at_prefix (t ∷ ts) (node u e sub rest) n ≡ at_prefix (t ∷ ts) rest n
  at_prefix-miss miss n = entry_at-node t (take n ts) u e sub rest ∙ rw miss

  at_prefix-zero : (u == t) ≡ true → at_prefix (t ∷ ts) (node u e sub rest) 0 ≡ e
  at_prefix-zero hit = entry_at-node t [] u e sub rest ∙ rw hit

below-suc :
    (e : Option Entry) (n : ℕ) (ts : List ℕ) (sub : Trie)
    → n < length ts
    → below e (take (suc n) ts) sub ≡ at_prefix ts sub n
below-suc e n [] sub h = elim h [ ]
below-suc e n (t ∷ ts) sub h = refl

at_prefix-suc :
    (t u : ℕ) (ts : List ℕ) (e : Option Entry) (sub rest : Trie)
    → (u == t) ≡ true
    → (n : ℕ) → n < length ts
    → at_prefix (t ∷ ts) (node u e sub rest) (suc n) ≡ at_prefix ts sub n
at_prefix-suc t u ts e sub rest hit n h =
    entry_at-node t (take (suc n) ts) u e sub rest ∙ rw hit (below-suc e n ts sub h)

Longest-miss :
    (t u : ℕ) (ts : List ℕ) (e : Option Entry) (sub rest : Trie) (best r : ℕ × List ℕ)
    → (u == t) ≡ false
    → Longest (t ∷ ts) rest best r
    → Longest (t ∷ ts) (node u e sub rest) best r
Longest-miss t u ts e sub rest best r miss (inl (same, empty)) =
    inl (same, λ n h. at_prefix-miss t u ts e sub rest miss n ∙ empty n h)
Longest-miss t u ts e sub rest best r miss (inr (n, d, lt, at, same, later)) = inr (
  n,
  d,
  lt,
  at_prefix-miss t u ts e sub rest miss n ∙ at,
  same,
  λ k nk h. at_prefix-miss t u ts e sub rest miss k ∙ later k nk h,
)

Longest-hit :
    (t u : ℕ) (ts : List ℕ) (e : Option Entry) (sub rest : Trie) (best best' r : ℕ × List ℕ)
    → (u == t) ≡ true
    → ((e ≡ none) × (best' ≡ best))
      ⊎ ((d : Entry) × (e ≡ some d) × (best' ≡ (d.num_tokens, d.blocks)))
    → Longest ts sub best' r
    → Longest (t ∷ ts) (node u e sub rest) best r
Longest-hit t u ts e sub rest best best' r hit (inl (absent, kept)) (inl (same, empty)) =
    inl (same ∙ kept, at)
  where
    at : (n : ℕ) → n < suc (length ts) → at_prefix (t ∷ ts) (node u e sub rest) n ≡ none
    at zero h = at_prefix-zero t u ts e sub rest hit ∙ absent
    at (suc n) h = at_prefix-suc t u ts e sub rest hit n (omega arith) ∙ empty n (omega arith)
Longest-hit t u ts e sub rest best best' r hit (inr (d, is, new)) (inl (same, empty)) =
    inr (0, d, omega arith, at_prefix-zero t u ts e sub rest hit ∙ is, same ∙ new, at)
  where
    at : (k : ℕ) → 0 < k → k < suc (length ts) → at_prefix (t ∷ ts) (node u e sub rest) k ≡ none
    at zero h _ = absurd (omega arith)
    at (suc n) _ h = at_prefix-suc t u ts e sub rest hit n (omega arith) ∙ empty n (omega arith)
Longest-hit t u ts e sub rest best best' r hit _ (inr (n, d, lt, at, same, later)) =
    inr (suc n, d, omega arith, at_prefix-suc t u ts e sub rest hit n lt ∙ at, same, after)
  where
    after :
        (k : ℕ) → suc n < k → k < suc (length ts) → at_prefix (t ∷ ts) (node u e sub rest) k ≡ none
    after zero nk _ = absurd (omega arith)
    after (suc k) nk h =
        at_prefix-suc t u ts e sub rest hit k (omega arith) ∙ later k (omega arith) (omega arith)

visit_cases :
    (bs now n : ℕ) (e : Option Entry) (best : ℕ × List ℕ)
    → Fits bs n e
    → ((e ≡ none) × ((visit now n e best).1 ≡ best))
      ⊎ ((d : Entry) × (e ≡ some d) × ((visit now n e best).1 ≡ (d.num_tokens, d.blocks)))
unfolding visit
visit_cases bs now n none best h = inl (refl, refl)
visit_cases bs now n (some e) best h = inr (e, refl, ground arith)

-- In a sized trie the walk finds the longest prefix that has an entry.
pub descend-Longest :
    (bs now n : ℕ) (ts : List ℕ) (f : Trie) (best : ℕ × List ℕ)
    → IsSized bs n f
    → Longest ts f best (descend now n ts f best).1
unfolding descend
descend-Longest bs now n [] f best h = inl (refl, λ k lt. elim lt [ ])
descend-Longest bs now n (t ∷ ts) leaf best h = inl (refl, λ k lt. unfold entry_at in refl)
descend-Longest bs now n (t ∷ ts) (node u e sub rest) best h = elim (Bool-cases (u == t)) [
  | inl hit ↦
      rw (hit, descend)
        (Longest-hit t u ts e sub rest best _ _ hit
          (visit_cases bs now (n + 1) e best (ground arith))
          (descend-Longest bs now (n + 1) ts sub _ (ground arith)))
  | inr miss ↦
      rw (miss, descend)
        (Longest-miss t u ts e sub rest best _ miss
          (descend-Longest bs now n (t ∷ ts) rest best h.2))
]
