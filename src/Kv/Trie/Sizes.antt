-- ===== src/Kv/Trie/Sizes.antt =====
-- The sizes that the trie's entries claim, and the changes that keep them true.
use superl8_serve.Prelude.{
  ℕ, suc, ◌+◌, ◌*◌, ◌≡◌, List, [], ◌∷◌, Option, none, some, arith, length, subst, sym, ◌==◌,
  Bool-cases, inl, inr,
}
use superl8_serve.Kv.Trie.{Entry, Trie, leaf, node, modify, prune, drop_empty}

-- Every entry says how deep it stands, and has a block for each `bs` tokens.
abbrev pub Fits : ℕ → ℕ → Option Entry → Type 0
Fits bs n none = Unit
Fits bs n (some e) = (e.num_tokens ≡ n) × (length e.blocks * bs ≡ n)

abbrev pub IsSized : ℕ → ℕ → Trie → Type 0
IsSized bs n leaf = Unit
IsSized bs n (node t e sub rest) = Fits bs (suc n) e × IsSized bs (suc n) sub × IsSized bs n rest

module _ (bs : ℕ) (g : Option Entry → Option Entry) where
  modify-IsSized_leaf :
      (n t : ℕ) (p : List ℕ)
      → Fits bs (suc (n + length p)) (g none)
      → IsSized bs n (modify (t ∷ p) g leaf)
  unfolding modify
  modify-IsSized_leaf n t [] new =
      let e : n + 0 ≡ n = omega arith in (subst (λ k. Fits bs (suc k) (g none)) e new, tt, tt)
  modify-IsSized_leaf n t (q ∷ p) new =
      let e : n + suc (length p) ≡ suc n + length p = omega arith in
      (tt, modify-IsSized_leaf (suc n) q p (subst (λ k. Fits bs (suc k) (g none)) e new), tt)

  -- A change that keeps an entry's claims at the depth of the path keeps those of the trie.
  pub modify-IsSized :
      (n t : ℕ) (p : List ℕ) (f : Trie)
      → ((e : Option Entry) → Fits bs (suc (n + length p)) e → Fits bs (suc (n + length p)) (g e))
      → IsSized bs n f
      → IsSized bs n (modify (t ∷ p) g f)
  unfolding modify
  modify-IsSized n t p leaf keep h = modify-IsSized_leaf n t p (keep none tt)
  modify-IsSized n t [] (node u e sub rest) keep h = elim (Bool-cases (u == t)) [
    | inl hit ↦ rw (hit, modify) (back (keep e (forth h.0)), h.1, h.2)
    | inr miss ↦ rw (miss, modify) (h.0, h.1, modify-IsSized n t [] rest keep h.2)
  ]
    where
      same : n + 0 ≡ n
      same = omega arith

      forth : Fits bs (suc n) e → Fits bs (suc (n + 0)) e
      forth = subst (λ k. Fits bs (suc k) e) (sym same)

      back : Fits bs (suc (n + 0)) (g e) → Fits bs (suc n) (g e)
      back = subst (λ k. Fits bs (suc k) (g e)) same
  modify-IsSized n t (q ∷ p) (node u e sub rest) keep h = elim (Bool-cases (u == t)) [
    | inl hit ↦ rw (hit, modify) (h.0, modify-IsSized (suc n) q p sub keep' h.1, h.2)
    | inr miss ↦ rw (miss, modify) (h.0, h.1, modify-IsSized n t (q ∷ p) rest keep h.2)
  ]
    where
      same : n + suc (length p) ≡ suc n + length p
      same = omega arith

      keep' :
          (e : Option Entry)
          → Fits bs (suc (suc n + length p)) e
          → Fits bs (suc (suc n + length p)) (g e)
      keep' = subst (λ k. (e : Option Entry) → Fits bs (suc k) e → Fits bs (suc k) (g e)) same keep

drop_empty-IsSized :
    (bs n u : ℕ) (e : Option Entry) (sub rest : Trie)
    → IsSized bs n (node u e sub rest)
    → IsSized bs n (drop_empty u e sub rest)
unfolding drop_empty
drop_empty-IsSized bs n u none leaf rest h = h.2
drop_empty-IsSized bs n u none (node t e a b) rest h = h
drop_empty-IsSized bs n u (some e) sub rest h = h

pub prune-IsSized : (bs n : ℕ) (p : List ℕ) (f : Trie) → IsSized bs n f → IsSized bs n (prune p f)
unfolding prune
prune-IsSized bs n [] f h = h
prune-IsSized bs n (t ∷ p) leaf h = h
prune-IsSized bs n (t ∷ []) (node u e sub rest) h =
    ground (arith, prune-IsSized bs n (t ∷ []) rest, drop_empty-IsSized bs n u e sub rest)
prune-IsSized bs n (t ∷ q ∷ p) (node u e sub rest) h =
    ground (arith, prune-IsSized bs (suc n) (q ∷ p) sub, prune-IsSized bs n (t ∷ q ∷ p) rest)
