-- ===== src/Kv/Trie/Modify.antt =====
-- How a change at one path shows in the counts and at the other paths.
use superl8_serve.Prelude.{ℕ, ◌+◌, ◌≡◌, refl, List, [], ◌∷◌, Option, none, some, arith, ◌≢◌}
use superl8_serve.Kv.Trie.{
  Entry, Trie, leaf, node, entry_at, modify, prune, drop_empty, refs, entries, entry_refs, one_if,
  Fresh, IsDict,
}

module _ (b : ℕ) (g : Option Entry → Option Entry) where
  pub refs-modify :
      (t : ℕ) (p : List ℕ) (f : Trie)
      → refs b (modify (t ∷ p) g f) + entry_refs b (entry_at (t ∷ p) f)
        ≡ refs b f + entry_refs b (g (entry_at (t ∷ p) f))
  unfolding refs modify entry_at
  refs-modify t [] leaf = ground arith
  refs-modify t (q ∷ p) leaf = ground (arith, refs-modify q p leaf)
  refs-modify t [] (node u e sub rest) = ground (arith, refs-modify t [] rest)
  refs-modify t (q ∷ p) (node u e sub rest) =
      ground (arith, refs-modify q p sub, refs-modify t (q ∷ p) rest)

module _ (g : Option Entry → Option Entry) where
  pub entries-modify :
      (t : ℕ) (p : List ℕ) (f : Trie)
      → entries (modify (t ∷ p) g f) + one_if (entry_at (t ∷ p) f)
        ≡ entries f + one_if (g (entry_at (t ∷ p) f))
  unfolding entries modify entry_at
  entries-modify t [] leaf = ground arith
  entries-modify t (q ∷ p) leaf = ground (arith, entries-modify q p leaf)
  entries-modify t [] (node u e sub rest) = ground (arith, entries-modify t [] rest)
  entries-modify t (q ∷ p) (node u e sub rest) =
      ground (arith, entries-modify q p sub, entries-modify t (q ∷ p) rest)

  Fresh-modify :
      (v t : ℕ) (p : List ℕ) (f : Trie) → v ≢ t → Fresh v f → Fresh v (modify (t ∷ p) g f)
  unfolding modify
  Fresh-modify v t [] leaf ne h = ground arith
  Fresh-modify v t (q ∷ p) leaf ne h = ground arith
  Fresh-modify v t [] (node u e sub rest) ne h = ground (arith, Fresh-modify v t [] rest)
  Fresh-modify v t (q ∷ p) (node u e sub rest) ne h = ground (arith, Fresh-modify v t (q ∷ p) rest)

  pub modify-IsDict : (t : ℕ) (p : List ℕ) (f : Trie) → IsDict f → IsDict (modify (t ∷ p) g f)
  unfolding modify
  modify-IsDict t [] leaf h = ground arith
  modify-IsDict t (q ∷ p) leaf h = ground (arith, modify-IsDict q p leaf)
  modify-IsDict t [] (node u e sub rest) h =
      ground (arith, modify-IsDict t [] rest, Fresh-modify u t [] rest)
  modify-IsDict t (q ∷ p) (node u e sub rest) h =
      ground
        (arith, modify-IsDict q p sub, modify-IsDict t (q ∷ p) rest, Fresh-modify u t (q ∷ p) rest)

-- Pruning takes no entry away.
module _ (b : ℕ) where
  refs-drop_empty :
      (u : ℕ) (e : Option Entry) (sub rest : Trie)
      → refs b (drop_empty u e sub rest) ≡ refs b (node u e sub rest)
  unfolding refs drop_empty
  refs-drop_empty u none leaf rest = omega arith
  refs-drop_empty u none (node t e s r) rest = refl
  refs-drop_empty u (some e) sub rest = refl

  pub refs-prune : (p : List ℕ) (f : Trie) → refs b (prune p f) ≡ refs b f
  unfolding refs prune
  refs-prune [] f = refl
  refs-prune (t ∷ p) leaf = refl
  refs-prune (t ∷ []) (node u e sub rest) =
      ground (arith, refs-prune (t ∷ []) rest, refs-drop_empty u e sub rest)
  refs-prune (t ∷ q ∷ p) (node u e sub rest) =
      ground (arith, refs-prune (q ∷ p) sub, refs-prune (t ∷ q ∷ p) rest)

entries-drop_empty :
    (u : ℕ) (e : Option Entry) (sub rest : Trie)
    → entries (drop_empty u e sub rest) ≡ entries (node u e sub rest)
unfolding entries drop_empty
entries-drop_empty u none leaf rest = omega arith
entries-drop_empty u none (node t e s r) rest = refl
entries-drop_empty u (some e) sub rest = refl

pub entries-prune : (p : List ℕ) (f : Trie) → entries (prune p f) ≡ entries f
unfolding entries prune
entries-prune [] f = refl
entries-prune (t ∷ p) leaf = refl
entries-prune (t ∷ []) (node u e sub rest) =
    ground (arith, entries-prune (t ∷ []) rest, entries-drop_empty u e sub rest)
entries-prune (t ∷ q ∷ p) (node u e sub rest) =
    ground (arith, entries-prune (q ∷ p) sub, entries-prune (t ∷ q ∷ p) rest)
