-- ===== src/Kv/Trie/Paths.antt =====
-- The entry at a path after a change at that path or another one.
use superl8_serve.Prelude.{
  ℕ, ◌≡◌, refl, List, [], ◌∷◌, Option, none, some, arith, ◌≢◌, if◌then◌else◌, ◌==◌,
}
use superl8_serve.Kv.Trie.{
  Entry, Trie, leaf, node, entry_at, modify, prune, drop_empty, Fresh, IsDict,
}

-- Below a child: its own entry, or one further down.
abbrev pub below : Option Entry → List ℕ → Trie → Option Entry
below e [] sub = e
below e (q ∷ p) sub = entry_at (q ∷ p) sub

pub entry_at-node :
    (t : ℕ) (p : List ℕ) (u : ℕ) (e : Option Entry) (sub rest : Trie)
    → entry_at (t ∷ p) (node u e sub rest)
      ≡ (if u == t then below e p sub else entry_at (t ∷ p) rest)
unfolding entry_at
entry_at-node t [] u e sub rest = refl
entry_at-node t (q ∷ p) u e sub rest = ground arith

pub entry_at-Fresh : (t : ℕ) (p : List ℕ) (f : Trie) → Fresh t f → entry_at (t ∷ p) f ≡ none
unfolding entry_at
entry_at-Fresh t p leaf h = refl
entry_at-Fresh t [] (node u e sub rest) h = ground (arith, entry_at-Fresh t [] rest)
entry_at-Fresh t (q ∷ p) (node u e sub rest) h = ground (arith, entry_at-Fresh t (q ∷ p) rest)

entry_at-leaf : (p : List ℕ) → entry_at p leaf ≡ none
unfolding entry_at
entry_at-leaf [] = refl
entry_at-leaf (t ∷ p) = refl

module _ (g : Option Entry → Option Entry) where
  pub entry_at-modify_self :
      (t : ℕ) (p : List ℕ) (f : Trie)
      → entry_at (t ∷ p) (modify (t ∷ p) g f) ≡ g (entry_at (t ∷ p) f)
  unfolding entry_at modify
  entry_at-modify_self t [] leaf = ground arith
  entry_at-modify_self t (q ∷ p) leaf = ground (arith, entry_at-modify_self q p leaf)
  entry_at-modify_self t [] (node u e sub rest) = ground (arith, entry_at-modify_self t [] rest)
  entry_at-modify_self t (q ∷ p) (node u e sub rest) =
      ground (arith, entry_at-modify_self q p sub, entry_at-modify_self t (q ∷ p) rest)

  modify_ne_step :
      (s v : ℕ) (r : List ℕ) (t q : ℕ) (p : List ℕ) (u : ℕ) (e : Option Entry) (sub rest : Trie)
      → s ∷ v ∷ r ≢ t ∷ q ∷ p
      → (v ∷ r ≢ q ∷ p → entry_at (v ∷ r) (modify (q ∷ p) g sub) ≡ entry_at (v ∷ r) sub)
      → entry_at (s ∷ v ∷ r) (modify (t ∷ q ∷ p) g rest) ≡ entry_at (s ∷ v ∷ r) rest
      → entry_at (s ∷ v ∷ r) (modify (t ∷ q ∷ p) g (node u e sub rest))
        ≡ entry_at (s ∷ v ∷ r) (node u e sub rest)
  unfolding modify
  modify_ne_step s v r t q p u e sub rest ne below_sub in_rest = ground (
    arith,
    entry_at-node s (v ∷ r) u e sub rest,
    entry_at-node s (v ∷ r) u e (modify (q ∷ p) g sub) rest,
    entry_at-node s (v ∷ r) u e sub (modify (t ∷ q ∷ p) g rest),
  )

  pub entry_at-modify_ne :
      (s : ℕ) (r : List ℕ) (t : ℕ) (p : List ℕ) (f : Trie)
      → s ∷ r ≢ t ∷ p
      → entry_at (s ∷ r) (modify (t ∷ p) g f) ≡ entry_at (s ∷ r) f
  unfolding entry_at modify
  entry_at-modify_ne s [] t [] leaf ne = ground arith
  entry_at-modify_ne s (v ∷ r) t [] leaf ne = ground (arith, entry_at-leaf (v ∷ r))
  entry_at-modify_ne s [] t (q ∷ p) leaf ne = ground arith
  entry_at-modify_ne s (v ∷ r) t (q ∷ p) leaf ne = ground (arith, entry_at-modify_ne v r q p leaf)
  entry_at-modify_ne s [] t [] (node u e sub rest) ne =
      ground (arith, entry_at-modify_ne s [] t [] rest)
  entry_at-modify_ne s (v ∷ r) t [] (node u e sub rest) ne =
      ground (arith, entry_at-modify_ne s (v ∷ r) t [] rest)
  entry_at-modify_ne s [] t (q ∷ p) (node u e sub rest) ne =
      ground (arith, entry_at-modify_ne s [] t (q ∷ p) rest)
  entry_at-modify_ne s (v ∷ r) t (q ∷ p) (node u e sub rest) ne =
      modify_ne_step s v r t q p u e sub rest ne (λ h. entry_at-modify_ne v r q p sub h)
        (entry_at-modify_ne s (v ∷ r) t (q ∷ p) rest ne)

entry_at-drop_empty :
    (s : ℕ) (r : List ℕ) (u : ℕ) (e : Option Entry) (sub rest : Trie)
    → Fresh u rest
    → entry_at (s ∷ r) (drop_empty u e sub rest) ≡ entry_at (s ∷ r) (node u e sub rest)
unfolding drop_empty
entry_at-drop_empty s [] u none leaf rest h =
    ground (arith, entry_at-node s [] u none leaf rest, entry_at-Fresh s [] rest)
entry_at-drop_empty s (v ∷ r) u none leaf rest h = ground (
  arith,
  entry_at-node s (v ∷ r) u none leaf rest,
  entry_at-Fresh s (v ∷ r) rest,
  entry_at-leaf (v ∷ r),
)
entry_at-drop_empty s r u none (node t e a b) rest h = refl
entry_at-drop_empty s r u (some e) sub rest h = refl

-- Pruning changes no lookup.
pub entry_at-prune :
    (s : ℕ) (r : List ℕ) (p : List ℕ) (f : Trie)
    → IsDict f
    → entry_at (s ∷ r) (prune p f) ≡ entry_at (s ∷ r) f
unfolding prune
entry_at-prune s r [] f h = refl
entry_at-prune s r (t ∷ p) leaf h = refl
entry_at-prune s r (t ∷ []) (node u e sub rest) h = ground (
  arith,
  entry_at-drop_empty s r u e sub rest,
  entry_at-node s r u e sub rest,
  entry_at-node s r u e sub (prune (t ∷ []) rest),
  entry_at-prune s r (t ∷ []) rest,
)
entry_at-prune s [] (t ∷ q ∷ p) (node u e sub rest) h = ground (
  arith,
  entry_at-node s [] u e sub rest,
  entry_at-node s [] u e (prune (q ∷ p) sub) rest,
  entry_at-node s [] u e sub (prune (t ∷ q ∷ p) rest),
  entry_at-prune s [] (t ∷ q ∷ p) rest,
)
entry_at-prune s (v ∷ r) (t ∷ q ∷ p) (node u e sub rest) h = ground (
  arith,
  entry_at-node s (v ∷ r) u e sub rest,
  entry_at-node s (v ∷ r) u e (prune (q ∷ p) sub) rest,
  entry_at-node s (v ∷ r) u e sub (prune (t ∷ q ∷ p) rest),
  entry_at-prune v r (q ∷ p) sub,
  entry_at-prune s (v ∷ r) (t ∷ q ∷ p) rest,
)

Fresh-drop_empty :
    (v u : ℕ) (e : Option Entry) (sub rest : Trie)
    → Fresh v (node u e sub rest)
    → Fresh v (drop_empty u e sub rest)
unfolding drop_empty
Fresh-drop_empty v u none leaf rest h = h.1
Fresh-drop_empty v u none (node t e a b) rest h = h
Fresh-drop_empty v u (some e) sub rest h = h

Fresh-prune : (v : ℕ) (p : List ℕ) (f : Trie) → Fresh v f → Fresh v (prune p f)
unfolding prune
Fresh-prune v [] f h = h
Fresh-prune v (t ∷ p) leaf h = h
Fresh-prune v (t ∷ []) (node u e sub rest) h =
    ground (arith, Fresh-prune v (t ∷ []) rest, Fresh-drop_empty v u e sub rest)
Fresh-prune v (t ∷ q ∷ p) (node u e sub rest) h = ground (arith, Fresh-prune v (t ∷ q ∷ p) rest)

IsDict-drop_empty :
    (u : ℕ) (e : Option Entry) (sub rest : Trie)
    → IsDict (node u e sub rest)
    → IsDict (drop_empty u e sub rest)
unfolding drop_empty
IsDict-drop_empty u none leaf rest h = h.2
IsDict-drop_empty u none (node t e a b) rest h = h
IsDict-drop_empty u (some e) sub rest h = h

pub prune-IsDict : (p : List ℕ) (f : Trie) → IsDict f → IsDict (prune p f)
unfolding prune
prune-IsDict [] f h = h
prune-IsDict (t ∷ p) leaf h = h
prune-IsDict (t ∷ []) (node u e sub rest) h =
    ground (
      arith,
      prune-IsDict (t ∷ []) rest,
      IsDict-drop_empty u e sub rest,
      Fresh-prune u (t ∷ []) rest,
    )
prune-IsDict (t ∷ q ∷ p) (node u e sub rest) h =
    ground (
      arith,
      prune-IsDict (q ∷ p) sub,
      prune-IsDict (t ∷ q ∷ p) rest,
      Fresh-prune u (t ∷ q ∷ p) rest,
    )
