-- ===== src/Dist/Entropy/Normalize/Tests.antt =====
-- An argsort by insertion, and the coder with it.
use native.Mathlib.Bridge.{le_prop}
use mathlib.Core.List.{Perm, Pairwise, Pairwise-singleton, forall_mem-cons}
use mathlib.Core.List.Perm
use superl8_serve.Prelude.{
  ℕ, ◌≤◌, ◌≡◌, refl, List, [], ◌∷◌, some, if◌then◌else◌, ltb, arith, length, get_or, Bool-cases,
  inl, inr,
}
use superl8_serve.Dist.Entropy.{decode}
use superl8_serve.Dist.Entropy.Normalize.{normalize_freqs, give, take_back, encode_symbols}
use superl8_serve.Dist.Entropy.Normalize.Order.{range_from, Descends}
use superl8_serve.Dist.Entropy.Normalize.Whole.{Table, normalize_freqs-Table, decode-encode_symbols}

module _ (counts : List ℕ) where
  insert : ℕ → List ℕ → List ℕ
  insert s [] = s ∷ []
  insert s (a ∷ order) =
      if ltb (get_or counts a 0) (get_or counts s 0) then s ∷ a ∷ order else a ∷ insert s order

  insert_all : List ℕ → List ℕ
  insert_all [] = []
  insert_all (s ∷ symbols) = insert s (insert_all symbols)

  insert-perm : (s : ℕ) (order : List ℕ) → Perm (insert s order) (s ∷ order)
  unfolding insert
  insert-perm s [] = Perm.rfl
  insert-perm s (a ∷ order) = elim (Bool-cases (ltb (get_or counts a 0) (get_or counts s 0))) [
    | inl before ↦ rw (insert, before) Perm.rfl
    | inr after ↦
        rw (insert, after) (Perm.trans (Perm.cons a (insert-perm s order)) (Perm.swap s a order))
  ]

  insert_all-perm : (symbols : List ℕ) → Perm (insert_all symbols) symbols
  unfolding insert_all
  insert_all-perm [] = Perm.rfl
  insert_all-perm (s ∷ symbols) =
      Perm.trans (insert-perm s (insert_all symbols)) (Perm.cons s (insert_all-perm symbols))

  abbrev Falls : ℕ → ℕ → Type 0
  Falls a b = get_or counts b 0 ≤ get_or counts a 0

  insert-Pairwise :
      (s : ℕ) (order : List ℕ) → Pairwise Falls order → Pairwise Falls (insert s order)
  unfolding insert
  insert-Pairwise s [] p = Pairwise-singleton _ s
  insert-Pairwise s (a ∷ order) (Pairwise.cons below p) =
      elim (Bool-cases (ltb (get_or counts a 0) (get_or counts s 0))) [
        | inl before ↦
            let le : get_or counts a 0 ≤ get_or counts s 0 = ground arith in
            rw (insert, before)
              (Pairwise.cons
                ((forall_mem-cons (λ b. le_prop)).1 (le, λ b m. omega (arith, below b m, le)))
                (Pairwise.cons below p))
        | inr after ↦
            let le : get_or counts s 0 ≤ get_or counts a 0 = ground arith in
            rw (insert, after)
              (Pairwise.cons
                (λ b m.
                  (forall_mem-cons (λ b. le_prop)).1 (le, below) b
                    ((Perm.mem_iff (insert-perm s order)).0 m))
                (insert-Pairwise s order p))
      ]

  insert_all-Pairwise : (symbols : List ℕ) → Pairwise Falls (insert_all symbols)
  unfolding insert_all
  insert_all-Pairwise [] = Pairwise.nil
  insert_all-Pairwise (s ∷ symbols) =
      insert-Pairwise s (insert_all symbols) (insert_all-Pairwise symbols)

argsort : List ℕ → List ℕ
argsort counts = insert_all counts (range_from 0 (length counts))

argsort-Descends : (counts : List ℕ) → Descends counts (argsort counts)
unfolding argsort
argsort-Descends counts = record {
  all = insert_all-perm counts (range_from 0 (length counts));
  sorted = insert_all-Pairwise counts (range_from 0 (length counts));
}

-- The shares of 1 and of 9998 in 9999 are rounded up to one and down: a slot is given to the symbol with
-- the higher count.
frequent_symbol : normalize_freqs argsort (1 ∷ 9998 ∷ []) ≡ some (1 ∷ 4095 ∷ [])
unfolding normalize_freqs give argsort insert insert_all
frequent_symbol = refl

-- Two rare symbols take two slots, of which one is taken back from the frequent one.
rare_symbols : normalize_freqs argsort (1 ∷ 99998 ∷ 1 ∷ []) ≡ some (1 ∷ 4094 ∷ 1 ∷ [])
unfolding normalize_freqs take_back argsort insert insert_all
rare_symbols = refl

abbrev bytes : List ℕ
bytes = 42 ∷ 42 ∷ 7 ∷ 255 ∷ 42 ∷ []

normalize_freqs-Table_example : Table argsort (1 ∷ 99998 ∷ 1 ∷ [])
normalize_freqs-Table_example =
    normalize_freqs-Table argsort (1 ∷ 99998 ∷ 1 ∷ []) (argsort-Descends (1 ∷ 99998 ∷ 1 ∷ []))
      (omega arith) (omega arith)

decode-encode_symbols_example :
    (stream freqs : List ℕ) × (encode_symbols argsort bytes ≡ some (stream, freqs))
    × (decode freqs stream (length bytes) ≡ some bytes)
decode-encode_symbols_example =
    decode-encode_symbols argsort argsort-Descends bytes
      (omega arith, (omega arith, (omega arith, (omega arith, (omega arith, tt)))))
