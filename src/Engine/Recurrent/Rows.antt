-- ===== src/Engine/Recurrent/Rows.antt =====
-- models/cache.py: which rows a scatter writes, and the rows that a trajectory is picked at.
use superl8_serve.Prelude.{
  ℕ, zero, suc, ◌<◌, ◌≡◌, refl, ap, ◌∙◌, List, [], ◌∷◌, some, false, ◌&&◌, if◌then◌else◌, ◌==◌,
  arith, length, take, map, count, All, get_elem?,
}
use superl8_serve.Engine.Recurrent.{row_of, put_row, scatter, pick_rows}

abbrev pub Distinct : List ℕ → Type 0
Distinct [] = Unit
Distinct (x ∷ xs) = (count x xs ≡ 0) × Distinct xs

module _ (Row : Type 0) (zeros_like : Row → Row) where
  row_of-put_row :
      (s l : ℕ) (r : Row) (store : List ((ℕ × ℕ) × Row)) (t m : ℕ)
      → row_of Row zeros_like (put_row Row zeros_like s l r store) t m
        ≡ (if (s == t) && (l == m) then some r else row_of Row zeros_like store t m)
  unfolding row_of put_row
  row_of-put_row s l r [] t m = refl
  row_of-put_row s l r (((a, b), q) ∷ store) t m = ground (arith, row_of-put_row s l r store t m)

  -- A scatter leaves the other slots alone.
  pub scatter-slot :
      (slots : List ℕ) (value : List Row) (l : ℕ) (store : List ((ℕ × ℕ) × Row)) (t m : ℕ)
      → count t slots ≡ 0
      → row_of Row zeros_like (scatter Row zeros_like slots value l store) t m
        ≡ row_of Row zeros_like store t m
  unfolding scatter
  scatter-slot [] value l store t m away = refl
  scatter-slot (s ∷ slots) [] l store t m away = refl
  scatter-slot (s ∷ slots) (r ∷ value) l store t m away =
      let other : (s == t) ≡ false = ground (arith, away) in
      scatter-slot slots value l (put_row Row zeros_like s l r store) t m (omega (arith, away))
      ∙ row_of-put_row s l r store t m
      ∙ ap (λ b. if b && (l == m) then some r else row_of Row zeros_like store t m) other

  -- A scatter leaves the other layers alone.
  pub scatter-layer :
      (slots : List ℕ) (value : List Row) (l : ℕ) (store : List ((ℕ × ℕ) × Row)) (t m : ℕ)
      → (l == m) ≡ false
      → row_of Row zeros_like (scatter Row zeros_like slots value l store) t m
        ≡ row_of Row zeros_like store t m
  unfolding scatter
  scatter-layer [] value l store t m away = refl
  scatter-layer (s ∷ slots) [] l store t m away = refl
  scatter-layer (s ∷ slots) (r ∷ value) l store t m away =
      scatter-layer slots value l (put_row Row zeros_like s l r store) t m away
      ∙ row_of-put_row s l r store t m
      ∙ ground (arith, away)

  -- A scatter over distinct slots gives each its row.
  pub scatter-All {ℓ} :
      {B : Type ℓ} (slot : B → ℕ) (value : B → Row) (rows : List B) (l : ℕ)
      (store : List ((ℕ × ℕ) × Row))
      → Distinct (map slot rows)
      → All
          (λ b.
            row_of Row zeros_like
              (scatter Row zeros_like (map slot rows) (map value rows) l store)
              (slot b)
              l
            ≡ some (value b))
          rows
  unfolding scatter
  scatter-All slot value [] l store d = tt
  scatter-All slot value (b ∷ rows) l store d = (
    scatter-slot (map slot rows) (map value rows) l
          (put_row Row zeros_like (slot b) l (value b) store) (slot b) l d.0
        ∙ row_of-put_row (slot b) l (value b) store (slot b) l
        ∙ ground arith,
    scatter-All slot value rows l (put_row Row zeros_like (slot b) l (value b) store) d.1,
  )

  -- The rows after each token, and the row after all of them.
  abbrev pub scan : (ℕ → Row → Row) → Row → List ℕ → List Row
  scan step r [] = []
  scan step r (t ∷ tokens) = step t r ∷ scan step (step t r) tokens

  abbrev pub run_rows : (ℕ → Row → Row) → Row → List ℕ → Row
  run_rows step r [] = r
  run_rows step r (t ∷ tokens) = run_rows step (step t r) tokens

  scan-get :
      (step : ℕ → Row → Row) (r : Row) (tokens : List ℕ) (i : ℕ)
      → i < length tokens
      → get_elem? (scan step r tokens) i ≡ some (run_rows step r (take (suc i) tokens))
  scan-get step r [] i h = elim h [ ]
  scan-get step r (t ∷ tokens) zero h = refl
  scan-get step r (t ∷ tokens) (suc i) h = scan-get step (step t r) tokens i (omega arith)

  pub pick_rows-scan {ℓ} :
      {B : Type ℓ} (step : ℕ → Row → Row) (first : B → Row) (tokens : B → List ℕ) (last : B → ℕ)
      (rows : List B)
      → All (λ b. last b < length (tokens b)) rows
      → pick_rows Row zeros_like (map (λ b. scan step (first b) (tokens b)) rows) (map last rows)
        ≡ some (map (λ b. run_rows step (first b) (take (suc (last b)) (tokens b))) rows)
  unfolding pick_rows
  pick_rows-scan step first tokens last [] within = refl
  pick_rows-scan step first tokens last (b ∷ rows) within =
      rw
        (
          pick_rows,
          scan-get step (first b) (tokens b) (last b) within.0,
          pick_rows-scan step first tokens last rows within.1,
        )
        refl
