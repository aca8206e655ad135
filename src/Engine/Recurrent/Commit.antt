-- ===== src/Engine/Recurrent/Commit.antt =====
-- models/cache.py: what commit_verify leaves is what the accepted tokens would have given.
use superl8_serve.Prelude.{
  ℕ, suc, ◌<◌, ◌≡◌, refl, ap, ◌∙◌, List, [], ◌∷◌, Option, none, some, false, ◌==◌, ltb, ltb→lt,
  arith, length, take, map, count, All, Bool-cases, inl, inr, ◌⊎◌,
}
use superl8_serve.Engine.Recurrent.{
  row_of, scatter, RecurrentStateCache, active_slots, commit_one, commit_layers, commit_verify,
  end_verify_capture,
}
use superl8_serve.Engine.Recurrent.Rows.{
  Distinct, scatter-slot, scatter-layer, scatter-All, scan, run_rows, pick_rows-scan,
}

-- A row of the batch under verification: its slot, its verify tokens and the index of the last one that
-- is accepted.
pub record Verified : Type 0 where
  pub slot : ℕ
  pub tokens : List ℕ
  pub last : ℕ

abbrev pub accepted_tokens : Verified → List ℕ
accepted_tokens b = take (suc b.last) b.tokens

-- A recurrence has a step for each layer and token, and a row for each slot and layer before the tokens.
module _ (Row : Type 0) (zeros_like : Row → Row) (step tail_step : ℕ → ℕ → Row → Row)
    (first first_tail : ℕ → ℕ → Row) (bs : List Verified) where
  abbrev pub state_after : ℕ → Verified → Row
  state_after l b = run_rows Row zeros_like (step l) (first b.slot l) (accepted_tokens b)

  abbrev pub tail_after : ℕ → Verified → Row
  tail_after l b = run_rows Row zeros_like (tail_step l) (first_tail b.slot l) (accepted_tokens b)

  -- The trajectories of the layers over the verify tokens.
  abbrev pub trajectories :
      List ℕ → List (ℕ × (Option (List (List Row)) × Option (List (List Row))))
  trajectories layers =
      map
        (λ l. (
          l,
          (
            some (map (λ b. scan Row zeros_like (step l) (first b.slot l) b.tokens) bs),
            some (map (λ b. scan Row zeros_like (tail_step l) (first_tail b.slot l) b.tokens) bs),
          ),
        ))
        layers

  abbrev batch_slots : List ℕ
  batch_slots = map (λ b. b.slot) bs

  abbrev row_last : List ℕ
  row_last = map (λ b. b.last) bs

  abbrev Rows : Type 0
  Rows = List ((ℕ × ℕ) × Row)

  abbrev at : Rows → ℕ → ℕ → Option Row
  at store s l = row_of Row zeros_like store s l

  -- The rows of the slots at the layers are those after the accepted tokens, and the others stay.
  record Commits (layers : List ℕ) (state conv_tail : Rows) (r : Option (Rows × Rows))
      : Type 0 where
    next : Rows
    tail : Rows
    returns : r ≡ some (next, tail)
    rows :
        All
          (λ l.
            All
              (λ b.
                (at next b.slot l ≡ some (state_after l b))
                × (at tail b.slot l ≡ some (tail_after l b)))
              bs)
          layers
    away :
        (t m : ℕ)
        → ((0 < count t batch_slots) × (0 < count m layers))
          ⊎ ((at next t m ≡ at state t m) × (at tail t m ≡ at conv_tail t m))

  module _ (distinct : Distinct batch_slots) (within : All (λ b. b.last < length b.tokens) bs) where
    abbrev state_rows : ℕ → Rows → Rows
    state_rows l store = scatter Row zeros_like batch_slots (map (state_after l) bs) l store

    abbrev tail_rows : ℕ → Rows → Rows
    tail_rows l store = scatter Row zeros_like batch_slots (map (tail_after l) bs) l store

    commit_layer :
        (l : ℕ) (layers : List ℕ) (state conv_tail : Rows)
        → commit_layers Row zeros_like batch_slots row_last
            (trajectories (l ∷ layers))
            state
            conv_tail
          ≡ commit_layers Row zeros_like batch_slots row_last
              (trajectories layers)
              (state_rows l state)
              (tail_rows l conv_tail)
    unfolding commit_layers commit_one
    commit_layer l layers state conv_tail =
        rw
          (
            commit_layers,
            commit_one,
            pick_rows-scan Row zeros_like (step l) (λ b. first b.slot l) (λ b. b.tokens)
                (λ b. b.last) bs within,
            pick_rows-scan Row zeros_like (tail_step l) (λ b. first_tail b.slot l) (λ b. b.tokens)
                (λ b. b.last) bs within,
          )
          refl

    both {ℓ} :
        {P Q S : Verified → Type ℓ} (rows : List Verified)
        → ((b : Verified) → P b → Q b → S b)
        → All P rows
        → All Q rows
        → All S rows
    both [] f p q = tt
    both (b ∷ rows) f p q = (f b p.0 q.0, both rows f p.1 q.1)

    -- What stays in the other layers stays outside the slots and this layer.
    joined :
        (t m l : ℕ) (layers : List ℕ) (state conv_tail next tail : Rows)
        → (at next t m ≡ at (state_rows l state) t m)
          × (at tail t m ≡ at (tail_rows l conv_tail) t m)
        → ((0 < count t batch_slots) × (0 < count m (l ∷ layers)))
          ⊎ ((at next t m ≡ at state t m) × (at tail t m ≡ at conv_tail t m))
    joined t m l layers state conv_tail next tail stays = elim (Bool-cases (l == m)) [
      | inr other ↦ inr (
        stays.0
            ∙ scatter-layer Row zeros_like batch_slots (map (state_after l) bs) l state t m other,
        stays.1
            ∙ scatter-layer Row zeros_like batch_slots (map (tail_after l) bs) l conv_tail t m
                other,
      )
      | inl same ↦ elim (Bool-cases (ltb 0 (count t batch_slots))) [
        | inl bound ↦ inl (ltb→lt 0 (count t batch_slots) bound, ground (arith, same))
        | inr free ↦
            let none_of : count t batch_slots ≡ 0 = ground (arith, free) in
            inr (
              stays.0
                  ∙ scatter-slot Row zeros_like batch_slots (map (state_after l) bs) l state t m
                      none_of,
              stays.1
                  ∙ scatter-slot Row zeros_like batch_slots (map (tail_after l) bs) l conv_tail t m
                      none_of,
            )
      ]
    ]

    commit_layers-Commits :
        (layers : List ℕ) (state conv_tail : Rows)
        → Distinct layers
        → Commits layers state conv_tail (
            commit_layers Row zeros_like batch_slots row_last (trajectories layers) state conv_tail)
    commit_layers-Commits [] state conv_tail d = record {
      next = state;
      tail = conv_tail;
      returns = unfold commit_layers in refl;
      rows = tt;
      away = λ t m. inr (refl, refl);
    }
    commit_layers-Commits (l ∷ layers) state conv_tail d =
        let r = commit_layers-Commits layers (state_rows l state) (tail_rows l conv_tail) d.1 in
        let here =
          both bs
            (λ b p q. (elim (r.away b.slot l) [
              | inl again ↦ absurd (omega (arith, again.1, d.0))
              | inr stays ↦ (stays.0 ∙ p, stays.1 ∙ q)
            ]))
            (scatter-All Row zeros_like (λ b. b.slot) (state_after l) bs l state distinct)
            (scatter-All Row zeros_like (λ b. b.slot) (tail_after l) bs l conv_tail distinct) in
        record {
          next = r.next;
          tail = r.tail;
          returns = commit_layer l layers state conv_tail ∙ r.returns;
          rows = (here, r.rows);
          away = λ t m. (elim (r.away t m) [
            | inl touched ↦ inl (touched.0, omega (arith, touched.1))
            | inr stays ↦ joined t m l layers state conv_tail r.next r.tail stays
          ]);
        }

    committed :
        (c : RecurrentStateCache Row zeros_like) (layers : List ℕ) (next tail : Rows)
        → c.slots ≡ some batch_slots
        → c.vtraj ≡ trajectories layers
        → commit_layers Row zeros_like batch_slots row_last
            (trajectories layers)
            c.state
            c.conv_tail
          ≡ some (next, tail)
        → commit_verify Row zeros_like row_last c
          ≡ some (end_verify_capture Row zeros_like (record c { state = next; conv_tail = tail }))
    unfolding commit_verify
    committed c layers next tail slots traj returns =
        let active : active_slots Row zeros_like c ≡ batch_slots =
          ap (λ o. elim o as (λ x. List ℕ) [ none ↦ 0 ∷ [] | some s ↦ s ]) slots in
        ap
          (λ o. elim o as (λ x. Option (RecurrentStateCache Row zeros_like)) [
            | none ↦ none
            | some r ↦
                some (end_verify_capture Row zeros_like (record c { state = r.0; conv_tail = r.1 }))
          ])
          (ap (λ s. commit_layers Row zeros_like s row_last c.vtraj c.state c.conv_tail) active
            ∙ ap (λ v. commit_layers Row zeros_like batch_slots row_last v c.state c.conv_tail) traj
            ∙ returns)

    -- Where the batch is bound to distinct slots, each row's last accepted token is one of its verify
    -- tokens, and the distinct layers have recorded the rows after each verify token: commit_verify
    -- returns, the state and the tail of each bound slot at each of these layers are those after its
    -- accepted tokens, every other row is as it was, and the capture is over.
    pub commit_verify-Commits :
        (c : RecurrentStateCache Row zeros_like) (layers : List ℕ)
        → c.slots ≡ some batch_slots
        → c.vtraj ≡ trajectories layers
        → Distinct layers
        → (after : RecurrentStateCache Row zeros_like) × (commit_verify Row zeros_like row_last c
            ≡ some after)
          × All
              (λ l.
                All
                  (λ b.
                    (row_of Row zeros_like after.state b.slot l ≡ some (state_after l b))
                    × (row_of Row zeros_like after.conv_tail b.slot l ≡ some (tail_after l b)))
                  bs)
              layers
          × ((t m : ℕ)
              → ((0 < count t batch_slots) × (0 < count m layers))
                ⊎ ((row_of Row zeros_like after.state t m ≡ row_of Row zeros_like c.state t m)
                    × (row_of Row zeros_like after.conv_tail t m
                        ≡ row_of Row zeros_like c.conv_tail t m)))
          × (after.vcap ≡ false)
          × (after.vtraj ≡ [])
    commit_verify-Commits c layers slots traj d =
        let r = commit_layers-Commits layers c.state c.conv_tail d in
        (
          end_verify_capture Row zeros_like (record c { state = r.next; conv_tail = r.tail }),
          committed c layers r.next r.tail slots traj r.returns,
          r.rows,
          r.away,
          refl,
          refl,
        )
