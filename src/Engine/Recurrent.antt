-- ===== src/Engine/Recurrent.antt =====
-- models/cache.py: RecurrentStateCache with its dictionaries. A row of a state or of a convolution tail
-- is a value; the static buffers, which hold the same rows at fixed addresses for CUDA graphs, are left
-- out. A tensor over the batch is the list of its rows.
pub mod Rows
pub mod Commit
pub mod Tests
use superl8_serve.Prelude.{
  ℕ, suc, List, [], ◌∷◌, Option, none, some, Bool, true, false, not, ◌&&◌, if◌then◌else◌, ◌==◌, map,
  filter, get_elem?,
}

module _ (Row : Type 0) (zeros_like : Row → Row) where
  -- The entries of a dictionary by (slot, layer).
  abbrev pub Store : Type 0
  Store = List ((ℕ × ℕ) × Row)

  unfoldable pub row_of : Store → ℕ → ℕ → Option Row
  row_of [] s l = none
  row_of (((t, m), r) ∷ store) s l = if (t == s) && (m == l) then some r else row_of store s l

  -- `store[(s, layer_idx)] = r`.
  unfoldable pub put_row : ℕ → ℕ → Row → Store → Store
  put_row s l r [] = ((s, l), r) ∷ []
  put_row s l r (((t, m), q) ∷ store) =
      if (t == s) && (m == l) then ((s, l), r) ∷ store else ((t, m), q) ∷ put_row s l r store

  -- A trajectory has the rows after each token, for each row of the batch.
  abbrev pub Trajectory : Type 0
  Trajectory = List (List Row)

  pub record RecurrentStateCache : Type 0 where
    pub state : Store
    pub conv_tail : Store
    pub slots : Option (List ℕ)
    pub vcap : Bool
    pub vtraj : List (ℕ × (Option Trajectory × Option Trajectory))

  abbrev pub empty_cache : RecurrentStateCache
  empty_cache = record { state = []; conv_tail = []; slots = none; vcap = false; vtraj = [] }

  abbrev pub bind : Option (List ℕ) → RecurrentStateCache → RecurrentStateCache
  bind slots c = record c { slots = slots }

  -- `_active`.
  abbrev pub active_slots : RecurrentStateCache → List ℕ
  active_slots c = elim c.slots [ none ↦ 0 ∷ [] | some slots ↦ slots ]

  unfoldable pub clear_slot : ℕ → RecurrentStateCache → RecurrentStateCache
  clear_slot slot c = record c {
    state = filter (λ e. not (e.0.0 == slot)) c.state;
    conv_tail = filter (λ e. not (e.0.0 == slot)) c.conv_tail;
  }

  abbrev pub first_present : List (Option Row) → Option Row
  first_present [] = none
  first_present (none ∷ rows) = first_present rows
  first_present (some r ∷ rows) = some r

  abbrev pub or_zeros : Row → Option Row → Row
  or_zeros present none = zeros_like present
  or_zeros present (some r) = r

  unfoldable pub gather : List ℕ → Store → ℕ → Option (List Row)
  unfolding row_of
  gather slots store layer_idx =
      let rows = map (λ s. row_of store s layer_idx) slots in
      elim (first_present rows) [ none ↦ none | some present ↦ some (map (or_zeros present) rows) ]

  -- The tensor has a row for each slot.
  unfoldable pub scatter : List ℕ → List Row → ℕ → Store → Store
  unfolding put_row
  scatter [] value layer_idx store = store
  scatter (s ∷ slots) [] layer_idx store = store
  scatter (s ∷ slots) (r ∷ value) layer_idx store =
      scatter slots value layer_idx (put_row s layer_idx r store)

  abbrev pub get_state : ℕ → RecurrentStateCache → Option (List Row)
  get_state layer_idx c = gather (active_slots c) c.state layer_idx

  abbrev pub set_state : ℕ → List Row → RecurrentStateCache → RecurrentStateCache
  set_state layer_idx value c = record c {
    state = scatter (active_slots c) value layer_idx c.state;
  }

  abbrev pub get_conv_tail : ℕ → RecurrentStateCache → Option (List Row)
  get_conv_tail layer_idx c = gather (active_slots c) c.conv_tail layer_idx

  abbrev pub set_conv_tail : ℕ → List Row → RecurrentStateCache → RecurrentStateCache
  set_conv_tail layer_idx value c = record c {
    conv_tail = scatter (active_slots c) value layer_idx c.conv_tail;
  }

  abbrev pub begin_verify_capture : RecurrentStateCache → RecurrentStateCache
  begin_verify_capture c = record c { vcap = true; vtraj = [] }

  abbrev pub end_verify_capture : RecurrentStateCache → RecurrentStateCache
  end_verify_capture c = record c { vcap = false; vtraj = [] }

  abbrev pub set_entry :
      ℕ
      → Option Trajectory × Option Trajectory
      → List (ℕ × (Option Trajectory × Option Trajectory))
      → List (ℕ × (Option Trajectory × Option Trajectory))
  set_entry l e [] = (l, e) ∷ []
  set_entry l e ((m, f) ∷ entries) =
      if m == l then (l, e) ∷ entries else (m, f) ∷ set_entry l e entries

  abbrev pub record_verify_traj :
      ℕ → Option Trajectory → Option Trajectory → RecurrentStateCache → RecurrentStateCache
  record_verify_traj layer_idx state_traj conv_traj c = record c {
    vtraj = set_entry layer_idx (state_traj, conv_traj) c.vtraj;
  }

  -- `_pick`: `none` is an index out of range.
  unfoldable pub pick_rows : Trajectory → List ℕ → Option (List Row)
  pick_rows traj [] = some []
  pick_rows [] (i ∷ row_last) = none
  pick_rows (t ∷ traj) (i ∷ row_last) = elim (get_elem? t i) [
    | none ↦ none
    | some r ↦ elim (pick_rows traj row_last) [ none ↦ none | some rows ↦ some (r ∷ rows) ]
  ]

  -- A trajectory of one store, picked and scattered.
  unfoldable pub commit_one : List ℕ → List ℕ → ℕ → Option Trajectory → Store → Option Store
  unfolding pick_rows scatter
  commit_one slots row_last l none store = some store
  commit_one slots row_last l (some traj) store = elim (pick_rows traj row_last) [
    | none ↦ none
    | some value ↦ some (scatter slots value l store)
  ]

  -- The `for` over the layers.
  unfoldable pub commit_layers :
      List ℕ
      → List ℕ
      → List (ℕ × (Option Trajectory × Option Trajectory))
      → Store
      → Store
      → Option (Store × Store)
  unfolding commit_one
  commit_layers slots row_last [] state conv_tail = some (state, conv_tail)
  commit_layers slots row_last ((l, (state_traj, conv_traj)) ∷ entries) state conv_tail =
      elim (commit_one slots row_last l state_traj state) [
        | none ↦ none
        | some next ↦ elim (commit_one slots row_last l conv_traj conv_tail) [
          | none ↦ none
          | some tail ↦ commit_layers slots row_last entries next tail
        ]
      ]

  unfoldable pub commit_verify : List ℕ → RecurrentStateCache → Option RecurrentStateCache
  unfolding commit_layers
  commit_verify row_last c =
      elim (commit_layers (active_slots c) row_last c.vtraj c.state c.conv_tail) [
        | none ↦ none
        | some (state, conv_tail) ↦
            some (end_verify_capture (record c { state = state; conv_tail = conv_tail }))
      ]
