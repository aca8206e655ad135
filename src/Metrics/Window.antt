-- ===== src/Metrics/Window.antt =====
-- metrics.py: the trailing window of ThroughputWindow, and the nearest rank of a percentile.
use superl8_serve.Prelude.{
  ℕ, ◌+◌, ◌≤◌, ◌≡◌, refl, sym, ap, subst, ◌∙◌, List, [], ◌∷◌, ◌++◌, Option, some, none, true, false,
  if◌then◌else◌, ltb, leb, arith, filter, All, All-append, All-mono, Bool-cases, inl, inr,
}
use mathlib.Core.List.{append_assoc, append-nil}
use superl8_serve.Metrics.{
  Sample, ThroughputWindow, evict_old, add_sample, rate, sum_tokens, sum_dt,
}

abbrev pub recent : ℕ → ℕ → List Sample → List Sample
recent window now = filter (λ s. leb now (s.time + window))

abbrev pub Sorted : List Sample → Type 0
Sorted [] = Unit
Sorted (s ∷ samples) = All (λ t. s.time ≤ t.time) samples × Sorted samples

abbrev pub add_all : List Sample → ThroughputWindow → ThroughputWindow
add_all [] w = w
add_all (s ∷ later) w = add_all later (add_sample s.tokens s.dt s.time w)

recent-All :
    (window now : ℕ) (samples : List Sample)
    → All (λ s. now ≤ s.time + window) samples
    → recent window now samples ≡ samples
recent-All window now [] h = refl
recent-All window now (s ∷ samples) (h, hs) =
    let keep : leb now (s.time + window) ≡ true = ground (arith, h) in
    rw keep (ap (◌∷◌ s) (recent-All window now samples hs))

evict_old-recent :
    (window now : ℕ) (samples : List Sample)
    → Sorted samples
    → evict_old window now samples ≡ recent window now samples
unfolding evict_old
evict_old-recent window now [] h = refl
evict_old-recent window now (s ∷ samples) (later, h) =
    elim (Bool-cases (ltb (s.time + window) now)) [
      | inl old ↦
          let gone : leb now (s.time + window) ≡ false = ground (arith, old) in
          rw (old, gone) (evict_old-recent window now samples h)
      | inr new ↦
          let keep : leb now (s.time + window) ≡ true = ground (arith, new) in
          rw (new, keep)
            (ap (◌∷◌ s) (
              sym (
                recent-All window now samples
                  (All-mono samples (λ t le. ground (arith, le, new)) later))))
    ]

recent-append :
    (window now : ℕ) (xs ys : List Sample)
    → recent window now (xs ++ ys) ≡ recent window now xs ++ recent window now ys
recent-append window now [] ys = refl
recent-append window now (x ∷ xs) ys = elim (Bool-cases (leb now (x.time + window))) [
  | inl keep ↦ rw keep (ap (◌∷◌ x) (recent-append window now xs ys))
  | inr drop ↦ rw drop (recent-append window now xs ys)
]

recent-recent :
    (window before now : ℕ) (xs : List Sample)
    → before ≤ now
    → recent window now (recent window before xs) ≡ recent window now xs
recent-recent window before now [] le = refl
recent-recent window before now (x ∷ xs) le = elim (Bool-cases (leb before (x.time + window))) [
  | inl keep ↦ elim (Bool-cases (leb now (x.time + window))) [
    | inl still ↦ rw (keep, still) (ap (◌∷◌ x) (recent-recent window before now xs le))
    | inr gone ↦ rw (keep, gone) (recent-recent window before now xs le)
  ]
  | inr drop ↦
      let gone : leb now (x.time + window) ≡ false = ground (arith, drop, le) in
      rw (drop, gone) (recent-recent window before now xs le)
]

All-recent :
    (P : Sample → Type 0) (window now : ℕ) (xs : List Sample)
    → All P xs
    → All P (recent window now xs)
All-recent P window now [] h = tt
All-recent P window now (x ∷ xs) (h, hs) = elim (Bool-cases (leb now (x.time + window))) [
  | inl keep ↦ rw keep (h, All-recent P window now xs hs)
  | inr drop ↦ rw drop (All-recent P window now xs hs)
]

recent-Sorted : (window now : ℕ) (xs : List Sample) → Sorted xs → Sorted (recent window now xs)
recent-Sorted window now [] h = tt
recent-Sorted window now (x ∷ xs) (later, h) = elim (Bool-cases (leb now (x.time + window))) [
  | inl keep ↦
      rw keep (All-recent (λ t. x.time ≤ t.time) window now xs later, recent-Sorted window now xs h)
  | inr drop ↦ rw drop (recent-Sorted window now xs h)
]

append-Sorted :
    (xs : List Sample) (s : Sample)
    → Sorted xs
    → All (λ t. t.time ≤ s.time) xs
    → Sorted (xs ++ (s ∷ []))
append-Sorted [] s h le = (tt, tt)
append-Sorted (x ∷ xs) s (later, h) (first, le) =
    (All-append (λ t. x.time ≤ t.time) xs (s ∷ []) later (first, tt), append-Sorted xs s h le)

-- The samples are those of a history that were recent at its last time.
record Holds (w : ThroughputWindow) (last : ℕ) (history : List Sample) : Type 0 where
  samples : w.samples ≡ recent w.window last history
  sorted : Sorted history
  past : All (λ t. t.time ≤ last) history

evict-Holds :
    (w : ThroughputWindow) (last now : ℕ) (history : List Sample)
    → last ≤ now
    → Holds w last history
    → evict_old w.window now w.samples ≡ recent w.window now history
evict-Holds w last now history le h =
    ap (evict_old w.window now) h.samples
    ∙ evict_old-recent w.window now (recent w.window last history)
        (recent-Sorted w.window last history h.sorted)
    ∙ recent-recent w.window last now history le

add_sample-Holds :
    (w : ThroughputWindow) (last : ℕ) (history : List Sample) (s : Sample)
    → last ≤ s.time
    → Holds w last history
    → Holds (add_sample s.tokens s.dt s.time w) s.time (history ++ (s ∷ []))
unfolding add_sample
add_sample-Holds w last history s le h =
    let old : All (λ t. t.time ≤ s.time) history =
      All-mono history (λ t past. omega (arith, past, le)) h.past in
    record {
      samples =
          ap (λ xs. evict_old w.window s.time (xs ++ (s ∷ []))) h.samples
          ∙ evict_old-recent w.window s.time (recent w.window last history ++ (s ∷ [])) (
              append-Sorted (recent w.window last history) s
                (recent-Sorted w.window last history h.sorted)
                (All-recent _ w.window last history old))
          ∙ recent-append w.window s.time (recent w.window last history) (s ∷ [])
          ∙ ap (λ xs. xs ++ recent w.window s.time (s ∷ []))
              (recent-recent w.window last s.time history le)
          ∙ sym (recent-append w.window s.time history (s ∷ []));
      sorted = append-Sorted history s h.sorted old;
      past = All-append _ history (s ∷ []) old (omega arith, tt);
    }

-- Times that do not go back, from `last` on.
abbrev pub Ordered : ℕ → List Sample → Type 0
Ordered last [] = Unit
Ordered last (s ∷ later) = (last ≤ s.time) × Ordered s.time later

abbrev pub last_time : ℕ → List Sample → ℕ
last_time last [] = last
last_time last (s ∷ later) = last_time s.time later

add_all-Holds :
    (w : ThroughputWindow) (last : ℕ) (history later : List Sample)
    → Ordered last later
    → Holds w last history
    → Holds (add_all later w) (last_time last later) (history ++ later)
add_all-Holds w last history [] order h = subst (Holds w last) (sym (append-nil history)) h
add_all-Holds w last history (s ∷ later) (le, order) h =
    subst (Holds (add_all later (add_sample s.tokens s.dt s.time w)) (last_time s.time later))
      (append_assoc history (s ∷ []) later)
      (add_all-Holds (add_sample s.tokens s.dt s.time w) s.time (history ++ (s ∷ [])) later order
        (add_sample-Holds w last history s le h))

window-add_all : (later : List Sample) (w : ThroughputWindow) → (add_all later w).window ≡ w.window
unfolding add_sample
window-add_all [] w = refl
window-add_all (s ∷ later) w = window-add_all later (add_sample s.tokens s.dt s.time w)

abbrev pub rate_of : List Sample → Option (ℕ × ℕ)
rate_of kept = if ltb 0 (sum_dt kept) then some (sum_tokens kept, sum_dt kept) else none

-- On a new window, after samples whose times do not go back, the rate at a time that is not before
-- them is the tokens over the time of those samples that are not older than the window.
pub rate-recent :
    (window now : ℕ) (history : List Sample)
    → Ordered 0 history
    → last_time 0 history ≤ now
    → (rate now (add_all history (record { window = window; samples = [] }))).1
      ≡ rate_of (recent window now history)
unfolding rate
rate-recent window now history order le =
    let start : ThroughputWindow = record { window = window; samples = [] } in
    let none_yet : Holds start 0 [] = record { samples = refl; sorted = tt; past = tt } in
    let h = add_all-Holds start 0 [] history order none_yet in
    ap rate_of (
      evict-Holds (add_all history start) (last_time 0 history) now history le h
      ∙ ap (λ w. recent w now history) (window-add_all history start))
