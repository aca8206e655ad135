-- ===== src/Metrics/Counters.antt =====
-- metrics.py: what the counters of StatsCollector say of each other.
use superl8_serve.Prelude.{
  ℕ, suc, ◌+◌, ◌-◌, ◌≤◌, ◌≡◌, refl, sym, ap, subst, List, [], ◌∷◌, ◌++◌, Option, some, none, Bool,
  true, false, if◌then◌else◌, ◌==◌, ltb, arith, Bool-cases, Option-cases, inl, inr, length,
  length-append, length-drop,
}
use mathlib.Core.Option.{none-ne-some}
use superl8_serve.Api.Files.{Dict, find, assign, discard}
use superl8_serve.Metrics.{
  StatsCollector, ReqState, new_collector, append_bounded, record_step, record_queue_depth,
  record_request_start, record_first_token, record_request_finish, record_itl, or_zero,
}

abbrev pub total : Dict ℕ → ℕ
total [] = 0
total ((k, v) ∷ d) = v + total d

pub total-assign : (k v : ℕ) (d : Dict ℕ) → total (assign k v d) + or_zero (find k d) ≡ total d + v
total-assign k v [] = omega arith
total-assign k v ((j, w) ∷ d) = elim (Bool-cases (j == k)) [
  | inl hit ↦ rw hit (omega arith)
  | inr miss ↦ rw miss (omega (arith, total-assign k v d))
]

-- Whether a test of the first key decides what `find` gives.
find-miss :
    {A : Type 0} (b : Bool) (k : ℕ) (w : A) (d : Dict A) {r : Option A}
    → b ≡ false
    → (if b then some w else find k d) ≡ r
    → find k d ≡ r
find-miss b k w d {r} miss h = subst (λ b. (if b then some w else find k d) ≡ r) miss h

length-assign_old :
    {A : Type 0} (k : ℕ) (v w : A) (d : Dict A)
    → find k d ≡ some w
    → length (assign k v d) ≡ length d
length-assign_old k v w [] old = absurd (none-ne-some w old)
length-assign_old k v w ((j, u) ∷ d) old = elim (Bool-cases (j == k)) [
  | inl hit ↦ rw hit refl
  | inr miss ↦ rw miss (ap suc (length-assign_old k v w d (find-miss (j == k) k u d miss old)))
]

length-assign_new :
    {A : Type 0} (k : ℕ) (v : A) (d : Dict A)
    → find k d ≡ none
    → length (assign k v d) ≡ suc (length d)
length-assign_new k v [] new = refl
length-assign_new k v ((j, w) ∷ d) new = elim (Bool-cases (j == k)) [
  | inl hit ↦
      absurd (none-ne-some w (sym (subst (λ b. (if b then some w else find k d) ≡ none) hit new)))
  | inr miss ↦ rw miss (
      ap suc
        (length-assign_new k v d (subst (λ b. (if b then some w else find k d) ≡ none) miss new)))
]

length-discard_old :
    {A : Type 0} (k : ℕ) (w : A) (d : Dict A)
    → find k d ≡ some w
    → suc (length (discard k d)) ≡ length d
length-discard_old k w [] old = absurd (none-ne-some w old)
length-discard_old k w ((j, u) ∷ d) old = elim (Bool-cases (j == k)) [
  | inl hit ↦ rw hit refl
  | inr miss ↦ rw miss (ap suc (length-discard_old k w d (find-miss (j == k) k u d miss old)))
]

length-discard_new :
    {A : Type 0} (k : ℕ) (d : Dict A) → find k d ≡ none → length (discard k d) ≡ length d
length-discard_new k [] new = refl
length-discard_new k ((j, u) ∷ d) new = elim (Bool-cases (j == k)) [
  | inl hit ↦
      absurd (none-ne-some u (sym (subst (λ b. (if b then some u else find k d) ≡ none) hit new)))
  | inr miss ↦ rw miss (ap suc (length-discard_new k d (find-miss (j == k) k u d miss new)))
]

-- 1 where there is no entry.
abbrev pub missing {ℓ} : {A : Type ℓ} → Option A → ℕ
missing none = 1
missing (some v) = 0

length-discard :
    {A : Type 0} (k : ℕ) (d : Dict A) → length d + missing (find k d) ≡ suc (length (discard k d))
length-discard k d = elim (Option-cases (find k d)) [
  | inl new ↦ rw new (omega (arith, length-discard_new k d new))
  | inr (w, old) ↦ rw old (omega (arith, length-discard_old k w d old))
]

length-append_bounded :
    {A : Type 0} (n : ℕ) (xs : List A) (x : A) → length (append_bounded n xs x) ≤ n
length-append_bounded n xs x =
    omega (arith, length-drop (suc (length xs) - n) (xs ++ (x ∷ [])), length-append xs (x ∷ []))

-- The reasons add up to the finished requests; the requests that started and the finishes of
-- requests that were not in flight, `strays` of them, are those in flight and those finished; and
-- each list of latencies is within its bound.
pub record Counts (bound strays : ℕ) (c : StatsCollector) : Type 0 where
  pub reasons : total c.finish_reasons ≡ c.finished_requests
  pub accounted : c.total_requests + strays ≡ length c.inflight + c.finished_requests
  pub bounded : c.latency_window ≡ bound
  pub ttft : length c.ttft ≤ bound
  pub itl : length c.itl ≤ bound
  pub e2e : length c.e2e ≤ bound

-- The calls, where a request starts under an id that is not in flight. The number says how many
-- finishes of a request that is not in flight the call is, none or one.
pub data Records : StatsCollector → ℕ → StatsCollector → Type 0 where
  steps :
      {c : StatsCollector} (is_prefill : Bool) (num_tokens running waiting dt now : ℕ)
      → Records c 0 (record_step is_prefill num_tokens running waiting dt now c)
  depths :
      {c : StatsCollector} (running waiting : ℕ)
      → Records c 0 (record_queue_depth running waiting c)
  starts :
      {c : StatsCollector} (req_id prompt_tokens now : ℕ)
      → find req_id c.inflight ≡ none
      → Records c 0 (record_request_start req_id prompt_tokens now c)
  first_tokens :
      {c : StatsCollector} (req_id now : ℕ) → Records c 0 (record_first_token req_id now c)
  finishes :
      {c : StatsCollector} (req_id output_tokens reason now : ℕ)
      → Records c
          (missing (find req_id c.inflight))
          (record_request_finish req_id output_tokens reason now c)

pub data Recorded (start : StatsCollector) : ℕ → StatsCollector → Type 0 where
  new : Recorded start 0 start
  next :
      {m n : ℕ} {c d : StatsCollector}
      → Recorded start m c
      → Records c n d
      → Recorded start (m + n) d

record_itl-Counts :
    (bound strays now : ℕ) (st : ReqState) (output_tokens : ℕ) (c : StatsCollector)
    → Counts bound strays c
    → Counts bound strays (record_itl now st output_tokens c)
record_itl-Counts bound strays now st output_tokens c h = elim (Option-cases st.first_token_at) [
  | inl none_yet ↦ rw (record_itl, none_yet) h
  | inr (first, e) ↦ elim (Bool-cases (ltb 1 output_tokens)) [
    | inr few ↦ rw (record_itl, e, few) h
    | inl many ↦
        let fits = length-append_bounded c.latency_window c.itl (now - first, output_tokens - 1) in
        rw (record_itl, e, many)
          (record {
            reasons = h.reasons;
            accounted = h.accounted;
            bounded = h.bounded;
            ttft = h.ttft;
            itl = omega (arith, fits, h.bounded);
            e2e = h.e2e;
          })
  ]
]

record_step-Counts :
    (bound strays : ℕ) (is_prefill : Bool) (n running waiting dt now : ℕ) (c : StatsCollector)
    → Counts bound strays c
    → Counts bound strays (record_step is_prefill n running waiting dt now c)
unfolding record_step
record_step-Counts bound strays true n running waiting dt now c h = record {
  reasons = h.reasons;
  accounted = h.accounted;
  bounded = h.bounded;
  ttft = h.ttft;
  itl = h.itl;
  e2e = h.e2e;
}
record_step-Counts bound strays false n running waiting dt now c h = record {
  reasons = h.reasons;
  accounted = h.accounted;
  bounded = h.bounded;
  ttft = h.ttft;
  itl = h.itl;
  e2e = h.e2e;
}

record_first_token-Counts :
    (bound strays req_id now : ℕ) (c : StatsCollector)
    → Counts bound strays c
    → Counts bound strays (record_first_token req_id now c)
unfolding record_first_token
record_first_token-Counts bound strays req_id now c h =
    elim (Option-cases (find req_id c.inflight)) [
      | inl unknown ↦ rw (record_first_token, unknown) h
      | inr (st, e) ↦ elim (Option-cases st.first_token_at) [
        | inr (first, e') ↦ rw (record_first_token, e, e') h
        | inl none_yet ↦
            let fits = length-append_bounded c.latency_window c.ttft (now - st.start) in
            let same =
              length-assign_old req_id (record st { first_token_at = some now }) st c.inflight e in
            rw (record_first_token, e, none_yet)
              (record {
                reasons = h.reasons;
                accounted = omega (arith, h.accounted, same);
                bounded = h.bounded;
                ttft = omega (arith, fits, h.bounded);
                itl = h.itl;
                e2e = h.e2e;
              })
      ]
    ]

record_request_finish-Counts :
    (bound strays req_id output_tokens reason now : ℕ) (c : StatsCollector)
    → Counts bound strays c
    → Counts bound
        (strays + missing (find req_id c.inflight))
        (record_request_finish req_id output_tokens reason now c)
unfolding record_request_finish
record_request_finish-Counts bound strays req_id output_tokens reason now c h =
    elim (Option-cases (find req_id c.inflight)) [
      | inl unknown ↦
          rw (record_request_finish, unknown) (counted 1 (ap missing unknown) c.e2e h.e2e)
      | inr (st, e) ↦
          let fits = length-append_bounded c.latency_window c.e2e (now - st.start) in
          rw (record_request_finish, e)
            (record_itl-Counts bound _ now st output_tokens _ (
              counted 0 (ap missing e) (append_bounded c.latency_window c.e2e (now - st.start))
                (omega (arith, fits, h.bounded))))
    ]
  where
    counted :
        (stray : ℕ)
        → missing (find req_id c.inflight) ≡ stray
        → (e2e : List ℕ) → length e2e ≤ bound
        → Counts bound (strays + stray) (record c {
          inflight = discard req_id c.inflight;
          finished_requests = c.finished_requests + 1;
          finish_reasons =
              assign reason (or_zero (find reason c.finish_reasons) + 1) c.finish_reasons;
          e2e = e2e;
        })
    counted stray is e2e fits = record {
      reasons = omega (
        arith,
        h.reasons,
        total-assign reason (or_zero (find reason c.finish_reasons) + 1) c.finish_reasons,
      );
      accounted = omega (arith, h.accounted, is, length-discard req_id c.inflight);
      bounded = h.bounded;
      ttft = h.ttft;
      itl = h.itl;
      e2e = fits;
    }

no_stray : (bound m : ℕ) (c : StatsCollector) → Counts bound m c → Counts bound (m + 0) c
no_stray bound m c h = subst (λ k. Counts bound k c) (omega arith) h

Records-Counts :
    (bound m n : ℕ) (c d : StatsCollector)
    → Records c n d
    → Counts bound m c
    → Counts bound (m + n) d
unfolding record_queue_depth record_request_start
Records-Counts bound m _ c _ (steps is_prefill n running waiting dt now) h =
    no_stray bound m _ (record_step-Counts bound m is_prefill n running waiting dt now c h)
Records-Counts bound m _ c _ (depths running waiting) h = record {
  reasons = h.reasons;
  accounted = omega (arith, h.accounted);
  bounded = h.bounded;
  ttft = h.ttft;
  itl = h.itl;
  e2e = h.e2e;
}
Records-Counts bound m _ c _ (starts req_id prompt now fresh) h = record {
  reasons = h.reasons;
  accounted = omega (arith, h.accounted, length-assign_new req_id _ c.inflight fresh);
  bounded = h.bounded;
  ttft = h.ttft;
  itl = h.itl;
  e2e = h.e2e;
}
Records-Counts bound m _ c _ (first_tokens req_id now) h =
    no_stray bound m _ (record_first_token-Counts bound m req_id now c h)
Records-Counts bound m _ c _ (finishes req_id output_tokens reason now) h =
    record_request_finish-Counts bound m req_id output_tokens reason now c h

-- After any calls on a new collector, where a request starts under an id that is not in flight and
-- `strays` of the calls finish a request that is not in flight, the finish reasons add up to the
-- finished requests, the requests that started and the strays are together as many as the requests
-- in flight and the finished ones, and no list of latencies is longer than `latency_window`.
pub Recorded-Counts :
    (window bound strays : ℕ) (c : StatsCollector)
    → Recorded (new_collector window bound) strays c
    → Counts bound strays c
unfolding new_collector
Recorded-Counts window bound _ _ new = record {
  reasons = refl;
  accounted = refl;
  bounded = refl;
  ttft = omega arith;
  itl = omega arith;
  e2e = omega arith;
}
Recorded-Counts window bound _ _ (next {m = m} {n = n} {c = c} {d = d} before call) =
    Records-Counts bound m n c d call (Recorded-Counts window bound m c before)
