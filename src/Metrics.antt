-- ===== src/Metrics.antt =====
-- metrics.py: the counters and windows of StatsCollector. A time is a number of ticks of
-- `perf_counter`, latencies are in ticks, and a quotient is the pair of its terms; a finish reason is
-- named by a number. The banner, the batching gauges and the readings of the GPU are left out.
pub mod Window
pub mod Counters
pub mod Tests
use superl8_serve.Prelude.{
  ℕ, zero, suc, ◌+◌, ◌-◌, ◌*◌, ◌/◌, ◌%◌, min, max, List, [], ◌∷◌, ◌++◌, Option, none, some, Bool,
  true, false, if◌then◌else◌, ◌==◌, ltb, leb, length, drop, get_or,
}
use superl8_serve.Api.Files.{Dict, find, assign, discard}

-- `round(a / b)`, which takes the even one of two nearest numbers.
unfoldable pub round : ℕ → ℕ → ℕ
round a b =
    if ltb (2 * (a % b)) b
    then a / b
    else if ltb b (2 * (a % b))
    then a / b + 1
    else a / b + (a / b) % 2

-- `_percentile` for `q` of a hundred.
unfoldable pub percentile : List ℕ → ℕ → ℕ
unfolding round
percentile [] q = 0
percentile (x ∷ []) q = x
percentile (x ∷ y ∷ vals) q =
    let last = suc (length vals) in get_or (x ∷ y ∷ vals) (min (round (q * last) 100) last) 0

pub record Sample : Type 0 where
  pub time : ℕ
  pub tokens : ℕ
  pub dt : ℕ

pub record ThroughputWindow : Type 0 where
  pub window : ℕ
  pub samples : List Sample

-- The `while` of `_evict`: the time is below `now - window`.
unfoldable pub evict_old : ℕ → ℕ → List Sample → List Sample
evict_old window now [] = []
evict_old window now (s ∷ samples) =
    let rest = evict_old window now samples in
    if ltb (s.time + window) now then rest else s ∷ samples

unfoldable pub add_sample : ℕ → ℕ → ℕ → ThroughputWindow → ThroughputWindow
unfolding evict_old
add_sample tokens dt now w = record w {
  samples =
      evict_old w.window now (w.samples ++ (record { time = now; tokens = tokens; dt = dt } ∷ []));
}

abbrev pub sum_tokens : List Sample → ℕ
sum_tokens [] = 0
sum_tokens (s ∷ samples) = s.tokens + sum_tokens samples

abbrev pub sum_dt : List Sample → ℕ
sum_dt [] = 0
sum_dt (s ∷ samples) = s.dt + sum_dt samples

-- Tokens and the time in which they were produced; `none` is the rate 0.0 of no time.
unfoldable pub rate : ℕ → ThroughputWindow → ThroughputWindow × Option (ℕ × ℕ)
unfolding evict_old
rate now w =
    let kept = evict_old w.window now w.samples in
    (
      record w { samples = kept },
      if ltb 0 (sum_dt kept) then some (sum_tokens kept, sum_dt kept) else none,
    )

pub record ReqState : Type 0 where
  pub start : ℕ
  pub prompt_tokens : ℕ
  pub first_token_at : Option ℕ

pub record StatsCollector : Type 0 where
  pub total_requests : ℕ
  pub finished_requests : ℕ
  pub prompt_tokens_total : ℕ
  pub output_tokens_total : ℕ
  pub prefill_tokens_total : ℕ
  pub finish_reasons : Dict ℕ
  pub prefill_win : ThroughputWindow
  pub decode_win : ThroughputWindow
  pub latency_window : ℕ
  pub ttft : List ℕ
  pub itl : List (ℕ × ℕ)
  pub e2e : List ℕ
  pub inflight : Dict ReqState
  pub running : ℕ
  pub waiting : ℕ

unfoldable pub new_collector : ℕ → ℕ → StatsCollector
new_collector window latency_window = record {
  total_requests = 0;
  finished_requests = 0;
  prompt_tokens_total = 0;
  output_tokens_total = 0;
  prefill_tokens_total = 0;
  finish_reasons = [];
  prefill_win = record { window = window; samples = [] };
  decode_win = record { window = window; samples = [] };
  latency_window = latency_window;
  ttft = [];
  itl = [];
  e2e = [];
  inflight = [];
  running = 0;
  waiting = 0;
}

-- `append` of a `deque` with a greatest length.
abbrev pub append_bounded {ℓ} : {A : Type ℓ} → ℕ → List A → A → List A
append_bounded maxlen xs x = drop (suc (length xs) - maxlen) (xs ++ (x ∷ []))

unfoldable pub record_step : Bool → ℕ → ℕ → ℕ → ℕ → ℕ → StatsCollector → StatsCollector
unfolding add_sample
record_step is_prefill num_tokens running waiting dt now c =
    if is_prefill
    then record c {
      running = running;
      waiting = waiting;
      prefill_tokens_total = c.prefill_tokens_total + num_tokens;
      prefill_win = add_sample num_tokens dt now c.prefill_win;
    }
    else record c {
      running = running;
      waiting = waiting;
      output_tokens_total = c.output_tokens_total + num_tokens;
      decode_win = add_sample num_tokens dt now c.decode_win;
    }

unfoldable pub record_queue_depth : ℕ → ℕ → StatsCollector → StatsCollector
record_queue_depth running waiting c = record c { running = running; waiting = waiting }

unfoldable pub record_request_start : ℕ → ℕ → ℕ → StatsCollector → StatsCollector
record_request_start req_id prompt_tokens now c =
    let st : ReqState = record {
      start = now;
      prompt_tokens = prompt_tokens;
      first_token_at = none;
    } in
    record c {
      total_requests = c.total_requests + 1;
      prompt_tokens_total = c.prompt_tokens_total + prompt_tokens;
      inflight = assign req_id st c.inflight;
    }

unfoldable pub record_first_token : ℕ → ℕ → StatsCollector → StatsCollector
record_first_token req_id now c = elim (find req_id c.inflight) [
  | none ↦ c
  | some st ↦ elim st.first_token_at [
    | some _ ↦ c
    | none ↦ record c {
      inflight = assign req_id (record st { first_token_at = some now }) c.inflight;
      ttft = append_bounded c.latency_window c.ttft (now - st.start);
    }
  ]
]

abbrev pub or_zero : Option ℕ → ℕ
or_zero none = 0
or_zero (some n) = n

abbrev pub record_itl : ℕ → ReqState → ℕ → StatsCollector → StatsCollector
record_itl now st output_tokens c = elim st.first_token_at [
  | none ↦ c
  | some first ↦
      if ltb 1 output_tokens
      then record c { itl = append_bounded c.latency_window c.itl (now - first, output_tokens - 1) }
      else c
]

unfoldable pub record_request_finish : ℕ → ℕ → ℕ → ℕ → StatsCollector → StatsCollector
record_request_finish req_id output_tokens reason now c =
    let counted : StatsCollector = record c {
      inflight = discard req_id c.inflight;
      finished_requests = c.finished_requests + 1;
      finish_reasons = assign reason (or_zero (find reason c.finish_reasons) + 1) c.finish_reasons;
    } in
    elim (find req_id c.inflight) [
      | none ↦ counted
      | some st ↦
          record_itl now st output_tokens
            (record counted { e2e = append_bounded c.latency_window c.e2e (now - st.start) })
    ]
