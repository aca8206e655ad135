-- ===== src/Metrics/Tests.antt =====
-- metrics.py: runs of the window and the counters, and examples of their theorems.
use superl8_serve.Prelude.{◌≡◌, refl, List, [], ◌∷◌, some, true, arith}
use superl8_serve.Metrics.{
  Sample, StatsCollector, new_collector, percentile, round, rate, record_step, record_request_start,
  record_first_token, record_request_finish,
}
use superl8_serve.Metrics.Window.{recent, rate_of, add_all, rate-recent}
use superl8_serve.Metrics.Counters.{
  Counts, new, next, steps, starts, first_tokens, finishes, Recorded-Counts,
}

abbrev history : List Sample
history =
    record { time = 2; tokens = 10; dt = 1 }
    ∷ record { time = 4; tokens = 20; dt = 2 }
    ∷ record { time = 9; tokens = 5; dt = 1 }
    ∷ []

rate-recent_example :
    (rate 10 (add_all history (record { window = 6; samples = [] }))).1
    ≡ rate_of (recent 6 10 history)
rate-recent_example =
    rate-recent 6 10 history (omega arith, (omega arith, (omega arith, tt))) (omega arith)

rate_value : rate_of (recent 6 10 history) ≡ some (25, 3)
rate_value = refl

-- `round` of two and a half is two.
percentile_value : percentile (4 ∷ 7 ∷ 9 ∷ 12 ∷ 15 ∷ 20 ∷ []) 50 ≡ 9
unfolding percentile round
percentile_value = refl

abbrev collector : StatsCollector
collector = new_collector 5 2

Recorded-Counts_example : Counts 2 0 (
    record_request_finish 7 3 0 9 (
      record_first_token 7 4 (record_step true 12 1 0 2 3 (record_request_start 7 12 1 collector))))
unfolding new_collector record_request_start record_step record_first_token
Recorded-Counts_example = Recorded-Counts 5 2 0 _ (
    next (next (next (next new (starts 7 12 1 refl)) (steps true 12 1 0 2 3)) (first_tokens 7 4))
      (finishes 7 3 0 9))
