-- ===== src/Engine/Graphs/Counts.antt =====
-- engine/cuda_graph.py: the counts of the calls and of the captured graphs.
use superl8_serve.Prelude.{ℕ, suc, ◌+◌, ◌≤◌, ◌≡◌, List, [], ◌∷◌, Option, arith, length}
use superl8_serve.Metrics.{or_zero}
use superl8_serve.Metrics.Counters.{total, total-assign}
use superl8_serve.Api.Files.{find}
use superl8_serve.Engine.Graphs.{GraphedDecode, Miss, code, count_miss, missed, try_decode}
use superl8_serve.Engine.Graphs.Buckets.{
  Turn, misses, replays, captures, Call, misses_early, looks_up, try_decode-Call,
}

-- Every call so far is counted once, and the captures are the graphs, within their limit.
pub record Counted (calls : ℕ) (g : GraphedDecode) : Type 0 where
  pub once : g.replay_count + total g.misses ≡ calls
  pub captured : g.capture_count ≡ length g.graphs
  pub bounded : length g.graphs ≤ g.max_graphs

missed-Counted :
    (calls : ℕ) (reason : Miss) (g : GraphedDecode)
    → Counted calls g
    → Counted (suc calls) (missed reason g).0
unfolding count_miss
missed-Counted calls reason g h = record {
  once = omega (
    arith,
    h.once,
    total-assign (code reason) (or_zero (find (code reason) g.misses) + 1) g.misses,
  );
  captured = h.captured;
  bounded = h.bounded;
}

Turn-Counted :
    (calls : ℕ) (key : ℕ × ℕ) (g : GraphedDecode) (r : GraphedDecode × Option (ℕ × ℕ))
    → Turn key g r
    → Counted calls g
    → Counted (suc calls) r.0
Turn-Counted calls key g _ (misses reason) h = missed-Counted calls reason g h
Turn-Counted calls key g _ (replays there) h = record {
  once = omega (arith, h.once);
  captured = h.captured;
  bounded = h.bounded;
}
Turn-Counted calls key g _ (captures room) h = record {
  once = omega (arith, h.once);
  captured = omega (arith, h.captured);
  bounded = room;
}

Call-Counted :
    (calls limit : ℕ) (lengths : List ℕ) (g : GraphedDecode) (r : GraphedDecode × Option (ℕ × ℕ))
    → Call limit lengths g r
    → Counted calls g
    → Counted (suc calls) r.0
Call-Counted calls limit lengths g _ (misses_early reason) h = missed-Counted calls reason g h
Call-Counted calls limit lengths g r (looks_up bucket wide t) h = Turn-Counted calls _ g r t h

-- The decode steps of a run, each with the lengths of its rows.
abbrev pub decode_all : ℕ → List (List ℕ) → GraphedDecode → GraphedDecode
decode_all limit [] g = g
decode_all limit (lengths ∷ later) g = decode_all limit later (try_decode limit lengths g).0

-- From a state in which the calls are counted, after more of them every call is counted once, as a
-- replay or as a miss, the captures are the graphs that are kept, and there are not more of them than
-- `max_graphs`.
pub decode_all-Counted :
    (calls limit : ℕ) (steps : List (List ℕ)) (g : GraphedDecode)
    → Counted calls g
    → Counted (calls + length steps) (decode_all limit steps g)
decode_all-Counted calls limit [] g h = record {
  once = omega (arith, h.once);
  captured = h.captured;
  bounded = h.bounded;
}
decode_all-Counted calls limit (lengths ∷ later) g h =
    let one = Call-Counted calls limit lengths g _ (try_decode-Call limit lengths g) h in
    let rest = decode_all-Counted (suc calls) limit later (try_decode limit lengths g).0 one in
    record { once = omega (arith, rest.once); captured = rest.captured; bounded = rest.bounded }
