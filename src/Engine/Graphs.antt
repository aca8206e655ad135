-- ===== src/Engine/Graphs.antt =====
-- engine/cuda_graph.py: which captured graph serves a step, and the counts of it. A graph is its key;
-- what is captured and replayed is device code. A batch is given by the lengths of its rows, and
-- `cap` is what a row's blocks hold.
pub mod Buckets
pub mod Counts
pub mod Tests
use superl8_serve.Prelude.{
  ℕ, zero, suc, ◌+◌, ◌-◌, ◌*◌, ◌/◌, min, max, List, [], ◌∷◌, ◌++◌, Option, none, some, Bool, true,
  false, ◌&&◌, ◌||◌, not, if◌then◌else◌, ◌==◌, ltb, leb, length,
}
use superl8_serve.Api.Files.{Dict, find, assign}
use superl8_serve.Metrics.{or_zero}

unfoldable pub next_bucket : List ℕ → ℕ → Option ℕ
next_bucket [] n = none
next_bucket (b ∷ buckets) n = if leb n b then some b else next_bucket buckets n

unfoldable pub round_up : ℕ → ℕ → ℕ
round_up n multiple = (n + multiple - 1) / multiple * multiple

-- The reasons of a miss, as the keys of a dict of counts.
pub data Miss : Type 0 where
  unsupported empty_batch batch_over_bucket graph_cap over_bucket capture_failed : Miss

abbrev pub code : Miss → ℕ
code Miss.unsupported = 0
code Miss.empty_batch = 1
code Miss.batch_over_bucket = 2
code Miss.graph_cap = 3
code Miss.over_bucket = 4
code Miss.capture_failed = 5

unfoldable pub count_miss : Miss → Dict ℕ → Dict ℕ
count_miss reason misses = assign (code reason) (or_zero (find (code reason) misses) + 1) misses

abbrev pub largest : List ℕ → ℕ
largest [] = 0
largest (n ∷ ns) = max n (largest ns)

pub record GraphedDecode : Type 0 where
  pub supported : Bool
  pub batch_buckets : List ℕ
  pub context_bucket_size : ℕ
  pub max_graphs : ℕ
  pub graphs : List (ℕ × ℕ)
  pub replay_count : ℕ
  pub capture_count : ℕ
  pub misses : Dict ℕ

abbrev pub has_graph : ℕ × ℕ → List (ℕ × ℕ) → Bool
has_graph (b, c) [] = false
has_graph (b, c) ((b', c') ∷ graphs) = ((b == b') && (c == c')) || has_graph (b, c) graphs

-- `_record_miss` and the `None` after it.
abbrev pub missed : Miss → GraphedDecode → GraphedDecode × Option (ℕ × ℕ)
missed reason g = (record g { misses = count_miss reason g.misses }, none)

abbrev pub replayed : ℕ × ℕ → GraphedDecode → GraphedDecode × Option (ℕ × ℕ)
replayed key g = (record g { replay_count = g.replay_count + 1 }, some key)

-- From the look-up of the key on.
unfoldable pub serve_key : ℕ × ℕ → GraphedDecode → GraphedDecode × Option (ℕ × ℕ)
unfolding count_miss
serve_key key g =
    if has_graph key g.graphs
    then replayed key g
    else if leb g.max_graphs (length g.graphs)
    then missed Miss.graph_cap g
    else replayed key (record g { graphs = key ∷ g.graphs; capture_count = g.capture_count + 1 })

abbrev pub context_bucket : ℕ → ℕ → ℕ → ℕ
context_bucket size cap real_ctx = min (round_up real_ctx size) cap

-- From the batch bucket on.
abbrev pub of_bucket : ℕ → List ℕ → GraphedDecode → Option ℕ → GraphedDecode × Option (ℕ × ℕ)
of_bucket cap lengths g none = missed Miss.batch_over_bucket g
of_bucket cap lengths g (some batch_bucket) =
    serve_key (batch_bucket, context_bucket g.context_bucket_size cap (largest lengths + 1)) g

-- The graph that is replayed, or `none`.
unfoldable pub try_decode : ℕ → List ℕ → GraphedDecode → GraphedDecode × Option (ℕ × ℕ)
unfolding serve_key next_bucket count_miss round_up
try_decode cap lengths g = if not g.supported then missed Miss.unsupported g else elim lengths [
  | [] ↦ missed Miss.empty_batch g
  | n ∷ ns ↦ of_bucket cap (n ∷ ns) g (next_bucket g.batch_buckets (length (n ∷ ns)))
]

pub record GraphedVerify : Type 0 where
  pub supported : Bool
  pub batch_buckets : List ℕ
  pub context_bucket_size : ℕ
  pub max_graphs : ℕ
  pub graphs : List (ℕ × (ℕ × ℕ))

abbrev pub has_verify : ℕ × (ℕ × ℕ) → List (ℕ × (ℕ × ℕ)) → Bool
has_verify (b, (c, s)) [] = false
has_verify (b, (c, s)) ((b', (c', s')) ∷ graphs) =
    ((b == b') && ((c == c') && (s == s'))) || has_verify (b, (c, s)) graphs

unfoldable pub serve_verify : ℕ × (ℕ × ℕ) → GraphedVerify → GraphedVerify × Option (ℕ × (ℕ × ℕ))
serve_verify key g =
    if has_verify key g.graphs
    then (g, some key)
    else if leb g.max_graphs (length g.graphs)
    then (g, none)
    else (record g { graphs = key ∷ g.graphs }, some key)

-- `width` is the number of tokens that a row verifies.
unfoldable pub try_run : ℕ → ℕ → List ℕ → GraphedVerify → GraphedVerify × Option (ℕ × (ℕ × ℕ))
unfolding serve_verify next_bucket round_up
try_run cap width [] g = (g, none)
try_run cap width (n ∷ ns) g =
    if not g.supported then (g, none) else elim (next_bucket g.batch_buckets (length (n ∷ ns))) [
      | none ↦ (g, none)
      | some batch_bucket ↦
          let real_ctx = largest (n ∷ ns) + 1 + width in
          if ltb cap real_ctx
          then (g, none)
          else serve_verify
              (batch_bucket, (context_bucket g.context_bucket_size cap real_ctx, width)) g
    ]

pub record GraphedPrefill : Type 0 where
  pub supported : Bool
  pub seq_buckets : List ℕ
  pub max_graphs : ℕ
  pub graphs : List ℕ
  pub replay_count : ℕ
  pub capture_count : ℕ
  pub misses : Dict ℕ

abbrev pub has_bucket : ℕ → List ℕ → Bool
has_bucket b [] = false
has_bucket b (c ∷ graphs) = (b == c) || has_bucket b graphs

abbrev pub prefill_missed : Miss → GraphedPrefill → GraphedPrefill × Option ℕ
prefill_missed reason g = (record g { misses = count_miss reason g.misses }, none)

abbrev pub prefill_replayed : ℕ → GraphedPrefill → GraphedPrefill × Option ℕ
prefill_replayed bucket g = (record g { replay_count = g.replay_count + 1 }, some bucket)

-- `captures` says whether `_capture` of a bucket succeeds.
unfoldable pub try_prefill : (ℕ → Bool) → ℕ → GraphedPrefill → GraphedPrefill × Option ℕ
unfolding next_bucket count_miss
try_prefill captures num_prompt g =
    if not g.supported
    then prefill_missed Miss.unsupported g
    else elim (next_bucket g.seq_buckets num_prompt) [
      | none ↦ prefill_missed Miss.over_bucket g
      | some bucket ↦
          if has_bucket bucket g.graphs
          then prefill_replayed bucket g
          else if leb g.max_graphs (length g.graphs)
          then prefill_missed Miss.graph_cap g
          else if captures bucket
          then prefill_replayed bucket
              (record g { graphs = bucket ∷ g.graphs; capture_count = g.capture_count + 1 })
          else prefill_missed Miss.capture_failed g
    ]
