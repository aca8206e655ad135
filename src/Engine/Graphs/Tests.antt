-- ===== src/Engine/Graphs/Tests.antt =====
-- engine/cuda_graph.py: steps of a small batch, and examples of the theorems.
use superl8_serve.Prelude.{ℕ, ◌≡◌, refl, List, [], ◌∷◌, none, some, true, arith}
use superl8_serve.Engine.Graphs.{
  GraphedDecode, GraphedVerify, GraphedPrefill, next_bucket, round_up, count_miss, serve_key,
  try_decode, serve_verify, try_run, try_prefill,
}
use superl8_serve.Engine.Graphs.Buckets.{Serves, try_decode-Serves}
use superl8_serve.Engine.Graphs.Counts.{Counted, decode_all, decode_all-Counted}

abbrev decoder : GraphedDecode
decoder = record {
  supported = true;
  batch_buckets = 1 ∷ 2 ∷ 4 ∷ [];
  context_bucket_size = 16;
  max_graphs = 2;
  graphs = [];
  replay_count = 0;
  capture_count = 0;
  misses = [];
}

abbrev rows : List ℕ
rows = 5 ∷ 20 ∷ 3 ∷ []

rows_key : (try_decode 64 rows decoder).1 ≡ some (4, 32)
unfolding try_decode serve_key next_bucket round_up count_miss
rows_key = refl

try_decode-Serves_example : Serves 64 rows (4, 32) (try_decode 64 rows decoder).0
try_decode-Serves_example =
    try_decode-Serves 64 rows decoder (4, 32) (omega arith) (omega arith) rows_key

decode_all-Counted_example :
    Counted 3 (decode_all 64 (rows ∷ (1 ∷ []) ∷ (60 ∷ 61 ∷ []) ∷ []) decoder)
decode_all-Counted_example =
    decode_all-Counted 0 64 (rows ∷ (1 ∷ []) ∷ (60 ∷ 61 ∷ []) ∷ []) decoder
      (record { once = refl; captured = refl; bounded = omega arith })

-- A verify step whose tokens do not fit into the blocks is not served.
abbrev verifier : GraphedVerify
verifier = record {
  supported = true;
  batch_buckets = 1 ∷ 2 ∷ [];
  context_bucket_size = 16;
  max_graphs = 1;
  graphs = [];
}

verify_deep : (try_run 64 4 (60 ∷ []) verifier).1 ≡ none
unfolding try_run serve_verify next_bucket round_up
verify_deep = refl

verify_fits : (try_run 64 4 (20 ∷ []) verifier).1 ≡ some (1, (32, 4))
unfolding try_run serve_verify next_bucket round_up
verify_fits = refl

abbrev prefiller : GraphedPrefill
prefiller = record {
  supported = true;
  seq_buckets = 8 ∷ 32 ∷ [];
  max_graphs = 1;
  graphs = [];
  replay_count = 0;
  capture_count = 0;
  misses = [];
}

prefill_fits : (try_prefill (λ b. true) 9 prefiller).1 ≡ some 32
unfolding try_prefill next_bucket count_miss
prefill_fits = refl
