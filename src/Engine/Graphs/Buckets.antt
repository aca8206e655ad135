-- ===== src/Engine/Graphs/Buckets.antt =====
-- engine/cuda_graph.py: the graph that is replayed is wide and deep enough for the batch.
use superl8_serve.Prelude.{
  ℕ, suc, ◌+◌, ◌-◌, ◌≤◌, ◌<◌, ◌≡◌, refl, sym, ap, subst, ◌∙◌, List, [], ◌∷◌, Option, none, some,
  Bool, true, false, ◌&&◌, not, if◌then◌else◌, ◌==◌, ==_iff, leb, arith, length, Bool-cases,
  Option-cases, inl, inr,
}
use native.Mathlib.Nat.{lt-div-mul-add}
use mathlib.Core.Option.{some_inj, none-ne-some}
use mathlib.Core.Bool.{true≢false}
use superl8_serve.Engine.Graphs.{
  GraphedDecode, Miss, next_bucket, round_up, largest, has_graph, missed, replayed, serve_key,
  context_bucket, try_decode, of_bucket,
}

next_bucket-fits : (buckets : List ℕ) (n b : ℕ) → next_bucket buckets n ≡ some b → n ≤ b
unfolding next_bucket
next_bucket-fits [] n b h = absurd (none-ne-some b h)
next_bucket-fits (c ∷ buckets) n b h = elim (Bool-cases (leb n c)) [
  | inl fits ↦
      let same : c ≡ b =
        some_inj.0 (subst (λ t. (if t then some c else next_bucket buckets n) ≡ some b) fits h) in
      ground (arith, fits, same)
  | inr small ↦
      next_bucket-fits buckets n b
        (subst (λ t. (if t then some c else next_bucket buckets n) ≡ some b) small h)
]

round_up-le : (n multiple : ℕ) → 0 < multiple → n ≤ round_up n multiple
unfolding round_up
round_up-le n multiple positive =
    omega (arith, lt-div-mul-add {a = n + multiple - 1} {b = multiple} positive, positive)

-- What the look-up of a key does: it counts a miss, or a replay of the key's graph, which is there or
-- is captured.
pub data Turn (key : ℕ × ℕ) (g : GraphedDecode) : GraphedDecode × Option (ℕ × ℕ) → Type 0 where
  misses : (reason : Miss) → Turn key g (missed reason g)
  replays : has_graph key g.graphs ≡ true → Turn key g (replayed key g)
  captures :
      suc (length g.graphs) ≤ g.max_graphs
      → Turn key g
          (replayed key (record g { graphs = key ∷ g.graphs; capture_count = g.capture_count + 1 }))

serve_key-Turn : (key : ℕ × ℕ) (g : GraphedDecode) → Turn key g (serve_key key g)
unfolding serve_key
serve_key-Turn key g = elim (Bool-cases (has_graph key g.graphs)) [
  | inl there ↦ subst (Turn key g) (sym (go_there there)) (replays there)
  | inr absent ↦ elim (Bool-cases (leb g.max_graphs (length g.graphs))) [
    | inl full ↦ subst (Turn key g) (sym (go_full absent full)) (misses Miss.graph_cap)
    | inr room ↦ subst (Turn key g) (sym (go_room absent room)) (captures (ground (arith, room)))
  ]
]
  where
    go_there : has_graph key g.graphs ≡ true → serve_key key g ≡ replayed key g
    go_there there = rw (serve_key, there) refl

    go_full :
        has_graph key g.graphs ≡ false
        → leb g.max_graphs (length g.graphs) ≡ true
        → serve_key key g ≡ missed Miss.graph_cap g
    go_full absent full = rw (serve_key, absent, full) refl

    go_room :
        has_graph key g.graphs ≡ false
        → leb g.max_graphs (length g.graphs) ≡ false
        → serve_key key g
          ≡ replayed key (record g { graphs = key ∷ g.graphs; capture_count = g.capture_count + 1 })
    go_room absent room = rw (serve_key, absent, room) refl

-- A call counts a miss, or looks up a key whose batch holds the rows.
pub data Call (cap : ℕ) (lengths : List ℕ) (g : GraphedDecode)
    : GraphedDecode × Option (ℕ × ℕ) → Type 0 where
  misses_early : (reason : Miss) → Call cap lengths g (missed reason g)
  looks_up :
      {r : GraphedDecode × Option (ℕ × ℕ)} (bucket : ℕ)
      → length lengths ≤ bucket
      → Turn (bucket, context_bucket g.context_bucket_size cap (largest lengths + 1)) g r
      → Call cap lengths g r

if_on : {A : Type 0} (b : Bool) (x y : A) → b ≡ true → (if not b then x else y) ≡ y
if_on true x y h = refl
if_on false x y h = absurd (true≢false (sym h))

module _ (limit n : ℕ) (ns : List ℕ) (g : GraphedDecode) (on : g.supported ≡ true) where
  decode_wide :
      next_bucket g.batch_buckets (length (n ∷ ns)) ≡ none
      → try_decode limit (n ∷ ns) g ≡ missed Miss.batch_over_bucket g
  unfolding try_decode
  decode_wide wide =
      if_on g.supported (missed Miss.unsupported g) _ on ∙ ap (of_bucket limit (n ∷ ns) g) wide

  decode_key :
      (bucket : ℕ)
      → next_bucket g.batch_buckets (length (n ∷ ns)) ≡ some bucket
      → try_decode limit (n ∷ ns) g
        ≡ serve_key (bucket, context_bucket g.context_bucket_size limit (largest (n ∷ ns) + 1)) g
  unfolding try_decode
  decode_key bucket e =
      if_on g.supported (missed Miss.unsupported g) _ on ∙ ap (of_bucket limit (n ∷ ns) g) e

decode_off :
    (limit : ℕ) (lengths : List ℕ) (g : GraphedDecode)
    → g.supported ≡ false
    → try_decode limit lengths g ≡ missed Miss.unsupported g
unfolding try_decode
decode_off limit lengths g off = rw (try_decode, off) refl

decode_nothing :
    (limit : ℕ) (g : GraphedDecode)
    → g.supported ≡ true
    → try_decode limit [] g ≡ missed Miss.empty_batch g
unfolding try_decode
decode_nothing limit g on = rw (try_decode, on) refl

pub try_decode-Call :
    (limit : ℕ) (lengths : List ℕ) (g : GraphedDecode)
    → Call limit lengths g (try_decode limit lengths g)
try_decode-Call limit lengths g = elim (Bool-cases g.supported) [
  | inr off ↦
      subst (Call limit lengths g) (sym (decode_off limit lengths g off))
        (misses_early Miss.unsupported)
  | inl on ↦ supported lengths on
]
  where
    supported : (rows : List ℕ) → g.supported ≡ true → Call limit rows g (try_decode limit rows g)
    supported [] on =
        subst (Call limit [] g) (sym (decode_nothing limit g on)) (misses_early Miss.empty_batch)
    supported (n ∷ ns) on = elim (Option-cases (next_bucket g.batch_buckets (length (n ∷ ns)))) [
      | inl wide ↦
          subst (Call limit (n ∷ ns) g) (sym (decode_wide limit n ns g on wide))
            (misses_early Miss.batch_over_bucket)
      | inr (bucket, e) ↦
          subst (Call limit (n ∷ ns) g) (sym (decode_key limit n ns g on bucket e))
            (looks_up bucket (next_bucket-fits g.batch_buckets _ bucket e) (serve_key-Turn _ g))
    ]

pub record Serves (limit : ℕ) (lengths : List ℕ) (key : ℕ × ℕ) (g : GraphedDecode) : Type 0 where
  pub wide : length lengths ≤ key.0
  pub deep : largest lengths + 1 ≤ key.1
  pub capped : key.1 ≤ limit
  pub kept : has_graph key g.graphs ≡ true

same_key : (b c : ℕ) → ((b == b) && (c == c)) ≡ true
same_key b c = rw ((==_iff b b).1 refl, (==_iff c c).1 refl) refl

Turn-kept :
    (key k : ℕ × ℕ) (g : GraphedDecode) (r : GraphedDecode × Option (ℕ × ℕ))
    → Turn key g r
    → r.1 ≡ some k
    → (key ≡ k) × (has_graph key r.0.graphs ≡ true)
Turn-kept key k g _ (misses reason) h = absurd (none-ne-some k h)
Turn-kept key k g _ (replays there) h = (some_inj.0 h, there)
Turn-kept (b, c) k g _ (captures room) h = (some_inj.0 h, rw (same_key b c) refl)

-- Where the context buckets have a width and the longest row and its new token fit into the blocks of
-- a row, the graph that serves a batch is kept, has a row for each of the batch, and a context that
-- holds the longest row and its new token and is within the blocks.
pub try_decode-Serves :
    (limit : ℕ) (lengths : List ℕ) (g : GraphedDecode) (key : ℕ × ℕ)
    → 0 < g.context_bucket_size
    → largest lengths + 1 ≤ limit
    → (try_decode limit lengths g).1 ≡ some key
    → Serves limit lengths key (try_decode limit lengths g).0
try_decode-Serves limit lengths g key positive within h =
    of_call (try_decode limit lengths g) (try_decode-Call limit lengths g) h
  where
    of_call :
        (r : GraphedDecode × Option (ℕ × ℕ))
        → Call limit lengths g r
        → r.1 ≡ some key
        → Serves limit lengths key r.0
    of_call _ (misses_early reason) e = absurd (none-ne-some key e)
    of_call r (looks_up bucket wide t) e =
        let (same, kept) = Turn-kept _ key g r t e in
        let deep = round_up-le (largest lengths + 1) g.context_bucket_size positive in
        subst (λ k. Serves limit lengths k r.0) same
          (record {
            wide = wide;
            deep = omega (arith, deep, within);
            capped = omega arith;
            kept = kept;
          })
