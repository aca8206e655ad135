-- ===== src/Dist/Entropy/Normalize/Whole.antt =====
-- dist/entropy.py: the table that _normalize_freqs makes, and the coder with it.
use native.Mathlib.Nat.{mul_comm}
use superl8_serve.Prelude.{
  ℕ, zero, suc, ◌+◌, ◌-◌, ◌*◌, ◌≤◌, ◌<◌, ◌≡◌, refl, ap, ◌∙◌, List, [], ◌∷◌, map, Option, some, true,
  false, leb, leb→le, arith, length, length-map, get_or, count, All, All-mono, Bool-cases, inl, inr,
}
use superl8_serve.Dist.Entropy.{mass, decode}
use superl8_serve.Dist.Entropy.Step.{sum, Codes}
use superl8_serve.Dist.Entropy.RoundTrip.{decode-encode}
use superl8_serve.Dist.Entropy.Normalize.{
  alphabet_size, n_present, scaled, give, take_back, normalize_freqs, bincount_from, bincount,
  encode_symbols,
}
use superl8_serve.Dist.Entropy.Normalize.Order.{Descends, turn-present, turn-known}
use superl8_serve.Dist.Entropy.Normalize.Settle.{
  Settled, Excess, waits, give-Settled, take_back-Returns,
}

get_or-scaled :
    (all : ℕ) (counts : List ℕ) (s : ℕ)
    → get_or (map (scaled all) counts) s 0 ≡ scaled all (get_or counts s 0)
get_or-scaled all [] s = refl
get_or-scaled all (c ∷ counts) zero = refl
get_or-scaled all (c ∷ counts) (suc s) = get_or-scaled all counts s

n_present-sum : (counts : List ℕ) → 0 < sum counts → 0 < n_present counts
n_present-sum [] h = h
n_present-sum (zero ∷ counts) h = omega (arith, n_present-sum counts (omega (arith, h)))
n_present-sum (suc c ∷ counts) h = ground arith

sum-get : (counts : List ℕ) (s : ℕ) → get_or counts s 0 ≤ sum counts
sum-get [] s = omega arith
sum-get (c ∷ counts) zero = omega arith
sum-get (c ∷ counts) (suc s) = omega (arith, sum-get counts s)

-- The table of a text: it is normalised, and each present symbol has slots.
pub record Table (argsort : List ℕ → List ℕ) (counts : List ℕ) : Type 0 where
  pub freqs : List ℕ
  pub returns : normalize_freqs argsort counts ≡ some freqs
  pub normal : sum freqs ≡ mass
  pub size : length freqs ≡ length counts
  pub slots : (s : ℕ) → 0 < get_or counts s 0 → 0 < get_or freqs s 0

module _ (argsort : List ℕ → List ℕ) (counts : List ℕ) (d : Descends counts (argsort counts))
    (some_count : 0 < sum counts) where
  abbrev unsettled : List ℕ
  unsettled = map (scaled (sum counts)) counts

  unsettled-size : length unsettled ≡ length counts
  unsettled-size = length-map (scaled (sum counts)) counts

  scaled-present : (s : ℕ) → 0 < get_or counts s 0 → 0 < get_or unsettled s 0
  scaled-present s h = ground (arith, h, get_or-scaled (sum counts) counts s)

  present-scaled : (s : ℕ) → 0 < get_or unsettled s 0 → 0 < get_or counts s 0
  present-scaled s h = ground (arith, h, get_or-scaled (sum counts) counts s)

  Settled-Table :
      (freqs : List ℕ)
      → normalize_freqs argsort counts ≡ some freqs
      → Settled unsettled freqs
      → Table argsort counts
  Settled-Table freqs returns t = record {
    freqs = freqs;
    returns = returns;
    normal = t.normal;
    size = t.size ∙ unsettled-size;
    slots = λ s h. t.keeps s (scaled-present s h);
  }

  abbrev given : List ℕ
  given = give (argsort counts) (n_present counts) (mass - sum unsettled) 0 unsettled

  normalize_give : leb (sum unsettled) mass ≡ true → normalize_freqs argsort counts ≡ some given
  unfolding normalize_freqs
  normalize_give h = ground (arith, h, some_count)

  abbrev taken : Option (List ℕ)
  taken =
      take_back (argsort counts) (n_present counts) (n_present counts * (sum unsettled - mass))
        (sum unsettled - mass) 0 unsettled

  normalize_take : leb (sum unsettled) mass ≡ false → normalize_freqs argsort counts ≡ taken
  unfolding normalize_freqs
  normalize_take h = ground (arith, h, some_count)

  -- For counts of at most 4096 symbols that are not all zero, and an argsort of them, the loop that
  -- corrects the sum ends within a round of the present symbols for each unit of the difference, and
  -- the table has an entry for each symbol, sums to 4096 and has slots for every present symbol.
  pub normalize_freqs-Table : length counts ≤ mass → Table argsort counts
  normalize_freqs-Table small =
      let some_present = n_present-sum counts some_count in
      let known = turn-known counts (argsort counts) d in
      elim (Bool-cases (leb (sum unsettled) mass)) [
        | inl room ↦
            let le = leb→le (sum unsettled) mass room in
            Settled-Table given (normalize_give room) (
              give-Settled (argsort counts) (n_present counts) (length counts) some_present known
                (mass - sum unsettled) 0 unsettled unsettled-size (omega (arith, le)))
        | inr excess ↦
            let over : mass < sum unsettled = ground arith in
            let e : Excess (argsort counts) (n_present counts) (length counts) some_present known
                (sum unsettled - mass) unsettled =
              record {
                size = unsettled-size;
                all = omega (arith, over);
                turn = λ s h.
                    turn-present counts (argsort counts) d s (present-scaled s (omega (arith, h)));
              } in
            let r =
              take_back-Returns (argsort counts) (n_present counts) (length counts) some_present
                known (n_present counts * (sum unsettled - mass)) (sum unsettled - mass) 0 unsettled
                small e
                (waits (argsort counts) (n_present counts) (length counts) some_present known
                  (n_present counts * (sum unsettled - mass)) (sum unsettled - mass) 0 unsettled
                  small e (omega (arith, mul_comm (n_present counts) (sum unsettled - mass)))) in
            Settled-Table r.table (normalize_take excess ∙ r.returns) r.settled
      ]

length-bincount_from : (s k : ℕ) (symbols : List ℕ) → length (bincount_from s k symbols) ≡ k
length-bincount_from s zero symbols = refl
length-bincount_from s (suc k) symbols = ap suc (length-bincount_from (s + 1) k symbols)

get_or-bincount_from :
    (s k i : ℕ) (symbols : List ℕ)
    → i < k
    → get_or (bincount_from s k symbols) i 0 ≡ count (s + i) symbols
get_or-bincount_from s zero i symbols h = elim h [ ]
get_or-bincount_from s (suc k) zero symbols h = ap (λ a. count a symbols) (omega arith)
get_or-bincount_from s (suc k) (suc i) symbols h =
    get_or-bincount_from (s + 1) k i symbols (omega arith)
    ∙ ap (λ a. count a symbols) {x = s + 1 + i} {y = s + suc i} (omega arith)

length-bincount : (symbols : List ℕ) → length (bincount symbols) ≡ alphabet_size
unfolding bincount
length-bincount symbols = length-bincount_from 0 alphabet_size symbols

get_or-bincount :
    (s : ℕ) (symbols : List ℕ) → s < alphabet_size → get_or (bincount symbols) s 0 ≡ count s symbols
unfolding bincount
get_or-bincount s symbols h =
    get_or-bincount_from 0 alphabet_size s symbols h ∙ ap (λ a. count a symbols) (omega arith)

-- A byte that stands in the text.
abbrev Stands : List ℕ → ℕ → Type 0
Stands symbols s = (s < alphabet_size) × (0 < count s symbols)

stand :
    (back symbols : List ℕ)
    → ((s : ℕ) → count s back ≤ count s symbols)
    → All (λ s. s < alphabet_size) back
    → All (Stands symbols) back
stand [] symbols within small = tt
stand (s ∷ back) symbols within small =
    ((small.0, ground (arith, within s)), stand back symbols (λ a. omega (arith, within a)) small.1)

codes :
    (argsort : List ℕ → List ℕ) (symbols : List ℕ) (t : Table argsort (bincount symbols)) (s : ℕ)
    → Stands symbols s
    → Codes t.freqs s
codes argsort symbols t s (small, stands) = record {
  known = omega (arith, t.size, length-bincount symbols, small);
  present = t.slots s (omega (arith, get_or-bincount s symbols small, stands));
  normal = t.normal;
}

-- With an argsort that returns every symbol once, none before one with a higher count, the encoder
-- returns for every text of bytes, with its loops within their fuel, and the decoder gives the text
-- back for its bytes, its table and its length.
pub decode-encode_symbols :
    (argsort : List ℕ → List ℕ)
    → ((counts : List ℕ) → Descends counts (argsort counts))
    → (symbols : List ℕ) → All (λ s. s < alphabet_size) symbols
    → (bytes freqs : List ℕ) × (encode_symbols argsort symbols ≡ some (bytes, freqs))
      × (decode freqs bytes (length symbols) ≡ some symbols)
unfolding encode_symbols
decode-encode_symbols argsort d [] small = ([], _, refl, unfold decode in refl)
decode-encode_symbols argsort d (s ∷ symbols) small =
    let text = s ∷ symbols in
    let counts = bincount text in
    let stands = stand text text (λ a. omega arith) small in
    let first = get_or-bincount s text small.0 in
    let some_count : 0 < sum counts = omega (arith, first, sum-get counts s, stands.0.1) in
    let t =
      normalize_freqs-Table argsort counts (d counts) some_count
        (omega (arith, length-bincount text)) in
    let (bytes, returns, back) =
      decode-encode t.freqs t.normal text (All-mono text (codes argsort text t) stands) in
    (bytes, t.freqs, rw (encode_symbols, t.returns, returns) refl, back)
