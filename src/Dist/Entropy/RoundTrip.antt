-- ===== src/Dist/Entropy/RoundTrip.antt =====
-- dist/entropy.py: the encoder and the decoder together.
use superl8_serve.Prelude.{
  ℕ, suc, ◌*◌, ◌<◌, ◌≡◌, refl, ap, ◌∙◌, List, [], ◌∷◌, some, true, ◌==◌, length, replicate,
  length-append, length-replicate, arith, All,
}
use superl8_serve.Dist.Entropy.{
  mass, low, slot_to_sym, repeat_from, push_symbols, flush, encode, load, pop_symbols, decode,
}
use superl8_serve.Dist.Entropy.Step.{sum, Codes, InRange, push-Pushes}

length-repeat_from : (s : ℕ) (freqs : List ℕ) → length (repeat_from s freqs) ≡ sum freqs
length-repeat_from s [] = refl
length-repeat_from s (f ∷ freqs) = omega (
  arith,
  length-append (replicate f s) (repeat_from (suc s) freqs),
  length-replicate f s,
  length-repeat_from (suc s) freqs,
)

load-flush :
    (state : ℕ) (out : List ℕ) → state < low * 256 → load (flush 4 state out) ≡ some (state, out)
unfolding load flush
load-flush state out h = ap (λ n. some (n, out)) (omega (arith, h))

module _ (freqs : List ℕ) where
  record Coded (symbols : List ℕ) : Type 0 where
    state : ℕ
    out : List ℕ
    returns : push_symbols freqs symbols ≡ some (state, out)
    range : InRange state
    pops : pop_symbols freqs (length symbols) state out ≡ some symbols

  push_symbols-Coded : (symbols : List ℕ) → All (Codes freqs) symbols → Coded symbols
  unfolding push_symbols pop_symbols
  push_symbols-Coded [] c = record {
    state = low;
    out = [];
    returns = refl;
    range = record { at_least = omega arith; below = omega arith };
    pops = refl;
  }
  push_symbols-Coded (s ∷ symbols) c =
      let rest = push_symbols-Coded symbols c.1 in
      let p = push-Pushes freqs s rest.state rest.out c.0 rest.range in
      record {
        state = p.next;
        out = p.bytes;
        returns = rw (push_symbols, rest.returns) p.returns;
        range = p.range;
        pops = rw (pop_symbols, p.pops, rest.pops) refl;
      }

  decode_loaded :
      (bytes : List ℕ) (n state : ℕ) (buf : List ℕ)
      → (length (slot_to_sym freqs) == mass) ≡ true
      → load bytes ≡ some (state, buf)
      → decode freqs bytes (suc n) ≡ pop_symbols freqs (suc n) state buf
  unfolding decode
  decode_loaded bytes n state buf full loaded = rw (full, loaded) refl

  -- With a normalised table in which every symbol of the text has slots, `encode` returns, and
  -- `decode` of what it returns is the text.
  pub decode-encode :
      sum freqs ≡ mass
      → (symbols : List ℕ) → All (Codes freqs) symbols
      → (bytes : List ℕ) × (encode freqs symbols ≡ some bytes)
        × (decode freqs bytes (length symbols) ≡ some symbols)
  unfolding encode
  decode-encode normal [] c = ([], refl, unfold decode in refl)
  decode-encode normal (s ∷ symbols) c =
      let all = push_symbols-Coded (s ∷ symbols) c in
      let full : (length (slot_to_sym freqs) == mass) ≡ true =
        ground (arith, length-repeat_from 0 freqs, normal) in
      (
        flush 4 all.state all.out,
        rw (encode, all.returns) refl,
        decode_loaded (flush 4 all.state all.out) (length symbols) all.state all.out full
              (load-flush all.state all.out all.range.below)
            ∙ all.pops,
      )
