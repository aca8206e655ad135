-- ===== src/Dist/Entropy/Tests.antt =====
-- A skewed table of three symbols, and the round trip with it.
use superl8_serve.Prelude.{ℕ, ◌≡◌, refl, List, [], ◌∷◌, some, arith, length, replicate, All}
use superl8_serve.Dist.Entropy.{encode, decode}
use superl8_serve.Dist.Entropy.Step.{Codes}
use superl8_serve.Dist.Entropy.RoundTrip.{decode-encode}

abbrev freqs : List ℕ
freqs = 1024 ∷ 3071 ∷ 1 ∷ replicate 253 0

abbrev text : List ℕ
text = 1 ∷ 1 ∷ 2 ∷ 0 ∷ []

text-Codes : All (Codes freqs) text
text-Codes = (one, (one, (two, (nought, tt))))
  where
    one : Codes freqs 1
    one = record { known = omega arith; present = omega arith; normal = refl }

    two : Codes freqs 2
    two = record { known = omega arith; present = omega arith; normal = refl }

    nought : Codes freqs 0
    nought = record { known = omega arith; present = omega arith; normal = refl }

skewed_round_trip :
    (bytes : List ℕ) × (encode freqs text ≡ some bytes)
    × (decode freqs bytes (length text) ≡ some text)
skewed_round_trip = decode-encode freqs refl text text-Codes
