-- ===== src/Dist/Entropy/Step.antt =====
-- dist/entropy.py: one symbol in the encoder and in the decoder.
use native.Mathlib.Nat.{
  div-add-mod', mod-lt, mul_comm, pow-suc, le-div_iff_mul-le, div-lt_iff_lt-mul,
}
use superl8_serve.Prelude.{
  ℕ, zero, suc, ◌+◌, ◌-◌, ◌*◌, ◌/◌, ◌%◌, ◌^◌, ◌≤◌, ◌<◌, ◌≡◌, refl, ap, ◌∙◌, List, [], ◌∷◌, ◌++◌,
  Option, some, true, false, leb, length, get_or, replicate, arith, lt→ltb, Bool-cases, inl, inr,
}
use superl8_serve.Dist.Entropy.{
  mass, low, x_max_factor, cumulative, cumulative_from, slot_to_sym, repeat_from, shrink, push,
  refill, pop, pop_symbol,
}

abbrev pub sum : List ℕ → ℕ
sum [] = 0
sum (f ∷ freqs) = f + sum freqs

get_or-append_left :
    (xs ys : List ℕ) (i d : ℕ) → i < length xs → get_or (xs ++ ys) i d ≡ get_or xs i d
get_or-append_left [] ys i d h = elim h [ ]
get_or-append_left (x ∷ xs) ys zero d h = refl
get_or-append_left (x ∷ xs) ys (suc i) d h = get_or-append_left xs ys i d (omega arith)

get_or-skip :
    (n a : ℕ) (ys : List ℕ) (i d : ℕ) → get_or (replicate n a ++ ys) (n + i) d ≡ get_or ys i d
get_or-skip zero a ys i d = ap (λ k. get_or ys k d) (omega arith)
get_or-skip (suc n) a ys i d =
    ap (λ k. get_or (replicate (suc n) a ++ ys) k d) {x = suc n + i} {y = suc (n + i)} (omega arith)
    ∙ get_or-skip n a ys i d

get_or-block : (n a : ℕ) (ys : List ℕ) (i d : ℕ) → i < n → get_or (replicate n a ++ ys) i d ≡ a
get_or-block zero a ys i d h = elim h [ ]
get_or-block (suc n) a ys zero d h = refl
get_or-block (suc n) a ys (suc i) d h = get_or-block n a ys i d (omega arith)

cumulative_from-shift :
    (freqs : List ℕ) (t s : ℕ)
    → s < length freqs
    → get_or (cumulative_from t freqs) s 0 ≡ t + get_or (cumulative_from 0 freqs) s 0
cumulative_from-shift [] t s h = elim h [ ]
cumulative_from-shift (f ∷ freqs) t zero h = omega arith
cumulative_from-shift (f ∷ freqs) t (suc s) h = omega (
  arith,
  cumulative_from-shift freqs (t + f) s (omega arith),
  cumulative_from-shift freqs (0 + f) s (omega arith),
)

-- A symbol's slots end before the sum of all frequencies.
pub cumulative-room :
    (freqs : List ℕ) (s : ℕ)
    → s < length freqs
    → get_or (cumulative freqs) s 0 + get_or freqs s 0 ≤ sum freqs
cumulative-room [] s h = elim h [ ]
cumulative-room (f ∷ freqs) zero h = omega arith
cumulative-room (f ∷ freqs) (suc s) h = omega (
  arith,
  cumulative-room freqs s (omega arith),
  cumulative_from-shift freqs (0 + f) s (omega arith),
)

repeat_from-slot :
    (freqs : List ℕ) (t s r : ℕ)
    → s < length freqs
    → r < get_or freqs s 0
    → get_or (repeat_from t freqs) (get_or (cumulative freqs) s 0 + r) 0 ≡ t + s
repeat_from-slot [] t s r h lt = elim h [ ]
repeat_from-slot (f ∷ freqs) t zero r h lt =
    ap (λ k. get_or (replicate f t ++ repeat_from (suc t) freqs) k 0) {x = 0 + r} {y = r}
      (omega arith)
    ∙ get_or-block f t (repeat_from (suc t) freqs) r 0 lt
    ∙ omega arith
repeat_from-slot (f ∷ freqs) t (suc s) r h lt =
    ap (λ k. get_or (replicate f t ++ repeat_from (suc t) freqs) k 0)
      {x = get_or (cumulative_from (0 + f) freqs) s 0 + r}
      {y = f + (get_or (cumulative freqs) s 0 + r)}
      (omega (arith, cumulative_from-shift freqs (0 + f) s (omega arith)))
    ∙ get_or-skip f t (repeat_from (suc t) freqs) (get_or (cumulative freqs) s 0 + r) 0
    ∙ repeat_from-slot freqs (suc t) s r (omega arith) lt
    ∙ omega arith

-- The frequencies are normalised, and symbol `s` has slots.
pub record Codes (freqs : List ℕ) (s : ℕ) : Type 0 where
  pub known : s < length freqs
  pub present : 0 < get_or freqs s 0
  pub normal : sum freqs ≡ mass

-- `shrink` gives back its start under `refill`, and ends between the two bounds of the symbol.
pub record Shrinks (f state : ℕ) (out : List ℕ) (r : Option (ℕ × List ℕ)) : Type 0 where
  pub x : ℕ
  pub bytes : List ℕ
  pub returns : r ≡ some (x, bytes)
  pub below : x < x_max_factor * f
  pub above : 2048 * f ≤ x
  pub back : refill x bytes ≡ refill state out

refill_more :
    (state b : ℕ) (buf : List ℕ)
    → state < low
    → refill state (b ∷ buf) ≡ refill (state * 256 + b) buf
unfolding refill
refill_more state b buf h = rw (refill, lt→ltb state low h) refl

shrink_more :
    (k x_max state : ℕ) (out : List ℕ)
    → leb x_max state ≡ true
    → shrink (suc k) x_max state out ≡ shrink k x_max (state / 256) (state % 256 ∷ out)
unfolding shrink
shrink_more k x_max state out h = rw h refl

shrink_done :
    (k x_max state : ℕ) (out : List ℕ)
    → leb x_max state ≡ false
    → shrink (suc k) x_max state out ≡ some (state, out)
unfolding shrink
shrink_done k x_max state out h = rw h refl

shrink-Shrinks :
    (k f state : ℕ) (out : List ℕ)
    → 0 < f
    → state < 256 ^ k
    → state < low * 256
    → 2048 * f ≤ state
    → Shrinks f state out (shrink (suc k) (x_max_factor * f) state out)
shrink-Shrinks zero f state out pos fuel bound above = absurd (omega arith)
shrink-Shrinks (suc k) f state out pos fuel bound above =
    elim (Bool-cases (leb (x_max_factor * f) state)) [
      | inl go ↦
          let rest =
            shrink-Shrinks k f (state / 256) (state % 256 ∷ out) pos
              (omega (arith, pow-suc 256 k, fuel)) (omega arith) (ground arith) in
          record {
            x = rest.x;
            bytes = rest.bytes;
            returns = shrink_more (suc k) (x_max_factor * f) state out go ∙ rest.returns;
            below = rest.below;
            above = rest.above;
            back =
                rest.back
                ∙ refill_more (state / 256) (state % 256) out (omega arith)
                ∙ ap (λ n. refill n out) (omega arith);
          }
      | inr stop ↦ record {
        x = state;
        bytes = out;
        returns = shrink_done (suc k) (x_max_factor * f) state out stop;
        below = ground arith;
        above = above;
        back = refl;
      }
    ]

-- The state is between the bounds of the coder.
pub record InRange (state : ℕ) : Type 0 where
  pub at_least : low ≤ state
  pub below : state < low * 256

refill_done : (state : ℕ) (buf : List ℕ) → low ≤ state → refill state buf ≡ some (state, buf)
unfolding refill
refill_done state [] h = ground (arith, h)
refill_done state (b ∷ buf) h = ground (arith, h)

pop_of :
    (freqs : List ℕ) (s y x : ℕ) (buf : List ℕ) (rest : ℕ × List ℕ)
    → get_or (slot_to_sym freqs) (y % mass) 0 ≡ s
    → get_or freqs s 0 * (y / mass) + y % mass - get_or (cumulative freqs) s 0 ≡ x
    → refill x buf ≡ some rest
    → pop freqs y buf ≡ some (s, rest)
unfolding pop pop_symbol
pop_of freqs s y x buf rest is back filled =
    ap (λ n. pop_symbol freqs n y buf) is ∙ rw (pop_symbol, back, filled) refl

-- One symbol pushed is in range, and popped it gives the symbol, the state and the bytes back.
pub record Pushes (freqs : List ℕ) (s state : ℕ) (out : List ℕ) (r : Option (ℕ × List ℕ))
    : Type 0 where
  pub next : ℕ
  pub bytes : List ℕ
  pub returns : r ≡ some (next, bytes)
  pub range : InRange next
  pub pops : pop freqs next bytes ≡ some (s, (state, out))

pub push-Pushes :
    (freqs : List ℕ) (s state : ℕ) (out : List ℕ)
    → Codes freqs s
    → InRange state
    → Pushes freqs s state out (push freqs s state out)
unfolding push
push-Pushes freqs s state out c h =
    let f = get_or freqs s 0 in
    let start = get_or (cumulative freqs) s 0 in
    let room = cumulative-room freqs s c.known in
    let normal = c.normal in
    let p =
      shrink-Shrinks 4 f state out c.present (omega (arith, h.below)) h.below
        (omega (arith, h.at_least, room, normal)) in
    let y = p.x / f * mass + p.x % f + start in
    let r<f : p.x % f < f = mod-lt p.x c.present in
    let slot : y % mass ≡ start + p.x % f = omega (arith, r<f, room, normal) in
    let quot : y / mass ≡ p.x / f = omega (arith, r<f, room, normal) in
    let sym_is : get_or (slot_to_sym freqs) (y % mass) 0 ≡ s =
      ap (λ k. get_or (slot_to_sym freqs) k 0) slot
      ∙ repeat_from-slot freqs 0 s (p.x % f) c.known r<f
      ∙ omega arith in
    let back : f * (y / mass) + y % mass - start ≡ p.x =
      rw quot (omega (arith, slot, div-add-mod' p.x f, mul_comm f (p.x / f))) in
    let lo : 2048 ≤ p.x / f = (le-div_iff_mul-le c.present).1 p.above in
    let hi : p.x / f < x_max_factor = (div-lt_iff_lt-mul c.present).1 p.below in
    record {
      next = y;
      bytes = p.bytes;
      returns = rw (push, p.returns) refl;
      range = record { at_least = omega (arith, lo); below = omega (arith, hi, r<f, room, normal) };
      pops =
          pop_of freqs s y p.x p.bytes (state, out) sym_is back
            (p.back ∙ refill_done state out h.at_least);
    }
