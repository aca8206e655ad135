-- ===== src/Engine/Cache/Latent.antt =====
-- MLALatentCache (models/cache.py), the slots of it: the latent keys and values are tensors.
use superl8_serve.Prelude.{
  ℕ, ◌+◌, ◌<◌, ◌≡◌, refl, List, [], ◌∷◌, Option, some, none, Bool, true, false, count,
  if◌then◌else◌, ◌==◌, arith, range_down, ap, List-cases, inl, inr,
}
use superl8_serve.Engine.Sequence.{contains}
use superl8_serve.Engine.Cache.{KvCache}

-- `free_slots` is `_free_slots` from its end.
pub record Latent : Type 0 where
  pub num_slots : ℕ
  pub free_slots : List ℕ

unfoldable pub init : ℕ → Latent
init batch = record { num_slots = batch; free_slots = range_down batch }

unfoldable pub has_free_slot : Latent → Bool
has_free_slot c = elim c.free_slots [ [] ↦ false | _ ∷ _ ↦ true ]

unfoldable pub has_free_block : Latent → Bool
has_free_block c = true

unfoldable pub alloc : Latent → Option (Latent × ℕ)
alloc c = elim c.free_slots [ [] ↦ none | s ∷ rest ↦ some (record c { free_slots = rest }, s) ]

unfoldable pub free : ℕ → Latent → Latent
free s c = if contains s c.free_slots then c else record c { free_slots = s ∷ c.free_slots }

unfoldable pub lookup_prefix : List ℕ → Latent → Latent × (ℕ × List ℕ)
lookup_prefix token_ids c = (c, (0, []))

unfoldable pub share_blocks : ℕ → List ℕ → Latent → Latent
share_blocks slot blocks c = c

unfoldable pub store_prefix : List ℕ → ℕ → Latent → Latent
store_prefix token_ids slot c = c

contains-count : (a : ℕ) (xs : List ℕ) → count a xs ≡ 0 → contains a xs ≡ false
contains-count a [] h = refl
contains-count a (x ∷ xs) h = ground (arith, contains-count a xs)

pub alloc_law :
    (c : Latent)
    → Unit {0}
    → has_free_slot c ≡ true
    → (d : Latent) × (s : ℕ) × (alloc c ≡ some (d, s))
      × Unit {0}
      × Unit {0}
      × (d.num_slots ≡ c.num_slots)
      × ((a : ℕ) → count a c.free_slots ≡ (if s == a then 1 else 0) + count a d.free_slots)
unfolding has_free_slot alloc
alloc_law c v h = elim (List-cases c.free_slots) [
  | inl e ↦ ground (arith, e)
  | inr (s, rest, e) ↦
      (record c { free_slots = rest }, s, ground (arith, e), tt, tt, refl, λ a. ap (count a) e)
]

pub free_law :
    (s : ℕ) (c : Latent)
    → Unit {0}
    → s < c.num_slots
    → count s c.free_slots ≡ 0
    → Unit {0}
      × ((a : ℕ) → count a (free s c).free_slots ≡ (if s == a then 1 else 0) + count a c.free_slots)
      × ((free s c).num_slots ≡ c.num_slots)
unfolding free
free_law s c v bound used = rw (contains-count s c.free_slots used) (tt, λ a. refl, refl)

pub lookup_law :
    (ts : List ℕ) (c : Latent)
    → Unit {0}
      × Unit {0}
      × Unit {0}
      × ((lookup_prefix ts c).0.free_slots ≡ c.free_slots)
      × ((lookup_prefix ts c).0.num_slots ≡ c.num_slots)
unfolding lookup_prefix
lookup_law ts c = (tt, tt, tt, refl, refl)

pub share_law :
    (s : ℕ) (blocks : List ℕ) (c : Latent)
    → Unit {0}
      × ((share_blocks s blocks c).free_slots ≡ c.free_slots)
      × ((share_blocks s blocks c).num_slots ≡ c.num_slots)
unfolding share_blocks
share_law s blocks c = (tt, refl, refl)

pub store_law :
    (ts : List ℕ) (s : ℕ) (c : Latent)
    → Unit {0}
      × ((store_prefix ts s c).free_slots ≡ c.free_slots)
      × ((store_prefix ts s c).num_slots ≡ c.num_slots)
      × ((us : List ℕ) (r : ℕ) → Unit {0} → Unit {0})
unfolding store_prefix
store_law ts s c = (tt, refl, refl, λ us r h. tt)

abbrev pub latent_cache : KvCache
latent_cache = record {
  State = Latent;
  free_slots = λ c. c.free_slots;
  num_slots = λ c. c.num_slots;
  has_free_slot = has_free_slot;
  has_free_block = has_free_block;
  alloc = alloc;
  lookup_prefix = lookup_prefix;
  share_blocks = share_blocks;
  free = free;
  store_prefix = store_prefix;
  IsValid = λ c. Unit {0};
  IsFresh = λ s c. Unit {0};
  AreHeld = λ blocks c. Unit {0};
  CanStore = λ ts s c. Unit {0};
  alloc_law = alloc_law;
  lookup_law = λ ts s c v f. lookup_law ts c;
  share_law = λ s blocks c v f h. share_law s blocks c;
  free_law = free_law;
  store_law = λ ts s c v h. store_law ts s c;
}
