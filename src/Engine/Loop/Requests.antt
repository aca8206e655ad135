-- ===== src/Engine/Loop/Requests.antt =====
-- engine/llm_engine.py: what `add_request` and `cancel` do to the requests that the engine knows.
use superl8_serve.Prelude.{
  ℕ, ◌+◌, ◌≤◌, ◌<◌, ◌≡◌, ◌≢◌, refl, sym, ap, subst, ◌∙◌, List, [], ◌∷◌, ◌++◌, some, none, true,
  false, not, length, filter, count, All, All-append, arith, Bool-cases, Option-cases, inl, inr,
  ◌⊎◌, if◌then◌else◌, ◌==◌, ltb,
}
use mathlib.Core.Bool.{false≢true}
use superl8_serve.Engine.Cache.{KvCache}
use superl8_serve.Engine.Sequence.{Sequence, Params, new}
use superl8_serve.Engine.Scheduler.{add, cancel}
use superl8_serve.Engine.Scheduler.Schedule.{ids, IsValid}
use superl8_serve.Engine.Scheduler.Finish.{cancelled, cancel-Cancels}
use superl8_serve.Engine.Loop.{
  ModelRunner, Engine, find_out, over_length, add_request, sequence, forget, cancel_request,
  clear_slot_of,
}

-- Every id is below the next one.
abbrev pub Below : ℕ → List Sequence → Type 0
Below n = All (λ s. s.seq_id < n)

Below-suc : (n : ℕ) (ss : List Sequence) → Below n ss → Below (n + 1) ss
Below-suc n [] h = tt
Below-suc n (s ∷ ss) h = (omega (arith, h.0), Below-suc n ss h.1)

Below-add :
    (n : ℕ) (ss : List Sequence) (x : Sequence)
    → x.seq_id ≡ n
    → Below n ss
    → Below (n + 1) (ss ++ (x ∷ []))
Below-add n ss x e h = All-append _ ss (x ∷ []) (Below-suc n ss h) (omega (arith, e), tt)

Below-absent : (n : ℕ) (ss : List Sequence) → Below n ss → count n (ids ss) ≡ 0
Below-absent n [] h = refl
Below-absent n (s ∷ ss) h = ground (arith, h.0, Below-absent n ss h.1)

find_out-new :
    (n : ℕ) (out : List Sequence) (x : Sequence)
    → Below n out
    → x.seq_id ≡ n
    → find_out n (out ++ (x ∷ [])) ≡ some x
find_out-new n [] x h e = let same : (x.seq_id == n) ≡ true = ground (arith, e) in rw same refl
find_out-new n (y ∷ out) x h e =
    let other : (y.seq_id == n) ≡ false = ground (arith, h.0) in
    rw other (find_out-new n out x h.1 e)

find_out-old :
    (j : ℕ) (out : List Sequence) (x : Sequence)
    → x.seq_id ≢ j
    → find_out j (out ++ (x ∷ [])) ≡ find_out j out
find_out-old j [] x ne = let other : (x.seq_id == j) ≡ false = ground (arith, ne) in rw other refl
find_out-old j (y ∷ out) x ne = elim (Bool-cases (y.seq_id == j)) [
  | inl hit ↦ rw hit refl
  | inr miss ↦ rw miss (find_out-old j out x ne)
]

find_out-filter :
    (i : ℕ) (out : List Sequence) → find_out i (filter (λ s. not (s.seq_id == i)) out) ≡ none
find_out-filter i [] = refl
find_out-filter i (y ∷ out) = elim (Bool-cases (y.seq_id == i)) [
  | inl hit ↦ rw hit (find_out-filter i out)
  | inr miss ↦ rw (miss, miss) (find_out-filter i out)
]

find_out-other :
    (i j : ℕ) (out : List Sequence)
    → j ≢ i
    → find_out j (filter (λ s. not (s.seq_id == i)) out) ≡ find_out j out
find_out-other i j [] ne = refl
find_out-other i j (y ∷ out) ne = elim (Bool-cases (y.seq_id == i)) [
  | inl hit ↦
      let other : (y.seq_id == j) ≡ false = ground (arith, hit, ne) in
      rw (hit, other) (find_out-other i j out ne)
  | inr miss ↦ elim (Bool-cases (y.seq_id == j)) [
    | inl found ↦ rw (miss, found) refl
    | inr other ↦ rw (miss, other) (find_out-other i j out ne)
  ]
]

module _ (C : KvCache) (R : ModelRunner C) where
  -- No request that is known or queued has an id that is still to be given.
  pub record IsFresh (e : Engine C R) : Type 0 where
    pub known : Below e.next_id e.out
    pub waits : Below e.next_id e.scheduler.waiting
    pub runs : Below e.next_id e.scheduler.running

  -- The engine `end` has the request `seq` of the prompt in addition, under the id `i`.
  pub record Added (prompt : List ℕ) (e end : Engine C R) (i : ℕ) (seq : Sequence) : Type 0 where
    pub id : seq.seq_id ≡ i
    pub prompt_ids : seq.prompt_ids ≡ prompt
    pub limit : seq.max_len ≡ e.max_len
    pub no_output : seq.output_ids ≡ []
    pub no_slot : seq.slot ≡ none
    pub unknown_before : sequence C R i e ≡ none
    pub unqueued_before : count i (ids e.scheduler.waiting) + count i (ids e.scheduler.running) ≡ 0
    pub known : sequence C R i end ≡ some seq
    pub others : (j : ℕ) → j ≢ i → sequence C R j end ≡ sequence C R j e
    pub waits : end.scheduler.waiting ≡ e.scheduler.waiting ++ (seq ∷ [])
    pub runs : end.scheduler.running ≡ e.scheduler.running
    pub fresh : IsFresh end
    pub valid : IsValid C e.scheduler → IsValid C end.scheduler

  find_out-Below : (n : ℕ) (out : List Sequence) → Below n out → find_out n out ≡ none
  find_out-Below n [] h = refl
  find_out-Below n (y ∷ out) h =
      let other : (y.seq_id == n) ≡ false = ground (arith, h.0) in
      rw other (find_out-Below n out h.1)

  add_fits :
      (prompt : List ℕ) (params : Params) (e : Engine C R)
      → over_length e.max_len (length prompt) ≡ false
      → IsFresh e
      → (end : Engine C R) × (i : ℕ) × (seq : Sequence) × (add_request C R prompt params e
          ≡ some (end, i))
        × Added prompt e end i seq
  unfolding add_request add sequence
  add_fits prompt params e fits f =
      let seq : Sequence = record (new e.next_id prompt params) { max_len = e.max_len } in
      (
        record e {
          scheduler = add C seq e.scheduler;
          next_id = e.next_id + 1;
          out = e.out ++ (seq ∷ []);
        },
        e.next_id,
        seq,
        rw (add_request, fits) refl,
        record {
          id = refl;
          prompt_ids = refl;
          limit = refl;
          no_output = refl;
          no_slot = refl;
          unknown_before = find_out-Below e.next_id e.out f.known;
          unqueued_before = omega (
            arith,
            Below-absent e.next_id e.scheduler.waiting f.waits,
            Below-absent e.next_id e.scheduler.running f.runs,
          );
          known = find_out-new e.next_id e.out seq f.known refl;
          others = λ j ne. find_out-old j e.out seq (λ h. ne (sym h));
          waits = refl;
          runs = refl;
          fresh = record {
            known = Below-add e.next_id e.out seq refl f.known;
            waits = Below-add e.next_id e.scheduler.waiting seq refl f.waits;
            runs = Below-suc e.next_id e.scheduler.running f.runs;
          };
          valid = λ v. record { accounts = v.accounts; slots = v.slots; capped = v.capped };
        },
      )

  -- Where no request that is known or queued has an id that is still to be given, `add_request`
  -- raises exactly for a prompt longer than a limit. Otherwise it returns an id under which no
  -- request was known or queued, and under which the prompt is now known and last in the waiting
  -- queue, with no output and no slot; every other id gives what it gave, the running queue is as it
  -- was, the ids still to be given stay unused, and a valid scheduler stays valid.
  pub add_request-Adds :
      (prompt : List ℕ) (params : Params) (e : Engine C R)
      → IsFresh e
      → ((limit : ℕ) × (e.max_len ≡ some limit)
          × (limit < length prompt)
          × (add_request C R prompt params e ≡ none))
        ⊎ (((limit : ℕ) → e.max_len ≡ some limit → length prompt ≤ limit)
            × ((end : Engine C R) × (i : ℕ) × (seq : Sequence) × (add_request C R prompt params e
                  ≡ some (end, i))
                × Added prompt e end i seq))
  unfolding add_request
  add_request-Adds prompt params e f = elim (Option-cases e.max_len) [
    | inl none_set ↦ inr (
      λ limit is. absurd (false≢true (ground (arith, none_set, is))),
      add_fits prompt params e (rw none_set refl) f,
    )
    | inr (limit, set) ↦ elim (Bool-cases (ltb limit (length prompt))) [
      | inl over ↦ inl (limit, set, ground (arith, over), rw (add_request, set, over) refl)
      | inr fits ↦ inr (
        λ limit' is. ground (arith, set, is, fits),
        add_fits prompt params e (rw (set, fits) refl) f,
      )
    ]
  ]

  cancel_hit :
      (i : ℕ) (e : Engine C R) (seq x : Sequence)
      → find_out i e.out ≡ some seq
      → (cancel C i e.scheduler).1 ≡ some x
      → cancel_request C R i e ≡ (
        forget C R i (record e {
          scheduler = (cancel C i e.scheduler).0;
          runner = clear_slot_of C R seq.slot e.runner;
        }),
        true,
      )
  unfolding cancel_request
  cancel_hit i e seq x known hit = rw (cancel_request, known, hit) refl

  cancel_miss :
      (i : ℕ) (e : Engine C R)
      → (find_out i e.out ≡ none) ⊎ ((cancel C i e.scheduler).1 ≡ none)
      → cancel_request C R i e ≡ (e, false)
  unfolding cancel_request
  cancel_miss i e (inl unknown) = rw (cancel_request, unknown) refl
  cancel_miss i e (inr miss) = elim (Option-cases (find_out i e.out)) [
    | inl unknown ↦ rw (cancel_request, unknown) refl
    | inr (seq, known) ↦ rw (cancel_request, known, miss) refl
  ]

  abbrev queued : ℕ → Engine C R → ℕ
  queued a e = count a (ids e.scheduler.waiting) + count a (ids e.scheduler.running)

  -- What `cancel` does where it returns True.
  pub record Forgotten (i : ℕ) (e end : Engine C R) : Type 0 where
    pub seq : Sequence
    pub known : sequence C R i e ≡ some seq
    pub unknown : sequence C R i end ≡ none
    pub others : (j : ℕ) → j ≢ i → sequence C R j end ≡ sequence C R j e
    pub queues : (a : ℕ) → queued a e ≡ (if i == a then 1 else 0) + queued a end
    pub cleared : end.runner ≡ clear_slot_of C R seq.slot e.runner
    pub valid : IsValid C end.scheduler

  -- From a valid state `cancel` of a request returns True or False. Where it returns True, the id was
  -- known and is not any more, and every other id gives what it gave; the queues hold one sequence of
  -- the id less and as many of every other; what the runner keeps for the slot of the request, if it
  -- had one, is cleared; and the state is valid. Where it returns False, nothing has changed, and the
  -- id was not known or no queue had it.
  pub cancel_request-Forgets :
      (i : ℕ) (e : Engine C R)
      → IsValid C e.scheduler
      → (((cancel_request C R i e).1 ≡ true) × Forgotten i e (cancel_request C R i e).0)
        ⊎ ((cancel_request C R i e ≡ (e, false)) × ((sequence C R i e ≡ none) ⊎ (queued i e ≡ 0)))
  unfolding sequence forget
  cancel_request-Forgets i e v =
      let c = cancel-Cancels C i e.scheduler v in
      elim (Option-cases (find_out i e.out)) [
        | inl unknown ↦ inr (cancel_miss i e (inl unknown), inl unknown)
        | inr (seq, known) ↦ elim (Option-cases (cancel C i e.scheduler).1) [
          | inl miss ↦
              let absent = c.missing miss in
              inr (cancel_miss i e (inr miss), inr (omega (arith, absent.0, absent.1)))
          | inr (x, hit) ↦ inl (
            ap (λ r. r.1) (cancel_hit i e seq x known hit),
            subst (λ r. Forgotten i e r.0) (sym (cancel_hit i e seq x known hit))
                (record {
                  seq = seq;
                  known = known;
                  unknown = find_out-filter i e.out;
                  others = λ j ne. find_out-other i j e.out ne;
                  queues = λ a.
                      c.queued a
                      ∙ ap
                          (λ n.
                            n
                            + (count a (ids (cancel C i e.scheduler).0.waiting)
                                + count a (ids (cancel C i e.scheduler).0.running)))
                          (ap (λ o. cancelled o a) hit
                            ∙ ap (λ k. if k == a then 1 else 0) (c.finished x hit).0);
                  cleared = refl;
                  valid = c.valid;
                }),
          )
        ]
      ]
