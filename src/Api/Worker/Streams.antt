-- ===== src/Api/Worker/Streams.antt =====
-- api/runtime.py: what stands in the queue of a request.
use superl8_serve.Prelude.{
  ℕ, suc, ◌+◌, ◌≤◌, ◌≡◌, refl, sym, ap, subst, ◌∙◌, List, [], ◌∷◌, ◌++◌, map, Option, none, some,
  Bool, not, filter, true, false, ◌==◌, length, take, drop, take-append-drop, take_all,
  take-append_left, length-append, length-drop, All, count, arith, Bool-cases, inl, inr, ◌⊎◌,
}
use superl8_serve.Engine.Sequence.{Sequence, finish_reason}
use superl8_serve.Api.Worker.{
  End, token, done, Handle, Worker, send, close, is_over, reason_or_stop, dispatch_all, dispatch,
  take_handle, cancel,
}

abbrev pub handle_ids : List Handle → List ℕ
handle_ids = map (λ h. h.seq_id)

-- A pending handle has sent the first tokens of its sequence, and no end.
pub record Streams (seqs : ℕ → Sequence) (h : Handle) : Type 0 where
  pub sent : h.sent ≤ length (seqs h.seq_id).output_ids
  pub queue : h.out_queue ≡ map token (take h.sent (seqs h.seq_id).output_ids)
  pub open_yet : h.terminal ≡ false

-- One that has sent all of them, while its sequence runs.
pub record Current (seqs : ℕ → Sequence) (h : Handle) : Type 0 where
  pub streams : Streams seqs h
  pub all : h.out_queue ≡ map token (seqs h.seq_id).output_ids
  pub runs : is_over (seqs h.seq_id).status ≡ false

-- One that has sent all of them and the end of its sequence.
pub record Complete (seqs : ℕ → Sequence) (eos_id : Option ℕ) (h : Handle) : Type 0 where
  pub all :
      h.out_queue
      ≡ map token (seqs h.seq_id).output_ids
        ++ (done (End.finished (reason_or_stop (finish_reason (seqs h.seq_id) eos_id))) ∷ [])
  pub terminal : h.terminal ≡ true
  pub over : is_over (seqs h.seq_id).status ≡ true

append_assoc {ℓ} : {A : Type ℓ} (xs ys zs : List A) → (xs ++ ys) ++ zs ≡ xs ++ (ys ++ zs)
append_assoc [] ys zs = refl
append_assoc (x ∷ xs) ys zs = ap (◌∷◌ x) (append_assoc xs ys zs)

map-append {ℓ κ} :
    {A : Type ℓ} {B : Type κ} (f : A → B) (xs ys : List A) → map f (xs ++ ys) ≡ map f xs ++ map f ys
map-append f [] ys = refl
map-append f (x ∷ xs) ys = ap (◌∷◌ (f x)) (map-append f xs ys)

append-nil {ℓ} : {A : Type ℓ} (xs : List A) → xs ++ [] ≡ xs
append-nil [] = refl
append-nil (x ∷ xs) = ap (◌∷◌ x) (append-nil xs)

send_is :
    (tokens : List ℕ) (h : Handle)
    → send tokens h
      ≡ record h { out_queue = h.out_queue ++ map token tokens; sent = h.sent + length tokens }
unfolding send
send_is [] h =
    ap (λ n. record h { sent = n }) {x = h.sent} {y = h.sent + 0} (omega arith)
    ∙ ap (λ q. record h { out_queue = q; sent = h.sent + 0 }) (sym (append-nil h.out_queue))
send_is (t ∷ tokens) h =
    send_is tokens (record h { out_queue = h.out_queue ++ (token t ∷ []); sent = h.sent + 1 })
    ∙ ap
        (λ n. record h {
          out_queue = (h.out_queue ++ (token t ∷ [])) ++ map token tokens;
          sent = n;
        })
        {x = h.sent + 1 + length tokens} {y = h.sent + suc (length tokens)} (omega arith)
    ∙ ap (λ q. record h { out_queue = q; sent = h.sent + suc (length tokens) })
        (append_assoc h.out_queue (token t ∷ []) (map token tokens))

module _ (seqs : ℕ → Sequence) (eos_id : Option ℕ) where
  abbrev sends : Handle → Handle
  sends h = send (drop h.sent (seqs h.seq_id).output_ids) h

  sends-all :
      (h : Handle)
      → Streams seqs h
      → (sends h ≡ record h {
        out_queue = map token (seqs h.seq_id).output_ids;
        sent = length (seqs h.seq_id).output_ids;
      })
  sends-all h s =
      let o = (seqs h.seq_id).output_ids in
      send_is (drop h.sent o) h
      ∙ ap (λ q. record h { out_queue = q; sent = h.sent + length (drop h.sent o) })
          (ap (λ q. q ++ map token (drop h.sent o)) s.queue
            ∙ sym (map-append token (take h.sent o) (drop h.sent o))
            ∙ ap (map token) (take-append-drop h.sent o))
      ∙ ap (λ n. record h { out_queue = map token o; sent = n })
          {x = h.sent + length (drop h.sent o)} {y = length o}
          (omega (arith, length-drop h.sent o, s.sent))

  sends-Current :
      (h : Handle)
      → Streams seqs h
      → is_over (seqs h.seq_id).status ≡ false
      → Current seqs (sends h)
  sends-Current h s runs = subst (Current seqs) (sym (sends-all h s)) (record {
    streams = record {
      sent = omega arith;
      queue = ap (map token) (
          sym (
            take_all (length (seqs h.seq_id).output_ids) (seqs h.seq_id).output_ids (omega arith)));
      open_yet = s.open_yet;
    };
    all = refl;
    runs = runs;
  })

  sends-Complete :
      (h : Handle)
      → Streams seqs h
      → is_over (seqs h.seq_id).status ≡ true
      → Complete seqs eos_id
          (close (End.finished (reason_or_stop (finish_reason (seqs h.seq_id) eos_id))) (sends h))
  unfolding close
  sends-Complete h s over =
      subst
        (λ g.
          Complete seqs eos_id
            (close (End.finished (reason_or_stop (finish_reason (seqs h.seq_id) eos_id))) g))
        (sym (sends-all h s)) (record { all = refl; terminal = refl; over = over })

  dispatch_over :
      (h : Handle) (hs : List Handle)
      → is_over (seqs h.seq_id).status ≡ true
      → dispatch_all seqs eos_id (h ∷ hs) ≡ (
        (dispatch_all seqs eos_id hs).0,
        close (End.finished (reason_or_stop (finish_reason (seqs h.seq_id) eos_id))) (sends h)
            ∷ (dispatch_all seqs eos_id hs).1,
      )
  unfolding dispatch_all
  dispatch_over h hs over = rw over refl

  dispatch_on :
      (h : Handle) (hs : List Handle)
      → is_over (seqs h.seq_id).status ≡ false
      → dispatch_all seqs eos_id (h ∷ hs)
        ≡ (sends h ∷ (dispatch_all seqs eos_id hs).0, (dispatch_all seqs eos_id hs).1)
  unfolding dispatch_all
  dispatch_on h hs on = rw on refl

  -- A handle of what `_dispatch` leaves has the id of the handle it was.
  sends-seq_id : (h : Handle) → Streams seqs h → (sends h).seq_id ≡ h.seq_id
  sends-seq_id h s = ap (λ g. g.seq_id) (sends-all h s)

  abbrev runs : Handle → Bool
  runs h = not (is_over (seqs h.seq_id).status)

  abbrev ends : Handle → Bool
  ends h = is_over (seqs h.seq_id).status

  -- Where the handles `hs` are left as `still` pending and `over` closed.
  pub record Delivers (hs still over : List Handle) : Type 0 where
    pub streaming : All (Current seqs) still
    pub complete : All (Complete seqs eos_id) over
    pub still_ids : handle_ids still ≡ handle_ids (filter runs hs)
    pub over_ids : handle_ids over ≡ handle_ids (filter ends hs)

  dispatch_all-Delivers :
      (hs : List Handle)
      → All (Streams seqs) hs
      → Delivers hs (dispatch_all seqs eos_id hs).0 (dispatch_all seqs eos_id hs).1
  unfolding close
  dispatch_all-Delivers [] s =
      unfold dispatch_all in
      record { streaming = tt; complete = tt; still_ids = refl; over_ids = refl }
  dispatch_all-Delivers (h ∷ hs) s =
      let rest = dispatch_all-Delivers hs s.1 in
      let P : List Handle × List Handle → Type 0 = λ r. Delivers (h ∷ hs) r.0 r.1 in
      elim (Bool-cases (is_over (seqs h.seq_id).status)) [
        | inl ended ↦ subst P (sym (dispatch_over h hs ended)) (record {
          streaming = rest.streaming;
          complete = (sends-Complete h s.0 ended, rest.complete);
          still_ids = rw ended rest.still_ids;
          over_ids = rw ended (
              ap (λ i. i ∷ handle_ids (dispatch_all seqs eos_id hs).1) (sends-seq_id h s.0)
              ∙ ap (◌∷◌ h.seq_id) rest.over_ids);
        })
        | inr on ↦ subst P (sym (dispatch_on h hs on)) (record {
          streaming = (sends-Current h s.0 on, rest.streaming);
          complete = rest.complete;
          still_ids = rw on (
              ap (λ i. i ∷ handle_ids (dispatch_all seqs eos_id hs).0) (sends-seq_id h s.0)
              ∙ ap (◌∷◌ h.seq_id) rest.still_ids);
          over_ids = rw on rest.over_ids;
        })
      ]

  -- Where every pending handle has sent the first tokens of its sequence and no end, `_dispatch`
  -- leaves pending exactly the handles whose sequence runs, by their ids and in their order, with all
  -- of its tokens sent in order, and closes exactly the others, in their order, each with all of its
  -- tokens in order and then the one end of its sequence.
  pub dispatch-Delivers :
      (w : Worker)
      → All (Streams seqs) w.pending
      → (over : List Handle) × ((dispatch seqs eos_id w).closed ≡ w.closed ++ over)
        × Delivers w.pending (dispatch seqs eos_id w).pending over
  unfolding dispatch
  dispatch-Delivers w s =
      ((dispatch_all seqs eos_id w.pending).1, refl, dispatch_all-Delivers w.pending s)

-- What a handle has sent stays the first tokens of its sequence while the sequence grows.
pub Streams-grow :
    (seqs after : ℕ → Sequence) (h : Handle) (more : List ℕ)
    → (after h.seq_id).output_ids ≡ (seqs h.seq_id).output_ids ++ more
    → Streams seqs h
    → Streams after h
Streams-grow seqs after h more grown s =
    let o = (seqs h.seq_id).output_ids in
    record {
      sent = omega (arith, s.sent, ap length grown, length-append o more);
      queue =
          s.queue
          ∙ ap (map token) (sym (ap (take h.sent) grown ∙ take-append_left h.sent o more s.sent));
      open_yet = s.open_yet;
    }

take_handle-cases :
    (seq_id : ℕ) (hs : List Handle)
    → ((take_handle seq_id hs ≡ none) × (count seq_id (handle_ids hs) ≡ 0))
      ⊎ ((front : List Handle) × (h : Handle) × (back : List Handle) × (hs ≡ front ++ (h ∷ back))
          × (take_handle seq_id hs ≡ some (h, front ++ back))
          × (count seq_id (handle_ids front) ≡ 0)
          × (h.seq_id ≡ seq_id))
unfolding take_handle
take_handle-cases seq_id [] = inl (refl, refl)
take_handle-cases seq_id (h ∷ hs) = elim (Bool-cases (h.seq_id == seq_id)) [
  | inl is ↦ inr ([], h, hs, refl, rw (take_handle, is) refl, refl, ground (arith, is))
  | inr other ↦ elim (take_handle-cases seq_id hs) [
    | inl (e, absent) ↦ inl (rw (take_handle, other, e) refl, ground (arith, other, absent))
    | inr (front, g, back, split, e, before, is) ↦ inr (
      h ∷ front,
      g,
      back,
      ap (◌∷◌ h) split,
      rw (take_handle, other, e) refl,
      ground (arith, other, before),
      is,
    )
  ]
]

All-split {ℓ} :
    {A : Type ℓ} (P : A → Type 0) (front : List A) (x : A) (back : List A)
    → All P (front ++ (x ∷ back))
    → P x × All P (front ++ back)
All-split P [] x back ps = ps
All-split P (y ∷ front) x back ps =
    let (p, rest) = All-split P front x back ps.1 in (p, (ps.0, rest))

-- `h` is the handle `g` that was cancelled: it has sent the same first tokens of its sequence, and
-- then the end.
pub record Cancelled (seqs : ℕ → Sequence) (seq_id : ℕ) (g h : Handle) : Type 0 where
  pub wanted : g.seq_id ≡ seq_id
  pub id : h.seq_id ≡ g.seq_id
  pub sent : h.sent ≡ g.sent
  pub terminal : h.terminal ≡ true
  pub queue :
      h.out_queue ≡ map token (take g.sent (seqs g.seq_id).output_ids) ++ (done End.cancelled ∷ [])

-- Where every pending handle streams its sequence, `_cancel` of an id that is not pending changes
-- nothing; otherwise it takes the first handle with the id out of those pending, leaves the others
-- in their order and streaming, and closes that handle, whose queue holds what it had sent, the
-- first tokens of its sequence, and one end.
pub cancel-Cancelled :
    (seqs : ℕ → Sequence) (seq_id : ℕ) (w : Worker)
    → All (Streams seqs) w.pending
    → ((cancel seq_id w ≡ w) × (count seq_id (handle_ids w.pending) ≡ 0))
      ⊎ ((front : List Handle) × (g : Handle) × (back : List Handle) × (h : Handle) × (w.pending
            ≡ front ++ (g ∷ back))
          × (count seq_id (handle_ids front) ≡ 0)
          × (cancel seq_id w ≡ record { pending = front ++ back; closed = w.closed ++ (h ∷ []) })
          × Cancelled seqs seq_id g h
          × All (Streams seqs) (front ++ back))
unfolding cancel close
cancel-Cancelled seqs seq_id w s = elim (take_handle-cases seq_id w.pending) [
  | inl (e, absent) ↦ inl (rw (cancel, e) refl, absent)
  | inr (front, g, back, split, e, before, is) ↦
      let (p, more) = All-split (Streams seqs) front g back (subst (All (Streams seqs)) split s) in
      inr (
        front,
        g,
        back,
        close End.cancelled g,
        split,
        before,
        rw (cancel, e) refl,
        record {
          wanted = is;
          id = refl;
          sent = refl;
          terminal = refl;
          queue = ap (λ q. q ++ (done End.cancelled ∷ [])) p.queue;
        },
        more,
      )
]
