-- ===== src/Api/Worker/Tests.antt =====
-- Two requests: the first is done after two tokens, the second runs.
use superl8_serve.Prelude.{
  ℕ, zero, suc, false, ◌≡◌, refl, List, [], ◌∷◌, ◌++◌, some, All, count, arith, ◌⊎◌,
}
use superl8_serve.Engine.Sequence.{Sequence, Status, new}
use superl8_serve.Api.Worker.{
  Handle, Worker, Message, token, dispatch, dispatch_all, send, close, cancel,
}
use superl8_serve.Api.Worker.Streams.{
  Streams, Delivers, Cancelled, dispatch-Delivers, cancel-Cancelled, handle_ids,
}

abbrev request : ℕ → Sequence
request n = new n (1 ∷ 2 ∷ []) (record { max_tokens = 2; ignore_eos = false })

abbrev sequences : ℕ → Sequence
sequences zero = record (request 0) { output_ids = 5 ∷ 6 ∷ []; status = Status.finished }
sequences (suc n) = record (request (suc n)) { output_ids = 7 ∷ []; status = Status.running }

abbrev handle : ℕ → ℕ → List Message → Handle
handle n sent queue = record { seq_id = n; sent = sent; terminal = false; out_queue = queue }

abbrev worker : Worker
worker = record { pending = handle 0 1 (token 5 ∷ []) ∷ handle 1 0 [] ∷ []; closed = [] }

worker-Streams : All (Streams sequences) worker.pending
worker-Streams = (
  record { sent = omega arith; queue = refl; open_yet = refl },
  (record { sent = omega arith; queue = refl; open_yet = refl }, tt),
)

dispatch-Delivers_example :
    (over : List Handle) × ((dispatch sequences (some 9) worker).closed ≡ [] ++ over)
    × Delivers sequences (some 9) worker.pending (dispatch sequences (some 9) worker).pending over
dispatch-Delivers_example = dispatch-Delivers sequences (some 9) worker worker-Streams

-- The first request leaves the pending ones, with the second of its tokens and its end.
dispatch_value :
    (handle_ids (dispatch sequences (some 9) worker).pending ≡ 1 ∷ [])
    × (handle_ids (dispatch sequences (some 9) worker).closed ≡ 0 ∷ [])
unfolding dispatch dispatch_all send close
dispatch_value = (refl, refl)

cancel-Cancelled_example :
    ((cancel 1 worker ≡ worker) × (count 1 (handle_ids worker.pending) ≡ 0))
    ⊎ ((front : List Handle) × (g : Handle) × (back : List Handle) × (h : Handle) × (worker.pending
          ≡ front ++ (g ∷ back))
        × (count 1 (handle_ids front) ≡ 0)
        × (cancel 1 worker ≡ record { pending = front ++ back; closed = [] ++ (h ∷ []) })
        × Cancelled sequences 1 g h
        × All (Streams sequences) (front ++ back))
cancel-Cancelled_example = cancel-Cancelled sequences 1 worker worker-Streams
