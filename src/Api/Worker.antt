-- ===== src/Api/Worker.antt =====
-- The worker thread of api/runtime.py: how the tokens of the sequences reach the queues of the
-- requests. A queue is the list of all that was put in it. What `engine.sequence` gives for an id is
-- an argument, `seqs`; a handle is known by its sequence id, and the handles that have left `_pending`
-- are kept in `closed`. Telemetry is left out.
pub mod Streams
pub mod Tests
use superl8_serve.Prelude.{
  ℕ, zero, suc, ◌+◌, List, [], ◌∷◌, ◌++◌, Option, none, some, Bool, true, false, if◌then◌else◌,
  ◌==◌, length, drop,
}
use superl8_serve.Engine.Sequence.{Sequence, Status, Reason, finish_reason}

pub data End : Type 0 where
  finished : Reason → End
  cancelled : End

pub data Message : Type 0 where
  token : ℕ → Message
  done : End → Message

pub record Handle : Type 0 where
  pub seq_id : ℕ
  pub sent : ℕ
  pub terminal : Bool
  pub out_queue : List Message

pub record Worker : Type 0 where
  pub pending : List Handle
  pub closed : List Handle

-- `_register`, with the id that `engine.add_request` returns.
unfoldable pub register : ℕ → Worker → Worker
register seq_id w = record w {
  pending =
      w.pending ++ ((record { seq_id = seq_id; sent = 0; terminal = false; out_queue = [] }) ∷ []);
}

-- The `while` of `_dispatch`, over the tokens that were not sent.
unfoldable pub send : List ℕ → Handle → Handle
send [] h = h
send (t ∷ tokens) h =
    send tokens (record h { out_queue = h.out_queue ++ (token t ∷ []); sent = h.sent + 1 })

-- The end of a handle: marked, and put last in its queue.
unfoldable pub close : End → Handle → Handle
close e h = record h { terminal = true; out_queue = h.out_queue ++ (done e ∷ []) }

abbrev pub is_over : Status → Bool
is_over Status.finished = true
is_over _ = false

-- `finish_reason(...) or "stop"`.
abbrev pub reason_or_stop : Option Reason → Reason
reason_or_stop none = Reason.stop
reason_or_stop (some r) = r

-- What is still pending, and what is done.
unfoldable pub dispatch_all : (ℕ → Sequence) → Option ℕ → List Handle → List Handle × List Handle
unfolding send close
dispatch_all seqs eos_id [] = ([], [])
dispatch_all seqs eos_id (h ∷ hs) =
    let seq = seqs h.seq_id in
    let sent = send (drop h.sent seq.output_ids) h in
    let (still, over) = dispatch_all seqs eos_id hs in
    if is_over seq.status
    then (still, close (End.finished (reason_or_stop (finish_reason seq eos_id))) sent ∷ over)
    else (sent ∷ still, over)

unfoldable pub dispatch : (ℕ → Sequence) → Option ℕ → Worker → Worker
unfolding dispatch_all
dispatch seqs eos_id w =
    let (still, over) = dispatch_all seqs eos_id w.pending in
    record { pending = still; closed = w.closed ++ over }

unfoldable pub take_handle : ℕ → List Handle → Option (Handle × List Handle)
take_handle seq_id [] = none
take_handle seq_id (h ∷ hs) =
    let later = take_handle seq_id hs in
    if h.seq_id == seq_id
    then some (h, hs)
    else elim later [ none ↦ none | some (g, rest) ↦ some (g, h ∷ rest) ]

-- `_cancel`: nothing where the handle is not pending.
unfoldable pub cancel : ℕ → Worker → Worker
unfolding take_handle close
cancel seq_id w = elim (take_handle seq_id w.pending) [
  | none ↦ w
  | some (h, rest) ↦ record { pending = rest; closed = w.closed ++ (close End.cancelled h ∷ []) }
]
