-- ===== src/Ws/Session/Steps.antt =====
-- Frames go out in the order in which they were enqueued, and no state is gone back to: whole steps.
use ai_camera.Base.{
  ℕ, zero, suc, ◌≤◌, ◌≡◌, refl, ap, ◌∙◌, inl, inr, Bool, true, false, not, ◌&&◌, Option, none, some,
  List, [], ◌∷◌, ◌++◌, arith, ltb, leb, Bool-cases, length,
}
use mathlib.Core.List.{append_assoc}
use ai_camera.Ws.Types.{CloseCode, abnormal_closure, message_too_big, ping}
use ai_camera.Ws.Session.{
  Session, OutgoingItem, Input, received, read_fails, runs_posted, write_ends, timer_fires, sends,
  closes, Outcome, out_of_fuel, returns, breaks, do_close, close_session, send_frame, do_write,
  run_posted, after_write, on_written, on_heartbeat_timer, process_frame_buffer, end_processing,
  on_frame_data, on_read, on_write_end, step, run, frame_round,
}
use ai_camera.Ws.Session.Handlers.{round_session, frame_round-Kept}
use ai_camera.Ws.Session.Loop.{OnOutcome, process_frames_inv}
use ai_camera.Ws.Session.Order.{
  rank, Extends, Extends-refl, Extends-trans, Extends-append, Extends-append_right, Forward,
  Forward-refl, Forward-trans, do_close-Forward, close_session-Forward, send_frame-Forward,
  frame_round-Forward,
}

-- All items that were enqueued, in order: written, to be written, posted.
abbrev pub entries : Session → List OutgoingItem
entries s = s.written ++ (s.send_queue ++ s.posted)

-- The states come in order, and the items stay in the order in which they were enqueued.
pub record Ordered (s t : Session) : Type 0 where
  pub ranks : rank s.state ≤ rank t.state
  pub items : Extends (entries s) (entries t)

Ordered-refl : (s : Session) → Ordered s s
Ordered-refl s = record { ranks = omega arith; items = Extends-refl (entries s) }

Ordered-trans : (s t u : Session) → Ordered s t → Ordered t u → Ordered s u
Ordered-trans s t u f g = record {
  ranks = omega (arith, f.ranks, g.ranks);
  items = Extends-trans (entries s) (entries t) (entries u) f.items g.items;
}

-- A handler that writes nothing only adds to what is posted.
Forward-Ordered :
    (s t : Session)
    → t.written ≡ s.written
    → t.send_queue ≡ s.send_queue
    → Forward s t
    → Ordered s t
Forward-Ordered s t e f k = record {
  ranks = k.ranks;
  items =
      rw (e, f)
        (Extends-append_right s.written _ _ (Extends-append_right s.send_queue _ _ k.posts));
}

unchanged : (s t : Session) → t.state ≡ s.state → entries t ≡ entries s → Ordered s t
unchanged s t e f = record {
  ranks = omega (arith, ap rank e);
  items = rw f (Extends-refl (entries s));
}

-- The parts of `Kept` that `Ordered` needs.
record Inside (s t : Session) : Type 0 where
  forward : Forward s t
  written : t.written ≡ s.written
  queue : t.send_queue ≡ s.send_queue

Inside-Ordered : (s t : Session) → Inside s t → Ordered s t
Inside-Ordered s t i = Forward-Ordered s t i.written i.queue i.forward

do_close-Ordered : (s : Session) (code : CloseCode) → Ordered s (do_close s code)
do_close-Ordered s code =
    Forward-Ordered s _ (unfold do_close in ground arith) (unfold do_close in ground arith)
      (do_close-Forward s code)

close_session-Ordered :
    (s : Session) (code : CloseCode) (reason : List ℕ) → Ordered s (close_session s code reason)
close_session-Ordered s code reason =
    Forward-Ordered s _ (unfold close_session in ground arith)
      (unfold close_session in ground arith) (close_session-Forward s code reason)

end_processing-Ordered :
    (s : Session) (size : ℕ) (o : Outcome)
    → OnOutcome (Inside s) size o
    → Ordered s (end_processing s o)
unfolding end_processing
end_processing-Ordered s size out_of_fuel k = Ordered-refl s
end_processing-Ordered s size (returns t) k = Inside-Ordered s t k
end_processing-Ordered s size (breaks t rest) (k, le) = ground (arith, Inside-Ordered s t k)

process-Ordered : (s : Session) (now : ℕ) → Ordered s (process_frame_buffer s now)
unfolding process_frame_buffer
process-Ordered s now = end_processing-Ordered s _ _ (
    process_frames_inv (Inside s) now keeps _ s s.frame_buf
      (record { forward = Forward-refl s; written = refl; queue = refl }))
  where
    keeps :
        (t : Session) (bs : List ℕ) → Inside s t → Inside s (round_session (frame_round t bs now))
    keeps t bs i =
        let k = frame_round-Kept t bs now in
        record {
          forward = Forward-trans s t _ i.forward (frame_round-Forward t bs now);
          written = k.written ∙ i.written;
          queue = k.send_queue ∙ i.queue;
        }

on_frame_data-Ordered :
    (s : Session) (bytes : List ℕ) (now : ℕ) → Ordered s (on_frame_data s bytes now)
unfolding on_frame_data
on_frame_data-Ordered s bytes now =
    elim (Bool-cases (ltb s.options.max_frame_buffer_bytes (length (s.frame_buf ++ bytes)))) [
      | inl e ↦ rw e (
          Ordered-trans s appended _ (unchanged s _ refl refl)
            (close_session-Ordered appended message_too_big _))
      | inr e ↦
          rw e (Ordered-trans s appended _ (unchanged s _ refl refl) (process-Ordered appended now))
    ]
  where
    appended : Session
    appended = record s { frame_buf = s.frame_buf ++ bytes }

do_write-Ordered : (s : Session) (queue : List OutgoingItem) → Ordered s (do_write s queue)
unfolding do_write
do_write-Ordered s [] = unchanged s _ refl refl
do_write-Ordered s (item ∷ items) = unchanged s _ refl refl

-- The posted item goes to the end of the queue: the sequence stays as it is.
run_posted-Ordered :
    (s : Session) (posted : List OutgoingItem) → s.posted ≡ posted → Ordered s (run_posted s posted)
unfolding run_posted
run_posted-Ordered s [] e = Ordered-refl s
run_posted-Ordered s (item ∷ items) e =
    elim (Bool-cases (leb (length s.send_queue) 0 && not s.writing)) [
      | inl b ↦ rw b (Ordered-trans s queued _ moved (do_write-Ordered queued _))
      | inr b ↦ rw b moved
    ]
  where
    queued : Session
    queued = record s { posted = items; send_queue = s.send_queue ++ (item ∷ []) }

    moved : Ordered s queued
    moved = record {
      ranks = omega arith;
      items = rw (append_assoc, e) (Extends-refl (s.written ++ (s.send_queue ++ (item ∷ items))));
    }

after_write-Ordered : (s : Session) (is_close ec : Bool) → Ordered s (after_write s is_close ec)
unfolding after_write
after_write-Ordered s is_close true =
    Ordered-trans s (record s { writing = false }) _ (unchanged s _ refl refl)
      (do_close-Ordered (record s { writing = false }) abnormal_closure)
after_write-Ordered s true false =
    Ordered-trans s (record s { writing = false }) _ (unchanged s _ refl refl)
      (do_close-Ordered (record s { writing = false }) _)
after_write-Ordered s false false = elim (Bool-cases (not (leb (length s.send_queue) 0))) [
  | inl b ↦ rw b (do_write-Ordered s s.send_queue)
  | inr b ↦ rw b (unchanged s _ refl refl)
]

on_written-Ordered :
    (s : Session) (queue : List OutgoingItem) (is_close ec : Bool)
    → s.send_queue ≡ queue
    → Ordered s (on_written s queue is_close ec)
unfolding on_written
on_written-Ordered s [] is_close ec e = Ordered-refl s
on_written-Ordered s (item ∷ items) is_close ec e =
    Ordered-trans s popped _ moved (after_write-Ordered popped is_close ec)
  where
    popped : Session
    popped = record s { send_queue = items; in_flight = none; written = s.written ++ (item ∷ []) }

    moved : Ordered s popped
    moved = record {
      ranks = omega arith;
      items = rw (append_assoc, e) (Extends-refl (s.written ++ ((item ∷ items) ++ s.posted)));
    }

timer-Ordered : (s : Session) (now : ℕ) → Ordered s (on_heartbeat_timer s now)
unfolding on_heartbeat_timer send_frame
timer-Ordered s now = ground (
  arith,
  Ordered-refl s,
  unchanged s (record s { timer = true }) refl refl,
  do_close-Ordered s abnormal_closure,
  Forward-Ordered s
      (record (send_frame (record s { awaiting_pong = true }) ping []) { timer = true }) refl refl
      (record { ranks = omega arith; posts = Extends-append s.posted _ }),
)

on_read-Ordered :
    (s : Session) (n : ℕ) (k : Session → Session)
    → ((t : Session) → Ordered t (k t))
    → Ordered s (on_read s n k)
unfolding on_read
on_read-Ordered s zero k f = Ordered-refl s
on_read-Ordered s (suc n) k f =
    Ordered-trans s (record s { reading = n }) _ (unchanged s _ refl refl) (f _)

on_write_end-Ordered : (s : Session) (o : Option Bool) (ec : Bool) → Ordered s (on_write_end s o ec)
unfolding on_write_end
on_write_end-Ordered s none ec = Ordered-refl s
on_write_end-Ordered s (some c) ec = on_written-Ordered s s.send_queue c ec refl

-- No input takes a session back to an earlier state, and none drops, duplicates or reorders a frame
-- that was enqueued: the items written, then those in the send queue, then those posted to the
-- strand are always a sequence that later inputs only extend at its end.
pub step-Ordered : (s : Session) (i : ℕ × Input) → Ordered s (step s i)
unfolding step
step-Ordered s (now, received bytes) =
    on_read-Ordered s s.reading _ (λ t. on_frame_data-Ordered t bytes now)
step-Ordered s (now, read_fails) =
    on_read-Ordered s s.reading _ (λ t. do_close-Ordered t abnormal_closure)
step-Ordered s (now, runs_posted) = run_posted-Ordered s s.posted refl
step-Ordered s (now, write_ends ec) = on_write_end-Ordered s s.in_flight ec
step-Ordered s (now, timer_fires) = ground (
  arith,
  Ordered-refl s,
  Ordered-trans s (record s { timer = false }) _ (unchanged s _ refl refl)
      (timer-Ordered (record s { timer = false }) now),
)
step-Ordered s (now, sends op payload) =
    Forward-Ordered s _ (unfold send_frame in refl) (unfold send_frame in refl)
      (send_frame-Forward s op payload)
step-Ordered s (now, closes code reason) = close_session-Ordered s code reason

pub run-Ordered : (s : Session) (is : List (ℕ × Input)) → Ordered s (run s is)
unfolding run
run-Ordered s [] = Ordered-refl s
run-Ordered s (i ∷ is) = Ordered-trans s (step s i) _ (step-Ordered s i) (run-Ordered (step s i) is)
