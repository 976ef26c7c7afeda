-- ===== src/Ws/Session/Invariant.antt =====
-- The invariant of a session over all its handlers.
use ai_camera.Base.{
  ℕ, zero, suc, ◌≤◌, ◌≡◌, refl, ◌⊎◌, inl, inr, Bool, true, false, not, ◌&&◌, Option, none, some,
  List, [], ◌∷◌, ◌++◌, arith, ltb, leb, Bool-cases, length,
}
use ai_camera.Ws.Types.{CloseCode, abnormal_closure}
use ai_camera.Ws.Session.{
  Session, OutgoingItem, Input, received, read_fails, runs_posted, write_ends, timer_fires, sends,
  closes, Outcome, out_of_fuel, returns, breaks, do_close, close_session, send_frame, do_write,
  run_posted, after_write, on_written, on_heartbeat_timer, process_frame_buffer, frame_round,
  end_processing, on_frame_data, on_read, on_write_end, step, run,
}
use ai_camera.Ws.Session.Handlers.{
  round_session, Kept, Kept-trans, MessageFits, frame_round-Kept, frame_round-MessageFits,
  close_session-Kept, close_session-MessageFits, do_close-Kept, do_close-MessageFits,
}
use ai_camera.Ws.Session.Loop.{OnOutcome, process_frames_inv}

-- The write under way is of the item at the front of the queue.
abbrev pub Front : Option Bool → List OutgoingItem → Type 0
Front none queue = Unit {0}
Front (some is_close) [] = ⊥
Front (some is_close) (item ∷ items) = item.is_close ≡ is_close

abbrev pub is_some : Option Bool → Bool
is_some none = false
is_some (some c) = true

-- At most one write and one read are under way, the write is of the queue's front, a read is only
-- under way with a buffer within its limit, and the message under assembly is within its limit.
pub record WellFormed (s : Session) : Type 0 where
  pub one_write : s.writing ≡ is_some s.in_flight
  pub front : Front s.in_flight s.send_queue
  pub one_read : s.reading ≤ 1
  pub buffer : (s.reading ≡ 0) ⊎ (length s.frame_buf ≤ s.options.max_frame_buffer_bytes)
  pub message : MessageFits s

-- Inside the loop: no read is under way, and the handlers keep what they must.
record Inside (s t : Session) : Type 0 where
  kept : Kept s t
  fits : MessageFits t

Kept-WellFormed : {s t : Session} → WellFormed s → Kept s t → MessageFits t → WellFormed t
Kept-WellFormed w k m = record {
  one_write = ground arith;
  front = rw (k.in_flight, k.send_queue) w.front;
  one_read = ground arith;
  buffer = ground arith;
  message = m;
}

do_close-WellFormed : (s : Session) (code : CloseCode) → WellFormed s → WellFormed (do_close s code)
do_close-WellFormed s code w =
    Kept-WellFormed w (do_close-Kept s code) (do_close-MessageFits s code w.message)

close_session-WellFormed :
    (s : Session) (code : CloseCode) (reason : List ℕ)
    → WellFormed s
    → WellFormed (close_session s code reason)
close_session-WellFormed s code reason w =
    Kept-WellFormed w (close_session-Kept s code reason)
      (close_session-MessageFits s code reason w.message)

-- The loop, started with no read under way on a buffer within its limit.
end_processing-WellFormed :
    (s : Session) (o : Outcome)
    → WellFormed s
    → s.reading ≡ 0
    → length s.frame_buf ≤ s.options.max_frame_buffer_bytes
    → OnOutcome (Inside s) (length s.frame_buf) o
    → WellFormed (end_processing s o)
unfolding end_processing
end_processing-WellFormed s out_of_fuel w r b k = w
end_processing-WellFormed s (returns t) w r b k = Kept-WellFormed w k.kept k.fits
end_processing-WellFormed s (breaks t rest) w r b (k, le) =
    ground (arith, Kept-WellFormed w k.kept k.fits)

process_frame_buffer-WellFormed :
    (s : Session) (now : ℕ)
    → WellFormed s
    → s.reading ≡ 0
    → length s.frame_buf ≤ s.options.max_frame_buffer_bytes
    → WellFormed (process_frame_buffer s now)
unfolding process_frame_buffer
process_frame_buffer-WellFormed s now w r b = end_processing-WellFormed s _ w r b (
    process_frames_inv (Inside s) now keeps _ s s.frame_buf
      (record { kept = ground arith; fits = w.message }))
  where
    keeps :
        (t : Session) (bs : List ℕ) → Inside s t → Inside s (round_session (frame_round t bs now))
    keeps t bs i = record {
      kept = Kept-trans i.kept (frame_round-Kept t bs now);
      fits = frame_round-MessageFits t bs now i.fits;
    }

on_frame_data-WellFormed :
    (s : Session) (bytes : List ℕ) (now : ℕ)
    → WellFormed s
    → s.reading ≡ 0
    → WellFormed (on_frame_data s bytes now)
unfolding on_frame_data
on_frame_data-WellFormed s bytes now w r =
    elim (Bool-cases (ltb s.options.max_frame_buffer_bytes (length (s.frame_buf ++ bytes)))) [
      | inl e ↦ rw e (close_session-WellFormed _ _ _ appended)
      | inr e ↦ rw e (process_frame_buffer-WellFormed _ now appended r (ground arith))
    ]
  where
    appended : WellFormed (record s { frame_buf = s.frame_buf ++ bytes })
    appended = record {
      one_write = w.one_write;
      front = w.front;
      one_read = w.one_read;
      buffer = inl r;
      message = record { size = w.message.size; between = w.message.between };
    }

do_write-WellFormed :
    (s : Session) (queue : List OutgoingItem)
    → s.send_queue ≡ queue
    → s.in_flight ≡ none
    → WellFormed s
    → WellFormed (do_write s queue)
unfolding do_write
do_write-WellFormed s [] e f w = record {
  one_write = ground arith;
  front = rw f tt;
  one_read = w.one_read;
  buffer = w.buffer;
  message = record { size = w.message.size; between = w.message.between };
}
do_write-WellFormed s (item ∷ items) e f w = record {
  one_write = refl;
  front = rw e refl;
  one_read = w.one_read;
  buffer = w.buffer;
  message = record { size = w.message.size; between = w.message.between };
}

Front-append :
    (f : Option Bool) (queue more : List OutgoingItem) → Front f queue → Front f (queue ++ more)
Front-append none queue more h = tt
Front-append (some c) [] more h = absurd h
Front-append (some c) (item ∷ items) more h = h

none_of_is_some : (o : Option Bool) → is_some o ≡ false → o ≡ none
none_of_is_some none e = refl
none_of_is_some (some c) e = cc

-- With nothing being written the queue can be replaced.
set_queue-WellFormed :
    (s : Session) (queue posted : List OutgoingItem)
    → Front s.in_flight queue
    → WellFormed s
    → WellFormed (record s { posted = posted; send_queue = queue })
set_queue-WellFormed s queue posted f w = record {
  one_write = w.one_write;
  front = f;
  one_read = w.one_read;
  buffer = w.buffer;
  message = record { size = w.message.size; between = w.message.between };
}

run_posted-WellFormed :
    (s : Session) (posted : List OutgoingItem) → WellFormed s → WellFormed (run_posted s posted)
unfolding run_posted
run_posted-WellFormed s [] w = w
run_posted-WellFormed s (item ∷ items) w =
    elim (Bool-cases (leb (length s.send_queue) 0 && not s.writing)) [
      | inl e ↦
          rw e (do_write-WellFormed _ _ refl (none_of_is_some s.in_flight (ground arith)) queued)
      | inr e ↦ rw e queued
    ]
  where
    queued : WellFormed (record s { posted = items; send_queue = s.send_queue ++ (item ∷ []) })
    queued =
        set_queue-WellFormed s _ items (Front-append s.in_flight s.send_queue (item ∷ []) w.front) w

-- When a write has ended nothing is being written, whatever `writing` says.
abbrev idle : Session → Bool → Session
idle s w = record s { writing = w }

idle-WellFormed :
    (s : Session)
    → s.in_flight ≡ none
    → s.reading ≤ 1
    → (s.reading ≡ 0) ⊎ (length s.frame_buf ≤ s.options.max_frame_buffer_bytes)
    → MessageFits s
    → WellFormed (idle s false)
idle-WellFormed s e r b m = record {
  one_write = rw e;
  front = rw e tt;
  one_read = r;
  buffer = b;
  message = record { size = m.size; between = m.between };
}

do_write-idle :
    (s : Session) (queue : List OutgoingItem) → do_write (idle s false) queue ≡ do_write s queue
unfolding do_write
do_write-idle s [] = refl
do_write-idle s (item ∷ items) = refl

after_write-WellFormed :
    (s : Session) (is_close ec : Bool)
    → s.in_flight ≡ none
    → WellFormed (idle s false)
    → WellFormed (after_write s is_close ec)
unfolding after_write
after_write-WellFormed s is_close true e w = do_close-WellFormed _ abnormal_closure w
after_write-WellFormed s true false e w = do_close-WellFormed _ _ w
after_write-WellFormed s false false e w = elim (Bool-cases (not (leb (length s.send_queue) 0))) [
  | inl b ↦ rw b (
      rw (do_write-idle s s.send_queue) at
        (do_write-WellFormed (idle s false) s.send_queue refl e w))
  | inr b ↦ rw b w
]

on_written-WellFormed :
    (s : Session) (queue : List OutgoingItem) (is_close ec : Bool)
    → WellFormed s
    → WellFormed (on_written s queue is_close ec)
unfolding on_written
on_written-WellFormed s [] is_close ec w = w
on_written-WellFormed s (item ∷ items) is_close ec w =
    after_write-WellFormed popped is_close ec refl (
      idle-WellFormed popped refl w.one_read w.buffer
        (record { size = w.message.size; between = w.message.between }))
  where
    popped : Session
    popped = record s { send_queue = items; in_flight = none; written = s.written ++ (item ∷ []) }

on_heartbeat_timer-WellFormed :
    (s : Session) (now : ℕ) → WellFormed s → WellFormed (on_heartbeat_timer s now)
unfolding on_heartbeat_timer send_frame do_close
on_heartbeat_timer-WellFormed s now w = Kept-WellFormed w (ground arith) (ground arith)

on_read-WellFormed :
    (s : Session) (n : ℕ) (k : Session → Session)
    → s.reading ≡ n
    → WellFormed s
    → ((t : Session) → WellFormed t → t.reading ≡ 0 → WellFormed (k t))
    → WellFormed (on_read s n k)
unfolding on_read
on_read-WellFormed s zero k e w f = w
on_read-WellFormed s (suc n) k e w f =
    f _
      (record {
        one_write = w.one_write;
        front = w.front;
        one_read = omega arith;
        buffer = inl (omega arith);
        message = record { size = w.message.size; between = w.message.between };
      })
      (omega arith)

on_write_end-WellFormed :
    (s : Session) (o : Option Bool) (ec : Bool) → WellFormed s → WellFormed (on_write_end s o ec)
unfolding on_write_end
on_write_end-WellFormed s none ec w = w
on_write_end-WellFormed s (some c) ec w = on_written-WellFormed s s.send_queue c ec w

-- Every input keeps a session well formed: at most one write is under way, that of the front of
-- the send queue, exactly while `writing_` is set; at most one read is, and then the frame buffer
-- is within its limit; the message under assembly is within its limit, and empty between messages.
pub step-WellFormed : (s : Session) (i : ℕ × Input) → WellFormed s → WellFormed (step s i)
unfolding step
step-WellFormed s (now, received bytes) w =
    on_read-WellFormed s s.reading _ refl w (λ t v r. on_frame_data-WellFormed t bytes now v r)
step-WellFormed s (now, read_fails) w =
    on_read-WellFormed s s.reading _ refl w (λ t v r. do_close-WellFormed t abnormal_closure v)
step-WellFormed s (now, runs_posted) w = run_posted-WellFormed s s.posted w
step-WellFormed s (now, write_ends ec) w = on_write_end-WellFormed s s.in_flight ec w
step-WellFormed s (now, timer_fires) w = ground (
  arith,
  on_heartbeat_timer-WellFormed (record s { timer = false }) now
      (Kept-WellFormed w (ground arith) (ground arith)),
  w,
)
step-WellFormed s (now, sends op payload) w =
    Kept-WellFormed w (unfold send_frame in ground arith) (unfold send_frame in ground arith)
step-WellFormed s (now, closes code reason) w = close_session-WellFormed s code reason w

run-WellFormed : (s : Session) (is : List (ℕ × Input)) → WellFormed s → WellFormed (run s is)
unfolding run
run-WellFormed s [] w = w
run-WellFormed s (i ∷ is) w = run-WellFormed (step s i) is (step-WellFormed s i w)
