-- ===== src/Ws/Session/Waiting.antt =====
-- A session of src/server/ws/ws_session.cpp that waits for a pong, while the peer is silent.
use ai_camera.Base.{
  All, All-append, if_either, Bool, Option, none, some, refl, length, ◌&&◌, ℕ, ◌≡◌, true, false,
  not, List, [], ◌∷◌, ◌++◌, leb,
}
use ai_camera.Ws.Frame.{encode_server_frame}
use ai_camera.Ws.Session.{
  active, Session, OutgoingItem, Input, received, runs_posted, write_ends, sends, closes,
  run_posted, do_write, after_write, on_written, on_write_end, read_fails, timer_fires, send_frame,
  step, run,
}

abbrev AllPlain : List OutgoingItem → Type 0
AllPlain = All (λ item. item.is_close ≡ false)

abbrev IsPlain : Option Bool → Type 0
IsPlain none = Unit
IsPlain (some is_close) = is_close ≡ false

-- No close frame is on its way.
pub record Plain (s : Session) : Type 0 where
  pub posted : AllPlain s.posted
  pub queued : AllPlain s.send_queue
  pub flying : IsPlain s.in_flight

-- What may come between two heartbeats while the peer is silent: a posted closure runs, a write ends
-- without an error, the user sends.
abbrev pub IsCalm : ℕ × Input → Type 0
IsCalm (now, runs_posted) = Unit
IsCalm (now, write_ends ec) = ec ≡ false
IsCalm (now, sends op payload) = Unit
IsCalm _ = ⊥

-- A session that waits for a pong, behind another.
pub record Waits (s0 s : Session) : Type 0 where
  pub state : s.state ≡ active
  pub timer : s.timer ≡ true
  pub awaiting : s.awaiting_pong ≡ true
  pub last : s.last_activity ≡ s0.last_activity
  pub timeout : s.options.heartbeat_timeout ≡ s0.options.heartbeat_timeout
  pub handler : s.close_handler ≡ s0.close_handler
  pub server : s.has_server ≡ s0.has_server
  pub log : s.log ≡ s0.log
  pub plain : Plain s

module _ (s0 : Session) where
  do_write-Waits :
      (s : Session) (items : List OutgoingItem)
      → AllPlain items
      → Waits s0 s
      → Waits s0 (do_write s items)
  unfolding do_write
  do_write-Waits s [] h w = record {
    state = w.state;
    timer = w.timer;
    awaiting = w.awaiting;
    last = w.last;
    timeout = w.timeout;
    handler = w.handler;
    server = w.server;
    log = w.log;
    plain = record { posted = w.plain.posted; queued = w.plain.queued; flying = w.plain.flying };
  }
  do_write-Waits s (item ∷ items) (h, hs) w = record {
    state = w.state;
    timer = w.timer;
    awaiting = w.awaiting;
    last = w.last;
    timeout = w.timeout;
    handler = w.handler;
    server = w.server;
    log = w.log;
    plain = record { posted = w.plain.posted; queued = w.plain.queued; flying = h };
  }

  -- The session with other posted and queued frames, and another write.
  moved :
      (s : Session) (posted queue written : List OutgoingItem) (flight : Option Bool)
      → AllPlain posted
      → AllPlain queue
      → IsPlain flight
      → Waits s0 s
      → Waits s0
          (record s { posted = posted; send_queue = queue; in_flight = flight; written = written })
  moved s posted queue written flight p q f w = record {
    state = w.state;
    timer = w.timer;
    awaiting = w.awaiting;
    last = w.last;
    timeout = w.timeout;
    handler = w.handler;
    server = w.server;
    log = w.log;
    plain = record { posted = p; queued = q; flying = f };
  }

  run_posted-Waits :
      (s : Session) (items : List OutgoingItem)
      → AllPlain items
      → Waits s0 s
      → Waits s0 (run_posted s items)
  unfolding run_posted
  run_posted-Waits s [] h w = w
  run_posted-Waits s (item ∷ items) (h, hs) w =
      let queue = s.send_queue ++ (item ∷ []) in
      let s1 : Session = record s { posted = items; send_queue = queue } in
      let queued : AllPlain queue =
        All-append (λ item. item.is_close ≡ false) s.send_queue (item ∷ []) w.plain.queued
          (h, tt) in
      let waits : Waits s0 s1 =
        moved s items queue s.written s.in_flight hs queued w.plain.flying w in
      if_either (Waits s0) (leb (length s.send_queue) 0 && not s.writing) (do_write s1 queue) s1
        (do_write-Waits s1 queue queued waits) waits

  on_written-Waits :
      (s : Session) (items : List OutgoingItem)
      → AllPlain items
      → Waits s0 s
      → Waits s0 (on_written s items false false)
  unfolding on_written after_write do_write
  on_written-Waits s [] h w = w
  on_written-Waits s (item ∷ items) (h, hs) w =
      let t : Session = record s {
        send_queue = items;
        in_flight = none;
        written = s.written ++ (item ∷ []);
      } in
      let waits : Waits s0 t =
        moved s s.posted items (s.written ++ (item ∷ [])) none w.plain.posted hs tt w in
      if_either (Waits s0) (not (leb (length items) 0)) (do_write t items)
        (record t { writing = false }) (do_write-Waits t items hs waits)
        (do_write-Waits t [] tt waits)

  write_end-Waits :
      (s : Session) (flight : Option Bool)
      → IsPlain flight
      → Waits s0 s
      → Waits s0 (on_write_end s flight false)
  unfolding on_write_end
  write_end-Waits s none h w = w
  write_end-Waits s (some false) h w = on_written-Waits s s.send_queue w.plain.queued w
  write_end-Waits s (some true) h w = cc

  step-Waits : (s : Session) (i : ℕ × Input) → IsCalm i → Waits s0 s → Waits s0 (step s i)
  unfolding step send_frame
  step-Waits s (now, runs_posted) calm w = run_posted-Waits s s.posted w.plain.posted w
  step-Waits s (now, write_ends false) calm w = write_end-Waits s s.in_flight w.plain.flying w
  step-Waits s (now, write_ends true) calm w = cc
  step-Waits s (now, sends op payload) calm w =
      moved s
        (s.posted
          ++ (record { bytes = encode_server_frame true op payload; is_close = false } ∷ []))
        s.send_queue s.written s.in_flight
        (All-append (λ item. item.is_close ≡ false) s.posted
          (record { bytes = encode_server_frame true op payload; is_close = false } ∷ [])
          w.plain.posted (refl, tt))
        w.plain.queued w.plain.flying w
  step-Waits s (now, received bytes) calm w = elim calm [ ]
  step-Waits s (now, read_fails) calm w = elim calm [ ]
  step-Waits s (now, timer_fires) calm w = elim calm [ ]
  step-Waits s (now, closes code reason) calm w = elim calm [ ]

  pub run-Waits :
      (s : Session) (is : List (ℕ × Input)) → All IsCalm is → Waits s0 s → Waits s0 (run s is)
  unfolding run
  run-Waits s [] h w = w
  run-Waits s (i ∷ is) (h, hs) w = run-Waits (step s i) is hs (step-Waits s i h w)
