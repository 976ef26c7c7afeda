-- ===== src/Ws/Session/Closing.antt =====
-- How sessions end: protocol errors, time-outs, and the close handler.
use ai_camera.Base.{
  ℕ, zero, suc, ◌-◌, ◌<◌, ◌≡◌, ap, ◌∙◌, true, false, not, List, [], ◌∷◌, ◌++◌, arith, leb,
  if◌then◌else◌,
}
use mathlib.Core.List.{append_assoc}
use ai_camera.Ws.Types.{ping, CloseCode, abnormal_closure}
use ai_camera.Ws.Frame.{encode_server_frame}
use ai_camera.Ws.Session.{
  active, closed, Session, Event, OutgoingItem, close_notified, removed, read_fails, do_close,
  on_read, step,
}

-- The calls that `DoClose` makes: the close handler, then the server's table.
abbrev pub notices : Session → CloseCode → List Event
notices s code =
    (if s.close_handler then close_notified code ∷ [] else [])
    ++ (if s.has_server then removed ∷ [] else [])

-- `DoClose` makes the same calls in every state, also on a session that is closed.
do_close-log :
    (s : Session) (code : CloseCode)
    → ((do_close s code).log ≡ s.log ++ notices s code) × ((do_close s code).state ≡ closed)
unfolding do_close
do_close-log s code = ground arith

read_fails_log :
    (s : Session) (n : ℕ)
    → 0 < n
    → (on_read s n (λ t. do_close t abnormal_closure)).log ≡ s.log ++ notices s abnormal_closure
unfolding on_read
read_fails_log s zero h = absurd (omega arith)
read_fails_log s (suc n) h = (do_close-log (record s { reading = n }) abnormal_closure).0

-- The end of the read that was under way when a session was closed calls the close handler and the
-- server again, with the code of an abnormal closure: two notices of one closure.
pub closed_notified_again :
    (s : Session) (code : CloseCode) (now : ℕ)
    → 0 < s.reading
    → (step (do_close s code) (now, read_fails)).log
      ≡ s.log ++ (notices s code ++ notices s abnormal_closure)
unfolding step
closed_notified_again s code now h =
    read_fails_log (do_close s code) (do_close s code).reading (unfold do_close in ground arith)
    ∙ ap (λ (l : List Event). l ++ notices (do_close s code) abnormal_closure)
        (do_close-log s code).0
    ∙ append_assoc s.log (notices s code) (notices (do_close s code) abnormal_closure)
    ∙ ap (λ (l : List Event). s.log ++ (notices s code ++ l)) (unfold do_close in ground arith)

abbrev pub ping_item : OutgoingItem
ping_item = record { bytes = encode_server_frame true ping []; is_close = false }

-- The second heartbeat, of a session that waits for a pong.
abbrev pub SecondHeartbeat : Session → Session → ℕ → Session → Type 0
SecondHeartbeat s0 s now u =
    let over = leb s0.options.heartbeat_timeout (now - s0.last_activity) in
    (u.state ≡ (if over then closed else active))
    × (u.timer ≡ not over)
    × (u.log ≡ s0.log ++ (if over then notices s0 abnormal_closure else []))
    × (u.posted ≡ s.posted)
