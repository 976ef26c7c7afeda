-- ===== src/Ws/Session/Loop.antt =====
-- The loop of `ProcessFrameBuffer` ends, and keeps what every round keeps.
use ai_camera.Base.{
  ℕ, zero, suc, ◌≤◌, ◌≡◌, ◌≢◌, ◌⊎◌, inl, inr, List, [], ◌∷◌, arith, length, drop, length-drop,
}
use ai_camera.Ws.Frame.{Header, default_header, frame_total_size, parse_header}
use ai_camera.Ws.Frame.Bounds.{Sized, parse_header-Sized}
use ai_camera.Ws.Session.{
  Session, Round, ended, waits, handled, Outcome, out_of_fuel, returns, breaks, handle_frame,
  frame_round, process_frames, refresh_heartbeat, payload_of,
}
use ai_camera.Ws.Session.Handlers.{round_session, on_header_cases, Complete}

-- A round that handles a frame takes the frame's bytes: two at least, and no more than there are.
abbrev Takes : ℕ → Round → Type 0
Takes size (ended s) = Unit
Takes size (waits s) = Unit
Takes size (handled s n) = (2 ≤ n) × (n ≤ size)

handle_frame-Takes :
    (size : ℕ) (s : Session) (h : Header) (p : List ℕ)
    → 2 ≤ frame_total_size h
    → frame_total_size h ≤ size
    → Takes size (handle_frame s h p)
unfolding handle_frame
handle_frame-Takes size s h p a b = ground arith

pub frame_round-Takes :
    (s : Session) (bs : List ℕ) (now : ℕ) → Takes (length bs) (frame_round s bs now)
unfolding frame_round
frame_round-Takes s bs now =
    on_header_cases (Takes (length bs)) s bs now _ _ tt tt (λ reason. tt)
      (λ c. sized c (parse_header-Sized bs default_header))
  where
    r : ℕ × Header
    r = parse_header bs default_header

    sized :
        Complete s bs r.0 r.1
        → (r.0 ≡ 0) ⊎ Sized bs r
        → Takes (length bs) (handle_frame (refresh_heartbeat s now) r.1 (payload_of r.1 bs))
    sized c (inl e) = absurd (c.sized e)
    sized c (inr z) = handle_frame-Takes _ _ _ _ (omega arith) c.fits

process_frames-ends :
    (fuel : ℕ) (s : Session) (bs : List ℕ) (now : ℕ)
    → length bs ≤ fuel
    → process_frames fuel s bs now ≢ out_of_fuel
unfolding process_frames
process_frames-ends fuel s [] now h = λ e. cc
process_frames-ends zero s (b ∷ bs) now h = absurd (omega arith)
process_frames-ends (suc fuel) s (b ∷ bs) now h =
    on_round (frame_round s (b ∷ bs) now) (frame_round-Takes s (b ∷ bs) now)
      (λ t n le. process_frames-ends fuel t (drop n (b ∷ bs)) now le)
  where
    on_round :
        (r : Round)
        → Takes (length (b ∷ bs)) r
        → ((t : Session) (n : ℕ)
            → length (drop n (b ∷ bs)) ≤ fuel
            → process_frames fuel t (drop n (b ∷ bs)) now ≢ out_of_fuel)
        → (elim r [
          | ended s' ↦ returns s'
          | waits s' ↦ breaks s' (b ∷ bs)
          | handled s' n ↦ process_frames fuel s' (drop n (b ∷ bs)) now
        ])
          ≢ out_of_fuel
    on_round (ended t) k rec e = cc
    on_round (waits t) k rec e = cc
    on_round (handled t n) k rec e = rec t n (omega (arith, length-drop n (b ∷ bs))) e

-- The loop ends on every buffer: with the buffer's length for fuel it never runs out.
pub process_frame_buffer-ends :
    (s : Session) (now : ℕ) → process_frames (length s.frame_buf) s s.frame_buf now ≢ out_of_fuel
process_frame_buffer-ends s now = process_frames-ends _ s s.frame_buf now (omega arith)

-- What is true of the session that the loop leaves; a break leaves a part of the buffer.
abbrev pub OnOutcome {ℓ} : (Session → Type ℓ) → ℕ → Outcome → Type ℓ
OnOutcome P size out_of_fuel = Unit
OnOutcome P size (returns t) = P t
OnOutcome P size (breaks t rest) = P t × (length rest ≤ size)

OnOutcome-mono {ℓ} :
    (P : Session → Type ℓ) (m n : ℕ) (o : Outcome) → m ≤ n → OnOutcome P m o → OnOutcome P n o
OnOutcome-mono P m n out_of_fuel h k = tt
OnOutcome-mono P m n (returns t) h k = k
OnOutcome-mono P m n (breaks t rest) h k = (k.0, omega arith)

module _ {ℓ} (P : Session → Type ℓ) (now : ℕ)
    (keeps : (s : Session) (bs : List ℕ) → P s → P (round_session (frame_round s bs now))) where
  -- What every round keeps, the loop keeps.
  pub process_frames_inv :
      (fuel : ℕ) (s : Session) (bs : List ℕ)
      → P s
      → OnOutcome P (length bs) (process_frames fuel s bs now)
  unfolding process_frames
  process_frames_inv fuel s [] h = (h, omega arith)
  process_frames_inv zero s (b ∷ bs) h = tt
  process_frames_inv (suc fuel) s (b ∷ bs) h =
      on_round (frame_round s (b ∷ bs) now) (keeps s (b ∷ bs) h)
        (λ t n k. process_frames_inv fuel t (drop n (b ∷ bs)) k)
    where
      on_round :
          (r : Round)
          → P (round_session r)
          → ((t : Session) (n : ℕ)
              → P t
              → OnOutcome P
                  (length (drop n (b ∷ bs)))
                  (process_frames fuel t (drop n (b ∷ bs)) now))
          → OnOutcome P (length (b ∷ bs)) (elim r [
            | ended s' ↦ returns s'
            | waits s' ↦ breaks s' (b ∷ bs)
            | handled s' n ↦ process_frames fuel s' (drop n (b ∷ bs)) now
          ])
      on_round (ended t) k rec = k
      on_round (waits t) k rec = (k, omega arith)
      on_round (handled t n) k rec =
          OnOutcome-mono P _ _ _ (omega (arith, length-drop n (b ∷ bs))) (rec t n k)
