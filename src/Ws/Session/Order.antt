-- ===== src/Ws/Session/Order.antt =====
-- Frames go out in the order in which they were enqueued, and a state is never gone back to.
use ai_camera.Base.{
  ℕ, ◌≤◌, ◌≡◌, refl, sym, ap, inl, inr, Bool, true, not, List, [], ◌∷◌, ◌++◌, arith, Bool-cases,
  length, take, drop, length-take, take-append-drop, take-length, take-append_le,
}
use ai_camera.Ws.Types.{
  CloseCode, OpCode, message_too_big, close, ping, text, binary, continuation, pong, protocol_error,
}
use ai_camera.Ws.Frame.{Header}
use ai_camera.Ws.Session.{
  State, handshaking, active, closing, closed, Session, Flow, returned, goes_on, do_close,
  close_session, send_frame, handle_control_frame, handle_data_frame, start_message,
  continue_message, absorb, end_data_frame, deliver_message, handle_frame, frame_round,
  refresh_heartbeat, too_large, is_active,
}
use ai_camera.Ws.Session.Handlers.{round_session, OnFlow, on_header_cases}

abbrev pub rank : State → ℕ
rank handshaking = 0
rank active = 1
rank closing = 2
rank closed = 3

module _ {ℓ} {A : Type ℓ} where
  -- `ys` is `xs` with more behind it.
  abbrev pub Extends : List A → List A → Type ℓ
  Extends xs ys = take (length xs) ys ≡ xs

  pub Extends-refl : (xs : List A) → Extends xs xs
  Extends-refl [] = refl
  Extends-refl (x ∷ xs) = ap (◌∷◌ x) (Extends-refl xs)

  pub Extends-append : (xs more : List A) → Extends xs (xs ++ more)
  Extends-append xs more = take-length xs more

  Extends-drop : (xs ys : List A) → Extends xs ys → ys ≡ xs ++ drop (length xs) ys
  Extends-drop xs ys e = sym (rw e at (take-append-drop (length xs) ys))

  pub Extends-trans : (xs ys zs : List A) → Extends xs ys → Extends ys zs → Extends xs zs
  Extends-trans xs ys zs e f = rw (Extends-drop ys zs f) (
      rw
        (take-append_le (length xs) ys (drop (length ys) zs)
          (omega (arith, ap length e, length-take (length xs) ys)))
        e)

  pub Extends-append_right : (ws xs ys : List A) → Extends xs ys → Extends (ws ++ xs) (ws ++ ys)
  Extends-append_right [] xs ys e = e
  Extends-append_right (w ∷ ws) xs ys e = ap (◌∷◌ w) (Extends-append_right ws xs ys e)

-- A step forward: no state is gone back to, and nothing that was posted is lost.
pub record Forward (s t : Session) : Type 0 where
  pub ranks : rank s.state ≤ rank t.state
  pub posts : Extends s.posted t.posted

pub Forward-refl : (s : Session) → Forward s s
Forward-refl s = record { ranks = omega arith; posts = Extends-refl s.posted }

pub Forward-trans : (s t u : Session) → Forward s t → Forward t u → Forward s u
Forward-trans s t u f g = record {
  ranks = omega (arith, f.ranks, g.ranks);
  posts = Extends-trans s.posted t.posted u.posted f.posts g.posts;
}

pub do_close-Forward : (s : Session) (code : CloseCode) → Forward s (do_close s code)
unfolding do_close
do_close-Forward s code = ground (arith, Extends-refl s.posted)

pub close_session-Forward :
    (s : Session) (code : CloseCode) (reason : List ℕ) → Forward s (close_session s code reason)
unfolding close_session
close_session-Forward s code reason = elim (Bool-cases (not (is_active s.state))) [
  | inl e ↦ rw e (Forward-refl s)
  | inr e ↦ rw e (record { ranks = ground arith; posts = Extends-append s.posted _ })
]

pub send_frame-Forward : (s : Session) (op : OpCode) (p : List ℕ) → Forward s (send_frame s op p)
unfolding send_frame
send_frame-Forward s op p = record { ranks = omega arith; posts = Extends-append s.posted _ }

control-Forward : (s : Session) (op : OpCode) (p : List ℕ) → Forward s (handle_control_frame s op p)
unfolding handle_control_frame
control-Forward s close p = elim (Bool-cases (is_active s.state)) [
  | inl e ↦ rw e (record { ranks = ground arith; posts = Extends-append s.posted _ })
  | inr e ↦ rw e (Forward-refl s)
]
control-Forward s ping p = elim (Bool-cases s.ping_handler) [
  | inl e ↦ rw e (record { ranks = omega arith; posts = Extends-append s.posted _ })
  | inr e ↦ rw e (record { ranks = omega arith; posts = Extends-append s.posted _ })
]
control-Forward s _ p = Forward-refl s

-- The two fields that `Forward` looks at.
pub same : (s t : Session) → t.state ≡ s.state → t.posted ≡ s.posted → Forward s t
same s t e f = record { ranks = omega (arith, ap rank e); posts = rw f (Extends-refl s.posted) }

start-Forward : (s : Session) (op : OpCode) (p : List ℕ) → OnFlow (Forward s) (start_message s op p)
unfolding start_message
start-Forward s op p = ground (
  arith,
  do_close-Forward s protocol_error,
  close_session-Forward begun message_too_big too_large,
  Extends-refl s.posted,
)
  where
    begun : Session
    begun = record s { msg_started = true; msg_opcode = op; msg_payload = [] }

continue-Forward : (s : Session) (p : List ℕ) → OnFlow (Forward s) (continue_message s p)
unfolding continue_message
continue-Forward s p = ground (
  arith,
  do_close-Forward s protocol_error,
  close_session-Forward s message_too_big too_large,
  Extends-refl s.posted,
)

absorb-Forward : (s : Session) (op : OpCode) (p : List ℕ) → OnFlow (Forward s) (absorb s op p)
unfolding absorb
absorb-Forward s text p = start-Forward s text p
absorb-Forward s binary p = start-Forward s binary p
absorb-Forward s continuation p = continue-Forward s p
absorb-Forward s close p = do_close-Forward s protocol_error
absorb-Forward s ping p = do_close-Forward s protocol_error
absorb-Forward s pong p = do_close-Forward s protocol_error

end-Forward :
    (s : Session) (fin : Bool) (f : Flow) → OnFlow (Forward s) f → Forward s (end_data_frame fin f)
unfolding end_data_frame deliver_message
end-Forward s fin (returned t) k = k
end-Forward s fin (goes_on t) k = ground arith

data-Forward :
    (s : Session) (op : OpCode) (fin : Bool) (p : List ℕ) → Forward s (handle_data_frame s op fin p)
unfolding handle_data_frame
data-Forward s op fin p = end-Forward s fin (absorb s op p) (absorb-Forward s op p)

handle_frame-Forward :
    (s : Session) (h : Header) (p : List ℕ) → Forward s (round_session (handle_frame s h p))
unfolding handle_frame
handle_frame-Forward s h p = ground (
  arith,
  do_close-Forward s protocol_error,
  control-Forward s h.opcode p,
  data-Forward s h.opcode h.fin p,
)

pub frame_round-Forward :
    (s : Session) (bs : List ℕ) (now : ℕ) → Forward s (round_session (frame_round s bs now))
unfolding frame_round
frame_round-Forward s bs now =
    on_header_cases (λ r. Forward s (round_session r)) s bs now _ _
      (do_close-Forward s protocol_error) (Forward-refl s)
      (λ reason. close_session-Forward s message_too_big reason)
      (λ c.
        Forward-trans s (refresh_heartbeat s now) _ (same s _ refl refl)
          (handle_frame-Forward _ _ _))
