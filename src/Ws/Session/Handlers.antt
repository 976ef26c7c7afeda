-- ===== src/Ws/Session/Handlers.antt =====
-- What the frame handlers leave alone, and what they keep of the message under assembly.
use ai_camera.Base.{
  ℕ, ◌+◌, ◌≤◌, ◌≡◌, ◌≢◌, inl, inr, Bool, true, false, not, ◌&&◌, List, [], arith, ltb, ◌==◌,
  Bool-cases, length, length-append,
}
use ai_camera.Ws.Types.{
  OpCode, continuation, text, binary, close, ping, pong, CloseCode, is_control_frame,
  message_too_big, protocol_error,
}
use ai_camera.Ws.Frame.{Header, uint64_max, frame_total_size}
use ai_camera.Ws.Session.{
  Session, Flow, returned, goes_on, Round, ended, waits, handled, do_close, close_session,
  handle_control_frame, deliver_message, start_message, continue_message, absorb, end_data_frame,
  handle_data_frame, handle_frame, on_header, frame_round, payload_of, refresh_heartbeat,
  accumulated,
}

-- A frame handler writes nothing, starts no read and leaves the buffer and the options.
pub record Kept (s t : Session) : Type 0 where
  pub options : t.options ≡ s.options
  pub frame_buf : t.frame_buf ≡ s.frame_buf
  pub writing : t.writing ≡ s.writing
  pub in_flight : t.in_flight ≡ s.in_flight
  pub send_queue : t.send_queue ≡ s.send_queue
  pub reading : t.reading ≡ s.reading
  pub written : t.written ≡ s.written

pub Kept-trans : {s t u : Session} → Kept s t → Kept t u → Kept s u
Kept-trans k l = ground arith

pub do_close-Kept : (s : Session) (code : CloseCode) → Kept s (do_close s code)
unfolding do_close
do_close-Kept s code = ground arith

pub close_session-Kept :
    (s : Session) (code : CloseCode) (reason : List ℕ) → Kept s (close_session s code reason)
unfolding close_session
close_session-Kept s code reason = ground arith

control-Kept : (s : Session) (op : OpCode) (p : List ℕ) → Kept s (handle_control_frame s op p)
unfolding handle_control_frame
control-Kept s close p = ground arith
control-Kept s ping p = ground arith
control-Kept s _ p = ground arith

abbrev pub OnFlow : (Session → Type 0) → Flow → Type 0
OnFlow P (returned s) = P s
OnFlow P (goes_on s) = P s

start-Kept : (s : Session) (op : OpCode) (p : List ℕ) → OnFlow (Kept s) (start_message s op p)
unfolding start_message do_close close_session
start-Kept s op p = ground arith

continue-Kept : (s : Session) (p : List ℕ) → OnFlow (Kept s) (continue_message s p)
unfolding continue_message do_close close_session
continue-Kept s p = ground arith

absorb-Kept : (s : Session) (op : OpCode) (p : List ℕ) → OnFlow (Kept s) (absorb s op p)
unfolding absorb
absorb-Kept s text p = start-Kept s text p
absorb-Kept s binary p = start-Kept s binary p
absorb-Kept s continuation p = continue-Kept s p
absorb-Kept s close p = do_close-Kept s protocol_error
absorb-Kept s ping p = do_close-Kept s protocol_error
absorb-Kept s pong p = do_close-Kept s protocol_error

end-Kept : (s : Session) (fin : Bool) (f : Flow) → OnFlow (Kept s) f → Kept s (end_data_frame fin f)
unfolding end_data_frame deliver_message
end-Kept s fin (returned t) k = k
end-Kept s fin (goes_on t) k = ground arith

data-Kept :
    (s : Session) (op : OpCode) (fin : Bool) (p : List ℕ) → Kept s (handle_data_frame s op fin p)
unfolding handle_data_frame
data-Kept s op fin p = end-Kept s fin (absorb s op p) (absorb-Kept s op p)

-- The state that a round leaves.
abbrev pub round_session : Round → Session
round_session (ended s) = s
round_session (waits s) = s
round_session (handled s n) = s

handle_frame-Kept :
    (s : Session) (h : Header) (p : List ℕ) → Kept s (round_session (handle_frame s h p))
unfolding handle_frame
handle_frame-Kept s h p =
    ground (
      arith,
      do_close-Kept s protocol_error,
      control-Kept s h.opcode p,
      data-Kept s h.opcode h.fin p,
    )

-- The facts that a frame has passed when it is handled.
pub record Complete (s : Session) (bytes : List ℕ) (n : ℕ) (h : Header) : Type 0 where
  pub sized : n ≢ 0
  pub mask_set : h.masked ≡ true
  pub fits : h.header_len + h.payload_len ≤ length bytes
  pub bounded : h.header_len + h.payload_len ≤ s.options.max_frame_buffer_bytes

module _ {ℓ} (P : Round → Type ℓ) (s : Session) (bytes : List ℕ) (now : ℕ) (n : ℕ)
    (h : Header) where
  -- How a round can end.
  pub on_header_cases :
      P (ended (do_close s protocol_error))
      → P (waits s)
      → ((reason : List ℕ) → P (ended (close_session s message_too_big reason)))
      → (Complete s bytes n h → P (handle_frame (refresh_heartbeat s now) h (payload_of h bytes)))
      → P (on_header s bytes now (n, h))
  unfolding on_header
  on_header_cases bad wait large frame = elim (Bool-cases (h.payload_len == uint64_max)) [
    | inl e ↦ rw e bad
    | inr e0 ↦ rw e0 (elim (Bool-cases (n == 0)) [
      | inl e ↦ rw e wait
      | inr e1 ↦ rw e1 (elim (Bool-cases (not h.masked)) [
        | inl e ↦ rw e bad
        | inr e2 ↦
            rw e2
              (elim (Bool-cases (
                not (is_control_frame h.opcode)
                && ltb s.options.max_message_bytes (accumulated s h.opcode + h.payload_len))) [
                  | inl e ↦ rw e (large _)
                  | inr e3 ↦
                      rw e3
                        (elim (Bool-cases
                          (ltb s.options.max_frame_buffer_bytes (frame_total_size h))) [
                            | inl e ↦ rw e (large _)
                            | inr e4 ↦
                                rw e4 (elim (Bool-cases (ltb (length bytes) (frame_total_size h))) [
                                  | inl e ↦ rw e wait
                                  | inr e5 ↦ rw e5 (
                                      frame (record {
                                        sized = ground arith;
                                        mask_set = ground arith;
                                        fits = ground arith;
                                        bounded = ground arith;
                                      }))
                                ])
                          ])
                ])
      ])
    ])
  ]

-- A round on a frame keeps these, whatever the bytes.
pub frame_round-Kept :
    (s : Session) (bs : List ℕ) (now : ℕ) → Kept s (round_session (frame_round s bs now))
unfolding frame_round
frame_round-Kept s bs now =
    on_header_cases (λ r. Kept s (round_session r)) s bs now _ _ (do_close-Kept s protocol_error)
      (ground arith) (λ reason. close_session-Kept s message_too_big reason)
      (λ c. Kept-trans {t = refresh_heartbeat s now} (ground arith) (handle_frame-Kept _ _ _))

-- The message under assembly fits the limit, and between messages there is none.
abbrev Between : Bool → List ℕ → Type 0
Between true p = Unit {0}
Between false p = p ≡ []

pub record MessageFits (s : Session) : Type 0 where
  pub size : length s.msg_payload ≤ s.options.max_message_bytes
  pub between : Between s.msg_started s.msg_payload

pub do_close-MessageFits :
    (s : Session) (code : CloseCode) → MessageFits s → MessageFits (do_close s code)
unfolding do_close
do_close-MessageFits s code m = ground arith

pub close_session-MessageFits :
    (s : Session) (code : CloseCode) (reason : List ℕ)
    → MessageFits s
    → MessageFits (close_session s code reason)
unfolding close_session
close_session-MessageFits s code reason m = ground arith

control-MessageFits :
    (s : Session) (op : OpCode) (p : List ℕ)
    → MessageFits s
    → MessageFits (handle_control_frame s op p)
unfolding handle_control_frame
control-MessageFits s close p m = ground arith
control-MessageFits s ping p m = ground arith
control-MessageFits s _ p m = ground arith

start-MessageFits :
    (s : Session) (op : OpCode) (p : List ℕ)
    → MessageFits s
    → OnFlow MessageFits (start_message s op p)
unfolding start_message do_close close_session
start-MessageFits s op p m = ground arith

continue-MessageFits :
    (s : Session) (p : List ℕ) → MessageFits s → OnFlow MessageFits (continue_message s p)
unfolding continue_message do_close close_session
continue-MessageFits s p m = ground (arith, length-append s.msg_payload p)

absorb-MessageFits :
    (s : Session) (op : OpCode) (p : List ℕ) → MessageFits s → OnFlow MessageFits (absorb s op p)
unfolding absorb
absorb-MessageFits s text p m = start-MessageFits s text p m
absorb-MessageFits s binary p m = start-MessageFits s binary p m
absorb-MessageFits s continuation p m = continue-MessageFits s p m
absorb-MessageFits s close p m = do_close-MessageFits s protocol_error m
absorb-MessageFits s ping p m = do_close-MessageFits s protocol_error m
absorb-MessageFits s pong p m = do_close-MessageFits s protocol_error m

end-MessageFits :
    (fin : Bool) (f : Flow) → OnFlow MessageFits f → MessageFits (end_data_frame fin f)
unfolding end_data_frame deliver_message
end-MessageFits fin (returned t) m = m
end-MessageFits fin (goes_on t) m = ground arith

data-MessageFits :
    (s : Session) (op : OpCode) (fin : Bool) (p : List ℕ)
    → MessageFits s
    → MessageFits (handle_data_frame s op fin p)
unfolding handle_data_frame
data-MessageFits s op fin p m = end-MessageFits fin (absorb s op p) (absorb-MessageFits s op p m)

handle_frame-MessageFits :
    (s : Session) (h : Header) (p : List ℕ)
    → MessageFits s
    → MessageFits (round_session (handle_frame s h p))
unfolding handle_frame
handle_frame-MessageFits s h p m = ground (
  arith,
  do_close-MessageFits s protocol_error,
  control-MessageFits s h.opcode p,
  data-MessageFits s h.opcode h.fin p,
)

pub frame_round-MessageFits :
    (s : Session) (bs : List ℕ) (now : ℕ)
    → MessageFits s
    → MessageFits (round_session (frame_round s bs now))
unfolding frame_round
frame_round-MessageFits s bs now m =
    on_header_cases (λ r. MessageFits (round_session r)) s bs now _ _
      (do_close-MessageFits s protocol_error m) m
      (λ reason. close_session-MessageFits s message_too_big reason m)
      (λ c. handle_frame-MessageFits _ _ _ (ground arith))
