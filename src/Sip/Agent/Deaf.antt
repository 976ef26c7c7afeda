-- ===== src/Sip/Agent/Deaf.antt =====
-- Datagrams on which the library throws, and the loop of src/gb28181/sip_agent.cpp.
use ai_camera.Base.{
  ℕ, ◌≡◌, refl, ap, ◌∙◌, true, false, none, some, List, [], ◌∷◌, ◌++◌, if_true, if_false, codes,
}
use ai_camera.Base.Text.{lines, cons_line, begins, strip_cr}
use ai_camera.Sip.Message.{line_end, threw, parse_status_line, parse_sip}
use ai_camera.Sip.Agent.{SipAgent, Endpoint, Network}
use ai_camera.Sip.Agent.Handlers.{handle_received_message}
use ai_camera.Sip.Agent.Events.{
  IoEvent, datagram, left_by_exception, receives_again, is_receiving, io_event, io_step, io_run,
}

-- A text whose first line is the version alone: `substr` throws.
parse_sip-threw : (rest : List ℕ) → parse_sip (codes "SIP/2.0" ++ (line_end ++ rest)) ≡ threw
unfolding parse_sip lines cons_line strip_cr begins parse_status_line
parse_sip-threw rest = refl

pub io_step_over :
    (o : Network) (e : IoEvent) (a : SipAgent) → a.io_running ≡ false → io_step o e a ≡ a
unfolding io_step
io_step_over o e a h = if_false a.io_running (io_event o e a) a h

pub io_run_over :
    (o : Network) (es : List IoEvent) (a : SipAgent) → a.io_running ≡ false → io_run o es a ≡ a
unfolding io_run
io_run_over o [] a h = refl
io_run_over o (e ∷ es) a h = rw (io_step_over o e a h) (io_run_over o es a h)

handle_received_message-threw :
    (o : Network) (a : SipAgent) (remote : Endpoint) (text : List ℕ)
    → parse_sip text ≡ threw
    → handle_received_message o a remote text ≡ none
unfolding handle_received_message
handle_received_message-threw o a remote text e = rw (handle_received_message, e) refl

io_event-threw :
    (o : Network) (a : SipAgent) (remote : Endpoint) (text : List ℕ)
    → is_receiving a ≡ true
    → parse_sip text ≡ threw
    → io_event o (datagram remote text) a ≡ left_by_exception a
unfolding io_event
io_event-threw o a remote text h e =
    if_true (is_receiving a)
      (elim (handle_received_message o a remote text) as (λ r. SipAgent) [
        | none ↦ left_by_exception a
        | some b ↦ receives_again b
      ])
      a h
    ∙ rw (handle_received_message-threw o a remote text e) refl

-- A receiving agent gets a datagram whose first line is `SIP/2.0` and no more: the exception leaves the
-- loop, and whatever would happen on it from then on, the agent stays as it is and sends nothing.
pub io_run-threw :
    (o : Network) (a : SipAgent) (remote : Endpoint) (rest : List ℕ) (es : List IoEvent)
    → a.io_running ≡ true
    → is_receiving a ≡ true
    → io_run o (datagram remote (codes "SIP/2.0" ++ (line_end ++ rest)) ∷ es) a
      ≡ left_by_exception a
unfolding io_run io_step left_by_exception
io_run-threw o a remote rest es runs receives =
    let e = datagram remote (codes "SIP/2.0" ++ (line_end ++ rest)) in
    let first : io_step o e a ≡ left_by_exception a =
      if_true a.io_running (io_event o e a) a runs
      ∙ io_event-threw o a remote (codes "SIP/2.0" ++ (line_end ++ rest)) receives
          (parse_sip-threw rest) in
    ap (io_run o es) first ∙ io_run_over o es (left_by_exception a) refl
