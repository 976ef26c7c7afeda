-- ===== src/Sip/Agent/Keeping.antt =====
-- What the handlers of src/gb28181/sip_agent.cpp leave of the agent as it is.
use ai_camera.Base.Text.{to_decimal}
use ai_camera.Base.{
  ℕ, refl, Bool, false, not, ◌||◌, Option, none, some, List, [], ◌∷◌, arith, ◌==◌, if◌then◌else◌,
  codes, length,
}
use ai_camera.Sip.Types.{
  SipMethod, unknown, register, invite, ack, bye, cancel, message, options, subscribe, notify,
  SipMessage,
}
use ai_camera.Sip.Message.{set_header, get_header, serialize}
use ai_camera.Sip.Auth.{SipAuthInfo, parse_www_authenticate}
use ai_camera.Sip.Agent.{
  SipAgent, Endpoint, Effect, Reaction, reports, accepts_invite, accepts_bye, accepts_message,
  Network, happens, Timer, waits, transmit, send_to_server,
}
use ai_camera.Sip.Agent.Requests.{
  has_transport, send_register, send_message, new_request_to, counted_request,
}
use ai_camera.Sip.Agent.Handlers.{
  bare_answer, invite_answer, drawn, send_invite_response, send_ok_response, answer_remote,
  sdp_stub, react, react_all, calls, told, answer_request, handle_request, with_auth,
  handle_authentication, keepalive_timer_callback, register_retry_timer_callback,
}
use ai_camera.Sip.Agent.Sending.{
  Kept, Kept_refl, Kept_trans, either_Kept, either_agent, happens-Kept, transmit-Kept,
  send_to_server-Kept, counted_request-Kept, send_register-Kept,
}

-- Timers, random numbers and what a challenge gives are none of the parts that are kept.
pub timer-Kept : (a : SipAgent) (t : Timer) → Kept a (record a { keepalive_timer = t })
timer-Kept a t = record {
  same = (refl, refl, refl, refl, refl, refl, refl);
  cseq_small = λ h. h;
  nc_small = λ h. h;
}

pub retry-Kept : (a : SipAgent) (t : Timer) → Kept a (record a { register_retry_timer = t })
retry-Kept a t = record {
  same = (refl, refl, refl, refl, refl, refl, refl);
  cseq_small = λ h. h;
  nc_small = λ h. h;
}

drawn-Kept : (n : ℕ) (a : SipAgent) → Kept a (drawn n a)
drawn-Kept n a = record {
  same = (refl, refl, refl, refl, refl, refl, refl);
  cseq_small = λ h. h;
  nc_small = λ h. h;
}

with_auth-Kept : (a : SipAgent) (info : SipAuthInfo) → Kept a (with_auth a info)
unfolding with_auth
with_auth-Kept a info = record {
  same = (refl, refl, refl, refl, refl, refl, refl);
  cseq_small = λ h. h;
  nc_small = λ h. omega arith;
}

-- What goes to the server behind the guard.
guarded-Kept :
    (o : Network) (a b : SipAgent) (text : List ℕ)
    → Kept a b
    → Kept a
        (if not a.running || not (has_transport a) then (false, a) else send_to_server o b text).1
guarded-Kept o a b text k =
    either_Kept a (not a.running || not (has_transport a)) (false, a) (send_to_server o b text)
      (Kept_refl a) (Kept_trans a b (send_to_server o b text).1 k (send_to_server-Kept o b text))

pub send_message-Kept :
    (o : Network) (a : SipAgent) (to xml_body : List ℕ) → Kept a (send_message o a to xml_body).1
unfolding send_message
send_message-Kept o a to xml_body =
    let m = new_request_to o a message (codes "MESSAGE") to to in
    let m1 = set_header m (codes "Content-Type") (codes "Application/MANSCDP+xml") in
    let m2 =
      set_header (record m1 { body = xml_body }) (codes "Content-Length")
        (to_decimal (length xml_body)) in
    guarded-Kept o a (counted_request a) (serialize m2) (counted_request-Kept a)

pub send_invite_response-Kept :
    (o : Network) (a : SipAgent) (call_id to sdp : List ℕ)
    → Kept a (send_invite_response o a call_id to sdp).1
unfolding send_invite_response
send_invite_response-Kept o a call_id to sdp =
    guarded-Kept o a (drawn 2 a) (serialize (invite_answer o a call_id to sdp)) (drawn-Kept 2 a)

pub send_ok_response-Kept :
    (o : Network) (a : SipAgent) (call_id to cseq : List ℕ)
    → Kept a (send_ok_response o a call_id to cseq).1
unfolding send_ok_response
send_ok_response-Kept o a call_id to cseq =
    guarded-Kept o a (drawn 1 a) (serialize (bare_answer o a 200 (codes "OK") call_id to cseq))
      (drawn-Kept 1 a)

answer_remote-Kept :
    (o : Network) (a : SipAgent) (remote : Endpoint) (code : ℕ) (reason : List ℕ) (m : SipMessage)
    → Kept a (answer_remote o a remote code reason m)
unfolding answer_remote
answer_remote-Kept o a remote code reason m =
    let text = serialize (
      bare_answer o a code reason (get_header m (codes "Call-ID")) (get_header m (codes "From"))
        (get_header m (codes "CSeq"))) in
    Kept_trans a (drawn 1 a) (transmit o (drawn 1 a) remote text).1 (drawn-Kept 1 a)
      (transmit-Kept o (drawn 1 a) remote text)

answer_request-Kept :
    (o : Network) (a : SipAgent) (remote : Endpoint) (method : SipMethod) (m : SipMessage)
    → Kept a (answer_request method o a remote m)
unfolding answer_request
answer_request-Kept o a remote invite m =
    send_invite_response-Kept o a (get_header m (codes "Call-ID")) (get_header m (codes "From"))
      sdp_stub
answer_request-Kept o a remote bye m =
    send_ok_response-Kept o a (get_header m (codes "Call-ID")) (get_header m (codes "From"))
      (codes "1 BYE")
answer_request-Kept o a remote message m =
    send_ok_response-Kept o a (get_header m (codes "Call-ID")) (get_header m (codes "From"))
      (codes "1 MESSAGE")
answer_request-Kept o a remote ack m = Kept_refl a
answer_request-Kept o a remote subscribe m = answer_remote-Kept o a remote 200 (codes "OK") m
answer_request-Kept o a remote cancel m = answer_remote-Kept o a remote 200 (codes "OK") m
answer_request-Kept o a remote register m =
    answer_remote-Kept o a remote 501 (codes "Not Implemented") m
answer_request-Kept o a remote options m =
    answer_remote-Kept o a remote 501 (codes "Not Implemented") m
answer_request-Kept o a remote notify m =
    answer_remote-Kept o a remote 501 (codes "Not Implemented") m
answer_request-Kept o a remote unknown m =
    answer_remote-Kept o a remote 501 (codes "Not Implemented") m

pub react-Kept : (o : Network) (a : SipAgent) (r : Reaction) → Kept a (react o a r)
unfolding react
react-Kept o a (reports to xml_body) = send_message-Kept o a to xml_body
react-Kept o a (accepts_invite call_id to sdp) = send_invite_response-Kept o a call_id to sdp
react-Kept o a (accepts_bye call_id to) = send_ok_response-Kept o a call_id to (codes "1 BYE")
react-Kept o a (accepts_message call_id to) =
    send_ok_response-Kept o a call_id to (codes "1 MESSAGE")

react_all-Kept : (o : Network) (a : SipAgent) (rs : List Reaction) → Kept a (react_all o a rs)
unfolding react_all
react_all-Kept o a [] = Kept_refl a
react_all-Kept o a (r ∷ rs) =
    Kept_trans a (react o a r) (react_all o (react o a r) rs) (react-Kept o a r)
      (react_all-Kept o (react o a r) rs)

calls-Kept : (o : Network) (set : Bool) (a : SipAgent) (e : Effect) → Kept a (calls o set a e)
unfolding calls
calls-Kept o set a e =
    either_agent a set (react_all o (happens a e) (o.reacts e)) a
      (Kept_trans a (happens a e) (react_all o (happens a e) (o.reacts e)) (happens-Kept a e)
        (react_all-Kept o (happens a e) (o.reacts e)))
      (Kept_refl a)

pub told-Kept :
    (method : SipMethod) (o : Network) (a : SipAgent) (m : SipMessage) → Kept a (told method o a m)
unfolding told
told-Kept invite o a m = calls-Kept o a.callbacks.on_invite a _
told-Kept bye o a m = calls-Kept o a.callbacks.on_bye a _
told-Kept message o a m = calls-Kept o a.callbacks.on_message a _
told-Kept subscribe o a m = calls-Kept o a.callbacks.on_subscribe a _
told-Kept register o a m = Kept_refl a
told-Kept ack o a m = Kept_refl a
told-Kept cancel o a m = Kept_refl a
told-Kept options o a m = Kept_refl a
told-Kept notify o a m = Kept_refl a
told-Kept unknown o a m = Kept_refl a

pub handle_request-Kept :
    (o : Network) (a : SipAgent) (remote : Endpoint) (m : SipMessage)
    → Kept a (handle_request o a remote m)
unfolding handle_request
handle_request-Kept o a remote m =
    Kept_trans a (told m.method o a m) (answer_request m.method o (told m.method o a m) remote m)
      (told-Kept m.method o a m) (answer_request-Kept o (told m.method o a m) remote m.method m)

either_challenge :
    (o : Network) (a : SipAgent) (c : Option SipAuthInfo)
    → Kept a (elim c as (λ x. SipAgent) [
      | none ↦ a
      | some info ↦ (send_register o (with_auth a info)).1
    ])
either_challenge o a none = Kept_refl a
either_challenge o a (some info) =
    Kept_trans a (with_auth a info) (send_register o (with_auth a info)).1 (with_auth-Kept a info)
      (send_register-Kept o (with_auth a info))

pub handle_authentication-Kept :
    (o : Network) (a : SipAgent) (m : SipMessage) → Kept a (handle_authentication o a m)
unfolding handle_authentication
handle_authentication-Kept o a m =
    let www_auth = get_header m (codes "WWW-Authenticate") in
    either_agent a (length www_auth == 0) a
      (elim (parse_www_authenticate www_auth) as (λ x. SipAgent) [
        | none ↦ a
        | some info ↦ (send_register o (with_auth a info)).1
      ])
      (Kept_refl a) (either_challenge o a (parse_www_authenticate www_auth))

pub keepalive_timer_callback-Kept :
    (o : Network) (a : SipAgent) (error : Bool) → Kept a (keepalive_timer_callback o a error)
unfolding keepalive_timer_callback
keepalive_timer_callback-Kept o a error =
    let b = (send_register o a).1 in
    let next : SipAgent = record b { keepalive_timer = waits a.config.keepalive_interval } in
    either_agent a (error || not a.running) a next (Kept_refl a) (
      Kept_trans a b next (send_register-Kept o a)
        (timer-Kept b (waits a.config.keepalive_interval)))

pub register_retry_timer_callback-Kept :
    (o : Network) (a : SipAgent) (error : Bool) → Kept a (register_retry_timer_callback o a error)
unfolding register_retry_timer_callback
register_retry_timer_callback-Kept o a error =
    either_agent a (error || not a.running) a (send_register o a).1 (Kept_refl a)
      (send_register-Kept o a)
