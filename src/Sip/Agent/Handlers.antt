-- ===== src/Sip/Agent/Handlers.antt =====
-- What the agent does with a message, src/gb28181/sip_agent.cpp.
use ai_camera.Base.{
  ℕ, ◌+◌, Bool, true, false, not, ◌||◌, Option, none, some, List, [], ◌∷◌, ◌++◌, ◌==◌,
  if◌then◌else◌, codes, length,
}
use ai_camera.Base.Text.{to_decimal}
use ai_camera.Sip.Types.{
  MessageType, request, response, SipMethod, unknown, register, invite, ack, bye, cancel, message,
  options, subscribe, notify, SipMessage, sip_response,
}
use ai_camera.Sip.Message.{set_header, get_header, serialize, refused, threw, parsed, parse_sip}
use ai_camera.Sip.Auth.{SipAuthInfo, parse_www_authenticate}
use ai_camera.Sip.Agent.{
  SipAgent, Endpoint, invited, ended, messaged, subscribed, register_succeeded, register_failed,
  idle, waits, Network, Effect, Reaction, reports, accepts_invite, accepts_bye, accepts_message,
  happens, when, transmit, send_to_server,
}
use ai_camera.Sip.Agent.Requests.{
  from_header, to_header, tag_text, has_transport, send_register, send_message,
}

-- A response with the headers of the agent's answers, for a draw.
unfoldable pub answer_message :
    Network → SipAgent → ℕ → List ℕ → List ℕ → List ℕ → List ℕ → SipMessage
answer_message o a code reason call_id to cseq =
    let m0 = sip_response code reason in
    let m1 = set_header m0 (codes "Call-ID") call_id in
    let m2 = set_header m1 (codes "From") (from_header o a a.draws) in
    let m3 = set_header m2 (codes "To") to in set_header m3 (codes "CSeq") cseq

unfoldable pub bare_answer : Network → SipAgent → ℕ → List ℕ → List ℕ → List ℕ → List ℕ → SipMessage
bare_answer o a code reason call_id to cseq =
    set_header (answer_message o a code reason call_id (to_header to) cseq) (codes "Content-Length")
      (codes "0")

-- The answer to INVITE, with a description; it draws two numbers.
unfoldable pub invite_answer : Network → SipAgent → List ℕ → List ℕ → List ℕ → SipMessage
invite_answer o a call_id to sdp =
    let tagged = to_header to ++ (codes ";tag=" ++ tag_text o (a.draws + 1)) in
    let m1 = answer_message o a 200 (codes "OK") call_id tagged (codes "1 INVITE") in
    let m2 = set_header m1 (codes "Content-Type") (codes "application/sdp") in
    set_header (record m2 { body = sdp }) (codes "Content-Length") (to_decimal (length sdp))

abbrev pub drawn : ℕ → SipAgent → SipAgent
drawn n a = record a { draws = a.draws + n }

-- `SendInviteResponse`.
unfoldable pub send_invite_response :
    Network → SipAgent → List ℕ → List ℕ → List ℕ → Bool × SipAgent
send_invite_response o a call_id to sdp =
    if not a.running || not (has_transport a)
    then (false, a)
    else send_to_server o (drawn 2 a) (serialize (invite_answer o a call_id to sdp))

-- `SendByeResponse` and `SendMessageResponse`, which differ in the CSeq.
unfoldable pub send_ok_response : Network → SipAgent → List ℕ → List ℕ → List ℕ → Bool × SipAgent
send_ok_response o a call_id to cseq =
    if not a.running || not (has_transport a)
    then (false, a)
    else send_to_server o (drawn 1 a) (serialize (bare_answer o a 200 (codes "OK") call_id to cseq))

-- An answer to where the request came from.
unfoldable pub answer_remote : Network → SipAgent → Endpoint → ℕ → List ℕ → SipMessage → SipAgent
answer_remote o a remote code reason m =
    let r =
      bare_answer o a code reason (get_header m (codes "Call-ID")) (get_header m (codes "From"))
        (get_header m (codes "CSeq")) in
    (transmit o (drawn 1 a) remote (serialize r)).1

abbrev pub sdp_stub : List ℕ
sdp_stub = codes "v=0" ++ (13 ∷ 10 ∷ codes "...")

unfoldable pub react : Network → SipAgent → Reaction → SipAgent
react o a (reports to xml_body) = (send_message o a to xml_body).1
react o a (accepts_invite call_id to sdp) = (send_invite_response o a call_id to sdp).1
react o a (accepts_bye call_id to) = (send_ok_response o a call_id to (codes "1 BYE")).1
react o a (accepts_message call_id to) = (send_ok_response o a call_id to (codes "1 MESSAGE")).1

unfoldable pub react_all : Network → SipAgent → List Reaction → SipAgent
react_all o a [] = a
react_all o a (r ∷ rs) = react_all o (react o a r) rs

-- A callback, if it is set, and what it calls back.
unfoldable pub calls : Network → Bool → SipAgent → Effect → SipAgent
calls o set a e = if set then react_all o (happens a e) (o.reacts e) else a

-- The callback's part of a request.
unfoldable pub told : SipMethod → Network → SipAgent → SipMessage → SipAgent
told invite o a m = calls o a.callbacks.on_invite a (
    invited (get_header m (codes "From")) (get_header m (codes "To"))
      (get_header m (codes "Call-ID")) m.body)
told bye o a m = calls o a.callbacks.on_bye a (ended (get_header m (codes "Call-ID")))
told message o a m =
    calls o a.callbacks.on_message a (messaged (get_header m (codes "From")) m.body)
told subscribe o a m = calls o a.callbacks.on_subscribe a (
    subscribed (get_header m (codes "From")) (get_header m (codes "Call-ID"))
      (get_header m (codes "Event")))
told register o a m = a
told ack o a m = a
told cancel o a m = a
told options o a m = a
told notify o a m = a
told unknown o a m = a

-- The answer's part.
unfoldable pub answer_request : SipMethod → Network → SipAgent → Endpoint → SipMessage → SipAgent
answer_request invite o a remote m =
    (send_invite_response o a (get_header m (codes "Call-ID")) (get_header m (codes "From"))
      sdp_stub).1
answer_request bye o a remote m =
    (send_ok_response o a (get_header m (codes "Call-ID")) (get_header m (codes "From"))
      (codes "1 BYE")).1
answer_request message o a remote m =
    (send_ok_response o a (get_header m (codes "Call-ID")) (get_header m (codes "From"))
      (codes "1 MESSAGE")).1
answer_request subscribe o a remote m = answer_remote o a remote 200 (codes "OK") m
answer_request ack o a remote m = a
answer_request cancel o a remote m = answer_remote o a remote 200 (codes "OK") m
answer_request register o a remote m = answer_remote o a remote 501 (codes "Not Implemented") m
answer_request options o a remote m = answer_remote o a remote 501 (codes "Not Implemented") m
answer_request notify o a remote m = answer_remote o a remote 501 (codes "Not Implemented") m
answer_request unknown o a remote m = answer_remote o a remote 501 (codes "Not Implemented") m

-- `HandleRequest`.
unfoldable pub handle_request : Network → SipAgent → Endpoint → SipMessage → SipAgent
handle_request o a remote m = answer_request m.method o (told m.method o a m) remote m

unfoldable pub with_auth : SipAgent → SipAuthInfo → SipAgent
with_auth a info = record a {
  auth_realm = info.realm;
  auth_nonce = info.nonce;
  auth_opaque = info.opaque;
  auth_qop = info.qop;
  auth_nc = 1;
}

-- `HandleAuthentication`.
unfoldable pub handle_authentication : Network → SipAgent → SipMessage → SipAgent
handle_authentication o a m =
    let www_auth = get_header m (codes "WWW-Authenticate") in
    if length www_auth == 0 then a else elim (parse_www_authenticate www_auth) [
      | none ↦ a
      | some info ↦ (send_register o (with_auth a info)).1
    ]

-- `KeepaliveTimerCallback`, told whether the wait was broken off.
unfoldable pub keepalive_timer_callback : Network → SipAgent → Bool → SipAgent
keepalive_timer_callback o a error =
    if error || not a.running
    then a
    else record (send_register o a).1 { keepalive_timer = waits a.config.keepalive_interval }

-- `RegisterRetryTimerCallback`.
unfoldable pub register_retry_timer_callback : Network → SipAgent → Bool → SipAgent
register_retry_timer_callback o a error =
    if error || not a.running then a else (send_register o a).1

-- `HandleResponse`.
unfoldable pub handle_response : Network → SipAgent → SipMessage → SipAgent
handle_response o a m =
    let registered_agent = record a { registered = true; keepalive_timer = idle } in
    let alive = keepalive_timer_callback o registered_agent false in
    if m.status_code == 200
    then when alive.callbacks.on_register_success alive register_succeeded
    else if m.status_code == 401
    then handle_authentication o a m
    else record (when a.callbacks.on_register_failed a
        (register_failed m.status_code m.reason_phrase)) { register_retry_timer = waits 10 }

unfoldable pub handle_message : MessageType → Network → SipAgent → Endpoint → SipMessage → SipAgent
handle_message request o a remote m = handle_request o a remote m
handle_message response o a remote m = handle_response o a m

-- `HandleReceivedMessage`: `none` where the library throws.
unfoldable pub handle_received_message : Network → SipAgent → Endpoint → List ℕ → Option SipAgent
handle_received_message o a remote raw_message = elim (parse_sip raw_message) [
  | refused ↦ some a
  | threw ↦ none
  | parsed m ↦ some (handle_message m.type o a remote m)
]
