-- ===== src/Sip/Agent/Replies.antt =====
-- The answers to requests, `SipAgent::HandleRequest` of src/gb28181/sip_agent.cpp, behind the callbacks.
use ai_camera.Base.{
  ℕ, ◌≡◌, refl, ap, ◌∙◌, true, false, not, ◌||◌, List, [], ◌∷◌, ◌++◌, if◌then◌else◌, if_false,
  codes,
}
use ai_camera.Base.Text.{same_text, text_lt, assign, lookup}
use ai_camera.Sip.Types.{
  response, SipMethod, unknown, register, invite, ack, bye, cancel, message, options, subscribe,
  notify, SipMessage,
}
use ai_camera.Sip.Message.{set_header, get_header, serialize}
use ai_camera.Sip.Agent.{SipAgent, Endpoint, sent, Network, server_of, send_to_server}
use ai_camera.Sip.Agent.Requests.{has_transport}
use ai_camera.Sip.Agent.Handlers.{
  answer_message, bare_answer, invite_answer, drawn, send_invite_response, send_ok_response,
  answer_remote, sdp_stub, answer_request,
}
use ai_camera.Sip.Agent.Ready.{
  Ready, having_sent, transmit-Ready, send_to_server-Ready, guard-Ready,
}

-- Where the answer to a method goes, and its status.
abbrev pub destination : SipMethod → SipAgent → Endpoint → Endpoint
destination invite a remote = server_of a
destination bye a remote = server_of a
destination message a remote = server_of a
destination _ a remote = remote

abbrev pub status_for : SipMethod → ℕ
status_for invite = 200
status_for bye = 200
status_for message = 200
status_for subscribe = 200
status_for cancel = 200
status_for _ = 501

abbrev pub cseq_for : SipMethod → SipMessage → List ℕ
cseq_for invite m = codes "1 INVITE"
cseq_for bye m = codes "1 BYE"
cseq_for message m = codes "1 MESSAGE"
cseq_for _ m = get_header m (codes "CSeq")

-- A response to a request.
pub record Answers (method : SipMethod) (m r : SipMessage) : Type 0 where
  pub says_response : r.type ≡ response
  pub status : r.status_code ≡ status_for method
  pub same_call : get_header r (codes "Call-ID") ≡ get_header m (codes "Call-ID")
  pub cseq : get_header r (codes "CSeq") ≡ cseq_for method m

bare-Answers :
    (o : Network) (a : SipAgent) (method : SipMethod) (m : SipMessage) (code : ℕ)
    (reason cseq : List ℕ)
    → code ≡ status_for method
    → cseq ≡ cseq_for method m
    → Answers method m (
        bare_answer o a code reason
          (get_header m (codes "Call-ID"))
          (get_header m (codes "From"))
          cseq)
unfolding bare_answer answer_message set_header get_header assign lookup same_text text_lt
bare-Answers o a method m code reason cseq e f = record {
  says_response = refl;
  status = e;
  same_call = refl;
  cseq = f;
}

invite-Answers :
    (o : Network) (a : SipAgent) (m : SipMessage)
    → Answers invite m
        (invite_answer o a (get_header m (codes "Call-ID")) (get_header m (codes "From")) sdp_stub)
unfolding invite_answer answer_message set_header get_header assign lookup same_text text_lt
invite-Answers o a m = record { says_response = refl; status = refl; same_call = refl; cseq = refl }

-- Behind its callbacks: the agent has sent one answer, or has not been asked for one.
abbrev pub RepliedNow : SipMethod → SipAgent → Endpoint → SipMessage → SipAgent → Type 0
RepliedNow ack a remote m b = b ≡ a
RepliedNow method a remote m b =
    (r : SipMessage) × Answers method m r
    × (b.effects ≡ a.effects ++ (sent (destination method a remote) (serialize r) ∷ []))

drawn-Ready : (o : Network) (n : ℕ) (a : SipAgent) → Ready o a → Ready o (drawn n a)
drawn-Ready o n a r = record {
  is_running = r.is_running;
  is_live = r.is_live;
  known_address = r.known_address;
  takes = r.takes;
}

-- Behind the guard a text goes to the server.
pub guarded-Ready :
    (o : Network) (a b : SipAgent) (text : List ℕ)
    → Ready o a
    → Ready o b
    → (if not a.running || not (has_transport a) then (false, a) else send_to_server o b text)
      ≡ (true, having_sent b (server_of b) text)
guarded-Ready o a b text r s =
    if_false (not a.running || not (has_transport a)) (false, a) (send_to_server o b text)
      (guard-Ready o a r)
    ∙ send_to_server-Ready o b text s

pub send_invite_response-Ready :
    (o : Network) (a : SipAgent) (call_id to sdp : List ℕ)
    → Ready o a
    → (send_invite_response o a call_id to sdp).1
      ≡ having_sent (drawn 2 a) (server_of a) (serialize (invite_answer o a call_id to sdp))
unfolding send_invite_response
send_invite_response-Ready o a call_id to sdp r =
    ap (λ p. p.1)
      (guarded-Ready o a (drawn 2 a) (serialize (invite_answer o a call_id to sdp)) r
        (drawn-Ready o 2 a r))

pub send_ok_response-Ready :
    (o : Network) (a : SipAgent) (call_id to cseq : List ℕ)
    → Ready o a
    → (send_ok_response o a call_id to cseq).1
      ≡ having_sent
          (drawn 1 a)
          (server_of a)
          (serialize (bare_answer o a 200 (codes "OK") call_id to cseq))
unfolding send_ok_response
send_ok_response-Ready o a call_id to cseq r =
    ap (λ p. p.1)
      (guarded-Ready o a (drawn 1 a) (serialize (bare_answer o a 200 (codes "OK") call_id to cseq))
        r (drawn-Ready o 1 a r))

ok-Replied :
    (o : Network) (a : SipAgent) (method : SipMethod) (m : SipMessage) (cseq : List ℕ)
    → Ready o a
    → 200 ≡ status_for method
    → cseq ≡ cseq_for method m
    → (r : SipMessage) × Answers method m r
      × ((send_ok_response o a
            (get_header m (codes "Call-ID"))
            (get_header m (codes "From"))
            cseq).1.effects
          ≡ a.effects ++ (sent (server_of a) (serialize r) ∷ []))
ok-Replied o a method m cseq r e f =
    let call_id = get_header m (codes "Call-ID") in
    let from = get_header m (codes "From") in
    (
      bare_answer o a 200 (codes "OK") call_id from cseq,
      bare-Answers o a method m 200 (codes "OK") cseq e f,
      ap (λ b. b.effects) (send_ok_response-Ready o a call_id from cseq r),
    )

remote-Replied :
    (o : Network) (a : SipAgent) (remote : Endpoint) (method : SipMethod) (m : SipMessage)
    (code : ℕ) (reason : List ℕ)
    → Ready o a
    → code ≡ status_for method
    → get_header m (codes "CSeq") ≡ cseq_for method m
    → (r : SipMessage) × Answers method m r
      × ((answer_remote o a remote code reason m).effects
          ≡ a.effects ++ (sent remote (serialize r) ∷ []))
unfolding answer_remote
remote-Replied o a remote method m code reason r e f =
    let cseq = get_header m (codes "CSeq") in
    let answer =
      bare_answer o a code reason (get_header m (codes "Call-ID")) (get_header m (codes "From"))
        cseq in
    (
      answer,
      bare-Answers o a method m code reason cseq e f,
      ap (λ p. p.1.effects)
          (transmit-Ready o (drawn 1 a) remote (serialize answer) (drawn-Ready o 1 a r)),
    )

pub answer_request-Replied :
    (o : Network) (a : SipAgent) (remote : Endpoint) (method : SipMethod) (m : SipMessage)
    → Ready o a
    → RepliedNow method a remote m (answer_request method o a remote m)
unfolding answer_request
answer_request-Replied o a remote invite m r =
    let call_id = get_header m (codes "Call-ID") in
    let from = get_header m (codes "From") in
    (
      invite_answer o a call_id from sdp_stub,
      invite-Answers o a m,
      ap (λ b. b.effects) (send_invite_response-Ready o a call_id from sdp_stub r),
    )
answer_request-Replied o a remote bye m r = ok-Replied o a bye m (codes "1 BYE") r refl refl
answer_request-Replied o a remote message m r =
    ok-Replied o a message m (codes "1 MESSAGE") r refl refl
answer_request-Replied o a remote ack m r = refl
answer_request-Replied o a remote subscribe m r =
    remote-Replied o a remote subscribe m 200 (codes "OK") r refl refl
answer_request-Replied o a remote cancel m r =
    remote-Replied o a remote cancel m 200 (codes "OK") r refl refl
answer_request-Replied o a remote register m r =
    remote-Replied o a remote register m 501 (codes "Not Implemented") r refl refl
answer_request-Replied o a remote options m r =
    remote-Replied o a remote options m 501 (codes "Not Implemented") r refl refl
answer_request-Replied o a remote notify m r =
    remote-Replied o a remote notify m 501 (codes "Not Implemented") r refl refl
answer_request-Replied o a remote unknown m r =
    remote-Replied o a remote unknown m 501 (codes "Not Implemented") r refl refl
