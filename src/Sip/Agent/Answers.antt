-- ===== src/Sip/Agent/Answers.antt =====
-- The answers to requests, `SipAgent::HandleRequest` of src/gb28181/sip_agent.cpp.
use ai_camera.Base.{◌≡◌, refl, ap, ◌∙◌, List, [], ◌∷◌, ◌++◌}
use ai_camera.Sip.Types.{
  SipMethod, unknown, register, invite, ack, bye, cancel, message, options, subscribe, notify,
  SipMessage,
}
use ai_camera.Sip.Message.{serialize}
use ai_camera.Sip.Agent.{SipAgent, Effect, Endpoint, sent, Network}
use ai_camera.Sip.Agent.Handlers.{told, answer_request, handle_request}
use ai_camera.Sip.Agent.Sending.{Kept}
use ai_camera.Sip.Agent.Keeping.{told-Kept}
use ai_camera.Sip.Agent.Ready.{Ready, Ready-Kept}
use ai_camera.Sip.Agent.Replies.{destination, Answers, answer_request-Replied}
use ai_camera.Sip.Agent.Notices.{Said, notice, server_of-Kept, told-Said}

-- Behind the callbacks and then the answer.
abbrev pub Both : Network → SipMethod → SipAgent → Endpoint → SipMessage → SipAgent → Type 0
Both o method a remote m b =
    (r : SipMessage) × Answers method m r
    × ((before : List Effect) × Said o a (notice method a m) before
        × (b.effects ≡ before ++ (sent (destination method a remote) (serialize r) ∷ [])))

-- The callback is called, what it calls back is sent, and then one answer; ACK does nothing.
abbrev pub Replied : Network → SipMethod → SipAgent → Endpoint → SipMessage → SipAgent → Type 0
Replied o ack a remote m b = b ≡ a
Replied o method a remote m b = Both o method a remote m b

-- The answer goes where it would have gone before the callback.
destination-Kept :
    (method : SipMethod) (a b : SipAgent) (remote : Endpoint)
    → Kept a b
    → destination method b remote ≡ destination method a remote
destination-Kept invite a b remote k = server_of-Kept a b k
destination-Kept bye a b remote k = server_of-Kept a b k
destination-Kept message a b remote k = server_of-Kept a b k
destination-Kept subscribe a b remote k = refl
destination-Kept register a b remote k = refl
destination-Kept ack a b remote k = refl
destination-Kept cancel a b remote k = refl
destination-Kept options a b remote k = refl
destination-Kept notify a b remote k = refl
destination-Kept unknown a b remote k = refl

told-Ready :
    (method : SipMethod) (o : Network) (a : SipAgent) (m : SipMessage)
    → Ready o a
    → Ready o (told method o a m)
told-Ready method o a m r = Ready-Kept o a (told method o a m) r (told-Kept method o a m)

answered_behind :
    (method : SipMethod) (o : Network) (a b : SipAgent) (remote : Endpoint) (m : SipMessage)
    → Ready o a
    → (r : SipMessage) × Answers method m r
      × (b.effects
          ≡ (told method o a m).effects
            ++ (sent (destination method (told method o a m) remote) (serialize r) ∷ []))
    → Both o method a remote m b
answered_behind method o a b remote m ready (r, answers, e) =
    let c = told method o a m in
    (
      r,
      answers,
      (
        c.effects,
        told-Said method o a m ready,
        e
            ∙ ap (λ to. c.effects ++ (sent to (serialize r) ∷ []))
                (destination-Kept method a c remote (told-Kept method o a m)),
      ),
    )

handled-Replied :
    (method : SipMethod) (o : Network) (a : SipAgent) (remote : Endpoint) (m : SipMessage)
    → Ready o a
    → Replied o method a remote m (answer_request method o (told method o a m) remote m)
unfolding answer_request told
handled-Replied ack o a remote m r = refl
handled-Replied register o a remote m r =
    answered_behind register o a (answer_request register o (told register o a m) remote m) remote m
      r
      (answer_request-Replied o (told register o a m) remote register m
        (told-Ready register o a m r))
handled-Replied invite o a remote m r =
    answered_behind invite o a (answer_request invite o (told invite o a m) remote m) remote m r
      (answer_request-Replied o (told invite o a m) remote invite m (told-Ready invite o a m r))
handled-Replied bye o a remote m r =
    answered_behind bye o a (answer_request bye o (told bye o a m) remote m) remote m r
      (answer_request-Replied o (told bye o a m) remote bye m (told-Ready bye o a m r))
handled-Replied cancel o a remote m r =
    answered_behind cancel o a (answer_request cancel o (told cancel o a m) remote m) remote m r
      (answer_request-Replied o (told cancel o a m) remote cancel m (told-Ready cancel o a m r))
handled-Replied message o a remote m r =
    answered_behind message o a (answer_request message o (told message o a m) remote m) remote m r
      (answer_request-Replied o (told message o a m) remote message m (told-Ready message o a m r))
handled-Replied options o a remote m r =
    answered_behind options o a (answer_request options o (told options o a m) remote m) remote m r
      (answer_request-Replied o (told options o a m) remote options m (told-Ready options o a m r))
handled-Replied subscribe o a remote m r =
    answered_behind subscribe o a (answer_request subscribe o (told subscribe o a m) remote m)
      remote m r
      (answer_request-Replied o (told subscribe o a m) remote subscribe m
        (told-Ready subscribe o a m r))
handled-Replied notify o a remote m r =
    answered_behind notify o a (answer_request notify o (told notify o a m) remote m) remote m r
      (answer_request-Replied o (told notify o a m) remote notify m (told-Ready notify o a m r))
handled-Replied unknown o a remote m r =
    answered_behind unknown o a (answer_request unknown o (told unknown o a m) remote m) remote m r
      (answer_request-Replied o (told unknown o a m) remote unknown m (told-Ready unknown o a m r))

-- With the transport up and the network taking what is sent, and callbacks that call the agent back to
-- send messages or answers only: on every request but ACK its callback, if it is set, is called once with
-- the request's headers and body, each call that it makes sends one text to the server, and behind them
-- one answer is sent: a response with the request's Call-ID, 200 for INVITE, BYE, MESSAGE, SUBSCRIBE and
-- CANCEL and 501 for any other. For the first three it goes to the configured server with a CSeq of 1,
-- else to where the request came from with the request's CSeq. On ACK the agent stays as it was.
pub handle_request-Replied :
    (o : Network) (a : SipAgent) (remote : Endpoint) (m : SipMessage)
    → Ready o a
    → Replied o m.method a remote m (handle_request o a remote m)
unfolding handle_request
handle_request-Replied o a remote m r = handled-Replied m.method o a remote m r
