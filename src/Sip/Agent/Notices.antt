-- ===== src/Sip/Agent/Notices.antt =====
-- The callbacks of requests, called by `SipAgent::HandleRequest` of src/gb28181/sip_agent.cpp, and what
-- they call back.
use mathlib.Core.List.{append_assoc, append-nil}
use ai_camera.Base.{
  suc, ◌+◌, sym, Bool, map, length, arith, ℕ, ◌≡◌, refl, ap, ◌∙◌, true, false, List, [], ◌∷◌, ◌++◌,
  if◌then◌else◌, codes,
}
use ai_camera.Base.Text.{to_decimal}
use ai_camera.Sip.Types.{
  SipMethod, unknown, register, invite, ack, bye, cancel, message, options, subscribe, notify,
  SipMessage,
}
use ai_camera.Sip.Message.{set_header, get_header, serialize}
use ai_camera.Sip.Agent.{
  SipAgent, Effect, Reaction, reports, accepts_invite, accepts_bye, accepts_message, happens, sent,
  invited, ended, messaged, subscribed, Network, server_of,
}
use ai_camera.Sip.Agent.Requests.{new_request_to, counted_request, send_message}
use ai_camera.Sip.Agent.Handlers.{react, react_all, calls, told}
use ai_camera.Sip.Agent.Sending.{Kept, happens-Kept, counted_request-Kept}
use ai_camera.Sip.Agent.Keeping.{react-Kept}
use ai_camera.Sip.Agent.Ready.{Ready, Ready-Kept}
use ai_camera.Sip.Agent.Replies.{guarded-Ready, send_invite_response-Ready, send_ok_response-Ready}

-- The call of a callback, if it is set.
abbrev called : Bool → Effect → List Effect
called set e = if set then e ∷ [] else []

-- The callback that a request has, with what it is given.
abbrev pub notice : SipMethod → SipAgent → SipMessage → List Effect
notice invite a m = called a.callbacks.on_invite (
    invited (get_header m (codes "From")) (get_header m (codes "To"))
      (get_header m (codes "Call-ID")) m.body)
notice bye a m = called a.callbacks.on_bye (ended (get_header m (codes "Call-ID")))
notice message a m = called a.callbacks.on_message (messaged (get_header m (codes "From")) m.body)
notice subscribe a m = called a.callbacks.on_subscribe (
    subscribed (get_header m (codes "From")) (get_header m (codes "Call-ID"))
      (get_header m (codes "Event")))
notice _ a m = []

-- How often the callbacks call the agent back.
abbrev pub reactions : Network → List Effect → ℕ
reactions o [] = 0
reactions o (e ∷ es) = length (o.reacts e) + reactions o es

-- What callbacks make the agent do: they are called, and each of their calls sends a text to the server.
abbrev pub Said : Network → SipAgent → List Effect → List Effect → Type 0
Said o a notes effects =
    (said : List (List ℕ)) × ((length said ≡ reactions o notes)
      × (effects ≡ a.effects ++ (notes ++ map (sent (server_of a)) said)))

-- What a callback calls back sends one text to the server.
react-Said :
    (o : Network) (a : SipAgent) (r : Reaction)
    → Ready o a
    → (text : List ℕ) × ((react o a r).effects ≡ a.effects ++ (sent (server_of a) text ∷ []))
unfolding react send_message
react-Said o a (reports to xml_body) r =
    let m = new_request_to o a message (codes "MESSAGE") to to in
    let m1 = set_header m (codes "Content-Type") (codes "Application/MANSCDP+xml") in
    let m2 =
      set_header (record m1 { body = xml_body }) (codes "Content-Length")
        (to_decimal (length xml_body)) in
    let b = counted_request a in
    (
      serialize m2,
      ap (λ p. p.1.effects)
          (guarded-Ready o a b (serialize m2) r (Ready-Kept o a b r (counted_request-Kept a))),
    )
react-Said o a (accepts_invite call_id to sdp) r =
    (_, ap (λ b. b.effects) (send_invite_response-Ready o a call_id to sdp r))
react-Said o a (accepts_bye call_id to) r =
    (_, ap (λ b. b.effects) (send_ok_response-Ready o a call_id to (codes "1 BYE") r))
react-Said o a (accepts_message call_id to) r =
    (_, ap (λ b. b.effects) (send_ok_response-Ready o a call_id to (codes "1 MESSAGE") r))

pub server_of-Kept : (a b : SipAgent) → Kept a b → server_of b ≡ server_of a
server_of-Kept a b k =
    let (same_config, k1, k2, k3, k4, k5, k6) = k.same in
    ap (λ c. record { address = c.server_ip; port = c.server_port }) same_config

react_all-Said :
    (o : Network) (a : SipAgent) (rs : List Reaction)
    → Ready o a
    → (said : List (List ℕ)) × ((length said ≡ length rs)
        × ((react_all o a rs).effects ≡ a.effects ++ map (sent (server_of a)) said))
unfolding react_all
react_all-Said o a [] r = ([], (refl, sym (append-nil a.effects)))
react_all-Said o a (x ∷ xs) r =
    let b = react o a x in
    let kept = react-Kept o a x in
    let (text, once) = react-Said o a x r in
    let (said, rest) = react_all-Said o b xs (Ready-Kept o a b r kept) in
    let (count, all) = rest in
    (
      text ∷ said,
      (
        ap suc count,
        all
            ∙ ap (λ es. es ++ map (sent (server_of b)) said) once
            ∙ append_assoc a.effects (sent (server_of a) text ∷ []) (map (sent (server_of b)) said)
            ∙ ap (λ to. a.effects ++ (sent (server_of a) text ∷ map (sent to) said))
                (server_of-Kept a b kept),
      ),
    )

calls-Said :
    (o : Network) (set : Bool) (a : SipAgent) (e : Effect)
    → Ready o a
    → Said o a (called set e) (calls o set a e).effects
unfolding calls happens
calls-Said o false a e r = ([], (refl, sym (append-nil a.effects)))
calls-Said o true a e r =
    let (said, rest) =
      react_all-Said o (happens a e) (o.reacts e)
        (Ready-Kept o a (happens a e) r (happens-Kept a e)) in
    let (count, all) = rest in
    (
      said,
      (omega (arith, count), all ∙ append_assoc a.effects (e ∷ []) (map (sent (server_of a)) said)),
    )

pub told-Said :
    (method : SipMethod) (o : Network) (a : SipAgent) (m : SipMessage)
    → Ready o a
    → Said o a (notice method a m) (told method o a m).effects
unfolding told
told-Said invite o a m r = calls-Said o a.callbacks.on_invite a _ r
told-Said bye o a m r = calls-Said o a.callbacks.on_bye a _ r
told-Said message o a m r = calls-Said o a.callbacks.on_message a _ r
told-Said subscribe o a m r = calls-Said o a.callbacks.on_subscribe a _ r
told-Said register o a m r = ([], (refl, sym (append-nil a.effects)))
told-Said ack o a m r = ([], (refl, sym (append-nil a.effects)))
told-Said cancel o a m r = ([], (refl, sym (append-nil a.effects)))
told-Said options o a m r = ([], (refl, sym (append-nil a.effects)))
told-Said notify o a m r = ([], (refl, sym (append-nil a.effects)))
told-Said unknown o a m r = ([], (refl, sym (append-nil a.effects)))
