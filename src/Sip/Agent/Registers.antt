-- ===== src/Sip/Agent/Registers.antt =====
-- The REGISTER requests that the agent of src/gb28181/sip_agent.cpp sends.
use ai_camera.Base.{
  ℕ, suc, ◌+◌, ◌%◌, ◌≡◌, refl, ap, ◌∙◌, Bool, true, false, not, ◌||◌, List, [], ◌∷◌, ◌++◌, arith,
  ◌==◌, if◌then◌else◌, if_false, if_either, codes, length,
}
use ai_camera.Base.Text.{begins}
use ai_camera.Sip.Types.{SipMessage}
use ai_camera.Sip.Message.{set_header, serialize, start_of, method_to_string}
use ai_camera.Sip.Agent.{
  SipAgent, Effect, sent, invited, ended, messaged, subscribed, register_succeeded, register_failed,
  Network, server_of, send_to_server, u32_mod,
}
use ai_camera.Sip.Agent.Requests.{
  new_request_to, register_request, counted_request, counted_authorization, authorization,
  registration, has_transport, send_register,
}
use ai_camera.Sip.Agent.Sending.{registration-Kept}
use ai_camera.Sip.Agent.Ready.{Ready, Ready-Kept, having_sent, send_to_server-Ready, guard-Ready}

-- The REGISTER requests among what the agent has sent.
unfoldable pub is_register : Effect → Bool
is_register (sent to text) = begins (codes "REGISTER ") text
is_register (invited from to call_id sdp) = false
is_register (ended call_id) = false
is_register (messaged from body) = false
is_register (subscribed from call_id event) = false
is_register register_succeeded = false
is_register (register_failed code reason) = false

unfoldable pub registers : List Effect → ℕ
registers [] = 0
registers (e ∷ es) = let rest = registers es in if is_register e then suc rest else rest

pub registers-append :
    (es : List Effect) (e : Effect)
    → registers (es ++ (e ∷ [])) ≡ registers es + (if is_register e then 1 else 0)
unfolding registers
registers-append [] e = ground arith
registers-append (x ∷ es) e = ground (arith, registers-append es e)

registration-is_register :
    (o : Network) (a : SipAgent)
    → begins (codes "REGISTER ") (serialize (registration o a).0) ≡ true
unfolding registration register_request new_request_to set_header serialize start_of
    method_to_string begins
registration-is_register o a =
    let m = register_request o a a.config.expires in
    let b = counted_request a in
    if_either (λ (x : SipMessage × SipAgent). begins (codes "REGISTER ") (serialize x.0) ≡ true)
      (length a.auth_nonce == 0) (m, b)
      (set_header m (codes "Authorization") (authorization o b b.draws), counted_authorization b)
      refl refl

registration_silent : (o : Network) (a : SipAgent) → (registration o a).1.effects ≡ a.effects
unfolding registration counted_authorization
registration_silent o a =
    let m = register_request o a a.config.expires in
    let b = counted_request a in
    if_either (λ (x : SipMessage × SipAgent). x.1.effects ≡ a.effects) (length a.auth_nonce == 0)
      (m, b)
      (set_header m (codes "Authorization") (authorization o b b.draws), counted_authorization b)
      refl
      (if_either (λ (x : SipAgent). x.effects ≡ a.effects) (length b.auth_qop == 0)
        (record b { draws = b.draws + 1 })
        (record b { draws = b.draws + 2; auth_nc = (b.auth_nc + 1) % u32_mod }) refl refl)

-- A registration is one REGISTER.
pub send_register-registers :
    (o : Network) (a : SipAgent)
    → Ready o a
    → registers (send_register o a).1.effects ≡ suc (registers a.effects)
unfolding send_register is_register
send_register-registers o a r =
    let b = (registration o a).1 in
    let text = serialize (registration o a).0 in
    let ready = Ready-Kept o a b r (registration-Kept o a) in
    let went : send_register o a ≡ (true, having_sent b (server_of b) text) =
      if_false (not a.running || not (has_transport a)) (false, a) (send_to_server o b text)
        (guard-Ready o a r)
      ∙ send_to_server-Ready o b text ready in
    let one : is_register (sent (server_of b) text) ≡ true = registration-is_register o a in
    let count = registers-append b.effects (sent (server_of b) text) in
    ap (λ p. registers p.1.effects) went ∙ count ∙ rw (registration_silent o a, one) (omega arith)
