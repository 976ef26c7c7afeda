-- ===== src/Sip/Agent/Ready.antt =====
-- Sending of src/gb28181/sip_agent.cpp while the transport is up and the network takes what is sent.
use ai_camera.Base.{
  ℕ, suc, ◌≡◌, refl, ap, ◌∙◌, Bool, true, false, not, ◌||◌, Option, none, some, List, [], ◌∷◌, ◌++◌,
  if_true,
}
use ai_camera.Sip.Agent.{
  SipTransport, SipAgent, Endpoint, sent, Network, happens, send_to, transmit, server_of,
  send_to_server,
}
use ai_camera.Sip.Agent.Requests.{has_transport}
use ai_camera.Sip.Agent.Sending.{Kept}

abbrev pub live : SipTransport
live = record { running = true; is_open = true; receiving = true }

pub record Ready (o : Network) (a : SipAgent) : Type 0 where
  pub is_running : a.running ≡ true
  pub is_live : a.transport ≡ some live
  pub known_address : o.is_address a.config.server_ip ≡ true
  pub takes : (n : ℕ) → o.goes_out n ≡ true

pub Ready-Kept : (o : Network) (a b : SipAgent) → Ready o a → Kept a b → Ready o b
Ready-Kept o a b r k =
    let (
      same_config, same_callbacks, same_transport, same_stopped, same_io, same_running,
      same_registered,
    ) =
      k.same in
    record {
      is_running = same_running ∙ r.is_running;
      is_live = same_transport ∙ r.is_live;
      known_address = ap (λ c. o.is_address c.server_ip) same_config ∙ r.known_address;
      takes = r.takes;
    }

-- The agent that has sent a text.
abbrev pub having_sent : SipAgent → Endpoint → List ℕ → SipAgent
having_sent a to text = record a { sends = suc a.sends; effects = a.effects ++ (sent to text ∷ []) }

send_by :
    (o : Network) (a : SipAgent) (to : Endpoint) (text : List ℕ) (t : Option SipTransport)
    → t ≡ some live
    → (elim t as (λ u. Bool × SipAgent) [ none ↦ (false, a) | some u ↦ send_to o a u to text ])
      ≡ send_to o a live to text
send_by o a to text t h = rw h refl

pub transmit-Ready :
    (o : Network) (a : SipAgent) (to : Endpoint) (text : List ℕ)
    → Ready o a
    → transmit o a to text ≡ (true, having_sent a to text)
unfolding transmit send_to happens
transmit-Ready o a to text r =
    send_by o a to text a.transport r.is_live
    ∙ if_true (o.goes_out a.sends) (true, having_sent a to text)
        (false, record a { sends = suc a.sends }) (r.takes a.sends)

pub send_to_server-Ready :
    (o : Network) (a : SipAgent) (text : List ℕ)
    → Ready o a
    → send_to_server o a text ≡ (true, having_sent a (server_of a) text)
unfolding send_to_server
send_to_server-Ready o a text r =
    if_true (o.is_address a.config.server_ip) (transmit o a (server_of a) text) (false, a)
      r.known_address
    ∙ transmit-Ready o a (server_of a) text r

-- The guard of what sends to the server.
pub guard-Ready :
    (o : Network) (a : SipAgent) → Ready o a → (not a.running || not (has_transport a)) ≡ false
guard-Ready o a r = rw (r.is_running, present a.transport r.is_live) refl
  where
    present :
        (t : Option SipTransport)
        → t ≡ some live
        → (elim t as (λ u. Bool) [ none ↦ false | some u ↦ true ]) ≡ true
    present none h = cc
    present (some u) h = refl
