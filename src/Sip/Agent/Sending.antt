-- ===== src/Sip/Agent/Sending.antt =====
-- What sending changes of the agent, src/gb28181/sip_agent.cpp.
use ai_camera.Base.{
  ℕ, suc, ◌+◌, ◌%◌, ◌<◌, ◌≡◌, refl, ◌∙◌, Bool, true, false, not, ◌||◌, Option, none, some, List,
  arith, ◌==◌, if◌then◌else◌, codes, length,
}
use ai_camera.Sip.Message.{serialize, set_header}
use ai_camera.Sip.Agent.{
  SipTransport, SipAgent, Endpoint, Effect, sent, Network, happens, when, send_to, transmit,
  server_of, send_to_server, u32_mod,
}
use ai_camera.Sip.Agent.Requests.{
  authorization, register_request, counted_request, counted_authorization, registration,
  has_transport, send_register,
}

-- The parts of the agent that sending leaves as they are, and the bounds of those that it counts.
pub record Kept (a b : SipAgent) : Type 0 where
  pub same :
      (b.config ≡ a.config)
      × (b.callbacks ≡ a.callbacks)
      × (b.transport ≡ a.transport)
      × (b.io_stopped ≡ a.io_stopped)
      × (b.io_running ≡ a.io_running)
      × (b.running ≡ a.running)
      × (b.registered ≡ a.registered)
  pub cseq_small : a.cseq < u32_mod → b.cseq < u32_mod
  pub nc_small : a.auth_nc < u32_mod → b.auth_nc < u32_mod

pub Kept_refl : (a : SipAgent) → Kept a a
Kept_refl a = record {
  same = (refl, refl, refl, refl, refl, refl, refl);
  cseq_small = λ h. h;
  nc_small = λ h. h;
}

pub Kept_trans : (a b c : SipAgent) → Kept a b → Kept b c → Kept a c
Kept_trans a b c h k =
    let (p1, p2, p3, p4, p5, p6, p7) = h.same in
    let (q1, q2, q3, q4, q5, q6, q7) = k.same in
    record {
      same = (q1 ∙ p1, q2 ∙ p2, q3 ∙ p3, q4 ∙ p4, q5 ∙ p5, q6 ∙ p6, q7 ∙ p7);
      cseq_small = λ x. k.cseq_small (h.cseq_small x);
      nc_small = λ x. k.nc_small (h.nc_small x);
    }

-- A conditional keeps what both of its branches keep.
pub either_Kept :
    {A : Type 0} (a : SipAgent) (c : Bool) (x y : A × SipAgent)
    → Kept a x.1
    → Kept a y.1
    → Kept a (if c then x else y).1
either_Kept a true x y h k = h
either_Kept a false x y h k = k

pub either_agent :
    (a : SipAgent) (c : Bool) (x y : SipAgent) → Kept a x → Kept a y → Kept a (if c then x else y)
either_agent a true x y h k = h
either_agent a false x y h k = k

pub happens-Kept : (a : SipAgent) (e : Effect) → Kept a (happens a e)
unfolding happens
happens-Kept a e = record {
  same = (refl, refl, refl, refl, refl, refl, refl);
  cseq_small = λ h. h;
  nc_small = λ h. h;
}

pub when-Kept : (set : Bool) (a : SipAgent) (e : Effect) → Kept a (when set a e)
unfolding when
when-Kept set a e = either_agent a set (happens a e) a (happens-Kept a e) (Kept_refl a)

send_to-Kept :
    (o : Network) (a : SipAgent) (t : SipTransport) (to : Endpoint) (text : List ℕ)
    → Kept a (send_to o a t to text).1
unfolding send_to happens
send_to-Kept o a t to text =
    let b = record a { sends = suc a.sends } in
    let went =
      either_Kept a (o.goes_out a.sends) (true, happens b (sent to text)) (false, b)
        (record {
          same = (refl, refl, refl, refl, refl, refl, refl);
          cseq_small = λ h. h;
          nc_small = λ h. h;
        })
        (record {
          same = (refl, refl, refl, refl, refl, refl, refl);
          cseq_small = λ h. h;
          nc_small = λ h. h;
        }) in
    either_Kept a (not t.running || not t.is_open) (false, a)
      (if o.goes_out a.sends then (true, happens b (sent to text)) else (false, b)) (Kept_refl a)
      went

either_transport :
    (a : SipAgent) (t : Option SipTransport) (f : SipTransport → Bool × SipAgent)
    → ((u : SipTransport) → Kept a (f u).1)
    → Kept a (elim t as (λ u. Bool × SipAgent) [ none ↦ (false, a) | some u ↦ f u ]).1
either_transport a none f h = Kept_refl a
either_transport a (some u) f h = h u

pub transmit-Kept :
    (o : Network) (a : SipAgent) (to : Endpoint) (text : List ℕ) → Kept a (transmit o a to text).1
unfolding transmit
transmit-Kept o a to text =
    either_transport a a.transport (λ t. send_to o a t to text) (λ t. send_to-Kept o a t to text)

pub send_to_server-Kept :
    (o : Network) (a : SipAgent) (text : List ℕ) → Kept a (send_to_server o a text).1
unfolding send_to_server
send_to_server-Kept o a text =
    either_Kept a (o.is_address a.config.server_ip) (transmit o a (server_of a) text) (false, a)
      (transmit-Kept o a (server_of a) text) (Kept_refl a)

pub counted_request-Kept : (a : SipAgent) → Kept a (counted_request a)
counted_request-Kept a = record {
  same = (refl, refl, refl, refl, refl, refl, refl);
  cseq_small = λ h. omega arith;
  nc_small = λ h. h;
}

counted_authorization-Kept : (a : SipAgent) → Kept a (counted_authorization a)
unfolding counted_authorization
counted_authorization-Kept a =
    either_agent a (length a.auth_qop == 0) (record a { draws = a.draws + 1 })
      (record a { draws = a.draws + 2; auth_nc = (a.auth_nc + 1) % u32_mod })
      (record {
        same = (refl, refl, refl, refl, refl, refl, refl);
        cseq_small = λ h. h;
        nc_small = λ h. h;
      })
      (record {
        same = (refl, refl, refl, refl, refl, refl, refl);
        cseq_small = λ h. h;
        nc_small = λ h. omega arith;
      })

pub registration-Kept : (o : Network) (a : SipAgent) → Kept a (registration o a).1
unfolding registration
registration-Kept o a =
    let m = register_request o a a.config.expires in
    let b = counted_request a in
    either_Kept a (length a.auth_nonce == 0) (m, b)
      (set_header m (codes "Authorization") (authorization o b b.draws), counted_authorization b)
      (counted_request-Kept a)
      (Kept_trans a b (counted_authorization b) (counted_request-Kept a)
        (counted_authorization-Kept b))

pub send_register-Kept : (o : Network) (a : SipAgent) → Kept a (send_register o a).1
unfolding send_register
send_register-Kept o a =
    let (m, b) = registration o a in
    either_Kept a (not a.running || not (has_transport a)) (false, a)
      (send_to_server o (registration o a).1 (serialize (registration o a).0)) (Kept_refl a)
      (Kept_trans a (registration o a).1
        (send_to_server o (registration o a).1 (serialize (registration o a).0)).1
        (registration-Kept o a)
        (send_to_server-Kept o (registration o a).1 (serialize (registration o a).0)))
