-- ===== src/Sip/Agent/Storm.antt =====
-- Registrations that are answered, `SipAgent::HandleResponse` of src/gb28181/sip_agent.cpp.
use mathlib.Core.Path.{subst}
use ai_camera.Base.{
  ℕ, ◌+◌, ◌≡◌, refl, sym, ap, ◌∙◌, Bool, true, false, not, ◌&&◌, ◌||◌, Option, none, some, List, [],
  ◌∷◌, ◌++◌, map, arith, ◌==◌, if◌then◌else◌, if_true, if_false, length, All,
}
use ai_camera.Sip.Types.{response, SipMessage}
use ai_camera.Sip.Message.{parsed, parse_sip}
use ai_camera.Sip.Agent.{
  SipTransport, SipAgent, Endpoint, register_succeeded, register_failed, idle, waits, Network,
  happens, when,
}
use ai_camera.Sip.Agent.Requests.{send_register}
use ai_camera.Sip.Agent.Handlers.{
  keepalive_timer_callback, handle_authentication, handle_response, handle_message,
  handle_received_message,
}
use ai_camera.Sip.Agent.Events.{
  datagram, start_receive, receives_again, left_by_exception, is_receiving, io_event, io_step,
  io_run,
}
use ai_camera.Sip.Agent.Sending.{send_register-Kept}
use ai_camera.Sip.Agent.Ready.{Ready, Ready-Kept, live}
use ai_camera.Sip.Agent.Registers.{
  is_register, registers, registers-append, send_register-registers,
}

-- So many registrations on, the agent runs and can send.
abbrev After : Network → SipAgent → SipAgent → ℕ → Type 0
After o a b n = Ready o b × (b.io_running ≡ true) × (registers b.effects ≡ registers a.effects + n)

like :
    (o : Network) (b c : SipAgent)
    → Ready o b
    → c.running ≡ b.running
    → c.transport ≡ b.transport
    → c.config ≡ b.config
    → Ready o c
like o b c r e f g = record {
  is_running = e ∙ r.is_running;
  is_live = f ∙ r.is_live;
  known_address = ap (λ k. o.is_address k.server_ip) g ∙ r.known_address;
  takes = r.takes;
}

keepalive-After :
    (o : Network) (a : SipAgent)
    → Ready o a
    → a.io_running ≡ true
    → After o a (keepalive_timer_callback o a false) 1
unfolding keepalive_timer_callback
keepalive-After o a r runs =
    let b = (send_register o a).1 in
    let kept = send_register-Kept o a in
    let ready = Ready-Kept o a b r kept in
    let (c1, c2, c3, c4, same_io, c6, c7) = kept.same in
    let count = send_register-registers o a r in
    let stopped : (false || not a.running) ≡ false = rw r.is_running refl in
    let next : SipAgent = record b { keepalive_timer = waits a.config.keepalive_interval } in
    let ready_next : Ready o next = like o b next ready refl refl refl in
    let done : After o a next 1 = (ready_next, same_io ∙ runs, omega (arith, count)) in
    subst (λ x. After o a x 1) (sym (if_false (false || not a.running) a next stopped)) done

After-when :
    (o : Network) (a b : SipAgent) (set : Bool) (n : ℕ)
    → After o a b n
    → After o a (when set b register_succeeded) n
unfolding when happens is_register
After-when o a b true n (r, runs, count) = (
  like o b (record b { effects = b.effects ++ (register_succeeded ∷ []) }) r refl refl refl,
  runs,
  registers-append b.effects register_succeeded ∙ omega (arith, count),
)
After-when o a b false n h = h

handle_response-After :
    (o : Network) (a : SipAgent) (m : SipMessage)
    → Ready o a
    → a.io_running ≡ true
    → m.status_code ≡ 200
    → After o a (handle_response o a m) 1
unfolding handle_response
handle_response-After o a m r runs ok =
    let registered_agent : SipAgent = record a { registered = true; keepalive_timer = idle } in
    let alive = keepalive_timer_callback o registered_agent false in
    let is_ok : (m.status_code == 200) ≡ true = ground arith in
    let kept =
      keepalive-After o registered_agent (like o a registered_agent r refl refl refl) runs in
    let told = After-when o a alive alive.callbacks.on_register_success 1 kept in
    subst (λ x. After o a x 1)
      (sym (
        if_true (m.status_code == 200)
          (when alive.callbacks.on_register_success alive register_succeeded)
          (if m.status_code == 401
            then handle_authentication o a m
            else record (when a.callbacks.on_register_failed a
                (register_failed m.status_code m.reason_phrase)) {
                  register_retry_timer = waits 10;
                })
          is_ok))
      told

-- A text that is a response of status 200.
abbrev pub IsAccepted : List ℕ → Type 0
IsAccepted text =
    (m : SipMessage) × (parse_sip text ≡ parsed m) × (m.type ≡ response) × (m.status_code ≡ 200)

live_again :
    (t : Option SipTransport)
    → t ≡ some live
    → (elim t as (λ u. Option SipTransport) [ none ↦ none | some u ↦ some (start_receive u) ])
      ≡ some live
unfolding start_receive
live_again t h = rw h refl

receives_again-After :
    (o : Network) (a b : SipAgent) (n : ℕ) → After o a b n → After o a (receives_again b) n
unfolding receives_again
receives_again-After o a b n (r, runs, count) = (
  record {
    is_running = r.is_running;
    is_live = live_again b.transport r.is_live;
    known_address = r.known_address;
    takes = r.takes;
  },
  runs,
  count,
)

is_receiving-Ready : (o : Network) (a : SipAgent) → Ready o a → is_receiving a ≡ true
is_receiving-Ready o a r = receiving a.transport r.is_live
  where
    receiving :
        (t : Option SipTransport)
        → t ≡ some live
        → (elim t as (λ u. Bool) [ none ↦ false | some u ↦ u.running && u.receiving ]) ≡ true
    receiving t h = rw h refl

handle_received_message-response :
    (o : Network) (a : SipAgent) (remote : Endpoint) (text : List ℕ) (m : SipMessage)
    → parse_sip text ≡ parsed m
    → m.type ≡ response
    → handle_received_message o a remote text ≡ some (handle_response o a m)
unfolding handle_received_message handle_message
handle_received_message-response o a remote text m e f =
    let by_type : handle_message m.type o a remote m ≡ handle_response o a m =
      ap (λ t. handle_message t o a remote m) f in
    rw (handle_received_message, e) (ap some by_type)

io_step-After :
    (o : Network) (a : SipAgent) (remote : Endpoint) (text : List ℕ)
    → Ready o a
    → a.io_running ≡ true
    → IsAccepted text
    → After o a (io_step o (datagram remote text) a) 1
unfolding io_step io_event
io_step-After o a remote text r runs (m, read, says_response, ok) =
    let b = receives_again (handle_response o a m) in
    let step : io_step o (datagram remote text) a ≡ b =
      if_true a.io_running (io_event o (datagram remote text) a) a runs
      ∙ if_true (is_receiving a)
          (elim (handle_received_message o a remote text) as (λ c. SipAgent) [
            | none ↦ left_by_exception a
            | some c ↦ receives_again c
          ])
          a (is_receiving-Ready o a r)
      ∙ rw (handle_received_message-response o a remote text m read says_response) refl in
    subst (λ x. After o a x 1) (sym step)
      (receives_again-After o a (handle_response o a m) 1 (handle_response-After o a m r runs ok))

-- Whatever responses of status 200 come in one after the other, while the transport is up and the network
-- takes what is sent: each of them makes the agent send a REGISTER at once, no timer having fired.
pub io_run-accepted :
    (o : Network) (a : SipAgent) (remote : Endpoint) (texts : List (List ℕ))
    → Ready o a
    → a.io_running ≡ true
    → All IsAccepted texts
    → registers (io_run o (map (datagram remote) texts) a).effects
      ≡ registers a.effects + length texts
unfolding io_run
io_run-accepted o a remote [] r runs h = omega arith
io_run-accepted o a remote (text ∷ texts) r runs (accepted, h) =
    let b = io_step o (datagram remote text) a in
    let (ready, still, count) = io_step-After o a remote text r runs accepted in
    io_run-accepted o b remote texts ready still h ∙ omega (arith, count)
