-- ===== src/Sip/Agent/Valid.antt =====
-- What holds of the agent of src/gb28181/sip_agent.cpp through its life.
pub mod Life
use mathlib.Core.Path.{subst}
use ai_camera.Base.{
  ℕ, zero, suc, ◌+◌, ◌-◌, ◌*◌, ◌/◌, ◌%◌, ◌^◌, ◌≤◌, ◌<◌, ◌≡◌, refl, sym, ap, ◌∙◌, ◌≢◌, ◌↔◌, ◌⊎◌, inl,
  inr, Bool, true, false, not, ◌&&◌, ◌||◌, Option, none, some, List, [], ◌∷◌, ◌++◌, map, arith,
  dec_lt, dec_le, ℕ_discrete, ltb, leb, ◌==◌, if◌then◌else◌, ltb→lt, lt→ltb, ltb_false→le,
  le→ltb_false, ==_iff, ==_refl, Bool-cases, Option-cases, if_true, if_false, if_either, codes,
  length, get_or, take, drop, replicate, All, length-append, length-take, length-drop,
  take-append-drop, take-length, drop-length, take-append_le, drop-append_le, get_or-append_left,
  All-append, All-take, All-drop,
}
use ai_camera.Sip.Types.{MessageType, request, response, SipMessage}
use ai_camera.Sip.Message.{serialize, SipParsed, refused, threw, parsed, parse_sip}
use ai_camera.Sip.Agent.{
  Gb28181Config, SipEventCallbacks, SipTransport, SipAgent, Endpoint, Effect, register_succeeded,
  register_failed, Timer, no_timer, idle, waits, Network, when, send_to_server, u32_mod,
}
use ai_camera.Sip.Agent.Requests.{register_request, counted_request, send_register}
use ai_camera.Sip.Agent.Handlers.{
  handle_authentication, keepalive_timer_callback, register_retry_timer_callback, handle_response,
  handle_message, handle_received_message,
}
use ai_camera.Sip.Agent.Events.{
  init_agent, start_receive, started_transport, start_agent, stop_transport, unregister,
  transport_running, stop_agent, IoEvent, datagram, receive_fails, keepalive_fires, retry_fires,
  receives_again, left_by_exception, is_receiving, io_event, io_step, AgentCall, starts, stops,
  sends_message, answers_invite, answers_bye, answers_message, on_loop, agent_call, agent_run,
}
use ai_camera.Sip.Agent.Sending.{
  Kept, Kept_refl, Kept_trans, when-Kept, send_to_server-Kept, counted_request-Kept,
  send_register-Kept,
}
use ai_camera.Sip.Agent.Keeping.{
  retry-Kept, send_message-Kept, send_invite_response-Kept, send_ok_response-Kept,
  handle_request-Kept, handle_authentication-Kept, keepalive_timer_callback-Kept,
  register_retry_timer_callback-Kept,
}

-- A transport that is up.
abbrev pub IsUp : Option SipTransport → Type 0
IsUp none = ⊥
IsUp (some t) = (t.running ≡ true) × (t.is_open ≡ true)

-- Between the calls of the owner, or while `Stop` waits.
pub record IsValid (stopping : Bool) (a : SipAgent) : Type 0 where
  pub io_runs : stopping ≡ false → a.io_running ≡ true → a.running ≡ true
  pub stopped : stopping ≡ true → a.running ≡ false
  pub running_up : a.running ≡ true → IsUp a.transport
  pub cseq_fits : a.cseq < u32_mod
  pub nc_fits : a.auth_nc < u32_mod

pub IsValid-Kept : (s : Bool) (a b : SipAgent) → IsValid s a → Kept a b → IsValid s b
IsValid-Kept s a b v k =
    let (c1, c2, same_transport, c4, same_io, same_running, same_registered) = k.same in
    record {
      io_runs = λ between h. same_running ∙ v.io_runs between (sym same_io ∙ h);
      stopped = λ h. same_running ∙ v.stopped h;
      running_up = λ h. subst IsUp (sym same_transport) (v.running_up (sym same_running ∙ h));
      cseq_fits = k.cseq_small v.cseq_fits;
      nc_fits = k.nc_small v.nc_fits;
    }

pub bool_apart : false ≡ true → ⊥
bool_apart h = cc

pub init_agent-IsValid :
    (config : Gb28181Config) (callbacks : SipEventCallbacks)
    → IsValid false (init_agent config callbacks)
unfolding init_agent
init_agent-IsValid config callbacks = record {
  io_runs = λ between h. elim (bool_apart h) [ ];
  stopped = λ h. elim (bool_apart h) [ ];
  running_up = λ h. elim (bool_apart h) [ ];
  cseq_fits = omega arith;
  nc_fits = omega arith;
}

pub start_agent-IsValid :
    (o : Network) (a : SipAgent) → IsValid false a → IsValid false (start_agent o a)
unfolding start_agent started_transport start_receive
start_agent-IsValid o a v =
    let b : SipAgent = record a {
      transport = some started_transport;
      io_running = not a.io_stopped;
      running = true;
    } in
    let valid : IsValid false b = record {
      io_runs = λ between h. refl;
      stopped = λ h. elim (bool_apart h) [ ];
      running_up = λ h. (refl, refl);
      cseq_fits = v.cseq_fits;
      nc_fits = v.nc_fits;
    } in
    if_either (IsValid false) a.running a (send_register o b).1 v
      (IsValid-Kept false b (send_register o b).1 valid (send_register-Kept o b))

pub handle_response-IsValid :
    (s : Bool) (o : Network) (a : SipAgent) (m : SipMessage)
    → IsValid s a
    → IsValid s (handle_response o a m)
unfolding handle_response
handle_response-IsValid s o a m v =
    let registered_agent : SipAgent = record a { registered = true; keepalive_timer = idle } in
    let valid : IsValid s registered_agent = record {
      io_runs = v.io_runs;
      stopped = v.stopped;
      running_up = v.running_up;
      cseq_fits = v.cseq_fits;
      nc_fits = v.nc_fits;
    } in
    let alive = keepalive_timer_callback o registered_agent false in
    let failed =
      when a.callbacks.on_register_failed a (register_failed m.status_code m.reason_phrase) in
    if_either (IsValid s) (m.status_code == 200)
      (when alive.callbacks.on_register_success alive register_succeeded)
      (if m.status_code == 401
        then handle_authentication o a m
        else record failed { register_retry_timer = waits 10 })
      (IsValid-Kept s alive (when alive.callbacks.on_register_success alive register_succeeded)
        (IsValid-Kept s registered_agent alive valid
          (keepalive_timer_callback-Kept o registered_agent false))
        (when-Kept alive.callbacks.on_register_success alive register_succeeded))
      (if_either (IsValid s) (m.status_code == 401) (handle_authentication o a m)
        (record failed { register_retry_timer = waits 10 })
        (IsValid-Kept s a (handle_authentication o a m) v (handle_authentication-Kept o a m))
        (IsValid-Kept s a (record failed { register_retry_timer = waits 10 }) v
          (Kept_trans a failed (record failed { register_retry_timer = waits 10 })
            (when-Kept a.callbacks.on_register_failed a
              (register_failed m.status_code m.reason_phrase))
            (retry-Kept failed (waits 10)))))
