-- ===== src/Sip/Agent/Events.antt =====
-- The life of the agent, src/gb28181/sip_agent.cpp: what its owner calls and what its thread runs, one
-- after the other, but that the thread goes on while `Stop` waits. Closing the socket ends a receive under
-- way with an error that nothing answers.
use ai_camera.Base.{
  ℕ, Bool, true, false, not, ◌&&◌, ◌||◌, none, some, List, [], ◌∷◌, if◌then◌else◌, codes,
}
use ai_camera.Sip.Message.{serialize}
use ai_camera.Sip.Agent.{
  Gb28181Config, SipEventCallbacks, SipTransport, SipAgent, Endpoint, Timer, no_timer, idle, waits,
  Network, send_to_server,
}
use ai_camera.Sip.Agent.Requests.{register_request, counted_request, send_register, send_message}
use ai_camera.Sip.Agent.Handlers.{
  keepalive_timer_callback, register_retry_timer_callback, handle_received_message,
  send_invite_response, send_ok_response,
}

-- `SipAgent` and `Init`.
unfoldable pub init_agent : Gb28181Config → SipEventCallbacks → SipAgent
init_agent config callbacks = record {
  config = config;
  callbacks = callbacks;
  transport = none;
  io_stopped = false;
  io_running = false;
  running = false;
  registered = false;
  cseq = 1;
  auth_realm = [];
  auth_nonce = [];
  auth_opaque = [];
  auth_qop = [];
  auth_nc = 1;
  keepalive_timer = no_timer;
  register_retry_timer = no_timer;
  local_ip = codes "127.0.0.1";
  local_port = config.local_sip_port;
  draws = 0;
  sends = 0;
  effects = [];
}

-- `SipTransport::StartReceive`.
unfoldable pub start_receive : SipTransport → SipTransport
start_receive t =
    if not t.running || not t.is_open
    then record t { receiving = false }
    else record t { receiving = true }

-- `SipTransport::Start`, of a transport that has its port.
unfoldable pub started_transport : SipTransport
started_transport = start_receive (record { running = true; is_open = true; receiving = false })

-- `Start`. A loop that was stopped returns at once when it is run again.
unfoldable pub start_agent : Network → SipAgent → SipAgent
start_agent o a =
    if a.running
    then a
    else (send_register o (record a {
      transport = some started_transport;
      io_running = not a.io_stopped;
      running = true;
    })).1

unfoldable pub stop_transport : SipTransport → SipTransport
stop_transport t =
    if t.running then record t { running = false; is_open = false; receiving = false } else t

abbrev cancelled : Timer → Timer
cancelled no_timer = no_timer
cancelled idle = idle
cancelled (waits seconds) = idle

-- The request that takes the registration back.
unfoldable pub unregister : Network → SipAgent → SipAgent
unregister o a = (send_to_server o (counted_request a) (serialize (register_request o a 0))).1

unfoldable pub transport_running : SipAgent → Bool
transport_running a = elim a.transport [ none ↦ false | some t ↦ t.running ]

-- What the loop may run: a datagram, a receive that failed, and the two timers.
pub data IoEvent : Type 0 where
  datagram : Endpoint → List ℕ → IoEvent
  receive_fails : IoEvent
  keepalive_fires : IoEvent
  retry_fires : IoEvent

-- Behind the callback the transport receives again.
unfoldable pub receives_again : SipAgent → SipAgent
receives_again a = record a {
  transport = elim a.transport [ none ↦ none | some t ↦ some (start_receive t) ];
}

abbrev pub is_receiving : SipAgent → Bool
is_receiving a = elim a.transport [ none ↦ false | some t ↦ t.running && t.receiving ]

-- An exception leaves the loop, and the thread ends.
unfoldable pub left_by_exception : SipAgent → SipAgent
left_by_exception a = record a {
  io_running = false;
  transport = elim a.transport [ none ↦ none | some t ↦ some (record t { receiving = false }) ];
}

unfoldable pub io_event : Network → IoEvent → SipAgent → SipAgent
io_event o (datagram remote text) a =
    if is_receiving a
    then elim (handle_received_message o a remote text) [
      | none ↦ left_by_exception a
      | some b ↦ receives_again b
    ]
    else a
io_event o receive_fails a = if is_receiving a then receives_again a else a
io_event o keepalive_fires a = elim a.keepalive_timer [
  | no_timer ↦ a
  | idle ↦ a
  | waits seconds ↦ keepalive_timer_callback o (record a { keepalive_timer = idle }) false
]
io_event o retry_fires a = elim a.register_retry_timer [
  | no_timer ↦ a
  | idle ↦ a
  | waits seconds ↦ register_retry_timer_callback o (record a { register_retry_timer = idle }) false
]

-- Nothing runs when the loop does not.
unfoldable pub io_step : Network → IoEvent → SipAgent → SipAgent
io_step o e a = if a.io_running then io_event o e a else a

unfoldable pub io_run : Network → List IoEvent → SipAgent → SipAgent
io_run o [] a = a
io_run o (e ∷ es) a = io_run o es (io_step o e a)

-- `Stop`. While it waits for the unregistration to go out the loop still runs `meanwhile`.
unfoldable pub stop_agent : Network → List IoEvent → SipAgent → SipAgent
stop_agent o meanwhile a =
    let quiet = record a { running = false; registered = false } in
    let said =
      (if transport_running quiet then io_run o meanwhile (unregister o quiet) else quiet) in
    if a.running
    then record said {
      keepalive_timer = cancelled said.keepalive_timer;
      register_retry_timer = cancelled said.register_retry_timer;
      transport = elim said.transport [ none ↦ none | some t ↦ some (stop_transport t) ];
      io_stopped = true;
      io_running = false;
    }
    else a

-- What the owner calls, and what runs on the loop.
pub data AgentCall : Type 0 where
  starts : AgentCall
  stops : List IoEvent → AgentCall
  sends_message : List ℕ → List ℕ → AgentCall
  answers_invite : List ℕ → List ℕ → List ℕ → AgentCall
  answers_bye : List ℕ → List ℕ → AgentCall
  answers_message : List ℕ → List ℕ → AgentCall
  on_loop : IoEvent → AgentCall

unfoldable pub agent_call : Network → AgentCall → SipAgent → SipAgent
agent_call o starts a = start_agent o a
agent_call o (stops meanwhile) a = stop_agent o meanwhile a
agent_call o (sends_message to xml_body) a = (send_message o a to xml_body).1
agent_call o (answers_invite call_id to sdp) a = (send_invite_response o a call_id to sdp).1
agent_call o (answers_bye call_id to) a = (send_ok_response o a call_id to (codes "1 BYE")).1
agent_call o (answers_message call_id to) a =
    (send_ok_response o a call_id to (codes "1 MESSAGE")).1
agent_call o (on_loop e) a = io_step o e a

unfoldable pub agent_run : Network → List AgentCall → SipAgent → SipAgent
agent_run o [] a = a
agent_run o (c ∷ cs) a = agent_run o cs (agent_call o c a)
