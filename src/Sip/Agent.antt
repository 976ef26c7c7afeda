-- ===== src/Sip/Agent.antt =====
-- `SipAgent` and `SipTransport`, src/gb28181/sip_agent.cpp: the state, and what is sent. A transport is
-- there whenever a message is handled, since the transport hands it over.
pub mod Requests
pub mod Handlers
pub mod Events
pub mod Sending
pub mod Ready
pub mod Replies
pub mod Notices
pub mod Answers
pub mod Registers
pub mod Storm
pub mod Deaf
pub mod Keeping
pub mod Valid
use ai_camera.Base.{
  ℕ, zero, suc, ◌+◌, ◌-◌, ◌*◌, ◌/◌, ◌%◌, ◌^◌, ◌≤◌, ◌<◌, ◌≡◌, refl, sym, ap, ◌∙◌, ◌≢◌, ◌↔◌, ◌⊎◌, inl,
  inr, Bool, true, false, not, ◌&&◌, ◌||◌, Option, none, some, List, [], ◌∷◌, ◌++◌, map, arith,
  dec_lt, dec_le, ℕ_discrete, ltb, leb, ◌==◌, if◌then◌else◌, ltb→lt, lt→ltb, ltb_false→le,
  le→ltb_false, ==_iff, ==_refl, Bool-cases, Option-cases, codes, length, get_or, take, drop,
  replicate, All, length-append, length-take, length-drop, take-append-drop, take-length,
  drop-length, take-append_le, drop-append_le, get_or-append_left, All-append, All-take, All-drop,
}
use ai_camera.Base.Text.{to_decimal, decimal_digits}
use ai_camera.Sip.Auth.{calculate_sip_digest_response}
use ai_camera.Sip.Types.{SipMethod, register, message, SipMessage, sip_request, sip_response}
use ai_camera.Sip.Message.{set_header, serialize}

-- `Gb28181Config`, the fields that the agent reads.
pub record Gb28181Config : Type 0 where
  pub device_id : List ℕ
  pub server_ip : List ℕ
  pub server_port : ℕ
  pub local_sip_port : ℕ
  pub sip_realm : List ℕ
  pub username : List ℕ
  pub password : List ℕ
  pub expires : ℕ
  pub keepalive_interval : ℕ

-- Which callbacks are set.
pub record SipEventCallbacks : Type 0 where
  pub on_invite : Bool
  pub on_bye : Bool
  pub on_message : Bool
  pub on_register_success : Bool
  pub on_register_failed : Bool
  pub on_subscribe : Bool

pub record Endpoint : Type 0 where
  pub address : List ℕ
  pub port : ℕ

-- What the agent does outside itself: datagrams that are sent, and calls of the callbacks.
pub data Effect : Type 0 where
  sent : Endpoint → List ℕ → Effect
  invited : List ℕ → List ℕ → List ℕ → List ℕ → Effect
  ended : List ℕ → Effect
  messaged : List ℕ → List ℕ → Effect
  subscribed : List ℕ → List ℕ → List ℕ → Effect
  register_succeeded : Effect
  register_failed : ℕ → List ℕ → Effect

pub record SipTransport : Type 0 where
  pub running : Bool
  pub is_open : Bool
  -- Whether a receive is under way.
  pub receiving : Bool

-- A timer is not there, has no wait under way, or waits for so many seconds.
pub data Timer : Type 0 where
  no_timer : Timer
  idle : Timer
  waits : ℕ → Timer

-- The numbers of 32 bits `cseq` and `auth_nc`, and how many random numbers and datagrams there were.
pub record SipAgent : Type 0 where
  pub config : Gb28181Config
  pub callbacks : SipEventCallbacks
  pub transport : Option SipTransport
  pub io_stopped : Bool
  pub io_running : Bool
  pub running : Bool
  pub registered : Bool
  pub cseq : ℕ
  pub auth_realm : List ℕ
  pub auth_nonce : List ℕ
  pub auth_opaque : List ℕ
  pub auth_qop : List ℕ
  pub auth_nc : ℕ
  pub keepalive_timer : Timer
  pub register_retry_timer : Timer
  pub local_ip : List ℕ
  pub local_port : ℕ
  pub draws : ℕ
  pub sends : ℕ
  pub effects : List Effect

-- What a callback of a request may call back on the agent: `SendMessage`, `SendInviteResponse`,
-- `SendByeResponse` and `SendMessageResponse`.
pub data Reaction : Type 0 where
  reports : List ℕ → List ℕ → Reaction
  accepts_invite : List ℕ → List ℕ → List ℕ → Reaction
  accepts_bye accepts_message : List ℕ → List ℕ → Reaction

-- What the libraries answer: the random number of a draw between two bounds, MD5, whether an address
-- is one, whether a datagram goes out, and what the callbacks of requests call back, in order.
pub record Network : Type 0 where
  pub random : ℕ → ℕ → ℕ → ℕ
  pub md5 : List ℕ → List ℕ
  pub is_address : List ℕ → Bool
  pub goes_out : ℕ → Bool
  pub reacts : Effect → List Reaction

abbrev pub u32_mod : ℕ
u32_mod = 2 ^ 32

unfoldable pub happens : SipAgent → Effect → SipAgent
happens a e = record a { effects = a.effects ++ (e ∷ []) }

unfoldable pub when : Bool → SipAgent → Effect → SipAgent
when set a e = if set then happens a e else a

-- `SipTransport::SendMessage` to an endpoint.
unfoldable pub send_to : Network → SipAgent → SipTransport → Endpoint → List ℕ → Bool × SipAgent
send_to o a t endpoint text =
    if not t.running || not t.is_open
    then (false, a)
    else let b = record a { sends = suc a.sends } in
      if o.goes_out a.sends then (true, happens b (sent endpoint text)) else (false, b)

unfoldable pub transmit : Network → SipAgent → Endpoint → List ℕ → Bool × SipAgent
transmit o a endpoint text = elim a.transport [
  | none ↦ (false, a)
  | some t ↦ send_to o a t endpoint text
]

abbrev pub server_of : SipAgent → Endpoint
server_of a = record { address = a.config.server_ip; port = a.config.server_port }

-- `SipTransport::SendMessage` to the server's address.
unfoldable pub send_to_server : Network → SipAgent → List ℕ → Bool × SipAgent
send_to_server o a text =
    if o.is_address a.config.server_ip then transmit o a (server_of a) text else (false, a)
