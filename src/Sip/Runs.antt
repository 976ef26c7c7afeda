-- ===== src/Sip/Runs.antt =====
-- The theorems on SIP at concrete inputs.
use ai_camera.Base.{ℕ, ◌+◌, ◌≡◌, refl, true, false, some, List, [], ◌∷◌, ◌++◌, map, arith, codes}
use ai_camera.Base.Text.{
  lines, cons_line, begins, find_char, strip_cr, skip_spaces, digits, same_text, assign, lookup,
}
use ai_camera.Base.Integers.{word_of}
use ai_camera.Sip.Types.{message, SipMessage, sip_request, sip_response}
use ai_camera.Sip.Message.{
  set_header, get_header, line_end, serialize, parse_status_line, extract_int, without_digits,
  after_blanks, blanks_dropped, parse_header_lines, add_header_line, with_sip_body, parsed,
  parse_sip,
}
use ai_camera.Sip.Message.RoundTrip.{IsSendable, Received, parse_sip-serialize}
use ai_camera.Sip.Message.Lines.{without, solid, IsField}
use ai_camera.Sip.Message.Numbers.{unspaced}
use ai_camera.Sip.Auth.{
  new_auth_info, set_param, blanks_before, blanks_behind, quoted_value, next_param, parse_params,
  parse_www_authenticate,
}
use ai_camera.Sip.Auth.Challenge.{params_text, last_value, parse_www_authenticate-params_text}
use ai_camera.Sip.Agent.{
  Gb28181Config, SipEventCallbacks, SipAgent, Endpoint, Effect, invited, messaged, Reaction,
  reports, accepts_invite, Network,
}
use ai_camera.Sip.Agent.Handlers.{handle_request}
use ai_camera.Sip.Agent.Events.{init_agent, datagram, keepalive_fires, left_by_exception, io_run}
use ai_camera.Sip.Agent.Ready.{Ready, live}
use ai_camera.Sip.Agent.Answers.{Replied, handle_request-Replied}
use ai_camera.Sip.Agent.Registers.{registers}
use ai_camera.Sip.Agent.Storm.{IsAccepted, io_run-accepted}
use ai_camera.Sip.Agent.Deaf.{io_run-threw}

abbrev note : SipMessage
note = record (sip_request message (codes "sip:34020000002000000001@3402000000")) {
  headers =
      (codes "call-id", codes "100001@127.0.0.1")
      ∷ (codes "cseq", codes "7 MESSAGE")
      ∷ (codes "from", codes "<sip:1@2>;tag=3")
      ∷ [];
  body = codes "<Query/>";
}

note-IsField :
    (entry : List ℕ × List ℕ)
    → without b':' entry.0 ≡ true
    → without 10 entry.0 ≡ true
    → without 10 entry.1 ≡ true
    → solid entry.1 ≡ true
    → IsField entry
note-IsField entry a b c d = record {
  no_colon = a;
  name_whole = b;
  value_whole = c;
  value_solid = d;
}

note-IsSendable : IsSendable note
unfolding without solid unspaced lookup same_text
note-IsSendable = record {
  start = (refl, omega arith);
  fields = (
    note-IsField (codes "call-id", codes "100001@127.0.0.1") refl refl refl refl,
    (
      note-IsField (codes "cseq", codes "7 MESSAGE") refl refl refl refl,
      (note-IsField (codes "from", codes "<sip:1@2>;tag=3") refl refl refl refl, tt),
    ),
  );
  is_map = (refl, refl, (refl, refl, (refl, refl, tt)));
  length_right = λ value h. cc;
  length_small = omega arith;
}

abbrev config : Gb28181Config
config = record {
  device_id = codes "34020000001320000001";
  server_ip = codes "10.0.0.9";
  server_port = 5060;
  local_sip_port = 5060;
  sip_realm = codes "3402000000";
  username = codes "cam";
  password = codes "secret";
  expires = 3600;
  keepalive_interval = 30;
}

abbrev callbacks : SipEventCallbacks
callbacks = record {
  on_invite = true;
  on_bye = true;
  on_message = true;
  on_register_success = true;
  on_register_failed = true;
  on_subscribe = false;
}

-- A MESSAGE is reported on, and an INVITE accepted.
abbrev reported : Effect → List Reaction
reported (messaged from xml_body) = reports from (codes "<Response/>") ∷ []
reported (invited from to call_id sdp) = accepts_invite call_id from (codes "v=0") ∷ []
reported _ = []

abbrev network : Network
network = record {
  random = λ draw low high. low + draw;
  md5 = λ text. codes "d41d8cd98f00b204e9800998ecf8427e";
  is_address = λ text. true;
  goes_out = λ n. true;
  reacts = reported;
}

abbrev agent : SipAgent
agent = record (init_agent config callbacks) {
  transport = some live;
  io_running = true;
  running = true;
}

abbrev peer : Endpoint
peer = record { address = codes "10.0.0.9"; port = 5060 }

agent-Ready : Ready network agent
unfolding init_agent
agent-Ready = record { is_running = refl; is_live = refl; known_address = refl; takes = λ n. refl }

parse_sip-serialize_example :
    (n : SipMessage) × (parse_sip (serialize note) ≡ parsed n) × Received note n
parse_sip-serialize_example = parse_sip-serialize note note-IsSendable

handle_request-Replied_example :
    Replied network message agent peer note (handle_request network agent peer note)
handle_request-Replied_example = handle_request-Replied network agent peer note agent-Ready

io_run-threw_example :
    io_run network
      (datagram peer (codes "SIP/2.0" ++ (line_end ++ [])) ∷ keepalive_fires ∷ [])
      agent
    ≡ left_by_exception agent
unfolding init_agent
io_run-threw_example = io_run-threw network agent peer [] (keepalive_fires ∷ []) refl refl

abbrev ok_text : List ℕ
ok_text = codes "SIP/2.0 200 OK" ++ (line_end ++ (codes "Call-ID: 1@a" ++ (line_end ++ line_end)))

abbrev ok_message : SipMessage
ok_message = record (sip_response 200 (codes "OK")) {
  headers = (codes "call-id", codes "1@a") ∷ [];
}

ok_IsAccepted : IsAccepted ok_text
unfolding parse_sip lines cons_line strip_cr begins parse_status_line extract_int skip_spaces digits
    without_digits after_blanks blanks_dropped word_of parse_header_lines add_header_line find_char
    set_header assign with_sip_body get_header lookup same_text
ok_IsAccepted = (ok_message, refl, refl, refl)

io_run-accepted_example :
    registers (io_run network (map (datagram peer) (ok_text ∷ ok_text ∷ [])) agent).effects
    ≡ registers agent.effects + 2
unfolding init_agent
io_run-accepted_example =
    io_run-accepted network agent peer (ok_text ∷ ok_text ∷ []) agent-Ready refl
      (ok_IsAccepted, (ok_IsAccepted, tt))

abbrev realm_param : List ℕ × List ℕ
realm_param = (codes "realm", codes "3402000000")

abbrev nonce_param : List ℕ × List ℕ
nonce_param = (codes "nonce", codes "a1b2")

parse_www_authenticate-params_text_example :
    parse_www_authenticate (codes "Digest" ++ (32 ∷ params_text (realm_param ∷ nonce_param ∷ [])))
    ≡ some (record new_auth_info {
      scheme = codes "Digest";
      realm = codes "3402000000";
      nonce = codes "a1b2";
    })
unfolding without unspaced last_value same_text
parse_www_authenticate-params_text_example =
    parse_www_authenticate-params_text (codes "Digest") realm_param (nonce_param ∷ []) refl (
      record { name_unspaced = refl; no_sign = refl; no_quote = refl },
      (record { name_unspaced = refl; no_sign = refl; no_quote = refl }, tt),
    )

-- An unquoted algorithm takes the value, and the place, of the parameter behind it.
unquoted_algorithm :
    parse_www_authenticate (codes "Digest realm=\"r\", algorithm=MD5, nonce=\"n\"")
    ≡ some
        (record new_auth_info { scheme = codes "Digest"; realm = codes "r"; algorithm = codes "n" })
unfolding parse_www_authenticate parse_params next_param quoted_value set_param find_char
    blanks_before blanks_behind same_text
unquoted_algorithm = refl
