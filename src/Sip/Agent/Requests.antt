-- ===== src/Sip/Agent/Requests.antt =====
-- The requests that the agent of src/gb28181/sip_agent.cpp makes.
use ai_camera.Base.{
  ℕ, ◌+◌, ◌-◌, ◌%◌, Bool, true, false, not, ◌||◌, none, some, List, [], ◌++◌, ◌==◌, if◌then◌else◌,
  codes, length, replicate,
}
use ai_camera.Base.Text.{to_decimal}
use ai_camera.Sip.Auth.{calculate_sip_digest_response}
use ai_camera.Sip.Types.{SipMethod, register, message, SipMessage, sip_request}
use ai_camera.Sip.Message.{set_header, serialize}
use ai_camera.Sip.Agent.{u32_mod, send_to_server, SipAgent, Network}

-- The random parts of messages.
unfoldable pub call_id_text : Network → SipAgent → ℕ → List ℕ
call_id_text o a draw = to_decimal (o.random draw 100000 999999) ++ (codes "@" ++ a.local_ip)

unfoldable pub branch_text : Network → ℕ → List ℕ
branch_text o draw = codes "z9hG4bK" ++ to_decimal (o.random draw 100000 999999)

unfoldable pub tag_text : Network → ℕ → List ℕ
tag_text o draw = to_decimal (o.random draw 10000000 99999999)

unfoldable pub via_header : Network → SipAgent → ℕ → List ℕ
via_header o a draw =
    codes "SIP/2.0/UDP "
    ++ (a.local_ip
        ++ (codes ":"
            ++ (to_decimal a.local_port ++ (codes ";rport;branch=" ++ branch_text o draw))))

unfoldable pub from_header : Network → SipAgent → ℕ → List ℕ
from_header o a draw =
    codes "<sip:"
    ++ (a.config.device_id
        ++ (codes "@" ++ (a.config.sip_realm ++ (codes ">;tag=" ++ tag_text o draw))))

unfoldable pub to_header : List ℕ → List ℕ
to_header to_uri = codes "<" ++ (to_uri ++ codes ">")

unfoldable pub contact_header : SipAgent → List ℕ
contact_header a =
    codes "<sip:"
    ++ (a.config.device_id
        ++ (codes "@" ++ (a.local_ip ++ (codes ":" ++ (to_decimal a.local_port ++ codes ">")))))

abbrev pub cseq_text : ℕ → List ℕ → List ℕ
cseq_text cseq method = to_decimal cseq ++ (codes " " ++ method)

-- A request with the headers that all of the agent's have; it draws three numbers.
unfoldable pub new_request_to :
    Network → SipAgent → SipMethod → List ℕ → List ℕ → List ℕ → SipMessage
new_request_to o a method name uri to =
    let m0 = sip_request method uri in
    let m1 = set_header m0 (codes "Call-ID") (call_id_text o a a.draws) in
    let m2 = set_header m1 (codes "From") (from_header o a (a.draws + 1)) in
    let m3 = set_header m2 (codes "To") (to_header to) in
    let m4 = set_header m3 (codes "CSeq") (cseq_text a.cseq name) in
    let m5 = set_header m4 (codes "Via") (via_header o a (a.draws + 2)) in
    set_header m5 (codes "Contact") (contact_header a)

abbrev pub counted_request : SipAgent → SipAgent
counted_request a = record a { cseq = (a.cseq + 1) % u32_mod; draws = a.draws + 3 }

unfoldable pub server_uri : SipAgent → List ℕ
server_uri a =
    codes "sip:" ++ (a.config.server_ip ++ (codes ":" ++ to_decimal a.config.server_port))

-- REGISTER, with the time it asks for.
unfoldable pub register_request : Network → SipAgent → ℕ → SipMessage
register_request o a expires =
    let to = codes "sip:" ++ (a.config.device_id ++ (codes "@" ++ a.config.sip_realm)) in
    let m = new_request_to o a register (codes "REGISTER") (server_uri a) to in
    set_header (set_header m (codes "Expires") (to_decimal expires)) (codes "Content-Length")
      (codes "0")

-- `setw(8)` with zeros.
unfoldable pub padded : ℕ → List ℕ
padded n = replicate (8 - length (to_decimal n)) b'0' ++ to_decimal n

abbrev pub quoted : List ℕ → List ℕ → List ℕ
quoted name value = name ++ (codes "=\"" ++ (value ++ codes "\""))

-- The Authorization header; the digest's cnonce is one draw and the header's is the next.
unfoldable pub authorization : Network → SipAgent → ℕ → List ℕ
authorization o a draw =
    let uri = server_uri a in
    let digest =
      calculate_sip_digest_response o.md5 a.config.username a.config.password a.auth_realm
        a.auth_nonce (codes "REGISTER") uri (to_decimal a.auth_nc) (branch_text o draw)
        a.auth_qop in
    let counter =
      (if length a.auth_qop == 0
        then []
        else codes ", qop="
          ++ (a.auth_qop
              ++ (codes ", nc="
                  ++ (padded a.auth_nc
                      ++ (codes ", " ++ quoted (codes "cnonce") (branch_text o (draw + 1))))))) in
    codes "Digest "
    ++ (quoted (codes "username") a.config.username
        ++ (codes ", "
            ++ (quoted (codes "realm") a.auth_realm
                ++ (codes ", "
                    ++ (quoted (codes "nonce") a.auth_nonce
                        ++ (codes ", "
                            ++ (quoted (codes "uri") uri
                                ++ (codes ", "
                                    ++ (quoted (codes "response") digest ++ counter)))))))))

-- What the header's making changes.
unfoldable pub counted_authorization : SipAgent → SipAgent
counted_authorization a =
    if length a.auth_qop == 0
    then record a { draws = a.draws + 1 }
    else record a { draws = a.draws + 2; auth_nc = (a.auth_nc + 1) % u32_mod }

-- The registration and the agent that has made it.
unfoldable pub registration : Network → SipAgent → SipMessage × SipAgent
registration o a =
    let m = register_request o a a.config.expires in
    let b = counted_request a in
    if length a.auth_nonce == 0
    then (m, b)
    else (set_header m (codes "Authorization") (authorization o b b.draws), counted_authorization b)

abbrev pub has_transport : SipAgent → Bool
has_transport a = elim a.transport [ none ↦ false | some t ↦ true ]

unfoldable pub send_register : Network → SipAgent → Bool × SipAgent
send_register o a =
    if not a.running || not (has_transport a)
    then (false, a)
    else let (m, b) = registration o a in send_to_server o b (serialize m)

unfoldable pub send_message : Network → SipAgent → List ℕ → List ℕ → Bool × SipAgent
send_message o a to xml_body =
    if not a.running || not (has_transport a)
    then (false, a)
    else let m = new_request_to o a message (codes "MESSAGE") to to in
      let m1 = set_header m (codes "Content-Type") (codes "Application/MANSCDP+xml") in
      let m2 =
        set_header (record m1 { body = xml_body }) (codes "Content-Length")
          (to_decimal (length xml_body)) in
      send_to_server o (counted_request a) (serialize m2)
