-- ===== src/Rtsp/Session/Setup.antt =====
-- `HandleSetup` of src/rtsp/rtspsession.cpp.
use ai_camera.Base.{
  ℕ, suc, ◌+◌, ◌-◌, ◌%◌, ◌^◌, Bool, true, false, ◌&&◌, ◌||◌, Option, none, some, List, [], ◌∷◌,
  ◌++◌, ◌==◌, if◌then◌else◌, codes, length, take, drop,
}
use ai_camera.Base.Integers.{ℤ, pos, stoi, word_of, int_text}
use ai_camera.Base.Text.{contains, find, find_char, to_decimal, decimal_digits, assign, lookup}
use ai_camera.Rtp.Packet.{TransportMode}
use ai_camera.Rtp.Transport.{
  Transport, new_channel, set_rtp_over_tcp, set_rtp_over_udp, set_clock_rate, set_payload_type,
  set_ssrc, start,
}
use ai_camera.Rtsp.Types.{RtspContext, RtspResponse, RtspState, RtspStatus}
use ai_camera.Rtsp.Session.{Session, Outside, with_status, reply, bad_request_reply}

-- How the Transport header is taken: the context, or a refusal or an exception with what had been
-- stored by then.
pub data Chosen : Type 0 where
  chosen refused choice_threw : RtspContext → Chosen

abbrev store_rtcp : RtspContext → Option ℤ → Chosen
store_rtcp c none = choice_threw c
store_rtcp c (some channel) = chosen (record c { rtcp_channel = channel })

-- The text between the dash and the semicolon: with no dash from the start on, and to the end where
-- the semicolon is missing or, by the wrap of the count, stands before the dash.
unfoldable pub rtcp_text : List ℕ → List ℕ
unfolding find_char
rtcp_text text =
    let from : ℕ = elim (find_char b'-' text) [ none ↦ 0 | some pos2 ↦ suc pos2 ] in
    elim (find_char b';' text) [
      | none ↦ drop from text
      | some end ↦ take ((end + 2 ^ 64 - from) % 2 ^ 64) (drop from text)
    ]

unfoldable pub interleaved : RtspContext → List ℕ → Chosen
unfolding find_char
interleaved c text = elim (find_char b'-' text) [
  | none ↦
      store_rtcp (record c { rtp_channel = pos 0; rtcp_channel = pos 1 }) (stoi (rtcp_text text))
  | some pos2 ↦ elim (stoi (take pos2 text)) [
    | none ↦ choice_threw c
    | some channel ↦ store_rtcp (record c { rtp_channel = channel }) (stoi (rtcp_text text))
  ]
]

unfoldable pub choose_tcp : RtspContext → List ℕ → Chosen
choose_tcp context header =
    let c = record context { mode = TransportMode.rtp_over_tcp } in
    elim (find (codes "interleaved=") header) [
      | none ↦ chosen c
      | some start_at ↦ interleaved c (drop (start_at + 12) header)
    ]

abbrev is_delimiter : ℕ → Bool
is_delimiter c = c == b';' || c == 13 || c == 10 || c == 9

unfoldable pub drop_delimiters : List ℕ → List ℕ
drop_delimiters [] = []
drop_delimiters (c ∷ cs) =
    let rest = drop_delimiters cs in if is_delimiter c && length rest == 0 then [] else c ∷ rest

unfoldable pub parse_range_num : List ℕ → List ℕ × List ℕ
unfolding find_char drop_delimiters
parse_range_num text = elim (find_char b'-' text) [
  | none ↦ ([], [])
  | some separator ↦ (take separator text, drop_delimiters (drop (suc separator) text))
]

unfoldable pub client_ports : RtspContext → List ℕ × List ℕ → Chosen
client_ports c (first, second) =
    if length first == 0 || length second == 0 then refused c else elim (stoi first) [
      | none ↦ choice_threw c
      | some rtp ↦
          let c1 = record c { client_rtp_port = word_of rtp } in
          elim (stoi second) [
            | none ↦ choice_threw c1
            | some rtcp ↦ chosen (record c1 { client_rtcp_port = word_of rtcp })
          ]
    ]

unfoldable pub choose_udp : RtspContext → List ℕ → Chosen
choose_udp context header =
    let c = record context { mode = TransportMode.rtp_over_udp } in
    elim (find (codes "client_port=") header) [
      | none ↦ refused c
      | some start_at ↦ client_ports c (parse_range_num (drop (start_at + 12) header))
    ]

unfoldable pub choose : RtspContext → List ℕ → Chosen
unfolding find
choose c header =
    if contains (codes "RTP/AVP/TCP") header
    then choose_tcp c header
    else if contains (codes "RTP/AVP") header
    then choose_udp c header
    else if contains (codes "multicast") header
    then chosen (record c { mode = TransportMode.rtp_over_multicast })
    else refused c

abbrev pub new_transport : Outside → Transport
new_transport o = record {
  has_sender = true;
  is_multicast = false;
  is_closed = false;
  channels = λ i. new_channel (o.fresh_info i);
  handed = [];
}

abbrev pub open_channel : Outside → Transport → Transport
open_channel o t = start (set_ssrc (set_payload_type (set_clock_rate t 0 90000) 0 96) 0 o.random)

unfoldable pub tcp_transport : Outside → RtspContext → Transport
tcp_transport o c =
    open_channel o
      (set_rtp_over_tcp (new_transport o) 0 (word_of c.rtp_channel) (word_of c.rtcp_channel)).0

unfoldable pub udp_transport : Outside → RtspContext → Transport
udp_transport o c =
    open_channel o
      (set_rtp_over_udp (new_transport o) o.local_port 0 c.client_rtp_port c.client_rtcp_port).0

unfoldable pub tcp_text : RtspContext → List ℕ
tcp_text c =
    codes "RTP/AVP/TCP;interleaved="
    ++ (int_text c.rtp_channel ++ (codes "-" ++ int_text c.rtcp_channel))

unfoldable pub udp_text : Outside → RtspContext → List ℕ
unfolding decimal_digits
udp_text o c =
    codes "RTP/AVP;unicast;client_port="
    ++ (to_decimal c.client_rtp_port
        ++ (codes "-"
            ++ (to_decimal c.client_rtcp_port
                ++ (codes ";server_port="
                    ++ (to_decimal o.local_port ++ (codes "-" ++ to_decimal (o.local_port + 1)))))))

-- The transport that a mode makes, if any, and the text of its header; or the exception of a UDP sender.
pub data Made : Type 0 where
  made_none make_threw : Made
  made : Transport → List ℕ → Made

unfoldable pub set_up_mode : TransportMode → Outside → RtspContext → Made
set_up_mode TransportMode.rtp_over_tcp o c = made (tcp_transport o c) (tcp_text c)
set_up_mode TransportMode.rtp_over_udp o c =
    if o.udp_opens then made (udp_transport o c) (udp_text o c) else make_threw
set_up_mode TransportMode.rtp_over_multicast o c = made_none

abbrev pub session_reply : RtspContext → RtspResponse
unfolding assign
session_reply c = record (with_status RtspStatus.ok (codes "OK")) {
  headers = assign [] (codes "Session") c.session_id;
}

pub data Setup : Type 0 where
  answered : Session × List ℕ → Setup
  setup_threw : Session → Setup

-- In the state READY, with what the mode has made.
unfoldable pub set_up_made : Session → RtspContext → Made → Setup
unfolding assign
set_up_made s c made_none = answered (reply (record s { context = c }) (session_reply c))
set_up_made s c (made transport text) =
    let resp = session_reply c in
    answered (
      reply (record s { context = c; transport = some transport })
        (record resp { headers = assign resp.headers (codes "Transport") text }))
set_up_made s c make_threw = setup_threw (record s { context = c })

-- With the mode chosen.
unfoldable pub set_up : Outside → Session → RtspContext → Setup
set_up o s context =
    let c = record context { state = RtspState.ready } in
    if o.peer_known
    then set_up_made s c (set_up_mode c.mode o c)
    else setup_threw (record s { context = context })

unfoldable pub after_choice : Outside → Session → Chosen → Setup
after_choice o s (chosen c) = set_up o s c
after_choice o s (refused c) = answered (bad_request_reply (record s { context = c }))
after_choice o s (choice_threw c) = setup_threw (record s { context = c })

-- The session's identity is given out when it has none.
unfoldable pub identified : Session → Session
identified s =
    if length s.context.session_id == 0
    then record s { context = record s.context { session_id = s.own_id } }
    else s

unfoldable pub handle_setup : Outside → Session → List (List ℕ × List ℕ) → Setup
handle_setup o s headers = elim (lookup (codes "Transport") headers) [
  | none ↦ answered (bad_request_reply s)
  | some header ↦ after_choice o (identified s) (choose (identified s).context header)
]
