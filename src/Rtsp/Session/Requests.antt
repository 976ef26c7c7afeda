-- ===== src/Rtsp/Session/Requests.antt =====
-- The handlers of requests of src/rtsp/rtspsession.cpp.
use ai_camera.Base.{
  ℕ, suc, ◌+◌, ◌*◌, ◌/◌, ◌%◌, ◌^◌, Bool, true, false, not, ◌||◌, Option, none, some, List, [], ◌∷◌,
  ◌++◌, ◌==◌, if◌then◌else◌, codes, length,
}
use ai_camera.Base.Integers.{ℤ, pos, negsuc}
use ai_camera.Base.Text.{lines, first_line, to_decimal, decimal_digits, assign, lookup}
use ai_camera.Rtp.Packet.{RtpPacket, new_packet, write_at, rtp_header_size}
use ai_camera.Rtp.RawSource.{RawSource, has_more_data, rewound}
use ai_camera.Rtp.Interleaved.{Piece, request, Channels, process_interleaved_data}
use ai_camera.Rtp.Transport.{
  Transport, send_rtp_packet, set_playing, set_frame_rate, set_frame_provider,
}
use ai_camera.Rtsp.Types.{RtspMethod, RtspState, RtspContext, RtspStatus}
use ai_camera.Rtsp.Protocol.{parse_rtsp_request_line, parse_headers, build_response, generate_sdp}
use ai_camera.Rtsp.Session.{
  Session, Outside, file_frame_rate, with_status, reply, bad_request_reply, Handled, returned,
  threw,
}
use ai_camera.Rtsp.Session.Setup.{
  Setup, answered, setup_threw, handle_setup, session_reply, identified,
}

unfoldable pub handle_options : Session → Session × List ℕ
unfolding assign
handle_options s = reply s (record (with_status RtspStatus.ok (codes "OK")) {
  headers =
      assign [] (codes "Public")
        (codes "OPTIONS, DESCRIBE, SETUP, PLAY, TEARDOWN, PAUSE, GET_PARAMETER, SET_PARAMETER");
})

unfoldable pub handle_describe : Outside → Session → Session × List ℕ
handle_describe o s =
    let t = identified s in
    reply t (record (with_status RtspStatus.ok (codes "OK")) {
      body = generate_sdp o.local_address t.context.session_id t.sources;
    })

-- The time and the sequence number that PLAY announces, chosen where the time is 0.
unfoldable pub timed : Outside → RtspContext → RtspContext
timed o c =
    if c.rtp_timestamp == 0
    then record c {
      rtp_timestamp = o.millis % 864000000 * 90 / 1000 % 2 ^ 32;
      rtp_seq_num = o.random % 65536;
    }
    else c

unfoldable pub rtp_info : RtspContext → List ℕ
unfolding decimal_digits
rtp_info c =
    codes "url="
    ++ (c.url
        ++ (codes ";seq="
            ++ (to_decimal c.rtp_seq_num ++ (codes ";rtptime=" ++ to_decimal c.rtp_timestamp))))

-- `SendNal`, with the sender's answer.
unfoldable pub send_nal : Outside → ℕ → List ℕ → Bool → Transport → Transport
send_nal o ts nal sent t =
    let pkt : RtpPacket = record (new_packet o.fresh_bytes) {
      bytes = write_at o.fresh_bytes rtp_header_size nal;
      size = rtp_header_size + length nal;
      timestamp = ts;
      kind = 0;
      last = 1;
    } in
    (send_rtp_packet t 0 pkt sent).0

unfoldable pub send_set : Outside → ℕ → List ℕ → Bool → Transport → Transport
send_set o ts [] sent t = t
send_set o ts (b ∷ bs) sent t = send_nal o ts (b ∷ bs) sent t

unfoldable pub send_sps_pps : Outside → Session → Transport → Transport
send_sps_pps o s t =
    let ts = s.context.rtp_timestamp in
    send_set o ts s.real_pps o.pps_sent (send_set o ts s.real_sps o.sps_sent t)

unfoldable pub rewind : Option RawSource → Option RawSource
rewind none = none
rewind (some source) = if has_more_data source then some (rewound source) else some source

-- The transport's part of PLAY.
unfoldable pub start_playing : Outside → Session → Option Transport → Session
start_playing o s none = s
start_playing o s (some t) = record s {
  has_h264 = true;
  nal_source = rewind s.nal_source;
  frame_index = 0;
  transport = some (
      set_playing
        (send_sps_pps o s (set_frame_rate (set_frame_provider t 0 true) 0 file_frame_rate)) 0 true);
}

abbrev pub is_ready : RtspState → Bool
is_ready RtspState.ready = true
is_ready _ = false

abbrev pub is_playing : RtspState → Bool
is_playing RtspState.playing = true
is_playing _ = false

unfoldable pub handle_play : Outside → Session → Session × List ℕ
unfolding assign
handle_play o s =
    if not (is_ready s.context.state)
    then bad_request_reply s
    else (let c = timed o (record s.context { state = RtspState.playing }) in
        let resp = session_reply c in
        reply (start_playing o (record s { context = c }) s.transport)
          (record resp { headers = assign resp.headers (codes "RTP-Info") (rtp_info c) }))

-- The state of PAUSE and TEARDOWN, with the transport told to stop playing.
unfoldable pub stop_in : RtspState → Session → Session
stop_in state s = record s {
  context = record s.context { state = state };
  transport = elim s.transport [ none ↦ none | some t ↦ some (set_playing t 0 false) ];
}

unfoldable pub handle_teardown : Session → Session × List ℕ
unfolding assign
handle_teardown s = let t = stop_in RtspState.teardown s in reply t (session_reply t.context)

unfoldable pub handle_pause : Session → Session × List ℕ
unfolding assign
handle_pause s =
    let t = stop_in RtspState.paused s in
    if not (is_playing s.context.state)
    then bad_request_reply s
    else reply t (session_reply t.context)

unfoldable pub handle_get_parameter : Session → Session × List ℕ
unfolding assign
handle_get_parameter s =
    let resp = session_reply s.context in
    reply s (record resp { headers = assign resp.headers (codes "Content-Length") (codes "0") })

unfoldable pub handle_set_parameter : Session → Session × List ℕ
unfolding assign
handle_set_parameter s = reply s (session_reply s.context)

unfoldable pub handle_other : Session → Session × List ℕ
handle_other s = reply s (with_status RtspStatus.method_not_allowed (codes "Method Not Allowed"))

-- The switch.
unfoldable pub handle_method : RtspMethod → Outside → Session → List (List ℕ × List ℕ) → Setup
handle_method RtspMethod.options o s headers = answered (handle_options s)
handle_method RtspMethod.describe o s headers = answered (handle_describe o s)
handle_method RtspMethod.setup o s headers = handle_setup o s headers
handle_method RtspMethod.play o s headers = answered (handle_play o s)
handle_method RtspMethod.teardown o s headers = answered (handle_teardown s)
handle_method RtspMethod.pause o s headers = answered (handle_pause s)
handle_method RtspMethod.get_parameter o s headers = answered (handle_get_parameter s)
handle_method RtspMethod.set_parameter o s headers = answered (handle_set_parameter s)
handle_method RtspMethod.record_method o s headers = answered (handle_other s)
handle_method RtspMethod.unknown o s headers = answered (handle_other s)

abbrev pub send : Session → List ℕ → Session
send s text = record s { sent = s.sent ++ (text ∷ []) }

unfoldable pub send_response : Setup → Handled
send_response (answered (s, response)) =
    returned (if length response == 0 then s else send s response)
send_response (setup_threw s) = threw s

-- The header's CSeq, or the one before.
unfoldable pub cseq_of : Session → List (List ℕ × List ℕ) → List ℕ
cseq_of s headers = elim (lookup (codes "CSeq") headers) [
  | none ↦ s.context.cseq
  | some value ↦ value
]

unfoldable pub noted : Session → List ℕ → List (List ℕ × List ℕ) → Session
noted s url headers = record s {
  context = record s.context { cseq = cseq_of s headers; url = url };
}

unfoldable pub handle_rtsp_request : Outside → Session → List ℕ → Handled
handle_rtsp_request o s text = elim (parse_rtsp_request_line (first_line (lines text))) [
  | none ↦ returned (
      send s
        (build_response (with_status RtspStatus.bad_request (codes "Bad Request")) (codes "-1")))
  | some (method, url, version) ↦
      (let headers = parse_headers text in
        send_response (handle_method method o (noted s url headers) headers))
]

-- A channel as a byte is compared with it: none is negative.
abbrev pub channel_number : ℤ → ℕ
channel_number (pos n) = n
channel_number (negsuc n) = 256

abbrev pub channels_of : RtspContext → Channels
channels_of c = record {
  rtp_channel = channel_number c.rtp_channel;
  rtcp_channel = channel_number c.rtcp_channel;
}

-- The pieces of the buffer, one after the other; `rest` stays in the buffer.
unfoldable pub take_pieces : Outside → Session → List Piece → List ℕ → Handled
take_pieces o s [] rest = returned (record s { read_buffer = rest })
take_pieces o s (request text ∷ pieces) rest =
    elim (handle_rtsp_request o (record s { read_buffer = text }) text) [
      | returned t ↦ take_pieces o t pieces rest
      | threw t ↦ threw t
    ]
take_pieces o s (_ ∷ pieces) rest = take_pieces o s pieces rest

abbrev pub cleared : Handled → Handled
cleared (returned s) = returned (record s { read_buffer = [] })
cleared (threw s) = threw s

-- `OnBytes`; `none` is fuel run out.
unfoldable pub on_bytes : Outside → Session → List ℕ → Option Handled
on_bytes o s bytes =
    let t = record s { read_buffer = s.read_buffer ++ bytes } in
    if is_playing s.context.state || is_ready s.context.state
    then elim (process_interleaved_data (suc (length t.read_buffer)) (channels_of s.context)
        t.read_buffer) [ none ↦ none | some (pieces, rest) ↦ some (take_pieces o t pieces rest) ]
    else some (cleared (handle_rtsp_request o t t.read_buffer))
