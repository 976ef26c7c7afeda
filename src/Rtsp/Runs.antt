-- ===== src/Rtsp/Runs.antt =====
-- The theorems on RTSP sessions at concrete inputs.
use ai_camera.Base.{ℕ, ◌≡◌, refl, true, false, some, List, [], ◌∷◌, ◌++◌, codes, replicate}
use ai_camera.Rtp.Packet.{MediaChannelInfo, tcp_info, rtp_over_tcp}
use ai_camera.Rtp.RawSource.{RawSource}
use ai_camera.Base.Text.{lines, first_line}
use ai_camera.Rtsp.Protocol.{parse_rtsp_request_line, parse_headers}
use ai_camera.Rtsp.Session.{Session, Outside, new_session}
use ai_camera.Rtsp.Session.Requests.{cseq_of, handle_rtsp_request}
use ai_camera.Rtsp.Session.Answers.{Answered, handle_rtsp_request-Served}
use ai_camera.Rtsp.Session.Playing.{InStep, TransportInStep}
use ai_camera.Rtsp.Session.Events.{arrives, SilentEvent, after_event, after_event-InStep}

abbrev quiet : MediaChannelInfo
quiet = record {
  rtp_header = record { payload = 0; seq = 0; ssrc = 0 };
  clock_rate = 0;
  packet_count = 0;
  octet_count = 0;
  is_setup = false;
  is_playing = false;
  transport_info = tcp_info 0 1;
  transport_mode = rtp_over_tcp;
}

abbrev outside : Outside
outside = record {
  local_address = codes "10.0.0.1";
  fresh_info = λ i. quiet;
  fresh_bytes = replicate 1600 0;
  random = 7;
  peer_known = true;
  udp_opens = true;
  local_port = 5000;
  millis = 1000;
  timestamp = 90;
  sps_sent = true;
  pps_sent = true;
}

abbrev session : Session
session = new_session (codes "0a1b")

abbrev setup_text : List ℕ
setup_text =
    codes "SETUP rtsp://a/track0 RTSP/1.0"
    ++ (13 ∷ 10 ∷ codes "CSeq: 3"
        ++ (13 ∷ 10 ∷ codes "Transport: RTP/AVP/TCP;interleaved=0-1" ++ (13 ∷ 10 ∷ 13 ∷ 10 ∷ [])))

handle_rtsp_request-Served_example :
    Answered
      (parse_rtsp_request_line (first_line (lines setup_text)))
      outside
      session
      (cseq_of session (parse_headers setup_text))
      (handle_rtsp_request outside session setup_text)
handle_rtsp_request-Served_example = handle_rtsp_request-Served outside session setup_text

after_event-InStep_example :
    (t : Session) × ((after_event (arrives outside setup_text) session ≡ some t) × InStep t)
unfolding SilentEvent TransportInStep
after_event-InStep_example = after_event-InStep (arrives outside setup_text) session refl tt

abbrev source : RawSource
source = record {
  cached_nals = record { bytes = 0x65 ∷ 1 ∷ 2 ∷ []; nal_type = 5 } ∷ [];
  sps = [];
  pps = [];
  nal_index = 1;
  is_opened = true;
  eof_reached = false;
}

abbrev streaming : Session
streaming = record session { nal_source = some source; has_h264 = true }
