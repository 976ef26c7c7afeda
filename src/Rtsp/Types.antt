-- ===== src/Rtsp/Types.antt =====
-- The types of include/ai-camera/rtsp/rtsp.h.
use ai_camera.Base.{ℕ, List, [], codes}
use ai_camera.Base.Integers.{ℤ, pos}
use ai_camera.Rtp.Packet.{TransportMode}

pub data RtspMethod : Type 0 where
  options describe setup play pause teardown get_parameter set_parameter record_method unknown :
      RtspMethod

pub data RtspState : Type 0 where
  init ready playing paused teardown : RtspState

pub data RtspStatus : Type 0 where
  ok bad_request not_found method_not_allowed session_not_found internal_server_error : RtspStatus

abbrev pub code_of : RtspStatus → ℕ
code_of ok = 200
code_of bad_request = 400
code_of not_found = 404
code_of method_not_allowed = 405
code_of session_not_found = 454
code_of internal_server_error = 500

pub record RtspRequest : Type 0 where
  pub method : RtspMethod
  pub url : List ℕ
  pub version : List ℕ
  pub headers : List (List ℕ × List ℕ)
  pub body : List ℕ

pub record RtspResponse : Type 0 where
  pub status_code : ℕ
  pub status_reason : List ℕ
  pub headers : List (List ℕ × List ℕ)
  pub body : List ℕ
  pub content_type : List ℕ

abbrev pub new_response : RtspResponse
new_response = record {
  status_code = 200;
  status_reason = codes "OK";
  headers = [];
  body = [];
  content_type = codes "application/sdp";
}

pub record RtspContext : Type 0 where
  pub session_id : List ℕ
  pub state : RtspState
  pub cseq : List ℕ
  pub url : List ℕ
  pub client_rtp_port : ℕ
  pub client_rtcp_port : ℕ
  pub rtp_timestamp : ℕ
  pub rtp_seq_num : ℕ
  pub mode : TransportMode
  pub rtp_channel : ℤ
  pub rtcp_channel : ℤ

abbrev pub new_context : RtspContext
new_context = record {
  session_id = [];
  state = init;
  cseq = [];
  url = [];
  client_rtp_port = 0;
  client_rtcp_port = 0;
  rtp_timestamp = 0;
  rtp_seq_num = 0;
  mode = TransportMode.rtp_over_tcp;
  rtp_channel = pos 0;
  rtcp_channel = pos 1;
}
