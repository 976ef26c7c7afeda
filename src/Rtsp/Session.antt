-- ===== src/Rtsp/Session.antt =====
-- `RtspSession`, src/rtsp/rtspsession.cpp. What a handler takes from elsewhere, the clock, random
-- numbers, fresh memory, the address, the answers of sockets, is a record `Outside`. The transport is
-- that of Rtp/Transport; a new one takes the place of the old, which is not followed further.
pub mod Setup
pub mod Playback
pub mod Requests
pub mod Choice
pub mod Answers
pub mod Playing
pub mod Supply
pub mod Events
use ai_camera.Base.{
  ℕ, zero, suc, ◌+◌, ◌-◌, ◌*◌, ◌/◌, ◌%◌, ◌^◌, ◌≤◌, ◌<◌, ◌≡◌, refl, sym, ap, ◌∙◌, ◌≢◌, ◌↔◌, ◌⊎◌, inl,
  inr, Bool, true, false, not, ◌&&◌, ◌||◌, Option, none, some, List, [], ◌∷◌, ◌++◌, map, arith,
  dec_lt, dec_le, ℕ_discrete, ltb, leb, ◌==◌, if◌then◌else◌, ltb→lt, lt→ltb, ltb_false→le,
  le→ltb_false, ==_iff, ==_refl, Bool-cases, Option-cases, codes, length, get_or, take, drop,
  replicate, All, length-append, length-take, length-drop, take-append-drop, take-length,
  drop-length, take-append_le, drop-append_le, get_or-append_left, All-append, All-take, All-drop,
}
use ai_camera.Rtp.Packet.{MediaChannelInfo, RtpPacket}
use ai_camera.Rtp.RawSource.{RawSource, rewound, read_next_frame, NalUnit, open_source}
use ai_camera.Rtp.Transport.{Transport}
use ai_camera.Rtsp.Types.{RtspContext, RtspResponse, RtspStatus, code_of, new_response, new_context}
use ai_camera.Rtsp.Protocol.{MediaSource, build_response}

-- The frame rate of a file's source.
abbrev pub file_frame_rate : ℕ
file_frame_rate = 25

pub record Session : Type 0 where
  pub own_id : List ℕ
  pub context : RtspContext
  pub transport : Option Transport
  pub sources : List (Option MediaSource)
  pub nal_source : Option RawSource
  pub has_h264 : Bool
  pub packet_queue : List RtpPacket
  pub real_sps : List ℕ
  pub real_pps : List ℕ
  pub frame_index : ℕ
  pub read_buffer : List ℕ
  -- The texts given to `Send`.
  pub sent : List (List ℕ)

abbrev pub new_session : List ℕ → Session
new_session id = record {
  own_id = id;
  context = new_context;
  transport = none;
  sources = [];
  nal_source = none;
  has_h264 = false;
  packet_queue = [];
  real_sps = [];
  real_pps = [];
  frame_index = 0;
  read_buffer = [];
  sent = [];
}

pub record Outside : Type 0 where
  pub local_address : List ℕ
  pub fresh_info : ℕ → MediaChannelInfo
  pub fresh_bytes : List ℕ
  pub random : ℕ
  -- Whether `remote_endpoint` gives the peer's address, and whether the socket of a new UDP sender opens
  -- and is bound: each throws where not.
  pub peer_known : Bool
  pub udp_opens : Bool
  pub local_port : ℕ
  pub millis : ℕ
  -- What `H264Source::GetTimestamp` returns.
  pub timestamp : ℕ
  pub sps_sent : Bool
  pub pps_sent : Bool

abbrev pub set_rtp_sources : Session → List (Option MediaSource) → Session
set_rtp_sources s sources = record s { sources = sources }

abbrev h264_media : MediaSource
h264_media = record {
  description = codes "m=video 0 RTP/AVP 96";
  attribute =
      codes "a=rtpmap:96 H264/90000"
      ++ (13
          ∷ 10
          ∷ codes
              "a=fmtp:96;packetization-mode=1;profile-level-id=64001f;sprop-parameter-sets=Z00AKpZQFAe2AtwEBAaQeJQ==,aO48gA==");
}

-- The loop over the units of the first frame.
unfoldable pub parameter_sets : List NalUnit → Session → Session
parameter_sets [] s = s
parameter_sets (u ∷ us) s = parameter_sets us (
    if u.nal.nal_type == 7
    then record s { real_sps = u.nal.bytes }
    else if u.nal.nal_type == 8
    then record s { real_pps = u.nal.bytes }
    else s)

-- What the first read gives: a frame read leaves the source at its start again.
unfoldable pub first_frame : Session → RawSource × Option (List NalUnit) → Session
unfolding parameter_sets
first_frame s (after, none) = record s { nal_source = some after }
first_frame s (after, some frame) = record (parameter_sets frame s) {
  nal_source = some (rewound after);
}

-- With the file open.
unfoldable pub with_source : Session → RawSource → Session
unfolding first_frame
with_source s source =
    let cleared = record s { has_h264 = true; real_sps = []; real_pps = [] } in
    record (first_frame cleared (read_next_frame source)) { sources = some h264_media ∷ [] }

abbrev pub closed_raw_source : RawSource
closed_raw_source = record {
  cached_nals = [];
  sps = [];
  pps = [];
  nal_index = 0;
  is_opened = false;
  eof_reached = false;
}

-- `file` is what `ReadFile` returns; `none` is fuel run out.
unfoldable pub load_video_file : Session → List ℕ → Option Session
unfolding with_source
load_video_file s file = elim (open_source closed_raw_source file) [
  | none ↦ none
  | some (source, opened) ↦
      some (if opened then with_source s source else record s { nal_source = none })
]

abbrev pub with_status : RtspStatus → List ℕ → RtspResponse
with_status status reason = record new_response {
  status_code = code_of status;
  status_reason = reason;
}

-- A handler's result: the session and the text of the response.
abbrev pub reply : Session → RtspResponse → Session × List ℕ
reply s resp = (s, build_response resp s.context.cseq)

abbrev pub bad_request_reply : Session → Session × List ℕ
bad_request_reply s = reply s (with_status RtspStatus.bad_request (codes "Bad Request"))

-- The answer to a request: the session, after its handler has returned or thrown.
pub data Handled : Type 0 where
  returned threw : Session → Handled
