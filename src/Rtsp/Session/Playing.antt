-- ===== src/Rtsp/Session/Playing.antt =====
-- The state of a session of src/rtsp/rtspsession.cpp and the send loop of its transport: the steps of the
-- transport.
pub mod Handlers
use ai_camera.Base.{
  ℕ, zero, suc, ◌+◌, ◌-◌, ◌*◌, ◌/◌, ◌%◌, ◌^◌, ◌≤◌, ◌<◌, ◌≡◌, refl, sym, ap, ◌∙◌, ◌≢◌, ◌↔◌, ◌⊎◌, inl,
  inr, Bool, true, false, not, ◌&&◌, ◌||◌, Option, none, some, List, [], ◌∷◌, ◌++◌, map, arith,
  dec_lt, dec_le, ℕ_discrete, ltb, leb, ◌==◌, if◌then◌else◌, ltb→lt, lt→ltb, ltb_false→le,
  le→ltb_false, ==_iff, ==_refl, Bool-cases, Option-cases, codes, length, get_or, take, drop,
  replicate, All, length-append, length-take, length-drop, take-append-drop, take-length,
  drop-length, take-append_le, drop-append_le, get_or-append_left, All-append, All-take, All-drop,
}
use ai_camera.Base.Text.{lines, first_line, lookup}
use ai_camera.Rtp.Packet.{RtpPacket, MediaChannelInfo, TransportMode, set_tcp_mode, set_udp_mode}
use ai_camera.Rtp.Transport.{
  Channel, Transport, new_channel, runs, set_playing, start_event_loop, stop_event_loop, update,
  set_frame_rate, set_frame_provider, set_clock_rate, set_payload_type, set_ssrc, set_rtp_over_tcp,
  set_rtp_over_udp, send_rtp_packet, on_timer,
}
use ai_camera.Rtp.Transport.Loop.{
  SameLoops, send_rtp_packet-SameLoops, asked-SameLoops, asked, ended,
}
use ai_camera.Rtp.Interleaved.{Piece, rtp_data, rtcp_data, request}
use ai_camera.Rtsp.Types.{RtspMethod, RtspState, RtspContext}
use ai_camera.Rtsp.Protocol.{parse_rtsp_request_line, parse_headers}
use ai_camera.Rtsp.Session.{Session, Outside, file_frame_rate, Handled, returned, threw}
use ai_camera.Rtsp.Session.Setup.{
  Chosen, chosen, refused, choice_threw, Setup, answered, setup_threw, choose, after_choice, set_up,
  set_up_mode, handle_setup, identified, tcp_transport, udp_transport,
}
use ai_camera.Rtsp.Session.Requests.{
  handle_options, handle_describe, timed, send_nal, send_set, send_sps_pps, start_playing, is_ready,
  is_playing, handle_play, stop_in, handle_teardown, handle_pause, handle_get_parameter,
  handle_set_parameter, handle_other, handle_method, send_response, noted, handle_rtsp_request,
  take_pieces, cleared, on_bytes,
}

-- Whether a channel may play in a state.
unfoldable pub MayPlay : RtspState → Bool → Type 0
MayPlay RtspState.playing plays = plays ≡ true
MayPlay RtspState.ready plays = Unit
MayPlay _ plays = plays ≡ false

pub record ChannelInStep (state : RtspState) (c : Channel) : Type 0 where
  pub loop_runs : c.is_loop_running ≡ c.info.is_playing
  pub may_play : MayPlay state c.info.is_playing

unfoldable pub TransportInStep : RtspState → Option Transport → Type 0
TransportInStep state none = Unit
TransportInStep state (some t) = ChannelInStep state (t.channels 0)

-- The session's transport, if there is one, is in step with its state.
abbrev pub InStep : Session → Type 0
InStep s = TransportInStep s.context.state s.transport

same-InStep :
    (state : RtspState) (t u : Transport)
    → SameLoops t u
    → ChannelInStep state (t.channels 0)
    → ChannelInStep state (u.channels 0)
same-InStep state t u same h = record {
  loop_runs = same.same_running 0 ∙ h.loop_runs ∙ sym (same.same_playing 0);
  may_play = rw (same.same_playing 0) h.may_play;
}

-- A channel whose loop runs exactly while it plays is told to play, or not to.
pub played-InStep :
    (t : Transport)
    → (t.channels 0).is_loop_running ≡ (t.channels 0).info.is_playing
    → ChannelInStep RtspState.playing ((set_playing t 0 true).channels 0)
unfolding set_playing start_event_loop MayPlay
played-InStep t h = elim (Bool-cases (t.channels 0).info.is_playing) [
  | inl e ↦ rw (set_playing, e) (record { loop_runs = h; may_play = e })
  | inr e ↦ rw (set_playing, start_event_loop, h, e) (record { loop_runs = refl; may_play = refl })
]

pub stopped-InStep :
    (state : RtspState) (t : Transport)
    → (t.channels 0).is_loop_running ≡ (t.channels 0).info.is_playing
    → MayPlay state false
    → ChannelInStep state ((set_playing t 0 false).channels 0)
unfolding set_playing stop_event_loop
stopped-InStep state t h may = elim (Bool-cases (t.channels 0).info.is_playing) [
  | inl e ↦ rw (set_playing, e) (record { loop_runs = refl; may_play = may })
  | inr e ↦ rw (set_playing, e) (record { loop_runs = h; may_play = rw e may })
]

abbrev pub LoopAgrees : Transport → Type 0
LoopAgrees t = (t.channels 0).is_loop_running ≡ (t.channels 0).info.is_playing

send_nal-LoopAgrees :
    (o : Outside) (ts : ℕ) (nal : List ℕ) (sent : Bool) (t : Transport)
    → LoopAgrees t
    → LoopAgrees (send_nal o ts nal sent t)
unfolding send_nal
send_nal-LoopAgrees o ts nal sent t h =
    let same = send_rtp_packet-SameLoops t 0 _ sent in
    same.same_running 0 ∙ h ∙ sym (same.same_playing 0)

send_set-LoopAgrees :
    (o : Outside) (ts : ℕ) (nal : List ℕ) (sent : Bool) (t : Transport)
    → LoopAgrees t
    → LoopAgrees (send_set o ts nal sent t)
unfolding send_set
send_set-LoopAgrees o ts [] sent t h = h
send_set-LoopAgrees o ts (b ∷ bs) sent t h = send_nal-LoopAgrees o ts (b ∷ bs) sent t h

pub send_sps_pps-LoopAgrees :
    (o : Outside) (s : Session) (t : Transport) → LoopAgrees t → LoopAgrees (send_sps_pps o s t)
unfolding send_sps_pps
send_sps_pps-LoopAgrees o s t h =
    let ts = s.context.rtp_timestamp in
    send_set-LoopAgrees o ts s.real_pps o.pps_sent (send_set o ts s.real_sps o.sps_sent t)
      (send_set-LoopAgrees o ts s.real_sps o.sps_sent t h)

rearmed-InStep :
    (state : RtspState) (t u : Transport)
    → SameLoops t u
    → ChannelInStep state (t.channels 0)
    → ChannelInStep state (
        (if not (runs (u.channels 0))
            then u
            else update u 0 (record (u.channels 0) { timer = true })).channels
          0)
rearmed-InStep state t u same h =
    let kept = same-InStep state t u same h in
    elim (Bool-cases (runs (u.channels 0))) [
      | inl e ↦ rw e (record { loop_runs = kept.loop_runs; may_play = kept.may_play })
      | inr e ↦ rw e kept
    ]

pub on_timer-InStep :
    (state : RtspState) (t : Transport) (produced : Option RtpPacket) (sent : Bool)
    → ChannelInStep state (t.channels 0)
    → ChannelInStep state ((on_timer t 0 produced sent).channels 0)
unfolding on_timer
on_timer-InStep state t produced sent h =
    let t0 = ended t 0 in
    let h0 : ChannelInStep state (t0.channels 0) = record {
      loop_runs = h.loop_runs;
      may_play = h.may_play;
    } in
    elim (Bool-cases (runs (t0.channels 0))) [
      | inr e ↦ rw (on_timer, e) h0
      | inl e ↦
          rw (on_timer, e)
            (rearmed-InStep state t0 (asked t0 0 produced sent) (asked-SameLoops t0 0 produced sent)
              h0)
    ]
