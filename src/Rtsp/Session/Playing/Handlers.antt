-- ===== src/Rtsp/Session/Playing/Handlers.antt =====
-- What the request handlers of src/rtsp/rtspsession.cpp do to the state and the send loop.
use mathlib.Core.Path.{subst}
use ai_camera.Base.{
  if_true, if_false, ℕ, ◌≡◌, refl, sym, ◌⊎◌, inl, inr, false, Option, none, some, List, [], ◌∷◌,
  ◌==◌, Bool-cases, Option-cases, codes, length,
}
use ai_camera.Base.Text.{lines, first_line, lookup}
use ai_camera.Rtp.Packet.{TransportMode, set_tcp_mode, set_udp_mode}
use ai_camera.Rtp.Transport.{
  Transport, set_frame_rate, set_frame_provider, set_clock_rate, set_payload_type, set_ssrc,
  set_rtp_over_tcp, set_rtp_over_udp,
}
use ai_camera.Rtp.Interleaved.{Piece, rtp_data, rtcp_data, request}
use ai_camera.Rtsp.Types.{RtspMethod, RtspState, RtspContext}
use ai_camera.Rtsp.Protocol.{parse_rtsp_request_line, parse_headers}
use ai_camera.Rtsp.Session.{Session, Outside, Handled, returned, threw}
use ai_camera.Rtsp.Session.Setup.{
  Chosen, chosen, refused, choice_threw, Setup, answered, setup_threw, choose, after_choice, set_up,
  set_up_mode, set_up_made, Made, made, made_none, make_threw, handle_setup, identified,
  tcp_transport, udp_transport,
}
use ai_camera.Rtsp.Session.Answers.{start_playing-context, timed-kept}
use ai_camera.Rtsp.Session.Choice.{KeepsState, context_of, choose-KeepsState}
use ai_camera.Rtsp.Session.Requests.{
  handle_options, handle_describe, timed, start_playing, is_ready, is_playing, handle_play, stop_in,
  handle_teardown, handle_pause, handle_get_parameter, handle_set_parameter, handle_other,
  handle_method, send_response, noted, handle_rtsp_request, take_pieces,
}
use ai_camera.Rtsp.Session.Playing.{
  MayPlay, ChannelInStep, TransportInStep, InStep, played-InStep, stopped-InStep,
  send_sps_pps-LoopAgrees,
}

start_playing-InStep :
    (o : Outside) (s : Session) (state : RtspState) (t : Option Transport)
    → s.transport ≡ t
    → TransportInStep state t
    → TransportInStep RtspState.playing (start_playing o s t).transport
unfolding start_playing TransportInStep set_frame_rate set_frame_provider
start_playing-InStep o s state none e h = rw e tt
start_playing-InStep o s state (some t) e h =
    played-InStep _ (send_sps_pps-LoopAgrees o s _ h.loop_runs)

play-InStep : (o : Outside) (s : Session) → InStep s → InStep (handle_play o s).0
unfolding handle_play timed
play-InStep o s h =
    let c = timed o (record s.context { state = RtspState.playing }) in
    let (context, sent) = start_playing-context o (record s { context = c }) s.transport in
    let (state, cseq) = timed-kept o (record s.context { state = RtspState.playing }) in
    elim (Bool-cases (is_ready s.context.state)) [
      | inr e ↦ rw (handle_play, e) h
      | inl e ↦
          rw (handle_play, e, context, state)
            (start_playing-InStep o (record s { context = c }) s.context.state s.transport refl h)
    ]

stop_in-InStep :
    (state : RtspState) (s : Session) → MayPlay state false → InStep s → InStep (stop_in state s)
unfolding stop_in TransportInStep
stop_in-InStep state s may h = elim (Option-cases s.transport) [
  | inl e ↦ rw (stop_in, e) tt
  | inr (t, e) ↦ rw (stop_in, e) (stopped-InStep state t (rw e at h).loop_runs may)
]

pause-InStep : (s : Session) → InStep s → InStep (handle_pause s).0
unfolding handle_pause MayPlay
pause-InStep s h = elim (Bool-cases (is_playing s.context.state)) [
  | inr e ↦ rw (handle_pause, e) h
  | inl e ↦ rw (handle_pause, e) (stop_in-InStep RtspState.paused s refl h)
]

-- Fresh memory that does not say that the channel plays.
abbrev pub Silent : Outside → Type 0
Silent o = (o.fresh_info 0).is_playing ≡ false

tcp_transport-InStep :
    (o : Outside) (c : RtspContext)
    → Silent o
    → ChannelInStep RtspState.ready ((tcp_transport o c).channels 0)
unfolding tcp_transport MayPlay set_rtp_over_tcp set_tcp_mode set_clock_rate set_payload_type
    set_ssrc
tcp_transport-InStep o c silent = record { loop_runs = sym silent; may_play = tt }

udp_transport-InStep :
    (o : Outside) (c : RtspContext)
    → Silent o
    → ChannelInStep RtspState.ready ((udp_transport o c).channels 0)
unfolding udp_transport MayPlay set_rtp_over_udp set_udp_mode set_clock_rate set_payload_type
    set_ssrc
udp_transport-InStep o c silent = record { loop_runs = sym silent; may_play = tt }

-- SETUP may find a channel that plays, and leave it so.
ready-InStep :
    (state : RtspState) (t : Option Transport)
    → TransportInStep state t
    → TransportInStep RtspState.ready t
unfolding TransportInStep MayPlay
ready-InStep state none h = tt
ready-InStep state (some t) h = record { loop_runs = h.loop_runs; may_play = tt }

unfoldable ModeInStep : Made → Type 0
ModeInStep made_none = Unit
ModeInStep make_threw = Unit
ModeInStep (made t text) = ChannelInStep RtspState.ready (t.channels 0)

set_up_mode-ModeInStep :
    (mode : TransportMode) (o : Outside) (c : RtspContext)
    → Silent o
    → ModeInStep (set_up_mode mode o c)
unfolding set_up_mode ModeInStep
set_up_mode-ModeInStep TransportMode.rtp_over_tcp o c silent = tcp_transport-InStep o c silent
set_up_mode-ModeInStep TransportMode.rtp_over_udp o c silent = elim (Bool-cases o.udp_opens) [
  | inl e ↦ subst ModeInStep (sym (if_true _ _ _ e)) (udp_transport-InStep o c silent)
  | inr e ↦ subst ModeInStep (sym (if_false _ _ _ e)) tt
]
set_up_mode-ModeInStep TransportMode.rtp_over_multicast o c silent = tt

-- The session that a handler of a request leaves.
abbrev pub session_of : Handled → Session
session_of (returned s) = s
session_of (threw s) = s

abbrev session_after : Setup → Session
session_after (answered (s, text)) = s
session_after (setup_threw s) = s

abbrev InStepAfter : Setup → Type 0
InStepAfter x = InStep (session_after x)

set_up_made-InStep :
    (s : Session) (c : RtspContext) (m : Made)
    → ModeInStep m
    → InStep s
    → InStep (session_after (set_up_made s (record c { state = RtspState.ready }) m))
unfolding set_up_made TransportInStep ModeInStep
set_up_made-InStep s c made_none made_in_step h = ready-InStep s.context.state s.transport h
set_up_made-InStep s c make_threw made_in_step h = ready-InStep s.context.state s.transport h
set_up_made-InStep s c (made t text) made_in_step h = made_in_step

set_up-InStep :
    (o : Outside) (s : Session) (c : RtspContext)
    → KeepsState s.context c
    → Silent o
    → InStep s
    → InStep (session_after (set_up o s c))
unfolding set_up
set_up-InStep o s c k silent h =
    let ready_context = record c { state = RtspState.ready } in
    elim (Bool-cases o.peer_known) [
      | inr e ↦ subst InStepAfter (sym (if_false _ _ _ e)) (rw k.state h)
      | inl e ↦ subst InStepAfter (sym (if_true _ _ _ e)) (
          set_up_made-InStep s c (set_up_mode c.mode o ready_context)
            (set_up_mode-ModeInStep c.mode o ready_context silent) h)
    ]

after_choice-InStep :
    (o : Outside) (s : Session) (x : Chosen)
    → KeepsState s.context (context_of x)
    → Silent o
    → InStep s
    → InStep (session_after (after_choice o s x))
unfolding after_choice
after_choice-InStep o s (chosen c) k silent h = set_up-InStep o s c k silent h
after_choice-InStep o s (refused c) k silent h = rw k.state h
after_choice-InStep o s (choice_threw c) k silent h = rw k.state h

identified-InStep : (s : Session) → InStep s → InStep (identified s)
unfolding identified
identified-InStep s h = elim (Bool-cases (length s.context.session_id == 0)) [
  | inl e ↦ rw (identified, e) h
  | inr e ↦ rw (identified, e) h
]

setup-InStep :
    (o : Outside) (s : Session) (headers : List (List ℕ × List ℕ))
    → Silent o
    → InStep s
    → InStep (session_after (handle_setup o s headers))
unfolding handle_setup
setup-InStep o s headers silent h = elim (Option-cases (lookup (codes "Transport") headers)) [
  | inl e ↦ rw (handle_setup, e) h
  | inr (header, e) ↦
      rw (handle_setup, e)
        (after_choice-InStep o (identified s) (choose (identified s).context header)
          (choose-KeepsState (identified s).context header) silent (identified-InStep s h))
]

handle_method-InStep :
    (m : RtspMethod) (o : Outside) (s : Session) (headers : List (List ℕ × List ℕ))
    → Silent o
    → InStep s
    → InStep (session_after (handle_method m o s headers))
unfolding handle_method handle_options handle_describe handle_teardown handle_get_parameter
    handle_set_parameter handle_other MayPlay
handle_method-InStep RtspMethod.options o s headers silent h = h
handle_method-InStep RtspMethod.describe o s headers silent h = identified-InStep s h
handle_method-InStep RtspMethod.setup o s headers silent h = setup-InStep o s headers silent h
handle_method-InStep RtspMethod.play o s headers silent h = play-InStep o s h
handle_method-InStep RtspMethod.pause o s headers silent h = pause-InStep s h
handle_method-InStep RtspMethod.teardown o s headers silent h =
    stop_in-InStep RtspState.teardown s refl h
handle_method-InStep RtspMethod.get_parameter o s headers silent h = h
handle_method-InStep RtspMethod.set_parameter o s headers silent h = h
handle_method-InStep RtspMethod.record_method o s headers silent h = h
handle_method-InStep RtspMethod.unknown o s headers silent h = h

send_response-InStep :
    (x : Setup) → InStep (session_after x) → InStep (session_of (send_response x))
unfolding send_response
send_response-InStep (answered (s, text)) h = elim (Bool-cases (length text == 0)) [
  | inl e ↦ rw (send_response, e) h
  | inr e ↦ rw (send_response, e) h
]
send_response-InStep (setup_threw s) h = h

pub handle_rtsp_request-InStep :
    (o : Outside) (s : Session) (text : List ℕ)
    → Silent o
    → InStep s
    → InStep (session_of (handle_rtsp_request o s text))
unfolding handle_rtsp_request noted
handle_rtsp_request-InStep o s text silent h =
    elim (Option-cases (parse_rtsp_request_line (first_line (lines text)))) [
      | inl e ↦ rw (handle_rtsp_request, e) h
      | inr ((method, url, version), e) ↦
          let headers = parse_headers text in
          rw (handle_rtsp_request, e)
            (send_response-InStep (handle_method method o (noted s url headers) headers)
              (handle_method-InStep method o (noted s url headers) headers silent h))
    ]

Handled-cases : (h : Handled) → ((t : Session) × (h ≡ returned t)) ⊎ ((t : Session) × (h ≡ threw t))
Handled-cases (returned t) = inl (t, refl)
Handled-cases (threw t) = inr (t, refl)

pub take_pieces-InStep :
    (o : Outside) (s : Session) (pieces : List Piece) (rest : List ℕ)
    → Silent o
    → InStep s
    → InStep (session_of (take_pieces o s pieces rest))
unfolding take_pieces
take_pieces-InStep o s [] rest silent h = h
take_pieces-InStep o s (rtp_data d ∷ pieces) rest silent h =
    take_pieces-InStep o s pieces rest silent h
take_pieces-InStep o s (rtcp_data d ∷ pieces) rest silent h =
    take_pieces-InStep o s pieces rest silent h
take_pieces-InStep o s (request text ∷ pieces) rest silent h =
    let handled = handle_rtsp_request-InStep o (record s { read_buffer = text }) text silent h in
    elim (Handled-cases (handle_rtsp_request o (record s { read_buffer = text }) text)) [
      | inl (t, e) ↦
          rw (take_pieces, e) (take_pieces-InStep o t pieces rest silent (rw e at handled))
      | inr (t, e) ↦ rw (take_pieces, e) (rw e at handled)
    ]
