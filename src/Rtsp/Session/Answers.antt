-- ===== src/Rtsp/Session/Answers.antt =====
-- The states that requests lead to in src/rtsp/rtspsession.cpp, and what the peer is told.
use mathlib.Core.Path.{subst}
use ai_camera.Rtsp.Session.Choice.{KeepsState, context_of, choose-KeepsState}
use ai_camera.Base.{
  ℕ, ◌≡◌, refl, ap, ◌∙◌, ◌⊎◌, inl, inr, true, false, Option, none, some, if_true, if_false, sym,
  List, [], ◌∷◌, ◌++◌, arith, ◌==◌, if◌then◌else◌, Bool-cases, Option-cases, codes, length,
}
use ai_camera.Base.Text.{lines, first_line, lookup}
use ai_camera.Rtp.Packet.{TransportMode}
use ai_camera.Rtp.Transport.{Transport}
use ai_camera.Rtsp.Types.{RtspMethod, RtspState, RtspContext, RtspResponse, RtspStatus}
use ai_camera.Rtsp.Protocol.{parse_rtsp_request_line, parse_headers, build_response}
use ai_camera.Rtsp.Session.{Session, Outside, with_status, Handled, returned, threw}
use ai_camera.Rtsp.Session.Setup.{
  Chosen, chosen, refused, choice_threw, Setup, answered, setup_threw, choose, after_choice, set_up,
  set_up_mode, set_up_made, Made, made, made_none, make_threw, handle_setup, identified,
}
use ai_camera.Rtsp.Session.Requests.{
  handle_options, handle_describe, timed, start_playing, is_ready, is_playing, handle_play, stop_in,
  handle_teardown, handle_pause, cseq_of, send, handle_get_parameter, handle_set_parameter,
  handle_other, handle_method, send_response, noted, handle_rtsp_request,
}

-- The state that a request of a method leads to.
unfoldable pub Follows : RtspMethod → RtspState → RtspState → Type 0
Follows RtspMethod.setup s t = (t ≡ RtspState.ready) ⊎ (t ≡ s)
Follows RtspMethod.play s t = t ≡ (if is_ready s then RtspState.playing else s)
Follows RtspMethod.pause s t = t ≡ (if is_playing s then RtspState.paused else s)
Follows RtspMethod.teardown s t = t ≡ RtspState.teardown
Follows _ s t = t ≡ s

-- What a handler gives back: the state that follows, nothing sent yet, and a response with the CSeq.
pub record Replies (m : RtspMethod) (s : Session) (p : Session × List ℕ) : Type 0 where
  pub follows : Follows m s.context.state p.0.context.state
  pub sent : p.0.sent ≡ s.sent
  pub response : RtspResponse
  pub text : p.1 ≡ build_response response s.context.cseq

pub start_playing-context :
    (o : Outside) (s : Session) (t : Option Transport)
    → ((start_playing o s t).context ≡ s.context) × ((start_playing o s t).sent ≡ s.sent)
unfolding start_playing
start_playing-context o s none = (refl, refl)
start_playing-context o s (some t) = (refl, refl)

pub timed-kept :
    (o : Outside) (c : RtspContext) → ((timed o c).state ≡ c.state) × ((timed o c).cseq ≡ c.cseq)
unfolding timed
timed-kept o c = ground arith

play-Replies : (o : Outside) (s : Session) → Replies RtspMethod.play s (handle_play o s)
unfolding Follows handle_play
play-Replies o s =
    let c = timed o (record s.context { state = RtspState.playing }) in
    let (context, sent) = start_playing-context o (record s { context = c }) s.transport in
    let (state, cseq) = timed-kept o (record s.context { state = RtspState.playing }) in
    let told : (start_playing o (record s { context = c }) s.transport).context.cseq
        ≡ s.context.cseq =
      rw context cseq in
    elim (Bool-cases (is_ready s.context.state)) [
      | inr e ↦
          rw (handle_play, e)
            (record { follows = rw e refl; sent = refl; response = _; text = refl })
      | inl e ↦
          rw (handle_play, e)
            (record {
              follows = rw (e, context) state;
              sent = sent;
              response = _;
              text = ap (build_response _) told;
            })
    ]

pause-Replies : (s : Session) → Replies RtspMethod.pause s (handle_pause s)
unfolding Follows stop_in handle_pause
pause-Replies s = elim (Bool-cases (is_playing s.context.state)) [
  | inr e ↦
      rw (handle_pause, e) (record { follows = rw e refl; sent = refl; response = _; text = refl })
  | inl e ↦
      rw (handle_pause, e) (record { follows = rw e refl; sent = refl; response = _; text = refl })
]

pub identified-kept :
    (s : Session)
    → ((identified s).context.state ≡ s.context.state)
      × ((identified s).context.cseq ≡ s.context.cseq)
      × ((identified s).sent ≡ s.sent)
unfolding identified
identified-kept s = ground arith

describe-Replies : (o : Outside) (s : Session) → Replies RtspMethod.describe s (handle_describe o s)
unfolding Follows handle_describe
describe-Replies o s =
    let (state, cseq, sent) = identified-kept s in
    record { follows = state; sent = sent; response = _; text = ap (build_response _) cseq }

-- The state that an exception leaves: the one before, or READY where the socket of the sender does not
-- open, while the peer's address is known.
abbrev pub Thrown : Outside → RtspState → RtspState → Type 0
Thrown o s t = (t ≡ s) ⊎ ((t ≡ RtspState.ready) × (o.peer_known ≡ true) × (o.udp_opens ≡ false))

-- What may come of a request of a method: only SETUP throws.
unfoldable pub Sets : RtspMethod → Outside → Session → Setup → Type 0
Sets m o s (answered p) = Replies m s p
Sets m o s (setup_threw t) =
    (m ≡ RtspMethod.setup) × (Thrown o s.context.state t.context.state × (t.sent ≡ s.sent))

-- What a mode makes throws only where the socket does not open.
unfoldable Makes : Outside → Made → Type 0
Makes o make_threw = o.udp_opens ≡ false
Makes o _ = Unit

set_up_mode-Makes :
    (mode : TransportMode) (o : Outside) (c : RtspContext) → Makes o (set_up_mode mode o c)
unfolding set_up_mode Makes
set_up_mode-Makes TransportMode.rtp_over_tcp o c = tt
set_up_mode-Makes TransportMode.rtp_over_udp o c = elim (Bool-cases o.udp_opens) [
  | inl e ↦ subst (Makes o) (sym (if_true _ _ _ e)) tt
  | inr e ↦ subst (Makes o) (sym (if_false _ _ _ e)) e
]
set_up_mode-Makes TransportMode.rtp_over_multicast o c = tt

set_up_made-Sets :
    (o : Outside) (s : Session) (c : RtspContext) (m : Made)
    → o.peer_known ≡ true
    → Makes o m
    → KeepsState s.context c
    → Sets RtspMethod.setup o s (set_up_made s (record c { state = RtspState.ready }) m)
unfolding set_up_made Sets Follows Makes
set_up_made-Sets o s c made_none known makes k = record {
  follows = inl refl;
  sent = refl;
  response = _;
  text = ap (build_response _) k.cseq;
}
set_up_made-Sets o s c (made t text) known makes k = record {
  follows = inl refl;
  sent = refl;
  response = _;
  text = ap (build_response _) k.cseq;
}
set_up_made-Sets o s c make_threw known makes k = (refl, (inr (refl, known, makes), refl))

set_up-Sets :
    (o : Outside) (s : Session) (c : RtspContext)
    → KeepsState s.context c
    → Sets RtspMethod.setup o s (set_up o s c)
unfolding set_up Sets
set_up-Sets o s c k =
    let ready_context = record c { state = RtspState.ready } in
    elim (Bool-cases o.peer_known) [
      | inr e ↦
          subst (Sets RtspMethod.setup o s) (sym (if_false _ _ _ e)) (refl, (inl k.state, refl))
      | inl e ↦ subst (Sets RtspMethod.setup o s) (sym (if_true _ _ _ e)) (
          set_up_made-Sets o s c (set_up_mode c.mode o ready_context) e
            (set_up_mode-Makes c.mode o ready_context) k)
    ]

after_choice-Sets :
    (o : Outside) (s : Session) (c : Chosen)
    → KeepsState s.context (context_of c)
    → Sets RtspMethod.setup o s (after_choice o s c)
unfolding after_choice Sets Follows
after_choice-Sets o s (chosen c) k = set_up-Sets o s c k
after_choice-Sets o s (refused c) k = record {
  follows = inr k.state;
  sent = refl;
  response = _;
  text = ap (build_response _) k.cseq;
}
after_choice-Sets o s (choice_threw c) k = (refl, (inl k.state, refl))

Sets-from :
    (o : Outside) (s t : Session) (x : Setup)
    → t.context.state ≡ s.context.state
    → t.context.cseq ≡ s.context.cseq
    → t.sent ≡ s.sent
    → Sets RtspMethod.setup o t x
    → Sets RtspMethod.setup o s x
unfolding Sets Follows
Sets-from o s t (answered p) state cseq sent r = record {
  follows = rw (← state) r.follows;
  sent = r.sent ∙ sent;
  response = r.response;
  text = rw (← cseq) r.text;
}
Sets-from o s t (setup_threw u) state cseq sent (m, (thrown, nothing)) =
    (m, (rw (← state) thrown, nothing ∙ sent))

setup-Sets :
    (o : Outside) (s : Session) (headers : List (List ℕ × List ℕ))
    → Sets RtspMethod.setup o s (handle_setup o s headers)
unfolding handle_setup Sets Follows
setup-Sets o s headers =
    let (state, cseq, sent) = identified-kept s in
    elim (Option-cases (lookup (codes "Transport") headers)) [
      | inl e ↦
          rw (handle_setup, e)
            (record { follows = inr refl; sent = refl; response = _; text = refl })
      | inr (header, e) ↦
          rw (handle_setup, e)
            (Sets-from o s (identified s) _ state cseq sent (
              after_choice-Sets o (identified s) (choose (identified s).context header)
                (choose-KeepsState (identified s).context header)))
    ]

handle_method-Sets :
    (m : RtspMethod) (o : Outside) (s : Session) (headers : List (List ℕ × List ℕ))
    → Sets m o s (handle_method m o s headers)
unfolding handle_method Sets Follows handle_options handle_get_parameter handle_set_parameter
    handle_other handle_teardown stop_in
handle_method-Sets RtspMethod.options o s headers = record {
  follows = refl;
  sent = refl;
  response = _;
  text = refl;
}
handle_method-Sets RtspMethod.describe o s headers = describe-Replies o s
handle_method-Sets RtspMethod.setup o s headers = setup-Sets o s headers
handle_method-Sets RtspMethod.play o s headers = play-Replies o s
handle_method-Sets RtspMethod.pause o s headers = pause-Replies s
handle_method-Sets RtspMethod.teardown o s headers = record {
  follows = refl;
  sent = refl;
  response = _;
  text = refl;
}
handle_method-Sets RtspMethod.get_parameter o s headers = record {
  follows = refl;
  sent = refl;
  response = _;
  text = refl;
}
handle_method-Sets RtspMethod.set_parameter o s headers = record {
  follows = refl;
  sent = refl;
  response = _;
  text = refl;
}
handle_method-Sets RtspMethod.record_method o s headers = record {
  follows = refl;
  sent = refl;
  response = _;
  text = refl;
}
handle_method-Sets RtspMethod.unknown o s headers = record {
  follows = refl;
  sent = refl;
  response = _;
  text = refl;
}

-- What a request of a method comes to, from a state and with what had been sent.
unfoldable pub Served : RtspMethod → Outside → RtspState → List (List ℕ) → List ℕ → Handled → Type 0
Served m o state sent cseq (returned t) =
    Follows m state t.context.state
    × ((response : RtspResponse) × (t.sent ≡ sent ++ (build_response response cseq ∷ [])))
Served m o state sent cseq (threw t) =
    (m ≡ RtspMethod.setup) × (Thrown o state t.context.state × (t.sent ≡ sent))

-- The same by the request line.
unfoldable pub Answered :
    Option (RtspMethod × List ℕ × List ℕ) → Outside → Session → List ℕ → Handled → Type 0
Answered none o s cseq h =
    h
    ≡ returned (
        send s
          (build_response (with_status RtspStatus.bad_request (codes "Bad Request")) (codes "-1")))
Answered (some (m, url, version)) o s cseq h = Served m o s.context.state s.sent cseq h

build_response-some_text :
    (r : RtspResponse) (cseq : List ℕ) → (length (build_response r cseq) == 0) ≡ false
unfolding build_response
build_response-some_text r cseq = ground arith

send_response-Served :
    (m : RtspMethod) (o : Outside) (s : Session) (x : Setup)
    → Sets m o s x
    → Served m o s.context.state s.sent s.context.cseq (send_response x)
unfolding Sets Served send_response
send_response-Served m o s (answered (t, text)) r =
    rw (send_response, r.text, build_response-some_text r.response s.context.cseq)
      (
        r.follows,
        (r.response, ap (λ sent. sent ++ (build_response r.response s.context.cseq ∷ [])) r.sent),
      )
send_response-Served m o s (setup_threw t) r = r

-- A request whose first line is refused is answered with a 400. Any other gets one response, with the
-- CSeq of its header or of the last request that had one, and the state is the one that follows:
-- SETUP leads to READY or leaves the state, PLAY leads from READY to PLAYING, PAUSE from PLAYING to PAUSED,
-- TEARDOWN to TEARDOWN, and all else leaves the state. Only SETUP may throw, and then nothing is sent
-- and the state is left, or is READY where the peer's address is known and the socket of the UDP sender
-- does not open.
pub handle_rtsp_request-Served :
    (o : Outside) (s : Session) (text : List ℕ)
    → Answered
        (parse_rtsp_request_line (first_line (lines text)))
        o
        s
        (cseq_of s (parse_headers text))
        (handle_rtsp_request o s text)
unfolding handle_rtsp_request Answered noted
handle_rtsp_request-Served o s text =
    elim (Option-cases (parse_rtsp_request_line (first_line (lines text)))) [
      | inl e ↦ rw (handle_rtsp_request, e) refl
      | inr ((method, url, version), e) ↦
          let headers = parse_headers text in
          rw (handle_rtsp_request, e)
            (send_response-Served method o (noted s url headers) _
              (handle_method-Sets method o (noted s url headers) headers))
    ]
