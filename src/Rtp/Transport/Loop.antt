-- ===== src/Rtp/Transport/Loop.antt =====
-- The send loops of src/rtp/rtptransport.cpp: a wait is pending exactly while a channel's loop runs,
-- and the loop runs only while the channel plays.
use ai_camera.Base.{
  ℕ, ◌+◌, ◌<◌, ◌≡◌, refl, sym, ◌∙◌, inl, inr, Bool, true, false, not, ◌&&◌, ◌||◌, Option, none,
  some, List, [], ◌∷◌, ◌++◌, arith, ltb, leb, ◌==◌, if◌then◌else◌, lt→ltb, ==_refl, Bool-cases,
}
use ai_camera.Base.Bytes.{to_u64}
use ai_camera.Rtp.Packet.{
  RtpPacket, MediaChannelInfo, max_media_channel, set_tcp_mode, set_udp_mode, set_multicast_mode,
}
use ai_camera.Rtp.Transport.{
  runs, Channel, Transport, update, with_info, set_clock_rate, set_payload_type, set_ssrc,
  set_rtp_over_tcp, set_rtp_over_udp, set_rtp_over_multicast, fill_rtp_header, send_rtp,
  send_rtp_packet, start_event_loop, stop_event_loop, playing, set_playing, set_frame_rate,
  set_frame_provider, start, stop, provide, on_timer,
}

-- The calls of the transport, and the end of a channel's wait.
pub data Call : Type 0 where
  clock_rate_set payload_type_set ssrc_set : ℕ → ℕ → Call
  over_tcp : ℕ → ℕ → ℕ → Call
  over_udp : ℕ → ℕ → ℕ → ℕ → Call
  over_multicast : ℕ → List ℕ → ℕ → Call
  packet_sent : ℕ → RtpPacket → Bool → Call
  playing_set : ℕ → Bool → Call
  frame_rate_set : ℕ → ℕ → Call
  provider_set : ℕ → Bool → Call
  started stopped : Call
  wait_ended : ℕ → Option RtpPacket → Bool → Call

unfoldable pub serve : Call → Transport → Transport
serve (clock_rate_set id rate) t = set_clock_rate t id rate
serve (payload_type_set id payload) t = set_payload_type t id payload
serve (ssrc_set id ssrc) t = set_ssrc t id ssrc
serve (over_tcp id rtp rtcp) t = (set_rtp_over_tcp t id rtp rtcp).0
serve (over_udp id port rtp rtcp) t = (set_rtp_over_udp t port id rtp rtcp).0
serve (over_multicast id ip port) t = (set_rtp_over_multicast t id ip port).0
serve (packet_sent id pkt sent) t = (send_rtp_packet t id pkt sent).0
serve (playing_set id play) t = set_playing t id play
serve (frame_rate_set id fps) t = set_frame_rate t id fps
serve (provider_set id provider) t = set_frame_provider t id provider
serve started t = start t
serve stopped t = stop t
serve (wait_ended id produced sent) t = on_timer t id produced sent

pub record Agrees (c : Channel) : Type 0 where
  pub waits : c.timer ≡ c.is_loop_running
  pub no_stray_loop : (c.is_loop_running && not c.info.is_playing) ≡ false
  -- `OnTimer` divides by it.
  pub rate_positive : 0 < c.frame_rate

pub record AllAgree (t : Transport) : Type 0 where
  pub channel_agrees : (i : ℕ) → Agrees (t.channels i)

update-AllAgree :
    (t : Transport) (id : ℕ) (c : Channel) → AllAgree t → Agrees c → AllAgree (update t id c)
update-AllAgree t id c a h = record {
  channel_agrees =
      λ i. elim (Bool-cases (i == id)) [ inl e ↦ rw e h | inr e ↦ rw e (a.channel_agrees i) ];
}

-- The loops of two transports are in the same state, channel by channel.
pub record SameLoops (t u : Transport) : Type 0 where
  pub same_timer : (i : ℕ) → (u.channels i).timer ≡ (t.channels i).timer
  pub same_running : (i : ℕ) → (u.channels i).is_loop_running ≡ (t.channels i).is_loop_running
  pub same_playing : (i : ℕ) → (u.channels i).info.is_playing ≡ (t.channels i).info.is_playing
  pub same_rate : (i : ℕ) → (u.channels i).frame_rate ≡ (t.channels i).frame_rate

SameLoops-refl : (t : Transport) → SameLoops t t
SameLoops-refl t = record {
  same_timer = λ i. refl;
  same_running = λ i. refl;
  same_playing = λ i. refl;
  same_rate = λ i. refl;
}

SameLoops-trans : (t u v : Transport) → SameLoops t u → SameLoops u v → SameLoops t v
SameLoops-trans t u v a b = record {
  same_timer = λ i. b.same_timer i ∙ a.same_timer i;
  same_running = λ i. b.same_running i ∙ a.same_running i;
  same_playing = λ i. b.same_playing i ∙ a.same_playing i;
  same_rate = λ i. b.same_rate i ∙ a.same_rate i;
}

SameLoops-AllAgree : (t u : Transport) → SameLoops t u → AllAgree t → AllAgree u
SameLoops-AllAgree t u s a = record {
  channel_agrees = λ i. (record {
    waits = s.same_timer i ∙ (a.channel_agrees i).waits ∙ sym (s.same_running i);
    no_stray_loop = rw (s.same_running i, s.same_playing i) (a.channel_agrees i).no_stray_loop;
    rate_positive = rw (s.same_rate i) (a.channel_agrees i).rate_positive;
  });
}

-- A change of a channel's parameters that leaves `is_playing` alone.
with_info-SameLoops :
    (t : Transport) (id : ℕ) (info : MediaChannelInfo)
    → info.is_playing ≡ (t.channels id).info.is_playing
    → SameLoops t (with_info t id info)
with_info-SameLoops t id info e = record {
  same_timer = λ i. ground arith;
  same_running = λ i. ground arith;
  same_playing = λ i. ground arith;
  same_rate = λ i. ground arith;
}

with_info-AllAgree :
    (t : Transport) (id : ℕ) (info : MediaChannelInfo)
    → AllAgree t
    → info.is_playing ≡ (t.channels id).info.is_playing
    → AllAgree (with_info t id info)
with_info-AllAgree t id info a e = SameLoops-AllAgree t _ (with_info-SameLoops t id info e) a

either-AllAgree :
    (b : Bool) (t u : Transport) → AllAgree t → AllAgree u → AllAgree (if b then t else u)
either-AllAgree true t u a b = a
either-AllAgree false t u a b = b

-- The calls that answer whether the channel exists.
either_answer-AllAgree :
    (b : Bool) (p q : Transport × Bool)
    → AllAgree p.0
    → AllAgree q.0
    → AllAgree (if◌then◌else◌ {A = Transport × Bool} b p q).0
either_answer-AllAgree true p q a b = a
either_answer-AllAgree false p q a b = b

either_answer-SameLoops :
    (t : Transport) (b : Bool) (p q : Transport × Bool)
    → SameLoops t p.0
    → SameLoops t q.0
    → SameLoops t (if◌then◌else◌ {A = Transport × Bool} b p q).0
either_answer-SameLoops t true p q a b = a
either_answer-SameLoops t false p q a b = b

send_rtp-SameLoops :
    (t : Transport) (id : ℕ) (p : RtpPacket) (sent : Bool) → SameLoops t (send_rtp t id p sent).0
unfolding send_rtp fill_rtp_header
send_rtp-SameLoops t id p sent =
    let (info, filled) = fill_rtp_header (t.channels id).info p in
    let s = with_info-SameLoops t id info refl in
    either_answer-SameLoops t (not t.has_sender) (t, false)
      (record (with_info t id info) { handed = t.handed ++ ((id, filled) ∷ []) }, sent)
      (SameLoops-refl t)
      (record {
        same_timer = s.same_timer;
        same_running = s.same_running;
        same_playing = s.same_playing;
        same_rate = s.same_rate;
      })

-- The counters after a packet that was sent.
abbrev counted : Transport → ℕ → RtpPacket → Transport
counted t id p =
    let info = (t.channels id).info in
    with_info t id (record info {
      packet_count = to_u64 (info.packet_count + 1);
      octet_count = to_u64 (info.octet_count + p.size);
    })

pub send_rtp_packet-SameLoops :
    (t : Transport) (id : ℕ) (p : RtpPacket) (sent : Bool)
    → SameLoops t (send_rtp_packet t id p sent).0
unfolding send_rtp_packet
send_rtp_packet-SameLoops t id p sent =
    let (t1, ok) = send_rtp t id p sent in
    let s = send_rtp-SameLoops t id p sent in
    either_answer-SameLoops t (t.is_closed || not t.has_sender) (t, false)
      (if not ok then (t1, false) else (counted t1 id p, true)) (SameLoops-refl t)
      (either_answer-SameLoops t (not ok) (t1, false) (counted t1 id p, true) s
        (SameLoops-trans t t1 _ s (with_info-SameLoops t1 id _ refl)))

-- The transport when a wait of the channel has ended, and after the provider was asked.
abbrev pub ended : Transport → ℕ → Transport
ended t id = update t id (record (t.channels id) { timer = false })

abbrev pub asked : Transport → ℕ → Option RtpPacket → Bool → Transport
asked t id produced sent = if (t.channels id).has_provider then provide t id produced sent else t

provide-SameLoops :
    (t : Transport) (id : ℕ) (produced : Option RtpPacket) (sent : Bool)
    → SameLoops t (provide t id produced sent)
unfolding provide
provide-SameLoops t id none sent = SameLoops-refl t
provide-SameLoops t id (some p) sent = send_rtp_packet-SameLoops t id p sent

pub asked-SameLoops :
    (t : Transport) (id : ℕ) (produced : Option RtpPacket) (sent : Bool)
    → SameLoops t (asked t id produced sent)
asked-SameLoops t id produced sent = elim (Bool-cases (t.channels id).has_provider) [
  | inl e ↦ rw e (provide-SameLoops t id produced sent)
  | inr e ↦ rw e (SameLoops-refl t)
]

-- A channel that runs and waits again agrees, whatever its timer was before.
rearmed-AllAgree :
    (t u : Transport) (id : ℕ)
    → AllAgree t
    → SameLoops (ended t id) u
    → runs (u.channels id) ≡ true
    → AllAgree (update u id (record (u.channels id) { timer = true }))
rearmed-AllAgree t u id a s r = record {
  channel_agrees = λ i. elim (Bool-cases (i == id)) [
    | inl e ↦ rw e (record {
      waits = ground arith;
      no_stray_loop = ground arith;
      rate_positive = rw (s.same_rate id) (rw (==_refl id) (a.channel_agrees id).rate_positive);
    })
    | inr e ↦
        let same_timer : (u.channels i).timer ≡ (t.channels i).timer = rw e at (s.same_timer i) in
        let same_running : (u.channels i).is_loop_running ≡ (t.channels i).is_loop_running =
          rw e at (s.same_running i) in
        let same_playing : (u.channels i).info.is_playing ≡ (t.channels i).info.is_playing =
          rw e at (s.same_playing i) in
        let same_rate : (u.channels i).frame_rate ≡ (t.channels i).frame_rate =
          rw e at (s.same_rate i) in
        let c = a.channel_agrees i in
        rw e (record {
          waits = same_timer ∙ c.waits ∙ sym same_running;
          no_stray_loop = rw (same_running, same_playing) c.no_stray_loop;
          rate_positive = rw same_rate c.rate_positive;
        })
  ];
}

on_timer-AllAgree :
    (t : Transport) (id : ℕ) (produced : Option RtpPacket) (sent : Bool)
    → AllAgree t
    → AllAgree (on_timer t id produced sent)
unfolding on_timer
on_timer-AllAgree t id produced sent a = elim (Bool-cases (runs ((ended t id).channels id))) [
  | inl r ↦
      let s = asked-SameLoops (ended t id) id produced sent in
      let still : runs ((asked (ended t id) id produced sent).channels id) ≡ true =
        rw (s.same_playing id, s.same_running id) r in
      rw (r, still) (rearmed-AllAgree t (asked (ended t id) id produced sent) id a s still)
  | inr r ↦
      let stopped : runs (t.channels id) ≡ false = rw (==_refl id) at r in
      let c = a.channel_agrees id in
      let stray = c.no_stray_loop in
      rw r (
        update-AllAgree t id _ a
          (record { waits = ground arith; no_stray_loop = stray; rate_positive = c.rate_positive }))
]

start_event_loop-Agrees : (c : Channel) → Agrees c → Agrees (start_event_loop (playing c true))
unfolding start_event_loop
start_event_loop-Agrees c a = elim (Bool-cases c.is_loop_running) [
  | inl e ↦
      rw e
        (record { waits = rw e at a.waits; no_stray_loop = refl; rate_positive = a.rate_positive })
  | inr e ↦ rw e (record { waits = refl; no_stray_loop = refl; rate_positive = a.rate_positive })
]

set_playing-AllAgree :
    (t : Transport) (id : ℕ) (play : Bool) → AllAgree t → AllAgree (set_playing t id play)
unfolding set_playing stop_event_loop
set_playing-AllAgree t id play a =
    let c = a.channel_agrees id in
    either-AllAgree _ t _ a (
      either-AllAgree play _ _
        (either-AllAgree _ _ t
          (update-AllAgree t id _ a (start_event_loop-Agrees (t.channels id) c)) a)
        (either-AllAgree _ _ t
          (update-AllAgree t id _ a
            (record { waits = refl; no_stray_loop = refl; rate_positive = c.rate_positive }))
          a))

stop-AllAgree : (t : Transport) → AllAgree t → AllAgree (stop t)
unfolding stop stop_event_loop
stop-AllAgree t a = either-AllAgree t.is_closed t _ a (record {
  channel_agrees = λ i. elim (Bool-cases (ltb i max_media_channel)) [
    | inl e ↦ rw e (record {
      waits = refl;
      no_stray_loop = refl;
      rate_positive = (a.channel_agrees i).rate_positive;
    })
    | inr e ↦ rw e (a.channel_agrees i)
  ];
})

-- Every call keeps the channels so.
pub serve-AllAgree : (call : Call) (t : Transport) → AllAgree t → AllAgree (serve call t)
unfolding serve set_clock_rate set_payload_type set_ssrc set_rtp_over_tcp set_rtp_over_udp
    set_rtp_over_multicast set_tcp_mode set_udp_mode set_multicast_mode set_frame_rate
    set_frame_provider
serve-AllAgree (clock_rate_set id rate) t a =
    either-AllAgree _ t _ a (with_info-AllAgree t id _ a refl)
serve-AllAgree (payload_type_set id payload) t a =
    either-AllAgree _ t _ a (with_info-AllAgree t id _ a refl)
serve-AllAgree (ssrc_set id ssrc) t a = either-AllAgree _ t _ a (with_info-AllAgree t id _ a refl)
serve-AllAgree (over_tcp id rtp rtcp) t a =
    either_answer-AllAgree _ (t, false) _ a (with_info-AllAgree t id _ a refl)
serve-AllAgree (over_udp id port rtp rtcp) t a =
    either_answer-AllAgree _ (t, false) _ a (with_info-AllAgree t id _ a refl)
serve-AllAgree (over_multicast id ip port) t a =
    either_answer-AllAgree _ (t, false) _ a
      (with_info-AllAgree (record t { is_multicast = true }) id _
        (record { channel_agrees = a.channel_agrees }) refl)
serve-AllAgree (packet_sent id pkt sent) t a =
    SameLoops-AllAgree t _ (send_rtp_packet-SameLoops t id pkt sent) a
serve-AllAgree (playing_set id play) t a = set_playing-AllAgree t id play a
serve-AllAgree (frame_rate_set id fps) t a =
    let c = a.channel_agrees id in
    either-AllAgree _ t _ a (
      update-AllAgree t id _ a
        (record { waits = c.waits; no_stray_loop = c.no_stray_loop; rate_positive = ground arith }))
serve-AllAgree (provider_set id provider) t a =
    let c = a.channel_agrees id in
    either-AllAgree _ t _ a (
      update-AllAgree t id _ a (record {
        waits = c.waits;
        no_stray_loop = c.no_stray_loop;
        rate_positive = c.rate_positive;
      }))
serve-AllAgree started t a = record { channel_agrees = a.channel_agrees }
serve-AllAgree stopped t a = stop-AllAgree t a
serve-AllAgree (wait_ended id produced sent) t a = on_timer-AllAgree t id produced sent a

-- A channel that plays when the transport is stopped: after a start, asking for it to play again
-- changes nothing, and its loop stays stopped, with no wait pending, though it counts as playing.
pub stopped_loop_not_restarted :
    (t : Transport) (id : ℕ)
    → id < max_media_channel
    → t.is_closed ≡ false
    → (t.channels id).info.is_playing ≡ true
    → (set_playing (start (stop t)) id true ≡ start (stop t))
      × ((start (stop t)).channels id ≡ stop_event_loop (t.channels id))
      × (((start (stop t)).channels id).info.is_playing ≡ true)
unfolding set_playing stop stop_event_loop
stopped_loop_not_restarted t id there running plays =
    let in_range : leb max_media_channel id ≡ false = ground arith in
    let below : ltb id max_media_channel ≡ true = lt→ltb id max_media_channel there in
    rw (running, in_range, below, plays) (refl, refl, refl)
