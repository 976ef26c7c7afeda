-- ===== src/Rtsp/Session/Supply.antt =====
-- The supply of packets of src/rtsp/rtspsession.cpp and the context of the session.
pub mod Endless
use ai_camera.Base.{
  ℕ, zero, suc, ◌+◌, ◌-◌, ◌*◌, ◌/◌, ◌%◌, ◌^◌, ◌≤◌, ◌<◌, ◌≡◌, refl, sym, ap, ◌∙◌, ◌≢◌, ◌↔◌, ◌⊎◌, inl,
  inr, Bool, true, false, not, ◌&&◌, ◌||◌, Option, none, some, List, [], ◌∷◌, ◌++◌, map, arith,
  dec_lt, dec_le, ℕ_discrete, ltb, leb, ◌==◌, if◌then◌else◌, ltb→lt, lt→ltb, ltb_false→le,
  le→ltb_false, ==_iff, ==_refl, Bool-cases, Option-cases, codes, length, get_or, take, drop,
  replicate, All, length-append, length-take, length-drop, take-append-drop, take-length,
  drop-length, take-append_le, drop-append_le, get_or-append_left, All-append, All-take, All-drop,
}
use ai_camera.Rtp.Packet.{RtpPacket}
use ai_camera.Rtp.H264.{NalFrame, handle_frame}
use ai_camera.Rtp.RawSource.{RawSource, NalUnit, rewound, read_next_frame}
use ai_camera.Rtp.Transport.{Transport, runs}
use ai_camera.Rtsp.Types.{RtspContext}
use ai_camera.Rtsp.Session.{Session, Outside}
use ai_camera.Rtsp.Session.Playback.{
  push, nal_frame, feed_units, frame_time, feed_frame, feed_again, feed_read, feed_next_nal_frame,
  pop, has_data, produce_next_packet, provided,
}

feed_again-context :
    (o : Outside) (s : Session) (read : RawSource × Option (List NalUnit))
    → (feed_again o s read).context ≡ s.context
unfolding feed_again feed_frame
feed_again-context o s (after, none) = refl
feed_again-context o s (after, some frame) = refl

feed_read-context :
    (o : Outside) (s : Session) (read : RawSource × Option (List NalUnit))
    → (feed_read o s read).context ≡ s.context
unfolding feed_read feed_frame
feed_read-context o s (after, none) = feed_again-context o s (read_next_frame (rewound after))
feed_read-context o s (after, some frame) = refl

either-context :
    (b : Bool) (s t u : Session)
    → t.context ≡ s.context
    → u.context ≡ s.context
    → (if b then t else u).context ≡ s.context
either-context true s t u h k = h
either-context false s t u h k = k

feed_next_nal_frame-context :
    (o : Outside) (s : Session) → (feed_next_nal_frame o s).context ≡ s.context
unfolding feed_next_nal_frame
feed_next_nal_frame-context o s = elim (Option-cases s.nal_source) [
  | inl e ↦ rw (feed_next_nal_frame, e) refl
  | inr (source, e) ↦
      rw (feed_next_nal_frame, e)
        (either-context s.has_h264 s (feed_read o s (read_next_frame source)) s
          (feed_read-context o s (read_next_frame source)) refl)
]

pop-context : (s : Session) (queue : List RtpPacket) → (pop s queue).0.context ≡ s.context
unfolding pop
pop-context s [] = refl
pop-context s (pkt ∷ queue) = refl

produce_next_packet-context :
    (o : Outside) (s : Session) → (produce_next_packet o s).0.context ≡ s.context
unfolding produce_next_packet
produce_next_packet-context o s =
    let fed = feed_next_nal_frame o s in
    elim (Bool-cases (has_data s.packet_queue)) [
      | inl e ↦ rw (produce_next_packet, e) (pop-context s s.packet_queue)
      | inr e ↦
          rw (produce_next_packet, e)
            (pop-context fed fed.packet_queue ∙ feed_next_nal_frame-context o s)
    ]

pub provided-context :
    (o : Outside) (s : Session) (t : Transport) → (provided o s t).0.context ≡ s.context
unfolding provided
provided-context o s t = elim (Bool-cases (runs (t.channels 0) && (t.channels 0).has_provider)) [
  | inl e ↦ rw (provided, e) (produce_next_packet-context o s)
  | inr e ↦ rw (provided, e) refl
]
