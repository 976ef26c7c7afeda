-- ===== src/Rtsp/Session/Playback.antt =====
-- The supply of packets of src/rtsp/rtspsession.cpp.
use ai_camera.Base.{
  ℕ, ◌+◌, ◌*◌, ◌/◌, ◌%◌, ◌^◌, Bool, true, false, ◌&&◌, Option, none, some, List, [], ◌∷◌, ◌++◌,
  if◌then◌else◌,
}
use ai_camera.Rtp.Packet.{RtpPacket}
use ai_camera.Rtp.H264.{NalFrame, handle_frame}
use ai_camera.Rtp.RawSource.{RawSource, NalUnit, rewound, read_next_frame}
use ai_camera.Rtp.Transport.{Transport, runs, on_timer}
use ai_camera.Rtsp.Session.{Session, Outside, file_frame_rate}

-- The callback given to the H.264 source: `RtpPacketQueue::Push`.
abbrev pub push : RtpPacket → List RtpPacket → List RtpPacket × Bool
push pkt queue = (queue ++ (pkt ∷ []), true)

abbrev pub nal_frame : NalUnit → ℕ → NalFrame
nal_frame u ts = record {
  buffer = u.nal.bytes;
  kind = (if u.is_keyframe then 1 else 2);
  timestamp = ts;
}

-- The loop over the units of a frame.
unfoldable pub feed_units : Outside → ℕ → List NalUnit → List RtpPacket → List RtpPacket
feed_units o ts [] queue = queue
feed_units o ts (u ∷ us) queue =
    feed_units o ts us (handle_frame (some push) o.fresh_bytes o.timestamp (nal_frame u ts) queue).0

abbrev pub frame_time : Session → ℕ
frame_time s = (s.context.rtp_timestamp + s.frame_index * (90000 / file_frame_rate)) % 2 ^ 32

unfoldable pub feed_frame : Outside → Session → RawSource → List NalUnit → Session
feed_frame o s source frame = record s {
  nal_source = some source;
  packet_queue = feed_units o (frame_time s) frame s.packet_queue;
  frame_index = (s.frame_index + 1) % 2 ^ 32;
}

-- The second try, at the start of the file.
unfoldable pub feed_again : Outside → Session → RawSource × Option (List NalUnit) → Session
feed_again o s (after, none) = record s { nal_source = some after; frame_index = 0 }
feed_again o s (after, some frame) = feed_frame o (record s { frame_index = 0 }) after frame

unfoldable pub feed_read : Outside → Session → RawSource × Option (List NalUnit) → Session
feed_read o s (after, none) = feed_again o s (read_next_frame (rewound after))
feed_read o s (after, some frame) = feed_frame o s after frame

unfoldable pub feed_next_nal_frame : Outside → Session → Session
feed_next_nal_frame o s = elim s.nal_source [
  | none ↦ s
  | some source ↦ if s.has_h264 then feed_read o s (read_next_frame source) else s
]

-- `Pop`.
unfoldable pub pop : Session → List RtpPacket → Session × Option RtpPacket
pop s [] = (s, none)
pop s (pkt ∷ queue) = (record s { packet_queue = queue }, some pkt)

abbrev pub has_data : List RtpPacket → Bool
has_data [] = false
has_data (pkt ∷ queue) = true

unfoldable pub produce_next_packet : Outside → Session → Session × Option RtpPacket
produce_next_packet o s =
    let fed = feed_next_nal_frame o s in
    if has_data s.packet_queue then pop s s.packet_queue else pop fed fed.packet_queue

-- The provider's part of a wait's end: asked only where there is one and the loop runs.
unfoldable pub provided : Outside → Session → Transport → Session × Option RtpPacket
provided o s t =
    if runs (t.channels 0) && (t.channels 0).has_provider
    then produce_next_packet o s
    else (s, none)

-- The end of a wait of the transport's loop.
unfoldable pub frame_due : Outside → Session → Bool → Session
frame_due o s sent = elim s.transport [
  | none ↦ s
  | some t ↦
      let (after, pkt) = provided o s t in record after { transport = some (on_timer t 0 pkt sent) }
]
