-- ===== src/Rtp/Interleaved/Delivery.antt =====
-- The frames of `AsioTcpRtpSender::Send`, src/rtp/rtpsender.cpp, as the loop of
-- src/rtsp/rtspsession.cpp takes them apart again.
use ai_camera.Base.{
  ℕ, zero, suc, ◌+◌, ◌-◌, ◌^◌, ◌≤◌, ◌<◌, ◌≡◌, refl, ◌≢◌, true, false, Option, none, some, List, [],
  ◌∷◌, ◌++◌, map, arith, ltb, leb, ◌==◌, length, take, drop, All, length-append, length-take,
  length-drop, take-length, drop-length,
}
use mathlib.Core.List.{append_assoc}
use ai_camera.Base.Bytes.{to_u8, shr}
use ai_camera.Rtp.Packet.{RtpPacket, rtp_tcp_head_size, slice}
use ai_camera.Rtp.Sender.{tcp_bytes}
use ai_camera.Rtp.Interleaved.{
  Piece, rtp_data, Channels, dispatch, frame_length, process_interleaved_data,
}

-- The loop ends: the buffer's length and one more round are fuel enough.
pub process_interleaved_data-ends :
    (fuel : ℕ) (c : Channels) (buffer : List ℕ)
    → length buffer < fuel
    → process_interleaved_data fuel c buffer ≢ none
unfolding process_interleaved_data
process_interleaved_data-ends zero c buffer h = omega arith
process_interleaved_data-ends (suc fuel) c buffer h = ground (
  arith,
  process_interleaved_data-ends fuel c (drop (4 + frame_length buffer) buffer),
  length-drop (4 + frame_length buffer) buffer,
)

-- A packet that fits its buffer and the length field.
pub record Framed (p : RtpPacket) : Type 0 where
  pub not_empty : rtp_tcp_head_size < p.size
  pub in_buffer : p.size ≤ length p.bytes
  pub in_field : p.size < 2 ^ 16

-- The RTP packet behind the room for the interleaved header.
abbrev pub rtp_bytes : RtpPacket → List ℕ
rtp_bytes p = slice p.bytes rtp_tcp_head_size (p.size - rtp_tcp_head_size)

-- What packets sent one after the other put on the connection; `none` when one is refused.
unfoldable pub stream : ℕ → List RtpPacket → Option (List ℕ)
stream channel [] = some []
stream channel (p ∷ ps) = elim (tcp_bytes channel p) [
  | none ↦ none
  | some bytes ↦ elim (stream channel ps) [ none ↦ none | some rest ↦ some (bytes ++ rest) ]
]

-- The frame that is sent.
abbrev frame : ℕ → RtpPacket → List ℕ
frame channel p =
    b'$' ∷ to_u8 channel ∷ to_u8 (shr (p.size - 4) 8) ∷ to_u8 (p.size - 4) ∷ rtp_bytes p

-- The frames one after the other.
abbrev pub joined : ℕ → List RtpPacket → List ℕ
joined channel [] = []
joined channel (p ∷ ps) = frame channel p ++ joined channel ps

length-rtp_bytes : (p : RtpPacket) → Framed p → length (rtp_bytes p) ≡ p.size - 4
length-rtp_bytes p f = omega (
  arith,
  f.not_empty,
  f.in_buffer,
  length-take (p.size - 4) (drop 4 p.bytes),
  length-drop 4 p.bytes,
)

tcp_bytes-frame :
    (channel : ℕ) (p : RtpPacket) → Framed p → tcp_bytes channel p ≡ some (frame channel p)
unfolding tcp_bytes
tcp_bytes-frame channel p f =
    let accepted : leb p.size 4 ≡ false = ground (arith, f.not_empty) in rw accepted refl

-- One frame is one round.
process_interleaved_data-frame :
    (fuel : ℕ) (c : Channels) (channel : ℕ) (p : RtpPacket) (rest : List ℕ) (pieces : List Piece)
    (left : List ℕ)
    → channel < 256
    → channel ≡ c.rtp_channel
    → c.rtp_channel ≢ c.rtcp_channel
    → Framed p
    → process_interleaved_data fuel c rest ≡ some (pieces, left)
    → process_interleaved_data (suc fuel) c (frame channel p ++ rest)
      ≡ some (rtp_data (rtp_bytes p) ∷ pieces, left)
unfolding process_interleaved_data dispatch
process_interleaved_data-frame fuel c channel p rest pieces left small ours apart f done =
    let size = length-rtp_bytes p f in
    let sent = frame channel p ++ rest in
    let len : frame_length sent ≡ length (rtp_bytes p) = omega (arith, size, f.in_field) in
    let four : 4 + length (rtp_bytes p) ≡ suc (suc (suc (suc (length (rtp_bytes p))))) =
      omega arith in
    let enough : ltb (length sent) 4 ≡ false = ground arith in
    let whole : ltb (length sent) (4 + frame_length sent) ≡ false =
      ground (arith, len, length-append (rtp_bytes p) rest) in
    let behind : drop (4 + frame_length sent) sent ≡ rest =
      rw (len, four) (drop-length (rtp_bytes p) rest) in
    let inside : take (frame_length sent) (drop 4 sent) ≡ rtp_bytes p =
      rw len (take-length (rtp_bytes p) rest) in
    let mine : (to_u8 channel == c.rtcp_channel) ≡ false = ground arith in
    let known : (to_u8 channel == c.rtp_channel) ≡ true = ground arith in
    rw (enough, process_interleaved_data, whole, behind, done, inside, mine, known) refl

-- Packets sent one after the other over TCP on the session's RTP channel, and then other bytes: the
-- loop at the other end hands over the RTP packets, whole and in order, and treats the other bytes
-- as it does when they come alone.
pub process_interleaved_data-stream :
    (fuel : ℕ) (c : Channels) (pkts : List RtpPacket) (rest : List ℕ) (pieces : List Piece)
    (left : List ℕ)
    → c.rtp_channel < 256
    → c.rtp_channel ≢ c.rtcp_channel
    → All Framed pkts
    → process_interleaved_data fuel c rest ≡ some (pieces, left)
    → (stream c.rtp_channel pkts ≡ some (joined c.rtp_channel pkts))
      × (process_interleaved_data (length pkts + fuel) c (joined c.rtp_channel pkts ++ rest)
          ≡ some (map (λ p. rtp_data (rtp_bytes p)) pkts ++ pieces, left))
unfolding stream
process_interleaved_data-stream fuel c [] rest pieces left small apart h done =
    let zeroed : 0 + fuel ≡ fuel = omega arith in (refl, rw zeroed done)
process_interleaved_data-stream fuel c (p ∷ ps) rest pieces left small apart (h, hs) done =
    let (sent, read) =
      process_interleaved_data-stream fuel c ps rest pieces left small apart hs done in
    let one_more : suc (length ps) + fuel ≡ suc (length ps + fuel) = omega arith in
    (
      rw (stream, tcp_bytes-frame c.rtp_channel p h, sent) refl,
      rw (one_more, append_assoc (frame c.rtp_channel p) (joined c.rtp_channel ps) rest)
          (process_interleaved_data-frame (length ps + fuel) c c.rtp_channel p
            (joined c.rtp_channel ps ++ rest) _ left small refl apart h read),
    )
