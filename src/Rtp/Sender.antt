-- ===== src/Rtp/Sender.antt =====
-- The bytes that the three senders of src/rtp/rtpsender.cpp hand to their sockets. `none` is the
-- early return of -1, and what the socket answers is not part of the model.
pub mod Multicast
use ai_camera.Base.{
  ℕ, zero, suc, ◌+◌, ◌-◌, ◌*◌, ◌/◌, ◌%◌, ◌^◌, ◌≤◌, ◌<◌, ◌≡◌, refl, sym, ap, ◌∙◌, ◌≢◌, ◌↔◌, ◌⊎◌, inl,
  inr, Bool, true, false, not, ◌&&◌, ◌||◌, Option, none, some, List, [], ◌∷◌, ◌++◌, map, arith,
  dec_lt, dec_le, ℕ_discrete, ltb, leb, ◌==◌, if◌then◌else◌, ltb→lt, lt→ltb, ltb_false→le,
  le→ltb_false, ==_iff, ==_refl, Bool-cases, Option-cases, codes, length, get_or, take, drop,
  replicate, All, length-append, length-take, length-drop, take-append-drop, take-length,
  drop-length, take-append_le, drop-append_le, get_or-append_left, All-append, All-take, All-drop,
}
use ai_camera.Base.Bytes.{to_u8, shr}
use ai_camera.Rtp.Packet.{RtpPacket, rtp_tcp_head_size, slice}

-- `AsioTcpRtpSender::Send`: a dollar sign, the channel, the length in two bytes, the packet.
unfoldable pub tcp_bytes : ℕ → RtpPacket → Option (List ℕ)
tcp_bytes channel pkt =
    if leb pkt.size rtp_tcp_head_size
    then none
    else (let payload_size = pkt.size - rtp_tcp_head_size in
        some (
          b'$'
          ∷ to_u8 channel
          ∷ to_u8 (shr payload_size 8)
          ∷ to_u8 payload_size
          ∷ slice pkt.bytes rtp_tcp_head_size payload_size))

-- `AsioUdpRtpSender::Send`.
unfoldable pub udp_bytes : RtpPacket → Option (List ℕ)
udp_bytes pkt = if leb pkt.size 4 then none else some (slice pkt.bytes 4 (pkt.size - 4))

-- `AsioMulticastRtpSender::Send`; the count of bytes is a `size_t`, and wraps for a size below 4.
unfoldable pub multicast_bytes : RtpPacket → Option (List ℕ)
multicast_bytes pkt =
    if pkt.size == 0 then none else some (slice pkt.bytes 0 ((pkt.size + 2 ^ 64 - 4) % 2 ^ 64))
