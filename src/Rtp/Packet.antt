-- ===== src/Rtp/Packet.antt =====
-- Packets and channels of include/ai-camera/rtp/rtp.h and media.h. The buffer of a packet is the
-- list of its 1600 bytes: 4 bytes for the interleaved header, 12 for the RTP header, the payload.
use ai_camera.Base.{
  ℕ, ◌+◌, ◌≤◌, ◌≡◌, ◌≢◌, Bool, true, false, List, ◌++◌, arith, if◌then◌else◌, length, take, drop,
  length-append, length-take, length-drop, take-length, drop-length,
}

abbrev pub rtp_header_size : ℕ
rtp_header_size = 12

abbrev pub max_rtp_payload_size : ℕ
max_rtp_payload_size = 1420

abbrev pub rtp_tcp_head_size : ℕ
rtp_tcp_head_size = 4

abbrev pub rtp_version : ℕ
rtp_version = 2

-- The bytes that `new uint8_t[1600]` allocates.
abbrev pub packet_capacity : ℕ
packet_capacity = 1600

abbrev pub max_media_channel : ℕ
max_media_channel = 2

pub record RtpPacket : Type 0 where
  pub bytes : List ℕ
  pub size : ℕ
  pub timestamp : ℕ
  pub kind : ℕ
  pub last : ℕ

-- A packet whose buffer holds `fresh`, what the allocation left in it.
abbrev pub new_packet : List ℕ → RtpPacket
new_packet fresh = record { bytes = fresh; size = 0; timestamp = 0; kind = 0; last = 0 }

-- `memcpy(buf + offset, src, length src)`.
unfoldable pub write_at : List ℕ → ℕ → List ℕ → List ℕ
write_at buf offset src = take offset buf ++ (src ++ drop (offset + length src) buf)

-- What `size - from` bytes from `from` on are.
abbrev pub slice : List ℕ → ℕ → ℕ → List ℕ
slice buf from count = take count (drop from buf)

pub record RtpHeader : Type 0 where
  pub payload : ℕ
  pub seq : ℕ
  pub ssrc : ℕ

pub data TransportInfo : Type 0 where
  -- The RTP and RTCP channels.
  tcp_info : ℕ → ℕ → TransportInfo
  -- The local RTP and RTCP ports, then the peer's.
  udp_info : ℕ → ℕ → ℕ → ℕ → TransportInfo
  -- The address and the port.
  multicast_info : List ℕ → ℕ → TransportInfo

pub data TransportMode : Type 0 where
  rtp_over_tcp rtp_over_udp rtp_over_multicast : TransportMode

pub record MediaChannelInfo : Type 0 where
  pub rtp_header : RtpHeader
  pub clock_rate : ℕ
  pub packet_count : ℕ
  pub octet_count : ℕ
  pub is_setup : Bool
  pub is_playing : Bool
  pub transport_info : TransportInfo
  pub transport_mode : TransportMode

unfoldable pub set_tcp_mode : MediaChannelInfo → ℕ → ℕ → MediaChannelInfo
set_tcp_mode info rtp_ch rtcp_ch = record info {
  transport_info = tcp_info rtp_ch rtcp_ch;
  transport_mode = rtp_over_tcp;
  is_setup = true;
}

unfoldable pub set_udp_mode : MediaChannelInfo → ℕ → ℕ → ℕ → ℕ → MediaChannelInfo
set_udp_mode info peer_rtp peer_rtcp local_rtp local_rtcp = record info {
  transport_info = udp_info local_rtp local_rtcp peer_rtp peer_rtcp;
  transport_mode = rtp_over_udp;
  is_setup = true;
}

unfoldable pub set_multicast_mode : MediaChannelInfo → List ℕ → ℕ → MediaChannelInfo
set_multicast_mode info ip port = record info {
  transport_info = multicast_info ip port;
  transport_mode = rtp_over_multicast;
  is_setup = true;
}

-- `std::get` throws when the variant holds another alternative: that is `bad_access`.
pub data Access {ℓ} (A : Type ℓ) : Type ℓ where
  nullptr bad_access : Access A
  found : A → Access A

abbrev tcp_of : TransportInfo → Access (ℕ × ℕ)
tcp_of (tcp_info rtp_ch rtcp_ch) = found (rtp_ch, rtcp_ch)
tcp_of _ = bad_access

abbrev udp_of : TransportInfo → Access (ℕ × ℕ × ℕ × ℕ)
udp_of (udp_info local_rtp local_rtcp peer_rtp peer_rtcp) =
    found (local_rtp, local_rtcp, peer_rtp, peer_rtcp)
udp_of _ = bad_access

abbrev multicast_of : TransportInfo → Access (List ℕ × ℕ)
multicast_of (multicast_info ip port) = found (ip, port)
multicast_of _ = bad_access

abbrev is_mode : TransportMode → TransportMode → Bool
is_mode rtp_over_tcp rtp_over_tcp = true
is_mode rtp_over_udp rtp_over_udp = true
is_mode rtp_over_multicast rtp_over_multicast = true
is_mode _ _ = false

unfoldable pub get_tcp_info : MediaChannelInfo → Access (ℕ × ℕ)
get_tcp_info info =
    if is_mode info.transport_mode rtp_over_tcp then tcp_of info.transport_info else nullptr

unfoldable pub get_udp_info : MediaChannelInfo → Access (ℕ × ℕ × ℕ × ℕ)
get_udp_info info =
    if is_mode info.transport_mode rtp_over_udp then udp_of info.transport_info else nullptr

unfoldable pub get_multicast_info : MediaChannelInfo → Access (List ℕ × ℕ)
get_multicast_info info =
    if is_mode info.transport_mode rtp_over_multicast
    then multicast_of info.transport_info
    else nullptr

-- The mode says which alternative the variant holds, so no accessor throws.
pub data ModeAgrees : MediaChannelInfo → Type 0 where
  agrees_tcp :
      {i : MediaChannelInfo} {a b : ℕ}
      → i.transport_mode ≡ rtp_over_tcp
      → i.transport_info ≡ tcp_info a b
      → ModeAgrees i
  agrees_udp :
      {i : MediaChannelInfo} {a b c d : ℕ}
      → i.transport_mode ≡ rtp_over_udp
      → i.transport_info ≡ udp_info a b c d
      → ModeAgrees i
  agrees_multicast :
      {i : MediaChannelInfo} {ip : List ℕ} {p : ℕ}
      → i.transport_mode ≡ rtp_over_multicast
      → i.transport_info ≡ multicast_info ip p
      → ModeAgrees i

pub get_info-ModeAgrees :
    (i : MediaChannelInfo)
    → ModeAgrees i
    → (get_tcp_info i ≢ bad_access)
      × (get_udp_info i ≢ bad_access)
      × (get_multicast_info i ≢ bad_access)
unfolding get_tcp_info get_udp_info get_multicast_info
get_info-ModeAgrees i (agrees_tcp m e) = rw (m, e) ((λ h. cc), (λ h. cc), (λ h. cc))
get_info-ModeAgrees i (agrees_udp m e) = rw (m, e) ((λ h. cc), (λ h. cc), (λ h. cc))
get_info-ModeAgrees i (agrees_multicast m e) = rw (m, e) ((λ h. cc), (λ h. cc), (λ h. cc))

pub length-write_at :
    (buf : List ℕ) (offset : ℕ) (src : List ℕ)
    → offset + length src ≤ length buf
    → length (write_at buf offset src) ≡ length buf
unfolding write_at
length-write_at buf offset src h = omega (
  arith,
  length-append (take offset buf) (src ++ drop (offset + length src) buf),
  length-append src (drop (offset + length src) buf),
  length-take offset buf,
  length-drop (offset + length src) buf,
)

-- What was written is read back.
pub slice-write_at :
    (buf : List ℕ) (offset : ℕ) (src : List ℕ)
    → offset ≤ length buf
    → slice (write_at buf offset src) offset (length src) ≡ src
unfolding write_at
slice-write_at buf offset src h =
    let front : length (take offset buf) ≡ offset = omega (arith, length-take offset buf) in
    let behind : drop offset (take offset buf ++ (src ++ drop (offset + length src) buf))
        ≡ src ++ drop (offset + length src) buf =
      rw front at (drop-length (take offset buf) (src ++ drop (offset + length src) buf)) in
    rw behind (take-length src _)
