-- ===== src/Rtp/Transport.antt =====
-- `AsioRtpTransport`, src/rtp/rtptransport.cpp: the RTP header, the counters and the send loop of
-- each channel. The arrays that the source indexes by channel are one function of the channel. `timer`
-- says that a wait is pending that has not been cancelled, and `handed` lists the packets that the
-- sender was given. A sender's answer and a provider's packet are arguments.
pub mod Headers
pub mod Loop
use ai_camera.Base.{
  ℕ, zero, suc, ◌+◌, ◌-◌, ◌*◌, ◌/◌, ◌%◌, ◌^◌, ◌≤◌, ◌<◌, ◌≡◌, refl, sym, ap, ◌∙◌, ◌≢◌, ◌↔◌, ◌⊎◌, inl,
  inr, Bool, true, false, not, ◌&&◌, ◌||◌, Option, none, some, List, [], ◌∷◌, ◌++◌, map, arith,
  dec_lt, dec_le, ℕ_discrete, ltb, leb, ◌==◌, if◌then◌else◌, ltb→lt, lt→ltb, ltb_false→le,
  le→ltb_false, ==_iff, ==_refl, Bool-cases, Option-cases, codes, length, get_or, take, drop,
  replicate, All, length-append, length-take, length-drop, take-append-drop, take-length,
  drop-length, take-append_le, drop-append_le, get_or-append_left, All-append, All-take, All-drop,
}
use ai_camera.Base.Bytes.{to_u8, to_u16, to_u32, to_u64, shr, low_bits}
use ai_camera.Rtp.Packet.{
  RtpPacket, RtpHeader, MediaChannelInfo, write_at, rtp_version, max_media_channel,
  rtp_tcp_head_size, set_tcp_mode, set_udp_mode, set_multicast_mode,
}

pub record Channel : Type 0 where
  pub info : MediaChannelInfo
  pub frame_rate : ℕ
  pub has_provider : Bool
  pub is_loop_running : Bool
  pub timer : Bool

pub record Transport : Type 0 where
  pub has_sender : Bool
  pub is_multicast : Bool
  pub is_closed : Bool
  pub channels : ℕ → Channel
  pub handed : List (ℕ × RtpPacket)

abbrev pub update : Transport → ℕ → Channel → Transport
update t id c = record t { channels = λ i. if i == id then c else t.channels i }

abbrev pub with_info : Transport → ℕ → MediaChannelInfo → Transport
with_info t id info = update t id (record (t.channels id) { info = info })

abbrev out_of_range : ℕ → Bool
out_of_range id = leb max_media_channel id

-- The constructor's channels.
abbrev pub new_channel : MediaChannelInfo → Channel
new_channel info = record {
  info = info;
  frame_rate = 25;
  has_provider = false;
  is_loop_running = false;
  timer = false;
}

unfoldable pub set_clock_rate : Transport → ℕ → ℕ → Transport
set_clock_rate t id rate =
    if out_of_range id
    then t
    else with_info t id (record (t.channels id).info { clock_rate = rate })

unfoldable pub set_payload_type : Transport → ℕ → ℕ → Transport
set_payload_type t id payload_type =
    if out_of_range id
    then t
    else (let info = (t.channels id).info in
        with_info t id (record info {
          rtp_header = record info.rtp_header { payload = low_bits payload_type 7 };
        }))

unfoldable pub set_ssrc : Transport → ℕ → ℕ → Transport
set_ssrc t id ssrc =
    if out_of_range id
    then t
    else (let info = (t.channels id).info in
        with_info t id (record info { rtp_header = record info.rtp_header { ssrc = ssrc } }))

abbrev pub is_setup : Transport → ℕ → Bool
is_setup t id = ltb id max_media_channel && (t.channels id).info.is_setup

unfoldable pub set_rtp_over_tcp : Transport → ℕ → ℕ → ℕ → Transport × Bool
set_rtp_over_tcp t id rtp_channel rtcp_channel =
    if out_of_range id
    then (t, false)
    else (with_info t id (set_tcp_mode (t.channels id).info rtp_channel rtcp_channel), true)

-- `local_port` is what the sender's `GetLocalPort` returns; the transport has a sender, which the code
-- does not test.
unfoldable pub set_rtp_over_udp : Transport → ℕ → ℕ → ℕ → ℕ → Transport × Bool
set_rtp_over_udp t local_port id peer_rtp_port peer_rtcp_port =
    if out_of_range id then (t, false) else (
      with_info t id (
          set_udp_mode (t.channels id).info peer_rtp_port peer_rtcp_port local_port
            (to_u16 (local_port + 1))),
      true,
    )

unfoldable pub set_rtp_over_multicast : Transport → ℕ → List ℕ → ℕ → Transport × Bool
set_rtp_over_multicast t id peer_ip peer_port = if out_of_range id then (t, false) else (
  with_info (record t { is_multicast = true }) id
      (set_multicast_mode (t.channels id).info peer_ip peer_port),
  true,
)

-- The twelve bytes of the header: the bit fields of the first two, and the others in network order.
unfoldable pub header_bytes : RtpHeader → RtpPacket → List ℕ
header_bytes h pkt =
    (0 + 0 * 16 + 0 * 32 + rtp_version * 64)
    ∷ (h.payload + (if pkt.last == 0 then 0 else 1) * 128)
    ∷ to_u8 (shr h.seq 8)
    ∷ to_u8 h.seq
    ∷ to_u8 (shr pkt.timestamp 24)
    ∷ to_u8 (shr pkt.timestamp 16)
    ∷ to_u8 (shr pkt.timestamp 8)
    ∷ to_u8 pkt.timestamp
    ∷ to_u8 (shr h.ssrc 24)
    ∷ to_u8 (shr h.ssrc 16)
    ∷ to_u8 (shr h.ssrc 8)
    ∷ to_u8 h.ssrc
    ∷ []

-- The packet with its header, and the channel with the next sequence number.
unfoldable pub fill_rtp_header : MediaChannelInfo → RtpPacket → MediaChannelInfo × RtpPacket
fill_rtp_header info pkt = (
  record info { rtp_header = record info.rtp_header { seq = to_u16 (info.rtp_header.seq + 1) } },
  record pkt { bytes = write_at pkt.bytes rtp_tcp_head_size (header_bytes info.rtp_header pkt) },
)

-- `sent` says that the sender's `Send` returns no negative number.
unfoldable pub send_rtp : Transport → ℕ → RtpPacket → Bool → Transport × Bool
send_rtp t id pkt sent =
    if not t.has_sender
    then (t, false)
    else (let (info, filled) = fill_rtp_header (t.channels id).info pkt in
        (record (with_info t id info) { handed = t.handed ++ ((id, filled) ∷ []) }, sent))

unfoldable pub send_rtp_packet : Transport → ℕ → RtpPacket → Bool → Transport × Bool
send_rtp_packet t id pkt sent =
    if t.is_closed || not t.has_sender
    then (t, false)
    else (let (t1, ok) = send_rtp t id pkt sent in
        if not ok
        then (t1, false)
        else (let info = (t1.channels id).info in
            (
              with_info t1 id (record info {
                packet_count = to_u64 (info.packet_count + 1);
                octet_count = to_u64 (info.octet_count + pkt.size);
              }),
              true,
            )))

unfoldable pub start_event_loop : Channel → Channel
start_event_loop c =
    if c.is_loop_running then c else record c { is_loop_running = true; timer = true }

unfoldable pub stop_event_loop : Channel → Channel
stop_event_loop c = record c { is_loop_running = false; timer = false }

abbrev pub playing : Channel → Bool → Channel
playing c b = record c { info = record c.info { is_playing = b } }

unfoldable pub set_playing : Transport → ℕ → Bool → Transport
set_playing t id play =
    if out_of_range id
    then t
    else (let c = t.channels id in
        if play
        then (if not c.info.is_playing then update t id (start_event_loop (playing c true)) else t)
        else (if c.info.is_playing then update t id (stop_event_loop (playing c false)) else t))

unfoldable pub set_frame_rate : Transport → ℕ → ℕ → Transport
set_frame_rate t id fps =
    if out_of_range id
    then t
    else update t id (record (t.channels id) { frame_rate = (if ltb 0 fps then fps else 25) })

unfoldable pub set_frame_provider : Transport → ℕ → Bool → Transport
set_frame_provider t id provider =
    if out_of_range id then t else update t id (record (t.channels id) { has_provider = provider })

abbrev pub start : Transport → Transport
start t = record t { is_closed = false }

unfoldable pub stop : Transport → Transport
stop t = if t.is_closed then t else record t {
  is_closed = true;
  channels = λ i. if ltb i max_media_channel then stop_event_loop (t.channels i) else t.channels i;
}

-- What `OnTimer` sends: the provider's packet, if there is one.
unfoldable pub provide : Transport → ℕ → Option RtpPacket → Bool → Transport
provide t id none sent = t
provide t id (some pkt) sent = (send_rtp_packet t id pkt sent).0

abbrev pub runs : Channel → Bool
runs c = c.info.is_playing && c.is_loop_running

-- The handler of a wait that has ended with no error.
unfoldable pub on_timer : Transport → ℕ → Option RtpPacket → Bool → Transport
on_timer t id produced sent =
    let t0 = update t id (record (t.channels id) { timer = false }) in
    if not (runs (t0.channels id))
    then t0
    else (let t1 = (if (t0.channels id).has_provider then provide t0 id produced sent else t0) in
        if not (runs (t1.channels id))
        then t1
        else update t1 id (record (t1.channels id) { timer = true }))
