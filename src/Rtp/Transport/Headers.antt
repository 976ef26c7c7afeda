-- ===== src/Rtp/Transport/Headers.antt =====
-- The RTP headers that `FillRtpHeader` of src/rtp/rtptransport.cpp writes, read as RFC 3550 lays
-- them out, and the sequence numbers of the packets that `SendRtpPacket` sends one after the other.
use ai_camera.Base.{
  ℕ, ◌+◌, ◌*◌, ◌/◌, ◌%◌, ◌^◌, ◌<◌, ◌≡◌, refl, sym, ap, ◌∙◌, true, false, Option, none, some, List,
  [], ◌∷◌, ◌++◌, map, arith, ◌==◌, if◌then◌else◌, ==_refl, length, All,
}
use mathlib.Core.List.{append_assoc, append-nil}
use ai_camera.Base.Bytes.{to_u8, to_u16, to_u64, shr}
use ai_camera.Rtp.Packet.{
  RtpPacket, RtpHeader, MediaChannelInfo, slice, slice-write_at, rtp_tcp_head_size, rtp_header_size,
  packet_capacity,
}
use ai_camera.Rtp.Transport.{Transport, header_bytes, fill_rtp_header, send_rtp, send_rtp_packet}

-- The fields of a header with no padding, no extension and no contributing sources.
pub record Fields : Type 0 where
  pub version : ℕ
  pub marker : ℕ
  pub payload_type : ℕ
  pub sequence : ℕ
  pub time : ℕ
  pub source : ℕ

-- RFC 3550, section 5.1.
unfoldable pub read_header : List ℕ → Option Fields
read_header (v ∷ m ∷ s1 ∷ s0 ∷ t3 ∷ t2 ∷ t1 ∷ t0 ∷ c3 ∷ c2 ∷ c1 ∷ c0 ∷ rest) =
    if v % 64 == 0
    then some (record {
      version = v / 64;
      marker = m / 128;
      payload_type = m % 128;
      sequence = s1 * 256 + s0;
      time = t3 * 2 ^ 24 + t2 * 2 ^ 16 + t1 * 256 + t0;
      source = c3 * 2 ^ 24 + c2 * 2 ^ 16 + c1 * 256 + c0;
    })
    else none
read_header _ = none

-- The fields that a packet of a channel is to carry.
abbrev pub fields_of : RtpHeader → RtpPacket → Fields
fields_of h pkt = record {
  version = 2;
  marker = if pkt.last == 0 then 0 else 1;
  payload_type = h.payload;
  sequence = h.seq;
  time = pkt.timestamp;
  source = h.ssrc;
}

-- The widths of the bit fields.
pub record Fits (h : RtpHeader) (pkt : RtpPacket) : Type 0 where
  pub payload_fits : h.payload < 128
  pub seq_fits : h.seq < 2 ^ 16
  pub ssrc_fits : h.ssrc < 2 ^ 32
  pub timestamp_fits : pkt.timestamp < 2 ^ 32

two_bytes : (x : ℕ) → x < 2 ^ 16 → to_u8 (shr x 8) * 256 + to_u8 x ≡ x
two_bytes x h = omega arith

four_bytes :
    (x : ℕ)
    → x < 2 ^ 32
    → to_u8 (shr x 24) * 2 ^ 24 + to_u8 (shr x 16) * 2 ^ 16 + to_u8 (shr x 8) * 256 + to_u8 x ≡ x
four_bytes x h = omega arith

second_byte : (p l : ℕ) → p < 128 → l < 2 → ((p + l * 128) / 128 ≡ l) × ((p + l * 128) % 128 ≡ p)
second_byte p l hp hl = (omega arith, omega arith)

read_header-header_bytes :
    (h : RtpHeader) (pkt : RtpPacket)
    → Fits h pkt
    → read_header (header_bytes h pkt) ≡ some (fields_of h pkt)
unfolding read_header header_bytes
read_header-header_bytes h pkt f =
    let marks : (if pkt.last == 0 then 0 else 1) < 2 = ground arith in
    let (m, p) = second_byte h.payload (if pkt.last == 0 then 0 else 1) f.payload_fits marks in
    rw
      (
        m,
        p,
        two_bytes h.seq f.seq_fits,
        four_bytes pkt.timestamp f.timestamp_fits,
        four_bytes h.ssrc f.ssrc_fits,
      )
      refl

-- What a packet's buffer holds as its header.
abbrev pub header_of : ℕ × RtpPacket → Option Fields
header_of p = read_header (slice p.1.bytes rtp_tcp_head_size rtp_header_size)

abbrev next_header : RtpHeader → RtpHeader
next_header h = record h { seq = to_u16 (h.seq + 1) }

-- The headers of packets sent one after the other.
unfoldable pub numbered : RtpHeader → List RtpPacket → List (Option Fields)
numbered h [] = []
numbered h (p ∷ ps) = some (fields_of h p) ∷ numbered (next_header h) ps

-- Packets sent one after the other, each with success.
unfoldable pub send_all : ℕ → Transport → List RtpPacket → Transport
send_all id t [] = t
send_all id t (p ∷ ps) = send_all id (send_rtp_packet t id p true).0 ps

pub record HeaderFits (h : RtpHeader) : Type 0 where
  pub payload_type_fits : h.payload < 128
  pub sequence_fits : h.seq < 2 ^ 16
  pub source_fits : h.ssrc < 2 ^ 32

-- A packet whose buffer has room for the header, with a 32-bit timestamp.
abbrev pub Sendable : RtpPacket → Type 0
Sendable p = (packet_capacity ≡ length p.bytes) × (p.timestamp < 2 ^ 32)

-- What one send does to the transport of a channel.
record SentBy (t : Transport) (id : ℕ) (p : RtpPacket) (t' : Transport) : Type 0 where
  still_open : t'.is_closed ≡ false
  still_sends : t'.has_sender ≡ true
  handed_over : t'.handed ≡ t.handed ++ ((id, (fill_rtp_header (t.channels id).info p).1) ∷ [])
  header_next : (t'.channels id).info.rtp_header ≡ next_header (t.channels id).info.rtp_header
  counted : (t'.channels id).info.packet_count ≡ to_u64 ((t.channels id).info.packet_count + 1)

send_rtp_packet-SentBy :
    (t : Transport) (id : ℕ) (p : RtpPacket)
    → t.is_closed ≡ false
    → t.has_sender ≡ true
    → SentBy t id p (send_rtp_packet t id p true).0
unfolding send_rtp_packet send_rtp fill_rtp_header
send_rtp_packet-SentBy t id p o s =
    rw (o, s)
      (record {
        still_open = refl;
        still_sends = refl;
        handed_over = refl;
        header_next = rw (==_refl id) refl;
        counted = rw (==_refl id) refl;
      })

filled-header :
    (info : MediaChannelInfo) (id : ℕ) (p : RtpPacket)
    → HeaderFits info.rtp_header
    → Sendable p
    → header_of (id, (fill_rtp_header info p).1) ≡ some (fields_of info.rtp_header p)
unfolding fill_rtp_header header_bytes
filled-header info id p f (room, ts) =
    ap read_header (slice-write_at p.bytes 4 (header_bytes info.rtp_header p) (omega arith))
    ∙ read_header-header_bytes info.rtp_header p (record {
      payload_fits = f.payload_type_fits;
      seq_fits = f.sequence_fits;
      ssrc_fits = f.source_fits;
      timestamp_fits = ts;
    })

map-append_lem :
    (xs ys : List (ℕ × RtpPacket)) → map header_of (xs ++ ys) ≡ map header_of xs ++ map header_of ys
map-append_lem [] ys = refl
map-append_lem (x ∷ xs) ys =
    ap (λ (r : List (Option Fields)). header_of x ∷ r) (map-append_lem xs ys)

next_header-HeaderFits : (h : RtpHeader) → HeaderFits h → HeaderFits (next_header h)
next_header-HeaderFits h f = record {
  payload_type_fits = f.payload_type_fits;
  sequence_fits = omega arith;
  source_fits = f.source_fits;
}

-- Packets sent one after the other through a channel of an open transport whose sender accepts them
-- all: the sender is given, in order, packets whose headers RFC 3550 reads as version 2 with the
-- channel's payload type and source, each packet's marker and timestamp, and sequence numbers that
-- count up from the channel's by one and wrap at 2^16; and the channel's count of
-- packets, 64 bits wide, grows by their number.
pub send_all-numbered :
    (id : ℕ) (t : Transport) (pkts : List RtpPacket)
    → t.is_closed ≡ false
    → t.has_sender ≡ true
    → HeaderFits (t.channels id).info.rtp_header
    → (t.channels id).info.packet_count < 2 ^ 64
    → All Sendable pkts
    → (map header_of (send_all id t pkts).handed
        ≡ map header_of t.handed ++ numbered (t.channels id).info.rtp_header pkts)
      × (((send_all id t pkts).channels id).info.packet_count
          ≡ to_u64 ((t.channels id).info.packet_count + length pkts))
unfolding send_all numbered
send_all-numbered id t [] o s f c h = (sym (append-nil (map header_of t.handed)), omega arith)
send_all-numbered id t (p ∷ ps) o s f c (hp, hps) =
    let one = send_rtp_packet-SentBy t id p o s in
    let t1 = (send_rtp_packet t id p true).0 in
    let fits : HeaderFits (t1.channels id).info.rtp_header =
      rw one.header_next (next_header-HeaderFits _ f) in
    let (handed, count) =
      send_all-numbered id t1 ps one.still_open one.still_sends fits (omega (arith, one.counted))
        hps in
    (
      handed
          ∙ rw (one.header_next, one.handed_over)
              (rw
                (
                  map-append_lem t.handed ((id, (fill_rtp_header (t.channels id).info p).1) ∷ []),
                  filled-header (t.channels id).info id p f hp,
                )
                (append_assoc (map header_of t.handed) _ _)),
      count ∙ omega (arith, one.counted),
    )
