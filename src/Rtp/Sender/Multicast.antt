-- ===== src/Rtp/Sender/Multicast.antt =====
-- The datagrams of the UDP and the multicast sender of src/rtp/rtpsender.cpp, compared.
use ai_camera.Base.{
  ℕ, suc, ◌+◌, ◌-◌, ◌%◌, ◌^◌, ◌≤◌, ◌<◌, ◌≡◌, refl, false, some, List, ◌∷◌, ◌++◌, arith, leb, ◌==◌,
  length, take, take-length, take-append_le,
}
use ai_camera.Rtp.Packet.{RtpPacket}
use ai_camera.Rtp.Sender.{udp_bytes, multicast_bytes}

-- A packet as `HandleFrame` lays it out.
abbrev pub in_buffer : ℕ → ℕ → ℕ → ℕ → List ℕ → List ℕ → ℕ → ℕ → ℕ → RtpPacket
in_buffer r0 r1 r2 r3 packet spare timestamp kind last = record {
  bytes = r0 ∷ r1 ∷ r2 ∷ r3 ∷ (packet ++ spare);
  size = length packet + 4;
  timestamp = timestamp;
  kind = kind;
  last = last;
}

-- A packet of 4 bytes or more that stands in a buffer behind the 4 bytes of room, with spare bytes
-- behind it: the UDP sender's datagram is the packet, and the multicast sender's is the 4 bytes of
-- room and then the packet less its last 4 bytes.
pub multicast_bytes-udp_bytes :
    (r0 r1 r2 r3 : ℕ) (packet spare : List ℕ) (timestamp kind last : ℕ)
    → 4 ≤ length packet
    → length packet + 4 < 2 ^ 64
    → (udp_bytes (in_buffer r0 r1 r2 r3 packet spare timestamp kind last) ≡ some packet)
      × (multicast_bytes (in_buffer r0 r1 r2 r3 packet spare timestamp kind last)
          ≡ some (r0 ∷ r1 ∷ r2 ∷ r3 ∷ take (length packet - 4) packet))
unfolding udp_bytes multicast_bytes
multicast_bytes-udp_bytes r0 r1 r2 r3 packet spare timestamp kind last large wide =
    let not_small : leb (length packet + 4) 4 ≡ false = ground arith in
    let not_zero : (length packet + 4 == 0) ≡ false = ground arith in
    let same : length packet + 4 - 4 ≡ length packet = omega arith in
    let wrapped : (length packet + 4 + 2 ^ 64 - 4) % 2 ^ 64
        ≡ suc (suc (suc (suc (length packet - 4)))) =
      omega arith in
    (
      rw (not_small, same, take-length packet spare) refl,
      rw (not_zero, wrapped, take-append_le (length packet - 4) packet spare (omega arith)) refl,
    )
