-- ===== src/Rtsp/Session/Supply/Endless.antt =====
-- The supply of packets of src/rtsp/rtspsession.cpp while a file is open.
use ai_camera.Base.{◌<◌, ◌≡◌, Bool, true, Option, none, some, List, [], ◌∷◌, length}
use ai_camera.Rtp.Packet.{RtpPacket}
use ai_camera.Rtp.RawSource.{RawSource, NalUnit}
use ai_camera.Rtsp.Session.{Session, Outside}
use ai_camera.Rtsp.Session.Playback.{produce_next_packet}

abbrev Grows : List RtpPacket → List RtpPacket × Bool → Type 0
Grows queue result = length queue < length result.0

-- An open source that holds a unit.
pub record HasUnits (source : RawSource) : Type 0 where
  pub is_opened : source.is_opened ≡ true
  pub some_units : 0 < length source.cached_nals

-- A session that has a file open that holds a unit, and an H.264 source.
pub record HasFile (s : Session) : Type 0 where
  pub source : RawSource
  pub is_source : s.nal_source ≡ some source
  pub has_h264 : s.has_h264 ≡ true
  pub units : HasUnits source

-- The same with packets.
abbrev Fed : Session → Type 0
Fed s = (0 < length s.packet_queue) × HasFile s

abbrev Same : RawSource → RawSource → Type 0
Same source after = (after.is_opened ≡ source.is_opened) × (after.cached_nals ≡ source.cached_nals)

unfoldable Reads : RawSource → RawSource × Option (List NalUnit) → Type 0
Reads source (after, none) = Same source after
Reads source (after, some frame) = Same source after × (0 < length frame)

-- A packet, and the file behind it as before.
abbrev Gives : Session × Option RtpPacket → Type 0
Gives (t, given) = ((pkt : RtpPacket) × (given ≡ some pkt)) × HasFile t

-- What so many calls give, one behind the other, each with what it takes from outside.
unfoldable pub given_packets : List Outside → Session → List (Option RtpPacket)
given_packets [] s = []
given_packets (o ∷ os) s =
    let (after, given) = produce_next_packet o s in given ∷ given_packets os after

abbrev pub IsSupplied : Option RtpPacket → Type 0
IsSupplied given = (pkt : RtpPacket) × (given ≡ some pkt)
