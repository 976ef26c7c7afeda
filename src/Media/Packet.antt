-- ===== src/Media/Packet.antt =====
-- Media packets, src/media/media_packet.c. The packets are a function of the address, as they are not
-- allocated here; an argument that may be a null pointer is an option. An answer of 0 is `true`, of -1
-- `false`.
pub mod Sharing
pub mod Calls
use ai_camera.Base.{
  ℕ, zero, suc, ◌+◌, ◌-◌, ◌*◌, ◌/◌, ◌%◌, ◌^◌, ◌≤◌, ◌<◌, ◌≡◌, refl, sym, ap, ◌∙◌, ◌≢◌, ◌↔◌, ◌⊎◌, inl,
  inr, Bool, true, false, not, ◌&&◌, ◌||◌, Option, none, some, List, [], ◌∷◌, ◌++◌, map, arith,
  dec_lt, dec_le, ℕ_discrete, ltb, leb, ◌==◌, if◌then◌else◌, ltb→lt, lt→ltb, ltb_false→le,
  le→ltb_false, ==_iff, ==_refl, Bool-cases, Option-cases, codes, length, get_or, take, drop,
  replicate, All, length-append, length-take, length-drop, take-append-drop, take-length,
  drop-length, take-append_le, drop-append_le, get_or-append_left, All-append, All-take, All-drop,
}
use ai_camera.Base.Integers.{ℤ, pos, negsuc}
use ai_camera.Media.Buffer.{
  Heap, media_buffer_create, media_buffer_create_with_data, media_buffer_ref, media_buffer_unref,
}

pub data MediaType : Type 0 where
  unknown video_h264 video_h265 video_mjpeg audio_aac audio_pcma audio_pcmu audio_opus : MediaType

pub record Metadata : Type 0 where
  pub media_type : MediaType
  pub timestamp : ℤ
  pub duration : ℤ
  pub is_key_frame : ℤ
  pub has_aud : ℤ
  pub width : ℤ
  pub height : ℤ
  pub fps : ℤ
  pub sample_rate : ℤ
  pub channels : ℤ

pub record V4l2Data : Type 0 where
  pub fd : ℤ
  pub buffer_index : ℤ
  pub mmap_ptr : Option ℕ
  pub mmap_size : ℕ

pub record MediaPacket : Type 0 where
  pub metadata : Metadata
  pub buffer : Option ℕ
  pub v4l2 : V4l2Data

pub record Memory : Type 0 where
  pub heap : Heap
  pub packets : ℕ → MediaPacket

abbrev pub no_v4l2 : V4l2Data
no_v4l2 = record { fd = negsuc 0; buffer_index = negsuc 0; mmap_ptr = none; mmap_size = 0 }

abbrev pub no_metadata : Metadata
no_metadata = record {
  media_type = unknown;
  timestamp = pos 0;
  duration = pos 0;
  is_key_frame = pos 0;
  has_aud = pos 0;
  width = pos 0;
  height = pos 0;
  fps = pos 0;
  sample_rate = pos 0;
  channels = pos 0;
}

abbrev pub store : (ℕ → MediaPacket) → ℕ → MediaPacket → ℕ → MediaPacket
store packets id p i = if i == id then p else packets i

unfoldable pub media_packet_init : Memory → Option ℕ → Memory
media_packet_init m none = m
media_packet_init m (some id) = record m {
  packets = store m.packets id (record { metadata = no_metadata; buffer = none; v4l2 = no_v4l2 });
}

-- `media_buffer_unref` of a packet's buffer, if it has one.
unfoldable pub released : Heap → Option ℕ → Heap
released h none = h
released h (some b) = media_buffer_unref h b

unfoldable pub media_packet_clear : Memory → Option ℕ → Memory
media_packet_clear m none = m
media_packet_clear m (some id) = record {
  heap = released m.heap (m.packets id).buffer;
  packets = store m.packets id (record (m.packets id) { buffer = none; v4l2 = no_v4l2 });
}

abbrev is_some : Option ℕ → Bool
is_some none = false
is_some (some i) = true

-- The packet with the buffer that was made, or with none.
abbrev pub with_buffer : Memory → ℕ → Heap × Option ℕ → Memory × Bool
with_buffer m id (h, buffer) = (
  record { heap = h; packets = store m.packets id (record (m.packets id) { buffer = buffer }) },
  is_some buffer,
)

unfoldable pub media_packet_alloc_buffer : Memory → Option ℕ → ℕ → Bool → Option ℕ → Memory × Bool
media_packet_alloc_buffer m none size allocated data_at = (m, false)
media_packet_alloc_buffer m (some id) size allocated data_at =
    if size == 0
    then (m, false)
    else with_buffer m id
        (media_buffer_create (released m.heap (m.packets id).buffer) size allocated data_at)

unfoldable pub media_packet_set_data :
    Memory → Option ℕ → Option ℕ → ℕ → Option ℕ → ℕ → Bool → Memory × Bool
media_packet_set_data m none data_at size free_func user_data allocated = (m, false)
media_packet_set_data m (some id) none size free_func user_data allocated = (m, false)
media_packet_set_data m (some id) (some address) size free_func user_data allocated =
    if size == 0
    then (m, false)
    else with_buffer m id (
        media_buffer_create_with_data (released m.heap (m.packets id).buffer) (some address) size
          free_func user_data allocated)

-- `media_buffer_ref` of a packet's buffer, if it has one.
unfoldable pub shared : Heap → Option ℕ → Heap
shared h none = h
shared h (some b) = media_buffer_ref h b

unfoldable pub media_packet_copy : Memory → Option ℕ → Option ℕ → Memory × Bool
media_packet_copy m (some src) (some dst) = (
  record {
    heap = shared m.heap (m.packets src).buffer;
    packets = store m.packets dst (m.packets src);
  },
  true,
)
media_packet_copy m _ _ = (m, false)

unfoldable pub media_type_name : MediaType → List ℕ
media_type_name unknown = codes "UNKNOWN"
media_type_name video_h264 = codes "H264"
media_type_name video_h265 = codes "H265"
media_type_name video_mjpeg = codes "MJPEG"
media_type_name audio_aac = codes "AAC"
media_type_name audio_pcma = codes "PCMA"
media_type_name audio_pcmu = codes "PCMU"
media_type_name audio_opus = codes "OPUS"

unfoldable pub media_type_is_video : MediaType → Bool
media_type_is_video video_h264 = true
media_type_is_video video_h265 = true
media_type_is_video video_mjpeg = true
media_type_is_video _ = false

unfoldable pub media_type_is_audio : MediaType → Bool
media_type_is_audio audio_aac = true
media_type_is_audio audio_pcma = true
media_type_is_audio audio_pcmu = true
media_type_is_audio audio_opus = true
media_type_is_audio _ = false
